-- ===== src/Vectors.antt =====
-- src/modality_vectors.cpp: vectors as values, with a quantized copy of each at the negated key, and
-- the search among the copies. A scalar is its bytes; `quantum` stands for its multiplication by
-- `float_scaling_k` and the cast to eight bits, and `metric` for the distances in floating point.
pub mod Mirrors
pub mod Matches
use ukv.Prelude.{
  ℕ, zero, suc, ◌+◌, ◌-◌, ◌*◌, ◌%◌, ◌^◌, Bool, true, false, Option, none, some, List, [], ◌∷◌, ◌++◌,
  length, take, drop, ltb, leb, ◌==◌, if◌then◌else◌,
}
use ukv.Types.{CollectionKey}
use ukv.Arguments.{Strided, at_or, PlacesArg, place_at, tasks_from, viewed}
use ukv.Umem.Entries.{Value, Pair}
use ukv.PriorityQueue.{Queue, init, push}
use ukv.Paths.Bucket.{Bytes, bytes_of}
use ukv.Paths.Batch.{Engine}
use ukv.FullScan.{ScannedEngine, Ended, full_scan_collection}

-- `ukv_vector_scalar_t`
pub data Scalar : Type 0 where
  f32 : Scalar
  f64 : Scalar
  f16 : Scalar
  i8 : Scalar

unfoldable pub size_bytes : Scalar → ℕ
size_bytes f32 = 4
size_bytes f64 = 8
size_bytes f16 = 2
size_bytes i8 = 1

-- `vectors_arg_t`: a pointer is the memory that it points to.
pub record VectorsArg : Type 0 where
  pub contents : Strided Bytes
  pub offsets : Strided ℕ
  pub vectors_stride : ℕ
  pub scalar_type : Scalar
  pub dimensions : ℕ
  pub tasks_count : ℕ

-- What the pointer of `vectors_arg_t::operator[]` leads to.
unfoldable pub memory_at : VectorsArg → ℕ → Bytes
memory_at vectors i = elim vectors.contents [
  | none ↦ []
  | some begins ↦ drop (at_or vectors.offsets i 0 + vectors.vectors_stride * i) (begins i)
]

-- `vectors_arg_t::operator[]`: the product is one of 32 bits.
unfoldable pub vector_at : VectorsArg → ℕ → Value
unfolding size_bytes memory_at viewed
vector_at vectors i = elim vectors.contents [
  | none ↦ none
  | some begins ↦
      viewed (vectors.dimensions * size_bytes vectors.scalar_type % 2 ^ 32) (memory_at vectors i)
]

-- `-key`, of a key k that stands as k + 2 ^ 63
unfoldable pub negated : CollectionKey → CollectionKey
negated k = record k { key = (2 ^ 64 - k.key) % 2 ^ 64 }

-- `match_t`
pub record Match (M : Type 0) : Type 0 where
  pub key : ℕ
  pub metric : M

-- The key that is exported for a match, `std::abs` of it.
unfoldable pub exported_key : {M : Type 0} → Match M → ℕ
exported_key found = if ltb found.key (2 ^ 63) then 2 ^ 64 - found.key else found.key

unfoldable pub original_entry : PlacesArg → VectorsArg → ℕ → Pair
original_entry places vectors i = record { place = place_at places i; range = vector_at vectors i }

module _ (quantum : Scalar → Bytes → ℕ) where
  unfoldable pub quantize : Scalar → ℕ → Bytes → Bytes
  quantize scalar zero bytes = []
  quantize scalar (suc dims) bytes =
      quantum scalar (take (size_bytes scalar) bytes)
      ∷ quantize scalar dims (drop (size_bytes scalar) bytes)

  unfoldable pub mirror_entry : PlacesArg → VectorsArg → ℕ → Pair
  unfolding negated quantize
  mirror_entry places vectors i = record {
    place = negated (place_at places i);
    range = some (quantize vectors.scalar_type vectors.dimensions (memory_at vectors i));
  }

  unfoldable pub quantized_entries : PlacesArg → VectorsArg → List Pair
  unfolding original_entry mirror_entry
  quantized_entries places vectors =
      tasks_from (original_entry places vectors) 0 places.count
      ++ tasks_from (mirror_entry places vectors) 0 places.count

  unfoldable pub vectors_write :
      (eng : Engine) → PlacesArg → VectorsArg → eng.State → Option eng.State
  unfolding quantized_entries
  vectors_write eng places vectors s = eng.write s (quantized_entries places vectors)

  module _ {M : Type 0} (metric_less : M → M → Bool) (metric : Bytes → Bytes → M)
      (metric_threshold : M) where
    abbrev pub lower_similarity : Match M → Match M → Bool
    lower_similarity a b = metric_less a.metric b.metric

    -- The callback of the scan: the keys of copies are negative, and come first.
    unfoldable pub match_entry : Bytes → Queue (Match M) → ℕ → Bytes → Queue (Match M) × Bool
    match_entry query pq key vector =
        if leb (2 ^ 63) key
        then (pq, false)
        else let found : Match M = record { key = key; metric = metric query vector } in
          if metric_less found.metric metric_threshold
          then (pq, true)
          else ((push lower_similarity pq found).0, true)

    -- One task of `ukv_vectors_search`; the slots are as many as its limit.
    unfoldable pub search_task :
        ℕ
        → (source : ScannedEngine) → source.eng.State
        → ℕ
        → VectorsArg
        → ℕ
        → List (Match M)
        → Ended (Queue (Match M))
    unfolding match_entry
    search_task fuel source s collection queries i slots =
        let query = quantize queries.scalar_type queries.dimensions (memory_at queries i) in
        full_scan_collection (match_entry query) source collection (length slots) fuel s 0
          (init slots 0)
