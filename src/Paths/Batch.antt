-- ===== src/Paths/Batch.antt =====
-- `ukv_paths_write` and `ukv_paths_read`: batches of paths over an engine. The buckets lie in one
-- memory: those that were read first, and every new one behind all that is there.
pub mod Holding
pub mod Updates
pub mod Views
pub mod OverUmem
pub mod Written
use ukv.Prelude.{
  ℕ, zero, suc, ◌≡◌, ◌+◌, ◌%◌, ◌^◌, Bool, Option, none, some, List, [], ◌∷◌, ◌++◌, length,
  get_elem?, set, map, ◌==◌, if◌then◌else◌,
}
use ukv.Types.{CollectionKey, collection_main}
use ukv.Types.Order.{key_order}
use ukv.Ranges.{sort_and_deduplicate, offset_in_sorted}
use ukv.Arguments.{Strided, at_or, ContentsArg, content_at, tasks_from}
use ukv.Umem.Entries.{Value, Pair}
use ukv.Umem.Blobs.Writes.{last_put}
use ukv.Paths.Bucket.{Bytes, bytes_of, join_bytes, value_in_bucket, upsert_in_bucket}
use ukv.Paths.Bucket.Removal.{View, content, remove_from_bucket}

-- What the modalities use of an engine, or of a transaction over one: a read of keys gives the bytes
-- of their values, none of a missing one, and a write of pairs puts their values in turn. `none` is
-- an error.
pub record Engine : Type 1 where
  pub State : Type 0
  pub value_at : State → CollectionKey → Value
  pub read : State → List CollectionKey → Option (State × List Bytes)
  pub read_lem :
      (s s' : State) (keys : List CollectionKey) (found : List Bytes)
      → read s keys ≡ some (s', found)
      → found ≡ map (λ k. bytes_of (value_at s k)) keys
  pub read_keeps :
      (s s' : State) (keys : List CollectionKey) (found : List Bytes) (k : CollectionKey)
      → read s keys ≡ some (s', found)
      → value_at s' k ≡ value_at s k
  pub write : State → List Pair → Option State
  pub write_lem :
      (s s' : State) (pairs : List Pair) (k : CollectionKey)
      → write s pairs ≡ some s'
      → value_at s' k ≡ last_put k (value_at s k) pairs

-- The task at an index: its collection, its path and its content. A path is the view of its bytes.
pub record Task : Type 0 where
  pub collection : ℕ
  pub path : Bytes
  pub val : Value

unfoldable pub task_at : Strided ℕ → ContentsArg → ContentsArg → ℕ → Task
task_at collections paths contents i = record {
  collection = at_or collections i collection_main;
  path = bytes_of (content_at paths i);
  val = content_at contents i;
}

-- The views of values that lie in a memory one behind the other, as `joined_blobs_t` gives them:
-- their offsets and lengths have 32 bits.
unfoldable pub joined_views : ℕ → List Bytes → List (Option View)
joined_views offset [] = []
joined_views offset (b ∷ bs) =
    some (record { begin = offset % 2 ^ 32; size = length b % 2 ^ 32 })
    ∷ joined_views (offset + length b) bs

abbrev pub content_of : Bytes → Option View → Value
content_of memory none = none
content_of memory (some view) = some (content memory view)

-- The new bucket lies behind all that is there.
abbrev pub put_behind : Bytes → Value → Bytes × Option View
put_behind memory none = (memory, none)
put_behind memory (some written) =
    (memory ++ written, some (record { begin = length memory; size = length written }))

-- The loop's body for the bucket of a task. The missing bucket has no path that could be removed.
unfoldable pub update_bucket : Bytes → Option View → Bytes → Value → Bytes × Option View
update_bucket memory view path (some bytes) =
    put_behind memory (upsert_in_bucket (content_of memory view) path bytes)
update_bucket memory none path none = (memory, none)
update_bucket memory (some view) path none = remove_from_bucket memory view path

abbrev pub view_at : List (Option View) → ℕ → Option View
view_at views i = elim (get_elem? views i) [ none ↦ none | some view ↦ view ]

-- The pairs that are written: the content of every bucket at its key.
unfoldable pub pairs_of : Bytes → List CollectionKey → List (Option View) → List Pair
pairs_of memory [] views = []
pairs_of memory (k ∷ keys) [] = []
pairs_of memory (k ∷ keys) (v ∷ views) =
    record { place = k; range = content_of memory v } ∷ pairs_of memory keys views

-- `std::hash` of a path is the parameter `hash`.
module _ (hash : Bytes → ℕ) where
  abbrev pub key_of : Task → CollectionKey
  key_of t = record { collection = t.collection; key = hash t.path }

  unfoldable pub unique_keys : List Task → List CollectionKey
  unique_keys tasks = sort_and_deduplicate (map key_of tasks)

  unfoldable pub update_all :
      List CollectionKey → List Task → Bytes → List (Option View) → Bytes × List (Option View)
  update_all keys [] memory views = (memory, views)
  update_all keys (t ∷ tasks) memory views =
      let i = offset_in_sorted keys (key_of t) in
      let (memory', view) = update_bucket memory (view_at views i) t.path t.val in
      update_all keys tasks memory' (set views i view)

  module _ (eng : Engine) where
    unfoldable pub write : List Task → eng.State → Option eng.State
    unfolding unique_keys update_all joined_views pairs_of
    write tasks s = elim (eng.read s (unique_keys tasks)) [
      | none ↦ none
      | some (s', buckets) ↦
          let (memory, views) =
            update_all (unique_keys tasks) tasks (join_bytes buckets) (joined_views 0 buckets) in
          eng.write s' (pairs_of memory (unique_keys tasks) views)
    ]

    -- The write of the arguments' tasks.
    unfoldable pub write_args :
        Strided ℕ → ContentsArg → ContentsArg → ℕ → eng.State → Option eng.State
    unfolding task_at write
    write_args collections paths contents count s =
        write (tasks_from (task_at collections paths contents) 0 count) s

    -- The values of the paths, each found in its bucket.
    unfoldable pub find_all : Bytes → List Bytes → List (Option View) → List Value
    find_all memory [] views = []
    find_all memory (p ∷ paths) [] = []
    find_all memory (p ∷ paths) (v ∷ views) =
        value_in_bucket (content_of memory v) p ∷ find_all memory paths views

    unfoldable pub read : List (ℕ × Bytes) → eng.State → Option (eng.State × List Value)
    unfolding find_all joined_views
    read places s =
        elim (eng.read s
          (map (λ (p : ℕ × Bytes). record { collection = p.0; key = hash (p.1) }) places)) [
            | none ↦ none
            | some (s', buckets) ↦ some (
              s',
              find_all (join_bytes buckets) (map (λ (p : ℕ × Bytes). p.1) places)
                  (joined_views 0 buckets),
            )
          ]
