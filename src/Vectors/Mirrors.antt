-- ===== src/Vectors/Mirrors.antt =====
-- `ukv_vectors_write`: an original at every key, and its quantized copy at the negated key.
use ukv.Prelude.{ℕ, ◌*◌, ◌+◌, ◌^◌, ◌<◌, ◌≤◌, some}
use ukv.Types.{length_missing, CollectionKey}
use ukv.Arguments.{PlacesArg, place_at}
use ukv.Umem.Entries.{Pair}
use ukv.Paths.Bucket.{Bytes, bytes_of}
use ukv.Vectors.{Scalar, VectorsArg, vector_at, size_bytes, quantize}

-- A key above zero, as it stands, and one below it.
abbrev pub IsPositive : CollectionKey → Type 0
IsPositive k = (2 ^ 63 < k.key) × (k.key < 2 ^ 64)

-- The vectors have fewer than 2^32 - 1 bytes each.
abbrev pub AreShort : VectorsArg → Type 0
AreShort vectors = vectors.dimensions * size_bytes vectors.scalar_type < length_missing

module _ (quantum : Scalar → Bytes → ℕ) (places : PlacesArg) (vectors : VectorsArg) where
  -- The copy of a task's vector, at the key of the task.
  unfoldable pub copy_entry : ℕ → Pair
  copy_entry i = record {
    place = place_at places i;
    range =
        some (
          quantize quantum vectors.scalar_type vectors.dimensions (bytes_of (vector_at vectors i)));
  }

  AllPositive : ℕ → ℕ → Type 0
  AllPositive i count = (j : ℕ) → i ≤ j → j < i + count → IsPositive (place_at places j)
