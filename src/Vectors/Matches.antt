-- ===== src/Vectors/Matches.antt =====
-- The queue that one task of `ukv_vectors_search` fills.
use ukv.Prelude.{ℕ, ◌≡◌, ◌≤◌, Bool}
use ukv.PriorityQueue.{Queue, capacity}
use ukv.Paths.Bucket.{Bytes}
use ukv.Vectors.{Scalar, Match, match_entry}

module _ (quantum : Scalar → Bytes → ℕ) {M : Type 0} (metric_less : M → M → Bool)
    (metric : Bytes → Bytes → M) (metric_threshold : M) where
  abbrev callback : Bytes → Queue (Match M) → ℕ → Bytes → Queue (Match M) × Bool
  callback query = match_entry quantum metric_less metric metric_threshold query

  -- A queue that is not over its limit.
  abbrev pub Within : ℕ → Queue (Match M) → Type 0
  Within limit pq = (capacity pq ≡ limit) × (pq.size ≤ limit)
