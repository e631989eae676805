-- ===== src/Umem.antt =====
-- src/engine_umem.cpp: the in-memory engine, over the ordered set of pairs that it takes from a
-- library (`ucset`), which is a parameter here, known by the laws of `ConsistentSet`.
pub mod Entries
pub mod Scan
pub mod Blobs
pub mod Collections
use ukv.Prelude.{ℕ, ◌≡◌, Bool, true, Option, none, some, List}
use mathlib.Core.List.{foldl}
use ukv.Types.{CollectionKey}
use Entries.{Value, Pair, find_entry, above, first, put_entry, drop_entries, change_entries}
use Entries.Above.{IsOrdered}

-- `ucset_t`. A status that is an error is `none`, or `false` of a batch, which may have been put in
-- part; lookups do not fail, and a batch is put pair by pair. `entries` is what the set holds, for the laws alone.
pub record ConsistentSet : Type 1 where
  pub Set : Type 0
  pub entries : Set → List Pair
  pub ordered : (s : Set) → IsOrdered (entries s)
  pub find : Set → CollectionKey → Option (Option Pair)
  pub find_lem : (s : Set) (k : CollectionKey) → find s k ≡ some (find_entry k (entries s))
  pub upper_bound : Set → CollectionKey → Option (Option Pair)
  pub upper_bound_lem :
      (s : Set) (k : CollectionKey) → upper_bound s k ≡ some (first (above k (entries s)))
  pub upsert : Set → Pair → Option Set
  pub upsert_lem :
      (s s' : Set) (p : Pair) → upsert s p ≡ some s' → entries s' ≡ put_entry p (entries s)
  pub upsert_batch : Set → List Pair → Set × Bool
  pub upsert_batch_lem :
      (s s' : Set) (ps : List Pair)
      → upsert_batch s ps ≡ (s', true)
      → entries s' ≡ foldl (λ es p. put_entry p es) (entries s) ps
  pub erase_range : Set → ℕ → ℕ → Option Set
  pub erase_range_lem :
      (s s' : Set) (from to : ℕ)
      → erase_range s from to ≡ some s'
      → entries s' ≡ drop_entries from to (entries s)
  pub range : Set → ℕ → ℕ → (Pair → Pair) → Option Set
  pub range_lem :
      (s s' : Set) (from to : ℕ) (f : Pair → Pair)
      → range s from to f ≡ some s'
      → entries s' ≡ change_entries from to f (entries s)
