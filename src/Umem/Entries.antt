-- ===== src/Umem/Entries.antt =====
-- `pair_t`, and the ordered content of a set of pairs: what the set's operations are specified by.
pub mod Above
use ukv.Prelude.{
  ℕ, ◌≡◌, Bool, true, false, Option, none, some, List, [], ◌∷◌, ◌&&◌, leb, ltb, ◌==◌, if◌then◌else◌,
}
use ukv.Types.{CollectionKey, key_eq, key_lt}

-- `value_view_t`: a missing value, or its bytes, which may be none.
abbrev pub Value : Type 0
Value = Option (List ℕ)

pub record Pair : Type 0 where
  pub place : CollectionKey
  pub range : Value

unfoldable pub find_entry : CollectionKey → List Pair → Option Pair
find_entry k [] = none
find_entry k (p ∷ entries) = if key_eq p.place k then some p else find_entry k entries

-- The pairs behind a key, of every collection.
unfoldable pub above : CollectionKey → List Pair → List Pair
above k [] = []
above k (p ∷ entries) = if key_lt k p.place then p ∷ above k entries else above k entries

abbrev pub first {ℓ} : {A : Type ℓ} → List A → Option A
first [] = none
first (x ∷ xs) = some x

-- The pair takes the place of one with its key, or its own place in the order.
unfoldable pub put_entry : Pair → List Pair → List Pair
put_entry q [] = q ∷ []
put_entry q (p ∷ entries) =
    if key_lt q.place p.place
    then q ∷ p ∷ entries
    else if key_eq q.place p.place
    then q ∷ entries
    else p ∷ put_entry q entries

-- The pairs of the collections from `from` and before `to` are dropped, or changed.
unfoldable pub in_collections : ℕ → ℕ → Pair → Bool
in_collections from to p = leb from p.place.collection && ltb p.place.collection to

unfoldable pub drop_entries : ℕ → ℕ → List Pair → List Pair
drop_entries from to [] = []
drop_entries from to (p ∷ entries) =
    if in_collections from to p
    then drop_entries from to entries
    else p ∷ drop_entries from to entries

unfoldable pub change_entries : ℕ → ℕ → (Pair → Pair) → List Pair → List Pair
change_entries from to f [] = []
change_entries from to f (p ∷ entries) =
    (if in_collections from to p then f p else p) ∷ change_entries from to f entries

-- The pairs of one collection from a key on: what a scan is to find.
unfoldable pub matching : CollectionKey → List Pair → List Pair
matching start [] = []
matching start (p ∷ entries) =
    if p.place.collection == start.collection && leb start.key p.place.key
    then p ∷ matching start entries
    else matching start entries
