-- ===== src/Umem/Collections/Dropping.antt =====
-- What dropping a collection leaves of the pairs and of the names.
use ukv.Prelude.{
  ℕ, ◌≡◌, ◌<◌, ◌+◌, ◌^◌, sym, ap, ◌∙◌, Option, none, some, List, [], ◌∷◌, arith, inl, inr,
  Option-cases, ◌==◌, if◌then◌else◌, subst,
}
use ukv.Types.{CollectionKey}
use ukv.Types.Order.{key_same_iff}
use ukv.Umem.{ConsistentSet}
use ukv.Umem.Entries.{Pair, find_entry, in_collections, drop_entries, change_entries}
use ukv.Umem.Blobs.{ok}
use ukv.Umem.Collections.{
  Name, Names, emplace, erase_handle, DropMode, drop_keys_vals_handle, drop_keys_vals, drop_vals,
  Database, create, next_handle, emptied, drop_collection,
}
use ukv.Umem.Collections.Names.{HasNoHandle, HasDistinctHandles, create_lem, create-emplace}

-- What is to be left of a pair of the collection.
unfoldable pub leftover : DropMode → Option Pair → Option Pair
leftover drop_vals (some p) = some (record p { range = some [] })
leftover drop_vals none = none
leftover drop_keys_vals p = none
leftover drop_keys_vals_handle p = none

find_entry-drop_entries :
    (k : CollectionKey) (id : ℕ) (entries : List Pair)
    → find_entry k (drop_entries id (id + 1) entries)
      ≡ (if k.collection == id then none else find_entry k entries)
unfolding find_entry drop_entries in_collections
find_entry-drop_entries k id [] = ground arith
find_entry-drop_entries k id (p ∷ entries) =
    ground (arith, find_entry-drop_entries k id entries, key_same_iff p.place k)

find_entry-change_entries :
    (k : CollectionKey) (id : ℕ) (entries : List Pair)
    → find_entry k (change_entries id (id + 1) (λ p. record p { range = some [] }) entries) ≡ (
        if k.collection == id
        then leftover drop_vals (find_entry k entries)
        else find_entry k entries)
unfolding find_entry change_entries in_collections leftover
find_entry-change_entries k id [] = ground arith
find_entry-change_entries k id (p ∷ entries) =
    ground (arith, find_entry-change_entries k id entries, key_same_iff p.place k)

erase_handle-emplace :
    (name : Name) (id : ℕ) (names : Names)
    → HasNoHandle id names
    → erase_handle id (emplace name id names) ≡ names
unfolding erase_handle emplace
erase_handle-emplace name id [] h = ground arith
erase_handle-emplace name id ((n, i) ∷ names) h = ground (arith, erase_handle-emplace name id names)

next_handle_lem : (c : ConsistentSet) (id : ℕ) → id + 1 < 2 ^ 64 → next_handle c id ≡ id + 1
next_handle_lem c id h = omega arith

module _ (c : ConsistentSet) (k : CollectionKey) (id : ℕ) (db db' : Database c)
    (h : id + 1 < 2 ^ 64) where
  erased-find :
      (left : c.Set)
      → c.erase_range db.pairs id (next_handle c id) ≡ some left
      → left ≡ db'.pairs
      → find_entry k (c.entries db'.pairs)
        ≡ (if k.collection == id then none else find_entry k (c.entries db.pairs))
  erased-find left done same =
      ap (λ s. find_entry k (c.entries s)) (sym same)
      ∙ ap (find_entry k) (
          c.erase_range_lem db.pairs left id (id + 1)
            (subst (λ to. c.erase_range db.pairs id to ≡ some left) (next_handle_lem c id h) done))
      ∙ find_entry-drop_entries k id (c.entries db.pairs)

  emptied-find :
      (left : c.Set)
      → c.range db.pairs id (next_handle c id) (emptied c) ≡ some left
      → left ≡ db'.pairs
      → find_entry k (c.entries db'.pairs) ≡ (
          if k.collection == id
          then leftover drop_vals (find_entry k (c.entries db.pairs))
          else find_entry k (c.entries db.pairs))
  emptied-find left done same =
      ap (λ s. find_entry k (c.entries s)) (sym same)
      ∙ ap (find_entry k) (
          c.range_lem db.pairs left id (id + 1) (emptied c) (
            subst (λ to. c.range db.pairs id to (emptied c) ≡ some left) (next_handle_lem c id h)
              done))
      ∙ find_entry-change_entries k id (c.entries db.pairs)

  -- After a removal that reports no error, of the collection with a handle that is not the
  -- greatest one: every pair of other collections is as it was, and of the collection's own pairs
  -- only those are left that the mode keeps, the pairs with an empty value where only values are
  -- dropped, and none in the two other modes.
  pub drop_collection_lem :
      (mode : DropMode)
      → drop_collection c id mode db ≡ (db', none)
      → find_entry k (c.entries db'.pairs) ≡ (
          if k.collection == id
          then leftover mode (find_entry k (c.entries db.pairs))
          else find_entry k (c.entries db.pairs))
  unfolding drop_collection leftover
  drop_collection_lem drop_keys_vals_handle e =
      elim (Option-cases (c.erase_range db.pairs id (next_handle c id))) [
        | inl failed ↦ absurd (ground arith)
        | inr (left, done) ↦ erased-find left done (ground arith)
      ]
  drop_collection_lem drop_keys_vals e =
      elim (Option-cases (c.erase_range db.pairs id (next_handle c id))) [
        | inl failed ↦ absurd (ground arith)
        | inr (left, done) ↦ erased-find left done (ground arith)
      ]
  drop_collection_lem drop_vals e =
      elim (Option-cases (c.range db.pairs id (next_handle c id) (emptied c))) [
        | inl failed ↦ absurd (ground arith)
        | inr (left, done) ↦ emptied-find left done (ground arith)
      ]

-- A collection that is created, and dropped with its handle before anything else is, leaves the
-- names as they were.
drop-create :
    (c : ConsistentSet) (draws : List (ℕ × ℕ)) (name : Name) (id : ℕ) (db made left : Database c)
    → HasDistinctHandles db.names
    → create c draws name db ≡ some (made, ok id)
    → drop_collection c id drop_keys_vals_handle made ≡ (left, none)
    → left.names ≡ db.names
unfolding drop_collection
drop-create c draws name id db made left d e e' =
    elim (Option-cases (c.erase_range made.pairs id (next_handle c id))) [
      | inl failed ↦ absurd (ground arith)
      | inr (rest, done) ↦
          let unused = (create_lem c draws name name id db made d e).1 in
          let here : erase_handle id made.names ≡ left.names = ground arith in
          sym here
          ∙ ap (λ (r : Database c). erase_handle id r.names)
              (create-emplace c draws name id db made e).0
          ∙ erase_handle-emplace name id db.names unused
    ]
