-- ===== src/Umem/Collections.antt =====
-- Named collections of src/engine_umem.cpp: handles, creation, removal and the listing.
-- The names are the bytes before the terminator; the map of names is the list of its pairs, in its
-- order. The results of `std::rand` are a list of draws, and `none` means that they ran out.
pub mod Names
pub mod Dropping
pub mod Listing
use ukv.Prelude.{
  ℕ, zero, suc, ◌+◌, ◌-◌, ◌*◌, ◌%◌, ◌^◌, Bool, true, false, not, ◌&&◌, ◌||◌, Option, none, some,
  List, [], ◌∷◌, ◌++◌, length, bit_or, ltb, ◌==◌, if◌then◌else◌,
}
use ukv.Types.{collection_main}
use ukv.Arguments.{Error, args_wrong, args_combo, faced_error}
use ukv.Umem.{ConsistentSet}
use ukv.Umem.Entries.{Pair}
use ukv.Umem.Blobs.{Result, ok, err}

abbrev pub Name : Type 0
Name = List ℕ

abbrev pub Names : Type 0
Names = List (Name × ℕ)

unfoldable pub name_eq : Name → Name → Bool
name_eq [] [] = true
name_eq [] (b ∷ bs) = false
name_eq (a ∷ as') [] = false
name_eq (a ∷ as') (b ∷ bs) = a == b && name_eq as' bs

-- `std::less<std::string_view>`
unfoldable pub name_lt : Name → Name → Bool
name_lt [] [] = false
name_lt [] (b ∷ bs) = true
name_lt (a ∷ as') [] = false
name_lt (a ∷ as') (b ∷ bs) = ltb a b || (a == b && name_lt as' bs)

-- `names.find`
unfoldable pub find_name : Name → Names → Option ℕ
find_name name [] = none
find_name name ((n, id) ∷ names) = if name_eq n name then some id else find_name name names

-- `names.emplace`, of a name that is not there
unfoldable pub emplace : Name → ℕ → Names → Names
emplace name id [] = (name, id) ∷ []
emplace name id ((n, i) ∷ names) =
    if name_lt name n then (name, id) ∷ (n, i) ∷ names else (n, i) ∷ emplace name id names

-- The loop of `new_collection` over the existing handles.
unfoldable pub is_unused : ℕ → Names → Bool
is_unused id [] = true
is_unused id ((n, existing) ∷ names) = not (id == existing) && is_unused id names

unfoldable pub handle_of : ℕ → ℕ → ℕ
handle_of top bottom = bit_or (top * 2 ^ 32 % 2 ^ 64) bottom

unfoldable pub new_collection : Names → List (ℕ × ℕ) → Option ℕ
new_collection names [] = none
new_collection names ((top, bottom) ∷ draws) =
    let again = new_collection names draws in
    let id = handle_of top bottom in
    if not (id == collection_main) && is_unused id names then some id else again

-- The first pair with the handle is erased.
unfoldable pub erase_handle : ℕ → Names → Names
erase_handle id [] = []
erase_handle id ((n, i) ∷ names) = if id == i then names else (n, i) ∷ erase_handle id names

pub data DropMode : Type 0 where
  drop_keys_vals_handle drop_keys_vals drop_vals : DropMode

module _ (c : ConsistentSet) where
  pub record Database : Type 0 where
    pub pairs : c.Set
    pub names : Names

  unfoldable pub create : List (ℕ × ℕ) → Name → Database → Option (Database × Result ℕ)
  create draws [] db = some (db, err args_wrong)
  create draws (b ∷ bs) db = elim (find_name (b ∷ bs) db.names) [
    | some existing ↦ some (db, err args_wrong)
    | none ↦ elim (new_collection db.names draws) [
      | none ↦ none
      | some id ↦ some (record db { names = emplace (b ∷ bs) id db.names }, ok id)
    ]
  ]

  -- The range of one collection ends before the next handle.
  abbrev pub next_handle : ℕ → ℕ
  next_handle id = (id + 1) % 2 ^ 64

  -- `pair_t {pair.collection_key, value_view_t::make_empty()}`
  abbrev pub emptied : Pair → Pair
  emptied p = record p { range = some [] }

  erase_pairs : ℕ → Database → Database × Option Error
  erase_pairs id db = elim (c.erase_range db.pairs id (next_handle id)) [
    | none ↦ (db, some faced_error)
    | some left ↦ (record db { pairs = left }, none)
  ]

  unfoldable pub drop_collection : ℕ → DropMode → Database → Database × Option Error
  unfolding erase_pairs
  drop_collection id drop_keys_vals_handle db =
      if id == collection_main
      then (db, some args_combo)
      else elim (c.erase_range db.pairs id (next_handle id)) [
        | none ↦ (db, some faced_error)
        | some left ↦ (record { pairs = left; names = erase_handle id db.names }, none)
      ]
  drop_collection id drop_keys_vals db = erase_pairs id db
  drop_collection id drop_vals db = elim (c.range db.pairs id (next_handle id) emptied) [
    | none ↦ (db, some faced_error)
    | some left ↦ (record db { pairs = left }, none)
  ]

-- The output of `ukv_collection_list`: the strings, each with a terminator, the handles, and the
-- offsets as 32-bit lengths, one more than there are collections.
pub record Listed : Type 0 where
  pub strings : List ℕ
  pub ids : List ℕ
  pub offsets : List ℕ

unfoldable pub list_from : ℕ → Names → Listed
list_from offset [] = record { strings = []; ids = []; offsets = offset % 2 ^ 32 ∷ [] }
list_from offset ((n, id) ∷ names) =
    let rest = list_from (offset + (length n + 1)) names in
    record {
      strings = n ++ (0 ∷ rest.strings);
      ids = id ∷ rest.ids;
      offsets = offset % 2 ^ 32 ∷ rest.offsets;
    }

unfoldable pub list_collections : Names → Listed
unfolding list_from
list_collections = list_from 0
