-- ===== src/Umem/Collections/Names.antt =====
-- The map of names: what creating a collection does to it.
use ukv.Prelude.{
  ℕ, ◌≡◌, ◌≢◌, ◌↔◌, refl, sym, ap, ◌∙◌, true, none, some, List, [], ◌∷◌, arith, inl, inr, subst,
  Bool-cases, Option-cases, if◌then◌else◌,
}
use ukv.Types.{collection_main}
use ukv.Umem.{ConsistentSet}
use ukv.Umem.Blobs.{ok}
use ukv.Umem.Collections.{
  Name, Names, name_eq, name_lt, find_name, emplace, is_unused, new_collection, Database, create,
}

pub name_eq_iff : (a b : Name) → (name_eq a b ≡ true) ↔ (a ≡ b)
unfolding name_eq
name_eq_iff [] [] = ground arith
name_eq_iff [] (b ∷ bs) = ground arith
name_eq_iff (a ∷ as') [] = ground arith
name_eq_iff (a ∷ as') (b ∷ bs) = ground (arith, name_eq_iff as' bs)

-- No handle twice, and none that of the main collection.
abbrev pub HasNoHandle : ℕ → Names → Type 0
HasNoHandle id [] = Unit {0}
HasNoHandle id ((n, i) ∷ names) = (i ≢ id) × HasNoHandle id names

abbrev pub HasDistinctHandles : Names → Type 0
HasDistinctHandles [] = Unit {0}
HasDistinctHandles ((n, i) ∷ names) =
    (i ≢ collection_main) × HasNoHandle i names × HasDistinctHandles names

find_name-emplace :
    (name other : Name) (id : ℕ) (names : Names)
    → find_name name names ≡ none
    → find_name other (emplace name id names)
      ≡ (if name_eq name other then some id else find_name other names)
unfolding find_name emplace
find_name-emplace name other id [] h = refl
find_name-emplace name other id ((n, i) ∷ names) h = ground (
  arith,
  find_name-emplace name other id names,
  name_eq_iff n name,
  name_eq_iff n other,
  name_eq_iff name other,
)

is_unused-HasNoHandle : (id : ℕ) (names : Names) → is_unused id names ≡ true → HasNoHandle id names
unfolding is_unused
is_unused-HasNoHandle id [] h = tt
is_unused-HasNoHandle id ((n, i) ∷ names) h =
    (ground arith, is_unused-HasNoHandle id names (ground arith))

HasNoHandle-emplace :
    (name : Name) (id i : ℕ) (names : Names)
    → id ≢ i
    → HasNoHandle i names
    → HasNoHandle i (emplace name id names)
unfolding emplace
HasNoHandle-emplace name id i [] d h = (d, tt)
HasNoHandle-emplace name id i ((n, j) ∷ names) d h = elim (Bool-cases (name_lt name n)) [
  | inl e ↦ rw e (d, h)
  | inr e ↦ rw e (h.0, HasNoHandle-emplace name id i names d h.1)
]

emplace-HasDistinctHandles :
    (name : Name) (id : ℕ) (names : Names)
    → id ≢ collection_main
    → HasNoHandle id names
    → HasDistinctHandles names
    → HasDistinctHandles (emplace name id names)
unfolding emplace
emplace-HasDistinctHandles name id [] m h d = (m, tt, tt)
emplace-HasDistinctHandles name id ((n, i) ∷ names) m h d = elim (Bool-cases (name_lt name n)) [
  | inl e ↦ rw e (m, h, d)
  | inr e ↦ rw e (
    d.0,
    HasNoHandle-emplace name id i names (λ same. h.0 (sym same)) d.1,
    emplace-HasDistinctHandles name id names m h.1 d.2,
  )
]

new_collection-unused :
    (names : Names) (draws : List (ℕ × ℕ)) {id : ℕ}
    → new_collection names draws ≡ some id
    → (id ≢ collection_main) × (is_unused id names ≡ true)
unfolding new_collection
new_collection-unused names [] e = cc
new_collection-unused names ((top, bottom) ∷ draws) {id} e =
    ground
      (arith, λ (h : new_collection names draws ≡ some id). new_collection-unused names draws h)

-- What a successful creation is made of.
pub create-emplace :
    (c : ConsistentSet) (draws : List (ℕ × ℕ)) (name : Name) (id : ℕ) (db db' : Database c)
    → create c draws name db ≡ some (db', ok id)
    → (db' ≡ record db { names = emplace name id db.names })
      × (find_name name db.names ≡ none)
      × (new_collection db.names draws ≡ some id)
unfolding create
create-emplace c draws [] id db db' e = cc
create-emplace c draws (b ∷ bs) id db db' e = elim (Option-cases (find_name (b ∷ bs) db.names)) [
  | inr (existing, found) ↦ absurd (ground arith)
  | inl missing ↦ elim (Option-cases (new_collection db.names draws)) [
    | inl spent ↦ absurd (ground arith)
    | inr (drawn, is_drawn) ↦ ground arith
  ]
]

-- A collection that is created keeps the pairs, takes a handle that neither another collection
-- nor the main one has, and is found by its name; all other names are found as before.
pub create_lem :
    (c : ConsistentSet) (draws : List (ℕ × ℕ)) (name other : Name) (id : ℕ) (db db' : Database c)
    → HasDistinctHandles db.names
    → create c draws name db ≡ some (db', ok id)
    → (id ≢ collection_main)
      × HasNoHandle id db.names
      × HasDistinctHandles db'.names
      × (find_name other db'.names
          ≡ (if name_eq name other then some id else find_name other db.names))
      × (db'.pairs ≡ db.pairs)
create_lem c draws name other id db db' d e =
    let (made, missing, drawn) = create-emplace c draws name id db db' e in
    let unused = new_collection-unused db.names draws drawn in
    let free = is_unused-HasNoHandle id db.names unused.1 in
    let names_made : db'.names ≡ emplace name id db.names = ap (λ (r : Database c). r.names) made in
    (
      unused.0,
      free,
      subst HasDistinctHandles (sym names_made)
          (emplace-HasDistinctHandles name id db.names unused.0 free d),
      ap (find_name other) names_made ∙ find_name-emplace name other id db.names missing,
      ap (λ (r : Database c). r.pairs) made,
    )
