-- ===== src/Umem/Collections/Listing.antt =====
-- The listing of the collections, read back the way its strings are laid out.
use mathlib.Core.Path.{ap₂}
use ukv.Prelude.{
  ℕ, ◌<◌, ◌%◌, ◌^◌, ◌≡◌, ◌≢◌, ◌+◌, refl, sym, ap, ◌∙◌, List, [], ◌∷◌, ◌++◌, append-nil,
  append_assoc, length, length-append, drop, map, arith, subst, drop-append_length,
}
use ukv.Arguments.{until}
use ukv.Umem.Collections.{Name, Names, Listed, list_from, list_collections}

abbrev pub HasNoZero : Name → Type 0
HasNoZero [] = Unit {0}
HasNoZero (b ∷ bs) = (b ≢ 0) × HasNoZero bs

abbrev pub AreTerminated : Names → Type 0
AreTerminated [] = Unit {0}
AreTerminated ((n, id) ∷ names) = HasNoZero n × AreTerminated names

-- The strings that start at the offsets; the last offset is the end.
unfoldable pub strings_at : List ℕ → List ℕ → List Name
strings_at strings [] = []
strings_at strings (o ∷ []) = []
strings_at strings (o ∷ o' ∷ offsets) = until 0 (drop o strings) ∷ strings_at strings (o' ∷ offsets)

unfoldable pub last_of : List ℕ → ℕ
last_of [] = 0
last_of (o ∷ []) = o
last_of (o ∷ o' ∷ offsets) = last_of (o' ∷ offsets)

-- The listing with offsets that do not wrap.
unfoldable pub exact_from : ℕ → Names → Listed
exact_from offset [] = record { strings = []; ids = []; offsets = offset ∷ [] }
exact_from offset ((n, id) ∷ names) =
    let rest = exact_from (offset + (length n + 1)) names in
    record {
      strings = n ++ (0 ∷ rest.strings);
      ids = id ∷ rest.ids;
      offsets = offset ∷ rest.offsets;
    }

list_from-exact :
    (o : ℕ) (names : Names)
    → ((list_from o names).strings ≡ (exact_from o names).strings)
      × ((list_from o names).ids ≡ (exact_from o names).ids)
      × (o + length (list_from o names).strings < 2 ^ 32
          → (list_from o names).offsets ≡ (exact_from o names).offsets)
unfolding list_from exact_from
list_from-exact o [] = (refl, refl, λ h. ap (λ n. n ∷ []) (omega arith))
list_from-exact o ((n, id) ∷ names) =
    let (strings, ids, offsets) = list_from-exact (o + (length n + 1)) names in
    let rest = (list_from (o + (length n + 1)) names).strings in
    (
      ap (λ ys. n ++ (0 ∷ ys)) strings,
      ap (◌∷◌ id) ids,
      λ h.
          let size = length-append n (0 ∷ rest) in
          let here : o % 2 ^ 32 ≡ o = omega arith in
          ap₂ (λ p os. p ∷ os) here (offsets (omega arith)),
    )

until-terminated : (n rest : List ℕ) → HasNoZero n → until 0 (n ++ (0 ∷ rest)) ≡ n
unfolding until
until-terminated [] rest h = ground arith
until-terminated (b ∷ bs) rest h = ground (arith, until-terminated bs rest)

first_string :
    (pre n rest : List ℕ) → HasNoZero n → until 0 (drop (length pre) (pre ++ (n ++ (0 ∷ rest)))) ≡ n
first_string pre n rest h =
    ap (until 0) (drop-append_length (length pre) pre (n ++ (0 ∷ rest)) refl)
    ∙ until-terminated n rest h

strings_at-next :
    (strings : List ℕ) (o o' : ℕ) (names : Names)
    → strings_at strings (o ∷ (exact_from o' names).offsets)
      ≡ until 0 (drop o strings) ∷ strings_at strings (exact_from o' names).offsets
unfolding exact_from strings_at
strings_at-next strings o o' [] = refl
strings_at-next strings o o' ((n, id) ∷ names) = refl

last_of-next :
    (o o' : ℕ) (names : Names)
    → last_of (o ∷ (exact_from o' names).offsets) ≡ last_of (exact_from o' names).offsets
unfolding exact_from last_of
last_of-next o o' [] = refl
last_of-next o o' ((n, id) ∷ names) = refl

-- The names of a listing whose strings follow others.
AreListed : List ℕ → ℕ → Names → Type 0
AreListed pre o names =
    (strings_at (pre ++ (exact_from o names).strings) (exact_from o names).offsets
      ≡ map (λ (n : Name × ℕ). n.0) names)
    × (last_of (exact_from o names).offsets ≡ length (pre ++ (exact_from o names).strings))

strings_from :
    (pre : List ℕ) (o : ℕ) (names : Names)
    → o ≡ length pre
    → AreTerminated names
    → AreListed pre o names
unfolding exact_from strings_at last_of AreListed
strings_from pre o [] e t = (refl, e ∙ ap length (sym (append-nil pre)))
strings_from pre o ((n, id) ∷ names) e t =
    let rest = (exact_from (o + (length n + 1)) names).strings in
    let next = o + (length n + 1) in
    let grown : o + (length n + 1) ≡ length (pre ++ (n ++ (0 ∷ []))) =
      ap (λ m. m + (length n + 1)) e
      ∙ sym (
          length-append pre (n ++ (0 ∷ []))
          ∙ ap (λ m. length pre + m) (length-append n (0 ∷ []))) in
    let same : (pre ++ (n ++ (0 ∷ []))) ++ rest ≡ pre ++ (n ++ (0 ∷ rest)) =
      append_assoc pre (n ++ (0 ∷ [])) rest ∙ ap (λ ys. pre ++ ys) (append_assoc n (0 ∷ []) rest) in
    let later = strings_from (pre ++ (n ++ (0 ∷ []))) (o + (length n + 1)) names grown t.1 in
    (
      strings_at-next (pre ++ (n ++ (0 ∷ rest))) o next names
          ∙ ap (◌∷◌ (until 0 (drop o (pre ++ (n ++ (0 ∷ rest)))))) (
              subst
                (λ ys.
                  strings_at ys (exact_from next names).offsets ≡ map (λ (n : Name × ℕ). n.0) names)
                same later.0)
          ∙ ap (λ s. s ∷ map (λ (n : Name × ℕ). n.0) names)
              (subst (λ m. until 0 (drop m (pre ++ (n ++ (0 ∷ rest)))) ≡ n) (sym e)
                (first_string pre n rest t.0)),
      last_of-next o next names ∙ later.1 ∙ ap length same,
    )

ids_from : (o : ℕ) (names : Names) → (exact_from o names).ids ≡ map (λ (n : Name × ℕ). n.1) names
unfolding exact_from
ids_from o [] = refl
ids_from o ((n, id) ∷ names) = ap (◌∷◌ id) (ids_from (o + (length n + 1)) names)

-- Where no name contains a zero byte, and all strings together have fewer than 2^32 bytes, the
-- listing gives back the collections: the strings that start at its offsets, each up to its
-- terminator, are the names in their order, the handles are theirs, and the last offset is the
-- length of all strings.
pub list_collections_lem :
    (names : Names)
    → AreTerminated names
    → length (list_collections names).strings < 2 ^ 32
    → (strings_at (list_collections names).strings (list_collections names).offsets
        ≡ map (λ (n : Name × ℕ). n.0) names)
      × ((list_collections names).ids ≡ map (λ (n : Name × ℕ). n.1) names)
      × (last_of (list_collections names).offsets ≡ length (list_collections names).strings)
unfolding list_collections AreListed
list_collections_lem names t short =
    let read = strings_from [] 0 names refl t in
    let (strings, ids, offsets) = list_from-exact 0 names in
    let same = offsets (omega arith) in
    (
      ap₂ strings_at strings same ∙ read.0,
      ids ∙ ids_from 0 names,
      ap last_of same ∙ read.1 ∙ ap length (sym strings),
    )
