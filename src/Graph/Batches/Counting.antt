-- ===== src/Graph/Batches/Counting.antt =====
-- The pass of `update_neighborhoods` that counts the ends that are missing.
use mathlib.Core.List.{foldl}
use ukv.Prelude.{
  ℕ, ◌≡◌, ◌+◌, ◌*◌, ◌^◌, ◌<◌, ◌≤◌, inl, inr, refl, ap, subst, ◌∙◌, Bool, true, false, List, [], ◌∷◌,
  length, ltb, arith, Bool-cases, if◌then◌else◌,
}
use ukv.Types.{length_missing, Neighborship, ship_eq, ship_lt}
use ukv.Types.Order.{ship_order, ship_same_iff, ship_irrefl}
use ukv.Ranges.{lower_bound, contains}
use ukv.Ranges.Sorted.{IsAscending, Above-contains}
use ukv.Graph.{bytes_in_degrees_header, bytes_in_ship, neighbors, is_at, count_inserts_into_entry}
use ukv.Graph.Updates.{entry_of, neighbors-source, neighbors-target}
use ukv.Graph.Batches.{End, role_of, count_end}

-- The range of an end, of the two ranges of a vertex.
abbrev pub range_of : Bool → List Neighborship → List Neighborship → List Neighborship
range_of true outs ins = ins
range_of false outs ins = outs

-- In an ascending range, a neighborship that is there is where it is searched for.
pub is_at-contains :
    (ns : List Neighborship) (s : Neighborship)
    → IsAscending ns
    → is_at ns (lower_bound ship_lt ns s) s ≡ contains ns s
unfolding is_at lower_bound contains
is_at-contains [] s h = refl
is_at-contains (n ∷ ns) s (above, asc) = elim (Bool-cases (ship_lt n s)) [
  | inl less ↦
      let other : ship_eq n s ≡ false = elim (Bool-cases (ship_eq n s)) [
        | inl e ↦
            let same : n ≡ s = (ship_same_iff n s).0 e in
            let not_less = subst (λ z. ship_lt n z ≡ false) same (ship_irrefl n) in cc
        | inr e ↦ e
      ] in
      rw (less, other) (is_at-contains ns s asc)
  | inr not_less ↦
      let absent : contains ns s ≡ false = elim (Bool-cases (contains ns s)) [
        | inl c ↦ let less = Above-contains n s ns above c in cc
        | inr c ↦ c
      ] in
      rw (not_less, absent) (ground arith)
]

-- The number of ends whose neighborship is missing.
abbrev pub missing : List Neighborship → List Neighborship → List End → ℕ
missing outs ins [] = 0
missing outs ins (x ∷ ends) =
    (if contains (range_of x.to_target outs ins) x.ship then 0 else 1) + missing outs ins ends

pub count-le : (b : Bool) → (if b then 0 else 1) ≤ 1
count-le true = omega arith
count-le false = omega arith

neighbors-range_of :
    (outs ins spare : List Neighborship) (delta : ℕ) (to_target : Bool)
    → bytes_in_degrees_header + bytes_in_ship * (length outs + length ins) < length_missing
    → neighbors (entry_of outs ins spare delta) (role_of to_target) ≡ range_of to_target outs ins
neighbors-range_of outs ins spare delta true h = neighbors-target outs ins spare delta h
neighbors-range_of outs ins spare delta false h = neighbors-source outs ins spare delta h

pub range_of-IsAscending :
    (outs ins : List Neighborship) (to_target : Bool)
    → IsAscending outs
    → IsAscending ins
    → IsAscending (range_of to_target outs ins)
range_of-IsAscending outs ins true ao ai = ai
range_of-IsAscending outs ins false ao ai = ao

contains-length : (ns : List Neighborship) (s : Neighborship) → contains ns s ≡ true → 0 < length ns
unfolding contains
contains-length [] s h = cc
contains-length (n ∷ ns) s h = omega arith

range_of-length :
    (outs ins : List Neighborship) (to_target : Bool)
    → length (range_of to_target outs ins) ≤ length outs + length ins
range_of-length outs ins true = omega arith
range_of-length outs ins false = omega arith

-- Where an end's neighborship is searched for, it is if its range has it.
pub found-contains :
    (outs ins spare : List Neighborship) (delta : ℕ) (x : End)
    → IsAscending outs
    → IsAscending ins
    → bytes_in_degrees_header + bytes_in_ship * (length outs + length ins) < length_missing
    → is_at
        (neighbors (entry_of outs ins spare delta) (role_of x.to_target))
        (lower_bound ship_lt
          (neighbors (entry_of outs ins spare delta) (role_of x.to_target))
          x.ship)
        x.ship
      ≡ contains (range_of x.to_target outs ins) x.ship
found-contains outs ins spare delta x ao ai h =
    ap (λ ns. is_at ns (lower_bound ship_lt ns x.ship) x.ship)
      (neighbors-range_of outs ins spare delta x.to_target h)
    ∙ is_at-contains (range_of x.to_target outs ins) x.ship
        (range_of-IsAscending outs ins x.to_target ao ai)

count_end-entry_of :
    (outs ins spare : List Neighborship) (delta : ℕ) (x : End)
    → IsAscending outs
    → IsAscending ins
    → bytes_in_degrees_header + bytes_in_ship * (length outs + length ins) < length_missing
    → delta + 1 < 2 ^ 32
    → count_end (entry_of outs ins spare delta) x
      ≡ entry_of outs ins spare
          (delta + (if contains (range_of x.to_target outs ins) x.ship then 0 else 1))
unfolding count_end count_inserts_into_entry
count_end-entry_of outs ins spare delta x ao ai h room =
    let found = found-contains outs ins spare delta x ao ai h in
    let size = bytes_in_degrees_header + bytes_in_ship * (length outs + length ins) in
    elim (Bool-cases (contains (range_of x.to_target outs ins) x.ship)) [
      | inl has ↦
          let some_held = contains-length (range_of x.to_target outs ins) x.ship has in
          let old : ltb bytes_in_degrees_header size ≡ true =
            ground (arith, some_held, range_of-length outs ins x.to_target) in
          rw (old, found, has, count_end) (ap (entry_of outs ins spare) (omega arith))
      | inr lacks ↦ elim (Bool-cases (ltb bytes_in_degrees_header size)) [
        | inl old ↦ rw (old, found, lacks, count_end) (ap (entry_of outs ins spare) (omega arith))
        | inr fresh ↦ rw (fresh, lacks, count_end) (ap (entry_of outs ins spare) (omega arith))
      ]
    ]

-- What the counting pass leaves of an entry.
pub count_ends-entry_of :
    (ends : List End) (outs ins spare : List Neighborship) (delta : ℕ)
    → IsAscending outs
    → IsAscending ins
    → bytes_in_degrees_header + bytes_in_ship * (length outs + length ins) < length_missing
    → delta + length ends < 2 ^ 32
    → foldl count_end (entry_of outs ins spare delta) ends
      ≡ entry_of outs ins spare (delta + missing outs ins ends)
count_ends-entry_of [] outs ins spare delta ao ai h room =
    ap (entry_of outs ins spare) (omega arith)
count_ends-entry_of (x ∷ ends) outs ins spare delta ao ai h room =
    let n : ℕ = if contains (range_of x.to_target outs ins) x.ship then 0 else 1 in
    ap (λ e. foldl count_end e ends)
      (count_end-entry_of outs ins spare delta x ao ai h (omega arith))
    ∙ count_ends-entry_of ends outs ins spare (delta + n) ao ai h
        (omega (arith, count-le (contains (range_of x.to_target outs ins) x.ship)))
    ∙ ap (entry_of outs ins spare) (omega arith)
