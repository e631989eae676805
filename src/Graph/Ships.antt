-- ===== src/Graph/Ships.antt =====
-- A range of neighborships as an ordered set: insertion and removal without positions.
use ukv.Prelude.{
  suc, ◌≡◌, refl, ap, subst, true, false, not, ◌&&◌, ◌||◌, List, [], ◌∷◌, ◌++◌, length, arith,
  Bool-cases, inl, inr, if◌then◌else◌,
}
use ukv.Types.{Neighborship, ship_eq, ship_lt}
use ukv.Types.Order.{ship_order, ship_same_iff, ship_irrefl, ship_trans}
use ukv.Ranges.{lower_bound, contains}
use ukv.Ranges.Sorted.{Above, IsAscending}

unfoldable pub add_ship : Neighborship → List Neighborship → List Neighborship
add_ship s [] = s ∷ []
add_ship s (n ∷ ns) =
    if ship_lt n s then n ∷ add_ship s ns else if ship_eq n s then n ∷ ns else s ∷ n ∷ ns

unfoldable pub remove_ship : Neighborship → List Neighborship → List Neighborship
remove_ship s [] = []
remove_ship s (n ∷ ns) =
    if ship_lt n s then n ∷ remove_ship s ns else if ship_eq n s then ns else n ∷ ns

contains-add_ship :
    (s w : Neighborship) (ns : List Neighborship)
    → contains (add_ship s ns) w ≡ (ship_eq s w || contains ns w)
unfolding add_ship contains
contains-add_ship s w [] = refl
contains-add_ship s w (n ∷ ns) = ground (arith, contains-add_ship s w ns, ship_same_iff n s)

Above-add_ship :
    (v s : Neighborship) (ns : List Neighborship)
    → ship_lt v s ≡ true
    → Above v ns
    → Above v (add_ship s ns)
unfolding add_ship
Above-add_ship v s [] h a = (h, tt)
Above-add_ship v s (n ∷ ns) h a = elim (Bool-cases (ship_lt n s)) [
  | inl less ↦ rw less (a.0, Above-add_ship v s ns h a.1)
  | inr not_less ↦ elim (Bool-cases (ship_eq n s)) [
    | inl same ↦ rw (not_less, same) a
    | inr other ↦ rw (not_less, other) (h, a)
  ]
]

Above-mono :
    (v s : Neighborship) (ns : List Neighborship) → ship_lt v s ≡ true → Above s ns → Above v ns
Above-mono v s [] h a = tt
Above-mono v s (n ∷ ns) h a = (ship_trans v s n h a.0, Above-mono v s ns h a.1)

less_of_rest : (s n : Neighborship) → ship_lt n s ≡ false → ship_eq n s ≡ false → ship_lt s n ≡ true
unfolding ship_lt ship_eq
less_of_rest s n h k = ground arith

add_ship-IsAscending :
    (s : Neighborship) (ns : List Neighborship) → IsAscending ns → IsAscending (add_ship s ns)
unfolding add_ship
add_ship-IsAscending s [] a = (tt, tt)
add_ship-IsAscending s (n ∷ ns) a = elim (Bool-cases (ship_lt n s)) [
  | inl less ↦ rw less (Above-add_ship n s ns less a.0, add_ship-IsAscending s ns a.1)
  | inr not_less ↦ elim (Bool-cases (ship_eq n s)) [
    | inl same ↦ rw (not_less, same) a
    | inr other ↦
        let before = less_of_rest s n not_less other in
        rw (not_less, other) ((before, Above-mono s n ns before a.0), a)
  ]
]

Above-remove_ship :
    (v s : Neighborship) (ns : List Neighborship) → Above v ns → Above v (remove_ship s ns)
unfolding remove_ship
Above-remove_ship v s [] a = tt
Above-remove_ship v s (n ∷ ns) a = elim (Bool-cases (ship_lt n s)) [
  | inl less ↦ rw less (a.0, Above-remove_ship v s ns a.1)
  | inr not_less ↦ elim (Bool-cases (ship_eq n s)) [
    | inl same ↦ rw (not_less, same) a.1
    | inr other ↦ rw (not_less, other) a
  ]
]

remove_ship-IsAscending :
    (s : Neighborship) (ns : List Neighborship) → IsAscending ns → IsAscending (remove_ship s ns)
unfolding remove_ship
remove_ship-IsAscending s [] a = tt
remove_ship-IsAscending s (n ∷ ns) a = elim (Bool-cases (ship_lt n s)) [
  | inl less ↦ rw less (Above-remove_ship n s ns a.0, remove_ship-IsAscending s ns a.1)
  | inr not_less ↦ elim (Bool-cases (ship_eq n s)) [
    | inl same ↦ rw (not_less, same) a.1
    | inr other ↦ rw (not_less, other) a
  ]
]

contains-Above : (s : Neighborship) (ns : List Neighborship) → Above s ns → contains ns s ≡ false
unfolding contains ship_eq ship_lt
contains-Above s [] a = refl
contains-Above s (n ∷ ns) a = ground (arith, contains-Above s ns)

ship_same : (s : Neighborship) → ship_eq s s ≡ true
ship_same s = (ship_same_iff s s).1 refl

absent-remove_ship :
    (s : Neighborship) (ns : List Neighborship)
    → IsAscending ns
    → contains (remove_ship s ns) s ≡ false
unfolding contains remove_ship
absent-remove_ship s [] a = refl
absent-remove_ship s (n ∷ ns) a = elim (Bool-cases (ship_lt n s)) [
  | inl less ↦ ground (arith, absent-remove_ship s ns a.1, ship_same_iff n s, ship_irrefl n)
  | inr not_less ↦ elim (Bool-cases (ship_eq n s)) [
    | inl same ↦
        let e : n ≡ s = (ship_same_iff n s).0 same in
        rw (not_less, same) (contains-Above s ns (subst (λ v. Above v ns) e a.0))
    | inr other ↦
        let before = less_of_rest s n not_less other in
        rw (not_less, other) (contains-Above s (n ∷ ns) (before, Above-mono s n ns before a.0))
  ]
]

kept-remove_ship :
    (s w : Neighborship) (ns : List Neighborship)
    → ship_eq s w ≡ false
    → contains (remove_ship s ns) w ≡ contains ns w
unfolding contains remove_ship
kept-remove_ship s w [] h = refl
kept-remove_ship s w (n ∷ ns) h = ground (arith, kept-remove_ship s w ns h, ship_same_iff n s)

contains-remove_ship :
    (s w : Neighborship) (ns : List Neighborship)
    → IsAscending ns
    → contains (remove_ship s ns) w ≡ (contains ns w && not (ship_eq s w))
contains-remove_ship s w ns a = elim (Bool-cases (ship_eq s w)) [
  | inl here ↦
      let e : s ≡ w = (ship_same_iff s w).0 here in
      let gone : contains (remove_ship s ns) w ≡ false =
        subst (λ v. contains (remove_ship s ns) v ≡ false) e (absent-remove_ship s ns a) in
      ground arith
  | inr there ↦ let kept = kept-remove_ship s w ns there in ground arith
]

-- The two halves of a range at the place of a neighborship, and what the operations make of them.
unfoldable pub put_first : Neighborship → List Neighborship → List Neighborship
put_first s [] = s ∷ []
put_first s (n ∷ ns) = if ship_eq n s then n ∷ ns else s ∷ n ∷ ns

unfoldable pub drop_first : Neighborship → List Neighborship → List Neighborship
drop_first s [] = []
drop_first s (n ∷ ns) = if ship_eq n s then ns else n ∷ ns

pub split_at_ship :
    (s : Neighborship) (ns : List Neighborship)
    → (a : List Neighborship) × (b : List Neighborship) × (ns ≡ a ++ b)
      × (lower_bound ship_lt ns s ≡ length a)
      × (add_ship s ns ≡ a ++ put_first s b)
      × (remove_ship s ns ≡ a ++ drop_first s b)
unfolding lower_bound add_ship remove_ship put_first drop_first
split_at_ship s [] = ([], [], refl, refl, refl, refl)
split_at_ship s (n ∷ ns) = elim (Bool-cases (ship_lt n s)) [
  | inl less ↦
      let (a, b, whole, place, added, removed) = split_at_ship s ns in
      (
        n ∷ a,
        b,
        ap (◌∷◌ n) whole,
        rw less (ap suc place),
        rw less (ap (◌∷◌ n) added),
        rw less (ap (◌∷◌ n) removed),
      )
  | inr not_less ↦ ([], n ∷ ns, refl, rw not_less refl, rw not_less refl, rw not_less refl)
]

-- Over an ascending range, insertion and removal keep it ascending; afterwards exactly the given
-- neighborship is held too, or is no longer held, whether or not it was.
pub add_remove_ship_lem :
    (s w : Neighborship) (ns : List Neighborship)
    → IsAscending ns
    → IsAscending (add_ship s ns)
      × (contains (add_ship s ns) w ≡ (ship_eq s w || contains ns w))
      × IsAscending (remove_ship s ns)
      × (contains (remove_ship s ns) w ≡ (contains ns w && not (ship_eq s w)))
add_remove_ship_lem s w ns a = (
  add_ship-IsAscending s ns a,
  contains-add_ship s w ns,
  remove_ship-IsAscending s ns a,
  contains-remove_ship s w ns a,
)
