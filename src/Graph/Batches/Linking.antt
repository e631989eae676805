-- ===== src/Graph/Batches/Linking.antt =====
-- The pass that inserts, and the three passes together, over the ordered sets of an entry.
use mathlib.Core.List.{foldl}
use ukv.Prelude.{
  ℕ, suc, ◌≡◌, ◌+◌, ◌-◌, ◌*◌, ◌/◌, ◌^◌, ◌<◌, ◌≤◌, inl, inr, refl, sym, ap, subst, ◌∙◌, Bool, true,
  false, ◌||◌, List, [], ◌∷◌, ◌++◌, append_assoc, length, length-append, ◌==◌, take,
  take-append_length, arith, Bool-cases, if◌then◌else◌,
}
use ukv.Types.{length_missing, Neighborship, ship_eq, ship_lt}
use ukv.Types.Order.{ship_order, ship_same_iff, ship_irrefl}
use ukv.Ranges.{contains}
use ukv.Ranges.Sorted.{IsAscending, Above-contains}
use ukv.Graph.{Entry, bytes_in_degrees_header, bytes_in_ship, insert_into_entry}
use ukv.Graph.Ships.{add_ship, add_remove_ship_lem}
use ukv.Graph.Updates.{entry_of, entry_of-old, insert_into_entry_lem}
use ukv.Graph.Batches.{End, count_end, insert_end, reallocate, link_entry}
use ukv.Graph.Batches.Counting.{range_of, missing, found-contains, count_ends-entry_of}

-- The two ranges with an end put into the one that it is for.
abbrev pub outs_after : Bool → Neighborship → List Neighborship → List Neighborship
outs_after true s outs = outs
outs_after false s outs = add_ship s outs

abbrev pub ins_after : Bool → Neighborship → List Neighborship → List Neighborship
ins_after true s ins = add_ship s ins
ins_after false s ins = ins

abbrev pub linked_outs : List End → List Neighborship → List Neighborship
linked_outs [] outs = outs
linked_outs (x ∷ ends) outs = linked_outs ends (outs_after x.to_target x.ship outs)

abbrev pub linked_ins : List End → List Neighborship → List Neighborship
linked_ins [] ins = ins
linked_ins (x ∷ ends) ins = linked_ins ends (ins_after x.to_target x.ship ins)

add_ship-held :
    (s : Neighborship) (ns : List Neighborship)
    → IsAscending ns
    → contains ns s ≡ true
    → add_ship s ns ≡ ns
unfolding add_ship contains
add_ship-held s [] a h = cc
add_ship-held s (n ∷ ns) (above, asc) h = elim (Bool-cases (ship_lt n s)) [
  | inl less ↦
      let other : ship_eq n s ≡ false = elim (Bool-cases (ship_eq n s)) [
        | inl e ↦
            let not_less =
              subst (λ z. ship_lt n z ≡ false) ((ship_same_iff n s).0 e) (ship_irrefl n) in
            cc
        | inr e ↦ e
      ] in
      rw less (ap (λ ms. n ∷ ms) (add_ship-held s ns asc (ground arith)))
  | inr not_less ↦
      let same : ship_eq n s ≡ true = elim (Bool-cases (contains ns s)) [
        | inl c ↦ let less = Above-contains n s ns above c in cc
        | inr c ↦ ground arith
      ] in
      rw (not_less, same) refl
]

add_ship-length :
    (s : Neighborship) (ns : List Neighborship) → length (add_ship s ns) ≤ suc (length ns)
unfolding add_ship
add_ship-length s [] = omega arith
add_ship-length s (n ∷ ns) = elim (Bool-cases (ship_lt n s)) [
  | inl less ↦ rw less (omega (arith, add_ship-length s ns))
  | inr not_less ↦ elim (Bool-cases (ship_eq n s)) [
    | inl same ↦ rw (not_less, same) (omega arith)
    | inr other ↦ rw (not_less, other) (omega arith)
  ]
]

after-IsAscending :
    (b : Bool) (s : Neighborship) (outs ins : List Neighborship)
    → IsAscending outs
    → IsAscending ins
    → IsAscending (outs_after b s outs) × IsAscending (ins_after b s ins)
after-IsAscending true s outs ins ao ai = (ao, (add_remove_ship_lem s s ins ai).0)
after-IsAscending false s outs ins ao ai = ((add_remove_ship_lem s s outs ao).0, ai)

add_ship-fewer :
    (s w : Neighborship) (ns : List Neighborship)
    → IsAscending ns
    → (if contains (add_ship s ns) w then 0 else 1) ≤ (if contains ns w then 0 else 1)
add_ship-fewer s w ns a =
    rw ((add_remove_ship_lem s w ns a).1) (or_fewer (ship_eq s w) (contains ns w))
  where
    or_fewer : (p q : Bool) → (if p || q then 0 else 1) ≤ (if q then 0 else 1)
    or_fewer true q = omega arith
    or_fewer false q = omega arith

range_grows :
    (t b : Bool) (s w : Neighborship) (outs ins : List Neighborship)
    → IsAscending outs
    → IsAscending ins
    → (if contains (range_of t (outs_after b s outs) (ins_after b s ins)) w then 0 else 1)
      ≤ (if contains (range_of t outs ins) w then 0 else 1)
range_grows true true s w outs ins ao ai = add_ship-fewer s w ins ai
range_grows true false s w outs ins ao ai = omega arith
range_grows false true s w outs ins ao ai = omega arith
range_grows false false s w outs ins ao ai = add_ship-fewer s w outs ao

-- Other ends are not missing more than before.
missing_mono :
    (ends : List End) (b : Bool) (s : Neighborship) (outs ins : List Neighborship)
    → IsAscending outs
    → IsAscending ins
    → missing (outs_after b s outs) (ins_after b s ins) ends ≤ missing outs ins ends
missing_mono [] b s outs ins ao ai = omega arith
missing_mono (x ∷ ends) b s outs ins ao ai =
    omega (
      arith,
      missing_mono ends b s outs ins ao ai,
      range_grows x.to_target b s x.ship outs ins ao ai,
    )

-- An insertion uses up one spare slot at most, and none for what is there.
Inserted : (b : Bool) (s : Neighborship) (outs ins spare : List Neighborship) (delta : ℕ) → Type 0
Inserted b s outs ins spare delta =
    (spare' : List Neighborship) × (insert_end (entry_of outs ins spare delta)
        (record { to_target = b; ship = s })
      ≡ entry_of (outs_after b s outs) (ins_after b s ins) spare' delta)
    × (length (outs_after b s outs) + length (ins_after b s ins) + length spare'
        ≡ length outs + length ins + length spare)

insert_known :
    (b : Bool) (s : Neighborship) (outs ins spare : List Neighborship) (delta : ℕ)
    → IsAscending outs
    → IsAscending ins
    → bytes_in_degrees_header + bytes_in_ship * (length outs + length ins) < length_missing
    → contains (range_of b outs ins) s ≡ true
    → Inserted b s outs ins spare delta
unfolding Inserted insert_end insert_into_entry
insert_known true s outs ins spare delta ao ai h has =
    let kept = add_ship-held s ins ai has in
    (
      spare,
      rw
          (
            entry_of-old outs ins spare delta h,
            found-contains outs ins spare delta (record { to_target = true; ship = s }) ao ai h,
            has,
            kept,
          )
          refl,
      ap (λ ns. length outs + length ns + length spare) kept,
    )
insert_known false s outs ins spare delta ao ai h has =
    let kept = add_ship-held s outs ao has in
    (
      spare,
      rw
          (
            entry_of-old outs ins spare delta h,
            found-contains outs ins spare delta (record { to_target = false; ship = s }) ao ai h,
            has,
            kept,
          )
          refl,
      ap (λ ns. length ns + length ins + length spare) kept,
    )

insert_room :
    (b : Bool) (s y : Neighborship) (outs ins spare : List Neighborship) (delta : ℕ)
    → bytes_in_degrees_header + bytes_in_ship * suc (length outs + length ins) < length_missing
    → Inserted b s outs ins (y ∷ spare) delta
unfolding Inserted insert_end
insert_room true s y outs ins spare delta h =
    let (spare', same, size) = (insert_into_entry_lem outs ins spare y s delta h).1 in
    (spare', same, omega (arith, size))
insert_room false s y outs ins spare delta h =
    let (spare', same, size) = (insert_into_entry_lem outs ins spare y s delta h).0 in
    (spare', same, omega (arith, size))

insert_one :
    (b : Bool) (s : Neighborship) (outs ins spare : List Neighborship) (delta : ℕ)
    → IsAscending outs
    → IsAscending ins
    → (if contains (range_of b outs ins) s then 0 else 1) ≤ length spare
    → bytes_in_degrees_header
        + bytes_in_ship
          * (length outs + length ins + (if contains (range_of b outs ins) s then 0 else 1))
      < length_missing
    → Inserted b s outs ins spare delta
insert_one b s outs ins [] delta ao ai room h =
    elim (Bool-cases (contains (range_of b outs ins) s)) [
      | inl has ↦ insert_known b s outs ins [] delta ao ai (omega (arith, h)) has
      | inr lacks ↦ absurd (ground arith)
    ]
insert_one b s outs ins (y ∷ spare) delta ao ai room h =
    elim (Bool-cases (contains (range_of b outs ins) s)) [
      | inl has ↦ insert_known b s outs ins (y ∷ spare) delta ao ai (omega (arith, h)) has
      | inr lacks ↦ insert_room b s y outs ins spare delta (
          omega (
            arith,
            subst
                (λ c.
                  bytes_in_degrees_header
                    + bytes_in_ship * (length outs + length ins + (if c then 0 else 1))
                  < length_missing)
                lacks h,
          ))
    ]

after-length :
    (b : Bool) (s : Neighborship) (outs ins : List Neighborship)
    → IsAscending outs
    → IsAscending ins
    → length (outs_after b s outs) + length (ins_after b s ins)
      ≤ length outs + length ins + (if contains (range_of b outs ins) s then 0 else 1)
after-length b s outs ins ao ai = elim (Bool-cases (contains (range_of b outs ins) s)) [
  | inl has ↦ rw has (held b outs ins ao ai has)
  | inr lacks ↦ rw lacks (grown b outs ins)
]
  where
    held :
        (b : Bool) (outs ins : List Neighborship)
        → IsAscending outs
        → IsAscending ins
        → contains (range_of b outs ins) s ≡ true
        → length (outs_after b s outs) + length (ins_after b s ins) ≤ length outs + length ins + 0
    held true outs ins ao ai has = omega (arith, ap length (add_ship-held s ins ai has))
    held false outs ins ao ai has = omega (arith, ap length (add_ship-held s outs ao has))

    grown :
        (b : Bool) (outs ins : List Neighborship)
        → length (outs_after b s outs) + length (ins_after b s ins) ≤ length outs + length ins + 1
    grown true outs ins = omega (arith, add_ship-length s ins)
    grown false outs ins = omega (arith, add_ship-length s outs)

-- The entry holds the two ranges with the ends put into them, and no slot more than it had.
abbrev pub Linked :
    (e : Entry) (ends : List End) (outs ins : List Neighborship) (delta slots : ℕ) → Type 0
Linked e ends outs ins delta slots =
    (spare : List Neighborship) × (e
      ≡ entry_of (linked_outs ends outs) (linked_ins ends ins) spare delta)
    × (length (linked_outs ends outs) + length (linked_ins ends ins) + length spare ≡ slots)

pub insert_ends-entry_of :
    (ends : List End) (outs ins spare : List Neighborship) (delta : ℕ)
    → IsAscending outs
    → IsAscending ins
    → missing outs ins ends ≤ length spare
    → bytes_in_degrees_header + bytes_in_ship * (length outs + length ins + missing outs ins ends)
      < length_missing
    → Linked
        (foldl insert_end (entry_of outs ins spare delta) ends)
        ends
        outs
        ins
        delta
        (length outs + length ins + length spare)
unfolding Inserted
insert_ends-entry_of [] outs ins spare delta ao ai room h = (spare, refl, refl)
insert_ends-entry_of (x ∷ ends) outs ins spare delta ao ai room h =
    let outs' = outs_after x.to_target x.ship outs in
    let ins' = ins_after x.to_target x.ship ins in
    let (spare1, same, size) =
      insert_one x.to_target x.ship outs ins spare delta ao ai (omega (arith, room))
        (omega (arith, h)) in
    let grown = after-length x.to_target x.ship outs ins ao ai in
    let fewer = missing_mono ends x.to_target x.ship outs ins ao ai in
    let asc = after-IsAscending x.to_target x.ship outs ins ao ai in
    let (spare2, rest, slots) =
      insert_ends-entry_of ends outs' ins' spare1 delta asc.0 asc.1
        (omega (arith, room, size, grown, fewer)) (omega (arith, h, grown, fewer)) in
    (spare2, ap (λ e. foldl insert_end e ends) same ∙ rest, slots ∙ size)

module _ (fresh : ℕ → List Neighborship) (fresh-length : (n : ℕ) → length (fresh n) ≡ n) where
  reallocate-entry_of :
      (outs ins : List Neighborship) (delta : ℕ)
      → bytes_in_degrees_header + bytes_in_ship * (length outs + length ins) < length_missing
      → reallocate fresh (entry_of outs ins [] delta) ≡ entry_of outs ins (fresh delta) delta
  unfolding reallocate
  reallocate-entry_of outs ins delta h =
      let size = bytes_in_degrees_header + bytes_in_ship * (length outs + length ins) in
      let present : (size == length_missing) ≡ false = ground arith in
      let kept : (size - bytes_in_degrees_header) / bytes_in_ship ≡ length (outs ++ ins) =
        omega (arith, length-append outs ins) in
      let all : take (length (outs ++ ins)) (outs ++ (ins ++ [])) ++ fresh delta
          ≡ outs ++ (ins ++ fresh delta) =
        ap (λ ns. take (length (outs ++ ins)) ns ++ fresh delta) (sym (append_assoc outs ins []))
        ∙ ap (λ ns. ns ++ fresh delta)
            (take-append_length (length (outs ++ ins)) (outs ++ ins) [] refl)
        ∙ append_assoc outs ins (fresh delta) in
      rw (present, kept) (ap (λ ns. record (entry_of outs ins [] delta) { ships = ns }) all)

  -- For an entry that holds two ascending ranges and nothing more, the three passes over any ends, with
  -- repetitions or not, put the ends into the ranges as ordered sets, and as many slots as are counted
  -- are enough for them.
  pub link_entry_lem :
      (ends : List End) (outs ins : List Neighborship)
      → IsAscending outs
      → IsAscending ins
      → length ends < 2 ^ 32
      → bytes_in_degrees_header + bytes_in_ship * (length outs + length ins + missing outs ins ends)
        < length_missing
      → Linked
          (link_entry fresh (entry_of outs ins [] 0) ends)
          ends
          outs
          ins
          (missing outs ins ends)
          (length outs + length ins + missing outs ins ends)
  unfolding link_entry
  link_entry_lem ends outs ins ao ai few h =
      let n = missing outs ins ends in
      let counted : foldl count_end (entry_of outs ins [] 0) ends ≡ entry_of outs ins [] n =
        count_ends-entry_of ends outs ins [] 0 ao ai (omega (arith, h)) (omega arith)
        ∙ ap (entry_of outs ins []) (omega arith) in
      let (spare, same, size) =
        insert_ends-entry_of ends outs ins (fresh n) n ao ai (omega (arith, fresh-length n)) h in
      (
        spare,
        ap (λ e. foldl insert_end (reallocate fresh e) ends) counted
            ∙ ap (λ e. foldl insert_end e ends) (reallocate-entry_of outs ins n (omega (arith, h)))
            ∙ same,
        omega (arith, size, fresh-length n),
      )
