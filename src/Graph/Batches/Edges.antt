-- ===== src/Graph/Batches/Edges.antt =====
-- What a batch of edges leaves at every vertex that it touches.
use mathlib.Core.List.{foldl}
use ukv.Prelude.{
  ℕ, ◌≡◌, ◌+◌, ◌*◌, ◌^◌, ◌<◌, ◌≤◌, ◌-◌, ◌%◌, refl, ap, ◌∙◌, Bool, true, false, not, ◌&&◌, ◌||◌,
  if◌then◌else◌, some, List, [], ◌∷◌, length, get_elem?, get_elem?-map, arith, inl, inr, Bool-cases,
}
use ukv.Types.{CollectionKey, Neighborship, ship_eq, ship_lt, length_missing}
use ukv.Types.Order.{key_order, ship_order}
use ukv.Ranges.{offset_in_sorted, contains}
use ukv.Ranges.Sorted.{IsAscending}
use ukv.Graph.{Entry, bytes_in_degrees_header, bytes_in_ship}
use ukv.Graph.Ships.{remove_ship, add_remove_ship_lem}
use ukv.Graph.Erasing.{erase_from_entry_lem}
use ukv.Graph.Updates.{entry_of}
use ukv.Graph.Batches.{
  End, EdgeTask, count_end, insert_end, erase_end, erase_edges, reallocate, link_entry,
  unique_vertices, insert_edges,
}
use ukv.Graph.Batches.Counting.{missing}
use ukv.Graph.Batches.Linking.{Linked, link_entry_lem}
use ukv.Graph.Batches.Ends.{ends_of, vertices_of, for_each_task-touched}

pub insert_edges-entry :
    (fresh : ℕ → List Neighborship) (tasks : List EdgeTask) (entries : List Entry)
    (k : CollectionKey) (e : Entry)
    → contains (vertices_of tasks) k ≡ true
    → get_elem? entries (offset_in_sorted (unique_vertices tasks) k) ≡ some e
    → get_elem? (insert_edges fresh tasks entries) (offset_in_sorted (unique_vertices tasks) k)
      ≡ some (link_entry fresh e (ends_of k tasks))
unfolding insert_edges link_entry
insert_edges-entry fresh tasks entries k e c at =
    let counted = for_each_task-touched count_end tasks entries k e c at in
    let grown =
      get_elem?-map (reallocate fresh) _ (offset_in_sorted (unique_vertices tasks) k) counted in
    for_each_task-touched insert_end tasks _ k _ c grown

-- At every touched vertex whose entry held two ascending ranges, and while its length fits 32
-- bits, the insertion of a batch of edges leaves these ranges with all ends of the batch put into
-- them as ordered sets: every edge at its source, and at its target, also if these are one vertex;
-- and the entry has no more slots than it had and were counted.
pub insert_edges_lem :
    (fresh : ℕ → List Neighborship) (fresh-length : (n : ℕ) → length (fresh n) ≡ n)
    (tasks : List EdgeTask) (entries : List Entry) (k : CollectionKey)
    (outs ins : List Neighborship)
    → contains (vertices_of tasks) k ≡ true
    → get_elem? entries (offset_in_sorted (unique_vertices tasks) k) ≡ some (entry_of outs ins [] 0)
    → IsAscending outs
    → IsAscending ins
    → length (ends_of k tasks) < 2 ^ 32
    → bytes_in_degrees_header
        + bytes_in_ship * (length outs + length ins + missing outs ins (ends_of k tasks))
      < length_missing
    → (e : Entry) × (get_elem?
          (insert_edges fresh tasks entries)
          (offset_in_sorted (unique_vertices tasks) k)
        ≡ some e)
      × Linked e
          (ends_of k tasks)
          outs
          ins
          (missing outs ins (ends_of k tasks))
          (length outs + length ins + missing outs ins (ends_of k tasks))
insert_edges_lem fresh fresh-length tasks entries k outs ins c at ao ai few h = (
  link_entry fresh (entry_of outs ins [] 0) (ends_of k tasks),
  insert_edges-entry fresh tasks entries k (entry_of outs ins [] 0) c at,
  link_entry_lem fresh fresh-length (ends_of k tasks) outs ins ao ai few h,
)

-- The two ranges with an end taken out of the one that it is for.
abbrev outs_without : Bool → Neighborship → List Neighborship → List Neighborship
outs_without true s outs = outs
outs_without false s outs = remove_ship s outs

abbrev ins_without : Bool → Neighborship → List Neighborship → List Neighborship
ins_without true s ins = remove_ship s ins
ins_without false s ins = ins

abbrev pub unlinked_outs : List End → List Neighborship → List Neighborship
unlinked_outs [] outs = outs
unlinked_outs (x ∷ ends) outs = unlinked_outs ends (outs_without x.to_target x.ship outs)

abbrev pub unlinked_ins : List End → List Neighborship → List Neighborship
unlinked_ins [] ins = ins
unlinked_ins (x ∷ ends) ins = unlinked_ins ends (ins_without x.to_target x.ship ins)

remove_ship-length :
    (s : Neighborship) (ns : List Neighborship) → length (remove_ship s ns) ≤ length ns
unfolding remove_ship
remove_ship-length s [] = omega arith
remove_ship-length s (n ∷ ns) = elim (Bool-cases (ship_lt n s)) [
  | inl less ↦ rw less (omega (arith, remove_ship-length s ns))
  | inr not_less ↦ elim (Bool-cases (ship_eq n s)) [
    | inl same ↦ rw (not_less, same) (omega arith)
    | inr other ↦ rw (not_less, other) (omega arith)
  ]
]

without-length :
    (b : Bool) (s : Neighborship) (outs ins : List Neighborship)
    → length (outs_without b s outs) + length (ins_without b s ins) ≤ length outs + length ins
without-length true s outs ins = omega (arith, remove_ship-length s ins)
without-length false s outs ins = omega (arith, remove_ship-length s outs)

-- The entry holds the two ranges with the ends taken out of them.
abbrev pub Unlinked :
    (e : Entry) (ends : List End) (outs ins : List Neighborship) (slots : ℕ) → Type 0
Unlinked e ends outs ins slots =
    (spare : List Neighborship) × (delta : ℕ) × (e
      ≡ entry_of (unlinked_outs ends outs) (unlinked_ins ends ins) spare delta)
    × (length (unlinked_outs ends outs) + length (unlinked_ins ends ins) + length spare ≡ slots)

erase_one :
    (b : Bool) (s : Neighborship) (outs ins spare : List Neighborship) (delta : ℕ)
    → bytes_in_degrees_header + bytes_in_ship * (length outs + length ins) < length_missing
    → delta < 2 ^ 32
    → (spare' : List Neighborship) × (delta' : ℕ) × (erase_end
          (entry_of outs ins spare delta)
          (record { to_target = b; ship = s })
        ≡ entry_of (outs_without b s outs) (ins_without b s ins) spare' delta')
      × (length (outs_without b s outs) + length (ins_without b s ins) + length spare'
          ≡ length outs + length ins + length spare)
      × (delta' < 2 ^ 32)
unfolding erase_end
erase_one true s outs ins spare delta h d =
    let (spare', same, size) = (erase_from_entry_lem outs ins spare s delta h d).1 in
    (
      spare',
      (delta + (length ins - length (remove_ship s ins))) % 2 ^ 32,
      same,
      omega (arith, size),
      omega arith,
    )
erase_one false s outs ins spare delta h d =
    let (spare', same, size) = (erase_from_entry_lem outs ins spare s delta h d).0 in
    (
      spare',
      (delta + (length outs - length (remove_ship s outs))) % 2 ^ 32,
      same,
      omega (arith, size),
      omega arith,
    )

erase_ends-entry_of :
    (ends : List End) (outs ins spare : List Neighborship) (delta : ℕ)
    → bytes_in_degrees_header + bytes_in_ship * (length outs + length ins) < length_missing
    → delta < 2 ^ 32
    → Unlinked
        (foldl erase_end (entry_of outs ins spare delta) ends)
        ends
        outs
        ins
        (length outs + length ins + length spare)
erase_ends-entry_of [] outs ins spare delta h d = (spare, delta, refl, refl)
erase_ends-entry_of (x ∷ ends) outs ins spare delta h d =
    let (spare1, delta1, same, size, below) =
      erase_one x.to_target x.ship outs ins spare delta h d in
    let (spare2, delta2, rest, slots) =
      erase_ends-entry_of ends (outs_without x.to_target x.ship outs)
        (ins_without x.to_target x.ship ins) spare1 delta1
        (omega (arith, h, without-length x.to_target x.ship outs ins)) below in
    (spare2, delta2, ap (λ e. foldl erase_end e ends) same ∙ rest, slots ∙ size)

-- Whether the ends of a role have a neighborship.
unfoldable pub is_end : Bool → Neighborship → List End → Bool
is_end role w [] = false
is_end role w (x ∷ ends) =
    (if role then x.to_target else not x.to_target) && ship_eq x.ship w || is_end role w ends

-- A range that is ascending, and has what another one has but for the ends of a role.
abbrev pub IsWithout : (role : Bool) (ends : List End) (before after : List Neighborship) → Type 0
IsWithout role ends before after =
    IsAscending after
    × ((w : Neighborship) → contains after w ≡ (contains before w && not (is_end role w ends)))

and_not_or : (a b c : Bool) → (a && not b && not c) ≡ (a && not (b || c))
and_not_or true true c = refl
and_not_or true false c = refl
and_not_or false b c = refl

and_true : (a : Bool) → a ≡ (a && not false)
and_true true = refl
and_true false = refl

unlinked_outs-IsWithout :
    (ends : List End) (outs : List Neighborship)
    → IsAscending outs
    → IsWithout false ends outs (unlinked_outs ends outs)
unfolding is_end
unlinked_outs-IsWithout [] outs a = (a, λ w. and_true (contains outs w))
unlinked_outs-IsWithout (x ∷ ends) outs a = elim (Bool-cases x.to_target) [
  | inl target ↦ rw target (unlinked_outs-IsWithout ends outs a)
  | inr source ↦
      let one = λ (w : Neighborship). add_remove_ship_lem x.ship w outs a in
      let rest = unlinked_outs-IsWithout ends (remove_ship x.ship outs) (one x.ship).2 in
      rw source (
        rest.0,
        λ w.
            rest.1 w
            ∙ ap (λ b. b && not (is_end false w ends)) (one w).3
            ∙ and_not_or (contains outs w) (ship_eq x.ship w) (is_end false w ends),
      )
]

unlinked_ins-IsWithout :
    (ends : List End) (ins : List Neighborship)
    → IsAscending ins
    → IsWithout true ends ins (unlinked_ins ends ins)
unfolding is_end
unlinked_ins-IsWithout [] ins a = (a, λ w. and_true (contains ins w))
unlinked_ins-IsWithout (x ∷ ends) ins a = elim (Bool-cases x.to_target) [
  | inr source ↦ rw source (unlinked_ins-IsWithout ends ins a)
  | inl target ↦
      let one = λ (w : Neighborship). add_remove_ship_lem x.ship w ins a in
      let rest = unlinked_ins-IsWithout ends (remove_ship x.ship ins) (one x.ship).2 in
      rw target (
        rest.0,
        λ w.
            rest.1 w
            ∙ ap (λ b. b && not (is_end true w ends)) (one w).3
            ∙ and_not_or (contains ins w) (ship_eq x.ship w) (is_end true w ends),
      )
]

-- The entry holds two ascending ranges in its slots, which have what two others have but for the
-- ends of their roles.
abbrev pub LeftWithout :
    (e : Entry) (ends : List End) (outs ins : List Neighborship) (slots : ℕ) → Type 0
LeftWithout e ends outs ins slots =
    (outs' : List Neighborship) × (ins' : List Neighborship) × (spare : List Neighborship)
    × (delta : ℕ) × (e ≡ entry_of outs' ins' spare delta)
    × (length outs' + length ins' + length spare ≡ slots)
    × IsWithout false ends outs outs'
    × IsWithout true ends ins ins'

-- At every touched vertex whose entry held two ascending ranges, and whose length fits 32 bits, the
-- removal of a batch of edges leaves two ascending ranges, in the slots that the entry had: exactly
-- what was in them and is not an end of the batch, of the range's role, at the vertex.
pub erase_edges_lem :
    (tasks : List EdgeTask) (entries : List Entry) (k : CollectionKey)
    (outs ins : List Neighborship)
    → contains (vertices_of tasks) k ≡ true
    → get_elem? entries (offset_in_sorted (unique_vertices tasks) k) ≡ some (entry_of outs ins [] 0)
    → IsAscending outs
    → IsAscending ins
    → bytes_in_degrees_header + bytes_in_ship * (length outs + length ins) < length_missing
    → (e : Entry) × (get_elem?
          (erase_edges tasks entries)
          (offset_in_sorted (unique_vertices tasks) k)
        ≡ some e)
      × LeftWithout e (ends_of k tasks) outs ins (length outs + length ins)
unfolding erase_edges
erase_edges_lem tasks entries k outs ins c at ao ai h =
    let (spare, delta, same, slots) =
      erase_ends-entry_of (ends_of k tasks) outs ins [] 0 h (omega arith) in
    (
      foldl erase_end (entry_of outs ins [] 0) (ends_of k tasks),
      for_each_task-touched erase_end tasks entries k (entry_of outs ins [] 0) c at,
      (
        unlinked_outs (ends_of k tasks) outs,
        unlinked_ins (ends_of k tasks) ins,
        spare,
        delta,
        same,
        omega (arith, slots),
        unlinked_outs-IsWithout (ends_of k tasks) outs ao,
        unlinked_ins-IsWithout (ends_of k tasks) ins ai,
      ),
    )
