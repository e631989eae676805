-- ===== src/Graph/Erasing.antt =====
-- The removal of one neighborship from an entry.
use mathlib.Core.Path.{ap₂}
use ukv.Prelude.{
  ℕ, suc, ◌≡◌, ◌+◌, ◌-◌, ◌*◌, ◌%◌, ◌<◌, ◌^◌, ◌⊎◌, inl, inr, refl, sym, ap, ◌∙◌, true, false, some,
  List, [], ◌∷◌, ◌++◌, append_assoc, length, length-append, arith, Bool-cases,
}
use ukv.Types.{length_missing, Neighborship, ship_eq, ship_lt, source, target}
use ukv.Types.Order.{ship_same_iff}
use ukv.Ranges.{lower_bound, trivial_erase}
use ukv.Ranges.Buffers.{trivial_erase_lem}
use ukv.Graph.{
  Entry, bytes_in_degrees_header, bytes_in_ship, role_start, is_at, erase_ships, erase_from_entry,
  shrink_degree,
}
use ukv.Graph.Ships.{remove_ship, drop_first, split_at_ship}
use ukv.Graph.Updates.{entry_of, is_at-split, entry_of-old, neighbors-source, neighbors-target}

-- Where one slot is erased.
erase_slot :
    (pre a post : List Neighborship) (n : Neighborship) (b spare : List Neighborship)
    → (tail : List Neighborship) × ((trivial_erase
          (pre ++ ((a ++ (n ∷ b)) ++ (post ++ spare)))
          (length pre + length (a ++ (n ∷ b)) + length post)
          (length pre + length a)
          1).0
        ≡ pre ++ ((a ++ b) ++ (post ++ tail)))
      × (length tail ≡ suc (length spare))
erase_slot pre a post n b spare =
    let grouped : pre ++ ((a ++ (n ∷ b)) ++ (post ++ spare))
        ≡ (pre ++ a) ++ ((n ∷ []) ++ ((b ++ post) ++ spare)) =
      simp append_assoc in
    let used : length pre + length (a ++ (n ∷ b)) + length post
        ≡ length (pre ++ a) + (1 + length (b ++ post)) =
      omega (arith, length-append a (n ∷ b), length-append pre a, length-append b post) in
    let (tail, erased, size) = trivial_erase_lem (pre ++ a) (n ∷ []) (b ++ post) spare in
    (
      tail,
      rw (grouped, used, sym (length-append pre a))
          (ap (λ (r : List Neighborship × ℕ). r.0) erased ∙ simp append_assoc),
      size ∙ omega arith,
    )

ap₃ : (f : ℕ → ℕ → ℕ → Entry) {n n' m m' k k' : ℕ} → n ≡ n' → m ≡ m' → k ≡ k' → f n m k ≡ f n' m' k'
ap₃ f p q r = cc

drop_first-cases :
    (s : Neighborship) (b : List Neighborship)
    → ((is_at b 0 s ≡ true) × (b ≡ s ∷ drop_first s b))
      ⊎ ((is_at b 0 s ≡ false) × (drop_first s b ≡ b))
unfolding is_at drop_first
drop_first-cases s [] = inr (refl, refl)
drop_first-cases s (n ∷ ns) = elim (Bool-cases (ship_eq n s)) [
  | inl e ↦ inl (e, ap (λ m. m ∷ ns) ((ship_same_iff n s).0 e) ∙ rw e refl)
  | inr e ↦ inr (e, rw e refl)
]

ErasedInRange :
    (pre range post : List Neighborship) (s : Neighborship) (spare : List Neighborship)
    (used offset i : ℕ)
    → Type 0
ErasedInRange pre range post s spare used offset i =
    ((is_at range i s ≡ false) × (remove_ship s range ≡ range))
    ⊎ ((is_at range i s ≡ true)
        × (suc (length (remove_ship s range)) ≡ length range)
        × ((tail : List Neighborship) × ((trivial_erase (pre ++ (range ++ (post ++ spare))) used
                (offset + i) 1).0
              ≡ pre ++ (remove_ship s range ++ (post ++ tail)))
            × (length tail ≡ suc (length spare))))

erase_at_split :
    (pre range post : List Neighborship) (s : Neighborship) (spare : List Neighborship)
    (used offset i : ℕ) (a b : List Neighborship)
    → used ≡ length pre + length range + length post
    → offset ≡ length pre
    → range ≡ a ++ b
    → i ≡ length a
    → remove_ship s range ≡ a ++ drop_first s b
    → ErasedInRange pre range post s spare used offset i
unfolding ErasedInRange
erase_at_split pre range post s spare used offset i a b u o whole place removed =
    let at : is_at range i s ≡ is_at b 0 s =
      ap₂ (λ r j. is_at r j s) whole place ∙ is_at-split a b s in
    elim (drop_first-cases s b) [
      | inr (there, same) ↦ inl (at ∙ there, removed ∙ ap (λ c. a ++ c) same ∙ sym whole)
      | inl (here, found) ↦
          let rest = drop_first s b in
          let full : range ≡ a ++ (s ∷ rest) = whole ∙ ap (λ c. a ++ c) found in
          let (tail, erased, size) = erase_slot pre a post s rest spare in
          inr (
            at ∙ here,
            omega (
              arith,
              ap length removed,
              ap length full,
              length-append a rest,
              length-append a (s ∷ rest),
            ),
            (tail, rw (u, o, place, removed, full) erased, size),
          )
    ]

erase_in_range :
    (pre range post : List Neighborship) (s : Neighborship) (spare : List Neighborship)
    (used offset : ℕ)
    → used ≡ length pre + length range + length post
    → offset ≡ length pre
    → ErasedInRange pre range post s spare used offset (lower_bound ship_lt range s)
erase_in_range pre range post s spare used offset u o =
    let (a, b, whole, place, added, removed) = split_at_ship s range in
    erase_at_split pre range post s spare used offset (lower_bound ship_lt range s) a b u o whole
      place removed

-- A removal of one neighborship, in either role, takes it out of its range as an ordered set: the
-- other range, the header and the length in bytes fit, the slots stay, and `degree_delta` grows by
-- the number of neighborships that were taken out.
pub erase_from_entry_lem :
    (outs ins spare : List Neighborship) (ship : Neighborship) (delta : ℕ)
    → bytes_in_degrees_header + bytes_in_ship * (length outs + length ins) < length_missing
    → delta < 2 ^ 32
    → ((spare' : List Neighborship) × (erase_from_entry
            (entry_of outs ins spare delta)
            source
            ship.neighbor_id
            (some ship.edge_id)
          ≡ entry_of
              (remove_ship ship outs)
              ins
              spare'
              ((delta + (length outs - length (remove_ship ship outs))) % 2 ^ 32))
        × (length (remove_ship ship outs) + length spare' ≡ length outs + length spare))
      × ((spare' : List Neighborship) × (erase_from_entry
              (entry_of outs ins spare delta)
              target
              ship.neighbor_id
              (some ship.edge_id)
            ≡ entry_of outs
                (remove_ship ship ins)
                spare'
                ((delta + (length ins - length (remove_ship ship ins))) % 2 ^ 32))
          × (length (remove_ship ship ins) + length spare' ≡ length ins + length spare))
unfolding erase_from_entry erase_ships ErasedInRange role_start shrink_degree
erase_from_entry_lem outs ins spare ship delta h d =
    let old = entry_of-old outs ins spare delta h in
    (
      elim (erase_in_range [] outs ins ship spare (length outs + length ins) 0 (omega arith) refl) [
        | inl (there, same) ↦ (
          spare,
          rw (old, neighbors-source outs ins spare delta h, there, same)
              (ap
                (λ e. record {
                  outgoing = length outs;
                  incoming = length ins;
                  ships = outs ++ (ins ++ spare);
                  length = bytes_in_degrees_header + bytes_in_ship * (length outs + length ins);
                  degree_delta = e;
                })
                (omega arith)),
          rw same refl,
        )
        | inr (here, fewer, (tail, slots, size)) ↦ (
          tail,
          rw (old, neighbors-source outs ins spare delta h, here, slots)
              (ap₃
                (λ n m e. record {
                  outgoing = n;
                  incoming = length ins;
                  ships = remove_ship ship outs ++ (ins ++ tail);
                  length = m;
                  degree_delta = e;
                })
                (omega arith) (omega arith) (ap (λ k. (delta + k) % 2 ^ 32) (omega arith))),
          omega arith,
        )
      ],
      elim (erase_in_range outs ins [] ship spare (length outs + length ins) (length outs)
          (omega arith) refl) [
            | inl (there, same) ↦ (
              spare,
              rw (old, neighbors-target outs ins spare delta h, there, same)
                  (ap
                    (λ e. record {
                      outgoing = length outs;
                      incoming = length ins;
                      ships = outs ++ (ins ++ spare);
                      length = bytes_in_degrees_header + bytes_in_ship * (length outs + length ins);
                      degree_delta = e;
                    })
                    (omega arith)),
              rw same refl,
            )
            | inr (here, fewer, (tail, slots, size)) ↦ (
              tail,
              rw (old, neighbors-target outs ins spare delta h, here, slots)
                  (ap₃
                    (λ n m e. record {
                      outgoing = length outs;
                      incoming = n;
                      ships = outs ++ (remove_ship ship ins ++ tail);
                      length = m;
                      degree_delta = e;
                    })
                    (omega arith) (omega arith) (ap (λ k. (delta + k) % 2 ^ 32) (omega arith))),
              omega arith,
            )
          ],
    )
