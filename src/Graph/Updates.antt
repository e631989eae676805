-- ===== src/Graph/Updates.antt =====
-- The updates of an entry, over the ordered sets that its two ranges are.
use mathlib.Core.Path.{ap₂}
use ukv.Prelude.{
  ℕ, suc, ◌≡◌, ◌+◌, ◌*◌, ◌<◌, ◌⊎◌, inl, inr, refl, sym, ap, ◌∙◌, true, false, List, [], ◌∷◌, ◌++◌,
  append_assoc, length, length-append, get_elem?-append_right, arith, Bool-cases, take,
  take-append_length, drop-append_length,
}
use ukv.Types.{length_missing, Neighborship, ship_eq, ship_lt, VertexRole, source, target}
use ukv.Ranges.{lower_bound, trivial_insert}
use ukv.Ranges.Buffers.{trivial_insert_lem}
use ukv.Graph.{
  Entry, bytes_in_degrees_header, bytes_in_ship, neighbors, neighbors_in, role_start, is_new, is_at,
  insert_into_entry, grow_degree,
}
use ukv.Graph.Ships.{add_ship, put_first, split_at_ship}

-- An entry that holds two ranges, with spare slots behind them.
abbrev pub entry_of : List Neighborship → List Neighborship → List Neighborship → ℕ → Entry
entry_of outs ins spare delta = record {
  outgoing = length outs;
  incoming = length ins;
  ships = outs ++ (ins ++ spare);
  length = bytes_in_degrees_header + bytes_in_ship * (length outs + length ins);
  degree_delta = delta;
}

pub is_at-split :
    (a b : List Neighborship) (s : Neighborship) → is_at (a ++ b) (length a) s ≡ is_at b 0 s
unfolding is_at
is_at-split a b s = rw (is_at, get_elem?-append_right a b (length a) 0 (omega arith)) refl

-- Where one slot is inserted, among slots in five parts.
insert_slot :
    (pre a b post : List Neighborship) (x s : Neighborship) (spare : List Neighborship)
    → (trivial_insert
        (pre ++ ((a ++ b) ++ (post ++ (x ∷ spare))))
        (length pre + length (a ++ b) + length post)
        (length pre + length a)
        (s ∷ [])).0
      ≡ pre ++ ((a ++ (s ∷ b)) ++ (post ++ spare))
insert_slot pre a b post x s spare =
    let grouped : pre ++ ((a ++ b) ++ (post ++ (x ∷ spare)))
        ≡ (pre ++ a) ++ ((b ++ post) ++ ((x ∷ []) ++ spare)) =
      simp append_assoc in
    let used : length pre + length (a ++ b) + length post ≡ length (pre ++ a) + length (b ++ post) =
      omega (arith, length-append a b, length-append pre a, length-append b post) in
    rw
      (
        grouped,
        used,
        sym (length-append pre a),
        trivial_insert_lem (pre ++ a) (b ++ post) (x ∷ []) spare (s ∷ []) refl,
      )
      (simp append_assoc)

put_first-cases :
    (s : Neighborship) (b : List Neighborship)
    → ((is_at b 0 s ≡ true) × (put_first s b ≡ b))
      ⊎ ((is_at b 0 s ≡ false) × (put_first s b ≡ s ∷ b))
unfolding is_at put_first
put_first-cases s [] = inr (refl, refl)
put_first-cases s (n ∷ ns) = elim (Bool-cases (ship_eq n s)) [
  | inl e ↦ inl (e, rw e refl)
  | inr e ↦ inr (e, rw e refl)
]

-- What insertion does to one of two ranges.
InsertedInRange :
    (pre range post : List Neighborship) (x s : Neighborship) (spare : List Neighborship)
    (used offset i : ℕ)
    → Type 0
InsertedInRange pre range post x s spare used offset i =
    ((is_at range i s ≡ true) × (add_ship s range ≡ range))
    ⊎ ((is_at range i s ≡ false)
        × (length (add_ship s range) ≡ suc (length range))
        × ((trivial_insert (pre ++ (range ++ (post ++ (x ∷ spare)))) used (offset + i) (s ∷ [])).0
            ≡ pre ++ (add_ship s range ++ (post ++ spare))))

insert_at_split :
    (pre range post : List Neighborship) (x s : Neighborship) (spare : List Neighborship)
    (used offset i : ℕ) (a b : List Neighborship)
    → used ≡ length pre + length range + length post
    → offset ≡ length pre
    → range ≡ a ++ b
    → i ≡ length a
    → add_ship s range ≡ a ++ put_first s b
    → InsertedInRange pre range post x s spare used offset i
unfolding InsertedInRange
insert_at_split pre range post x s spare used offset i a b u o whole place added =
    let at : is_at range i s ≡ is_at b 0 s =
      ap₂ (λ r j. is_at r j s) whole place ∙ is_at-split a b s in
    elim (put_first-cases s b) [
      | inl (here, same) ↦ inl (at ∙ here, added ∙ ap (λ c. a ++ c) same ∙ sym whole)
      | inr (there, put) ↦
          let grown : add_ship s range ≡ a ++ (s ∷ b) = added ∙ ap (λ c. a ++ c) put in
          inr (
            at ∙ there,
            ap length grown
                ∙ omega (arith, length-append a (s ∷ b), length-append a b, ap length whole),
            rw (u, o, place, grown, whole) (insert_slot pre a b post x s spare),
          )
    ]

insert_in_range :
    (pre range post : List Neighborship) (x s : Neighborship) (spare : List Neighborship)
    (used offset : ℕ)
    → used ≡ length pre + length range + length post
    → offset ≡ length pre
    → InsertedInRange pre range post x s spare used offset (lower_bound ship_lt range s)
insert_in_range pre range post x s spare used offset u o =
    let (a, b, whole, place, added, removed) = split_at_ship s range in
    insert_at_split pre range post x s spare used offset (lower_bound ship_lt range s) a b u o whole
      place added

module _ (outs ins spare : List Neighborship) (delta : ℕ)
    (h : bytes_in_degrees_header + bytes_in_ship * (length outs + length ins)
      < length_missing) where
  pub entry_of-old : is_new (entry_of outs ins spare delta) ≡ false
  unfolding is_new
  entry_of-old = ground arith

  neighbors-entry_of :
      (role : VertexRole)
      → neighbors (entry_of outs ins spare delta) role
        ≡ neighbors_in (entry_of outs ins spare delta) role
  unfolding neighbors
  neighbors-entry_of role = ground arith

  pub neighbors-source : neighbors (entry_of outs ins spare delta) source ≡ outs
  unfolding neighbors_in
  neighbors-source =
      neighbors-entry_of source ∙ take-append_length (length outs) outs (ins ++ spare) refl

  pub neighbors-target : neighbors (entry_of outs ins spare delta) target ≡ ins
  unfolding neighbors_in
  neighbors-target =
      neighbors-entry_of target
      ∙ ap (λ xs. take (length ins) xs) (drop-append_length (length outs) outs (ins ++ spare) refl)
      ∙ take-append_length (length ins) ins spare refl

-- An insertion of a neighborship in either role makes its range, as an ordered set, hold it: the
-- other range, the header and the length in bytes fit, and no slot is taken but the spare one.
pub insert_into_entry_lem :
    (outs ins spare : List Neighborship) (x ship : Neighborship) (delta : ℕ)
    → bytes_in_degrees_header + bytes_in_ship * suc (length outs + length ins) < length_missing
    → ((spare' : List Neighborship) × (insert_into_entry
            (entry_of outs ins (x ∷ spare) delta)
            source
            ship
          ≡ entry_of (add_ship ship outs) ins spare' delta)
        × (length (add_ship ship outs) + length spare' ≡ length outs + suc (length spare)))
      × ((spare' : List Neighborship) × (insert_into_entry
              (entry_of outs ins (x ∷ spare) delta)
              target
              ship
            ≡ entry_of outs (add_ship ship ins) spare' delta)
          × (length (add_ship ship ins) + length spare' ≡ length ins + suc (length spare)))
unfolding insert_into_entry InsertedInRange role_start grow_degree
insert_into_entry_lem outs ins spare x ship delta h =
    let old = entry_of-old outs ins (x ∷ spare) delta (omega arith) in
    (
      elim (insert_in_range [] outs ins x ship spare (length outs + length ins) 0 (omega arith)
          refl) [
            | inl (here, same) ↦ (
              x ∷ spare,
              rw (old, neighbors-source outs ins (x ∷ spare) delta (omega arith), here, same) refl,
              rw same (omega arith),
            )
            | inr (there, more, slots) ↦ (
              spare,
              rw (old, neighbors-source outs ins (x ∷ spare) delta (omega arith), there, slots)
                  (ap₂
                    (λ d m. record {
                      outgoing = d;
                      incoming = length ins;
                      ships = add_ship ship outs ++ (ins ++ spare);
                      length = m;
                      degree_delta = delta;
                    })
                    (omega arith) (omega arith)),
              omega arith,
            )
          ],
      elim (insert_in_range outs ins [] x ship spare (length outs + length ins) (length outs)
          (omega arith) refl) [
            | inl (here, same) ↦ (
              x ∷ spare,
              rw (old, neighbors-target outs ins (x ∷ spare) delta (omega arith), here, same) refl,
              rw same (omega arith),
            )
            | inr (there, more, slots) ↦ (
              spare,
              rw (old, neighbors-target outs ins (x ∷ spare) delta (omega arith), there, slots)
                  (ap₂
                    (λ d m. record {
                      outgoing = length outs;
                      incoming = d;
                      ships = outs ++ (add_ship ship ins ++ spare);
                      length = m;
                      degree_delta = delta;
                    })
                    (omega arith) (omega arith)),
              omega arith,
            )
          ],
    )
