-- ===== src/PriorityQueue/Layout.antt =====
-- The slots after a `push`.
use ukv.Prelude.{
  ℕ, zero, suc, ◌+◌, ◌-◌, ◌≤◌, ◌≡◌, ◌⊎◌, refl, sym, ap, ◌∙◌, Bool, true, false, List, [], ◌∷◌, ◌++◌,
  arith, length, get_elem?, set, replicate, length-append, append_assoc, some, length-set, ◌==◌,
  Bool-cases, inl, inr, ltb, Option-cases, if◌then◌else◌,
}
use ukv.Ranges.{lower_bound}
use ukv.PriorityQueue.{Queue, capacity, copy_slot, shift_slots, position, push_at, push}

module _ {ℓ} {A : Type ℓ} where
  pub lower_bound-le {κ} :
      {B : Type κ} (precedes : A → B → Bool) (xs : List A) (v : B)
      → lower_bound precedes xs v ≤ length xs
  unfolding lower_bound
  lower_bound-le precedes [] v = omega arith
  lower_bound-le precedes (x ∷ xs) v = ground (arith, lower_bound-le precedes xs v)

  pub get_elem?-append_length :
      (before : List A) (x : A) (after : List A) (n : ℕ)
      → length before ≡ n
      → get_elem? (before ++ (x ∷ after)) n ≡ some x
  get_elem?-append_length [] x after zero h = refl
  get_elem?-append_length [] x after (suc n) h = absurd (omega arith)
  get_elem?-append_length (b ∷ before) x after zero h = absurd (omega arith)
  get_elem?-append_length (b ∷ before) x after (suc n) h =
      get_elem?-append_length before x after n (omega arith)

  pub set-append_length :
      (before : List A) (x v : A) (after : List A) (n : ℕ)
      → length before ≡ n
      → set (before ++ (x ∷ after)) n v ≡ before ++ (v ∷ after)
  set-append_length [] x v after zero h = refl
  set-append_length [] x v after (suc n) h = absurd (omega arith)
  set-append_length (b ∷ before) x v after zero h = absurd (omega arith)
  set-append_length (b ∷ before) x v after (suc n) h =
      ap (◌∷◌ b) (set-append_length before x v after n (omega arith))

  copy_slot_next :
      (before : List A) (x y : A) (after : List A) (n : ℕ)
      → length before ≡ n
      → copy_slot (before ++ (x ∷ y ∷ after)) n (suc n) ≡ before ++ (x ∷ x ∷ after)
  unfolding copy_slot
  copy_slot_next before x y after n h =
      rw (get_elem?-append_length before x (y ∷ after) n h, copy_slot)
        (ap (λ b. set b (suc n) x) (sym (append_assoc before (x ∷ []) (y ∷ after)))
          ∙ set-append_length (before ++ (x ∷ [])) y x after (suc n)
              (omega (arith, length-append before (x ∷ [])))
          ∙ append_assoc before (x ∷ []) (x ∷ after))

  length-copy_slot :
      (slots : List A) (from to : ℕ) → length (copy_slot slots from to) ≡ length slots
  unfolding copy_slot
  length-copy_slot slots from to = elim (Option-cases (get_elem? slots from)) [
    | inl e ↦ rw (e, copy_slot) refl
    | inr (v, e) ↦ rw (e, copy_slot) (length-set slots to v)
  ]

  length-shift_slots :
      (rounds source : ℕ) (slots : List A) → length (shift_slots rounds source slots) ≡ length slots
  unfolding shift_slots
  length-shift_slots zero source slots = refl
  length-shift_slots (suc rounds) source slots =
      length-shift_slots rounds (suc source) (copy_slot slots source (suc source))
      ∙ length-copy_slot slots source (suc source)

  -- The loop fills every slot behind its first with copies of that one.
  shift_slots_lem :
      (before : List A) (x : A) (over after : List A) (n : ℕ)
      → length before ≡ n
      → shift_slots (length over) n (before ++ (x ∷ (over ++ after)))
        ≡ before ++ (x ∷ (replicate (length over) x ++ after))
  unfolding shift_slots
  shift_slots_lem before x [] after n h = refl
  shift_slots_lem before x (y ∷ over) after n h =
      ap (shift_slots (length over) (suc n)) (
        copy_slot_next before x y (over ++ after) n h
        ∙ sym (append_assoc before (x ∷ []) (x ∷ (over ++ after))))
      ∙ shift_slots_lem (before ++ (x ∷ [])) x over after (suc n)
          (omega (arith, length-append before (x ∷ [])))
      ∙ append_assoc before (x ∷ []) (x ∷ (replicate (length over) x ++ after))

  push_at_bounds :
      (less : A → A → Bool) (q : Queue A) (e : A) (i : ℕ)
      → q.size ≤ capacity q
      → (capacity (push_at less q e i).0 ≡ capacity q)
        × ((push_at less q e i).0.size ≤ capacity q)
        × ((push_at less q e i).1 ≡ false
            → ((push_at less q e i).0 ≡ q) × (q.size ≡ capacity q) × (i ≡ q.size))
  unfolding push_at
  push_at_bounds less q e i h = ground (
    arith,
    length-set q.slots q.size e,
    length-set (shift_slots (q.size - (i + 1)) i q.slots) i e,
    length-shift_slots (q.size - (i + 1)) i q.slots,
  )

  -- A `push` keeps the capacity and never goes past it; it answers false only when the queue is
  -- full and every kept element has a higher priority, and then changes nothing.
  pub push_bounds :
      (less : A → A → Bool) (q : Queue A) (e : A)
      → q.size ≤ capacity q
      → (capacity (push less q e).0 ≡ capacity q)
        × ((push less q e).0.size ≤ capacity q)
        × (((push less q e).1 ≡ true)
            ⊎ (((push less q e).0 ≡ q) × (q.size ≡ capacity q) × (position less q e ≡ q.size)))
  unfolding push
  push_bounds less q e h =
      let (same, bounded, refused) = push_at_bounds less q e (position less q e) h in
      (
        same,
        bounded,
        elim (Bool-cases (push less q e).1) [ inl took ↦ inl took | inr left ↦ inr (refused left) ],
      )

  module _ (less : A → A → Bool) (before : List A) (x : A) (over spare : List A) (e : A) where
    -- A queue that holds `before`, `x` and `over`.
    abbrev pub holding : Queue A
    holding = record {
      slots = before ++ (x ∷ (over ++ spare));
      size = length before + suc (length over);
    }

    push_at_middle : push_at less holding e (length before) ≡ (
      record {
        slots = before ++ (e ∷ (replicate (length over) x ++ spare));
        size = length before + suc (length over) + (if ltb 0 (length spare) then 1 else 0);
      },
      true,
    )
    unfolding push_at
    push_at_middle =
        let not_end : (length before == length before + suc (length over)) ≡ false = ground arith in
        let rounds : length before + suc (length over) - (length before + 1) ≡ length over =
          omega arith in
        let room : ltb (length before + suc (length over))
              (length (before ++ (x ∷ (over ++ spare))))
            ≡ ltb 0 (length spare) =
          ground (arith, length-append before (x ∷ (over ++ spare)), length-append over spare) in
        rw
          (
            not_end,
            rounds,
            shift_slots_lem before x over spare (length before) refl,
            set-append_length before x e (replicate (length over) x ++ spare) (length before) refl,
            room,
          )
          refl

    -- A `push` of an element whose place is that of `x`, with `over` behind it: the element is put
    -- there, and every kept slot behind it is overwritten by a copy of `x`. With room left, the
    -- next slot is counted though nothing was written to it.
    pub push_middle :
        position less holding e ≡ length before
        → push less holding e ≡ (
          record {
            slots = before ++ (e ∷ (replicate (length over) x ++ spare));
            size = length before + suc (length over) + (if ltb 0 (length spare) then 1 else 0);
          },
          true,
        )
    unfolding push
    push_middle h = rw h push_at_middle
