-- ===== src/LinkedArray/Contents.antt =====
-- What the operations do to the contents of an array.
use mathlib.Core.Path.{ap₂}
use ukv.Prelude.{
  ℕ, suc, ◌≡◌, ◌+◌, ◌-◌, ◌%◌, ◌^◌, ◌≤◌, ◌<◌, refl, sym, ap, subst, ◌∙◌, false, Option, some, List,
  [], ◌∷◌, ◌++◌, append_assoc, length, length-append, length-take, length-drop, length-set, set,
  take, drop, take-append-drop, take-append_left, take-append_length, arith, Bool-cases,
  Option-cases, inl, inr, ltb, leb, le→ltb_false,
}
use ukv.Types.Rounding.{next_power_of_two_bounds}
use ukv.Ranges.{memcpy, memmove, trivial_insert, trivial_erase}
use ukv.Ranges.Buffers.{trivial_insert_lem, trivial_erase_lem, length-memcpy}
use ukv.PriorityQueue.Ideal.{take-set-suc}
use ukv.LinkedArray.{Array, contents, erase, more_slots, reserve, push_back, place, insert}

-- The capacity is the number of slots, a 32-bit word, and the size does not exceed it.
pub record IsArray {ℓ} {A : Type ℓ} (a : Array A) : Type 0 where
  pub slots : length (a.slots) ≡ a.cap
  pub bounded : a.size ≤ a.cap
  pub word : a.cap < 2 ^ 32

-- The arena gives as many slots as it is asked for.
abbrev pub GivesSlots {ℓ} : {A : Type ℓ} → (ℕ → Option (List A)) → Type ℓ
GivesSlots fresh = (n : ℕ) (added : List _) → fresh n ≡ some added → length added ≡ n

module _ {ℓ} {A : Type ℓ} where
  placed :
      (slots before following gap rest inserted : List A) (size offset : ℕ)
      → slots ≡ before ++ (following ++ (gap ++ rest))
      → offset ≡ length before
      → size ≡ length before + length following
      → length gap ≡ length inserted
      → take (size + length inserted) (trivial_insert slots size offset inserted).0
        ≡ before ++ (inserted ++ following)
  placed slots before following gap rest inserted size offset whole o n h =
      rw (whole, o, n, trivial_insert_lem before following gap rest inserted h)
        (ap (take (length before + length following + length inserted)) (
            ap (◌++◌ before) (sym (append_assoc inserted following rest))
            ∙ sym (append_assoc before (inserted ++ following) rest))
          ∙ take-append_length (length before + length following + length inserted)
              (before ++ (inserted ++ following)) rest
              (omega (
                arith,
                length-append before (inserted ++ following),
                length-append inserted following,
              )))

  place_lem :
      (a : Array A) (inserted : List A) (offset : ℕ)
      → offset ≤ a.size
      → a.size + length inserted ≤ length (a.slots)
      → take (a.size + length inserted) (place a offset inserted)
        ≡ take offset (contents a) ++ (inserted ++ drop offset (contents a))
  unfolding place trivial_insert
  place_lem a inserted offset inside room =
      let c = take a.size (a.slots) in
      let d = drop a.size (a.slots) in
      let k = length inserted in
      let size_c = length-take a.size (a.slots) in
      placed (a.slots) (take offset c) (drop offset c) (take k d) (drop k d) inserted a.size offset
        (sym (take-append-drop a.size (a.slots))
          ∙ ap₂ (◌++◌) (sym (take-append-drop offset c)) (sym (take-append-drop k d))
          ∙ append_assoc (take offset c) (drop offset c) (take k d ++ drop k d))
        (omega (arith, length-take offset c, size_c))
        (omega (arith, length-take offset c, length-drop offset c, size_c))
        (omega (arith, length-take k d, length-drop a.size (a.slots)))

  length-place :
      (a : Array A) (offset : ℕ) (inserted : List A)
      → length (place a offset inserted) ≡ length (a.slots)
  unfolding place memmove
  length-place a offset inserted =
      let slots = a.slots in
      length-memcpy
        (memcpy slots (offset + length inserted) (take (a.size - offset) (drop offset slots)))
        offset inserted
      ∙ length-memcpy slots (offset + length inserted) (take (a.size - offset) (drop offset slots))

  inserted_into :
      (a a' b : Array A) (offset : ℕ) (inserted : List A) (new_size : ℕ)
      → IsArray b
      → contents b ≡ contents a
      → b.size ≡ a.size
      → new_size ≡ a.size + length inserted
      → offset ≤ a.size
      → new_size ≤ b.cap
      → record b { slots = place b offset inserted; size = new_size } ≡ a'
      → IsArray a'
        × (contents a' ≡ take offset (contents a) ++ (inserted ++ drop offset (contents a)))
  inserted_into a a' b offset inserted new_size v kept size word inside room same =
      subst
        (λ (r : Array A).
          IsArray r
          × (contents r ≡ take offset (contents a) ++ (inserted ++ drop offset (contents a))))
        same
        (
          record {
            slots = length-place b offset inserted ∙ v.slots;
            bounded = room;
            word = v.word;
          },
          ap (λ n. take n (place b offset inserted))
                (word ∙ ap (λ n. n + length inserted) (sym size))
              ∙ place_lem b inserted offset (omega arith) (omega (arith, v))
              ∙ ap (λ c. take offset c ++ (inserted ++ drop offset c)) kept,
        )

module _ {ℓ} {A : Type ℓ} (fresh : ℕ → Option (List A)) where
  more_slots-some :
      (a : Array A) (new_cap : ℕ) {a' : Array A}
      → GivesSlots fresh
      → IsArray a
      → a.cap ≤ new_cap
      → new_cap < 2 ^ 32
      → more_slots fresh a new_cap ≡ some a'
      → IsArray a' × (contents a' ≡ contents a) × (a'.size ≡ a.size) × (a'.cap ≡ new_cap)
  unfolding more_slots
  more_slots-some a new_cap {a'} g v le lt e = elim (Option-cases (fresh (new_cap - a.cap))) [
    | inl failed ↦ absurd (ground arith)
    | inr (added, given) ↦
        let same : record a { slots = a.slots ++ added; cap = new_cap % 2 ^ 32 } ≡ a' =
          ground arith in
        let count = g (new_cap - a.cap) added given in
        subst
          (λ (r : Array A).
            IsArray r × (contents r ≡ contents a) × (r.size ≡ a.size) × (r.cap ≡ new_cap))
          same
          (
            record {
              slots = omega (arith, length-append (a.slots) added, v);
              bounded = omega (arith, v);
              word = omega (arith, v);
            },
            take-append_left a.size (a.slots) added (omega (arith, v)),
            refl,
            omega arith,
          )
  ]

  reserve-some :
      (a : Array A) (new_cap : ℕ) {a' : Array A}
      → GivesSlots fresh
      → IsArray a
      → new_cap < 2 ^ 31
      → reserve fresh a new_cap ≡ some a'
      → IsArray a' × (contents a' ≡ contents a) × (a'.size ≡ a.size) × (new_cap ≤ a'.cap)
  unfolding reserve
  reserve-some a new_cap {a'} g v lt e = elim (Bool-cases (leb new_cap a.cap)) [
    | inl enough ↦
        let same : a ≡ a' = ground arith in
        subst
          (λ (r : Array A).
            IsArray r × (contents r ≡ contents a) × (r.size ≡ a.size) × (new_cap ≤ r.cap))
          same (v, refl, refl, ground arith)
    | inr short ↦
        let (p, rounded, above, below) =
          next_power_of_two_bounds new_cap (ground arith) (omega arith) in
        let made : more_slots fresh a p ≡ some a' = sym (rw (reserve, short, rounded) refl) ∙ e in
        let (valid, kept, size, cap) = more_slots-some a p g v (ground arith) (omega arith) made in
        (valid, kept, size, omega arith)
  ]

  -- A successful `push_back`, of an array with less than 2 ^ 31 - 1 elements, appends the element,
  -- and keeps the array valid.
  push_back_lem :
      (a : Array A) (val : A) (a' : Array A)
      → GivesSlots fresh
      → IsArray a
      → a.size + 1 < 2 ^ 31
      → push_back fresh a val ≡ some a'
      → IsArray a' × (contents a' ≡ contents a ++ (val ∷ []))
  unfolding push_back
  push_back_lem a val a' g v lt e =
      let next : (a.size + 1) % 2 ^ 32 ≡ suc a.size = omega arith in
      elim (Option-cases (reserve fresh a ((a.size + 1) % 2 ^ 32))) [
        | inl failed ↦ absurd (ground arith)
        | inr (b, reserved) ↦
            let (valid, kept, size, room) =
              reserve-some a ((a.size + 1) % 2 ^ 32) g v (omega arith) reserved in
            let same : record b { slots = set b.slots a.size val; size = (a.size + 1) % 2 ^ 32 }
                ≡ a' =
              ground arith in
            let at : b.size ≡ a.size = size in
            subst (λ (r : Array A). IsArray r × (contents r ≡ contents a ++ (val ∷ []))) same
              (
                record {
                  slots = length-set b.slots a.size val ∙ valid.slots;
                  bounded = omega arith;
                  word = valid.word;
                },
                rw next (
                    take-set-suc b.slots a.size val (omega (arith, valid))
                    ∙ ap (λ xs. xs ++ (val ∷ [])) (ap (λ n. take n b.slots) (sym size) ∙ kept)),
              )
      ]

  -- A successful `insert` puts the elements at the offset, whether or not the array grows for it,
  -- and keeps the array valid.
  pub insert_lem :
      (a : Array A) (offset : ℕ) (inserted : List A) (a' : Array A)
      → GivesSlots fresh
      → IsArray a
      → a.size + length inserted < 2 ^ 32
      → insert fresh a offset inserted ≡ some a'
      → IsArray a'
        × (contents a' ≡ take offset (contents a) ++ (inserted ++ drop offset (contents a)))
  unfolding insert
  insert_lem a offset inserted a' g v lt e =
      let new_size = (a.size + length inserted) % 2 ^ 32 in
      let word : new_size ≡ a.size + length inserted = omega arith in
      elim (Bool-cases (ltb a.size offset)) [
        | inl outside ↦ absurd (ground arith)
        | inr inside ↦ elim (Bool-cases (ltb a.cap new_size)) [
          | inr room ↦
              inserted_into a a' a offset inserted new_size v refl refl word (ground arith)
                (ground arith) (ground arith)
          | inl full ↦ elim (Option-cases (more_slots fresh a new_size)) [
            | inl failed ↦ absurd (ground arith)
            | inr (b, grown) ↦
                let (valid, kept, size, cap) =
                  more_slots-some a new_size g v (ground arith) (omega arith) grown in
                inserted_into a a' b offset inserted new_size valid kept size word (ground arith)
                  (omega arith) (ground arith)
          ]
        ]
      ]

module _ {ℓ} {A : Type ℓ} where
  erased :
      (slots before removed following rest : List A) (size offset count : ℕ)
      → slots ≡ before ++ (removed ++ (following ++ rest))
      → offset ≡ length before
      → count ≡ length removed
      → size ≡ length before + (length removed + length following)
      → take (size - count) (trivial_erase slots size offset count).0 ≡ before ++ following
  erased slots before removed following rest size offset count whole o n z =
      let (tail, left, _) = trivial_erase_lem before removed following rest in
      rw (whole, o, n, z)
        (ap
            (λ (r : List A × ℕ).
              take (length before + (length removed + length following) - length removed) r.0)
            left
          ∙ ap (take (length before + (length removed + length following) - length removed))
              (sym (append_assoc before following tail))
          ∙ take-append_length
              (length before + (length removed + length following) - length removed)
              (before ++ following) tail (omega (arith, length-append before following)))

  -- A successful `erase` takes out the elements of its range, and keeps the array valid; it
  -- succeeds whenever the range lies in the contents.
  pub erase_lem :
      (a : Array A) (offset count : ℕ)
      → IsArray a
      → offset + count ≤ a.size
      → (a' : Array A) × (erase a offset count ≡ some a')
        × IsArray a'
        × (contents a' ≡ take offset (contents a) ++ drop (offset + count) (contents a))
  unfolding erase trivial_erase memmove
  erase_lem a offset count v inside =
      let slots = a.slots in
      let c = take a.size slots in
      let kept = take (offset + count) c in
      let rest = drop (offset + count) c in
      let size_c = length-take a.size slots in
      let size_kept = length-take (offset + count) c in
      let after = memmove slots offset (offset + count) (a.size - (offset + count)) in
      let left : Array A = record a { slots = after; size = a.size - count } in
      let fits : ltb a.size (offset + count) ≡ false =
        le→ltb_false a.size (offset + count) inside in
      (
        left,
        rw fits refl,
        record {
          slots =
              length-memcpy slots offset
                (take (a.size - (offset + count)) (drop (offset + count) slots))
              ∙ v.slots;
          bounded = omega (arith, v);
          word = v.word;
        },
        erased slots (take offset kept) (drop offset kept) rest (drop a.size slots) a.size offset
              count
              (sym (take-append-drop a.size slots)
                ∙ ap (λ xs. xs ++ drop a.size slots)
                    (sym (take-append-drop (offset + count) c)
                      ∙ ap (λ xs. xs ++ rest) (sym (take-append-drop offset kept)))
                ∙ simp append_assoc)
              (omega (arith, length-take offset kept, size_kept, size_c))
              (omega (arith, length-drop offset kept, size_kept, size_c))
              (omega (
                arith,
                length-take offset kept,
                length-drop offset kept,
                size_kept,
                size_c,
                length-drop (offset + count) c,
              ))
            ∙ ap (λ xs. xs ++ rest)
                (sym (take-append_left offset kept rest (omega (arith, size_kept, size_c)))
                  ∙ ap (take offset) (take-append-drop (offset + count) c)),
      )
