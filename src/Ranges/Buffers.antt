-- ===== src/Ranges/Buffers.antt =====
-- `trivial_insert` and `trivial_erase` do to the used part of a buffer what their names say.
use ukv.Prelude.{
  ℕ, zero, suc, ◌+◌, ◌-◌, ◌≡◌, refl, sym, ap, ◌∙◌, List, [], ◌∷◌, ◌++◌, arith, length, take, drop,
  length-append, length-take, length-drop, take-append-drop, take-append_length, drop-append_length,
  append_assoc,
}
use ukv.Ranges.{memcpy, memmove, trivial_insert, trivial_erase}

module _ {ℓ} {A : Type ℓ} where
  -- A copy replaces as many slots as it writes.
  pub memcpy-append :
      (offset : ℕ) (before over after xs : List A)
      → length before ≡ offset
      → length over ≡ length xs
      → memcpy (before ++ (over ++ after)) offset xs ≡ before ++ (xs ++ after)
  unfolding memcpy
  memcpy-append zero [] [] [] [] p q = refl
  memcpy-append zero [] [] (a ∷ after) [] p q = refl
  memcpy-append zero [] [] after (x ∷ xs) p q = absurd (omega arith)
  memcpy-append zero [] (y ∷ over) after [] p q = absurd (omega arith)
  memcpy-append zero [] (y ∷ over) after (x ∷ xs) p q =
      ap (◌∷◌ x) (memcpy-append zero [] over after xs refl (omega arith))
  memcpy-append zero (b ∷ before) over after xs p q = absurd (omega arith)
  memcpy-append (suc offset) [] over after xs p q = absurd (omega arith)
  memcpy-append (suc offset) (b ∷ before) over after xs p q =
      ap (◌∷◌ b) (memcpy-append offset before over after xs (omega arith) q)

  pub length-memcpy :
      (buffer : List A) (offset : ℕ) (xs : List A)
      → length (memcpy buffer offset xs) ≡ length buffer
  unfolding memcpy
  length-memcpy [] offset xs = refl
  length-memcpy (b ∷ buffer) (suc offset) xs = ap suc (length-memcpy buffer offset xs)
  length-memcpy (b ∷ buffer) zero [] = refl
  length-memcpy (b ∷ buffer) zero (x ∷ xs) = ap suc (length-memcpy buffer zero xs)

  -- Slots regrouped after the first `k`.
  regroup :
      (k : ℕ) (xs ys rest : List A)
      → xs ++ (ys ++ rest) ≡ take k (xs ++ ys) ++ (drop k (xs ++ ys) ++ rest)
  regroup k xs ys rest =
      sym (append_assoc xs ys rest)
      ∙ ap (λ zs. zs ++ rest) (sym (take-append-drop k (xs ++ ys)))
      ∙ append_assoc (take k (xs ++ ys)) (drop k (xs ++ ys)) rest

  -- Moving `following` up by as many slots as the gap behind it has.
  move_up :
      (k : ℕ) (before following gap rest : List A)
      → length gap ≡ k
      → memcpy (before ++ (following ++ (gap ++ rest))) (length before + k) following
        ≡ before ++ (take k (following ++ gap) ++ (following ++ rest))
  move_up k before following gap rest h =
      let over = take k (following ++ gap) in
      let next = drop k (following ++ gap) in
      let sizes = length-append following gap in
      ap (λ b. memcpy b (length before + k) following)
        (ap (◌++◌ before) (regroup k following gap rest)
          ∙ sym (append_assoc before over (next ++ rest)))
      ∙ memcpy-append (length before + k) (before ++ over) next rest following
          (omega (arith, length-append before over, length-take k (following ++ gap)))
          (omega (arith, length-drop k (following ++ gap)))
      ∙ append_assoc before over (following ++ rest)

  -- A buffer that holds `before` and `following`, with a gap behind them that is as long as the
  -- insertion, holds the insertion between the two afterwards; the rest of it is untouched, and the
  -- returned length is the old one and that of the insertion.
  pub trivial_insert_lem :
      (before following gap rest inserted : List A)
      → length gap ≡ length inserted
      → trivial_insert
          (before ++ (following ++ (gap ++ rest)))
          (length before + length following)
          (length before)
          inserted
        ≡ (
          before ++ (inserted ++ (following ++ rest)),
          length before + length following + length inserted,
        )
  unfolding trivial_insert memmove
  trivial_insert_lem before following gap rest inserted h =
      let k = length inserted in
      let count : length before + length following - length before ≡ length following =
        omega arith in
      let moved : take (length following) (following ++ (gap ++ rest)) ≡ following =
        take-append_length _ following (gap ++ rest) refl in
      rw
        (
          count,
          drop-append_length _ before (following ++ (gap ++ rest)) refl,
          moved,
          move_up k before following gap rest h,
        )
        (ap (λ b. (b, length before + length following + k))
          (memcpy-append (length before) before (take k (following ++ gap)) (following ++ rest)
            inserted refl
            (omega (arith, length-take k (following ++ gap), length-append following gap))))

  -- Erasing from a buffer that holds `before`, `removed` and `following` leaves `before` and
  -- `following` in its used part, returns their length, and keeps the size of the buffer.
  pub trivial_erase_lem :
      (before removed following rest : List A)
      → (tail : List A) × (trivial_erase
            (before ++ (removed ++ (following ++ rest)))
            (length before + (length removed + length following))
            (length before)
            (length removed)
          ≡ (before ++ (following ++ tail), length before + length following))
        × (length tail ≡ length removed + length rest)
  unfolding trivial_erase memmove
  trivial_erase_lem before removed following rest =
      let n = length following in
      let over = take n (removed ++ following) in
      let left = drop n (removed ++ following) in
      let sizes = length-append removed following in
      let count : length before + (length removed + n) - (length before + length removed) ≡ n =
        omega arith in
      let size : length before + (length removed + n) - length removed ≡ length before + n =
        omega arith in
      let skipped : drop (length before + length removed)
            (before ++ (removed ++ (following ++ rest)))
          ≡ following ++ rest =
        ap (drop (length before + length removed))
          (sym (append_assoc before removed (following ++ rest)))
        ∙ drop-append_length _ (before ++ removed) (following ++ rest)
            (length-append before removed) in
      (
        left ++ rest,
        rw
            (
              count,
              size,
              skipped,
              take-append_length n following rest refl,
              regroup n removed following rest,
            )
            (ap (λ b. (b, length before + n))
              (memcpy-append (length before) before over (left ++ rest) following refl
                (omega (arith, length-take n (removed ++ following))))),
        omega (arith, length-append left rest, length-drop n (removed ++ following)),
      )
