-- ===== src/Ranges/Sorted.antt =====
-- `sort_and_deduplicate` and the searches in what it returns, over any strict order.
use ukv.Prelude.{
  ◌≡◌, refl, subst, ap, ◌∙◌, true, false, ◌||◌, List, [], ◌∷◌, arith, inl, inr, get_elem?, some,
  Bool-cases,
}
use ukv.Types.Order.{StrictOrder}
use ukv.Ranges.{
  lower_bound, insert_sorted, sort, unique_after, unique, sort_and_deduplicate, offset_in_sorted,
  contains,
}

module _ {ℓ} {A : Type ℓ} ⦃o : StrictOrder A⦄ where
  -- Every element comes after `x`.
  abbrev pub Above : A → List A → Type 0
  Above x [] = Unit {0}
  Above x (y ∷ ys) = (o.less x y ≡ true) × Above x ys

  -- No element comes before `x`.
  abbrev pub NotBelow : A → List A → Type 0
  NotBelow x [] = Unit {0}
  NotBelow x (y ∷ ys) = (o.less y x ≡ false) × NotBelow x ys

  -- Strictly ascending, so with no repetition.
  abbrev pub IsAscending : List A → Type 0
  IsAscending [] = Unit {0}
  IsAscending (x ∷ xs) = Above x xs × IsAscending xs

  abbrev IsSorted : List A → Type 0
  IsSorted [] = Unit {0}
  IsSorted (x ∷ xs) = NotBelow x xs × IsSorted xs

  asym : (x y : A) → o.less x y ≡ true → o.less y x ≡ false
  asym x y h = elim (Bool-cases (o.less y x)) [
    | inl e ↦ ground (arith, o.trans x y x h e, o.irrefl x)
    | inr e ↦ e
  ]

  -- A strict bound carries over to what is not smaller.
  less_of_not-less : (x y z : A) → o.less x y ≡ true → o.less z y ≡ false → o.less x z ≡ true
  less_of_not-less x y z h k = elim (Bool-cases (o.less y z)) [
    | inl e ↦ o.trans x y z h e
    | inr e ↦ subst (λ w. o.less x w ≡ true) (o.connex y z e k) h
  ]

  not-less_of_not-less : (x y z : A) → o.less y x ≡ false → o.less z y ≡ false → o.less z x ≡ false
  not-less_of_not-less x y z h k = elim (Bool-cases (o.less z x)) [
    | inl e ↦ ground (arith, less_of_not-less z x y e h)
    | inr e ↦ e
  ]

  NotBelow-mono : (x y : A) (xs : List A) → o.less y x ≡ false → NotBelow y xs → NotBelow x xs
  NotBelow-mono x y [] h b = tt
  NotBelow-mono x y (z ∷ zs) h b = (not-less_of_not-less x y z h b.0, NotBelow-mono x y zs h b.1)

  Above-NotBelow : (x y : A) (xs : List A) → o.less x y ≡ true → NotBelow y xs → Above x xs
  Above-NotBelow x y [] h b = tt
  Above-NotBelow x y (z ∷ zs) h b = (less_of_not-less x y z h b.0, Above-NotBelow x y zs h b.1)

  insert_sorted-NotBelow :
      (x v : A) (xs : List A) → o.less v x ≡ false → NotBelow x xs → NotBelow x (insert_sorted v xs)
  unfolding insert_sorted
  insert_sorted-NotBelow x v [] h b = (h, tt)
  insert_sorted-NotBelow x v (y ∷ ys) h b = elim (Bool-cases (o.less v y)) [
    | inl e ↦ rw e (h, b)
    | inr e ↦ rw e (b.0, insert_sorted-NotBelow x v ys h b.1)
  ]

  insert_sorted-IsSorted : (v : A) (xs : List A) → IsSorted xs → IsSorted (insert_sorted v xs)
  unfolding insert_sorted
  insert_sorted-IsSorted v [] s = (tt, tt)
  insert_sorted-IsSorted v (y ∷ ys) s = elim (Bool-cases (o.less v y)) [
    | inl e ↦ rw e ((asym v y e, NotBelow-mono v y ys (asym v y e) s.0), s)
    | inr e ↦ rw e (insert_sorted-NotBelow y v ys e s.0, insert_sorted-IsSorted v ys s.1)
  ]

  sort-IsSorted : (xs : List A) → IsSorted (sort xs)
  unfolding sort
  sort-IsSorted [] = tt
  sort-IsSorted (x ∷ xs) = insert_sorted-IsSorted x (sort xs) (sort-IsSorted xs)

  unique_after-Above :
      (x y : A) (xs : List A) → o.less x y ≡ true → IsSorted (y ∷ xs) → Above x (unique_after y xs)
  unfolding unique_after
  unique_after-Above x y [] h s = (h, tt)
  unique_after-Above x y (z ∷ zs) h s = elim (Bool-cases (o.same y z)) [
    | inl e ↦ rw e (unique_after-Above x y zs h (s.0.1, s.1.1))
    | inr e ↦ rw e (h, unique_after-Above x z zs (less_of_not-less x y z h s.0.0) s.1)
  ]

  less_of_not-same : (x y : A) → o.less y x ≡ false → o.same x y ≡ false → o.less x y ≡ true
  less_of_not-same x y h d = elim (Bool-cases (o.less x y)) [
    | inl e ↦ e
    | inr e ↦ ground (arith, (o.same_iff x y).1 (o.connex x y e h))
  ]

  unique_after-IsAscending :
      (x : A) (xs : List A) → IsSorted (x ∷ xs) → IsAscending (unique_after x xs)
  unfolding unique_after
  unique_after-IsAscending x [] s = (tt, tt)
  unique_after-IsAscending x (y ∷ ys) s = elim (Bool-cases (o.same x y)) [
    | inl e ↦ rw e (unique_after-IsAscending x ys (s.0.1, s.1.1))
    | inr e ↦ rw e (
      unique_after-Above x y ys (less_of_not-same x y s.0.0 e) s.1,
      unique_after-IsAscending y ys s.1,
    )
  ]

  unique-IsAscending : (xs : List A) → IsSorted xs → IsAscending (unique xs)
  unfolding unique
  unique-IsAscending [] s = tt
  unique-IsAscending (x ∷ xs) s = unique_after-IsAscending x xs s

  pub contains-insert_sorted :
      (v w : A) (xs : List A) → contains (insert_sorted v xs) w ≡ (o.same v w || contains xs w)
  unfolding contains insert_sorted
  contains-insert_sorted v w [] = refl
  contains-insert_sorted v w (x ∷ xs) = ground (arith, contains-insert_sorted v w xs)

  pub contains-sort : (w : A) (xs : List A) → contains (sort xs) w ≡ contains xs w
  unfolding contains sort
  contains-sort w [] = refl
  contains-sort w (x ∷ xs) =
      contains-insert_sorted x w (sort xs) ∙ ap (◌||◌ (o.same x w)) (contains-sort w xs)

  contains-unique_after :
      (x w : A) (xs : List A) → contains (unique_after x xs) w ≡ (o.same x w || contains xs w)
  unfolding contains unique_after
  contains-unique_after x w [] = refl
  contains-unique_after x w (y ∷ ys) =
      ground (arith, contains-unique_after x w ys, contains-unique_after y w ys, o.same_iff x y)

  contains-unique : (w : A) (xs : List A) → contains (unique xs) w ≡ contains xs w
  unfolding contains unique
  contains-unique w [] = refl
  contains-unique w (x ∷ xs) = contains-unique_after x w xs

  -- Whatever the order and the repetitions of the input, the result ascends strictly and has
  -- exactly the elements of the input.
  pub sort_and_deduplicate_lem :
      (xs : List A)
      → IsAscending (sort_and_deduplicate xs)
        × ((w : A) → contains (sort_and_deduplicate xs) w ≡ contains xs w)
  unfolding sort_and_deduplicate
  sort_and_deduplicate_lem xs = (
    unique-IsAscending (sort xs) (sort-IsSorted xs),
    λ w. contains-unique w (sort xs) ∙ contains-sort w xs,
  )

  pub Above-contains :
      (x w : A) (xs : List A) → Above x xs → contains xs w ≡ true → o.less x w ≡ true
  unfolding contains
  Above-contains x w [] h c = cc
  Above-contains x w (y ∷ ys) h c = elim (Bool-cases (o.same y w)) [
    | inl e ↦ subst (λ z. o.less x z ≡ true) ((o.same_iff y w).0 e) h.0
    | inr e ↦ Above-contains x w ys h.1 (ground arith)
  ]

  -- In an ascending range an element that is present is found at its offset.
  pub get_elem?-offset_in_sorted :
      (xs : List A) (w : A)
      → IsAscending xs
      → contains xs w ≡ true
      → get_elem? xs (offset_in_sorted xs w) ≡ some w
  unfolding contains offset_in_sorted lower_bound
  get_elem?-offset_in_sorted [] w s c = cc
  get_elem?-offset_in_sorted (x ∷ xs) w s c = elim (Bool-cases (o.same x w)) [
    | inl e ↦
        let here : x ≡ w = (o.same_iff x w).0 e in
        let stop : o.less x w ≡ false = subst (λ z. o.less x z ≡ false) here (o.irrefl x) in
        rw stop (ap some here)
    | inr e ↦
        let later : contains xs w ≡ true = ground arith in
        rw (Above-contains x w xs s.0 later) (get_elem?-offset_in_sorted xs w s.1 later)
  ]

  -- Every requested element is found at its offset in the deduplicated range.
  pub offset-sort_and_deduplicate :
      (xs : List A) (w : A)
      → contains xs w ≡ true
      → get_elem? (sort_and_deduplicate xs) (offset_in_sorted (sort_and_deduplicate xs) w) ≡ some w
  offset-sort_and_deduplicate xs w c =
      let (ascending, same) = sort_and_deduplicate_lem xs in
      get_elem?-offset_in_sorted (sort_and_deduplicate xs) w ascending (same w ∙ c)
