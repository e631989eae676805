-- ===== src/Ranges/Inserted.antt =====
-- An insertion at the lower bound of an element, over any strict order.
use ukv.Prelude.{
  ℕ, zero, suc, ◌≡◌, refl, sym, ap, subst, Bool, true, false, ◌||◌, none, some, List, [], ◌∷◌, ◌++◌,
  arith, length, take, drop, get_elem?, Bool-cases, inl, inr,
}
use ukv.Types.Order.{StrictOrder}
use ukv.Ranges.{lower_bound, contains}
use ukv.Ranges.Sorted.{Above, IsAscending, Above-contains}

module _ {ℓ} {A : Type ℓ} where
  unfoldable pub insert_at : List A → ℕ → A → List A
  insert_at xs idx v = take idx xs ++ (v ∷ drop idx xs)

pub or_false : (b : Bool) → b ≡ (b || false)
or_false true = refl
or_false false = refl

module _ {A : Type 0} ⦃o : StrictOrder A⦄ where
  -- Whether the element at a position is the wanted one.
  unfoldable pub is_at : List A → ℕ → A → Bool
  is_at xs idx v = elim (get_elem? xs idx) [ none ↦ false | some x ↦ o.same x v ]

  not-same_of_less : (x v : A) → o.less x v ≡ true → o.same x v ≡ false
  not-same_of_less x v h = elim (Bool-cases (o.same x v)) [
    | inr e ↦ e
    | inl e ↦
        let loop : o.less x x ≡ true =
          subst (λ y. o.less x y ≡ true) (sym ((o.same_iff x v).0 e)) h in
        ground (arith, o.irrefl x)
  ]

  not-contains_of_not-less :
      (x v : A) (xs : List A) → Above x xs → o.less x v ≡ false → contains xs v ≡ false
  not-contains_of_not-less x v xs a h = elim (Bool-cases (contains xs v)) [
    | inr e ↦ e
    | inl e ↦ ground (arith, Above-contains x v xs a e)
  ]

  pub is_at-contains :
      (xs : List A) (v : A) → IsAscending xs → is_at xs (lower_bound o.less xs v) v ≡ contains xs v
  unfolding is_at contains lower_bound
  is_at-contains [] v s = refl
  is_at-contains (x ∷ xs) v s = elim (Bool-cases (o.less x v)) [
    | inl e ↦ rw (e, not-same_of_less x v e) (is_at-contains xs v s.1)
    | inr e ↦ rw (e, not-contains_of_not-less x v xs s.0 e) (or_false (o.same x v))
  ]

  pub contains-insert_at :
      (xs : List A) (idx : ℕ) (v w : A)
      → contains (insert_at xs idx v) w ≡ (o.same v w || contains xs w)
  unfolding insert_at contains
  contains-insert_at xs zero v w = refl
  contains-insert_at [] (suc idx) v w = refl
  contains-insert_at (x ∷ xs) (suc idx) v w = ground (arith, contains-insert_at xs idx v w)

  Above-insert_at :
      (x v : A) (xs : List A) (idx : ℕ)
      → o.less x v ≡ true
      → Above x xs
      → Above x (insert_at xs idx v)
  unfolding insert_at
  Above-insert_at x v xs zero h a = (h, a)
  Above-insert_at x v [] (suc idx) h a = (h, tt)
  Above-insert_at x v (y ∷ ys) (suc idx) h a = (a.0, Above-insert_at x v ys idx h a.1)

  Above-trans : (v x : A) (xs : List A) → o.less v x ≡ true → Above x xs → Above v xs
  Above-trans v x [] h a = tt
  Above-trans v x (y ∷ ys) h a = (o.trans v x y h a.0, Above-trans v x ys h a.1)

  less_of_rest : (x v : A) → o.less x v ≡ false → o.same x v ≡ false → o.less v x ≡ true
  less_of_rest x v h k = elim (Bool-cases (o.less v x)) [
    | inl e ↦ e
    | inr e ↦ ground (arith, (o.same_iff x v).1 (o.connex x v h e))
  ]

  pub insert_at-IsAscending :
      (xs : List A) (v : A)
      → IsAscending xs
      → contains xs v ≡ false
      → IsAscending (insert_at xs (lower_bound o.less xs v) v)
  unfolding insert_at lower_bound contains
  insert_at-IsAscending [] v s n = (tt, tt)
  insert_at-IsAscending (x ∷ xs) v s n = elim (Bool-cases (o.less x v)) [
    | inl e ↦ rw e (Above-insert_at x v xs _ e s.0, insert_at-IsAscending xs v s.1 (ground arith))
    | inr e ↦
        let before = less_of_rest x v e (ground arith) in
        rw e ((before, Above-trans v x xs before s.0), s)
  ]

  pub length-insert_at :
      (xs : List A) (idx : ℕ) (v : A) → length (insert_at xs idx v) ≡ suc (length xs)
  unfolding insert_at
  length-insert_at xs zero v = refl
  length-insert_at [] (suc idx) v = refl
  length-insert_at (x ∷ xs) (suc idx) v = ap suc (length-insert_at xs idx v)
