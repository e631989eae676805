-- ===== src/PriorityQueue/Ideal.antt =====
-- `push` against a bounded queue that inserts an element and drops what no longer fits.
use native.Mathlib.Numerals.{add-one}
use ukv.Prelude.{
  get_elem?, some, get_elem?-take, get_elem?-append_right, ℕ, zero, suc, ◌+◌, ◌≤◌, ◌<◌, ◌≡◌, ◌≢◌,
  refl, sym, ap, ◌∙◌, Bool, true, List, [], ◌∷◌, ◌++◌, arith, length, set, take, drop, replicate,
  length-append, take_of_length-le, take-append_length, drop-append_length, length-take, ◌==◌,
  Bool-cases, inl, inr, ltb, ltb→lt, ltb_false→le,
}
use ukv.PriorityQueue.{Queue, capacity, contents, position, push_at, push}
use ukv.PriorityQueue.Layout.{holding, push_middle}

module _ {ℓ} {A : Type ℓ} where
  -- The insertion behind all of a higher priority, cut to the capacity.
  abbrev pub ideal : (less : A → A → Bool) → Queue A → A → List A
  ideal less q e =
      let i = position less q e in
      take (capacity q) (take i (contents q) ++ (e ∷ drop i (contents q)))

  pub take-set-suc :
      (xs : List A) (n : ℕ) (v : A)
      → n < length xs
      → take (suc n) (set xs n v) ≡ take n xs ++ (v ∷ [])
  take-set-suc [] n v h = absurd (omega arith)
  take-set-suc (x ∷ xs) zero v h = refl
  take-set-suc (x ∷ xs) (suc n) v h = ap (◌∷◌ x) (take-set-suc xs n v (omega arith))

  drop_of_length-le : (n : ℕ) (xs : List A) → length xs ≤ n → drop n xs ≡ []
  drop_of_length-le zero [] h = refl
  drop_of_length-le zero (x ∷ xs) h = absurd (omega arith)
  drop_of_length-le (suc n) [] h = refl
  drop_of_length-le (suc n) (x ∷ xs) h = drop_of_length-le n xs (omega arith)

  ideal_at_end :
      (less : A → A → Bool) (q : Queue A) (e : A)
      → q.size ≤ capacity q
      → position less q e ≡ q.size
      → ideal less q e ≡ take (capacity q) (contents q ++ (e ∷ []))
  ideal_at_end less q e h p =
      let size = length-take q.size q.slots in
      rw
        (
          p,
          take_of_length-le q.size (contents q) (omega arith),
          drop_of_length-le q.size (contents q) (omega arith),
        )
        refl

  -- An element whose place is the end is appended if there is room and dropped if there is none,
  -- as the ideal queue does.
  push_at_end :
      (less : A → A → Bool) (q : Queue A) (e : A)
      → q.size ≤ capacity q
      → position less q e ≡ q.size
      → contents (push less q e).0 ≡ ideal less q e
  unfolding push push_at
  push_at_end less q e h p =
      let size = length-take q.size q.slots in
      let end : (q.size == q.size) ≡ true = ground arith in
      let longer = length-append (contents q) (e ∷ []) in
      rw (ideal_at_end less q e h p) (elim (Bool-cases (ltb q.size (capacity q))) [
        | inl room ↦
            let below = ltb→lt q.size (capacity q) room in
            rw (p, end, room)
              (ap (λ n. take n (set q.slots q.size e)) (add-one q.size)
                ∙ take-set-suc q.slots q.size e below
                ∙ sym (take_of_length-le (capacity q) (contents q ++ (e ∷ [])) (omega arith)))
        | inr full ↦
            let above = ltb_false→le q.size (capacity q) full in
            rw (p, end, full)
              (sym (take-append_length (capacity q) (contents q) (e ∷ []) (omega arith)))
      ])

  -- An element whose place is inside is not, in a full queue: the element two places behind is
  -- lost, and a second copy of the one before it is kept in its stead, where the two differ.
  pub push_loses :
      (less : A → A → Bool) (before : List A) (x y z : A) (over : List A) (e : A)
      → position less (holding less before x (y ∷ z ∷ over) [] e) e ≡ length before
      → x ≢ y
      → contents (push less (holding less before x (y ∷ z ∷ over) [] e) e).0
        ≢ ideal less (holding less before x (y ∷ z ∷ over) [] e) e
  push_loses less before x y z over e p d same =
      let n = length before + 2 in
      let slots = before ++ (x ∷ y ∷ z ∷ over ++ []) in
      let after = before ++ (e ∷ (replicate (suc (suc (length over))) x ++ [])) in
      let long : length slots ≡ n + 1 + length over =
        omega (arith, length-append before (x ∷ y ∷ z ∷ over ++ []), length-append over []) in
      let whole : take (length before + suc (suc (suc (length over)))) slots ≡ slots =
        take_of_length-le _ slots (omega arith) in
      let kept : get_elem? (contents (push less (holding less before x (y ∷ z ∷ over) [] e) e).0) n
          ≡ some x =
        rw (push_middle less before x (y ∷ z ∷ over) [] e p)
          (get_elem?-take n _ after (omega arith) ∙ get_elem?-append_right before _ n 2 refl) in
      let wanted : get_elem? (ideal less (holding less before x (y ∷ z ∷ over) [] e) e) n ≡ some y =
        rw
          (
            p,
            whole,
            take-append_length (length before) before (x ∷ y ∷ z ∷ over ++ []) refl,
            drop-append_length (length before) before (x ∷ y ∷ z ∷ over ++ []) refl,
          )
          (get_elem?-take n _ _ (omega arith) ∙ get_elem?-append_right before _ n 2 refl) in
      let equal : some x ≡ some y = sym kept ∙ ap (λ l. get_elem? l n) same ∙ wanted in d (cc equal)
