-- ===== src/Docs/Updates/Distinct.antt =====
-- Keys without repetitions, and writes of a document for each of some keys.
use ukv.Prelude.{
  ℕ, zero, suc, ◌≡◌, refl, sym, ap, subst, ◌∙◌, false, some, List, [], ◌∷◌, arith, length,
  get_elem?, Bool-cases, inl, inr, if◌then◌else◌,
}
use ukv.Types.{CollectionKey, key_eq}
use ukv.Types.Order.{StrictOrder, key_order, key_same_iff}
use ukv.Ranges.{insert_sorted, sort, unique_after, unique, sort_and_deduplicate, contains}
use ukv.Ranges.Sorted.{IsAscending, Above-contains, contains-insert_sorted, contains-sort}
use ukv.Umem.Entries.{Value}
use ukv.Umem.Blobs.Writes.{last_put}
use ukv.Docs.{Bytes}
use ukv.Docs.Updates.{pairs_from}

module _ {A : Type 0} ⦃o : StrictOrder A⦄ where
  -- No element is repeated.
  abbrev pub IsDistinct : List A → Type 0
  IsDistinct [] = Unit {0}
  IsDistinct (x ∷ xs) = (contains xs x ≡ false) × IsDistinct xs

  not-same_sym : (x v : A) → o.same x v ≡ false → o.same v x ≡ false
  not-same_sym x v h = elim (Bool-cases (o.same v x)) [
    | inr e ↦ e
    | inl e ↦ let back = (o.same_iff x v).1 (sym ((o.same_iff v x).0 e)) in cc
  ]

  insert_sorted-IsDistinct :
      (v : A) (xs : List A)
      → contains xs v ≡ false
      → IsDistinct xs
      → IsDistinct (insert_sorted v xs)
  unfolding contains insert_sorted
  insert_sorted-IsDistinct v [] n d = (refl, tt)
  insert_sorted-IsDistinct v (x ∷ xs) n d = elim (Bool-cases (o.less v x)) [
    | inl e ↦ rw e (n, d)
    | inr e ↦
        let other = not-same_sym x v (ground arith) in
        let apart : contains (insert_sorted v xs) x ≡ false =
          contains-insert_sorted v x xs ∙ ground arith in
        rw e (apart, insert_sorted-IsDistinct v xs (ground arith) d.1)
  ]

  sort-IsDistinct : (xs : List A) → IsDistinct xs → IsDistinct (sort xs)
  unfolding sort
  sort-IsDistinct [] d = tt
  sort-IsDistinct (x ∷ xs) d =
      insert_sorted-IsDistinct x (sort xs) (contains-sort x xs ∙ d.0) (sort-IsDistinct xs d.1)

  length-insert_sorted : (v : A) (xs : List A) → length (insert_sorted v xs) ≡ suc (length xs)
  unfolding insert_sorted
  length-insert_sorted v [] = refl
  length-insert_sorted v (x ∷ xs) = ground (arith, length-insert_sorted v xs)

  length-sort : (xs : List A) → length (sort xs) ≡ length xs
  unfolding sort
  length-sort [] = refl
  length-sort (x ∷ xs) = length-insert_sorted x (sort xs) ∙ ap suc (length-sort xs)

  length-unique_after :
      (x : A) (xs : List A) → IsDistinct (x ∷ xs) → length (unique_after x xs) ≡ suc (length xs)
  unfolding unique_after contains
  length-unique_after x [] d = refl
  length-unique_after x (y ∷ ys) d =
      let other : o.same x y ≡ false = not-same_sym y x (ground arith) in
      rw other (ap suc (length-unique_after y ys d.1))

  length-unique : (xs : List A) → IsDistinct xs → length (unique xs) ≡ length xs
  unfolding unique
  length-unique [] d = refl
  length-unique (x ∷ xs) d = length-unique_after x xs d

  pub length-sort_and_deduplicate :
      (xs : List A) → IsDistinct xs → length (sort_and_deduplicate xs) ≡ length xs
  unfolding sort_and_deduplicate
  length-sort_and_deduplicate xs d = length-unique (sort xs) (sort-IsDistinct xs d) ∙ length-sort xs

  pub IsAscending-IsDistinct : (xs : List A) → IsAscending xs → IsDistinct xs
  unfolding contains
  IsAscending-IsDistinct [] a = tt
  IsAscending-IsDistinct (x ∷ xs) a =
      let absent : contains xs x ≡ false = elim (Bool-cases (contains xs x)) [
        | inr e ↦ e
        | inl e ↦ let less = Above-contains x x xs a.0 e in let never = o.irrefl x in cc
      ] in
      (absent, IsAscending-IsDistinct xs a.1)

-- Documents of other keys leave a key's value.
pub last_put-other :
    (k : CollectionKey) (before : Value) (keys : List CollectionKey) (docs : List Bytes)
    → contains keys k ≡ false
    → last_put k before (pairs_from keys docs) ≡ before
unfolding last_put pairs_from contains
last_put-other k before [] docs h = refl
last_put-other k before (q ∷ keys) [] h = refl
last_put-other k before (q ∷ keys) (doc ∷ docs) h =
    let other : key_eq q k ≡ false = ground arith in
    ap (λ b. last_put k (if b then some doc else before) (pairs_from keys docs)) other
    ∙ last_put-other k before keys docs (ground arith)

-- Distinct keys get the documents at their places.
pub last_put-pairs_from :
    (keys : List CollectionKey) (docs : List Bytes) (i : ℕ) (k : CollectionKey) (doc : Bytes)
    (before : Value)
    → IsDistinct keys
    → get_elem? keys i ≡ some k
    → get_elem? docs i ≡ some doc
    → last_put k before (pairs_from keys docs) ≡ some doc
unfolding last_put pairs_from
last_put-pairs_from [] docs i k doc before d p q = cc
last_put-pairs_from (x ∷ keys) [] i k doc before d p q = cc
last_put-pairs_from (x ∷ keys) (y ∷ docs) zero k doc before d p q =
    let same : x ≡ k = cc in
    let own : y ≡ doc = cc in
    let absent : contains keys k ≡ false = subst (λ z. contains keys z ≡ false) same d.0 in
    ap (λ b. last_put k (if b then some y else before) (pairs_from keys docs))
      ((key_same_iff x k).1 same)
    ∙ last_put-other k (some y) keys docs absent
    ∙ ap some own
last_put-pairs_from (x ∷ keys) (y ∷ docs) (suc i) k doc before d p q =
    last_put-pairs_from keys docs i k doc _ d.1 p q
