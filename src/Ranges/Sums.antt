-- ===== src/Ranges/Sums.antt =====
-- The prefix sums of an array and the sum of its elements, whose type is taken to hold the sums.
use ukv.Prelude.{
  ℕ, zero, suc, ◌≡◌, ◌+◌, ◌<◌, refl, ap, some, List, [], ◌∷◌, length, get_elem?, take, arith,
}
use ukv.Ranges.{prefix_sum_from, inplace_inclusive_prefix_sum, transform_reduce_n}

-- `reduce_n`
abbrev pub sum_of : List ℕ → ℕ → ℕ
sum_of xs init = transform_reduce_n xs init (λ x. x)

prefix_sum_from-total : (sum : ℕ) (xs : List ℕ) → (prefix_sum_from sum xs).1 ≡ sum_of xs sum
unfolding prefix_sum_from transform_reduce_n
prefix_sum_from-total sum [] = refl
prefix_sum_from-total sum (x ∷ xs) = prefix_sum_from-total (sum + x) xs

get_elem?-prefix_sum_from :
    (sum : ℕ) (xs : List ℕ) (i : ℕ)
    → i < length xs
    → get_elem? (prefix_sum_from sum xs).0 i ≡ some (sum_of (take (suc i) xs) sum)
unfolding prefix_sum_from transform_reduce_n
get_elem?-prefix_sum_from sum [] i h = absurd (omega arith)
get_elem?-prefix_sum_from sum (x ∷ xs) zero h = ap (λ n. some n) (omega arith)
get_elem?-prefix_sum_from sum (x ∷ xs) (suc i) h =
    get_elem?-prefix_sum_from (sum + x) xs i (omega arith)

-- Every element becomes the sum of the elements up to it, itself included, and the result is the
-- sum of all, as `reduce_n` computes them.
inplace_inclusive_prefix_sum_lem :
    (xs : List ℕ) (i : ℕ)
    → i < length xs
    → (get_elem? (inplace_inclusive_prefix_sum xs).0 i ≡ some (sum_of (take (suc i) xs) 0))
      × ((inplace_inclusive_prefix_sum xs).1 ≡ sum_of xs 0)
unfolding inplace_inclusive_prefix_sum
inplace_inclusive_prefix_sum_lem xs i h =
    (get_elem?-prefix_sum_from 0 xs i h, prefix_sum_from-total 0 xs)
