-- ===== src/Ranges.antt =====
-- include/ukv/cpp/ranges.hpp and src/helpers/algorithm.hpp: the algorithms over ranges, over lists.
-- A buffer is the list of its slots; `std::memmove` and `std::memcpy` overwrite slots in place.
-- `std::sort` is any sorting, written as insertion, and `std::lower_bound` is the partition point.
pub mod Buffers
pub mod Sorted
pub mod Inserted
pub mod Sums
use ukv.Prelude.{
  ℕ, zero, suc, ◌+◌, ◌-◌, ◌≡◌, Bool, true, false, ◌||◌, List, [], ◌∷◌, length, take, drop, leb,
  if◌then◌else◌,
}
use ukv.Types.Order.{StrictOrder}

module _ {ℓ κ} {A : Type ℓ} {B : Type κ} where
  -- The first position whose element does not precede the value: `std::lower_bound` of a range in
  -- which those that precede it come first, which the callers' ranges are.
  unfoldable pub lower_bound : (A → B → Bool) → List A → B → ℕ
  lower_bound precedes [] v = 0
  lower_bound precedes (x ∷ xs) v = if precedes x v then suc (lower_bound precedes xs v) else 0

module _ {ℓ} {A : Type ℓ} where
  -- `std::memcpy(buffer + offset, xs, length of xs)`
  unfoldable pub memcpy : List A → ℕ → List A → List A
  memcpy [] offset xs = []
  memcpy (b ∷ buffer) (suc offset) xs = b ∷ memcpy buffer offset xs
  memcpy (b ∷ buffer) zero [] = b ∷ buffer
  memcpy (b ∷ buffer) zero (x ∷ xs) = x ∷ memcpy buffer zero xs

  -- `std::memmove(buffer + to, buffer + from, count)`
  unfoldable pub memmove : List A → ℕ → ℕ → ℕ → List A
  memmove buffer to from count = memcpy buffer to (take count (drop from buffer))

  -- The buffer, whose first `old_length` slots are in use, and the new length.
  unfoldable pub trivial_insert : List A → ℕ → ℕ → List A → List A × ℕ
  trivial_insert buffer old_length offset inserted =
      let following_len = old_length - offset in
      (
        memcpy (memmove buffer (offset + length inserted) offset following_len) offset inserted,
        old_length + length inserted,
      )

  unfoldable pub trivial_erase : List A → ℕ → ℕ → ℕ → List A × ℕ
  trivial_erase buffer old_length removed_offset removed_length =
      let following_len = old_length - (removed_offset + removed_length) in
      (
        memmove buffer removed_offset (removed_offset + removed_length) following_len,
        old_length - removed_length,
      )

module _ {ℓ} {A : Type ℓ} ⦃o : StrictOrder A⦄ where
  unfoldable pub insert_sorted : A → List A → List A
  insert_sorted v [] = v ∷ []
  insert_sorted v (x ∷ xs) = if o.less v x then v ∷ x ∷ xs else x ∷ insert_sorted v xs

  -- `std::sort`
  unfoldable pub sort : List A → List A
  sort [] = []
  sort (x ∷ xs) = insert_sorted x (sort xs)

  -- The rest of `std::unique` behind a kept element.
  unfoldable pub unique_after : A → List A → List A
  unique_after x [] = x ∷ []
  unique_after x (y ∷ ys) =
      let skip = unique_after x ys in
      let keep = x ∷ unique_after y ys in if o.same x y then skip else keep

  -- `std::unique`
  unfoldable pub unique : List A → List A
  unique [] = []
  unique (x ∷ xs) = unique_after x xs

  -- The range up to the returned count.
  unfoldable pub sort_and_deduplicate : List A → List A
  sort_and_deduplicate elems = unique (sort elems)

  unfoldable pub offset_in_sorted : List A → A → ℕ
  offset_in_sorted elems wanted = lower_bound o.less elems wanted

  -- Whether the element is in the list.
  unfoldable pub contains : List A → A → Bool
  contains [] v = false
  contains (x ∷ xs) v = o.same x v || contains xs v

-- The array after the loop, whose every element has the sum of those before it added, and the sum.
unfoldable pub prefix_sum_from : ℕ → List ℕ → List ℕ × ℕ
prefix_sum_from sum [] = ([], sum)
prefix_sum_from sum (x ∷ xs) =
    let (rest, total) = prefix_sum_from (sum + x) xs in ((x + sum) ∷ rest, total)

unfoldable pub inplace_inclusive_prefix_sum : List ℕ → List ℕ × ℕ
unfolding prefix_sum_from
inplace_inclusive_prefix_sum = prefix_sum_from 0

-- The loop of `all_ascending` behind its first element.
unfoldable pub ascending_after : ℕ → List ℕ → Bool
ascending_after previous [] = true
ascending_after previous (x ∷ xs) =
    let rest = ascending_after x xs in if leb x previous then false else rest

unfoldable pub all_ascending : List ℕ → Bool
unfolding ascending_after
all_ascending [] = true
all_ascending (x ∷ xs) = ascending_after x xs

-- `transform_reduce_n` with a sum, and `reduce_n`, over the `n` elements that it reads
unfoldable pub transform_reduce_n {ℓ} : {A : Type ℓ} → List A → ℕ → (A → ℕ) → ℕ
transform_reduce_n [] init transform = init
transform_reduce_n (x ∷ xs) init transform = transform_reduce_n xs (init + transform x) transform
