-- ===== src/Paths/Bucket/Removal.antt =====
-- `remove_part` and `remove_from_bucket`, which move bytes in the memory that the bucket lies in.
pub mod Parts
use ukv.Prelude.{
  ℕ, ◌+◌, ◌-◌, ◌*◌, ◌%◌, ◌^◌, Bool, Option, none, some, List, [], ◌∷◌, ◌++◌, length, take, drop,
  ◌==◌, if◌then◌else◌,
}
use ukv.Ranges.{memcpy, memmove}
use ukv.Umem.Entries.{Value}
use ukv.Paths.Bucket.{
  Bytes, counter_size, word_bytes, words, sum, first_word, get_bucket_size, keys_lengths,
  vals_lengths, keys_offset, vals_offset, Member, find_in_bucket,
}

-- A `value_view_t` that is present, as a range of the memory.
pub record View : Type 0 where
  pub begin : ℕ
  pub size : ℕ

abbrev pub content : Bytes → View → Bytes
content memory view = take view.size (drop view.begin memory)

unfoldable pub remove_part : Bytes × View → View → Bytes × View
remove_part (memory, full) part = (
  memmove memory part.begin (part.begin + part.size) (full.size - part.size),
  record full { size = full.size - part.size },
)

-- `lengths[0] -= 1u`
unfoldable pub decrement_size : Bytes × View → Bytes × View
decrement_size (memory, view) = (
  memcpy memory view.begin
      (word_bytes ((first_word (words 1 (content memory view)) + (2 ^ 32 - 1)) % 2 ^ 32)),
  view,
)

-- Where the key and the value of a member lie, and their lengths.
unfoldable pub val_view : Bytes → View → ℕ → Member → View
val_view memory view i m =
    let v = some (content memory view) in
    let n = get_bucket_size v in
    record {
      begin = view.begin + vals_offset v n + sum (take i (vals_lengths v n));
      size = length (m.1);
    }

unfoldable pub key_view : Bytes → View → ℕ → Member → View
key_view memory view i m =
    let v = some (content memory view) in
    let n = get_bucket_size v in
    record {
      begin = view.begin + keys_offset n + sum (take i (keys_lengths v n));
      size = length (m.0);
    }

unfoldable pub counter_view : View → ℕ → View
counter_view view i = record { begin = view.begin + counter_size * (i + 1); size = counter_size }

-- The part behind the early returns, for the member at an index of so many.
unfoldable pub remove_member : Bytes → View → ℕ → ℕ → Member → Bytes × View
unfolding val_view key_view counter_view remove_part decrement_size
remove_member memory view n i m =
    let without_val = remove_part (memory, view) (val_view memory view i m) in
    let without_key = remove_part without_val (key_view memory view i m) in
    let without_val_counter = remove_part without_key (counter_view view (n + i)) in
    let without_key_counter = remove_part without_val_counter (counter_view view i) in
    decrement_size without_key_counter

-- `remove_from_bucket`: the memory, and the bucket, which `none` is the missing value of.
unfoldable pub remove_from_bucket : Bytes → View → Bytes → Bytes × Option View
unfolding remove_member
remove_from_bucket memory view key =
    let v = some (content memory view) in
    elim (find_in_bucket v key) [
      | none ↦ (memory, some view)
      | some (i, m) ↦
          if get_bucket_size v == 1
          then (memory, none)
          else let (memory', view') = remove_member memory view (get_bucket_size v) i m in
            (memory', some view')
    ]
