-- ===== src/Paths/Bucket.antt =====
-- A bucket: a counter, the lengths of the keys and of the values, the keys, and the values. All
-- counters are 32-bit words, of four bytes each, the lowest byte first.
pub mod Layout
pub mod Upsert
pub mod Written
pub mod Removal
use ukv.Prelude.{
  ℕ, zero, suc, ◌+◌, ◌-◌, ◌*◌, ◌/◌, ◌%◌, ◌^◌, Bool, true, false, not, ◌&&◌, ◌||◌, Option, none,
  some, List, [], ◌∷◌, ◌++◌, length, take, drop, map, ltb, leb, ◌==◌, if◌then◌else◌,
}
use ukv.Arguments.{viewed}
use ukv.Ranges.{memcpy, memmove, transform_reduce_n}
use ukv.Umem.Entries.{Value}
use ukv.Umem.Collections.{Name, name_eq}

abbrev pub Bytes : Type 0
Bytes = List ℕ

-- `counter_size_k` and `bytes_in_header_k`
abbrev pub counter_size : ℕ
counter_size = 4

abbrev pub bytes_in_header : ℕ
bytes_in_header = 4

abbrev pub word_bytes : ℕ → Bytes
word_bytes n = n % 256 ∷ n / 256 % 256 ∷ n / 65536 % 256 ∷ n / 16777216 % 256 ∷ []

abbrev pub join_bytes : List Bytes → Bytes
join_bytes [] = []
join_bytes (b ∷ bs) = b ++ join_bytes bs

-- As many words as are asked for, from the front.
unfoldable pub words : ℕ → Bytes → List ℕ
words zero bytes = []
words (suc n) (a ∷ b ∷ c ∷ d ∷ bytes) = (a + 256 * b + 65536 * c + 16777216 * d) ∷ words n bytes
words (suc n) _ = 0 ∷ words n []

-- The chunks that `consecutive_chunks_iterator_gt` goes through.
unfoldable pub chunks : List ℕ → Bytes → List Bytes
chunks [] bytes = []
chunks (n ∷ ns) bytes = take n bytes ∷ chunks ns (drop n bytes)

abbrev pub sum : List ℕ → ℕ
sum [] = 0
sum (n ∷ ns) = n + sum ns

abbrev pub bytes_of : Value → Bytes
bytes_of none = []
bytes_of (some bytes) = bytes

abbrev pub first_word : List ℕ → ℕ
first_word [] = 0
first_word (n ∷ ns) = n

unfoldable pub get_bucket_size : Value → ℕ
get_bucket_size bucket =
    if ltb bytes_in_header (length (bytes_of bucket))
    then first_word (words 1 (bytes_of bucket))
    else 0

unfoldable pub get_bucket_counters : Value → ℕ → List ℕ
get_bucket_counters bucket size = words (size * 2 + 1) (bytes_of bucket)

unfoldable pub keys_lengths : Value → ℕ → List ℕ
keys_lengths bucket size = words size (drop bytes_in_header (bytes_of bucket))

unfoldable pub vals_lengths : Value → ℕ → List ℕ
vals_lengths bucket size =
    words size (drop (bytes_in_header + size * counter_size) (bytes_of bucket))

-- Where the keys and the values begin.
unfoldable pub keys_offset : ℕ → ℕ
keys_offset size = bytes_in_header + size * 2 * counter_size

unfoldable pub vals_offset : Value → ℕ → ℕ
unfolding keys_offset keys_lengths
vals_offset bucket size = keys_offset size + sum (keys_lengths bucket size)

unfoldable pub get_bucket_keys : Value → ℕ → List Bytes
unfolding keys_lengths keys_offset
get_bucket_keys bucket size =
    chunks (keys_lengths bucket size) (drop (keys_offset size) (bytes_of bucket))

unfoldable pub get_bucket_vals : Value → ℕ → List Bytes
unfolding vals_lengths vals_offset
get_bucket_vals bucket size =
    chunks (vals_lengths bucket size) (drop (vals_offset bucket size) (bytes_of bucket))

-- `bucket_member_t`; its index is its place in the list.
abbrev pub Member : Type 0
Member = Bytes × Bytes

abbrev pub pair_up : List Bytes → List Bytes → List Member
pair_up [] vals = []
pair_up (k ∷ keys) [] = []
pair_up (k ∷ keys) (v ∷ vals) = (k, v) ∷ pair_up keys vals

-- The members that the callback of `for_each_in_bucket` is given, in order.
unfoldable pub for_each_in_bucket : Value → List Member
for_each_in_bucket bucket =
    let size = get_bucket_size bucket in
    if size == 0 then [] else pair_up (get_bucket_keys bucket size) (get_bucket_vals bucket size)

-- The last member with the key, with its index, of members that start at an index.
unfoldable pub find_last : ℕ → Bytes → List Member → Option (ℕ × Member)
find_last i key [] = none
find_last i key ((k, v) ∷ members) = elim (find_last (i + 1) key members) [
  | some found ↦ some found
  | none ↦ if name_eq k key then some (i, (k, v)) else none
]

unfoldable pub find_in_bucket : Value → Bytes → Option (ℕ × Member)
unfolding find_last
find_in_bucket bucket key = find_last 0 key (for_each_in_bucket bucket)

-- The `value` of what is found; it is missing if nothing is.
unfoldable pub value_in_bucket : Value → Bytes → Value
value_in_bucket bucket key = elim (find_in_bucket bucket key) [
  | none ↦ none
  | some (i, (k, v)) ↦ some v
]

unfoldable pub starts_with : Bytes → Bytes → Bool
starts_with str prefix =
    leb (length prefix) (length str) && name_eq (take (length prefix) str) prefix

-- What the loop of `upsert_in_bucket` copies: all members but the one at the index.
unfoldable pub without_index : Option ℕ → ℕ → List Member → List Member
without_index old i [] = []
without_index none i (m ∷ members) = m ∷ without_index none (i + 1) members
without_index (some old) i (m ∷ members) =
    let rest = without_index (some old) (i + 1) members in if i == old then rest else m ∷ rest

-- The buffer after the loop: every part of a bucket is written behind the part before it.
unfoldable pub layout : ℕ → List Member → Bytes
layout size members =
    word_bytes size
    ++ (join_bytes (map (λ (m : Member). word_bytes (length (m.0))) members)
        ++ (join_bytes (map (λ (m : Member). word_bytes (length (m.1))) members)
            ++ (join_bytes (map (λ (m : Member). m.0) members)
                ++ join_bytes (map (λ (m : Member). m.1) members))))

unfoldable pub size_of : Option (ℕ × Member) → (Member → Bytes) → ℕ
size_of none part = 0
size_of (some (i, m)) part = length (part m)

abbrev pub index_of : Option (ℕ × Member) → Option ℕ
index_of none = none
index_of (some (i, m)) = some i

-- The number of members afterwards, in 32 bits, and the number of bytes that are asked of the arena.
unfoldable pub new_size : Value → Bytes → ℕ
new_size bucket key = elim (find_in_bucket bucket key) [
  | none ↦ (get_bucket_size bucket + 1) % 2 ^ 32
  | some found ↦ get_bucket_size bucket
]

unfoldable pub new_bytes : Value → Bytes → Bytes → ℕ
unfolding new_size size_of
new_bytes bucket key val =
    let size = get_bucket_size bucket in
    let found = find_in_bucket bucket key in
    bytes_in_header
    + new_size bucket key * 2 % 2 ^ 32 * counter_size
    + (sum (keys_lengths bucket size) - size_of found (λ m. m.0) + length key)
    + (sum (vals_lengths bucket size) - size_of found (λ m. m.1) + length val)

-- What `upsert_in_bucket` writes to the new buffer, of `new_bytes` bytes.
unfoldable pub new_buffer : Value → Bytes → Bytes → Bytes
unfolding new_size new_bytes layout without_index
new_buffer bucket key val = take (new_bytes bucket key val) (
    layout (new_size bucket key) (
      without_index (index_of (find_in_bucket bucket key)) 0 (for_each_in_bucket bucket)
      ++ ((key, val) ∷ [])))

-- `upsert_in_bucket`: the view of the new buffer, whose length has 32 bits.
unfoldable pub upsert_in_bucket : Value → Bytes → Bytes → Value
unfolding new_buffer viewed
upsert_in_bucket bucket key val =
    viewed (new_bytes bucket key val % 2 ^ 32) (new_buffer bucket key val)
