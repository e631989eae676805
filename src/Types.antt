-- ===== src/Types.antt =====
-- include/ukv/cpp/types.hpp: the identifiers of entries, their orders, roles and roundings.
-- A signed 64-bit key k stands as the number k + 2 ^ 63: the order is the source's, INT64_MIN is 0.
pub mod Order
pub mod Rounding
use ukv.Prelude.{
  ℕ, zero, suc, ◌+◌, ◌-◌, ◌*◌, ◌/◌, ◌^◌, Bool, Option, none, some, ◌&&◌, ◌||◌, ltb, leb, ◌==◌,
  if◌then◌else◌,
}

-- The main collection, and the largest key, which marks an unknown one.
abbrev pub collection_main : ℕ
collection_main = 0

abbrev pub key_min : ℕ
key_min = 0

abbrev pub key_max : ℕ
key_max = 2 ^ 64 - 1

abbrev pub key_unknown : ℕ
key_unknown = key_max

-- `ukv_length_missing_k`, the largest 32-bit length.
abbrev pub length_missing : ℕ
length_missing = 2 ^ 32 - 1

pub record CollectionKey : Type 0 where
  pub collection : ℕ
  pub key : ℕ

unfoldable pub key_eq : CollectionKey → CollectionKey → Bool
key_eq a b = a.collection == b.collection && a.key == b.key

unfoldable pub key_lt : CollectionKey → CollectionKey → Bool
key_lt a b = ltb a.collection b.collection || (a.collection == b.collection && ltb a.key b.key)

-- One neighbour of a vertex, with the edge that leads to it.
pub record Neighborship : Type 0 where
  pub neighbor_id : ℕ
  pub edge_id : ℕ

unfoldable pub ship_eq : Neighborship → Neighborship → Bool
ship_eq a b = a.neighbor_id == b.neighbor_id && a.edge_id == b.edge_id

unfoldable pub ship_lt : Neighborship → Neighborship → Bool
ship_lt a b =
    ltb a.neighbor_id b.neighbor_id || (a.neighbor_id == b.neighbor_id && ltb a.edge_id b.edge_id)

pub data VertexRole : Type 0 where
  unknown source target any : VertexRole

unfoldable pub invert : VertexRole → VertexRole
invert source = target
invert target = source
invert any = unknown
invert unknown = any

-- The number of binary digits of a word below 2 ^ fuel.
unfoldable pub bit_length : ℕ → ℕ → ℕ
bit_length zero x = 0
bit_length (suc fuel) x = let rest = suc (bit_length fuel (x / 2)) in if x == 0 then 0 else rest

-- `__builtin_clzll`
unfoldable pub count_leading_zeros : ℕ → ℕ
count_leading_zeros x = 64 - bit_length 64 x

-- `none` where the source's behaviour is undefined: the builtin at zero, and a shift by 64.
unfoldable pub next_power_of_two : ℕ → Option ℕ
next_power_of_two x =
    if x == 0 || leb (2 ^ 63) x then none else some (2 ^ (64 - count_leading_zeros x))

unfoldable pub divide_round_up : ℕ → ℕ → ℕ
divide_round_up x divisor = (x + (divisor - 1)) / divisor

unfoldable pub next_multiple : ℕ → ℕ → ℕ
unfolding divide_round_up
next_multiple x divisor = divide_round_up x divisor * divisor
