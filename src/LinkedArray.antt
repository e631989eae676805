-- ===== src/LinkedArray.antt =====
-- src/helpers/linked_array.hpp: `uninitialized_array_gt`, a growing array in an arena. The arena is
-- the parameter `fresh`, which gives as many uninitialized slots as it is asked for, or fails; the
-- slots that an array has are copied in front of them. A result `none` is an error that leaves the
-- array as it was. Lengths and capacities are 32-bit words.
pub mod Contents
use ukv.Prelude.{
  ℕ, ◌+◌, ◌-◌, ◌%◌, ◌^◌, Bool, Option, none, some, List, [], ◌∷◌, ◌++◌, length, set, take, drop,
  ltb, leb, ◌==◌, if◌then◌else◌,
}
use ukv.Types.{next_power_of_two}
use ukv.Ranges.{memcpy, memmove}

pub record Array {ℓ} (A : Type ℓ) : Type ℓ where
  pub slots : List A
  pub size : ℕ
  pub cap : ℕ

module _ {ℓ} {A : Type ℓ} where
  abbrev pub contents : Array A → List A
  contents a = take a.size a.slots

  unfoldable pub reset : Array A → Array A
  reset a = record { slots = []; size = 0; cap = 0 }

  unfoldable pub clear : Array A → Array A
  clear a = record a { size = 0 }

  unfoldable pub erase : Array A → ℕ → ℕ → Option (Array A)
  erase a offset count =
      if ltb a.size (offset + count)
      then none
      else some (record a {
        slots = memmove a.slots offset (offset + count) (a.size - (offset + count));
        size = a.size - count;
      })

  -- The two copies of `insert`.
  unfoldable pub place : Array A → ℕ → List A → List A
  place a offset inserted =
      memcpy (memmove a.slots (offset + length inserted) offset (a.size - offset)) offset inserted

module _ {ℓ} {A : Type ℓ} (fresh : ℕ → Option (List A)) where
  -- `grow`, or `alloc` where there are no slots yet.
  unfoldable pub more_slots : Array A → ℕ → Option (Array A)
  more_slots a new_cap = elim (fresh (new_cap - a.cap)) [
    | none ↦ none
    | some added ↦ some (record a { slots = a.slots ++ added; cap = new_cap % 2 ^ 32 })
  ]

  unfoldable pub reserve : Array A → ℕ → Option (Array A)
  unfolding more_slots
  reserve a new_cap =
      if leb new_cap a.cap
      then some a
      else elim (next_power_of_two new_cap) [ none ↦ none | some rounded ↦ more_slots a rounded ]

  unfoldable pub resize : Array A → ℕ → Option (Array A)
  unfolding reserve
  resize a size = if size == a.size then some a else elim (reserve a size) [
    | none ↦ none
    | some a' ↦ some (record a' { size = size % 2 ^ 32 })
  ]

  unfoldable pub push_back : Array A → A → Option (Array A)
  unfolding reserve
  push_back a val = elim (reserve a ((a.size + 1) % 2 ^ 32)) [
    | none ↦ none
    | some a' ↦ some (record a' { slots = set a'.slots a.size val; size = (a.size + 1) % 2 ^ 32 })
  ]

  unfoldable pub insert : Array A → ℕ → List A → Option (Array A)
  unfolding more_slots place
  insert a offset inserted =
      let new_size = (a.size + length inserted) % 2 ^ 32 in
      if ltb a.size offset
      then none
      else if ltb a.cap new_size
      then elim (more_slots a new_size) [
        | none ↦ none
        | some a' ↦ some (record a' { slots = place a' offset inserted; size = new_size })
      ]
      else some (record a { slots = place a offset inserted; size = new_size })
