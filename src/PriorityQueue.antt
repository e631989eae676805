-- ===== src/PriorityQueue.antt =====
-- src/helpers/limited_priority_queue.hpp: `limited_priority_queue_gt`, the bounded queue of matches
-- that `ukv_vectors_search` fills. The slots are the memory between the two pointers that the
-- constructor takes; destroying an element changes nothing, as the elements are plain values.
pub mod Layout
pub mod Ideal
use ukv.Prelude.{
  ℕ, zero, suc, ◌+◌, ◌-◌, Bool, true, false, Option, none, some, List, length, get_elem?, set, take,
  ltb, ◌==◌, if◌then◌else◌,
}
use ukv.Ranges.{lower_bound}

pub record Queue {ℓ} (A : Type ℓ) : Type ℓ where
  pub slots : List A
  pub size : ℕ

module _ {ℓ} {A : Type ℓ} where
  unfoldable pub init : List A → ℕ → Queue A
  init slots populated = record { slots = slots; size = populated }

  unfoldable pub clear : Queue A → Queue A
  clear q = record q { size = 0 }

  abbrev pub capacity : Queue A → ℕ
  capacity q = length q.slots

  -- The elements between `begin()` and `end()`.
  abbrev pub contents : Queue A → List A
  contents q = take q.size q.slots

  -- `slots[to] = slots[from]`
  unfoldable pub copy_slot : List A → ℕ → ℕ → List A
  copy_slot slots from to = elim (get_elem? slots from) [ none ↦ slots | some v ↦ set slots to v ]

  -- The loop of `push`, which goes forward: `rounds` is the distance of `source + 1` from the end.
  unfoldable pub shift_slots : ℕ → ℕ → List A → List A
  unfolding copy_slot
  shift_slots zero source slots = slots
  shift_slots (suc rounds) source slots =
      shift_slots rounds (suc source) (copy_slot slots source (suc source))

module _ {ℓ} {A : Type ℓ} (less : A → A → Bool) where
  abbrev pub higher_priority : A → A → Bool
  higher_priority a b = less b a

  -- Where `push` puts an element: behind all that have a higher priority.
  abbrev pub position : Queue A → A → ℕ
  position q e = lower_bound higher_priority (contents q) e

  push_at : Queue A → A → ℕ → Queue A × Bool
  push_at q e i =
      if i == q.size
      then (if ltb q.size (capacity q)
          then (record { slots = set q.slots q.size e; size = q.size + 1 }, true)
          else (q, false))
      else (
        record {
          slots = set (shift_slots (q.size - (i + 1)) i q.slots) i e;
          size = q.size + (if ltb q.size (capacity q) then 1 else 0);
        },
        true,
      )

  unfoldable pub push : Queue A → A → Queue A × Bool
  unfolding push_at
  push q e = push_at q e (position q e)
