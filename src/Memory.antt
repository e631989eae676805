-- ===== src/Memory.antt =====
-- src/helpers/linked_memory.hpp: arenas, the chain of them behind an `ukv_arena_t`, and its lock.
-- A chain is the list that the `next` pointers form; the empty list is the null `first_ptr_`.
-- `std::malloc` and `mmap` are the parameter `system`, which gives the address of a block, or fails.
-- Sums of addresses and sizes wrap at 2^64. A result `none` of a chain operation is a null
-- dereference of the source.
pub mod Block
pub mod Chain
pub mod Growth
pub mod Locking
use ukv.Prelude.{
  ℕ, ◌+◌, ◌-◌, ◌*◌, ◌%◌, ◌^◌, max, Bool, true, false, not, ◌&&◌, Option, none, some, List, [], ◌∷◌,
  ◌++◌, ltb, leb, ◌==◌, if◌then◌else◌,
}
use ukv.Types.{next_multiple}

-- 1024ul * 1024ul, the factor, and `sizeof(arena_header_t)`.
abbrev pub initial_size : ℕ
initial_size = 1024 * 1024

abbrev pub growth_factor : ℕ
growth_factor = 2

abbrev pub header_size : ℕ
header_size = 32

pub data Kind : Type 0 where
  sys shared unified : Kind

unfoldable pub kind_eq : Kind → Kind → Bool
kind_eq sys sys = true
kind_eq shared shared = true
kind_eq unified unified = true
kind_eq _ _ = false

pub record Arena : Type 0 where
  pub start : ℕ
  pub capacity : ℕ
  pub used : ℕ
  pub kind : Kind
  pub can_release_memory : Bool

unfoldable pub alloc_internally : Arena → ℕ → ℕ → Arena × Option ℕ
alloc_internally a length alignment =
    let arena_end = (a.start + a.capacity) % 2 ^ 64 in
    let potential_start = next_multiple (a.start + a.used) alignment % 2 ^ 64 in
    let potential_end = (potential_start + length) % 2 ^ 64 in
    if ltb arena_end potential_end
    then (a, none)
    else (record a { used = (potential_end + 2 ^ 64 - a.start) % 2 ^ 64 }, some potential_start)

-- The loop of `alloc`: the first arena with room serves the request.
unfoldable pub alloc_in : List Arena → ℕ → ℕ → Option (List Arena × ℕ)
alloc_in [] length alignment = none
alloc_in (a ∷ rest) length alignment =
    let (a', result) = alloc_internally a length alignment in
    let later = alloc_in rest length alignment in
    elim result [
      | some p ↦ some (a' ∷ rest, p)
      | none ↦ elim later [ none ↦ none | some (rest', p) ↦ some (a ∷ rest', p) ]
    ]

unfoldable pub last_capacity : List Arena → ℕ
last_capacity [] = 0
last_capacity (a ∷ []) = a.capacity
last_capacity (a ∷ b ∷ rest) = last_capacity (b ∷ rest)

abbrev pub new_capacity : List Arena → ℕ → ℕ → ℕ
new_capacity chain length alignment =
    max (last_capacity chain * growth_factor % 2 ^ 64) ((length + alignment + header_size) % 2 ^ 64)

-- Whether `ptr` is where an arena's used part ends, with room for the extension.
unfoldable pub can_extend : Arena → ℕ → ℕ → Bool
can_extend a ptr additional_size =
    ptr == a.start + a.used && leb additional_size (a.capacity - a.used)

unfoldable pub cheap_extend : List Arena → ℕ → ℕ → ℕ → List Arena × Bool
unfolding can_extend
cheap_extend [] ptr additional_size alignment = ([], false)
cheap_extend (a ∷ rest) ptr additional_size alignment =
    let (rest', done) = cheap_extend rest ptr additional_size alignment in
    if can_extend a ptr additional_size
    then ((alloc_internally a additional_size alignment).0 ∷ rest, true)
    else (a ∷ rest', done)

unfoldable pub set_can_release : Bool → List Arena → List Arena
set_can_release flag [] = []
set_can_release flag (a ∷ rest) = record a { can_release_memory = flag } ∷ rest

-- The exchanged flag, `none` at a null `first_ptr_`.
unfoldable pub lock_release_calls : List Arena → Option (List Arena × Bool)
unfolding set_can_release
lock_release_calls [] = none
lock_release_calls (a ∷ rest) = some (set_can_release false (a ∷ rest), a.can_release_memory)

unfoldable pub unlock_release_calls : List Arena → Option (List Arena)
unfolding set_can_release
unlock_release_calls [] = none
unlock_release_calls (a ∷ rest) = some (set_can_release true (a ∷ rest))

-- What stays of the chain; the other arenas go back to the system.
unfoldable pub release_partially : List Arena → List Arena
release_partially [] = []
release_partially (a ∷ rest) = record a { used = header_size } ∷ []

unfoldable pub release_all : List Arena → List Arena
release_all chain = []

module _ (system : Kind → ℕ → Option ℕ) where
  unfoldable pub alloc_arena : ℕ → Kind → Option Arena
  alloc_arena length unified = none
  alloc_arena length kind = elim (system kind length) [
    | none ↦ none
    | some begin ↦ some (record {
      start = begin;
      capacity = length;
      used = header_size;
      kind = kind;
      can_release_memory = false;
    })
  ]

  unfoldable pub start_chain : Kind → Option (List Arena × Bool)
  start_chain kind = elim (alloc_arena initial_size kind) [
    | none ↦ none
    | some a ↦ some (record a { can_release_memory = true } ∷ [], true)
  ]

  -- A chain of another kind is overwritten by a fresh one.
  unfoldable pub start_if_null : List Arena → Kind → Option (List Arena × Bool)
  unfolding start_chain
  start_if_null [] kind = start_chain kind
  start_if_null (a ∷ rest) kind =
      if kind_eq a.kind kind then some (a ∷ rest, true) else start_chain kind

  -- The part of `alloc` behind its loop.
  unfoldable pub alloc_more : List Arena → ℕ → ℕ → Option (List Arena × Option ℕ)
  alloc_more [] length alignment = none
  alloc_more (a ∷ rest) length alignment =
      elim (alloc_arena (new_capacity (a ∷ rest) length alignment) a.kind) [
        | none ↦ some (a ∷ rest, none)
        | some fresh ↦
            let (fresh', result) = alloc_internally fresh length alignment in
            some ((a ∷ rest) ++ (fresh' ∷ []), result)
      ]

  unfoldable pub alloc : List Arena → ℕ → ℕ → Option (List Arena × Option ℕ)
  unfolding alloc_more
  alloc chain length alignment =
      if length == 0 then some (chain, none) else elim (alloc_in chain length alignment) [
        | some (chain', p) ↦ some (chain', some p)
        | none ↦ alloc_more chain length alignment
      ]

  -- The constructor of `linked_memory_lock_t`: the chain, and `owns_the_lock`.
  unfoldable pub lock : List Arena → Kind → Bool → Option (List Arena × Bool)
  lock chain kind keep_old_data = elim (start_if_null chain kind) [
    | none ↦ none
    | some (started, false) ↦ some (started, false)
    | some (started, true) ↦ elim (lock_release_calls started) [
      | none ↦ none
      | some (locked, owns) ↦
          some (if owns && not keep_old_data then release_partially locked else locked, owns)
    ]
  ]

-- The destructor of `linked_memory_lock_t`.
unfoldable pub unlock : List Arena → Bool → Option (List Arena)
unlock chain false = some chain
unlock chain true = unlock_release_calls chain
