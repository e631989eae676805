-- ===== src/Examples/Helpers.antt =====
-- The theorems about memory, ranges, the bounded queue and the roundings, at small inputs.
use ukv.Prelude.{
  ℕ, ◌≡◌, ◌≢◌, refl, inr, true, false, Option, some, List, [], ◌∷◌, arith, ltb, none, ◌^◌,
  if◌then◌else◌,
}
use ukv.Types.{Neighborship, next_multiple, divide_round_up}
use ukv.Types.Order.{ship_order}
use ukv.Ranges.{lower_bound, sort_and_deduplicate, contains}
use ukv.Ranges.Sorted.{IsAscending, sort_and_deduplicate_lem}
use ukv.PriorityQueue.{Queue, contents, push}
use ukv.PriorityQueue.Ideal.{ideal, push_loses}
use ukv.Memory.{
  Kind, sys, Arena, header_size, alloc_internally, alloc_in, alloc, cheap_extend, can_extend, lock,
  last_capacity, unlock, start_if_null, kind_eq, lock_release_calls, set_can_release,
  release_partially,
}
use ukv.Memory.Chain.{IsChain, Served, GivesFresh, alloc-Served, alloc_total}
use ukv.Memory.Growth.{cheap_extend-Served}
use ukv.Memory.Locking.{lock_nested}

-- One arena, and a system with one more block, far behind it.
abbrev one_arena : Arena
one_arena = record {
  start = 4096;
  capacity = 128;
  used = 40;
  kind = sys;
  can_release_memory = true;
}

abbrev one_block : Kind → ℕ → Option ℕ
one_block kind size = if ltb size (2 ^ 62) then some 1000000 else none

one_arena-IsChain : IsChain (one_arena ∷ [])
one_arena-IsChain = (record { header = omega arith; fits = omega arith; low = omega arith }, tt, tt)

one_block-GivesFresh : GivesFresh one_block (one_arena ∷ [])
one_block-GivesFresh kind size begin e = (ground arith, (inr (ground arith), tt))

abbrev grown_chain : List Arena
grown_chain = record one_arena { used = 80 } ∷ []

alloc-Served_example : Served (one_arena ∷ []) grown_chain 4144 32 16
unfolding alloc alloc_in alloc_internally next_multiple divide_round_up
alloc-Served_example =
    alloc-Served one_block (one_arena ∷ []) 32 16 one_block-GivesFresh one_arena-IsChain
      (omega arith) (omega arith) refl

alloc_total_example :
    (chain' : List Arena) × (p : ℕ) × (alloc one_block (one_arena ∷ []) 500 8
      ≡ some (chain', some p))
unfolding last_capacity
alloc_total_example =
    alloc_total one_block one_arena [] 500 8 1000000 (omega arith) (omega arith) (omega arith)
      (λ e. cc) refl (omega arith)

abbrev extended_chain : List Arena
extended_chain = (cheap_extend (one_arena ∷ []) 4136 16 8).0

cheap_extend-Served_example : Served (one_arena ∷ []) extended_chain 4136 16 8
unfolding cheap_extend can_extend alloc_internally next_multiple divide_round_up
cheap_extend-Served_example =
    cheap_extend-Served (one_arena ∷ []) 4136 16 8 one_arena-IsChain (omega arith) refl refl

abbrev locked_chain : List Arena
locked_chain = record one_arena { used = header_size; can_release_memory = false } ∷ []

lock_nested_example :
    (lock one_block locked_chain sys true ≡ some (locked_chain, false))
    × (unlock locked_chain false ≡ some locked_chain)
unfolding lock start_if_null kind_eq lock_release_calls set_can_release release_partially
lock_nested_example = lock_nested one_block (one_arena ∷ []) sys false true refl

abbrev ship : ℕ → ℕ → Neighborship
ship n e = record { neighbor_id = n; edge_id = e }

abbrev ships : List Neighborship
ships = ship 4 1 ∷ ship 2 7 ∷ ship 4 1 ∷ []

sort_and_deduplicate_lem_example :
    IsAscending (sort_and_deduplicate ships)
    × ((w : Neighborship) → contains (sort_and_deduplicate ships) w ≡ contains ships w)
sort_and_deduplicate_lem_example = sort_and_deduplicate_lem ships

-- Elements of equal priority stand behind one another, the highest first.
abbrev queue : Queue ℕ
queue = record { slots = 9 ∷ 5 ∷ 4 ∷ 1 ∷ []; size = 4 }

push_loses_example : contents (push ltb queue 7).0 ≢ ideal ltb queue 7
unfolding lower_bound
push_loses_example = push_loses ltb (9 ∷ []) 5 4 1 [] 7 refl (omega arith)
