-- ===== src/Memory/Block.antt =====
-- One arena: what `alloc_internally` hands out, and when it can.
use ukv.Prelude.{ℕ, ◌+◌, ◌-◌, ◌%◌, ◌^◌, ◌≤◌, ◌<◌, ◌≡◌, false, none, some, arith, ltb, le→ltb_false}
use ukv.Types.{next_multiple}
use ukv.Types.Rounding.{next_multiple_bounds}
use ukv.Memory.{Arena, alloc_internally, header_size}

-- The header lies in the used part, and that in the arena, which lies in the lower half of the
-- addresses, as all memory of a process does.
pub record IsArena (a : Arena) : Type 0 where
  pub header : header_size ≤ a.used
  pub fits : a.used ≤ a.capacity
  pub low : a.start + a.capacity ≤ 2 ^ 63

-- A request with its padding and a header is smaller than the lower half of the addresses.
abbrev pub IsSmall : ℕ → ℕ → Type 0
IsSmall length alignment = length + alignment + header_size < 2 ^ 63

-- The address is in the arena's block, or in its used part.
abbrev pub Within : Arena → ℕ → Type 0
Within a x = (a.start ≤ x) × (x < a.start + a.capacity)

abbrev pub Taken : Arena → ℕ → Type 0
Taken a x = (a.start ≤ x) × (x < a.start + a.used)

-- A block that an arena hands out is aligned, starts behind the used part, ends in the arena, and
-- the used part then ends where the block does. Nothing else changes.
pub alloc_internally-some :
    (a : Arena) (length alignment : ℕ) {a' : Arena} {p : ℕ}
    → IsArena a
    → 0 < alignment
    → IsSmall length alignment
    → alloc_internally a length alignment ≡ (a', some p)
    → (p % alignment ≡ 0)
      × (a.start + a.used ≤ p)
      × (p + length ≤ a.start + a.capacity)
      × (a' ≡ record a { used = p + length - a.start })
unfolding alloc_internally
alloc_internally-some a length alignment v h small e =
    let bounds = next_multiple_bounds (a.start + a.used) alignment h in
    let start : next_multiple (a.start + a.used) alignment % 2 ^ 64
        ≡ next_multiple (a.start + a.used) alignment =
      omega (arith, v) in
    let end : (next_multiple (a.start + a.used) alignment + length) % 2 ^ 64
        ≡ next_multiple (a.start + a.used) alignment + length =
      omega (arith, v) in
    let bound : (a.start + a.capacity) % 2 ^ 64 ≡ a.start + a.capacity = omega (arith, v) in
    ground (arith, v.low, v.fits, bounds, start, end, bound)

pub alloc_internally-none :
    (a : Arena) (length alignment : ℕ) {a' : Arena}
    → alloc_internally a length alignment ≡ (a', none)
    → a' ≡ a
unfolding alloc_internally
alloc_internally-none a length alignment e = ground arith

-- A request is served whenever the free part has room for it and for any padding.
pub alloc_internally-fits :
    (a : Arena) (length alignment : ℕ)
    → 0 < alignment
    → IsArena a
    → a.used + alignment + length ≤ a.capacity + 1
    → (a' : Arena) × (p : ℕ) × (alloc_internally a length alignment ≡ (a', some p))
unfolding alloc_internally
alloc_internally-fits a length alignment h v room =
    let p = next_multiple (a.start + a.used) alignment % 2 ^ 64 in
    let bounds = next_multiple_bounds (a.start + a.used) alignment h in
    let fits : ltb ((a.start + a.capacity) % 2 ^ 64) ((p + length) % 2 ^ 64) ≡ false =
      le→ltb_false _ _ (omega (arith, v)) in
    let a' = record a { used = ((p + length) % 2 ^ 64 + 2 ^ 64 - a.start) % 2 ^ 64 } in
    (a', p, rw fits (λ i. (a', some p)))
