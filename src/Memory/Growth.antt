-- ===== src/Memory/Growth.antt =====
-- `cheap_extend`: a block that ends where an arena's used part ends grows in place.
use ukv.Prelude.{
  ℕ, ◌+◌, ◌-◌, ◌%◌, ◌^◌, ◌≤◌, ◌<◌, ◌≡◌, subst, inl, inr, true, false, List, [], ◌∷◌, arith, ltb,
  Bool-cases, le→ltb_false,
}
use ukv.Types.{next_multiple}
use ukv.Types.Rounding.{next_multiple_exact}
use ukv.Memory.{Arena, alloc_internally, can_extend, cheap_extend}
use ukv.Memory.Chain.{IsChain, Served, ServedIn, Served-at, Served-there}

extended_here :
    (a : Arena) (rest : List Arena) (ptr size alignment : ℕ)
    → IsChain (a ∷ rest)
    → 0 < alignment
    → ptr % alignment ≡ 0
    → can_extend a ptr size ≡ true
    → ServedIn (a ∷ rest) ((alloc_internally a size alignment).0 ∷ rest) ptr size alignment
unfolding can_extend alloc_internally
extended_here a rest ptr size alignment v h aligned e =
    let ends : ptr ≡ a.start + a.used = ground arith in
    let room : size ≤ a.capacity - a.used = ground arith in
    let exact : next_multiple (a.start + a.used) alignment ≡ ptr =
      subst (λ x. next_multiple x alignment ≡ ptr) ends
        (next_multiple_exact ptr alignment h aligned) in
    let start : next_multiple (a.start + a.used) alignment % 2 ^ 64 ≡ ptr =
      omega (arith, v.0, exact) in
    let end : (ptr + size) % 2 ^ 64 ≡ ptr + size = omega (arith, v.0) in
    let bound : (a.start + a.capacity) % 2 ^ 64 ≡ a.start + a.capacity = omega (arith, v.0) in
    let fits : ltb (a.start + a.capacity) (ptr + size) ≡ false =
      le→ltb_false _ _ (omega (arith, v.0)) in
    let used : (ptr + size + 2 ^ 64 - a.start) % 2 ^ 64 ≡ ptr + size - a.start =
      omega (arith, v.0) in
    rw (start, end, bound, fits, used)
      (Served-at a rest ptr size alignment v aligned (omega arith) (omega (arith, v.0)))

extend-Served :
    (chain : List Arena) (ptr size alignment : ℕ)
    → IsChain chain
    → 0 < alignment
    → ptr % alignment ≡ 0
    → (cheap_extend chain ptr size alignment).1 ≡ true
    → ServedIn chain (cheap_extend chain ptr size alignment).0 ptr size alignment
unfolding cheap_extend
extend-Served [] ptr size alignment v h aligned e = cc
extend-Served (a ∷ rest) ptr size alignment v h aligned e =
    elim (Bool-cases (can_extend a ptr size)) [
      | inl here ↦ rw here (extended_here a rest ptr size alignment v h aligned here)
      | inr there ↦
          let done : (cheap_extend rest ptr size alignment).1 ≡ true = rw there at e in
          rw there (
            Served-there a rest _ ptr size alignment v
              (extend-Served rest ptr size alignment v.2 h aligned done))
    ]

-- Over a well-formed chain, when `cheap_extend` succeeds at an aligned address, the extension is
-- exactly the block at that address: it was free, is taken now, and nothing else is given up.
pub cheap_extend-Served :
    (chain : List Arena) (ptr size alignment : ℕ)
    → IsChain chain
    → 0 < alignment
    → ptr % alignment ≡ 0
    → (cheap_extend chain ptr size alignment).1 ≡ true
    → Served chain (cheap_extend chain ptr size alignment).0 ptr size alignment
cheap_extend-Served chain ptr size alignment v h aligned e =
    (extend-Served chain ptr size alignment v h aligned e).0
