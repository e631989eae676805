-- ===== src/Types/Rounding.antt =====
-- What the roundings of sizes promise: `next_power_of_two`, `divide_round_up`, `next_multiple`.
use native.Mathlib.Nat.{pow-suc, mul-mod_left}
use ukv.Prelude.{
  ℕ, zero, suc, ◌+◌, ◌-◌, ◌*◌, ◌/◌, ◌%◌, ◌^◌, ◌≤◌, ◌<◌, ◌≡◌, refl, some, inl, inr, arith, ◌==◌, leb,
  ◌||◌, false, Bool-cases,
}
use ukv.Types.{bit_length, count_leading_zeros, next_power_of_two, divide_round_up, next_multiple}

bit_length_zero : (fuel : ℕ) → bit_length fuel 0 ≡ 0
unfolding bit_length
bit_length_zero zero = refl
bit_length_zero (suc fuel) = refl

bit_length_pos : (fuel x : ℕ) → 0 < x → bit_length (suc fuel) x ≡ suc (bit_length fuel (x / 2))
unfolding bit_length
bit_length_pos fuel x p = ground arith

-- The digits of a positive word bound it from both sides, if the fuel reaches its top digit.
bit_length_bounds :
    (fuel x : ℕ)
    → 0 < x
    → x < 2 ^ fuel
    → (x < 2 ^ bit_length fuel x) × (2 ^ bit_length fuel x ≤ 2 * x) × (bit_length fuel x ≤ fuel)
bit_length_bounds zero x p h = absurd (omega arith)
bit_length_bounds (suc fuel) x p h =
    rw (bit_length_pos fuel x p, pow-suc)
      (elim (Bool-cases (x / 2 == 0)) [
        | inl e ↦
            let half : x / 2 ≡ 0 = ground arith in
            let digits : bit_length fuel (x / 2) ≡ 0 = rw half (bit_length_zero fuel) in
            rw digits (omega arith, omega arith, omega arith)
        | inr e ↦
            let half : 0 < x / 2 = ground arith in
            let below : x / 2 < 2 ^ fuel = omega (arith, pow-suc 2 fuel) in
            let ih = bit_length_bounds fuel (x / 2) half below in
            (omega arith, omega arith, omega arith)
      ])

-- For a word x from 1 to 2 ^ 63 - 1 the routine is defined, and its result lies above x and at
-- most at 2 * x; so a power of two is doubled.
pub next_power_of_two_bounds :
    (x : ℕ) → 0 < x → x < 2 ^ 63 → (p : ℕ) × (next_power_of_two x ≡ some p) × (x < p) × (p ≤ 2 * x)
unfolding next_power_of_two count_leading_zeros
next_power_of_two_bounds x p h =
    let (lo, hi, few) = bit_length_bounds 64 x p (omega arith) in
    let shift : 64 - (64 - bit_length 64 x) ≡ bit_length 64 x = omega arith in
    let defined : (x == 0 || leb (2 ^ 63) x) ≡ false = ground arith in
    (2 ^ (64 - count_leading_zeros x), rw defined, rw shift lo, rw shift hi)

-- For a positive divisor the result is a multiple of it, not below the number, and less than the
-- divisor above it.
pub next_multiple_bounds :
    (x d : ℕ)
    → 0 < d
    → (x ≤ next_multiple x d) × (next_multiple x d < x + d) × (next_multiple x d % d ≡ 0)
unfolding next_multiple divide_round_up
next_multiple_bounds x d h = (grind arith, grind arith, mul-mod_left (divide_round_up x d) d)

-- What is a multiple already is not moved.
pub next_multiple_exact : (x d : ℕ) → 0 < d → x % d ≡ 0 → next_multiple x d ≡ x
unfolding next_multiple divide_round_up
next_multiple_exact x d h e = grind arith
