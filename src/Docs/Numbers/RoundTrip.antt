-- ===== src/Docs/Numbers/RoundTrip.antt =====
-- What `parse_entire_number` makes of the text of `print_number`, and of any other.
use mathlib.Core.Path.{ap₂}
use native.Mathlib.Nat.{pow-le-pow_right}
use ukv.Prelude.{
  ℕ, zero, suc, ◌+◌, ◌-◌, ◌*◌, ◌/◌, ◌%◌, ◌^◌, ◌≤◌, ◌<◌, ◌≡◌, refl, ◌∙◌, Bool, true, false, ◌&&◌,
  ◌||◌, inl, inr, none, some, [], ◌∷◌, ◌++◌, arith, length, length-append, ltb, leb, if◌then◌else◌,
  Bool-cases,
}
use ukv.Docs.{Bytes}
use ukv.Docs.Numbers.{
  digits_of, to_chars, print_number, is_digit, leading_number, from_chars, parse_entire_number,
  unsigned,
}

-- The number that a text of digits shows, read behind those before.
abbrev pub shown : Bytes → ℕ → ℕ
shown [] n = n
shown (b ∷ text) n = shown text (n * 10 + (b - 48))

abbrev pub all_digits : Bytes → Bool
all_digits [] = true
all_digits (b ∷ text) = is_digit b && all_digits text

leading_number-digits :
    (text : Bytes) (n : ℕ) → all_digits text ≡ true → leading_number text n ≡ (true, shown text n)
unfolding leading_number
leading_number-digits [] n h = refl
leading_number-digits (b ∷ text) n h =
    ground (arith, leading_number-digits text (n * 10 + (b - 48)))

leading_number-other : (text : Bytes) (n : ℕ) → (leading_number text n).0 ≡ all_digits text
unfolding leading_number
leading_number-other [] n = refl
leading_number-other (b ∷ text) n = ground (arith, leading_number-other text (n * 10 + (b - 48)))

all_digits-append : (xs ys : Bytes) → all_digits (xs ++ ys) ≡ (all_digits xs && all_digits ys)
all_digits-append [] ys = refl
all_digits-append (x ∷ xs) ys = ground (arith, all_digits-append xs ys)

shown-append : (xs ys : Bytes) (n : ℕ) → shown (xs ++ ys) n ≡ shown ys (shown xs n)
shown-append [] ys n = refl
shown-append (x ∷ xs) ys n = shown-append xs ys _

digits-digits_of : (fuel n : ℕ) → all_digits (digits_of fuel n) ≡ true
unfolding digits_of
digits-digits_of zero n = refl
digits-digits_of (suc fuel) n = ground (
  arith,
  digits-digits_of fuel (n / 10),
  all_digits-append (digits_of fuel (n / 10)) ((48 + n % 10) ∷ []),
)

shown-digits_of : (fuel n : ℕ) → n < 10 ^ fuel → shown (digits_of fuel n) 0 ≡ n
unfolding digits_of
shown-digits_of zero n h = omega arith
shown-digits_of (suc fuel) n h = elim (Bool-cases (ltb n 10)) [
  | inl e ↦ rw e (omega arith)
  | inr e ↦
      rw
        (
          e,
          shown-append (digits_of fuel (n / 10)) ((48 + n % 10) ∷ []) 0,
          shown-digits_of fuel (n / 10) (omega arith),
        )
        (omega arith)
]

length-digits_of : (fuel n : ℕ) → length (digits_of fuel n) ≤ fuel
unfolding digits_of
length-digits_of zero n = omega arith
length-digits_of (suc fuel) n = ground (
  arith,
  length-digits_of fuel (n / 10),
  length-append (digits_of fuel (n / 10)) ((48 + n % 10) ∷ []),
)

abbrev pub is_empty : Bytes → Bool
is_empty [] = true
is_empty (b ∷ text) = false

is_empty-append : (xs : Bytes) (b : ℕ) → is_empty (xs ++ (b ∷ [])) ≡ false
is_empty-append [] b = refl
is_empty-append (x ∷ xs) b = refl

is_empty-digits_of : (fuel n : ℕ) → is_empty (digits_of (suc fuel) n) ≡ false
unfolding digits_of
is_empty-digits_of fuel n = ground (arith, is_empty-append (digits_of fuel (n / 10)) (48 + n % 10))

-- The text of a number of 64 bits: digits, between one and twenty, that show the number.
pub to_chars_lem :
    (n : ℕ)
    → n < 2 ^ 64
    → (all_digits (to_chars n) ≡ true)
      × (shown (to_chars n) 0 ≡ n)
      × (is_empty (to_chars n) ≡ false)
      × (length (to_chars n) ≤ 20)
unfolding to_chars
to_chars_lem n h = (
  digits-digits_of 20 n,
  shown-digits_of 20 n (omega arith),
  is_empty-digits_of 19 n,
  length-digits_of 20 n,
)

pub print_number_lem :
    (capacity n : ℕ)
    → print_number capacity n
      ≡ (if leb capacity (length (to_chars n)) then none else some (to_chars n))
unfolding print_number
print_number_lem capacity n = refl

module _ (strto : ℕ → Bytes → ℕ × ℕ) where
  -- A text is taken for an unsigned number exactly if all of it are digits, also the empty text. The
  -- result is the number that the digits show, where there are any and it fits the bits, and is left
  -- as it was where the text is empty or the number does not fit.
  pub parse_entire_number_lem :
      (bits : ℕ) (text : Bytes) (result : ℕ)
      → ((parse_entire_number strto (unsigned bits) text result).0 ≡ all_digits text)
        × (all_digits text ≡ true
            → (parse_entire_number strto (unsigned bits) text result).1
              ≡ (if is_empty text || leb (2 ^ bits) (shown text 0) then result else shown text 0))
  unfolding parse_entire_number from_chars
  parse_entire_number_lem bits [] result = (refl, λ h. refl)
  parse_entire_number_lem bits (b ∷ text) result = (
    ground (arith, leading_number-other text (0 + (b - 48))),
    λ h. ground (arith, leading_number-digits text (0 + (b - 48))),
  )

  -- The text of a number of at most 64 bits fits the buffer of 32 characters, and is read back as the
  -- number, whatever the result was before.
  pub parse-print :
      (bits n result : ℕ)
      → bits ≤ 64
      → n < 2 ^ bits
      → (text : Bytes) × (print_number 32 n ≡ some text)
        × (parse_entire_number strto (unsigned bits) text result ≡ (true, n))
  parse-print bits n result small fits =
      let word : n < 2 ^ 64 = omega (arith, pow-le-pow_right {n = 2} (omega arith) small) in
      let (digits, same, filled, short) = to_chars_lem n word in
      let (accepted, value) = parse_entire_number_lem bits (to_chars n) result in
      let printed : print_number 32 n ≡ some (to_chars n) = ground (arith, print_number_lem 32 n) in
      (to_chars n, printed, ap₂ (λ b v. (b, v)) (accepted ∙ digits) (value digits ∙ ground arith))
