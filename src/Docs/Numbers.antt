-- ===== src/Docs/Numbers.antt =====
-- src/modality_docs.cpp: `print_number` and `parse_entire_number` for booleans and integers, with
-- `std::to_chars` and `std::from_chars` of the language's library.
pub mod RoundTrip
use ukv.Prelude.{
  ℕ, zero, suc, ◌+◌, ◌-◌, ◌*◌, ◌/◌, ◌%◌, ◌^◌, Bool, true, false, not, ◌&&◌, ◌||◌, Option, none,
  some, List, [], ◌∷◌, ◌++◌, length, ltb, leb, ◌==◌, if◌then◌else◌,
}
use ukv.Docs.{Bytes}

-- The decimal digits of a number below 10 ^ fuel.
unfoldable pub digits_of : ℕ → ℕ → Bytes
digits_of zero n = []
digits_of (suc fuel) n =
    let rest = digits_of fuel (n / 10) in
    if ltb n 10 then (48 + n) ∷ [] else rest ++ ((48 + n % 10) ∷ [])

-- The digits of an unsigned number of 64 bits, of which there are at most twenty.
unfoldable pub to_chars : ℕ → Bytes
unfolding digits_of
to_chars n = digits_of 20 n

-- The text in a buffer of so many characters, which has to have room for the terminator too; `none`
-- is the empty string of a failure.
unfoldable pub print_number : ℕ → ℕ → Option Bytes
unfolding to_chars
print_number capacity n = if leb capacity (length (to_chars n)) then none else some (to_chars n)

abbrev pub is_digit : ℕ → Bool
is_digit b = leb 48 b && leb b 57

-- Whether only digits are left of a text, and the number of its leading ones behind those before.
unfoldable pub leading_number : Bytes → ℕ → Bool × ℕ
leading_number [] n = (true, n)
leading_number (b ∷ text) n =
    let rest = leading_number text (n * 10 + (b - 48)) in if is_digit b then rest else (false, n)

abbrev pub starts_with_digit : Bytes → Bool
starts_with_digit [] = false
starts_with_digit (b ∷ text) = is_digit b

-- The texts of `true_k` and `false_k`.
abbrev pub true_text : Bytes
true_text = 116 ∷ 114 ∷ 117 ∷ 101 ∷ []

abbrev pub false_text : Bytes
false_text = 102 ∷ 97 ∷ 108 ∷ 115 ∷ 101 ∷ []

unfoldable pub bytes_equal : Bytes → Bytes → Bool
bytes_equal [] [] = true
bytes_equal [] (y ∷ ys) = false
bytes_equal (x ∷ xs) [] = false
bytes_equal (x ∷ xs) (y ∷ ys) = x == y && bytes_equal xs ys

-- The template's argument: `bool`, integers of some bits, and the floating-point numbers of a width.
pub data ScalarType : Type 0 where
  bool_scalar : ScalarType
  unsigned signed floating : ℕ → ScalarType

-- `std::from_chars` of an unsigned integer: whether it stops at the end of the text, and the number,
-- which stays what it is where there is no digit or the number does not fit.
unfoldable pub from_chars : ℕ → Bytes → ℕ → Bool × ℕ
unfolding leading_number
from_chars bits [] result = (true, result)
from_chars bits (b ∷ text) result =
    let (whole, n) = leading_number (b ∷ text) 0 in
    if is_digit b then (whole, if ltb n (2 ^ bits) then n else result) else (false, result)

-- The same of a signed integer, a two's complement, that may have a minus in front.
unfoldable pub from_chars_signed : ℕ → Bytes → ℕ → Bool × ℕ
unfolding leading_number
from_chars_signed bits [] result = (true, result)
from_chars_signed bits (b ∷ text) result =
    let negative = b == 45 in
    let digits = if negative then text else b ∷ text in
    let (whole, n) = leading_number digits 0 in
    let fits = if negative then leb n (2 ^ (bits - 1)) else ltb n (2 ^ (bits - 1)) in
    let value = if negative then (2 ^ bits - n) % 2 ^ bits else n in
    if starts_with_digit digits then (whole, if fits then value else result) else (false, result)

-- `std::strtof` and `std::strtod` are the parameter: the number of characters read, and the bits of
-- the result.
module _ (strto : ℕ → Bytes → ℕ × ℕ) where
  -- Whether the whole text is a number, and what the result is then.
  unfoldable pub parse_entire_number : ScalarType → Bytes → ℕ → Bool × ℕ
  unfolding bytes_equal from_chars from_chars_signed
  parse_entire_number bool_scalar text result =
      let is_true = bytes_equal text true_text in
      if is_true || bytes_equal text false_text
      then (true, if is_true then 1 else 0)
      else (false, result)
  parse_entire_number (unsigned bits) text result = from_chars bits text result
  parse_entire_number (signed bits) text result = from_chars_signed bits text result
  parse_entire_number (floating bits) text result =
      let (read, value) = strto bits text in (read == length text, value)
