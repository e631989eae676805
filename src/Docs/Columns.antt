-- ===== src/Docs/Columns.antt =====
-- src/modality_docs.cpp: `json_to_scalar`, `json_to_string`, and `column_begin_t`, which writes what
-- they give into the column of a field. Conversions of floating-point numbers are parameters.
pub mod Marks
pub mod Texts
use ukv.Prelude.{
  ℕ, zero, suc, ◌+◌, ◌-◌, ◌%◌, ◌^◌, Bool, true, false, not, ◌&&◌, ◌||◌, Option, none, some, List,
  [], ◌∷◌, ◌++◌, length, take, set, ◌==◌, if◌then◌else◌,
}
use ukv.Docs.{Bytes, Json, missing, null_value, bool_value, uint, sint, real, str, arr, obj}
use ukv.Docs.Numbers.{
  ScalarType, bool_scalar, unsigned, signed, floating, parse_entire_number, print_number, to_chars,
  true_text, false_text,
}

-- The language's conversions from and to floating-point numbers of a width, given by their bits:
-- `strtof` and `strtod`, the casts, and the text that the format `%f` gives.
pub record Floats : Type 0 where
  pub strto : ℕ → Bytes → ℕ × ℕ
  pub of_unsigned : ℕ → ℕ → ℕ
  pub of_signed : ℕ → ℕ → ℕ
  pub of_double : ℕ → ℕ → ℕ
  pub to_integer : ScalarType → ℕ → ℕ
  pub format : ℕ → Bytes

-- The bits that a value leaves for its document in the three bitmaps.
pub record Verdict : Type 0 where
  pub valid : Bool
  pub convert : Bool
  pub collide : Bool

abbrev pub is_unsigned : ScalarType → Bool
is_unsigned bool_scalar = true
is_unsigned (unsigned bits) = true
is_unsigned _ = false

abbrev pub is_signed_integral : ScalarType → Bool
is_signed_integral (signed bits) = true
is_signed_integral _ = false

abbrev pub is_floating_point : ScalarType → Bool
is_floating_point (floating bits) = true
is_floating_point _ = false

abbrev pub is_bool : ScalarType → Bool
is_bool bool_scalar = true
is_bool _ = false

abbrev pub exported : Bool → Verdict
exported converted = record { valid = true; convert = converted; collide = false }

abbrev pub collided : Verdict
collided = record { valid = false; convert = false; collide = true }

abbrev pub absent : Verdict
absent = record { valid = false; convert = false; collide = false }

module _ (floats : Floats) where
  -- `static_cast` of a number of 64 bits
  unfoldable pub cast_unsigned : ScalarType → ℕ → ℕ
  cast_unsigned bool_scalar n = if n == 0 then 0 else 1
  cast_unsigned (unsigned bits) n = n % 2 ^ bits
  cast_unsigned (signed bits) n = n % 2 ^ bits
  cast_unsigned (floating bits) n = floats.of_unsigned bits n

  unfoldable pub cast_signed : ScalarType → ℕ → ℕ
  cast_signed bool_scalar n = if n == 0 then 0 else 1
  cast_signed (unsigned bits) n = n % 2 ^ bits
  cast_signed (signed bits) n = n % 2 ^ bits
  cast_signed (floating bits) n = floats.of_signed bits n

  unfoldable pub cast_real : ScalarType → ℕ → ℕ
  cast_real (floating bits) x = floats.of_double bits x
  cast_real bool_scalar x = floats.to_integer bool_scalar x
  cast_real (unsigned bits) x = floats.to_integer (unsigned bits) x
  cast_real (signed bits) x = floats.to_integer (signed bits) x

  -- The bits of the value, and the scalar, which was there before.
  unfoldable pub json_to_scalar : ScalarType → Json → ℕ → Verdict × ℕ
  unfolding cast_unsigned cast_signed cast_real parse_entire_number
  json_to_scalar type null_value scalar = (absent, scalar)
  json_to_scalar type missing scalar = (collided, scalar)
  json_to_scalar type (obj fields) scalar = (collided, scalar)
  json_to_scalar type (arr items) scalar = (collided, scalar)
  json_to_scalar type (bool_value b) scalar =
      (exported (not (is_bool type)), cast_unsigned type (if b then 1 else 0))
  json_to_scalar type (str text) scalar =
      let (parsed, value) = parse_entire_number floats.strto type text scalar in
      (if parsed then exported true else collided, value)
  json_to_scalar type (uint n) scalar = (exported (not (is_unsigned type)), cast_unsigned type n)
  json_to_scalar type (sint n) scalar =
      (exported (not (is_signed_integral type)), cast_signed type n)
  json_to_scalar type (real x) scalar = (exported (not (is_floating_point type)), cast_real type x)

  -- `print_number` of a floating-point number in a buffer of so many characters. The view's length is
  -- one less than what `snprintf` returns, and what it shows past the buffer is the memory behind.
  unfoldable pub print_real : ℕ → Bytes → ℕ → Option Bytes
  print_real capacity behind x =
      let text = floats.format x in
      if length text == 0
      then none
      else some (take (length text - 1) (take (capacity - 1) text ++ (0 ∷ behind)))

  -- The sign in front of the digits of a signed number.
  unfoldable pub print_signed : ℕ → ℕ → Option Bytes
  unfolding print_number to_chars
  print_signed capacity n =
      if n == n % 2 ^ 63
      then print_number capacity n
      else elim (print_number (capacity - 1) (2 ^ 64 - n)) [
        | none ↦ none
        | some text ↦ some (45 ∷ text)
      ]

  abbrev printed : Option Bytes → Verdict × Bytes
  printed none = (record { valid = false; convert = true; collide = true }, [])
  printed (some []) = (record { valid = false; convert = true; collide = true }, [])
  printed (some (b ∷ text)) = (exported true, b ∷ text)

  -- The views of the words for booleans reach over their terminators.
  unfoldable pub json_to_string : Bytes → Json → Verdict × Bytes
  unfolding print_number print_real print_signed
  json_to_string behind null_value = (absent, [])
  json_to_string behind missing = (collided, [])
  json_to_string behind (obj fields) = (collided, [])
  json_to_string behind (arr items) = (collided, [])
  json_to_string behind (bool_value b) =
      (exported true, (if b then true_text else false_text) ++ (0 ∷ []))
  json_to_string behind (str text) = (exported false, text)
  json_to_string behind (uint n) = printed (print_number 32 n)
  json_to_string behind (sint n) = printed (print_signed 32 n)
  json_to_string behind (real x) = printed (print_real 32 behind x)

-- `column_begin_t`: where the bitmaps of the column start among the bits of the tape, which is the
-- same place for those that were not asked for.
pub record Column : Type 0 where
  pub validities : ℕ
  pub conversions : ℕ
  pub collisions : ℕ

-- What the addresses of a column lead to.
pub record Cells : Type 0 where
  pub bits : List Bool
  pub scalars : List ℕ
  pub str_offsets : List ℕ
  pub str_lengths : List ℕ

-- The writes of the bits of a document: the validity is the last.
unfoldable pub mark : Column → ℕ → Verdict → List Bool → List Bool
mark column doc_idx v bits =
    set
      (set (set bits (column.conversions + doc_idx) v.convert) (column.collisions + doc_idx)
        v.collide)
      (column.validities + doc_idx) v.valid

abbrev pub cell : List ℕ → ℕ → ℕ
cell [] i = 0
cell (x ∷ xs) zero = x
cell (x ∷ xs) (suc i) = cell xs i

module _ (floats : Floats) where
  unfoldable pub set_scalar : ScalarType → Column → ℕ → Json → Cells → Cells
  unfolding json_to_scalar mark
  set_scalar type column doc_idx value cells =
      let (verdict, scalar) = json_to_scalar floats type value (cell cells.scalars doc_idx) in
      record {
        bits = mark column doc_idx verdict cells.bits;
        scalars = set cells.scalars doc_idx scalar;
        str_offsets = cells.str_offsets;
        str_lengths = cells.str_lengths;
      }

  -- The strings of all columns lie on one tape, `output`. Memory is there for it.
  unfoldable pub set_str : Bytes → Column → ℕ → Json → Bool → Bool → Cells → Bytes → Cells × Bytes
  unfolding json_to_string mark
  set_str behind column doc_idx value with_separator is_last cells output =
      let (verdict, text) = json_to_string floats behind value in
      let output' = (output ++ text) ++ (if with_separator then 0 ∷ [] else []) in
      let offsets = set cells.str_offsets doc_idx (length output % 2 ^ 32) in
      (
        record {
          bits = mark column doc_idx verdict cells.bits;
          scalars = cells.scalars;
          str_offsets =
              if is_last then set offsets (doc_idx + 1) (length output' % 2 ^ 32) else offsets;
          str_lengths = set cells.str_lengths doc_idx (length text % 2 ^ 32);
        },
        output',
      )
