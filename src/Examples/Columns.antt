-- ===== src/Examples/Columns.antt =====
-- The theorems about numbers as texts, columns and the tape of gathered fields, at small documents.
use ukv.Prelude.{
  ℕ, suc, ◌+◌, ◌*◌, ◌^◌, ◌≤◌, ◌<◌, ◌≡◌, refl, true, false, not, ◌&&◌, ◌||◌, Option, none, some,
  List, [], ◌∷◌, ◌++◌, arith, length, replicate, get_elem?, leb, ◌==◌, if◌then◌else◌,
}
use ukv.Docs.{Bytes, Json, uint, str, bool_value, FieldType, field_u8, field_u16, field_str}
use ukv.Docs.Numbers.{ScalarType, unsigned, print_number, parse_entire_number}
use ukv.Docs.Numbers.RoundTrip.{all_digits, shown, is_empty, parse_entire_number_lem, parse-print}
use ukv.Docs.Columns.{Floats, Column, Cells, set_scalar, set_str}
use ukv.Docs.Columns.Marks.{IsInside, is_exported, is_null, is_exact, set_scalar_lem}
use ukv.Docs.Columns.Texts.{text_at, text_of, written, set_str_lem}
use ukv.Docs.Gather.{
  GatherArg, Field, Tape, Arrays, tape_length, Addresses, columns_addresses, column_at, exported_as,
  as_scalar, json_lookup, bytes_for_bitmaps,
}
use ukv.Docs.Gather.Layout.{region_begin, region_end, gap_of, columns_addresses_lem}
use ukv.Docs.Gather.Validities.{gather, gather_docs_lem}

abbrev no_strto : ℕ → Bytes → ℕ × ℕ
no_strto bits text = (0, 0)

abbrev no_floats : Floats
no_floats = record {
  strto = no_strto;
  of_unsigned = λ bits n. 0;
  of_signed = λ bits n. 0;
  of_double = λ bits x. 0;
  to_integer = λ type x. 0;
  format = λ x. [];
}

-- The number 300 does not fit eight bits.
abbrev three_hundred : Bytes
three_hundred = 51 ∷ 48 ∷ 48 ∷ []

parse_entire_number_lem_example :
    ((parse_entire_number no_strto (unsigned 8) three_hundred 9).0 ≡ all_digits three_hundred)
    × (all_digits three_hundred ≡ true
        → (parse_entire_number no_strto (unsigned 8) three_hundred 9).1 ≡ (
            if is_empty three_hundred || leb (2 ^ 8) (shown three_hundred 0)
            then 9
            else shown three_hundred 0))
parse_entire_number_lem_example = parse_entire_number_lem no_strto 8 three_hundred 9

parse-print_example :
    (text : Bytes) × (print_number 32 255 ≡ some text)
    × (parse_entire_number no_strto (unsigned 8) text 0 ≡ (true, 255))
parse-print_example = parse-print no_strto 8 255 0 (omega arith) (omega arith)

-- A bitmap of eight documents for validities and conversions, and one for collisions.
abbrev shared_column : Column
shared_column = record { validities = 0; conversions = 0; collisions = 8 }

abbrev empty_cells : Cells
empty_cells = record {
  bits = replicate 16 false;
  scalars = 0 ∷ 0 ∷ 0 ∷ [];
  str_offsets = 0 ∷ 0 ∷ 0 ∷ 0 ∷ [];
  str_lengths = 0 ∷ 0 ∷ 0 ∷ [];
}

shared_column-IsInside : IsInside shared_column 2 empty_cells.bits
shared_column-IsInside = record {
  valid_fits = omega arith;
  convert_fits = omega arith;
  collide_fits = omega arith;
}

abbrev eight_bits : Json → Cells
eight_bits value = set_scalar no_floats (unsigned 8) shared_column 2 value empty_cells

set_scalar_lem_example :
    (get_elem? (eight_bits (str three_hundred)).bits (0 + 2)
      ≡ some (is_exported no_floats (unsigned 8) (str three_hundred)))
    × (((0 + 2) == (8 + 2)) ≡ false
        → get_elem? (eight_bits (str three_hundred)).bits (8 + 2)
          ≡ some (
              not (is_exported no_floats (unsigned 8) (str three_hundred))
              && not (is_null (str three_hundred))))
    × (((0 + 2) == (0 + 2)) ≡ false
        → ((8 + 2) == (0 + 2)) ≡ false
        → get_elem? (eight_bits (str three_hundred)).bits (0 + 2)
          ≡ some (
              is_exported no_floats (unsigned 8) (str three_hundred)
              && not (is_exact (unsigned 8) (str three_hundred))))
    × ((i : ℕ)
        → ((0 + 2) == i) ≡ false
        → ((0 + 2) == i) ≡ false
        → ((8 + 2) == i) ≡ false
        → get_elem? (eight_bits (str three_hundred)).bits i ≡ get_elem? empty_cells.bits i)
set_scalar_lem_example =
    set_scalar_lem no_floats (unsigned 8) shared_column 2 (str three_hundred) empty_cells
      shared_column-IsInside

abbrev last_text : Cells × Bytes
last_text = written no_floats [] shared_column 2 (bool_value true) true true empty_cells (7 ∷ [])

set_str_lem_example :
    (offset size : ℕ) × (get_elem? (last_text.0.str_offsets) 2 ≡ some offset)
    × (get_elem? (last_text.0.str_lengths) 2 ≡ some size)
    × ((more : Bytes)
        → text_at (last_text.1 ++ more) offset size ≡ text_of no_floats [] (bool_value true))
    × (true ≡ true → get_elem? (last_text.0.str_offsets) (2 + 1) ≡ some (length (last_text.1)))
    × ((i : ℕ)
        → i < 2
        → get_elem? (last_text.0.str_offsets) i ≡ get_elem? empty_cells.str_offsets i)
unfolding set_str
set_str_lem_example =
    set_str_lem no_floats [] shared_column 2 (bool_value true) true true empty_cells (7 ∷ [])
      (omega arith) (omega arith) (omega arith)

abbrev three_columns : GatherArg
three_columns = record {
  docs_count = 2;
  types = field_u8 ∷ field_u16 ∷ field_str ∷ [];
  wants_conversions = false;
  wants_collisions = true;
}

columns_addresses_lem_example :
    ((i : ℕ) (t : FieldType) (a b : Addresses)
      → get_elem? three_columns.types i ≡ some t
      → get_elem? (columns_addresses three_columns) i ≡ some a
      → get_elem? (columns_addresses three_columns) (suc i) ≡ some b
      → region_end 2 t a ≤ region_begin b)
    × ((a : Addresses) × (get_elem? (columns_addresses three_columns) 2 ≡ some a)
        × (region_end 2 field_str a ≡ tape_length three_columns + 4 * 2 + gap_of field_str))
columns_addresses_lem_example =
    columns_addresses_lem three_columns (field_u8 ∷ field_u16 ∷ []) field_str refl

-- A missing document, and one whose every field is the number seven.
abbrev parse_seven : Bytes → Option Json
parse_seven text = some (uint 7)

abbrev whole : Json → Bytes → Json
whole root field = root

abbrev two_fields : List Field
two_fields =
    record { type = field_u8; name = some (97 ∷ []) }
    ∷ record { type = field_str; name = none }
    ∷ []

abbrev two_columns : GatherArg
two_columns = record {
  docs_count = 2;
  types = field_u8 ∷ field_str ∷ [];
  wants_conversions = false;
  wants_collisions = true;
}

abbrev no_arrays : Arrays
no_arrays = record { scalars = 0 ∷ 0 ∷ []; str_offsets = 0 ∷ 0 ∷ 0 ∷ []; str_lengths = 0 ∷ 0 ∷ [] }

abbrev new_tape : Tape
new_tape = record { bits = replicate 64 false; fields = no_arrays ∷ no_arrays ∷ []; output = [] }

new_tape-sized : length new_tape.bits ≡ bytes_for_bitmaps two_columns * 8
unfolding bytes_for_bitmaps
new_tape-sized = refl

gather_docs_lem_example :
    (tape' : Tape) × (gather no_floats [] whole whole two_columns parse_seven two_fields 0
        ([] ∷ (1 ∷ []) ∷ [])
        new_tape
      ≡ some tape')
    × ((i j b : ℕ) (doc : Bytes) (root : Json) (f : Field) (type : ScalarType)
        → get_elem? ([] ∷ (1 ∷ []) ∷ []) i ≡ some (b ∷ doc)
        → parse_seven (b ∷ doc) ≡ some root
        → get_elem? two_fields j ≡ some f
        → exported_as f.type ≡ as_scalar type
        → get_elem? tape'.bits ((column_at two_columns j).validities + i)
          ≡ some (is_exported no_floats type (json_lookup whole whole root f.name)))
gather_docs_lem_example =
    gather_docs_lem no_floats [] whole whole two_columns parse_seven two_fields ([] ∷ (1 ∷ []) ∷ [])
      new_tape refl refl new_tape-sized ((uint 7, refl), tt)
