-- ===== src/Docs/Gather.antt =====
-- src/modality_docs.cpp: `ukv_docs_gather`, the layout of its tape and its loops over the documents
-- that were read and over the fields. The parser, and the lookups by pointers and by names, are
-- parameters; memory is there for the strings.
pub mod Layout
pub mod Bitmaps
pub mod Fields
pub mod Validities
use ukv.Prelude.{
  ℕ, zero, suc, ◌+◌, ◌-◌, ◌*◌, Bool, true, false, Option, none, some, List, [], ◌∷◌, length, set,
  ◌==◌, if◌then◌else◌,
}
use ukv.Types.{divide_round_up}
use ukv.Ranges.{transform_reduce_n}
use ukv.Docs.{
  Bytes, Json, FieldType, doc_field_size_bytes, doc_field_is_variable_length, field_bool, field_i8,
  field_i16, field_i32, field_i64, field_u8, field_u16, field_u32, field_u64, field_f32, field_f64,
  field_bin, field_str,
}
use ukv.Docs.Numbers.{ScalarType, bool_scalar, unsigned, signed, floating}
use ukv.Docs.Columns.{Floats, Column, Cells, set_scalar, set_str}

-- The arguments that the layout depends on: the number of documents, the fields' types, and whether
-- the bitmaps of conversions and collisions are asked for.
pub record GatherArg : Type 0 where
  pub docs_count : ℕ
  pub types : List FieldType
  pub wants_conversions : Bool
  pub wants_collisions : Bool

module _ (c : GatherArg) where
  unfoldable pub slots_per_bitmap : ℕ
  unfolding divide_round_up
  slots_per_bitmap = divide_round_up c.docs_count 8

  unfoldable pub count_bitmaps : ℕ
  count_bitmaps =
      (1 + (if c.wants_conversions then 1 else 0)) + (if c.wants_collisions then 1 else 0)

  -- Six rows of addresses of eight bytes, and one length.
  unfoldable pub bytes_for_addresses : ℕ
  bytes_for_addresses = 8 * length c.types * 6 + 4

  unfoldable pub bytes_for_bitmaps : ℕ
  unfolding slots_per_bitmap count_bitmaps
  bytes_for_bitmaps = slots_per_bitmap * count_bitmaps * length c.types * length c.types

  unfoldable pub bytes_for_scalars : ℕ
  unfolding transform_reduce_n
  bytes_for_scalars = transform_reduce_n c.types 0 doc_field_size_bytes * c.docs_count

  -- The bytes that are allocated.
  unfoldable pub tape_length : ℕ
  unfolding bytes_for_addresses bytes_for_bitmaps bytes_for_scalars
  tape_length = bytes_for_addresses + bytes_for_bitmaps + bytes_for_scalars

  -- The bitmaps of a field, counted in bits from the first bitmap's start.
  unfoldable pub column_at : ℕ → Column
  unfolding slots_per_bitmap
  column_at field_idx =
      let first_conversions =
        if c.wants_conversions then slots_per_bitmap * length c.types else 0 in
      let first_collisions =
        if c.wants_collisions then first_conversions + slots_per_bitmap * length c.types else 0 in
      record {
        validities = (field_idx * slots_per_bitmap) * 8;
        conversions = (first_conversions + field_idx * slots_per_bitmap) * 8;
        collisions = (first_collisions + field_idx * slots_per_bitmap) * 8;
      }

-- The addresses of a column, counted from the tape's start.
pub record Addresses : Type 0 where
  pub offs : Option ℕ
  pub lens : Option ℕ
  pub scalars : Option ℕ

unfoldable pub addresses_of : ℕ → FieldType → ℕ → Addresses
addresses_of docs_count type scalars_tape =
    if doc_field_is_variable_length type
    then record {
      offs = some scalars_tape;
      lens = some (scalars_tape + 4 * (docs_count + 1));
      scalars = none;
    }
    else record { offs = none; lens = none; scalars = some scalars_tape }

unfoldable pub addresses_from : ℕ → List FieldType → ℕ → List Addresses
unfolding addresses_of
addresses_from docs_count [] scalars_tape = []
addresses_from docs_count (type ∷ types) scalars_tape =
    addresses_of docs_count type scalars_tape
    ∷ addresses_from docs_count types (scalars_tape + (doc_field_size_bytes type * docs_count + 4))

unfoldable pub columns_addresses : GatherArg → List Addresses
unfolding bytes_for_addresses bytes_for_bitmaps addresses_from
columns_addresses c =
    addresses_from c.docs_count c.types (bytes_for_addresses c + bytes_for_bitmaps c)

-- The arrays of a field.
pub record Arrays : Type 0 where
  pub scalars : List ℕ
  pub str_offsets : List ℕ
  pub str_lengths : List ℕ

-- A field: its type, and its path or name, if it has one.
pub record Field : Type 0 where
  pub type : FieldType
  pub name : Option Bytes

-- The tape: the bits of all bitmaps, the arrays of the fields, and the strings.
pub record Tape : Type 0 where
  pub bits : List Bool
  pub fields : List Arrays
  pub output : Bytes

abbrev pub arrays_at : List Arrays → ℕ → Arrays
arrays_at [] i = record { scalars = []; str_offsets = []; str_lengths = [] }
arrays_at (a ∷ arrays) zero = a
arrays_at (a ∷ arrays) (suc i) = arrays_at arrays i

-- What a type's case of the switch does: a column of scalars, one of strings, or nothing.
pub data Exported : Type 0 where
  as_scalar : ScalarType → Exported
  as_string : Bool → Exported
  not_exported : Exported

unfoldable pub exported_as : FieldType → Exported
exported_as field_bool = as_scalar bool_scalar
exported_as field_i8 = as_scalar (signed 8)
exported_as field_i16 = as_scalar (signed 16)
exported_as field_i32 = as_scalar (signed 32)
exported_as field_i64 = as_scalar (signed 64)
exported_as field_u8 = as_scalar (unsigned 8)
exported_as field_u16 = as_scalar (unsigned 16)
exported_as field_u32 = as_scalar (unsigned 32)
exported_as field_u64 = as_scalar (unsigned 64)
exported_as field_f32 = as_scalar (floating 32)
exported_as field_f64 = as_scalar (floating 64)
exported_as field_str = as_string true
exported_as field_bin = as_string false
exported_as _ = not_exported

module _ (pointer get_key : Json → Bytes → Json) where
  -- A null field is the whole document, and a path starts with a slash.
  unfoldable pub json_lookup : Json → Option Bytes → Json
  json_lookup json none = json
  json_lookup json (some []) = get_key json []
  json_lookup json (some (b ∷ field)) =
      if b == 47 then pointer json (b ∷ field) else get_key json (b ∷ field)

module _ (floats : Floats) (behind : Bytes) where
  unfoldable pub export : Exported → Column → ℕ → Json → Bool → Cells → Bytes → Cells × Bytes
  unfolding set_scalar set_str
  export (as_scalar type) column doc_idx value is_last cells output =
      (set_scalar floats type column doc_idx value cells, output)
  export (as_string with_separator) column doc_idx value is_last cells output =
      set_str floats behind column doc_idx value with_separator is_last cells output
  export not_exported column doc_idx value is_last cells output = (cells, output)

  module _ (pointer get_key : Json → Bytes → Json) (c : GatherArg) where
    -- One field of one document.
    unfoldable pub gather_field : ℕ → Json → ℕ → Field → Tape → Tape
    unfolding export exported_as column_at json_lookup
    gather_field doc_idx root field_idx field tape =
        let arrays = arrays_at tape.fields field_idx in
        let (cells, output) =
          export (exported_as field.type) (column_at c field_idx) doc_idx
            (json_lookup pointer get_key root field.name) (doc_idx == (c.docs_count - 1))
            (record {
              bits = tape.bits;
              scalars = arrays.scalars;
              str_offsets = arrays.str_offsets;
              str_lengths = arrays.str_lengths;
            })
            tape.output in
        record {
          bits = cells.bits;
          fields = set tape.fields field_idx (record {
            scalars = cells.scalars;
            str_offsets = cells.str_offsets;
            str_lengths = cells.str_lengths;
          });
          output = output;
        }

    unfoldable pub gather_fields : ℕ → Json → ℕ → List Field → Tape → Tape
    unfolding gather_field
    gather_fields doc_idx root field_idx [] tape = tape
    gather_fields doc_idx root field_idx (f ∷ fields) tape =
        gather_fields doc_idx root (field_idx + 1) fields
          (gather_field doc_idx root field_idx f tape)

    module _ (parse : Bytes → Option Json) (fields : List Field) where
      -- A document that is missing or empty is skipped; `none` is an error of the parser.
      unfoldable pub gather_docs : ℕ → List Bytes → Tape → Option Tape
      unfolding gather_fields
      gather_docs doc_idx [] tape = some tape
      gather_docs doc_idx ([] ∷ docs) tape = gather_docs (doc_idx + 1) docs tape
      gather_docs doc_idx ((b ∷ doc) ∷ docs) tape = elim (parse (b ∷ doc)) [
        | none ↦ none
        | some root ↦ gather_docs (doc_idx + 1) docs (gather_fields doc_idx root 0 fields tape)
      ]
