-- ===== src/Docs.antt =====
-- src/modality_docs.cpp: the values that a parsed document holds, and the types of exported fields.
-- The libraries that parse and print documents are parameters; a value is what they show of it.
pub mod Columns
pub mod Gather
pub mod Gist
pub mod Updates
pub mod Modify
pub mod Numbers
use ukv.Prelude.{ℕ, Bool, true, false, List, ◌==◌, if◌then◌else◌}

abbrev pub Bytes : Type 0
Bytes = List ℕ

-- What `yyjson_get_type`, `yyjson_get_subtype` and the getters tell of a value. A signed number is
-- the two's complement of 64 bits, and a real one the bits of the `double`. The value that a lookup
-- does not find, whose type is `YYJSON_TYPE_NONE`, is `missing`.
mutual
  pub data Json : Type 0 where
    missing null_value : Json
    bool_value : Bool → Json
    uint sint real : ℕ → Json
    str : Bytes → Json
    arr : Items → Json
    obj : Members → Json

  pub data Items : Type 0 where
    no_items : Items
    item : Json → Items → Items

  pub data Members : Type 0 where
    no_members : Members
    member : Bytes → Json → Members → Members

-- `ukv_doc_field_type_t`
pub data FieldType : Type 0 where
  field_json field_bson field_msgpack field_null field_bool field_uuid : FieldType
  field_i8 field_i16 field_i32 field_i64 field_u8 field_u16 field_u32 field_u64 : FieldType
  field_f16 field_f32 field_f64 field_bin field_str : FieldType

unfoldable pub doc_field_size_bytes : FieldType → ℕ
doc_field_size_bytes field_bool = 1
doc_field_size_bytes field_uuid = 16
doc_field_size_bytes field_i8 = 1
doc_field_size_bytes field_i16 = 2
doc_field_size_bytes field_i32 = 4
doc_field_size_bytes field_i64 = 8
doc_field_size_bytes field_u8 = 1
doc_field_size_bytes field_u16 = 2
doc_field_size_bytes field_u32 = 4
doc_field_size_bytes field_u64 = 8
doc_field_size_bytes field_f16 = 2
doc_field_size_bytes field_f32 = 4
doc_field_size_bytes field_f64 = 8
doc_field_size_bytes field_bin = 8
doc_field_size_bytes field_str = 8
doc_field_size_bytes _ = 0

unfoldable pub doc_field_is_variable_length : FieldType → Bool
doc_field_is_variable_length field_bin = true
doc_field_is_variable_length field_str = true
doc_field_is_variable_length _ = false
