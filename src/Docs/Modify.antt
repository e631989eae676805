-- ===== src/Docs/Modify.antt =====
-- src/modality_docs.cpp: `any_parse`, `modify_field`, `modify` and `ukv_docs_write`. What the JSON
-- library does with texts and trees is a parameter.
pub mod Field
pub mod Upsert
use ukv.Prelude.{
  ℕ, zero, suc, ◌+◌, ◌-◌, ◌*◌, ◌/◌, ◌^◌, Bool, true, false, not, ◌&&◌, ◌||◌, Option, none, some,
  List, [], ◌∷◌, ◌++◌, leb, ◌==◌, if◌then◌else◌,
}
use ukv.Types.{CollectionKey}
use ukv.Arguments.{is_present}
use ukv.Umem.Entries.{Value, Pair}
use ukv.Paths.Bucket.{bytes_of}
use ukv.Docs.{
  Bytes, Json, bool_value, uint, sint, real, str, arr, obj, FieldType, field_json, field_bson,
  field_msgpack, field_null, field_bool, field_uuid, field_i8, field_i16, field_i32, field_i64,
  field_u8, field_u16, field_u32, field_u64, field_f16, field_f32, field_f64, field_bin, field_str,
}
use ukv.Docs.Numbers.{is_digit, from_chars}
use ukv.Docs.Updates.{
  Store, Modification, nothing, remove, upsert, update, insert, patch, merge, Fields, has_fields,
  Callback, read_modify_write,
}

-- The trees of the JSON library. `none` is a null pointer or a failure; a change of the value that a
-- pointer leads to is a change of the tree, `put_pointer` or
-- `put_key`.
pub record Trees : Type 0 where
  pub read : Bytes → Option Json
  pub write : Json → Bytes
  pub is_valid : Bytes → Bool
  pub bson_text : Bytes → Option Bytes
  pub msgpack_text : Bytes → Option Bytes
  pub double_of_float : ℕ → ℕ
  pub get_pointer : Json → Bytes → Option Json
  pub put_pointer : Json → Bytes → Json → Json
  pub put_key : Json → Bytes → Json → Json
  pub arr_get : Json → ℕ → Option Json
  pub arr_replace : Json → ℕ → Json → Option Json
  pub arr_insert : Json → ℕ → Json → Option Json
  pub arr_append : Json → Json → Option Json
  pub arr_remove : Json → ℕ → Option Json
  pub obj_get : Json → Bytes → Option Json
  pub obj_add : Json → Bytes → Json → Option Json
  pub obj_replace : Json → Bytes → Json → Option Json
  pub obj_remove : Json → Bytes → Option Json
  pub merge_patch : Option Json → Json → Option Json
  pub patch : Json → Json → Option Bytes → Option Json

-- A little-endian word of so many bytes.
unfoldable pub word : ℕ → Bytes → ℕ
word zero bytes = 0
word (suc n) [] = 0
word (suc n) (b ∷ bytes) = b + 256 * word n bytes

-- The two's complement of 64 bits of a signed word of fewer.
unfoldable pub sign_extend : ℕ → ℕ → ℕ
sign_extend bits n = if leb (2 ^ (bits - 1)) n then n + (2 ^ 64 - 2 ^ bits) else n

-- The text behind the last slash, and the one before it, if there is a slash.
unfoldable pub last_slash : Bytes → Option Bytes × Bytes
last_slash [] = (none, [])
last_slash (b ∷ text) =
    let (before, after) = last_slash text in
    elim before [
      | some front ↦ (some (b ∷ front), after)
      | none ↦ if b == 47 then (some [], after) else (none, b ∷ after)
    ]

-- `field[0] == '/'`
abbrev pub is_pointer : Bytes → Bool
is_pointer [] = false
is_pointer (b ∷ text) = b == 47

abbrev pub all_digits : Bytes → Bool
all_digits [] = true
all_digits (b ∷ text) = is_digit b && all_digits text

abbrev pub is_dash : Bytes → Bool
is_dash (b ∷ []) = b == 45
is_dash _ = false

module _ (lib : Trees) where
  -- No document without bytes.
  unfoldable pub json_parse : Bytes → Option (Option Json)
  json_parse [] = some none
  json_parse (b ∷ bytes) = elim (lib.read (b ∷ bytes)) [ none ↦ none | some doc ↦ some (some doc) ]

  abbrev pub parse_text : Option Bytes → Option (Option Json)
  parse_text none = none
  parse_text (some text) = json_parse text

  -- Bytes that are no document become one of a single value.
  unfoldable pub any_parse : FieldType → Bytes → Option (Option Json)
  any_parse field_json bytes = json_parse bytes
  any_parse field_bson bytes = parse_text (lib.bson_text bytes)
  any_parse field_msgpack bytes = parse_text (lib.msgpack_text bytes)
  any_parse field_str bytes = some (some (str bytes))
  any_parse field_u8 bytes = some (some (uint (word 1 bytes)))
  any_parse field_u16 bytes = some (some (uint (word 2 bytes)))
  any_parse field_u32 bytes = some (some (uint (word 4 bytes)))
  any_parse field_u64 bytes = some (some (uint (word 8 bytes)))
  any_parse field_i8 bytes = some (some (sint (sign_extend 8 (word 1 bytes))))
  any_parse field_i16 bytes = some (some (sint (sign_extend 16 (word 2 bytes))))
  any_parse field_i32 bytes = some (some (sint (sign_extend 32 (word 4 bytes))))
  any_parse field_i64 bytes = some (some (sint (word 8 bytes)))
  any_parse field_f32 bytes = some (some (real (lib.double_of_float (word 4 bytes))))
  any_parse field_f64 bytes = some (some (real (word 8 bytes)))
  any_parse field_bool bytes = some (some (bool_value (not (word 1 bytes == 0))))
  any_parse field_null bytes = none
  any_parse field_uuid bytes = none
  any_parse field_f16 bytes = none
  any_parse field_bin bytes = none

  -- The change of an array at an index, or behind its end.
  unfoldable pub modify_array : Json → Json → Bytes → Modification → Option Json
  modify_array val modifier last m =
      let idx = (from_chars 64 last 0).1 in
      if not (all_digits last || is_dash last) then none else elim m [
        | merge ↦ elim (lib.arr_get val idx) [
          | none ↦ none
          | some mergeable ↦ elim (lib.merge_patch (some mergeable) modifier) [
            | none ↦ none
            | some merged ↦ lib.arr_replace val idx merged
          ]
        ]
        | insert ↦
            if all_digits last then lib.arr_insert val idx modifier else lib.arr_append val modifier
        | remove ↦ lib.arr_remove val idx
        | update ↦ lib.arr_replace val idx modifier
        | upsert ↦ elim (lib.arr_get val idx) [
          | none ↦ lib.arr_append val modifier
          | some old ↦ lib.arr_replace val idx modifier
        ]
        | nothing ↦ none
        | patch ↦ none
      ]

  -- The change of an object at a key. The result of a merge is not tested.
  unfoldable pub modify_object : Json → Json → Bytes → Modification → Option Json
  modify_object val modifier last m = elim m [
    | merge ↦ elim (lib.merge_patch (lib.obj_get val last) modifier) [
      | none ↦ some val
      | some merged ↦ elim (lib.obj_replace val last merged) [
        | none ↦ some val
        | some changed ↦ some changed
      ]
    ]
    | insert ↦ lib.obj_add val last modifier
    | remove ↦ lib.obj_remove val last
    | update ↦ lib.obj_replace val last modifier
    | upsert ↦ elim (lib.obj_get val last) [
      | none ↦ lib.obj_add val last modifier
      | some old ↦ lib.obj_replace val last modifier
    ]
    | nothing ↦ none
    | patch ↦ none
  ]

  -- What is neither an array nor an object stays as it is.
  unfoldable pub modify_value : Json → Json → Bytes → Modification → Option Json
  modify_value (arr items) modifier last m = modify_array (arr items) modifier last m
  modify_value (obj members) modifier last m = modify_object (obj members) modifier last m
  modify_value val modifier last m = some val

  -- The value that the leading part of a field leads to: as a pointer, or as a key. Without a slash
  -- that part has 2^64 - 1 bytes, and no object has a key of that length.
  unfoldable pub json_lookupn : Json → Bytes → Option Bytes → Option Json
  json_lookupn doc field none = none
  json_lookupn doc field (some front) =
      if is_pointer field then lib.get_pointer doc front else lib.obj_get doc front

  -- The document, with that value changed.
  unfoldable pub put_at : Json → Bytes → Option Bytes → Json → Json
  put_at doc field none changed = doc
  put_at doc field (some front) changed =
      if is_pointer field then lib.put_pointer doc front changed else lib.put_key doc front changed

  unfoldable pub modify_field : Json → Json → Bytes → Modification → Option Json
  modify_field doc modifier field m =
      let (before, last) = last_slash field in
      elim (json_lookupn doc field before) [
        | none ↦ none
        | some val ↦ elim (modify_value val modifier last m) [
          | none ↦ none
          | some changed ↦ some (put_at doc field before changed)
        ]
      ]

  abbrev pub is_patch : Modification → Bool
  is_patch patch = true
  is_patch _ = false

  -- A document that is not there becomes the modifier, whatever the field is.
  unfoldable pub modify : Option Json → Json → Option Bytes → Modification → Option Json
  modify none modifier field m = some modifier
  modify (some doc) modifier field patch = lib.patch doc modifier field
  modify (some doc) modifier (some field) m = modify_field doc modifier field m
  modify (some doc) modifier none merge = lib.merge_patch (some doc) modifier
  modify (some doc) modifier none m = some modifier

  abbrev pub written_doc : Option Json → Option Bytes
  written_doc none = none
  written_doc (some doc) = some (lib.write doc)

  -- The document, changed by that of a content, if there is one.
  abbrev pub changed_doc :
      Modification → Option Bytes → Option Json → Option (Option Json) → Option Bytes
  changed_doc m field parsed none = none
  changed_doc m field parsed (some none) = none
  changed_doc m field parsed (some (some modifier)) = written_doc (modify parsed modifier field m)

  -- Without a content the document stays as it is.
  unfoldable pub task_doc :
      Modification → FieldType → Option Bytes → Option Json → Value → Option Bytes
  task_doc m type field parsed none = written_doc parsed
  task_doc m type field parsed (some content) = changed_doc m field parsed (any_parse type content)

  abbrev pub with_parsed : (Option Json → Option Bytes) → Option (Option Json) → Option Bytes
  with_parsed f none = none
  with_parsed f (some parsed) = f parsed

  -- `none` is an error, or a null pointer that is followed: where there is neither a document nor a
  -- content, or no document in the content.
  unfoldable pub safe_callback : (ℕ → Value) → FieldType → Modification → Callback
  safe_callback contents type m task_idx field binary_doc =
      with_parsed (λ parsed. task_doc m type field parsed (contents task_idx))
        (json_parse binary_doc)

  unfoldable pub all_valid : (ℕ → Value) → ℕ → List CollectionKey → Bool
  all_valid contents i [] = true
  all_valid contents i (k ∷ keys) =
      lib.is_valid (bytes_of (contents i)) && all_valid contents (i + 1) keys

-- The pairs of the tasks from an index on.
unfoldable pub task_pairs : (ℕ → Value) → ℕ → List CollectionKey → List Pair
task_pairs contents i [] = []
task_pairs contents i (k ∷ keys) =
    record { place = k; range = contents i } ∷ task_pairs contents (i + 1) keys

abbrev pub is_json : FieldType → Bool
is_json field_json = true
is_json _ = false

abbrev pub is_upsert : Modification → Bool
is_upsert upsert = true
is_upsert _ = false

-- Whole documents of the format of the store are validated and written, and all others modified.
unfoldable pub docs_write :
    (store : Store)
    → Trees
    → List CollectionKey
    → Fields
    → (ℕ → Value)
    → FieldType
    → Modification
    → store.State
    → Option store.State
docs_write store lib [] fields contents type m s = some s
docs_write store lib (k ∷ keys) fields contents type m s =
    if has_fields fields || not (is_json type) || not (is_upsert m)
    then read_modify_write store (safe_callback lib contents type m) m (k ∷ keys) fields s
    else if all_valid lib contents 0 (k ∷ keys)
    then store.write s (task_pairs contents 0 (k ∷ keys))
    else none
