-- ===== src/Examples/Modified.antt =====
-- The theorems about writes of whole documents and about modified fields, for arrays of one item.
use ukv.Prelude.{
  ℕ, zero, suc, ◌≡◌, refl, true, false, Option, none, some, [], ◌∷◌, arith, get_elem?, ltb, leb,
}
use ukv.Types.{CollectionKey, key_eq, key_lt}
use ukv.Types.Order.{key_order}
use ukv.Ranges.{
  sort_and_deduplicate, sort, insert_sorted, unique, unique_after, contains, all_ascending,
}
use ukv.Arguments.{is_present}
use ukv.Umem.Entries.{Value}
use ukv.Umem.Blobs.Writes.{last_put}
use ukv.Docs.{Json, null_value, uint, arr, item, no_items, field_str}
use ukv.Docs.Updates.{
  upsert, update, without, read_modify_write, read_modify_docs, read_modify_unique_docs,
  read_modified_docs, for_each_absent, are_unique, needs_values, has_fields, field_at, pairs_from,
}
use ukv.Docs.Modify.{
  Trees, last_slash, json_lookupn, modify_field, docs_write, safe_callback, json_parse, task_doc,
  any_parse, modify,
}
use ukv.Docs.Modify.Field.{AreDocumented, allows, modify_field-allows}
use ukv.Docs.Modify.Upsert.{IsUpserted, docs_write-upsert}
use ukv.Examples.Documents.{contents_store, Contents, same_contents, two_keys, two_keys-IsDistinct}

abbrev below_one : Json → ℕ → Option Json
below_one val zero = some val
below_one val (suc i) = none

abbrev up_to_one : Json → ℕ → Option Json
up_to_one val zero = some val
up_to_one val (suc zero) = some val
up_to_one val (suc (suc i)) = none

-- Any text is read as one array, objects have every key, and pointers lead to the whole document.
abbrev small_trees : Trees
small_trees = record {
  read = λ text. some (arr (item null_value no_items));
  write = λ doc. 91 ∷ 93 ∷ [];
  is_valid = λ text. true;
  bson_text = λ text. none;
  msgpack_text = λ text. none;
  double_of_float = λ x. x;
  get_pointer = λ doc path. some doc;
  put_pointer = λ doc path val. val;
  put_key = λ doc key val. val;
  arr_get = below_one;
  arr_replace = λ val i x. below_one val i;
  arr_insert = λ val i x. up_to_one val i;
  arr_append = λ val x. some val;
  arr_remove = below_one;
  obj_get = λ val key. some val;
  obj_add = λ val key x. some val;
  obj_replace = λ val key x. some val;
  obj_remove = λ val key. some val;
  merge_patch = λ val x. some x;
  patch = λ doc x path. some doc;
}

below_one_lem : (val : Json) (i : ℕ) → is_present (below_one val i) ≡ ltb i 1
below_one_lem val zero = refl
below_one_lem val (suc i) = ground arith

up_to_one_lem : (val : Json) (i : ℕ) → is_present (up_to_one val i) ≡ leb i 1
up_to_one_lem val zero = refl
up_to_one_lem val (suc zero) = refl
up_to_one_lem val (suc (suc i)) = ground arith

small_trees-AreDocumented : AreDocumented small_trees
small_trees-AreDocumented = record {
  size = λ val. 1;
  has_key = λ val key. true;
  get = λ val i. below_one_lem (arr val) i;
  replace = λ val i x. below_one_lem (arr val) i;
  insert_at = λ val i x. up_to_one_lem (arr val) i;
  append = λ val x. refl;
  remove_at = λ val i. below_one_lem (arr val) i;
  get_key = λ val key. refl;
  add_key = λ val key x. refl;
  replace_key = λ val key x. refl;
  remove_key = λ val key. refl;
  merged = λ val x. refl;
}

-- An update of the item 1, which is not there.
abbrev small_array : Json
small_array = arr (item null_value no_items)

modify_field-allows_example :
    is_present (modify_field small_trees small_array (uint 7) (47 ∷ 49 ∷ []) update)
    ≡ allows small_trees small_trees-AreDocumented
        (some small_array)
        ((last_slash (47 ∷ 49 ∷ [])).1)
        update
unfolding last_slash json_lookupn
modify_field-allows_example =
    modify_field-allows small_trees small_trees-AreDocumented small_array (uint 7) (47 ∷ 49 ∷ [])
      update

-- Two strings, which become documents of the store.
abbrev texts : ℕ → Value
texts i = some (i ∷ [])

abbrev after_upsert : Contents
after_upsert k =
    last_put k (some (1 ∷ [])) (pairs_from two_keys ((91 ∷ 93 ∷ []) ∷ (91 ∷ 93 ∷ []) ∷ []))

did_upsert :
    docs_write contents_store small_trees two_keys without texts field_str upsert same_contents
    ≡ some after_upsert
unfolding docs_write read_modify_write read_modify_docs read_modify_unique_docs read_modified_docs
    are_unique sort_and_deduplicate all_ascending sort insert_sorted unique unique_after key_lt
    key_eq needs_values has_fields for_each_absent field_at safe_callback json_parse task_doc
    any_parse modify
did_upsert = refl

no_fields : has_fields without ≡ false
unfolding has_fields
no_fields = refl

docs_write-upsert_example :
    ((i : ℕ) (k : CollectionKey)
      → get_elem? two_keys i ≡ some k
      → IsUpserted small_trees contents_store without texts field_str i (after_upsert k))
    × ((k : CollectionKey) → contains two_keys k ≡ false → after_upsert k ≡ same_contents k)
docs_write-upsert_example =
    docs_write-upsert small_trees contents_store without texts two_keys field_str same_contents
      after_upsert no_fields two_keys-IsDistinct did_upsert
