-- ===== src/Docs/Modify/Field.antt =====
-- Which modifications of a field fail, for a library whose arrays and objects work as documented.
use ukv.Prelude.{
  ℕ, ◌≡◌, refl, sym, ap, ◌∙◌, Bool, true, false, not, ◌&&◌, ◌||◌, Option, none, some, inl, inr, ltb,
  leb, if◌then◌else◌, Option-cases,
}
use ukv.Arguments.{is_present}
use ukv.Docs.{
  Bytes, Json, Items, Members, missing, null_value, bool_value, uint, sint, real, str, arr, obj,
}
use ukv.Docs.Numbers.{from_chars}
use ukv.Docs.Updates.{Modification, nothing, remove, upsert, update, insert, patch, merge}
use ukv.Docs.Modify.{
  Trees, all_digits, is_dash, last_slash, modify_array, modify_object, modify_value, modify_field,
  json_lookupn,
}

-- The operations on an array succeed up to its size, an addition always does; those on an object
-- succeed for the keys that it has, and an addition does always. A merge succeeds. Nothing is said
-- of an array's operations on what is no array, or of an object's on what is no object.
pub record AreDocumented (lib : Trees) : Type 0 where
  pub size : Items → ℕ
  pub has_key : Members → Bytes → Bool
  pub get : (v : Items) (i : ℕ) → is_present (lib.arr_get (arr v) i) ≡ ltb i (size v)
  pub replace :
      (v : Items) (i : ℕ) (x : Json) → is_present (lib.arr_replace (arr v) i x) ≡ ltb i (size v)
  pub insert_at :
      (v : Items) (i : ℕ) (x : Json) → is_present (lib.arr_insert (arr v) i x) ≡ leb i (size v)
  pub append : (v : Items) (x : Json) → is_present (lib.arr_append (arr v) x) ≡ true
  pub remove_at : (v : Items) (i : ℕ) → is_present (lib.arr_remove (arr v) i) ≡ ltb i (size v)
  pub get_key : (v : Members) (k : Bytes) → is_present (lib.obj_get (obj v) k) ≡ has_key v k
  pub add_key : (v : Members) (k : Bytes) (x : Json) → is_present (lib.obj_add (obj v) k x) ≡ true
  pub replace_key :
      (v : Members) (k : Bytes) (x : Json) → is_present (lib.obj_replace (obj v) k x) ≡ has_key v k
  pub remove_key : (v : Members) (k : Bytes) → is_present (lib.obj_remove (obj v) k) ≡ has_key v k
  pub merged : (v : Option Json) (x : Json) → is_present (lib.merge_patch v x) ≡ true

guarded :
    (g : Bool) (o : Option Json) (b : Bool)
    → is_present o ≡ b
    → is_present (if not g then none else o) ≡ (g && b)
guarded true o b h = h
guarded false o b h = refl

either :
    (o other : Option Json) (f : Json → Option Json)
    → is_present other ≡ true
    → ((x : Json) → is_present o ≡ true → is_present (f x) ≡ true)
    → is_present (elim o [ none ↦ other | some x ↦ f x ]) ≡ true
either none other f h k = h
either (some x) other f h k = k x refl

-- A chain of which the last step succeeds exactly if the first one does, and all between do.
chained :
    (o : Option Json) (f : Json → Option Json) (g : Json → Option Json) (b : Bool)
    → is_present o ≡ b
    → ((x : Json) → is_present (f x) ≡ true)
    → ((x : Json) → is_present (g x) ≡ b)
    → is_present (elim o [ none ↦ none | some x ↦ elim (f x) [ none ↦ none | some y ↦ g y ] ]) ≡ b
chained none f g b h k l = h
chained (some x) f g b h k l = elim (Option-cases (f x)) [
  | inl e ↦ let never = ap is_present (sym e) ∙ k x in cc
  | inr (y, e) ↦ ap (λ o. is_present (elim o [ none ↦ none | some z ↦ g z ])) e ∙ l y
]

kept :
    (o : Option Json) (val : Json)
    → is_present (elim o [ none ↦ some val | some x ↦ some x ]) ≡ true
kept none val = refl
kept (some x) val = refl

present-put :
    (o : Option Json) (put : Json → Json)
    → is_present (elim o [ none ↦ none | some x ↦ some (put x) ]) ≡ is_present o
present-put none put = refl
present-put (some x) put = refl

inserted :
    (digits : Bool) (at_index at_end : Option Json) (b : Bool)
    → is_present at_index ≡ b
    → is_present at_end ≡ true
    → is_present (if digits then at_index else at_end) ≡ (not digits || b)
inserted true at_index at_end b h k = h
inserted false at_index at_end b h k = k

module _ (lib : Trees) (documented : AreDocumented lib) where
  abbrev index : Bytes → ℕ
  index last = (from_chars 64 last 0).1

  -- The array has an item at the index.
  abbrev has_item : Items → Bytes → Bool
  has_item val last = ltb (index last) (documented.size val)

  -- The modifications of an array that succeed: with a number or a dash for its index, which a dash
  -- makes zero but for an insertion.
  abbrev array_allows : Items → Bytes → Modification → Bool
  array_allows val last merge = has_item val last
  array_allows val last insert = not (all_digits last) || leb (index last) (documented.size val)
  array_allows val last remove = has_item val last
  array_allows val last update = has_item val last
  array_allows val last upsert = true
  array_allows val last nothing = false
  array_allows val last patch = false

  abbrev object_allows : Members → Bytes → Modification → Bool
  object_allows val last merge = true
  object_allows val last insert = true
  object_allows val last remove = documented.has_key val last
  object_allows val last update = documented.has_key val last
  object_allows val last upsert = true
  object_allows val last nothing = false
  object_allows val last patch = false

  -- The modification of the value that the path before the last slash leads to.
  abbrev pub allows : Option Json → Bytes → Modification → Bool
  allows none last m = false
  allows (some (arr items)) last m = (all_digits last || is_dash last) && array_allows items last m
  allows (some (obj members)) last m = object_allows members last m
  allows (some missing) last m = true
  allows (some null_value) last m = true
  allows (some (bool_value b)) last m = true
  allows (some (uint n)) last m = true
  allows (some (sint n)) last m = true
  allows (some (real x)) last m = true
  allows (some (str text)) last m = true

  array_lem :
      (val : Items) (modifier : Json) (last : Bytes) (m : Modification)
      → is_present (modify_array lib (arr val) modifier last m)
        ≡ ((all_digits last || is_dash last) && array_allows val last m)
  unfolding modify_array
  array_lem val modifier last merge = guarded (all_digits last || is_dash last) _ _ (
      chained (lib.arr_get (arr val) (index last)) _ _ _ (documented.get val (index last))
        (λ x. documented.merged (some x) modifier) (λ y. documented.replace val (index last) y))
  array_lem val modifier last insert = guarded (all_digits last || is_dash last) _ _ (
      inserted (all_digits last) _ _ _ (documented.insert_at val (index last) modifier)
        (documented.append val modifier))
  array_lem val modifier last remove =
      guarded (all_digits last || is_dash last) _ _ (documented.remove_at val (index last))
  array_lem val modifier last update =
      guarded (all_digits last || is_dash last) _ _ (documented.replace val (index last) modifier)
  array_lem val modifier last upsert = guarded (all_digits last || is_dash last) _ _ (
      either (lib.arr_get (arr val) (index last)) _ _ (documented.append val modifier) (λ x there.
        documented.replace val (index last) modifier
        ∙ sym (documented.get val (index last))
        ∙ there))
  array_lem val modifier last nothing = guarded (all_digits last || is_dash last) _ _ refl
  array_lem val modifier last patch = guarded (all_digits last || is_dash last) _ _ refl

  object_lem :
      (val : Members) (modifier : Json) (last : Bytes) (m : Modification)
      → is_present (modify_object lib (obj val) modifier last m) ≡ object_allows val last m
  unfolding modify_object
  object_lem val modifier last merge =
      either (lib.merge_patch (lib.obj_get (obj val) last) modifier) _ _ refl
        (λ x there. kept (lib.obj_replace (obj val) last x) (obj val))
  object_lem val modifier last insert = documented.add_key val last modifier
  object_lem val modifier last remove = documented.remove_key val last
  object_lem val modifier last update = documented.replace_key val last modifier
  object_lem val modifier last upsert =
      either (lib.obj_get (obj val) last) _ _ (documented.add_key val last modifier) (λ x there.
        documented.replace_key val last modifier ∙ sym (documented.get_key val last) ∙ there)
  object_lem val modifier last nothing = refl
  object_lem val modifier last patch = refl

  value_lem :
      (val modifier : Json) (last : Bytes) (m : Modification)
      → is_present (modify_value lib val modifier last m) ≡ allows (some val) last m
  unfolding modify_value
  value_lem (arr items) modifier last m = array_lem items modifier last m
  value_lem (obj members) modifier last m = object_lem members modifier last m
  value_lem missing modifier last m = refl
  value_lem null_value modifier last m = refl
  value_lem (bool_value b) modifier last m = refl
  value_lem (uint n) modifier last m = refl
  value_lem (sint n) modifier last m = refl
  value_lem (real x) modifier last m = refl
  value_lem (str text) modifier last m = refl

  field_lem :
      (found : Option Json) (modifier : Json) (last : Bytes) (m : Modification) (put : Json → Json)
      → is_present (elim found [
        | none ↦ none
        | some val ↦ elim (modify_value lib val modifier last m) [
          | none ↦ none
          | some changed ↦ some (put changed)
        ]
      ])
        ≡ allows found last m
  field_lem none modifier last m put = refl
  field_lem (some val) modifier last m put =
      present-put (modify_value lib val modifier last m) put ∙ value_lem val modifier last m

  -- A modification of a field fails exactly if the part before its last slash leads nowhere, or to an
  -- array or an object that does not allow it at what stands behind the slash: an array takes a
  -- number or a dash, a merge, an update or a removal needs the item, and an insertion at most the
  -- size; an update or a removal in an object needs the key; what is neither array nor object allows
  -- everything. This is for a library whose operations succeed where they are documented to.
  pub modify_field-allows :
      (doc modifier : Json) (field : Bytes) (m : Modification)
      → is_present (modify_field lib doc modifier field m)
        ≡ allows (json_lookupn lib doc field ((last_slash field).0)) ((last_slash field).1) m
  unfolding modify_field
  modify_field-allows doc modifier field m =
      field_lem (json_lookupn lib doc field ((last_slash field).0)) modifier ((last_slash field).1)
        m _
