-- ===== src/Docs/Columns/Marks.antt =====
-- The bits that a column's `set` and `set_str` leave in the bitmaps, which may be the same ones.
use ukv.Prelude.{
  ℕ, ◌+◌, ◌<◌, ◌≡◌, refl, ap, ◌∙◌, Bool, true, false, not, ◌&&◌, ◌||◌, some, List, [], ◌∷◌, arith,
  length, length-set, set, get_elem?, get_elem?-set_same, get_elem?-set_other, ◌==◌, if◌then◌else◌,
}
use ukv.Docs.{Bytes, Json, missing, null_value, bool_value, uint, sint, real, str, arr, obj}
use ukv.Docs.Numbers.{
  ScalarType, bool_scalar, unsigned, signed, floating, parse_entire_number, from_chars,
  from_chars_signed, bytes_equal, true_text, false_text,
}
use ukv.Docs.Columns.{
  Floats, Verdict, json_to_scalar, Column, Cells, mark, set_scalar, cell, exported, collided,
  is_bool, is_unsigned, is_signed_integral, is_floating_point,
}

-- The bits of one column in three bitmaps of `size` bits at most, which lie apart or are the same.
pub record IsInside (column : Column) (doc_idx : ℕ) (bits : List Bool) : Type 0 where
  pub valid_fits : column.validities + doc_idx < length bits
  pub convert_fits : column.conversions + doc_idx < length bits
  pub collide_fits : column.collisions + doc_idx < length bits

module _ (column : Column) (doc_idx : ℕ) (v : Verdict) (bits : List Bool) where
  pub mark-valid :
      IsInside column doc_idx bits
      → get_elem? (mark column doc_idx v bits) (column.validities + doc_idx) ≡ some v.valid
  unfolding mark
  mark-valid h =
      let once = set bits (column.conversions + doc_idx) v.convert in
      let twice = set once (column.collisions + doc_idx) v.collide in
      let fits : column.validities + doc_idx < length twice = omega (
        arith,
        length-set once (column.collisions + doc_idx) v.collide,
        length-set bits (column.conversions + doc_idx) v.convert,
        h.valid_fits,
      ) in
      get_elem?-set_same twice (column.validities + doc_idx) v.valid fits

  pub mark-other :
      (i : ℕ)
      → ((column.validities + doc_idx) == i) ≡ false
      → ((column.conversions + doc_idx) == i) ≡ false
      → ((column.collisions + doc_idx) == i) ≡ false
      → get_elem? (mark column doc_idx v bits) i ≡ get_elem? bits i
  unfolding mark
  mark-other i p q r =
      get_elem?-set_other _ _ i v.valid p
      ∙ get_elem?-set_other _ _ i v.collide r
      ∙ get_elem?-set_other bits _ i v.convert q

  pub mark-collide :
      IsInside column doc_idx bits
      → ((column.validities + doc_idx) == (column.collisions + doc_idx)) ≡ false
      → get_elem? (mark column doc_idx v bits) (column.collisions + doc_idx) ≡ some v.collide
  unfolding mark
  mark-collide h p =
      let once = set bits (column.conversions + doc_idx) v.convert in
      let fits : column.collisions + doc_idx < length once =
        omega (arith, length-set bits (column.conversions + doc_idx) v.convert, h.collide_fits) in
      get_elem?-set_other _ _ _ v.valid p
      ∙ get_elem?-set_same once (column.collisions + doc_idx) v.collide fits

  pub mark-convert :
      IsInside column doc_idx bits
      → ((column.validities + doc_idx) == (column.conversions + doc_idx)) ≡ false
      → ((column.collisions + doc_idx) == (column.conversions + doc_idx)) ≡ false
      → get_elem? (mark column doc_idx v bits) (column.conversions + doc_idx) ≡ some v.convert
  unfolding mark
  mark-convert h p q =
      get_elem?-set_other _ _ _ v.valid p
      ∙ get_elem?-set_other _ _ _ v.collide q
      ∙ get_elem?-set_same bits _ v.convert h.convert_fits

abbrev pub is_null : Json → Bool
is_null null_value = true
is_null _ = false

-- The values that are exported: booleans, numbers of any kind and magnitude, also those that do not
-- fit the column and are cast, and the texts that the column's parser takes.
abbrev converts : (Bytes → Bool) → Json → Bool
converts parses (bool_value b) = true
converts parses (uint n) = true
converts parses (sint n) = true
converts parses (real x) = true
converts parses (str text) = parses text
converts parses _ = false

-- Whether the value's type is the column's, so that nothing is converted.
abbrev pub is_exact : ScalarType → Json → Bool
is_exact type (bool_value b) = is_bool type
is_exact type (uint n) = is_unsigned type
is_exact type (sint n) = is_signed_integral type
is_exact type (real x) = is_floating_point type
is_exact type _ = false

from_chars-result :
    (bits : ℕ) (text : Bytes) (a b : ℕ) → (from_chars bits text a).0 ≡ (from_chars bits text b).0
unfolding from_chars
from_chars-result bits [] a b = refl
from_chars-result bits (x ∷ text) a b = ground arith

from_chars_signed-result :
    (bits : ℕ) (text : Bytes) (a b : ℕ)
    → (from_chars_signed bits text a).0 ≡ (from_chars_signed bits text b).0
unfolding from_chars_signed
from_chars_signed-result bits [] a b = refl
from_chars_signed-result bits (x ∷ text) a b = ground arith

abbrev bool_verdict : Bool → Bool → ℕ → Bool × ℕ
bool_verdict told known a = if known then (true, if told then 1 else 0) else (false, a)

bool_verdict-result :
    (told known : Bool) (a b : ℕ) → (bool_verdict told known a).0 ≡ (bool_verdict told known b).0
bool_verdict-result told true a b = refl
bool_verdict-result told false a b = refl

parse_entire_number-result :
    (strto : ℕ → Bytes → ℕ × ℕ) (type : ScalarType) (text : Bytes) (a b : ℕ)
    → (parse_entire_number strto type text a).0 ≡ (parse_entire_number strto type text b).0
unfolding parse_entire_number
parse_entire_number-result strto bool_scalar text a b =
    bool_verdict-result (bytes_equal text true_text)
      (bytes_equal text true_text || bytes_equal text false_text) a b
parse_entire_number-result strto (unsigned bits) text a b = from_chars-result bits text a b
parse_entire_number-result strto (signed bits) text a b = from_chars_signed-result bits text a b
parse_entire_number-result strto (floating bits) text a b = refl

verdict-valid : (b : Bool) → (if b then exported true else collided).valid ≡ b
verdict-valid true = refl
verdict-valid false = refl

verdict-collide : (b : Bool) → (if b then exported true else collided).collide ≡ (not b && true)
verdict-collide true = refl
verdict-collide false = refl

verdict-convert : (b : Bool) → (if b then exported true else collided).convert ≡ (b && true)
verdict-convert true = refl
verdict-convert false = refl

module _ (floats : Floats) (type : ScalarType) where
  abbrev pub is_exported : Json → Bool
  is_exported = converts (λ text. (parse_entire_number floats.strto type text 0).0)

  json_to_scalar_lem :
      (value : Json) (scalar : ℕ)
      → ((json_to_scalar floats type value scalar).0.valid ≡ is_exported value)
        × ((json_to_scalar floats type value scalar).0.collide
            ≡ (not (is_exported value) && not (is_null value)))
        × ((json_to_scalar floats type value scalar).0.convert
            ≡ (is_exported value && not (is_exact type value)))
  unfolding json_to_scalar
  json_to_scalar_lem null_value scalar = (refl, refl, refl)
  json_to_scalar_lem missing scalar = (refl, refl, refl)
  json_to_scalar_lem (bool_value b) scalar = (refl, refl, refl)
  json_to_scalar_lem (uint n) scalar = (refl, refl, refl)
  json_to_scalar_lem (sint n) scalar = (refl, refl, refl)
  json_to_scalar_lem (real x) scalar = (refl, refl, refl)
  json_to_scalar_lem (arr items) scalar = (refl, refl, refl)
  json_to_scalar_lem (obj fields) scalar = (refl, refl, refl)
  json_to_scalar_lem (str text) scalar =
      let same = parse_entire_number-result floats.strto type text scalar 0 in
      let parsed = (parse_entire_number floats.strto type text scalar).0 in
      (
        verdict-valid parsed ∙ same,
        verdict-collide parsed ∙ ap (λ b. not b && true) same,
        verdict-convert parsed ∙ ap (λ b. b && true) same,
      )

  -- Where the three bits of a document lie inside the tape, `set` leaves its validity bit on exactly
  -- for a boolean, for a number, whether or not it fits the column, and for a text that
  -- `parse_entire_number` takes for the column's type, also where the other bitmaps are the same one.
  -- In bitmaps of its own, the collision bit is on for every other value but null, and the
  -- conversion bit for a valid value unless it is a boolean in a column of booleans, an unsigned
  -- number in an unsigned column or one of booleans, a negative one in a signed column, or a real
  -- one in a floating column. No other bit of the tape changes.
  pub set_scalar_lem :
      (column : Column) (doc_idx : ℕ) (value : Json) (cells : Cells)
      → IsInside column doc_idx cells.bits
      → (get_elem?
            (set_scalar floats type column doc_idx value cells).bits
            (column.validities + doc_idx)
          ≡ some (is_exported value))
        × (((column.validities + doc_idx) == (column.collisions + doc_idx)) ≡ false
            → get_elem?
                (set_scalar floats type column doc_idx value cells).bits
                (column.collisions + doc_idx)
              ≡ some (not (is_exported value) && not (is_null value)))
        × (((column.validities + doc_idx) == (column.conversions + doc_idx)) ≡ false
            → ((column.collisions + doc_idx) == (column.conversions + doc_idx)) ≡ false
            → get_elem?
                (set_scalar floats type column doc_idx value cells).bits
                (column.conversions + doc_idx)
              ≡ some (is_exported value && not (is_exact type value)))
        × ((i : ℕ)
            → ((column.validities + doc_idx) == i) ≡ false
            → ((column.conversions + doc_idx) == i) ≡ false
            → ((column.collisions + doc_idx) == i) ≡ false
            → get_elem? (set_scalar floats type column doc_idx value cells).bits i
              ≡ get_elem? cells.bits i)
  unfolding set_scalar
  set_scalar_lem column doc_idx value cells inside =
      let (valid, collide, convert) = json_to_scalar_lem value (cell cells.scalars doc_idx) in
      (
        mark-valid column doc_idx _ cells.bits inside ∙ ap some valid,
        λ p. mark-collide column doc_idx _ cells.bits inside p ∙ ap some collide,
        λ p q. mark-convert column doc_idx _ cells.bits inside p q ∙ ap some convert,
        λ i p q r. mark-other column doc_idx _ cells.bits i p q r,
      )
