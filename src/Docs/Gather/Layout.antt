-- ===== src/Docs/Gather/Layout.antt =====
-- Where the columns lie on the tape of `ukv_docs_gather`, and what is allocated for them.
use ukv.Prelude.{
  ℕ, zero, suc, ◌+◌, ◌*◌, ◌≤◌, ◌≡◌, refl, sym, ap, ◌∙◌, true, none, some, List, [], ◌∷◌, ◌++◌,
  arith, length, get_elem?, if◌then◌else◌, inl, inr, Bool-cases,
}
use ukv.Ranges.{transform_reduce_n}
use ukv.Docs.{FieldType, doc_field_size_bytes, doc_field_is_variable_length}
use ukv.Docs.Gather.{
  GatherArg, bytes_for_addresses, bytes_for_bitmaps, tape_length, Addresses, addresses_of,
  addresses_from, columns_addresses,
}

-- The first byte of a column's region, and the one behind the last that its documents take: a column
-- of strings has the lengths behind the offsets.
abbrev pub region_begin : Addresses → ℕ
region_begin a = elim a.offs [
  | some place ↦ place
  | none ↦ elim a.scalars [ none ↦ 0 | some place ↦ place ]
]

abbrev pub region_end : ℕ → FieldType → Addresses → ℕ
region_end docs_count type a = elim a.lens [
  | some place ↦ place + 4 * docs_count
  | none ↦ elim a.scalars [ none ↦ 0 | some place ↦ place + doc_field_size_bytes type * docs_count ]
]

abbrev sum_of_sizes : List FieldType → ℕ
sum_of_sizes [] = 0
sum_of_sizes (type ∷ types) = doc_field_size_bytes type + sum_of_sizes types

addresses_from-last :
    (docs_count : ℕ) (types : List FieldType) (type : FieldType) (scalars_tape : ℕ)
    → get_elem? (addresses_from docs_count (types ++ (type ∷ [])) scalars_tape) (length types)
      ≡ some (
          addresses_of docs_count type
            (scalars_tape + (sum_of_sizes types * docs_count + 4 * length types)))
unfolding addresses_from
addresses_from-last docs_count [] type scalars_tape =
    ap (λ n. some (addresses_of docs_count type n)) (omega arith)
addresses_from-last docs_count (t ∷ types) type scalars_tape =
    addresses_from-last docs_count types type _
    ∙ ap (λ n. some (addresses_of docs_count type n)) (omega arith)

transform_reduce_n-sizes :
    (types : List FieldType) (init : ℕ)
    → transform_reduce_n types init doc_field_size_bytes ≡ init + sum_of_sizes types
unfolding transform_reduce_n
transform_reduce_n-sizes [] init = omega arith
transform_reduce_n-sizes (t ∷ types) init =
    transform_reduce_n-sizes types (init + doc_field_size_bytes t) ∙ omega arith

sum_of_sizes-append :
    (types : List FieldType) (type : FieldType)
    → sum_of_sizes (types ++ (type ∷ [])) ≡ sum_of_sizes types + doc_field_size_bytes type
sum_of_sizes-append [] type = omega arith
sum_of_sizes-append (t ∷ types) type = omega (arith, sum_of_sizes-append types type)

size_of_variable :
    (type : FieldType) → doc_field_is_variable_length type ≡ true → doc_field_size_bytes type ≡ 8
unfolding doc_field_is_variable_length doc_field_size_bytes
size_of_variable type h = ground arith

abbrev pub gap_of : FieldType → ℕ
gap_of type = if doc_field_is_variable_length type then 4 else 0

-- A column takes its sizes' bytes, and one of strings four more.
addresses_of-region :
    (docs_count place : ℕ) (type : FieldType)
    → (region_begin (addresses_of docs_count type place) ≡ place)
      × (region_end docs_count type (addresses_of docs_count type place)
          ≡ place + doc_field_size_bytes type * docs_count + gap_of type)
unfolding addresses_of
addresses_of-region docs_count place type = elim (Bool-cases (doc_field_is_variable_length type)) [
  | inl e ↦ (rw e refl, rw e (omega (arith, ap (λ n. n * docs_count) (size_of_variable type e))))
  | inr e ↦ (rw e refl, rw e (omega arith))
]

gap_of-le : (type : FieldType) → gap_of type ≤ 4
gap_of-le type = ground arith

addresses_from-apart :
    (docs_count : ℕ) (types : List FieldType) (scalars_tape i : ℕ) (t : FieldType) (a b : Addresses)
    → get_elem? types i ≡ some t
    → get_elem? (addresses_from docs_count types scalars_tape) i ≡ some a
    → get_elem? (addresses_from docs_count types scalars_tape) (suc i) ≡ some b
    → region_end docs_count t a ≤ region_begin b
unfolding addresses_from
addresses_from-apart docs_count [] scalars_tape i t a b p q r = cc
addresses_from-apart docs_count (x ∷ []) scalars_tape zero t a b p q r = cc
addresses_from-apart docs_count (x ∷ y ∷ types) scalars_tape zero t a b p q r =
    let place = scalars_tape + (doc_field_size_bytes x * docs_count + 4) in
    let first : a ≡ addresses_of docs_count t scalars_tape = cc in
    let second : b ≡ addresses_of docs_count y place = cc in
    let same : x ≡ t = cc in
    let (starts, ends) = addresses_of-region docs_count scalars_tape t in
    let (starts', ends') = addresses_of-region docs_count place y in
    let begins : region_begin b ≡ place = ap region_begin second ∙ starts' in
    let stops : region_end docs_count t a
        ≡ scalars_tape + doc_field_size_bytes t * docs_count + gap_of t =
      ap (region_end docs_count t) first ∙ ends in
    omega (arith, gap_of-le t, ap (λ y. doc_field_size_bytes y * docs_count) same)
addresses_from-apart docs_count (x ∷ types) scalars_tape (suc i) t a b p q r =
    addresses_from-apart docs_count types _ i t a b p q r

abbrev columns_begin : GatherArg → ℕ
columns_begin c = bytes_for_addresses c + bytes_for_bitmaps c

columns_addresses-from :
    (c : GatherArg) → columns_addresses c ≡ addresses_from c.docs_count c.types (columns_begin c)
unfolding columns_addresses
columns_addresses-from c = refl

tape_length-sizes :
    (c : GatherArg) → tape_length c ≡ columns_begin c + sum_of_sizes c.types * c.docs_count
unfolding tape_length
tape_length-sizes c =
    let total : transform_reduce_n c.types 0 doc_field_size_bytes ≡ sum_of_sizes c.types =
      transform_reduce_n-sizes c.types 0 ∙ omega arith in
    ap (λ n. columns_begin c + n * c.docs_count) total

-- Of two columns that follow one another the second begins behind the first one's end. The last
-- column ends four bytes behind the tape for every column before it, and four more if it is one of
-- strings; so a single column of scalars is the only one that fits the bytes that are allocated.
pub columns_addresses_lem :
    (c : GatherArg) (before : List FieldType) (type : FieldType)
    → c.types ≡ before ++ (type ∷ [])
    → ((i : ℕ) (t : FieldType) (a b : Addresses)
        → get_elem? c.types i ≡ some t
        → get_elem? (columns_addresses c) i ≡ some a
        → get_elem? (columns_addresses c) (suc i) ≡ some b
        → region_end c.docs_count t a ≤ region_begin b)
      × ((a : Addresses) × (get_elem? (columns_addresses c) (length before) ≡ some a)
          × (region_end c.docs_count type a ≡ tape_length c + 4 * length before + gap_of type))
columns_addresses_lem c before type e =
    let from = columns_addresses-from c in
    let docs = c.docs_count in
    let size = doc_field_size_bytes type in
    let last =
      addresses_of docs type (columns_begin c + (sum_of_sizes before * docs + 4 * length before)) in
    let place =
      ap (λ rows. get_elem? rows (length before)) from
      ∙ ap (λ ts. get_elem? (addresses_from docs ts (columns_begin c)) (length before)) e
      ∙ addresses_from-last docs before type (columns_begin c) in
    let sum = ap (λ n. n * docs) (ap sum_of_sizes e ∙ sum_of_sizes-append before type) in
    (
      λ i t a b p q r.
          addresses_from-apart docs c.types (columns_begin c) i t a b p
            (ap (λ rows. get_elem? rows i) (sym from) ∙ q)
            (ap (λ rows. get_elem? rows (suc i)) (sym from) ∙ r),
      (
        last,
        place,
        omega (
          arith,
          (addresses_of-region docs
              (columns_begin c + (sum_of_sizes before * docs + 4 * length before)) type).1,
          tape_length-sizes c,
          sum,
        ),
      ),
    )
