-- ===== src/Docs/Gather/Validities.antt =====
-- The validity bits that the loops of `ukv_docs_gather` leave.
use ukv.Prelude.{
  ℕ, zero, suc, ◌+◌, ◌≤◌, ◌<◌, ◌≡◌, refl, sym, ap, ◌∙◌, inl, inr, Option, none, some, List, [], ◌∷◌,
  arith, length, get_elem?, get_elem?-lt, Option-cases,
}
use ukv.Docs.{Bytes, Json}
use ukv.Docs.Numbers.{ScalarType}
use ukv.Docs.Columns.{Floats}
use ukv.Docs.Columns.Marks.{is_exported}
use ukv.Docs.Gather.{
  GatherArg, column_at, Field, Tape, as_scalar, exported_as, json_lookup, gather_fields,
  gather_docs,
}
use ukv.Docs.Gather.Bitmaps.{IsOwn, column_at-IsOwn}
use ukv.Docs.Gather.Fields.{
  HasBitmaps, gather_fields-HasBitmaps, gather_fields-other, gather_fields-valid,
}

module _ (floats : Floats) (behind : Bytes) where
  module _ (pointer get_key : Json → Bytes → Json) (c : GatherArg) where
    module _ (parse : Bytes → Option Json) (fields : List Field) where
      abbrev pub gather : ℕ → List Bytes → Tape → Option Tape
      gather = gather_docs floats behind pointer get_key c parse fields

      gather_docs-other :
          (docs : List Bytes) (doc_idx : ℕ) (tape tape' : Tape) (j i : ℕ)
          → IsOwn c j i
          → i < doc_idx
          → doc_idx + length docs ≤ c.docs_count
          → gather doc_idx docs tape ≡ some tape'
          → get_elem? tape'.bits ((column_at c j).validities + i)
            ≡ get_elem? tape.bits ((column_at c j).validities + i)
      unfolding gather_docs
      gather_docs-other [] doc_idx tape tape' j i own lt fits ran =
          let same : tape ≡ tape' = cc in
          ap (λ t. get_elem? t.bits ((column_at c j).validities + i)) (sym same)
      gather_docs-other ([] ∷ docs) doc_idx tape tape' j i own lt fits ran =
          gather_docs-other docs (doc_idx + 1) tape tape' j i own (omega arith) (omega arith) ran
      gather_docs-other ((b ∷ doc) ∷ docs) doc_idx tape tape' j i own lt fits ran =
          elim (Option-cases (parse (b ∷ doc))) [
            | inl e ↦
                let opened : gather doc_idx ((b ∷ doc) ∷ docs) tape ≡ none =
                  rw (e, gather_docs) refl in
                cc
            | inr (root, e) ↦
                let tape'' =
                  gather_fields floats behind pointer get_key c doc_idx root 0 fields tape in
                let opened : gather doc_idx ((b ∷ doc) ∷ docs) tape
                    ≡ gather (doc_idx + 1) docs tape'' =
                  rw (e, gather_docs) refl in
                gather_docs-other docs (doc_idx + 1) tape'' tape' j i own (omega arith)
                  (omega arith) (sym opened ∙ ran)
                ∙ gather_fields-other floats behind pointer get_key c doc_idx root fields 0 tape j i
                    own (omega arith) (inr (λ eq. omega arith))
          ]

      gather_docs-valid :
          (docs : List Bytes) (doc_idx m i : ℕ) (tape tape' : Tape) (b : ℕ) (doc : Bytes)
          (root : Json) (j : ℕ) (f : Field) (type : ScalarType)
          → HasBitmaps floats behind pointer get_key c tape
          → doc_idx + length docs ≤ c.docs_count
          → i ≡ doc_idx + m
          → get_elem? docs m ≡ some (b ∷ doc)
          → parse (b ∷ doc) ≡ some root
          → j < length c.types
          → get_elem? fields j ≡ some f
          → exported_as f.type ≡ as_scalar type
          → gather doc_idx docs tape ≡ some tape'
          → get_elem? tape'.bits ((column_at c j).validities + i)
            ≡ some (is_exported floats type (json_lookup pointer get_key root f.name))
      unfolding gather_docs
      gather_docs-valid [] doc_idx m i tape tape' b doc root j f type sized fits at here p h found e
            ran =
          cc
      gather_docs-valid ([] ∷ docs) doc_idx zero i tape tape' b doc root j f type sized fits at here
            p h found e ran =
          cc
      gather_docs-valid ([] ∷ docs) doc_idx (suc m) i tape tape' b doc root j f type sized fits at
            here p h found e ran =
          gather_docs-valid docs (doc_idx + 1) m i tape tape' b doc root j f type sized
            (omega arith) (omega arith) here p h found e ran
      gather_docs-valid ((x ∷ xs) ∷ docs) doc_idx zero i tape tape' b doc root j f type sized fits
            at here p h found e ran =
          let same : x ∷ xs ≡ b ∷ doc = cc in
          let tape'' = gather_fields floats behind pointer get_key c doc_idx root 0 fields tape in
          let parsed : parse (x ∷ xs) ≡ some root = ap parse same ∙ p in
          let opened : gather doc_idx ((x ∷ xs) ∷ docs) tape ≡ gather (doc_idx + 1) docs tape'' =
            rw (parsed, gather_docs) refl in
          let now : i ≡ doc_idx = omega arith in
          gather_docs-other docs (doc_idx + 1) tape'' tape' j i
            (column_at-IsOwn c j i h (omega arith)) (omega arith) (omega arith) (sym opened ∙ ran)
          ∙ ap (λ n. get_elem? tape''.bits ((column_at c j).validities + n)) now
          ∙ gather_fields-valid floats behind pointer get_key c doc_idx root fields 0 j j tape f
              type sized (omega arith) (omega arith) h found e
      gather_docs-valid ((x ∷ xs) ∷ docs) doc_idx (suc m) i tape tape' b doc root j f type sized
            fits at here p h found e ran =
          elim (Option-cases (parse (x ∷ xs))) [
            | inl none_there ↦
                let opened : gather doc_idx ((x ∷ xs) ∷ docs) tape ≡ none =
                  rw (none_there, gather_docs) refl in
                cc
            | inr (before, there) ↦
                let tape'' =
                  gather_fields floats behind pointer get_key c doc_idx before 0 fields tape in
                let opened : gather doc_idx ((x ∷ xs) ∷ docs) tape
                    ≡ gather (doc_idx + 1) docs tape'' =
                  rw (there, gather_docs) refl in
                gather_docs-valid docs (doc_idx + 1) m i tape'' tape' b doc root j f type
                  (gather_fields-HasBitmaps floats behind pointer get_key c doc_idx before fields 0
                    tape sized)
                  (omega arith) (omega arith) here p h found e (sym opened ∙ ran)
          ]

      -- Every document that is there can be parsed.
      abbrev pub AllParse : List Bytes → Type 0
      AllParse [] = Unit {0}
      AllParse ([] ∷ docs) = AllParse docs
      AllParse ((b ∷ doc) ∷ docs) = ((root : Json) × (parse (b ∷ doc) ≡ some root)) × AllParse docs

      gather_docs-total :
          (docs : List Bytes) (doc_idx : ℕ) (tape : Tape)
          → AllParse docs
          → (tape' : Tape) × (gather doc_idx docs tape ≡ some tape')
      unfolding gather_docs
      gather_docs-total [] doc_idx tape h = (tape, refl)
      gather_docs-total ([] ∷ docs) doc_idx tape h = gather_docs-total docs (doc_idx + 1) tape h
      gather_docs-total ((b ∷ doc) ∷ docs) doc_idx tape h =
          let ((root, e), later) = h in
          let tape'' = gather_fields floats behind pointer get_key c doc_idx root 0 fields tape in
          let opened : gather doc_idx ((b ∷ doc) ∷ docs) tape ≡ gather (doc_idx + 1) docs tape'' =
            rw (e, gather_docs) refl in
          let (tape', ran) = gather_docs-total docs (doc_idx + 1) tape'' later in
          (tape', opened ∙ ran)

      -- If the documents that are there can all be parsed, the gathering ends without an error, and
      -- then for every one of them and every field of scalars the validity bit is on exactly if the
      -- field's value in that document is a boolean, a number, whether or not it fits the column, or
      -- a text that `parse_entire_number` takes for the column's type: whichever of the other bitmaps
      -- were asked for or are the first ones, and whatever the fields' types and order are.
      pub gather_docs_lem :
          (docs : List Bytes) (tape : Tape)
          → length docs ≡ c.docs_count
          → length fields ≡ length c.types
          → HasBitmaps floats behind pointer get_key c tape
          → AllParse docs
          → (tape' : Tape) × (gather 0 docs tape ≡ some tape')
            × ((i j b : ℕ) (doc : Bytes) (root : Json) (f : Field) (type : ScalarType)
                → get_elem? docs i ≡ some (b ∷ doc)
                → parse (b ∷ doc) ≡ some root
                → get_elem? fields j ≡ some f
                → exported_as f.type ≡ as_scalar type
                → get_elem? tape'.bits ((column_at c j).validities + i)
                  ≡ some (is_exported floats type (json_lookup pointer get_key root f.name)))
      gather_docs_lem docs tape sized typed h all =
          let (tape', ran) = gather_docs-total docs 0 tape all in
          (
            tape',
            ran,
            λ i j b doc root f type here p found e.
                gather_docs-valid docs 0 i i tape tape' b doc root j f type h (omega arith)
                  (omega arith) here p (omega (arith, get_elem?-lt fields j found)) found e ran,
          )
