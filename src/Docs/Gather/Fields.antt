-- ===== src/Docs/Gather/Fields.antt =====
-- The bits that one document's loop over the fields leaves.
use ukv.Prelude.{
  ℕ, zero, suc, ◌+◌, ◌*◌, ◌<◌, ◌≡◌, ◌≢◌, ◌⊎◌, ==_iff, refl, sym, ap, subst, ◌∙◌, Bool, false, inl,
  inr, some, List, [], ◌∷◌, arith, length, length-set, set, get_elem?, ◌==◌, Bool-cases,
}
use ukv.Docs.{Bytes, Json}
use ukv.Docs.Numbers.{ScalarType}
use ukv.Docs.Columns.{Floats, Verdict, Column, Cells, mark, set_scalar, set_str}
use ukv.Docs.Columns.Marks.{IsInside, mark-other, set_scalar_lem, is_exported}
use ukv.Docs.Gather.{
  GatherArg, bytes_for_bitmaps, column_at, Field, Tape, Exported, as_scalar, as_string,
  not_exported, exported_as, json_lookup, export, gather_field, gather_fields,
}
use ukv.Docs.Gather.Bitmaps.{IsOwn, column_at-IsOwn, column_at-IsInside}

length-mark :
    (column : Column) (doc_idx : ℕ) (v : Verdict) (bits : List Bool)
    → length (mark column doc_idx v bits) ≡ length bits
unfolding mark
length-mark column doc_idx v bits =
    let once = set bits (column.conversions + doc_idx) v.convert in
    length-set (set once (column.collisions + doc_idx) v.collide) (column.validities + doc_idx)
      v.valid
    ∙ length-set once (column.collisions + doc_idx) v.collide
    ∙ length-set bits (column.conversions + doc_idx) v.convert

-- The bit is none of the three that a column is written to for a document.
abbrev IsElse : Column → ℕ → ℕ → Type 0
IsElse column doc_idx place =
    (((column.validities + doc_idx) == place) ≡ false)
    × (((column.conversions + doc_idx) == place) ≡ false)
    × (((column.collisions + doc_idx) == place) ≡ false)

module _ (floats : Floats) (behind : Bytes) where
  module _ (column : Column) (doc_idx : ℕ) (value : Json) (is_last : Bool) (cells : Cells)
      (output : Bytes) where
    length-export :
        (kind : Exported)
        → length ((export floats behind kind column doc_idx value is_last cells output).0.bits)
          ≡ length cells.bits
    unfolding export set_scalar set_str
    length-export (as_scalar type) = length-mark column doc_idx _ cells.bits
    length-export (as_string separated) = length-mark column doc_idx _ cells.bits
    length-export not_exported = refl

    export-other :
        (kind : Exported) (place : ℕ)
        → IsElse column doc_idx place
        → get_elem?
            ((export floats behind kind column doc_idx value is_last cells output).0.bits)
            place
          ≡ get_elem? cells.bits place
    unfolding export set_scalar set_str
    export-other (as_scalar type) place h = mark-other column doc_idx _ cells.bits place h.0 h.1 h.2
    export-other (as_string separated) place h =
        mark-other column doc_idx _ cells.bits place h.0 h.1 h.2
    export-other not_exported place h = refl

    export-valid :
        (type : ScalarType) (kind : Exported)
        → kind ≡ as_scalar type
        → IsInside column doc_idx cells.bits
        → get_elem?
            ((export floats behind kind column doc_idx value is_last cells output).0.bits)
            (column.validities + doc_idx)
          ≡ some (is_exported floats type value)
    unfolding export
    export-valid type kind e inside =
        subst
          (λ k.
            get_elem? ((export floats behind k column doc_idx value is_last cells output).0.bits)
              (column.validities + doc_idx)
            ≡ some (is_exported floats type value))
          (sym e) ((set_scalar_lem floats type column doc_idx value cells inside).0)

  module _ (pointer get_key : Json → Bytes → Json) (c : GatherArg) where
    abbrev pub HasBitmaps : Tape → Type 0
    HasBitmaps tape = length tape.bits ≡ bytes_for_bitmaps c * 8

    module _ (doc_idx : ℕ) (root : Json) (field_idx : ℕ) (f : Field) (tape : Tape) where
      abbrev next : Tape
      next = gather_field floats behind pointer get_key c doc_idx root field_idx f tape

      gather_field-HasBitmaps : HasBitmaps tape → HasBitmaps next
      unfolding gather_field
      gather_field-HasBitmaps h =
          length-export (column_at c field_idx) doc_idx _ _ _ tape.output (exported_as f.type) ∙ h

      gather_field-other :
          (place : ℕ)
          → IsElse (column_at c field_idx) doc_idx place
          → get_elem? next.bits place ≡ get_elem? tape.bits place
      unfolding gather_field
      gather_field-other place h =
          export-other (column_at c field_idx) doc_idx _ _ _ tape.output (exported_as f.type) place
            h

      gather_field-valid :
          (type : ScalarType)
          → HasBitmaps tape
          → field_idx < length c.types
          → doc_idx < c.docs_count
          → exported_as f.type ≡ as_scalar type
          → get_elem? next.bits ((column_at c field_idx).validities + doc_idx)
            ≡ some (is_exported floats type (json_lookup pointer get_key root f.name))
      unfolding gather_field
      gather_field-valid type sized h k e =
          export-valid (column_at c field_idx) doc_idx _ _ _ tape.output type (exported_as f.type) e
            (column_at-IsInside c tape.bits field_idx doc_idx sized h k)

    -- A bit of the first bitmaps is apart from the columns of any other field or document.
    IsOwn-IsElse :
        (j i field_idx doc_idx : ℕ)
        → IsOwn c j i
        → doc_idx < c.docs_count
        → (j ≢ field_idx) ⊎ (i ≢ doc_idx)
        → IsElse (column_at c field_idx) doc_idx ((column_at c j).validities + i)
    IsOwn-IsElse j i field_idx doc_idx own k differs =
        let place = (column_at c j).validities + i in
        let apart : (p : ℕ)
            → (p + doc_idx ≡ place → (j ≡ field_idx) × (i ≡ doc_idx))
            → ((p + doc_idx) == place) ≡ false =
          λ p back. elim (Bool-cases ((p + doc_idx) == place)) [
            | inr e ↦ e
            | inl e ↦
                let (same, same') = back ((==_iff (p + doc_idx) place).0 e) in
                elim differs [ inl n ↦ absurd (n same) | inr n ↦ absurd (n same') ]
          ] in
        (
          apart _ (own.by_validities field_idx doc_idx k),
          apart _ (own.by_conversions field_idx doc_idx k),
          apart _ (own.by_collisions field_idx doc_idx k),
        )

    module _ (doc_idx : ℕ) (root : Json) where
      pub gather_fields-HasBitmaps :
          (fields : List Field) (field_idx : ℕ) (tape : Tape)
          → HasBitmaps tape
          → HasBitmaps
              (gather_fields floats behind pointer get_key c doc_idx root field_idx fields tape)
      unfolding gather_fields
      gather_fields-HasBitmaps [] field_idx tape h = h
      gather_fields-HasBitmaps (f ∷ fields) field_idx tape h =
          gather_fields-HasBitmaps fields (field_idx + 1) _
            (gather_field-HasBitmaps doc_idx root field_idx f tape h)

      -- The columns of later fields, or of any field for another document, leave the bit.
      pub gather_fields-other :
          (fields : List Field) (field_idx : ℕ) (tape : Tape) (j i : ℕ)
          → IsOwn c j i
          → doc_idx < c.docs_count
          → (j < field_idx) ⊎ (i ≢ doc_idx)
          → get_elem?
              (gather_fields floats behind pointer get_key c doc_idx root field_idx fields
                tape).bits
              ((column_at c j).validities + i)
            ≡ get_elem? tape.bits ((column_at c j).validities + i)
      unfolding gather_fields
      gather_fields-other [] field_idx tape j i own k differs = refl
      gather_fields-other (f ∷ fields) field_idx tape j i own k differs =
          gather_fields-other fields (field_idx + 1) _ j i own k
            (elim differs [ inl lt ↦ inl (omega arith) | inr n ↦ inr n ])
          ∙ gather_field-other doc_idx root field_idx f tape _ (
              IsOwn-IsElse j i field_idx doc_idx own k
                (elim differs [ inl lt ↦ inl (λ e. omega arith) | inr n ↦ inr n ]))

      pub gather_fields-valid :
          (fields : List Field) (field_idx m j : ℕ) (tape : Tape) (f : Field) (type : ScalarType)
          → HasBitmaps tape
          → doc_idx < c.docs_count
          → j ≡ field_idx + m
          → j < length c.types
          → get_elem? fields m ≡ some f
          → exported_as f.type ≡ as_scalar type
          → get_elem?
              (gather_fields floats behind pointer get_key c doc_idx root field_idx fields
                tape).bits
              ((column_at c j).validities + doc_idx)
            ≡ some (is_exported floats type (json_lookup pointer get_key root f.name))
      unfolding gather_fields
      gather_fields-valid [] field_idx m j tape f type sized k at h found e = cc
      gather_fields-valid (g ∷ fields) field_idx zero j tape f type sized k at h found e =
          let same : g ≡ f = cc in
          let here : field_idx ≡ j = omega arith in
          let tape' = next doc_idx root field_idx g tape in
          gather_fields-other fields (field_idx + 1) tape' j doc_idx
            (column_at-IsOwn c j doc_idx h k) k (inl (omega arith))
          ∙ subst
              (λ i.
                get_elem? tape'.bits ((column_at c i).validities + doc_idx)
                ≡ some (is_exported floats type (json_lookup pointer get_key root f.name)))
              here
              (gather_field-valid doc_idx root field_idx g tape type sized (omega arith) k
                  (ap (λ x. exported_as x.type) same ∙ e)
                ∙ ap (λ x. some (is_exported floats type (json_lookup pointer get_key root x.name)))
                    same)
      gather_fields-valid (g ∷ fields) field_idx (suc m) j tape f type sized k at h found e =
          gather_fields-valid fields (field_idx + 1) m j _ f type
            (gather_field-HasBitmaps doc_idx root field_idx g tape sized) k (omega arith) h found e
