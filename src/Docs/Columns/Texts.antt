-- ===== src/Docs/Columns/Texts.antt =====
-- The texts that a column's `set_str` leaves on the tape of strings, and how they are found there.
use ukv.Prelude.{
  ℕ, ◌+◌, ◌%◌, ◌^◌, ◌<◌, ◌≡◌, refl, ap, ◌∙◌, Bool, true, false, some, List, [], ◌∷◌, ◌++◌, arith,
  length, length-append, length-set, take, drop, append_assoc, set, get_elem?, get_elem?-set_same,
  get_elem?-set_other, if◌then◌else◌, drop-append_length, take-append_length,
}
use ukv.Docs.{Bytes, Json}
use ukv.Docs.Columns.{Floats, json_to_string, Column, Cells, set_str}

-- The text of a tape at an offset, of a length.
abbrev pub text_at : Bytes → ℕ → ℕ → Bytes
text_at tape offset size = take size (drop offset tape)

text_at-append :
    (before text after : Bytes)
    → text_at (before ++ (text ++ after)) (length before) (length text) ≡ text
text_at-append before text after =
    ap (take (length text)) (drop-append_length (length before) before (text ++ after) refl)
    ∙ take-append_length (length text) text after refl

small : (n : ℕ) → n < 2 ^ 32 → n % 2 ^ 32 ≡ n
small n h = omega arith

-- The offsets of a column after the offset of a document, and behind the last one the tape's end.
abbrev offsets_after : Bool → List ℕ → ℕ → ℕ → ℕ → List ℕ
offsets_after is_last offs doc_idx here end =
    if is_last then set (set offs doc_idx here) (doc_idx + 1) end else set offs doc_idx here

module _ (offs : List ℕ) (doc_idx here end : ℕ) where
  offsets_after-here :
      (is_last : Bool)
      → doc_idx < length offs
      → get_elem? (offsets_after is_last offs doc_idx here end) doc_idx ≡ some here
  offsets_after-here false h = get_elem?-set_same offs doc_idx here h
  offsets_after-here true h =
      get_elem?-set_other (set offs doc_idx here) (doc_idx + 1) doc_idx end (ground arith)
      ∙ get_elem?-set_same offs doc_idx here h

  offsets_after-next :
      (is_last : Bool)
      → doc_idx + 1 < length offs
      → is_last ≡ true
      → get_elem? (offsets_after is_last offs doc_idx here end) (doc_idx + 1) ≡ some end
  offsets_after-next false h e = cc
  offsets_after-next true h e =
      get_elem?-set_same (set offs doc_idx here) (doc_idx + 1) end
        (omega (arith, length-set offs doc_idx here))

  offsets_after-before :
      (is_last : Bool) (i : ℕ)
      → i < doc_idx
      → get_elem? (offsets_after is_last offs doc_idx here end) i ≡ get_elem? offs i
  offsets_after-before false i lt = get_elem?-set_other offs doc_idx i here (ground arith)
  offsets_after-before true i lt =
      get_elem?-set_other (set offs doc_idx here) (doc_idx + 1) i end (ground arith)
      ∙ get_elem?-set_other offs doc_idx i here (ground arith)

module _ (floats : Floats) (behind : Bytes) where
  abbrev pub text_of : Json → Bytes
  text_of value = (json_to_string floats behind value).1

  module _ (column : Column) (doc_idx : ℕ) (value : Json) (with_separator is_last : Bool)
      (cells : Cells) (output : Bytes) where
    abbrev pub written : Cells × Bytes
    written = set_str floats behind column doc_idx value with_separator is_last cells output

    -- While the tape of strings stays below 2 ^ 32 bytes, `set_str` leaves at the document's offset
    -- and length, which lie inside their arrays, the text of the value, also when the tape has grown
    -- by more; the last document has its tape's end behind its offset, and the offsets of the
    -- documents before are as they were.
    pub set_str_lem :
        doc_idx + 1 < length cells.str_offsets
        → doc_idx < length cells.str_lengths
        → length (written.1) < 2 ^ 32
        → (offset size : ℕ) × (get_elem? (written.0.str_offsets) doc_idx ≡ some offset)
          × (get_elem? (written.0.str_lengths) doc_idx ≡ some size)
          × ((more : Bytes) → text_at (written.1 ++ more) offset size ≡ text_of value)
          × (is_last ≡ true
              → get_elem? (written.0.str_offsets) (doc_idx + 1) ≡ some (length (written.1)))
          × ((i : ℕ)
              → i < doc_idx
              → get_elem? (written.0.str_offsets) i ≡ get_elem? cells.str_offsets i)
    unfolding set_str
    set_str_lem h k fits =
        let text : Bytes = text_of value in
        let tail : Bytes = if with_separator then 0 ∷ [] else [] in
        let all : length ((output ++ text) ++ tail) < 2 ^ 32 = fits in
        let total = length-append (output ++ text) tail in
        let part = length-append output text in
        let near : length output < 2 ^ 32 = omega arith in
        let short : length text < 2 ^ 32 = omega arith in
        let whole : ℕ = length ((output ++ text) ++ tail) in
        let offs = cells.str_offsets in
        (
          length output,
          length text,
          offsets_after-here offs doc_idx (length output % 2 ^ 32) (whole % 2 ^ 32) is_last
                (omega arith)
              ∙ ap some (small (length output) near),
          get_elem?-set_same cells.str_lengths doc_idx _ k ∙ ap some (small (length text) short),
          λ more.
              ap (λ t. text_at t (length output) (length text))
                (ap (λ t. t ++ more) (append_assoc output text tail)
                  ∙ append_assoc output (text ++ tail) more
                  ∙ ap (◌++◌ output) (append_assoc text tail more))
              ∙ text_at-append output text (tail ++ more),
          λ e.
              offsets_after-next offs doc_idx (length output % 2 ^ 32) (whole % 2 ^ 32) is_last h e
              ∙ ap some (small whole all),
          λ i lt.
              offsets_after-before offs doc_idx (length output % 2 ^ 32) (whole % 2 ^ 32) is_last i
                lt,
        )
