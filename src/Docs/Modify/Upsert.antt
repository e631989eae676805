-- ===== src/Docs/Modify/Upsert.antt =====
-- What `ukv_docs_write` leaves of whole documents that are upserted.
use ukv.Prelude.{
  ℕ, zero, suc, ◌+◌, ◌≡◌, refl, sym, ap, subst, ◌∙◌, Bool, true, false, not, ◌||◌, Option, none,
  some, List, [], ◌∷◌, arith, get_elem?, if◌then◌else◌, Bool-cases, inl, inr,
}
use ukv.Types.{CollectionKey, key_eq}
use ukv.Types.Order.{key_order, key_same_iff}
use ukv.Ranges.{contains}
use ukv.Umem.Entries.{Value}
use ukv.Umem.Blobs.Writes.{last_put}
use ukv.Paths.Bucket.{bytes_of}
use ukv.Docs.{Bytes, Json, FieldType}
use ukv.Docs.Updates.{Store, upsert, Fields, has_fields, needs_values, field_at, read_modify_write}
use ukv.Docs.Updates.Distinct.{IsDistinct}
use ukv.Docs.Updates.Written.{read_modify_write_lem, seen}
use ukv.Docs.Modify.{
  Trees, any_parse, safe_callback, task_doc, changed_doc, all_valid, task_pairs, is_json,
  docs_write, modify, json_parse,
}

-- Pairs of other keys leave a key's value.
task_pairs-other :
    (contents : ℕ → Value) (keys : List CollectionKey) (i : ℕ) (k : CollectionKey) (before : Value)
    → contains keys k ≡ false
    → last_put k before (task_pairs contents i keys) ≡ before
unfolding last_put task_pairs contains
task_pairs-other contents [] i k before h = refl
task_pairs-other contents (q ∷ keys) i k before h =
    let other : key_eq q k ≡ false = ground arith in
    ap (λ b. last_put k (if b then contents i else before) (task_pairs contents (i + 1) keys)) other
    ∙ task_pairs-other contents keys (i + 1) k before (ground arith)

task_pairs_lem :
    (contents : ℕ → Value) (keys : List CollectionKey) (i m n : ℕ) (k : CollectionKey)
    (before : Value)
    → IsDistinct keys
    → n ≡ i + m
    → get_elem? keys m ≡ some k
    → last_put k before (task_pairs contents i keys) ≡ contents n
unfolding last_put task_pairs
task_pairs_lem contents [] i m n k before d at p = cc
task_pairs_lem contents (x ∷ keys) i zero n k before d at p =
    let same : x ≡ k = cc in
    let here : i ≡ n = omega arith in
    ap (λ b. last_put k (if b then contents i else before) (task_pairs contents (i + 1) keys))
      ((key_same_iff x k).1 same)
    ∙ task_pairs-other contents keys (i + 1) k (contents i)
        (subst (λ z. contains keys z ≡ false) same d.0)
    ∙ ap contents here
task_pairs_lem contents (x ∷ keys) i (suc m) n k before d at p =
    task_pairs_lem contents keys (i + 1) m n k _ d.1 (omega arith) p

abbrev or_else {ℓ} : {A : Type ℓ} → A → Option A → A
or_else otherwise none = otherwise
or_else otherwise (some a) = a

module _ (lib : Trees) where
  all_valid_lem :
      (contents : ℕ → Value) (keys : List CollectionKey) (i m n : ℕ) (k : CollectionKey)
      → all_valid lib contents i keys ≡ true
      → n ≡ i + m
      → get_elem? keys m ≡ some k
      → lib.is_valid (bytes_of (contents n)) ≡ true
  unfolding all_valid
  all_valid_lem contents [] i m n k h at p = cc
  all_valid_lem contents (x ∷ keys) i zero n k h at p =
      let here : i ≡ n = omega arith in
      ap (λ j. lib.is_valid (bytes_of (contents j))) (sym here) ∙ ground arith
  all_valid_lem contents (x ∷ keys) i (suc m) n k h at p =
      all_valid_lem contents keys (i + 1) m n k (ground arith) (omega arith) p

  -- The content of a task, which is there and holds a document, and that document.
  abbrev pub Parsed : FieldType → Value → Bytes → Type 0
  Parsed type val doc =
      (content : Bytes) × (modifier : Json) × (val ≡ some content)
      × (any_parse lib type content ≡ some (some modifier))
      × (lib.write modifier ≡ doc)

  changed_doc-Parsed :
      (type : FieldType) (field : Option Bytes) (content doc : Bytes)
      (parsed : Option (Option Json))
      → any_parse lib type content ≡ parsed
      → changed_doc lib upsert field none parsed ≡ some doc
      → Parsed type (some content) doc
  unfolding modify
  changed_doc-Parsed type field content doc none e h = cc
  changed_doc-Parsed type field content doc (some none) e h = cc
  changed_doc-Parsed type field content doc (some (some modifier)) e h =
      let same : lib.write modifier ≡ doc = cc in (content, modifier, refl, e, same)

  task_doc-Parsed :
      (type : FieldType) (field : Option Bytes) (val : Value) (doc : Bytes)
      → task_doc lib upsert type field none val ≡ some doc
      → Parsed type val doc
  unfolding task_doc
  task_doc-Parsed type field none doc h = cc
  task_doc-Parsed type field (some content) doc h =
      changed_doc-Parsed type field content doc (any_parse lib type content) refl h

  safe_callback-Parsed :
      (contents : ℕ → Value) (type : FieldType) (i : ℕ) (field : Option Bytes) (doc : Bytes)
      → safe_callback lib contents type upsert i field [] ≡ some doc
      → Parsed type (contents i) doc
  unfolding safe_callback json_parse
  safe_callback-Parsed contents type i field doc h = task_doc-Parsed type field (contents i) doc h

  module _ (store : Store) (fields : Fields) (contents : ℕ → Value) where
    -- What is left at the key of a task: the content itself, if it has the format of the store, and
    -- else what the library writes of the document in the content.
    abbrev pub IsUpserted : FieldType → ℕ → Value → Type 0
    IsUpserted type i after =
        if is_json type
        then (after ≡ contents i) × (lib.is_valid (bytes_of (contents i)) ≡ true)
        else ((doc : Bytes) × (after ≡ some doc) × Parsed type (contents i) doc)

    modified-IsUpserted :
        (keys : List CollectionKey) (type : FieldType) (s s' : store.State)
        → has_fields fields ≡ false
        → is_json type ≡ false
        → IsDistinct keys
        → read_modify_write store (safe_callback lib contents type upsert) upsert keys fields s
          ≡ some s'
        → (i : ℕ) (k : CollectionKey) → get_elem? keys i ≡ some k
        → IsUpserted type i (store.value_at s' k)
    unfolding needs_values
    modified-IsUpserted keys type s s' whole other distinct ran i k p =
        let callback = safe_callback lib contents type upsert in
        let (doc, made, there) =
          (read_modify_write_lem store callback upsert fields keys s s' refl distinct ran).0 i k
            p in
        let unseen : seen upsert fields (store.value_at s k) ≡ [] =
          ap (λ b. if b then bytes_of (store.value_at s k) else []) whole in
        let parsed =
          safe_callback-Parsed contents type i (field_at fields i) doc
            (ap (λ d. callback i (field_at fields i) d) (sym unseen) ∙ made) in
        rw other (doc, there, parsed)

    written-IsUpserted :
        (keys : List CollectionKey) (type : FieldType) (s s' : store.State)
        → is_json type ≡ true
        → all_valid lib contents 0 keys ≡ true
        → IsDistinct keys
        → store.write s (task_pairs contents 0 keys) ≡ some s'
        → ((i : ℕ) (k : CollectionKey)
            → get_elem? keys i ≡ some k
            → IsUpserted type i (store.value_at s' k))
          × ((k : CollectionKey)
              → contains keys k ≡ false
              → store.value_at s' k ≡ store.value_at s k)
    written-IsUpserted keys type s s' same good distinct wrote = (
      λ i k p.
          let there : store.value_at s' k ≡ contents i =
            store.write_lem s s' (task_pairs contents 0 keys) k wrote
            ∙ task_pairs_lem contents keys 0 i i k _ distinct (omega arith) p in
          rw same (there, all_valid_lem contents keys 0 i i k good (omega arith) p),
      λ k absent.
          store.write_lem s s' (task_pairs contents 0 keys) k wrote
          ∙ task_pairs-other contents keys 0 k _ absent,
    )

    -- If whole documents are upserted at distinct keys, and the write ends without an error, then at
    -- the key of every task is its content, which is a valid document, if the contents have the format
    -- of the store, and else what the library writes of the document that it parses in the content;
    -- all other keys are as they were.
    pub docs_write-upsert :
        (keys : List CollectionKey) (type : FieldType) (s s' : store.State)
        → has_fields fields ≡ false
        → IsDistinct keys
        → docs_write store lib keys fields contents type upsert s ≡ some s'
        → ((i : ℕ) (k : CollectionKey)
            → get_elem? keys i ≡ some k
            → IsUpserted type i (store.value_at s' k))
          × ((k : CollectionKey)
              → contains keys k ≡ false
              → store.value_at s' k ≡ store.value_at s k)
    unfolding docs_write
    docs_write-upsert [] type s s' whole distinct ran =
        let same : s ≡ s' = ap (or_else s) ran in
        (λ i k p. cc, λ k absent. ap (λ t. store.value_at t k) (sym same))
    docs_write-upsert (q ∷ keys) type s s' whole distinct ran =
        let modified =
          read_modify_write store (safe_callback lib contents type upsert) upsert (q ∷ keys) fields
            s in
        let written = store.write s (task_pairs contents 0 (q ∷ keys)) in
        let dispatch : Bool → Bool → Bool → Option store.State = λ fielded json valid.
          if fielded || not json || false then modified else if valid then written else none in
        let valid = all_valid lib contents 0 (q ∷ keys) in
        let unfielded = ap (λ b. dispatch b (is_json type) valid) (sym whole) ∙ ran in
        elim (Bool-cases (is_json type)) [
          | inl same ↦
              let validated = ap (λ b. dispatch false b valid) (sym same) ∙ unfielded in
              elim (Bool-cases valid) [
                | inl good ↦
                    let wrote : written ≡ some s' =
                      ap (dispatch false true) (sym good) ∙ validated in
                    written-IsUpserted (q ∷ keys) type s s' same good distinct wrote
                | inr bad ↦
                    let stop : none ≡ some s' = ap (dispatch false true) (sym bad) ∙ validated in cc
              ]
          | inr other ↦
              let ran' : modified ≡ some s' =
                ap (λ b. dispatch false b valid) (sym other) ∙ unfielded in
              (
                modified-IsUpserted (q ∷ keys) type s s' whole other distinct ran',
                (read_modify_write_lem store (safe_callback lib contents type upsert) upsert fields
                    (q ∷ keys) s s' refl distinct ran').1,
              )
        ]
