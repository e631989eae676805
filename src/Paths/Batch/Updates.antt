-- ===== src/Paths/Batch/Updates.antt =====
-- The loop of `ukv_paths_write`, over tasks that all have a content.
use mathlib.Core.Path.{ap₂}
use ukv.Prelude.{
  get_elem?-set_same, get_elem?-set_other, get_elem?-lt, ℕ, ◌≡◌, ◌≢◌, ◌+◌, ◌<◌, refl, sym, ap,
  subst, ◌∙◌, true, false, ◌&&◌, Option, some, List, [], ◌∷◌, ◌++◌, inl, inr, arith, Bool-cases,
  length, length-set, get_elem?, set, ◌==◌, if◌then◌else◌,
}
use ukv.Types.{CollectionKey}
use ukv.Types.Order.{key_order}
use ukv.Ranges.{offset_in_sorted}
use ukv.Umem.Entries.{Value}
use ukv.Umem.Collections.{name_eq}
use ukv.Umem.Collections.Names.{name_eq_iff}
use ukv.Paths.Bucket.{Bytes, bytes_of, value_in_bucket}
use ukv.Paths.Bucket.Removal.{View}
use ukv.Paths.Batch.Holding.{
  Holds, Holds-count, content-append, Holds-append, written, new_view, upserted-Holds,
  upserted-some, cost, upserted-value,
}
use ukv.Paths.Batch.{Task, content_of, update_bucket, view_at, key_of, update_all}

view_at-set :
    (views : List (Option View)) (i : ℕ) (v : Option View)
    → i < length views
    → view_at (set views i v) i ≡ v
view_at-set views i v h = rw (get_elem?-set_same views i v h, view_at) refl

view_at-set_other :
    (views : List (Option View)) (i j : ℕ) (v : Option View)
    → (i == j) ≡ false
    → view_at (set views i v) j ≡ view_at views j
view_at-set_other views i j v h = rw (get_elem?-set_other views i j v h, view_at) refl

-- Every task has a content.
abbrev pub AllPresent : List Task → Type 0
AllPresent [] = Unit {0}
AllPresent (t ∷ tasks) = ((bytes : Bytes) × (t.val ≡ some bytes)) × AllPresent tasks

-- How many bytes the tasks add to a bucket, at most.
abbrev pub tasks_bytes : List Task → ℕ
tasks_bytes [] = 0
tasks_bytes (t ∷ tasks) = cost t.path (bytes_of t.val) + tasks_bytes tasks

-- What the last of the tasks of a path in a collection puts there.
abbrev pub last_content : ℕ → Bytes → Value → List Task → Value
last_content c p before [] = before
last_content c p before (t ∷ tasks) =
    last_content c p (if t.collection == c && name_eq t.path p then t.val else before) tasks

abbrev pub AllFound : (hash : Bytes → ℕ) (keys : List CollectionKey) → List Task → Type 0
AllFound hash keys [] = Unit {0}
AllFound hash keys (t ∷ tasks) =
    (get_elem? keys (offset_in_sorted keys (key_of hash t)) ≡ some (key_of hash t))
    × AllFound hash keys tasks

-- The key of a path's bucket.
abbrev pub place_of : (hash : Bytes → ℕ) → ℕ → Bytes → CollectionKey
place_of hash c p = record { collection = c; key = hash p }

-- A task of another key is not of the path.
pub other_key :
    (hash : Bytes → ℕ) (t : Task) (c : ℕ) (p : Bytes)
    → key_of hash t ≢ place_of hash c p
    → (t.collection == c && name_eq t.path p) ≡ false
other_key hash t c p h = elim (Bool-cases (t.collection == c && name_eq t.path p)) [
  | inl owner ↦
      absurd (
        h (ap₂ (λ n q. place_of hash n q) (ground arith) ((name_eq_iff t.path p).0 (ground arith))))
  | inr other ↦ other
]

-- What the loop leaves: buckets, of which each holds what the tasks put there.
pub record Updated (hash : Bytes → ℕ) (keys : List CollectionKey) (tasks : List Task)
    (memory : Bytes) (views : List (Option View)) (more : ℕ) (after : Bytes × List (Option View))
    : Type 0 where
  pub count : length (after.1) ≡ length views
  pub all_hold : (i : ℕ) → Holds (after.0) (view_at (after.1) i) more
  pub value :
      (c : ℕ) (p : Bytes)
      → let i = offset_in_sorted keys (place_of hash c p) in
        get_elem? keys i ≡ some (place_of hash c p)
        → value_in_bucket (content_of (after.0) (view_at (after.1) i)) p
          ≡ last_content c p (value_in_bucket (content_of memory (view_at views i)) p) tasks

module _ (hash : Bytes → ℕ) (keys : List CollectionKey) where
  -- One step, for the bucket at any index: the bucket of the task is changed, all others are kept.
  module _ (t : Task) (memory : Bytes) (views : List (Option View)) (bytes : Bytes) (more : ℕ)
      (at : get_elem? keys (offset_in_sorted keys (key_of hash t)) ≡ some (key_of hash t))
      (count : length views ≡ length keys)
      (h : (i : ℕ) → Holds memory (view_at views i) (cost t.path bytes + more)) where
    abbrev idx : ℕ
    idx = offset_in_sorted keys (key_of hash t)

    abbrev old : Option View
    old = view_at views idx

    abbrev memory' : Bytes
    memory' = memory ++ written memory old t.path bytes more (h idx)

    abbrev views' : List (Option View)
    views' = set views idx (some (new_view memory old t.path bytes more (h idx)))

    in_range : idx < length views
    in_range = omega (arith, get_elem?-lt keys idx at)

    view_at-here :
        (i : ℕ)
        → (idx == i) ≡ true
        → view_at views' i ≡ some (new_view memory old t.path bytes more (h idx))
    view_at-here i e =
        subst (λ j. view_at views' j ≡ some (new_view memory old t.path bytes more (h idx)))
          (ground arith) (view_at-set views idx _ in_range)

    step-Holds : (i : ℕ) → Holds memory' (view_at views' i) more
    step-Holds i = elim (Bool-cases (idx == i)) [
      | inl e ↦
          subst (λ v. Holds memory' v more) (sym (view_at-here i e))
            (upserted-Holds memory old t.path bytes more (h idx))
      | inr e ↦
          subst (λ v. Holds memory' v more) (sym (view_at-set_other views idx i _ e))
            (Holds-append memory _ (view_at views i) (cost t.path bytes) more (h i))
    ]

    abbrev wanted : ℕ → Bytes → ℕ
    wanted c p = offset_in_sorted keys (place_of hash c p)

    step-value :
        (c : ℕ) (p : Bytes)
        → get_elem? keys (wanted c p) ≡ some (place_of hash c p)
        → value_in_bucket (content_of memory' (view_at views' (wanted c p))) p ≡ (
            if t.collection == c && name_eq t.path p
            then some bytes
            else value_in_bucket (content_of memory (view_at views (wanted c p))) p)
    step-value c p k = elim (Bool-cases (idx == wanted c p)) [
      | inl e ↦
          let same : idx ≡ wanted c p = ground arith in
          let both : some (key_of hash t) ≡ some (place_of hash c p) =
            sym at ∙ ap (get_elem? keys) same ∙ k in
          let owner : (t.collection == c) ≡ true = ground (arith, both) in
          rw owner (
            ap (λ v. value_in_bucket (content_of memory' v) p) (view_at-here (wanted c p) e)
            ∙ upserted-value memory old t.path bytes more (h idx) p
            ∙ ap
                (λ j.
                  if name_eq t.path p
                  then some bytes
                  else value_in_bucket (content_of memory (view_at views j)) p)
                same)
      | inr e ↦
          ap (λ v. value_in_bucket (content_of memory' v) p)
            (view_at-set_other views idx (wanted c p) _ e)
          ∙ ap (λ v. value_in_bucket v p)
              (content-append memory _ (view_at views (wanted c p)) (h (wanted c p)).fits)
          ∙ rw
              (other_key hash t c p
                (λ here. let same = ap (offset_in_sorted keys) here in absurd (ground arith)))
              refl
    ]

  pub update_all_lem :
      (tasks : List Task) (memory : Bytes) (views : List (Option View)) (more : ℕ)
      → AllPresent tasks
      → AllFound hash keys tasks
      → length views ≡ length keys
      → ((i : ℕ) → Holds memory (view_at views i) (tasks_bytes tasks + more))
      → Updated hash keys tasks memory views more (update_all hash keys tasks memory views)
  unfolding update_all update_bucket
  update_all_lem [] memory views more present found count h = record {
    count = refl;
    all_hold = λ i. Holds-count memory (view_at views i) (omega arith) (h i);
    value = λ c p e. refl;
  }
  update_all_lem (t ∷ tasks) memory views more ((bytes, is), present) (at, found) count h' =
      let h : (i : ℕ)
          → Holds memory (view_at views i) (cost t.path bytes + (tasks_bytes tasks + more)) =
        λ i.
          Holds-count memory (view_at views i) (omega (arith, ap (λ v. length (bytes_of v)) is))
            (h' i) in
      let rest =
        update_all_lem tasks (memory' t memory views bytes (tasks_bytes tasks + more) at count h)
          (views' t memory views bytes (tasks_bytes tasks + more) at count h) more present found
          (length-set views _ _ ∙ count)
          (step-Holds t memory views bytes (tasks_bytes tasks + more) at count h) in
      let some_written =
        upserted-some memory (view_at views (offset_in_sorted keys (key_of hash t))) t.path bytes
          (tasks_bytes tasks + more) (h (offset_in_sorted keys (key_of hash t))) in
      rw (is, some_written, update_all)
        (record {
          count = rest.count ∙ length-set views _ _;
          all_hold = rest.all_hold;
          value = λ c p e.
              rest.value c p e
              ∙ ap (λ v. last_content c p v tasks)
                  (step-value t memory views bytes (tasks_bytes tasks + more) at count h c p e);
        })
