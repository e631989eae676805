-- ===== src/Paths/Batch/Views.antt =====
-- The views of what is read, the pairs that are written, and the keys that tasks have.
use mathlib.Core.Path.{ap₂}
use ukv.Prelude.{
  ℕ, zero, suc, ◌≡◌, ◌+◌, ◌<◌, ◌%◌, ◌^◌, refl, sym, ap, subst, ◌∙◌, true, false, Option, none, some,
  List, [], ◌∷◌, ◌++◌, append_assoc, inl, inr, arith, Bool-cases, length, length-append, get_elem?,
  map, take-append_length, drop-append_length, if◌then◌else◌,
}
use ukv.Types.{length_missing, CollectionKey, key_eq}
use ukv.Types.Order.{key_order}
use ukv.Ranges.{offset_in_sorted, lower_bound, contains, sort_and_deduplicate}
use ukv.Ranges.Sorted.{IsAscending, Above-contains, offset-sort_and_deduplicate}
use ukv.Umem.Entries.{Value}
use ukv.Umem.Blobs.Writes.{last_put}
use ukv.Paths.Bucket.{
  Bytes, bytes_of, join_bytes, value_in_bucket, find_in_bucket, for_each_in_bucket, get_bucket_size,
  get_bucket_keys, get_bucket_vals, Member, keys_lengths, vals_lengths,
}
use ukv.Paths.Bucket.Upsert.{IsBucketOf, bucket, empty}
use ukv.Paths.Bucket.Written.{bucket_bytes}
use ukv.Paths.Bucket.Removal.{View}
use ukv.Paths.Batch.{Task, content_of, joined_views, view_at, pairs_of, key_of}
use ukv.Paths.Batch.Holding.{Fits}
use ukv.Paths.Batch.Updates.{AllFound, last_content, place_of, other_key}

-- A value that is a bucket, into which so many bytes more can be put.
pub record Bucketed (v : Value) (more : ℕ) : Type 0 where
  pub members : List Member
  pub held : IsBucketOf v members
  pub room : bucket_bytes members + more < length_missing

-- The views with offsets and lengths that do not wrap.
unfoldable pub exact_views : ℕ → List Bytes → List (Option View)
exact_views offset [] = []
exact_views offset (b ∷ bs) =
    some (record { begin = offset; size = length b }) ∷ exact_views (offset + length b) bs

pub joined_views-exact :
    (offset : ℕ) (buckets : List Bytes)
    → offset + length (join_bytes buckets) < 2 ^ 32
    → joined_views offset buckets ≡ exact_views offset buckets
unfolding joined_views exact_views
joined_views-exact offset [] h = refl
joined_views-exact offset (b ∷ bs) h =
    let whole = length-append b (join_bytes bs) in
    let begin : offset % 2 ^ 32 ≡ offset = omega arith in
    let size : length b % 2 ^ 32 ≡ length b = omega arith in
    ap₂ (λ v vs. v ∷ vs) (ap₂ (λ n m. some (record { begin = n; size = m })) begin size)
      (joined_views-exact (offset + length b) bs (omega arith))

-- The views of joined values are of the values.
pub content-joined :
    (pre : Bytes) (buckets : List Bytes) (i : ℕ)
    → content_of (pre ++ join_bytes buckets) (view_at (exact_views (length pre) buckets) i)
      ≡ get_elem? buckets i
unfolding exact_views
content-joined pre [] i = refl
content-joined pre (b ∷ bs) zero =
    rw
      (
        drop-append_length (length pre) pre (b ++ join_bytes bs) refl,
        take-append_length (length b) b (join_bytes bs) refl,
      )
      refl
content-joined pre (b ∷ bs) (suc i) =
    ap₂ (λ m n. content_of m (view_at (exact_views n bs) i))
      (sym (append_assoc pre b (join_bytes bs))) (sym (length-append pre b))
    ∙ content-joined (pre ++ b) bs i

pub joined-Fits :
    (pre : Bytes) (buckets : List Bytes) (i : ℕ)
    → Fits (pre ++ join_bytes buckets) (view_at (exact_views (length pre) buckets) i)
unfolding exact_views
joined-Fits pre [] i = tt
joined-Fits pre (b ∷ bs) zero =
    omega (arith, length-append pre (b ++ join_bytes bs), length-append b (join_bytes bs))
joined-Fits pre (b ∷ bs) (suc i) =
    subst (λ n. Fits (pre ++ (b ++ join_bytes bs)) (view_at (exact_views n bs) i))
      (length-append pre b)
      (subst (λ m. Fits m (view_at (exact_views (length (pre ++ b)) bs) i))
        (append_assoc pre b (join_bytes bs)) (joined-Fits (pre ++ b) bs i))

pub length-exact_views :
    (n : ℕ) (buckets : List Bytes) → length (exact_views n buckets) ≡ length buckets
unfolding exact_views
length-exact_views n [] = refl
length-exact_views n (b ∷ bs) = ap suc (length-exact_views (n + length b) bs)

-- What is read of a missing value is an empty one, in which the same is found.
pub value_in_bytes :
    (v : Value) (p : Bytes) → value_in_bucket (some (bytes_of v)) p ≡ value_in_bucket v p
unfolding value_in_bucket find_in_bucket for_each_in_bucket get_bucket_size get_bucket_keys
    get_bucket_vals keys_lengths vals_lengths
value_in_bytes none p = refl
value_in_bytes (some bytes) p = refl

pub bytes-IsBucketOf :
    (v : Value) (members : List Member)
    → IsBucketOf v members
    → IsBucketOf (some (bytes_of v)) members
bytes-IsBucketOf v members (bucket e h) = bucket (ap (λ w. some (bytes_of w)) e) h
bytes-IsBucketOf v members (empty e n) = empty e n

pub map_ext :
    {A B : Type 0} (f g : A → B) → ((x : A) → f x ≡ g x) → (xs : List A) → map f xs ≡ map g xs
map_ext f g h [] = refl
map_ext f g h (x ∷ xs) = ap₂ (λ y ys. y ∷ ys) (h x) (map_ext f g h xs)

-- Pairs of other keys leave a key's value.
pub last_put-absent :
    (memory : Bytes) (k : CollectionKey) (before : Value) (keys : List CollectionKey)
    (views : List (Option View))
    → contains keys k ≡ false
    → last_put k before (pairs_of memory keys views) ≡ before
unfolding last_put pairs_of contains
last_put-absent memory k before [] views h = refl
last_put-absent memory k before (q ∷ keys) [] h = refl
last_put-absent memory k before (q ∷ keys) (v ∷ views) h =
    let other : key_eq q k ≡ false = ground arith in
    ap (λ b. last_put k (if b then content_of memory v else before) (pairs_of memory keys views))
      other
    ∙ last_put-absent memory k before keys views (ground arith)

pub last_put-pairs_of :
    (memory : Bytes) (k : CollectionKey) (before : Value) (keys : List CollectionKey)
    (views : List (Option View))
    → IsAscending keys
    → length views ≡ length keys
    → contains keys k ≡ true
    → last_put k before (pairs_of memory keys views)
      ≡ content_of memory (view_at views (offset_in_sorted keys k))
unfolding last_put pairs_of contains offset_in_sorted lower_bound
last_put-pairs_of memory k before [] views asc n h = cc
last_put-pairs_of memory k before (q ∷ keys) [] asc n h = absurd (omega arith)
last_put-pairs_of memory k before (q ∷ keys) (v ∷ views) (above, asc) n h =
    elim (Bool-cases (key_eq q k)) [
      | inl e ↦
          let here : q ≡ k = (key_order.same_iff q k).0 e in
          let stop : key_order.less q k ≡ false =
            subst (λ z. key_order.less q z ≡ false) here (key_order.irrefl q) in
          let absent : contains keys k ≡ false = elim (Bool-cases (contains keys k)) [
            | inl c ↦ let less = Above-contains q k keys above c in cc
            | inr c ↦ c
          ] in
          ap
            (λ b.
              last_put k (if b then content_of memory v else before) (pairs_of memory keys views))
            e
          ∙ last_put-absent memory k (content_of memory v) keys views absent
          ∙ rw stop refl
      | inr e ↦
          let later : contains keys k ≡ true = ground arith in
          ap
            (λ b.
              last_put k (if b then content_of memory v else before) (pairs_of memory keys views))
            e
          ∙ last_put-pairs_of memory k before keys views asc (omega arith) later
          ∙ rw (Above-contains q k keys above later) refl
    ]

module _ (hash : Bytes → ℕ) where
  contains-task :
      (t : Task) (keys : List CollectionKey)
      → contains (key_of hash t ∷ keys) (key_of hash t) ≡ true
  unfolding contains
  contains-task t keys = ground (arith, key_order.same_iff (key_of hash t) (key_of hash t))

  contains-more :
      (q k : CollectionKey) (keys : List CollectionKey)
      → contains keys k ≡ true
      → contains (q ∷ keys) k ≡ true
  unfolding contains
  contains-more q k keys h = ground (arith, h)

  pub AllFound-unique :
      (all : List CollectionKey) (tasks : List Task)
      → ((k : CollectionKey) → contains (map (key_of hash) tasks) k ≡ true → contains all k ≡ true)
      → AllFound hash (sort_and_deduplicate all) tasks
  AllFound-unique all [] h = tt
  AllFound-unique all (t ∷ tasks) h = (
    offset-sort_and_deduplicate all (key_of hash t)
        (h (key_of hash t) (contains-task t (map (key_of hash) tasks))),
    AllFound-unique all tasks
        (λ k c. h k (contains-more (key_of hash t) k (map (key_of hash) tasks) c)),
  )

  -- Tasks of other keys leave a path's value.
  pub last_content-absent :
      (c : ℕ) (p : Bytes) (before : Value) (tasks : List Task)
      → contains (map (key_of hash) tasks) (place_of hash c p) ≡ false
      → last_content c p before tasks ≡ before
  unfolding contains
  last_content-absent c p before [] h = refl
  last_content-absent c p before (t ∷ tasks) h =
      let other = other_key hash t c p (λ here.
        let same = (key_order.same_iff (key_of hash t) (place_of hash c p)).1 here in cc) in
      rw other (last_content-absent c p before tasks (ground arith))
