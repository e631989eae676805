-- ===== src/Paths/Bucket/Written.antt =====
-- The buffer that `upsert_in_bucket` fills.
use mathlib.Core.Path.{ap₂}
use ukv.Prelude.{
  ℕ, ◌≡◌, ◌≢◌, ◌+◌, ◌-◌, ◌<◌, ◌≤◌, ◌^◌, ◌*◌, ◌%◌, false, refl, sym, ap, subst, ◌∙◌, Option, none,
  some, List, [], ◌∷◌, ◌++◌, length, length-append, take, map, arith, inl, inr, Bool-cases,
  Option-cases, take_of_length-le, ◌==◌, if◌then◌else◌,
}
use ukv.Types.{length_missing}
use ukv.Arguments.{viewed}
use ukv.Umem.Entries.{Value}
use ukv.Umem.Collections.{name_eq}
use ukv.Paths.Bucket.{
  Bytes, sum, get_bucket_size, keys_lengths, vals_lengths, Member, find_last, find_in_bucket,
  without_index, layout, size_of, index_of, new_size, new_bytes, new_buffer, bytes_of,
  upsert_in_bucket, value_in_bucket,
}
use ukv.Paths.Bucket.Layout.{HaveWords, length-layout}
use ukv.Paths.Bucket.Upsert.{
  IsBucketOf, bucket, empty, IsRead, IsBucketOf-IsRead, count_of, without_found-size, upserted,
  last_value-upserted, value_in_bucket_lem,
}

sum-append :
    (part : Member → Bytes) (ms : List Member) (m : Member)
    → sum (map (λ x. length (part x)) (ms ++ (m ∷ [])))
      ≡ sum (map (λ x. length (part x)) ms) + length (part m)
sum-append part [] m = omega arith
sum-append part (n ∷ ms) m = omega (arith, sum-append part ms m)

HaveWords-append :
    (ms : List Member) (m : Member)
    → HaveWords ms
    → length (m.0) < 2 ^ 32
    → length (m.1) < 2 ^ 32
    → HaveWords (ms ++ (m ∷ []))
HaveWords-append [] m h k v = (k, v, tt)
HaveWords-append (n ∷ ms) m h k v = (h.0, h.1, HaveWords-append ms m h.2 k v)

HaveWords-without :
    (old : Option ℕ) (i : ℕ) (ms : List Member) → HaveWords ms → HaveWords (without_index old i ms)
unfolding without_index
HaveWords-without old i [] h = tt
HaveWords-without none i (m ∷ ms) h = (h.0, h.1, HaveWords-without none (i + 1) ms h.2)
HaveWords-without (some old) i (m ∷ ms) h = elim (Bool-cases (i == old)) [
  | inl here ↦ rw here (HaveWords-without (some old) (i + 1) ms h.2)
  | inr there ↦ rw there (h.0, h.1, HaveWords-without (some old) (i + 1) ms h.2)
]

not_nil : {A : Type 0} (xs : List A) (x : A) → (xs ++ (x ∷ [])) ≢ []
not_nil [] x e = cc
not_nil (y ∷ xs) x e = cc

IsBucketOf-HaveWords :
    (v : Value) (members : List Member) → IsBucketOf v members → HaveWords members
IsBucketOf-HaveWords v members (bucket e h) = h.0
IsBucketOf-HaveWords v members (empty e n) = subst HaveWords (sym n) tt

new_size-count :
    (v : Value) (key : Bytes)
    → get_bucket_size v + 1 < 2 ^ 32
    → new_size v key + count_of (find_in_bucket v key) ≡ get_bucket_size v + 1
unfolding new_size
new_size-count v key room = elim (Option-cases (find_in_bucket v key)) [
  | inl e ↦ rw (e, new_size) (omega arith)
  | inr (f, e) ↦ rw (e, new_size) refl
]

count_of-le : (f : Option (ℕ × Member)) → count_of f ≤ 1
count_of-le none = omega arith
count_of-le (some f) = omega arith

-- How many bytes the bucket of the members has.
abbrev pub bucket_bytes : List Member → ℕ
bucket_bytes members = length (layout (length members) members)

-- An upsert adds at most a counter of two lengths, the key and the value.
pub bucket_bytes-upserted :
    (key val : Bytes) (members : List Member)
    → (bucket_bytes (upserted key val members)
        ≤ bucket_bytes members + (8 + length key + length val))
      × (8 * length members ≤ bucket_bytes (upserted key val members))
unfolding upserted
bucket_bytes-upserted key val members =
    let left = without_index (index_of (find_last 0 key members)) 0 members in
    let keys = without_found-size 0 key members (λ m. m.0) in
    let vals = without_found-size 0 key members (λ m. m.1) in
    let sum_keys = sum-append (λ m. m.0) left (key, val) in
    let sum_vals = sum-append (λ m. m.1) left (key, val) in
    let count = length-append left ((key, val) ∷ []) in
    let few = count_of-le (find_last 0 key members) in
    let before = length-layout members in
    let after = length-layout (left ++ ((key, val) ∷ [])) in (omega arith, omega arith)

module _ (v : Value) (members : List Member) (r : IsRead v members) (key val : Bytes) where
  abbrev found : Option (ℕ × Member)
  found = find_last 0 key members

  abbrev left : List Member
  left = without_index (index_of found) 0 members

  found_lem : find_in_bucket v key ≡ found
  unfolding find_in_bucket
  found_lem = ap (find_last 0 key) r.all

  length-upserted : length (upserted key val members) ≡ length left + 1
  unfolding upserted
  length-upserted = length-append left ((key, val) ∷ [])

  new_size_lem : length members + 1 < 2 ^ 32 → new_size v key ≡ length (upserted key val members)
  new_size_lem room = omega (
    arith,
    (without_found-size 0 key members (λ m. m.0)).0,
    new_size-count v key (omega (arith, r.size)),
    ap count_of found_lem,
    length-upserted,
    r.size,
  )

  sum-upserted :
      (part : Member → Bytes)
      → sum (map (λ m. length (part m)) members)
          - size_of (find_in_bucket v key) part
          + length (part (key, val))
        ≡ sum (map (λ m. length (part m)) (upserted key val members))
  unfolding upserted
  sum-upserted part = omega (
    arith,
    (without_found-size 0 key members part).1,
    sum-append part left (key, val),
    ap (λ f. size_of f part) found_lem,
  )

  new_bytes_lem :
      bucket_bytes (upserted key val members) < length_missing
      → new_bytes v key val ≡ bucket_bytes (upserted key val members)
  unfolding new_bytes
  new_bytes_lem short = omega (
    arith,
    ap sum (ap (keys_lengths v) r.size ∙ r.key_sizes),
    ap sum (ap (vals_lengths v) r.size ∙ r.val_sizes),
    sum-upserted (λ m. m.0),
    sum-upserted (λ m. m.1),
    new_size_lem (omega (arith, (bucket_bytes-upserted key val members).1)),
    length-layout (upserted key val members),
  )

  -- The new buffer is a bucket of all its bytes, and the view is of all of it.
  new_buffer_lem :
      bucket_bytes (upserted key val members) < length_missing
      → new_buffer v key val ≡ layout (length (upserted key val members)) (upserted key val members)
  unfolding new_buffer upserted
  new_buffer_lem short =
      let after = upserted key val members in
      ap₂ (λ n ms. take (new_bytes v key val) (layout n (ms ++ ((key, val) ∷ []))))
        (new_size_lem (omega (arith, (bucket_bytes-upserted key val members).1)))
        (ap₂ (λ f ms. without_index (index_of f) 0 ms) found_lem r.all)
      ∙ take_of_length-le (new_bytes v key val) (layout (length after) after)
          (omega (arith, new_bytes_lem short))

  pub upsert_in_bucket-some :
      bucket_bytes (upserted key val members) < length_missing
      → upsert_in_bucket v key val ≡ some (new_buffer v key val)
  unfolding upsert_in_bucket viewed
  upsert_in_bucket-some short =
      let size = new_bytes_lem short in
      let same : new_bytes v key val % 2 ^ 32 ≡ new_bytes v key val = omega arith in
      let fine : (new_bytes v key val == length_missing) ≡ false = ground arith in
      rw (same, fine)
        (ap (λ b. some b)
          (take_of_length-le (new_bytes v key val) (new_buffer v key val)
            (omega (arith, ap length (new_buffer_lem short)))))

-- Over a value that holds members, if the new bucket has fewer than 2^32 - 1 bytes,
-- `upsert_in_bucket` makes a bucket of the members without the last one that has the key, with the
-- new one behind them, in as many bytes as it asks for; so the key is found with its new value, and
-- any other key as before.
pub upsert_in_bucket_lem :
    (v : Value) (members : List Member) (key val k : Bytes)
    → IsBucketOf v members
    → bucket_bytes (upserted key val members) < length_missing
    → IsBucketOf (upsert_in_bucket v key val) (upserted key val members)
      × (new_bytes v key val ≡ length (bytes_of (upsert_in_bucket v key val)))
      × (value_in_bucket (upsert_in_bucket v key val) k
          ≡ (if name_eq key k then some val else value_in_bucket v k))
unfolding upserted
upsert_in_bucket_lem v members key val k h short =
    let r = IsBucketOf-IsRead v members h in
    let after = upserted key val members in
    let written : upsert_in_bucket v key val ≡ some (layout (length after) after) =
      upsert_in_bucket-some v members r key val short
      ∙ ap (λ b. some b) (new_buffer_lem v members r key val short) in
    let left_members = left v members r key val in
    let sum_keys = sum-append (λ m. m.0) left_members (key, val) in
    let sum_vals = sum-append (λ m. m.1) left_members (key, val) in
    let whole = length-layout (left_members ++ ((key, val) ∷ [])) in
    let words =
      HaveWords-append left_members (key, val)
        (HaveWords-without (index_of (found v members r key val)) 0 members
          (IsBucketOf-HaveWords v members h))
        (omega arith) (omega arith) in
    let is : IsBucketOf (upsert_in_bucket v key val) after = bucket written (
      words,
      not_nil _ _,
      omega (
        arith,
        length-upserted v members r key val,
        (without_found-size 0 key members (λ m. m.0)).0,
      ),
    ) in
    (
      is,
      new_bytes_lem v members r key val short ∙ sym (ap (λ b. length (bytes_of b)) written),
      value_in_bucket_lem (upsert_in_bucket v key val) after k (IsBucketOf-IsRead _ after is)
          ∙ last_value-upserted key val k members
          ∙ ap (λ w. if name_eq key k then some val else w)
              (sym (value_in_bucket_lem v members k r)),
    )
