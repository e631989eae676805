-- ===== src/Paths/Bucket/Upsert.antt =====
-- `upsert_in_bucket` writes a bucket of the right size, and what is found in it afterwards.
use ukv.Prelude.{
  ℕ, ◌≡◌, ◌+◌, ◌<◌, ◌≤◌, refl, sym, ap, subst, ◌∙◌, true, false, Option, none, some, List, [], ◌∷◌,
  ◌++◌, length, map, arith, inl, inr, Bool-cases, Option-cases, ◌==◌, if◌then◌else◌,
}
use ukv.Umem.Entries.{Value}
use ukv.Umem.Collections.{name_eq}
use ukv.Umem.Collections.Names.{name_eq_iff}
use ukv.Paths.Bucket.{
  Bytes, sum, bytes_of, get_bucket_size, keys_lengths, vals_lengths, words, Member,
  for_each_in_bucket, find_last, find_in_bucket, value_in_bucket, without_index, size_of, index_of,
}
use ukv.Paths.Bucket.Layout.{
  IsBucket, bucket_of, get_bucket_size_lem, keys_lengths_lem, vals_lengths_lem,
  for_each_in_bucket_lem,
}

-- The value holds the members: as a bucket of them, or, of none, as a missing or an empty value.
pub data IsBucketOf (v : Value) (members : List Member) : Type 0 where
  bucket : v ≡ bucket_of members → IsBucket members → IsBucketOf v members
  empty : bytes_of v ≡ [] → members ≡ [] → IsBucketOf v members

-- What the functions that read a bucket give for it.
pub record IsRead (v : Value) (members : List Member) : Type 0 where
  pub all : for_each_in_bucket v ≡ members
  pub size : get_bucket_size v ≡ length members
  pub key_sizes : keys_lengths v (length members) ≡ map (λ (m : Member). length (m.0)) members
  pub val_sizes : vals_lengths v (length members) ≡ map (λ (m : Member). length (m.1)) members

empty_size : (v : Value) → bytes_of v ≡ [] → get_bucket_size v ≡ 0
unfolding get_bucket_size
empty_size v e = rw e refl

pub IsBucketOf-IsRead :
    (v : Value) (members : List Member) → IsBucketOf v members → IsRead v members
unfolding for_each_in_bucket keys_lengths vals_lengths words
IsBucketOf-IsRead v members (bucket e (h, nonempty, bound)) =
    subst (λ w. IsRead w members) (sym e)
      (record {
        all = for_each_in_bucket_lem members (h, nonempty, bound);
        size = get_bucket_size_lem members h bound nonempty;
        key_sizes = keys_lengths_lem members h bound;
        val_sizes = vals_lengths_lem members h bound;
      })
IsBucketOf-IsRead v members (empty e n) = subst (IsRead v) (sym n) (record {
  all = rw (empty_size v e) refl;
  size = empty_size v e;
  key_sizes = refl;
  val_sizes = refl;
})

without_none : (i : ℕ) (members : List Member) → without_index none i members ≡ members
unfolding without_index
without_none i [] = refl
without_none i (m ∷ members) = ap (λ ms. m ∷ ms) (without_none (i + 1) members)

without_passed :
    (old i : ℕ) (members : List Member) → old < i → without_index (some old) i members ≡ members
unfolding without_index
without_passed old i [] h = refl
without_passed old i (m ∷ members) h =
    let other : (i == old) ≡ false = ground arith in
    rw other (ap (λ ms. m ∷ ms) (without_passed old (i + 1) members (omega arith)))

-- The cases of a search: a later member is found, or the first one, or none.
find_last-cases {ℓ} :
    (i : ℕ) (key k v : Bytes) (members : List Member) (P : Option (ℕ × Member) → Type ℓ)
    → ((idx : ℕ) (m : Member) → find_last (i + 1) key members ≡ some (idx, m) → P (some (idx, m)))
    → (find_last (i + 1) key members ≡ none → k ≡ key → P (some (i, (k, v))))
    → (find_last (i + 1) key members ≡ none → name_eq k key ≡ false → P none)
    → P (find_last i key ((k, v) ∷ members))
unfolding find_last
find_last-cases i key k v members P later here nowhere =
    elim (Option-cases (find_last (i + 1) key members)) [
      | inr ((idx, m), e) ↦ rw (e, find_last) (later idx m e)
      | inl e ↦ elim (Bool-cases (name_eq k key)) [
        | inl same ↦ rw (e, same, find_last) (here e ((name_eq_iff k key).0 same))
        | inr other ↦ rw (e, other, find_last) (nowhere e other)
      ]
    ]

find_last-le :
    (i : ℕ) (key : Bytes) (members : List Member) {idx : ℕ} {m : Member}
    → find_last i key members ≡ some (idx, m)
    → i ≤ idx
unfolding find_last
find_last-le i key [] e = cc
find_last-le i key ((k, v) ∷ members) {idx} {m} e =
    find_last-cases i key k v members (λ r. r ≡ some (idx, m) → i ≤ idx)
      (λ j n found same. let le = find_last-le (i + 1) key members found in ground arith)
      (λ found h same. ground arith) (λ found h same. cc) e

abbrev value_at : Option (ℕ × Member) → Value
value_at none = none
value_at (some (i, m)) = some (m.1)

abbrev pub count_of : Option (ℕ × Member) → ℕ
count_of none = 0
count_of (some f) = 1

-- What is left of the members counts, and sums up to, what the found member does not.
abbrev pub LeftOf :
    (i : ℕ) (members : List Member) (part : Member → Bytes) (found : Option (ℕ × Member)) → Type 0
LeftOf i members part found =
    (length (without_index (index_of found) i members) + count_of found ≡ length members)
    × (sum (map (λ m. length (part m)) (without_index (index_of found) i members))
          + size_of found part
        ≡ sum (map (λ m. length (part m)) members))

found_later :
    (i idx : ℕ) (m n : Member) (members : List Member)
    → i < idx
    → without_index (index_of (some (idx, n))) i (m ∷ members)
      ≡ m ∷ without_index (some idx) (i + 1) members
unfolding without_index
found_later i idx m n members h = let other : (i == idx) ≡ false = ground arith in rw other refl

found_here :
    (i : ℕ) (m n : Member) (members : List Member)
    → without_index (index_of (some (i, n))) i (m ∷ members) ≡ members
unfolding without_index
found_here i m n members =
    let same : (i == i) ≡ true = ground arith in
    rw same (without_passed i (i + 1) members (omega arith))

found_nowhere : (i : ℕ) (members : List Member) → without_index (index_of none) i members ≡ members
found_nowhere i members = without_none i members

pub without_found-size :
    (i : ℕ) (key : Bytes) (members : List Member) (part : Member → Bytes)
    → LeftOf i members part (find_last i key members)
unfolding size_of find_last without_index
without_found-size i key [] part = (omega arith, omega arith)
without_found-size i key ((k, v) ∷ members) part =
    find_last-cases i key k v members (LeftOf i ((k, v) ∷ members) part)
      (λ idx n found.
        let le = find_last-le (i + 1) key members found in
        let ih =
          subst (LeftOf (i + 1) members part) found (without_found-size (i + 1) key members part) in
        rw (found_later i idx (k, v) n members (omega arith))
          (omega (arith, ih.0), omega (arith, ih.1)))
      (λ found h. rw (found_here i (k, v) (k, v) members) (omega arith, omega arith))
      (λ found h.
        let all = found_nowhere i ((k, v) ∷ members) in
        (
          omega (arith, ap length all),
          omega (arith, ap (λ ms. sum (map (λ m. length (part m)) ms)) all),
        ))

-- The value of the last member with the key.
unfoldable pub last_value : Bytes → List Member → Value
last_value k [] = none
last_value k ((n, v) ∷ members) = elim (last_value k members) [
  | some later ↦ some later
  | none ↦ if name_eq n k then some v else none
]

value-find_last :
    (j : ℕ) (k : Bytes) (members : List Member)
    → value_at (find_last j k members) ≡ last_value k members
unfolding find_last last_value
value-find_last j k [] = refl
value-find_last j k ((n, v) ∷ members) = elim (Option-cases (find_last (j + 1) k members)) [
  | inl e ↦ ground (arith, value-find_last (j + 1) k members)
  | inr ((i, m), e) ↦ ground (arith, value-find_last (j + 1) k members)
]

last_value-append :
    (k : Bytes) (m : Member) (members : List Member)
    → last_value k (members ++ (m ∷ []))
      ≡ (if name_eq (m.0) k then some (m.1) else last_value k members)
unfolding last_value
last_value-append k m [] = refl
last_value-append k m (n ∷ members) = ground (arith, last_value-append k m members)

last_value-cons :
    (k : Bytes) (m : Member) (members members' : List Member)
    → last_value k members ≡ last_value k members'
    → last_value k (m ∷ members) ≡ last_value k (m ∷ members')
unfolding last_value
last_value-cons k m members members' e = rw e refl

last_value-skip :
    (k n v : Bytes) (members : List Member)
    → name_eq n k ≡ false
    → last_value k ((n, v) ∷ members) ≡ last_value k members
unfolding last_value
last_value-skip k n v members e = ground arith

-- The member that is taken out does not matter to other keys.
last_value-without :
    (i : ℕ) (key k : Bytes) (members : List Member)
    → name_eq key k ≡ false
    → last_value k (without_index (index_of (find_last i key members)) i members)
      ≡ last_value k members
unfolding find_last without_index
last_value-without i key k [] h = refl
last_value-without i key k ((n, v) ∷ members) h =
    find_last-cases i key n v members
      (λ r.
        last_value k (without_index (index_of r) i ((n, v) ∷ members))
        ≡ last_value k ((n, v) ∷ members))
      (λ idx m found.
        let ih =
          subst
            (λ r. last_value k (without_index (index_of r) (i + 1) members) ≡ last_value k members)
            found (last_value-without (i + 1) key k members h) in
        ap (last_value k) (
          found_later i idx (n, v) m members
            (omega (arith, find_last-le (i + 1) key members found)))
        ∙ last_value-cons k (n, v) _ members ih)
      (λ found same.
        ap (last_value k) (found_here i (n, v) (n, v) members)
        ∙ sym (last_value-skip k n v members (ap (λ x. name_eq x k) same ∙ h)))
      (λ found other. ap (last_value k) (found_nowhere i ((n, v) ∷ members)))

-- The members after an upsert.
unfoldable pub upserted : Bytes → Bytes → List Member → List Member
upserted key val members =
    without_index (index_of (find_last 0 key members)) 0 members ++ ((key, val) ∷ [])

pub last_value-upserted :
    (key val k : Bytes) (members : List Member)
    → last_value k (upserted key val members)
      ≡ (if name_eq key k then some val else last_value k members)
unfolding upserted
last_value-upserted key val k members =
    last_value-append k (key, val) _ ∙ elim (Bool-cases (name_eq key k)) [
      | inl same ↦ rw same refl
      | inr other ↦ rw other (last_value-without 0 key k members other)
    ]

value_of_found : (v : Value) (k : Bytes) → value_in_bucket v k ≡ value_at (find_in_bucket v k)
unfolding value_in_bucket
value_of_found v k = elim (Option-cases (find_in_bucket v k)) [
  | inl e ↦ rw (e, value_in_bucket) refl
  | inr ((i, m), e) ↦ rw (e, value_in_bucket) refl
]

pub value_in_bucket_lem :
    (v : Value) (members : List Member) (k : Bytes)
    → IsRead v members
    → value_in_bucket v k ≡ last_value k members
unfolding find_in_bucket
value_in_bucket_lem v members k r =
    value_of_found v k ∙ ap (λ ms. value_at (find_last 0 k ms)) r.all ∙ value-find_last 0 k members
