-- ===== src/Paths/Bucket/Layout.antt =====
-- The layout of a bucket, and the functions that read it.
use mathlib.Core.Path.{ap₂}
use ukv.Prelude.{
  ℕ, suc, ◌≡◌, ◌≢◌, ◌+◌, ◌*◌, ◌<◌, ◌^◌, refl, sym, ap, ◌∙◌, true, false, some, List, [], ◌∷◌, ◌++◌,
  append_assoc, append-nil, length, length-append, drop, map, arith, take-append_length,
  drop-append_length, ltb, lt→ltb, ◌==◌,
}
use ukv.Umem.Entries.{Value}
use ukv.Paths.Bucket.{
  Bytes, counter_size, bytes_in_header, word_bytes, join_bytes, words, chunks, sum, first_word,
  get_bucket_size, keys_lengths, vals_lengths, keys_offset, vals_offset, get_bucket_keys,
  get_bucket_vals, Member, pair_up, for_each_in_bucket, layout,
}

-- A bucket of at least one member, whose counter and lengths are 32-bit words.
abbrev pub HaveWords : List Member → Type 0
HaveWords [] = Unit {0}
HaveWords (m ∷ members) = (length (m.0) < 2 ^ 32) × (length (m.1) < 2 ^ 32) × HaveWords members

abbrev pub IsBucket : List Member → Type 0
IsBucket members = HaveWords members × (members ≢ []) × (length members < 2 ^ 32)

word_bytes_lem :
    (n w : ℕ) (rest : Bytes) → w < 2 ^ 32 → words (suc n) (word_bytes w ++ rest) ≡ w ∷ words n rest
unfolding words
word_bytes_lem n w rest h = ap (λ v. v ∷ words n rest) (omega arith)

module _ (part : Member → Bytes) where
  FitWords : List Member → Type 0
  FitWords [] = Unit {0}
  FitWords (m ∷ members) = (length (part m) < 2 ^ 32) × FitWords members

  pub length-join_words :
      (members : List Member)
      → length (join_bytes (map (λ (m : Member). word_bytes (length (part m))) members))
        ≡ counter_size * length members
  length-join_words [] = refl
  length-join_words (m ∷ members) = omega (arith, length-join_words members)

  words-join_words :
      (members : List Member) (rest : Bytes)
      → FitWords members
      → words
          (length members)
          (join_bytes (map (λ (m : Member). word_bytes (length (part m))) members) ++ rest)
        ≡ map (λ m. length (part m)) members
  unfolding words FitWords
  words-join_words [] rest h = refl
  words-join_words (m ∷ members) rest h =
      word_bytes_lem (length members) (length (part m))
        (join_bytes (map (λ (m : Member). word_bytes (length (part m))) members) ++ rest) h.0
      ∙ ap (λ ws. length (part m) ∷ ws) (words-join_words members rest h.1)

  pub length-join_bytes :
      (members : List Member)
      → length (join_bytes (map part members)) ≡ sum (map (λ m. length (part m)) members)
  length-join_bytes [] = refl
  length-join_bytes (m ∷ members) =
      length-append (part m) (join_bytes (map part members))
      ∙ ap (λ n. length (part m) + n) (length-join_bytes members)

  chunks-join_bytes :
      (members : List Member) (rest : Bytes)
      → chunks (map (λ m. length (part m)) members) (join_bytes (map part members) ++ rest)
        ≡ map part members
  unfolding chunks
  chunks-join_bytes [] rest = refl
  chunks-join_bytes (m ∷ members) rest =
      let tail = join_bytes (map part members) in
      rw
        (
          append_assoc (part m) tail rest,
          take-append_length (length (part m)) (part m) (tail ++ rest) refl,
          drop-append_length (length (part m)) (part m) (tail ++ rest) refl,
        )
        (ap (λ cs. part m ∷ cs) (chunks-join_bytes members rest))

pair_up_lem :
    (members : List Member)
    → pair_up (map (λ (m : Member). m.0) members) (map (λ (m : Member). m.1) members) ≡ members
pair_up_lem [] = refl
pair_up_lem ((k, v) ∷ members) = ap (λ ms. (k, v) ∷ ms) (pair_up_lem members)

keys_FitWords : (members : List Member) → HaveWords members → FitWords (λ m. m.0) members
unfolding FitWords
keys_FitWords [] h = tt
keys_FitWords (m ∷ members) h = (h.0, keys_FitWords members h.2)

vals_FitWords : (members : List Member) → HaveWords members → FitWords (λ m. m.1) members
unfolding FitWords
vals_FitWords [] h = tt
vals_FitWords (m ∷ members) h = (h.1, vals_FitWords members h.2)

length_pos : (members : List Member) → members ≢ [] → 0 < length members
length_pos [] h = absurd (h refl)
length_pos (m ∷ members) h = omega arith

-- The five parts of a bucket.
module _ (members : List Member) where
  abbrev pub key_words : Bytes
  key_words = join_bytes (map (λ (m : Member). word_bytes (length (m.0))) members)

  abbrev pub val_words : Bytes
  val_words = join_bytes (map (λ (m : Member). word_bytes (length (m.1))) members)

  abbrev pub all_keys : Bytes
  all_keys = join_bytes (map (λ (m : Member). m.0) members)

  abbrev pub all_vals : Bytes
  all_vals = join_bytes (map (λ (m : Member). m.1) members)

-- The bytes of a bucket of the members.
abbrev pub bucket_of : List Member → Value
bucket_of members = some (layout (length members) members)

pub length-layout :
    (members : List Member)
    → length (layout (length members) members)
      ≡ bytes_in_header
        + length members * 2 * counter_size
        + sum (map (λ (m : Member). length (m.0)) members)
        + sum (map (λ (m : Member). length (m.1)) members)
unfolding layout
length-layout members = omega (
  arith,
  length-append (key_words members) (val_words members ++ (all_keys members ++ all_vals members)),
  length-append (val_words members) (all_keys members ++ all_vals members),
  length-append (all_keys members) (all_vals members),
  length-join_words (λ m. m.0) members,
  length-join_words (λ m. m.1) members,
  length-join_bytes (λ m. m.0) members,
  length-join_bytes (λ m. m.1) members,
)

pub drop_two :
    (k : ℕ) (a b rest : Bytes) → length a + length b ≡ k → drop k (a ++ (b ++ rest)) ≡ rest
drop_two k a b rest h =
    ap (drop k) (sym (append_assoc a b rest))
    ∙ drop-append_length k (a ++ b) rest (length-append a b ∙ h)

pub drop_three :
    (k : ℕ) (a b c rest : Bytes)
    → length a + length b + length c ≡ k
    → drop k (a ++ (b ++ (c ++ rest))) ≡ rest
drop_three k a b c rest h =
    ap (drop k) (sym (append_assoc a b (c ++ rest)))
    ∙ drop_two k (a ++ b) c rest (ap (λ n. n + length c) (length-append a b) ∙ h)

pub drop_four :
    (k : ℕ) (a b c d rest : Bytes)
    → length a + length b + length c + length d ≡ k
    → drop k (a ++ (b ++ (c ++ (d ++ rest)))) ≡ rest
drop_four k a b c d rest h =
    ap (drop k) (sym (append_assoc a b (c ++ (d ++ rest))))
    ∙ drop_three k (a ++ b) c d rest (ap (λ n. n + length c + length d) (length-append a b) ∙ h)

module _ (members : List Member) (h : HaveWords members) (bound : length members < 2 ^ 32) where
  pub get_bucket_size_lem : members ≢ [] → get_bucket_size (bucket_of members) ≡ length members
  unfolding get_bucket_size layout words
  get_bucket_size_lem nonempty =
      let rest =
        key_words members ++ (val_words members ++ (all_keys members ++ all_vals members)) in
      let some_bytes : ltb bytes_in_header (length (layout (length members) members)) ≡ true =
        lt→ltb bytes_in_header _
          (omega (arith, length-layout members, length_pos members nonempty)) in
      let counter : words 1 (word_bytes (length members) ++ rest) ≡ length members ∷ [] =
        word_bytes_lem 0 (length members) rest bound in
      rw some_bytes (ap first_word counter)

  pub keys_lengths_lem :
      keys_lengths (bucket_of members) (length members) ≡ map (λ (m : Member). length (m.0)) members
  unfolding keys_lengths layout
  keys_lengths_lem = words-join_words (λ m. m.0) members _ (keys_FitWords members h)

  pub vals_lengths_lem :
      vals_lengths (bucket_of members) (length members) ≡ map (λ (m : Member). length (m.1)) members
  unfolding vals_lengths layout
  vals_lengths_lem =
      ap (words (length members)) (
        drop_two (bytes_in_header + length members * counter_size) (word_bytes (length members))
          (key_words members) (val_words members ++ (all_keys members ++ all_vals members))
          (omega (arith, length-join_words (λ m. m.0) members)))
      ∙ words-join_words (λ m. m.1) members _ (vals_FitWords members h)

  pub get_bucket_keys_lem :
      get_bucket_keys (bucket_of members) (length members) ≡ map (λ (m : Member). m.0) members
  unfolding get_bucket_keys keys_offset layout
  get_bucket_keys_lem =
      ap₂ chunks keys_lengths_lem (
        drop_three (bytes_in_header + length members * 2 * counter_size)
          (word_bytes (length members)) (key_words members) (val_words members)
          (all_keys members ++ all_vals members)
          (omega
            (arith, length-join_words (λ m. m.0) members, length-join_words (λ m. m.1) members)))
      ∙ chunks-join_bytes (λ m. m.0) members (all_vals members)

  pub get_bucket_vals_lem :
      get_bucket_vals (bucket_of members) (length members) ≡ map (λ (m : Member). m.1) members
  unfolding get_bucket_vals vals_offset keys_offset layout
  get_bucket_vals_lem =
      ap₂ chunks vals_lengths_lem (
        drop_four
          (bytes_in_header
            + length members * 2 * counter_size
            + sum (keys_lengths (bucket_of members) (length members)))
          (word_bytes (length members)) (key_words members) (val_words members) (all_keys members)
          (all_vals members)
          (omega (
            arith,
            length-join_words (λ m. m.0) members,
            length-join_words (λ m. m.1) members,
            length-join_bytes (λ m. m.0) members,
            ap sum keys_lengths_lem,
          ))
        ∙ sym (append-nil (all_vals members)))
      ∙ chunks-join_bytes (λ m. m.1) members []

-- A bucket that is laid out from members is read as these members, in their order.
pub for_each_in_bucket_lem :
    (members : List Member) → IsBucket members → for_each_in_bucket (bucket_of members) ≡ members
unfolding for_each_in_bucket
for_each_in_bucket_lem members (h, nonempty, bound) =
    let some_members : (length members == 0) ≡ false =
      ground (arith, length_pos members nonempty) in
    rw
      (
        get_bucket_size_lem members h bound nonempty,
        some_members,
        get_bucket_keys_lem members h bound,
        get_bucket_vals_lem members h bound,
      )
      (pair_up_lem members)
