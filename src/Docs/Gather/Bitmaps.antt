-- ===== src/Docs/Gather/Bitmaps.antt =====
-- The bits of the tape that belong to a field of a document.
use native.Mathlib.Nat.{mul-le-mul_left, mul-le-mul_right}
use ukv.Prelude.{
  ℕ, ◌+◌, ◌*◌, ◌≤◌, ◌<◌, ◌≡◌, ◌⊎◌, inl, inr, refl, sym, ap, ◌∙◌, Bool, true, false, List, arith,
  length, if◌then◌else◌, ltb, ltb→lt, Bool-cases,
}
use ukv.Types.{divide_round_up}
use ukv.Docs.Columns.Marks.{IsInside}
use ukv.Docs.Gather.{GatherArg, slots_per_bitmap, count_bitmaps, bytes_for_bitmaps, column_at}

-- A bit of a field, in a bitmap that starts so many octets behind the first.
abbrev bit_at : ℕ → ℕ → ℕ → ℕ → ℕ
bit_at slots base j i = (base + j * slots) * 8 + i

row-le : (slots j k : ℕ) → j < k → j * slots + slots ≤ k * slots
row-le slots j k h =
    let next : j + 1 ≤ k = omega arith in omega (arith, mul-le-mul_right slots next)

bit_at-le :
    (slots fields base j i : ℕ)
    → j < fields
    → i < slots * 8
    → bit_at slots base j i < (base + fields * slots) * 8
bit_at-le slots fields base j i h k = omega (arith, row-le slots j fields h)

-- A bit of the first bitmap and one of another, or of the same, are one only for the same field and
-- document.
bit_at-injective :
    (slots fields base j j' i i' : ℕ)
    → (base ≡ 0) ⊎ (fields * slots ≤ base)
    → j < fields
    → i < slots * 8
    → i' < slots * 8
    → bit_at slots base j' i' ≡ bit_at slots 0 j i
    → (j ≡ j') × (i ≡ i')
bit_at-injective slots fields base j j' i i' (inr far) h k k' e =
    absurd (omega (arith, row-le slots j fields h))
bit_at-injective slots fields base j j' i i' (inl near) h k k' e = elim (Bool-cases (ltb j j')) [
  | inl p ↦ absurd (omega (arith, row-le slots j j' (ltb→lt j j' p)))
  | inr p ↦ elim (Bool-cases (ltb j' j)) [
    | inl q ↦ absurd (omega (arith, row-le slots j' j (ltb→lt j' j q)))
    | inr q ↦ let same : j ≡ j' = ground arith in (same, omega (arith, ap (λ n. n * slots) same))
  ]
]

-- `divide_round_up` gives a bit to every document.
slots_per_bitmap-fits : (c : GatherArg) → c.docs_count ≤ slots_per_bitmap c * 8
unfolding slots_per_bitmap divide_round_up
slots_per_bitmap-fits c = omega arith

one-le : (n : ℕ) → 0 < n → 1 ≤ n
one-le n h = h

-- As many bitmaps as there are have room in the bytes for bitmaps.
count-room :
    (conversions collisions : Bool) (slots fields : ℕ)
    → (if conversions then slots * fields else 0) + fields * slots
      ≤ slots * ((1 + (if conversions then 1 else 0)) + (if collisions then 1 else 0)) * fields
count-room true true slots fields = omega arith
count-room true false slots fields = omega arith
count-room false true slots fields = omega arith
count-room false false slots fields = omega arith

count-room_last :
    (conversions collisions : Bool) (slots fields : ℕ)
    → (if collisions then (if conversions then slots * fields else 0) + slots * fields else 0)
        + fields * slots
      ≤ slots * ((1 + (if conversions then 1 else 0)) + (if collisions then 1 else 0)) * fields
count-room_last true true slots fields = omega arith
count-room_last true false slots fields = omega arith
count-room_last false true slots fields = omega arith
count-room_last false false slots fields = omega arith

bytes_for_bitmaps-le :
    (c : GatherArg)
    → 0 < length c.types
    → ((if c.wants_conversions then slots_per_bitmap c * length c.types else 0)
          + length c.types * slots_per_bitmap c
        ≤ bytes_for_bitmaps c)
      × ((if c.wants_collisions
              then (if c.wants_conversions then slots_per_bitmap c * length c.types else 0)
                + slots_per_bitmap c * length c.types
              else 0)
            + length c.types * slots_per_bitmap c
          ≤ bytes_for_bitmaps c)
unfolding bytes_for_bitmaps count_bitmaps
bytes_for_bitmaps-le c h =
    let squared =
      mul-le-mul_left (slots_per_bitmap c * count_bitmaps c * length c.types)
        (one-le (length c.types) h) in
    (
      omega (
        arith,
        count-room c.wants_conversions c.wants_collisions (slots_per_bitmap c) (length c.types),
        squared,
      ),
      omega (
        arith,
        count-room_last c.wants_conversions c.wants_collisions (slots_per_bitmap c)
            (length c.types),
        squared,
      ),
    )

-- Bitmaps that were asked for lie behind others, and are the first ones otherwise.
base-IsApart :
    (wanted : Bool) (n m : ℕ)
    → m ≤ n
    → ((if wanted then n else 0) ≡ 0) ⊎ (m ≤ (if wanted then n else 0))
base-IsApart true n m h = inr h
base-IsApart false n m h = inl refl

from_zero : (p n : ℕ) → p ≡ n * 8 → p ≡ (0 + n) * 8
from_zero p n h = omega arith

bitmaps-le : (fields slots : ℕ) → fields * slots ≤ slots * fields
bitmaps-le fields slots = omega arith

bitmaps-le_after : (fields slots before : ℕ) → fields * slots ≤ before + slots * fields
bitmaps-le_after fields slots before = omega arith

module _ (c : GatherArg) where
  abbrev first_conversions : ℕ
  first_conversions = if c.wants_conversions then slots_per_bitmap c * length c.types else 0

  abbrev first_collisions : ℕ
  first_collisions =
      if c.wants_collisions then first_conversions + slots_per_bitmap c * length c.types else 0

  abbrev IsApart : ℕ → Type 0
  IsApart base = (base ≡ 0) ⊎ (length c.types * slots_per_bitmap c ≤ base)

  conversions-IsApart : IsApart first_conversions
  conversions-IsApart =
      base-IsApart c.wants_conversions _ _ (bitmaps-le (length c.types) (slots_per_bitmap c))

  collisions-IsApart : IsApart first_collisions
  collisions-IsApart =
      base-IsApart c.wants_collisions _ _
        (bitmaps-le_after (length c.types) (slots_per_bitmap c) first_conversions)

  column_at-validities : (j : ℕ) → (column_at c j).validities ≡ j * slots_per_bitmap c * 8
  unfolding column_at
  column_at-validities j = refl

  column_at-conversions :
      (j : ℕ) → (column_at c j).conversions ≡ (first_conversions + j * slots_per_bitmap c) * 8
  unfolding column_at
  column_at-conversions j = refl

  column_at-collisions :
      (j : ℕ) → (column_at c j).collisions ≡ (first_collisions + j * slots_per_bitmap c) * 8
  unfolding column_at
  column_at-collisions j = refl

  -- The bit of a field's validity for a document is one of the three bits that a column is written to
  -- only for that field and document.
  pub record IsOwn (j i : ℕ) : Type 0 where
    pub by_validities :
        (j' i' : ℕ)
        → i' < c.docs_count
        → (column_at c j').validities + i' ≡ (column_at c j).validities + i
        → (j ≡ j') × (i ≡ i')
    pub by_conversions :
        (j' i' : ℕ)
        → i' < c.docs_count
        → (column_at c j').conversions + i' ≡ (column_at c j).validities + i
        → (j ≡ j') × (i ≡ i')
    pub by_collisions :
        (j' i' : ℕ)
        → i' < c.docs_count
        → (column_at c j').collisions + i' ≡ (column_at c j).validities + i
        → (j ≡ j') × (i ≡ i')

  pub column_at-IsOwn : (j i : ℕ) → j < length c.types → i < c.docs_count → IsOwn j i
  column_at-IsOwn j i h k =
      let room = slots_per_bitmap-fits c in
      let own : (base j' i' place : ℕ)
          → IsApart base
          → i' < c.docs_count
          → place ≡ (base + j' * slots_per_bitmap c) * 8
          → place + i' ≡ (column_at c j).validities + i
          → (j ≡ j') × (i ≡ i') =
        λ base j' i' place apart lt at e.
          bit_at-injective (slots_per_bitmap c) (length c.types) base j j' i i' apart h
            (omega arith) (omega arith)
            (ap (λ p. p + i') (sym at)
              ∙ e
              ∙ ap (λ p. p + i) (from_zero _ _ (column_at-validities j))) in
      record {
        by_validities =
            λ j' i' lt e. own 0 j' i' _ (inl refl) lt (from_zero _ _ (column_at-validities j')) e;
        by_conversions = λ j' i' lt e.
            own first_conversions j' i' _ conversions-IsApart lt (column_at-conversions j') e;
        by_collisions = λ j' i' lt e.
            own first_collisions j' i' _ collisions-IsApart lt (column_at-collisions j') e;
      }

  pub column_at-IsInside :
      (bits : List Bool) (j i : ℕ)
      → length bits ≡ bytes_for_bitmaps c * 8
      → j < length c.types
      → i < c.docs_count
      → IsInside (column_at c j) i bits
  column_at-IsInside bits j i e h k =
      let room = slots_per_bitmap-fits c in
      let (conversions, collisions) = bytes_for_bitmaps-le c (omega arith) in
      let lt : (base place : ℕ)
          → base + length c.types * slots_per_bitmap c ≤ bytes_for_bitmaps c
          → place ≡ (base + j * slots_per_bitmap c) * 8
          → place + i < length bits =
        λ base place fits at.
          let below = bit_at-le (slots_per_bitmap c) (length c.types) base j i h (omega arith) in
          omega arith in
      record {
        valid_fits = lt 0 _ (omega arith) (from_zero _ _ (column_at-validities j));
        convert_fits = lt first_conversions _ conversions (column_at-conversions j);
        collide_fits = lt first_collisions _ collisions (column_at-collisions j);
      }
