-- ===== src/FullScan/Portions.antt =====
-- The portions of a full scan, put together.
use native.Mathlib.Nat.{mod-eq-sub-mod, mod-eq_of_lt}
use mathlib.Core.Path.{ap₂}
use ukv.Prelude.{
  ℕ, zero, suc, ◌≡◌, ◌≢◌, append-nil, ◌+◌, ◌-◌, ◌%◌, ◌≤◌, ◌<◌, refl, sym, ap, ◌∙◌, true, false,
  List, [], ◌∷◌, ◌++◌, length, length-drop, take, drop, take-append-drop, take_of_length-le, ltb,
  leb, ◌==◌, if◌then◌else◌, arith, inl, inr, Bool-cases,
}
use ukv.FullScan.{keys_from, Over, Ascending, last_or}

abbrev pub AllBelow : ℕ → List ℕ → Type 0
AllBelow n [] = Unit {0}
AllBelow n (k ∷ ks) = (k < n) × AllBelow n ks

-- All keys, but not the last one if it is left alone by the portions before it.
abbrev pub without_lone : ℕ → List ℕ → List ℕ
without_lone n ks = if length ks % n == 1 then take (length ks - 1) ks else ks

pub keys_from-Ascending : (start : ℕ) (ks : List ℕ) → Ascending ks → Ascending (keys_from start ks)
unfolding keys_from
keys_from-Ascending start [] h = tt
keys_from-Ascending start (k ∷ ks) h = elim (Bool-cases (ltb k start)) [
  | inl e ↦ rw e (keys_from-Ascending start ks h.1)
  | inr e ↦ rw e h
]

pub keys_from-AllBelow :
    (n start : ℕ) (ks : List ℕ) → AllBelow n ks → AllBelow n (keys_from start ks)
unfolding keys_from
keys_from-AllBelow n start [] h = tt
keys_from-AllBelow n start (k ∷ ks) h = elim (Bool-cases (ltb k start)) [
  | inl e ↦ rw e (keys_from-AllBelow n start ks h.1)
  | inr e ↦ rw e h
]

keys_from-keys_from :
    (start t : ℕ) (ks : List ℕ) → start ≤ t → keys_from t (keys_from start ks) ≡ keys_from t ks
unfolding keys_from
keys_from-keys_from start t [] h = refl
keys_from-keys_from start t (k ∷ ks) h = elim (Bool-cases (ltb k start)) [
  | inl e ↦
      let below : ltb k t ≡ true = ground arith in rw (e, below) (keys_from-keys_from start t ks h)
  | inr e ↦ rw e refl
]

keys_from-Over : (k : ℕ) (ks : List ℕ) → Over k ks → keys_from (k + 1) ks ≡ ks
unfolding keys_from
keys_from-Over k [] h = refl
keys_from-Over k (x ∷ ks) h = let over : ltb x (k + 1) ≡ false = ground arith in rw over refl

last-le : (n x : ℕ) (ks : List ℕ) → Ascending (x ∷ ks) → x ≤ last_or x (take n ks)
last-le zero x ks h = omega arith
last-le (suc n) x [] h = omega arith
last-le (suc n) x (y ∷ ks) h = omega (arith, h.0, last-le n y ks h.1)

-- What is left behind a portion is what is not below the key after its last one.
keys_from-last :
    (n d : ℕ) (ks : List ℕ)
    → Ascending ks
    → 0 < length ks
    → keys_from (last_or d (take (suc n) ks) + 1) ks ≡ drop (suc n) ks
unfolding keys_from
keys_from-last n d [] h some_left = absurd (omega arith)
keys_from-last zero d (k ∷ ks) h some_left =
    let below : ltb k (k + 1) ≡ true = ground arith in rw below (keys_from-Over k ks h.0)
keys_from-last (suc n) d (k ∷ []) h some_left =
    let below : ltb k (k + 1) ≡ true = ground arith in rw below refl
keys_from-last (suc n) d (k ∷ x ∷ ks) h some_left =
    let later = last-le n x ks h.1 in
    let below : ltb k (last_or k (take (suc n) (x ∷ ks)) + 1) ≡ true = ground (arith, later, h.0) in
    rw below (keys_from-last n k (x ∷ ks) h.1 (omega arith))

keys_from-head : (start x : ℕ) (ks xs : List ℕ) → keys_from start ks ≡ x ∷ xs → start ≤ x
unfolding keys_from
keys_from-head start x [] xs e = cc
keys_from-head start x (k ∷ ks) xs e = elim (Bool-cases (ltb k start)) [
  | inl below ↦
      let opened : keys_from start (k ∷ ks) ≡ keys_from start ks = rw below refl in
      keys_from-head start x ks xs (sym opened ∙ e)
  | inr over ↦ ground (arith, over)
]

start-le :
    (n start : ℕ) (ks : List ℕ)
    → Ascending ks
    → 0 < length (keys_from start ks)
    → start ≤ last_or 0 (take (suc n) (keys_from start ks)) + 1
start-le n start ks asc some_left =
    from_head n start ks (keys_from start ks) refl (keys_from-Ascending start ks asc) some_left
  where
    from_head :
        (n start : ℕ) (ks xs : List ℕ)
        → keys_from start ks ≡ xs
        → Ascending xs
        → 0 < length xs
        → start ≤ last_or 0 (take (suc n) xs) + 1
    from_head n start ks [] e h some_left = absurd (omega arith)
    from_head n start ks (x ∷ xs) e h some_left =
        omega (arith, keys_from-head start x ks xs e, last-le n x xs h)

-- The next portion starts where the keys behind this one do.
pub next_portion :
    (n start : ℕ) (ks : List ℕ)
    → Ascending ks
    → 0 < length (keys_from start ks)
    → keys_from (last_or 0 (take (suc n) (keys_from start ks)) + 1) ks
      ≡ drop (suc n) (keys_from start ks)
next_portion n start ks asc some_left =
    sym (keys_from-keys_from start _ ks (start-le n start ks asc some_left))
    ∙ keys_from-last n 0 (keys_from start ks) (keys_from-Ascending start ks asc) some_left

drop_of_length-le : (n : ℕ) (xs : List ℕ) → length xs ≤ n → drop n xs ≡ []
drop_of_length-le zero [] h = refl
drop_of_length-le zero (x ∷ xs) h = absurd (omega arith)
drop_of_length-le (suc n) [] h = refl
drop_of_length-le (suc n) (x ∷ xs) h = drop_of_length-le n xs (omega arith)

take-nil : (n : ℕ) → take {A = ℕ} n [] ≡ []
take-nil zero = refl
take-nil (suc n) = refl

take-sum : (n m : ℕ) (xs : List ℕ) → take (n + m) xs ≡ take n xs ++ take m (drop n xs)
take-sum zero m xs = ap (λ i. take i xs) (omega arith)
take-sum (suc n) m [] = take-nil (suc n + m) ∙ sym (take-nil m)
take-sum (suc n) m (x ∷ xs) =
    ap (λ i. take i (x ∷ xs)) {x = suc n + m} {y = suc (n + m)} (omega arith)
    ∙ ap (λ ys. x ∷ ys) (take-sum n m xs)

pub without_lone-few : (n : ℕ) (ks : List ℕ) → 2 ≤ n → length ks ≤ 1 → without_lone n ks ≡ []
without_lone-few n [] h few = ap (λ m. if m == 1 then [] else []) (mod-eq_of_lt (omega arith))
without_lone-few n (x ∷ []) h few =
    ap (λ m. if m == 1 then [] else (x ∷ [])) (mod-eq_of_lt {n = 1} (omega arith))
without_lone-few n (x ∷ y ∷ ks) h few = absurd (omega arith)

pub without_lone-portion :
    (n : ℕ) (ks : List ℕ)
    → 2 ≤ n
    → 2 ≤ length ks
    → without_lone n ks ≡ take n ks ++ without_lone n (drop n ks)
without_lone-portion n ks h two = elim (Bool-cases (leb n (length ks))) [
  | inl long ↦
      let rest : length (drop n ks) ≡ length ks - n = length-drop n ks in
      let same : length ks % n ≡ length (drop n ks) % n =
        mod-eq-sub-mod (ground arith) ∙ ap (λ m. m % n) (sym rest) in
      elim (Bool-cases (length (drop n ks) % n == 1)) [
        | inl alone ↦
            let some_left : length (drop n ks) ≢ 0 = λ z.
              let none_left : length (drop n ks) % n ≡ 0 =
                ap (λ m. m % n) z ∙ mod-eq_of_lt (omega arith) in
              absurd (ground arith) in
            ap (λ m. if m == 1 then take (length ks - 1) ks else ks) same
            ∙ rw alone (
                ap (λ m. take m ks) (omega (arith, some_left))
                ∙ take-sum n (length (drop n ks) - 1) ks)
        | inr fit ↦
            ap (λ m. if m == 1 then take (length ks - 1) ks else ks) same
            ∙ rw fit (sym (take-append-drop n ks))
      ]
  | inr short ↦
      let small : length ks < n = ground arith in
      let many : (length ks == 1) ≡ false = ground arith in
      ap (λ m. if m == 1 then take (length ks - 1) ks else ks) (mod-eq_of_lt small)
      ∙ rw many (
          sym (
            ap₂ (λ front back. front ++ without_lone n back) (take_of_length-le n ks (omega arith))
              (drop_of_length-le n ks (omega arith))
            ∙ ap (λ back. ks ++ back) (without_lone-few n [] h (omega arith))
            ∙ append-nil ks))
]
