-- ===== src/FullScan/Results.antt =====
-- What the callback makes of the keys of a collection, one portion after the other.
use mathlib.Core.Path.{ap₂}
use ukv.Prelude.{
  ℕ, zero, suc, ◌≡◌, ◌+◌, ◌-◌, ◌%◌, ◌≤◌, ◌<◌, ◌^◌, refl, sym, ap, ◌∙◌, Bool, true, false, List, [],
  ◌∷◌, ◌++◌, length, map, take, drop, arith, inl, inr, Bool-cases,
}
use ukv.Paths.Bucket.{Bytes}
use ukv.FullScan.{keys_from, Ascending, last_or, visit}
use ukv.FullScan.Portions.{
  AllBelow, without_lone, keys_from-AllBelow, next_portion, without_lone-portion,
}

last-below : (b n d : ℕ) (ks : List ℕ) → d < b → AllBelow b ks → last_or d (take n ks) < b
last-below b zero d ks h below = h
last-below b (suc n) d [] h below = h
last-below b (suc n) d (k ∷ ks) h below = last-below b n k ks below.0 below.1

module _ {R : Type 0} (callback : R → ℕ → Bytes → R × Bool) where
  pub visit-go :
      (k : ℕ) (ks : List ℕ) (b : Bytes) (bs : List Bytes) (r : R)
      → (callback r k b).1 ≡ true
      → visit callback (k ∷ ks) (b ∷ bs) r ≡ visit callback ks bs ((callback r k b).0)
  unfolding visit
  visit-go k ks b bs r go = rw (go, visit) refl

  pub visit-stop :
      (k : ℕ) (ks : List ℕ) (b : Bytes) (bs : List Bytes) (r : R)
      → (callback r k b).1 ≡ false
      → visit callback (k ∷ ks) (b ∷ bs) r ≡ ((callback r k b).0, false)
  unfolding visit
  visit-stop k ks b bs r stop = rw (stop, visit) refl

  module _ (val : ℕ → Bytes) where
    -- Keys behind keys are visited where these do not stop.
    visit-append_go :
        (ks ks' : List ℕ) (r : R)
        → (visit callback ks (map val ks) r).1 ≡ true
        → visit callback (ks ++ ks') (map val (ks ++ ks')) r
          ≡ visit callback ks' (map val ks') ((visit callback ks (map val ks) r).0)
    unfolding visit
    visit-append_go [] ks' r go = refl
    visit-append_go (k ∷ ks) ks' r go = elim (Bool-cases ((callback r k (val k)).1)) [
      | inl on ↦
          let opened = visit-go k ks (val k) (map val ks) r on in
          visit-go k (ks ++ ks') (val k) (map val (ks ++ ks')) r on
          ∙ visit-append_go ks ks' ((callback r k (val k)).0)
              (sym (ap (λ (x : R × Bool). x.1) opened) ∙ go)
          ∙ ap (λ (x : R × Bool). visit callback ks' (map val ks') (x.0)) (sym opened)
      | inr off ↦
          let opened =
            sym (ap (λ (x : R × Bool). x.1) (visit-stop k ks (val k) (map val ks) r off)) ∙ go in
          cc
    ]

    visit-append_stop :
        (ks ks' : List ℕ) (r : R)
        → (visit callback ks (map val ks) r).1 ≡ false
        → (visit callback (ks ++ ks') (map val (ks ++ ks')) r).0
          ≡ (visit callback ks (map val ks) r).0
    unfolding visit
    visit-append_stop [] ks' r stop = cc
    visit-append_stop (k ∷ ks) ks' r stop = elim (Bool-cases ((callback r k (val k)).1)) [
      | inl on ↦
          let opened = visit-go k ks (val k) (map val ks) r on in
          ap (λ (x : R × Bool). x.0) (visit-go k (ks ++ ks') (val k) (map val (ks ++ ks')) r on)
          ∙ visit-append_stop ks ks' ((callback r k (val k)).0)
              (sym (ap (λ (x : R × Bool). x.1) opened) ∙ stop)
          ∙ ap (λ (x : R × Bool). x.0) (sym opened)
      | inr off ↦
          ap (λ (x : R × Bool). x.0) (visit-stop k (ks ++ ks') (val k) (map val (ks ++ ks')) r off)
          ∙ ap (λ (x : R × Bool). x.0) (sym (visit-stop k ks (val k) (map val ks) r off))
    ]

  module _ (n : ℕ) (val : ℕ → Bytes) (all : List ℕ) where
    abbrev pub result : ℕ → R → R
    result start r =
        let ks = without_lone (suc n) (keys_from start all) in (visit callback ks (map val ks) r).0

    -- The keys behind a portion, which the next one starts with.
    pub next_keys :
        (start : ℕ) (keys : List ℕ)
        → Ascending all
        → AllBelow (2 ^ 64 - 1) all
        → 2 ≤ length (keys_from start all)
        → keys ≡ take (suc n) (keys_from start all)
        → keys_from ((last_or 0 keys + 1) % 2 ^ 64) all ≡ drop (suc n) (keys_from start all)
    next_keys start keys asc below two got =
        let ks = keys_from start all in
        let wrapped : (last_or 0 keys + 1) % 2 ^ 64 ≡ last_or 0 (take (suc n) ks) + 1 = omega (
          arith,
          ap (last_or 0) got,
          last-below (2 ^ 64 - 1) (suc n) 0 ks (omega arith)
              (keys_from-AllBelow (2 ^ 64 - 1) start all below),
        ) in
        ap (λ m. keys_from m all) wrapped ∙ next_portion n start all asc (omega (arith, two))

    module _ (start : ℕ) (r : R) (keys : List ℕ) (buckets : List Bytes) (pos : 1 ≤ n)
        (two : 2 ≤ length (keys_from start all)) (got : keys ≡ take (suc n) (keys_from start all))
        (held : buckets ≡ map val keys) where
      portion_visited :
          visit callback keys buckets r
          ≡ visit callback
              (take (suc n) (keys_from start all))
              (map val (take (suc n) (keys_from start all)))
              r
      portion_visited =
          ap (λ bs. visit callback keys bs r) held ∙ ap (λ vs. visit callback vs (map val vs) r) got

      split_result : result start r ≡ (
          let ks = keys_from start all in
          let vs = take (suc n) ks ++ without_lone (suc n) (drop (suc n) ks) in
          (visit callback vs (map val vs) r).0)
      split_result =
          ap (λ vs. (visit callback vs (map val vs) r).0)
            (without_lone-portion (suc n) (keys_from start all) (omega arith) two)

      -- A portion that the callback goes on behind leaves the result to the rest.
      pub result_go :
          Ascending all
          → AllBelow (2 ^ 64 - 1) all
          → (visit callback keys buckets r).1 ≡ true
          → result start r
            ≡ result ((last_or 0 keys + 1) % 2 ^ 64) ((visit callback keys buckets r).0)
      result_go asc below go =
          let ks = keys_from start all in
          split_result
          ∙ ap (λ (x : R × Bool). x.0)
              (visit-append_go val (take (suc n) ks) (without_lone (suc n) (drop (suc n) ks)) r
                (sym (ap (λ (x : R × Bool). x.1) portion_visited) ∙ go))
          ∙ ap₂
              (λ vs x.
                (visit callback (without_lone (suc n) vs) (map val (without_lone (suc n) vs)) x).0)
              (sym (next_keys start keys asc below two got))
              (ap (λ (x : R × Bool). x.0) (sym portion_visited))

      pub result_stop :
          (visit callback keys buckets r).1 ≡ false
          → result start r ≡ (visit callback keys buckets r).0
      result_stop stop =
          let ks = keys_from start all in
          split_result
          ∙ visit-append_stop val (take (suc n) ks) (without_lone (suc n) (drop (suc n) ks)) r
              (sym (ap (λ (x : R × Bool). x.1) portion_visited) ∙ stop)
          ∙ ap (λ (x : R × Bool). x.0) (sym portion_visited)
