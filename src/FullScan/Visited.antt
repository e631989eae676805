-- ===== src/FullScan/Visited.antt =====
-- The end of a full scan, and the keys that its callback is given.
use mathlib.Core.Path.{ap₂}
use ukv.Prelude.{
  ℕ, zero, suc, ◌≡◌, ◌+◌, ◌-◌, ◌%◌, ◌≤◌, ◌<◌, ◌^◌, max, min, refl, sym, ap, subst, ◌∙◌, Bool, none,
  some, List, [], ◌∷◌, length, length-take, length-drop, map, take, leb, arith, inl, inr,
  Bool-cases, Option-cases,
}
use ukv.Types.{CollectionKey}
use ukv.Paths.Bucket.{Bytes, bytes_of}
use ukv.FullScan.{
  keys_from, Ascending, ScannedEngine, Ended, finished, failed, last_or, visit, scan_portions,
  full_scan_collection,
}
use ukv.FullScan.Portions.{AllBelow, without_lone, without_lone-few}
use ukv.FullScan.Results.{result, next_keys, result_go, result_stop}

module _ {R : Type 0} (callback : R → ℕ → Bytes → R × Bool) (source : ScannedEngine)
    (collection : ℕ) where
  -- A call of the engine reports an error.
  pub data Fails : Type 0 where
    scan_fails :
        (s : source.eng.State) (start : CollectionKey) (limit : ℕ)
        → source.scan s start limit ≡ none
        → Fails
    read_fails :
        (s : source.eng.State) (keys : List CollectionKey) → source.eng.read s keys ≡ none → Fails

  -- The scan has run to its end with the result, unless a call failed.
  pub data EndsWith (e : Ended R) (result : R) : Type 0 where
    whole : e ≡ finished result → EndsWith e result
    cut : (r : R) → e ≡ failed r → Fails → EndsWith e result

  abbrev place_in : ℕ → CollectionKey
  place_in k = record { collection = collection; key = k }

  map_places :
      (s : source.eng.State) (val : ℕ → Bytes)
      → ((k : ℕ) → bytes_of (source.eng.value_at s (place_in k)) ≡ val k)
      → (keys : List ℕ)
      → map (λ k. bytes_of (source.eng.value_at s k)) (map place_in keys) ≡ map val keys
  map_places s val h [] = refl
  map_places s val h (k ∷ keys) = ap₂ (λ b bs. b ∷ bs) (h k) (map_places s val h keys)

  EndsWith-of : {e e' : Ended R} {x x' : R} → e ≡ e' → x ≡ x' → EndsWith e' x' → EndsWith e x
  EndsWith-of {e} {e'} {x} {x'} p q h =
      subst (λ y. EndsWith y x) (sym p) (subst (EndsWith e') (sym q) h)

  -- A portion changes neither the keys nor the values.
  module _ (s s1 s2 : source.eng.State) (start n : ℕ) (keys : List ℕ) (buckets : List Bytes) where
    same_keys :
        source.scan s (place_in start) (suc n) ≡ some (s1, keys)
        → source.eng.read s1 (map place_in keys) ≡ some (s2, buckets)
        → source.keys_in s2 ≡ source.keys_in s
    same_keys e f =
        source.read_keys s1 s2 (map place_in keys) buckets f
        ∙ source.scan_keys s s1 (place_in start) (suc n) keys e (omega arith)

    same_value :
        (k : ℕ)
        → source.scan s (place_in start) (suc n) ≡ some (s1, keys)
        → source.eng.read s1 (map place_in keys) ≡ some (s2, buckets)
        → source.eng.value_at s2 (place_in k) ≡ source.eng.value_at s (place_in k)
    same_value k e f =
        source.eng.read_keeps s1 s2 (map place_in keys) buckets (place_in k) f
        ∙ source.scan_values s s1 (place_in start) (suc n) keys (place_in k) e (omega arith)

  scan_portions-EndsWith :
      (n : ℕ) (val : ℕ → Bytes) (all : List ℕ)
      → 1 ≤ n
      → Ascending all
      → AllBelow (2 ^ 64 - 1) all
      → (fuel : ℕ) (s : source.eng.State) (start : ℕ) (r : R) → source.keys_in s collection ≡ all
      → ((k : ℕ) → bytes_of (source.eng.value_at s (place_in k)) ≡ val k)
      → length (keys_from start all) < fuel
      → EndsWith
          (scan_portions callback source collection (suc n) fuel s start r)
          (result callback n val all start r)
  unfolding scan_portions
  scan_portions-EndsWith n val all pos asc below zero s start r is vals enough =
      absurd (omega arith)
  scan_portions-EndsWith n val all pos asc below (suc fuel) s start r is vals enough =
      let ks = keys_from start all in
      elim (Option-cases (source.scan s (place_in start) (suc n))) [
        | inl e ↦ cut r (rw (e, scan_portions) refl) (scan_fails s (place_in start) (suc n) e)
        | inr ((s1, keys), e) ↦
            let got : keys ≡ take (suc n) ks =
              source.scan_lem s s1 (place_in start) (suc n) keys e (omega arith)
              ∙ ap (λ a. take (suc n) (keys_from start a)) is in
            let count : length keys ≡ min (suc n) (length ks) =
              ap length got ∙ length-take (suc n) ks in
            elim (Bool-cases (leb (length keys) 1)) [
              | inl few ↦
                  EndsWith-of (rw (e, few, scan_portions) refl)
                    (ap (λ vs. (visit callback vs (map val vs) r).0)
                      (without_lone-few (suc n) ks (omega arith) (ground arith)))
                    (whole refl)
              | inr many ↦ elim (Option-cases (source.eng.read s1 (map place_in keys))) [
                | inl f ↦
                    cut r (rw (e, many, f, scan_portions) refl)
                      (read_fails s1 (map place_in keys) f)
                | inr ((s2, buckets), f) ↦
                    let held : buckets ≡ map val keys =
                      source.eng.read_lem s1 s2 (map place_in keys) buckets f
                      ∙ map_places s1 val
                          (λ k.
                            ap bytes_of (
                              source.scan_values s s1 (place_in start) (suc n) keys (place_in k) e
                                (omega arith))
                            ∙ vals k)
                          keys in
                    let two : 2 ≤ length ks = ground (arith, count) in
                    let next = (last_or 0 keys + 1) % 2 ^ 64 in
                    elim (Bool-cases ((visit callback keys buckets r).1)) [
                      | inl go ↦
                          EndsWith-of (rw (e, many, f, go, scan_portions) refl)
                            (result_go callback n val all start r keys buckets pos two got held asc
                              below go)
                            (scan_portions-EndsWith n val all pos asc below fuel s2 next
                              ((visit callback keys buckets r).0)
                              (ap (λ (g : ℕ → List ℕ). g collection)
                                  (same_keys s s1 s2 start n keys buckets e f)
                                ∙ is)
                              (λ k.
                                ap bytes_of (same_value s s1 s2 start n keys buckets k e f)
                                ∙ vals k)
                              (omega (
                                arith,
                                two,
                                ap length
                                    (next_keys callback n val all start keys asc below two got),
                                length-drop (suc n) ks,
                              )))
                      | inr stop ↦
                          EndsWith-of (rw (e, many, f, stop, scan_portions) refl)
                            (result_stop callback n val all start r keys buckets pos two got held
                              stop)
                            (whole refl)
                    ]
              ]
            ]
      ]

-- For keys below the largest one, and with fuel for one step more than there are keys from the
-- start on, a full scan ends, and fails only where a call of the engine does: the callback was
-- given the buckets of all of these keys in their order, or those up to the one at which it
-- stopped, but without the last key if portions of the larger of `read_ahead` and 2 leave it
-- alone.
pub full_scan_collection-EndsWith :
    {R : Type 0} (callback : R → ℕ → Bytes → R × Bool) (source : ScannedEngine)
    (collection read_ahead fuel : ℕ) (s : source.eng.State) (start : ℕ) (r : R)
    → AllBelow (2 ^ 64 - 1) (source.keys_in s collection)
    → length (keys_from start (source.keys_in s collection)) < fuel
    → EndsWith callback source collection
        (full_scan_collection callback source collection read_ahead fuel s start r)
        (let ks = without_lone (max read_ahead 2) (keys_from start (source.keys_in s collection)) in
          (visit callback ks
            (map
              (λ k. bytes_of (source.eng.value_at s (record { collection = collection; key = k })))
              ks)
            r).0)
unfolding full_scan_collection
full_scan_collection-EndsWith callback source collection read_ahead fuel s start r below enough =
    let vals : ℕ → Bytes =
      λ k. bytes_of (source.eng.value_at s (record { collection = collection; key = k })) in
    let all = source.keys_in s collection in
    let portion : max read_ahead 2 ≡ suc (max read_ahead 2 - 1) = omega arith in
    subst
      (λ m.
        EndsWith callback source collection
          (scan_portions callback source collection m fuel s start r)
          ((visit callback (without_lone m (keys_from start all))
            (map vals (without_lone m (keys_from start all))) r).0))
      (sym portion)
      (scan_portions-EndsWith callback source collection (max read_ahead 2 - 1) vals all
        (omega arith) (source.ascending s collection) below fuel s start r refl (λ k. refl) enough)
