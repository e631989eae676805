-- ===== src/FullScan.antt =====
-- src/helpers/full_scan.hpp: a scan of a whole collection, in portions, with a callback.
pub mod OverUmem
pub mod Portions
pub mod Results
pub mod Visited
use ukv.Prelude.{
  ℕ, zero, suc, ◌≡◌, ◌+◌, ◌%◌, ◌≤◌, ◌<◌, ◌^◌, max, Bool, true, false, Option, none, some, List, [],
  ◌∷◌, length, map, take, ltb, leb, if◌then◌else◌,
}
use ukv.Types.{CollectionKey}
use ukv.Paths.Bucket.{Bytes, bytes_of}
use ukv.Paths.Batch.{Engine}

-- The keys that are not below the start.
unfoldable pub keys_from : ℕ → List ℕ → List ℕ
keys_from start [] = []
keys_from start (k ∷ ks) = if ltb k start then keys_from start ks else k ∷ ks

abbrev pub Over : ℕ → List ℕ → Type 0
Over k [] = Unit {0}
Over k (x ∷ ks) = suc k ≤ x

abbrev pub Ascending : List ℕ → Type 0
Ascending [] = Unit {0}
Ascending (k ∷ ks) = Over k ks × Ascending ks

-- An engine with `ukv_scan`: the keys of a collection ascend, and a scan gives as many as are asked
-- for from its start on.
pub record ScannedEngine : Type 1 where
  pub eng : Engine
  pub keys_in : eng.State → ℕ → List ℕ
  pub ascending : (s : eng.State) (c : ℕ) → Ascending (keys_in s c)
  pub scan : eng.State → CollectionKey → ℕ → Option (eng.State × List ℕ)
  pub scan_lem :
      (s s' : eng.State) (start : CollectionKey) (limit : ℕ) (found : List ℕ)
      → scan s start limit ≡ some (s', found)
      → 0 < limit
      → found ≡ take limit (keys_from start.key (keys_in s start.collection))
  pub scan_keys :
      (s s' : eng.State) (start : CollectionKey) (limit : ℕ) (found : List ℕ)
      → scan s start limit ≡ some (s', found)
      → 0 < limit
      → keys_in s' ≡ keys_in s
  pub scan_values :
      (s s' : eng.State) (start : CollectionKey) (limit : ℕ) (found : List ℕ) (k : CollectionKey)
      → scan s start limit ≡ some (s', found)
      → 0 < limit
      → eng.value_at s' k ≡ eng.value_at s k
  pub read_keys :
      (s s' : eng.State) (keys : List CollectionKey) (found : List Bytes)
      → eng.read s keys ≡ some (s', found)
      → keys_in s' ≡ keys_in s

-- How the scan ends, with the state of the callback.
pub data Ended {ℓ} (R : Type ℓ) : Type ℓ where
  finished : R → Ended R
  failed : R → Ended R
  out_of_fuel : R → Ended R

abbrev pub last_or : ℕ → List ℕ → ℕ
last_or d [] = d
last_or d (k ∷ ks) = last_or k ks

module _ {R : Type 0} (callback : R → ℕ → Bytes → R × Bool) where
  -- The buckets of a portion, up to the first at which the callback does not go on.
  unfoldable pub visit : List ℕ → List Bytes → R → R × Bool
  visit [] buckets r = (r, true)
  visit (k ∷ keys) [] r = (r, true)
  visit (k ∷ keys) (b ∷ buckets) r =
      let (r', go) = callback r k b in
      elim go [ true ↦ visit keys buckets r' | false ↦ (r', false) ]

  module _ (source : ScannedEngine) (collection : ℕ) (read_ahead : ℕ) where
    unfoldable pub scan_portions : ℕ → source.eng.State → ℕ → R → Ended R
    unfolding visit
    scan_portions zero s start r = out_of_fuel r
    scan_portions (suc fuel) s start r =
        elim (source.scan s (record { collection = collection; key = start }) read_ahead) [
          | none ↦ failed r
          | some (s', keys) ↦ elim (leb (length keys) 1) [
            | true ↦ finished r
            | false ↦
                elim (source.eng.read s'
                  (map (λ k. record { collection = collection; key = k }) keys)) [
                    | none ↦ failed r
                    | some (s'', buckets) ↦
                        let (r', go) = visit keys buckets r in
                        elim go [
                          | false ↦ finished r'
                          | true ↦ scan_portions fuel s'' ((last_or 0 keys + 1) % 2 ^ 64) r'
                        ]
                  ]
          ]
        ]

  unfoldable pub full_scan_collection :
      (source : ScannedEngine) → ℕ → ℕ → ℕ → source.eng.State → ℕ → R → Ended R
  unfolding scan_portions
  full_scan_collection source collection read_ahead fuel s start r =
      scan_portions source collection (max read_ahead 2) fuel s start r
