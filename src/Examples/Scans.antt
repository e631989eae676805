-- ===== src/Examples/Scans.antt =====
-- The theorems about full scans and matching, at three buckets of which portions of two leave one alone.
use ukv.Prelude.{
  ℕ, suc, ◌≡◌, ◌-◌, ◌^◌, refl, Bool, true, List, [], ◌∷◌, ◌++◌, length, map, take, arith, max,
}
use ukv.Types.{key_lt}
use ukv.Paths.Bucket.{Bytes, bytes_of, starts_with}
use ukv.Paths.Bucket.Layout.{bucket_of}
use ukv.FullScan.{keys_from, ScannedEngine, visit, full_scan_collection}
use ukv.FullScan.Portions.{AllBelow, without_lone}
use ukv.FullScan.Visited.{EndsWith, full_scan_collection-EndsWith}
use ukv.Paths.Matching.{Scanning, scan_in_bucket, full_scan_collection_w_predicate}
use ukv.Paths.Matching.Pages.{listed, members_of}
use ukv.Paths.Matching.Listed.{full_scan_w_predicate-lists}
use ukv.FullScan.OverUmem.{umem_scanned, keys_of}
use ukv.Umem.Entries.{Pair}
use ukv.Umem.Entries.Above.{IsOrdered}
use ukv.Examples.SortedSet.{OrderedList, ordered_list}
use ukv.Examples.Buckets.{two_members}

abbrev three_pairs : List Pair
three_pairs =
    record { place = record { collection = 0; key = 4 }; range = bucket_of two_members }
    ∷ record { place = record { collection = 0; key = 6 }; range = bucket_of two_members }
    ∷ record { place = record { collection = 0; key = 9 }; range = bucket_of two_members }
    ∷ []

pub three_pairs-IsOrdered : IsOrdered three_pairs
unfolding key_lt
three_pairs-IsOrdered = ((refl, (refl, tt)), ((refl, tt), (tt, tt)))

-- The set of the three buckets, in the `umem` engine.
abbrev pub three_buckets : OrderedList
three_buckets = (three_pairs, three_pairs-IsOrdered)

abbrev pub scanned : ScannedEngine
scanned = umem_scanned ordered_list

-- A callback that counts the buckets that it is given.
abbrev count_buckets : ℕ → ℕ → Bytes → ℕ × Bool
count_buckets n key bucket = (suc n, true)

pub three_keys-AllBelow : AllBelow (2 ^ 64 - 1) (scanned.keys_in three_buckets 0)
unfolding keys_of
three_keys-AllBelow = (omega arith, (omega arith, (omega arith, tt)))

full_scan_collection-EndsWith_example :
    EndsWith count_buckets scanned 0
      (full_scan_collection count_buckets scanned 0 2 4 three_buckets 0 0)
      (let ks = without_lone (max 2 2) (keys_from 0 (scanned.keys_in three_buckets 0)) in
        (visit count_buckets ks
          (map
            (λ k.
              bytes_of (scanned.eng.value_at three_buckets (record { collection = 0; key = k })))
            ks)
          0).0)
unfolding keys_from keys_of
full_scan_collection-EndsWith_example =
    full_scan_collection-EndsWith count_buckets scanned 0 2 4 three_buckets 0 0 three_keys-AllBelow
      (omega arith)

abbrev starts_with_b : Bytes → Bool
starts_with_b path = starts_with path (98 ∷ [])

full_scan_w_predicate-lists_example :
    (after : Scanning) × EndsWith
      (scan_in_bucket starts_with_b [] 2)
      scanned
      0
      (full_scan_collection_w_predicate length scanned 4 three_buckets 0 [] 2 [] starts_with_b)
      after
    × (let ks = without_lone (max 2 2) (keys_from 0 (scanned.keys_in three_buckets 0)) in
        let members =
          members_of
            (λ k.
              bytes_of (scanned.eng.value_at three_buckets (record { collection = 0; key = k })))
            ks in
        let found = take 2 (listed starts_with_b [] true members) in
        (after.paths ≡ [] ++ found) × (after.paths_count ≡ length found))
unfolding keys_from keys_of
full_scan_w_predicate-lists_example =
    full_scan_w_predicate-lists length scanned 4 three_buckets 0 [] 2 [] starts_with_b
      three_keys-AllBelow (omega arith)
