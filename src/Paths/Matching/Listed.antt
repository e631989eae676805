-- ===== src/Paths/Matching/Listed.antt =====
-- The paths that one scan of `ukv_paths_match` lists.
use ukv.Prelude.{
  ℕ, ◌≡◌, ◌+◌, ◌-◌, ◌<◌, ◌^◌, max, ap, ◌∙◌, Bool, List, ◌++◌, length, map, take, if◌then◌else◌,
  arith,
}
use ukv.Paths.Bucket.{Bytes, bytes_of}
use ukv.FullScan.{keys_from, ScannedEngine, visit}
use ukv.FullScan.Portions.{AllBelow, without_lone}
use ukv.FullScan.Visited.{EndsWith, full_scan_collection-EndsWith}
use ukv.Paths.Matching.{Scanning, scan_in_bucket, is_empty, full_scan_collection_w_predicate}
use ukv.Paths.Matching.Pages.{listed, members_of, scan_all-page, visit-scan_all}

-- For keys below the largest one, and with enough fuel, one scan ends, and unless the engine
-- reports an error it has put behind the tape the first paths, as many as the limit allows, that
-- the predicate holds for, of those behind the path that the previous page ended with, or of all
-- if there was none; and their number is the count. These are paths of the buckets from the hash
-- of the previous path on, but without the bucket of the last key if portions of the larger of the
-- limit and 2 leave it alone.
pub full_scan_w_predicate-lists :
    (hash : Bytes → ℕ) (source : ScannedEngine) (fuel : ℕ) (s : source.eng.State) (collection : ℕ)
    (previous_path : Bytes) (limit : ℕ) (paths : List Bytes) (predicate : Bytes → Bool)
    → AllBelow (2 ^ 64 - 1) (source.keys_in s collection)
    → length (
        keys_from
          (if is_empty previous_path then 0 else hash previous_path)
          (source.keys_in s collection))
      < fuel
    → (after : Scanning) × EndsWith
        (scan_in_bucket predicate previous_path limit)
        source
        collection
        (full_scan_collection_w_predicate hash source fuel s collection previous_path limit paths
          predicate)
        after
      × (let ks = without_lone (max limit 2) (
            keys_from
              (if is_empty previous_path then 0 else hash previous_path)
              (source.keys_in s collection)) in
          let members =
            members_of
              (λ k. bytes_of (source.eng.value_at s (record { collection = collection; key = k })))
              ks in
          let found =
            take limit (listed predicate previous_path (is_empty previous_path) members) in
          (after.paths ≡ paths ++ found) × (after.paths_count ≡ length found))
unfolding full_scan_collection_w_predicate
full_scan_w_predicate-lists hash source fuel s collection previous_path limit paths predicate below
      enough =
    let st : Scanning = record {
      paths = paths;
      paths_count = 0;
      has_reached_previous = is_empty previous_path;
    } in
    let start = if is_empty previous_path then 0 else hash previous_path in
    let ks = without_lone (max limit 2) (keys_from start (source.keys_in s collection)) in
    let val : ℕ → Bytes =
      λ k. bytes_of (source.eng.value_at s (record { collection = collection; key = k })) in
    let members = members_of val ks in
    let same =
      visit-scan_all predicate previous_path limit val ks st
      ∙ scan_all-page predicate previous_path limit members st in
    let all = listed predicate previous_path (is_empty previous_path) members in
    let whole : limit - 0 ≡ limit = omega arith in
    (
      (visit (scan_in_bucket predicate previous_path limit) ks (map val ks) st).0,
      full_scan_collection-EndsWith (scan_in_bucket predicate previous_path limit) source collection
          limit fuel s start st below enough,
      (
        ap (λ (x : List Bytes × ℕ). x.0) same ∙ ap (λ n. paths ++ take n all) whole,
        ap (λ (x : List Bytes × ℕ). x.1) same
            ∙ ap (λ n. 0 + length (take n all)) whole
            ∙ omega arith,
      ),
    )
