-- ===== src/Paths/Matching.antt =====
-- `ukv_paths_match`: the paths with a prefix, or those that a regular expression matches, page by page.
pub mod Pages
pub mod Listed
use mathlib.Core.List.{foldl}
use ukv.Prelude.{
  ℕ, zero, suc, ◌+◌, Bool, true, false, not, ◌&&◌, ◌||◌, Option, none, some, List, [], ◌∷◌, ◌++◌,
  ltb, leb, ◌==◌, if◌then◌else◌,
}
use ukv.Umem.Collections.{name_eq}
use ukv.Paths.Bucket.{Bytes, Member, for_each_in_bucket, starts_with}
use ukv.FullScan.{ScannedEngine, Ended, finished, failed, out_of_fuel, full_scan_collection}

-- The characters that a regular expression gives a meaning: . + * ? ^ $ ( ) [ ] { } | \
abbrev pub special_characters : List ℕ
special_characters = 46 ∷ 43 ∷ 42 ∷ 63 ∷ 94 ∷ 36 ∷ 40 ∷ 41 ∷ 91 ∷ 93 ∷ 123 ∷ 125 ∷ 124 ∷ 92 ∷ []

abbrev pub is_among : ℕ → List ℕ → Bool
is_among c [] = false
is_among c (d ∷ ds) = c == d || is_among c ds

unfoldable pub is_prefix : Bytes → Bool
is_prefix [] = true
is_prefix (c ∷ pattern) = not (is_among c special_characters) && is_prefix pattern

-- What the scan of one task changes: the tape of found paths, their number, and whether the path
-- that the previous page ended with was passed.
pub record Scanning : Type 0 where
  pub paths : List Bytes
  pub paths_count : ℕ
  pub has_reached_previous : Bool

module _ (predicate : Bytes → Bool) (previous_path : Bytes) (c_count_limit : ℕ) where
  unfoldable pub scan_member : Scanning → Member → Scanning
  scan_member st member =
      if not (predicate (member.0))
      then st
      else if name_eq (member.0) previous_path
      then record st { has_reached_previous = true }
      else if not st.has_reached_previous
      then st
      else if leb c_count_limit st.paths_count
      then st
      else record st { paths = st.paths ++ (member.0 ∷ []); paths_count = suc st.paths_count }

  unfoldable pub scan_in_bucket : Scanning → ℕ → Bytes → Scanning × Bool
  unfolding scan_member
  scan_in_bucket st key bucket =
      let st' = foldl scan_member st (for_each_in_bucket (some bucket)) in
      (st', ltb st'.paths_count c_count_limit)

abbrev pub is_empty : Bytes → Bool
is_empty [] = true
is_empty (b ∷ bytes) = false

pub record MatchTask : Type 0 where
  pub collection : ℕ
  pub pattern : Bytes
  pub previous : Bytes
  pub count_limit : ℕ

module _ (hash : Bytes → ℕ) (source : ScannedEngine) (fuel : ℕ) (s : source.eng.State) where
  unfoldable pub full_scan_collection_w_predicate :
      ℕ → Bytes → ℕ → List Bytes → (Bytes → Bool) → Ended Scanning
  unfolding scan_in_bucket full_scan_collection
  full_scan_collection_w_predicate collection previous_path c_count_limit paths predicate =
      full_scan_collection (scan_in_bucket predicate previous_path c_count_limit) source collection
        c_count_limit fuel s (if is_empty previous_path then 0 else hash previous_path)
        (record { paths = paths; paths_count = 0; has_reached_previous = is_empty previous_path })

  unfoldable pub full_scan_w_prefix : MatchTask → List Bytes → Ended Scanning
  full_scan_w_prefix t paths =
      full_scan_collection_w_predicate t.collection t.previous t.count_limit paths
        (λ body. starts_with body t.pattern)

  -- The library of regular expressions is the parameter `compile`: it gives the test whether there is
  -- a match in a string, or `none` if it compiles no such pattern or has no memory.
  module _ (compile : Bytes → Option (Bytes → Bool)) where
    unfoldable pub full_scan_w_regex : MatchTask → List Bytes → Ended Scanning
    full_scan_w_regex t paths = elim (compile t.pattern) [
      | none ↦ failed (record { paths = paths; paths_count = 0; has_reached_previous = false })
      | some predicate ↦
          full_scan_collection_w_predicate t.collection t.previous t.count_limit paths predicate
    ]

    -- The counts of the tasks and the tape of all paths, or none on an error.
    unfoldable pub match_tasks : List MatchTask → List ℕ → List Bytes → Option (List ℕ × List Bytes)
    unfolding full_scan_w_prefix full_scan_w_regex
    match_tasks [] found_counts found_paths = some (found_counts, found_paths)
    match_tasks (t ∷ tasks) found_counts found_paths =
        elim (if is_prefix t.pattern
          then full_scan_w_prefix t found_paths
          else full_scan_w_regex t found_paths) [
            | failed st ↦ none
            | out_of_fuel st ↦ none
            | finished st ↦ match_tasks tasks (found_counts ++ (st.paths_count ∷ [])) st.paths
          ]
