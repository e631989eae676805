-- ===== src/Umem/Scan.antt =====
-- `find_and_watch`, `scan_and_watch` and `scan_full` of src/engine_umem.cpp.
pub mod Correct
use ukv.Prelude.{
  ℕ, zero, suc, ◌+◌, Bool, true, false, not, ◌&&◌, Option, none, some, List, [], ◌∷◌, ◌++◌, ◌==◌,
  if◌then◌else◌,
}
use ukv.Types.{CollectionKey, key_min}
use ukv.Umem.Entries.{Value, Pair}

-- A set, or a transaction over one, as the templates use it: `watch` is `none` for a set, which has
-- no such operation. An outer `none` of a result is a status that is an error.
pub record Source (S : Type 0) : Type 0 where
  pub find : S → CollectionKey → Option (Option Pair)
  pub upper_bound : S → CollectionKey → Option (Option Pair)
  pub watch : Option (S → CollectionKey → Option S)

-- What the callback and the loop of a scan share.
pub record Scan (S : Type 0) : Type 0 where
  pub source : S
  pub match_idx : ℕ
  pub previous : CollectionKey
  pub reached_end : Bool
  pub found : List Pair

module _ {S : Type 0} (ops : Source S) (dont_watch : Bool) where
  unfoldable pub watch_place : S → CollectionKey → Option S
  watch_place s place = elim ops.watch [
    | none ↦ some s
    | some watch ↦ if dont_watch then some s else watch s place
  ]

  -- The source after watching, and the value that the callback is given.
  unfoldable pub find_and_watch : S → CollectionKey → Option (S × Value)
  find_and_watch s place = elim (watch_place s place) [
    | none ↦ none
    | some s' ↦ elim (ops.find s' place) [
      | none ↦ none
      | some none ↦ some (s', none)
      | some (some p) ↦ some (s', p.range)
    ]
  ]

  -- `callback_pair`; `none` where watching failed.
  unfoldable pub callback_pair : Scan S → Pair → Option (Scan S)
  callback_pair scan p =
      if p.place.collection == scan.previous.collection
      then elim (watch_place scan.source p.place) [
        | none ↦ none
        | some s' ↦ some (record {
          source = s';
          match_idx = scan.match_idx + 1;
          previous = record (scan.previous) { key = p.place.key };
          reached_end = false;
          found = scan.found ++ (p ∷ []);
        })
      ]
      else some (record scan { reached_end = true })

  unfoldable pub scan_step : Scan S → Option (Scan S)
  unfolding callback_pair
  scan_step scan = elim (ops.upper_bound scan.source scan.previous) [
    | none ↦ none
    | some none ↦ some (record scan { reached_end = true })
    | some (some p) ↦ callback_pair scan p
  ]

  abbrev pub goes_on : ℕ → Scan S → Bool
  goes_on range_limit scan = not (scan.match_idx == range_limit) && not scan.reached_end

  -- The loop; its fuel is the bound on the rounds, and a result `none` a status that is an error
  -- or fuel that ran out.
  unfoldable pub scan_loop : ℕ → ℕ → Scan S → Option (Scan S)
  scan_loop zero range_limit scan = if goes_on range_limit scan then none else some scan
  scan_loop (suc fuel) range_limit scan = elim (goes_on range_limit scan) [
    | false ↦ some scan
    | true ↦ elim (scan_step scan) [ none ↦ none | some next ↦ scan_loop fuel range_limit next ]
  ]

  unfoldable pub scan_start : S → CollectionKey → Option (Scan S)
  unfolding callback_pair
  scan_start s start =
      let scan : Scan S = record {
        source = s;
        match_idx = 0;
        previous = start;
        reached_end = false;
        found = [];
      } in
      elim (ops.find s start) [
        | none ↦ none
        | some none ↦ some scan
        | some (some p) ↦ callback_pair scan p
      ]

  -- The pairs that the callback was given, in order, and the source after watching them.
  unfoldable pub scan_and_watch : ℕ → S → CollectionKey → ℕ → Option (S × List Pair)
  scan_and_watch fuel s start range_limit = elim (scan_start s start) [
    | none ↦ none
    | some scan ↦ elim (scan_loop fuel range_limit scan) [
      | none ↦ none
      | some done ↦ some (done.source, done.found)
    ]
  ]

  -- `scan_full`: every pair behind the least key of the least collection.
  unfoldable pub scan_full_loop : ℕ → S → CollectionKey → List Pair → Option (List Pair)
  scan_full_loop zero s previous found = none
  scan_full_loop (suc fuel) s previous found = elim (ops.upper_bound s previous) [
    | none ↦ none
    | some none ↦ some found
    | some (some p) ↦ scan_full_loop fuel s p.place (found ++ (p ∷ []))
  ]

  unfoldable pub scan_full : ℕ → S → Option (List Pair)
  unfolding scan_full_loop
  scan_full fuel s = scan_full_loop fuel s (record { collection = 0; key = key_min }) []
