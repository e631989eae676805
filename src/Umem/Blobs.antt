-- ===== src/Umem/Blobs.antt =====
-- `ukv_read`, `ukv_write` and `ukv_scan` of src/engine_umem.cpp. The arena that the outputs are
-- allocated in is modelled by `Memory`; here an output is the list of what is exported.
pub mod Writes
pub mod Transactional
use mathlib.Core.List.{foldl}
use ukv.Prelude.{
  ℕ, zero, suc, ◌+◌, Bool, true, false, not, Option, none, some, List, [], ◌∷◌, map, ltb, ◌==◌,
  bit_and, if◌then◌else◌,
}
use ukv.Types.{CollectionKey}
use ukv.Arguments.{
  Error, faced_error, PlacesArg, place_at, ContentsArg, content_at, ScansArg, scan_at,
  validate_read, validate_write, validate_scan, tasks_from, option_transaction_dont_watch,
}
use ukv.Umem.{ConsistentSet}
use ukv.Umem.Entries.{Value, Pair}
use ukv.Umem.Scan.{Source, find_and_watch, scan_and_watch}

-- An operation on a state: the state after it, and its output or its error.
pub data Result {ℓ} (A : Type ℓ) : Type ℓ where
  ok : A → Result A
  err : Error → Result A

-- `ucset_t::transaction_t`, as the writes use it; `none` is a status that is an error.
pub record Transactions : Type 1 where
  pub Txn : Type 0
  pub watch : Txn → CollectionKey → Option Txn
  pub upsert : Txn → Pair → Option Txn
  pub erase : Txn → CollectionKey → Option Txn

abbrev pub dont_watch_of : ℕ → Bool
dont_watch_of options = not (bit_and options option_transaction_dont_watch == 0)

-- `pair_t {key, content}` for every task.
unfoldable pub pairs_of : PlacesArg → ContentsArg → List Pair
pairs_of places contents =
    tasks_from (λ i. record { place = place_at places i; range = content_at contents i }) 0
      places.count

module _ {S : Type 0} (ops : Source S) (dont_watch : Bool) where
  -- Every place is found in turn; a failure exports nothing.
  unfoldable pub read_places : List CollectionKey → S → S × Result (List Value)
  read_places [] s = (s, ok [])
  read_places (place ∷ places) s = elim (find_and_watch ops dont_watch s place) [
    | none ↦ (s, err faced_error)
    | some (s', value) ↦
        let (s'', rest) = read_places places s' in
        (s'', elim rest [ err e ↦ err e | ok values ↦ ok (value ∷ values) ])
  ]

  unfoldable pub read : PlacesArg → ℕ → S → S × Result (List Value)
  read places options s =
      if places.count == 0 then (s, ok []) else elim (validate_read places options) [
        | some e ↦ (s, err e)
        | none ↦ read_places (tasks_from (place_at places) 0 places.count) s
      ]

  -- The keys of every scan, one list for a task.
  unfoldable pub scan_tasks : ℕ → List (CollectionKey × ℕ) → S → S × Result (List (List ℕ))
  scan_tasks fuel [] s = (s, ok [])
  scan_tasks fuel ((start, limit) ∷ tasks) s =
      elim (scan_and_watch ops dont_watch fuel s start limit) [
        | none ↦ (s, err faced_error)
        | some (s', pairs) ↦
            let (s'', rest) = scan_tasks fuel tasks s' in
            (
              s'',
              elim rest [
                | err e ↦ err e
                | ok keys ↦ ok (map (λ (p : Pair). p.place.key) pairs ∷ keys)
              ],
            )
      ]

  unfoldable pub scan : ℕ → ScansArg → ℕ → S → S × Result (List (List ℕ))
  scan fuel scans options s =
      if scans.count == 0 then (s, ok []) else elim (validate_scan scans options) [
        | some e ↦ (s, err e)
        | none ↦ scan_tasks fuel (tasks_from (scan_at scans) 0 scans.count) s
      ]

module _ (t : Transactions) (dont_watch : Bool) where
  unfoldable pub watch_unless : t.Txn → CollectionKey → Option t.Txn
  watch_unless txn place = if dont_watch then some txn else t.watch txn place

  unfoldable pub write_one : t.Txn → Pair → Option t.Txn
  write_one txn p = elim p.range [ none ↦ t.erase txn p.place | some bytes ↦ t.upsert txn p ]

  -- What was done before a failure stays done.
  unfoldable pub write_tasks : List Pair → t.Txn → t.Txn × Option Error
  unfolding watch_unless write_one
  write_tasks [] txn = (txn, none)
  write_tasks (p ∷ tasks) txn = elim (watch_unless txn p.place) [
    | none ↦ (txn, some faced_error)
    | some watched ↦ elim (write_one watched p) [
      | none ↦ (watched, some faced_error)
      | some written ↦ write_tasks tasks written
    ]
  ]

module _ (c : ConsistentSet) where
  -- The non-transactional branches: an atomic batch, and a single write.
  unfoldable pub write_pairs : List Pair → c.Set → c.Set × Option Error
  write_pairs [] s = (s, none)
  write_pairs (p ∷ []) s = elim (c.upsert s p) [
    | none ↦ (s, some faced_error)
    | some s' ↦ (s', none)
  ]
  write_pairs (p ∷ q ∷ ps) s =
      let (s', done) = c.upsert_batch s (p ∷ q ∷ ps) in
      (s', if done then none else some faced_error)

  unfoldable pub write : PlacesArg → ContentsArg → ℕ → c.Set → c.Set × Option Error
  write places contents options s =
      if places.count == 0 then (s, none) else elim (validate_write places contents options) [
        | some e ↦ (s, some e)
        | none ↦ write_pairs (pairs_of places contents) s
      ]

unfoldable pub write_transactional :
    (t : Transactions) → PlacesArg → ContentsArg → ℕ → t.Txn → t.Txn × Option Error
unfolding write_tasks pairs_of
write_transactional t places contents options txn =
    if places.count == 0 then (txn, none) else elim (validate_write places contents options) [
      | some e ↦ (txn, some e)
      | none ↦ write_tasks t (dont_watch_of options) (pairs_of places contents) txn
    ]
