-- ===== src/Umem/Blobs/Transactional.antt =====
-- What a transaction reads after a write to it.
use ukv.Prelude.{
  ℕ, ◌≡◌, refl, sym, ap, ◌∙◌, Bool, true, false, Option, none, some, List, [], ◌∷◌, arith, inl, inr,
  Bool-cases, Option-cases, ◌==◌, if◌then◌else◌,
}
use ukv.Types.{CollectionKey, key_eq}
use ukv.Arguments.{Error, faced_error, PlacesArg, ContentsArg, validate_write, tasks_from}
use ukv.Umem.Entries.{Value, Pair}
use ukv.Umem.Blobs.{
  Transactions, dont_watch_of, pairs_of, watch_unless, write_one, write_tasks, write_transactional,
}
use ukv.Umem.Blobs.Writes.{last_put}

-- What a transaction reads at every key, and that its operations change that as documented.
pub record TransactionView (t : Transactions) : Type 0 where
  pub value_at : t.Txn → CollectionKey → Value
  pub watch_lem :
      (x x' : t.Txn) (place k : CollectionKey)
      → t.watch x place ≡ some x'
      → value_at x' k ≡ value_at x k
  pub upsert_lem :
      (x x' : t.Txn) (p : Pair) (k : CollectionKey)
      → t.upsert x p ≡ some x'
      → value_at x' k ≡ (if key_eq p.place k then p.range else value_at x k)
  pub erase_lem :
      (x x' : t.Txn) (place k : CollectionKey)
      → t.erase x place ≡ some x'
      → value_at x' k ≡ (if key_eq place k then none else value_at x k)

-- An operation does not both fail and succeed.
failed_done {ℓ} :
    {S : Type 0} {Goal : Type ℓ} {s s' : S} {error : Error}
    → ◌≡◌ {A = S × Option Error} (s, some error) (s', none)
    → Goal
failed_done {S = S} {error = error} e =
    let both : some error ≡ none = ap (λ (r : S × Option Error). r.1) e in cc

module _ (t : Transactions) (view : TransactionView t) where
  watched :
      (dont_watch : Bool) (x : t.Txn) {x' : t.Txn} (place k : CollectionKey)
      → watch_unless t dont_watch x place ≡ some x'
      → view.value_at x' k ≡ view.value_at x k
  unfolding watch_unless
  watched true x place k e =
      ap (λ (r : Option t.Txn). elim r [ none ↦ view.value_at x k | some y ↦ view.value_at y k ])
        (sym e)
  watched false x {x'} place k e = view.watch_lem x x' place k e

  written :
      (dont_watch : Bool) (x : t.Txn) {x' : t.Txn} (place : CollectionKey) (range : Value)
      (k : CollectionKey)
      → write_one t dont_watch x (record { place = place; range = range }) ≡ some x'
      → view.value_at x' k ≡ (if key_eq place k then range else view.value_at x k)
  unfolding write_one
  written dont_watch x {x'} place none k e = view.erase_lem x x' place k e
  written dont_watch x {x'} place (some bytes) k e =
      view.upsert_lem x x' (record { place = place; range = some bytes }) k e

  write_tasks-value :
      (dont_watch : Bool) (tasks : List Pair) (x : t.Txn) {x' : t.Txn} (k : CollectionKey)
      → write_tasks t dont_watch tasks x ≡ (x', none)
      → view.value_at x' k ≡ last_put k (view.value_at x k) tasks
  unfolding write_tasks last_put
  write_tasks-value dont_watch [] x {x'} k e =
      ap (λ (r : t.Txn × Option Error). view.value_at r.0 k) (sym e)
  write_tasks-value dont_watch (p ∷ tasks) x {x'} k e =
      elim (Option-cases (watch_unless t dont_watch x p.place)) [
        | inl failed ↦
            (let lost : write_tasks t dont_watch (p ∷ tasks) x ≡ (x, some faced_error) =
                rw (write_tasks, failed) refl in
              failed_done (sym lost ∙ e))
        | inr (y, seen) ↦ elim (Option-cases (write_one t dont_watch y p)) [
          | inl failed ↦
              (let lost : write_tasks t dont_watch (p ∷ tasks) x ≡ (y, some faced_error) =
                  rw (write_tasks, seen, failed) refl in
                failed_done (sym lost ∙ e))
          | inr (z, put) ↦
              let rest : write_tasks t dont_watch tasks z ≡ (x', none) =
                sym (rw (write_tasks, seen, put) refl) ∙ e in
              write_tasks-value dont_watch tasks z k rest
              ∙ ap (λ v. last_put k v tasks)
                  (written dont_watch y p.place p.range k put
                    ∙ ap (λ v. if key_eq p.place k then p.range else v)
                        (watched dont_watch x p.place k seen))
        ]
      ]

-- After a transactional write that reports no error, with any repetitions of keys, a key reads in
-- the transaction as the last content that the tasks give it, missing where that is missing; a key
-- of no task reads as before.
pub write_transactional-reads :
    (t : Transactions) (view : TransactionView t) (places : PlacesArg) (contents : ContentsArg)
    (options : ℕ) (x x' : t.Txn) (k : CollectionKey)
    → write_transactional t places contents options x ≡ (x', none)
    → view.value_at x' k ≡ last_put k (view.value_at x k) (pairs_of places contents)
unfolding write_transactional pairs_of tasks_from last_put
write_transactional-reads t view places contents options x x' k e =
    elim (Bool-cases (places.count == 0)) [
      | inl empty ↦
          let count : places.count ≡ 0 = ground arith in
          let same : (x, none) ≡ (x', none) = sym (rw (write_transactional, empty) refl) ∙ e in
          rw count (ap (λ (r : t.Txn × Option Error). view.value_at r.0 k) (sym same))
      | inr asked ↦ elim (Option-cases (validate_write places contents options)) [
        | inr (err, found) ↦
            let lost : write_transactional t places contents options x ≡ (x, some err) =
              rw (write_transactional, asked, found) refl in
            failed_done (sym lost ∙ e)
        | inl fine ↦
            write_tasks-value t view (dont_watch_of options) (pairs_of places contents) x k
              (sym (rw (write_transactional, asked, fine) refl) ∙ e)
      ]
    ]
