-- ===== src/Umem/Blobs/Writes.antt =====
-- What is read after a write.
use mathlib.Core.List.{foldl}
use ukv.Prelude.{
  ℕ, ◌≡◌, refl, sym, ap, ◌∙◌, Bool, Option, none, some, List, [], ◌∷◌, arith, inl, inr, Bool-cases,
  Option-cases, ◌==◌, if◌then◌else◌,
}
use ukv.Types.{CollectionKey, key_eq}
use ukv.Types.Order.{key_same_iff}
use ukv.Arguments.{validate_write, tasks_from, Error, PlacesArg, ContentsArg}
use ukv.Umem.{ConsistentSet}
use ukv.Umem.Entries.{Value, Pair, find_entry, put_entry}
use ukv.Umem.Scan.{find_and_watch, watch_place}
use ukv.Umem.Scan.Correct.{set_source}
use ukv.Umem.Blobs.{write_pairs, write, pairs_of}

-- What a sequence of pairs leaves at a key: the last value that it puts there, if it puts any.
unfoldable pub last_put : CollectionKey → Value → List Pair → Value
last_put k before [] = before
last_put k before (p ∷ ps) = last_put k (if key_eq p.place k then p.range else before) ps

abbrev pub value_of : Option Pair → Value
value_of none = none
value_of (some p) = p.range

find_entry-put_entry :
    (k : CollectionKey) (q : Pair) (entries : List Pair)
    → find_entry k (put_entry q entries)
      ≡ (if key_eq q.place k then some q else find_entry k entries)
unfolding find_entry put_entry
find_entry-put_entry k q [] = refl
find_entry-put_entry k q (p ∷ entries) = ground (
  arith,
  find_entry-put_entry k q entries,
  key_same_iff q.place p.place,
  key_same_iff q.place k,
  key_same_iff p.place k,
)

pub value-put_entries :
    (k : CollectionKey) (ps entries : List Pair)
    → value_of (find_entry k (foldl (λ es p. put_entry p es) entries ps))
      ≡ last_put k (value_of (find_entry k entries)) ps
unfolding last_put
value-put_entries k [] entries = refl
value-put_entries k (p ∷ ps) entries =
    value-put_entries k ps (put_entry p entries)
    ∙ ap (λ v. last_put k v ps) (ap value_of (find_entry-put_entry k p entries) ∙ ground arith)

module _ (c : ConsistentSet) where
  pub write_pairs-entries :
      (ps : List Pair) (s : c.Set) {s' : c.Set}
      → write_pairs c ps s ≡ (s', none)
      → c.entries s' ≡ foldl (λ es p. put_entry p es) (c.entries s) ps
  unfolding write_pairs
  write_pairs-entries [] s e = ap (λ (r : c.Set × Option Error). c.entries r.0) (sym e)
  write_pairs-entries (p ∷ []) s {s'} e = elim (Option-cases (c.upsert s p)) [
    | inl failed ↦ absurd (ground arith)
    | inr (t, done) ↦
        let same : t ≡ s' = ground arith in ap c.entries (sym same) ∙ c.upsert_lem s t p done
  ]
  write_pairs-entries (p ∷ q ∷ ps) s {s'} e =
      let out = c.upsert_batch s (p ∷ q ∷ ps) in
      elim (Bool-cases out.1) [
        | inr failed ↦ absurd (ground arith)
        | inl done ↦
            let same : out.0 ≡ s' = ap (λ (r : c.Set × Option Error). r.0) e in
            c.upsert_batch_lem s s' (p ∷ q ∷ ps)
              (ap (λ t. (t, out.1)) same ∙ ap (λ b. (s', b)) done)
      ]

  pub find_and_watch-entry :
      (dont_watch : Bool) (s : c.Set) (k : CollectionKey)
      → find_and_watch (set_source c) dont_watch s k
        ≡ some (s, value_of (find_entry k (c.entries s)))
  unfolding find_and_watch watch_place
  find_and_watch-entry dont_watch s k = elim (Option-cases (find_entry k (c.entries s))) [
    | inl e ↦ rw (c.find_lem s k, e, find_and_watch) refl
    | inr (p, e) ↦ rw (c.find_lem s k, e, find_and_watch) refl
  ]

  -- The cases of a write before it reaches the set, and the case where it does.
  write_cases {ℓ} :
      (places : PlacesArg) (contents : ContentsArg) (options : ℕ) (s : c.Set)
      (P : c.Set × Option Error → Type ℓ)
      → (places.count ≡ 0 → P (s, none))
      → ((e : Error) → P (s, some e))
      → P (write_pairs c (pairs_of places contents) s)
      → P (write c places contents options s)
  unfolding write
  write_cases places contents options s P empty invalid valid =
      elim (Bool-cases (places.count == 0)) [
        | inl none_asked ↦ rw none_asked (empty (ground arith))
        | inr some_asked ↦ elim (Option-cases (validate_write places contents options)) [
          | inr (e, found) ↦ rw (some_asked, found, write) (invalid e)
          | inl fine ↦ rw (some_asked, fine, write) valid
        ]
      ]

  write-entries :
      (places : PlacesArg) (contents : ContentsArg) (options : ℕ) (s : c.Set) {s' : c.Set}
      → write c places contents options s ≡ (s', none)
      → c.entries s' ≡ foldl (λ es p. put_entry p es) (c.entries s) (pairs_of places contents)
  unfolding pairs_of tasks_from
  write-entries places contents options s {s'} =
      write_cases places contents options s
        (λ r.
          r ≡ (s', none)
          → c.entries s' ≡ foldl (λ es p. put_entry p es) (c.entries s) (pairs_of places contents))
        (λ zero e. rw zero (ap (λ (r : c.Set × Option Error). c.entries r.0) (sym e))) (λ e h. cc)
        (write_pairs-entries (pairs_of places contents) s)

  -- After a write that reports no error, single or a batch, with any repetitions of keys, a key
  -- reads as the last content that the tasks give it, missing contents included; a key of no task
  -- reads as before.
  pub write-reads :
      (places : PlacesArg) (contents : ContentsArg) (options : ℕ) (dont_watch : Bool) (s s' : c.Set)
      (k : CollectionKey) (before : Value)
      → write c places contents options s ≡ (s', none)
      → find_and_watch (set_source c) dont_watch s k ≡ some (s, before)
      → find_and_watch (set_source c) dont_watch s' k
        ≡ some (s', last_put k before (pairs_of places contents))
  write-reads places contents options dont_watch s s' k before e r =
      let old : value_of (find_entry k (c.entries s)) ≡ before =
        ground (arith, find_and_watch-entry dont_watch s k) in
      find_and_watch-entry dont_watch s' k
      ∙ ap (λ v. some (s', v))
          (ap (λ es. value_of (find_entry k es)) (write-entries places contents options s e)
            ∙ value-put_entries k (pairs_of places contents) (c.entries s)
            ∙ ap (λ v. last_put k v (pairs_of places contents)) old)
