-- ===== src/Umem/Scan/Correct.antt =====
-- A scan of a set finds the leading pairs of what matches, for every positive limit.
use ukv.Prelude.{
  ℕ, zero, suc, ◌+◌, ◌≤◌, ◌<◌, ◌≡◌, ◌⊎◌, refl, sym, ap, subst, ◌∙◌, Bool, true, false, Option, none,
  some, List, [], ◌∷◌, ◌++◌, arith, inl, inr, Bool-cases, Option-cases, take, take_of_length-le,
  length, ◌==◌, append_assoc, append-nil, if◌then◌else◌,
}
use ukv.Types.{CollectionKey}
use ukv.Types.Order.{key_same_iff}
use ukv.Umem.{ConsistentSet}
use ukv.Umem.Entries.{Pair, find_entry, above, matching}
use ukv.Umem.Entries.Above.{above_next, same_prefix, matching_split}
use ukv.Umem.Scan.{
  Source, Scan, watch_place, scan_step, goes_on, scan_loop, scan_start, scan_and_watch,
}

same_prefix-le : (k : ℕ) (entries : List Pair) → length (same_prefix k entries) ≤ length entries
unfolding same_prefix
same_prefix-le k [] = omega arith
same_prefix-le k (p ∷ entries) = ground (arith, same_prefix-le k entries)

module _ (c : ConsistentSet) where
  -- The set itself as a source, with nothing to watch.
  abbrev pub set_source : Source c.Set
  set_source = record { find = c.find; upper_bound = c.upper_bound; watch = none }

  scan_at : c.Set → ℕ → CollectionKey → List Pair → Scan c.Set
  scan_at s i previous found = record {
    source = s;
    match_idx = i;
    previous = previous;
    reached_end = false;
    found = found;
  }

  module _ (dont_watch : Bool) (s : c.Set) (limit : ℕ) where
    loop_ended :
        (fuel : ℕ) (scan : Scan c.Set)
        → goes_on set_source dont_watch limit scan ≡ false
        → scan_loop set_source dont_watch fuel limit scan ≡ some scan
    unfolding scan_loop
    loop_ended zero scan h = rw h refl
    loop_ended (suc fuel) scan h = rw (h, scan_loop) refl

    step_end :
        (i : ℕ) (previous : CollectionKey) (found : List Pair)
        → above previous (c.entries s) ≡ []
        → scan_step set_source dont_watch (scan_at s i previous found)
          ≡ some (record (scan_at s i previous found) { reached_end = true })
    unfolding scan_step scan_at
    step_end i previous found e = rw (c.upper_bound_lem s previous, e, scan_step) refl

    step_next :
        (i : ℕ) (p : Pair) (rest : List Pair) (previous : CollectionKey) (found : List Pair)
        → above previous (c.entries s) ≡ p ∷ rest
        → scan_step set_source dont_watch (scan_at s i previous found)
          ≡ some (
              if p.place.collection == previous.collection
              then scan_at s (i + 1) (record previous { key = p.place.key }) (found ++ (p ∷ []))
              else record (scan_at s i previous found) { reached_end = true })
    unfolding scan_step scan_at watch_place
    step_next i p rest previous found e =
        rw (c.upper_bound_lem s previous, e, scan_step) (ground arith)

    loop_go :
        (fuel i : ℕ) (previous : CollectionKey) (found : List Pair) (next : Scan c.Set)
        → (i == limit) ≡ false
        → scan_step set_source dont_watch (scan_at s i previous found) ≡ some next
        → scan_loop set_source dont_watch (suc fuel) limit (scan_at s i previous found)
          ≡ scan_loop set_source dont_watch fuel limit next
    unfolding scan_loop scan_at
    loop_go fuel i previous found next go e = rw (go, e, scan_loop) refl

    loop_stop :
        (fuel i : ℕ) (previous : CollectionKey) (found : List Pair)
        → (i == limit) ≡ true
        → scan_loop set_source dont_watch fuel limit (scan_at s i previous found)
          ≡ some (scan_at s i previous found)
    unfolding scan_at
    loop_stop fuel i previous found stop = loop_ended fuel _ (rw stop refl)

    ended :
        (fuel i : ℕ) (previous : CollectionKey) (found : List Pair)
        → scan_loop set_source dont_watch fuel limit
            (record (scan_at s i previous found) { reached_end = true })
          ≡ some (record (scan_at s i previous found) { reached_end = true })
    unfolding scan_at
    ended fuel i previous found = loop_ended fuel _ (ground arith)

    -- What the loop adds, as a statement about its result.
    abbrev Adds : Option (Scan c.Set) → List Pair → Type 0
    Adds result wanted =
        (done : Scan c.Set) × (result ≡ some done) × (done.source ≡ s) × (done.found ≡ wanted)

    take_nil : (n : ℕ) → take {A = Pair} n [] ≡ []
    take_nil zero = refl
    take_nil (suc n) = refl

    -- How many more pairs the loop may add: what the limit leaves; or, behind the limit, any number
    -- that the pairs ahead do not exceed.
    abbrev Quota : ℕ → ℕ → List Pair → Type 0
    Quota i n rest = (i + n ≡ limit) ⊎ ((limit < i) × (length rest ≤ n))

    -- From any point of a scan the loop adds the leading pairs of the collection behind it, as many
    -- as the quota says, if the fuel exceeds the number of pairs behind it.
    scan_loop_lem :
        (rest : List Pair) (fuel i n : ℕ) (previous : CollectionKey) (found : List Pair)
        → above previous (c.entries s) ≡ rest
        → length rest < fuel
        → Quota i n rest
        → Adds
            (scan_loop set_source dont_watch fuel limit (scan_at s i previous found))
            (found ++ take n (same_prefix previous.collection rest))
    unfolding scan_at same_prefix
    scan_loop_lem rest zero i n previous found e h k = absurd (omega arith)
    scan_loop_lem [] (suc fuel) i n previous found e h k =
        let nothing = sym (ap (◌++◌ found) (take_nil n) ∙ append-nil found) in
        elim (Bool-cases (i == limit)) [
          | inl stop ↦ (
            scan_at s i previous found,
            loop_stop (suc fuel) i previous found stop,
            refl,
            nothing,
          )
          | inr go ↦ (
            record (scan_at s i previous found) { reached_end = true },
            loop_go fuel i previous found _ go (step_end i previous found e)
                ∙ ended fuel i previous found,
            refl,
            nothing,
          )
        ]
    scan_loop_lem (p ∷ rest) (suc fuel) i zero previous found e h k =
        let stop : (i == limit) ≡ true = ground arith in
        (
          scan_at s i previous found,
          loop_stop (suc fuel) i previous found stop,
          refl,
          sym (append-nil found),
        )
    scan_loop_lem (p ∷ rest) (suc fuel) i (suc n) previous found e h k =
        let go : (i == limit) ≡ false = ground arith in
        elim (Bool-cases (p.place.collection == previous.collection)) [
          | inr other ↦ (
            record (scan_at s i previous found) { reached_end = true },
            loop_go fuel i previous found _ go
                  (rw (step_next i p rest previous found e, other) refl)
                ∙ ended fuel i previous found,
            refl,
            rw other (sym (append-nil found)),
          )
          | inl same ↦
              let next : CollectionKey = record previous { key = p.place.key } in
              let place : p.place ≡ next = ground arith in
              let behind : above next (c.entries s) ≡ rest =
                subst (λ q. above q (c.entries s) ≡ rest) place
                  (above_next previous (c.entries s) (c.ordered s) e) in
              let quota : Quota (i + 1) n rest = omega arith in
              let (done, result, source, added) =
                scan_loop_lem rest fuel (i + 1) n next (found ++ (p ∷ [])) behind (omega arith)
                  quota in
              (
                done,
                loop_go fuel i previous found _ go
                      (rw (step_next i p rest previous found e, same) refl)
                    ∙ result,
                source,
                added ∙ rw same (append_assoc found (p ∷ []) _),
              )
        ]

    length-above-le :
        (k : CollectionKey) (entries : List Pair) → length (above k entries) ≤ length entries
    unfolding above
    length-above-le k [] = omega arith
    length-above-le k (p ∷ entries) = ground (arith, length-above-le k entries)

    find_entry-place :
        (k : CollectionKey) (entries : List Pair) (p : Pair)
        → find_entry k entries ≡ some p
        → p.place ≡ k
    unfolding find_entry
    find_entry-place k [] p e = cc
    find_entry-place k (q ∷ entries) p e =
        ground (arith, find_entry-place k entries p, key_same_iff q.place k)

    -- The scan after its start: what it returns is what the start found, and what the loop adds.
    scan_added :
        (fuel i n : ℕ) (start : CollectionKey) (found : List Pair)
        → scan_start set_source dont_watch s start ≡ some (scan_at s i start found)
        → length (c.entries s) < fuel
        → Quota i n (above start (c.entries s))
        → scan_and_watch set_source dont_watch fuel s start limit
          ≡ some (s, found ++ take n (same_prefix start.collection (above start (c.entries s))))
    unfolding scan_and_watch
    scan_added fuel i n start found e h k =
        let behind = length-above-le start (c.entries s) in
        let (done, result, source, added) =
          scan_loop_lem (above start (c.entries s)) fuel i n start found refl (omega arith) k in
        rw (e, scan_and_watch) (rw (result, source, added) refl)

    start_missing :
        (start : CollectionKey)
        → find_entry start (c.entries s) ≡ none
        → scan_start set_source dont_watch s start ≡ some (scan_at s 0 start [])
    unfolding scan_start scan_at
    start_missing start e = rw (c.find_lem s start, e, scan_start) refl

    start_present :
        (start : CollectionKey) (p : Pair)
        → find_entry start (c.entries s) ≡ some p
        → scan_start set_source dont_watch s start ≡ some (scan_at s 1 start (p ∷ []))
    unfolding scan_start scan_at watch_place
    start_present start p e =
        let place = find_entry-place start (c.entries s) p e in
        rw (c.find_lem s start, e, scan_start) (ground arith)

  -- A scan of a set with a positive limit succeeds, once the fuel exceeds the number of pairs, and
  -- hands over, in order, the first `limit` pairs of the start's collection from the start on.
  pub scan_and_watch-matching :
      (dont_watch : Bool) (s : c.Set) (start : CollectionKey) (limit fuel : ℕ)
      → 0 < limit
      → length (c.entries s) < fuel
      → scan_and_watch set_source dont_watch fuel s start limit
        ≡ some (s, take limit (matching start (c.entries s)))
  scan_and_watch-matching dont_watch s start zero fuel pos h = absurd (omega arith)
  scan_and_watch-matching dont_watch s start (suc limit) fuel pos h =
      let split = matching_split start (c.entries s) (c.ordered s) in
      elim (Option-cases (find_entry start (c.entries s))) [
        | inl e ↦
            scan_added dont_watch s (suc limit) fuel 0 (suc limit) start []
              (start_missing dont_watch s (suc limit) start e) h (omega arith)
            ∙ ap (λ ps. some (s, take (suc limit) ps)) (sym (rw e at split))
        | inr (p, e) ↦
            scan_added dont_watch s (suc limit) fuel 1 limit start (p ∷ [])
              (start_present dont_watch s (suc limit) start p e) h (omega arith)
            ∙ ap (λ ps. some (s, take (suc limit) ps)) (sym (rw e at split))
      ]

  -- With a limit of zero and a pair at the start, the scan does not stop at the limit: it hands
  -- over every pair of the collection from the start on.
  scan_and_watch-zero :
      (dont_watch : Bool) (s : c.Set) (start : CollectionKey) (p : Pair) (fuel : ℕ)
      → find_entry start (c.entries s) ≡ some p
      → length (c.entries s) < fuel
      → scan_and_watch set_source dont_watch fuel s start 0 ≡ some (s, matching start (c.entries s))
  unfolding same_prefix
  scan_and_watch-zero dont_watch s start p fuel e h =
      let rest = above start (c.entries s) in
      let split = matching_split start (c.entries s) (c.ordered s) in
      scan_added dont_watch s 0 fuel 1 (length rest) start (p ∷ [])
        (start_present dont_watch s 0 start p e) h (inr (omega arith))
      ∙ ap (λ ps. some (s, p ∷ ps))
          (take_of_length-le (length rest) (same_prefix start.collection rest)
            (same_prefix-le start.collection rest))
      ∙ ap (λ ps. some (s, ps)) (sym (rw e at split))
