-- ===== src/Docs/Updates/Written.antt =====
-- What `read_modify_write` puts into a store.
use ukv.Prelude.{
  ℕ, zero, suc, ◌≡◌, refl, sym, ap, ◌∙◌, Bool, true, false, Option, none, some, List, [], ◌∷◌,
  arith, get_elem?, get_elem?-map, get_or, map, Option-cases, inl, inr, if◌then◌else◌,
}
use ukv.Types.{CollectionKey}
use ukv.Types.Order.{key_order, key_same_iff}
use ukv.Ranges.{sort_and_deduplicate, offset_in_sorted, contains}
use ukv.Ranges.Sorted.{sort_and_deduplicate_lem, offset-sort_and_deduplicate}
use ukv.Umem.Entries.{Value}
use ukv.Umem.Blobs.Writes.{last_put}
use ukv.Paths.Bucket.{bytes_of}
use ukv.Docs.{Bytes}
use ukv.Docs.Updates.{
  Store, Modification, Fields, field_at, needs_values, Callback, for_each, for_each_absent,
  is_insert_of, is_nothing, all_missing, read_modify_unique_docs, task_docs, are_unique,
  read_modify_docs, pairs_from, read_modify_write, write_docs, with_places, read_then,
  read_joined_docs, read_modified_docs, read_unique_docs,
}
use ukv.Docs.Updates.Callbacks.{for_each_lem, for_each_absent_lem}
use ukv.Docs.Updates.Distinct.{
  IsDistinct, length-sort_and_deduplicate, IsAscending-IsDistinct, last_put-pairs_from,
  last_put-other,
}

-- The document that the call for a task is given.
abbrev pub seen : Modification → Fields → Value → Bytes
seen m fields v = if needs_values m fields then bytes_of v else []

get_elem?-contains :
    (keys : List CollectionKey) (i : ℕ) (k : CollectionKey)
    → get_elem? keys i ≡ some k
    → contains keys k ≡ true
unfolding contains
get_elem?-contains [] i k e = cc
get_elem?-contains (x ∷ keys) zero k e =
    let same : x ≡ k = cc in rw ((key_same_iff x k).1 same) refl
get_elem?-contains (x ∷ keys) (suc i) k e = ground (arith, get_elem?-contains keys i k e)

get_or_lem :
    (found : List Value) (i : ℕ) (v : Value) → get_elem? found i ≡ some v → get_or found i none ≡ v
get_or_lem [] i v e = cc
get_or_lem (x ∷ found) zero v e = cc
get_or_lem (x ∷ found) (suc i) v e = get_or_lem found i v e

IsDistinct-are_unique : (keys : List CollectionKey) → IsDistinct keys → are_unique keys ≡ true
unfolding are_unique
IsDistinct-are_unique keys d = ground (arith, length-sort_and_deduplicate keys d)

get_elem?-task_docs :
    (unique : List CollectionKey) (found : List Value) (keys : List CollectionKey) (i : ℕ)
    (k : CollectionKey)
    → get_elem? keys i ≡ some k
    → get_elem? (task_docs unique found keys) i
      ≡ some (bytes_of (get_or found (offset_in_sorted unique k) none))
unfolding task_docs
get_elem?-task_docs unique found [] i k e = cc
get_elem?-task_docs unique found (x ∷ keys) zero k e =
    let same : x ≡ k = cc in
    ap (λ z. some (bytes_of (get_or found (offset_in_sorted unique z) none))) same
get_elem?-task_docs unique found (x ∷ keys) (suc i) k e =
    get_elem?-task_docs unique found keys i k e

module _ (store : Store) (callback : Callback) (m : Modification) (fields : Fields) where
  -- The parts of a run that ends: the read, the tape and the write.
  record Run (unique : List CollectionKey) (docs : List Value → Option (List Bytes))
      (s s' : store.State) : Type 0 where
    read_state : store.State
    found : List Value
    tape : List Bytes
    did_read : store.read s unique ≡ some (read_state, found)
    called : docs found ≡ some tape
    did_write : store.write read_state (pairs_from unique tape) ≡ some s'

  read_then-Run :
      (keys : List CollectionKey) (docs : List Value → Option (List Bytes)) (s s' : store.State)
      (did : Option (store.State × List Value))
      → store.read s keys ≡ did
      → write_docs store (with_places store keys (read_then store docs did)) ≡ some s'
      → Run keys docs s s'
  read_then-Run keys docs s s' none e ran = cc
  read_then-Run keys docs s s' (some (t, found)) e ran = elim (Option-cases (docs found)) [
    | inl failed ↦
        let stop : none ≡ some s' =
          ap (λ o. write_docs store (some (t, (keys, o)))) (sym failed) ∙ ran in
        cc
    | inr (tape, called) ↦ record {
      read_state = t;
      found = found;
      tape = tape;
      did_read = e;
      called = called;
      did_write = ap (λ o. write_docs store (some (t, (keys, o)))) (sym called) ∙ ran;
    }
  ]

  abbrev repeated_docs : List CollectionKey → List Value → Option (List Bytes)
  repeated_docs keys found =
      for_each callback fields 0 (task_docs (sort_and_deduplicate keys) found keys)

  abbrev unique_docs : List Value → Option (List Bytes)
  unique_docs found =
      if needs_values m fields
      then for_each callback fields 0 (map bytes_of found)
      else for_each_absent callback (is_insert_of m) fields 0 found

  repeated-Run :
      (keys : List CollectionKey) (s s' : store.State)
      → are_unique keys ≡ false
      → read_modify_write store callback m keys fields s ≡ some s'
      → Run (sort_and_deduplicate keys) (repeated_docs keys) s s'
  unfolding read_modify_write read_modify_docs read_joined_docs
  repeated-Run keys s s' e ran =
      let joined =
        with_places store (sort_and_deduplicate keys)
          (read_joined_docs store callback keys fields s) in
      let plain = with_places store keys (read_modify_unique_docs store callback m keys fields s) in
      read_then-Run (sort_and_deduplicate keys) (repeated_docs keys) s s'
        (store.read s (sort_and_deduplicate keys)) refl
        (ap (λ b. write_docs store (if b then plain else joined)) (sym e) ∙ ran)

  plain-Run :
      (keys : List CollectionKey) (s s' : store.State)
      → is_nothing m ≡ false
      → are_unique keys ≡ true
      → read_modify_write store callback m keys fields s ≡ some s'
      → Run keys unique_docs s s'
  unfolding read_modify_write read_modify_docs read_modify_unique_docs read_modified_docs
  plain-Run keys s s' n e ran =
      let joined =
        with_places store (sort_and_deduplicate keys)
          (read_joined_docs store callback keys fields s) in
      let plain = with_places store keys (read_modify_unique_docs store callback m keys fields s) in
      let modified = read_modified_docs store callback m keys fields s in
      let read_only = read_unique_docs store callback keys fields s in
      read_then-Run keys unique_docs s s' (store.read s keys) refl (
        ap (λ b. write_docs store (with_places store keys (if b then read_only else modified)))
          (sym n)
        ∙ ap (λ b. write_docs store (if b then plain else joined)) (sym e)
        ∙ ran)

  -- A run over keys of which some are repeated writes, to the key at each place of the sorted unique
  -- keys, what the call makes for the task at that place, from the document of that task's own key.
  -- So unless the task's key stands at the same place among the sorted ones, the document of one key
  -- is written to another.
  pub read_modify_write_repeated :
      (keys : List CollectionKey) (s s' : store.State)
      → are_unique keys ≡ false
      → read_modify_write store callback m keys fields s ≡ some s'
      → (j : ℕ) (k task_key : CollectionKey) → get_elem? (sort_and_deduplicate keys) j ≡ some k
      → get_elem? keys j ≡ some task_key
      → (doc : Bytes) × (callback j (field_at fields j) (bytes_of (store.value_at s task_key))
          ≡ some doc)
        × (store.value_at s' k ≡ some doc)
  read_modify_write_repeated keys s s' e ran j k task_key at_j of_task =
      let run = repeated-Run keys s s' e ran in
      let unique = sort_and_deduplicate keys in
      let values : run.found ≡ map (store.value_at s) unique =
        store.read_lem s run.read_state unique run.found run.did_read in
      let place = offset_in_sorted unique task_key in
      let own : get_elem? run.found place ≡ some (store.value_at s task_key) =
        ap (λ f. get_elem? f place) values
        ∙ get_elem?-map (store.value_at s) unique place (
            offset-sort_and_deduplicate keys task_key
              (get_elem?-contains keys j task_key of_task)) in
      let given = get_elem?-task_docs unique run.found keys j task_key of_task in
      let (doc, there, made) =
        for_each_lem callback fields (task_docs unique run.found keys) 0 j j run.tape _ run.called
          (omega arith) given in
      let distinct = IsAscending-IsDistinct unique ((sort_and_deduplicate_lem keys).0) in
      (
        doc,
        ap (λ v. callback j (field_at fields j) (bytes_of v))
              (sym (get_or_lem run.found place _ own))
            ∙ made,
        store.write_lem run.read_state s' (pairs_from unique run.tape) k run.did_write
            ∙ last_put-pairs_from unique run.tape j k doc _ distinct at_j there,
      )

  tape-seen :
      (needed : Bool) (found : List Value) (tape : List Bytes) (i : ℕ) (v : Value)
      → (if needed
          then for_each callback fields 0 (map bytes_of found)
          else for_each_absent callback (is_insert_of m) fields 0 found)
        ≡ some tape
      → get_elem? found i ≡ some v
      → (doc : Bytes) × (get_elem? tape i ≡ some doc)
        × (callback i (field_at fields i) (if needed then bytes_of v else []) ≡ some doc)
  tape-seen true found tape i v e at_i =
      for_each_lem callback fields (map bytes_of found) 0 i i tape (bytes_of v) e (omega arith)
        (get_elem?-map bytes_of found i at_i)
  tape-seen false found tape i v e at_i =
      let (ran, missing) = for_each_absent_lem callback fields (is_insert_of m) found 0 tape e in
      for_each_lem callback fields (map (λ (w : Value). []) found) 0 i i tape [] ran (omega arith)
        (get_elem?-map (λ (w : Value). []) found i at_i)

  tape-missing :
      (needed : Bool) (found : List Value) (tape : List Bytes)
      → (if needed
          then for_each callback fields 0 (map bytes_of found)
          else for_each_absent callback (is_insert_of m) fields 0 found)
        ≡ some tape
      → is_insert_of m ≡ true
      → needed ≡ false
      → all_missing found ≡ true
  tape-missing true found tape e inserts h = cc
  tape-missing false found tape e inserts h =
      (for_each_absent_lem callback fields (is_insert_of m) found 0 tape e).1 inserts

  -- If no key is repeated, a run that ends leaves at the key of every task what the call for the task
  -- makes of the document that was there, which it is only given if the modification or a field needs
  -- it, and leaves all other keys as they were; an insertion of whole documents ends only if none of
  -- the keys was there.
  pub read_modify_write_lem :
      (keys : List CollectionKey) (s s' : store.State)
      → is_nothing m ≡ false
      → IsDistinct keys
      → read_modify_write store callback m keys fields s ≡ some s'
      → ((i : ℕ) (k : CollectionKey)
          → get_elem? keys i ≡ some k
          → (doc : Bytes) × (callback i (field_at fields i) (seen m fields (store.value_at s k))
              ≡ some doc)
            × (store.value_at s' k ≡ some doc))
        × ((k : CollectionKey) → contains keys k ≡ false → store.value_at s' k ≡ store.value_at s k)
        × (is_insert_of m ≡ true
            → needs_values m fields ≡ false
            → all_missing (map (store.value_at s) keys) ≡ true)
  read_modify_write_lem keys s s' n distinct ran =
      let run = plain-Run keys s s' n (IsDistinct-are_unique keys distinct) ran in
      let values : run.found ≡ map (store.value_at s) keys =
        store.read_lem s run.read_state keys run.found run.did_read in
      let after : (k : CollectionKey)
          → store.value_at s' k
            ≡ last_put k (store.value_at run.read_state k) (pairs_from keys run.tape) =
        λ k. store.write_lem run.read_state s' (pairs_from keys run.tape) k run.did_write in
      (
        λ i k at_i.
            let own : get_elem? run.found i ≡ some (store.value_at s k) =
              ap (λ f. get_elem? f i) values ∙ get_elem?-map (store.value_at s) keys i at_i in
            let (doc, there, made) =
              tape-seen (needs_values m fields) run.found run.tape i _ run.called own in
            (doc, made, after k ∙ last_put-pairs_from keys run.tape i k doc _ distinct at_i there),
        λ k other.
            after k
            ∙ last_put-other k _ keys run.tape other
            ∙ store.read_keeps s run.read_state keys run.found k run.did_read,
        λ inserts h.
            ap all_missing (sym values)
            ∙ tape-missing (needs_values m fields) run.found run.tape run.called inserts h,
      )
