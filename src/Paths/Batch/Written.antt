-- ===== src/Paths/Batch/Written.antt =====
-- What `ukv_paths_write` puts into an engine, and what `ukv_paths_read` finds there afterwards.
use mathlib.Core.Path.{ap₂}
use ukv.Prelude.{
  get_elem?-map, get_elem?-map-none, ℕ, ◌≡◌, ◌+◌, ◌<◌, ◌^◌, refl, sym, ap, subst, ◌∙◌, true, false,
  Option, none, some, List, [], ◌∷◌, ◌++◌, append_assoc, length-append, inl, inr, arith, Bool-cases,
  Option-cases, length, length-map, get_elem?, map,
}
use ukv.Types.{length_missing, CollectionKey}
use ukv.Types.Order.{key_order}
use ukv.Ranges.{offset_in_sorted, contains}
use ukv.Ranges.Sorted.{sort_and_deduplicate_lem, get_elem?-offset_in_sorted}
use ukv.Umem.Entries.{Value}
use ukv.Umem.Blobs.Writes.{last_put}
use ukv.Paths.Bucket.{Bytes, bytes_in_header, bytes_of, join_bytes, layout, value_in_bucket}
use ukv.Paths.Bucket.Upsert.{IsBucketOf, empty}
use ukv.Paths.Bucket.Removal.{View}
use ukv.Paths.Batch.{
  Engine, Task, content_of, joined_views, view_at, pairs_of, key_of, unique_keys, update_all, write,
  find_all, read,
}
use ukv.Paths.Batch.Holding.{Holds}
use ukv.Paths.Batch.Updates.{
  AllPresent, last_content, tasks_bytes, place_of, Updated, update_all_lem,
}
use ukv.Paths.Batch.Views.{
  Bucketed, exact_views, joined_views-exact, content-joined, joined-Fits, length-exact_views,
  value_in_bytes, bytes-IsBucketOf, map_ext, last_put-absent, last_put-pairs_of, AllFound-unique,
  last_content-absent,
}

module _ (hash : Bytes → ℕ) where
  module _ (eng : Engine) (tasks : List Task) (s : eng.State) where
    abbrev keys_found : List Bytes
    keys_found = map (λ k. bytes_of (eng.value_at s k)) (unique_keys hash tasks)

    abbrev initial_view : ℕ → Option View
    initial_view i = view_at (exact_views 0 keys_found) i

    -- Every view of what is read is of a bucket, or of nothing.
    initial-Holds :
        (more : ℕ)
        → bytes_in_header + more < length_missing
        → ((k : CollectionKey) → Bucketed (eng.value_at s k) more)
        → (i : ℕ) → Holds (join_bytes keys_found) (initial_view i) more
    unfolding layout
    initial-Holds more fits h i = elim (Option-cases (get_elem? (unique_keys hash tasks) i)) [
      | inl e ↦ record {
        members = [];
        held =
            subst (λ v. IsBucketOf v [])
              (sym (
                content-joined [] keys_found i ∙ get_elem?-map-none _ (unique_keys hash tasks) i e))
              (empty refl refl);
        fits = joined-Fits [] keys_found i;
        room = omega arith;
      }
      | inr (k, e) ↦ record {
        members = (h k).members;
        held =
            subst (λ v. IsBucketOf v (h k).members)
              (sym (content-joined [] keys_found i ∙ get_elem?-map _ (unique_keys hash tasks) i e))
              (bytes-IsBucketOf (eng.value_at s k) (h k).members (h k).held);
        fits = joined-Fits [] keys_found i;
        room = (h k).room;
      }
    ]

    abbrev after : Bytes × List (Option View)
    after =
        update_all hash (unique_keys hash tasks) tasks (join_bytes keys_found)
          (exact_views 0 keys_found)

    module _ (more : ℕ) (few : bytes_in_header + (tasks_bytes tasks + more) < length_missing)
        (present : AllPresent tasks)
        (h : (k : CollectionKey) → Bucketed (eng.value_at s k) (tasks_bytes tasks + more))
        (fits : length (join_bytes keys_found) < 2 ^ 32) where
      updated :
          Updated hash
            (unique_keys hash tasks)
            tasks
            (join_bytes keys_found)
            (exact_views 0 keys_found)
            more
            after
      unfolding unique_keys
      updated =
          update_all_lem hash (unique_keys hash tasks) tasks (join_bytes keys_found)
            (exact_views 0 keys_found) more present
            (AllFound-unique hash (map (key_of hash) tasks) tasks (λ k c. c))
            (length-exact_views 0 keys_found ∙ length-map _ (unique_keys hash tasks))
            (initial-Holds (tasks_bytes tasks + more) few h)

      -- The engine's values after the write.
      write_values :
          (s' : eng.State) (k : CollectionKey)
          → write hash eng tasks s ≡ some s'
          → eng.value_at s' k
            ≡ last_put k (eng.value_at s k) (pairs_of (after.0) (unique_keys hash tasks) (after.1))
      unfolding write
      write_values s' k e = elim (Option-cases (eng.read s (unique_keys hash tasks))) [
        | inl failed ↦ let opened : write hash eng tasks s ≡ none = rw (failed, write) refl in cc
        | inr ((s1, found), done) ↦
            let same : found ≡ keys_found = eng.read_lem s s1 (unique_keys hash tasks) found done in
            let outcome = λ (bs : List Bytes). eng.write s1 (
              pairs_of
                ((update_all hash (unique_keys hash tasks) tasks (join_bytes bs)
                  (joined_views 0 bs)).0)
                (unique_keys hash tasks)
                ((update_all hash (unique_keys hash tasks) tasks (join_bytes bs)
                  (joined_views 0 bs)).1)) in
            let opened : write hash eng tasks s ≡ outcome found = rw (done, write) refl in
            let wrote : outcome keys_found ≡ some s' = ap outcome (sym same) ∙ sym opened ∙ e in
            let views = joined_views-exact 0 keys_found (omega arith) in
            eng.write_lem s1 s' _ k wrote
            ∙ ap
                (λ vs. last_put k (eng.value_at s1 k) (
                  pairs_of
                    ((update_all hash (unique_keys hash tasks) tasks (join_bytes keys_found) vs).0)
                    (unique_keys hash tasks)
                    ((update_all hash (unique_keys hash tasks) tasks (join_bytes keys_found)
                      vs).1)))
                views
            ∙ ap (λ v. last_put k v (pairs_of (after.0) (unique_keys hash tasks) (after.1)))
                (eng.read_keeps s s1 (unique_keys hash tasks) found k done)
      ]

      written_view :
          (k : CollectionKey)
          → contains (unique_keys hash tasks) k ≡ true
          → last_put k (eng.value_at s k) (pairs_of (after.0) (unique_keys hash tasks) (after.1))
            ≡ content_of (after.0) (view_at (after.1) (offset_in_sorted (unique_keys hash tasks) k))
      unfolding unique_keys
      written_view k c =
          last_put-pairs_of (after.0) k (eng.value_at s k) (unique_keys hash tasks) (after.1)
            (sort_and_deduplicate_lem (map (key_of hash) tasks)).0
            (updated.count
              ∙ length-exact_views 0 keys_found
              ∙ length-map _ (unique_keys hash tasks))
            c

      found_at :
          (k : CollectionKey)
          → contains (unique_keys hash tasks) k ≡ true
          → get_elem? (unique_keys hash tasks) (offset_in_sorted (unique_keys hash tasks) k)
            ≡ some k
      unfolding unique_keys
      found_at k c =
          get_elem?-offset_in_sorted (unique_keys hash tasks) k
            (sort_and_deduplicate_lem (map (key_of hash) tasks)).0 c

      absent_tasks :
          (k : CollectionKey)
          → contains (unique_keys hash tasks) k ≡ false
          → contains (map (key_of hash) tasks) k ≡ false
      unfolding unique_keys
      absent_tasks k c = sym ((sort_and_deduplicate_lem (map (key_of hash) tasks)).1 k) ∙ c

      path_value :
          (c : ℕ) (p : Bytes)
          → value_in_bucket
              (last_put
                (place_of hash c p)
                (eng.value_at s (place_of hash c p))
                (pairs_of (after.0) (unique_keys hash tasks) (after.1)))
              p
            ≡ last_content c p (value_in_bucket (eng.value_at s (place_of hash c p)) p) tasks
      path_value c p =
          let k = place_of hash c p in
          elim (Bool-cases (contains (unique_keys hash tasks) k)) [
            | inl has ↦
                let i = offset_in_sorted (unique_keys hash tasks) k in
                ap (λ v. value_in_bucket v p) (written_view k has)
                ∙ updated.value c p (found_at k has)
                ∙ ap (λ v. last_content c p (value_in_bucket v p) tasks)
                    (content-joined [] keys_found i
                      ∙ get_elem?-map _ (unique_keys hash tasks) i (found_at k has))
                ∙ ap (λ v. last_content c p v tasks) (value_in_bytes (eng.value_at s k) p)
            | inr lacks ↦
                ap (λ v. value_in_bucket v p)
                  (last_put-absent (after.0) k (eng.value_at s k) (unique_keys hash tasks) (after.1)
                    lacks)
                ∙ sym (last_content-absent hash c p _ tasks (absent_tasks k lacks))
          ]

      put_Bucketed :
          (k : CollectionKey)
          → Bucketed
              (last_put k
                (eng.value_at s k)
                (pairs_of (after.0) (unique_keys hash tasks) (after.1)))
              more
      put_Bucketed k = elim (Bool-cases (contains (unique_keys hash tasks) k)) [
        | inl has ↦
            let held = updated.all_hold (offset_in_sorted (unique_keys hash tasks) k) in
            subst (λ v. Bucketed v more) (sym (written_view k has))
              (record { members = held.members; held = held.held; room = held.room })
        | inr lacks ↦
            subst (λ v. Bucketed v more)
              (sym (
                last_put-absent (after.0) k (eng.value_at s k) (unique_keys hash tasks) (after.1)
                  lacks))
              (record {
                members = (h k).members;
                held = (h k).held;
                room = omega (arith, (h k).room);
              })
      ]

  -- What is asked of the values before a write of tasks: all are buckets with room for what the
  -- tasks and so many bytes more add, in fewer than 2^32 - 1 bytes, and those of the tasks' keys
  -- have fewer than 2^32 bytes together.
  pub record HaveRoom (eng : Engine) (tasks : List Task) (s : eng.State) (more : ℕ) : Type 0 where
    pub few : bytes_in_header + (tasks_bytes tasks + more) < length_missing
    pub buckets : (k : CollectionKey) → Bucketed (eng.value_at s k) (tasks_bytes tasks + more)
    pub joined : length (join_bytes (keys_found eng tasks s)) < 2 ^ 32

  paths-write_lem :
      (eng : Engine) (tasks : List Task) (s s' : eng.State) (c : ℕ) (p : Bytes)
      → AllPresent tasks
      → HaveRoom eng tasks s 0
      → write hash eng tasks s ≡ some s'
      → value_in_bucket (eng.value_at s' (place_of hash c p)) p
        ≡ last_content c p (value_in_bucket (eng.value_at s (place_of hash c p)) p) tasks
  paths-write_lem eng tasks s s' c p present h e =
      ap (λ v. value_in_bucket v p)
        (write_values eng tasks s 0 h.few present h.buckets h.joined s' (place_of hash c p) e)
      ∙ path_value eng tasks s 0 h.few present h.buckets h.joined c p

  -- Over an engine whose values are all buckets with room for the tasks and for so many bytes more,
  -- in fewer than 2^32 - 1 bytes, and where the values of the tasks' keys have fewer than 2^32 bytes
  -- together: a successful write of tasks that all have a content leaves at every key a bucket with
  -- room for as many bytes more.
  pub paths-write-Bucketed :
      (eng : Engine) (tasks : List Task) (s s' : eng.State) (more : ℕ) (k : CollectionKey)
      → AllPresent tasks
      → HaveRoom eng tasks s more
      → write hash eng tasks s ≡ some s'
      → Bucketed (eng.value_at s' k) more
  paths-write-Bucketed eng tasks s s' more k present h e =
      subst (λ v. Bucketed v more)
        (sym (write_values eng tasks s more h.few present h.buckets h.joined s' k e))
        (put_Bucketed eng tasks s more h.few present h.buckets h.joined k)

  abbrev pub value_at_place : (eng : Engine) → eng.State → ℕ × Bytes → Value
  value_at_place eng s q = eng.value_at s (place_of hash (q.0) (q.1))

  -- The values of the places of a read, as they lie in its memory.
  abbrev pub values_read : (eng : Engine) → eng.State → List (ℕ × Bytes) → List Bytes
  values_read eng s places = map (λ (q : ℕ × Bytes). bytes_of (value_at_place eng s q)) places

  -- A read gives, for every place, what is found in the bucket of its path.
  find_all-values :
      (eng : Engine) (s : eng.State) (pre : Bytes) (places : List (ℕ × Bytes))
      → find_all hash eng
          (pre ++ join_bytes (values_read eng s places))
          (map (λ (q : ℕ × Bytes). q.1) places)
          (exact_views (length pre) (values_read eng s places))
        ≡ map (λ (q : ℕ × Bytes). value_in_bucket (value_at_place eng s q) (q.1)) places
  unfolding find_all exact_views
  find_all-values eng s pre [] = refl
  find_all-values eng s pre (q ∷ places) =
      let b = bytes_of (value_at_place eng s q) in
      let bs = values_read eng s places in
      ap₂ (λ v vs. v ∷ vs)
        (ap (λ v. value_in_bucket v (q.1)) (content-joined pre (b ∷ bs) 0)
          ∙ value_in_bytes (value_at_place eng s q) (q.1))
        (ap₂ (λ m n. find_all hash eng m (map (λ (z : ℕ × Bytes). z.1) places) (exact_views n bs))
            (sym (append_assoc pre b (join_bytes bs))) (sym (length-append pre b))
          ∙ find_all-values eng s (pre ++ b) places)

  keys-values_read :
      (eng : Engine) (s : eng.State) (places : List (ℕ × Bytes))
      → map
          (λ k. bytes_of (eng.value_at s k))
          (map (λ (q : ℕ × Bytes). place_of hash (q.0) (q.1)) places)
        ≡ values_read eng s places
  keys-values_read eng s [] = refl
  keys-values_read eng s (q ∷ places) =
      ap (λ bs. bytes_of (value_at_place eng s q) ∷ bs) (keys-values_read eng s places)

  paths-read_lem :
      (eng : Engine) (s s' : eng.State) (places : List (ℕ × Bytes)) (values : List Value)
      → length (join_bytes (values_read eng s places)) < 2 ^ 32
      → read hash eng places s ≡ some (s', values)
      → values ≡ map (λ (q : ℕ × Bytes). value_in_bucket (value_at_place eng s q) (q.1)) places
  unfolding read
  paths-read_lem eng s s' places values fits e =
      let keys = map (λ (q : ℕ × Bytes). place_of hash (q.0) (q.1)) places in
      elim (Option-cases (eng.read s keys)) [
        | inl failed ↦ let opened : read hash eng places s ≡ none = rw (failed, read) refl in cc
        | inr ((s1, found), done) ↦
            let paths = map (λ (q : ℕ × Bytes). q.1) places in
            let outcome =
              λ (bs : List Bytes). find_all hash eng (join_bytes bs) paths (joined_views 0 bs) in
            let opened : read hash eng places s ≡ some (s1, outcome found) = rw (done, read) refl in
            let got : outcome found ≡ values = cc in
            let same : found ≡ values_read eng s places =
              eng.read_lem s s1 keys found done ∙ keys-values_read eng s places in
            sym got
            ∙ ap outcome same
            ∙ ap (find_all hash eng (join_bytes (values_read eng s places)) paths)
                (joined_views-exact 0 (values_read eng s places) (omega arith))
            ∙ find_all-values eng s [] places
      ]

  -- Over an engine whose values are all buckets with room for the tasks, in fewer than 2^32 - 1
  -- bytes, and where the values of the tasks' keys have fewer than 2^32 bytes together: after a
  -- successful write of tasks that all have a content, a successful read of values of fewer than
  -- 2^32 bytes together gives for every place what the last task of its path put there, or what was
  -- there before, whatever paths share a hash.
  pub paths-read-write :
      (eng : Engine) (tasks : List Task) (places : List (ℕ × Bytes)) (s s' s2 : eng.State)
      (values : List Value)
      → AllPresent tasks
      → HaveRoom eng tasks s 0
      → write hash eng tasks s ≡ some s'
      → length (join_bytes (values_read eng s' places)) < 2 ^ 32
      → read hash eng places s' ≡ some (s2, values)
      → values
        ≡ map
            (λ (q : ℕ × Bytes).
              last_content (q.0) (q.1) (value_in_bucket (value_at_place eng s q) (q.1)) tasks)
            places
  paths-read-write eng tasks places s s' s2 values present h e fits r =
      paths-read_lem eng s' s2 places values fits r
      ∙ map_ext _ _ (λ (q : ℕ × Bytes). paths-write_lem eng tasks s s' (q.0) (q.1) present h e)
          places
