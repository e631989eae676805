-- ===== src/Docs/Updates.antt =====
-- src/modality_docs.cpp: `read_modify_docs` and `read_modify_write`, over any store. A callback turns
-- a task's field and document into the document that it puts on the tape; `none` is an error.
pub mod Callbacks
pub mod Distinct
pub mod Written
pub mod OverUmem
use ukv.Prelude.{
  ℕ, zero, suc, ◌≡◌, ◌+◌, Bool, true, false, not, ◌&&◌, ◌||◌, Option, none, some, List, [], ◌∷◌,
  length, get_or, map, ◌==◌, if◌then◌else◌,
}
use ukv.Types.{CollectionKey}
use ukv.Types.Order.{key_order}
use ukv.Ranges.{sort_and_deduplicate, offset_in_sorted, all_ascending}
use ukv.Arguments.{is_present}
use ukv.Umem.Entries.{Value, Pair}
use ukv.Umem.Blobs.Writes.{last_put}
use ukv.Paths.Bucket.{bytes_of}
use ukv.Docs.{Bytes}

-- What the documents use of an engine, or of a transaction over one. A read exports offsets, lengths
-- and presences, so what it finds are values; `none` is an error.
pub record Store : Type 1 where
  pub State : Type 0
  pub value_at : State → CollectionKey → Value
  pub read : State → List CollectionKey → Option (State × List Value)
  pub read_lem :
      (s s' : State) (keys : List CollectionKey) (found : List Value)
      → read s keys ≡ some (s', found)
      → found ≡ map (value_at s) keys
  pub read_keeps :
      (s s' : State) (keys : List CollectionKey) (found : List Value) (k : CollectionKey)
      → read s keys ≡ some (s', found)
      → value_at s' k ≡ value_at s k
  pub write : State → List Pair → Option State
  pub write_lem :
      (s s' : State) (pairs : List Pair) (k : CollectionKey)
      → write s pairs ≡ some s'
      → value_at s' k ≡ last_put k (value_at s k) pairs

-- `doc_modification_t`
pub data Modification : Type 0 where
  nothing remove upsert update insert patch merge : Modification

-- The strided fields: none, one that repeats, or one for each task.
pub data Fields : Type 0 where
  without : Fields
  repeated : Option Bytes → Fields
  listed : (ℕ → Option Bytes) → Fields

unfoldable pub has_fields : Fields → Bool
has_fields without = false
has_fields (repeated field) = is_present field
has_fields (listed fields) = true

unfoldable pub field_at : Fields → ℕ → Option Bytes
field_at without i = none
field_at (repeated field) i = field
field_at (listed fields) i = fields i

unfoldable pub needs_values : Modification → Fields → Bool
needs_values patch fields = true
needs_values merge fields = true
needs_values _ fields = has_fields fields

abbrev pub Callback : Type 0
Callback = ℕ → Option Bytes → Bytes → Option Bytes

abbrev pub push_out {ℓ} : {A : Type ℓ} → Option A → Option (List A) → Option (List A)
push_out none rest = none
push_out (some x) none = none
push_out (some x) (some xs) = some (x ∷ xs)

-- The calls for the documents of all tasks from an index on: what lies on the tape afterwards.
unfoldable pub for_each : Callback → Fields → ℕ → List Bytes → Option (List Bytes)
for_each callback fields i [] = some []
for_each callback fields i (doc ∷ docs) =
    push_out (callback i (field_at fields i) doc) (for_each callback fields (i + 1) docs)

-- The calls without documents, of which an insertion refuses the ones that are there.
unfoldable pub for_each_absent : Callback → Bool → Fields → ℕ → List Value → Option (List Bytes)
for_each_absent callback is_insert fields i [] = some []
for_each_absent callback is_insert fields i (v ∷ values) =
    let rest =
      push_out (callback i (field_at fields i) [])
        (for_each_absent callback is_insert fields (i + 1) values) in
    if is_present v && is_insert then none else rest

abbrev pub is_insert_of : Modification → Bool
is_insert_of insert = true
is_insert_of _ = false

abbrev pub is_nothing : Modification → Bool
is_nothing nothing = true
is_nothing _ = false

abbrev pub all_missing : List Value → Bool
all_missing [] = true
all_missing (v ∷ values) = not (is_present v) && all_missing values

-- The documents that the tasks' keys have among those of the sorted unique keys.
unfoldable pub task_docs : List CollectionKey → List Value → List CollectionKey → List Bytes
task_docs unique found [] = []
task_docs unique found (k ∷ keys) =
    bytes_of (get_or found (offset_in_sorted unique k) none) ∷ task_docs unique found keys

-- Whether the keys are taken for unique: they ascend, whatever the collections are, or there are
-- as many without repetitions.
unfoldable pub are_unique : List CollectionKey → Bool
are_unique keys =
    all_ascending (map (λ (k : CollectionKey). k.key) keys)
    || length (sort_and_deduplicate keys) == length keys

-- The pairs of the unique places and as many documents from the tape's start.
unfoldable pub pairs_from : List CollectionKey → List Bytes → List Pair
pairs_from [] docs = []
pairs_from (k ∷ keys) [] = []
pairs_from (k ∷ keys) (doc ∷ docs) = record { place = k; range = some doc } ∷ pairs_from keys docs

module _ (store : Store) where
  -- What is made of the values that a read finds.
  abbrev pub read_then :
      (List Value → Option (List Bytes))
      → Option (store.State × List Value)
      → Option (store.State × Option (List Bytes))
  read_then docs none = none
  read_then docs (some (s, found)) = some (s, docs found)

  abbrev pub with_places :
      List CollectionKey
      → Option (store.State × Option (List Bytes))
      → Option (store.State × (List CollectionKey × Option (List Bytes)))
  with_places keys none = none
  with_places keys (some (s, tape)) = some (s, (keys, tape))

  abbrev pub write_docs :
      Option (store.State × (List CollectionKey × Option (List Bytes))) → Option store.State
  write_docs none = none
  write_docs (some (s, (unique, none))) = none
  write_docs (some (s, (unique, some docs))) = store.write s (pairs_from unique docs)

module _ (store : Store) (callback : Callback) where
  -- The documents of the keys, in their order. If all are missing, the fields are not passed on.
  unfoldable pub read_unique_docs :
      List CollectionKey → Fields → store.State → Option (store.State × Option (List Bytes))
  read_unique_docs keys fields s =
      read_then store
        (λ found.
          for_each callback (if all_missing found then without else fields) 0 (map bytes_of found))
        (store.read s keys)

  unfoldable pub read_modified_docs :
      Modification
      → List CollectionKey
      → Fields
      → store.State
      → Option (store.State × Option (List Bytes))
  read_modified_docs m keys fields s =
      read_then store
        (λ found.
          if needs_values m fields
          then for_each callback fields 0 (map bytes_of found)
          else for_each_absent callback (is_insert_of m) fields 0 found)
        (store.read s keys)

  unfoldable pub read_modify_unique_docs :
      Modification
      → List CollectionKey
      → Fields
      → store.State
      → Option (store.State × Option (List Bytes))
  read_modify_unique_docs m keys fields s =
      if is_nothing m then read_unique_docs keys fields s else read_modified_docs m keys fields s

  -- The unique documents, joined with the tasks by binary search.
  unfoldable pub read_joined_docs :
      List CollectionKey → Fields → store.State → Option (store.State × Option (List Bytes))
  read_joined_docs keys fields s =
      let unique = sort_and_deduplicate keys in
      read_then store (λ found. for_each callback fields 0 (task_docs unique found keys))
        (store.read s unique)

  -- The unique places, and the tape.
  unfoldable pub read_modify_docs :
      Modification
      → List CollectionKey
      → Fields
      → store.State
      → Option (store.State × (List CollectionKey × Option (List Bytes)))
  read_modify_docs m keys fields s =
      if are_unique keys
      then with_places store keys (read_modify_unique_docs m keys fields s)
      else with_places store (sort_and_deduplicate keys) (read_joined_docs keys fields s)

  unfoldable pub read_modify_write :
      Modification → List CollectionKey → Fields → store.State → Option store.State
  read_modify_write m keys fields s = write_docs store (read_modify_docs m keys fields s)
