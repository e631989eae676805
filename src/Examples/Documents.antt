-- ===== src/Examples/Documents.antt =====
-- The theorems about the paths of documents and about modifications of documents, at a few keys.
use ukv.Prelude.{ℕ, ◌≡◌, refl, sym, ap, true, false, Option, some, List, [], ◌∷◌, map, get_elem?}
use ukv.Types.{CollectionKey, key_eq, key_lt}
use ukv.Types.Order.{key_order}
use ukv.Ranges.{
  sort_and_deduplicate, sort, insert_sorted, unique, unique_after, contains, all_ascending,
  lower_bound, offset_in_sorted,
}
use ukv.Arguments.{until}
use ukv.Umem.Entries.{Value, Pair}
use ukv.Umem.Blobs.Writes.{last_put}
use ukv.Examples.Buckets.{from_some}
use ukv.Docs.{Bytes, Json, uint, str, arr, obj, item, no_items, member, no_members, null_value}
use ukv.Docs.Numbers.{to_chars, digits_of}
use ukv.Docs.Gist.{Gist, docs_gist}
use ukv.Docs.Gist.Order.{bytes_order}
use ukv.Docs.Gist.Leaves.{fits}
use ukv.Docs.Gist.Exported.{IsGist}
use ukv.Docs.Gist.Listed.{no_paths, all_leaves, docs_gist_lem}
use ukv.Docs.Updates.{
  Store, merge, without, Callback, read_modify_write, read_modify_docs, read_modify_unique_docs,
  read_modified_docs, read_joined_docs, for_each, task_docs, are_unique, needs_values, field_at,
  pairs_from, is_insert_of, all_missing,
}
use ukv.Docs.Updates.Written.{seen, read_modify_write_lem, read_modify_write_repeated}
use ukv.Docs.Updates.Distinct.{IsDistinct}

-- A member of one letter, and one of two items.
abbrev small_document : Json
small_document = obj (
    member (97 ∷ []) (uint 1)
      (member (98 ∷ []) (arr (item null_value (item (str []) no_items))) no_members))

abbrev parse_small : Bytes → Option Json
parse_small text = some small_document

small_document-fits : fits small_document [] ≡ true
unfolding fits to_chars digits_of until
small_document-fits = refl

docs_gist_lem_example :
    (gist : Gist) × (docs_gist parse_small ((1 ∷ []) ∷ [] ∷ (2 ∷ []) ∷ []) no_paths ≡ some gist)
    × IsGist gist
    × ((w : Bytes)
        → contains gist.exported_paths w
          ≡ contains (all_leaves parse_small ((1 ∷ []) ∷ [] ∷ (2 ∷ []) ∷ [])) w)
docs_gist_lem_example =
    docs_gist_lem parse_small ((1 ∷ []) ∷ [] ∷ (2 ∷ []) ∷ []) (
      (small_document, refl, small_document-fits),
      ((small_document, refl, small_document-fits), tt),
    )

abbrev pub Contents : Type 0
Contents = CollectionKey → Value

abbrev pub read_contents : Contents → List CollectionKey → Option (Contents × List Value)
read_contents s keys = some (s, map s keys)

abbrev pub write_contents : Contents → List Pair → Option Contents
write_contents s pairs = some (λ k. last_put k (s k) pairs)

pub read_contents_lem :
    (s s' : Contents) (keys : List CollectionKey) (found : List Value)
    → read_contents s keys ≡ some (s', found)
    → found ≡ map s keys
read_contents_lem s s' keys found e =
    let same = ap (from_some (s, map s keys)) e in
    ap (λ (t : Contents × List Value). t.1) (sym same)

pub read_contents_keeps :
    (s s' : Contents) (keys : List CollectionKey) (found : List Value) (k : CollectionKey)
    → read_contents s keys ≡ some (s', found)
    → s' k ≡ s k
read_contents_keeps s s' keys found k e =
    let same = ap (from_some (s, map s keys)) e in
    ap (λ (t : Contents × List Value). t.0 k) (sym same)

pub write_contents_lem :
    (s s' : Contents) (pairs : List Pair) (k : CollectionKey)
    → write_contents s pairs ≡ some s'
    → s' k ≡ last_put k (s k) pairs
write_contents_lem s s' pairs k e =
    let same = ap (from_some s) e in ap (λ (t : Contents). t k) (sym same)

abbrev pub contents_store : Store
contents_store = record {
  State = Contents;
  value_at = λ s k. s k;
  read = read_contents;
  read_lem = read_contents_lem;
  read_keeps = read_contents_keeps;
  write = write_contents;
  write_lem = write_contents_lem;
}

abbrev pub at_key : ℕ → CollectionKey
at_key k = record { collection = 0; key = k }

abbrev pub same_contents : Contents
same_contents k = some (1 ∷ [])

-- The call puts the task's number in front of the document.
abbrev numbered : Callback
numbered i field doc = some (i ∷ doc)

abbrev pub two_keys : List CollectionKey
two_keys = at_key 5 ∷ at_key 3 ∷ []

abbrev three_keys : List CollectionKey
three_keys = at_key 5 ∷ at_key 3 ∷ at_key 5 ∷ []

abbrev after_merge : Contents
after_merge k = last_put k (some (1 ∷ [])) (pairs_from two_keys ((0 ∷ 1 ∷ []) ∷ (1 ∷ 1 ∷ []) ∷ []))

did_merge :
    read_modify_write contents_store numbered merge two_keys without same_contents
    ≡ some after_merge
unfolding read_modify_write read_modify_docs read_modify_unique_docs read_modified_docs are_unique
    sort_and_deduplicate all_ascending sort unique key_lt key_eq needs_values for_each field_at
    insert_sorted unique_after
did_merge = refl

pub two_keys-IsDistinct : IsDistinct two_keys
unfolding contains key_eq
two_keys-IsDistinct = (refl, (refl, tt))

read_modify_write_lem_example :
    ((i : ℕ) (k : CollectionKey)
      → get_elem? two_keys i ≡ some k
      → (doc : Bytes) × (numbered i (field_at without i) (seen merge without (same_contents k))
          ≡ some doc)
        × (after_merge k ≡ some doc))
    × ((k : CollectionKey) → contains two_keys k ≡ false → after_merge k ≡ same_contents k)
    × (is_insert_of merge ≡ true
        → needs_values merge without ≡ false
        → all_missing (map same_contents two_keys) ≡ true)
read_modify_write_lem_example =
    read_modify_write_lem contents_store numbered merge without two_keys same_contents after_merge
      refl two_keys-IsDistinct did_merge

-- The first task is of key 5, and the first of the sorted keys is 3.
abbrev after_repeated : Contents
after_repeated k =
    last_put k (some (1 ∷ []))
      (pairs_from (at_key 3 ∷ at_key 5 ∷ []) ((0 ∷ 1 ∷ []) ∷ (1 ∷ 1 ∷ []) ∷ (2 ∷ 1 ∷ []) ∷ []))

three_keys_repeat : are_unique three_keys ≡ false
unfolding are_unique sort_and_deduplicate all_ascending sort unique key_lt key_eq insert_sorted
    unique_after
three_keys_repeat = refl

did_repeat :
    read_modify_write contents_store numbered merge three_keys without same_contents
    ≡ some after_repeated
unfolding read_modify_write read_modify_docs read_joined_docs are_unique task_docs offset_in_sorted
    lower_bound sort_and_deduplicate all_ascending sort unique key_lt key_eq for_each field_at
    insert_sorted unique_after
did_repeat = refl

unique_of_three : sort_and_deduplicate three_keys ≡ at_key 3 ∷ at_key 5 ∷ []
unfolding sort_and_deduplicate sort unique key_lt key_eq insert_sorted unique_after
unique_of_three = refl

read_modify_write_repeated_example :
    (doc : Bytes) × (numbered 0 (field_at without 0) (1 ∷ []) ≡ some doc)
    × (after_repeated (at_key 3) ≡ some doc)
read_modify_write_repeated_example =
    read_modify_write_repeated contents_store numbered merge without three_keys same_contents
      after_repeated three_keys_repeat did_repeat 0 (at_key 3) (at_key 5)
      (ap (λ keys. get_elem? keys 0) unique_of_three) refl
