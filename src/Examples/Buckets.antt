-- ===== src/Examples/Buckets.antt =====
-- The theorems about paths, at buckets of two members and paths of one hash.
use ukv.Prelude.{
  ℕ, ◌≡◌, ◌+◌, ◌<◌, refl, ap, sym, Option, none, some, List, [], ◌∷◌, ◌++◌, length, map, take, drop,
  arith, if◌then◌else◌,
}
use ukv.Types.{length_missing, CollectionKey, key_lt, key_eq}
use ukv.Ranges.{
  sort_and_deduplicate, unique, unique_after, sort, insert_sorted, offset_in_sorted, lower_bound,
}
use ukv.Umem.Scan.{find_and_watch, watch_place}
use ukv.Umem.Blobs.{read_places, write_pairs}
use ukv.Umem.Entries.{Value, Pair, find_entry, put_entry}
use ukv.Umem.Collections.{name_eq}
use ukv.Umem.Blobs.Writes.{last_put}
use ukv.Paths.Bucket.{
  Bytes, bytes_of, join_bytes, bytes_in_header, Member, upsert_in_bucket, value_in_bucket,
  new_bytes, new_size, new_buffer, size_of, layout, without_index, find_in_bucket, find_last,
  for_each_in_bucket, get_bucket_size, get_bucket_keys, get_bucket_vals, keys_lengths, vals_lengths,
  keys_offset, vals_offset, words, chunks,
}
use ukv.Arguments.{viewed}
use ukv.Paths.Bucket.Layout.{IsBucket, bucket_of}
use ukv.Paths.Bucket.Upsert.{IsBucketOf, bucket, empty, upserted}
use ukv.Paths.Bucket.Written.{upsert_in_bucket_lem}
use ukv.Paths.Bucket.Removal.{remove_part}
use ukv.Paths.Bucket.Removal.Parts.{in_parts, part_of, range_of, remove_part_overwrites}
use ukv.Paths.Batch.{
  Engine, Task, write, read, unique_keys, update_all, update_bucket, joined_views, pairs_of,
}
use ukv.Paths.Batch.Updates.{last_content, tasks_bytes, place_of, AllPresent}
use ukv.Paths.Batch.Views.{Bucketed}
use ukv.Paths.Batch.Written.{paths-write-Bucketed, paths-read-write, values_read}
use ukv.Paths.Batch.OverUmem.{umem_engine, umem_read, umem_write}
use ukv.Examples.SortedSet.{OrderedList, ordered_list, keep, is_before, is_ordered, is_true}

abbrev pub two_members : List Member
two_members = (97 ∷ [], 1 ∷ 2 ∷ []) ∷ (98 ∷ 99 ∷ [], []) ∷ []

two_members-IsBucket : IsBucket two_members
two_members-IsBucket =
    ((omega arith, omega arith, (omega arith, omega arith, tt)), λ e. cc, omega arith)

upsert_in_bucket_lem_example :
    IsBucketOf
      (upsert_in_bucket (bucket_of two_members) (97 ∷ []) (5 ∷ []))
      (upserted (97 ∷ []) (5 ∷ []) two_members)
    × (new_bytes (bucket_of two_members) (97 ∷ []) (5 ∷ [])
        ≡ length (bytes_of (upsert_in_bucket (bucket_of two_members) (97 ∷ []) (5 ∷ []))))
    × (value_in_bucket (upsert_in_bucket (bucket_of two_members) (97 ∷ []) (5 ∷ [])) (97 ∷ []) ≡ (
        if name_eq (97 ∷ []) (97 ∷ [])
        then some (5 ∷ [])
        else value_in_bucket (bucket_of two_members) (97 ∷ [])))
unfolding layout upserted without_index find_last name_eq
upsert_in_bucket_lem_example =
    upsert_in_bucket_lem (bucket_of two_members) two_members (97 ∷ []) (5 ∷ []) (97 ∷ [])
      (bucket refl two_members-IsBucket) (omega arith)

-- Paths of one length share a hash.
abbrev task : Bytes → Bytes → Task
task path val = record { collection = 0; path = path; val = some val }

abbrev three_tasks : List Task
three_tasks = task (97 ∷ []) (1 ∷ []) ∷ task (98 ∷ []) (2 ∷ 3 ∷ []) ∷ task (97 ∷ []) (4 ∷ []) ∷ []

three_tasks-AllPresent : AllPresent three_tasks
three_tasks-AllPresent = ((1 ∷ [], refl), ((2 ∷ 3 ∷ [], refl), ((4 ∷ [], refl), tt)))

abbrev no_pairs : OrderedList
no_pairs = ([], tt)

abbrev pub no_values : CollectionKey → Value
no_values k = none

empty-Bucketed : (more : ℕ) → bytes_in_header + more < length_missing → Bucketed none more
unfolding layout
empty-Bucketed more h = record { members = []; held = empty refl refl; room = omega arith }

-- The engine that is the function of its values.
abbrev pub read_values :
    (CollectionKey → Value) → List CollectionKey → Option ((CollectionKey → Value) × List Bytes)
read_values s keys = some (s, map (λ k. bytes_of (s k)) keys)

pub read_values_lem :
    (s s' : CollectionKey → Value) (keys : List CollectionKey) (found : List Bytes)
    → read_values s keys ≡ some (s', found)
    → found ≡ map (λ k. bytes_of (s k)) keys
read_values_lem s s' keys found e = cc

pub read_values-keeps :
    (s s' : CollectionKey → Value) (keys : List CollectionKey) (found : List Bytes)
    (k : CollectionKey)
    → read_values s keys ≡ some (s', found)
    → s' k ≡ s k
read_values-keeps s s' keys found k e =
    let same : s ≡ s' = cc in ap (λ (t : CollectionKey → Value). t k) (sym same)

abbrev pub write_values : (CollectionKey → Value) → List Pair → Option (CollectionKey → Value)
write_values s pairs = some (λ k. last_put k (s k) pairs)

pub write_values_lem :
    (s s' : CollectionKey → Value) (pairs : List Pair) (k : CollectionKey)
    → write_values s pairs ≡ some s'
    → s' k ≡ last_put k (s k) pairs
write_values_lem s s' pairs k e =
    let same : (λ q. last_put q (s q) pairs) ≡ s' = cc in
    ap (λ (t : CollectionKey → Value). t k) (sym same)

abbrev pub function_engine : Engine
function_engine = record {
  State = CollectionKey → Value;
  value_at = λ s k. s k;
  read = read_values;
  read_lem = read_values_lem;
  read_keeps = read_values-keeps;
  write = write_values;
  write_lem = write_values_lem;
}

abbrev pub from_some : {A : Type 0} → A → Option A → A
from_some d none = d
from_some d (some a) = a

abbrev after_tasks : CollectionKey → Value
after_tasks = from_some no_values (write length function_engine three_tasks no_values)

abbrev two_places : List (ℕ × Bytes)
two_places = (0, 98 ∷ []) ∷ (0, 97 ∷ []) ∷ []

abbrev values_of : Option ((CollectionKey → Value) × List Value) → List Value
values_of none = []
values_of (some (s, values)) = values

abbrev found_values : List Value
found_values = values_of (read length function_engine two_places after_tasks)

two_places-bytes :
    length (join_bytes (values_read length function_engine after_tasks two_places)) ≡ 50
unfolding write read unique_keys update_all update_bucket upsert_in_bucket new_buffer viewed
    new_bytes new_size size_of layout without_index find_in_bucket find_last for_each_in_bucket
    get_bucket_size get_bucket_keys get_bucket_vals keys_lengths vals_lengths keys_offset
    vals_offset words joined_views pairs_of last_put key_eq key_lt sort_and_deduplicate sort
    insert_sorted unique unique_after offset_in_sorted lower_bound name_eq chunks
two_places-bytes = refl

paths-read-write_example :
    found_values
    ≡ map
        (λ (q : ℕ × Bytes). last_content (q.0) (q.1) (value_in_bucket none (q.1)) three_tasks)
        two_places
unfolding write read unique_keys sort_and_deduplicate sort insert_sorted unique unique_after key_lt
    key_eq
paths-read-write_example =
    paths-read-write length function_engine three_tasks two_places no_values after_tasks after_tasks
      found_values three_tasks-AllPresent
      (record {
        few = omega arith;
        buckets = λ k. empty-Bucketed (tasks_bytes three_tasks + 0) (omega arith);
        joined = omega arith;
      })
      refl (omega (arith, two_places-bytes)) refl

abbrev after_write : OrderedList
after_write = from_some no_pairs (write length (umem_engine ordered_list) three_tasks no_pairs)

paths-write-Bucketed_example :
    Bucketed ((umem_engine ordered_list).value_at after_write (place_of length 0 (97 ∷ []))) 7
unfolding find_entry put_entry write unique_keys umem_read umem_write read_places write_pairs
    sort_and_deduplicate unique unique_after sort insert_sorted key_lt key_eq find_and_watch
    watch_place offset_in_sorted lower_bound keep is_before is_ordered is_true joined_views pairs_of
paths-write-Bucketed_example =
    paths-write-Bucketed length (umem_engine ordered_list) three_tasks no_pairs after_write 7
      (place_of length 0 (97 ∷ [])) three_tasks-AllPresent
      (record {
        few = omega arith;
        buckets = λ k. empty-Bucketed (tasks_bytes three_tasks + 7) (omega arith);
        joined = omega arith;
      })
      refl

remove_part_overwrites_example :
    drop 6
      (remove_part
        (
          in_parts (9 ∷ []) (1 ∷ 2 ∷ 3 ∷ []) (4 ∷ []) (5 ∷ []) (6 ∷ 7 ∷ 8 ∷ []),
          range_of (9 ∷ []) (1 ∷ 2 ∷ 3 ∷ 4 ∷ 5 ∷ []),
        )
        (part_of (9 ∷ []) (1 ∷ 2 ∷ 3 ∷ []) (4 ∷ []))).0
    ≡ drop 1 (take 3 (6 ∷ 7 ∷ 8 ∷ [])) ++ drop 2 (6 ∷ 7 ∷ 8 ∷ [])
remove_part_overwrites_example =
    remove_part_overwrites (9 ∷ []) (1 ∷ 2 ∷ 3 ∷ []) (4 ∷ []) (5 ∷ []) (6 ∷ 7 ∷ 8 ∷ [])
      (omega arith) (omega arith)
