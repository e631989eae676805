-- ===== src/Examples/Engine.antt =====
-- The theorems about the in-memory engine, at two collections with three pairs.
use ukv.Prelude.{
  ℕ, ◌≡◌, ◌≢◌, refl, true, Option, none, some, List, [], ◌∷◌, arith, take, length, ◌==◌, zero, suc,
  if◌then◌else◌, ap, sym,
}
use ukv.Types.{CollectionKey, collection_main, key_eq, key_lt}
use ukv.Arguments.{
  PlacesArg, ContentsArg, content_at, place_at, validate_write, enum_is_subset, length_at, viewed,
  tasks_from, until,
}
use ukv.Umem.Entries.{Value, Pair, find_entry, matching, put_entry, in_collections, change_entries}
use ukv.Umem.Entries.Above.{IsOrdered}
use ukv.Umem.Scan.{scan_and_watch, find_and_watch, watch_place}
use ukv.Umem.Scan.Correct.{set_source, scan_and_watch-matching}
use ukv.Umem.Blobs.{
  write, write_pairs, pairs_of, ok, Transactions, write_transactional, write_tasks, watch_unless,
  write_one,
}
use ukv.Umem.Blobs.Writes.{last_put, write-reads}
use ukv.Umem.Blobs.Transactional.{TransactionView, write_transactional-reads}
use ukv.Umem.Collections.{
  Names, name_eq, name_lt, find_name, emplace, is_unused, handle_of, new_collection,
  drop_keys_vals_handle, drop_vals, Database, create, drop_collection, list_collections, list_from,
}
use ukv.Umem.Collections.Names.{HasNoHandle, HasDistinctHandles, create_lem}
use ukv.Umem.Collections.Dropping.{leftover, drop_collection_lem}
use ukv.Umem.Collections.Listing.{strings_at, last_of, list_collections_lem}
use ukv.Examples.SortedSet.{
  OrderedList, ordered_list, keep, keep_batch, is_ordered, is_before, is_true,
}

abbrev at_key : ℕ → ℕ → CollectionKey
at_key c k = record { collection = c; key = k }

abbrev pair : ℕ → ℕ → Value → Pair
pair c k v = record { place = at_key c k; range = v }

abbrev three_entries : List Pair
three_entries = pair 0 3 (some (7 ∷ [])) ∷ pair 0 5 (some []) ∷ pair 9 1 (some (8 ∷ [])) ∷ []

three_entries-IsOrdered : IsOrdered three_entries
unfolding key_lt
three_entries-IsOrdered = ((refl, (refl, tt)), ((refl, tt), (tt, tt)))

abbrev three_pairs : OrderedList
three_pairs = (three_entries, three_entries-IsOrdered)

scan_and_watch-matching_example :
    scan_and_watch (set_source ordered_list) true 4 three_pairs (at_key 0 4) 5
    ≡ some (three_pairs, take 5 (matching (at_key 0 4) three_pairs.0))
scan_and_watch-matching_example =
    scan_and_watch-matching ordered_list true three_pairs (at_key 0 4) 5 4 (omega arith)
      (omega arith)

-- A write of a key twice, and of a missing value.
abbrev key_of_task : ℕ → ℕ
key_of_task zero = 4
key_of_task (suc zero) = 4
key_of_task (suc (suc i)) = 3

abbrev content_of_task : ℕ → Option (List ℕ)
content_of_task zero = some (1 ∷ 2 ∷ 0 ∷ 9 ∷ [])
content_of_task (suc zero) = some (5 ∷ 0 ∷ [])
content_of_task (suc (suc i)) = none

abbrev three_places : PlacesArg
three_places = record { collections_begin = none; keys_begin = some key_of_task; count = 3 }

abbrev three_contents : ContentsArg
three_contents = record {
  presences_begin = none;
  offsets_begin = none;
  lengths_begin = none;
  contents_begin = some content_of_task;
  separator = 0;
}

abbrev written : OrderedList
written = (write ordered_list three_places three_contents 0 three_pairs).0

write-reads_example :
    find_and_watch (set_source ordered_list) true written (at_key 0 4)
    ≡ some (written, last_put (at_key 0 4) none (pairs_of three_places three_contents))
unfolding write write_pairs validate_write enum_is_subset pairs_of tasks_from place_at content_at
    length_at viewed until find_and_watch watch_place find_entry put_entry key_eq key_lt keep
    keep_batch is_ordered is_before is_true
write-reads_example =
    write-reads ordered_list three_places three_contents 0 true three_pairs written (at_key 0 4)
      none refl refl

-- A transaction that is the function of its values, and watches nothing.
abbrev as_function : Transactions
as_function = record {
  Txn = CollectionKey → Value;
  watch = λ x place. some x;
  upsert = λ x p. some (λ k. if key_eq p.place k then p.range else x k);
  erase = λ x place. some (λ k. if key_eq place k then none else x k);
}

value_or : CollectionKey → Value → Option (CollectionKey → Value) → Value
value_or k otherwise none = otherwise
value_or k otherwise (some x) = x k

abbrev as_function_view : TransactionView as_function
unfolding value_or
as_function_view = record {
  value_at = λ x k. x k;
  watch_lem = λ x x' place k e. ap (value_or k none) (sym e);
  upsert_lem = λ x x' p k e. ap (value_or k none) (sym e);
  erase_lem = λ x x' place k e. ap (value_or k none) (sym e);
}

abbrev no_values : CollectionKey → Value
no_values k = none

abbrev written_values : CollectionKey → Value
written_values = (write_transactional as_function three_places three_contents 4 no_values).0

write_transactional-reads_example :
    written_values (at_key 0 4) ≡ last_put (at_key 0 4) none (pairs_of three_places three_contents)
unfolding write_transactional write_tasks watch_unless write_one validate_write enum_is_subset
    pairs_of tasks_from place_at content_at length_at viewed until key_eq as_function_view
write_transactional-reads_example =
    write_transactional-reads as_function as_function_view three_places three_contents 4 no_values
      written_values (at_key 0 4) refl

abbrev two_names : Names
two_names = ((97 ∷ []), 9) ∷ ((98 ∷ 99 ∷ []), 4) ∷ []

abbrev two_collections : Database ordered_list
two_collections = record { pairs = three_pairs; names = two_names }

abbrev three_collections : Database ordered_list
three_collections = record {
  pairs = three_pairs;
  names = ((97 ∷ []), 9) ∷ ((98 ∷ []), 5) ∷ ((98 ∷ 99 ∷ []), 4) ∷ [];
}

-- The first two draws are handles that are not free.
abbrev draws : List (ℕ × ℕ)
draws = (0, 0) ∷ (0, 9) ∷ (0, 5) ∷ []

two_names-HasDistinctHandles : HasDistinctHandles two_names
two_names-HasDistinctHandles = (omega arith, (omega arith, tt), (omega arith, tt, tt))

three_made : create ordered_list draws (98 ∷ []) two_collections ≡ some (three_collections, ok 5)
unfolding create find_name name_eq name_lt emplace is_unused handle_of new_collection
three_made = refl

create_lem_example :
    (5 ≢ collection_main)
    × HasNoHandle 5 two_names
    × HasDistinctHandles (three_collections.names)
    × (find_name (97 ∷ []) (three_collections.names)
        ≡ (if name_eq (98 ∷ []) (97 ∷ []) then some 5 else find_name (97 ∷ []) two_names))
    × (three_collections.pairs ≡ three_pairs)
create_lem_example =
    create_lem ordered_list draws (98 ∷ []) (97 ∷ []) 5 two_collections three_collections
      two_names-HasDistinctHandles three_made

abbrev left_collections : Database ordered_list
left_collections = (drop_collection ordered_list 5 drop_keys_vals_handle three_collections).0

abbrev without_values : Database ordered_list
without_values = (drop_collection ordered_list 9 drop_vals two_collections).0

drop_collection_lem_example : find_entry (at_key 9 1) (without_values.pairs.0) ≡ (
    if 9 == 9
    then leftover drop_vals (find_entry (at_key 9 1) three_entries)
    else find_entry (at_key 9 1) three_entries)
unfolding drop_collection change_entries in_collections keep is_ordered is_before is_true key_lt
drop_collection_lem_example =
    drop_collection_lem ordered_list (at_key 9 1) 9 two_collections without_values (omega arith)
      drop_vals refl

list_collections_lem_example :
    (strings_at (list_collections two_names).strings (list_collections two_names).offsets
      ≡ (97 ∷ []) ∷ (98 ∷ 99 ∷ []) ∷ [])
    × ((list_collections two_names).ids ≡ 9 ∷ 4 ∷ [])
    × (last_of (list_collections two_names).offsets ≡ length (list_collections two_names).strings)
unfolding list_collections list_from
list_collections_lem_example =
    list_collections_lem two_names ((omega arith, tt), ((omega arith, (omega arith, tt)), tt))
      (omega arith)
