-- ===== src/Graph/Batches.antt =====
-- `update_neighborhoods` of src/modality_graph.cpp: the two ends of every edge of a batch are updated
-- in three passes, which count, grow and insert, or in one that erases.
pub mod Counting
pub mod Linking
pub mod Ends
pub mod Edges
pub mod Fresh
use mathlib.Core.List.{foldl}
use ukv.Prelude.{
  ℕ, zero, suc, ◌+◌, ◌-◌, ◌*◌, ◌/◌, ◌%◌, ◌^◌, Bool, true, false, Option, none, some, List, [], ◌∷◌,
  ◌++◌, map, get_elem?, set, take, ltb, ◌==◌, if◌then◌else◌,
}
use ukv.Types.{length_missing, CollectionKey, Neighborship, VertexRole, source, target}
use ukv.Types.Order.{key_order}
use ukv.Ranges.{sort_and_deduplicate, offset_in_sorted}
use ukv.Graph.{
  Entry, bytes_in_degrees_header, bytes_in_ship, count_inserts_into_entry, insert_into_entry,
  erase_from_entry,
}

-- One end of an edge, as the callbacks take it.
pub record End : Type 0 where
  pub to_target : Bool
  pub ship : Neighborship

abbrev pub role_of : Bool → VertexRole
role_of true = target
role_of false = source

unfoldable pub count_end : Entry → End → Entry
count_end e x = count_inserts_into_entry e (role_of x.to_target) x.ship

unfoldable pub insert_end : Entry → End → Entry
insert_end e x = insert_into_entry e (role_of x.to_target) x.ship

unfoldable pub erase_end : Entry → End → Entry
erase_end e x = erase_from_entry e (role_of x.to_target) x.ship.neighbor_id (some x.ship.edge_id)

abbrev pub bytes_present : Entry → ℕ
bytes_present e = if e.length == length_missing then 0 else e.length

-- The second pass: the content is copied to a bigger buffer. `fresh` stands for the arena, and gives
-- so many slots that nothing was written to.
unfoldable pub reallocate : (ℕ → List Neighborship) → Entry → Entry
reallocate fresh e =
    let present = bytes_present e in
    let kept = (present - bytes_in_degrees_header) / bytes_in_ship in
    record e { ships = take kept e.ships ++ fresh e.degree_delta; length = present }

-- The three passes, as one entry sees them.
unfoldable pub link_entry : (ℕ → List Neighborship) → Entry → List End → Entry
unfolding reallocate
link_entry fresh e ends = foldl insert_end (reallocate fresh (foldl count_end e ends)) ends

-- An edge of the batch; its edge is `ukv_key_unknown_k` if there are no ids.
pub record EdgeTask : Type 0 where
  pub collection : ℕ
  pub source_id : ℕ
  pub target_id : ℕ
  pub edge_id : ℕ

abbrev pub source_key : EdgeTask → CollectionKey
source_key t = record { collection = t.collection; key = t.source_id }

abbrev pub target_key : EdgeTask → CollectionKey
target_key t = record { collection = t.collection; key = t.target_id }

-- What the callback is given for the source of an edge, and for its target.
abbrev pub source_end : EdgeTask → End
source_end t = record {
  to_target = false;
  ship = record { neighbor_id = t.target_id; edge_id = t.edge_id };
}

abbrev pub target_end : EdgeTask → End
target_end t = record {
  to_target = true;
  ship = record { neighbor_id = t.source_id; edge_id = t.edge_id };
}

-- The keys of the touched entries, in order and without repetitions.
unfoldable pub unique_vertices : List EdgeTask → List CollectionKey
unique_vertices tasks = sort_and_deduplicate (map source_key tasks ++ map target_key tasks)

abbrev pub update_at : (Entry → End → Entry) → List Entry → ℕ → End → List Entry
update_at callback entries i x = elim (get_elem? entries i) [
  | none ↦ entries
  | some e ↦ set entries i (callback e x)
]

unfoldable pub for_each_task :
    (Entry → End → Entry) → List CollectionKey → List EdgeTask → List Entry → List Entry
for_each_task callback keys [] entries = entries
for_each_task callback keys (t ∷ tasks) entries =
    let at_source =
      update_at callback entries (offset_in_sorted keys (source_key t)) (source_end t) in
    let at_target =
      update_at callback at_source (offset_in_sorted keys (target_key t)) (target_end t) in
    for_each_task callback keys tasks at_target

-- The entries that `update_neighborhoods` writes back, of those that it has read.
unfoldable pub insert_edges : (ℕ → List Neighborship) → List EdgeTask → List Entry → List Entry
unfolding unique_vertices reallocate for_each_task count_end insert_end
insert_edges fresh tasks entries =
    let keys = unique_vertices tasks in
    for_each_task insert_end keys tasks
      (map (reallocate fresh) (for_each_task count_end keys tasks entries))

unfoldable pub erase_edges : List EdgeTask → List Entry → List Entry
unfolding unique_vertices for_each_task erase_end
erase_edges tasks entries = for_each_task erase_end (unique_vertices tasks) tasks entries
