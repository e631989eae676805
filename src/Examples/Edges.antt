-- ===== src/Examples/Edges.antt =====
-- The theorems about batches of edges, at two vertices, of which one has no entry yet.
use ukv.Prelude.{
  ℕ, ◌≡◌, ◌+◌, refl, some, List, [], ◌∷◌, length-replicate, get_elem?, replicate, arith,
}
use ukv.Types.{CollectionKey, key_eq, key_lt, Neighborship, ship_eq}
use ukv.Types.Order.{key_order, ship_order}
use ukv.Ranges.{
  contains, offset_in_sorted, lower_bound, sort_and_deduplicate, unique, unique_after, sort,
  insert_sorted,
}
use ukv.Graph.{Entry}
use ukv.Graph.Updates.{entry_of}
use ukv.Graph.Batches.{EdgeTask, unique_vertices, insert_edges, erase_edges, target_end}
use ukv.Graph.Batches.Counting.{missing}
use ukv.Graph.Batches.Linking.{Linked}
use ukv.Graph.Batches.Ends.{ends_of}
use ukv.Graph.Batches.Edges.{insert_edges_lem, erase_edges_lem, LeftWithout}
use ukv.Graph.Batches.Fresh.{unwritten, insert_edges_fresh}

abbrev to : ℕ → ℕ → Neighborship
to n e = record { neighbor_id = n; edge_id = e }

abbrev edge : ℕ → ℕ → ℕ → EdgeTask
edge s t e = record { collection = 0; source_id = s; target_id = t; edge_id = e }

-- An edge between the two vertices, and one from the first to itself.
abbrev two_edges : List EdgeTask
two_edges = edge 1 2 5 ∷ edge 1 1 6 ∷ []

abbrev vertex : ℕ → CollectionKey
vertex k = record { collection = 0; key = k }

abbrev one_out : List Neighborship
one_out = to 2 5 ∷ []

abbrev one_in : List Neighborship
one_in = to 3 9 ∷ []

abbrev two_entries : List Entry
two_entries = entry_of one_out one_in [] 0 ∷ unwritten 5 6 [] 0 ∷ []

abbrev slots : ℕ → List Neighborship
slots n = replicate n (to 0 0)

insert_edges_lem_example :
    (e : Entry) × (get_elem?
        (insert_edges slots two_edges two_entries)
        (offset_in_sorted (unique_vertices two_edges) (vertex 1))
      ≡ some e)
    × Linked e
        (ends_of (vertex 1) two_edges)
        one_out
        one_in
        (missing one_out one_in (ends_of (vertex 1) two_edges))
        (1 + 1 + missing one_out one_in (ends_of (vertex 1) two_edges))
unfolding unique_vertices sort_and_deduplicate unique unique_after sort insert_sorted
    offset_in_sorted lower_bound key_lt key_eq contains ship_eq
insert_edges_lem_example =
    insert_edges_lem slots (λ n. length-replicate n (to 0 0)) two_edges two_entries (vertex 1)
      one_out one_in refl refl (tt, tt) (tt, tt) (omega arith) (omega arith)

insert_edges_fresh_example :
    (e : Entry) × (get_elem?
        (insert_edges slots two_edges two_entries)
        (offset_in_sorted (unique_vertices two_edges) (vertex 2))
      ≡ some e)
    × Linked e (ends_of (vertex 2) two_edges) [] [] 1 1
unfolding unique_vertices sort_and_deduplicate unique unique_after sort insert_sorted
    offset_in_sorted lower_bound key_lt key_eq contains
insert_edges_fresh_example =
    insert_edges_fresh slots (λ n. length-replicate n (to 0 0)) two_edges two_entries (vertex 2) 5 6
      (target_end (edge 1 2 5)) [] refl refl refl (omega arith)

erase_edges_lem_example :
    (e : Entry) × (get_elem?
        (erase_edges two_edges two_entries)
        (offset_in_sorted (unique_vertices two_edges) (vertex 1))
      ≡ some e)
    × LeftWithout e (ends_of (vertex 1) two_edges) one_out one_in 2
unfolding unique_vertices sort_and_deduplicate unique unique_after sort insert_sorted
    offset_in_sorted lower_bound key_lt key_eq contains
erase_edges_lem_example =
    erase_edges_lem two_edges two_entries (vertex 1) one_out one_in refl refl (tt, tt) (tt, tt)
      (omega arith)
