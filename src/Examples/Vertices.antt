-- ===== src/Examples/Vertices.antt =====
-- The theorems about entries of vertices, at an entry with two targets and one source.
use ukv.Prelude.{true, ℕ, ◌≡◌, List, [], ◌∷◌, length, arith}
use ukv.Types.{Neighborship, any}
use ukv.Types.Order.{ship_order}
use ukv.Graph.Updates.{entry_of}
use ukv.Graph.Export.{export_edges, export_edges_lem}

abbrev ship : ℕ → ℕ → Neighborship
ship n e = record { neighbor_id = n; edge_id = e }

abbrev outs : List Neighborship
outs = ship 2 7 ∷ ship 4 1 ∷ []

abbrev ins : List Neighborship
ins = ship 3 9 ∷ []

-- The vertex 4 with an edge to itself.
abbrev loops : List Neighborship
loops = ship 4 2 ∷ []

export_edges_lem_example :
    (export_edges true 4 any (entry_of outs loops [] 0)).degree
    ≡ length ((export_edges true 4 any (entry_of outs loops [] 0)).tuples)
export_edges_lem_example = export_edges_lem 4 any outs loops [] 0 (omega arith)
