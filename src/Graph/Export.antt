-- ===== src/Graph/Export.antt =====
-- `export_edge_tuples` of src/modality_graph.cpp, for one vertex whose entry was read: the tuples of
-- its edges, and its degree. Without tuples only the degree is computed.
use ukv.Prelude.{
  ℕ, suc, ◌≡◌, ◌+◌, ◌-◌, ◌*◌, ◌<◌, ◌%◌, ◌^◌, refl, Bool, true, false, ◌&&◌, ◌||◌, List, [], ◌∷◌,
  ◌++◌, map, length, length-append, length-map, arith, ◌==◌, if◌then◌else◌,
}
use ukv.Types.{length_missing, Neighborship, VertexRole, unknown, source, target, any}
use ukv.Graph.{Entry, bytes_in_degrees_header, bytes_in_ship, neighbors, minus}
use ukv.Graph.Updates.{entry_of, neighbors-source, neighbors-target}

-- `ukv_vertex_degree_missing_k`
abbrev pub degree_missing : ℕ
degree_missing = 2 ^ 32 - 1

-- `edge_t`
pub record Edge : Type 0 where
  pub source_id : ℕ
  pub target_id : ℕ
  pub id : ℕ

pub record Exported : Type 0 where
  pub tuples : List Edge
  pub degree : ℕ

-- The bits of the roles.
unfoldable pub has_source : VertexRole → Bool
has_source source = true
has_source any = true
has_source _ = false

unfoldable pub has_target : VertexRole → Bool
has_target target = true
has_target any = true
has_target _ = false

-- `has_self_loop` after the loop over the outgoing neighborships
unfoldable pub has_loop : ℕ → List Neighborship → Bool
has_loop vertex [] = false
has_loop vertex (n ∷ ns) = vertex == n.neighbor_id || has_loop vertex ns

abbrev pub outgoing_edge : ℕ → Neighborship → Edge
outgoing_edge vertex n = record { source_id = vertex; target_id = n.neighbor_id; id = n.edge_id }

abbrev pub incoming_edge : ℕ → Neighborship → Edge
incoming_edge vertex n = record { source_id = n.neighbor_id; target_id = vertex; id = n.edge_id }

-- The loop over the incoming neighborships: what it exports, and how often it takes one from the
-- degree.
unfoldable pub export_incoming : ℕ → Bool → List Neighborship → List Edge × ℕ
export_incoming vertex has_self_loop [] = ([], 0)
export_incoming vertex has_self_loop (n ∷ ns) =
    let (edges, skipped) = export_incoming vertex has_self_loop ns in
    if n.neighbor_id == vertex && has_self_loop
    then (edges, suc skipped)
    else (incoming_edge vertex n ∷ edges, skipped)

export_ranges : Bool → ℕ → List Neighborship → List Neighborship → Exported
export_ranges true vertex outs ins =
    let (edges, skipped) = export_incoming vertex (has_loop vertex outs) ins in
    record {
      tuples = map (outgoing_edge vertex) outs ++ edges;
      degree = (minus (length outs) skipped + length ins) % 2 ^ 32;
    }
export_ranges false vertex outs ins = record {
  tuples = [];
  degree = (length outs + length ins) % 2 ^ 32;
}

unfoldable pub export_edges : Bool → ℕ → VertexRole → Entry → Exported
unfolding export_ranges
export_edges with_tuples vertex role e =
    if e.length == length_missing
    then record { tuples = []; degree = degree_missing }
    else export_ranges with_tuples vertex (if has_source role then neighbors e source else [])
        (if has_target role then neighbors e target else [])

export_incoming-size :
    (vertex : ℕ) (self : Bool) (ns : List Neighborship)
    → length (export_incoming vertex self ns).0 + (export_incoming vertex self ns).1 ≡ length ns
unfolding export_incoming
export_incoming-size vertex self [] = refl
export_incoming-size vertex self (n ∷ ns) = ground (arith, export_incoming-size vertex self ns)

present :
    (outs ins spare : List Neighborship) (delta : ℕ)
    → bytes_in_degrees_header + bytes_in_ship * (length outs + length ins) < length_missing
    → ((entry_of outs ins spare delta).length == length_missing) ≡ false
present outs ins spare delta h = ground arith

export_ranges-degree :
    (vertex : ℕ) (outs ins : List Neighborship)
    → length outs + length ins < 2 ^ 32
    → (export_ranges true vertex outs ins).degree
      ≡ length ((export_ranges true vertex outs ins).tuples)
unfolding export_ranges
export_ranges-degree vertex outs ins h =
    let self = has_loop vertex outs in
    let edges = (export_incoming vertex self ins).0 in
    omega (
      arith,
      export_incoming-size vertex self ins,
      length-append (map (outgoing_edge vertex) outs) edges,
      length-map (outgoing_edge vertex) outs,
    )

-- With tuples, and whatever the role, the degree of an entry that holds two ranges is the number of
-- tuples exported for it, self-loops included.
pub export_edges_lem :
    (vertex : ℕ) (role : VertexRole) (outs ins spare : List Neighborship) (delta : ℕ)
    → bytes_in_degrees_header + bytes_in_ship * (length outs + length ins) < length_missing
    → (export_edges true vertex role (entry_of outs ins spare delta)).degree
      ≡ length ((export_edges true vertex role (entry_of outs ins spare delta)).tuples)
unfolding export_edges has_source has_target
export_edges_lem vertex unknown outs ins spare delta h =
    rw (present outs ins spare delta h) (export_ranges-degree vertex [] [] (omega arith))
export_edges_lem vertex source outs ins spare delta h =
    rw (present outs ins spare delta h, neighbors-source outs ins spare delta h)
      (export_ranges-degree vertex outs [] (omega arith))
export_edges_lem vertex target outs ins spare delta h =
    rw (present outs ins spare delta h, neighbors-target outs ins spare delta h)
      (export_ranges-degree vertex [] ins (omega arith))
export_edges_lem vertex any outs ins spare delta h =
    rw
      (
        present outs ins spare delta h,
        neighbors-source outs ins spare delta h,
        neighbors-target outs ins spare delta h,
      )
      (export_ranges-degree vertex outs ins (omega arith))
