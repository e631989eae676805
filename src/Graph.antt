-- ===== src/Graph.antt =====
-- src/modality_graph.cpp: the entry of a vertex, with its two degrees and its two sorted ranges of
-- neighborships, and the updates of it. The content of an entry is modelled by its two degrees and by
-- the slots behind them; degrees and lengths are 32-bit words.
pub mod Ships
pub mod Updates
pub mod Erasing
pub mod Export
pub mod Batches
use ukv.Prelude.{
  ℕ, zero, suc, ◌+◌, ◌-◌, ◌*◌, ◌%◌, ◌^◌, Bool, true, false, not, ◌&&◌, ◌||◌, Option, none, some,
  List, [], ◌∷◌, get_elem?, set, take, drop, ltb, ◌==◌, if◌then◌else◌,
}
use ukv.Types.{
  length_missing, Neighborship, ship_eq, ship_lt, VertexRole, unknown, source, target, any,
}
use ukv.Ranges.{lower_bound, trivial_insert, trivial_erase}

-- `bytes_in_degrees_header_k` and `sizeof(neighborship_t)`
abbrev pub bytes_in_degrees_header : ℕ
bytes_in_degrees_header = 8

abbrev pub bytes_in_ship : ℕ
bytes_in_ship = 16

-- `updated_entry_t`, without its key: `ships` are all slots of the content behind the degrees.
pub record Entry : Type 0 where
  pub outgoing : ℕ
  pub incoming : ℕ
  pub ships : List Neighborship
  pub length : ℕ
  pub degree_delta : ℕ

-- The difference of two 32-bit words.
abbrev pub minus : ℕ → ℕ → ℕ
minus a b = (a + (2 ^ 32 - b % 2 ^ 32)) % 2 ^ 32

unfoldable pub neighbors_in : Entry → VertexRole → List Neighborship
neighbors_in e source = take e.outgoing e.ships
neighbors_in e target = take e.incoming (drop e.outgoing e.ships)
neighbors_in e any = take (e.outgoing + e.incoming) e.ships
neighbors_in e unknown = []

-- `neighbors(value_view_t, ukv_vertex_role_t)`; the size of a missing value is zero.
unfoldable pub neighbors : Entry → VertexRole → List Neighborship
unfolding neighbors_in
neighbors e role =
    if ltb (if e.length == length_missing then 0 else e.length) bytes_in_degrees_header
    then []
    else neighbors_in e role

-- Where the range of a role begins.
unfoldable pub role_start : Entry → VertexRole → ℕ
role_start e target = e.outgoing
role_start e _ = 0

unfoldable pub is_new : Entry → Bool
is_new e = ltb e.length bytes_in_degrees_header || e.length == length_missing

-- `it != end && *it == ship`
unfoldable pub is_at : List Neighborship → ℕ → Neighborship → Bool
is_at range i ship = elim (get_elem? range i) [ none ↦ false | some n ↦ ship_eq n ship ]

unfoldable pub count_inserts_into_entry : Entry → VertexRole → Neighborship → Entry
count_inserts_into_entry e role ship =
    if ltb bytes_in_degrees_header e.length
      && is_at (neighbors e role) (lower_bound ship_lt (neighbors e role) ship) ship
    then e
    else record e { degree_delta = (e.degree_delta + 1) % 2 ^ 32 }

-- `degrees[role == ukv_vertex_target_k]` with a number added, or taken away
unfoldable pub grow_degree : Entry → VertexRole → ℕ → Entry
grow_degree e target n = record e { incoming = (e.incoming + n) % 2 ^ 32 }
grow_degree e _ n = record e { outgoing = (e.outgoing + n) % 2 ^ 32 }

unfoldable pub shrink_degree : Entry → VertexRole → ℕ → Entry
shrink_degree e target n = record e { incoming = minus e.incoming n }
shrink_degree e _ n = record e { outgoing = minus e.outgoing n }

-- The branch of a new entry.
unfoldable pub start_entry : Entry → VertexRole → Neighborship → Entry
unfolding grow_degree
start_entry e role ship =
    grow_degree
      (record e {
        outgoing = 0;
        incoming = 0;
        ships = set e.ships 0 ship;
        length = (e.length + bytes_in_degrees_header + bytes_in_ship) % 2 ^ 32;
      })
      role 1

unfoldable pub insert_into_entry : Entry → VertexRole → Neighborship → Entry
unfolding start_entry grow_degree
insert_into_entry e role ship =
    if is_new e
    then start_entry e role ship
    else let i = lower_bound ship_lt (neighbors e role) ship in
      if is_at (neighbors e role) i ship
      then e
      else grow_degree
          (record e {
            ships =
                (trivial_insert e.ships (e.outgoing + e.incoming) (role_start e role + i)
                  (ship ∷ [])).0;
            length = (e.length + bytes_in_ship) % 2 ^ 32;
          })
          role 1

-- The part of `erase_from_entry` behind the search: `off` and `len` are known.
unfoldable pub erase_ships : Entry → VertexRole → ℕ → ℕ → Entry
unfolding shrink_degree
erase_ships e role off len =
    shrink_degree
      (record e {
        ships = (trivial_erase e.ships (e.outgoing + e.incoming) off len).0;
        length = minus e.length (bytes_in_ship * len);
        degree_delta = (e.degree_delta + len) % 2 ^ 32;
      })
      role len

-- With an edge, that neighborship; without one, all with the neighbor.
unfoldable pub erase_from_entry : Entry → VertexRole → ℕ → Option ℕ → Entry
unfolding erase_ships
erase_from_entry e role neighbor_id (some edge_id) =
    if is_new e
    then e
    else let ship : Neighborship = record { neighbor_id = neighbor_id; edge_id = edge_id } in
      let i = lower_bound ship_lt (neighbors e role) ship in
      if is_at (neighbors e role) i ship then erase_ships e role (role_start e role + i) 1 else e
erase_from_entry e role neighbor_id none =
    if is_new e
    then e
    else let first =
        lower_bound (λ (n : Neighborship) id. ltb n.neighbor_id id) (neighbors e role)
          neighbor_id in
      let last =
        lower_bound (λ (n : Neighborship) id. not (ltb id n.neighbor_id)) (neighbors e role)
          neighbor_id in
      if first == last then e else erase_ships e role (role_start e role + first) (last - first)
