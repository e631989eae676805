-- ===== src/Graph/Batches/Fresh.antt =====
-- The three passes at a vertex that has no entry yet.
use mathlib.Core.List.{foldl}
use ukv.Prelude.{
  ℕ, suc, ◌≡◌, ◌+◌, ◌*◌, ◌^◌, ◌<◌, ◌≤◌, refl, sym, ap, subst, ◌∙◌, Bool, true, false, some, List,
  [], ◌∷◌, length, get_elem?, arith,
}
use ukv.Types.{CollectionKey, Neighborship, length_missing}
use ukv.Types.Order.{key_order, ship_order}
use ukv.Ranges.{offset_in_sorted, contains}
use ukv.Ranges.Sorted.{IsAscending}
use ukv.Graph.{
  Entry, bytes_in_degrees_header, bytes_in_ship, count_inserts_into_entry, insert_into_entry,
  start_entry, grow_degree, is_new,
}
use ukv.Graph.Ships.{add_ship}
use ukv.Graph.Updates.{entry_of}
use ukv.Graph.Batches.{
  End, EdgeTask, count_end, insert_end, reallocate, link_entry, unique_vertices, insert_edges,
}
use ukv.Graph.Batches.Counting.{missing, count-le, range_of}
use ukv.Graph.Batches.Linking.{Linked, outs_after, ins_after, insert_ends-entry_of}
use ukv.Graph.Batches.Ends.{ends_of, vertices_of}
use ukv.Graph.Batches.Edges.{insert_edges-entry}

-- What is read of a vertex without an entry: an empty content. Its degrees, and the slots behind
-- them, are whatever its buffer had.
abbrev pub unwritten : ℕ → ℕ → List Neighborship → ℕ → Entry
unwritten outgoing incoming slots delta = record {
  outgoing = outgoing;
  incoming = incoming;
  ships = slots;
  length = 0;
  degree_delta = delta;
}

count_end-unwritten :
    (o i : ℕ) (x : End) (delta : ℕ)
    → delta + 1 < 2 ^ 32
    → count_end (unwritten o i [] delta) x ≡ unwritten o i [] (delta + 1)
unfolding count_end count_inserts_into_entry
count_end-unwritten o i x delta h = ap (unwritten o i []) (omega arith)

count_ends-unwritten :
    (o i : ℕ) (ends : List End) (delta : ℕ)
    → delta + length ends < 2 ^ 32
    → foldl count_end (unwritten o i [] delta) ends ≡ unwritten o i [] (delta + length ends)
count_ends-unwritten o i [] delta h = ap (unwritten o i []) (omega arith)
count_ends-unwritten o i (x ∷ ends) delta h =
    ap (λ e. foldl count_end e ends) (count_end-unwritten o i x delta (omega arith))
    ∙ count_ends-unwritten o i ends (delta + 1) (omega arith)
    ∙ ap (unwritten o i []) (omega arith)

insert_end-unwritten :
    (o i : ℕ) (b : Bool) (s y : Neighborship) (slots : List Neighborship) (delta : ℕ)
    → insert_end (unwritten o i (y ∷ slots) delta) (record { to_target = b; ship = s })
      ≡ entry_of (outs_after b s []) (ins_after b s []) slots delta
unfolding insert_end insert_into_entry start_entry grow_degree is_new add_ship
insert_end-unwritten o i true s y slots delta = refl
insert_end-unwritten o i false s y slots delta = refl

missing-le : (ends : List End) (outs ins : List Neighborship) → missing outs ins ends ≤ length ends
missing-le [] outs ins = omega arith
missing-le (x ∷ ends) outs ins =
    omega
      (arith, missing-le ends outs ins, count-le (contains (range_of x.to_target outs ins) x.ship))

after_first-IsAscending :
    (b : Bool) (s : Neighborship) → IsAscending (outs_after b s []) × IsAscending (ins_after b s [])
unfolding add_ship
after_first-IsAscending true s = (tt, (tt, tt))
after_first-IsAscending false s = ((tt, tt), tt)

after_first-length :
    (b : Bool) (s : Neighborship) → length (outs_after b s []) + length (ins_after b s []) ≡ 1
unfolding add_ship
after_first-length true s = omega arith
after_first-length false s = omega arith

module _ (fresh : ℕ → List Neighborship) (fresh-length : (n : ℕ) → length (fresh n) ≡ n) where
  insert_ends-unwritten :
      (o i : ℕ) (x : End) (ends : List End) (slots : List Neighborship) (delta : ℕ)
      → length slots ≡ suc (length ends)
      → bytes_in_degrees_header + bytes_in_ship * suc (length ends) < length_missing
      → Linked
          (foldl insert_end (unwritten o i slots delta) (x ∷ ends))
          (x ∷ ends)
          []
          []
          delta
          (suc (length ends))
  insert_ends-unwritten o i x ends [] delta n h = absurd (omega arith)
  insert_ends-unwritten o i x ends (y ∷ slots) delta n h =
      let outs = outs_after x.to_target x.ship [] in
      let ins = ins_after x.to_target x.ship [] in
      let one = after_first-length x.to_target x.ship in
      let few = missing-le ends outs ins in
      let asc = after_first-IsAscending x.to_target x.ship in
      let (spare, same, size) =
        insert_ends-entry_of ends outs ins slots delta asc.0 asc.1 (omega (arith, few, n))
          (omega (arith, few, one, h)) in
      (
        spare,
        ap (λ e. foldl insert_end e ends)
              (insert_end-unwritten o i x.to_target x.ship y slots delta)
            ∙ same,
        omega (arith, size, one, n),
      )

  link_entry-unwritten :
      (o i : ℕ) (x : End) (ends : List End)
      → bytes_in_degrees_header + bytes_in_ship * suc (length ends) < length_missing
      → Linked
          (link_entry fresh (unwritten o i [] 0) (x ∷ ends))
          (x ∷ ends)
          []
          []
          (suc (length ends))
          (suc (length ends))
  unfolding link_entry reallocate
  link_entry-unwritten o i x ends h =
      let n = suc (length ends) in
      let counted : foldl count_end (unwritten o i [] 0) (x ∷ ends) ≡ unwritten o i [] n =
        count_ends-unwritten o i (x ∷ ends) 0 (omega arith) ∙ ap (unwritten o i []) (omega arith) in
      let (spare, same, size) = insert_ends-unwritten o i x ends (fresh n) n (fresh-length n) h in
      (spare, ap (λ e. foldl insert_end (reallocate fresh e) (x ∷ ends)) counted ∙ same, size)

  -- At a touched vertex that has no entry, whatever its buffer has where the degrees are, a batch of edges makes an entry whose two ranges are
  -- the ordered sets of the ends that the batch has there, while its length fits 32 bits.
  pub insert_edges_fresh :
      (tasks : List EdgeTask) (entries : List Entry) (k : CollectionKey) (o i : ℕ) (x : End)
      (ends : List End)
      → contains (vertices_of tasks) k ≡ true
      → get_elem? entries (offset_in_sorted (unique_vertices tasks) k) ≡ some (unwritten o i [] 0)
      → ends_of k tasks ≡ x ∷ ends
      → bytes_in_degrees_header + bytes_in_ship * suc (length ends) < length_missing
      → (e : Entry) × (get_elem?
            (insert_edges fresh tasks entries)
            (offset_in_sorted (unique_vertices tasks) k)
          ≡ some e)
        × Linked e (ends_of k tasks) [] [] (suc (length ends)) (suc (length ends))
  insert_edges_fresh tasks entries k o i x ends c at is h = (
    link_entry fresh (unwritten o i [] 0) (ends_of k tasks),
    insert_edges-entry fresh tasks entries k (unwritten o i [] 0) c at,
    subst
        (λ es.
          Linked (link_entry fresh (unwritten o i [] 0) es) es [] [] (suc (length ends))
            (suc (length ends)))
        (sym is) (link_entry-unwritten o i x ends h),
  )
