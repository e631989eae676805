-- ===== src/Graph/Batches/Ends.antt =====
-- The loops over the tasks of a batch, as every entry sees them.
use mathlib.Core.List.{foldl}
use ukv.Prelude.{
  ℕ, ◌≡◌, refl, sym, ap, subst, ◌∙◌, Bool, true, false, some, List, [], ◌∷◌, ◌++◌, length,
  length-set, map, get_elem?, get_elem?-set_same, get_elem?-set_other, get_elem?-lt, arith, inl,
  inr, Bool-cases, Option-cases, ◌==◌,
}
use ukv.Types.{CollectionKey, key_eq}
use ukv.Types.Order.{key_order, ship_order}
use ukv.Ranges.{offset_in_sorted, contains, sort_and_deduplicate}
use ukv.Ranges.Sorted.{offset-sort_and_deduplicate}
use ukv.Graph.{Entry}
use ukv.Graph.Batches.{
  End, EdgeTask, source_key, target_key, source_end, target_end, update_at, for_each_task,
  unique_vertices,
}

abbrev pub put_if : Bool → End → List End → List End
put_if true x ends = x ∷ ends
put_if false x ends = ends

-- The ends that the tasks have at a vertex, in their order.
abbrev pub ends_of : CollectionKey → List EdgeTask → List End
ends_of k [] = []
ends_of k (t ∷ tasks) =
    put_if (key_eq (source_key t) k) (source_end t)
      (put_if (key_eq (target_key t) k) (target_end t) (ends_of k tasks))

module _ (callback : Entry → End → Entry) (keys : List CollectionKey) where
  abbrev Found : CollectionKey → Type 0
  Found k = get_elem? keys (offset_in_sorted keys k) ≡ some k

  abbrev AllFound : List EdgeTask → Type 0
  AllFound [] = Unit {0}
  AllFound (t ∷ tasks) = Found (source_key t) × Found (target_key t) × AllFound tasks

  length-update_at :
      (entries : List Entry) (i : ℕ) (x : End)
      → length (update_at callback entries i x) ≡ length entries
  length-update_at entries i x = elim (Option-cases (get_elem? entries i)) [
    | inl e ↦ rw (e, update_at) refl
    | inr (v, e) ↦ rw (e, update_at) (length-set entries i (callback v x))
  ]

  length-for_each_task :
      (tasks : List EdgeTask) (entries : List Entry)
      → length (for_each_task callback keys tasks entries) ≡ length entries
  unfolding for_each_task
  length-for_each_task [] entries = refl
  length-for_each_task (t ∷ tasks) entries =
      length-for_each_task tasks _
      ∙ length-update_at _ (offset_in_sorted keys (target_key t)) (target_end t)
      ∙ length-update_at entries (offset_in_sorted keys (source_key t)) (source_end t)

  -- One update, as the entry of a vertex sees it.
  update_at-entry :
      (entries : List Entry) (q k : CollectionKey) (x : End) (e : Entry)
      → Found q
      → Found k
      → get_elem? entries (offset_in_sorted keys k) ≡ some e
      → get_elem? (update_at callback entries (offset_in_sorted keys q) x) (offset_in_sorted keys k)
        ≡ some (foldl callback e (put_if (key_eq q k) x []))
  update_at-entry entries q k x e fq fk at =
      let i = offset_in_sorted keys q in
      let j = offset_in_sorted keys k in
      elim (Bool-cases (key_eq q k)) [
        | inl same ↦
            let here : q ≡ k = (key_order.same_iff q k).0 same in
            let found : get_elem? entries i ≡ some e =
              subst (λ p. get_elem? entries (offset_in_sorted keys p) ≡ some e) (sym here) at in
            rw same (
              ap (λ p. get_elem? (update_at callback entries i x) (offset_in_sorted keys p))
                (sym here)
              ∙ rw (found, update_at)
                  (get_elem?-set_same entries i (callback e x) (get_elem?-lt entries i found)))
        | inr other ↦
            let apart : (i == j) ≡ false = elim (Bool-cases (i == j)) [
              | inl met ↦
                  let equal : i ≡ j = ground arith in
                  let both : some q ≡ some k = sym fq ∙ ap (get_elem? keys) equal ∙ fk in
                  let here : q ≡ k = cc in let yes_same = (key_order.same_iff q k).1 here in cc
              | inr met ↦ met
            ] in
            rw other (elim (Option-cases (get_elem? entries i)) [
              | inl gone ↦ rw (gone, update_at) at
              | inr (v, found) ↦
                  rw (found, update_at) (get_elem?-set_other entries i j (callback v x) apart ∙ at)
            ])
      ]

  put_if-foldl :
      (b : Bool) (x : End) (ends : List End) (e : Entry)
      → foldl callback (foldl callback e (put_if b x [])) ends ≡ foldl callback e (put_if b x ends)
  put_if-foldl true x ends e = refl
  put_if-foldl false x ends e = refl

  for_each_task-entry :
      (tasks : List EdgeTask) (entries : List Entry) (k : CollectionKey) (e : Entry)
      → AllFound tasks
      → Found k
      → get_elem? entries (offset_in_sorted keys k) ≡ some e
      → get_elem? (for_each_task callback keys tasks entries) (offset_in_sorted keys k)
        ≡ some (foldl callback e (ends_of k tasks))
  unfolding for_each_task
  for_each_task-entry [] entries k e all fk at = at
  for_each_task-entry (t ∷ tasks) entries k e (fs, ft, all) fk at =
      let s = put_if (key_eq (source_key t) k) (source_end t) [] in
      let first = update_at-entry entries (source_key t) k (source_end t) e fs fk at in
      let second =
        update_at-entry _ (target_key t) k (target_end t) (foldl callback e s) ft fk first in
      for_each_task-entry tasks _ k _ all fk second
      ∙ ap (λ v. some v)
          (put_if-foldl (key_eq (target_key t) k) (target_end t) (ends_of k tasks)
              (foldl callback e s)
            ∙ put_if-foldl (key_eq (source_key t) k) (source_end t)
                (put_if (key_eq (target_key t) k) (target_end t) (ends_of k tasks)) e)

contains-left :
    (xs ys : List CollectionKey) (k : CollectionKey)
    → contains xs k ≡ true
    → contains (xs ++ ys) k ≡ true
unfolding contains
contains-left [] ys k c = cc
contains-left (x ∷ xs) ys k c = elim (Bool-cases (contains xs k)) [
  | inl later ↦ ground (arith, contains-left xs ys k later)
  | inr none_later ↦ ground arith
]

contains-right :
    (xs ys : List CollectionKey) (k : CollectionKey)
    → contains ys k ≡ true
    → contains (xs ++ ys) k ≡ true
unfolding contains
contains-right [] ys k c = c
contains-right (x ∷ xs) ys k c = ground (arith, contains-right xs ys k c)

contains-first : (x : CollectionKey) (xs : List CollectionKey) → contains (x ∷ xs) x ≡ true
unfolding contains
contains-first x xs = ground (arith, key_order.same_iff x x)

contains-next :
    (x k : CollectionKey) (xs : List CollectionKey)
    → contains xs k ≡ true
    → contains (x ∷ xs) k ≡ true
unfolding contains
contains-next x k xs c = ground (arith, c)

-- All keys of tasks are found among the sorted ones.
AllFound-sorted :
    (all : List CollectionKey) (callback : Entry → End → Entry) (tasks : List EdgeTask)
    → ((k : CollectionKey) → contains (map source_key tasks) k ≡ true → contains all k ≡ true)
    → ((k : CollectionKey) → contains (map target_key tasks) k ≡ true → contains all k ≡ true)
    → AllFound callback (sort_and_deduplicate all) tasks
AllFound-sorted all callback [] s t = tt
AllFound-sorted all callback (x ∷ tasks) s t = (
  offset-sort_and_deduplicate all (source_key x)
      (s (source_key x) (contains-first (source_key x) (map source_key tasks))),
  offset-sort_and_deduplicate all (target_key x)
      (t (target_key x) (contains-first (target_key x) (map target_key tasks))),
  AllFound-sorted all callback tasks
      (λ k c. s k (contains-next (source_key x) k (map source_key tasks) c))
      (λ k c. t k (contains-next (target_key x) k (map target_key tasks) c)),
)

abbrev pub vertices_of : List EdgeTask → List CollectionKey
vertices_of tasks = map source_key tasks ++ map target_key tasks

AllFound-unique :
    (callback : Entry → End → Entry) (tasks : List EdgeTask)
    → AllFound callback (sort_and_deduplicate (vertices_of tasks)) tasks
AllFound-unique callback tasks =
    AllFound-sorted (vertices_of tasks) callback tasks
      (contains-left (map source_key tasks) (map target_key tasks))
      (contains-right (map source_key tasks) (map target_key tasks))

-- The entry of a touched vertex, after a loop over the tasks.
pub for_each_task-touched :
    (callback : Entry → End → Entry) (tasks : List EdgeTask) (entries : List Entry)
    (k : CollectionKey) (e : Entry)
    → contains (vertices_of tasks) k ≡ true
    → get_elem? entries (offset_in_sorted (unique_vertices tasks) k) ≡ some e
    → get_elem?
        (for_each_task callback (unique_vertices tasks) tasks entries)
        (offset_in_sorted (unique_vertices tasks) k)
      ≡ some (foldl callback e (ends_of k tasks))
unfolding unique_vertices
for_each_task-touched callback tasks entries k e c at =
    for_each_task-entry callback (sort_and_deduplicate (vertices_of tasks)) tasks entries k e
      (AllFound-unique callback tasks) (offset-sort_and_deduplicate (vertices_of tasks) k c) at
