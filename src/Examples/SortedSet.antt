-- ===== src/Examples/SortedSet.antt =====
-- A set of pairs that is an ordered list: it shows that the laws of `ConsistentSet` can hold.
use mathlib.Core.List.{foldl}
use ukv.Prelude.{◌≡◌, refl, sym, ap, ◌∙◌, Bool, true, false, Option, none, some, List, [], ◌∷◌}
use ukv.Types.{CollectionKey, key_lt}
use ukv.Umem.{ConsistentSet}
use ukv.Umem.Entries.{Pair, find_entry, above, first, put_entry, drop_entries, change_entries}
use ukv.Umem.Entries.Above.{Before, IsOrdered}

abbrev pub OrderedList : Type 0
OrderedList = (entries : List Pair) × IsOrdered entries

unfoldable pub is_true : (b : Bool) → Dec (b ≡ true)
is_true true = yes refl
is_true false = no (λ e. cc)

unfoldable pub is_before : (k : CollectionKey) (entries : List Pair) → Dec (Before k entries)
unfolding is_true
is_before k [] = yes tt
is_before k (p ∷ entries) = elim (is_true (key_lt k p.place)) [
  | no fails ↦ no (λ b. fails b.0)
  | yes less ↦ elim (is_before k entries) [
    | yes rest ↦ yes (less, rest)
    | no fails ↦ no (λ b. fails b.1)
  ]
]

unfoldable pub is_ordered : (entries : List Pair) → Dec (IsOrdered entries)
unfolding is_before
is_ordered [] = yes tt
is_ordered (p ∷ entries) = elim (is_before p.place entries) [
  | no fails ↦ no (λ o. fails o.0)
  | yes before ↦ elim (is_ordered entries) [
    | yes rest ↦ yes (before, rest)
    | no fails ↦ no (λ o. fails o.1)
  ]
]

-- The list, where it is ordered.
unfoldable pub keep : List Pair → Option OrderedList
unfolding is_ordered
keep entries = elim (is_ordered entries) [ yes o ↦ some (entries, o) | no fails ↦ none ]

entries_or : List Pair → Option OrderedList → List Pair
entries_or entries none = entries
entries_or entries (some s) = s.0

entries_or-kept :
    (entries : List Pair) (decided : Dec (IsOrdered entries))
    → entries_or entries (elim decided [ yes o ↦ some (entries, o) | no fails ↦ none ]) ≡ entries
unfolding entries_or
entries_or-kept entries (yes o) = refl
entries_or-kept entries (no fails) = refl

pub keep_lem : (entries : List Pair) (s : OrderedList) → keep entries ≡ some s → s.0 ≡ entries
unfolding keep entries_or
keep_lem entries s e =
    ap (entries_or entries) (sym e) ∙ entries_or-kept entries (is_ordered entries)

abbrev pub batch_kept : OrderedList → Option OrderedList → OrderedList × Bool
batch_kept s none = (s, false)
batch_kept s (some s') = (s', true)

-- The list that is kept, or the one before, and whether it is kept.
unfoldable pub keep_batch : OrderedList → List Pair → OrderedList × Bool
unfolding keep
keep_batch s entries = batch_kept s (keep entries)

kept_batch :
    (entries : List Pair) (s s' : OrderedList) (kept : Option OrderedList)
    → keep entries ≡ kept
    → batch_kept s kept ≡ (s', true)
    → s'.0 ≡ entries
kept_batch entries s s' none k e = cc
kept_batch entries s s' (some t) k e =
    ap (λ (r : OrderedList × Bool). (r.0).0) (sym e) ∙ keep_lem entries t k

pub keep_batch_lem :
    (entries : List Pair) (s s' : OrderedList) → keep_batch s entries ≡ (s', true) → s'.0 ≡ entries
unfolding keep_batch
keep_batch_lem entries s s' e = kept_batch entries s s' (keep entries) refl e

abbrev pub ordered_list : ConsistentSet
ordered_list = record {
  Set = OrderedList;
  entries = λ s. s.0;
  ordered = λ s. s.1;
  find = λ s k. some (find_entry k s.0);
  find_lem = λ s k. refl;
  upper_bound = λ s k. some (first (above k s.0));
  upper_bound_lem = λ s k. refl;
  upsert = λ s p. keep (put_entry p s.0);
  upsert_lem = λ s s' p e. keep_lem (put_entry p s.0) s' e;
  upsert_batch = λ s ps. keep_batch s (foldl (λ es p. put_entry p es) s.0 ps);
  upsert_batch_lem = λ s s' ps e. keep_batch_lem (foldl (λ es p. put_entry p es) s.0 ps) s s' e;
  erase_range = λ s from to. keep (drop_entries from to s.0);
  erase_range_lem = λ s s' from to e. keep_lem (drop_entries from to s.0) s' e;
  range = λ s from to f. keep (change_entries from to f s.0);
  range_lem = λ s s' from to f e. keep_lem (change_entries from to f s.0) s' e;
}
