-- ===== src/Umem/Entries/Above.antt =====
-- Laws of the ordered content.
use ukv.Prelude.{
  ℕ, ◌≡◌, ◌<◌, refl, ap, sym, subst, ◌∙◌, true, false, Option, none, some, List, [], ◌∷◌, ◌++◌,
  arith, inl, inr, Bool-cases, ◌==◌, if◌then◌else◌,
}
use ukv.Types.{CollectionKey, key_eq, key_lt}
use ukv.Types.Order.{key_order, key_trans, key_irrefl, key_same_iff}
use ukv.Umem.Entries.{Pair, find_entry, above, matching}

-- The first pair comes before all others, and so on: no key stands twice.
abbrev pub Before : CollectionKey → List Pair → Type 0
Before k [] = Unit {0}
Before k (p ∷ entries) = (key_lt k p.place ≡ true) × Before k entries

abbrev pub IsOrdered : List Pair → Type 0
IsOrdered [] = Unit {0}
IsOrdered (p ∷ entries) = Before p.place entries × IsOrdered entries

Before-mono :
    (k j : CollectionKey) (entries : List Pair)
    → key_lt k j ≡ true
    → Before j entries
    → Before k entries
Before-mono k j [] h b = tt
Before-mono k j (p ∷ entries) h b = (key_trans k j p.place h b.0, Before-mono k j entries h b.1)

above_all : (k : CollectionKey) (entries : List Pair) → Before k entries → above k entries ≡ entries
unfolding above
above_all k [] b = refl
above_all k (p ∷ entries) b = rw b.0 (ap (◌∷◌ p) (above_all k entries b.1))

key_asym : (a b : CollectionKey) → key_lt a b ≡ true → key_lt b a ≡ false
unfolding key_lt
key_asym a b h = ground arith

above-Before :
    (k j : CollectionKey) (entries : List Pair) {p : Pair} {rest : List Pair}
    → Before j entries
    → above k entries ≡ p ∷ rest
    → key_lt j p.place ≡ true
unfolding above
above-Before k j [] b e = cc
above-Before k j (q ∷ entries) {p} {rest} b e = elim (Bool-cases (key_lt k q.place)) [
  | inl h ↦ ground arith
  | inr h ↦ above-Before k j entries {p = p} {rest = rest} b.1 (ground arith)
]

-- What is behind the first pair behind a key.
pub above_next :
    (k : CollectionKey) (entries : List Pair) {p : Pair} {rest : List Pair}
    → IsOrdered entries
    → above k entries ≡ p ∷ rest
    → above p.place entries ≡ rest
unfolding above
above_next k [] o e = cc
above_next k (q ∷ entries) {p} {rest} o e = elim (Bool-cases (key_lt k q.place)) [
  | inl h ↦
      let all = above_all k entries (Before-mono k q.place entries h o.0) in
      let here : (q ≡ p) × (entries ≡ rest) = ground (arith, all) in
      subst (λ (r : Pair). above r.place (q ∷ entries) ≡ rest) here.0
        (rw (key_irrefl q.place) (above_all q.place entries o.0 ∙ here.1))
  | inr h ↦
      let later : above k entries ≡ p ∷ rest = ground arith in
      let behind = key_asym q.place p.place (above-Before k q.place entries o.0 later) in
      rw behind (above_next k entries o.1 later)
]

-- The leading pairs of one collection.
unfoldable pub same_prefix : ℕ → List Pair → List Pair
same_prefix c [] = []
same_prefix c (p ∷ entries) = if p.place.collection == c then p ∷ same_prefix c entries else []

abbrev pub optional : Option Pair → List Pair
optional none = []
optional (some p) = p ∷ []

matching_far :
    (start k : CollectionKey) (entries : List Pair)
    → start.collection < k.collection
    → Before k entries
    → matching start entries ≡ []
unfolding matching key_lt
matching_far start k [] h b = refl
matching_far start k (p ∷ entries) h b = ground (arith, matching_far start k entries)

matching_behind :
    (start : CollectionKey) (entries : List Pair)
    → IsOrdered entries
    → Before start entries
    → matching start entries ≡ same_prefix start.collection entries
unfolding matching same_prefix key_lt
matching_behind start [] o b = refl
matching_behind start (p ∷ entries) o b =
    ground (arith, matching_behind start entries, matching_far start p.place entries)

find_entry-before :
    (k : CollectionKey) (entries : List Pair) → Before k entries → find_entry k entries ≡ none
unfolding find_entry
find_entry-before k [] b = refl
find_entry-before k (p ∷ entries) b =
    ground (arith, find_entry-before k entries, key_same_iff p.place k, key_irrefl k)

split_here :
    (start : CollectionKey) (p : Pair) (entries : List Pair)
    → start ≡ p.place
    → (matching start (p ∷ entries) ≡ p ∷ matching start entries)
      × (find_entry start (p ∷ entries) ≡ some p)
      × (above start (p ∷ entries) ≡ above start entries)
unfolding matching find_entry above
split_here start p entries e = (
  ground arith,
  ground (arith, key_same_iff p.place start),
  rw (subst (λ k. key_lt start k ≡ false) e (key_irrefl start)) refl,
)

split_later :
    (start : CollectionKey) (p : Pair) (entries : List Pair)
    → key_lt start p.place ≡ false
    → key_eq p.place start ≡ false
    → (matching start (p ∷ entries) ≡ matching start entries)
      × (find_entry start (p ∷ entries) ≡ find_entry start entries)
      × (above start (p ∷ entries) ≡ above start entries)
unfolding matching find_entry above key_lt key_eq
split_later start p entries h d = ground arith

-- What a scan is to find: the pair at the start, if there is one, and the pairs behind it up to
-- the end of its collection.
pub matching_split :
    (start : CollectionKey) (entries : List Pair)
    → IsOrdered entries
    → matching start entries
      ≡ optional (find_entry start entries) ++ same_prefix start.collection (above start entries)
unfolding matching find_entry above same_prefix
matching_split start [] o = refl
matching_split start (p ∷ entries) o = elim (Bool-cases (key_lt start p.place)) [
  | inl h ↦
      let before : Before start (p ∷ entries) = (h, Before-mono start p.place entries h o.0) in
      rw (find_entry-before start (p ∷ entries) before, above_all start (p ∷ entries) before)
        (matching_behind start (p ∷ entries) o before)
  | inr h ↦ elim (Bool-cases (key_eq p.place start)) [
    | inl e ↦
        let same = sym ((key_same_iff p.place start).0 e) in
        let before = subst (λ k. Before k entries) (sym same) o.0 in
        let (matched, found, behind) = split_here start p entries same in
        rw (matched, found, behind, above_all start entries before)
          (ap (◌∷◌ p) (matching_behind start entries o.1 before))
    | inr d ↦
        let (matched, found, behind) = split_later start p entries h d in
        rw (matched, found, behind) (matching_split start entries o.1)
  ]
]
