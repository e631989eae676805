-- ===== src/FullScan/OverUmem.antt =====
-- The `umem` engine under full scans: `ukv_scan` of src/engine_umem.cpp over a set of pairs, without
-- a transaction.
use ukv.Prelude.{
  ℕ, zero, suc, ◌≡◌, ◌<◌, ◌≤◌, refl, sym, ap, ◌∙◌, true, false, Option, none, some, List, [], ◌∷◌,
  arith, inl, inr, Bool-cases, length, map, take, leb, ltb, ◌==◌, if◌then◌else◌,
}
use ukv.Types.{CollectionKey, key_lt}
use ukv.Umem.{ConsistentSet}
use ukv.Umem.Entries.{Pair, matching}
use ukv.Umem.Entries.Above.{Before, IsOrdered}
use ukv.Umem.Scan.{scan_and_watch}
use ukv.Umem.Scan.Correct.{set_source, scan_and_watch-matching}
use ukv.Paths.Batch.OverUmem.{umem_engine, umem_read-same, entry_value}
use ukv.FullScan.{keys_from, Over, Ascending, ScannedEngine}

-- The keys of a collection, in their order.
unfoldable pub keys_of : ℕ → List Pair → List ℕ
keys_of collection [] = []
keys_of collection (p ∷ entries) =
    if p.place.collection == collection
    then p.place.key ∷ keys_of collection entries
    else keys_of collection entries

keys_of-Over :
    (collection : ℕ) (k : CollectionKey) (entries : List Pair)
    → k.collection ≡ collection
    → Before k entries
    → Over k.key (keys_of collection entries)
unfolding keys_of key_lt
keys_of-Over collection k [] same b = tt
keys_of-Over collection k (p ∷ entries) same b =
    elim (Bool-cases (p.place.collection == collection)) [
      | inl here ↦ rw here (ground (arith, b.0))
      | inr other ↦ rw other (keys_of-Over collection k entries same b.1)
    ]

pub keys_of-Ascending :
    (collection : ℕ) (entries : List Pair)
    → IsOrdered entries
    → Ascending (keys_of collection entries)
unfolding keys_of
keys_of-Ascending collection [] o = tt
keys_of-Ascending collection (p ∷ entries) o =
    elim (Bool-cases (p.place.collection == collection)) [
      | inl here ↦ rw here (
        keys_of-Over collection p.place entries (ground arith) o.0,
        keys_of-Ascending collection entries o.1,
      )
      | inr other ↦ rw other (keys_of-Ascending collection entries o.1)
    ]

abbrev key_of_pair : Pair → ℕ
key_of_pair p = p.place.key

-- Behind a key from the start on, all pairs of the collection are from the start on.
keys-behind :
    (start k : CollectionKey) (entries : List Pair)
    → k.collection ≡ start.collection
    → start.key ≤ k.key
    → Before k entries
    → map key_of_pair (matching start entries) ≡ keys_of start.collection entries
unfolding matching keys_of key_lt
keys-behind start k [] same le b = refl
keys-behind start k (p ∷ entries) same le b =
    let rest = keys-behind start k entries same le b.1 in
    elim (Bool-cases (p.place.collection == start.collection)) [
      | inr other ↦ rw other rest
      | inl here ↦
          let above : leb start.key p.place.key ≡ true = ground (arith, b.0) in
          rw (here, above) (ap (◌∷◌ p.place.key) rest)
    ]

-- The pairs from a start on are those of the keys of its collection from there on.
keys-matching :
    (start : CollectionKey) (entries : List Pair)
    → IsOrdered entries
    → map key_of_pair (matching start entries)
      ≡ keys_from start.key (keys_of start.collection entries)
unfolding matching keys_of keys_from
keys-matching start [] o = refl
keys-matching start (p ∷ entries) o =
    let rest = keys-matching start entries o.1 in
    elim (Bool-cases (p.place.collection == start.collection)) [
      | inr other ↦ rw other rest
      | inl here ↦ elim (Bool-cases (ltb p.place.key start.key)) [
        | inl before ↦
            let below : leb start.key p.place.key ≡ false = ground arith in
            rw (here, before, below) rest
        | inr behind ↦
            let above : leb start.key p.place.key ≡ true = ground arith in
            rw (here, behind, above)
              (ap (◌∷◌ p.place.key)
                (keys-behind start p.place entries (ground arith) (ground arith) o.0))
      ]
    ]

map-take : {A B : Type 0} (f : A → B) (n : ℕ) (xs : List A) → map f (take n xs) ≡ take n (map f xs)
map-take f zero xs = refl
map-take f (suc n) [] = refl
map-take f (suc n) (x ∷ xs) = ap (◌∷◌ (f x)) (map-take f n xs)

module _ (c : ConsistentSet) where
  abbrev pub keys_found : Option (c.Set × List Pair) → Option (c.Set × List ℕ)
  keys_found none = none
  keys_found (some (s, pairs)) = some (s, map key_of_pair pairs)

  -- `ukv_scan` of one task, with fuel for a step more than there are pairs.
  unfoldable pub umem_scan : c.Set → CollectionKey → ℕ → Option (c.Set × List ℕ)
  umem_scan s start limit =
      keys_found (scan_and_watch (set_source c) true (suc (length (c.entries s))) s start limit)

  abbrev pub set_keys : c.Set → ℕ → List ℕ
  set_keys s collection = keys_of collection (c.entries s)

  umem_scan_lem :
      (s : c.Set) (start : CollectionKey) (limit : ℕ)
      → 0 < limit
      → umem_scan s start limit
        ≡ some (s, take limit (keys_from start.key (set_keys s start.collection)))
  unfolding umem_scan
  umem_scan_lem s start limit pos =
      ap keys_found (
        scan_and_watch-matching c true s start limit (suc (length (c.entries s))) pos (omega arith))
      ∙ ap (λ ks. some (s, ks))
          (map-take key_of_pair limit (matching start (c.entries s))
            ∙ ap (take limit) (keys-matching start (c.entries s) (c.ordered s)))

  pub umem_scan-found :
      (s s' : c.Set) (start : CollectionKey) (limit : ℕ) (found : List ℕ)
      → umem_scan s start limit ≡ some (s', found)
      → 0 < limit
      → found ≡ take limit (keys_from start.key (set_keys s start.collection))
  umem_scan-found s s' start limit found e pos =
      let both = sym (umem_scan_lem s start limit pos) ∙ e in cc

  pub umem_scan-same :
      (s s' : c.Set) (start : CollectionKey) (limit : ℕ) (found : List ℕ)
      → umem_scan s start limit ≡ some (s', found)
      → 0 < limit
      → s ≡ s'
  umem_scan-same s s' start limit found e pos =
      let both = sym (umem_scan_lem s start limit pos) ∙ e in cc

  -- The `umem` engine is an engine with scans.
  abbrev pub umem_scanned : ScannedEngine
  umem_scanned = record {
    eng = umem_engine c;
    keys_in = set_keys;
    ascending = λ s collection. keys_of-Ascending collection (c.entries s) (c.ordered s);
    scan = umem_scan;
    scan_lem = umem_scan-found;
    scan_keys = λ s s' start limit found e pos.
        ap set_keys (sym (umem_scan-same s s' start limit found e pos));
    scan_values = λ s s' start limit found k e pos.
        ap (λ t. entry_value c t k) (sym (umem_scan-same s s' start limit found e pos));
    read_keys = λ s s' keys found e. ap set_keys (sym (umem_read-same c s s' keys found e));
  }
