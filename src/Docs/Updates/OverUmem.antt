-- ===== src/Docs/Updates/OverUmem.antt =====
-- The `umem` engine as the store under the documents: `ukv_read` and `ukv_write` of
-- src/engine_umem.cpp over a set of pairs, without a transaction.
use ukv.Prelude.{◌≡◌, sym, ap, ◌∙◌, true, Option, none, some, List, map}
use ukv.Types.{CollectionKey}
use ukv.Umem.{ConsistentSet}
use ukv.Umem.Entries.{Value}
use ukv.Umem.Scan.Correct.{set_source}
use ukv.Umem.Blobs.{Result, ok, err, read_places}
use ukv.Paths.Batch.OverUmem.{entry_value, read_places-values, umem_write, umem_write_lem}
use ukv.Docs.Updates.{Store}

module _ (c : ConsistentSet) where
  abbrev pub values_found : c.Set × Result (List Value) → Option (c.Set × List Value)
  values_found (s, ok values) = some (s, values)
  values_found (s, err e) = none

  unfoldable pub umem_read_values : c.Set → List CollectionKey → Option (c.Set × List Value)
  umem_read_values s keys = values_found (read_places (set_source c) true keys s)

  umem_read_values_lem :
      (s : c.Set) (keys : List CollectionKey)
      → umem_read_values s keys ≡ some (s, map (entry_value c s) keys)
  unfolding umem_read_values
  umem_read_values_lem s keys = ap values_found (read_places-values c s keys)

  pub umem_read_values-found :
      (s s' : c.Set) (keys : List CollectionKey) (found : List Value)
      → umem_read_values s keys ≡ some (s', found)
      → found ≡ map (entry_value c s) keys
  umem_read_values-found s s' keys found e = let both = sym (umem_read_values_lem s keys) ∙ e in cc

  pub umem_read_values-keeps :
      (s s' : c.Set) (keys : List CollectionKey) (found : List Value) (k : CollectionKey)
      → umem_read_values s keys ≡ some (s', found)
      → entry_value c s' k ≡ entry_value c s k
  umem_read_values-keeps s s' keys found k e =
      let both : s' ≡ s = let eq = sym (umem_read_values_lem s keys) ∙ e in cc in
      ap (λ t. entry_value c t k) both

  abbrev pub umem_store : Store
  umem_store = record {
    State = c.Set;
    value_at = entry_value c;
    read = umem_read_values;
    read_lem = umem_read_values-found;
    read_keeps = umem_read_values-keeps;
    write = umem_write c;
    write_lem = umem_write_lem c;
  }
