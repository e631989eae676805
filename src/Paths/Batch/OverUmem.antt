-- ===== src/Paths/Batch/OverUmem.antt =====
-- The `umem` engine as the engine under the paths: `ukv_read` and `ukv_write` of src/engine_umem.cpp
-- over a set of pairs, without a transaction.
use ukv.Prelude.{◌≡◌, refl, sym, ap, ◌∙◌, true, Option, none, some, List, [], ◌∷◌, map, arith}
use ukv.Types.{CollectionKey}
use ukv.Arguments.{Error}
use ukv.Umem.{ConsistentSet}
use ukv.Umem.Entries.{Value, Pair, find_entry}
use ukv.Umem.Scan.Correct.{set_source}
use ukv.Umem.Blobs.{Result, ok, err, read_places, write_pairs}
use ukv.Umem.Blobs.Writes.{
  last_put, value_of, write_pairs-entries, find_and_watch-entry, value-put_entries,
}
use ukv.Paths.Bucket.{Bytes, bytes_of}
use ukv.Paths.Batch.{Engine}

module _ (c : ConsistentSet) where
  abbrev pub entry_value : c.Set → CollectionKey → Value
  entry_value s k = value_of (find_entry k (c.entries s))

  pub read_places-values :
      (s : c.Set) (keys : List CollectionKey)
      → read_places (set_source c) true keys s ≡ (s, ok (map (entry_value s) keys))
  unfolding read_places
  read_places-values s [] = refl
  read_places-values s (k ∷ keys) =
      rw (find_and_watch-entry c true s k, read_places-values s keys, read_places) refl

  abbrev pub exported : c.Set × Result (List Value) → Option (c.Set × List Bytes)
  exported (s, ok values) = some (s, map bytes_of values)
  exported (s, err e) = none

  -- `ukv_read`, with what `joined_blobs_t` makes of the offsets and values that it exports.
  unfoldable pub umem_read : c.Set → List CollectionKey → Option (c.Set × List Bytes)
  umem_read s keys = exported (read_places (set_source c) true keys s)

  abbrev pub completed : c.Set × Option Error → Option c.Set
  completed (s, none) = some s
  completed (s, some e) = none

  -- `ukv_write`, whose arguments the modality fills in.
  unfoldable pub umem_write : c.Set → List Pair → Option c.Set
  umem_write s pairs = completed (write_pairs c pairs s)

  map_bytes :
      (s : c.Set) (keys : List CollectionKey)
      → map bytes_of (map (entry_value s) keys) ≡ map (λ k. bytes_of (entry_value s k)) keys
  map_bytes s [] = refl
  map_bytes s (k ∷ keys) = ap (λ bs. bytes_of (entry_value s k) ∷ bs) (map_bytes s keys)

  umem_read_lem :
      (s : c.Set) (keys : List CollectionKey)
      → umem_read s keys ≡ some (s, map (λ k. bytes_of (entry_value s k)) keys)
  unfolding umem_read
  umem_read_lem s keys = rw (read_places-values s keys) (ap (λ bs. some (s, bs)) (map_bytes s keys))

  completed-some : (r : c.Set × Option Error) (s : c.Set) → completed r ≡ some s → r ≡ (s, none)
  completed-some (t, none) s e = cc
  completed-some (t, some failure) s e = cc

  pub umem_write_lem :
      (s s' : c.Set) (pairs : List Pair) (k : CollectionKey)
      → umem_write s pairs ≡ some s'
      → entry_value s' k ≡ last_put k (entry_value s k) pairs
  unfolding umem_write
  umem_write_lem s s' pairs k e =
      ap (λ es. value_of (find_entry k es))
        (write_pairs-entries c pairs s (completed-some (write_pairs c pairs s) s' e))
      ∙ value-put_entries k pairs (c.entries s)

  pub umem_read-found :
      (s s' : c.Set) (keys : List CollectionKey) (found : List Bytes)
      → umem_read s keys ≡ some (s', found)
      → found ≡ map (λ k. bytes_of (entry_value s k)) keys
  umem_read-found s s' keys found e = let both = sym (umem_read_lem s keys) ∙ e in cc

  pub umem_read-same :
      (s s' : c.Set) (keys : List CollectionKey) (found : List Bytes)
      → umem_read s keys ≡ some (s', found)
      → s ≡ s'
  umem_read-same s s' keys found e = let both = sym (umem_read_lem s keys) ∙ e in cc

  pub umem_read-keeps :
      (s s' : c.Set) (keys : List CollectionKey) (found : List Bytes) (k : CollectionKey)
      → umem_read s keys ≡ some (s', found)
      → entry_value s' k ≡ entry_value s k
  umem_read-keeps s s' keys found k e =
      let both = sym (umem_read_lem s keys) ∙ e in ap (λ t. entry_value t k) (ground arith)

  abbrev pub umem_engine : Engine
  umem_engine = record {
    State = c.Set;
    value_at = entry_value;
    read = umem_read;
    read_lem = umem_read-found;
    read_keeps = umem_read-keeps;
    write = umem_write;
    write_lem = umem_write_lem;
  }
