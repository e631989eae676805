-- ===== src/Docs/Updates/Callbacks.antt =====
-- The tape that the calls for all tasks leave, place by place.
use mathlib.Core.Path.{ap₂}
use ukv.Prelude.{
  ℕ, zero, suc, ◌+◌, ◌≡◌, refl, sym, ap, ◌∙◌, Bool, true, ◌&&◌, Option, none, some, List, [], ◌∷◌,
  arith, get_elem?, Bool-cases, inl, inr, map, if◌then◌else◌,
}
use ukv.Arguments.{is_present}
use ukv.Umem.Entries.{Value}
use ukv.Docs.{Bytes}
use ukv.Docs.Updates.{Fields, field_at, Callback, push_out, for_each, for_each_absent, all_missing}

module _ {A : Type 0} where
  push_out-parts :
      (o : Option A) (rest : Option (List A)) (out : List A)
      → push_out o rest ≡ some out
      → (x : A) × (xs : List A) × (o ≡ some x) × (rest ≡ some xs) × (out ≡ x ∷ xs)
  push_out-parts none rest out e = cc
  push_out-parts (some x) none out e = cc
  push_out-parts (some x) (some xs) out e = (x, xs, refl, refl, cc)

module _ (callback : Callback) (fields : Fields) where
  -- The document of a task is what its call makes.
  pub for_each_lem :
      (docs : List Bytes) (i m n : ℕ) (outs : List Bytes) (doc : Bytes)
      → for_each callback fields i docs ≡ some outs
      → n ≡ i + m
      → get_elem? docs m ≡ some doc
      → (out : Bytes) × (get_elem? outs m ≡ some out)
        × (callback n (field_at fields n) doc ≡ some out)
  unfolding for_each
  for_each_lem [] i m n outs doc e at found = cc
  for_each_lem (d ∷ docs) i zero n outs doc e at found =
      let (x, xs, first, rest, same) = push_out-parts _ _ outs e in
      let here : i ≡ n = omega arith in
      let own : d ≡ doc = cc in
      (
        x,
        ap (λ o. get_elem? o 0) same,
        ap (callback n (field_at fields n)) (sym own)
            ∙ ap (λ k. callback k (field_at fields k) d) (sym here)
            ∙ first,
      )
  for_each_lem (d ∷ docs) i (suc m) n outs doc e at found =
      let (x, xs, first, rest, same) = push_out-parts _ _ outs e in
      let (out, there, made) = for_each_lem docs (i + 1) m n xs doc rest (omega arith) found in
      (out, ap (λ o. get_elem? o (suc m)) same ∙ there, made)

  -- Calls without documents are those of empty ones, and no document that an insertion would replace
  -- is there.
  pub for_each_absent_lem :
      (is_insert : Bool) (values : List Value) (i : ℕ) (outs : List Bytes)
      → for_each_absent callback is_insert fields i values ≡ some outs
      → (for_each callback fields i (map (λ (v : Value). []) values) ≡ some outs)
        × (is_insert ≡ true → all_missing values ≡ true)
  unfolding for_each for_each_absent
  for_each_absent_lem is_insert [] i outs e = (e, λ h. refl)
  for_each_absent_lem is_insert (v ∷ values) i outs e =
      elim (Bool-cases (is_present v && is_insert)) [
        | inl refused ↦
            let stop : none ≡ some outs =
              ap
                (λ b.
                  if b
                  then none
                  else push_out (callback i (field_at fields i) [])
                      (for_each_absent callback is_insert fields (i + 1) values))
                (sym refused)
              ∙ e in
            cc
        | inr accepted ↦
            let ran : push_out (callback i (field_at fields i) [])
                  (for_each_absent callback is_insert fields (i + 1) values)
                ≡ some outs =
              ap
                (λ b.
                  if b
                  then none
                  else push_out (callback i (field_at fields i) [])
                      (for_each_absent callback is_insert fields (i + 1) values))
                (sym accepted)
              ∙ e in
            let (x, xs, first, rest, same) = push_out-parts _ _ outs ran in
            let (later, missing) = for_each_absent_lem is_insert values (i + 1) xs rest in
            (ap₂ push_out first later ∙ ap some (sym same), λ h. ground arith)
      ]
