-- ===== src/Memory/Locking.antt =====
-- The lock of a chain: which call may discard the memory of an earlier one.
use mathlib.Core.Path.{ap₂}
use ukv.Prelude.{
  ℕ, ◌≡◌, refl, sym, ap, subst, ◌∙◌, Bool, true, false, not, ◌&&◌, Option, none, some, List, [],
  ◌∷◌, arith, inl, inr, Bool-cases, Option-cases, if◌then◌else◌,
}
use ukv.Memory.{
  Kind, sys, shared, unified, kind_eq, Arena, alloc_arena, start_chain, start_if_null,
  set_can_release, lock_release_calls, release_partially, lock, unlock, header_size, initial_size,
}
use ukv.Memory.Chain.{alloc_arena-some}

kind_eq_refl : (k : Kind) → kind_eq k k ≡ true
unfolding kind_eq
kind_eq_refl sys = refl
kind_eq_refl shared = refl
kind_eq_refl unified = refl

-- The head of a chain is of a kind and locked.
abbrev IsLocked : Kind → List Arena → Type 0
IsLocked kind [] = ⊥
IsLocked kind (a ∷ rest) = (kind_eq a.kind kind ≡ true) × (a.can_release_memory ≡ false)

module _ (system : Kind → ℕ → Option ℕ) where
  -- What starting leaves is a chain with a head of the kind.
  start_chain-some :
      (kind : Kind) {started : List Arena} {done : Bool}
      → start_chain system kind ≡ some (started, done)
      → (a : Arena) × (started ≡ a ∷ []) × (done ≡ true) × (kind_eq a.kind kind ≡ true)
  unfolding start_chain
  start_chain-some kind {started} {done} e =
      elim (Option-cases (alloc_arena system initial_size kind)) [
        | inl failed ↦ absurd (ground arith)
        | inr (b, made) ↦
            let (begin, _, shape) = alloc_arena-some system initial_size kind made in
            (
              record b { can_release_memory = true },
              ground arith,
              ground arith,
              ap (λ (c : Arena). kind_eq c.kind kind) shape ∙ kind_eq_refl kind,
            )
      ]

  start_if_null-some :
      (chain : List Arena) (kind : Kind) {started : List Arena} {done : Bool}
      → start_if_null system chain kind ≡ some (started, done)
      → (a : Arena) × (rest : List Arena) × (started ≡ a ∷ rest)
        × (done ≡ true)
        × (kind_eq a.kind kind ≡ true)
  unfolding start_if_null
  start_if_null-some [] kind e = let (a, s, d, k) = start_chain-some kind e in (a, [], s, d, k)
  start_if_null-some (b ∷ rest) kind e = elim (Bool-cases (kind_eq b.kind kind)) [
    | inl same ↦ (b, rest, ground arith, ground arith, same)
    | inr other ↦ let (a, s, d, k) = start_chain-some kind (rw other at e) in (a, [], s, d, k)
  ]

  -- The lock of a started chain, branch by branch.
  lock_started :
      (chain : List Arena) (a : Arena) (rest : List Arena) (kind : Kind) (keep : Bool)
      → start_if_null system chain kind ≡ some (a ∷ rest, true)
      → lock system chain kind keep
        ≡ some (
          (if a.can_release_memory && not keep
              then record a { used = header_size; can_release_memory = false } ∷ []
              else record a { can_release_memory = false } ∷ rest),
          a.can_release_memory,
        )
  unfolding lock lock_release_calls set_can_release release_partially
  lock_started chain a rest kind keep e = rw (e, lock) (ground arith)

  locked_again :
      (chain : List Arena) (kind : Kind) (keep : Bool)
      → IsLocked kind chain
      → lock system chain kind keep ≡ some (chain, false)
  unfolding start_if_null
  locked_again [] kind keep h = absurd h
  locked_again (a ∷ rest) kind keep h =
      lock_started (a ∷ rest) a rest kind keep (rw h.0 refl) ∙ ground arith

  IsLocked-if :
      (discard : Bool) (a : Arena) (rest : List Arena) (kind : Kind)
      → kind_eq a.kind kind ≡ true
      → IsLocked kind (
          if discard
          then record a { used = header_size; can_release_memory = false } ∷ []
          else record a { can_release_memory = false } ∷ rest)
  IsLocked-if true a rest kind k = (k, refl)
  IsLocked-if false a rest kind k = (k, refl)

  lock-IsLocked :
      (chain : List Arena) (kind : Kind) (keep : Bool) {locked : List Arena}
      → lock system chain kind keep ≡ some (locked, true)
      → IsLocked kind locked
  unfolding lock
  lock-IsLocked chain kind keep {locked} e = elim (Option-cases (start_if_null system chain kind)) [
    | inl failed ↦ let lost : lock system chain kind keep ≡ none = rw (failed, lock) refl in cc lost
    | inr ((started, done), ok) ↦
        let (a, rest, s, d, k) = start_if_null-some chain kind ok in
        let discard = a.can_release_memory && not keep in
        let result = lock_started chain a rest kind keep (ok ∙ ap₂ (λ x y. some (x, y)) s d) in
        subst (IsLocked kind)
          (ap (λ (o : Option (List Arena × Bool)). elim o [ none ↦ [] | some r ↦ r.0 ])
            (sym result ∙ e))
          (IsLocked-if discard a rest kind k)
  ]

  -- While a lock is owned, a further lock of the same kind takes nothing over: it leaves the chain
  -- as it is, whether or not it is asked to keep old data, and its end leaves it too.
  pub lock_nested :
      (chain : List Arena) (kind : Kind) (keep keep' : Bool) {locked : List Arena}
      → lock system chain kind keep ≡ some (locked, true)
      → (lock system locked kind keep' ≡ some (locked, false)) × (unlock locked false ≡ some locked)
  unfolding unlock
  lock_nested chain kind keep keep' {locked} e =
      (locked_again locked kind keep' (lock-IsLocked chain kind keep e), refl)
