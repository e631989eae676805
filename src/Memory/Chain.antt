-- ===== src/Memory/Chain.antt =====
-- `alloc` over a chain of arenas: blocks are fresh, aligned and never taken back.
use ukv.Prelude.{
  ℕ, ◌+◌, ◌-◌, ◌%◌, ◌^◌, ◌≤◌, ◌<◌, ◌≡◌, ◌≢◌, refl, ap, sym, subst, ◌⊎◌, inl, inr, false, Option,
  some, List, [], ◌∷◌, ◌++◌, arith, ◌==◌, Bool-cases, Option-cases,
}
use ukv.Memory.{
  Kind, sys, shared, unified, Arena, alloc_internally, header_size, alloc_in, alloc_arena,
  alloc_more, alloc, new_capacity,
}
use ukv.Memory.Block.{IsArena, Within, Taken, IsSmall, alloc_internally-some, alloc_internally-fits}

-- Two blocks share no address.
abbrev pub Disjoint : Arena → Arena → Type 0
Disjoint a b = (a.start + a.capacity ≤ b.start) ⊎ (b.start + b.capacity ≤ a.start)

abbrev pub Apart : Arena → List Arena → Type 0
Apart a [] = Unit {0}
Apart a (b ∷ rest) = Disjoint a b × Apart a rest

-- Every arena is well formed, and no two blocks overlap.
abbrev pub IsChain : List Arena → Type 0
IsChain [] = Unit {0}
IsChain (a ∷ rest) = IsArena a × Apart a rest × IsChain rest

-- The address lies in the used part of some arena.
abbrev pub ChainTaken : List Arena → ℕ → Type 0
ChainTaken [] x = ⊥
ChainTaken (a ∷ rest) x = Taken a x ⊎ ChainTaken rest x

-- What a served request guarantees: an aligned block of addresses, none of them taken before and
-- all of them taken after, with everything that was taken still taken.
pub record Served (chain chain' : List Arena) (p length alignment : ℕ) : Type 0 where
  pub valid : IsChain chain'
  pub aligned : p % alignment ≡ 0
  pub fresh : (x : ℕ) → p ≤ x → x < p + length → ¬ ChainTaken chain x
  pub held : (x : ℕ) → p ≤ x → x < p + length → ChainTaken chain' x
  pub kept : (x : ℕ) → ChainTaken chain x → ChainTaken chain' x

Apart-not-taken :
    (a : Arena) (chain : List Arena) (x : ℕ)
    → IsChain chain
    → Apart a chain
    → Within a x
    → ¬ ChainTaken chain x
Apart-not-taken a [] x v d w t = t
Apart-not-taken a (b ∷ rest) x v d w (inl t) = omega (arith, v.0)
Apart-not-taken a (b ∷ rest) x v d w (inr t) = Apart-not-taken a rest x v.2 d.1 w t

-- The request was served by growing the used part of one arena.
abbrev pub Grown : List Arena → List Arena → Type 0
Grown chain chain' = (b : Arena) → Apart b chain → Apart b chain'

abbrev pub ServedIn : List Arena → List Arena → ℕ → ℕ → ℕ → Type 0
ServedIn chain chain' p length alignment =
    Served chain chain' p length alignment × Grown chain chain'

Apart-congr :
    (a b : Arena) (chain : List Arena)
    → a.start ≡ b.start
    → a.capacity ≡ b.capacity
    → Apart a chain
    → Apart b chain
Apart-congr a b [] s c d = tt
Apart-congr a b (x ∷ rest) s c d = (omega arith, Apart-congr a b rest s c d.1)

pub Served-at :
    (a : Arena) (rest : List Arena) (p length alignment : ℕ)
    → IsChain (a ∷ rest)
    → p % alignment ≡ 0
    → a.start + a.used ≤ p
    → p + length ≤ a.start + a.capacity
    → ServedIn (a ∷ rest) (record a { used = p + length - a.start } ∷ rest) p length alignment
Served-at a rest p length alignment v aligned behind inside =
    let a' : Arena = record a { used = p + length - a.start } in
    (
      record {
        valid = (omega (arith, v.0), Apart-congr a a' rest refl refl v.1, v.2);
        aligned = aligned;
        fresh = λ x lo hi. elim [
          | inl t ↦ omega arith
          | inr t ↦ Apart-not-taken a rest x v.2 v.1 (omega arith) t
        ];
        held = λ x lo hi. inl (omega arith);
        kept = λ x. elim [ inl t ↦ inl (omega arith) | inr t ↦ inr t ];
      },
      λ b d. d,
    )

Served-here :
    (a : Arena) (rest : List Arena) (length alignment : ℕ) {a' : Arena} {p : ℕ}
    → IsChain (a ∷ rest)
    → 0 < alignment
    → IsSmall length alignment
    → alloc_internally a length alignment ≡ (a', some p)
    → ServedIn (a ∷ rest) (a' ∷ rest) p length alignment
Served-here a rest length alignment {a'} {p} v h small e =
    let (aligned, behind, inside, result) =
      alloc_internally-some a length alignment v.0 h small e in
    rw result (Served-at a rest p length alignment v aligned behind inside)

pub Served-there :
    (a : Arena) (rest rest' : List Arena) (p length alignment : ℕ)
    → IsChain (a ∷ rest)
    → ServedIn rest rest' p length alignment
    → ServedIn (a ∷ rest) (a ∷ rest') p length alignment
Served-there a rest rest' p length alignment v (s, grown) = (
  record {
    valid = (v.0, grown a v.1, s.valid);
    aligned = s.aligned;
    fresh = λ x lo hi. elim [
      | inl t ↦
          Apart-not-taken a rest' x s.valid (grown a v.1) (omega (arith, v.0)) (s.held x lo hi)
      | inr t ↦ s.fresh x lo hi t
    ];
    held = λ x lo hi. inr (s.held x lo hi);
    kept = λ x. elim [ inl t ↦ inl t | inr t ↦ inr (s.kept x t) ];
  },
  λ b d. (d.0, grown b d.1),
)

alloc_in-Served :
    (chain : List Arena) (length alignment : ℕ) {chain' : List Arena} {p : ℕ}
    → IsChain chain
    → 0 < alignment
    → IsSmall length alignment
    → alloc_in chain length alignment ≡ some (chain', p)
    → ServedIn chain chain' p length alignment
unfolding alloc_in
alloc_in-Served [] length alignment v h small e = cc
alloc_in-Served (a ∷ rest) length alignment {chain'} {p} v h small e =
    let out = alloc_internally a length alignment in
    elim (Option-cases out.1) [
      | inr (q, found) ↦
          let same : (chain' ≡ out.0 ∷ rest) × (p ≡ q) = ground arith in
          rw (same.0, same.1)
            (Served-here a rest length alignment v h small (ap (λ r. (out.0, r)) found))
      | inl missed ↦ elim (Option-cases (alloc_in rest length alignment)) [
        | inl none_left ↦ absurd (ground arith)
        | inr ((rest', q), found) ↦
            let same : (chain' ≡ a ∷ rest') × (p ≡ q) = ground arith in
            rw (same.0, same.1)
              (Served-there a rest rest' q length alignment v
                (alloc_in-Served rest length alignment v.2 h small found))
      ]
    ]

-- The system gives out blocks that no arena of the chain overlaps, in the lower half of the
-- addresses: a documented behaviour of `std::malloc` and `mmap`.
abbrev pub GivesFresh : (Kind → ℕ → Option ℕ) → List Arena → Type 0
GivesFresh system chain =
    (kind : Kind) (size begin : ℕ)
    → system kind size ≡ some begin
    → (begin + size ≤ 2 ^ 63)
      × Apart
          (record {
            start = begin;
            capacity = size;
            used = header_size;
            kind = kind;
            can_release_memory = false;
          })
          chain

Apart-append :
    (a b : Arena) (chain : List Arena) → Apart a chain → Disjoint a b → Apart a (chain ++ (b ∷ []))
Apart-append a b [] d e = (e, tt)
Apart-append a b (c ∷ rest) d e = (d.0, Apart-append a b rest d.1 e)

IsChain-append :
    (chain : List Arena) (b : Arena)
    → IsChain chain
    → IsArena b
    → Apart b chain
    → IsChain (chain ++ (b ∷ []))
IsChain-append [] b v w d = (w, tt, tt)
IsChain-append (a ∷ rest) b v w d =
    (v.0, Apart-append a b rest v.1 (omega (arith, d.0)), IsChain-append rest b v.2 w d.1)

ChainTaken-append :
    (chain : List Arena) (b : Arena) (x : ℕ)
    → ChainTaken chain x ⊎ Taken b x
    → ChainTaken (chain ++ (b ∷ [])) x
ChainTaken-append [] b x (inl t) = absurd t
ChainTaken-append [] b x (inr t) = inl t
ChainTaken-append (a ∷ rest) b x (inl (inl t)) = inl t
ChainTaken-append (a ∷ rest) b x (inl (inr t)) = inr (ChainTaken-append rest b x (inl t))
ChainTaken-append (a ∷ rest) b x (inr t) = inr (ChainTaken-append rest b x (inr t))

-- A chain that gains an arena, out of which the request is served.
Served-behind :
    (chain : List Arena) (b : Arena) (p length alignment : ℕ)
    → IsChain chain
    → IsArena b
    → Apart b chain
    → p % alignment ≡ 0
    → b.start + b.used ≤ p
    → p + length ≤ b.start + b.capacity
    → Served chain (chain ++ (record b { used = p + length - b.start } ∷ [])) p length alignment
Served-behind chain b p length alignment v w d aligned behind inside =
    let b' : Arena = record b { used = p + length - b.start } in
    record {
      valid = IsChain-append chain b' v (omega (arith, w)) (Apart-congr b b' chain refl refl d);
      aligned = aligned;
      fresh = λ x lo hi. Apart-not-taken b chain x v d (omega (arith, w));
      held = λ x lo hi. ChainTaken-append chain b' x (inr (omega arith));
      kept = λ x t. ChainTaken-append chain b' x (inl t);
    }

-- A fresh arena, as the system's block at `begin`.
abbrev pub fresh_arena : ℕ → ℕ → Kind → Arena
fresh_arena begin size kind = record {
  start = begin;
  capacity = size;
  used = header_size;
  kind = kind;
  can_release_memory = false;
}

module _ (system : Kind → ℕ → Option ℕ) where
  pub alloc_arena-some :
      (size : ℕ) (kind : Kind) {b : Arena}
      → alloc_arena system size kind ≡ some b
      → (begin : ℕ) × (system kind size ≡ some begin) × (b ≡ fresh_arena begin size kind)
  unfolding alloc_arena
  alloc_arena-some size sys e = ground arith
  alloc_arena-some size shared e = ground arith
  alloc_arena-some size unified e = cc

  Served-fresh :
      (chain : List Arena) (b : Arena) (length alignment : ℕ) {p : ℕ}
      → IsChain chain
      → IsArena b
      → Apart b chain
      → 0 < alignment
      → IsSmall length alignment
      → (alloc_internally b length alignment).1 ≡ some p
      → Served chain (chain ++ ((alloc_internally b length alignment).0 ∷ [])) p length alignment
  Served-fresh chain b length alignment {p} v w d h small e =
      let out = alloc_internally b length alignment in
      let (aligned, behind, inside, result) =
        alloc_internally-some b length alignment w h small (ap (λ r. (out.0, r)) e) in
      rw result (Served-behind chain b p length alignment v w d aligned behind inside)

  alloc_arena_given :
      (size : ℕ) (kind : Kind) {begin : ℕ}
      → kind ≢ unified
      → system kind size ≡ some begin
      → alloc_arena system size kind ≡ some (fresh_arena begin size kind)
  unfolding alloc_arena
  alloc_arena_given size sys k e = ground arith
  alloc_arena_given size shared k e = ground arith
  alloc_arena_given size unified k e = absurd (k refl)

  alloc_more-Served :
      (chain : List Arena) (length alignment : ℕ) {chain' : List Arena} {p : ℕ}
      → GivesFresh system chain
      → IsChain chain
      → 0 < alignment
      → IsSmall length alignment
      → alloc_more system chain length alignment ≡ some (chain', some p)
      → Served chain chain' p length alignment
  unfolding alloc_more
  alloc_more-Served [] length alignment fresh v h small e = cc
  alloc_more-Served (a ∷ rest) length alignment {chain'} {p} fresh v h small e =
      let size = new_capacity (a ∷ rest) length alignment in
      elim (Option-cases (alloc_arena system size a.kind)) [
        | inl failed ↦ absurd (ground arith)
        | inr (b, made) ↦
            let (begin, given, shape) = alloc_arena-some size a.kind made in
            let same : (chain' ≡ (a ∷ rest) ++ ((alloc_internally b length alignment).0 ∷ []))
                × ((alloc_internally b length alignment).1 ≡ some p) =
              ground arith in
            rw same.0 (
              Served-fresh (a ∷ rest) b length alignment v
                (subst IsArena (sym shape) (omega (arith, (fresh a.kind size begin given).0)))
                (subst (λ c. Apart c (a ∷ rest)) (sym shape) (fresh a.kind size begin given).1) h
                small same.1)
      ]

  -- Over a well-formed chain, with a system whose blocks overlap no arena and lie in the lower half
  -- of the addresses, and for a request smaller than that half, every block that `alloc` returns is
  -- aligned, made of addresses that were free, and taken afterwards; all that was taken
  -- stays taken, and the chain stays well formed.
  pub alloc-Served :
      (chain : List Arena) (length alignment : ℕ) {chain' : List Arena} {p : ℕ}
      → GivesFresh system chain
      → IsChain chain
      → 0 < alignment
      → IsSmall length alignment
      → alloc system chain length alignment ≡ some (chain', some p)
      → Served chain chain' p length alignment
  unfolding alloc
  alloc-Served chain length alignment {chain'} {p} fresh v h small e =
      elim (Bool-cases (length == 0)) [
        | inl zero ↦ absurd (ground arith)
        | inr positive ↦ elim (Option-cases (alloc_in chain length alignment)) [
          | inl full ↦ alloc_more-Served chain length alignment fresh v h small (ground arith)
          | inr ((grown, q), found) ↦
              let same : (chain' ≡ grown) × (p ≡ q) = ground arith in
              rw (same.0, same.1) (alloc_in-Served chain length alignment v h small found).0
        ]
      ]

  -- A positive request over a chain that was started is served whenever the system gives a block of
  -- the size that is asked of it, in the lower half of the addresses, and the request is smaller
  -- than that half: that size has room for the header, the padding and the request.
  pub alloc_total :
      (a : Arena) (rest : List Arena) (length alignment begin : ℕ)
      → 0 < length
      → 0 < alignment
      → IsSmall length alignment
      → a.kind ≢ unified
      → system a.kind (new_capacity (a ∷ rest) length alignment) ≡ some begin
      → begin + new_capacity (a ∷ rest) length alignment ≤ 2 ^ 63
      → (chain' : List Arena) × (p : ℕ) × (alloc system (a ∷ rest) length alignment
          ≡ some (chain', some p))
  unfolding alloc alloc_more
  alloc_total a rest length alignment begin n h small k given low =
      let chain = a ∷ rest in
      let size = new_capacity chain length alignment in
      let positive : (length == 0) ≡ false = ground arith in
      elim (Option-cases (alloc_in chain length alignment)) [
        | inr ((grown, p), found) ↦ (grown, p, rw (positive, found) refl)
        | inl full ↦
            let made = alloc_arena_given size a.kind k given in
            let (b', p, served) =
              alloc_internally-fits (fresh_arena begin size a.kind) length alignment h
                (record { header = omega arith; fits = omega arith; low = low }) (omega arith) in
            (chain ++ (b' ∷ []), p, rw (positive, full) (rw (made, alloc_more) (rw served refl)))
      ]
