-- ===== src/Examples/Arrays.antt =====
-- The theorems about growing arrays, at arrays of numbers in an arena that gives zeroes.
use ukv.Prelude.{
  ℕ, ◌≡◌, refl, Option, some, List, [], ◌∷◌, ◌++◌, length, replicate, length-replicate, take, drop,
  arith, subst,
}
use ukv.Ranges.{memcpy, memmove}
use ukv.LinkedArray.{Array, contents, erase, more_slots, place, insert}
use ukv.LinkedArray.Contents.{IsArray, GivesSlots, insert_lem, erase_lem}

abbrev zeroes : ℕ → Option (List ℕ)
zeroes n = some (replicate n 0)

zeroes-GivesSlots : GivesSlots zeroes
zeroes-GivesSlots n added e =
    subst (λ (xs : List ℕ). length xs ≡ n) (ground arith) (length-replicate n 0)

abbrev array : Array ℕ
array = record { slots = 5 ∷ 6 ∷ 7 ∷ []; size = 3; cap = 3 }

array-IsArray : IsArray array
array-IsArray = record { slots = refl; bounded = omega arith; word = omega arith }

abbrev longer : Array ℕ
longer = record { slots = 5 ∷ 6 ∷ 7 ∷ 8 ∷ 0 ∷ 0 ∷ 0 ∷ 0 ∷ []; size = 4; cap = 8 }

abbrev longest : Array ℕ
longest = record { slots = 5 ∷ 8 ∷ 9 ∷ 6 ∷ 7 ∷ []; size = 5; cap = 5 }

insert_lem_example :
    IsArray longest
    × (contents longest ≡ take 1 (contents array) ++ ((8 ∷ 9 ∷ []) ++ drop 1 (contents array)))
unfolding insert more_slots place memcpy memmove
insert_lem_example =
    insert_lem zeroes array 1 (8 ∷ 9 ∷ []) longest zeroes-GivesSlots array-IsArray (omega arith)
      refl

erase_lem_example :
    (a' : Array ℕ) × (erase array 1 1 ≡ some a')
    × IsArray a'
    × (contents a' ≡ take 1 (contents array) ++ drop 2 (contents array))
erase_lem_example = erase_lem array 1 1 array-IsArray (omega arith)
