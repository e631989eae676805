-- ===== src/Paths/Bucket/Removal/Parts.antt =====
-- What `remove_part` does to the memory, in the range and behind it.
use ukv.Prelude.{
  ℕ, zero, suc, ◌≡◌, ◌+◌, ◌-◌, ◌≤◌, refl, sym, ap, ◌∙◌, [], ◌∷◌, ◌++◌, append_assoc, arith, length,
  length-append, length-take, length-drop, take, drop, take-append-drop,
}
use ukv.Ranges.{memcpy, memmove}
use ukv.Ranges.Buffers.{memcpy-append}
use ukv.Paths.Bucket.{Bytes}
use ukv.Paths.Bucket.Layout.{drop_three, drop_four}
use ukv.Paths.Bucket.Removal.{View, remove_part}

-- Bytes that are in three parts of a range, with others before and behind it.
abbrev pub in_parts : (pre a p c post : Bytes) → Bytes
in_parts pre a p c post = pre ++ (a ++ (p ++ (c ++ post)))

abbrev pub part_of : (pre a p : Bytes) → View
part_of pre a p = record { begin = length pre + length a; size = length p }

abbrev pub range_of : (pre inside : Bytes) → View
range_of pre inside = record { begin = length pre; size = length inside }

-- What is moved: the rest of the range, and as much of what is behind it as is in front of the part.
moved : (a c post : Bytes) → Bytes
moved a c post = take (length a + length c) (c ++ post)

moved_memory :
    (pre a p c post : Bytes)
    → memcpy (in_parts pre a p c post) (length pre + length a) (moved a c post)
      ≡ pre ++ (a ++ (moved a c post ++ drop (length (moved a c post)) (p ++ (c ++ post))))
unfolding moved
moved_memory pre a p c post =
    let xs = take (length a + length c) (c ++ post) in
    let all = p ++ (c ++ post) in
    ap (λ m. memcpy m (length pre + length a) xs)
      (sym (append_assoc pre a all)
        ∙ ap (λ r. (pre ++ a) ++ r) (sym (take-append-drop (length xs) all)))
    ∙ memcpy-append (length pre + length a) (pre ++ a) (take (length xs) all) (drop (length xs) all)
        xs (length-append pre a)
        (omega (
          arith,
          length-take (length xs) all,
          length-take (length a + length c) (c ++ post),
          length-append c post,
          length-append p (c ++ post),
        ))
    ∙ append_assoc pre a (xs ++ drop (length xs) all)

remove_part-moved :
    (pre a p c post : Bytes)
    → remove_part (in_parts pre a p c post, range_of pre (a ++ (p ++ c))) (part_of pre a p) ≡ (
      pre ++ (a ++ (moved a c post ++ drop (length (moved a c post)) (p ++ (c ++ post)))),
      range_of pre (a ++ c),
    )
unfolding remove_part memmove moved
remove_part-moved pre a p c post =
    let sizes : length (a ++ (p ++ c)) - length p ≡ length a + length c =
      omega (arith, length-append a (p ++ c), length-append p c) in
    let from : drop (length pre + length a + length p) (in_parts pre a p c post) ≡ c ++ post =
      drop_three (length pre + length a + length p) pre a p (c ++ post) refl in
    rw (sizes, from, moved_memory pre a p c post)
      (ap
        (λ n. (
          pre ++ (a ++ (moved a c post ++ drop (length (moved a c post)) (p ++ (c ++ post)))),
          record { begin = length pre; size = n },
        ))
        (sym (length-append a c)))

take-append_more :
    (k n : ℕ) (xs ys : Bytes) → k ≡ n + length xs → take k (xs ++ ys) ≡ xs ++ take n ys
take-append_more k n [] ys h = ap (λ j. take j ys) (h ∙ omega arith)
take-append_more zero n (x ∷ xs) ys h = absurd (omega arith)
take-append_more (suc k) n (x ∷ xs) ys h =
    ap (λ zs. x ∷ zs) (take-append_more k n xs ys (omega arith))

drop-append_more : (k n : ℕ) (xs ys : Bytes) → k ≡ n + length xs → drop k (xs ++ ys) ≡ drop n ys
drop-append_more k n [] ys h = ap (λ j. drop j ys) (h ∙ omega arith)
drop-append_more zero n (x ∷ xs) ys h = absurd (omega arith)
drop-append_more (suc k) n (x ∷ xs) ys h = drop-append_more k n xs ys (omega arith)

-- The range loses the part and keeps what is before and behind that, whatever lies behind the
-- range; the memory keeps what is before the range, and its length.
pub remove_part_lem :
    (pre a p c post : Bytes)
    → (rest : Bytes) × (remove_part
          (in_parts pre a p c post, range_of pre (a ++ (p ++ c)))
          (part_of pre a p)
        ≡ (pre ++ (a ++ (c ++ rest)), range_of pre (a ++ c)))
      × (length rest ≡ length p + length post)
unfolding moved
remove_part_lem pre a p c post =
    let xs = moved a c post in
    let tail = drop (length xs) (p ++ (c ++ post)) in
    let split : xs ≡ c ++ take (length a) post =
      take-append_more (length a + length c) (length a) c post refl in
    (
      take (length a) post ++ tail,
      remove_part-moved pre a p c post
          ∙ ap (λ ys. (pre ++ (a ++ ys), range_of pre (a ++ c)))
              (ap (λ ys. ys ++ tail) split ∙ append_assoc c (take (length a) post) tail),
      omega (
        arith,
        ap length split,
        length-append c (take (length a) post),
        length-append (take (length a) post) tail,
        length-drop (length xs) (p ++ (c ++ post)),
        length-append p (c ++ post),
        length-append c post,
        length-take (length a) post,
      ),
    )

-- What lies behind the range is not left alone where the range has more bytes before the part
-- than in it: the first bytes there, as many as that is more, are overwritten by later ones.
pub remove_part_overwrites :
    (pre a p c post : Bytes)
    → length p ≤ length a
    → length a ≤ length post
    → drop
        (length pre + length (a ++ (p ++ c)))
        (remove_part (in_parts pre a p c post, range_of pre (a ++ (p ++ c))) (part_of pre a p)).0
      ≡ drop (length p) (take (length a) post) ++ drop (length a - length p) post
unfolding moved
remove_part_overwrites pre a p c post small enough =
    let xs = moved a c post in
    let t = take (length a) post in
    let tail = drop (length xs) (p ++ (c ++ post)) in
    let split : xs ≡ c ++ t = take-append_more (length a + length c) (length a) c post refl in
    let after : xs ++ tail ≡ c ++ (take (length p) t ++ (drop (length p) t ++ tail)) =
      ap (λ ys. ys ++ tail) split
      ∙ append_assoc c t tail
      ∙ ap (λ ys. c ++ (ys ++ tail)) (sym (take-append-drop (length p) t))
      ∙ ap (λ ys. c ++ ys) (append_assoc (take (length p) t) (drop (length p) t) tail) in
    let behind : tail ≡ drop (length a - length p) post =
      ap (drop (length xs)) (sym (append_assoc p c post))
      ∙ drop-append_more (length xs) (length a - length p) (p ++ c) post (
          omega (
            arith,
            ap length split,
            length-append c t,
            length-take (length a) post,
            length-append p c,
          )) in
    ap (λ (r : Bytes × View). drop (length pre + length (a ++ (p ++ c))) r.0)
      (remove_part-moved pre a p c post)
    ∙ ap (λ ys. drop (length pre + length (a ++ (p ++ c))) (pre ++ (a ++ ys))) after
    ∙ drop_four (length pre + length (a ++ (p ++ c))) pre a c (take (length p) t)
        (drop (length p) t ++ tail)
        (omega (
          arith,
          length-append a (p ++ c),
          length-append p c,
          length-take (length p) t,
          length-take (length a) post,
        ))
    ∙ ap (λ ys. drop (length p) t ++ ys) behind
