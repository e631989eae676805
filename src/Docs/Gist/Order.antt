-- ===== src/Docs/Gist/Order.antt =====
-- The order of paths: `std::string_view` compares bytes, and a prefix comes first.
use ukv.Prelude.{◌≡◌, ◌↔◌, refl, Bool, true, false, ◌&&◌, ◌||◌, [], ◌∷◌, arith, ltb, ◌==◌}
use ukv.Types.Order.{StrictOrder}
use ukv.Docs.{Bytes}
use ukv.Docs.Numbers.{bytes_equal}

unfoldable pub bytes_lt : Bytes → Bytes → Bool
bytes_lt [] [] = false
bytes_lt [] (y ∷ ys) = true
bytes_lt (x ∷ xs) [] = false
bytes_lt (x ∷ xs) (y ∷ ys) = ltb x y || (x == y && bytes_lt xs ys)

pub bytes_same_iff : (a b : Bytes) → (bytes_equal a b ≡ true) ↔ (a ≡ b)
unfolding bytes_equal
bytes_same_iff [] [] = (λ h. refl, λ h. refl)
bytes_same_iff [] (y ∷ ys) = (λ h. cc, λ h. cc)
bytes_same_iff (x ∷ xs) [] = (λ h. cc, λ h. cc)
bytes_same_iff (x ∷ xs) (y ∷ ys) = let (to, from) = bytes_same_iff xs ys in ground arith

pub bytes_irrefl : (a : Bytes) → bytes_lt a a ≡ false
unfolding bytes_lt
bytes_irrefl [] = refl
bytes_irrefl (x ∷ xs) = ground (arith, bytes_irrefl xs)

pub bytes_trans : (a b c : Bytes) → bytes_lt a b ≡ true → bytes_lt b c ≡ true → bytes_lt a c ≡ true
unfolding bytes_lt
bytes_trans [] [] c p q = cc
bytes_trans [] (y ∷ ys) [] p q = cc
bytes_trans [] (y ∷ ys) (z ∷ zs) p q = refl
bytes_trans (x ∷ xs) [] c p q = cc
bytes_trans (x ∷ xs) (y ∷ ys) [] p q = cc
bytes_trans (x ∷ xs) (y ∷ ys) (z ∷ zs) p q = ground (arith, bytes_trans xs ys zs)

pub bytes_connex : (a b : Bytes) → bytes_lt a b ≡ false → bytes_lt b a ≡ false → a ≡ b
unfolding bytes_lt
bytes_connex [] [] p q = refl
bytes_connex [] (y ∷ ys) p q = cc
bytes_connex (x ∷ xs) [] p q = cc
bytes_connex (x ∷ xs) (y ∷ ys) p q = ground (arith, bytes_connex xs ys)

instance abbrev pub bytes_order : StrictOrder Bytes
bytes_order = record {
  less = bytes_lt;
  same = bytes_equal;
  same_iff = bytes_same_iff;
  irrefl = bytes_irrefl;
  trans = bytes_trans;
  connex = bytes_connex;
}
