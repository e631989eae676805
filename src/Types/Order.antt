-- ===== src/Types/Order.antt =====
-- The strict orders of `collection_key_t` and `neighborship_t`, behind one interface that the
-- algorithms of `Ranges` take.
use ukv.Prelude.{◌≡◌, ◌↔◌, Bool, true, false, arith}
use ukv.Types.{CollectionKey, key_eq, key_lt, Neighborship, ship_eq, ship_lt}

pub record StrictOrder {ℓ} (A : Type ℓ) : Type ℓ where
  pub less : A → A → Bool
  pub same : A → A → Bool
  pub same_iff : (a b : A) → (same a b ≡ true) ↔ (a ≡ b)
  pub irrefl : (a : A) → less a a ≡ false
  pub trans : (a b c : A) → less a b ≡ true → less b c ≡ true → less a c ≡ true
  pub connex : (a b : A) → less a b ≡ false → less b a ≡ false → a ≡ b

pub key_same_iff : (a b : CollectionKey) → (key_eq a b ≡ true) ↔ (a ≡ b)
unfolding key_eq
key_same_iff a b = ground arith

pub ship_same_iff : (a b : Neighborship) → (ship_eq a b ≡ true) ↔ (a ≡ b)
unfolding ship_eq
ship_same_iff a b = ground arith

pub key_irrefl : (a : CollectionKey) → key_lt a a ≡ false
unfolding key_lt
key_irrefl a = ground arith

pub ship_irrefl : (a : Neighborship) → ship_lt a a ≡ false
unfolding ship_lt
ship_irrefl a = ground arith

pub key_trans : (a b c : CollectionKey) → key_lt a b ≡ true → key_lt b c ≡ true → key_lt a c ≡ true
unfolding key_lt
key_trans a b c p q = ground arith

pub ship_trans :
    (a b c : Neighborship) → ship_lt a b ≡ true → ship_lt b c ≡ true → ship_lt a c ≡ true
unfolding ship_lt
ship_trans a b c p q = ground arith

pub key_connex : (a b : CollectionKey) → key_lt a b ≡ false → key_lt b a ≡ false → a ≡ b
unfolding key_lt
key_connex a b p q = ground arith

pub ship_connex : (a b : Neighborship) → ship_lt a b ≡ false → ship_lt b a ≡ false → a ≡ b
unfolding ship_lt
ship_connex a b p q = ground arith

instance abbrev pub key_order : StrictOrder CollectionKey
key_order = record {
  less = key_lt;
  same = key_eq;
  same_iff = key_same_iff;
  irrefl = key_irrefl;
  trans = key_trans;
  connex = key_connex;
}

instance abbrev pub ship_order : StrictOrder Neighborship
ship_order = record {
  less = ship_lt;
  same = ship_eq;
  same_iff = ship_same_iff;
  irrefl = ship_irrefl;
  trans = ship_trans;
  connex = ship_connex;
}
