-- ===== src/Arguments.antt =====
-- include/ukv/cpp/ranges_args.hpp: the arguments of a batch, and their validation.
-- A strided iterator is the function that its `operator[]` computes, and `none` if it is null.
use ukv.Prelude.{
  ℕ, zero, suc, ◌+◌, ◌-◌, ◌^◌, Bool, true, false, not, ◌&&◌, ◌||◌, Option, none, some, List, [],
  ◌∷◌, ◌%◌, length, take, drop, bit_and, bit_or, ◌==◌, if◌then◌else◌,
}
use ukv.Types.{length_missing, CollectionKey, collection_main, key_min}

pub data Error : Type 0 where
  uninitialized_state args_wrong args_combo faced_error missing_feature : Error

abbrev pub Strided : Type 0 → Type 0
Strided A = Option (ℕ → A)

abbrev pub at_or {ℓ} : {A : Type ℓ} → Option (ℕ → A) → ℕ → A → A
at_or none i otherwise = otherwise
at_or (some f) i otherwise = f i

pub record PlacesArg : Type 0 where
  pub collections_begin : Strided ℕ
  pub keys_begin : Strided ℕ
  pub count : ℕ

unfoldable pub place_at : PlacesArg → ℕ → CollectionKey
place_at places i = record {
  collection = at_or places.collections_begin i collection_main;
  key = at_or places.keys_begin i key_min;
}

-- The pointer at each index is the memory that it points to, up to where that is readable.
pub record ContentsArg : Type 0 where
  pub presences_begin : Strided Bool
  pub offsets_begin : Strided ℕ
  pub lengths_begin : Strided ℕ
  pub contents_begin : Strided (Option (List ℕ))
  pub separator : ℕ

-- The bytes before the separator.
unfoldable pub until : ℕ → List ℕ → List ℕ
until separator [] = []
until separator (b ∷ bytes) = if b == separator then [] else b ∷ until separator bytes

-- The 32-bit length of a content, in the memory behind its offset. A text that ends at the
-- separator is taken to be shorter than 2^32 bytes.
unfoldable pub length_at : ContentsArg → ℕ → List ℕ → ℕ
unfolding until
length_at contents i memory = elim contents.lengths_begin [
  | some lengths ↦ lengths i
  | none ↦ elim contents.offsets_begin [
    | some offsets ↦ (offsets (i + 1) + 2 ^ 32 - offsets i) % 2 ^ 32
    | none ↦ length (until contents.separator memory)
  ]
]

-- The `value_view_t` of a length: the largest length is that of a missing value.
unfoldable pub viewed : ℕ → List ℕ → Option (List ℕ)
viewed len memory = if len == length_missing then none else some (take len memory)

-- `contents_arg_t::operator[]`: `none` is a missing value.
unfoldable pub content_at : ContentsArg → ℕ → Option (List ℕ)
unfolding length_at viewed
content_at contents i = elim (at_or contents.contents_begin i none) [
  | none ↦ none
  | some begin ↦
      let memory = drop (at_or contents.offsets_begin i 0) begin in
      if at_or contents.presences_begin i true
      then viewed (length_at contents i memory) memory
      else none
]

pub record ScansArg : Type 0 where
  pub collections : Strided ℕ
  pub start_keys : Strided ℕ
  pub limits : Strided ℕ
  pub count : ℕ

unfoldable pub scan_at : ScansArg → ℕ → CollectionKey × ℕ
scan_at scans i = (
  record {
    collection = at_or scans.collections i collection_main;
    key = at_or scans.start_keys i key_min;
  },
  at_or scans.limits i 0,
)

-- The bits of `ukv_options_t`.
abbrev pub option_write_flush : ℕ
option_write_flush = 2

abbrev pub option_transaction_dont_watch : ℕ
option_transaction_dont_watch = 4

abbrev pub option_dont_discard_memory : ℕ
option_dont_discard_memory = 16

abbrev pub option_read_shared_memory : ℕ
option_read_shared_memory = 32

abbrev pub option_scan_bulk : ℕ
option_scan_bulk = 0

unfoldable pub enum_is_subset : ℕ → ℕ → Bool
enum_is_subset value allowed = bit_and value (2 ^ 32 - 1 - allowed) == 0

abbrev pub is_present {ℓ} : {A : Type ℓ} → Option A → Bool
is_present none = false
is_present (some a) = true

-- The engine supports named collections and transactions, so that the last two tests of each of
-- these pass.
unfoldable pub validate_write : PlacesArg → ContentsArg → ℕ → Option Error
unfolding enum_is_subset
validate_write places contents options =
    if not (
      enum_is_subset options (
        bit_or option_transaction_dont_watch
          (bit_or option_dont_discard_memory option_write_flush)))
    then some args_wrong
    else if not (is_present places.keys_begin)
    then some args_wrong
    else if not (is_present contents.contents_begin)
        && (is_present contents.lengths_begin || is_present contents.offsets_begin)
    then some args_wrong
    else none

unfoldable pub validate_read : PlacesArg → ℕ → Option Error
unfolding enum_is_subset
validate_read places options =
    if not (
      enum_is_subset options (
        bit_or option_transaction_dont_watch
          (bit_or option_dont_discard_memory option_read_shared_memory)))
    then some args_wrong
    else if not (is_present places.keys_begin)
    then some args_wrong
    else none

unfoldable pub validate_scan : ScansArg → ℕ → Option Error
unfolding enum_is_subset
validate_scan scans options =
    if not (
      enum_is_subset options (
        bit_or option_transaction_dont_watch
          (bit_or option_dont_discard_memory (bit_or option_read_shared_memory option_scan_bulk))))
    then some args_wrong
    else if not (is_present scans.limits)
    then some args_wrong
    else none

-- The elements that a batch of `count` tasks has from an index on.
unfoldable pub tasks_from {ℓ} : {A : Type ℓ} → (ℕ → A) → ℕ → ℕ → List A
tasks_from f i zero = []
tasks_from f i (suc count) = f i ∷ tasks_from f (i + 1) count
