-- ===== src/Docs/Gist/Leaves.antt =====
-- The leaves of a document, and the room that their paths need.
use ukv.Prelude.{ℕ, ◌+◌, Bool, true, ◌&&◌, List, [], ◌∷◌, ◌++◌, length, ltb}
use ukv.Arguments.{until}
use ukv.Docs.{
  Bytes, Json, missing, null_value, bool_value, uint, sint, real, str, arr, obj, Items, no_items,
  item, Members, no_members, member,
}
use ukv.Docs.Numbers.{to_chars}

abbrev pub in_member : Bytes → Bytes → Bytes
in_member path key = path ++ (47 ∷ until 0 key)

abbrev pub in_item : Bytes → ℕ → Bytes
in_item path idx = path ++ (47 ∷ to_chars idx)

-- The paths of what is neither an object nor an array, in the order of the document.
unfoldable mutual
  pub leaf_paths : Json → Bytes → List Bytes
  leaf_paths (obj members) path = member_paths members path
  leaf_paths (arr items) path = item_paths items 0 path
  leaf_paths missing path = path ∷ []
  leaf_paths null_value path = path ∷ []
  leaf_paths (bool_value b) path = path ∷ []
  leaf_paths (uint n) path = path ∷ []
  leaf_paths (sint n) path = path ∷ []
  leaf_paths (real x) path = path ∷ []
  leaf_paths (str text) path = path ∷ []

  pub member_paths : Members → Bytes → List Bytes
  member_paths no_members path = []
  member_paths (member key val rest) path =
      leaf_paths val (in_member path key) ++ member_paths rest path

  pub item_paths : Items → ℕ → Bytes → List Bytes
  item_paths no_items idx path = []
  item_paths (item val rest) idx path =
      leaf_paths val (in_item path idx) ++ item_paths rest (idx + 1) path

-- Every path, with the whole key, is below 511 characters in an object and below 512 in an array.
unfoldable mutual
  pub fits : Json → Bytes → Bool
  fits (obj members) path = members_fit members path
  fits (arr items) path = items_fit items 0 path
  fits missing path = true
  fits null_value path = true
  fits (bool_value b) path = true
  fits (uint n) path = true
  fits (sint n) path = true
  fits (real x) path = true
  fits (str text) path = true

  pub members_fit : Members → Bytes → Bool
  members_fit no_members path = true
  members_fit (member key val rest) path =
      ltb (length path + 1 + length key) 511
      && (fits val (in_member path key) && members_fit rest path)

  pub items_fit : Items → ℕ → Bytes → Bool
  items_fit no_items idx path = true
  items_fit (item val rest) idx path =
      ltb (length path + 1 + length (to_chars idx)) 512
      && (fits val (in_item path idx) && items_fit rest (idx + 1) path)
