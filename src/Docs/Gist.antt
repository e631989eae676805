-- ===== src/Docs/Gist.antt =====
-- src/modality_docs.cpp: `gist_recursively` and `ukv_docs_gist`, the paths of all leaves of documents.
-- A path stands without its terminator. Documents are parsed by a parameter, and memory is there.
pub mod Order
pub mod Leaves
pub mod Exported
pub mod Listed
use ukv.Prelude.{
  ℕ, zero, suc, ◌+◌, ◌-◌, Bool, true, false, Option, none, some, List, [], ◌∷◌, ◌++◌, length, leb,
  if◌then◌else◌,
}
use ukv.Ranges.{lower_bound}
use ukv.Ranges.Inserted.{insert_at, is_at}
use ukv.Arguments.{until}
use ukv.Docs.{
  Bytes, Json, missing, null_value, bool_value, uint, sint, real, str, arr, obj, Items, no_items,
  item, Members, no_members, member,
}
use ukv.Docs.Numbers.{print_number}
use ukv.Docs.Gist.Order.{bytes_lt, bytes_order}

-- `field_path_len_limit_k`
abbrev pub path_limit : ℕ
path_limit = 512

-- The paths that were found: sorted, and in the order of the export.
pub record Gist : Type 0 where
  pub sorted_paths : List Bytes
  pub exported_paths : List Bytes

-- A leaf: its path is exported unless it already is.
unfoldable pub export_path : Bytes → Gist → Gist
export_path path gist =
    let idx = lower_bound bytes_lt gist.sorted_paths path in
    if is_at gist.sorted_paths idx path then gist else record {
      sorted_paths = insert_at gist.sorted_paths idx path;
      exported_paths = gist.exported_paths ++ (path ∷ []);
    }

-- The path of a member or of an item, where its text fits the buffer behind the path and a slash.
unfoldable pub member_path : Bytes → Bytes → Option Bytes
unfolding until
member_path path key =
    if leb path_limit (length path + 1 + length key + 1)
    then none
    else some (path ++ (47 ∷ until 0 key))

unfoldable pub item_path : Bytes → ℕ → Option Bytes
item_path path idx = elim (print_number (path_limit - (length path + 1)) idx) [
  | none ↦ none
  | some text ↦ some (path ++ (47 ∷ text))
]

-- `none` is the error of a path that is too long.
unfoldable mutual
  pub gist_recursively : Json → Bytes → Gist → Option Gist
  gist_recursively (obj members) path gist = gist_members members path gist
  gist_recursively (arr items) path gist = gist_items items 0 path gist
  gist_recursively missing path gist = some (export_path path gist)
  gist_recursively null_value path gist = some (export_path path gist)
  gist_recursively (bool_value b) path gist = some (export_path path gist)
  gist_recursively (uint n) path gist = some (export_path path gist)
  gist_recursively (sint n) path gist = some (export_path path gist)
  gist_recursively (real x) path gist = some (export_path path gist)
  gist_recursively (str text) path gist = some (export_path path gist)

  pub gist_members : Members → Bytes → Gist → Option Gist
  gist_members no_members path gist = some gist
  gist_members (member key val rest) path gist = elim (member_path path key) [
    | none ↦ none
    | some nested ↦ elim (gist_recursively val nested gist) [
      | none ↦ none
      | some gist' ↦ gist_members rest path gist'
    ]
  ]

  pub gist_items : Items → ℕ → Bytes → Gist → Option Gist
  gist_items no_items idx path gist = some gist
  gist_items (item val rest) idx path gist = elim (item_path path idx) [
    | none ↦ none
    | some nested ↦ elim (gist_recursively val nested gist) [
      | none ↦ none
      | some gist' ↦ gist_items rest (idx + 1) path gist'
    ]
  ]

module _ (parse : Bytes → Option Json) where
  -- The documents that were read, of which the missing and empty ones are skipped; the path is empty
  -- again behind every document.
  unfoldable pub docs_gist : List Bytes → Gist → Option Gist
  docs_gist [] gist = some gist
  docs_gist ([] ∷ docs) gist = docs_gist docs gist
  docs_gist ((b ∷ doc) ∷ docs) gist = elim (parse (b ∷ doc)) [
    | none ↦ none
    | some root ↦ elim (gist_recursively root [] gist) [
      | none ↦ none
      | some gist' ↦ docs_gist docs gist'
    ]
  ]
