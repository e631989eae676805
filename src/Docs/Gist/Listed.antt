-- ===== src/Docs/Gist/Listed.antt =====
-- What `gist_recursively` and `ukv_docs_gist` find.
use ukv.Prelude.{
  ℕ, ◌+◌, ◌-◌, ◌≡◌, refl, sym, ap, subst, ◌∙◌, Bool, true, false, ◌&&◌, Option, none, some, List,
  [], ◌∷◌, ◌++◌, arith, length, leb, ltb,
}
use ukv.Ranges.{contains}
use ukv.Ranges.Inserted.{or_false}
use ukv.Docs.{
  Bytes, Json, missing, null_value, bool_value, uint, sint, real, str, arr, obj, Items, no_items,
  item, Members, no_members, member,
}
use ukv.Docs.Numbers.{to_chars, print_number}
use ukv.Docs.Numbers.RoundTrip.{print_number_lem}
use ukv.Docs.Gist.{
  Gist, member_path, item_path, gist_recursively, gist_members, gist_items, docs_gist, path_limit,
}
use ukv.Docs.Gist.Order.{bytes_order}
use ukv.Docs.Gist.Leaves.{
  in_member, in_item, leaf_paths, member_paths, item_paths, fits, members_fit, items_fit,
}
use ukv.Docs.Gist.Exported.{IsGist, IsListed, leaf-IsListed, nothing-IsListed, then-IsListed}

and_parts : (a b c : Bool) → (a && (b && c)) ≡ true → (a ≡ true) × ((b ≡ true) × (c ≡ true))
and_parts a b c h = ground arith

member_path-fits :
    (path key : Bytes)
    → ltb (length path + 1 + length key) 511 ≡ true
    → member_path path key ≡ some (in_member path key)
unfolding member_path
member_path-fits path key h =
    let long : leb path_limit (length path + 1 + length key + 1) ≡ false = ground arith in
    rw long refl

item_path-fits :
    (path : Bytes) (idx : ℕ)
    → ltb (length path + 1 + length (to_chars idx)) 512 ≡ true
    → item_path path idx ≡ some (in_item path idx)
unfolding item_path
item_path-fits path idx h =
    let room : leb (path_limit - (length path + 1)) (length (to_chars idx)) ≡ false =
      ground arith in
    let printed : print_number (path_limit - (length path + 1)) idx ≡ some (to_chars idx) =
      print_number_lem (path_limit - (length path + 1)) idx ∙ rw room refl in
    rw (printed, item_path) refl

mutual
  unfolding leaf_paths fits gist_recursively

  gist-IsListed :
      (json : Json) (path : Bytes) (gist : Gist)
      → fits json path ≡ true
      → IsGist gist
      → IsListed gist (leaf_paths json path) (gist_recursively json path gist)
  gist-IsListed (obj members) path gist h g = members-IsListed members path gist h g
  gist-IsListed (arr items) path gist h g = items-IsListed items 0 path gist h g
  gist-IsListed missing path gist h g = leaf-IsListed path gist g
  gist-IsListed null_value path gist h g = leaf-IsListed path gist g
  gist-IsListed (bool_value b) path gist h g = leaf-IsListed path gist g
  gist-IsListed (uint n) path gist h g = leaf-IsListed path gist g
  gist-IsListed (sint n) path gist h g = leaf-IsListed path gist g
  gist-IsListed (real x) path gist h g = leaf-IsListed path gist g
  gist-IsListed (str text) path gist h g = leaf-IsListed path gist g

  members-IsListed :
      (members : Members) (path : Bytes) (gist : Gist)
      → members_fit members path ≡ true
      → IsGist gist
      → IsListed gist (member_paths members path) (gist_members members path gist)
  members-IsListed no_members path gist h g = nothing-IsListed gist g
  members-IsListed (member key val rest) path gist h g =
      let (short, (inner, outer)) = and_parts _ _ _ h in
      let first = gist-IsListed val (in_member path key) gist inner g in
      let later = members-IsListed rest path first.after outer first.is_gist in
      let all = then-IsListed gist _ _ _ _ first later in
      let opened : gist_members (member key val rest) path gist
          ≡ gist_members rest path first.after =
        ap
          (λ o. elim o [
            | none ↦ none
            | some nested ↦ elim (gist_recursively val nested gist) [
              | none ↦ none
              | some gist' ↦ gist_members rest path gist'
            ]
          ])
          (member_path-fits path key short)
        ∙ ap (λ o. elim o [ none ↦ none | some gist' ↦ gist_members rest path gist' ]) first.ran in
      subst (λ r. IsListed gist (member_paths (member key val rest) path) r) (sym opened) all

  items-IsListed :
      (items : Items) (idx : ℕ) (path : Bytes) (gist : Gist)
      → items_fit items idx path ≡ true
      → IsGist gist
      → IsListed gist (item_paths items idx path) (gist_items items idx path gist)
  items-IsListed no_items idx path gist h g = nothing-IsListed gist g
  items-IsListed (item val rest) idx path gist h g =
      let (short, (inner, outer)) = and_parts _ _ _ h in
      let first = gist-IsListed val (in_item path idx) gist inner g in
      let later = items-IsListed rest (idx + 1) path first.after outer first.is_gist in
      let all = then-IsListed gist _ _ _ _ first later in
      let opened : gist_items (item val rest) idx path gist
          ≡ gist_items rest (idx + 1) path first.after =
        ap
          (λ o. elim o [
            | none ↦ none
            | some nested ↦ elim (gist_recursively val nested gist) [
              | none ↦ none
              | some gist' ↦ gist_items rest (idx + 1) path gist'
            ]
          ])
          (item_path-fits path idx short)
        ∙ ap (λ o. elim o [ none ↦ none | some gist' ↦ gist_items rest (idx + 1) path gist' ])
            first.ran in
      subst (λ r. IsListed gist (item_paths (item val rest) idx path) r) (sym opened) all

abbrev pub no_paths : Gist
no_paths = record { sorted_paths = []; exported_paths = [] }

module _ (parse : Bytes → Option Json) where
  -- Every document that is there can be parsed, and its paths fit.
  abbrev pub AllFit : List Bytes → Type 0
  AllFit [] = Unit {0}
  AllFit ([] ∷ docs) = AllFit docs
  AllFit ((b ∷ doc) ∷ docs) =
      ((root : Json) × (parse (b ∷ doc) ≡ some root) × (fits root [] ≡ true)) × AllFit docs

  abbrev leaves_of : Option Json → List Bytes
  leaves_of none = []
  leaves_of (some root) = leaf_paths root []

  abbrev pub all_leaves : List Bytes → List Bytes
  all_leaves [] = []
  all_leaves ([] ∷ docs) = all_leaves docs
  all_leaves ((b ∷ doc) ∷ docs) = leaves_of (parse (b ∷ doc)) ++ all_leaves docs

  docs_gist-IsListed :
      (docs : List Bytes) (gist : Gist)
      → AllFit docs
      → IsGist gist
      → IsListed gist (all_leaves docs) (docs_gist parse docs gist)
  unfolding docs_gist
  docs_gist-IsListed [] gist h g = nothing-IsListed gist g
  docs_gist-IsListed ([] ∷ docs) gist h g = docs_gist-IsListed docs gist h g
  docs_gist-IsListed ((b ∷ doc) ∷ docs) gist h g =
      let ((root, e, room), others) = h in
      let first = gist-IsListed root [] gist room g in
      let later = docs_gist-IsListed docs first.after others first.is_gist in
      let opened : docs_gist parse ((b ∷ doc) ∷ docs) gist ≡ docs_gist parse docs first.after =
        ap
          (λ o. elim o [
            | none ↦ none
            | some r ↦ elim (gist_recursively r [] gist) [
              | none ↦ none
              | some gist' ↦ docs_gist parse docs gist'
            ]
          ])
          e
        ∙ ap (λ o. elim o [ none ↦ none | some gist' ↦ docs_gist parse docs gist' ]) first.ran in
      let leaves = ap (λ o. leaves_of o ++ all_leaves docs) e in
      subst (λ r. IsListed gist (all_leaves ((b ∷ doc) ∷ docs)) r) (sym opened)
        (subst (λ l. IsListed gist l (docs_gist parse docs first.after)) (sym leaves)
          (then-IsListed gist _ _ _ _ first later))

  -- If the documents that are there can all be parsed, and no path is too long for the buffer, the
  -- gist ends without an error: the paths that it exports are exactly those of the documents'
  -- leaves, each of them once, and the list that it searches has the same paths in ascending order.
  pub docs_gist_lem :
      (docs : List Bytes)
      → AllFit docs
      → (gist : Gist) × (docs_gist parse docs no_paths ≡ some gist)
        × IsGist gist
        × ((w : Bytes) → contains gist.exported_paths w ≡ contains (all_leaves docs) w)
  unfolding contains
  docs_gist_lem docs h =
      let empty : IsGist no_paths = record { ascending = tt; same = λ w. refl; count = refl } in
      let done = docs_gist-IsListed docs no_paths h empty in
      (
        done.after,
        done.ran,
        done.is_gist,
        λ w. done.is_gist.same w ∙ done.listed w ∙ sym (or_false (contains (all_leaves docs) w)),
      )
