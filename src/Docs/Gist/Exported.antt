-- ===== src/Docs/Gist/Exported.antt =====
-- What a list of paths is worth, and the export of one more.
use ukv.Prelude.{
  ℕ, ◌≡◌, refl, sym, ap, ◌∙◌, true, false, ◌||◌, Option, some, List, [], ◌∷◌, ◌++◌, arith, length,
  length-append, Bool-cases, inl, inr, if◌then◌else◌,
}
use ukv.Ranges.{lower_bound, contains}
use ukv.Ranges.Sorted.{IsAscending}
use ukv.Ranges.Inserted.{
  insert_at, is_at, is_at-contains, contains-insert_at, insert_at-IsAscending, length-insert_at,
}
use ukv.Docs.{Bytes}
use ukv.Docs.Numbers.{bytes_equal}
use ukv.Docs.Gist.{Gist, export_path}
use ukv.Docs.Gist.Order.{bytes_lt, bytes_order, bytes_same_iff}

-- The sorted paths ascend, and the exported ones are the same, as many and so each of them once.
pub record IsGist (gist : Gist) : Type 0 where
  pub ascending : IsAscending gist.sorted_paths
  pub same : (w : Bytes) → contains gist.exported_paths w ≡ contains gist.sorted_paths w
  pub count : length gist.exported_paths ≡ length gist.sorted_paths

contains-append :
    (xs ys : List Bytes) (w : Bytes) → contains (xs ++ ys) w ≡ (contains xs w || contains ys w)
unfolding contains
contains-append [] ys w = refl
contains-append (x ∷ xs) ys w = ground (arith, contains-append xs ys w)

-- What is left, behind paths that were exported.
pub record IsListed (gist : Gist) (paths : List Bytes) (result : Option Gist) : Type 0 where
  pub after : Gist
  pub ran : result ≡ some after
  pub is_gist : IsGist after
  pub listed :
      (w : Bytes)
      → contains after.sorted_paths w ≡ (contains paths w || contains gist.sorted_paths w)

module _ (path : Bytes) (gist : Gist) where
  abbrev place : ℕ
  place = lower_bound bytes_lt gist.sorted_paths path

  abbrev with_path : Gist
  with_path = record {
    sorted_paths = insert_at gist.sorted_paths place path;
    exported_paths = gist.exported_paths ++ (path ∷ []);
  }

  export_path-if :
      export_path path gist ≡ (if is_at gist.sorted_paths place path then gist else with_path)
  unfolding export_path
  export_path-if = refl

  export_path-contains :
      IsGist gist
      → export_path path gist ≡ (if contains gist.sorted_paths path then gist else with_path)
  export_path-contains h =
      export_path-if
      ∙ ap (λ b. if b then gist else with_path) (is_at-contains gist.sorted_paths path h.ascending)

  known_again :
      contains gist.sorted_paths path ≡ true
      → (w : Bytes)
      → contains gist.sorted_paths w ≡ (contains (path ∷ []) w || contains gist.sorted_paths w)
  unfolding contains
  known_again e w = elim (Bool-cases (bytes_equal path w)) [
    | inl same ↦
        rw (same, ap (contains gist.sorted_paths) (sym ((bytes_same_iff path w).0 same)) ∙ e) refl
    | inr other ↦ rw other refl
  ]

  with_path-IsGist : IsGist gist → contains gist.sorted_paths path ≡ false → IsGist with_path
  unfolding contains
  with_path-IsGist h e = record {
    ascending = insert_at-IsAscending gist.sorted_paths path h.ascending e;
    same = λ w.
        contains-append gist.exported_paths (path ∷ []) w
        ∙ ground (arith, h.same w, contains-insert_at gist.sorted_paths place path w);
    count = omega (
      arith,
      length-append gist.exported_paths (path ∷ []),
      length-insert_at gist.sorted_paths place path,
      h.count,
    );
  }

  with_path-listed :
      (w : Bytes)
      → contains with_path.sorted_paths w ≡ (contains (path ∷ []) w || contains gist.sorted_paths w)
  unfolding contains
  with_path-listed w = ground (arith, contains-insert_at gist.sorted_paths place path w)

  -- A leaf is listed.
  pub leaf-IsListed : IsGist gist → IsListed gist (path ∷ []) (some (export_path path gist))
  leaf-IsListed h = elim (Bool-cases (contains gist.sorted_paths path)) [
    | inl e ↦ record {
      after = gist;
      ran = ap some (export_path-contains h ∙ ap (λ b. if b then gist else with_path) e);
      is_gist = h;
      listed = known_again e;
    }
    | inr e ↦ record {
      after = with_path;
      ran = ap some (export_path-contains h ∙ ap (λ b. if b then gist else with_path) e);
      is_gist = with_path-IsGist h e;
      listed = with_path-listed;
    }
  ]

pub nothing-IsListed : (gist : Gist) → IsGist gist → IsListed gist [] (some gist)
unfolding contains
nothing-IsListed gist h = record { after = gist; ran = refl; is_gist = h; listed = λ w. refl }

-- One list of paths behind another.
pub then-IsListed :
    (gist : Gist) (xs ys : List Bytes) (first result : Option Gist)
    → (done : IsListed gist xs first) → IsListed done.after ys result
    → IsListed gist (xs ++ ys) result
then-IsListed gist xs ys first result done later = record {
  after = later.after;
  ran = later.ran;
  is_gist = later.is_gist;
  listed = λ w.
      later.listed w
      ∙ ap (λ b. contains ys w || b) (done.listed w)
      ∙ ground (arith, contains-append xs ys w);
}
