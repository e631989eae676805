-- ===== src/Paths/Matching/Pages.antt =====
-- The page of paths that the members of buckets give, with its limit and behind the previous page.
use mathlib.Core.Path.{ap₂}
use mathlib.Core.List.{foldl}
use ukv.Prelude.{
  ℕ, zero, suc, ◌≡◌, ◌+◌, ◌-◌, ◌≤◌, ◌<◌, ◌⊎◌, refl, sym, ap, ◌∙◌, Bool, true, false, not, some,
  List, [], ◌∷◌, ◌++◌, append-nil, append_assoc, length, map, take, ltb, leb, if◌then◌else◌, arith,
  inl, inr, Bool-cases,
}
use ukv.Umem.Collections.{name_eq}
use ukv.Paths.Bucket.{Bytes, Member, for_each_in_bucket}
use ukv.FullScan.{visit}
use ukv.FullScan.Results.{visit-go, visit-stop}
use ukv.Paths.Matching.{Scanning, scan_member, scan_in_bucket}

take-nil : (n : ℕ) → take {A = Bytes} n [] ≡ []
take-nil zero = refl
take-nil (suc n) = refl

-- The members of the buckets at keys, in turn.
abbrev pub members_of : (ℕ → Bytes) → List ℕ → List Member
members_of val [] = []
members_of val (k ∷ ks) = for_each_in_bucket (some (val k)) ++ members_of val ks

module _ (predicate : Bytes → Bool) (previous_path : Bytes) where
  -- The paths of members that belong to the page, without its limit.
  abbrev pub listed : Bool → List Member → List Bytes
  listed reached [] = []
  listed reached (m ∷ members) =
      let on = listed true members in
      let rest = listed reached members in
      if not (predicate (m.0))
      then rest
      else if name_eq (m.0) previous_path
      then on
      else if reached
      then m.0 ∷ rest
      else rest

  module _ (limit : ℕ) where
    abbrev pub scan_all : Scanning → List Member → Scanning
    scan_all st members = foldl (scan_member predicate previous_path limit) st members

    -- The tape and the count with so many of the paths as the limit allows.
    abbrev pub page_of : Scanning → List Bytes → List Bytes × ℕ
    page_of st paths = (
      st.paths ++ take (limit - st.paths_count) paths,
      st.paths_count + length (take (limit - st.paths_count) paths),
    )

    abbrev pub page : Scanning → List Member → List Bytes × ℕ
    page st members = page_of st (listed st.has_reached_previous members)

    page_of-nil : (st : Scanning) → page_of st [] ≡ (st.paths, st.paths_count)
    page_of-nil st =
        ap (λ ps. (st.paths ++ ps, st.paths_count + length ps)) (take-nil (limit - st.paths_count))
        ∙ ap₂ (λ ps n. (ps, n)) (append-nil st.paths) (omega arith)

    page_of-full :
        (st : Scanning) (paths : List Bytes)
        → limit ≤ st.paths_count
        → page_of st paths ≡ (st.paths, st.paths_count)
    page_of-full st paths h =
        ap (λ n. (st.paths ++ take n paths, st.paths_count + length (take n paths))) {y = 0}
          (omega arith)
        ∙ ap₂ (λ ps n. (ps, n)) (append-nil st.paths) (omega arith)

    page_of-cons :
        (st : Scanning) (p : Bytes) (paths : List Bytes)
        → st.paths_count < limit
        → page_of
            (record st { paths = st.paths ++ (p ∷ []); paths_count = suc st.paths_count })
            paths
          ≡ page_of st (p ∷ paths)
    page_of-cons st p paths h =
        ap₂ (λ ps n. (ps, n))
          (append_assoc st.paths (p ∷ []) (take (limit - suc st.paths_count) paths)) (omega arith)
        ∙ ap (λ n. (st.paths ++ take n (p ∷ paths), st.paths_count + length (take n (p ∷ paths))))
            {x = suc (limit - suc st.paths_count)} (omega arith)

    -- The listed paths with a member in front, for a member to skip, the previous one, and one to list.
    listed-skip :
        (m : Member) (members : List Member) (reached : Bool)
        → (predicate (m.0) ≡ false) ⊎ ((name_eq (m.0) previous_path ≡ false) × (reached ≡ false))
        → listed reached (m ∷ members) ≡ listed reached members
    listed-skip m members reached h = ground (arith, h)

    listed-take :
        (m : Member) (members : List Member) (reached : Bool)
        → predicate (m.0) ≡ true
        → name_eq (m.0) previous_path ≡ false
        → reached ≡ true
        → listed reached (m ∷ members) ≡ m.0 ∷ listed reached members
    listed-take m members reached p d r = ground arith

    listed-previous :
        (m : Member) (members : List Member) (reached : Bool)
        → predicate (m.0) ≡ true
        → name_eq (m.0) previous_path ≡ true
        → listed reached (m ∷ members) ≡ listed true members
    listed-previous m members reached p d = ground arith

    page-to :
        (m : Member) (members : List Member) (st st' : Scanning) (paths : List Bytes)
        → scan_member predicate previous_path limit st m ≡ st'
        → listed st.has_reached_previous (m ∷ members) ≡ paths
        → page st' members ≡ page_of st paths
        → page (scan_member predicate previous_path limit st m) members ≡ page st (m ∷ members)
    page-to m members st st' paths step shown same =
        ap (λ x. page x members) step ∙ same ∙ ap (page_of st) (sym shown)

    page-step :
        (m : Member) (members : List Member) (st : Scanning)
        → page (scan_member predicate previous_path limit st m) members ≡ page st (m ∷ members)
    unfolding scan_member
    page-step m members st =
        let reached = st.has_reached_previous in
        elim (Bool-cases (predicate (m.0))) [
          | inr other ↦
              page-to m members st st _ (rw (other, scan_member) refl)
                (listed-skip m members reached (inl other)) refl
          | inl matches ↦ elim (Bool-cases (name_eq (m.0) previous_path)) [
            | inl here ↦
                page-to m members st (record st { has_reached_previous = true }) _
                  (rw (matches, here, scan_member) refl)
                  (listed-previous m members reached matches here) refl
            | inr there ↦ elim (Bool-cases reached) [
              | inr before ↦
                  page-to m members st st _ (rw (matches, there, before, scan_member) refl)
                    (listed-skip m members reached (inr (there, before))) refl
              | inl behind ↦ elim (Bool-cases (leb limit st.paths_count)) [
                | inl full ↦
                    page-to m members st st _ (rw (matches, there, behind, full, scan_member) refl)
                      (listed-take m members reached matches there behind)
                      (page_of-full st _ (ground arith) ∙ sym (page_of-full st _ (ground arith)))
                | inr room ↦
                    page-to m members st
                      (record st {
                        paths = st.paths ++ (m.0 ∷ []);
                        paths_count = suc st.paths_count;
                      })
                      _ (rw (matches, there, behind, room, scan_member) refl)
                      (listed-take m members reached matches there behind)
                      (page_of-cons st (m.0) (listed reached members) (ground arith))
              ]
            ]
          ]
        ]

    abbrev pub outcome : Scanning → List Bytes × ℕ
    outcome st = (st.paths, st.paths_count)

    pub scan_all-page :
        (members : List Member) (st : Scanning) → outcome (scan_all st members) ≡ page st members
    scan_all-page [] st = sym (page_of-nil st)
    scan_all-page (m ∷ members) st =
        scan_all-page members (scan_member predicate previous_path limit st m)
        ∙ page-step m members st

    -- Once the limit is reached, further members change neither the tape nor the count.
    scan_all-full :
        (members : List Member) (st : Scanning)
        → limit ≤ st.paths_count
        → outcome (scan_all st members) ≡ outcome st
    scan_all-full members st h = scan_all-page members st ∙ page_of-full st _ h

    foldl-append :
        (xs ys : List Member) (st : Scanning)
        → scan_all st (xs ++ ys) ≡ scan_all (scan_all st xs) ys
    foldl-append [] ys st = refl
    foldl-append (x ∷ xs) ys st =
        foldl-append xs ys (scan_member predicate previous_path limit st x)

    pub visit-scan_all :
        (val : ℕ → Bytes) (ks : List ℕ) (st : Scanning)
        → outcome ((visit (scan_in_bucket predicate previous_path limit) ks (map val ks) st).0)
          ≡ outcome (scan_all st (members_of val ks))
    unfolding scan_in_bucket visit
    visit-scan_all val [] st = refl
    visit-scan_all val (k ∷ ks) st =
        let st' = scan_all st (for_each_in_bucket (some (val k))) in
        let all =
          sym (
            ap outcome (foldl-append (for_each_in_bucket (some (val k))) (members_of val ks) st)) in
        elim (Bool-cases (ltb st'.paths_count limit)) [
          | inl go ↦
              ap (λ (x : Scanning × Bool). outcome (x.0))
                (visit-go (scan_in_bucket predicate previous_path limit) k ks (val k) (map val ks)
                  st go)
              ∙ visit-scan_all val ks st'
              ∙ all
          | inr stop ↦
              ap (λ (x : Scanning × Bool). outcome (x.0))
                (visit-stop (scan_in_bucket predicate previous_path limit) k ks (val k) (map val ks)
                  st stop)
              ∙ sym (scan_all-full (members_of val ks) st' (ground arith))
              ∙ all
        ]
