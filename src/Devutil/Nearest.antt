-- ===== src/Devutil/Nearest.antt =====
-- pkg/devutil/projectdir.go: which directory is found.
use my_operator.Base.{
  ok, Bool, true, false, Option, none, some, [], ◌∷◌, ◌++◌, ◌≡◌, refl, sym, ap, ◌∙◌, ◌⊎◌, inl, inr,
  Text, codes, Bool-cases, Option-cases,
}
use mathlib.Core.Path.{subst}
use my_operator.Devutil.{
  Dir, path_of, has, find_upwards, or_go_mod, or_git, legacy, get_project_dir,
}

module _ (exists : Text → Bool) where
  -- No directory from `below ++ dir` up to the one under `dir` holds the marker.
  abbrev pub LacksBelow : Text → Dir → Dir → Type 0
  LacksBelow marker [] dir = Unit
  LacksBelow marker (name ∷ below) dir =
      (has exists marker (name ∷ (below ++ dir)) ≡ false) × LacksBelow marker below dir

  abbrev pub Found : Text → Dir → Option Dir → Type 0
  Found marker wd (some dir) =
      (below : Dir) × (wd ≡ below ++ dir)
      × (has exists marker dir ≡ true)
      × LacksBelow marker below dir
  Found marker wd none = LacksBelow marker wd [] × (has exists marker [] ≡ false)

  append_nil : (dir : Dir) → dir ++ [] ≡ dir
  append_nil [] = refl
  append_nil (name ∷ dir) = ap (◌∷◌ name) (append_nil dir)

  Found-cons :
      (marker name : Text) (dir : Dir) (r : Option Dir)
      → has exists marker (name ∷ dir) ≡ false
      → Found marker dir r
      → Found marker (name ∷ dir) r
  Found-cons marker name dir (some d) h (below, e, here, lacks) = (
    name ∷ below,
    ap (◌∷◌ name) e,
    here,
    (ap (λ x. has exists marker (name ∷ x)) (sym e) ∙ h, lacks),
  )
  Found-cons marker name dir none h (lacks, root) =
      ((ap (λ x. has exists marker (name ∷ x)) (append_nil dir) ∙ h, lacks), root)

  -- `findUpwards` ends at the root, and yields the nearest directory, upwards from the start, that
  -- holds the marker, or nothing if none does.
  pub find_upwards-Found :
      (wd : Dir) (marker : Text) → Found marker wd (find_upwards exists wd marker)
  unfolding find_upwards
  find_upwards-Found [] marker = elim (Bool-cases (has exists marker [])) [
    | inl e ↦ rw e ([], refl, e, tt)
    | inr e ↦ rw e (tt, e)
  ]
  find_upwards-Found (name ∷ dir) marker = elim (Bool-cases (has exists marker (name ∷ dir))) [
    | inl e ↦ rw e ([], refl, e, tt)
    | inr e ↦ rw e (
        Found-cons marker name dir (find_upwards exists dir marker) e
          (find_upwards-Found dir marker))
  ]

  -- Where `os.Getwd` yields a directory, `GetProjectDir` yields the nearest one upwards from it that holds a
  -- go.mod; if none does, the nearest that holds a .git, also where that is nearer; and if none does
  -- either, it falls back to the end of the working directory's path.
  pub get_project_dir-Found :
      (wd : Dir)
      → ((dir : Dir) × Found (codes "go.mod") wd (some dir)
          × (get_project_dir exists (ok wd) ≡ (path_of dir, none)))
        ⊎ (Found (codes "go.mod") wd none
            × (((dir : Dir) × Found (codes ".git") wd (some dir)
                  × (get_project_dir exists (ok wd) ≡ (path_of dir, none)))
                ⊎ (Found (codes ".git") wd none
                    × (get_project_dir exists (ok wd) ≡ legacy exists (path_of wd)))))
  unfolding get_project_dir or_go_mod or_git
  get_project_dir-Found wd = elim (Option-cases (find_upwards exists wd (codes "go.mod"))) [
    | inr (dir, e) ↦ inl (dir, found (codes "go.mod") e, rw e)
    | inl e ↦ inr (
      found (codes "go.mod") e,
      elim (Option-cases (find_upwards exists wd (codes ".git"))) [
        | inr (dir, g) ↦ inl (dir, found (codes ".git") g, rw (e, g))
        | inl g ↦ inr (found (codes ".git") g, rw (e, g))
      ],
    )
  ]
    where
      found :
          (marker : Text) {r : Option Dir} → find_upwards exists wd marker ≡ r → Found marker wd r
      found marker e = subst (Found marker wd) e (find_upwards-Found wd marker)
