-- ===== src/Devutil.antt =====
-- pkg/devutil/projectdir.go and anno.go. A directory is absolute and clean, as `os.Getwd` yields it: the list
-- of its names, the deepest first, so that `filepath.Dir` drops the first one, and leaves the root.
pub mod Nearest
pub mod Uncomment
pub mod Template
pub mod Kind
use my_operator.Base.{
  ℕ, ◌-◌, Bool, true, false, Option, none, some, List, [], ◌∷◌, ◌++◌, if◌then◌else◌, Text, codes,
  length, take, Result, ok, err,
}
use my_operator.GoMap.{GoMap, put}
use my_operator.Text.{has_suffix}

abbrev pub Dir : Type 0
Dir = List Text

names_onto : Dir → Text → Text
names_onto [] text = text
names_onto (name ∷ dir) text = names_onto dir (b'/' ∷ (name ++ text))

-- The text of a directory.
unfoldable pub path_of : Dir → Text
unfolding names_onto
path_of [] = codes "/"
path_of (name ∷ dir) = names_onto (name ∷ dir) []

-- `exists` stands for `os.Stat` without an error.
module _ (exists : Text → Bool) where
  -- The directory holds the marker.
  unfoldable pub has : Text → Dir → Bool
  unfolding path_of
  has marker dir = exists (path_of (marker ∷ dir))

  unfoldable pub find_upwards : Dir → Text → Option Dir
  unfolding has
  find_upwards [] marker = if has marker [] then some [] else none
  find_upwards (name ∷ dir) marker =
      let above = find_upwards dir marker in
      if has marker (name ∷ dir) then some (name ∷ dir) else above

  -- `filepath.Clean` of what is left of a clean path in front of a whole number of names.
  clean_prefix : Text → Text
  clean_prefix [] = codes "."
  clean_prefix (c ∷ text) = c ∷ text

  unfoldable pub legacy : Text → Text × Option Text
  unfolding clean_prefix
  legacy text =
      if has_suffix text (codes "/test/e2e")
      then (clean_prefix (take (length text - 9) text), none)
      else (
        text,
        some (
            codes
              "project root not found (no go.mod/.git upwards); returning cwd may be incorrect"),
      )

  or_git : Dir → Option Dir → Text × Option Text
  unfolding legacy path_of
  or_git wd (some root) = (path_of root, none)
  or_git wd none = legacy (path_of wd)

  or_go_mod : Dir → Option Dir → Text × Option Text
  unfolding or_git find_upwards
  or_go_mod wd (some root) = (path_of root, none)
  or_go_mod wd none = or_git wd (find_upwards wd (codes ".git"))

  -- The path, and the error or none; the argument is what `os.Getwd` yields, whose path is empty with
  -- an error.
  unfoldable pub get_project_dir : Result Text Dir → Text × Option Text
  unfolding or_go_mod
  get_project_dir (err e) = ([], some (codes "failed to get current working directory: " ++ e))
  get_project_dir (ok wd) = or_go_mod wd (find_upwards wd (codes "go.mod"))

abbrev or_made : Option (GoMap Text) → GoMap Text
or_made none = []
or_made (some ann) = ann

-- `none` is the nil map, and `stamp` the text of the time.
unfoldable pub set_test_start_time_anno_at : Option (GoMap Text) → Text → GoMap Text
set_test_start_time_anno_at ann stamp = put (codes "test/start-time") stamp (or_made ann)
