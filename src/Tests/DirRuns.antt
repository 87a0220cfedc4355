-- ===== src/Tests/DirRuns.antt =====
-- Runs of pkg/devutil/projectdir.go and patch.go.
use my_operator.Base.{
  List, ok, ◌++◌, All, arith, Bool, false, none, some, [], ◌∷◌, ◌≡◌, refl, ◌⊎◌, Text, codes,
}
use my_operator.Devutil.{Dir, path_of, get_project_dir, legacy}
use my_operator.Devutil.Nearest.{Found, get_project_dir-Found}
use my_operator.Devutil.Uncomment.{index_of, trim_prefix, uncomment_code}
use my_operator.Devutil.Uncomment.Lines.{IsWhole, commented, joined, uncomment_code-commented}
use my_operator.Text.{equal, has_suffix, has_prefix}
use my_operator.Text.Lines.{scan_lines, drop_cr, is_too_long, byte_length}

abbrev deep : Dir
deep = codes "e2e" ∷ codes "test" ∷ codes "repo" ∷ []

abbrev only_go_mod : Text → Bool
only_go_mod path = equal path (codes "/repo/go.mod")

abbrev no_file : Text → Bool
no_file path = false

get_project_dir-Found_example :
    ((dir : Dir) × Found only_go_mod (codes "go.mod") deep (some dir)
      × (get_project_dir only_go_mod (ok deep) ≡ (path_of dir, none)))
    ⊎ (Found only_go_mod (codes "go.mod") deep none
        × (((dir : Dir) × Found only_go_mod (codes ".git") deep (some dir)
              × (get_project_dir only_go_mod (ok deep) ≡ (path_of dir, none)))
            ⊎ (Found only_go_mod (codes ".git") deep none
                × (get_project_dir only_go_mod (ok deep) ≡ legacy only_go_mod (path_of deep)))))
get_project_dir-Found_example = get_project_dir-Found only_go_mod deep

repo_found : get_project_dir only_go_mod (ok deep) ≡ (codes "/repo", none)
unfolding get_project_dir path_of equal
repo_found = refl

legacy_repo : get_project_dir no_file (ok deep) ≡ (codes "/repo", none)
unfolding get_project_dir path_of has_suffix legacy equal
legacy_repo = refl

-- From /test/e2e the fallback is not the root but the current directory.
legacy_root : get_project_dir no_file (ok (codes "e2e" ∷ codes "test" ∷ [])) ≡ (codes ".", none)
unfolding get_project_dir path_of has_suffix legacy equal
legacy_root = refl

abbrev plain : Text → Text
plain s = s

abbrev code_before : Text
code_before = codes "x\n"

abbrev code_after : Text
code_after = codes "\ny"

abbrev two_lines : List Text
two_lines = codes "a" ∷ codes "b" ∷ []

commented-IsWhole : All IsWhole (commented (codes "//") two_lines)
unfolding drop_cr is_too_long byte_length
commented-IsWhole = ground arith

commented_first :
    index_of
      (code_before ++ (joined (commented (codes "//") two_lines) ++ code_after))
      (joined (commented (codes "//") two_lines))
    ≡ some 2
unfolding index_of has_prefix
commented_first = refl

uncomment_code-commented_example :
    (uncomment_code plain
      (codes "f.go")
      none
      (ok (code_before ++ (joined (commented (codes "//") two_lines) ++ code_after)))
      (joined (commented (codes "//") two_lines))
      (codes "//")).1
    ≡ some (code_before ++ (joined two_lines ++ code_after))
uncomment_code-commented_example =
    uncomment_code-commented plain (codes "f.go") none code_before code_after (codes "//")
      (codes "a") (codes "b" ∷ []) commented-IsWhole commented_first

-- The newline at the end of a target is lost.
newline_lost :
    (uncomment_code plain
      (codes "f.go")
      none
      (ok (codes "//a\nb\n"))
      (codes "//a\n")
      (codes "//")).1
    ≡ some (codes "ab\n")
unfolding uncomment_code index_of has_prefix trim_prefix scan_lines drop_cr is_too_long byte_length
newline_lost = refl
