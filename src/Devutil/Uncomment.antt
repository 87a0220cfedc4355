-- ===== src/Devutil/Uncomment.antt =====
-- pkg/devutil/patch.go: a commented part of a file is put back into use.
pub mod Lines
use my_operator.Base.{
  ℕ, suc, ◌+◌, Bool, true, false, Option, none, some, List, [], ◌∷◌, ◌++◌, if◌then◌else◌, Text,
  codes, length, take, drop, Result, ok, err,
}
use my_operator.Text.{has_prefix}
use my_operator.Text.Lines.{scan_lines, drop_cr, is_too_long}

-- `strings.Index`
unfoldable pub index_of : Text → Text → Option ℕ
unfolding has_prefix
index_of [] p = if has_prefix [] p then some 0 else none
index_of (c ∷ s) p =
    if has_prefix (c ∷ s) p
    then some 0
    else elim (index_of s p) [ none ↦ none | some i ↦ some (suc i) ]

-- `strings.TrimPrefix`
unfoldable pub trim_prefix : Text → Text → Text
unfolding has_prefix
trim_prefix s prefix = if has_prefix s prefix then drop (length prefix) s else s

-- What the scanner yields: it stops at a line that does not fit, and its error is not asked for.
scanned : List Text → List Text
unfolding is_too_long drop_cr
scanned [] = []
scanned (line ∷ lines) =
    let rest = scanned lines in if is_too_long line then [] else drop_cr line ∷ rest

-- The loop: the lines without the prefix, with newlines between them.
uncommented : Text → List Text → Text
unfolding trim_prefix
uncommented prefix [] = []
uncommented prefix (line ∷ []) = trim_prefix line prefix
uncommented prefix (line ∷ next ∷ lines) =
    trim_prefix line prefix ++ (b'\n' ∷ uncommented prefix (next ∷ lines))

-- `quote` stands for the verb %q, `write_error` for the answer of `os.WriteFile`. The result is the
-- error, or none, and what is written to the file, or none.
module _ (quote : Text → Text) (filename : Text) (write_error : Option Text) where
  abbrev pub Outcome : Type 0
  Outcome = Option Text × Option Text

  written : Text → Option Text → Outcome
  written out none = (none, some out)
  written out (some e) =
      (some (codes "failed to write file " ++ (quote filename ++ (codes ": " ++ e))), some out)

  with_lines : Text → Text → Text → List Text → Outcome
  unfolding uncommented written
  with_lines before after prefix [] = (none, none)
  with_lines before after prefix (line ∷ lines) =
      written (before ++ (uncommented prefix (line ∷ lines) ++ after)) write_error

  at_index : Text → Text → Text → Option ℕ → Outcome
  unfolding with_lines scanned scan_lines
  at_index content target prefix none =
      (some (codes "unable to find the code " ++ (quote target ++ codes " to be uncomment")), none)
  at_index content target prefix (some idx) =
      with_lines (take idx content) (drop (idx + length target) content) prefix
        (scanned (scan_lines target))

  -- `read` is the answer of `os.ReadFile`.
  unfoldable pub uncomment_code : Result Text Text → Text → Text → Outcome
  unfolding at_index index_of
  uncomment_code (err e) target prefix =
      (some (codes "failed to read file " ++ (quote filename ++ (codes ": " ++ e))), none)
  uncomment_code (ok content) target prefix =
      at_index content target prefix (index_of content target)
