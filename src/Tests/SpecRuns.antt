-- ===== src/Tests/SpecRuns.antt =====
-- Runs of pkg/slo/spec, pkg/slo/summary/schema_v4.go, pkg/slo/tags and the file names of
-- test/e2e/harness/sanitize.go.
use mathlib.Core.List.{cons-ne-nil}
use my_operator.Base.{none, List, [], ◌∷◌, ◌≡◌, ◌≢◌, arith, codes, Text, All}
use my_operator.GoMap.{GoMap, lookup, IsMap}
use my_operator.Harness.Sanitize.{IsSafe, sanitize_filename, sanitize_filename-IsSafe}
use my_operator.Spec.{SliSpec, compute_single}
use my_operator.Spec.Registry.{new_registry, get}
use my_operator.Spec.Registry.FirstWins.{register_all, find_id, get-register_all-new_registry}
use my_operator.Tags.{merge_tags_v4}
use my_operator.Tags.Merge.{lookup-merge_tags_v4, or_else, nonempty}
use my_operator.Tests.Whole.{whole}

abbrev named : Text → Text → SliSpec whole
named id title = record {
  id = id;
  title = title;
  unit = [];
  kind = [];
  description = [];
  inputs = [];
  compute_mode = compute_single;
  judge = none;
}

abbrev three_specs : List (SliSpec whole)
three_specs =
    named (codes "a") (codes "one")
    ∷ named (codes "b") (codes "two")
    ∷ named (codes "a") (codes "three")
    ∷ []

get-register_all-new_registry_example :
    get whole (register_all whole (new_registry whole) three_specs) (codes "a")
    ≡ find_id whole (codes "a") three_specs
get-register_all-new_registry_example =
    get-register_all-new_registry whole three_specs (codes "a") (cons-ne-nil _ _)

abbrev same : Text → Text
same t = t

abbrev user_tags : GoMap Text
user_tags = (codes "suite", []) ∷ (codes "team", codes "slo") ∷ []

abbrev auto_tags : GoMap Text
auto_tags = (codes "suite", codes "e2e") ∷ (codes "run_id", []) ∷ []

user_tags-IsMap : IsMap user_tags
user_tags-IsMap = ground arith

auto_tags-IsMap : IsMap auto_tags
auto_tags-IsMap = ground arith

lookup-merge_tags_v4_example :
    lookup (codes "suite") (merge_tags_v4 user_tags auto_tags)
    ≡ or_else (lookup (codes "suite") user_tags) (nonempty (lookup (codes "suite") auto_tags))
lookup-merge_tags_v4_example =
    lookup-merge_tags_v4 user_tags auto_tags (codes "suite") user_tags-IsMap auto_tags-IsMap

sanitize_filename-IsSafe_example :
    All IsSafe (sanitize_filename (codes " a/b c ")) × (sanitize_filename (codes " a/b c ") ≢ [])
sanitize_filename-IsSafe_example = sanitize_filename-IsSafe (codes " a/b c ")
