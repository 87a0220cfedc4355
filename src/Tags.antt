-- ===== src/Tags.antt =====
-- pkg/slo/tags/tags_v4.go: the tags of a run.
pub mod Merge
use my_operator.Base.{Bool, true, false, not, List, [], ◌∷◌, if◌then◌else◌, Text, codes}
use my_operator.GoMap.{GoMap, put}
use my_operator.Text.{equal}

pub record AutoTagsV4Input : Type 0 where
  pub suite : Text
  pub test_case : Text
  pub namespace : Text
  pub run_id : Text

unfoldable pub auto_tags_v4 : AutoTagsV4Input → GoMap Text
auto_tags_v4 input =
    (codes "suite", input.suite)
    ∷ (codes "test_case", input.test_case)
    ∷ (codes "namespace", input.namespace)
    ∷ (codes "run_id", input.run_id)
    ∷ []

-- The two loops, each in the order in which its map is visited.
put_nonempty : GoMap Text → GoMap Text → GoMap Text
put_nonempty merged [] = merged
put_nonempty merged ((k, v) ∷ auto_tags) =
    put_nonempty (if equal v [] then merged else put k v merged) auto_tags

put_all : GoMap Text → GoMap Text → GoMap Text
put_all merged [] = merged
put_all merged ((k, v) ∷ user_tags) = put_all (put k v merged) user_tags

unfoldable pub merge_tags_v4 : GoMap Text → GoMap Text → GoMap Text
unfolding put_nonempty put_all
merge_tags_v4 user_tags auto_tags = put_all (put_nonempty [] auto_tags) user_tags
