-- ===== src/Harness/Session/RunId.antt =====
-- test/e2e/harness/session_v4.go: the run ID of a session and its tags.
use mathlib.Core.List.{cons-ne-nil}
use my_operator.Base.{
  true, some, [], ◌≡◌, ◌≢◌, refl, ap, ◌∙◌, arith, Text, codes, inl, inr, Bool-cases,
}
use my_operator.Float64.{Float64}
use my_operator.GoMap.{lookup, IsMap}
use my_operator.Harness.Session.{SessionV4Config, new_session_v4, run_id_of, local_run_id}
use my_operator.Summary.{Time}
use my_operator.Tags.{AutoTagsV4Input, auto_tags_v4}
use my_operator.Tags.Merge.{lookup-merge_tags_v4, nonempty, or_else}
use my_operator.Text.{equal, equal_iff, trim_space, trim_left, trim_right}

auto_tags_IsMap : (input : AutoTagsV4Input) → IsMap (auto_tags_v4 input)
unfolding auto_tags_v4
auto_tags_IsMap input = ground arith

blank_empty : (s : Text) → s ≡ [] → equal (trim_space s) [] ≡ true
unfolding trim_space trim_left trim_right equal
blank_empty s h = rw h

abbrev auto_input : (f : Float64) → Time → SessionV4Config f → AutoTagsV4Input
auto_input f now cfg = record {
  suite = cfg.suite;
  test_case = cfg.test_case;
  namespace = cfg.namespace;
  run_id = run_id_of f now cfg.run_id;
}

auto_run_id :
    (input : AutoTagsV4Input) → lookup (codes "run_id") (auto_tags_v4 input) ≡ some input.run_id
unfolding auto_tags_v4 lookup equal
auto_run_id input = refl

nonempty-some : (s : Text) → s ≢ [] → nonempty (some s) ≡ some s
nonempty-some s h = ground (arith, equal_iff s [])

module _ (f : Float64) where
  run_id_nonempty : (now : Time) (run_id : Text) → run_id_of f now run_id ≢ []
  unfolding run_id_of local_run_id
  run_id_nonempty now run_id = elim (Bool-cases (equal (trim_space run_id) [])) [
    | inl e ↦ rw e (cons-ne-nil _ _)
    | inr e ↦ rw e (λ h. ground (arith, blank_empty run_id h))
  ]

  -- A new session has a run ID that is not empty, also where that of the inputs is blank, and its tag
  -- run_id is the one that the user set, or else this run ID.
  new_session_v4_run_id :
      (now : Time) (cfg : SessionV4Config f)
      → IsMap cfg.tags
      → ((new_session_v4 f now cfg).run_id ≢ [])
        × (lookup (codes "run_id") (new_session_v4 f now cfg).tags
            ≡ or_else (lookup (codes "run_id") cfg.tags) (some (new_session_v4 f now cfg).run_id))
  unfolding new_session_v4
  new_session_v4_run_id now cfg h = (
    run_id_nonempty now cfg.run_id,
    lookup-merge_tags_v4 cfg.tags (auto_tags_v4 (auto_input f now cfg)) (codes "run_id") h
          (auto_tags_IsMap (auto_input f now cfg))
        ∙ ap (or_else (lookup (codes "run_id") cfg.tags)) (
            ap nonempty (auto_run_id (auto_input f now cfg))
            ∙ nonempty-some (run_id_of f now cfg.run_id) (run_id_nonempty now cfg.run_id)),
  )
