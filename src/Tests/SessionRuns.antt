-- ===== src/Tests/SessionRuns.antt =====
-- Runs of pkg/slo/summary/writer.go, test/e2e/harness/session_v4.go and test/e2e/internal/env.
use mathlib.Core.List.{cons-ne-nil}
use mathlib.Core.Path.{subst}
use my_operator.Base.{
  ℕ, ◌<◌, true, none, some, Option, [], ◌∷◌, ◌++◌, ◌≡◌, ◌≢◌, refl, ap, arith, codes, ok, err,
  Result, Text, ◌⊎◌, ℤ, pos,
}
use my_operator.GoMap.{lookup}
use my_operator.Harness.Options.{duration_env, two_minutes}
use my_operator.Harness.Options.Loaded.{ReadAs, duration_env-ReadAs}
use my_operator.Harness.Session.{
  Stat, exists, not_exist, failed, SessionV4, SessionV4Config, next_summary_path,
}
use my_operator.Harness.Session.Paths.{candidate, base_path, IsFile, next_summary_path_first}
use my_operator.Summary.{Summary}
use my_operator.Summary.Writer.{Files, Os, write_json_atomic}
use my_operator.Summary.Writer.Atomic.{
  KeptDisk, Ended, write_json_atomic_crash, write_json_atomic_outcome,
}
use my_operator.Tests.Whole.{whole}
use my_operator.Text.{equal, trim_space}

-- A disk on which the rename fails.
abbrev rename_fails : Os
rename_fails = record {
  dir = λ path. codes "d";
  base = λ path. codes "s";
  mkdir_all = λ dir files. none;
  create_temp = λ dir pattern files. ok (codes "d/s.1.tmp");
  write_file = λ path text files. (text, none);
  sync = λ path files. none;
  close = λ path files. none;
  chmod = λ path files. none;
  rename = λ from to files. some (codes "busy");
  remove = λ path files. none;
}

abbrev encode : Summary whole → Result Text Text
encode s = ok s.schema_version

abbrev old_files : Files
old_files = (codes "d/s", codes "old") ∷ []

abbrev new_summary : Summary whole
new_summary = record {
  schema_version = codes "slo.v3";
  generated_at = 1;
  config = record {
    run_id = [];
    started_at = 1;
    finished_at = 1;
    mode = record { location = []; trigger = [] };
    tags = [];
    format = [];
    evidence_paths = [];
  };
  results = [];
  warnings = [];
}

abbrev text_of : Result Text Text → Text
text_of (ok t) = t
text_of (err e) = e

abbrev temporary : Text
temporary = codes "d/s.1.tmp"

temporary_new : lookup temporary old_files ≡ none
unfolding lookup equal
temporary_new = refl

temporary_other : temporary ≢ codes "d/s"
temporary_other = ground arith

temp_is_fresh :
    (tmp : Text)
    → rename_fails.create_temp (codes "d") (codes "s.*.tmp") old_files ≡ ok tmp
    → (lookup tmp old_files ≡ none) × (tmp ≢ codes "d/s")
temp_is_fresh tmp h =
    subst (λ t. (lookup t old_files ≡ none) × (t ≢ codes "d/s")) (ap text_of h)
      (temporary_new, temporary_other)

writes_all :
    (k text : Text) (files : Files)
    → (rename_fails.write_file k text files).1 ≡ none
    → (rename_fails.write_file k text files).0 ≡ text
writes_all k text files h = refl

write_json_atomic_crash_example :
    KeptDisk whole rename_fails encode
      (codes "d/s")
      new_summary
      old_files
      (write_json_atomic whole rename_fails encode true
        (codes "d/s")
        new_summary
        (record { files = old_files; past = [] })).1
write_json_atomic_crash_example =
    write_json_atomic_crash whole rename_fails encode (codes "d/s") new_summary old_files true
      temp_is_fresh writes_all

write_json_atomic_outcome_example :
    Ended whole rename_fails encode
      (codes "d/s")
      new_summary
      old_files
      (write_json_atomic whole rename_fails encode true
        (codes "d/s")
        new_summary
        (record { files = old_files; past = [] })).0
      (write_json_atomic whole rename_fails encode true
        (codes "d/s")
        new_summary
        (record { files = old_files; past = [] })).1.files
write_json_atomic_outcome_example =
    write_json_atomic_outcome whole rename_fails encode (codes "d/s") new_summary old_files true
      temp_is_fresh writes_all

abbrev config : SessionV4Config whole
config = record {
  namespace = codes "n";
  metrics_service_name = codes "svc";
  test_case = codes "t";
  suite = codes "s";
  run_id = codes " ";
  service_account_name = codes "sa";
  token = [];
  artifacts_dir = codes "/tmp";
  tags = [];
  specs = none;
}

abbrev session : SessionV4 whole
session = record {
  config = config;
  run_id = codes "r";
  tags = [];
  warnings = [];
  specs = [];
  started = 0;
}

abbrev join : Text → Text → Text
join dir name = dir ++ (codes "/" ++ name)

abbrev nothing_there : Text → Stat
nothing_there path = not_exist

nothing_found :
    (j : ℕ)
    → nothing_there (candidate (base_path whole join nothing_there session (codes "x")) j) ≡ exists
    → IsFile (candidate (base_path whole join nothing_there session (codes "x")) j) []
nothing_found j h = cc

next_summary_path_first_example :
    (m : ℕ) × ((j : ℕ) → j < m → nothing_there (candidate (codes "/tmp/x") j) ≡ exists)
    × (((nothing_there (candidate (codes "/tmp/x") m) ≡ not_exist)
          × (next_summary_path whole join nothing_there 1 session (codes "x")
              ≡ some (ok (candidate (codes "/tmp/x") m))))
        ⊎ ((e : Text) × (nothing_there (candidate (codes "/tmp/x") m) ≡ failed e)
            × (next_summary_path whole join nothing_there 1 session (codes "x") ≡ some (err e))))
next_summary_path_first_example =
    next_summary_path_first whole join nothing_there session (codes "x") [] (cons-ne-nil _ _)
      nothing_found

abbrev getenv : Text → Text
getenv key = codes "30"

abbrev no_duration : Text → Option ℤ
no_duration v = none

abbrev thirty : Text → Option ℤ
thirty v = some (pos 30)

duration_env-ReadAs_example :
    ((trim_space (getenv (codes "T")) ≡ [])
      × (duration_env getenv no_duration thirty (codes "T") two_minutes ≡ two_minutes))
    ⊎ ((trim_space (getenv (codes "T")) ≢ [])
        × ReadAs getenv no_duration thirty
            (codes "T")
            two_minutes
            (no_duration (trim_space (getenv (codes "T"))))
            (thirty (trim_space (getenv (codes "T"))))
            (duration_env getenv no_duration thirty (codes "T") two_minutes))
duration_env-ReadAs_example = duration_env-ReadAs getenv no_duration thirty (codes "T") two_minutes
