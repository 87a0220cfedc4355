-- ===== src/Tests/DiskRuns.antt =====
-- A run of a v4 session of test/e2e/harness with the engine and the writer of pkg/slo on one disk.
use mathlib.Core.List.{cons-ne-nil}
use mathlib.Core.Path.{subst}
use my_operator.Base.{
  ℕ, suc, ◌+◌, false, Option, none, some, [], ◌∷◌, ◌++◌, ◌≡◌, ◌≢◌, refl, ap, arith, codes, ok, err,
  Result, Text, length, length-append,
}
use my_operator.Engine.{Sample}
use my_operator.Engine.OnDisk.{disk_env, TempIsNew, WritesAll, Recorded}
use my_operator.GoMap.{lookup, keys}
use my_operator.Harness.Hooks.{run_tests_v4}
use my_operator.Harness.Hooks.OnDisk.{Has, run_tests_v4-Has}
use my_operator.Harness.Session.{SessionV4, end_session}
use my_operator.Harness.Session.OnDisk.{stat, end_session-Recorded}
use my_operator.Summary.{Time, Summary, is_zero}
use my_operator.Summary.Writer.{Files, Os}
use my_operator.Tests.Whole.{whole}
use my_operator.Text.{equal, equal-ne}

abbrev plain : Text → Text
plain s = s

abbrev working : Os
working = record {
  dir = plain;
  base = plain;
  mkdir_all = λ path files. none;
  create_temp = λ dir pattern files. ok (dir ++ pattern);
  write_file = λ path text files. (text, none);
  sync = λ path files. none;
  close = λ path files. none;
  chmod = λ path files. none;
  rename = λ from to files. none;
  remove = λ path files. none;
}

abbrev encode : Summary whole → Result Text Text
encode s = ok s.schema_version

abbrev scrape : Time → ℕ → Result Text (Sample whole) × ℕ
scrape at w = (ok (record { at = at; values = (codes "up", w) ∷ [] }), suc w)

abbrev now : ℕ → Time × ℕ
now w = (9, w)

abbrev join : Text → Text → Text
join dir name = dir ++ (codes "/" ++ name)

abbrev session : SessionV4 whole
session = record {
  config = record {
    namespace = codes "n";
    metrics_service_name = codes "svc";
    test_case = codes "t";
    suite = codes "s";
    run_id = codes "r";
    service_account_name = codes "sa";
    token = [];
    artifacts_dir = codes "a";
    tags = [];
    specs = none;
  };
  run_id = codes "r";
  tags = [];
  warnings = [];
  specs = [];
  started = 4;
}

-- The first name is taken.
abbrev old_files : Files
old_files = (codes "a/sli-summary.v3.r.t.json", codes "old") ∷ []

abbrev temp_name : Text → Text
temp_name path = path ++ (path ++ codes ".*.tmp")

abbrev text_of : Result Text Text → Text
text_of (ok t) = t
text_of (err e) = e

temp_name-ne : (path : Text) → temp_name path ≢ path
temp_name-ne path h = absurd (
    omega (
      arith,
      ap length h,
      length-append path (path ++ codes ".*.tmp"),
      length-append path (codes ".*.tmp"),
    ))

temp_name-length : (path : Text) → length (temp_name path) ≡ length path + length path + 6
temp_name-length path =
    omega (arith, length-append path (path ++ codes ".*.tmp"), length-append path (codes ".*.tmp"))

taken-ne : (path : Text) → codes "a/sli-summary.v3.r.t.json" ≢ temp_name path
taken-ne path h = absurd (omega (arith, ap length h, temp_name-length path))

temp_name-new : (path : Text) → lookup (temp_name path) old_files ≡ none
unfolding lookup
temp_name-new path =
    rw (equal-ne (codes "a/sli-summary.v3.r.t.json") (temp_name path) (taken-ne path)) refl

temp_is_new : (path : Text) → TempIsNew whole working encode path old_files
temp_is_new path tmp h =
    subst (λ t. (lookup t old_files ≡ none) × (t ≢ path)) (ap text_of h)
      (temp_name-new path, temp_name-ne path)

writes_all : WritesAll whole working encode
writes_all k text files h = refl

not_zero : (n : ℕ) → is_zero (suc n) ≡ false
unfolding is_zero
not_zero n = ground arith

end_session-Recorded_example :
    (path : Text) × (r : Result Text (Summary whole)) × (v : ℕ) × (new : Files) × (lookup path
        old_files
      ≡ none)
    × (end_session whole
          (disk_env whole working encode scrape now)
          join
          stat
          (suc (length (keys old_files)))
          session
          (0, old_files)
        ≡ some (r, (v, new)))
    × Recorded whole working encode path r old_files new
end_session-Recorded_example =
    end_session-Recorded whole working encode scrape now join session 0 old_files
      (record { at = 4; values = (codes "up", 0) ∷ [] })
      (record { at = 9; values = (codes "up", 1) ∷ [] }) 1 2 (cons-ne-nil _ _) (cons-ne-nil _ _)
      (not_zero 3) (not_zero 8) temp_is_new writes_all refl refl

abbrev if_free : Text → Option Text → Result Text Text
if_free name none = ok name
if_free name (some text) = err (codes "exists")

-- A system that makes a temporary file only where there is none of its name.
abbrev careful : Os
careful = record working {
  create_temp = λ dir pattern files. if_free (dir ++ pattern) (lookup (dir ++ pattern) files);
}

if_free-new :
    (name tmp : Text) (o : Option Text) → if_free name o ≡ ok tmp → (o ≡ none) × (name ≡ tmp)
if_free-new name tmp none h = (refl, ap text_of h)
if_free-new name tmp (some text) h = cc

careful-TempIsNew : (path : Text) (files : Files) → TempIsNew whole careful encode path files
careful-TempIsNew path files tmp h =
    let (free, same) = if_free-new (temp_name path) tmp (lookup (temp_name path) files) h in
    subst (λ t. (lookup t files ≡ none) × (t ≢ path)) same (free, temp_name-ne path)

careful-WritesAll : WritesAll whole careful encode
careful-WritesAll k text files h = refl

-- A test that counts in its own world.
abbrev count : ℕ × Files → ℕ × Files
count (n, files) = (suc n, files)

abbrev first_name : Text
first_name = codes "a/sli-summary.v3.r.t.json"

first_name_there : lookup first_name old_files ≡ some (codes "old")
unfolding lookup equal
first_name_there = refl

-- No `Stat` fails.
abbrev stat_works : Text → Files → Option Text
stat_works path files = none

run_tests_v4-Has_example :
    (n : ℕ) × (r : SessionV4 whole × (ℕ × Files)) × ((k : ℕ)
      → run_tests_v4 whole
          (disk_env whole careful encode scrape now)
          join
          stat
          (k + n)
          (count ∷ count ∷ [])
          session
          (0, old_files)
        ≡ some r)
    × Has whole careful encode first_name (codes "old") scrape now join stat_works r.1
run_tests_v4-Has_example =
    run_tests_v4-Has whole careful encode first_name (codes "old") scrape now join stat_works
      (count ∷ count ∷ []) session 0 old_files careful-TempIsNew careful-WritesAll (cons-ne-nil _ _)
      ((λ v h. h), ((λ v h. h), tt)) first_name_there
