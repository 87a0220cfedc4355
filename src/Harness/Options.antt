-- ===== src/Harness/Options.antt =====
-- test/e2e/internal/env: the options of the end-to-end tests, from the environment.
pub mod Loaded
use Prim.Native.Nat.{◌%◌}
use my_operator.Base.{
  ℕ, zero, suc, ◌+◌, ◌-◌, ◌*◌, ltb, Bool, true, false, ◌||◌, Option, none, some, List, [], ◌∷◌,
  if◌then◌else◌, Text, codes, ℤ, pos, negsuc,
}
use my_operator.Text.{equal, trim_space, to_lower}

-- `int64` from its two's complement.
abbrev pub two_63 : ℕ
two_63 = 9223372036854775808

abbrev pub two_64 : ℕ
two_64 = 18446744073709551616

unfoldable pub to_int64 : ℕ → ℤ
to_int64 u = if ltb u two_63 then pos u else negsuc (two_64 - 1 - u)

-- `time.Duration(n) * time.Second`, which wraps around.
unfoldable pub seconds : ℤ → ℤ
unfolding to_int64
seconds (pos n) = to_int64 ((n * 1000000000) % two_64)
seconds (negsuc n) = to_int64 ((two_64 - ((suc n * 1000000000) % two_64)) % two_64)

pub record Options : Type 0 where
  pub enabled : Bool
  pub artifacts_dir : Text
  pub run_id : Text
  pub skip_cleanup : Bool
  pub skip_cert_manager_install : Bool
  pub token_request_timeout : ℤ

abbrev pub two_minutes : ℤ
two_minutes = pos 120000000000

unfoldable pub is_zero : ℤ → Bool
is_zero (pos zero) = true
is_zero _ = false

unfoldable pub validate : Options → Options
unfolding is_zero
validate o = record o {
  artifacts_dir = if equal o.artifacts_dir [] then codes "/tmp" else o.artifacts_dir;
  token_request_timeout =
      if is_zero o.token_request_timeout then two_minutes else o.token_request_timeout;
}

-- `join` stands for `filepath.Join`.
unfoldable pub summary_path : (Text → Text → Text) → Options → Text → Text
unfolding validate
summary_path join o filename =
    join (validate o).artifacts_dir
      (if equal filename [] then codes "sli-summary.json" else filename)

-- The switch of `boolEnv`.
unfoldable pub bool_of : Text → Bool → Bool
bool_of v def =
    if equal v (codes "1")
      || equal v (codes "true")
      || equal v (codes "t")
      || equal v (codes "yes")
      || equal v (codes "y")
      || equal v (codes "on")
    then true
    else if equal v (codes "0")
        || equal v (codes "false")
        || equal v (codes "f")
        || equal v (codes "no")
        || equal v (codes "n")
        || equal v (codes "off")
    then false
    else def

-- `getenv` stands for the environment, `parse_duration` for `time.ParseDuration` and `atoi` for
-- `strconv.Atoi`, without their errors.
module _ (getenv : Text → Text) (parse_duration atoi : Text → Option ℤ) where
  unfoldable pub string_env : Text → Text → Text
  unfolding trim_space
  string_env key def = if equal (trim_space (getenv key)) [] then def else trim_space (getenv key)

  unfoldable pub bool_env : Text → Bool → Bool
  unfolding bool_of trim_space to_lower
  bool_env key def =
      if equal (trim_space (getenv key)) []
      then def
      else bool_of (to_lower (trim_space (getenv key))) def

  seconds_or : Option ℤ → ℤ → ℤ
  unfolding seconds
  seconds_or none def = def
  seconds_or (some n) def = seconds n

  duration_or : Option ℤ → Option ℤ → ℤ → ℤ
  unfolding seconds_or
  duration_or (some d) n def = d
  duration_or none n def = seconds_or n def

  unfoldable pub duration_env : Text → ℤ → ℤ
  unfolding duration_or trim_space
  duration_env key def =
      let v = trim_space (getenv key) in
      if equal v [] then def else duration_or (parse_duration v) (atoi v) def

  unfoldable pub load_options : Options
  unfolding bool_env string_env duration_env
  load_options = record {
    enabled = bool_env (codes "SLOLAB_ENABLED") false;
    artifacts_dir = string_env (codes "ARTIFACTS_DIR") (codes "/tmp");
    run_id = string_env (codes "CI_RUN_ID") [];
    skip_cleanup = bool_env (codes "E2E_SKIP_CLEANUP") false;
    skip_cert_manager_install = bool_env (codes "CERT_MANAGER_INSTALL_SKIP") false;
    token_request_timeout = duration_env (codes "TOKEN_REQUEST_TIMEOUT") two_minutes;
  }
