-- ===== src/Harness/Options/Loaded.antt =====
-- test/e2e/internal/env: what the options are once they are loaded and validated.
use Prim.Native.Nat.{◌%◌, ◌/◌}
use my_operator.Base.{
  ℕ, zero, suc, ◌+◌, ◌-◌, ◌*◌, ◌<◌, ◌≤◌, ◌⊎◌, ltb, true, false, Option, none, some, [],
  if◌then◌else◌, Text, codes, ℤ, pos, negsuc, ◌≡◌, ◌≢◌, refl, arith, inl, inr, Bool-cases,
}
use my_operator.Harness.Options.{
  Options, validate, is_zero, to_int64, seconds, two_63, two_64, two_minutes, duration_env,
  duration_or, seconds_or, summary_path,
}
use my_operator.Text.{equal, equal_iff, ne_of_equal, trim_space}

dir_fixed :
    (d : Text)
    → (if equal (if equal d [] then codes "/tmp" else d) []
        then codes "/tmp"
        else (if equal d [] then codes "/tmp" else d))
      ≡ (if equal d [] then codes "/tmp" else d)
unfolding equal
dir_fixed d = elim (Bool-cases (equal d [])) [ inl e ↦ rw e | inr e ↦ rw (e, e) ]

time_fixed :
    (t : ℤ)
    → (if is_zero (if is_zero t then two_minutes else t)
        then two_minutes
        else (if is_zero t then two_minutes else t))
      ≡ (if is_zero t then two_minutes else t)
unfolding is_zero
time_fixed (pos zero) = refl
time_fixed (pos (suc n)) = refl
time_fixed (negsuc n) = refl

-- `Validate` of validated options changes nothing, so that `SummaryPath` puts a file of either in
-- the same place.
pub validate_idem :
    (join : Text → Text → Text) (o : Options) (filename : Text)
    → (validate (validate o) ≡ validate o)
      × (summary_path join (validate o) filename ≡ summary_path join o filename)
unfolding validate summary_path
validate_idem join o filename = (
  (λ i. record o {
    artifacts_dir = dir_fixed o.artifacts_dir i;
    token_request_timeout = time_fixed o.token_request_timeout i;
  }),
  λ i.
      join (dir_fixed o.artifacts_dir i)
        (if equal filename [] then codes "sli-summary.json" else filename),
)

-- The int64 that `n` seconds wrap around to, in nanoseconds: it differs from them by a multiple of
-- 2 ^ 64.
abbrev pub Wraps : ℤ → ℤ → Type 0
Wraps (pos n) (pos u) = (u < two_63) × (q : ℕ) × (n * 1000000000 ≡ u + q * two_64)
Wraps (pos n) (negsuc u) = (u < two_63) × (q : ℕ) × (n * 1000000000 + suc u ≡ q * two_64)
Wraps (negsuc n) (pos u) = (u < two_63) × (q : ℕ) × (u + suc n * 1000000000 ≡ q * two_64)
Wraps (negsuc n) (negsuc u) = (u < two_63) × (q : ℕ) × (suc n * 1000000000 ≡ suc u + q * two_64)

div_mod : (m : ℕ) → (q : ℕ) × (m ≡ m % two_64 + q * two_64) × (m % two_64 < two_64)
div_mod m = (m / two_64, omega arith, omega arith)

ltb-true : (a b : ℕ) → ltb a b ≡ true → a < b
ltb-true a b h = ground arith

ltb-false : (a b : ℕ) → ltb a b ≡ false → b ≤ a
ltb-false a b h = ground arith

to_int64-Wraps_pos :
    (n u q : ℕ) → n * 1000000000 ≡ u + q * two_64 → u < two_64 → Wraps (pos n) (to_int64 u)
unfolding to_int64
to_int64-Wraps_pos n u q e lt = elim (Bool-cases (ltb u two_63)) [
  | inl h ↦ rw h (ltb-true u two_63 h, q, e)
  | inr h ↦ let le = ltb-false u two_63 h in rw h (omega (arith, le), suc q, omega (arith, e, lt))
]

to_int64-Wraps_negsuc :
    (n u q : ℕ)
    → suc n * 1000000000 + u ≡ q * two_64
    → u < two_64
    → 0 < q
    → Wraps (negsuc n) (to_int64 u)
unfolding to_int64
to_int64-Wraps_negsuc n u q e lt some_q = elim (Bool-cases (ltb u two_63)) [
  | inl h ↦ rw h (ltb-true u two_63 h, q, omega (arith, e))
  | inr h ↦
      let le = ltb-false u two_63 h in rw h (omega (arith, le), q - 1, omega (arith, e, lt, some_q))
]

seconds-Wraps : (n : ℤ) → Wraps n (seconds n)
unfolding seconds
seconds-Wraps (pos n) = let (q, e, lt) = div_mod (n * 1000000000) in to_int64-Wraps_pos n _ q e lt
seconds-Wraps (negsuc n) =
    let (q, e, lt) = div_mod (suc n * 1000000000) in
    let x = (suc n * 1000000000) % two_64 in
    let (p, g, le) = div_mod (two_64 - x) in
    to_int64-Wraps_negsuc n ((two_64 - x) % two_64) (suc q - p) (omega arith) le (omega arith)

module _ (getenv : Text → Text) (parse_duration atoi : Text → Option ℤ) (key : Text) (def : ℤ) where
  abbrev value : Text
  value = trim_space (getenv key)

  -- What `durationEnv` is to yield for a value that is not empty.
  abbrev pub ReadAs : Option ℤ → Option ℤ → ℤ → Type 0
  ReadAs (some d) n r = r ≡ d
  ReadAs none (some n) r = Wraps n r
  ReadAs none none r = r ≡ def

  duration_or-ReadAs :
      (d n : Option ℤ) → ReadAs d n (duration_or getenv parse_duration atoi d n def)
  unfolding duration_or seconds_or
  duration_or-ReadAs (some d) n = refl
  duration_or-ReadAs none (some n) = seconds-Wraps n
  duration_or-ReadAs none none = refl

  -- `durationEnv` yields the default for a variable that is empty once it is trimmed, and else what
  -- `time.ParseDuration` makes of the trimmed value; where that fails and `strconv.Atoi` takes the
  -- value as a number, that many seconds in nanoseconds, wrapped around to an int64, whether the
  -- number is negative or too large; and where both fail, the default again.
  pub duration_env-ReadAs :
      ((value ≡ []) × (duration_env getenv parse_duration atoi key def ≡ def))
      ⊎ ((value ≢ [])
          × ReadAs
              (parse_duration value)
              (atoi value)
              (duration_env getenv parse_duration atoi key def))
  unfolding duration_env
  duration_env-ReadAs = elim (Bool-cases (equal value [])) [
    | inl e ↦ inl ((equal_iff value []).0 e, rw e refl)
    | inr e ↦
        inr (ne_of_equal value [] e, rw e (duration_or-ReadAs (parse_duration value) (atoi value)))
  ]
