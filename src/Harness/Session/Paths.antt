-- ===== src/Harness/Session/Paths.antt =====
-- test/e2e/harness/session_v4.go: the path that `NextSummaryPath` picks.
use my_operator.Base.{
  ℕ, zero, suc, ◌<◌, ◌≤◌, ◌==◌, true, Option, some, List, [], ◌∷◌, ◌++◌, if◌then◌else◌, ◌≡◌, ◌≢◌,
  refl, sym, ap, ◌∙◌, arith, Text, codes, length, drop, drop-append, length-append, Result, ok, err,
  inl, inr, ◌⊎◌, Bool-cases,
}
use my_operator.Float64.{Float64}
use my_operator.Harness.Session.{
  Stat, exists, not_exist, failed, SessionV4, probe, next_summary_path,
}
use my_operator.Text.{equal, equal_iff, equal-ne}
use my_operator.Text.Decimal.{decimal, value, value-decimal}

-- The paths in the order in which they are tried.
abbrev pub candidate : Text → ℕ → Text
candidate base zero = base
candidate base (suc i) = base ++ (codes "-" ++ decimal (suc i))

append-injective : (a b c : Text) → a ++ b ≡ a ++ c → b ≡ c
append-injective a b c h = sym (drop-append a b) ∙ ap (drop (length a)) h ∙ drop-append a c

decimal-injective : (i j : ℕ) → decimal i ≡ decimal j → i ≡ j
decimal-injective i j h = sym (value-decimal i) ∙ ap (value 0) h ∙ value-decimal j

longer-ne : (base : Text) (i : ℕ) → base ≢ base ++ (codes "-" ++ decimal i)
longer-ne base i h = absurd (
    omega (
      arith,
      ap length h,
      length-append base (codes "-" ++ decimal i),
      length-append (codes "-") (decimal i),
    ))

candidate-injective : (base : Text) (i j : ℕ) → candidate base i ≡ candidate base j → i ≡ j
candidate-injective base zero zero h = refl
candidate-injective base zero (suc j) h = absurd (longer-ne base (suc j) h)
candidate-injective base (suc i) zero h = absurd (longer-ne base (suc i) (sym h))
candidate-injective base (suc i) (suc j) h = decimal-injective (suc i) (suc j) (
    append-injective (codes "-") (decimal (suc i)) (decimal (suc j))
      (append-injective base (codes "-" ++ decimal (suc i)) (codes "-" ++ decimal (suc j)) h))

pub Stat-cases : (a : Stat) → (a ≡ exists) ⊎ ((a ≡ not_exist) ⊎ ((e : Text) × (a ≡ failed e)))
Stat-cases exists = inl refl
Stat-cases not_exist = inr (inl refl)
Stat-cases (failed e) = inr (inr (e, refl))

eq_of : (a b : ℕ) → (a == b) ≡ true → a ≡ b
eq_of a b h = ground arith

-- A path is one of the files.
abbrev pub IsFile : Text → List Text → Type 0
IsFile p [] = ⊥
IsFile p (q ∷ files) = (p ≡ q) ⊎ IsFile p files

without : Text → List Text → List Text
without p [] = []
without p (q ∷ files) = if equal p q then files else q ∷ without p files

length-without :
    (p : Text) (files : List Text) → IsFile p files → suc (length (without p files)) ≡ length files
unfolding without
length-without p [] h = elim h [ ]
length-without p (q ∷ files) (inl e) = rw ((equal_iff p q).1 e)
length-without p (q ∷ files) (inr h) = elim (Bool-cases (equal p q)) [
  | inl e ↦ rw e
  | inr e ↦ rw e (ap suc (length-without p files h))
]

IsFile-tail :
    (p r q : Text) (files : List Text) → r ≢ p → p ≡ q → IsFile r (q ∷ files) → IsFile r files
IsFile-tail p r q files ne e (inl g) = absurd (ne (g ∙ sym e))
IsFile-tail p r q files ne e (inr g) = g

IsFile-later :
    (p r q : Text) (files rest : List Text)
    → (IsFile r files → IsFile r rest)
    → IsFile r (q ∷ files)
    → IsFile r (q ∷ rest)
IsFile-later p r q files rest k (inl g) = inl g
IsFile-later p r q files rest k (inr g) = inr (k g)

IsFile-without :
    (p r : Text) (files : List Text) → r ≢ p → IsFile r files → IsFile r (without p files)
unfolding without
IsFile-without p r [] ne h = elim h [ ]
IsFile-without p r (q ∷ files) ne h = elim (Bool-cases (equal p q)) [
  | inl e ↦ rw e (IsFile-tail p r q files ne ((equal_iff p q).0 e) h)
  | inr e ↦ rw e (IsFile-later p r q files (without p files) (IsFile-without p r files ne) h)
]

module _ (f : Float64) (stat : Text → Stat) (base : Text) where
  -- What the search from the i-th path on yields.
  Answer : ℕ → Option (Result Text Text) → Type 0
  Answer i r =
      (m : ℕ) × (i ≤ m)
      × ((j : ℕ) → i ≤ j → j < m → stat (candidate base j) ≡ exists)
      × (((stat (candidate base m) ≡ not_exist) × (r ≡ some (ok (candidate base m))))
          ⊎ ((e : Text) × (stat (candidate base m) ≡ failed e) × (r ≡ some (err e))))

  probe_exists :
      (fuel i : ℕ)
      → stat (candidate base i) ≡ exists
      → probe f stat base (suc fuel) (suc i) (candidate base i)
        ≡ probe f stat base fuel (suc (suc i)) (candidate base (suc i))
  unfolding probe
  probe_exists fuel i e = rw (probe, e)

  probe_not_exist :
      (fuel i : ℕ)
      → stat (candidate base i) ≡ not_exist
      → probe f stat base (suc fuel) (suc i) (candidate base i) ≡ some (ok (candidate base i))
  unfolding probe
  probe_not_exist fuel i e = rw (probe, e)

  probe-failed :
      (fuel i : ℕ) (x : Text)
      → stat (candidate base i) ≡ failed x
      → probe f stat base (suc fuel) (suc i) (candidate base i) ≡ some (err x)
  unfolding probe
  probe-failed fuel i x e = rw (probe, e)

  -- One more existing path in front.
  before_too :
      (i m : ℕ)
      → stat (candidate base i) ≡ exists
      → ((j : ℕ) → suc i ≤ j → j < m → stat (candidate base j) ≡ exists)
      → (j : ℕ) → i ≤ j
      → j < m
      → stat (candidate base j) ≡ exists
  before_too i m e before j le lt = elim (Bool-cases (j == i)) [
    | inl g ↦ ap (λ k. stat (candidate base k)) (eq_of j i g) ∙ e
    | inr g ↦ before j (ground arith) lt
  ]

  probe-Answer :
      (fuel i : ℕ) (files : List Text)
      → length files < fuel
      → ((j : ℕ) → i ≤ j → stat (candidate base j) ≡ exists → IsFile (candidate base j) files)
      → Answer i (probe f stat base fuel (suc i) (candidate base i))
  unfolding Answer
  probe-Answer zero i files lt all = absurd (omega arith)
  probe-Answer (suc fuel) i files lt all = elim (Stat-cases (stat (candidate base i))) [
    | inl e ↦
        let (m, le, before, found) =
          probe-Answer fuel (suc i) (without (candidate base i) files)
            (omega (arith, length-without (candidate base i) files (all i (omega arith) e)))
            (λ j le g.
              IsFile-without (candidate base i) (candidate base j) files
                (λ h. absurd (omega (arith, candidate-injective base j i h)))
                (all j (omega arith) g)) in
        (m, omega arith, before_too i m e before, rw (probe_exists fuel i e) found)
    | inr (inl e) ↦
        (i, omega arith, (λ j le lt. absurd (omega arith)), inl (e, probe_not_exist fuel i e))
    | inr (inr (x, e)) ↦
        (i, omega arith, (λ j le lt. absurd (omega arith)), inr (x, e, probe-failed fuel i x e))
  ]

module _ (f : Float64) (join : Text → Text → Text) (stat : Text → Stat) (s : SessionV4 f)
    (filename : Text) where
  abbrev pub base_path : Text
  base_path = join s.config.artifacts_dir filename

  -- Where the artifacts directory is set and the existing candidates are among some files,
  -- `NextSummaryPath` ends within one round more than there are files: all candidates in front of
  -- the last one tried exist, and it either is the answer, and no file, or its `Stat` failed and that
  -- is the error. So no existing summary is overwritten.
  pub next_summary_path_first :
      (files : List Text)
      → s.config.artifacts_dir ≢ []
      → ((j : ℕ) → stat (candidate base_path j) ≡ exists → IsFile (candidate base_path j) files)
      → (m : ℕ) × ((j : ℕ) → j < m → stat (candidate base_path j) ≡ exists)
        × (((stat (candidate base_path m) ≡ not_exist)
              × (next_summary_path f join stat (suc (length files)) s filename
                  ≡ some (ok (candidate base_path m))))
            ⊎ ((e : Text) × (stat (candidate base_path m) ≡ failed e)
                × (next_summary_path f join stat (suc (length files)) s filename ≡ some (err e))))
  unfolding next_summary_path Answer
  next_summary_path_first files ne all =
      let (m, le, before, found) =
        probe-Answer f stat base_path (suc (length files)) 0 files (omega arith)
          (λ j le e. all j e) in
      (m, (λ j lt. before j (omega arith) lt), rw (equal-ne s.config.artifacts_dir [] ne) found)
