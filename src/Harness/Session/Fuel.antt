-- ===== src/Harness/Session/Fuel.antt =====
-- test/e2e/harness/session_v4.go: the search of `NextSummaryPath` ends, and with more fuel alike.
use my_operator.Base.{
  ℕ, zero, suc, ◌+◌, Bool, true, false, Option, some, List, [], ap, ◌≡◌, arith, refl, ◌∙◌,
  if◌then◌else◌, Text, Result, ok, err, length, inl, inr, Bool-cases,
}
use my_operator.Engine.{Env}
use my_operator.Float64.{Float64}
use my_operator.Harness.Session.{
  Stat, exists, SessionV4, probe, next_summary_path, after_path, end_session,
  should_write_artifacts, summary_filename,
}
use my_operator.Harness.Session.Paths.{IsFile, next_summary_path_first, Stat-cases}
use my_operator.Summary.{Time, Summary}
use my_operator.Text.{equal, ne_of_equal}

-- From some fuel on, the run has one result.
abbrev pub Total : {A : Type 0} → (ℕ → Option A) → Type 0
Total {A} g = (n : ℕ) × (r : A) × ((k : ℕ) → g (k + n) ≡ some r)

add_suc : (k n : ℕ) → k + suc n ≡ suc (k + n)
add_suc k n = omega arith

module _ (f : Float64) (st : Text → Stat) (base : Text) where
  probe_more :
      (fuel k i : ℕ) (path : Text) (r : Result Text Text)
      → probe f st base fuel i path ≡ some r
      → probe f st base (k + fuel) i path ≡ some r
  unfolding probe
  probe_more zero k i path r h = cc
  probe_more (suc fuel) k i path r h = elim (Stat-cases (st path)) [
    | inl e ↦ rw (add_suc k fuel, probe, e) (probe_more fuel k (suc i) _ r (rw (probe, e) at h))
    | inr (inl e) ↦ rw (add_suc k fuel, probe, e) (rw (probe, e) at h)
    | inr (inr (x, e)) ↦ rw (add_suc k fuel, probe, e) (rw (probe, e) at h)
  ]

Total-map :
    {A B : Type 0} (h : Option A → Option B) (g : ℕ → Option A)
    → ((a : A) → (b : B) × (h (some a) ≡ some b))
    → Total g
    → Total (λ n. h (g n))
Total-map h g all (n, r, e) = let (b, d) = all r in (n, b, λ k. ap h (e k) ∙ d)

Total-const : {A : Type 0} (r : A) → Total (λ n. some r)
Total-const r = (0, r, λ k. refl)

module _ (f : Float64) (join : Text → Text → Text) (st : Text → Stat) (s : SessionV4 f)
    (filename : Text) (files : List Text) where
  next_summary_path-more :
      (n k : ℕ) (r : Result Text Text)
      → next_summary_path f join st n s filename ≡ some r
      → next_summary_path f join st (k + n) s filename ≡ some r
  unfolding next_summary_path
  next_summary_path-more n k r h = elim (Bool-cases (equal s.config.artifacts_dir [])) [
    | inl e ↦ rw e (rw e at h)
    | inr e ↦ rw e (probe_more f st _ n k 1 _ r (rw e at h))
  ]

  Total-next_summary_path :
      ((path : Text) → st path ≡ exists → IsFile path files)
      → Total (λ n. next_summary_path f join st n s filename)
  unfolding next_summary_path
  Total-next_summary_path all = elim (Bool-cases (equal s.config.artifacts_dir [])) [
    | inl e ↦ (0, ok [], λ k. rw e refl)
    | inr e ↦
        let (m, before, found) =
          next_summary_path_first f join st s filename files
            (ne_of_equal s.config.artifacts_dir [] e) (λ j g. all _ g) in
        let n = suc (length files) in
        elim found [
          | inl (free, g) ↦ (n, _, λ k. next_summary_path-more n k _ g)
          | inr (x, bad, g) ↦ (n, _, λ k. next_summary_path-more n k _ g)
        ]
  ]

module _ (f : Float64) (env : Env f) (join : Text → Text → Text) (stat : Text → env.World → Stat)
    (files : env.World → List Text) where
  open env use {World, now}

  -- At any time there are only finitely many files.
  abbrev pub Finite : Type 0
  Finite = (path : Text) (w : World) → stat path w ≡ exists → IsFile path (files w)

  after_path-some :
      (s : SessionV4 f) (t : Time) (w : World) (o : Result Text Text)
      → (r : Result Text (Summary f) × World) × (after_path f env join stat s t (some o) w ≡ some r)
  unfolding after_path
  after_path-some s t w (ok path) = (_, refl)
  after_path-some s t w (err e) = (_, refl)

  Total-chosen :
      (b : Bool) (g : ℕ → Option (Result Text Text))
      → Total g
      → Total (λ n. if b then g n else some (ok []))
  Total-chosen true g h = h
  Total-chosen false g h = Total-const (ok [])

  -- `End` ends.
  pub Total-end_session :
      (s : SessionV4 f) (w : World) → Finite → Total (λ n. end_session f env join stat n s w)
  unfolding end_session
  Total-end_session s w finite =
      let st = λ (path : Text). stat path (now w).1 in
      let search = λ (n : ℕ). next_summary_path f join st n s (summary_filename f s) in
      Total-map (λ o. after_path f env join stat s (now w).0 o (now w).1)
        (λ n. if should_write_artifacts f s then search n else some (ok []))
        (after_path-some s (now w).0 (now w).1)
        (Total-chosen (should_write_artifacts f s) search (
          Total-next_summary_path f join st s (summary_filename f s) (files (now w).1)
            (λ path. finite path (now w).1)))
