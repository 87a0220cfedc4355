-- ===== src/Harness/Hooks/Ends.antt =====
-- test/e2e/harness/attach_v4.go: a container of tests ends, and no file that was there is lost.
use mathlib.Core.Path.{subst}
use my_operator.Base.{Option, ℕ, ◌+◌, some, List, [], ◌∷◌, ◌≡◌, ◌≢◌, refl, arith, Text, All}
use my_operator.Engine.{Env}
use my_operator.Float64.{Float64}
use my_operator.Harness.Hooks.{
  before_each_v4, ended_v4, after_each_v4, with_session, run_test_v4, run_next, run_tests_v4,
}
use my_operator.Harness.Hooks.Shared.{
  OthersKeep, Holds, StillHolds, world_of, run_tests_v4-StillHolds,
}
use my_operator.Harness.Session.{Stat, SessionV4, start}
use my_operator.Harness.Session.Fuel.{Total, Finite, Total-end_session}

plus_right : (k m n : ℕ) → (k + n) + m ≡ k + (m + n)
plus_right k m n = omega arith

plus_left : (k m n : ℕ) → (k + m) + n ≡ k + (m + n)
plus_left k m n = omega arith

module _ (f : Float64) (env : Env f) (join : Text → Text → Text) (stat : Text → env.World → Stat)
    (files : env.World → List Text) where
  open env use {World, now}

  Total-run_test_v4 :
      (body : World → World) (s : SessionV4 f) (w : World)
      → Finite f env join stat files
      → Total (λ n. run_test_v4 f env join stat n body s w)
  unfolding run_test_v4 before_each_v4 after_each_v4 with_session ended_v4
  Total-run_test_v4 body s w finite =
      let s1 = start f (now w).0 s in
      let (n, (r, w2), e) = Total-end_session f env join stat files s1 (body (now w).1) finite in
      (n, (s1, w2), λ k. rw (e k) refl)

  run_tests_v4_step :
      (n : ℕ) (body : World → World) (bodies : List (World → World)) (s : SessionV4 f) (w : World)
      (r1 r2 : SessionV4 f × World)
      → run_test_v4 f env join stat n body s w ≡ some r1
      → run_tests_v4 f env join stat n bodies r1.0 r1.1 ≡ some r2
      → run_tests_v4 f env join stat n (body ∷ bodies) s w ≡ some r2
  unfolding run_tests_v4 run_next
  run_tests_v4_step n body bodies s w r1 r2 e1 e2 = rw e1 e2

  Total-run_tests_v4 :
      (bodies : List (World → World)) (s : SessionV4 f) (w : World)
      → Finite f env join stat files
      → Total (λ n. run_tests_v4 f env join stat n bodies s w)
  unfolding run_tests_v4
  Total-run_tests_v4 [] s w finite = (0, (s, w), λ k. refl)
  Total-run_tests_v4 (body ∷ bodies) s w finite =
      let (n1, r1, e1) = Total-run_test_v4 body s w finite in
      let (n2, r2, e2) = Total-run_tests_v4 bodies r1.0 r1.1 finite in
      (
        n1 + n2,
        r2,
        λ k.
            run_tests_v4_step (k + (n1 + n2)) body bodies s w r1 r2
              (subst (λ n. run_test_v4 f env join stat n body s w ≡ some r1) (plus_right k n1 n2)
                (e1 (k + n2)))
              (subst (λ n. run_tests_v4 f env join stat n bodies r1.0 r1.1 ≡ some r2)
                (plus_left k n1 n2) (e2 (k + n1))),
      )

  -- Where at any time there are only finitely many files, and the clock, the fetches, the writes to
  -- other paths and the tests themselves leave the file `q` alone, a container of tests around one
  -- session ends, and the file is still there with what it held: no test's summary overwrites a file
  -- that is there, such as the summary of a test before, though all tests share one run ID and so one
  -- file name. More fuel changes nothing.
  pub run_tests_v4_lossless :
      (content : Text → World → Option Text) (q c : Text) (bodies : List (World → World))
      (s : SessionV4 f) (w : World)
      → Finite f env join stat files
      → OthersKeep f env stat content q c
      → q ≢ []
      → All
          (λ body.
            (v : World) → Holds f env stat content q c v → Holds f env stat content q c (body v))
          bodies
      → Holds f env stat content q c w
      → (n : ℕ) × (r : SessionV4 f × World) × ((k : ℕ)
          → run_tests_v4 f env join stat (k + n) bodies s w ≡ some r)
        × Holds f env stat content q c r.1
  run_tests_v4_lossless content q c bodies s w finite keep ne inert h =
      let (n, r, e) = Total-run_tests_v4 bodies s w finite in
      (
        n,
        r,
        e,
        subst (λ o. StillHolds f env stat content q c (world_of f env join stat (0 + n) o)) (e 0)
            (run_tests_v4-StillHolds f env join stat (0 + n) content q c bodies s w keep ne inert
              h),
      )
