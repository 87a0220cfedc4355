-- ===== src/Harness/Session/Ending.antt =====
-- test/e2e/harness/session_v4.go: what `End` runs, and where it writes.
use my_operator.Base.{ℕ, suc, ◌<◌, true, some, List, [], ◌≡◌, ◌≢◌, Text, err, length, inl, inr, ◌⊎◌}
use my_operator.Engine.{Env, execute_v4}
use my_operator.Float64.{Float64}
use my_operator.Harness.Session.{
  Stat, exists, not_exist, failed, SessionV4, after_path, end_session, request,
  should_write_artifacts, summary_filename,
}
use my_operator.Harness.Session.Paths.{candidate, IsFile, next_summary_path_first}
use my_operator.Text.{equal-ne}

module _ (f : Float64) (env : Env f) (join : Text → Text → Text) (stat : Text → env.World → Stat)
    (s : SessionV4 f) (w : env.World) where
  open env use {World, now}

  -- The summary's path, before any number is added to it.
  abbrev pub first_path : Text
  first_path = join s.config.artifacts_dir (summary_filename f s)

  -- What `Stat` finds once the clock is read.
  abbrev pub found : Text → Stat
  found p = stat p (now w).1

  writes_artifacts : s.config.artifacts_dir ≢ [] → should_write_artifacts f s ≡ true
  unfolding should_write_artifacts
  writes_artifacts ne = rw (equal-ne s.config.artifacts_dir [] ne)

  -- Where the artifacts directory is set and the existing candidates for the summary's path are among
  -- some files, `End` ends within one probe more than there are files. Either it is the v4 run with
  -- the session's run ID, tags and specs, started at the session's start and finished when `End`
  -- reads the clock, which writes to the first candidate that is no file; or a `Stat` failed, and its
  -- error is returned with nothing fetched or written.
  pub end_session_writes_free :
      (files : List Text)
      → s.config.artifacts_dir ≢ []
      → ((j : ℕ) → found (candidate first_path j) ≡ exists → IsFile (candidate first_path j) files)
      → (m : ℕ) × ((j : ℕ) → j < m → found (candidate first_path j) ≡ exists)
        × (((found (candidate first_path m) ≡ not_exist)
              × (end_session f env join stat (suc (length files)) s w
                  ≡ some (
                      execute_v4 f env
                        (request f env join stat s (now w).0 (candidate first_path m))
                        (now w).1)))
            ⊎ ((e : Text) × (found (candidate first_path m) ≡ failed e)
                × (end_session f env join stat (suc (length files)) s w ≡ some (err e, (now w).1))))
  unfolding end_session after_path
  end_session_writes_free files ne all =
      let (m, before, answer) =
        next_summary_path_first f join found s (summary_filename f s) files ne all in
      (
        m,
        before,
        elim answer [
          | inl (free, e) ↦ inl (free, rw (writes_artifacts ne, e))
          | inr (x, bad, e) ↦ inr (x, bad, rw (writes_artifacts ne, e))
        ],
      )
