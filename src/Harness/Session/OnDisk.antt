-- ===== src/Harness/Session/OnDisk.antt =====
-- test/e2e/harness/session_v4.go with the engine and the JSON writer on one disk: what `End` records.
use my_operator.Base.{
  ℕ, zero, suc, false, Option, none, some, [], ◌∷◌, ◌≡◌, not_or, ◌≢◌, refl, sym, inl, inr,
  Bool-cases, Text, Result, ok, length,
}
use mathlib.Core.List.{cons-ne-nil}
use my_operator.Engine.{Sample, execute_v4, v4_request}
use my_operator.Engine.OnDisk.{disk_env, TempIsNew, WritesAll, Recorded, execute-Recorded}
use my_operator.Float64.{Float64}
use my_operator.GoMap.{lookup, keys}
use my_operator.Harness.Session.{
  Stat, exists, not_exist, failed, SessionV4, end_session, request, summary_filename,
}
use my_operator.Harness.Session.Ending.{end_session_writes_free}
use my_operator.Harness.Session.Paths.{candidate, IsFile}
use my_operator.Summary.{Time, Summary, is_zero}
use my_operator.Summary.Writer.{Files, Os}
use my_operator.Text.{equal, equal_iff}
use my_operator.Text.Trim.{append-ne-nil}

-- `os.Stat` on the files.
abbrev pub stat_of : Option Text → Stat
stat_of none = not_exist
stat_of (some text) = exists

abbrev pub stat : {W : Type 0} → Text → W × Files → Stat
stat path v = stat_of (lookup path v.1)

stat_of-not_exist : (o : Option Text) → stat_of o ≡ not_exist → o ≡ none
stat_of-not_exist none h = refl
stat_of-not_exist (some t) h = cc

stat_of-failed : (o : Option Text) (e : Text) → stat_of o ≡ failed e → ⊥
stat_of-failed none e h = cc
stat_of-failed (some t) e h = cc

pub exists-IsFile :
    (k : Text) (files : Files) → stat_of (lookup k files) ≡ exists → IsFile k (keys files)
unfolding lookup keys
exists-IsFile k [] h = cc
exists-IsFile k ((j, v) ∷ files) h = elim (Bool-cases (equal j k)) [
  | inl e ↦ inl (sym ((equal_iff j k).0 e))
  | inr e ↦ inr (exists-IsFile k files (rw e at h))
]

candidate-ne-nil : (base : Text) (m : ℕ) → base ≢ [] → candidate base m ≢ []
candidate-ne-nil base zero ne = ne
candidate-ne-nil base (suc i) ne = append-ne-nil base _ (cons-ne-nil _ _)

module _ (f : Float64) (os : Os) (encode : Summary f → Result Text Text) {W : Type 0}
    (fetch : Time → W → Result Text (Sample f) × W) (now : W → Time × W) (join : Text → Text → Text)
    (s : SessionV4 f) (w : W) (files : Files) where
  -- Where the directory for artifacts is set, the session has started, and both fetches succeed, `End`
  -- ends within one probe more than there are files. It has picked a path at which there was no
  -- file; where it returns a summary, that path now holds its JSON and every other file is as it
  -- was, and where it returns an error, every old file is as it was. So no earlier summary is lost.
  pub end_session-Recorded :
      (start end : Sample f) (w1 w2 : W)
      → s.config.artifacts_dir ≢ []
      → join s.config.artifacts_dir (summary_filename f s) ≢ []
      → is_zero s.started ≡ false
      → is_zero (now w).0 ≡ false
      → ((path : Text) → TempIsNew f os encode path files)
      → WritesAll f os encode
      → fetch s.started (now w).1 ≡ (ok start, w1)
      → fetch (now w).0 w1 ≡ (ok end, w2)
      → (path : Text) × (r : Result Text (Summary f)) × (v : W) × (new : Files) × (lookup path files
          ≡ none)
        × (end_session f
              (disk_env f os encode fetch now)
              join
              stat
              (suc (length (keys files)))
              s
              (w, files)
            ≡ some (r, (v, new)))
        × Recorded f os encode path r files new
  unfolding execute_v4 v4_request request
  end_session-Recorded start end w1 w2 dir named a b fresh whole e1 e2 =
      let (m, before, answer) =
        end_session_writes_free f (disk_env f os encode fetch now) join stat s (w, files)
          (keys files) dir (λ j h. exists-IsFile _ files h) in
      let path = candidate (join s.config.artifacts_dir (summary_filename f s)) m in
      elim answer [
        | inr (x, bad, e) ↦ absurd (stat_of-failed _ x bad)
        | inl (free, e) ↦ (
          path,
          _,
          _,
          _,
          stat_of-not_exist _ free,
          e,
          execute-Recorded f os encode fetch now
              (v4_request f (disk_env f os encode fetch now)
                (request f (disk_env f os encode fetch now) join stat s (now w).0 path))
              (now w).1 files start end w1 w2 (not_or _ _ a b) (candidate-ne-nil _ m named)
              (fresh path) whole e1 e2,
        )
      ]
