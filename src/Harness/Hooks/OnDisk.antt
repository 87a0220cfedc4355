-- ===== src/Harness/Hooks/OnDisk.antt =====
-- test/e2e/harness/attach_v4.go with the engine and the JSON writer on one disk: a container of tests.
use my_operator.Base.{
  ℕ, ◌+◌, Option, none, some, List, [], ◌∷◌, ◌≡◌, ◌≢◌, sym, ◌∙◌, inl, inr, Bool-cases, Text, Result,
  ok, err, All,
}
use my_operator.Engine.{Sample}
use my_operator.Engine.OnDisk.{disk_env, TempIsNew, WritesAll, Recorded, write-Recorded}
use my_operator.Float64.{Float64}
use my_operator.GoMap.{lookup, keys}
use my_operator.Harness.Hooks.{run_tests_v4}
use my_operator.Harness.Hooks.Ends.{run_tests_v4_lossless}
use my_operator.Harness.Hooks.Shared.{Holds}
use my_operator.Harness.Session.{Stat, exists, not_exist, failed, SessionV4}
use my_operator.Harness.Session.OnDisk.{stat_of, exists-IsFile}
use my_operator.Summary.{Time, Summary}
use my_operator.Summary.Writer.{Files, Os, write}
use my_operator.Text.{equal, ne_of_equal}

-- `os.Stat` on the files: the first argument is its error, if it fails.
abbrev pub stat_answer : Option Text → Option Text → Stat
stat_answer (some e) o = failed e
stat_answer none o = stat_of o

abbrev pub stat_with : {W : Type 0} → (Text → Files → Option Text) → Text → W × Files → Stat
stat_with fails path v = stat_answer (fails path v.1) (lookup path v.1)

stat_answer-exists : (x o : Option Text) → stat_answer x o ≡ exists → stat_of o ≡ exists
stat_answer-exists none o h = h
stat_answer-exists (some e) o h = cc

stat_answer-ne : (x o : Option Text) (c : Text) → o ≡ some c → stat_answer x o ≢ not_exist
stat_answer-ne none o c h k = stat_of-ne c (rw h at k)
  where
    stat_of-ne : (c : Text) → stat_of (some c) ≡ not_exist → ⊥
    stat_of-ne c k = cc
stat_answer-ne (some e) o c h k = cc

some-ne-none : (o : Option Text) (c : Text) → o ≡ some c → o ≢ none
some-ne-none o c h k = cc

module _ (f : Float64) (os : Os) (encode : Summary f → Result Text Text) (q c : Text) where
  Recorded-spares :
      (path : Text) (r : Result Text (Summary f)) (old new : Files)
      → path ≢ q
      → lookup q old ≢ none
      → Recorded f os encode path r old new
      → lookup q new ≡ lookup q old
  Recorded-spares path (ok s) old new ne is (held, others) = others q (λ e. ne (sym e))
  Recorded-spares path (err e) old new ne is all = all q is

  -- A write to another path leaves the file alone, whatever goes wrong in it.
  write_spares :
      (path : Text) (s : Summary f) (files : Files)
      → TempIsNew f os encode path files
      → WritesAll f os encode
      → path ≢ q
      → lookup q files ≡ some c
      → lookup q (write f os encode path s (record { files = files; past = [] })).1.files ≡ some c
  unfolding write
  write_spares path s files fresh whole ne h = elim (Bool-cases (equal path [])) [
    | inl e ↦ rw e h
    | inr e ↦
        Recorded-spares path _ files _ ne (some-ne-none (lookup q files) c h)
          (write-Recorded f os encode path s files (ne_of_equal path [] e) fresh whole)
        ∙ h
  ]

  module _ {W : Type 0} (fetch : Time → W → Result Text (Sample f) × W) (now : W → Time × W)
      (join : Text → Text → Text) (stat_fails : Text → Files → Option Text) where
    -- The file is there, with its text.
    abbrev pub Has : W × Files → Type 0
    Has v = lookup q v.1 ≡ some c

    abbrev content : Text → W × Files → Option Text
    content path v = lookup path v.1

    HasFile : W × Files → Type 0
    HasFile = Holds f (disk_env f os encode fetch now) (stat_with stat_fails) content q c

    Has-HasFile : (v : W × Files) → Has v → HasFile v
    unfolding HasFile
    Has-HasFile v h = (stat_answer-ne (stat_fails q v.1) (lookup q v.1) c h, h)

    HasFile-Has : (v : W × Files) → HasFile v → Has v
    unfolding HasFile
    HasFile-Has v h = h.1

    bodies_spare :
        (bodies : List (W × Files → W × Files))
        → All (λ body. (v : W × Files) → Has v → Has (body v)) bodies
        → All (λ body. (v : W × Files) → HasFile v → HasFile (body v)) bodies
    bodies_spare [] h = tt
    bodies_spare (body ∷ bodies) (h, hs) =
        ((λ v k. Has-HasFile (body v) (h v (HasFile-Has v k))), bodies_spare bodies hs)

    -- On a disk on which a temporary file is a new one, and a write without an error writes all of
    -- the text, a container of v4 tests around one session ends, whichever other calls of the
    -- operating system, `Stat` too, fetches or encodings fail; and a file that no test touches itself is still
    -- there with its text: no summary replaces it, though all tests share one file name. More fuel
    -- changes nothing.
    pub run_tests_v4-Has :
        (bodies : List (W × Files → W × Files)) (s : SessionV4 f) (w : W) (files : Files)
        → ((path : Text) (now_there : Files) → TempIsNew f os encode path now_there)
        → WritesAll f os encode
        → q ≢ []
        → All (λ body. (v : W × Files) → Has v → Has (body v)) bodies
        → Has (w, files)
        → (n : ℕ) × (r : SessionV4 f × (W × Files)) × ((k : ℕ)
            → run_tests_v4 f
                (disk_env f os encode fetch now)
                join
                (stat_with stat_fails)
                (k + n)
                bodies
                s
                (w, files)
              ≡ some r)
          × Has r.1
    unfolding HasFile
    run_tests_v4-Has bodies s w files fresh whole ne inert h =
        let (n, r, ends, kept) =
          run_tests_v4_lossless f (disk_env f os encode fetch now) join (stat_with stat_fails)
            (λ v. keys v.1) content q c bodies s (w, files)
            (λ path v g.
              exists-IsFile path v.1 (stat_answer-exists (stat_fails path v.1) (lookup path v.1) g))
            (
              (λ t v g. g),
              (λ v g. g),
              λ path other sum v g.
                  Has-HasFile (disk_write path sum v)
                    (write_spares path sum v.1 (fresh path v.1) whole other (HasFile-Has v g)),
            )
            ne (bodies_spare bodies inert) (Has-HasFile (w, files) h) in
        (n, r, ends, HasFile-Has r.1 kept)
      where
        disk_write : Text → Summary f → W × Files → W × Files
        disk_write path sum v =
            (v.0, (write f os encode path sum (record { files = v.1; past = [] })).1.files)
