-- ===== src/Engine/OnDisk.antt =====
-- pkg/slo/engine and pkg/slo/summary together: the engine with the JSON file writer.
use mathlib.Core.Path.{subst, subst₂}
use my_operator.Base.{Option, none, some, [], ◌≡◌, ◌≢◌, refl, sym, ap, true, Text, Result, ok, err}
use my_operator.Engine.{Env, Sample, ExecuteRequest, execute}
use my_operator.Engine.Runs.{is_set, full_summary, outcome_of, execute_full}
use my_operator.Float64.{Float64}
use my_operator.GoMap.{lookup}
use my_operator.Summary.{Time, Summary}
use my_operator.Summary.Writer.{Files, Os, pattern, write_json_atomic, write}
use my_operator.Summary.Writer.Atomic.{Ended, write_json_atomic_outcome}
use my_operator.Text.{equal-ne}

module _ (f : Float64) (os : Os) (encode : Summary f → Result Text Text) where
  -- What the operating system promises: a temporary file is a new one, and not the path itself; a
  -- write without an error has written all of the text.
  abbrev pub TempIsNew : Text → Files → Type 0
  TempIsNew path files =
      (tmp : Text)
      → os.create_temp (os.dir path) (pattern f os encode path) files ≡ ok tmp
      → (lookup tmp files ≡ none) × (tmp ≢ path)

  abbrev pub WritesAll : Type 0
  WritesAll =
      (k text : Text) (files : Files)
      → (os.write_file k text files).1 ≡ none
      → (os.write_file k text files).0 ≡ text

  -- How a run to the path changes the files `old` to `new`: with a summary, the path holds its text,
  -- and every other path what it held; with an error, every old file is as it was.
  abbrev pub Recorded : Text → Result Text (Summary f) → Files → Files → Type 0
  Recorded path (ok s) old new =
      ((text : Text) × (encode s ≡ ok text) × (lookup path new ≡ some text))
      × ((k : Text) → k ≢ path → lookup k new ≡ lookup k old)
  Recorded path (err e) old new = (k : Text) → lookup k old ≢ none → lookup k new ≡ lookup k old

  write_named :
      (path : Text) (s : Summary f) (files : Files)
      → path ≢ []
      → write f os encode path s (record { files = files; past = [] })
        ≡ write_json_atomic f os encode true path s (record { files = files; past = [] })
  unfolding write
  write_named path s files ne = rw (equal-ne path [] ne) refl

  pub result_of : Summary f → Option Text → Result Text (Summary f)
  result_of s none = ok s
  result_of s (some e) = err e

  Ended-Recorded :
      (path : Text) (s : Summary f) (old new : Files) (e : Option Text)
      → Ended f os encode path s old e new
      → Recorded path (result_of s e) old new
  unfolding result_of
  Ended-Recorded path s old new none h = h
  Ended-Recorded path s old new (some e) h = h.0

  pub write-Recorded :
      (path : Text) (s : Summary f) (files : Files)
      → path ≢ []
      → TempIsNew path files
      → WritesAll
      → Recorded path
          (result_of s (write f os encode path s (record { files = files; past = [] })).0)
          files
          (write f os encode path s (record { files = files; past = [] })).1.files
  write-Recorded path s files ne fresh whole =
      subst (λ r. Recorded path (result_of s r.0) files r.1.files)
        (sym (write_named path s files ne))
        (Ended-Recorded path s files _ _
          (write_json_atomic_outcome f os encode path s files true fresh whole))

  module _ {W : Type 0} (fetch : Time → W → Result Text (Sample f) × W) (now : W → Time × W) where
    -- `New` with a `JSONFileWriter`: the fetcher and the clock have a world of their own, beside the
    -- files.
    abbrev pub disk_env : Env f
    disk_env = record {
      World = W × Files;
      fetch = λ t w. ((fetch t w.0).0, ((fetch t w.0).1, w.1));
      write = λ path s w. (
        (write f os encode path s (record { files = w.1; past = [] })).0,
        (w.0, (write f os encode path s (record { files = w.1; past = [] })).1.files),
      );
      now = λ w. ((now w.0).0, ((now w.0).1, w.1));
    }

    outcome-result :
        (s : Summary f) (o : Option Text) (r : Result Text (Summary f))
        → r ≡ outcome_of f disk_env s o
        → r ≡ result_of s o
    unfolding result_of
    outcome-result s none r h = h
    outcome-result s (some e) r h = h

    module _ (req : ExecuteRequest f) (w : W) (files : Files) where
      -- The engine with the JSON writer, where both times and a path are given and both fetches
      -- succeed: where it returns a summary, that is the full one, the file at the path holds its
      -- JSON, and every other file is as it was; where it returns an error, every old file is as it
      -- was.
      pub execute-Recorded :
          (start end : Sample f) (w1 w2 : W)
          → is_set f disk_env req ≡ true
          → req.out_path ≢ []
          → TempIsNew req.out_path files
          → WritesAll
          → fetch req.config.started_at w ≡ (ok start, w1)
          → fetch req.config.finished_at w1 ≡ (ok end, w2)
          → Recorded req.out_path
              (execute f disk_env req (w, files)).0
              files
              (execute f disk_env req (w, files)).1.1
      execute-Recorded start end w1 w2 set ne fresh whole e1 e2 =
          let sum = full_summary f disk_env req start end (now w2).0 in
          let (e, g) =
            execute_full f disk_env req (w, files) start end (w1, files) (w2, files) set
              (ap (λ r. (r.0, (r.1, files))) e1) (ap (λ r. (r.0, (r.1, files))) e2) in
          subst₂ (λ r v. Recorded req.out_path r files v.1)
            (sym (outcome-result sum _ (execute f disk_env req (w, files)).0 g)) (sym e)
            (write-Recorded req.out_path sum files ne fresh whole)
