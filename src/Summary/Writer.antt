-- ===== src/Summary/Writer.antt =====
-- pkg/slo/summary/writer.go: the JSON file writer, on a disk whose system calls may fail.
pub mod Atomic
use my_operator.Base.{
  Bool, true, false, Option, none, some, List, [], ◌∷◌, ◌++◌, if◌then◌else◌, Text, codes, Result,
  ok, err,
}
use my_operator.Float64.{Float64}
use my_operator.GoMap.{GoMap, lookup, put}
use my_operator.Summary.{Summary}
use my_operator.Text.{equal}

-- The contents of the files, by path.
abbrev pub Files : Type 0
Files = GoMap Text

-- The files now, and those that earlier calls left, the latest first: what a crash would leave.
pub record Disk : Type 0 where
  pub files : Files
  pub past : List Files

-- What the calls of package os answer: an error, or none. `write_file` also tells what it left in
-- the file, and `dir` and `base` stand for path/filepath.
pub record Os : Type 0 where
  pub dir : Text → Text
  pub base : Text → Text
  pub mkdir_all : Text → Files → Option Text
  pub create_temp : Text → Text → Files → Result Text Text
  pub write_file : Text → Text → Files → Text × Option Text
  pub sync : Text → Files → Option Text
  pub close : Text → Files → Option Text
  pub chmod : Text → Files → Option Text
  pub rename : Text → Text → Files → Option Text
  pub remove : Text → Files → Option Text

unfoldable pub delete : Text → Files → Files
delete k [] = []
delete k ((j, v) ∷ m) = if equal j k then delete k m else (j, v) ∷ delete k m

unfoldable pub change : Files → Disk → Disk
change files d = record { files = files; past = d.files ∷ d.past }

-- `encode` stands for encoding/json: the text of a summary, or an error, as on a NaN.
module _ (f : Float64) (os : Os) (encode : Summary f → Result Text Text) where
  -- The deferred function of a call that did not succeed; both errors are dropped.
  removed : Text → Option Text → Disk → Disk
  unfolding change delete
  removed tmp (some e) d = d
  removed tmp none d = change (delete tmp d.files) d

  give_up : Text → Text → Disk → Option Text × Disk
  unfolding removed
  give_up tmp e d = (some e, removed tmp (os.remove tmp d.files) d)

  moved : Text → Text → Option Text → Files → Files
  unfolding put delete
  moved tmp path none files = files
  moved tmp path (some text) files = put path text (delete tmp files)

  after_rename : Text → Text → Option Text → Disk → Option Text × Disk
  unfolding moved lookup give_up
  after_rename tmp path (some e) d = give_up tmp e d
  after_rename tmp path none d = (none, change (moved tmp path (lookup tmp d.files) d.files) d)

  after_chmod : Text → Text → Option Text → Disk → Option Text × Disk
  unfolding after_rename
  after_chmod tmp path (some e) d = give_up tmp e d
  after_chmod tmp path none d = after_rename tmp path (os.rename tmp path d.files) d

  after_close : Text → Text → Option Text → Disk → Option Text × Disk
  unfolding after_chmod
  after_close tmp path (some e) d = give_up tmp e d
  after_close tmp path none d = after_chmod tmp path (os.chmod tmp d.files) d

  after_sync : Text → Text → Option Text → Disk → Option Text × Disk
  unfolding after_close
  after_sync tmp path (some e) d = give_up tmp e d
  after_sync tmp path none d = after_close tmp path (os.close tmp d.files) d

  after_write : Bool → Text → Text → Option Text → Disk → Option Text × Disk
  unfolding after_sync
  after_write do_sync tmp path (some e) d = give_up tmp e d
  after_write do_sync tmp path none d =
      after_sync tmp path (if do_sync then os.sync tmp d.files else none) d

  -- `Encode` makes the whole text before its one write.
  after_encode : Bool → Text → Text → Result Text Text → Disk → Option Text × Disk
  unfolding after_write
  after_encode do_sync tmp path (err e) d = give_up tmp e d
  after_encode do_sync tmp path (ok text) d =
      let (left, failed) = os.write_file tmp text d.files in
      after_write do_sync tmp path failed (change (put tmp left d.files) d)

  after_create_temp : Bool → Text → Summary f → Result Text Text → Disk → Option Text × Disk
  unfolding after_encode
  after_create_temp do_sync path s (err e) d = (some e, d)
  after_create_temp do_sync path s (ok tmp) d =
      after_encode do_sync tmp path (encode s) (change (put tmp [] d.files) d)

  abbrev pub pattern : Text → Text
  pattern path = os.base path ++ codes ".*.tmp"

  after_mkdir_all : Bool → Text → Summary f → Option Text → Disk → Option Text × Disk
  unfolding after_create_temp
  after_mkdir_all do_sync path s (some e) d = (some e, d)
  after_mkdir_all do_sync path s none d =
      after_create_temp do_sync path s (os.create_temp (os.dir path) (pattern path) d.files) d

  -- The error, or none, and the disk behind the call.
  unfoldable pub write_json_atomic : Bool → Text → Summary f → Disk → Option Text × Disk
  unfolding after_mkdir_all
  write_json_atomic do_sync path s d =
      after_mkdir_all do_sync path s (os.mkdir_all (os.dir path) d.files) d

  unfoldable pub write : Text → Summary f → Disk → Option Text × Disk
  unfolding write_json_atomic
  write path s d = if equal path [] then (none, d) else write_json_atomic true path s d
