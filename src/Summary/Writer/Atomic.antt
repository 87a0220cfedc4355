-- ===== src/Summary/Writer/Atomic.antt =====
-- pkg/slo/summary/writer.go: what `writeJSONAtomic` leaves on the disk, at its end and at a crash
-- after any of its system calls.
use my_operator.Base.{
  Bool, Option, none, some, [], ◌∷◌, ◌≡◌, ◌≢◌, refl, sym, ap, ◌∙◌, arith, if◌then◌else◌, Text,
  Result, ok, err, inl, inr, ◌⊎◌, All, Bool-cases, Option-cases,
}
use my_operator.Float64.{Float64}
use my_operator.GoMap.{lookup, put, lookup-put, SameMap, equal_refl}
use my_operator.Summary.{Summary}
use my_operator.Summary.Writer.{
  Files, Disk, Os, delete, change, removed, give_up, moved, after_rename, after_chmod, after_close,
  after_sync, after_write, after_encode, after_create_temp, after_mkdir_all, pattern,
  write_json_atomic,
}
use my_operator.Text.{equal, equal_iff, equal-ne, ne_of_equal}

lookup-delete :
    (k j : Text) (m : Files) → lookup j (delete k m) ≡ (if equal k j then none else lookup j m)
unfolding lookup delete
lookup-delete k j [] = ground arith
lookup-delete k j ((i, v) ∷ m) =
    ground (arith, equal_iff k j, equal_iff i k, equal_iff i j, lookup-delete k j m)

module _ (f : Float64) (os : Os) (encode : Summary f → Result Text Text) (path : Text)
    (s : Summary f) (old : Files) where
  -- The file at the path is the old one, or the whole new text.
  abbrev pub Kept : Files → Type 0
  Kept files =
      (lookup path files ≡ lookup path old)
      ⊎ ((text : Text) × (encode s ≡ ok text) × (lookup path files ≡ some text))

  abbrev pub KeptDisk : Disk → Type 0
  KeptDisk d = Kept d.files × All Kept d.past

  -- The temporary file of this run is still there, since the last call, its `Remove`, failed; every
  -- other path is as it was.
  abbrev pub LeftOver : Files → Type 0
  LeftOver files =
      (tmp x : Text) × (os.create_temp (os.dir path) (pattern f os encode path) old ≡ ok tmp)
      × (os.remove tmp files ≡ some x)
      × ((k : Text) → k ≢ tmp → lookup k files ≡ lookup k old)

  -- On an error the files are the old ones, but for a temporary file whose `Remove` failed. On success
  -- the path has the whole text, and the other paths are as they were.
  abbrev pub Ended : Option Text → Files → Type 0
  Ended (some e) files =
      ((k : Text) → lookup k old ≢ none → lookup k files ≡ lookup k old)
      × (SameMap files old ⊎ LeftOver files)
  Ended none files =
      ((text : Text) × (encode s ≡ ok text) × (lookup path files ≡ some text))
      × ((k : Text) → k ≢ path → lookup k files ≡ lookup k old)

  module _ (tmp : Text) (fresh : lookup tmp old ≡ none) (ne : tmp ≢ path)
      (made : os.create_temp (os.dir path) (pattern f os encode path) old ≡ ok tmp) where
    Others : Files → Type 0
    Others files = (k : Text) → k ≢ tmp → lookup k files ≡ lookup k old

    Staged : Disk → Type 0
    Staged d = Others d.files × All Kept d.past

    Done : Option Text × Disk → Type 0
    Done r = Ended r.0 r.1.files × KeptDisk r.1

    ne_tmp : (k : Text) → lookup k old ≢ none → k ≢ tmp
    ne_tmp k h e = h (ap (λ x. lookup x old) e ∙ fresh)

    Others-Kept : (files : Files) → Others files → Kept files
    unfolding Others
    Others-Kept files h = inl (h path (λ e. ne (sym e)))

    same_without : (files : Files) → Others files → SameMap (delete tmp files) old
    unfolding Others
    same_without files h k = elim (Bool-cases (equal tmp k)) [
      | inl e ↦ lookup-delete tmp k files ∙ rw (e, sym ((equal_iff tmp k).0 e), fresh)
      | inr e ↦ lookup-delete tmp k files ∙ rw e (h k (λ g. ne_of_equal tmp k e (sym g)))
    ]

    removed-Done :
        (e : Text) (d : Disk) (answer : Option Text)
        → os.remove tmp d.files ≡ answer
        → Staged d
        → Done (some e, removed f os encode tmp answer d)
    unfolding Staged Done Others removed change
    removed-Done e d (some x) eq (h, p) =
        (((λ k g. h k (ne_tmp k g)), inr (tmp, x, made, eq, h)), (Others-Kept d.files h, p))
    removed-Done e d none eq (h, p) = (
      ((λ k g. same_without d.files h k), inl (same_without d.files h)),
      (inl (same_without d.files h path), (Others-Kept d.files h, p)),
    )

    give_up-Done : (e : Text) (d : Disk) → Staged d → Done (give_up f os encode tmp e d)
    unfolding give_up
    give_up-Done e d h = removed-Done e d (os.remove tmp d.files) refl h

    moved-Kept :
        (d : Disk) (text : Text) → lookup path (put path text (delete tmp d.files)) ≡ some text
    moved-Kept d text = lookup-put path path text (delete tmp d.files) ∙ rw (equal_refl path)

    -- From here on the temporary file has the whole text.
    module _ (text : Text) (enc : encode s ≡ ok text) where
      after_rename-Done :
          (answer : Option Text) (d : Disk)
          → Staged d
          → lookup tmp d.files ≡ some text
          → Done (after_rename f os encode tmp path answer d)
      unfolding after_rename moved change Staged Done
      after_rename-Done (some e) d h g = give_up-Done e d h
      after_rename-Done none d (h, p) g = rw g (
        (
          (text, enc, moved-Kept d text),
          λ k kp.
              lookup-put path k text (delete tmp d.files)
              ∙ rw (equal-ne path k (λ e. kp (sym e))) (same_without d.files h k),
        ),
        (inr (text, enc, moved-Kept d text), (Others-Kept d.files h, p)),
      )

      after_chmod-Done :
          (answer : Option Text) (d : Disk)
          → Staged d
          → lookup tmp d.files ≡ some text
          → Done (after_chmod f os encode tmp path answer d)
      unfolding after_chmod
      after_chmod-Done (some e) d h g = give_up-Done e d h
      after_chmod-Done none d h g = after_rename-Done (os.rename tmp path d.files) d h g

      after_close-Done :
          (answer : Option Text) (d : Disk)
          → Staged d
          → lookup tmp d.files ≡ some text
          → Done (after_close f os encode tmp path answer d)
      unfolding after_close
      after_close-Done (some e) d h g = give_up-Done e d h
      after_close-Done none d h g = after_chmod-Done (os.chmod tmp d.files) d h g

      after_sync-Done :
          (answer : Option Text) (d : Disk)
          → Staged d
          → lookup tmp d.files ≡ some text
          → Done (after_sync f os encode tmp path answer d)
      unfolding after_sync
      after_sync-Done (some e) d h g = give_up-Done e d h
      after_sync-Done none d h g = after_close-Done (os.close tmp d.files) d h g

      after_write-Done :
          (do_sync : Bool) (answer : Option Text) (d : Disk)
          → Staged d
          → (answer ≡ none → lookup tmp d.files ≡ some text)
          → Done (after_write f os encode do_sync tmp path answer d)
      unfolding after_write
      after_write-Done do_sync (some e) d h g = give_up-Done e d h
      after_write-Done do_sync none d h g =
          after_sync-Done (if do_sync then os.sync tmp d.files else none) d h (g refl)

    Staged-put : (d : Disk) (text : Text) → Staged d → Staged (change (put tmp text d.files) d)
    unfolding Staged Others change
    Staged-put d text (h, p) = (
      (λ k g. lookup-put tmp k text d.files ∙ rw (equal-ne tmp k (λ e. g (sym e))) (h k g)),
      (Others-Kept d.files h, p),
    )

    after_encode-Done :
        (do_sync : Bool) (encoded : Result Text Text) (d : Disk)
        → ((k text : Text) (files : Files)
            → (os.write_file k text files).1 ≡ none
            → (os.write_file k text files).0 ≡ text)
        → encode s ≡ encoded
        → Staged d
        → Done (after_encode f os encode do_sync tmp path encoded d)
    unfolding after_encode change
    after_encode-Done do_sync (err e) d whole enc h = give_up-Done e d h
    after_encode-Done do_sync (ok text) d whole enc h =
        after_write-Done text enc do_sync (os.write_file tmp text d.files).1
          (change (put tmp (os.write_file tmp text d.files).0 d.files) d)
          (Staged-put d (os.write_file tmp text d.files).0 h)
          (λ g.
            lookup-put tmp tmp (os.write_file tmp text d.files).0 d.files
            ∙ rw (equal_refl tmp, whole tmp text d.files g))

  -- The error of a step before the temporary file: nothing is changed.
  unchanged : (e : Text) → Ended (some e) old × KeptDisk (record { files = old; past = [] })
  unchanged e = (((λ k g. refl), inl (λ k. refl)), (inl refl, tt))

  after_create_temp-Done :
      (do_sync : Bool) (temp : Result Text Text)
      → os.create_temp (os.dir path) (pattern f os encode path) old ≡ temp
      → ((tmp : Text) → temp ≡ ok tmp → (lookup tmp old ≡ none) × (tmp ≢ path))
      → ((k text : Text) (files : Files)
          → (os.write_file k text files).1 ≡ none
          → (os.write_file k text files).0 ≡ text)
      → Ended
          (after_create_temp f os encode do_sync path s temp (record { files = old; past = [] })).0
          (after_create_temp f os encode do_sync path s temp
            (record { files = old; past = [] })).1.files
        × KeptDisk
            (after_create_temp f os encode do_sync path s temp
              (record { files = old; past = [] })).1
  unfolding after_create_temp Done Staged Others
  after_create_temp-Done do_sync (err e) made is_fresh whole = unchanged e
  after_create_temp-Done do_sync (ok tmp) made is_fresh whole =
      let (fresh, ne) = is_fresh tmp refl in
      after_encode-Done tmp fresh ne made do_sync (encode s)
        (change (put tmp [] old) (record { files = old; past = [] })) whole refl
        (Staged-put tmp fresh ne made (record { files = old; past = [] }) [] ((λ k g. refl), tt))

  written-Done :
      (do_sync : Bool)
      → ((tmp : Text)
          → os.create_temp (os.dir path) (pattern f os encode path) old ≡ ok tmp
          → (lookup tmp old ≡ none) × (tmp ≢ path))
      → ((k text : Text) (files : Files)
          → (os.write_file k text files).1 ≡ none
          → (os.write_file k text files).0 ≡ text)
      → Ended
          (write_json_atomic f os encode do_sync path s (record { files = old; past = [] })).0
          (write_json_atomic f os encode do_sync path s (record { files = old; past = [] })).1.files
        × KeptDisk
            (write_json_atomic f os encode do_sync path s (record { files = old; past = [] })).1
  unfolding write_json_atomic after_mkdir_all
  written-Done do_sync is_fresh whole = elim (Option-cases (os.mkdir_all (os.dir path) old)) [
    | inl e ↦ rw e (
        after_create_temp-Done do_sync (os.create_temp (os.dir path) (pattern f os encode path) old)
          refl is_fresh whole)
    | inr (x, e) ↦ rw e (unchanged x)
  ]

  -- If a temporary file that `CreateTemp` makes is a new file other than the path, and `Write` without
  -- an error has written all of the text, then the file at the path is the old one, or the whole text
  -- of the summary, behind each of the calls of `writeJSONAtomic`, failed or not: a crash in between
  -- leaves no half-written summary.
  pub write_json_atomic_crash :
      (do_sync : Bool)
      → ((tmp : Text)
          → os.create_temp (os.dir path) (pattern f os encode path) old ≡ ok tmp
          → (lookup tmp old ≡ none) × (tmp ≢ path))
      → ((k text : Text) (files : Files)
          → (os.write_file k text files).1 ≡ none
          → (os.write_file k text files).0 ≡ text)
      → KeptDisk
          (write_json_atomic f os encode do_sync path s (record { files = old; past = [] })).1
  write_json_atomic_crash do_sync is_fresh whole = (written-Done do_sync is_fresh whole).1

  -- If a temporary file that `CreateTemp` makes is a new file other than the path, and `Write`
  -- without an error has written all of the text, then: where `writeJSONAtomic` yields no error,
  -- the path has the text of the summary and every other path is as it was, the temporary one too;
  -- where it yields an error, every path is as it was, but for the temporary file of this call
  -- where its `Remove`, the last call, failed; every old file is as it was even then.
  pub write_json_atomic_outcome :
      (do_sync : Bool)
      → ((tmp : Text)
          → os.create_temp (os.dir path) (pattern f os encode path) old ≡ ok tmp
          → (lookup tmp old ≡ none) × (tmp ≢ path))
      → ((k text : Text) (files : Files)
          → (os.write_file k text files).1 ≡ none
          → (os.write_file k text files).0 ≡ text)
      → Ended
          (write_json_atomic f os encode do_sync path s (record { files = old; past = [] })).0
          (write_json_atomic f os encode do_sync path s (record { files = old; past = [] })).1.files
  write_json_atomic_outcome do_sync is_fresh whole = (written-Done do_sync is_fresh whole).0
