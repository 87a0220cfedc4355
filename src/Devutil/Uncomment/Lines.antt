-- ===== src/Devutil/Uncomment/Lines.antt =====
-- pkg/devutil/patch.go: a target that is made of commented lines.
use my_operator.Base.{
  ◌+◌, true, false, Option, none, some, List, [], ◌∷◌, ◌++◌, append_assoc, append-nil, ◌≡◌, ◌≢◌,
  refl, sym, ap, ◌∙◌, arith, Text, All, length, drop, take-append, drop-append, length-append, ok,
}
use my_operator.Devutil.Uncomment.{
  index_of, trim_prefix, scanned, uncommented, with_lines, written, at_index, uncomment_code,
}
use my_operator.Text.{has_prefix}
use my_operator.Text.Lines.{cut_lines, drop_empty_end, scan_lines, drop_cr, is_too_long}
use my_operator.Text.Scan.{cut_lines-append, drop_empty_end-cons}

-- The lines with newlines between them.
abbrev pub joined : List Text → Text
joined [] = []
joined (line ∷ []) = line
joined (line ∷ next ∷ lines) = line ++ (b'\n' ∷ joined (next ∷ lines))

-- The same with the prefix in front of every line.
abbrev pub commented : Text → List Text → List Text
commented prefix [] = []
commented prefix (line ∷ lines) = (prefix ++ line) ∷ commented prefix lines

-- A line, with the prefix, that the scanner yields as it is.
abbrev pub IsWhole : Text → Type 0
IsWhole line =
    All (λ c. c ≢ b'\n') line × (line ≢ []) × (drop_cr line ≡ line) × (is_too_long line ≡ false)

has_prefix-append : (prefix line : Text) → has_prefix (prefix ++ line) prefix ≡ true
unfolding has_prefix
has_prefix-append [] line = has_prefix-nil line
  where
    has_prefix-nil : (s : Text) → has_prefix s [] ≡ true
    has_prefix-nil s = refl
has_prefix-append (c ∷ prefix) line = ground (arith, has_prefix-append prefix line)

trim_prefix-append : (prefix line : Text) → trim_prefix (prefix ++ line) prefix ≡ line
unfolding trim_prefix
trim_prefix-append prefix line = rw (has_prefix-append prefix line, drop-append prefix line)

cut_lines_last :
    (line cur : Text) → All (λ c. c ≢ b'\n') line → cut_lines cur line ≡ (cur ++ line) ∷ []
unfolding cut_lines
cut_lines_last [] cur h = rw append-nil
cut_lines_last (c ∷ line) cur h =
    ground (arith, cut_lines_last line (cur ++ c ∷ []) h.1, append_assoc cur (c ∷ []) line)

scan_lines-joined :
    (line : Text) (lines : List Text)
    → All IsWhole (line ∷ lines)
    → scan_lines (joined (line ∷ lines)) ≡ line ∷ lines
unfolding scan_lines drop_empty_end
scan_lines-joined line [] ((h, ne, cr, short), tt) =
    rw (cut_lines_last line [] h) (drop_empty_end-cons line [] ne)
scan_lines-joined line (next ∷ lines) ((h, ne, cr, short), hs) =
    rw (cut_lines-append line [] (joined (next ∷ lines)) h)
      (drop_empty_end-cons line _ ne ∙ ap (◌∷◌ line) (scan_lines-joined next lines hs))

scanned-IsWhole : (lines : List Text) → All IsWhole lines → scanned lines ≡ lines
unfolding scanned
scanned-IsWhole [] h = refl
scanned-IsWhole (line ∷ lines) ((h, ne, cr, short), hs) = rw (short, cr, scanned-IsWhole lines hs)

uncommented-commented :
    (prefix : Text) (lines : List Text) → uncommented prefix (commented prefix lines) ≡ joined lines
unfolding uncommented
uncommented-commented prefix [] = refl
uncommented-commented prefix (line ∷ []) = trim_prefix-append prefix line
uncommented-commented prefix (line ∷ next ∷ lines) =
    rw (trim_prefix-append prefix line, uncommented-commented prefix (next ∷ lines))

module _ (quote : Text → Text) (filename : Text) (write_error : Option Text) where
  written_out :
      (out : Text) (e : Option Text) → (written quote filename write_error out e).1 ≡ some out
  unfolding written
  written_out out none = refl
  written_out out (some e) = refl

  drop_both :
      (before t after : Text) → drop (length before + length t) (before ++ (t ++ after)) ≡ after
  drop_both before t after =
      rw (sym (length-append before t), sym (append_assoc before t after))
        (drop-append (before ++ t) after)

  at_index-found :
      (before t after prefix line : Text) (lines : List Text)
      → scanned (scan_lines t) ≡ line ∷ lines
      → (at_index quote filename write_error
          (before ++ (t ++ after))
          t
          prefix
          (some (length before))).1
        ≡ some (before ++ (uncommented prefix (line ∷ lines) ++ after))
  unfolding at_index with_lines
  at_index-found before t after prefix line lines h =
      rw (h, take-append before (t ++ after), drop_both before t after) (written_out _ write_error)

  -- A target of commented lines, each not empty with its prefix, with no line break at its end, and short
  -- enough for the scanner: where its first occurrence in the file stands between `before` and
  -- `after`, `UncommentCode` writes the file with the same lines without the prefix, and everything
  -- around them as it was.
  pub uncomment_code-commented :
      (before after prefix line : Text) (lines : List Text)
      → All IsWhole (commented prefix (line ∷ lines))
      → index_of
          (before ++ (joined (commented prefix (line ∷ lines)) ++ after))
          (joined (commented prefix (line ∷ lines)))
        ≡ some (length before)
      → (uncomment_code quote filename write_error
          (ok (before ++ (joined (commented prefix (line ∷ lines)) ++ after)))
          (joined (commented prefix (line ∷ lines)))
          prefix).1
        ≡ some (before ++ (joined (line ∷ lines) ++ after))
  unfolding uncomment_code
  uncomment_code-commented before after prefix line lines whole first = rw first (
      at_index-found before (joined (commented prefix (line ∷ lines))) after prefix (prefix ++ line)
        (commented prefix lines)
        (ap scanned (scan_lines-joined (prefix ++ line) (commented prefix lines) whole)
          ∙ scanned-IsWhole (commented prefix (line ∷ lines)) whole)
      ∙ ap (λ t. some (before ++ (t ++ after))) (uncommented-commented prefix (line ∷ lines)))
