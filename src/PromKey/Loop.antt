-- ===== src/PromKey/Loop.antt =====
-- pkg/slo/common/promkey/promkey.go: `parseLabels` on the labels that `Format` writes.
use mathlib.Core.List.{cons-ne-nil, append-ne-nil_of_right_ne-nil}
use my_operator.Base.{
  ℕ, zero, suc, ◌≤◌, ◌<◌, Bool, true, false, some, List, [], ◌∷◌, ◌++◌, append-nil, append_assoc,
  ◌≡◌, ◌≢◌, refl, ◌∙◌, arith, Text, All, length, length-append, ok, ◌>>=◌,
}
use my_operator.GoMap.{put, index}
use my_operator.Text.{is_space}
use my_operator.Text.Trim.{NoSpace, trim_space-NoSpace}
use my_operator.PromKey.{
  Labels, quote, escape_label_value, scan_key, skip_separators, skip_spaces, parse_label,
  label_loop, parse_labels, write_labels,
}
use my_operator.PromKey.Escape.{escape-escaped, unescape-escape, scan_value-escaped}

abbrev pub IsKeyByte : ℕ → Type 0
IsKeyByte c = (is_space c ≡ false) × (c ≢ b'=') × (c ≢ b',')

abbrev pub IsNameByte : ℕ → Type 0
IsNameByte c = (is_space c ≡ false) × (c ≢ b'{')

-- A label name with no space, '=' or ','.
abbrev pub IsLabelName : Text → Type 0
IsLabelName = All IsKeyByte

-- A metric name with no space and no '{'.
abbrev pub IsMetricName : Text → Type 0
IsMetricName = All IsNameByte

skip_separators-key :
    (k rest : Text) → IsLabelName k → skip_separators (k ++ b'=' ∷ rest) ≡ k ++ b'=' ∷ rest
unfolding skip_separators is_space
skip_separators-key [] rest h = refl
skip_separators-key (c ∷ k) rest h = ground arith

scan_key-append :
    (k acc rest : Text) → IsLabelName k → scan_key acc (k ++ b'=' ∷ rest) ≡ some (acc ++ k, rest)
unfolding scan_key
scan_key-append [] acc rest h = rw append-nil
scan_key-append (c ∷ k) acc rest h =
    ground (arith, scan_key-append k (acc ++ c ∷ []) rest h.1, append_assoc acc (c ∷ []) k)

IsLabelName-NoSpace : (k : Text) → IsLabelName k → NoSpace k
IsLabelName-NoSpace [] h = tt
IsLabelName-NoSpace (c ∷ k) h = (h.0.0, IsLabelName-NoSpace k h.1)

-- One label as `Format` writes it.
abbrev label_text : Text → Text → Text → Text
label_text k v rest = k ++ (b'=' ∷ quote ∷ (escape_label_value v ++ (quote ∷ rest)))

parse_label-key :
    (s k v rest : Text) (labels : Labels)
    → IsLabelName k
    → parse_label s (some (k, quote ∷ (escape_label_value v ++ (quote ∷ rest)))) labels
      ≡ ok (rest, put k v labels)
unfolding parse_label skip_spaces
parse_label-key s k v rest labels h = rw (
  trim_space-NoSpace k (IsLabelName-NoSpace k h),
  escape-escaped v,
  scan_value-escaped v [] rest,
  ← escape-escaped v,
  unescape-escape v,
)

label_loop-nonempty :
    (fuel : ℕ) (s t : Text) (labels : Labels)
    → t ≢ []
    → skip_separators t ≡ t
    → label_loop (suc fuel) s t labels
      ≡ (parse_label s (scan_key [] t) labels >>= λ r. label_loop fuel s r.0 r.1)
unfolding label_loop
label_loop-nonempty fuel s [] labels h e = absurd (h refl)
label_loop-nonempty fuel s (c ∷ t) labels h e = rw (e, label_loop)

label_loop-label :
    (fuel : ℕ) (s k v rest : Text) (labels : Labels)
    → IsLabelName k
    → label_loop (suc fuel) s (label_text k v rest) labels ≡ label_loop fuel s rest (put k v labels)
label_loop-label fuel s k v rest labels h =
    label_loop-nonempty fuel s (label_text k v rest) labels
      (append-ne-nil_of_right_ne-nil k (cons-ne-nil _ _)) (skip_separators-key k _ h)
    ∙ rw (scan_key-append k [] _ h, parse_label-key s k v rest labels h)

-- A separator in front changes nothing.
label_loop-comma :
    (fuel : ℕ) (s rest : Text) (labels : Labels)
    → label_loop fuel s (b',' ∷ rest) labels ≡ label_loop fuel s rest labels
unfolding label_loop skip_separators
label_loop-comma zero s rest labels = refl
label_loop-comma (suc fuel) s rest labels = refl

-- What the loop stores for the keys `ks` of `labels`.
unfoldable pub stored : Labels → Labels → List Text → Labels
stored labels acc [] = acc
stored labels acc (k ∷ ks) = stored labels (put k (index [] labels k) acc) ks

label_loop-write_labels :
    (ks : List Text) (labels : Labels) (behind : Bool) (fuel : ℕ) (s : Text) (acc : Labels)
    → All IsLabelName ks
    → length ks < fuel
    → label_loop fuel s (write_labels labels behind ks) acc ≡ ok (stored labels acc ks)
unfolding write_labels stored
label_loop-write_labels ks labels behind zero s acc h lt = absurd (omega arith)
label_loop-write_labels [] labels behind (suc fuel) s acc h lt =
    unfold label_loop skip_separators in refl
label_loop-write_labels (k ∷ ks) labels true (suc fuel) s acc h lt =
    label_loop-comma (suc fuel) s _ acc
    ∙ label_loop-label fuel s k _ _ acc h.0
    ∙ label_loop-write_labels ks labels true fuel s _ h.1 (omega arith)
label_loop-write_labels (k ∷ ks) labels false (suc fuel) s acc h lt =
    label_loop-label fuel s k _ _ acc h.0
    ∙ label_loop-write_labels ks labels true fuel s _ h.1 (omega arith)

length-write_labels :
    (ks : List Text) (labels : Labels) (behind : Bool)
    → length ks ≤ length (write_labels labels behind ks)
unfolding write_labels
length-write_labels [] labels behind = omega arith
length-write_labels (k ∷ ks) labels true =
    omega (arith, length-append {0}, length-write_labels ks labels true)
length-write_labels (k ∷ ks) labels false =
    let value = escape_label_value (index [] labels k) in
    let rest = quote ∷ write_labels labels true ks in
    rw (length-append k (b'=' ∷ quote ∷ (value ++ rest)), length-append value rest)
      (omega (arith, length-write_labels ks labels true))

pub parse_labels-write_labels :
    (ks : List Text) (labels : Labels)
    → All IsLabelName ks
    → parse_labels (write_labels labels false ks) ≡ ok (stored labels [] ks)
unfolding parse_labels
parse_labels-write_labels ks labels h =
    label_loop-write_labels ks labels false (suc (length (write_labels labels false ks))) _ [] h
      (omega (arith, length-write_labels ks labels false))
