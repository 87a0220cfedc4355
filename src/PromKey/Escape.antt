-- ===== src/PromKey/Escape.antt =====
-- pkg/slo/common/promkey/promkey.go: `EscapeLabelValue` and `UnescapeLabelValue`.
use my_operator.Base.{
  ℕ, some, [], ◌∷◌, ◌++◌, append-nil, append_assoc, ◌≡◌, ◌≢◌, refl, sym, arith, Text,
}
use my_operator.PromKey.{
  backslash, quote, escape_byte, escape_onto, escape_label_value, unescape_onto,
  unescape_label_value, closed, scan_value,
}

-- The output of `EscapeLabelValue` with no accumulator.
abbrev pub escaped : Text → Text
escaped [] = []
escaped (c ∷ v) = escape_byte c ++ escaped v

escape_onto-escaped : (v out : Text) → escape_onto out v ≡ out ++ escaped v
unfolding escape_onto
escape_onto-escaped [] out = sym (append-nil out)
escape_onto-escaped (c ∷ v) out = simp (escape_onto-escaped v, append_assoc)

pub escape-escaped : (v : Text) → escape_label_value v ≡ escaped v
unfolding escape_label_value
escape-escaped v = escape_onto-escaped v []

pub unescape_onto-cons :
    (c : ℕ) (out rest : Text)
    → c ≢ backslash
    → unescape_onto out (c ∷ rest) ≡ unescape_onto (out ++ c ∷ []) rest
unfolding unescape_onto
unescape_onto-cons c out [] h = ground arith
unescape_onto-cons c out (d ∷ rest) h = ground arith

unescape_onto-escape_byte :
    (c : ℕ) (out rest : Text)
    → unescape_onto out (escape_byte c ++ rest) ≡ unescape_onto (out ++ c ∷ []) rest
unfolding unescape_label_value escape_byte
unescape_onto-escape_byte c out rest = ground (arith, unescape_onto-cons c out rest)

unescape_onto-escaped : (v out : Text) → unescape_onto out (escaped v) ≡ some (out ++ v)
unescape_onto-escaped [] out = unfold unescape_onto in rw append-nil
unescape_onto-escaped (c ∷ v) out =
    simp (unescape_onto-escape_byte, unescape_onto-escaped v, append_assoc)

-- `UnescapeLabelValue` gives back every value that `EscapeLabelValue` escaped, and no error.
pub unescape-escape : (v : Text) → unescape_label_value (escape_label_value v) ≡ some v
unfolding unescape_label_value
unescape-escape v = rw escape-escaped (unescape_onto-escaped v [])

scan_value-cons :
    (c : ℕ) (raw rest : Text)
    → c ≢ backslash
    → c ≢ quote
    → scan_value raw (c ∷ rest) ≡ scan_value (raw ++ c ∷ []) rest
unfolding scan_value
scan_value-cons c raw [] h k = ground arith
scan_value-cons c raw (d ∷ rest) h k = ground arith

scan_value-escape_byte :
    (c : ℕ) (raw rest : Text)
    → scan_value raw (escape_byte c ++ rest) ≡ scan_value (raw ++ escape_byte c) rest
unfolding scan_value escape_byte
scan_value-escape_byte c raw rest = ground (arith, scan_value-cons c raw rest)

scan_value-quote : (raw rest : Text) → scan_value raw (quote ∷ rest) ≡ closed raw rest
unfolding scan_value
scan_value-quote raw [] = refl
scan_value-quote raw (c ∷ rest) = refl

-- The closing quote is found behind an escaped value, whatever stands in the value.
pub scan_value-escaped :
    (v raw rest : Text)
    → scan_value raw (escaped v ++ (quote ∷ rest)) ≡ closed (raw ++ escaped v) rest
scan_value-escaped [] raw rest = rw (append-nil) (scan_value-quote raw rest)
scan_value-escaped (c ∷ v) raw rest =
    simp (append_assoc, scan_value-escape_byte, scan_value-escaped v)
