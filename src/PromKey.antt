-- ===== src/PromKey.antt =====
-- pkg/slo/common/promkey/promkey.go: keys of Prometheus metrics.
pub mod Escape
pub mod Loop
pub mod Token
mod Stored
pub mod RoundTrip
pub mod Scan
pub mod Total
pub mod Order
pub mod Canonical
pub mod Apart
use my_operator.Base.{
  ℕ, zero, suc, ◌+◌, ◌-◌, Bool, true, false, ◌&&◌, ◌||◌, Option, none, some, List, [], ◌∷◌, ◌++◌,
  ◌==◌, if◌then◌else◌, Text, codes, length, take, Result, ok, err, ◌>>=◌,
}
use my_operator.Text.{equal, trim_space, index_byte, has_suffix, slice}
use my_operator.Text.Sort.{sort_strings}
use my_operator.GoMap.{GoMap, lookup, put, index, keys}

abbrev pub Labels : Type 0
Labels = GoMap Text

-- The errors of `Parse`, with what their messages quote. The last two are no errors of the
-- source: they mark a slice expression out of range, and a loop that has used up its fuel.
pub data Error : Type 0 where
  empty_token : Error
  missing_brace : Text → Error
  missing_equals : Text → Error
  missing_quote : Text → Text → Error
  unterminated : Text → Text → Error
  escape_at_end : Text → Text → Error
  unescape_label : Text → Error
  slice_panic : Error
  out_of_fuel : Error

abbrev pub backslash : ℕ
backslash = b'\\'

abbrev pub quote : ℕ
quote = b'"'

-- What one round of `EscapeLabelValue` writes.
unfoldable pub escape_byte : ℕ → Text
escape_byte c =
    if c == backslash
    then backslash ∷ backslash ∷ []
    else if c == quote
    then backslash ∷ quote ∷ []
    else if c == b'\n'
    then backslash ∷ b'n' ∷ []
    else if c == b'\t'
    then backslash ∷ b't' ∷ []
    else if c == b'\r'
    then backslash ∷ b'r' ∷ []
    else c ∷ []

unfoldable pub escape_onto : Text → Text → Text
escape_onto out [] = out
escape_onto out (c ∷ v) = escape_onto (out ++ escape_byte c) v

unfoldable pub escape_label_value : Text → Text
unfolding escape_onto escape_byte
escape_label_value v = escape_onto [] v

-- The byte that stands behind a backslash.
unfoldable pub unescape_byte : ℕ → ℕ
unescape_byte c =
    if c == backslash
    then backslash
    else if c == quote
    then quote
    else if c == b'n'
    then b'\n'
    else if c == b't'
    then b'\t'
    else if c == b'r'
    then b'\r'
    else c

-- `none` is the error "dangling escape".
pub unescape_onto : Text → Text → Option Text
unescape_onto out [] = some out
unescape_onto out (c ∷ []) = if c == backslash then none else some (out ++ c ∷ [])
unescape_onto out (c ∷ d ∷ v) = elim (c == backslash) [
  | true ↦ unescape_onto (out ++ unescape_byte d ∷ []) v
  | false ↦ unescape_onto (out ++ c ∷ []) (d ∷ v)
]

unfoldable pub unescape_label_value : Text → Option Text
unfolding unescape_onto unescape_byte
unescape_label_value v = unescape_onto [] v

-- The key up to '=', and what stands behind the '='.
unfoldable pub scan_key : Text → Text → Option (Text × Text)
scan_key key [] = none
scan_key key (c ∷ s) = if c == b'=' then some (key, s) else scan_key (key ++ c ∷ []) s

unfoldable pub skip_separators : Text → Text
skip_separators [] = []
skip_separators (c ∷ s) =
    let rest = skip_separators s in if c == b' ' || c == b',' then rest else c ∷ s

unfoldable pub skip_spaces : Text → Text
skip_spaces [] = []
skip_spaces (c ∷ s) = let rest = skip_spaces s in if c == b' ' then rest else c ∷ s

-- How the loop over a quoted value ends: at the closing quote, with the raw value and the rest, or
-- at the end of the labels.
pub data Quoted : Type 0 where
  closed : Text → Text → Quoted
  open_end : Quoted
  open_escape : Quoted

unfoldable pub scan_value : Text → Text → Quoted
scan_value raw [] = open_end
scan_value raw (c ∷ []) =
    if c == quote then closed raw [] else if c == backslash then open_escape else open_end
scan_value raw (c ∷ d ∷ s) =
    let escaped = scan_value (raw ++ backslash ∷ d ∷ []) s in
    let plain = scan_value (raw ++ c ∷ []) (d ∷ s) in
    if c == quote then closed raw (d ∷ s) else if c == backslash then escaped else plain

store : Text → Option Text → Labels → Result Error Labels
store key none labels = err (unescape_label key)
store key (some val) labels = ok (put key val labels)

-- From the quoted value on: what is left of the labels, and the labels stored so far.
close_value : Text → Text → Quoted → Labels → Result Error (Text × Labels)
unfolding store
close_value s key (closed raw rest) labels = do
  stored ← store key (unescape_label_value raw) labels
  ok (rest, stored)
close_value s key open_end labels = err (unterminated key s)
close_value s key open_escape labels = err (escape_at_end key s)

open_value : Text → Text → Text → Labels → Result Error (Text × Labels)
unfolding close_value
open_value s key [] labels = err (missing_quote key s)
open_value s key (c ∷ rest) labels =
    if c == quote then close_value s key (scan_value [] rest) labels else err (missing_quote key s)

-- One round of the loop, behind the separators; `s` is the whole text, which the errors quote.
parse_label : Text → Option (Text × Text) → Labels → Result Error (Text × Labels)
unfolding open_value
parse_label s none labels = err (missing_equals s)
parse_label s (some (key, rest)) labels = open_value s (trim_space key) (skip_spaces rest) labels

-- The loop of `parseLabels`. A round takes at least one code point, so the fuel never runs out
-- where it exceeds the length.
unfoldable pub label_loop : ℕ → Text → Text → Labels → Result Error Labels
unfolding parse_label
label_loop zero s rest labels = err out_of_fuel
label_loop (suc fuel) s rest labels = elim (skip_separators rest) [
  | [] ↦ ok labels
  | c ∷ cs ↦ parse_label s (scan_key [] (c ∷ cs)) labels >>= λ r. label_loop fuel s r.0 r.1
]

unfoldable pub parse_labels : Text → Result Error Labels
unfolding label_loop
parse_labels s = label_loop (suc (length s)) s s []

or_panic : Option Text → Result Error Text
or_panic none = err slice_panic
or_panic (some s) = ok s

-- `Parse` behind the search for '{'.
parse_at : Text → Option ℕ → Result Error (Text × Labels)
unfolding or_panic
parse_at token none = ok (token, [])
parse_at token (some br) =
    if has_suffix token (b'}' ∷ [])
    then (do
      name ← or_panic (slice token 0 br)
      inside ← or_panic (slice token (br + 1) (length token - 1))
      labels ← parse_labels inside
      ok (name, labels))
    else err (missing_brace token)

unfoldable pub parse : Text → Result Error (Text × Labels)
unfolding parse_at
parse raw =
    let token = trim_space raw in
    if equal token [] then err empty_token else parse_at token (index_byte token b'{')

-- The loop over the sorted keys; the flag is `i > 0`.
unfoldable pub write_labels : Labels → Bool → List Text → Text
write_labels labels behind [] = []
write_labels labels behind (k ∷ ks) =
    (if behind then b',' ∷ [] else [])
    ++ (k
        ++ (b'='
            ∷ quote
            ∷ (escape_label_value (index [] labels k) ++ (quote ∷ write_labels labels true ks))))

unfoldable pub format : Text → Labels → Text
unfolding write_labels
format name [] = name
format name (l ∷ ls) =
    name ++ (b'{' ∷ (write_labels (l ∷ ls) false (sort_strings (keys (l ∷ ls))) ++ (b'}' ∷ [])))

unfoldable pub canonicalize : Text → Result Error Text
canonicalize token = do parsed ← parse token; ok (format parsed.0 parsed.1)
