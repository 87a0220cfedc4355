-- ===== src/PromText.antt =====
-- pkg/slo/fetch/promtext/parse.go: the parser of the Prometheus exposition format.
pub mod Exposition
pub mod Skips
use my_operator.Base.{
  Bool, true, false, ◌||◌, Option, none, some, List, [], ◌∷◌, if◌then◌else◌, Text, Result, ok, err,
  ◌>>=◌,
}
use my_operator.Float64.{Float64}
use my_operator.GoMap.{GoMap, put}
use my_operator.PromKey
use my_operator.PromKey.{canonicalize}
use my_operator.Text.{equal, trim_space, has_prefix, fields}
use my_operator.Text.Lines.{scan_lines, drop_cr, is_too_long}

-- The errors of `ParseTextToMap`, with the line that the message quotes.
pub data ParseError : Type 0 where
  parse_float_error : Text → ParseError
  token_too_long : ParseError

module _ (f : Float64) where
  open f use {F, parse_float}

  store_value : Text → Text → Option F → GoMap F → Result ParseError (GoMap F)
  store_value line key none out = err (parse_float_error line)
  store_value line key (some v) out = ok (put key v out)

  -- A key that does not parse skips the line.
  store_line : Text → Result PromKey.Error Text → Text → GoMap F → Result ParseError (GoMap F)
  unfolding store_value
  store_line line (err e) val_str out = ok out
  store_line line (ok key) val_str out = store_value line key (parse_float val_str) out

  -- On the fields of a line.
  parse_fields : Text → List Text → GoMap F → Result ParseError (GoMap F)
  unfolding store_line
  parse_fields line (raw_key ∷ val_str ∷ more) out =
      store_line line (canonicalize raw_key) val_str out
  parse_fields line _ out = ok out

  -- One round of the loop, on the trimmed line.
  unfoldable pub parse_line : Text → GoMap F → Result ParseError (GoMap F)
  unfolding parse_fields
  parse_line line out =
      if equal line [] || has_prefix line (b'#' ∷ [])
      then ok out
      else parse_fields line (fields line) out

  unfoldable pub parse_lines : List Text → GoMap F → Result ParseError (GoMap F)
  parse_lines [] out = ok out
  parse_lines (raw ∷ rest) out =
      if is_too_long raw
      then err token_too_long
      else parse_line (trim_space (drop_cr raw)) out >>= λ out'. parse_lines rest out'

  unfoldable pub parse_text_to_map : Text → Result ParseError (GoMap F)
  unfolding parse_lines scan_lines
  parse_text_to_map r = parse_lines (scan_lines r) []
