-- ===== src/Text/Lines.antt =====
-- `bufio.Scanner` with its default split function and buffer, and `strings.Split` at newlines.
use my_operator.Base.{
  ℕ, ◌+◌, ◌*◌, leb, Bool, true, false, List, [], ◌∷◌, ◌++◌, ltb, ◌==◌, if◌then◌else◌, Text,
}

-- The bytes that a text takes in UTF-8.
unfoldable pub byte_length : Text → ℕ
byte_length [] = 0
byte_length (c ∷ s) =
    (if ltb c 0x80 then 1 else if ltb c 0x800 then 2 else if ltb c 0x10000 then 3 else 4)
    + byte_length s

-- The pieces between newlines; `cur` is the piece that is being read.
unfoldable pub cut_lines : Text → Text → List Text
cut_lines cur [] = cur ∷ []
cut_lines cur (c ∷ s) = elim (c == b'\n') [
  | true ↦ cur ∷ cut_lines [] s
  | false ↦ cut_lines (cur ++ c ∷ []) s
]

-- `strings.Split(s, "\n")`
unfoldable pub split_lines : Text → List Text
unfolding cut_lines
split_lines s = cut_lines [] s

-- `bufio.ScanLines` makes no line of an empty piece at the end.
unfoldable pub drop_empty_end : List Text → List Text
drop_empty_end [] = []
drop_empty_end ([] ∷ []) = []
drop_empty_end (l ∷ ls) = l ∷ drop_empty_end ls

-- The lines that a scanner sees, each with the '\r' that may stand at its end.
unfoldable pub scan_lines : Text → List Text
unfolding drop_empty_end split_lines
scan_lines s = drop_empty_end (split_lines s)

unfoldable pub drop_cr : Text → Text
drop_cr [] = []
drop_cr (c ∷ []) = if c == b'\r' then [] else c ∷ []
drop_cr (c ∷ d ∷ s) = c ∷ drop_cr (d ∷ s)

-- `bufio.MaxScanTokenSize`. A line of so many bytes fills the buffer before its end is seen, and
-- the scanner stops with `bufio.ErrTooLong`.
abbrev pub max_scan_token_size : ℕ
max_scan_token_size = 64 * 1024

unfoldable pub is_too_long : Text → Bool
unfolding byte_length
is_too_long line = leb max_scan_token_size (byte_length line)
