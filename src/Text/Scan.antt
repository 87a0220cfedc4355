-- ===== src/Text/Scan.antt =====
-- The scanner on a text that is made of lines.
use my_operator.Base.{
  ℕ, List, [], ◌∷◌, ◌++◌, append-nil, append_assoc, ◌≡◌, ◌≢◌, refl, ap, ◌∙◌, arith, Text, All,
}
use my_operator.Text.Lines.{cut_lines, drop_empty_end, scan_lines, drop_cr}
use my_operator.Text.Trim.{NoSpace, append-ne-nil}
use my_operator.Text.{is_space}

abbrev pub IsLine : Text → Type 0
IsLine line = All (λ c. c ≢ b'\n') line × (line ≢ [])

-- Each line with its newline.
abbrev pub unlines : List Text → Text
unlines [] = []
unlines (l ∷ ls) = l ++ b'\n' ∷ unlines ls

pub cut_lines-append :
    (line cur rest : Text)
    → All (λ c. c ≢ b'\n') line
    → cut_lines cur (line ++ b'\n' ∷ rest) ≡ (cur ++ line) ∷ cut_lines [] rest
unfolding cut_lines
cut_lines-append [] cur rest h = rw append-nil
cut_lines-append (c ∷ line) cur rest h =
    ground (arith, cut_lines-append line (cur ++ c ∷ []) rest h.1, append_assoc cur (c ∷ []) line)

pub drop_empty_end-cons :
    (l : Text) (ls : List Text) → l ≢ [] → drop_empty_end (l ∷ ls) ≡ l ∷ drop_empty_end ls
unfolding drop_empty_end
drop_empty_end-cons [] ls h = absurd (h refl)
drop_empty_end-cons (c ∷ l) ls h = refl

-- The scanner sees the lines that the text is made of.
pub scan_lines-unlines : (ls : List Text) → All IsLine ls → scan_lines (unlines ls) ≡ ls
unfolding scan_lines
scan_lines-unlines [] h = unfold cut_lines in refl
scan_lines-unlines (l ∷ ls) ((h, ne), hs) =
    rw (cut_lines-append l [] (unlines ls) h)
      (drop_empty_end-cons l _ ne ∙ ap (◌∷◌ l) (scan_lines-unlines ls hs))

drop_cr-cons : (c : ℕ) (s : Text) → s ≢ [] → drop_cr (c ∷ s) ≡ c ∷ drop_cr s
unfolding drop_cr
drop_cr-cons c [] h = absurd (h refl)
drop_cr-cons c (d ∷ s) h = refl

drop_cr-NoSpace : (v : Text) → NoSpace v → drop_cr v ≡ v
unfolding drop_cr is_space
drop_cr-NoSpace [] h = refl
drop_cr-NoSpace (c ∷ []) h = ground arith
drop_cr-NoSpace (c ∷ d ∷ v) h = ap (◌∷◌ c) (drop_cr-NoSpace (d ∷ v) h.1)

pub drop_cr-append : (s v : Text) → NoSpace v → v ≢ [] → drop_cr (s ++ v) ≡ s ++ v
drop_cr-append [] v h ne = drop_cr-NoSpace v h
drop_cr-append (c ∷ s) v h ne =
    drop_cr-cons c (s ++ v) (append-ne-nil s v ne) ∙ ap (◌∷◌ c) (drop_cr-append s v h ne)
