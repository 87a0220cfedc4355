-- ===== src/PromKey/Scan.antt =====
-- pkg/slo/common/promkey/promkey.go: which errors `parseLabels` can return.
use my_operator.Base.{
  ℕ, zero, suc, ◌≤◌, ◌<◌, Bool, true, false, Option, none, some, [], ◌∷◌, ◌++◌, append-nil,
  append_assoc, ◌≡◌, ◌≢◌, refl, ◌∙◌, arith, ◌==◌, if◌then◌else◌, Text, length, Result, ok, err,
  ◌>>=◌, inl, inr, Bool-cases, ne_of_==, List-cases,
}
use my_operator.Text.{trim_space}
use my_operator.PromKey.{
  Labels, Error, unescape_label, slice_panic, out_of_fuel, backslash, quote, unescape_onto,
  unescape_label_value, unescape_byte, scan_key, skip_separators, skip_spaces, Quoted, closed,
  open_end, open_escape, scan_value, close_value, open_value, parse_label, label_loop, parse_labels,
}
use my_operator.PromKey.Escape.{unescape_onto-cons}

-- The errors of the source, but for that of a failed unescape.
abbrev pub IsSyntaxError : Error → Type 0
IsSyntaxError (unescape_label k) = ⊥
IsSyntaxError slice_panic = ⊥
IsSyntaxError out_of_fuel = ⊥
IsSyntaxError _ = Unit

abbrev pub Fails {ℓ} : {A : Type ℓ} → (A → Type 0) → Result Error A → Type 0
Fails P (ok a) = P a
Fails P (err e) = IsSyntaxError e

length-skip_separators : (s : Text) → length (skip_separators s) ≤ length s
unfolding skip_separators
length-skip_separators [] = omega arith
length-skip_separators (c ∷ s) = ground (arith, length-skip_separators s)

length-skip_spaces : (s : Text) → length (skip_spaces s) ≤ length s
unfolding skip_spaces
length-skip_spaces [] = omega arith
length-skip_spaces (c ∷ s) = ground (arith, length-skip_spaces s)

abbrev KeyLt : ℕ → Option (Text × Text) → Type 0
KeyLt n none = Unit
KeyLt n (some (k, r)) = length r < n

scan_key-KeyLt : (s key : Text) (n : ℕ) → length s ≤ n → KeyLt n (scan_key key s)
unfolding scan_key
scan_key-KeyLt [] key n h = tt
scan_key-KeyLt (c ∷ s) key n h = elim (Bool-cases (c == b'=')) [
  | inl e ↦ rw e (omega arith)
  | inr e ↦ rw e (scan_key-KeyLt s (key ++ c ∷ []) n (omega arith))
]

-- A closed value is shorter than what was read, and its raw text can be unescaped.
abbrev QuotedLt : ℕ → Quoted → Type 0
QuotedLt n (closed r rest) = (length rest < n) × ((v : Text) × (unescape_label_value r ≡ some v))
QuotedLt n _ = Unit

abbrev Pending : Text → Text → Type 0
Pending raw out = (w : Text) → unescape_onto [] (raw ++ w) ≡ unescape_onto out w

Pending-escape :
    (raw out : Text) (d : ℕ)
    → Pending raw out
    → Pending (raw ++ backslash ∷ d ∷ []) (out ++ unescape_byte d ∷ [])
Pending-escape raw out d h w =
    rw (append_assoc raw (backslash ∷ d ∷ []) w)
      (h (backslash ∷ d ∷ w) ∙ unfold unescape_onto in refl)

Pending-cons :
    (raw out : Text) (c : ℕ)
    → c ≢ backslash
    → Pending raw out
    → Pending (raw ++ c ∷ []) (out ++ c ∷ [])
Pending-cons raw out c ne h w =
    rw (append_assoc raw (c ∷ []) w) (h (c ∷ w) ∙ unescape_onto-cons c out w ne)

Pending-some : (raw out : Text) → Pending raw out → unescape_label_value raw ≡ some out
unfolding unescape_label_value
Pending-some raw out h = rw append-nil at (h [])

scan_value-QuotedLt :
    (s raw out : Text) (n : ℕ) → length s ≤ n → Pending raw out → QuotedLt n (scan_value raw s)
unfolding scan_value
scan_value-QuotedLt [] raw out n l h = tt
scan_value-QuotedLt (c ∷ []) raw out n l h = elim (Bool-cases (c == quote)) [
  | inl e ↦ rw e (omega arith, (out, Pending-some raw out h))
  | inr e ↦ rw e (at_end (c == backslash))
]
  where
    at_end : (b : Bool) → QuotedLt n (if b then open_escape else open_end)
    at_end true = tt
    at_end false = tt
scan_value-QuotedLt (c ∷ d ∷ s) raw out n l h = elim (Bool-cases (c == quote)) [
  | inl e ↦ rw e (omega arith, (out, Pending-some raw out h))
  | inr e ↦ rw e (elim (Bool-cases (c == backslash)) [
    | inl esc ↦ rw esc (scan_value-QuotedLt s _ _ n (omega arith) (Pending-escape raw out d h))
    | inr plain ↦ rw plain (
        scan_value-QuotedLt (d ∷ s) _ _ n (omega arith)
          (Pending-cons raw out c (ne_of_== c backslash plain) h))
  ])
]

abbrev RestLt : ℕ → Text × Labels → Type 0
RestLt n r = length r.0 < n

close_value-Fails :
    (s key : Text) (q : Quoted) (labels : Labels) (n : ℕ)
    → QuotedLt n q
    → Fails (RestLt n) (close_value s key q labels)
unfolding close_value
close_value-Fails s key (closed raw rest) labels n (lt, (v, e)) = rw e lt
close_value-Fails s key open_end labels n h = tt
close_value-Fails s key open_escape labels n h = tt

open_value-Fails :
    (s key rest : Text) (labels : Labels) (n : ℕ)
    → length rest ≤ n
    → Fails (RestLt n) (open_value s key rest labels)
unfolding open_value
open_value-Fails s key [] labels n h = tt
open_value-Fails s key (c ∷ rest) labels n h = elim (Bool-cases (c == quote)) [
  | inl e ↦ rw e (
      close_value-Fails s key (scan_value [] rest) labels n
        (scan_value-QuotedLt rest [] [] n (omega arith) (λ w. refl)))
  | inr e ↦ rw e tt
]

parse_label-Fails :
    (s : Text) (k : Option (Text × Text)) (labels : Labels) (n : ℕ)
    → KeyLt n k
    → Fails (RestLt n) (parse_label s k labels)
unfolding parse_label
parse_label-Fails s none labels n h = tt
parse_label-Fails s (some (k, r)) labels n h =
    open_value-Fails s (trim_space k) (skip_spaces r) labels n (omega (arith, length-skip_spaces r))

abbrev pub Succeeds {ℓ} : {A : Type ℓ} → A → Type 0
Succeeds a = Unit

pub Fails-bind :
    {A B : Type 0} (P : A → Type 0) (m : Result Error A) (f : A → Result Error B)
    → Fails P m
    → ((a : A) → P a → Fails Succeeds (f a))
    → Fails Succeeds (m >>= f)
Fails-bind P (ok a) f h k = k a h
Fails-bind P (err e) f h k = h

label_loop-Fails :
    (fuel : ℕ) (s rest : Text) (labels : Labels)
    → length rest < fuel
    → Fails Succeeds (label_loop fuel s rest labels)
unfolding label_loop
label_loop-Fails zero s rest labels h = absurd (omega arith)
label_loop-Fails (suc fuel) s rest labels h = elim (List-cases (skip_separators rest)) [
  | inl e ↦ rw (e, label_loop) tt
  | inr (c, t, e) ↦
      let l = rw e at (length-skip_separators rest) in
      let n = length rest in
      rw (e, label_loop)
        (Fails-bind (RestLt n) (parse_label s (scan_key [] (c ∷ t)) labels) _
          (parse_label-Fails s (scan_key [] (c ∷ t)) labels n (scan_key-KeyLt (c ∷ t) [] n l))
          (λ r lt. label_loop-Fails fuel s r.0 r.1 (omega arith)))
]

pub parse_labels-Fails : (s : Text) → Fails Succeeds (parse_labels s)
unfolding parse_labels
parse_labels-Fails s = label_loop-Fails (suc (length s)) s s [] (omega arith)
