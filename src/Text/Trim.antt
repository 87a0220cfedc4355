-- ===== src/Text/Trim.antt =====
-- Where trimming and searching leave a text as it is.
use mathlib.Core.List.{append-ne-nil_of_right_ne-nil}
use my_operator.Base.{
  ℕ, ◌+◌, ◌-◌, true, false, none, some, [], ◌∷◌, ◌++◌, append_assoc, ◌≡◌, ◌≢◌, refl, ◌∙◌, arith,
  Text, All, length, length-append, drop-append, take-append,
}
use my_operator.Text.{
  equal_iff, is_space, trim_right, keep_or_drop, trim_space, index_byte, has_suffix, slice,
}

abbrev pub NoSpace : Text → Type 0
NoSpace = All (λ c. is_space c ≡ false)

pub trim_right-concat :
    (s : Text) (c : ℕ) → is_space c ≡ false → trim_right (s ++ c ∷ []) ≡ s ++ c ∷ []
unfolding trim_right
trim_right-concat [] c h = rw h
trim_right-concat (d ∷ []) c h = rw h
trim_right-concat (d ∷ e ∷ s) c h = rw (trim_right-concat (e ∷ s) c h)

-- A text that begins and ends with no space is left as it is.
pub trim_space-concat :
    (b : ℕ) (s : Text) (c : ℕ)
    → is_space b ≡ false
    → is_space c ≡ false
    → trim_space (b ∷ (s ++ c ∷ [])) ≡ b ∷ (s ++ c ∷ [])
unfolding trim_space
trim_space-concat b s c hb hc = rw hb (trim_right-concat (b ∷ s) c hc)

pub trim_right-NoSpace : (s : Text) → NoSpace s → trim_right s ≡ s
unfolding trim_right
trim_right-NoSpace [] h = refl
trim_right-NoSpace (c ∷ []) h = rw h.0
trim_right-NoSpace (c ∷ d ∷ s) h = rw (trim_right-NoSpace (d ∷ s) h.1)

pub trim_space-NoSpace : (s : Text) → NoSpace s → trim_space s ≡ s
unfolding trim_space
trim_space-NoSpace [] h = refl
trim_space-NoSpace (c ∷ s) h = rw h.0 (trim_right-NoSpace (c ∷ s) h)

pub index_byte-none : (s : Text) (b : ℕ) → All (λ c. c ≢ b) s → index_byte s b ≡ none
unfolding index_byte
index_byte-none [] b h = refl
index_byte-none (c ∷ s) b h = ground (arith, index_byte-none s b h.1)

pub index_byte-append :
    (s rest : Text) (b : ℕ) → All (λ c. c ≢ b) s → index_byte (s ++ b ∷ rest) b ≡ some (length s)
unfolding index_byte
index_byte-append [] rest b h = ground arith
index_byte-append (c ∷ s) rest b h = ground (arith, index_byte-append s rest b h.1)

pub has_suffix-append : (s p : Text) → has_suffix (s ++ p) p ≡ true
unfolding has_suffix
has_suffix-append s p =
    rw (length-append s p, add_sub, drop-append, (equal_iff p p).1 refl) (ground arith)
  where
    add_sub : length s + length p - length p ≡ length s
    add_sub = omega arith

-- The slice between two parts.
pub slice-append :
    (s t u : Text) (lo hi : ℕ)
    → lo ≡ length s
    → hi ≡ length s + length t
    → slice (s ++ (t ++ u)) lo hi ≡ some t
unfolding slice
slice-append s t u lo hi hlo hhi =
    rw (hlo, hhi, length-append s (t ++ u), length-append t u, add_sub, drop-append, take-append)
      (ground arith)
  where
    add_sub : length s + length t - length s ≡ length t
    add_sub = omega arith

pub append-ne-nil : (s v : Text) → v ≢ [] → s ++ v ≢ []
append-ne-nil s v h = append-ne-nil_of_right_ne-nil s h

pub keep_or_drop-ne-nil : (c : ℕ) (s : Text) → s ≢ [] → keep_or_drop c s ≡ c ∷ s
unfolding keep_or_drop
keep_or_drop-ne-nil c [] h = absurd (h refl)
keep_or_drop-ne-nil c (d ∷ s) h = refl

pub trim_right-cons : (c : ℕ) (s : Text) → trim_right (c ∷ s) ≡ keep_or_drop c (trim_right s)
unfolding trim_right
trim_right-cons c s = refl

-- Nothing is cut behind a last part with no space.
pub trim_right-append : (s v : Text) → NoSpace v → v ≢ [] → trim_right (s ++ v) ≡ s ++ v
trim_right-append [] v h ne = trim_right-NoSpace v h
trim_right-append (c ∷ s) v h ne =
    trim_right-cons c (s ++ v)
    ∙ rw (trim_right-append s v h ne) (keep_or_drop-ne-nil c (s ++ v) (append-ne-nil s v ne))

pub trim_space-append :
    (k s v : Text)
    → NoSpace k
    → k ≢ []
    → NoSpace v
    → v ≢ []
    → trim_space (k ++ (s ++ v)) ≡ k ++ (s ++ v)
trim_space-append [] s v hk nk hv nv = absurd (nk refl)
trim_space-append (c ∷ k) s v hk nk hv nv =
    unfold trim_space in
    rw hk.0 (rw (append_assoc k s v) at (trim_right-append (c ∷ (k ++ s)) v hv nv))
