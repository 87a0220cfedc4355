-- ===== src/Harness/Sanitize.antt =====
-- test/e2e/harness/sanitize.go: texts made safe for file names.
use mathlib.Core.List.{map-append, cons-ne-nil}
use my_operator.Base.{
  ℕ, false, ◌||◌, [], ◌∷◌, ◌++◌, ◌⊎◌, map, ◌≡◌, ◌≢◌, refl, arith, ◌==◌, if◌then◌else◌, Text, codes,
  All, inl, inr, ap,
}
use my_operator.Text.Trimmed.{IsTrimmed, one, more, trim_space-IsTrimmed, trim_space_trimmed}
use my_operator.Text.{equal, is_space, trim_space}

-- One byte through the replacer.
unfoldable pub replace : ℕ → ℕ
replace c =
    if c == b'/'
      || c == b'\\'
      || c == b' '
      || c == b':'
      || c == b';'
      || c == b'"'
      || c == b'\''
      || c == b'\n'
      || c == b'\r'
      || c == b'\t'
    then b'_'
    else c

unfoldable pub sanitize_filename : Text → Text
unfolding replace
sanitize_filename s = let t = trim_space s in if equal t [] then codes "na" else map replace t

-- None of the characters that the replacer takes out.
abbrev pub IsSafe : ℕ → Type 0
IsSafe c =
    (c ≢ b'/')
    × (c ≢ b'\\')
    × (c ≢ b' ')
    × (c ≢ b':')
    × (c ≢ b';')
    × (c ≢ b'"')
    × (c ≢ b'\'')
    × (c ≢ b'\n')
    × (c ≢ b'\r')
    × (c ≢ b'\t')

replace-IsSafe : (c : ℕ) → IsSafe (replace c)
unfolding replace
replace-IsSafe c = ground arith

replace_safe : (c : ℕ) → IsSafe c → replace c ≡ c
unfolding replace
replace_safe c h = ground arith

map-IsSafe : (s : Text) → All IsSafe (map replace s)
map-IsSafe [] = tt
map-IsSafe (c ∷ s) = (replace-IsSafe c, map-IsSafe s)

map_safe : (s : Text) → All IsSafe s → map replace s ≡ s
map_safe [] h = refl
map_safe (c ∷ s) h = rw (replace_safe c h.0, map_safe s h.1)

replace-is_space : (c : ℕ) → is_space c ≡ false → is_space (replace c) ≡ false
unfolding replace is_space
replace-is_space c h = ground arith

map-IsTrimmed : (s : Text) → IsTrimmed s → IsTrimmed (map replace s)
map-IsTrimmed s (one b h e) = one (replace b) (replace-is_space b h) (rw e)
map-IsTrimmed s (more b m c h k e) =
    more (replace b) (map replace m) (replace c) (replace-is_space b h) (replace-is_space c k)
      (rw e (ap (◌∷◌ (replace b)) (map-append replace m (c ∷ []))))

equal-IsTrimmed : (s : Text) → IsTrimmed s → equal s [] ≡ false
unfolding equal
equal-IsTrimmed s (one b h e) = rw e
equal-IsTrimmed s (more b m c h k e) = rw e

-- The two results of `SanitizeFilename`.
sanitize_filename-cases :
    (s : Text)
    → (sanitize_filename s ≡ codes "na")
      ⊎ ((t : Text) × IsTrimmed t × (sanitize_filename s ≡ map replace t))
unfolding sanitize_filename
sanitize_filename-cases s = elim (trim_space-IsTrimmed s) [
  | inl e ↦ inl (rw e (unfold equal in refl))
  | inr t ↦ inr (trim_space s, t, rw (equal-IsTrimmed (trim_space s) t))
]

IsTrimmed-ne-nil : (s : Text) → IsTrimmed s → s ≢ []
IsTrimmed-ne-nil s (one b h e) = rw e (cons-ne-nil b [])
IsTrimmed-ne-nil s (more b m c h k e) = rw e (cons-ne-nil b (m ++ c ∷ []))

-- A sanitized name is not empty and holds no separator, quote, space, tab or line break.
pub sanitize_filename-IsSafe :
    (s : Text) → All IsSafe (sanitize_filename s) × (sanitize_filename s ≢ [])
sanitize_filename-IsSafe s = elim (sanitize_filename-cases s) [
  | inl e ↦ rw e (omega arith, cons-ne-nil _ _)
  | inr (t, h, e) ↦ rw e (map-IsSafe t, IsTrimmed-ne-nil (map replace t) (map-IsTrimmed t h))
]

sanitize_filename_trimmed : (t : Text) → IsTrimmed t → All IsSafe t → sanitize_filename t ≡ t
unfolding sanitize_filename
sanitize_filename_trimmed t h safe =
    rw (trim_space_trimmed t h, equal-IsTrimmed t h) (map_safe t safe)

-- Sanitizing a sanitized name changes nothing.
pub sanitize_filename_idem :
    (s : Text) → sanitize_filename (sanitize_filename s) ≡ sanitize_filename s
sanitize_filename_idem s = elim (sanitize_filename-cases s) [
  | inl e ↦ rw e na_safe
  | inr (t, h, e) ↦
      rw e (sanitize_filename_trimmed (map replace t) (map-IsTrimmed t h) (map-IsSafe t))
]
  where
    na_safe : sanitize_filename (codes "na") ≡ codes "na"
    na_safe =
        sanitize_filename_trimmed (codes "na")
          (more b'n' [] b'a' (unfold is_space in refl) (unfold is_space in refl) refl) (omega arith)
