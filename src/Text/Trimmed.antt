-- ===== src/Text/Trimmed.antt =====
-- `strings.TrimSpace`: its result begins and ends with no space.
use mathlib.Core.List.{concat-ne-nil}
use my_operator.Base.{
  ℕ, false, [], ◌∷◌, ◌++◌, ◌≡◌, refl, ◌∙◌, ◌⊎◌, inl, inr, Bool-cases, if◌then◌else◌, Text,
}
use my_operator.Text.{is_space, trim_left, trim_right, keep_or_drop, trim_space}
use my_operator.Text.Trim.{
  keep_or_drop-ne-nil, trim_right-cons, trim_space-NoSpace, trim_space-concat,
}

-- One code point, or more, and no space at either end.
pub data IsTrimmed (s : Text) : Type 0 where
  one : (b : ℕ) → is_space b ≡ false → s ≡ b ∷ [] → IsTrimmed s
  more :
      (b : ℕ) (m : Text) (c : ℕ)
      → is_space b ≡ false
      → is_space c ≡ false
      → s ≡ b ∷ (m ++ c ∷ [])
      → IsTrimmed s

abbrev LastOf : Text → Type 0
LastOf s = (m : Text) × (c : ℕ) × (is_space c ≡ false) × (s ≡ m ++ c ∷ [])

keep_or_drop-nil :
    (c : ℕ) (s : Text) → s ≡ [] → keep_or_drop c s ≡ (if is_space c then [] else c ∷ [])
unfolding keep_or_drop
keep_or_drop-nil c s e = rw e

trim_right-last : (s : Text) → (trim_right s ≡ []) ⊎ LastOf (trim_right s)
trim_right-last [] = inl (unfold trim_right in refl)
trim_right-last (c ∷ s) = elim (trim_right-last s) [
  | inl e ↦ elim (Bool-cases (is_space c)) [
    | inl space ↦ inl (trim_right-cons c s ∙ keep_or_drop-nil c _ e ∙ rw space)
    | inr plain ↦ inr ([], c, plain, trim_right-cons c s ∙ keep_or_drop-nil c _ e ∙ rw plain)
  ]
  | inr (m, d, h, e) ↦ inr (
    c ∷ m,
    d,
    h,
    trim_right-cons c s ∙ rw e (keep_or_drop-ne-nil c (m ++ d ∷ []) (concat-ne-nil d m)),
  )
]

trim_left-first :
    (s : Text)
    → (trim_left s ≡ []) ⊎ ((b : ℕ) × (r : Text) × (is_space b ≡ false) × (trim_left s ≡ b ∷ r))
unfolding trim_left
trim_left-first [] = inl refl
trim_left-first (c ∷ s) = elim (Bool-cases (is_space c)) [
  | inl space ↦ rw space (trim_left-first s)
  | inr plain ↦ rw plain (inr (c, s, plain, refl))
]

trim_right-IsTrimmed : (b : ℕ) (r : Text) → is_space b ≡ false → IsTrimmed (trim_right (b ∷ r))
trim_right-IsTrimmed b r h = elim (trim_right-last r) [
  | inl e ↦ one b h (trim_right-cons b r ∙ keep_or_drop-nil b _ e ∙ rw h)
  | inr (m, c, k, e) ↦
      more b m c h k
        (trim_right-cons b r ∙ rw e (keep_or_drop-ne-nil b (m ++ c ∷ []) (concat-ne-nil c m)))
]

-- The result is empty, or trimmed.
pub trim_space-IsTrimmed : (s : Text) → (trim_space s ≡ []) ⊎ IsTrimmed (trim_space s)
unfolding trim_space
trim_space-IsTrimmed s = elim (trim_left-first s) [
  | inl e ↦ inl (rw e)
  | inr (b, r, h, e) ↦ inr (rw e (trim_right-IsTrimmed b r h))
]

-- A trimmed text is left as it is.
pub trim_space_trimmed : (s : Text) → IsTrimmed s → trim_space s ≡ s
trim_space_trimmed s (one b h e) = rw e (trim_space-NoSpace (b ∷ []) (h, tt))
trim_space_trimmed s (more b m c h k e) = rw e (trim_space-concat b m c h k)
