-- ===== src/Kubeutil/Install/Crds.antt =====
-- pkg/kubeutil/certmanager.go and prometheus_operator.go: what the two searches for CRDs find.
use my_operator.Base.{
  Bool, true, false, ◌||◌, List, [], ◌∷◌, ◌≡◌, refl, sym, Text, inl, inr, Bool-cases,
}
use my_operator.Kubeutil.Install.{
  any, any_crd, any_crd_of_lines, any_line, nonempty_lines, get_nonempty_lines,
}
use my_operator.Text.{equal, trim_space, contains}
use my_operator.Text.Lines.{split_lines}

or_swap : (a b c d : Bool) → ((a || b) || (c || d)) ≡ ((a || c) || (b || d))
or_swap true b c d = refl
or_swap false true true d = refl
or_swap false true false d = refl
or_swap false false c d = refl

any-or {ℓ} :
    {A : Type ℓ} (p q : A → Bool) (xs : List A) → any (λ x. p x || q x) xs ≡ (any p xs || any q xs)
unfolding any
any-or p q [] = refl
any-or p q (x ∷ xs) = rw (any-or p q xs) (or_swap (p x) (q x) (any p xs) (any q xs))

any-false {ℓ} : {A : Type ℓ} (xs : List A) → any (λ x. false) xs ≡ false
unfolding any
any-false [] = refl
any-false (x ∷ xs) = any-false xs

any_crd_of_lines-any :
    (crds lines : List Text)
    → any_crd_of_lines crds lines
      ≡ any (λ crd. any (λ line. contains line crd) (nonempty_lines lines)) crds
unfolding any any_crd_of_lines nonempty_lines
any_crd_of_lines-any crds [] = sym (any-false crds)
any_crd_of_lines-any crds (line ∷ lines) = elim (Bool-cases (equal (trim_space line) [])) [
  | inl e ↦ rw e (any_crd_of_lines-any crds lines)
  | inr e ↦ rw e (
      rw (any_crd_of_lines-any crds lines) (
        sym (
          any-or (λ crd. contains (trim_space line) crd)
            (λ crd. any (λ l. contains l crd) (nonempty_lines lines)) crds)))
]

-- On the same output and the same CRDs, the search of cert-manager, CRD by CRD over the trimmed lines
-- that are not empty, and that of the Prometheus operator, line by line, find the same.
pub any_line-any_crd :
    (crds : List Text) (output : Text) → any_line crds output ≡ any_crd crds output
unfolding any_line any_crd get_nonempty_lines
any_line-any_crd crds output = any_crd_of_lines-any crds (split_lines output)
