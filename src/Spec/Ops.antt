-- ===== src/Spec/Ops.antt =====
-- pkg/slo/spec/spec.go: what `NormalizeOp` yields.
use mathlib.Core.Option.{none-ne-some, some-injective}
use mathlib.Core.Path.{subst}
use my_operator.Base.{
  ℕ, Bool, true, false, ◌||◌, Option, none, some, [], ◌∷◌, ◌≡◌, refl, ap, ◌∙◌, arith, if◌then◌else◌,
  Text, codes, inl, inr, ◌⊎◌, Option-cases, ok, err,
}
use my_operator.Spec.{
  op_of, normalize_op, op_le, op_ge, op_lt, op_gt, op_eq, unmarshal_text, unmarshal_with,
}
use my_operator.Text.{
  equal, trim_space, trim_left, trim_right, keep_or_drop, is_space, to_lower, to_lower_rune,
}

-- One of the constants of the type `Op`.
pub data IsOp : Text → Type 0 where
  le : IsOp op_le
  ge : IsOp op_ge
  lt : IsOp op_lt
  gt : IsOp op_gt
  eq : IsOp op_eq

data AllOp : Option Text → Type 0 where
  nothing : AllOp none
  just : {o : Text} → IsOp o → AllOp (some o)

AllOp-if : (b : Bool) (x y : Option Text) → AllOp x → AllOp y → AllOp (if b then x else y)
AllOp-if true x y hx hy = hx
AllOp-if false x y hx hy = hy

op_of-AllOp : (t : Text) → AllOp (op_of t)
unfolding op_of
op_of-AllOp t = AllOp-if (equal t (codes "<=") || equal t (codes "=<")) _ _ (just IsOp.le) (
    AllOp-if (equal t (codes ">=") || equal t (codes "=>")) _ _ (just IsOp.ge) (
      AllOp-if (equal t (codes "<")) _ _ (just IsOp.lt) (
        AllOp-if (equal t (codes ">")) _ _ (just IsOp.gt) (
          AllOp-if (equal t (codes "==") || equal t (codes "=")) _ _ (just IsOp.eq) (
            AllOp-if (equal t (codes "le") || equal t (codes "lte")) _ _ (just IsOp.le) (
              AllOp-if (equal t (codes "ge") || equal t (codes "gte")) _ _ (just IsOp.ge) (
                AllOp-if (equal t (codes "lt")) _ _ (just IsOp.lt) (
                  AllOp-if (equal t (codes "gt")) _ _ (just IsOp.gt)
                    (AllOp-if (equal t (codes "eq")) _ _ (just IsOp.eq) nothing)))))))))

AllOp-some : (o : Option Text) (op : Text) → o ≡ some op → AllOp o → IsOp op
AllOp-some none op h a = absurd (none-ne-some op h)
AllOp-some (some p) op h (just i) = subst IsOp (some-injective p op h) i

to_lower_rune_idem : (c : ℕ) → to_lower_rune (to_lower_rune c) ≡ to_lower_rune c
unfolding to_lower_rune
to_lower_rune_idem c = ground arith

to_lower_idem : (s : Text) → to_lower (to_lower s) ≡ to_lower s
unfolding to_lower
to_lower_idem [] = refl
to_lower_idem (c ∷ s) = rw (to_lower_rune_idem c, to_lower_idem s)

normalize_op-IsOp : (o : Text) → IsOp o → normalize_op o ≡ some o
unfolding normalize_op op_of trim_space trim_left trim_right keep_or_drop is_space to_lower
    to_lower_rune equal
normalize_op-IsOp o le = refl
normalize_op-IsOp o ge = refl
normalize_op-IsOp o lt = refl
normalize_op-IsOp o gt = refl
normalize_op-IsOp o eq = refl

normalize_op_found : (s op : Text) → normalize_op s ≡ some op → IsOp op
unfolding normalize_op
normalize_op_found s op h =
    AllOp-some (op_of (trim_space (to_lower s))) op h (op_of-AllOp (trim_space (to_lower s)))

normalize_op-to_lower : (s : Text) → normalize_op (to_lower s) ≡ normalize_op s
unfolding normalize_op
normalize_op-to_lower s = ap (λ t. op_of (trim_space t)) (to_lower_idem s)

-- What `NormalizeOp` accepts it turns into one of the five operators, which it leaves as they are,
-- and it accepts the text in lower case as the same operator.
normalize_op_idem :
    (s op : Text)
    → normalize_op s ≡ some op
    → IsOp op × (normalize_op op ≡ some op) × (normalize_op (to_lower s) ≡ some op)
normalize_op_idem s op h = (
  normalize_op_found s op h,
  normalize_op-IsOp op (normalize_op_found s op h),
  normalize_op-to_lower s ∙ h,
)

-- `UnmarshalText` either fails and leaves the operator as it was, and then `NormalizeOp` does not
-- accept the text, or sets it to one of the five operators, which `NormalizeOp` yields for the text.
unmarshal_text_outcome :
    (o text : Text)
    → ((normalize_op text ≡ none) × (unmarshal_text o text ≡ (err text, o)))
      ⊎ ((op : Text) × IsOp op
          × (normalize_op text ≡ some op)
          × (unmarshal_text o text ≡ (ok tt, op)))
unfolding unmarshal_text unmarshal_with
unmarshal_text_outcome o text = elim (Option-cases (normalize_op text)) [
  | inl e ↦ inl (e, rw e)
  | inr (op, e) ↦ inr (op, normalize_op_found text op e, e, rw e)
]
