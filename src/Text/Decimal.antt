-- ===== src/Text/Decimal.antt =====
-- The verb %d on a number that is not negative.
use Prim.Native.Nat.{◌/◌, ◌%◌}
use my_operator.Base.{
  ℕ, zero, suc, ◌+◌, ◌-◌, ◌*◌, ◌<◌, [], ◌∷◌, ltb, if◌then◌else◌, ◌≡◌, ap, ◌∙◌, arith, Text, inl,
  inr, Bool-cases,
}

-- The digits in front of `acc`; each round divides by ten.
decimal_onto : ℕ → ℕ → Text → Text
decimal_onto zero n acc = acc
decimal_onto (suc fuel) n acc =
    let more = decimal_onto fuel (n / 10) ((b'0' + n % 10) ∷ acc) in
    if ltb n 10 then (b'0' + n) ∷ acc else more

-- More fuel than the number is enough.
unfoldable pub decimal : ℕ → Text
unfolding decimal_onto
decimal n = decimal_onto (suc n) n []

-- The number that digits behind `n` stand for.
abbrev pub value : ℕ → Text → ℕ
value n [] = n
value n (c ∷ s) = value (n * 10 + (c - b'0')) s

value-decimal_onto :
    (fuel n : ℕ) (acc : Text) → n < fuel → value 0 (decimal_onto fuel n acc) ≡ value n acc
unfolding decimal_onto
value-decimal_onto zero n acc h = absurd (omega arith)
value-decimal_onto (suc fuel) n acc h = elim (Bool-cases (ltb n 10)) [
  | inl e ↦ rw e (ap (λ m. value m acc) (omega arith))
  | inr e ↦ rw e (
      value-decimal_onto fuel (n / 10) ((b'0' + n % 10) ∷ acc) (ground arith)
      ∙ ap (λ m. value m acc) (omega arith))
]

pub value-decimal : (n : ℕ) → value 0 (decimal n) ≡ n
unfolding decimal
value-decimal n = value-decimal_onto (suc n) n [] (omega arith)
