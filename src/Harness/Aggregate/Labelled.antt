-- ===== src/Harness/Aggregate/Labelled.antt =====
-- test/e2e/harness/session_v4.go and attach.go: what the aggregation holds at the key of a series with labels.
use mathlib.Core.Option.{none-ne-some, some-injective}
use mathlib.Core.Path.{subst}
use my_operator.Base.{
  ℕ, zero, suc, false, Option, none, some, [], ◌∷◌, take, ◌≡◌, refl, sym, ap, ◌∙◌, Text, inl, inr,
  Bool-cases, Option-cases, arith, ◌==◌,
}
use my_operator.Float64.{Float64}
use my_operator.GoMap.{GoMap, lookup, put, lookup-put, HasKey, IsMap}
use my_operator.GoMap.Keys.{lookup-no_key}
use my_operator.Harness.Aggregate.{add_to, add_name, aggregate}
use my_operator.Text.{equal, equal_iff, equal-ne, index_byte}

suc-injective : (j i : ℕ) → suc j ≡ suc i → j ≡ i
suc-injective j i h = omega (arith, h)

index_byte-take : (s : Text) (b i : ℕ) → index_byte s b ≡ some i → index_byte (take i s) b ≡ none
unfolding index_byte
index_byte-take [] b i h = cc
index_byte-take (c ∷ s) b i h = elim (Bool-cases (c == b)) [
  | inl e ↦ index_zero (c ∷ s) b i (some-injective _ _ (rw e at h))
  | inr e ↦ elim (Option-cases (index_byte s b)) [
    | inl n ↦ absurd (none-ne-some i (rw (e, n) at h))
    | inr (j, n) ↦
        index_suc c s b i j e (some-injective _ _ (rw (e, n) at h)) (index_byte-take s b j n)
  ]
]
  where
    index_zero : (s : Text) (b i : ℕ) → 0 ≡ i → index_byte (take i s) b ≡ none
    index_zero s b zero h = refl
    index_zero s b (suc i) h = absurd (omega (arith, h))

    index_suc :
        (c : ℕ) (s : Text) (b i j : ℕ)
        → (c == b) ≡ false
        → suc j ≡ i
        → index_byte (take j s) b ≡ none
        → index_byte (take i (c ∷ s)) b ≡ none
    index_suc c s b zero j e h n = absurd (omega (arith, h))
    index_suc c s b (suc i) j e h n =
        rw (e, ap (λ m. index_byte (take m s) b) (sym (suc-injective j i h)) ∙ n) refl

-- The key has labels.
abbrev pub IsLabelled : Text → Type 0
IsLabelled k = (i : ℕ) × (index_byte k b'{' ≡ some i)

name-ne :
    (key k : Text) (i : ℕ)
    → index_byte key b'{' ≡ some i
    → IsLabelled k
    → equal (take i key) k ≡ false
name-ne key k i h (j, e) =
    equal-ne (take i key) k
      (λ g. none-ne-some j (sym (index_byte-take key b'{' i h) ∙ ap (λ s. index_byte s b'{') g ∙ e))

module _ (f : Float64) where
  open f use {F, zero_float, add}

  lookup-add_name_labelled :
      (key k : Text) (val : F) (at : Option ℕ) (out : GoMap F)
      → index_byte key b'{' ≡ at
      → IsLabelled k
      → lookup k (add_name f key val at (put key val out)) ≡ lookup k (put key val out)
  unfolding add_name add_to
  lookup-add_name_labelled key k val none out h l = refl
  lookup-add_name_labelled key k val (some zero) out h l = refl
  lookup-add_name_labelled key k val (some (suc i)) out h l =
      lookup-put (take (suc i) key) k _ (put key val out) ∙ rw (name-ne key k (suc i) h l) refl

  abbrev or_before : Option F → Option F → Option F
  or_before (some v) before = some v
  or_before none before = before

  lookup-aggregate_onto :
      (k : Text) (base out : GoMap F)
      → IsLabelled k
      → IsMap base
      → lookup k (aggregate f out base) ≡ or_before (lookup k base) (lookup k out)
  unfolding aggregate lookup
  lookup-aggregate_onto k [] out l m = refl
  lookup-aggregate_onto k ((key, val) ∷ base) out l (n, m) =
      lookup-aggregate_onto k base (add_name f key val (index_byte key b'{') (put key val out)) l m
      ∙ ap (or_before (lookup k base)) (
          lookup-add_name_labelled key k val (index_byte key b'{') out refl l
          ∙ lookup-put key k val out)
      ∙ elim (Bool-cases (equal key k)) [
        | inl e ↦
            rw
              (
                e,
                lookup-no_key k base
                    (λ h. n (subst (λ j. HasKey j base) (sym ((equal_iff key k).0 e)) h)),
              )
              refl
        | inr e ↦ rw e refl
      ]

  -- At the key of a series with labels, the aggregation holds what the parsed map holds: adding up
  -- the series of each metric disturbs none of them, in whichever order the map is visited.
  pub lookup-aggregate_labelled :
      (k : Text) (base : GoMap F)
      → IsLabelled k
      → IsMap base
      → lookup k (aggregate f [] base) ≡ lookup k base
  unfolding lookup
  lookup-aggregate_labelled k base l m =
      lookup-aggregate_onto k base [] l m ∙ or_none (lookup k base)
    where
      or_none : (o : Option F) → or_before o none ≡ o
      or_none none = refl
      or_none (some v) = refl
