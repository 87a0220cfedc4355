-- ===== src/Harness/Aggregate/Sums.antt =====
-- test/e2e/harness/attach.go: what the aggregation holds at a labelled key and at a metric name.
use my_operator.Base.{
  ℕ, zero, suc, Bool, false, Option, none, some, [], ◌∷◌, take, ◌≡◌, ◌≢◌, refl, sym, ap, ◌∙◌,
  if◌then◌else◌, Text, inl, inr, Bool-cases, Option-cases,
}
use my_operator.Float64.{Float64}
use my_operator.GoMap.{GoMap, lookup, index, put, lookup-put, equal_refl}
use my_operator.Harness.Aggregate.{add_to, add_name, aggregate}
use my_operator.Text.{equal, equal_iff, index_byte}

module _ (f : Float64) where
  open f use {F, zero_float, add}

  -- The metric name of a key with labels: what stands in front of the first '{', if that is not
  -- the first character.
  abbrev name_before : Text → Option ℕ → Option Text
  name_before key (some (suc i)) = some (take (suc i) key)
  name_before key _ = none

  abbrev pub name_of : Text → Option Text
  name_of key = name_before key (index_byte key b'{')

  abbrev is_name : Text → Option Text → Bool
  is_name name none = false
  is_name name (some n) = equal n name

  abbrev or_zero : Option F → F
  or_zero none = zero_float
  or_zero (some v) = v

  -- The values of the series of `name`, added from the left on top of `acc`; none if there is none.
  abbrev pub series_sum : Text → Option F → GoMap F → Option F
  series_sum name acc [] = acc
  series_sum name acc ((key, val) ∷ base) =
      series_sum name (if is_name name (name_of key) then some (add (or_zero acc) val) else acc)
        base

  index-or_zero : (m : GoMap F) (k : Text) → index zero_float m k ≡ or_zero (lookup k m)
  unfolding index
  index-or_zero m k = elim (Option-cases (lookup k m)) [ inl e ↦ rw e | inr (v, e) ↦ rw e ]

  lookup-add_to :
      (name : Text) (val : F) (m : GoMap F)
      → lookup name (add_to f name val m) ≡ some (add (or_zero (lookup name m)) val)
  unfolding add_to
  lookup-add_to name val m = rw (
    lookup-put name name (add (index zero_float m name) val) m,
    equal_refl name,
    index-or_zero m name,
  )

  lookup-add_name :
      (name key : Text) (val : F) (at : Option ℕ) (out : GoMap F)
      → equal key name ≡ false
      → lookup name (add_name f key val at (put key val out)) ≡ (
          if is_name name (name_before key at)
          then some (add (or_zero (lookup name out)) val)
          else lookup name out)
  unfolding aggregate add_to
  lookup-add_name name key val none out h = rw (lookup-put key name val out, h)
  lookup-add_name name key val (some zero) out h = rw (lookup-put key name val out, h)
  lookup-add_name name key val (some (suc i)) out h =
      elim (Bool-cases (equal (take (suc i) key) name)) [
        | inl e ↦ rw (
          (equal_iff (take (suc i) key) name).0 e,
          lookup-add_to name val (put key val out),
          lookup-put key name val out,
          h,
          equal_refl name,
        )
        | inr e ↦ rw (
          lookup-put (take (suc i) key) name _ (put key val out),
          e,
          lookup-put key name val out,
          h,
        )
      ]

  none-ne-some : (v : F) → none ≢ some v
  none-ne-some v h = cc

  aggregate-series_sum :
      (name : Text) (base out : GoMap F)
      → lookup name base ≡ none
      → lookup name (aggregate f out base) ≡ series_sum name (lookup name out) base
  unfolding aggregate lookup
  aggregate-series_sum name [] out h = refl
  aggregate-series_sum name ((key, val) ∷ base) out h = elim (Bool-cases (equal key name)) [
    | inl e ↦ absurd (none-ne-some val (sym (rw e at h)))
    | inr e ↦
        aggregate-series_sum name base (add_name f key val (index_byte key b'{') (put key val out))
          (rw e at h)
        ∙ ap (λ acc. series_sum name acc base)
            (lookup-add_name name key val (index_byte key b'{') out e)
  ]

  -- Under a metric name that is no key of the parsed map, the aggregation holds the sum of the values
  -- of all series of that metric, added in the order of the map, and nothing where there are none.
  pub lookup-aggregate :
      (name : Text) (base : GoMap F)
      → lookup name base ≡ none
      → lookup name (aggregate f [] base) ≡ series_sum name none base
  unfolding lookup
  lookup-aggregate name base h = aggregate-series_sum name base [] h
