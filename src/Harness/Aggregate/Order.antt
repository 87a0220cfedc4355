-- ===== src/Harness/Aggregate/Order.antt =====
-- test/e2e/harness/attach.go: the sums by metric name depend on the order of the map.
use my_operator.Base.{
  ℕ, suc, false, none, some, [], ◌∷◌, ◌++◌, take, ◌≡◌, ◌≢◌, ap, Text, length, All, inl, inr,
  Bool-cases, take-append,
}
use my_operator.Float64.{Float64}
use my_operator.GoMap.{lookup, index, lookup-put, equal_refl}
use my_operator.Harness.Aggregate.{add_to, aggregate}
use my_operator.Text.{equal, equal_iff, index_byte}
use my_operator.Text.Trim.{index_byte-none, index_byte-append}

module _ (f : Float64) where
  open f use {F, zero_float, add}

  -- Take a series with no labels and one with labels of the same metric, whose name is not empty
  -- and has no '{'. Visited in the one order, the name holds the sum of both; visited in the
  -- other, the later assignment of the bare series wipes the sum out.
  pub aggregate_order :
      (c : ℕ) (name labels : Text) (a b : F)
      → All (λ d. d ≢ b'{') (c ∷ name)
      → let bare : Text × F = (c ∷ name, a) in
        let labelled : Text × F = (c ∷ (name ++ b'{' ∷ labels), b) in
        (lookup (c ∷ name) (aggregate f [] (bare ∷ labelled ∷ [])) ≡ some (add a b))
        × (lookup (c ∷ name) (aggregate f [] (labelled ∷ bare ∷ [])) ≡ some a)
  unfolding aggregate add_to index
  aggregate_order c name labels a b h = (
    rw (no_brace, brace, prefix) (simp (lookup-put, equal_refl, other)),
    rw (no_brace, brace, prefix) (simp (lookup-put, equal_refl, other)),
  )
    where
      key : Text
      key = c ∷ (name ++ b'{' ∷ labels)

      no_brace : index_byte (c ∷ name) b'{' ≡ none
      no_brace = index_byte-none (c ∷ name) b'{' h

      brace : index_byte key b'{' ≡ some (suc (length name))
      brace = index_byte-append (c ∷ name) labels b'{' h

      prefix : take (suc (length name)) key ≡ c ∷ name
      prefix = take-append (c ∷ name) (b'{' ∷ labels)

      other : equal key (c ∷ name) ≡ false
      other = elim (Bool-cases (equal key (c ∷ name))) [
        | inl e ↦
            cc (
              ap (λ (t : Text). index_byte t b'{') ((equal_iff key (c ∷ name)).0 e),
              no_brace,
              brace,
            )
        | inr e ↦ e
      ]
