-- ===== src/Summary/Format.antt =====
-- pkg/slo/summary/schema_v4.go: the format of a run's configuration.
use my_operator.Base.{
  Option, none, some, [], ◌≡◌, refl, sym, ap, ◌∙◌, Text, codes, if◌then◌else◌, inl, inr, Bool-cases,
}
use my_operator.GoMap.{GoMap, lookup, lookup-put, equal_refl}
use my_operator.Summary.{ensure_v4_format, or_empty, ensure_at}
use my_operator.Text.{equal, equal_iff}

module _ {ℓ} {V : Type ℓ} (of_text : Text → V) where
  abbrev pub or_v4 : Option V → V
  or_v4 none = of_text (codes "v4")
  or_v4 (some v) = v

  abbrev pub the_map : Option (GoMap V) → GoMap V
  the_map none = []
  the_map (some m) = m

  ensured :
      (m : GoMap V) (o : Option V) (k : Text)
      → lookup (codes "format") m ≡ o
      → lookup k (ensure_at of_text m o)
        ≡ (if equal (codes "format") k then some (or_v4 o) else lookup k m)
  unfolding ensure_at
  ensured m none k h = lookup-put (codes "format") k (of_text (codes "v4")) m
  ensured m (some v) k h = elim (Bool-cases (equal (codes "format") k)) [
    | inl e ↦ rw e (ap (λ j. lookup j m) (sym ((equal_iff (codes "format") k).0 e)) ∙ h)
    | inr e ↦ rw e
  ]

  again :
      (m : GoMap V) (v : V)
      → lookup (codes "format") m ≡ some v
      → ensure_v4_format of_text (some m) ≡ m
  unfolding ensure_v4_format or_empty ensure_at
  again m v h = rw h

  ensured_format :
      (m : GoMap V) (o : Option V)
      → lookup (codes "format") m ≡ o
      → lookup (codes "format") (ensure_at of_text m o) ≡ some (or_v4 o)
  ensured_format m o h = ensured m o (codes "format") h ∙ rw (equal_refl (codes "format"))

  ensured_config :
      (config : Option (GoMap V))
      → ensure_v4_format of_text config
        ≡ ensure_at of_text (the_map config) (lookup (codes "format") (the_map config))
  unfolding ensure_v4_format or_empty
  ensured_config none = refl
  ensured_config (some m) = refl

  -- `EnsureV4Format` returns a configuration with a format, that of its argument or else "v4", with
  -- its other entries unchanged, and a second call changes nothing.
  ensure_v4_format_lem :
      (config : Option (GoMap V)) (k : Text)
      → (lookup k (ensure_v4_format of_text config) ≡ (
          if equal (codes "format") k
          then some (or_v4 (lookup (codes "format") (the_map config)))
          else lookup k (the_map config)))
        × (ensure_v4_format of_text (some (ensure_v4_format of_text config))
            ≡ ensure_v4_format of_text config)
  ensure_v4_format_lem config k =
      let m = the_map config in
      let o = lookup (codes "format") m in
      (
        rw (ensured_config config) (ensured m o k refl),
        again (ensure_v4_format of_text config) (or_v4 o)
            (rw (ensured_config config) (ensured_format m o refl)),
      )
