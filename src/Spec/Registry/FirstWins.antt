-- ===== src/Spec/Registry/FirstWins.antt =====
-- pkg/slo/spec/registry.go: what a registry holds after any sequence of `Register` calls.
use my_operator.Base.{
  Bool, true, false, Option, none, some, List, [], ◌∷◌, ◌≡◌, ◌≢◌, refl, sym, ap, ◌∙◌, arith,
  if◌then◌else◌, Text, ok, err, inl, inr, ◌⊎◌, Bool-cases, Option-cases,
}
use my_operator.Float64.{Float64}
use my_operator.GoMap.{GoMap, lookup, lookup-put, equal_refl}
use my_operator.Spec.{SliSpec}
use my_operator.Spec.Registry.{
  Registry, new_registry, register, get, id_required, already_registered, register_at,
}
use my_operator.Text.{equal, equal_iff}

module _ (f : Float64) where
  -- The registry behind the calls of `Register` on every element, in order.
  abbrev pub register_all : Registry f → List (SliSpec f) → Registry f
  register_all r [] = r
  register_all r (s ∷ ss) = register_all (register f r s).1 ss

  -- The first definition with this id.
  abbrev pub find_id : Text → List (SliSpec f) → Option (SliSpec f)
  find_id id [] = none
  find_id id (s ∷ ss) = if equal s.id id then some s else find_id id ss

  abbrev or_find : Option (SliSpec f) → Option (SliSpec f) → Option (SliSpec f)
  or_find (some s) o = some s
  or_find none o = o

  or_find-none : (o : Option (SliSpec f)) → or_find o none ≡ o
  or_find-none none = refl
  or_find-none (some s) = refl

  or_find_assoc : (o p q : Option (SliSpec f)) → or_find (or_find o p) q ≡ or_find o (or_find p q)
  or_find_assoc none p q = refl
  or_find_assoc (some s) p q = refl

  or_find-if :
      (b : Bool) (s : SliSpec f) (o : Option (SliSpec f))
      → or_find (if b then some s else none) o ≡ (if b then some s else o)
  or_find-if true s o = refl
  or_find-if false s o = refl

  ne_of_id : (a id : Text) → equal a [] ≡ true → id ≢ [] → equal a id ≡ false
  ne_of_id a id e h = elim (Bool-cases (equal a id)) [
    | inl g ↦ absurd (h (sym ((equal_iff a id).0 g) ∙ (equal_iff a []).0 e))
    | inr g ↦ g
  ]

  -- A free id: the new entry is found under it alone.
  held :
      (id : Text) (s : SliSpec f) (m : GoMap (SliSpec f))
      → lookup s.id m ≡ none
      → (if equal s.id id then some s else lookup id m)
        ≡ or_find (lookup id m) (if equal s.id id then some s else none)
  held id s m g = elim (Bool-cases (equal s.id id)) [
    | inl e ↦ rw (e, sym ((equal_iff s.id id).0 e), g)
    | inr e ↦ rw (e, or_find-none (lookup id m))
  ]

  -- A taken id: the definition is dropped.
  dropped :
      (id : Text) (s old : SliSpec f) (m : GoMap (SliSpec f))
      → lookup s.id m ≡ some old
      → lookup id m ≡ or_find (lookup id m) (if equal s.id id then some s else none)
  dropped id s old m g = elim (Bool-cases (equal s.id id)) [
    | inl e ↦ rw (e, sym ((equal_iff s.id id).0 e), g)
    | inr e ↦ rw (e, or_find-none (lookup id m))
  ]

  get-register :
      (r : Registry f) (s : SliSpec f) (id : Text)
      → id ≢ []
      → get f (register f r s).1 id ≡ or_find (get f r id) (if equal s.id id then some s else none)
  unfolding get register register_at
  get-register r s id h = elim (Bool-cases (equal s.id [])) [
    | inl e ↦ rw (e, ne_of_id s.id id e h, or_find-none (lookup id r.items))
    | inr e ↦ elim (Option-cases (lookup s.id r.items)) [
      | inl g ↦ rw (e, g, lookup-put s.id id s r.items) (held id s r.items g)
      | inr (old, g) ↦ rw (e, g) (dropped id s old r.items g)
    ]
  ]

  get-register_all :
      (r : Registry f) (ss : List (SliSpec f)) (id : Text)
      → id ≢ []
      → get f (register_all r ss) id ≡ or_find (get f r id) (find_id id ss)
  get-register_all r [] id h = sym (or_find-none (get f r id))
  get-register_all r (s ∷ ss) id h =
      get-register_all (register f r s).1 ss id h
      ∙ ap (λ o. or_find o (find_id id ss)) (get-register r s id h)
      ∙ or_find_assoc (get f r id) (if equal s.id id then some s else none) (find_id id ss)
      ∙ ap (or_find (get f r id)) (or_find-if (equal s.id id) s (find_id id ss))

  id-ne-nil : (id : Text) → equal id [] ≡ false → id ≢ []
  id-ne-nil id e h = ground (arith, equal_iff id [])

  -- After any sequence of `Register` calls on a new registry, errors ignored, `Get` of an id that
  -- is not empty yields the first of the definitions with that id, or nothing where there is none.
  pub get-register_all-new_registry :
      (ss : List (SliSpec f)) (id : Text)
      → id ≢ []
      → get f (register_all (new_registry f) ss) id ≡ find_id id ss
  unfolding get new_registry lookup
  get-register_all-new_registry ss id h = get-register_all (new_registry f) ss id h

  -- `Register` fails exactly on an empty id and on an id that the registry holds, and then leaves
  -- the registry alone; where it succeeds, `Get` of the id yields the definition.
  pub register_outcome :
      (r : Registry f) (s : SliSpec f)
      → ((s.id ≡ []) × (register f r s ≡ (err id_required, r)))
        ⊎ (((old : SliSpec f) × (s.id ≢ [])
              × (get f r s.id ≡ some old)
              × (register f r s ≡ (err (already_registered s.id), r)))
            ⊎ ((s.id ≢ [])
                × (get f r s.id ≡ none)
                × ((register f r s).0 ≡ ok tt)
                × (get f (register f r s).1 s.id ≡ some s)))
  unfolding get register register_at
  register_outcome r s = elim (Bool-cases (equal s.id [])) [
    | inl e ↦ inl ((equal_iff s.id []).0 e, rw e)
    | inr e ↦ inr (elim (Option-cases (lookup s.id r.items)) [
      | inl g ↦ inr (
        id-ne-nil s.id e,
        g,
        rw (e, g),
        rw (e, g, lookup-put s.id s.id s r.items, equal_refl s.id),
      )
      | inr (old, g) ↦ inl (old, id-ne-nil s.id e, g, rw (e, g))
    ])
  ]
