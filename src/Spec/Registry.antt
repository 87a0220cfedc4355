-- ===== src/Spec/Registry.antt =====
-- pkg/slo/spec/registry.go: the registry of SLI definitions.
pub mod FirstWins
use my_operator.Base.{
  Bool, true, false, Option, none, some, List, [], ◌∷◌, if◌then◌else◌, Text, Result, ok, err,
}
use my_operator.Float64.{Float64}
use my_operator.GoMap.{GoMap, lookup, put}
use my_operator.Spec.{SliSpec}
use my_operator.Text.{equal}

pub data RegisterError : Type 0 where
  id_required : RegisterError
  already_registered : Text → RegisterError

module _ (f : Float64) where
  pub record Registry : Type 0 where
    pub items : GoMap (SliSpec f)

  unfoldable pub new_registry : Registry
  new_registry = record { items = [] }

  register_at :
      Registry → SliSpec f → Option (SliSpec f) → Result RegisterError (Unit {0}) × Registry
  register_at r s (some old) = (err (already_registered s.id), r)
  register_at r s none = (ok tt, record { items = put s.id s r.items })

  -- The result and the registry behind the call.
  unfoldable pub register : Registry → SliSpec f → Result RegisterError (Unit {0}) × Registry
  unfolding register_at
  register r s =
      if equal s.id [] then (err id_required, r) else register_at r s (lookup s.id r.items)

  -- `err` stands for the panic.
  unfoldable pub must_register : Registry → SliSpec f → Result RegisterError (Unit {0}) × Registry
  must_register r s = register r s

  unfoldable pub get : Registry → Text → Option (SliSpec f)
  get r id = lookup id r.items

  -- The order is that in which the map is visited.
  values : GoMap (SliSpec f) → List (SliSpec f)
  values [] = []
  values ((k, s) ∷ m) = s ∷ values m

  unfoldable pub list : Registry → List (SliSpec f)
  unfolding values
  list r = values r.items
