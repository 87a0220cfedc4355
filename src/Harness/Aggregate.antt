-- ===== src/Harness/Aggregate.antt =====
-- test/e2e/harness/attach.go and session_v4.go: `parsePrometheusText` and `parsePrometheusTextV4`,
-- which also add up the series of each metric name.
pub mod Order
pub mod Sums
pub mod Labelled
use my_operator.Base.{
  ℕ, zero, suc, ◌-◌, Bool, true, false, Option, none, some, List, [], ◌∷◌, take, Text, Result, ok,
  err, ◌>>=◌,
}
use my_operator.Float64.{Float64}
use my_operator.GoMap.{GoMap, index, put}
use my_operator.PromText.{ParseError, parse_text_to_map}
use my_operator.Text.{index_byte}

module _ (f : Float64) where
  open f use {F, zero_float, add}

  -- `out[name] = out[name] + val`
  unfoldable pub add_to : Text → F → GoMap F → GoMap F
  add_to name val out = put name (add (index zero_float out name) val) out

  -- Behind `out[key] = val`, on the place of the first '{' in the key.
  add_name : Text → F → Option ℕ → GoMap F → GoMap F
  add_name key val (some (suc i)) out = add_to (take (suc i) key) val out
  add_name key val _ out = out

  -- The loop over the parsed map, in the order in which it is visited.
  unfoldable pub aggregate : GoMap F → GoMap F → GoMap F
  unfolding add_name
  aggregate out [] = out
  aggregate out ((key, val) ∷ base) =
      aggregate (add_name key val (index_byte key b'{') (put key val out)) base

  unfoldable pub parse_prometheus_text : Text → Result ParseError (GoMap F)
  parse_prometheus_text raw = do base ← parse_text_to_map f raw; ok (aggregate [] base)
