-- ===== src/Kubeutil/Token/Loop.antt =====
-- pkg/kubeutil/token.go: the loop that asks for a token, on a command runner.
pub mod Returned
use my_operator.Base.{Option, none, some, [], ◌∷◌, Text, Result, ok, err}
use my_operator.Kubeutil.{Runner, tick, done}
use my_operator.Kubeutil.Token.{token_command, try_once}
use my_operator.Kubeutil.Wait.Loop.{Wakes}

module _ (runner : Runner) where
  open runner use {World, run}

  -- The token or the error, none while the loop waits.
  abbrev pub Asked : Type 0
  Asked = Option (Result Text Text) × World

  module _ (status_token : Text → Result Text Text) (quote : Text → Text) (ns sa : Text) where
    -- Behind an attempt.
    token_from : Wakes runner → Result Text Text → World → Asked
    unfolding try_once token_command
    token_from wakes (ok token) w = (some (ok token), w)
    token_from [] (err e) w = (none, w)
    token_from (done e2 ∷ wakes) (err e) w = (some (err e), w)
    token_from (tick t ∷ wakes) (err e) w =
        let (answer, w1) = run (token_command ns sa) w in
        token_from wakes (try_once status_token quote ns sa answer) w1

    -- `ended` is the error of a context that has ended before the call.
    unfoldable pub token_on : Option Text → Wakes runner → World → Asked
    unfolding token_from try_once token_command
    token_on (some e) wakes w = (some (err e), w)
    token_on none wakes w =
        let (answer, w1) = run (token_command ns sa) w in
        token_from wakes (try_once status_token quote ns sa answer) w1
