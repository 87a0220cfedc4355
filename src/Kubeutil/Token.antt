-- ===== src/Kubeutil/Token.antt =====
-- pkg/kubeutil/token.go: the loop that asks for the token of a service account.
pub mod Latest
pub mod Loop
use my_operator.Base.{
  Bool, true, false, Option, none, some, List, [], ◌∷◌, ◌++◌, if◌then◌else◌, Text, codes, Result,
  ok, err,
}
use my_operator.Kubeutil.{Command, Event, tick, done}
use my_operator.Text.{equal}

unfoldable pub token_command : Text → Text → Command
token_command ns sa = record {
  args =
      codes "kubectl"
      ∷ codes "create"
      ∷ codes "--raw"
      ∷ (codes "/api/v1/namespaces/" ++ ns ++ codes "/serviceaccounts/" ++ sa ++ codes "/token")
      ∷ codes "-f"
      ∷ codes "-"
      ∷ [];
  stdin = codes "{\"apiVersion\":\"authentication.k8s.io/v1\",\"kind\":\"TokenRequest\"}";
}

-- `status_token` stands for encoding/json: the field status.token of a response, empty where it has
-- none, or the error. `quote` stands for the verb %q.
module _ (status_token : Text → Result Text Text) (quote : Text → Text) (ns sa : Text) where
  token_of : Text → Result Text Text → Result Text Text
  token_of stdout (err e) = err (
      codes "token response json parse failed: "
      ++ e
      ++ codes " (body="
      ++ quote stdout
      ++ codes ")")
  token_of stdout (ok token) = if equal token [] then err (codes "token is empty") else ok token

  -- `tryOnce` on the answer of the runner.
  unfoldable pub try_once : Result Text Text → Result Text Text
  unfolding token_of
  try_once (err e) =
      err (codes "token request failed (ns=" ++ ns ++ codes " sa=" ++ sa ++ codes "): " ++ e)
  try_once (ok stdout) = token_of stdout (status_token stdout)

  -- The loop, with the error of the latest attempt, which is never nil here; `none` while it goes on.
  poll : Text → List (Event (Result Text Text)) → Option (Result Text Text)
  unfolding try_once
  poll last_err [] = none
  poll last_err (done e ∷ events) = some (err last_err)
  poll last_err (tick answer ∷ events) = elim (try_once answer) [
    | ok token ↦ some (ok token)
    | err e ↦ poll e events
  ]

  after_first : Result Text Text → List (Event (Result Text Text)) → Option (Result Text Text)
  unfolding poll
  after_first (ok token) events = some (ok token)
  after_first (err e) events = poll e events

  -- `ended` is the error of a context that has ended before the call.
  unfoldable pub service_account_token :
      Option Text → Result Text Text → List (Event (Result Text Text)) → Option (Result Text Text)
  unfolding after_first try_once
  service_account_token (some e) first events = some (err e)
  service_account_token none first events = after_first (try_once first) events
