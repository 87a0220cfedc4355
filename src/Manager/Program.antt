-- ===== src/Manager/Program.antt =====
-- cmd/main.go: `init` and `main`, as the sequence of their calls of controller-runtime.
pub mod Plan
pub mod Ending
use my_operator.Base.{
  ℕ, Bool, true, false, not, Option, none, some, List, [], ◌∷◌, if◌then◌else◌, Text, codes, Result,
  ok, err,
}
use my_operator.GoSlice.{Slice}
use my_operator.Manager.{
  Flags, Stop, help, bad, defaults, parse_flags, CertWatcher, Locals, webhook_watcher,
  metrics_watcher, common_opts, add_webhook_opt, add_metrics_opt,
}
use my_operator.Text.{equal}

-- `ctrl.Options`, with the fields of the two servers' options; `filter` says whether the metrics
-- are served to authorized users only.
pub record ManagerOptions : Type 0 where
  pub locals : Locals
  pub bind_address : Text
  pub secure_serving : Bool
  pub filter : Bool
  pub health_probe_bind_address : Text
  pub leader_election : Bool
  pub leader_election_id : Text

unfoldable pub options_of : Flags → Locals → ManagerOptions
options_of o l = record {
  locals = l;
  bind_address = o.metrics_addr;
  secure_serving = o.secure_metrics;
  filter = o.secure_metrics;
  health_probe_bind_address = o.probe_addr;
  leader_election = o.enable_leader_election;
  leader_election_id = codes "b2909ea0.my.domain";
}

pub data Scheme : Type 0 where
  client_go batch_v1 : Scheme

pub data Call : Type 0 where
  add_to_scheme : Scheme → Call
  new_watcher : CertWatcher → Call
  get_config : Call
  new_manager : ManagerOptions → Call
  setup_controller : Call
  add : CertWatcher → Call
  add_healthz_check : Text → Call
  add_readyz_check : Text → Call
  start : Call

-- How the process ends where `main` does not return.
pub data Exit : Type 0 where
  exit : ℕ → Exit
  panic : Text → Exit

-- The calls so far, the latest first, and whether the next one fails.
abbrev pub History : Type 0
History = List Call

abbrev pub Answers : Type 0
Answers = History → Call → Option Text

-- A computation that makes calls, and may end the process.
abbrev pub Cmd : Type 0 → Type 0
Cmd A = History → Result Exit A × History

unfoldable pub and_then :
    {A B : Type 0} → Result Exit A × History → (A → Cmd B) → Result Exit B × History
and_then (ok a, h) k = k a h
and_then (err e, h) k = (err e, h)

infixl 5 ◌>>=◌ ◌>>◌
abbrev pub ◌>>=◌ : {A B : Type 0} → Cmd A → (A → Cmd B) → Cmd B
unfolding and_then
m >>= k = λ h. and_then (m h) k

abbrev pub ◌>>◌ : {A B : Type 0} → Cmd A → Cmd B → Cmd B
m >> n = m >>= λ _. n

abbrev pub pure : {A : Type 0} → A → Cmd A
pure a h = (ok a, h)

module _ (answers : Answers) where
  ended : Option Text → (Text → Exit) → Result Exit (Unit {0})
  ended none exit_of = ok tt
  ended (some e) exit_of = err (exit_of e)

  -- `if err := ...; err != nil { os.Exit(1) }`
  unfoldable pub attempt : Call → Cmd (Unit {0})
  unfolding ended
  attempt call h = (ended (answers h call) (λ e. exit 1), call ∷ h)

  -- `utilruntime.Must`
  unfoldable pub must : Call → Cmd (Unit {0})
  unfolding ended
  must call h = (ended (answers h call) panic, call ∷ h)

  unfoldable pub init : Cmd (Unit {0})
  unfolding must
  init = must (add_to_scheme client_go) >> must (add_to_scheme batch_v1)

  -- What `flag.ExitOnError` does on a command line that asks for the help, or does not parse.
  parsed : Result Stop Flags → Cmd Flags
  parsed (ok o) h = (ok o, h)
  parsed (err help) h = (err (exit 0), h)
  parsed (err (bad name)) h = (err (exit 2), h)

  add_watcher : Option CertWatcher → Cmd (Unit {0})
  unfolding attempt
  add_watcher none = pure tt
  add_watcher (some w) = attempt (add w)

  -- `main` from the reading of the cluster's configuration on.
  unfoldable pub run_manager : Flags → Locals → Cmd (Unit {0})
  unfolding options_of attempt add_watcher
  run_manager o l = do
    attempt get_config
    attempt (new_manager (options_of o l))
    attempt setup_controller
    add_watcher l.metrics_cert_watcher
    add_watcher l.webhook_cert_watcher
    attempt (add_healthz_check (codes "healthz"))
    attempt (add_readyz_check (codes "readyz"))
    attempt start
    pure tt

  module _ (join : Text → Text → Text) (spare : ℕ → ℕ) where
    watch_webhook : Flags → Locals → Cmd Locals
    unfolding attempt add_webhook_opt webhook_watcher
    watch_webhook o l = if equal o.webhook_cert_path [] then pure l else do
      attempt (new_watcher (webhook_watcher join o))
      pure (add_webhook_opt join o spare l)

    watch_metrics : Flags → Locals → Cmd Locals
    unfolding attempt add_metrics_opt metrics_watcher
    watch_metrics o l = if equal o.metrics_cert_path [] then pure l else do
      attempt (new_watcher (metrics_watcher join o))
      pure (add_metrics_opt join o spare l)

    -- `main` behind the parsing of the flags.
    unfoldable pub run_with : Flags → Cmd (Unit {0})
    unfolding watch_webhook watch_metrics common_opts run_manager
    run_with o = do
      l ← watch_webhook o (common_opts spare o)
      l1 ← watch_metrics o l
      run_manager o l1

    unfoldable pub main : (Text → Text → Option (Option Text)) → List (Text × Text) → Cmd (Unit {0})
    unfolding run_with init parse_flags defaults parsed
    main foreign args = do init; o ← parsed (parse_flags foreign args defaults); run_with o
