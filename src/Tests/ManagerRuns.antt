-- ===== src/Tests/ManagerRuns.antt =====
-- Runs of cmd/main.go.
use my_operator.Base.{
  ℕ, true, false, none, some, Option, if◌then◌else◌, List, [], ◌∷◌, ◌++◌, ◌≡◌, refl, Text, codes,
  err, ok,
}
use my_operator.GoSlice.{append, array_at, set, replicate, nil_slice, contents}
use my_operator.Manager.{
  Flags, help, defaults, parse_flags, set_flag, parse_bool, TlsConfig, webhook_watcher,
  metrics_watcher, common_opts, add_webhook_opt, add_metrics_opt, apply_opt,
}
use my_operator.Manager.Program.{
  Answers, exit, main, init, must, attempt, run_with, run_manager, and_then, options_of, get_config,
}
use my_operator.Manager.Tls.{
  tls_of, configure, intended, locals, with_webhook, with_metrics, servers_intended,
}
use my_operator.Text.{equal}

abbrev join : Text → Text → Text
join a b = a ++ (codes "/" ++ b)

abbrev exact : ℕ → ℕ
exact n = 0

-- Both certificates, and no HTTP/2.
abbrev both : Flags
both = record {
  metrics_addr = codes ":8443";
  probe_addr = codes ":8081";
  enable_leader_election = true;
  secure_metrics = true;
  webhook_cert_path = codes "/w";
  webhook_cert_name = codes "tls.crt";
  webhook_cert_key = codes "tls.key";
  metrics_cert_path = codes "/m";
  metrics_cert_name = codes "tls.crt";
  metrics_cert_key = codes "tls.key";
  enable_http2 = false;
}

abbrev base_config : TlsConfig
base_config = record { next_protos = codes "h2" ∷ []; get_certificate = none }

servers_intended_example :
    (tls_of (locals join exact both).webhook_tls_opts (locals join exact both) base_config
      ≡ some (intended both both.webhook_cert_path (webhook_watcher join both) base_config))
    × (tls_of (locals join exact both).metrics_tls_opts (locals join exact both) base_config
        ≡ some (intended both both.metrics_cert_path (metrics_watcher join both) base_config))
servers_intended_example = servers_intended join exact both base_config refl

-- With room to spare behind the first option, the two slices share their second slot, and the webhook
-- server gets the certificate of the metrics.
crossed :
    tls_of (locals join (λ n. 1) both).webhook_tls_opts (locals join (λ n. 1) both) base_config
    ≡ some (intended both both.metrics_cert_path (metrics_watcher join both) base_config)
unfolding tls_of locals with_webhook with_metrics common_opts add_webhook_opt add_metrics_opt append
    array_at set replicate nil_slice contents configure apply_opt intended equal
crossed = refl

abbrev args : List (Text × Text)
args =
    (codes "enable-http2", codes "true")
    ∷ (codes "zap-log-level", codes "debug")
    ∷ (codes "webhook-cert-path", codes "/w")
    ∷ []

-- zap's flag for the level, and no kubeconfig.
abbrev foreign : Text → Text → Option (Option Text)
foreign name value = if equal name (codes "zap-log-level") then some none else none

parsed_args :
    parse_flags foreign args defaults
    ≡ ok (record defaults { enable_http2 = true; webhook_cert_path = codes "/w" })
unfolding parse_flags set_flag parse_bool equal
parsed_args = refl

asks_for_help : parse_flags foreign ((codes "h", codes "true") ∷ []) defaults ≡ err help
unfolding parse_flags set_flag equal
asks_for_help = refl

-- A cluster whose configuration is missing.
abbrev no_config : Answers
no_config h get_config = some (codes "no configuration")
no_config h _ = none

gives_up : (main no_config join exact foreign args []).0 ≡ err (exit 1)
unfolding main init must attempt run_with run_manager and_then parse_flags set_flag parse_bool equal
    defaults common_opts options_of
gives_up = refl
