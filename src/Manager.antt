-- ===== src/Manager.antt =====
-- cmd/main.go: the flags, and the TLS options of the two servers, which are slices of functions.
pub mod Tls
pub mod Given
pub mod Program
use my_operator.Base.{
  ℕ, Bool, true, false, ◌||◌, Option, none, some, List, [], ◌∷◌, if◌then◌else◌, Text, codes, Result,
  ok, err, ◌>>=◌,
}
use my_operator.GoSlice.{Slice, nil_slice, Arrays, append, contents}
use my_operator.Text.{equal}

pub record Flags : Type 0 where
  pub metrics_addr : Text
  pub probe_addr : Text
  pub enable_leader_election : Bool
  pub secure_metrics : Bool
  pub webhook_cert_path : Text
  pub webhook_cert_name : Text
  pub webhook_cert_key : Text
  pub metrics_cert_path : Text
  pub metrics_cert_name : Text
  pub metrics_cert_key : Text
  pub enable_http2 : Bool

unfoldable pub defaults : Flags
defaults = record {
  metrics_addr = codes "0";
  probe_addr = codes ":8081";
  enable_leader_election = false;
  secure_metrics = true;
  webhook_cert_path = [];
  webhook_cert_name = codes "tls.crt";
  webhook_cert_key = codes "tls.key";
  metrics_cert_path = [];
  metrics_cert_name = codes "tls.crt";
  metrics_cert_key = codes "tls.key";
  enable_http2 = false;
}

-- `strconv.ParseBool`
unfoldable pub parse_bool : Text → Option Bool
parse_bool s =
    if equal s (codes "1")
      || equal s (codes "t")
      || equal s (codes "T")
      || equal s (codes "true")
      || equal s (codes "TRUE")
      || equal s (codes "True")
    then some true
    else if equal s (codes "0")
        || equal s (codes "f")
        || equal s (codes "F")
        || equal s (codes "false")
        || equal s (codes "FALSE")
        || equal s (codes "False")
    then some false
    else none

-- Why `flag.Parse` ends the process: the help was asked for, or a flag is bad.
pub data Stop : Type 0 where
  help : Stop
  bad : Text → Stop

set_bool : Text → (Bool → Flags) → Option Bool → Result Stop Flags
set_bool name set none = err (bad name)
set_bool name set (some b) = ok (set b)

-- A flag that `main` does not name.
foreign_flag : Flags → Text → Option (Option Text) → Result Stop Flags
foreign_flag o name (some none) = ok o
foreign_flag o name (some (some e)) = err (bad name)
foreign_flag o name none =
    if equal name (codes "help") || equal name (codes "h") then err help else err (bad name)

-- `foreign` stands for the flags that other packages register: controller-runtime's kubeconfig, and
-- those of zap's `BindFlags`. It is none on a name that is not registered, and else says which error
-- the value leads to, if any. They set nothing that the rest of `main` reads.
module _ (foreign : Text → Text → Option (Option Text)) where
  -- One flag of the command line.
  unfoldable pub set_flag : Flags → Text → Text → Result Stop Flags
  unfolding set_bool parse_bool foreign_flag
  set_flag o name value =
      if equal name (codes "metrics-bind-address")
      then ok (record o { metrics_addr = value })
      else if equal name (codes "health-probe-bind-address")
      then ok (record o { probe_addr = value })
      else if equal name (codes "leader-elect")
      then set_bool name (λ b. record o { enable_leader_election = b }) (parse_bool value)
      else if equal name (codes "metrics-secure")
      then set_bool name (λ b. record o { secure_metrics = b }) (parse_bool value)
      else if equal name (codes "webhook-cert-path")
      then ok (record o { webhook_cert_path = value })
      else if equal name (codes "webhook-cert-name")
      then ok (record o { webhook_cert_name = value })
      else if equal name (codes "webhook-cert-key")
      then ok (record o { webhook_cert_key = value })
      else if equal name (codes "metrics-cert-path")
      then ok (record o { metrics_cert_path = value })
      else if equal name (codes "metrics-cert-name")
      then ok (record o { metrics_cert_name = value })
      else if equal name (codes "metrics-cert-key")
      then ok (record o { metrics_cert_key = value })
      else if equal name (codes "enable-http2")
      then set_bool name (λ b. record o { enable_http2 = b }) (parse_bool value)
      else foreign_flag o name (foreign name value)

  -- `flag.Parse` behind the splitting of the command line, in its order.
  unfoldable pub parse_flags : List (Text × Text) → Flags → Result Stop Flags
  unfolding set_flag
  parse_flags [] o = ok o
  parse_flags ((name, value) ∷ args) o = do o1 ← set_flag o name value; parse_flags args o1

-- A watcher of a certificate, made by `certwatcher.New` from two paths.
pub record CertWatcher : Type 0 where
  pub cert_path : Text
  pub key_path : Text

-- `tls.Config`, as far as the options change it.
pub record TlsConfig : Type 0 where
  pub next_protos : List Text
  pub get_certificate : Option CertWatcher

-- The two functions on a `tls.Config`: `disableHTTP2`, and the closure around a watcher.
pub data TlsOpt : Type 0 where
  disable_http2 : TlsOpt
  use_certificate : CertWatcher → TlsOpt

unfoldable pub apply_opt : TlsOpt → TlsConfig → TlsConfig
apply_opt disable_http2 c = record c { next_protos = codes "http/1.1" ∷ [] }
apply_opt (use_certificate w) c = record c { get_certificate = some w }

-- The local variables of `main`, and the arrays behind its slices.
pub record Locals : Type 0 where
  pub tls_opts : Slice
  pub webhook_tls_opts : Slice
  pub metrics_tls_opts : Slice
  pub webhook_cert_watcher : Option CertWatcher
  pub metrics_cert_watcher : Option CertWatcher
  pub arrays : Arrays TlsOpt

locals_of : Slice × Arrays TlsOpt → Locals
locals_of (s, arrays) = record {
  tls_opts = s;
  webhook_tls_opts = s;
  metrics_tls_opts = s;
  webhook_cert_watcher = none;
  metrics_cert_watcher = none;
  arrays = arrays;
}

-- The options common to both servers; a slice is copied with its array.
unfoldable pub common_opts : (ℕ → ℕ) → Flags → Locals
unfolding locals_of append nil_slice
common_opts spare o =
    locals_of (if o.enable_http2 then (nil_slice, []) else append spare nil_slice disable_http2 [])

-- `join` stands for `filepath.Join`.
module _ (join : Text → Text → Text) (o : Flags) where
  unfoldable pub webhook_watcher : CertWatcher
  webhook_watcher = record {
    cert_path = join o.webhook_cert_path o.webhook_cert_name;
    key_path = join o.webhook_cert_path o.webhook_cert_key;
  }

  unfoldable pub metrics_watcher : CertWatcher
  metrics_watcher = record {
    cert_path = join o.metrics_cert_path o.metrics_cert_name;
    key_path = join o.metrics_cert_path o.metrics_cert_key;
  }

  module _ (spare : ℕ → ℕ) where
    unfoldable pub add_webhook_opt : Locals → Locals
    unfolding append webhook_watcher
    add_webhook_opt l =
        let (s, arrays) =
          append spare l.webhook_tls_opts (use_certificate webhook_watcher) l.arrays in
        record l {
          webhook_tls_opts = s;
          webhook_cert_watcher = some webhook_watcher;
          arrays = arrays;
        }

    unfoldable pub add_metrics_opt : Locals → Locals
    unfolding append metrics_watcher
    add_metrics_opt l =
        let (s, arrays) =
          append spare l.metrics_tls_opts (use_certificate metrics_watcher) l.arrays in
        record l {
          metrics_tls_opts = s;
          metrics_cert_watcher = some metrics_watcher;
          arrays = arrays;
        }
