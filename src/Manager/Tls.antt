-- ===== src/Manager/Tls.antt =====
-- cmd/main.go: the options that each server ends up with, though the slices may share an array.
use my_operator.Base.{
  List, Option, none, ℕ, some, [], ◌∷◌, ◌≡◌, refl, if◌then◌else◌, Text, codes, inl, inr, Bool-cases,
}
use my_operator.GoSlice.{Slice, append, array_at, set, replicate, nil_slice, contents}
use my_operator.Manager.{
  TlsOpt, Flags, CertWatcher, TlsConfig, apply_opt, Locals, webhook_watcher, metrics_watcher,
  locals_of, common_opts, add_webhook_opt, add_metrics_opt,
}
use my_operator.Text.{equal}

-- What options do to a configuration, in order, as controller-runtime documents the use of TLSOpts;
-- the call of a nil function panics.
unfoldable pub configure : List (Option TlsOpt) → TlsConfig → Option TlsConfig
unfolding apply_opt
configure [] c = some c
configure (none ∷ opts) c = none
configure (some o ∷ opts) c = configure opts (apply_opt o c)

-- What a server makes of its slice, on the arrays as they are when it starts.
unfoldable pub tls_of : Slice → Locals → TlsConfig → Option TlsConfig
unfolding configure contents
tls_of s l c = configure (contents s l.arrays) c

-- What a server is meant to use on the configuration `c`: HTTP/2 only where the flag allows it, and
-- the certificate at its own path, where one is given.
unfoldable pub intended : Flags → Text → CertWatcher → TlsConfig → TlsConfig
intended o cert_path watcher c = record {
  next_protos = if o.enable_http2 then c.next_protos else codes "http/1.1" ∷ [];
  get_certificate = if equal cert_path [] then c.get_certificate else some watcher;
}

module _ (join : Text → Text → Text) (spare : ℕ → ℕ) (o : Flags) where
  unfoldable pub with_webhook : Locals → Locals
  with_webhook l = if equal o.webhook_cert_path [] then l else add_webhook_opt join o spare l

  unfoldable pub with_metrics : Locals → Locals
  with_metrics l = if equal o.metrics_cert_path [] then l else add_metrics_opt join o spare l

  -- The variables of `main` when it makes the manager.
  unfoldable pub locals : Locals
  unfolding with_webhook with_metrics common_opts
  locals = with_metrics (with_webhook (common_opts spare o))

  -- Where the runtime gives the first append of an empty slice no room to spare, both servers use
  -- the protocols that the flag enable-http2 allows, and each uses the certificate of its own path,
  -- or that of its configuration where it has no path; neither call of a server's options panics.
  pub servers_intended :
      (c : TlsConfig)
      → spare 0 ≡ 0
      → (tls_of (locals.webhook_tls_opts) locals c
          ≡ some (intended o o.webhook_cert_path (webhook_watcher join o) c))
        × (tls_of (locals.metrics_tls_opts) locals c
            ≡ some (intended o o.metrics_cert_path (metrics_watcher join o) c))
  unfolding tls_of locals with_webhook with_metrics common_opts add_webhook_opt add_metrics_opt
      append array_at set replicate nil_slice contents configure apply_opt locals_of intended
  servers_intended c e = elim (Bool-cases o.enable_http2) [
    | inl h ↦ elim (Bool-cases (equal o.webhook_cert_path [])) [
      | inl w ↦ elim (Bool-cases (equal o.metrics_cert_path [])) [
        | inl m ↦ rw (h, w, m) (refl, refl)
        | inr m ↦ rw (h, w, m) (refl, refl)
      ]
      | inr w ↦ elim (Bool-cases (equal o.metrics_cert_path [])) [
        | inl m ↦ rw (h, w, m) (refl, refl)
        | inr m ↦ rw (h, w, m) (refl, refl)
      ]
    ]
    | inr h ↦ elim (Bool-cases (equal o.webhook_cert_path [])) [
      | inl w ↦ elim (Bool-cases (equal o.metrics_cert_path [])) [
        | inl m ↦ rw (h, w, m) (refl, refl)
        | inr m ↦ rw (h, w, m, e) (refl, refl)
      ]
      | inr w ↦ elim (Bool-cases (equal o.metrics_cert_path [])) [
        | inl m ↦ rw (h, w, m, e) (refl, refl)
        | inr m ↦ rw (h, w, m, e) (refl, refl)
      ]
    ]
  ]
