-- ===== src/Manager/Given.antt =====
-- cmd/main.go: the flags behind a command line, one by one.
use mathlib.Core.Path.{subst}
use my_operator.Base.{
  Bool, true, false, Option, none, some, List, [], ◌∷◌, ◌≡◌, refl, sym, ap, ◌∙◌, if◌then◌else◌, inl,
  inr, Bool-cases, Text, codes, Result, ok, err, ◌>>=◌, ◌||◌,
}
use my_operator.Manager.{
  Flags, Stop, help, bad, parse_bool, set_bool, foreign_flag, set_flag, parse_flags,
}
use my_operator.Text.{equal, equal_iff}

abbrev bool_or : Bool → Option Bool → Bool
bool_or old none = old
bool_or old (some b) = b

-- The last value that the command line gives the flag, or the old one.
abbrev pub last_text : Text → Text → List (Text × Text) → Text
last_text name old [] = old
last_text name old ((n, v) ∷ args) = last_text name (if equal n name then v else old) args

abbrev pub last_bool : Text → Bool → List (Text × Text) → Bool
last_bool name old [] = old
last_bool name old ((n, v) ∷ args) =
    last_bool name (if equal n name then bool_or old (parse_bool v) else old) args

-- Each flag of `main` has the last value that the command line gives it, and else the old one.
abbrev pub given : List (Text × Text) → Flags → Flags
given args o = record {
  metrics_addr = last_text (codes "metrics-bind-address") o.metrics_addr args;
  probe_addr = last_text (codes "health-probe-bind-address") o.probe_addr args;
  enable_leader_election = last_bool (codes "leader-elect") o.enable_leader_election args;
  secure_metrics = last_bool (codes "metrics-secure") o.secure_metrics args;
  webhook_cert_path = last_text (codes "webhook-cert-path") o.webhook_cert_path args;
  webhook_cert_name = last_text (codes "webhook-cert-name") o.webhook_cert_name args;
  webhook_cert_key = last_text (codes "webhook-cert-key") o.webhook_cert_key args;
  metrics_cert_path = last_text (codes "metrics-cert-path") o.metrics_cert_path args;
  metrics_cert_name = last_text (codes "metrics-cert-name") o.metrics_cert_name args;
  metrics_cert_key = last_text (codes "metrics-cert-key") o.metrics_cert_key args;
  enable_http2 = last_bool (codes "enable-http2") o.enable_http2 args;
}

-- What the flags are where the command line gives none.
abbrev pub initial : Flags
initial = record {
  metrics_addr = codes "0";
  probe_addr = codes ":8081";
  enable_leader_election = false;
  secure_metrics = true;
  webhook_cert_path = [];
  webhook_cert_name = codes "tls.crt";
  webhook_cert_key = codes "tls.key";
  metrics_cert_path = [];
  metrics_cert_name = codes "tls.crt";
  metrics_cert_key = codes "tls.key";
  enable_http2 = false;
}

abbrev ok_or : Flags → Result Stop Flags → Flags
ok_or o (ok o1) = o1
ok_or o (err e) = o

ok-injective : (a b : Flags) → ◌≡◌ {A = Result Stop Flags} (ok a) (ok b) → a ≡ b
ok-injective a b h = ap (ok_or a) h

err-ne-ok : (e : Stop) (o : Flags) → ◌≡◌ {A = Result Stop Flags} (err e) (ok o) → ⊥
err-ne-ok e o h = cc

set_bool-given :
    (name : Text) (set : Bool → Flags) (r : Option Bool) (old : Bool) (o1 : Flags)
    → set_bool name set r ≡ ok o1
    → o1 ≡ set (bool_or old r)
unfolding set_bool
set_bool-given name set none old o1 h = absurd (err-ne-ok (bad name) o1 h)
set_bool-given name set (some b) old o1 h = sym (ok-injective (set b) o1 h)

foreign_flag-given :
    (o : Flags) (name : Text) (r : Option (Option Text)) (o1 : Flags)
    → foreign_flag o name r ≡ ok o1
    → o1 ≡ o
unfolding foreign_flag
foreign_flag-given o name (some none) o1 h = sym (ok-injective o o1 h)
foreign_flag-given o name (some (some e)) o1 h = absurd (err-ne-ok (bad name) o1 h)
foreign_flag-given o name none o1 h =
    elim (Bool-cases (equal name (codes "help") || equal name (codes "h"))) [
      | inl e ↦ absurd (err-ne-ok help o1 (rw e at h))
      | inr e ↦ absurd (err-ne-ok (bad name) o1 (rw e at h))
    ]

at_name : (P : Text → Type 0) (n name : Text) → equal n name ≡ true → P name → P n
at_name P n name e x = subst P (sym ((equal_iff n name).0 e)) x

module _ (foreign : Text → Text → Option (Option Text)) where
  -- What one flag changes.
  Sets : Flags → Text → Text → Type 0
  Sets o v n = (o1 : Flags) → set_flag foreign o n v ≡ ok o1 → o1 ≡ given ((n, v) ∷ []) o

  set_flag-given : (o : Flags) (n v : Text) → Sets o v n
  unfolding Sets set_flag equal
  set_flag-given o n v = elim (Bool-cases (equal n (codes "metrics-bind-address"))) [
    | inl e0 ↦
        at_name (Sets o v) n (codes "metrics-bind-address") e0 (λ o1 h. sym (ok-injective _ o1 h))
    | inr e0 ↦ elim (Bool-cases (equal n (codes "health-probe-bind-address"))) [
      | inl e1 ↦
          at_name (Sets o v) n (codes "health-probe-bind-address") e1
            (λ o1 h. sym (ok-injective _ o1 h))
      | inr e1 ↦ elim (Bool-cases (equal n (codes "leader-elect"))) [
        | inl e2 ↦ at_name (Sets o v) n (codes "leader-elect") e2 (λ o1 h.
            set_bool-given (codes "leader-elect") (λ b. record o { enable_leader_election = b })
              (parse_bool v) o.enable_leader_election o1 h)
        | inr e2 ↦ elim (Bool-cases (equal n (codes "metrics-secure"))) [
          | inl e3 ↦ at_name (Sets o v) n (codes "metrics-secure") e3 (λ o1 h.
              set_bool-given (codes "metrics-secure") (λ b. record o { secure_metrics = b })
                (parse_bool v) o.secure_metrics o1 h)
          | inr e3 ↦ elim (Bool-cases (equal n (codes "webhook-cert-path"))) [
            | inl e4 ↦
                at_name (Sets o v) n (codes "webhook-cert-path") e4
                  (λ o1 h. sym (ok-injective _ o1 h))
            | inr e4 ↦ elim (Bool-cases (equal n (codes "webhook-cert-name"))) [
              | inl e5 ↦
                  at_name (Sets o v) n (codes "webhook-cert-name") e5
                    (λ o1 h. sym (ok-injective _ o1 h))
              | inr e5 ↦ elim (Bool-cases (equal n (codes "webhook-cert-key"))) [
                | inl e6 ↦
                    at_name (Sets o v) n (codes "webhook-cert-key") e6
                      (λ o1 h. sym (ok-injective _ o1 h))
                | inr e6 ↦ elim (Bool-cases (equal n (codes "metrics-cert-path"))) [
                  | inl e7 ↦
                      at_name (Sets o v) n (codes "metrics-cert-path") e7
                        (λ o1 h. sym (ok-injective _ o1 h))
                  | inr e7 ↦ elim (Bool-cases (equal n (codes "metrics-cert-name"))) [
                    | inl e8 ↦
                        at_name (Sets o v) n (codes "metrics-cert-name") e8
                          (λ o1 h. sym (ok-injective _ o1 h))
                    | inr e8 ↦ elim (Bool-cases (equal n (codes "metrics-cert-key"))) [
                      | inl e9 ↦
                          at_name (Sets o v) n (codes "metrics-cert-key") e9
                            (λ o1 h. sym (ok-injective _ o1 h))
                      | inr e9 ↦ elim (Bool-cases (equal n (codes "enable-http2"))) [
                        | inl e10 ↦ at_name (Sets o v) n (codes "enable-http2") e10 (λ o1 h.
                            set_bool-given (codes "enable-http2")
                              (λ b. record o { enable_http2 = b }) (parse_bool v) o.enable_http2 o1
                              h)
                        | inr e10 ↦ (λ o1 h.
                            rw (e0, e1, e2, e3, e4, e5, e6, e7, e8, e9, e10)
                              (foreign_flag-given o n (foreign n v) o1
                                (rw (e0, e1, e2, e3, e4, e5, e6, e7, e8, e9, e10) at h)))
                      ]
                    ]
                  ]
                ]
              ]
            ]
          ]
        ]
      ]
    ]
  ]

  bound-ok :
      (r : Result Stop Flags) (k : Flags → Result Stop Flags) (o : Flags)
      → (r >>= k) ≡ ok o
      → (o1 : Flags) × (r ≡ ok o1) × (k o1 ≡ ok o)
  bound-ok (ok o1) k o h = (o1, refl, h)
  bound-ok (err e) k o h = absurd (err-ne-ok e o h)

  pub parse_flags-given :
      (args : List (Text × Text)) (o o1 : Flags)
      → parse_flags foreign args o ≡ ok o1
      → o1 ≡ given args o
  unfolding parse_flags Sets
  parse_flags-given [] o o1 h = sym (ok-injective o o1 h)
  parse_flags-given ((n, v) ∷ args) o o1 h =
      let (o2, e, g) = bound-ok (set_flag foreign o n v) (parse_flags foreign args) o1 h in
      parse_flags-given args o2 o1 g ∙ ap (given args) (set_flag-given o n v o2 e)
