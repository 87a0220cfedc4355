-- ===== src/Kubeutil/Token/Latest.antt =====
-- pkg/kubeutil/token.go: how the token loop ends, and with which error.
use mathlib.Core.Option.{none-ne-some, some-injective}
use mathlib.Core.Path.{subst}
use my_operator.Base.{
  none, some, List, [], ◌∷◌, ◌≡◌, ◌↔◌, refl, sym, ap, ◌∙◌, Text, Result, ok, err, All, inl, inr,
  ◌⊎◌,
}
use my_operator.Kubeutil.{Event, tick, done}
use my_operator.Kubeutil.Token.{try_once, poll, after_first, service_account_token}

pub Result-cases :
    (r : Result Text Text) → ((token : Text) × (r ≡ ok token)) ⊎ ((e : Text) × (r ≡ err e))
Result-cases (ok token) = inl (token, refl)
Result-cases (err e) = inr (e, refl)

module _ (status_token : Text → Result Text Text) (quote : Text → Text) (ns sa : Text) where
  abbrev attempt : Result Text Text → Result Text Text
  attempt answer = try_once status_token quote ns sa answer

  -- The ticks of these answers, each a failed attempt.
  abbrev pub ticks :
      List (Result Text Text) → List (Event (Result Text Text)) → List (Event (Result Text Text))
  ticks [] rest = rest
  ticks (answer ∷ answers) rest = tick answer ∷ ticks answers rest

  abbrev pub error_or : Text → Result Text Text → Text
  error_or old (ok token) = old
  error_or old (err e) = e

  abbrev pub Fails : Result Text Text → Type 0
  Fails answer = (e : Text) × (attempt answer ≡ err e)

  -- The error of the last attempt.
  abbrev pub latest : Text → List (Result Text Text) → Text
  latest last_err [] = last_err
  latest last_err (answer ∷ answers) = latest (error_or last_err (attempt answer)) answers

  -- Failed attempts, and then a token, or the end of the context.
  abbrev pub Ends : Text → List (Event (Result Text Text)) → Result Text Text → Type 0
  Ends last_err events (ok token) =
      (answers : List (Result Text Text)) × (answer : Result Text Text) × (after : List
        (Event (Result Text Text)))
      × (events ≡ ticks answers (tick answer ∷ after))
      × All Fails answers
      × (attempt answer ≡ ok token)
  Ends last_err events (err x) =
      (answers : List (Result Text Text)) × (e : Text) × (after : List (Event (Result Text Text)))
      × (events ≡ ticks answers (done e ∷ after))
      × All Fails answers
      × (x ≡ latest last_err answers)

  Ends-later :
      (last_err e : Text) (answer : Result Text Text) (events : List (Event (Result Text Text)))
      (r : Result Text Text)
      → attempt answer ≡ err e
      → Ends e events r
      → Ends last_err (tick answer ∷ events) r
  Ends-later last_err e answer events (ok token) h (answers, a, after, p, q, g) =
      (answer ∷ answers, a, after, ap (◌∷◌ (tick answer)) p, ((e, h), q), g)
  Ends-later last_err e answer events (err x) h (answers, d, after, p, q, g) =
      (answer ∷ answers, d, after, ap (◌∷◌ (tick answer)) p, ((e, h), q), rw h g)

  poll-fails :
      (last_err e : Text) (answer : Result Text Text) (events : List (Event (Result Text Text)))
      → attempt answer ≡ err e
      → poll status_token quote ns sa last_err (tick answer ∷ events)
        ≡ poll status_token quote ns sa e events
  unfolding poll
  poll-fails last_err e answer events h = rw (poll, h)

  poll-token :
      (last_err token : Text) (answer : Result Text Text) (events : List (Event (Result Text Text)))
      → attempt answer ≡ ok token
      → poll status_token quote ns sa last_err (tick answer ∷ events) ≡ some (ok token)
  unfolding poll
  poll-token last_err token answer events h = rw (poll, h)

  poll-Ends :
      (last_err : Text) (events : List (Event (Result Text Text))) (r : Result Text Text)
      → poll status_token quote ns sa last_err events ≡ some r
      → Ends last_err events r
  unfolding poll
  poll-Ends last_err [] r h = absurd (none-ne-some r h)
  poll-Ends last_err (done e ∷ events) r h =
      subst (λ r. Ends last_err (done e ∷ events) r) (some-injective _ _ h)
        ([], e, events, refl, tt, refl)
  poll-Ends last_err (tick answer ∷ events) r h = elim (Result-cases (attempt answer)) [
    | inl (token, k) ↦
        subst (λ r. Ends last_err (tick answer ∷ events) r)
          (some-injective _ _ (sym (poll-token last_err token answer events k) ∙ h))
          ([], answer, events, refl, tt, k)
    | inr (e, k) ↦
        Ends-later last_err e answer events r k
          (poll-Ends e events r (sym (poll-fails last_err e answer events k) ∙ h))
  ]

  poll-ticks :
      (last_err : Text) (answers : List (Result Text Text)) (rest : List (Event (Result Text Text)))
      → All Fails answers
      → poll status_token quote ns sa last_err (ticks answers rest)
        ≡ poll status_token quote ns sa (latest last_err answers) rest
  unfolding poll
  poll-ticks last_err [] rest h = refl
  poll-ticks last_err (answer ∷ answers) rest ((e, h), p) =
      poll-fails last_err e answer (ticks answers rest) h ∙ rw h (poll-ticks e answers rest p)

  Ends-poll :
      (last_err : Text) (events : List (Event (Result Text Text))) (r : Result Text Text)
      → Ends last_err events r
      → poll status_token quote ns sa last_err events ≡ some r
  unfolding poll
  Ends-poll last_err events (ok token) (answers, a, after, p, q, g) = rw p (
      poll-ticks last_err answers (tick a ∷ after) q
      ∙ poll-token (latest last_err answers) token a after g)
  Ends-poll last_err events (err x) (answers, e, after, p, q, g) =
      rw (p, g) (poll-ticks last_err answers (done e ∷ after) q)

  first_poll :
      (first : Result Text Text) (events : List (Event (Result Text Text)))
      → service_account_token status_token quote ns sa none first events
        ≡ poll status_token quote ns sa [] (tick first ∷ events)
  unfolding service_account_token after_first poll
  first_poll first events = elim (Result-cases (attempt first)) [
    | inl (token, k) ↦ rw k (sym (poll-token [] token first events k))
    | inr (e, k) ↦ rw k (sym (poll-fails [] e first events k))
  ]

  -- The loop, with a context that has not ended before the call, yields a token exactly if the first
  -- attempt that succeeds yields it, before the context ends, and an error exactly if the context
  -- ends behind failed attempts alone: then it is the error of the last attempt.
  pub service_account_token-Ends :
      (first : Result Text Text) (events : List (Event (Result Text Text))) (r : Result Text Text)
      → (service_account_token status_token quote ns sa none first events ≡ some r)
        ↔ Ends [] (tick first ∷ events) r
  service_account_token-Ends first events r = (
    (λ h. poll-Ends [] (tick first ∷ events) r (sym (first_poll first events) ∙ h)),
    λ v. first_poll first events ∙ Ends-poll [] (tick first ∷ events) r v,
  )
