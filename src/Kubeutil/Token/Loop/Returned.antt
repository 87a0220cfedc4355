-- ===== src/Kubeutil/Token/Loop/Returned.antt =====
-- pkg/kubeutil/token.go: what the loop returns, and what it has asked of the cluster by then.
use my_operator.Base.{
  ℕ, zero, suc, ◌≤◌, none, some, [], ◌∷◌, ◌≡◌, refl, ap, arith, Text, Result, ok, err, ◌⊎◌, inl,
  inr,
}
use my_operator.Kubeutil.{Runner, tick, done}
use my_operator.Kubeutil.Token.{token_command, try_once}
use my_operator.Kubeutil.Token.Latest.{Result-cases}
use my_operator.Kubeutil.Token.Loop.{Asked, token_from, token_on}
use my_operator.Kubeutil.Wait.Loop.{Wakes}
use my_operator.Kubeutil.Wait.Loop.Returned.{HasDone, ticks, runs}

module _ (runner : Runner) (status_token : Text → Result Text Text) (quote : Text → Text)
    (ns sa : Text) where
  open runner use {World, run}

  abbrev ask : World → Result Text Text × World
  ask w = run (token_command ns sa) w

  -- The outcome of the attempt behind `n` others.
  abbrev pub attempt_at : ℕ → World → Result Text Text
  attempt_at n w = try_once status_token quote ns sa (ask (runs runner (token_command ns sa) n w)).0

  abbrev Fails : Result Text Text → Type 0
  Fails r = (e : Text) × (r ≡ err e)

  abbrev Succeeds : Result Text Text → Type 0
  Succeeds r = (token : Text) × (r ≡ ok token)

  -- The first `n` attempts fail.
  abbrev pub AllFail : ℕ → World → Type 0
  AllFail zero w = Unit
  AllFail (suc n) w = Fails (attempt_at 0 w) × AllFail n (ask w).1

  abbrev pub Returns : ℕ → World → Asked runner → Type 0
  Returns k w out =
      (n : ℕ) × (n ≤ k)
      × (out ≡ (some (attempt_at n w), runs runner (token_command ns sa) (suc n) w))
      × AllFail n w
      × (Succeeds (attempt_at n w) ⊎ (Fails (attempt_at n w) × (n ≡ k)))

  token_from-ok :
      (wakes : Wakes runner) (token : Text) (w : World)
      → token_from runner status_token quote ns sa wakes (ok token) w ≡ (some (ok token), w)
  unfolding token_from
  token_from-ok [] token w = refl
  token_from-ok (e ∷ wakes) token w = refl

  Returns-first :
      (k : ℕ) (w : World) (out : Asked runner)
      → Succeeds (attempt_at 0 w)
      → out ≡ (some (attempt_at 0 w), (ask w).1)
      → Returns k w out
  Returns-first k w out s e = (0, omega arith, e, tt, inl s)

  Returns-later :
      (k : ℕ) (w : World) (out : Asked runner)
      → Fails (attempt_at 0 w)
      → Returns k (ask w).1 out
      → Returns (suc k) w out
  Returns-later k w out h (n, le, e, fails, inl s) = (suc n, omega arith, e, (h, fails), inl s)
  Returns-later k w out h (n, le, e, fails, inr (l, same)) =
      (suc n, omega arith, e, (h, fails), inr (l, ap suc same))

  token_from-Returns :
      (wakes : Wakes runner) (w : World)
      → HasDone runner wakes
      → Returns
          (ticks runner wakes)
          w
          (token_from runner status_token quote ns sa wakes (attempt_at 0 w) (ask w).1)
  unfolding token_from
  token_from-Returns [] w h = elim h [ ]
  token_from-Returns (done e ∷ wakes) w h = elim (Result-cases (attempt_at 0 w)) [
    | inl (token, k) ↦
        Returns-first 0 w _ (token, k) (rw k (token_from-ok (done e ∷ wakes) token (ask w).1))
    | inr (x, k) ↦ (0, omega arith, rw k refl, tt, inr ((x, k), refl))
  ]
  token_from-Returns (tick t ∷ wakes) w h = elim (Result-cases (attempt_at 0 w)) [
    | inl (token, k) ↦
        Returns-first _ w _ (token, k) (rw k (token_from-ok (tick t ∷ wakes) token (ask w).1))
    | inr (x, k) ↦
        Returns-later (ticks runner wakes) w _ (x, k) (rw k (token_from-Returns wakes (ask w).1 h))
  ]

  -- Where its context ends at some time, and not before the call, the loop returns the outcome of its
  -- last attempt, behind failed ones only: a token, or the error of an attempt that no other follows
  -- before the context ends. By then it has run the command of each attempt, and nothing else.
  pub token_on-Returns :
      (wakes : Wakes runner) (w : World)
      → HasDone runner wakes
      → Returns (ticks runner wakes) w (token_on runner status_token quote ns sa none wakes w)
  unfolding token_on
  token_on-Returns wakes w h = token_from-Returns wakes w h
