-- ===== src/Kubeutil/Wait/Loop/Returned.antt =====
-- pkg/kubeutil/wait.go: how often a waiting loop runs its command, and how it ends.
use my_operator.Base.{
  ℕ, zero, suc, ◌≤◌, true, false, some, [], ◌∷◌, ◌≡◌, refl, ap, arith, Text, Result, ok, err, Bool,
  ◌⊎◌, inl, inr, Bool-cases,
}
use my_operator.Kubeutil.{Command, Runner, tick, done}
use my_operator.Kubeutil.Wait.{try_once}
use my_operator.Kubeutil.Wait.Loop.{Wakes, Waited, wait_from, wait_on}

module _ (runner : Runner) where
  open runner use {World, run}

  -- The context ends at some time.
  abbrev pub HasDone : Wakes runner → Type 0
  HasDone [] = ⊥
  HasDone (done e ∷ wakes) = Unit
  HasDone (tick t ∷ wakes) = HasDone wakes

  -- The ticks before it ends.
  abbrev pub ticks : Wakes runner → ℕ
  ticks [] = 0
  ticks (done e ∷ wakes) = 0
  ticks (tick t ∷ wakes) = suc (ticks wakes)

  -- The error of the context, once it has ended.
  abbrev pub end_error : Wakes runner → Text
  end_error [] = []
  end_error (done e ∷ wakes) = e
  end_error (tick t ∷ wakes) = end_error wakes

  module _ (command : Command) where
    -- The world behind `n` runs of the command.
    abbrev pub runs : ℕ → World → World
    runs zero w = w
    runs (suc n) w = runs n (run command w).1

  module _ (command : Command) (is_ready : Text → Bool) (timed_out : Text → Text) where
    -- What the command answers behind `n` runs of it.
    abbrev pub answer_at : ℕ → World → Result Text Text
    answer_at n w = (run command (runs command n w)).0

    -- The command succeeds, and its output says that the thing is ready.
    abbrev pub Ready : Result Text Text → Type 0
    Ready answer = (out : Text) × (answer ≡ ok out) × (is_ready out ≡ true)

    -- The command fails, or its output says that the thing is not ready.
    abbrev pub NotReady : Result Text Text → Type 0
    NotReady answer =
        ((out : Text) × (answer ≡ ok out) × (is_ready out ≡ false))
        ⊎ ((e : Text) × (answer ≡ err e))

    -- The first `n` answers are not ready.
    abbrev pub AllNot : ℕ → World → Type 0
    AllNot zero w = Unit
    AllNot (suc n) w = NotReady (answer_at 0 w) × AllNot n (run command w).1

    -- The loop ends with its attempt behind `n` others, none of which was ready: with success where
    -- that one is, and else, where there are `k` ticks, behind the last of them, with the error `e`.
    abbrev pub Returns : ℕ → Text → World → Waited runner → Type 0
    Returns k e w out =
        (n : ℕ) × (n ≤ k)
        × AllNot n w
        × ((Ready (answer_at n w) × (out ≡ (some (ok tt), runs command (suc n) w)))
            ⊎ (NotReady (answer_at n w)
                × (n ≡ k)
                × (out ≡ (some (err (timed_out e)), runs command (suc n) w))))

    Returns-later :
        (k : ℕ) (e : Text) (w : World) (out : Waited runner)
        → NotReady (answer_at 0 w)
        → Returns k e (run command w).1 out
        → Returns (suc k) e w out
    Returns-later k e w out h (n, le, not, inl r) = (suc n, omega arith, (h, not), inl r)
    Returns-later k e w out h (n, le, not, inr (g, same, r)) =
        (suc n, omega arith, (h, not), inr (g, ap suc same, r))

    answer-cases :
        (answer : Result Text Text)
        → (Ready answer × (try_once is_ready answer ≡ ok true))
          ⊎ (NotReady answer
              × ((try_once is_ready answer ≡ ok false)
                  ⊎ ((e : Text) × (try_once is_ready answer ≡ err e))))
    unfolding try_once
    answer-cases (err e) = inr (inr (e, refl), inr (e, refl))
    answer-cases (ok out) = elim (Bool-cases (is_ready out)) [
      | inl h ↦ inl ((out, refl, h), ap ok h)
      | inr h ↦ inr (inl (out, refl, h), inl (ap ok h))
    ]

    wait_from-ready :
        (wakes : Wakes runner) (w : World)
        → wait_from runner command is_ready timed_out wakes (ok true) w ≡ (some (ok tt), w)
    unfolding wait_from
    wait_from-ready [] w = refl
    wait_from-ready (e ∷ wakes) w = refl

    wait_from-Returns :
        (wakes : Wakes runner) (w : World)
        → HasDone wakes
        → Returns (ticks wakes) (end_error wakes) w (
            wait_from runner command is_ready timed_out wakes
              (try_once is_ready (answer_at 0 w))
              (run command w).1)
    unfolding wait_from
    wait_from-Returns [] w h = elim h [ ]
    wait_from-Returns (done e ∷ wakes) w h = elim (answer-cases (answer_at 0 w)) [
      | inl (r, k) ↦ (0, omega arith, tt, inl (r, rw k (wait_from-ready (done e ∷ wakes) _)))
      | inr (r, inl k) ↦ (0, omega arith, tt, inr (r, refl, rw k refl))
      | inr (r, inr (x, k)) ↦ (0, omega arith, tt, inr (r, refl, rw k refl))
    ]
    wait_from-Returns (tick t ∷ wakes) w h = elim (answer-cases (answer_at 0 w)) [
      | inl (r, k) ↦ (0, omega arith, tt, inl (r, rw k (wait_from-ready (tick t ∷ wakes) _)))
      | inr (r, inl k) ↦
          Returns-later (ticks wakes) (end_error wakes) w _ r
            (rw k (wait_from-Returns wakes (run command w).1 h))
      | inr (r, inr (x, k)) ↦
          Returns-later (ticks wakes) (end_error wakes) w _ r
            (rw k (wait_from-Returns wakes (run command w).1 h))
    ]

    -- Where its context ends at some time, a waiting loop returns, whatever the cluster answers. It
    -- has then run its one command at once, and once more for each tick up to the first run whose
    -- output says that the thing is ready, and nothing else; with that run it succeeds. Where none
    -- is, it has run the command behind every tick before the end of the context, and yields the
    -- error of the end. A run that fails ends nothing.
    pub wait_on-Returns :
        (wakes : Wakes runner) (w : World)
        → HasDone wakes
        → Returns
            (ticks wakes)
            (end_error wakes)
            w
            (wait_on runner command is_ready timed_out wakes w)
    unfolding wait_on
    wait_on-Returns wakes w h = wait_from-Returns wakes w h
