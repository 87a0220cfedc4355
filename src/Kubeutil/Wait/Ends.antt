-- ===== src/Kubeutil/Wait/Ends.antt =====
-- pkg/kubeutil/wait.go: when the waiting loops end, and how.
use mathlib.Core.Option.{none-ne-some, some-injective}
use mathlib.Core.Path.{subst}
use my_operator.Base.{
  Bool, true, false, some, List, [], ◌∷◌, ◌++◌, ◌≡◌, ◌↔◌, refl, sym, ap, ◌∙◌, Text, Result, ok, err,
  All, inl, inr, ◌⊎◌, Bool-cases,
}
use my_operator.Kubeutil.{Event, tick, done}
use my_operator.Kubeutil.Wait.{try_once, poll, wait_until}

module _ (is_ready : Text → Bool) (timed_out : Text → Text) where
  abbrev pub Ready : Result Text Text → Type 0
  Ready (err e) = ⊥
  Ready (ok out) = is_ready out ≡ true

  -- A failed attempt, or one that saw something not ready.
  abbrev pub Unready : Result Text Text → Type 0
  Unready (err e) = Unit
  Unready (ok out) = is_ready out ≡ false

  abbrev pub Pending : Event (Result Text Text) → Type 0
  Pending (tick answer) = Unready answer
  Pending (done e) = ⊥

  -- The events in front of this one are attempts that saw nothing ready.
  abbrev pub First : Event (Result Text Text) → List (Event (Result Text Text)) → Type 0
  First event events =
      (before : List (Event (Result Text Text))) × (after : List (Event (Result Text Text)))
      × (events ≡ before ++ event ∷ after)
      × All Pending before

  abbrev pub Verdict : Result Text (Unit {0}) → List (Event (Result Text Text)) → Type 0
  Verdict (ok u) events = (answer : Result Text Text) × Ready answer × First (tick answer) events
  Verdict (err x) events = (e : Text) × (x ≡ timed_out e) × First (done e) events

  Ready-Unready : (answer : Result Text Text) → Ready answer ⊎ Unready answer
  Ready-Unready (err e) = inr tt
  Ready-Unready (ok out) = Bool-cases (is_ready out)

  poll-Ready :
      (answer : Result Text Text) (events : List (Event (Result Text Text)))
      → Ready answer
      → poll is_ready timed_out (tick answer ∷ events) ≡ some (ok tt)
  unfolding poll try_once
  poll-Ready (err e) events h = elim h [ ]
  poll-Ready (ok out) events h = rw h

  poll-Unready :
      (answer : Result Text Text) (events : List (Event (Result Text Text)))
      → Unready answer
      → poll is_ready timed_out (tick answer ∷ events) ≡ poll is_ready timed_out events
  unfolding poll try_once
  poll-Unready (err e) events h = refl
  poll-Unready (ok out) events h = rw h

  Verdict-later :
      (r : Result Text (Unit {0})) (answer : Result Text Text)
      (events : List (Event (Result Text Text)))
      → Unready answer
      → Verdict r events
      → Verdict r (tick answer ∷ events)
  Verdict-later (ok u) answer events h (a, k, (before, after, e, p)) =
      (a, k, (tick answer ∷ before, after, ap (◌∷◌ (tick answer)) e, (h, p)))
  Verdict-later (err x) answer events h (a, k, (before, after, e, p)) =
      (a, k, (tick answer ∷ before, after, ap (◌∷◌ (tick answer)) e, (h, p)))

  poll-Verdict :
      (r : Result Text (Unit {0})) (events : List (Event (Result Text Text)))
      → poll is_ready timed_out events ≡ some r
      → Verdict r events
  unfolding poll
  poll-Verdict r [] h = absurd (none-ne-some r h)
  poll-Verdict r (done e ∷ events) h =
      subst (λ r. Verdict r (done e ∷ events)) (some-injective _ _ h)
        (e, refl, ([], events, refl, tt))
  poll-Verdict r (tick answer ∷ events) h = elim (Ready-Unready answer) [
    | inl k ↦
        subst (λ r. Verdict r (tick answer ∷ events))
          (some-injective _ _ (sym (poll-Ready answer events k) ∙ h))
          (answer, k, ([], events, refl, tt))
    | inr k ↦
        Verdict-later r answer events k
          (poll-Verdict r events (sym (poll-Unready answer events k) ∙ h))
  ]

  poll-Pending :
      (before rest : List (Event (Result Text Text)))
      → All Pending before
      → poll is_ready timed_out (before ++ rest) ≡ poll is_ready timed_out rest
  poll-Pending [] rest h = refl
  poll-Pending (tick answer ∷ before) rest (h, p) =
      poll-Unready answer (before ++ rest) h ∙ poll-Pending before rest p
  poll-Pending (done e ∷ before) rest (h, p) = elim h [ ]

  Verdict-poll :
      (r : Result Text (Unit {0})) (events : List (Event (Result Text Text)))
      → Verdict r events
      → poll is_ready timed_out events ≡ some r
  unfolding poll
  Verdict-poll (ok u) events (answer, k, (before, after, e, p)) =
      rw e (poll-Pending before (tick answer ∷ after) p ∙ poll-Ready answer after k)
  Verdict-poll (err x) events (e, g, (before, after, q, p)) =
      rw (q, g) (poll-Pending before (done e ∷ after) p)

  pub wait_until-cases :
      (first : Result Text Text) (events : List (Event (Result Text Text)))
      → wait_until is_ready timed_out first events ≡ poll is_ready timed_out (tick first ∷ events)
  unfolding wait_until poll try_once
  wait_until-cases (err e) events = refl
  wait_until-cases (ok out) events = elim (Bool-cases (is_ready out)) [
    | inl e ↦ rw e
    | inr e ↦ rw e
  ]

  -- A waiting loop, its first attempt counted as an event, yields no error exactly if an attempt
  -- sees the thing ready before the context ends, and the timeout error exactly if the context ends
  -- with no such attempt before; an attempt that fails ends nothing.
  pub wait_until-Verdict :
      (first : Result Text Text) (events : List (Event (Result Text Text)))
      (r : Result Text (Unit {0}))
      → (wait_until is_ready timed_out first events ≡ some r) ↔ Verdict r (tick first ∷ events)
  wait_until-Verdict first events r = (
    (λ h. poll-Verdict r (tick first ∷ events) (sym (wait_until-cases first events) ∙ h)),
    λ v. wait_until-cases first events ∙ Verdict-poll r (tick first ∷ events) v,
  )
