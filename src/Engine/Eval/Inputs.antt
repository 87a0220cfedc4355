-- ===== src/Engine/Eval/Inputs.antt =====
-- pkg/slo/engine/engine.go: the inputs of `evalSLI`.
use my_operator.Base.{
  Bool, true, false, Option, none, some, List, [], ◌∷◌, ◌++◌, append-nil, append_assoc, map, ◌≡◌,
  ◌≢◌, refl, arith, if◌then◌else◌, Text, codes, ◌⊎◌, inl, inr, Bool-cases, Option-cases,
}
use my_operator.Engine.Eval.{
  Totals, gather, no_totals, base_result, judged, compute, finish, eval_sli, judge,
}
use my_operator.Engine.Eval.Judge.{verdict, first_firing, last_firing, judge-verdict}
use my_operator.Float64.{Float64}
use my_operator.GoMap.{GoMap, lookup}
use my_operator.Spec.{
  level_warn, level_fail, MetricRef, compute_single, compute_delta, Rule, JudgeSpec, SliSpec,
}
use my_operator.Summary.{Status, pass, warn, skip, SliResult}
use my_operator.Text.{equal}

module _ (f : Float64) (start end : GoMap f.F) where
  open f use {F, zero_float, add, sub, lt}

  -- Both snapshots hold the key.
  abbrev both : Option F → Option F → Bool
  both (some a) (some b) = true
  both _ _ = false

  abbrev pub is_present : Text → Bool
  is_present key = both (lookup key start) (lookup key end)

  abbrev pub missing_keys : List MetricRef → List Text
  missing_keys [] = []
  missing_keys (i ∷ inputs) =
      if is_present i.key then missing_keys inputs else i.key ∷ missing_keys inputs

  abbrev or_zero : Option F → F
  or_zero none = zero_float
  or_zero (some a) = a

  -- The sum of a snapshot's values, from the left, on top of `acc`.
  abbrev pub sum_of : GoMap F → F → List MetricRef → F
  sum_of m acc [] = acc
  sum_of m acc (i ∷ inputs) =
      sum_of m (if is_present i.key then add acc (or_zero (lookup i.key m)) else acc) inputs

  abbrev pub keys_of : List MetricRef → List Text
  keys_of inputs = map (λ i. i.key) inputs

  gather-sum_of :
      (inputs : List MetricRef) (t : Totals f)
      → gather f start end t inputs ≡ record {
        used = t.used ++ keys_of inputs;
        missing = t.missing ++ missing_keys inputs;
        val_start = sum_of start t.val_start inputs;
        val_end = sum_of end t.val_end inputs;
      }
  unfolding gather
  gather-sum_of [] t = simp append-nil
  gather-sum_of (i ∷ inputs) t = elim (Option-cases (lookup i.key start)) [
    | inl no_start ↦ simp (no_start, gather-sum_of inputs, append_assoc)
    | inr (a, e) ↦ elim (Option-cases (lookup i.key end)) [
      | inl no_end ↦ simp (e, no_end, gather-sum_of inputs, append_assoc)
      | inr (b, g) ↦ simp (e, g, gather-sum_of inputs, append_assoc)
    ]
  ]

  -- The totals that `evalSLI` computes, as sums and lists.
  abbrev pub totals_of : List MetricRef → Totals f
  totals_of inputs = record {
    used = keys_of inputs;
    missing = missing_keys inputs;
    val_start = sum_of start zero_float inputs;
    val_end = sum_of end zero_float inputs;
  }

  abbrev pub delta_of : SliSpec f → F
  delta_of s = sub (sum_of end zero_float s.inputs) (sum_of start zero_float s.inputs)

  eval_sli-totals :
      (s : SliSpec f)
      → eval_sli f s start end ≡ finish f s (totals_of s.inputs) (missing_keys s.inputs)
  unfolding eval_sli
  eval_sli-totals s = rw (gather-sum_of s.inputs (no_totals f))

  judge-ne-skip : (v : F) (rules : List (Rule f)) → (judge f v rules).0 ≢ skip
  judge-ne-skip v rules e = verdict-ne-skip _ _ (rw judge-verdict at e)
    where
      verdict-ne-skip : (x w : Option (Rule f)) → (verdict f x w).0 ≢ skip
      verdict-ne-skip (some r) w = λ h. cc
      verdict-ne-skip none (some r) = λ h. cc
      verdict-ne-skip none none = λ h. cc

  -- A skipped result has no value, and any other result has one.
  abbrev pub SkipsValue : SliResult f → Type 0
  SkipsValue r =
      ((r.status ≡ skip) × (r.value ≡ none)) ⊎ ((r.status ≢ skip) × ((v : F) × (r.value ≡ some v)))

  judged-SkipsValue :
      (res : SliResult f) (v : F) (j : Option (JudgeSpec f))
      → res.status ≡ pass
      → SkipsValue (judged f res v j)
  unfolding judged
  judged-SkipsValue res v none h = inr ((λ e. cc), (v, refl))
  judged-SkipsValue res v (some j) h = inr (judge-ne-skip v j.rules, (v, refl))

  compute-SkipsValue :
      (s : SliSpec f) (res : SliResult f) (t : Totals f)
      → res.status ≡ pass
      → res.value ≡ none
      → SkipsValue (compute f s res t)
  unfolding compute
  compute-SkipsValue s res t h n = elim (Bool-cases (equal s.compute_mode compute_single)) [
    | inl e ↦ rw e (judged-SkipsValue res t.val_start s.judge h)
    | inr e ↦ elim (Bool-cases (equal s.compute_mode compute_delta)) [
      | inl d ↦ elim (Bool-cases (lt (sub t.val_end t.val_start) zero_float)) [
        | inl neg ↦ rw (e, d, neg) (inr ((λ x. cc), (sub t.val_end t.val_start, refl)))
        | inr nonneg ↦
            rw (e, d, nonneg) (judged-SkipsValue res (sub t.val_end t.val_start) s.judge h)
      ]
      | inr d ↦ rw (e, d) (inl (refl, n))
    ]
  ]

  finish-SkipsValue : (s : SliSpec f) (t : Totals f) (ms : List Text) → SkipsValue (finish f s t ms)
  unfolding finish
  finish-SkipsValue s t [] = compute-SkipsValue s (base_result f s t) t refl refl
  finish-SkipsValue s t (m ∷ ms) = inl (refl, refl)

  -- For every definition and any two snapshots, `evalSLI` returns no value exactly where the status
  -- is skip: judging never skips, and a suspected counter reset still has its value.
  pub eval_sli-SkipsValue : (s : SliSpec f) → SkipsValue (eval_sli f s start end)
  eval_sli-SkipsValue s = rw eval_sli-totals (finish-SkipsValue s _ _)

  compute-inputs :
      (s : SliSpec f) (t : Totals f)
      → ((compute f s (base_result f s t) t).inputs_used ≡ t.used)
        × ((compute f s (base_result f s t) t).inputs_missing ≡ t.missing)
  unfolding compute judged
  compute-inputs s t = ground arith

  finish-inputs :
      (s : SliSpec f) (t : Totals f) (ms : List Text)
      → ((finish f s t ms).inputs_used ≡ t.used) × ((finish f s t ms).inputs_missing ≡ t.missing)
  unfolding finish
  finish-inputs s t [] = compute-inputs s t
  finish-inputs s t (m ∷ ms) = (refl, refl)

  -- `evalSLI` reports the keys of all inputs as used, in order, and as missing exactly those that
  -- one of the snapshots lacks, in order.
  eval_sli-inputs :
      (s : SliSpec f)
      → ((eval_sli f s start end).inputs_used ≡ keys_of s.inputs)
        × ((eval_sli f s start end).inputs_missing ≡ missing_keys s.inputs)
  eval_sli-inputs s =
      rw eval_sli-totals (finish-inputs s (totals_of s.inputs) (missing_keys s.inputs))

  -- What a value without a judge, and with one, is reported as.
  abbrev pub judged_as : Option (JudgeSpec f) → F → Option F × (Status × Text)
  judged_as none v = (some v, (pass, []))
  judged_as (some j) v =
      (some v, verdict f (first_firing f v level_fail j.rules) (last_firing f v level_warn j.rules))

  -- The value, the status and the reason of a definition none of whose inputs is missing.
  abbrev pub outcome_of : SliSpec f → Option F × (Status × Text)
  outcome_of s =
      if equal s.compute_mode compute_single
      then judged_as s.judge (sum_of start zero_float s.inputs)
      else if equal s.compute_mode compute_delta
      then (if lt (delta_of s) zero_float
          then (some (delta_of s), (warn, codes "delta < 0 (counter reset suspected)"))
          else judged_as s.judge (delta_of s))
      else (none, (skip, codes "unknown compute mode"))

  abbrev pub unless_missing : List Text → Option F × (Status × Text) → Option F × (Status × Text)
  unless_missing [] outcome = outcome
  unless_missing (m ∷ ms) outcome = (none, (skip, codes "missing input metrics"))

  abbrev pub reported : SliSpec f → Option F × (Status × Text) → SliResult f
  reported s (value, (status, reason)) = record {
    id = s.id;
    title = s.title;
    unit = s.unit;
    kind = s.kind;
    description = s.description;
    value = value;
    fields = [];
    status = status;
    reason = reason;
    inputs_used = keys_of s.inputs;
    inputs_missing = missing_keys s.inputs;
  }

  judged-reported :
      (s : SliSpec f) (v : F) (j : Option (JudgeSpec f))
      → judged f (base_result f s (totals_of s.inputs)) v j ≡ reported s (judged_as j v)
  unfolding judged
  judged-reported s v none = refl
  judged-reported s v (some j) = rw judge-verdict refl

  compute-reported :
      (s : SliSpec f)
      → compute f s (base_result f s (totals_of s.inputs)) (totals_of s.inputs)
        ≡ reported s (outcome_of s)
  unfolding compute
  compute-reported s = elim (Bool-cases (equal s.compute_mode compute_single)) [
    | inl e ↦ rw e (judged-reported s _ s.judge)
    | inr e ↦ elim (Bool-cases (equal s.compute_mode compute_delta)) [
      | inl d ↦ elim (Bool-cases (lt (delta_of s) zero_float)) [
        | inl neg ↦ rw (e, d, neg) refl
        | inr nonneg ↦ rw (e, d, nonneg) (judged-reported s _ s.judge)
      ]
      | inr d ↦ rw (e, d) refl
    ]
  ]

  finish-reported :
      (s : SliSpec f) (ms : List Text)
      → finish f s (totals_of s.inputs) ms ≡ reported s (unless_missing ms (outcome_of s))
  unfolding finish
  finish-reported s [] = compute-reported s
  finish-reported s (m ∷ ms) = refl

  -- `evalSLI` is a function of the inputs that both snapshots hold, and of those that one lacks:
  -- for every definition and any two snapshots, the result has the definition's identity, all its
  -- keys as used and the lacking ones as missing. Where one is missing it is skipped. Else a single
  -- definition has the sum of the start values, and a delta definition the sum of the end values
  -- less that of the start values, where a negative delta is reported as warn, whatever the judge
  -- says; any other value gets the verdict of the judge's rules, with its reason, or pass without a
  -- judge. An unknown mode is skipped.
  pub eval_sli-reported :
      (s : SliSpec f)
      → eval_sli f s start end ≡ reported s (unless_missing (missing_keys s.inputs) (outcome_of s))
  eval_sli-reported s = rw eval_sli-totals (finish-reported s (missing_keys s.inputs))

  -- The delta branch, through `judged`.
  pub eval_sli_delta :
      (s : SliSpec f)
      → missing_keys s.inputs ≡ []
      → s.compute_mode ≡ compute_delta
      → eval_sli f s start end ≡ (
          if lt (delta_of s) zero_float
          then record (base_result f s (totals_of s.inputs)) {
            value = some (delta_of s);
            status = warn;
            reason = codes "delta < 0 (counter reset suspected)";
          }
          else judged f (base_result f s (totals_of s.inputs)) (delta_of s) s.judge)
  unfolding finish compute equal
  eval_sli_delta s h m = rw (eval_sli-totals, h, m)
