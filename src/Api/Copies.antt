-- ===== src/Api/Copies.antt =====
-- api/v1/zz_generated.deepcopy.go: a deep copy has the same value, and shares no cell with what it is
-- a copy of.
use mathlib.Core.Path.{subst}
use my_operator.Base.{
  ◌<◌, ◌≤◌, Option, none, some, List, [], ◌∷◌, ◌++◌, map, append_assoc, append-nil, ◌≡◌, refl, sym,
  ap, ◌∙◌, arith, length, length-append, ℤ, pos, inl, inr, Option-cases,
}
use my_operator.Api.{
  Heap, Ptr, load, store, new_int32, JobOperatorSpec, JobOperator, spec_with, copy_spec_into,
  copy_job_into, copy_items,
}
use my_operator.Api.Values.{
  load-append, load-length, store-length, load_opt, PtrIn-append, value, pointers, Live, upto,
  values-append, cons_eq, values-store, upto-above, pointers_below,
}

module _ {ObjectMeta : Type 0} (copy_object_meta : ObjectMeta → ObjectMeta) where
  abbrev copied : JobOperator ObjectMeta → JobOperatorSpec → JobOperator ObjectMeta
  copied job spec = record {
    type_meta = job.type_meta;
    object_meta = copy_object_meta job.object_meta;
    spec = spec;
    status = job.status;
  }

  -- The objects behind the copy, the copies and the heap: the heap has new cells at its end, one for
  -- each pointer, in order, which the copies point to, and the copies say what the objects say.
  abbrev pub Copied :
      Heap → List (JobOperator ObjectMeta) → List (JobOperator ObjectMeta) × Heap → Type 0
  Copied h jobs (outs, h1) =
      (cells : Heap) × (h1 ≡ h ++ cells)
      × (map (value h1) outs ≡ map (value h) jobs)
      × (pointers outs ≡ upto (length h) (length (pointers jobs)))

  copy_items-none :
      (job : JobOperator ObjectMeta) (jobs : List (JobOperator ObjectMeta)) (h : Heap)
      → job.spec.replicas ≡ none
      → copy_items copy_object_meta (job ∷ jobs) h ≡ (
        copied job job.spec ∷ (copy_items copy_object_meta jobs h).0,
        (copy_items copy_object_meta jobs h).1,
      )
  unfolding copy_items copy_job_into copy_spec_into spec_with
  copy_items-none job jobs h e = rw e refl

  copy_items-some :
      (job : JobOperator ObjectMeta) (jobs : List (JobOperator ObjectMeta)) (h : Heap) (p : Ptr)
      → job.spec.replicas ≡ some p
      → p < length h
      → copy_items copy_object_meta (job ∷ jobs) h ≡ (
        copied job (record job.spec { replicas = some (length h) })
            ∷ (copy_items copy_object_meta jobs (h ++ (load p h ∷ []))).0,
        (copy_items copy_object_meta jobs (h ++ (load p h ∷ []))).1,
      )
  unfolding copy_items copy_job_into copy_spec_into spec_with new_int32
  copy_items-some job jobs h p e lt = rw (e, load-append p h (pos 0 ∷ []) lt, store-length) refl

  copied-value :
      (h h1 : Heap) (job : JobOperator ObjectMeta) (o : Option Ptr)
      → copy_object_meta job.object_meta ≡ job.object_meta
      → load_opt h1 o ≡ load_opt h job.spec.replicas
      → value h1 (copied job (record job.spec { replicas = o })) ≡ value h job
  unfolding value
  copied-value h h1 job o m e = rw (m, e) refl

  Live-append :
      (jobs : List (JobOperator ObjectMeta)) (h cells : Heap) → Live h jobs → Live (h ++ cells) jobs
  Live-append [] h cells live = tt
  Live-append (job ∷ jobs) h cells (lt, live) =
      (PtrIn-append job.spec.replicas h cells lt, Live-append jobs h cells live)

  Copied-none :
      (job : JobOperator ObjectMeta) (jobs : List (JobOperator ObjectMeta)) (h : Heap)
      (r : List (JobOperator ObjectMeta) × Heap)
      → copy_object_meta job.object_meta ≡ job.object_meta
      → job.spec.replicas ≡ none
      → Copied h jobs r
      → Copied h (job ∷ jobs) (copied job job.spec ∷ r.0, r.1)
  unfolding pointers
  Copied-none job jobs h (outs, h1) m e (cells, e1, v, p) =
      (cells, e1, cons_eq (copied-value h h1 job job.spec.replicas m (rw e refl)) v, rw (e, p) refl)

  Copied-some :
      (job : JobOperator ObjectMeta) (jobs : List (JobOperator ObjectMeta)) (h : Heap) (p : Ptr)
      (r : List (JobOperator ObjectMeta) × Heap)
      → copy_object_meta job.object_meta ≡ job.object_meta
      → job.spec.replicas ≡ some p
      → Live h jobs
      → Copied (h ++ (load p h ∷ [])) jobs r
      → Copied h
          (job ∷ jobs)
          (copied job (record job.spec { replicas = some (length h) }) ∷ r.0, r.1)
  unfolding pointers upto
  Copied-some job jobs h p (outs, h1) m e live (cells, e1, v, q) = (
    load p h ∷ cells,
    e1 ∙ append_assoc h (load p h ∷ []) cells,
    cons_eq
        (copied-value h h1 job (some (length h)) m
          (rw (e, e1, append_assoc h (load p h ∷ []) cells, load-length) refl))
        (v ∙ values-append jobs h (load p h ∷ []) live),
    rw (e, q, length-append) (ap (λ n. length h ∷ upto n (length (pointers jobs))) (omega arith)),
  )

  copy_items-Copied :
      (jobs : List (JobOperator ObjectMeta)) (h : Heap)
      → ((m : ObjectMeta) → copy_object_meta m ≡ m)
      → Live h jobs
      → Copied h jobs (copy_items copy_object_meta jobs h)
  unfolding copy_items pointers upto
  copy_items-Copied [] h m live = ([], sym (append-nil h), refl, refl)
  copy_items-Copied (job ∷ jobs) h m (lt, live) = elim (Option-cases job.spec.replicas) [
    | inl e ↦ subst (Copied h (job ∷ jobs)) (sym (copy_items-none job jobs h e)) (
        Copied-none job jobs h (copy_items copy_object_meta jobs h) (m job.object_meta) e
          (copy_items-Copied jobs h m live))
    | inr (p, e) ↦
        subst (Copied h (job ∷ jobs)) (sym (copy_items-some job jobs h p e (rw e at lt))) (
          Copied-some job jobs h p (copy_items copy_object_meta jobs (h ++ (load p h ∷ [])))
            (m job.object_meta) e live
            (copy_items-Copied jobs (h ++ (load p h ∷ [])) m
              (Live-append jobs h (load p h ∷ []) live)))
  ]

  -- A deep copy of the items of a list says what the items say, and goes on doing so, as the items
  -- do, whatever is then stored through any pointer of the other: each copy points to a new cell of
  -- its own. The pointers of the items must lead to cells, and the copies of the metadata say what
  -- the metadata say.
  pub copy_items_independent :
      (jobs : List (JobOperator ObjectMeta)) (h : Heap) (p q : Ptr) (u v : ℤ)
      → ((m : ObjectMeta) → copy_object_meta m ≡ m)
      → Live h jobs
      → p < length h
      → length h ≤ q
      → (pointers (copy_items copy_object_meta jobs h).0 ≡ upto (length h) (length (pointers jobs)))
        × (map
              (value (store p u (copy_items copy_object_meta jobs h).1))
              (copy_items copy_object_meta jobs h).0
            ≡ map (value h) jobs)
        × (map (value (store q v (copy_items copy_object_meta jobs h).1)) jobs ≡ map (value h) jobs)
  copy_items_independent jobs h p q u v m live lt le =
      let (cells, e, values, fresh) = copy_items-Copied jobs h m live in
      let r = copy_items copy_object_meta jobs h in
      (
        fresh,
        values-store r.0 p u r.1 (rw fresh (upto-above (length h) (length (pointers jobs)) p lt))
            ∙ values,
        values-store jobs q v r.1 (pointers_below jobs h q le live)
            ∙ rw e (values-append jobs h cells live),
      )
