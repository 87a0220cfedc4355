-- ===== src/Api/Values.antt =====
-- api/v1: what objects say through their pointers, and when a store leaves it as it is.
use my_operator.Base.{
  ℕ, zero, suc, ◌<◌, ◌≤◌, Option, none, some, List, [], ◌∷◌, ◌++◌, map, ◌≡◌, ◌≢◌, refl, ap, arith,
  Text, length, length-append, All, ℤ, inl, inr, Option-cases,
}
use my_operator.Api.{Heap, Ptr, load, store, JobOperatorStatus, TypeMeta, JobOperator}
use my_operator.GoSlice.{set}

pub load-append : (p : Ptr) (h cells : Heap) → p < length h → load p (h ++ cells) ≡ load p h
unfolding load
load-append p [] cells lt = absurd (omega arith)
load-append zero (v ∷ h) cells lt = refl
load-append (suc p) (v ∷ h) cells lt = load-append p h cells (omega arith)

pub load-length : (h : Heap) (v : ℤ) (cells : Heap) → load (length h) (h ++ (v ∷ cells)) ≡ v
unfolding load
load-length [] v cells = refl
load-length (u ∷ h) v cells = load-length h v cells

pub store-length : (h : Heap) (v u : ℤ) → store (length h) v (h ++ (u ∷ [])) ≡ h ++ (v ∷ [])
unfolding store set
store-length [] v u = refl
store-length (w ∷ h) v u = ap (◌∷◌ w) (store-length h v u)

pub load-store : (p q : Ptr) (v : ℤ) (h : Heap) → p ≢ q → load p (store q v h) ≡ load p h
unfolding load store set
load-store p q v [] ne = refl
load-store zero zero v (u ∷ h) ne = absurd (ne refl)
load-store zero (suc q) v (u ∷ h) ne = refl
load-store (suc p) zero v (u ∷ h) ne = refl
load-store (suc p) (suc q) v (u ∷ h) ne = load-store p q v h (λ e. ne (ap suc e))

-- What an object says, with what its pointer leads to in the place of the pointer.
pub record JobValue (ObjectMeta : Type 0) : Type 0 where
  pub type_meta : TypeMeta
  pub object_meta : ObjectMeta
  pub replicas : Option ℤ
  pub image : Text
  pub port : ℤ
  pub status : JobOperatorStatus

abbrev pub load_opt : Heap → Option Ptr → Option ℤ
load_opt h none = none
load_opt h (some p) = some (load p h)

abbrev pub add_pointer : Option Ptr → List Ptr → List Ptr
add_pointer none ps = ps
add_pointer (some p) ps = p ∷ ps

abbrev pub PtrIn : (Ptr → Type 0) → Option Ptr → Type 0
PtrIn P none = Unit
PtrIn P (some p) = P p

pub load_opt-append :
    (o : Option Ptr) (h cells : Heap)
    → PtrIn (λ p. p < length h) o
    → load_opt (h ++ cells) o ≡ load_opt h o
load_opt-append none h cells lt = refl
load_opt-append (some p) h cells lt = ap some (load-append p h cells lt)

pub PtrIn-append :
    (o : Option Ptr) (h cells : Heap)
    → PtrIn (λ p. p < length h) o
    → PtrIn (λ p. p < length (h ++ cells)) o
PtrIn-append none h cells lt = tt
PtrIn-append (some p) h cells lt = omega (arith, length-append h cells)

module _ {ObjectMeta : Type 0} where
  unfoldable pub value : Heap → JobOperator ObjectMeta → JobValue ObjectMeta
  value h job = record {
    type_meta = job.type_meta;
    object_meta = job.object_meta;
    replicas = load_opt h job.spec.replicas;
    image = job.spec.image;
    port = job.spec.port;
    status = job.status;
  }

  -- The pointers of the objects, in order.
  unfoldable pub pointers : List (JobOperator ObjectMeta) → List Ptr
  pointers [] = []
  pointers (job ∷ jobs) = add_pointer job.spec.replicas (pointers jobs)

  -- Every pointer of the objects leads to a cell.
  abbrev pub Live : Heap → List (JobOperator ObjectMeta) → Type 0
  Live h jobs = All (λ job. PtrIn (λ p. p < length h) job.spec.replicas) jobs

-- The `k` places from `n` on.
unfoldable pub upto : Ptr → ℕ → List Ptr
upto n zero = []
upto n (suc k) = n ∷ upto (suc n) k

pub cons_eq : {A : Type 0} {x y : A} {xs ys : List A} → x ≡ y → xs ≡ ys → x ∷ xs ≡ y ∷ ys
cons_eq e g = rw (e, g) refl

pub upto-above : (n k q : ℕ) → q < n → All (λ p. p ≢ q) (upto n k)
unfolding upto
upto-above n zero q lt = tt
upto-above n (suc k) q lt = ((λ e. absurd (omega (arith, e))), upto-above (suc n) k q (omega arith))

add_below :
    (o : Option Ptr) (ps : List Ptr) (h : Heap) (q : Ptr)
    → length h ≤ q
    → PtrIn (λ p. p < length h) o
    → All (λ p. p ≢ q) ps
    → All (λ p. p ≢ q) (add_pointer o ps)
add_below none ps h q le lt all = all
add_below (some p) ps h q le lt all = ((λ e. absurd (omega (arith, e))), all)

module _ {ObjectMeta : Type 0} where
  pub value_same :
      (h h1 : Heap) (job : JobOperator ObjectMeta)
      → load_opt h1 job.spec.replicas ≡ load_opt h job.spec.replicas
      → value h1 job ≡ value h job
  unfolding value
  value_same h h1 job e = rw e refl

  pub values-append :
      (jobs : List (JobOperator ObjectMeta)) (h cells : Heap)
      → Live h jobs
      → map (value (h ++ cells)) jobs ≡ map (value h) jobs
  values-append [] h cells live = refl
  values-append (job ∷ jobs) h cells (lt, live) = rw (
    value_same h (h ++ cells) job (load_opt-append job.spec.replicas h cells lt),
    values-append jobs h cells live,
  )

  -- A store to a place that no object points to changes no value.
  pub values-store :
      (jobs : List (JobOperator ObjectMeta)) (q : Ptr) (v : ℤ) (h : Heap)
      → All (λ p. p ≢ q) (pointers jobs)
      → map (value (store q v h)) jobs ≡ map (value h) jobs
  unfolding pointers
  values-store [] q v h all = refl
  values-store (job ∷ jobs) q v h all = elim (Option-cases job.spec.replicas) [
    | inl e ↦
        cons_eq (value_same h (store q v h) job (rw e refl)) (values-store jobs q v h (rw e at all))
    | inr (p, e) ↦
        let both = split p (pointers jobs) q (rw e at all) in
        cons_eq (value_same h (store q v h) job (rw e (ap some (load-store p q v h both.0))))
          (values-store jobs q v h both.1)
  ]
    where
      split :
          (p : Ptr) (ps : List Ptr) (q : Ptr)
          → All (λ r. r ≢ q) (p ∷ ps)
          → (p ≢ q) × All (λ r. r ≢ q) ps
      split p ps q h = h

  pub pointers_below :
      (jobs : List (JobOperator ObjectMeta)) (h : Heap) (q : Ptr)
      → length h ≤ q
      → Live h jobs
      → All (λ p. p ≢ q) (pointers jobs)
  unfolding pointers
  pointers_below [] h q le live = tt
  pointers_below (job ∷ jobs) h q le (lt, live) =
      add_below job.spec.replicas (pointers jobs) h q le lt (pointers_below jobs h q le live)
