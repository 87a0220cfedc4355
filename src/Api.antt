-- ===== src/Api.antt =====
-- api/v1: the types of joboperator_types.go, with the pointer that a spec holds, and the deep copies
-- of zz_generated.deepcopy.go on the cells that pointers lead to.
pub mod Values
pub mod Copies
use my_operator.Base.{ℕ, zero, suc, Option, none, some, List, [], ◌∷◌, ◌++◌, Text, length, ℤ, pos}
use my_operator.GoSlice.{set}

-- The cells of type `int32`; a pointer is the place of its cell. No cell is ever freed.
abbrev pub Heap : Type 0
Heap = List ℤ

abbrev pub Ptr : Type 0
Ptr = ℕ

-- `*p`, which is only read where `p` leads to a cell.
unfoldable pub load : Ptr → Heap → ℤ
load p [] = pos 0
load zero (v ∷ h) = v
load (suc p) (v ∷ h) = load p h

-- `*p = v`
unfoldable pub store : Ptr → ℤ → Heap → Heap
unfolding set
store p v h = set p v h

-- `new(int32)`
unfoldable pub new_int32 : Heap → Ptr × Heap
new_int32 h = (length h, h ++ (pos 0 ∷ []))

pub record JobOperatorSpec : Type 0 where
  pub replicas : Option Ptr
  pub image : Text
  pub port : ℤ

pub record JobOperatorStatus : Type 0 where
  pub ready_replicas : ℤ
  pub replicas : ℤ

-- `metav1.TypeMeta`
pub record TypeMeta : Type 0 where
  pub kind : Text
  pub api_version : Text

pub record JobOperator (ObjectMeta : Type 0) : Type 0 where
  pub type_meta : TypeMeta
  pub object_meta : ObjectMeta
  pub spec : JobOperatorSpec
  pub status : JobOperatorStatus

-- `none` is the nil slice.
pub record JobOperatorList (ObjectMeta ListMeta : Type 0) : Type 0 where
  pub type_meta : TypeMeta
  pub list_meta : ListMeta
  pub items : Option (List (JobOperator ObjectMeta))

spec_with : JobOperatorSpec → Option Ptr → Heap → JobOperatorSpec × Heap
unfolding load store new_int32
spec_with out none h = (out, h)
spec_with out (some p) h =
    let (q, h1) = new_int32 h in (record out { replicas = some q }, store q (load p h1) h1)

-- `DeepCopyInto` yields what it writes to `out`.
unfoldable pub copy_spec_into : JobOperatorSpec → Heap → JobOperatorSpec × Heap
unfolding spec_with
copy_spec_into spec h = spec_with spec spec.replicas h

unfoldable pub copy_status_into : JobOperatorStatus → JobOperatorStatus
copy_status_into status = status

-- `none` is the nil pointer.
unfoldable pub copy_spec : Option JobOperatorSpec → Heap → Option JobOperatorSpec × Heap
unfolding copy_spec_into
copy_spec none h = (none, h)
copy_spec (some spec) h = let (out, h1) = copy_spec_into spec h in (some out, h1)

unfoldable pub copy_status : Option JobOperatorStatus → Option JobOperatorStatus
unfolding copy_status_into
copy_status none = none
copy_status (some status) = some (copy_status_into status)

-- The deep copies of the metadata are those of apimachinery.
module _ {ObjectMeta : Type 0} (copy_object_meta : ObjectMeta → ObjectMeta) where
  unfoldable pub copy_job_into : JobOperator ObjectMeta → Heap → JobOperator ObjectMeta × Heap
  unfolding copy_spec_into
  copy_job_into job h =
      let (spec, h1) = copy_spec_into job.spec h in
      (
        record {
          type_meta = job.type_meta;
          object_meta = copy_object_meta job.object_meta;
          spec = spec;
          status = job.status;
        },
        h1,
      )

  unfoldable pub copy_job :
      Option (JobOperator ObjectMeta) → Heap → Option (JobOperator ObjectMeta) × Heap
  unfolding copy_job_into
  copy_job none h = (none, h)
  copy_job (some job) h = let (out, h1) = copy_job_into job h in (some out, h1)

  -- The loop over the items.
  unfoldable pub copy_items :
      List (JobOperator ObjectMeta) → Heap → List (JobOperator ObjectMeta) × Heap
  unfolding copy_job_into
  copy_items [] h = ([], h)
  copy_items (job ∷ jobs) h =
      let (out, h1) = copy_job_into job h in let (outs, h2) = copy_items jobs h1 in (out ∷ outs, h2)

  copy_slice :
      Option (List (JobOperator ObjectMeta)) → Heap → Option (List (JobOperator ObjectMeta)) × Heap
  unfolding copy_items
  copy_slice none h = (none, h)
  copy_slice (some jobs) h = let (outs, h1) = copy_items jobs h in (some outs, h1)

  module _ {ListMeta : Type 0} (copy_list_meta : ListMeta → ListMeta) where
    unfoldable pub copy_list_into :
        JobOperatorList ObjectMeta ListMeta → Heap → JobOperatorList ObjectMeta ListMeta × Heap
    unfolding copy_slice
    copy_list_into jobs h =
        let (items, h1) = copy_slice jobs.items h in
        (
          record {
            type_meta = jobs.type_meta;
            list_meta = copy_list_meta jobs.list_meta;
            items = items;
          },
          h1,
        )

    unfoldable pub copy_list :
        Option (JobOperatorList ObjectMeta ListMeta)
        → Heap
        → Option (JobOperatorList ObjectMeta ListMeta) × Heap
    unfolding copy_list_into
    copy_list none h = (none, h)
    copy_list (some jobs) h = let (out, h1) = copy_list_into jobs h in (some out, h1)
