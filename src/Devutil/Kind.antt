-- ===== src/Devutil/Kind.antt =====
-- pkg/devutil/kind.go, and pkg/slo/fetch/inside_v4.go.
use my_operator.Base.{
  Option, none, some, List, [], ◌∷◌, ◌++◌, if◌then◌else◌, Text, codes, Result, ok, err,
}
use my_operator.Kubeutil.{Command, Runner}
use my_operator.Text.{equal}

cluster_or_default : Option Text → Text
cluster_or_default none = codes "kind"
cluster_or_default (some v) = if equal v [] then codes "kind" else v

unfoldable pub load_command : Text → Text → Command
load_command image cluster = record {
  args = codes "kind" ∷ codes "load" ∷ codes "docker-image" ∷ image ∷ codes "--name" ∷ cluster ∷ [];
  stdin = [];
}

load_error : Result Text Text → Option Text
load_error (ok out) = none
load_error (err e) = some (codes "kind load docker-image failed: " ++ e)

-- `ctx_err` is the error of a context that has ended, and `kind_cluster` the variable KIND_CLUSTER, or
-- none where it is not set.
module _ (runner : Runner) where
  open runner use {World, run}

  unfoldable pub load_image_to_kind_cluster :
      Option Text → Option Text → Text → World → Option Text × World
  unfolding cluster_or_default load_command load_error
  load_image_to_kind_cluster (some e) kind_cluster image w = (some e, w)
  load_image_to_kind_cluster none kind_cluster image w =
      let (answer, w1) = run (load_command image (cluster_or_default kind_cluster)) w in
      (load_error answer, w1)

fetched_body : Result Text Text → Text × List Text
fetched_body (err e) = ([], e ∷ [])
fetched_body (ok body) = (body, [])

-- `InsideSnapshotFetchV4`: the body, and the warnings.
unfoldable pub inside_snapshot_fetch_v4 :
    {World : Type 0} → (World → Result Text Text × World) → World → (Text × List Text) × World
unfolding fetched_body
inside_snapshot_fetch_v4 fetch_func w = let (r, w1) = fetch_func w in (fetched_body r, w1)
