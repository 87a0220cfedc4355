-- ===== src/Kubeutil.antt =====
-- pkg/kubeutil: waiting for the cluster, service account tokens, and the operators that the tests
-- install. A command line goes to a `CmdRunner`, which is an interface of the source.
pub mod Wait
pub mod Token
pub mod Install
pub mod Exec
use my_operator.Base.{List, [], ◌∷◌, Text, Result}

-- `exec.Command` with its arguments, and what it reads.
pub record Command : Type 0 where
  pub args : List Text
  pub stdin : Text

-- `CmdRunner.Run` on a world: the output, or the error.
pub record Runner : Type 1 where
  pub World : Type 0
  pub run : Command → World → Result Text Text × World

-- What the `select` of a polling loop receives, in the order in which it does: a tick of the timer,
-- with the answer of the attempt it starts, or the end of the context, with its error.
pub data Event {ℓ} (A : Type ℓ) : Type ℓ where
  tick : A → Event A
  done : Text → Event A
