-- ===== src/Kubeutil/Exec.antt =====
-- pkg/kubeutil/runner.go: `DefaultRunner`. The process is a parameter; a builder of strings never
-- fails to write.
pub mod Environ
use my_operator.Base.{
  Bool, true, false, ◌&&◌, Option, none, some, List, [], ◌∷◌, ◌++◌, if◌then◌else◌, Text, codes,
  Result, ok, err,
}
use my_operator.Kubeutil.{Command, Runner}
use my_operator.Text.{equal, trim_space}

-- `exec.Cmd`; `none` is a nil reader.
pub record Cmd : Type 0 where
  pub path : Text
  pub args : List Text
  pub dir : Text
  pub stdin : Option Text
  pub env : List Text

-- `strings.Join`
unfoldable pub join_with : Text → List Text → Text
join_with sep [] = []
join_with sep (a ∷ []) = a
join_with sep (a ∷ (b ∷ more)) = a ++ (sep ++ join_with sep (b ∷ more))

first_of : List Text → Text
first_of [] = []
first_of (a ∷ more) = a

unfoldable pub path_of : Cmd → Text
unfolding first_of
path_of cmd = if equal cmd.path [] then first_of cmd.args else cmd.path

unfoldable pub rest_of : List Text → List Text
rest_of [] = []
rest_of (a ∷ more) = more

abbrev pub module_mode : Text
module_mode = codes "GO111MODULE=on"

unfoldable pub env_of : List Text → List Text → List Text
env_of environ [] = environ ++ (module_mode ∷ [])
env_of environ (v ∷ vars) = (v ∷ vars) ++ (module_mode ∷ [])

-- The command that is run. `look_path` is the path that `exec.CommandContext` finds for a name, and
-- `environ` is `os.Environ()`.
unfoldable pub rebuild : (Text → Text) → List Text → Cmd → Cmd
unfolding path_of rest_of env_of
rebuild look_path environ cmd = record {
  path = look_path (path_of cmd);
  args = path_of cmd ∷ rest_of cmd.args;
  dir = cmd.dir;
  stdin = cmd.stdin;
  env = env_of environ cmd.env;
}

-- What a process writes, and the error of `Cmd.Run`, or none.
pub record Process : Type 0 where
  pub stdout : Text
  pub stderr : Text
  pub failed : Option Text

-- The output is returned with an error, too.
pub record Answer : Type 0 where
  pub out : Text
  pub error : Option Text

-- `quote` stands for the verb %q.
unfoldable pub answer_of : (Text → Text) → Text → Process → Option Text → Answer
unfolding trim_space
answer_of quote command p none = record { out = p.stdout; error = none }
answer_of quote command p (some e) = record {
  out = p.stdout;
  error = some (
      quote command
      ++ (codes " failed: "
          ++ (trim_space (p.stderr ++ (codes "\n" ++ p.stdout)) ++ (codes ": " ++ e))));
}

-- `exec.Command` with the arguments of a command and its standard input.
unfoldable pub cmd_of : (Text → Text) → Command → Cmd
unfolding first_of
cmd_of look_path c = record {
  path = look_path (first_of c.args);
  args = c.args;
  dir = [];
  stdin = if equal c.stdin [] then none else some c.stdin;
  env = [];
}

result_of : Answer → Result Text Text
result_of a = elim a.error [ none ↦ ok a.out | some e ↦ err e ]

module _ {World : Type 0} (process : Cmd → World → Process × World) where
  unfoldable pub run : (Text → Text) → (Text → Text) → List Text → Cmd → World → Answer × World
  unfolding rebuild answer_of join_with
  run quote look_path environ cmd w =
      let c2 = rebuild look_path environ cmd in
      let (p, w1) = process c2 w in (answer_of quote (join_with (codes " ") c2.args) p p.failed, w1)

  -- A command of the other components; they drop the output of a failed run.
  unfoldable pub default_run :
      (Text → Text) → (Text → Text) → List Text → Command → World → Result Text Text × World
  unfolding run cmd_of result_of
  default_run quote look_path environ c w =
      let (a, w1) = run quote look_path environ (cmd_of look_path c) w in (result_of a, w1)

  -- The runner that stands in for a nil `CmdRunner`.
  abbrev pub default_runner : (Text → Text) → (Text → Text) → List Text → Runner
  default_runner quote look_path environ = record {
    World = World;
    run = default_run quote look_path environ;
  }
