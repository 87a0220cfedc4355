-- ===== src/Tests/ProcessRuns.antt =====
-- Runs of pkg/kubeutil's waiting loops and default runner, of pkg/devutil's templates, and of the deep
-- copies of api/v1.
use my_operator.Api.{JobOperator, Heap, store, copy_items}
use my_operator.Api.Copies.{copy_items_independent}
use my_operator.Api.Values.{value, pointers, upto}
use my_operator.Base.{
  ℕ, zero, suc, false, none, some, [], ◌∷◌, ◌++◌, ◌≡◌, if◌then◌else◌, ◌⊎◌, refl, arith, codes, ok,
  err, Result, Text, pos, map, length,
}
use my_operator.Devutil.Template.{Templates, apply_template}
use my_operator.Devutil.Template.Applied.{NotRendered, Applied, apply_template-Applied}
use my_operator.Kubeutil.{Runner, Command, tick, done}
use my_operator.Kubeutil.Exec.{
  Cmd, Process, Answer, rebuild, module_mode, run, default_runner, default_run, cmd_of, answer_of,
  join_with, path_of, rest_of, env_of,
}
use my_operator.Kubeutil.Exec.Environ.{value_in, inherited, rebuild-value_in}
use my_operator.Kubeutil.Wait.{pod_is_ready}
use my_operator.Kubeutil.Wait.Loop.{wait_on, pod_command, wait_pod, decimal_of}
use my_operator.Kubeutil.Wait.Loop.Returned.{Returns, ticks, wait_on-Returns}
use my_operator.Text.{has_prefix, equal, trim_space, trim_left, trim_right, keep_or_drop, is_space}
use my_operator.Text.Decimal.{decimal}

abbrev plain : Text → Text
plain s = s

-- A cluster whose pod is ready from the third question on.
abbrev reply : ℕ → Result Text Text
reply zero = err (codes "refused")
reply (suc zero) = ok (codes "false")
reply (suc (suc n)) = ok (codes "true")

abbrev warming : Runner
warming = record { World = ℕ; run = λ c w. (reply w, suc w) }

abbrev ready_command : Command
ready_command = pod_command (codes "n") (codes "app=x") (pos 0) (pos 0)

abbrev make : Cmd
make = record {
  path = codes "/bin/make";
  args = codes "make" ∷ codes "all" ∷ [];
  dir = codes "/src";
  stdin = none;
  env = codes "GO111MODULE=off" ∷ codes "HOME=/h" ∷ [];
}

no_home : has_prefix module_mode (codes "HOME=") ≡ false
unfolding has_prefix
no_home = refl

rebuild-value_in_example :
    (value_in (codes "GO111MODULE") (rebuild plain [] make).env ≡ some (codes "on"))
    × (value_in (codes "HOME") (rebuild plain [] make).env
        ≡ value_in (codes "HOME") (inherited [] make))
rebuild-value_in_example = rebuild-value_in plain [] make (codes "HOME") no_home

abbrev job : JobOperator ℕ
job = record {
  type_meta = record { kind = codes "JobOperator"; api_version = codes "v1" };
  object_meta = 4;
  spec = record { replicas = some 1; image = codes "i"; port = pos 80 };
  status = record { ready_replicas = pos 0; replicas = pos 0 };
}

abbrev cells : Heap
cells = pos 9 ∷ pos 3 ∷ []

abbrev same : ℕ → ℕ
same n = n

copy_items_independent_example :
    (pointers (copy_items same (job ∷ job ∷ []) cells).0
      ≡ upto (length cells) (length (pointers (job ∷ job ∷ []))))
    × (map
          (value (store 1 (pos 7) (copy_items same (job ∷ job ∷ []) cells).1))
          (copy_items same (job ∷ job ∷ []) cells).0
        ≡ map (value cells) (job ∷ job ∷ []))
    × (map (value (store 2 (pos 8) (copy_items same (job ∷ job ∷ []) cells).1)) (job ∷ job ∷ [])
        ≡ map (value cells) (job ∷ job ∷ []))
copy_items_independent_example =
    copy_items_independent same (job ∷ job ∷ []) cells 1 2 (pos 7) (pos 8) (λ m. refl)
      (omega arith, (omega arith, tt)) (omega arith) (omega arith)

-- Templates that append their parameters.
abbrev appending : Templates
appending = record {
  Template = Text;
  Data = Text;
  read_file = λ path. ok (codes "kind: ");
  join = λ a b. a ++ (codes "/" ++ b);
  base = plain;
  parse = λ name b. ok b;
  execute = λ tmpl params. ok (tmpl ++ params);
}

abbrev accept : Cmd → ℕ → Answer × ℕ
accept cmd w = (record { out = codes "created"; error = none }, suc w)

apply_template-Applied_example :
    NotRendered appending
      (codes "/r")
      (codes "ns.yaml")
      (codes "Pod")
      accept
      plain
      plain
      0
      (apply_template appending accept plain plain (codes "/r") (codes "ns.yaml") (codes "Pod") 0)
    ⊎ Applied appending
        (codes "/r")
        (codes "ns.yaml")
        (codes "Pod")
        accept
        plain
        plain
        0
        (apply_template appending accept plain plain (codes "/r") (codes "ns.yaml") (codes "Pod") 0)
apply_template-Applied_example =
    apply_template-Applied appending (codes "/r") (codes "ns.yaml") (codes "Pod") accept plain plain
      0

wait_on-Returns_example :
    Returns warming ready_command pod_is_ready plain
      (ticks warming (tick tt ∷ done (codes "deadline") ∷ []))
      (codes "deadline")
      0
      (wait_on warming ready_command pod_is_ready plain (tick tt ∷ done (codes "deadline") ∷ []) 0)
wait_on-Returns_example =
    wait_on-Returns warming ready_command pod_is_ready plain
      (tick tt ∷ done (codes "deadline") ∷ []) 0 tt

-- A kubectl that answers one question, and fails on any other.
abbrev ask : Cmd → ℕ → Process × ℕ
ask cmd n = (
  if equal (join_with (codes " ") cmd.args) (
        codes
          "kubectl get pods -n n -l app=x -o jsonpath={.items[0].status.containerStatuses[0].ready}")
      then record { stdout = codes "true\n"; stderr = []; failed = none }
      else record { stdout = []; stderr = codes "no"; failed = some (codes "exit status 1") },
  suc n,
)

asks_for_the_pod :
    wait_pod
      (default_runner ask plain plain [])
      plain
      (codes "n")
      (codes "app=x")
      (pos 0)
      (pos 0)
      []
      0
    ≡ (some (ok tt), 1)
unfolding wait_pod wait_on default_run run rebuild cmd_of answer_of join_with pod_command
    pod_is_ready equal trim_space trim_left trim_right keep_or_drop is_space decimal_of decimal
    path_of rest_of env_of
asks_for_the_pod = refl

-- The error has what the process wrote, trimmed.
fails_loudly :
    (run ask plain plain [] make 0).0
    ≡ record { out = []; error = some (codes "/bin/make all failed: no: exit status 1") }
unfolding run rebuild answer_of join_with equal trim_space trim_left trim_right keep_or_drop
    is_space path_of rest_of env_of
fails_loudly = refl
