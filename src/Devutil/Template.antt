-- ===== src/Devutil/Template.antt =====
-- pkg/devutil/template.go and kind.go, and test/e2e/e2eutil/apply.go, which applies what a template
-- renders. The file system, the package text/template and the verb %q are parameters.
pub mod Applied
use my_operator.Base.{
  Option, none, some, List, [], ◌∷◌, ◌++◌, if◌then◌else◌, Text, codes, Result, ok, err, ◌>>=◌,
}
use my_operator.Kubeutil.Exec.{Cmd, Answer}
use my_operator.Text.{equal}

-- What the functions need of the outside; `parse` is `Parse` of a new template with the option
-- missingkey=error, and `execute` yields what was written to the buffer.
pub record Templates : Type 1 where
  pub Template : Type 0
  pub Data : Type 0
  pub read_file : Text → Result Text Text
  pub join : Text → Text → Text
  pub base : Text → Text
  pub parse : Text → Text → Result Text Template
  pub execute : Template → Data → Result Text Text

abbrev pub unless_empty : Text → Text → Result Text (Unit {0})
unless_empty s message = if equal s [] then err message else ok tt

module _ (t : Templates) where
  open t use {Template, Data, read_file, join, base, parse, execute}

  unfoldable pub render_template_file : Text → Text → Data → Result Text Text
  render_template_file root_dir rel_path params = do
    u ← unless_empty root_dir (codes "rootDir is empty")
    v ← unless_empty rel_path (codes "relPath is empty")
    b ← read_file (join root_dir rel_path)
    tmpl ← parse (base rel_path) b
    execute tmpl params

  unfoldable pub render_template_file_string : Text → Text → Data → Result Text Text
  unfolding render_template_file
  render_template_file_string root_dir rel_path params =
      render_template_file root_dir rel_path params

  -- `runner.Run` yields the output and the error, or none.
  module _ {World : Type 0} (run : Cmd → World → Answer × World)
      (look_path quote : Text → Text) where
    unfoldable pub apply_command : Text → Text → Cmd
    apply_command root_dir manifest = record {
      path = look_path (codes "kubectl");
      args = codes "kubectl" ∷ codes "apply" ∷ codes "-f" ∷ codes "-" ∷ [];
      dir = root_dir;
      stdin = some manifest;
      env = [];
    }

    applied : Text → Answer → Answer
    applied rel_path a = elim a.error [
      | none ↦ a
      | some e ↦ record a {
        error = some (codes "kubectl apply " ++ (quote rel_path ++ (codes ": " ++ e)));
      }
    ]

    after_render : Text → Text → Result Text Text → World → Answer × World
    unfolding apply_command applied
    after_render root_dir rel_path (err e) w = (
      record {
        out = [];
        error = some (codes "render template " ++ (quote rel_path ++ (codes ": " ++ e)));
      },
      w,
    )
    after_render root_dir rel_path (ok manifest) w =
        let (a, w1) = run (apply_command root_dir manifest) w in (applied rel_path a, w1)

    unfoldable pub apply_template : Text → Text → Data → World → Answer × World
    unfolding after_render render_template_file_string
    apply_template root_dir rel_path params w =
        after_render root_dir rel_path (render_template_file_string root_dir rel_path params) w
