-- ===== src/Kubeutil/Exec/Environ.antt =====
-- pkg/kubeutil/runner.go: the environment of the process.
use my_operator.Base.{
  suc, false, Option, none, some, List, [], ◌∷◌, ◌++◌, ◌≡◌, refl, ◌∙◌, if◌then◌else◌, Text, codes,
  length, drop, inl, inr, Bool-cases, List-cases,
}
use my_operator.Kubeutil.Exec.{Cmd, module_mode, env_of, rebuild}
use my_operator.Text.{has_prefix}

-- The value of a variable: of several entries for one name, the process sees the last.
unfoldable pub value_in : Text → List Text → Option Text
value_in name [] = none
value_in name (v ∷ env) = elim (value_in name env) [
  | some x ↦ some x
  | none ↦ if has_prefix v (name ++ codes "=") then some (drop (suc (length name)) v) else none
]

-- The entries that the process would have without the runner: the command's own, or those of this
-- process where it has none.
unfoldable pub inherited : List Text → Cmd → List Text
inherited environ cmd = elim cmd.env [ [] ↦ environ | ◌∷◌ v vars ↦ v ∷ vars ]

value_in-last :
    (name : Text) (env : List Text) (v : Text)
    → value_in name (env ++ (v ∷ [])) ≡ (
        if has_prefix v (name ++ codes "=")
        then some (drop (suc (length name)) v)
        else value_in name env)
unfolding value_in
value_in-last name [] v = refl
value_in-last name (u ∷ env) v = elim (Bool-cases (has_prefix v (name ++ codes "="))) [
  | inl e ↦ rw (value_in-last name env v, e) refl
  | inr e ↦ rw (value_in-last name env v, e) refl
]

rebuild_env :
    (look_path : Text → Text) (environ : List Text) (cmd : Cmd)
    → (rebuild look_path environ cmd).env ≡ inherited environ cmd ++ (module_mode ∷ [])
unfolding rebuild env_of inherited
rebuild_env look_path environ cmd = elim (List-cases cmd.env) [
  | inl e ↦ rw e refl
  | inr (v, vars, e) ↦ rw e refl
]

module _ (look_path : Text → Text) (environ : List Text) (cmd : Cmd) where
  -- The process sees GO111MODULE=on, whatever the command or this process had set, and a variable
  -- of another name as the command sets it, or as this process has it where the command sets none at all.
  pub rebuild-value_in :
      (name : Text)
      → has_prefix module_mode (name ++ codes "=") ≡ false
      → (value_in (codes "GO111MODULE") (rebuild look_path environ cmd).env ≡ some (codes "on"))
        × (value_in name (rebuild look_path environ cmd).env
            ≡ value_in name (inherited environ cmd))
  unfolding has_prefix
  rebuild-value_in name h = (
    rw rebuild_env (value_in-last (codes "GO111MODULE") (inherited environ cmd) module_mode),
    rw rebuild_env (value_in-last name (inherited environ cmd) module_mode ∙ rw h refl),
  )
