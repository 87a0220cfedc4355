-- ===== src/Devutil/Template/Applied.antt =====
-- pkg/devutil/template.go and test/e2e/e2eutil/apply.go: when a template renders, and what is applied.
use my_operator.Base.{
  none, some, [], ◌∷◌, ◌++◌, ◌≡◌, ◌≢◌, ◌↔◌, ◌⊎◌, inl, inr, refl, sym, ◌∙◌, Option-cases, Text,
  codes, ◌>>=◌, Result, ok, err, Bool-cases,
}
use my_operator.Devutil.Template.{
  Templates, unless_empty, render_template_file, render_template_file_string, apply_command,
  applied, after_render, apply_template,
}
use my_operator.Kubeutil.Exec.{Cmd, Answer}
use my_operator.Text.{equal, equal-ne, ne_of_equal}

-- The inversion of a step that succeeds.
bind_ok :
    {A B : Type 0} {E : Type 0} (m : Result E A) (k : A → Result E B) {b : B}
    → (m >>= k) ≡ ok b
    → (a : A) × (m ≡ ok a) × (k a ≡ ok b)
bind_ok (ok a) k h = (a, refl, h)
bind_ok (err e) k h = cc

not_empty : (s message : Text) {u : Unit {0}} → unless_empty s message ≡ ok u → s ≢ []
not_empty s message h = elim (Bool-cases (equal s [])) [
  | inl e ↦ absurd (ok-ne-err message (rw e at h))
  | inr e ↦ ne_of_equal s [] e
]
  where
    ok-ne-err : (x : Text) {u : Unit {0}} → ◌≡◌ {A = Result Text (Unit {0})} (err x) (ok u) → ⊥
    ok-ne-err x h = cc

module _ (t : Templates) (root_dir rel_path : Text) (params : t.Data) where
  open t use {Template, read_file, join, base, parse, execute}

  -- Every step of the rendering succeeds, the last with `out`.
  abbrev pub Renders : Text → Type 0
  Renders out =
      (root_dir ≢ [])
      × (rel_path ≢ [])
      × (b : Text) × (read_file (join root_dir rel_path) ≡ ok b)
      × (tmpl : Template) × (parse (base rel_path) b ≡ ok tmpl)
      × (execute tmpl params ≡ ok out)

  render-Renders :
      (out : Text) → render_template_file t root_dir rel_path params ≡ ok out → Renders out
  unfolding render_template_file
  render-Renders out h =
      let (u, e1, h1) = bind_ok (unless_empty root_dir (codes "rootDir is empty")) _ h in
      let (v, e2, h2) = bind_ok (unless_empty rel_path (codes "relPath is empty")) _ h1 in
      let (b, e3, h3) = bind_ok (read_file (join root_dir rel_path)) _ h2 in
      let (tmpl, e4, h4) = bind_ok (parse (base rel_path) b) _ h3 in
      (not_empty root_dir _ e1, not_empty rel_path _ e2, b, e3, tmpl, e4, h4)

  Renders-render :
      (out : Text) → Renders out → render_template_file t root_dir rel_path params ≡ ok out
  unfolding render_template_file
  Renders-render out (r, p, b, e1, tmpl, e2, e3) =
      rw (equal-ne root_dir [] r, equal-ne rel_path [] p, e1, e2) e3

  -- A template file renders to `out` exactly if both paths are given, the file can be read, its text
  -- parses, and the template, executed on the parameters, yields `out`; any failing step is an error.
  pub render_template_file-Renders :
      (out : Text) → (render_template_file t root_dir rel_path params ≡ ok out) ↔ Renders out
  render_template_file-Renders out = (render-Renders out, Renders-render out)

  module _ {World : Type 0} (run : Cmd → World → Answer × World) (look_path quote : Text → Text)
      (w : World) where
    abbrev pub apply_once : Text → Answer × World
    apply_once manifest =
        run
          (record {
            path = look_path (codes "kubectl");
            args = codes "kubectl" ∷ codes "apply" ∷ codes "-f" ∷ codes "-" ∷ [];
            dir = root_dir;
            stdin = some manifest;
            env = [];
          })
          w

    -- Nothing is rendered: nothing is run, and the error says so.
    abbrev pub NotRendered : Answer × World → Type 0
    NotRendered (a, w1) =
        ((manifest : Text) → ¬ Renders manifest)
        × (w1 ≡ w)
        × (a.out ≡ [])
        × ((e : Text) × (a.error
              ≡ some (codes "render template " ++ (quote rel_path ++ (codes ": " ++ e)))))

    -- The manifest is rendered, and piped to one run of kubectl in the root directory, whose output is
    -- returned, with an error exactly if it fails.
    abbrev pub Applied : Answer × World → Type 0
    Applied (a, w1) =
        (manifest : Text) × Renders manifest
        × (w1 ≡ (apply_once manifest).1)
        × (a.out ≡ (apply_once manifest).0.out)
        × ((a.error ≡ none) ↔ ((apply_once manifest).0.error ≡ none))

    applied_error :
        (a : Answer)
        → ((applied t run look_path quote rel_path a).out ≡ a.out)
          × (((applied t run look_path quote rel_path a).error ≡ none) ↔ (a.error ≡ none))
    unfolding applied
    applied_error a = elim (Option-cases a.error) [
      | inl e ↦ rw e (refl, (λ h. refl, λ h. refl))
      | inr (x, e) ↦ rw e (refl, (λ h. cc, λ h. cc))
    ]

    err-ne-ok : (e m : Text) → ◌≡◌ {A = Result Text Text} (err e) (ok m) → ⊥
    err-ne-ok e m h = cc

    after_render-cases :
        (r : Result Text Text)
        → render_template_file t root_dir rel_path params ≡ r
        → NotRendered (after_render t run look_path quote root_dir rel_path r w)
          ⊎ Applied (after_render t run look_path quote root_dir rel_path r w)
    unfolding after_render apply_command
    after_render-cases (err e) h =
        inl ((λ m r. err-ne-ok e m (sym h ∙ Renders-render m r)), refl, refl, (e, refl))
    after_render-cases (ok m) h =
        let (same, failed) = applied_error (apply_once m).0 in
        inr (m, render-Renders m h, refl, same, failed)

    -- `ApplyTemplate` runs nothing, and returns an error that names the template, where the template
    -- does not render; else it runs `kubectl apply -f -` once, in the root directory, on what the
    -- template renders to, and returns its output, with an error exactly if the run fails.
    pub apply_template-Applied :
        NotRendered (apply_template t run look_path quote root_dir rel_path params w)
        ⊎ Applied (apply_template t run look_path quote root_dir rel_path params w)
    unfolding apply_template render_template_file_string
    apply_template-Applied =
        after_render-cases (render_template_file t root_dir rel_path params) refl
