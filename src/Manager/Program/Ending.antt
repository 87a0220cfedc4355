-- ===== src/Manager/Program/Ending.antt =====
-- cmd/main.go: how a run of the program ends, and which calls it has made by then.
use my_operator.Base.{ℕ, Option, none, some, List, [], ◌∷◌, ◌≡◌, Text, ok, err, ◌⊎◌}
use my_operator.Manager.{Flags, help, bad, defaults, parse_flags}
use my_operator.Manager.Given.{given, initial}
use my_operator.Manager.Program.{add_to_scheme, client_go, batch_v1, exit, panic, Answers, main}
use my_operator.Manager.Program.Plan.{registered, plan, Follows}

module _ (answers : Answers) (foreign : Text → Text → Option (Option Text)) where
  module _ (join : Text → Text → Text) (spare : ℕ → ℕ) (args : List (Text × Text)) where
    -- A package that does not enter the scheme.
    abbrev pub Panics : Type 0
    Panics =
        (e : Text) × (((answers [] (add_to_scheme client_go) ≡ some e)
            × (main answers join spare foreign args []
                ≡ (err (panic e), add_to_scheme client_go ∷ [])))
          ⊎ ((answers [] (add_to_scheme client_go) ≡ none)
              × (answers (add_to_scheme client_go ∷ []) (add_to_scheme batch_v1) ≡ some e)
              × (main answers join spare foreign args [] ≡ (err (panic e), registered))))

    -- A command line that asks for the help, or does not parse.
    abbrev pub Stopped : Type 0
    Stopped =
        ((parse_flags foreign args defaults ≡ err help)
          × (main answers join spare foreign args [] ≡ (err (exit 0), registered)))
        ⊎ ((name : Text) × (parse_flags foreign args defaults ≡ err (bad name))
            × (main answers join spare foreign args [] ≡ (err (exit 2), registered)))

    -- The flags that the command line gives.
    abbrev pub flags : Flags
    flags = given args initial

    -- A run of the plan of the flags.
    abbrev pub Planned : Type 0
    Planned =
        (parse_flags foreign args defaults ≡ ok flags)
        × Follows answers (plan join spare flags) registered
            (main answers join spare foreign args [])
