-- ===== src/Tests/Whole.antt =====
-- Whole numbers in the place of float64, and an environment that fetches from a list, for the runs.
use my_operator.Base.{
  ℕ, ◌+◌, ◌-◌, leb, ltb, ◌==◌, ◌&&◌, true, false, Option, none, some, List, [], ◌∷◌, Text, codes,
  Result, err,
}
use my_operator.Engine.{Env, Sample}
use my_operator.Float64.{Float64}
use my_operator.Summary.{Time, Summary}

abbrev pub digit : Text → Option ℕ
digit (c ∷ []) = elim (leb b'0' c && leb c b'9') [ true ↦ some (c - b'0') | false ↦ none ]
digit _ = none

abbrev pub whole : Float64
whole = record {
  F = ℕ;
  zero_float = 0;
  add = λ a b. a + b;
  sub = λ a b. a - b;
  le = leb;
  lt = ltb;
  eq = λ a b. a == b;
  parse_float = digit;
  show = λ n. n ∷ [];
}

-- The answers of the fetches to come, those of the writer, and the clock.
pub record Script : Type 0 where
  pub fetches : List (Result Text (Sample whole))
  pub write_error : Option Text
  pub written : List (Text × Summary whole)
  pub clock : Time

abbrev fetch_next : List (Result Text (Sample whole)) → Script → Result Text (Sample whole) × Script
fetch_next [] s = (err (codes "no more"), s)
fetch_next (a ∷ rest) s = (a, record s { fetches = rest })

abbrev pub scripted : Env whole
scripted = record {
  World = Script;
  fetch = λ at s. fetch_next s.fetches s;
  write = λ path sum s. (s.write_error, record s { written = (path, sum) ∷ s.written });
  now = λ s. (s.clock, s);
}
