-- ===== src/Float64.antt =====
-- Go's float64 as an interface: the type, the operators that the program uses, `strconv.ParseFloat`
-- with 64 bits (`none` is its error) and the text that `%v` prints. Nothing is assumed of them
-- here: a theorem that needs a law of theirs says so. The comparisons are IEEE's, so none of them
-- need hold at a NaN.
use my_operator.Base.{Bool, Option, Text}

pub record Float64 : Type 1 where
  pub F : Type 0
  pub zero_float : F
  pub add : F → F → F
  pub sub : F → F → F
  pub le : F → F → Bool
  pub lt : F → F → Bool
  pub eq : F → F → Bool
  pub parse_float : Text → Option F
  pub show : F → Text
