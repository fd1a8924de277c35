-- ===== src/Graph/Std.antt =====
-- What the checks ask of the parsers of Go's standard library, and timer.go's `ParseRate` on top.
use Prim.Native.String.{String}
use conductor_ros.Prelude.{zero, suc, Bool, true, false, Option, none, some}
use conductor_ros.Prelude.Int.{ℤ, pos, negsuc}
use conductor_ros.Prelude.Texts.{trim_suffix}

-- `time.ParseDuration` in nanoseconds; whether `strconv.ParseFloat` gives a positive number;
-- whether `strconv.Atoi` accepts.
pub record Std : Type 0 where
  pub parse_duration : String → Option ℤ
  pub is_positive_float : String → Bool
  pub accepts_int : String → Bool

abbrev pub is_positive : Option ℤ → Bool
is_positive none = false
is_positive (some (pos zero)) = false
is_positive (some (pos (suc n))) = true
is_positive (some (negsuc n)) = false

abbrev pub is_nonnegative : Option ℤ → Bool
is_nonnegative none = false
is_nonnegative (some (pos n)) = true
is_nonnegative (some (negsuc n)) = false

-- Whether `ParseRate` accepts.
unfoldable pub parses_rate : Std → String → Bool
unfolding trim_suffix
parses_rate std s = elim (trim_suffix "hz" s) [
  | some number ↦ std.is_positive_float number
  | none ↦ is_positive (std.parse_duration s)
]
