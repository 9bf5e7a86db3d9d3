-- ===== src/Prelude/Runtime.antt =====
-- What the program takes from the Go runtime and the model does not compute: float64 numbers and
-- the printing of floats, durations and quoted strings. A value of `Runtime` is one such runtime;
-- `IsLawful` states the facts of IEEE 754 arithmetic that theorems rely on, for the numbers that
-- the program builds from counters (never NaN or infinite).

use cloud_sre_agent.Prelude.Strings.{Text}
use Prim.Native.Nat.{ℕ, ◌<◌, ◌≤◌}
use mathlib.Core.Path.{◌≡◌}
use mathlib.Core.Bool.{Bool, true, false}
use mathlib.Core.Option.{Option}

pub record Runtime : Type 1 where
  pub Float : Type 0
  -- `float64(n)` for an int `n` that is not negative
  pub of_int : ℕ → Float
  -- the literal n / 10^k
  pub decimal : ℕ → ℕ → Float
  pub divide : Float → Float → Float
  pub multiply : Float → Float → Float
  -- x < y and x <= y
  pub float_ltb : Float → Float → Bool
  pub float_leb : Float → Float → Bool
  -- the verb %.<k>f
  pub format_float : ℕ → Float → Text
  -- `time.Duration.String`
  pub format_duration : ℕ → Text
  -- `strconv.ParseFloat` of the literal of a JSON number
  pub parse_float : Text → Option Float
  -- the verb %q
  pub quote : Text → Text

pub record IsLawful (rt : Runtime) : Type 0 where
  pub leb-not-ltb : (x y : rt.Float) → rt.float_leb x y ≡ true → rt.float_ltb y x ≡ false
  pub ratio_nonneg :
      (a b : ℕ) → 0 < b → rt.float_leb (rt.of_int 0) (rt.divide (rt.of_int a) (rt.of_int b)) ≡ true
  pub leb-of_int : (a b : ℕ) → a ≤ b → rt.float_leb (rt.of_int a) (rt.of_int b) ≡ true
  pub not-leb-two_one : rt.float_leb (rt.of_int 2) (rt.of_int 1) ≡ false
