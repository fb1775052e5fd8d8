-- ===== src/Floats.antt =====
-- The `float64` values and operations that the program uses, as an interface. No law of rounding is
-- assumed: a theorem that needs one states it.
pub mod Whole
use go_judgy.Prelude.{ℕ, Bool}
use go_judgy.Prelude.Int.{ℤ}

pub record Floats : Type 1 where
  pub Float : Type 0
  pub zero_float : Float
  pub one_float : Float
  pub half_float : Float
  pub two_float : Float
  pub lt_float : Float → Float → Bool
  pub eq_float : Float → Float → Bool
  pub add_float : Float → Float → Float
  pub div_float : Float → Float → Float
  pub mul_float : Float → Float → Float
  -- `float64(n)` of an `int`.
  pub of_int : ℤ → Float
  -- The constant of n hundredths.
  pub hundredths : ℕ → Float
  -- `int(math.Floor(x))`.
  pub floor_int : Float → ℤ
  -- `math.Abs(a-b) <= 1e-9`.
  pub close : Float → Float → Bool
  -- `time.Duration(float64(d) * m)`.
  pub scale_duration : ℤ → Float → ℤ
