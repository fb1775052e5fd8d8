-- ===== src/Floats/Whole.antt =====
-- An instance of the interface for runs on small inputs: whole numbers, where a half is 0.
use go_judgy.Prelude.{ℕ, ◌+◌, ◌*◌, ◌/◌, ltb, ◌==◌}
use go_judgy.Prelude.Int.{pos, pos_part, scale}
use go_judgy.Floats.{Floats}

abbrev pub whole : Floats
whole = record {
  Float = ℕ;
  zero_float = 0;
  one_float = 1;
  half_float = 0;
  two_float = 2;
  lt_float = ltb;
  eq_float = ◌==◌;
  add_float = λ a b. a + b;
  div_float = λ a b. a / b;
  mul_float = λ a b. a * b;
  hundredths = λ n. n / 100;
  floor_int = pos;
  close = ◌==◌;
  of_int = pos_part;
  scale_duration = λ d m. scale m d;
}
