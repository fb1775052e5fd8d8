-- ===== src/Errors/Digits.antt =====
-- The decimal digits of a number determine it: the fuel that `show_int` takes is enough.
use go_judgy.Prelude.{
  ℕ, zero, suc, ◌+◌, ◌*◌, ◌-◌, ◌/◌, ◌%◌, ◌<◌, [], ◌∷◌, ltb, ◌≡◌, sym, ap, ◌∙◌, arith, inl, inr,
  Bool-cases,
}
use go_judgy.Prelude.Int.{pos}
use go_judgy.Prelude.Bytes.{Bytes}
use go_judgy.Errors.Text.{show_digits, show_int}

-- The number that digits denote after those that denote n.
read_digits : ℕ → Bytes → ℕ
read_digits n [] = n
read_digits n (c ∷ cs) = read_digits (n * 10 + (c - 48)) cs

read_digits-show :
    (fuel n : ℕ) (rest : Bytes)
    → n < fuel
    → read_digits 0 (show_digits fuel n rest) ≡ read_digits n rest
unfolding show_digits read_digits
read_digits-show zero n rest h = elim h [ ]
read_digits-show (suc fuel) n rest h = elim (Bool-cases (ltb n 10)) [
  | inl small ↦
      rw small (let e : 0 * 10 + (48 + n - 48) ≡ n = omega arith in ap (λ m. read_digits m rest) e)
  | inr large ↦
      let e : n / 10 * 10 + (48 + n % 10 - 48) ≡ n = omega arith in
      rw large (
        read_digits-show fuel (n / 10) ((48 + n % 10) ∷ rest) (ground arith)
        ∙ ap (λ m. read_digits m rest) e)
]

pub show_int-injective : (m n : ℕ) → show_int (pos m) ≡ show_int (pos n) → m ≡ n
unfolding show_int read_digits
show_int-injective m n h =
    sym (read_digits-show (suc m) m [] (omega arith))
    ∙ ap (λ t. read_digits 0 t) h
    ∙ read_digits-show (suc n) n [] (omega arith)
