-- ===== src/Aggregation/Values.antt =====
-- internal/aggregation/activities.go: the statistics of a list of values.
use go_judgy.Prelude.{
  ℕ, zero, suc, ◌-◌, ◌*◌, ◌/◌, ◌%◌, none, some, List, [], ◌∷◌, length, get_elem?, leb,
  if◌then◌else◌, ◌==◌,
}
use go_judgy.Prelude.Int.{pos, pos_part}
use go_judgy.Floats.{Floats}
use go_judgy.Aggregation.Sorting.{sort}

module _ (F : Floats) where
  open F use {
    Float, zero_float, half_float, two_float, lt_float, add_float, mul_float, div_float, of_int,
    floor_int,
  }

  -- `values[i]`; every index that the code uses is in range.
  abbrev pub value_at : List Float → ℕ → Float
  value_at values i = elim (get_elem? values i) [ some v ↦ v | none ↦ zero_float ]

  abbrev pub of_size : ℕ → Float
  of_size n = of_int (pos n)

  -- The loop that adds up values from a sum.
  abbrev pub sum_from : Float → List Float → Float
  sum_from sum [] = sum
  sum_from sum (v ∷ values) = sum_from (add_float sum v) values

  unfoldable pub calculate_mean_values : List Float → Float
  calculate_mean_values [] = zero_float
  calculate_mean_values (v ∷ values) =
      div_float (sum_from zero_float (v ∷ values)) (of_size (length (v ∷ values)))

  -- The middle of a sorted list that is not empty.
  abbrev pub middle : List Float → Float
  middle sorted =
      let n = length sorted in
      if n % 2 == 1
      then value_at sorted (n / 2)
      else div_float (add_float (value_at sorted (n / 2 - 1)) (value_at sorted (n / 2))) two_float

  unfoldable pub calculate_median_values : List Float → Float
  calculate_median_values [] = zero_float
  calculate_median_values (v ∷ values) = middle (sort lt_float (v ∷ values))

  unfoldable pub clamp_fraction : Float → Float
  clamp_fraction f =
      let positive = if lt_float f zero_float then zero_float else f in
      if lt_float half_float positive then half_float else positive

  -- `for i := from; i < to; i++ { sum += values[i] }`, where `n` is the number of rounds.
  abbrev pub sum_range : List Float → ℕ → ℕ → Float → Float
  sum_range values start zero sum = sum
  sum_range values start (suc n) sum =
      sum_range values (suc start) n (add_float sum (value_at values start))

  -- The mean of a list without `trim` values at both ends, or `whole` if nothing would be left.
  abbrev pub trimmed : List Float → ℕ → Float → Float
  trimmed sorted trim whole =
      let n = length sorted in
      if leb n (trim * 2)
      then whole
      else div_float (sum_range sorted trim (n - trim * 2) zero_float) (of_size (n - trim * 2))

  unfoldable pub trim_count : ℕ → Float → ℕ
  trim_count n fraction = pos_part (floor_int (mul_float (of_size n) fraction))

  -- `calculateTrimmedMean` and `calculateTrimmedMeanValues`, which fall back to different means.
  unfoldable pub calculate_trimmed_mean : List Float → Float → Float → Float
  unfolding clamp_fraction trim_count
  calculate_trimmed_mean [] fraction whole = zero_float
  calculate_trimmed_mean (v ∷ values) fraction whole =
      trimmed (sort lt_float (v ∷ values))
        (trim_count (length (v ∷ values)) (clamp_fraction fraction)) whole

  unfoldable pub calculate_trimmed_mean_values : List Float → Float → Float
  calculate_trimmed_mean_values values fraction =
      calculate_trimmed_mean values fraction (calculate_mean_values values)
