-- ===== src/Aggregation/Shuffle.antt =====
-- internal/aggregation/activities.go: the median and the trimmed mean do not depend on the order of
-- the judges.
use go_judgy.Prelude.{suc, ◌≡◌, ◌∙◌, refl, ap, List, [], ◌∷◌, length}
use mathlib.Core.List.{Permᴰ}
use mathlib.Core.List.Permᴰ
use go_judgy.Floats.{Floats}
use go_judgy.Aggregation.Sorting.{sort, IsLinear, sort-perm}
use go_judgy.Aggregation.Values.{
  middle, trimmed, trim_count, clamp_fraction, calculate_median_values, calculate_trimmed_mean,
}

length-perm : {A : Type 0} (xs ys : List A) → Permᴰ xs ys → length xs ≡ length ys
length-perm _ _ Permᴰ.nil = refl
length-perm _ _ (Permᴰ.cons {l₁ = xs} {l₂ = ys} e p) = ap suc (length-perm xs ys p)
length-perm _ _ (Permᴰ.swap e e') = refl
length-perm xs zs (Permᴰ.trans {l₂ = ys} p q) = length-perm xs ys p ∙ length-perm ys zs q

module _ (F : Floats) where
  open F use {Float, lt_float}

  -- When `<` is a linear order on the values (no NaN, and no two zeros), the median and the trimmed
  -- mean of a permuted list are those of the list.
  pub median-perm :
      (xs ys : List Float) (fraction whole : Float)
      → IsLinear lt_float
      → Permᴰ xs ys
      → (calculate_median_values F xs ≡ calculate_median_values F ys)
        × (calculate_trimmed_mean F xs fraction whole ≡ calculate_trimmed_mean F ys fraction whole)
  unfolding calculate_median_values calculate_trimmed_mean
  median-perm [] [] fraction whole laws p = (refl, refl)
  median-perm [] (y ∷ ys) fraction whole laws p = let same = Permᴰ.length-eq p in cc
  median-perm (x ∷ xs) [] fraction whole laws p = let same = Permᴰ.length-eq p in cc
  median-perm (x ∷ xs) (y ∷ ys) fraction whole laws p =
      let sorted = sort-perm lt_float (x ∷ xs) (y ∷ ys) laws p in
      (
        ap (middle F) sorted,
        ap (λ s. trimmed F s (trim_count F (length (x ∷ xs)) (clamp_fraction F fraction)) whole)
              sorted
            ∙ ap
                (λ n.
                  trimmed F (sort lt_float (y ∷ ys)) (trim_count F n (clamp_fraction F fraction))
                    whole)
                (length-perm (x ∷ xs) (y ∷ ys) p),
      )
