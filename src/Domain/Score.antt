-- ===== src/Domain/Score.antt =====
-- internal/domain/score.go, answer.go and aggregation.go: scores, and what is summed over them. Of
-- the entities the fields that the aggregation reads.
use go_judgy.Prelude.{ℕ, suc, Bool, ◌&&◌, List, [], ◌∷◌, if◌then◌else◌, ◌==◌}
use go_judgy.Prelude.Int.{ℤ, pos, ◌+ℤ◌, int64}
use go_judgy.Prelude.Bytes.{is_empty_text, Bytes}
use go_judgy.Floats.{Floats}

pub record Answer : Type 0 where
  pub id : Bytes

pub record DimensionScore (F : Floats) : Type 0 where
  pub name : Bytes
  pub value : F.Float

-- `has_reason_ref` is `!ReasonRef.IsZero()`.
pub record Score (F : Floats) : Type 0 where
  pub id : Bytes
  pub answer_id : Bytes
  pub value : F.Float
  pub has_reason_ref : Bool
  pub inline_reasoning : Bytes
  pub dimensions : List (DimensionScore F)
  pub tokens_used : ℤ
  pub cost_cents : ℤ
  pub valid : Bool
  pub error : Bytes

module _ {F : Floats} where
  unfoldable pub is_valid : Score F → Bool
  is_valid s = s.valid && is_empty_text s.error

  -- `TotalTokens`: the loop from a total.
  unfoldable pub tokens_from : ℤ → List (Score F) → ℤ
  tokens_from total [] = total
  tokens_from total (s ∷ scores) = tokens_from (int64 (total +ℤ s.tokens_used)) scores

  unfoldable pub total_tokens : List (Score F) → ℤ
  unfolding tokens_from
  total_tokens scores = tokens_from (pos 0) scores

module _ (F : Floats) where
  open F use {Float, zero_float, add_float, div_float, of_int}

  -- The loop of `AggregateScores` from a sum and a count.
  unfoldable pub sum_valid : List (Score F) → Float → ℕ → Float × ℕ
  sum_valid [] sum count = (sum, count)
  sum_valid (s ∷ scores) sum count =
      let (next, counted) =
        if is_valid s then (add_float sum s.value, suc count) else (sum, count) in
      sum_valid scores next counted

  abbrev pub mean_of : Float × ℕ → Float
  mean_of (sum, count) = if count == 0 then zero_float else div_float sum (of_int (pos count))

  unfoldable pub aggregate_scores : List (Score F) → Float
  unfolding sum_valid
  aggregate_scores [] = zero_float
  aggregate_scores (s ∷ scores) = mean_of (sum_valid (s ∷ scores) zero_float 0)
