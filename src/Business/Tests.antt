-- ===== src/Business/Tests.antt =====
-- internal/llm/business: runs on small inputs, and each theorem at an input that meets its hypotheses.
use go_judgy.Prelude.{ℕ, ◌+◌, ◌*◌, ◌≤◌, ◌<◌, ◌≡◌, refl, true, none, inr, [], arith}
use go_judgy.Prelude.Int.{pos}
use go_judgy.Prelude.Bytes.{bytes}
use go_judgy.Transport.{NormalizedUsage}
use go_judgy.Business.Pricing.{PricingEntry, build_pricing_key, calculate}
use go_judgy.Floats.Whole.{whole}
use go_judgy.Transport.Conversion.{ScoreData}
use go_judgy.Transport.Words.{trim_space, trim_left, trim_right, is_space}
use go_judgy.Business.Validation.{
  Patterns, accept, validate_score_data, repair_score_data, clamp_percentage, repair_dimensions,
  default_reasoning, validate_and_repair_score,
}
use go_judgy.Business.ValidationLaws.{UnitLaws, Sound, validate_and_repair_score-Sound}
use go_judgy.Business.PricingLaws.{calculate-exact, build_pricing_key-collides}

abbrev half_usage : NormalizedUsage
half_usage = record {
  prompt_tokens = pos 500;
  completion_tokens = pos 500;
  total_tokens = pos 1000;
  latency_ms = pos 3;
}

abbrev cheap : PricingEntry
cheap = record {
  provider = bytes "acme";
  model = bytes "tiny";
  region = [];
  prompt_cost_per_1000 = pos 1;
  output_cost_per_1000 = pos 1;
  valid_until = pos 10;
}

-- One milli-cent exactly, and the cost is 0: each half is rounded down.
calculate-exact_example :
    (cost : ℕ) × (calculate half_usage cheap ≡ pos cost
      × (cost * 1000 ≤ 500 * 1 + 500 * 1 × 500 * 1 + 500 * 1 < cost * 1000 + 2000))
calculate-exact_example =
    calculate-exact half_usage cheap 500 500 1 1 refl refl refl refl (ground arith)

build_pricing_key-collides_example :
    build_pricing_key (bytes "acme") (bytes "tiny") (bytes "eu")
    ≡ build_pricing_key (bytes "acme") (bytes "tiny/eu") []
build_pricing_key-collides_example =
    build_pricing_key-collides (bytes "acme") (bytes "tiny") (bytes "eu") refl

-- Division of whole numbers: a hundredth of one that is at most 100 is 0 or 1.
whole_laws : UnitLaws whole
whole_laws = record { zero_in = refl; one_in = refl; percent_in = λ x over most. ground arith }

abbrev patterns : Patterns
patterns = record { drop_commas = λ t. t; quote_keys = λ t. t; fenced = λ t. none }

-- A score of 85 with no reasoning.
abbrev percent_score : ScoreData whole
percent_score = record { value = 85; confidence = 1; reasoning = []; dimensions = [] }

validate_and_repair_score-Sound_example :
    Sound whole (record percent_score { value = 0; reasoning = default_reasoning })
unfolding validate_and_repair_score accept validate_score_data repair_score_data clamp_percentage
    repair_dimensions trim_space trim_left trim_right is_space
validate_and_repair_score-Sound_example =
    validate_and_repair_score-Sound whole whole_laws patterns (λ t. inr percent_score) (bytes "{}")
      true (record percent_score { value = 0; reasoning = default_reasoning }) refl
