-- ===== src/Domain/Evaluation.antt =====
-- internal/domain/evaluation.go, budget.go and money.go: the configuration and the limits of an
-- evaluation. The checks of the structs are struct tags, which are a parameter where they are called.
use go_judgy.Prelude.{ℕ, Bool, not, List, [], ◌++◌}
use go_judgy.Prelude.Int.{ℤ, pos, ◌+ℤ◌, ◌-ℤ◌, int64, is_zero_ℤ}
use go_judgy.Prelude.Bytes.{Bytes, bytes, insert, is_empty_text}
use go_judgy.Errors.Text.{show_int}
use go_judgy.Floats.{Floats}
use go_judgy.Domain.State.{copy}

module _ (F : Floats) where
  open F use {Float, hundredths}

  pub record EvalConfig : Type 0 where
    pub max_answers : ℤ
    pub max_answer_tokens : ℤ
    pub temperature : Float
    pub score_threshold : Float
    pub provider : Bytes
    pub model : Bytes
    pub timeout : ℤ

  abbrev pub default_eval_config : EvalConfig
  default_eval_config = record {
    max_answers = pos 3;
    max_answer_tokens = pos 1000;
    temperature = hundredths 70;
    score_threshold = hundredths 70;
    provider = bytes "openai";
    model = [];
    timeout = pos 60;
  }

  unfoldable is_valid_provider : EvalConfig → Bool
  is_valid_provider c = not (is_empty_text c.provider)

-- `EvaluationRequest.Metadata` after `WithMeta` and after `WithMetadata`, for a metadata map that is
-- not nil or is the empty map.
unfoldable with_meta : Bytes → Bytes → List (Bytes × Bytes) → List (Bytes × Bytes)
unfolding copy
with_meta key value metadata = insert key value (copy [] metadata)

unfoldable with_metadata : List (Bytes × Bytes) → List (Bytes × Bytes) → List (Bytes × Bytes)
unfolding copy
with_metadata more metadata = copy (copy [] metadata) more

pub data BudgetType : Type 0 where
  budget_tokens budget_calls budget_cost budget_time : BudgetType
  -- A value of the type that is no constant.
  budget_other : ℕ → BudgetType

unfoldable budget_text : BudgetType → Bytes
budget_text budget_tokens = bytes "tokens"
budget_text budget_calls = bytes "calls"
budget_text budget_cost = bytes "cost"
budget_text budget_time = bytes "time"
budget_text (budget_other n) = bytes "unknown"

pub record BudgetLimits : Type 0 where
  pub max_total_tokens : ℤ
  pub max_calls : ℤ
  pub max_cost_cents : ℤ
  pub timeout_secs : ℤ

abbrev default_budget_limits : BudgetLimits
default_budget_limits = record {
  max_total_tokens = pos 10000;
  max_calls = pos 10;
  max_cost_cents = pos 100;
  timeout_secs = pos 300;
}

pub record BudgetExceededError : Type 0 where
  pub type : BudgetType
  pub limit : ℤ
  pub current : ℤ
  pub required : ℤ

unfoldable budget_exceeded_text : BudgetExceededError → Bytes
unfolding budget_text show_int
budget_exceeded_text e =
    bytes "budget exceeded for "
    ++ (budget_text e.type
        ++ (bytes ": limit="
            ++ (show_int e.limit
                ++ (bytes ", current="
                    ++ (show_int e.current ++ (bytes ", required=" ++ show_int e.required))))))

-- `OverBy`, in int64.
unfoldable over_by : BudgetExceededError → ℤ
over_by e = int64 (int64 (e.current +ℤ e.required) -ℤ e.limit)

-- `Cents`.
unfoldable cents_is_zero : ℤ → Bool
cents_is_zero c = is_zero_ℤ c

unfoldable cents_add : ℤ → ℤ → ℤ
cents_add c x = int64 (c +ℤ x)
