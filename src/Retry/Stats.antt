-- ===== src/Retry/Stats.antt =====
-- internal/llm/retry/stats.go and budget.go: the counters of the middleware and the budget of one
-- request. Logging is left out.
use go_judgy.Prelude.{Bool, true, false, not, ◌&&◌, if◌then◌else◌}
use go_judgy.Prelude.Int.{ℤ, pos, ◌+ℤ◌, leb_ℤ, ltb_ℤ, int64, div_trunc}
use go_judgy.Transport.{Response}
use go_judgy.Floats.{Floats}
use go_judgy.Retry.Config.{RetryConfig}

-- `retryStats`; the counters are int64.
pub record RetryStats : Type 0 where
  pub total_attempts : ℤ
  pub successful_retries : ℤ
  pub failed_retries : ℤ
  pub successful_first_attempts : ℤ
  pub max_backoff : ℤ
  pub total_cost_cents : ℤ
  pub total_tokens : ℤ
  pub budget_exceeded : ℤ

unfoldable pub no_stats : RetryStats
no_stats = record {
  total_attempts = pos 0;
  successful_retries = pos 0;
  failed_retries = pos 0;
  successful_first_attempts = pos 0;
  max_backoff = pos 0;
  total_cost_cents = pos 0;
  total_tokens = pos 0;
  budget_exceeded = pos 0;
}

pub record RequestBudget : Type 0 where
  pub cost_cents : ℤ
  pub tokens : ℤ
  pub max_cost : ℤ
  pub max_tokens : ℤ
  pub enabled : Bool

-- The compare-and-swap loop of `recordBackoffMetrics` when no other request interferes.
unfoldable pub record_backoff_metrics : ℤ → RetryStats → RetryStats
record_backoff_metrics backoff s =
    if leb_ℤ backoff s.max_backoff then s else record s { max_backoff = backoff }

unfoldable pub exceeds_budget : RequestBudget → Bool
exceeds_budget b =
    if not b.enabled
    then false
    else if ltb_ℤ (pos 0) b.max_cost && ltb_ℤ b.max_cost b.cost_cents
    then true
    else ltb_ℤ (pos 0) b.max_tokens && ltb_ℤ b.max_tokens b.tokens

abbrev pub count_tokens : ℤ → RequestBudget × RetryStats → RequestBudget × RetryStats
count_tokens used (b, s) =
    if ltb_ℤ (pos 0) used
    then (
      record b { tokens = int64 (b.tokens +ℤ used) },
      record s { total_tokens = int64 (s.total_tokens +ℤ used) },
    )
    else (b, s)

abbrev pub count_cost : ℤ → RequestBudget × RetryStats → RequestBudget × RetryStats
count_cost milli_cents (b, s) =
    if ltb_ℤ (pos 0) milli_cents
    then (
      record b { cost_cents = int64 (b.cost_cents +ℤ div_trunc milli_cents 1000) },
      record s { total_cost_cents = int64 (s.total_cost_cents +ℤ div_trunc milli_cents 1000) },
    )
    else (b, s)

unfoldable pub update_budget_from_response :
    Response → RequestBudget × RetryStats → RequestBudget × RetryStats
update_budget_from_response resp bs =
    count_cost resp.estimated_cost_milli_cents (count_tokens resp.usage.total_tokens bs)

-- `Stats`, the snapshot that `GetStats` returns.
module _ (F : Floats) where
  open F use {Float, one_float, div_float, of_int}

  pub record Stats : Type 0 where
    pub total_attempts : ℤ
    pub successful_retries : ℤ
    pub failed_retries : ℤ
    pub average_attempts : Float
    pub max_backoff : ℤ
    pub total_cost_cents : ℤ
    pub total_tokens : ℤ
    pub budget_exceeded : ℤ

  abbrev total_requests : RetryStats → ℤ
  total_requests s =
      int64 (int64 (s.successful_first_attempts +ℤ s.successful_retries) +ℤ s.failed_retries)

  unfoldable pub get_stats : RetryStats → Stats
  get_stats s = record {
    total_attempts = s.total_attempts;
    successful_retries = s.successful_retries;
    failed_retries = s.failed_retries;
    average_attempts =
        if ltb_ℤ (pos 0) (total_requests s)
        then div_float (of_int s.total_attempts) (of_int (total_requests s))
        else one_float;
    max_backoff = s.max_backoff;
    total_cost_cents = s.total_cost_cents;
    total_tokens = s.total_tokens;
    budget_exceeded = s.budget_exceeded;
  }

  unfoldable pub new_request_budget : RetryConfig F → RequestBudget
  new_request_budget cfg = record {
    cost_cents = pos 0;
    tokens = pos 0;
    max_cost = cfg.max_cost_cents;
    max_tokens = cfg.max_tokens;
    enabled = cfg.enable_budget;
  }
