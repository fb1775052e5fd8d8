-- ===== src/Business/Usage.antt =====
-- internal/llm/business/usage.go: the checks of a reported usage, and estimates. The mapping of the
-- providers' usage records, which are decoded JSON, is left out.
use go_judgy.Prelude.{Bool, ◌&&◌, ◌||◌, Option, none, some, if◌then◌else◌}
use go_judgy.Prelude.Int.{ℤ, pos, negsuc, ◌+ℤ◌, ◌-ℤ◌, ◌*ℤ◌, ltb_ℤ, int64, div_trunc, is_zero_ℤ}
use go_judgy.Transport.{NormalizedUsage}

pub data UsageError : Type 0 where
  usage_nil negative_prompt_tokens negative_completion_tokens negative_total_tokens : UsageError
  inconsistent_token_counts suspiciously_high_token_count : UsageError

-- The total differs from a positive sum of the parts by more than one.
abbrev pub is_inconsistent : NormalizedUsage → Bool
is_inconsistent u =
    let calculated = int64 (u.prompt_tokens +ℤ u.completion_tokens) in
    let diff = int64 (u.total_tokens -ℤ calculated) in
    ltb_ℤ (pos 0) u.total_tokens
    && (ltb_ℤ (pos 0) calculated && (ltb_ℤ diff (negsuc 0) || ltb_ℤ (pos 1) diff))

abbrev check_usage : NormalizedUsage → Option UsageError
check_usage u =
    if ltb_ℤ u.prompt_tokens (pos 0)
    then some negative_prompt_tokens
    else if ltb_ℤ u.completion_tokens (pos 0)
    then some negative_completion_tokens
    else if ltb_ℤ u.total_tokens (pos 0)
    then some negative_total_tokens
    else if is_inconsistent u
    then some inconsistent_token_counts
    else if ltb_ℤ (pos 1000000) u.total_tokens
    then some suspiciously_high_token_count
    else none

-- `ValidateUsage`; `none` is a nil pointer.
unfoldable pub validate_usage : Option NormalizedUsage → Option UsageError
validate_usage none = some usage_nil
validate_usage (some u) = check_usage u

unfoldable pub estimate_characters_from_tokens : ℤ → ℤ
estimate_characters_from_tokens tokens = int64 (tokens *ℤ pos 4)

unfoldable pub estimate_tokens_from_characters : ℤ → ℤ
estimate_tokens_from_characters characters =
    if is_zero_ℤ characters then pos 0 else div_trunc (int64 (characters +ℤ pos 3)) 4
