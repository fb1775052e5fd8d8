-- ===== src/RateLimit/Tests.antt =====
-- internal/llm/ratelimit: runs on small inputs, and each theorem at an input that meets its
-- hypotheses. The buckets here hold a burst and the tokens left, and never refill.
use go_judgy.Prelude.{
  ℕ, zero, suc, ◌≡◌, refl, Bool, true, false, Option, none, some, List, [], ◌∷◌, ◌++◌, ltb,
  if◌then◌else◌, arith,
}
use go_judgy.Prelude.Int.{pos, pos_part, ◌-ℤ◌}
use go_judgy.Prelude.Bytes.{Bytes, bytes, lookup, insert, lookup-insert_self}
use go_judgy.RateLimit.Limiter.{Limiters}
use go_judgy.RateLimit.Config.{LocalRateLimitConfig, RateLimitConfig}
use go_judgy.RateLimit.State.{unlocked, TimedLimiter, RateLimitState}
use go_judgy.RateLimit.Local.{
  Moments, check_local_limit, get_or_create_limiter, check_limiter, check_fallback_limit, refuse,
  peek_delay, fallback_entry,
}
use go_judgy.RateLimit.Global.{no_list}
use go_judgy.RateLimit.Cleanup.{retire, cleanup_entries, cleanup_stale}
use go_judgy.RateLimit.Middleware.{Encounter, check_limits}
use go_judgy.RateLimit.Window.{Redis, allowed_in}
use go_judgy.RateLimit.WindowLaws.{allowed_in-fresh}
use go_judgy.RateLimit.Returns.{
  mutex_after, check_local_limit-returns, check_fallback_limit-returns,
}
use go_judgy.RateLimit.Requests.{check_limits-returns}
use go_judgy.RateLimit.Exhausted.{NoBurst, checks, then_steps, done}
use go_judgy.RateLimit.Refused.{refuses, stale-refused}

abbrev take_token : ℕ × ℕ → (ℕ × ℕ) × Bool
take_token (burst, zero) = ((burst, zero), false)
take_token (burst, suc n) = ((burst, n), true)

abbrev give_back : Bool → ℕ × ℕ → ℕ × ℕ
give_back true (burst, n) = (burst, if ltb n burst then suc n else n)
give_back false l = l

abbrev counting : Limiters
counting = record {
  Rate = Unit {0};
  Limiter = ℕ × ℕ;
  Reservation = Bool;
  new_limiter = λ rate burst. (pos_part burst, pos_part burst);
  allow = λ t l. take_token l;
  reserve = λ t l. take_token l;
  reserved = λ r. r;
  delay = λ t r. if r then pos 0 else pos 2000000000;
  cancel = λ t r l. give_back r l;
  default_rate = tt;
  zero_rate = tt;
  lt_rate = λ a b. false;
  int_of_rate = λ r. pos 10;
  ceil_seconds = λ d. pos 2;
}

abbrev local_config : LocalRateLimitConfig counting
local_config = record { tokens_per_second = tt; burst_size = pos 2; enabled = true }

abbrev noon : Moments
noon = record {
  touched = pos 7;
  asked = pos 7;
  reserved_at = pos 7;
  delayed_at = pos 7;
  cancelled_at = pos 7;
}

abbrev tenant : Bytes
tenant = bytes "t:openai:gpt-4:scoring"

abbrev with_entries : List (Bytes × TimedLimiter counting) → RateLimitState counting
with_entries es = record { mutex = unlocked; local_limiters = es; degraded_mode = false }

abbrev fresh_start : RateLimitState counting
fresh_start = with_entries []

abbrev alone : List (Bytes × TimedLimiter counting) → List (Bytes × TimedLimiter counting)
alone entries = entries

abbrev racing : List (Bytes × TimedLimiter counting) → List (Bytes × TimedLimiter counting)
racing entries = insert (bytes "fallback:" ++ tenant) (fallback_entry counting (pos 5)) entries

check_local_limit-returns_example :
    mutex_after counting (check_local_limit counting alone local_config noon tenant fresh_start)
    ≡ some unlocked
check_local_limit-returns_example =
    check_local_limit-returns counting alone local_config noon tenant fresh_start refl

-- Another goroutine wins the race, and the run ends the program.
check_fallback_limit-returns_example :
    mutex_after counting (check_fallback_limit counting racing noon tenant fresh_start) ≡ none
check_fallback_limit-returns_example =
    check_fallback_limit-returns counting racing noon tenant fresh_start refl

abbrev request_config : RateLimitConfig counting
request_config = record {
  local = local_config;
  global = record { enabled = true; requests_per_second = pos 100 };
}

abbrev broken_redis : Encounter counting
broken_redis = record {
  local = noon;
  fallback = noon;
  fallback_again = noon;
  reply = no_list;
  others = alone;
}

check_limits-returns_example :
    mutex_after counting (check_limits counting request_config true broken_redis tenant fresh_start)
    ≡ some unlocked
check_limits-returns_example =
    check_limits-returns request_config true broken_redis tenant fresh_start refl refl

-- A store of counters that never expire.
abbrev counter_incr : Bytes → List (Bytes × ℕ) → Option ℕ → List (Bytes × ℕ) × ℕ
counter_incr k s none = (insert k 1 s, 1)
counter_incr k s (some n) = (insert k (suc n) s, suc n)

counter_incr-sum :
    (k : Bytes) (s : List (Bytes × ℕ)) (n : ℕ)
    → lookup k s ≡ some n
    → (counter_incr k s (lookup k s)).1 ≡ suc n
counter_incr-sum k s n e = rw e refl

counter_incr-get :
    (k : Bytes) (s : List (Bytes × ℕ)) (n : ℕ)
    → lookup k s ≡ some n
    → lookup k (counter_incr k s (lookup k s)).0 ≡ some (suc n)
counter_incr-get k s n e = rw e (lookup-insert_self k (suc n) s)

abbrev counters : Redis
counters = record {
  Store = List (Bytes × ℕ);
  get = λ k s. lookup k s;
  set_px = λ k n w s. insert k n s;
  incr = λ k s. counter_incr k s (lookup k s);
  pttl = λ k s. pos 1000;
  pexpire = λ k w s. s;
  get-set_px = λ k n w s. lookup-insert_self k n s;
  incr-sum = λ k s n e. counter_incr-sum k s n e;
  get-incr = λ k s n e. counter_incr-get k s n e;
  get-pexpire = λ k w s. refl;
}

-- Three requests in a window of two.
allowed_in-fresh_example : allowed_in counters tenant 1000 2 3 [] ≡ 2
allowed_in-fresh_example = allowed_in-fresh counters tenant 1000 2 3 [] (ground arith) refl

abbrev IsEmpty : ℕ × ℕ → Type 0
IsEmpty l = l ≡ (0, 0)

allow-IsEmpty : (l : ℕ × ℕ) → IsEmpty l → IsEmpty (take_token l).0
allow-IsEmpty l e = rw e refl

denied-IsEmpty : (l : ℕ × ℕ) → IsEmpty l → (take_token l).1 ≡ false
denied-IsEmpty l e = rw e refl

cancel-IsEmpty : (r : Bool) (l : ℕ × ℕ) → IsEmpty l → IsEmpty (give_back r l)
cancel-IsEmpty true l e = rw e refl
cancel-IsEmpty false l e = e

abbrev no_burst : NoBurst counting tt
no_burst = record {
  Empty = IsEmpty;
  new-Empty = refl;
  allow-Empty = λ t l e. allow-IsEmpty l e;
  reserve-Empty = λ t l e. allow-IsEmpty l e;
  cancel-Empty = λ t r l e. cancel-IsEmpty r l e;
  denied = λ t l e. denied-IsEmpty l e;
}

-- A tenant that used up its tokens long ago.
abbrev exhausted_entry : TimedLimiter counting
exhausted_entry = record { limiter = (2, 0); last_used = pos 1; exhausted = true }

abbrev retired_entry : TimedLimiter counting
retired_entry = record { limiter = (0, 0); last_used = pos 1; exhausted = true }

abbrev touched_entry : TimedLimiter counting
touched_entry = record { limiter = (0, 0); last_used = pos 7; exhausted = true }

stale-refused_example :
    refuses counting local_config no_burst tenant (
      check_local_limit counting alone local_config noon tenant
        (with_entries ((tenant, touched_entry) ∷ [])))
    ≡ true
unfolding cleanup_stale cleanup_entries retire check_local_limit get_or_create_limiter check_limiter
    refuse peek_delay ◌-ℤ◌
stale-refused_example =
    stale-refused counting local_config no_burst tenant exhausted_entry (pos 1) noon noon (pos 100)
      (with_entries ((tenant, exhausted_entry) ∷ [])) (with_entries ((tenant, retired_entry) ∷ []))
      (with_entries ((tenant, touched_entry) ∷ [])) refl refl refl refl refl
      (then_steps (checks noon tenant refl) done)
