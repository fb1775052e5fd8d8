-- ===== src/Lib.antt =====
-- A verification library for go-judgy, which generates answers with LLM providers and judges them.
--
-- The generation activity (internal/generation) asks the client (internal/llm) for answers and stores
-- their contents; the scoring activity (internal/scoring) asks it for scores and keeps their reasoning;
-- the scores are aggregated into a winner (internal/aggregation). Every call of the client passes a
-- chain of middleware: the circuit breaker (internal/llm/circuitbreaker), which stops calling a
-- provider that keeps failing, the retry middleware (internal/llm/retry), which calls again after an
-- error that may pass, the rate limits (internal/llm/ratelimit), the cache of responses
-- (internal/llm/cache), whose keys are those of internal/llm/transport/idempotency.go, and the prices
-- (internal/llm/business/pricing.go). Each wraps a `Handler` (internal/llm/transport/handler.go), here
-- a function from a context, a request and a world to a world and a reply; what stands below a
-- middleware is an argument, and below all of them is the core handler with the adapters of the
-- providers (internal/llm/providers). The client and the activities take the chain, the client and the
-- artifact store as arguments in the same way.
--
-- Prelude     lists and truth values over the native numbers, integers of two widths with their
--             wrap-around, and byte strings
-- Errors      internal/llm/errors: the error types, their texts, and the searches of `errors.As` and
--             `errors.Is` through wrapped errors; Classify, classification.go; Stability, its theorem;
--             Digits, that numbers print to texts of their own
-- Transport   internal/llm/transport: requests, responses, contexts and handlers
--   Words, Payload, Keys    idempotency.go: normalized texts, canonical payloads, and their keys;
--             WordsLaws and PayloadLaws, the theorems, and Tests
--   Conversion    conversion.go: answers and scores of responses
-- Floats      the `float64` operations that the code uses, as an interface without laws
-- Breaker     internal/llm/circuitbreaker
--   State, Adaptive, Machine    metrics.go, adaptive.go and circuit_breaker.go: one breaker and its
--             methods `allow`, `recordSuccess`, `recordFailure`, `transitionTo`
--   Sharded, Middleware         sharded.go and middleware.go: the table of breakers and the handler
--   Threshold, Invariant, Outcomes, Recovery, Accounting, Table, Verdict, Protection, Service
--             the theorems, and Tests the runs on small inputs
-- Retry       internal/llm/retry
--   Config, Backoff, Classify, Stats, Loop    configuration, waits, classification of errors,
--             counters and budget, and the handler with its loop
--   Bounds, Waiting, Attempts, Script, Outcome, Agreement    the theorems, and Tests the runs on
--             small inputs
-- RateLimit   internal/llm/ratelimit
--   Limiter, Window    the token buckets and the commands of Redis, as interfaces; Window also has
--             the script that Redis runs
--   Config, State, Local, Global, Cleanup, Middleware    validation.go, the state with its mutex,
--             local_limiter.go and fallback_limiter.go, global_limiter.go, `CleanupStale`, and the
--             handler of middleware.go
--   WindowLaws, Returns, Requests, Exhausted, Refused, Delays    the theorems, and Tests
-- Business    internal/llm/business
--   Pricing, Registry, Refresh, Drift    pricing.go: entries and costs, the registry and its
--             middleware, `Refresh`, and the drift between estimated and actual costs
--   Usage, Artifacts    usage.go: the checks of a reported usage; artifacts.go: the store in memory
--   Validation    validation.go: the validation and the repair of scores, and the checks of responses
--   PricingLaws, RefreshLaws, ValidationLaws    the theorems, and Tests
-- Cache       internal/llm/cache
--   Redis, Entry, Script, Middleware    the commands of Redis and JSON as interfaces; keys and
--             entries; the script with the reading of its reply; the handler
--   Leases, Hits    the theorems, and Tests
-- Domain      internal/domain
--   State     state.go: the immutable state of a workflow; StateLaws, its theorem
--   Score, Winner    score.go and aggregation.go: totals, the mean, and `DetermineWinner`;
--             WinnerLaws and Winners, its theorems
--   Judgement, Dimensions    score.go, artifact.go and aggregation.go: the making and the checks of a
--             score, its overall value, and the means of dimensions; DimensionLaws, their theorem
--   Verdict   verdict.go: the status and the review of an evaluation
--   Answer, Evaluation    answer.go, evaluation.go, budget.go and money.go: answers, the
--             configuration of an evaluation, and its limits
--   Tests     runs on small inputs
-- Providers   internal/llm/providers
--   Status    errors.go and the error parsers of the adapters
--   Router    router.go, the finish reasons and responses of the adapters, and the chain and the core
--             handler of internal/llm/transport/handler.go; Answers, its theorem, and Tests
-- Client      internal/llm
--   Generate  client_generate.go; Accounts, its theorem
--   Repairs, Validated, Score    client_score.go: the repair of texts, the making of a score, and
--             `Score`; Judged, which answers the scores are of; and Tests
-- Events      the events of the activities
--   Keys, Envelope    internal/domain/events.go: idempotency keys and the making of events
--   Emit      pkg/activity/base.go and pkg/events/envelope.go: the emission; and Tests
-- Generation  internal/generation
--   Keys, Store, Activity    activities.go and events.go: the keys of contents, the storing of a batch
--             with its cleanup, and the activity
--   Contents, Rounds, Batch, Cleanup    the theorems, and Tests
-- Scoring     internal/scoring
--   Policy, Batch    activities.go: where a reasoning is kept, and the scoring of a batch
--   Validator    validator.go: the validator that the client is given
--   Events    events.go and activities.go: the events and the activity
--   Rationale, Slots, Owners, Silence    the theorems, and Tests
-- Aggregation internal/aggregation/activities.go
--   Sorting, Values, Policy    the sort, the median and the means, the checks of scores and the
--             winner under a policy; Order, Shuffle and Means, their theorems, and Tests
--
-- State is passed explicitly. A method of a breaker runs with no other goroutine between its atomic
-- operations. A check of the rate limits is a step of a monad whose `none` is the end of the program;
-- other goroutines change the map of buckets between the two looks of its double-checked lock, and not
-- elsewhere. The clock, the random generators, Redis and the end of a context are arguments of each
-- step: `Readings` for a breaker and for a refresh of prices, `Round` for an attempt of the retry
-- middleware, `Moments` and `Encounter` for the checks of the rate limits, `Visit` for a request at
-- the cache; the last two also carry what other goroutines or processes do meanwhile. The loop of the
-- retry middleware recurs on the number of attempts left, which the code fixes before the loop;
-- digits are printed with the number itself as fuel, and a number has fewer digits than that.
--
-- The goroutines of a batch run one after the other, each as a whole, in an order that is an argument:
-- `Call` at the client, `Turn` and `ScoringTurn` in the activities, which also say whether the context
-- had ended. `Stamp` carries the fresh identifier and the clock.
--
-- Not modelled: logging and its counters, the texts of configuration errors, the connection to Redis,
-- the bodies of requests to the providers and HTTP, the client's configuration, the rest of the
-- aggregation activity with the verdict event, and Temporal. JSON, UUIDs, hashes, regular expressions
-- other than the one of the client's repairs, and the checks of struct tags are parameters; texts that
-- are trimmed, split or lowered are ASCII. `float64` values have no laws of their own: a theorem that
-- compares them states what it needs of `<` and `/`.
pub mod Prelude
pub mod Errors
pub mod Transport
pub mod Floats
pub mod Breaker
pub mod Retry
pub mod Domain
pub mod Aggregation
pub mod RateLimit
pub mod Business
pub mod Cache
pub mod Generation
pub mod Client
pub mod Scoring
pub mod Providers
pub mod Events
