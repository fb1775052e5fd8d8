-- ===== src/Events/Keys.antt =====
-- internal/domain/events.go: the idempotency keys of events. SHA-256 is a parameter.
use go_judgy.Prelude.{ℕ, zero, suc, false, ◌==◌, [], ◌∷◌, ◌++◌, ◌≡◌, refl, ap, arith}
use go_judgy.Prelude.Int.{pos}
use go_judgy.Prelude.Bytes.{Bytes, bytes}
use go_judgy.Errors.Text.{show_int}
use go_judgy.Errors.Digits.{show_int-injective}

module _ (sha256_hex : Bytes → Bytes) where
  unfoldable generate_idempotency_key : Bytes → Bytes → Bytes
  generate_idempotency_key client_key suffix = sha256_hex (client_key ++ suffix)

  unfoldable pub candidate_produced_key : Bytes → ℕ → Bytes
  unfolding generate_idempotency_key
  candidate_produced_key client_key index =
      generate_idempotency_key client_key (bytes ":cand:" ++ show_int (pos index))

  unfoldable pub llm_usage_key : Bytes → Bytes
  unfolding generate_idempotency_key
  llm_usage_key client_key = generate_idempotency_key client_key (bytes ":generate:1")

  unfoldable pub answer_scored_key : Bytes → ℕ → Bytes
  unfolding generate_idempotency_key
  answer_scored_key client_key index =
      generate_idempotency_key client_key (bytes ":score:" ++ show_int (pos index))

  unfoldable pub scoring_usage_key : Bytes → Bytes
  unfolding generate_idempotency_key
  scoring_usage_key client_key = generate_idempotency_key client_key (bytes ":scoring:1")

  unfoldable pub verdict_reached_key : Bytes → Bytes
  unfolding generate_idempotency_key
  verdict_reached_key client_key = generate_idempotency_key client_key (bytes ":verdict:1")

-- The events of one client key.
pub data EventName : Type 0 where
  candidate_produced answer_scored : ℕ → EventName
  llm_usage scoring_usage verdict_reached : EventName

module _ (sha256_hex : Bytes → Bytes) where
  abbrev key_of : Bytes → EventName → Bytes
  key_of k (candidate_produced i) = candidate_produced_key sha256_hex k i
  key_of k (answer_scored i) = answer_scored_key sha256_hex k i
  key_of k llm_usage = llm_usage_key sha256_hex k
  key_of k scoring_usage = scoring_usage_key sha256_hex k
  key_of k verdict_reached = verdict_reached_key sha256_hex k

-- What follows the client key in the text that is hashed.
abbrev suffix_of : EventName → Bytes
suffix_of (candidate_produced i) = bytes ":cand:" ++ show_int (pos i)
suffix_of (answer_scored i) = bytes ":score:" ++ show_int (pos i)
suffix_of llm_usage = bytes ":generate:1"
suffix_of scoring_usage = bytes ":scoring:1"
suffix_of verdict_reached = bytes ":verdict:1"

append-cancel : (k s t : Bytes) → k ++ s ≡ k ++ t → s ≡ t
append-cancel [] s t h = h
append-cancel (c ∷ k) s t h = append-cancel k s t (cc)

abbrev byte_at : ℕ → Bytes → ℕ
byte_at n [] = 0
byte_at zero (c ∷ cs) = c
byte_at (suc n) (c ∷ cs) = byte_at n cs

-- Texts with different bytes at a place are different.
differ : {A : Type 0} {s t : Bytes} (n : ℕ) → s ≡ t → (byte_at n s == byte_at n t) ≡ false → A
differ {s} {t} n h e =
    let same : byte_at n s ≡ byte_at n t = ap (byte_at n) h in absurd (ground arith)

suffix_of-injective : (a b : EventName) → suffix_of a ≡ suffix_of b → a ≡ b
suffix_of-injective (candidate_produced i) (candidate_produced j) h =
    ap candidate_produced (show_int-injective i j (append-cancel (bytes ":cand:") _ _ h))
suffix_of-injective (candidate_produced i) (answer_scored j) h = differ 1 h refl
suffix_of-injective (candidate_produced i) llm_usage h = differ 1 h refl
suffix_of-injective (candidate_produced i) scoring_usage h = differ 1 h refl
suffix_of-injective (candidate_produced i) verdict_reached h = differ 1 h refl
suffix_of-injective (answer_scored i) (candidate_produced j) h = differ 1 h refl
suffix_of-injective (answer_scored i) (answer_scored j) h =
    ap answer_scored (show_int-injective i j (append-cancel (bytes ":score:") _ _ h))
suffix_of-injective (answer_scored i) llm_usage h = differ 1 h refl
suffix_of-injective (answer_scored i) scoring_usage h = differ 5 h refl
suffix_of-injective (answer_scored i) verdict_reached h = differ 1 h refl
suffix_of-injective llm_usage (candidate_produced j) h = differ 1 h refl
suffix_of-injective llm_usage (answer_scored j) h = differ 1 h refl
suffix_of-injective llm_usage llm_usage h = refl
suffix_of-injective llm_usage scoring_usage h = differ 1 h refl
suffix_of-injective llm_usage verdict_reached h = differ 1 h refl
suffix_of-injective scoring_usage (candidate_produced j) h = differ 1 h refl
suffix_of-injective scoring_usage (answer_scored j) h = differ 5 h refl
suffix_of-injective scoring_usage llm_usage h = differ 1 h refl
suffix_of-injective scoring_usage scoring_usage h = refl
suffix_of-injective scoring_usage verdict_reached h = differ 1 h refl
suffix_of-injective verdict_reached (candidate_produced j) h = differ 1 h refl
suffix_of-injective verdict_reached (answer_scored j) h = differ 1 h refl
suffix_of-injective verdict_reached llm_usage h = differ 1 h refl
suffix_of-injective verdict_reached scoring_usage h = differ 1 h refl
suffix_of-injective verdict_reached verdict_reached h = refl

key_of_lem :
    (sha256_hex : Bytes → Bytes) (k : Bytes) (a : EventName)
    → key_of sha256_hex k a ≡ sha256_hex (k ++ suffix_of a)
unfolding candidate_produced_key answer_scored_key llm_usage_key scoring_usage_key
    verdict_reached_key
key_of_lem sha256_hex k (candidate_produced i) = refl
key_of_lem sha256_hex k (answer_scored i) = refl
key_of_lem sha256_hex k llm_usage = refl
key_of_lem sha256_hex k scoring_usage = refl
key_of_lem sha256_hex k verdict_reached = refl

-- When the hash has no collision, the events of one client key have keys of their own: events with one
-- key are of the same kind and of the same index.
pub key_of-injective :
    (sha256_hex : Bytes → Bytes) (k : Bytes) (a b : EventName)
    → ((s t : Bytes) → sha256_hex s ≡ sha256_hex t → s ≡ t)
    → key_of sha256_hex k a ≡ key_of sha256_hex k b
    → a ≡ b
key_of-injective sha256_hex k a b no_collision h = suffix_of-injective a b (
    append-cancel k (suffix_of a) (suffix_of b) (
      no_collision (k ++ suffix_of a) (k ++ suffix_of b)
        (cc (key_of_lem sha256_hex k a, key_of_lem sha256_hex k b, h))))
