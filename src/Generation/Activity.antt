-- ===== src/Generation/Activity.antt =====
-- internal/generation/activities.go and events.go: the activity that generates answers, and the events
-- that it emits. The client, the store, the sink, JSON and the checks of the input are parameters; so
-- are the order in which a map is visited, the clock, and the fresh identifiers of events.
use go_judgy.Prelude.{
  ℕ, suc, Bool, false, ◌||◌, Option, none, some, ◌⊎◌, inl, inr, List, [], ◌∷◌, ◌++◌, length, ltb,
  if◌then◌else◌,
}
use go_judgy.Prelude.Int.{ℤ, pos, ltb_ℤ}
use go_judgy.Prelude.Bytes.{Bytes, bytes, beq, is_empty_text, lookup, insert}
use go_judgy.Errors.Types.{Err}
use go_judgy.Floats.{Floats}
use go_judgy.Domain.Answer.{Answer, GenerateAnswersOutput}
use go_judgy.Transport.Payload.{build_canonical_payload_from_generate}
use go_judgy.Transport.Keys.{Codec, Result, hash_canonical_payload}
use go_judgy.Client.Generate.{GenerateAnswersInput}
use go_judgy.Scoring.Policy.{WorkflowContext}
use go_judgy.Scoring.Batch.{ActivityError, non_retryable, client_error}
use go_judgy.Events.Keys.{candidate_produced_key, llm_usage_key}
use go_judgy.Events.Emit.{Envelope, EventSink, emit_event_safe}
use go_judgy.Generation.Store.{ArtifactStore, Turn, store_answer_artifacts}

-- The members of a set that is built of the texts, an empty text left out.
unfoldable pub add_member : Bytes → List Bytes → List Bytes
add_member [] set = set
add_member (c ∷ cs) [] = (c ∷ cs) ∷ []
add_member (c ∷ cs) (m ∷ set) = if beq m (c ∷ cs) then m ∷ set else m ∷ add_member (c ∷ cs) set

unfoldable models_from : List Bytes → List Answer → List Bytes
unfolding add_member
models_from set [] = set
models_from set (a ∷ answers) = models_from (add_member a.model set) answers

unfoldable extract_provider_request_ids : List Answer → List Bytes
extract_provider_request_ids [] = []
extract_provider_request_ids (a ∷ answers) =
    a.provider_request_ids ++ extract_provider_request_ids answers

abbrev count_of : Option ℕ → ℕ
count_of none = 0
count_of (some n) = n

-- `providerCounts`.
unfoldable count_providers : List (Bytes × ℕ) → List Answer → List (Bytes × ℕ)
count_providers counts [] = counts
count_providers counts (a ∷ answers) =
    count_providers
      (if is_empty_text a.provider
        then counts
        else insert a.provider (suc (count_of (lookup a.provider counts))) counts)
      answers

-- The loop over the counts, in the order in which the map is visited.
unfoldable most_frequent : Bytes × ℕ → List (Bytes × ℕ) → Bytes
most_frequent (p, n) [] = p
most_frequent (p, n) ((q, m) ∷ counts) = most_frequent (if ltb n m then (q, m) else (p, n)) counts

unfoldable extract_artifact_refs : List Answer → List Bytes
extract_artifact_refs [] = []
extract_artifact_refs (a ∷ answers) =
    if is_empty_text a.content_ref.key
    then extract_artifact_refs answers
    else a.content_ref.key ∷ extract_artifact_refs answers

unfoldable is_likely_cache_hit : List Answer → Bool
is_likely_cache_hit [] = false
is_likely_cache_hit (a ∷ answers) = ltb_ℤ a.latency_millis (pos 100) || is_likely_cache_hit answers

-- `candidateProducedEvent` and `llmUsageEvent`; the answer's fields stand in the answer.
pub data GenerationEvent : Type 0 where
  candidate : Answer → ℕ → ℤ → GenerationEvent
  usage :
      GenerateAnswersOutput → List Bytes → List Bytes → Bytes → Bool → List Bytes → GenerationEvent

-- A moment of an emission: the fresh identifier, the clock, and whether the context ends in the wait.
pub record Moment : Type 0 where
  pub id : Bytes
  pub now : ℤ
  pub cancels : Bool

-- What the activity uses; `visit` and `visit_counts` are the orders of maps.
pub record Emitter (W : Type 0) : Type 0 where
  pub sink : Option (EventSink W)
  pub marshal : GenerationEvent → Result Bytes
  pub sha256_hex : Bytes → Bytes
  pub visit : List Bytes → List Bytes
  pub visit_counts : List (Bytes × ℕ) → List (Bytes × ℕ)

module _ {W : Type 0} (E : Emitter W) (moment : ℕ → Moment) (wf : WorkflowContext) where
  abbrev envelope_of : Bytes → Bytes → Bytes → Moment → Envelope
  envelope_of type key payload t = record {
    id = t.id;
    type = type;
    source = bytes "generation-activity";
    version = bytes "1.0.0";
    timestamp = t.now;
    idempotency_key = key;
    tenant_id = wf.tenant_id;
    workflow_id = wf.workflow_id;
    run_id = wf.run_id;
    payload = payload;
  }

  -- With an event that does not encode, nothing is emitted.
  abbrev send : Bytes → Bytes → Moment → Result Bytes → W → W
  send type key t (inl e) w = w
  send type key t (inr payload) w =
      (emit_event_safe E.sink t.cancels (envelope_of type key payload t) w).0

  unfoldable emit_candidate_produced : Answer → ℕ → Bytes → W → W
  unfolding candidate_produced_key
  emit_candidate_produced a index client_key w =
      let t = moment index in
      send (bytes "generation.candidate_produced")
        (candidate_produced_key E.sha256_hex client_key index) t
        (E.marshal (candidate a index t.now)) w

  unfoldable emit_candidates : List Answer → ℕ → Bytes → W → W
  unfolding emit_candidate_produced
  emit_candidates [] index client_key w = w
  emit_candidates (a ∷ answers) index client_key w =
      emit_candidates answers (suc index) client_key (emit_candidate_produced a index client_key w)

  unfoldable emit_llm_usage : GenerateAnswersOutput → W → W
  unfolding llm_usage_key models_from extract_provider_request_ids count_providers most_frequent
      extract_artifact_refs is_likely_cache_hit
  emit_llm_usage out w =
      let t = moment (length out.answers) in
      let provider = most_frequent ([], 0) (E.visit_counts (count_providers [] out.answers)) in
      send (bytes "generation.llm_usage") (llm_usage_key E.sha256_hex out.client_idem_key) t
        (E.marshal (
          usage out (E.visit (models_from [] out.answers))
            (extract_provider_request_ids out.answers) provider (is_likely_cache_hit out.answers)
            (extract_artifact_refs out.answers)))
        w

  unfoldable emit_generation_events : GenerateAnswersOutput → W → W
  unfolding emit_candidates emit_llm_usage
  emit_generation_events out w =
      if is_empty_text out.client_idem_key
      then w
      else emit_llm_usage out (emit_candidates out.answers 0 out.client_idem_key w)

module _ (F : Floats) {W : Type 0} (K : Codec F) (E : Emitter W) (store : ArtifactStore W) where
  pub record Generator : Type 0 where
    pub client : GenerateAnswersInput F → W → W × Result GenerateAnswersOutput
    pub check_input : GenerateAnswersInput F → Option Err

  abbrev unknown : Bytes
  unknown = bytes "unknown"

  -- Provider and model of the first answer.
  abbrev named_by : List Answer → Bytes × Bytes
  named_by [] = (unknown, unknown)
  named_by (a ∷ _) = (a.provider, a.model)

  -- The key of the output, or the one that is derived of the input. `BuildCanonicalPayloadFromGenerate`
  -- has no error, so that the last resort of the code is never taken.
  unfoldable client_key_of : GenerateAnswersInput F → Bytes → GenerateAnswersOutput → Bytes
  unfolding hash_canonical_payload build_canonical_payload_from_generate
  client_key_of input tenant_id out =
      if is_empty_text out.client_idem_key
      then (let (provider, model) = named_by out.answers in
          hash_canonical_payload F K (
            build_canonical_payload_from_generate F tenant_id input.question provider model []
              input.config.max_answer_tokens input.config.temperature))
      else out.client_idem_key

  abbrev finish :
      (ℕ → Moment)
      → WorkflowContext
      → Bytes
      → GenerateAnswersOutput
      → W × Result (List Answer)
      → W × (ActivityError ⊎ GenerateAnswersOutput)
  finish moment wf key out (w, inl e) = (
    w,
    inl (non_retryable (bytes "GenerateAnswers") (some e) (bytes "failed to store artifacts")),
  )
  finish moment wf key out (w, inr answers) =
      let result = record out { answers = answers; client_idem_key = key } in
      (emit_generation_events E moment wf result w, inr result)

  abbrev after_client :
      (ℕ → Moment)
      → WorkflowContext
      → List Turn
      → GenerateAnswersInput F
      → W × Result GenerateAnswersOutput
      → W × (ActivityError ⊎ GenerateAnswersOutput)
  after_client moment wf turns input (w, inl e) =
      (w, inl (client_error (bytes "GenerateAnswers") (bytes "generation failed") e))
  after_client moment wf turns input (w, inr out) =
      let key = client_key_of input wf.tenant_id out in
      finish moment wf key out (
        store_answer_artifacts E.sha256_hex store out.answers wf.workflow_id wf.tenant_id key turns
          w)

  -- `GenerateAnswers`.
  unfoldable pub generate_answers :
      Generator
      → (ℕ → Moment)
      → WorkflowContext
      → List Turn
      → GenerateAnswersInput F
      → W
      → W × (ActivityError ⊎ GenerateAnswersOutput)
  unfolding client_key_of store_answer_artifacts emit_generation_events
  generate_answers g moment wf turns input w = elim (g.check_input input) [
    | some e ↦ (w, inl (non_retryable (bytes "GenerateAnswers") (some e) (bytes "invalid input")))
    | none ↦ after_client moment wf turns input (g.client input w)
  ]
