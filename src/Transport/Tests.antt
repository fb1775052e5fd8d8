-- ===== src/Transport/Tests.antt =====
-- internal/llm/transport: runs on small inputs, and each theorem at an input that meets its hypotheses.
use go_judgy.Prelude.{◌≡◌, refl, inr, none, List, [], ◌∷◌, ◌++◌}
use mathlib.Core.List.{Permᴰ}
use go_judgy.Prelude.Int.{pos}
use go_judgy.Prelude.Bytes.{Bytes, bytes}
use go_judgy.Floats.Whole.{whole}
use go_judgy.Domain.Score.{Answer}
use go_judgy.Transport.{OperationType, op_scoring, Request}
use go_judgy.Transport.Words.{is_space, fields, fields_from, normalize_text}
use go_judgy.Transport.WordsLaws.{normalize_text-words}
use go_judgy.Transport.Payload.{CanonicalMessage}
use go_judgy.Transport.Keys.{Json, primitive, Codec, generate_idem_key}
use go_judgy.Transport.PayloadLaws.{generate_idem_key-same}

abbrev spaced : Bytes
spaced = bytes " Is  it" ++ (13 ∷ 10 ∷ bytes "so? ")

normalize_spaced : fields spaced ≡ bytes "Is" ∷ bytes "it" ∷ bytes "so?" ∷ []
unfolding fields fields_from is_space
normalize_spaced = refl

normalize_text-words_example :
    (fields (normalize_text spaced) ≡ fields spaced)
    × (normalize_text (normalize_text spaced) ≡ normalize_text spaced)
normalize_text-words_example = normalize_text-words spaced

abbrev question_request : OperationType → Bytes → Request
question_request op question = record {
  operation = op;
  provider = bytes "openai";
  model = bytes "gpt-4";
  tenant_id = bytes "t";
  question = question;
  max_tokens = pos 10;
  seed = none;
  system_prompt = [];
  timeout = pos 0;
  idempotency_key = [];
  trace_id = [];
  metadata = [];
}

abbrev answer : Bytes → Answer
answer id = record { id = id }

-- A JSON of the texts only, and no hash.
abbrev contents : List CanonicalMessage → Bytes
contents [] = []
contents (m ∷ ms) = m.content ++ contents ms

abbrev plain_text : Json → Bytes
plain_text (primitive t) = t
plain_text _ = []

abbrev plain_codec : Codec whole
plain_codec = record {
  marshal_payload = λ p. inr (p.model ++ (p.system ++ contents p.messages));
  unmarshal = λ t. inr (primitive t);
  marshal = λ j. inr (plain_text j);
  sha256_hex = λ t. t;
}

generate_idem_key-same_example :
    generate_idem_key whole plain_codec (record {
      request = question_request op_scoring spaced;
      answers = answer (bytes "a") ∷ answer (bytes "b") ∷ [];
      temperature = 0;
    })
    ≡ generate_idem_key whole plain_codec (record {
      request = question_request op_scoring (bytes "Is it so?");
      answers = answer (bytes "b") ∷ answer (bytes "a") ∷ [];
      temperature = 0;
    })
unfolding fields fields_from is_space
generate_idem_key-same_example =
    generate_idem_key-same whole plain_codec (question_request op_scoring spaced)
      (question_request op_scoring (bytes "Is it so?"))
      (answer (bytes "a") ∷ answer (bytes "b") ∷ []) (answer (bytes "b") ∷ answer (bytes "a") ∷ [])
      0 refl refl refl refl refl refl refl refl refl (Permᴰ.swap refl refl)
