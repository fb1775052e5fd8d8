-- ===== src/Events/Tests.antt =====
-- The events: each theorem at an input that meets its hypotheses.
use go_judgy.Prelude.{◌≡◌, refl}
use go_judgy.Prelude.Bytes.{bytes}
use go_judgy.Events.Keys.{EventName, key_of-injective}

key_of-injective_example : EventName.candidate_produced 12 ≡ EventName.candidate_produced 12
key_of-injective_example =
    key_of-injective (λ t. t) (bytes "k") (EventName.candidate_produced 12)
      (EventName.candidate_produced 12) (λ s t same. same) refl
