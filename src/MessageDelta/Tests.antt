-- ===== src/MessageDelta/Tests.antt =====
-- Runs of web/src/message-delta.ts on small inputs.
use dispatch_web.Base.{
  nat_eq, string_eq, Text, codes, text_is_eq, ℕ, ◌≡◌, refl, inl, inr, false, Option, none, some, [],
  ◌∷◌,
}
use dispatch_web.MessageDelta.{
  thinking, Tokens, MessageDeltaUiState, MessageDeltaMsg, text_delta, apply_all,
}
use dispatch_web.MessageDelta.Streaming.{showing, apply_all-showing}

abbrev tokens : Tokens
tokens = record { input = 0; output = 0; total = 0; cache_read = 0; cache_write = 0 }

abbrev ui : MessageDeltaUiState
ui = record {
  streaming_message = showing "m" (thinking (codes "hm") ∷ []) false (codes "He");
  tokens = tokens;
}

abbrev delta_of : Option ℕ → Text → MessageDeltaMsg
delta_of index d = record {
  message_id = "m";
  usage = none;
  event_type = text_delta;
  content_index = index;
  delta = some d;
}

apply_all-showing_example :
    (apply_all ui
      (delta_of none (codes "ll") ∷ delta_of (some 1) (codes "o") ∷ [])).streaming_message
    ≡ showing "m" (thinking (codes "hm") ∷ []) false (codes "Hello")
apply_all-showing_example =
    apply_all-showing "m" (thinking (codes "hm") ∷ []) false (codes "He") ui
      (delta_of none (codes "ll") ∷ delta_of (some 1) (codes "o") ∷ [])
      ((refl, refl, inl refl), ((refl, refl, inr refl), tt)) refl
