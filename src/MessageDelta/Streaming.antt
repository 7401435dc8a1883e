-- ===== src/MessageDelta/Streaming.antt =====
-- Deltas of one block add up to its text.
use dispatch_web.Base.{
  if◌then◌else◌, Bool-cases, or_else, length, All, length-append, nat_eq, string_eq, Text, text_eq,
  text_eq_iff, text_is_eq, ℕ, ◌-◌, String, ◌≡◌, refl, sym, ap, ◌∙◌, ◌⊎◌, inl, inr, Bool, true,
  false, Option, none, some, List, [], ◌∷◌, ◌++◌, arith, str_eq, eq_iff,
}
use mathlib.Core.List.{append-nil, append_assoc}
use dispatch_web.MessageDelta.{
  DeltaContentBlock, StreamingMessage, MessageDeltaUiState, MessageDeltaMsg, EventType, text_delta,
  thinking_delta, new_block, extend_at, apply_delta, apply_text, apply_message_delta, apply_all,
}

abbrev pub event_of : Bool → EventType
event_of is_thinking = if is_thinking then thinking_delta else text_delta

-- The deltas of one block: of one message and one type, with the index of the block or none.
abbrev pub IsOfBlock : String → Bool → ℕ → MessageDeltaMsg → Type 0
IsOfBlock id is_thinking index msg =
    (msg.message_id ≡ id)
    × (msg.event_type ≡ event_of is_thinking)
    × ((msg.content_index ≡ none) ⊎ (msg.content_index ≡ some index))

abbrev pub streamed : List MessageDeltaMsg → Text
streamed [] = []
streamed (msg ∷ msgs) = or_else msg.delta [] ++ streamed msgs

extend_at-last :
    (k : Bool) (d s : Text) (bs : List DeltaContentBlock)
    → extend_at k d (length bs) (bs ++ new_block k s ∷ []) ≡ some (bs ++ new_block k (s ++ d) ∷ [])
unfolding extend_at
extend_at-last true d s [] = refl
extend_at-last false d s [] = refl
extend_at-last k d s (b ∷ bs) = rw (extend_at-last k d s bs) refl

apply_delta-last :
    (k : Bool) (d s : Text) (index : Option ℕ) (bs : List DeltaContentBlock)
    → (index ≡ none) ⊎ (index ≡ some (length bs))
    → apply_delta k d index (bs ++ new_block k s ∷ []) ≡ bs ++ new_block k (s ++ d) ∷ []
unfolding apply_delta
apply_delta-last k d s index bs (inl h) =
    let n : length (bs ++ new_block k s ∷ []) - 1 ≡ length bs =
      omega (arith, length-append bs (new_block k s ∷ [])) in
    rw (h, n, extend_at-last k d s bs) refl
apply_delta-last k d s index bs (inr h) = rw (h, extend_at-last k d s bs) refl

-- What a state shows: the message `id`, whose last block holds `s`.
abbrev pub showing : String → List DeltaContentBlock → Bool → Text → Option StreamingMessage
showing id bs k s = some (record { id = id; content = bs ++ new_block k s ∷ [] })

apply_text-last :
    (id : String) (bs : List DeltaContentBlock) (k : Bool) (s : Text) (ui : MessageDeltaUiState)
    (msg : MessageDeltaMsg)
    → IsOfBlock id k (length bs) msg
    → ui.streaming_message ≡ showing id bs k s
    → (apply_text k ui msg).streaming_message ≡ showing id bs k (s ++ or_else msg.delta [])
apply_text-last id bs k s ui msg (m, e, i) h =
    elim (Bool-cases (text_eq (or_else msg.delta []) [])) [
      | inl z ↦
          let empty = (text_eq_iff (or_else msg.delta []) []).0 z in
          rw z (h ∙ ap (showing id bs k) (sym (append-nil s) ∙ ap (λ t. s ++ t) (sym empty)))
      | inr z ↦
          let same : str_eq id id ≡ true = ground (arith, eq_iff id id) in
          rw (z, m, h, same, apply_delta-last k (or_else msg.delta []) s msg.content_index bs i)
            refl
    ]

apply_message_delta-last :
    (id : String) (bs : List DeltaContentBlock) (k : Bool) (s : Text) (ui : MessageDeltaUiState)
    (msg : MessageDeltaMsg)
    → IsOfBlock id k (length bs) msg
    → ui.streaming_message ≡ showing id bs k s
    → (apply_message_delta ui msg).streaming_message ≡ showing id bs k (s ++ or_else msg.delta [])
unfolding apply_message_delta
apply_message_delta-last id bs true s ui msg (m, e, i) h =
    rw (apply_message_delta, e) (apply_text-last id bs true s ui msg (m, e, i) h)
apply_message_delta-last id bs false s ui msg (m, e, i) h =
    rw (apply_message_delta, e) (apply_text-last id bs false s ui msg (m, e, i) h)

-- No streamed text is lost, doubled or put elsewhere: after any deltas of the last block of the
-- streaming message, each with the index of that block or without an index, the block holds its
-- text followed by all deltas in order, and the blocks before it are unchanged.
pub apply_all-showing :
    (id : String) (bs : List DeltaContentBlock) (k : Bool) (s : Text) (ui : MessageDeltaUiState)
    (msgs : List MessageDeltaMsg)
    → All (IsOfBlock id k (length bs)) msgs
    → ui.streaming_message ≡ showing id bs k s
    → (apply_all ui msgs).streaming_message ≡ showing id bs k (s ++ streamed msgs)
unfolding apply_all
apply_all-showing id bs k s ui [] a h = h ∙ ap (showing id bs k) (sym (append-nil s))
apply_all-showing id bs k s ui (msg ∷ msgs) a h =
    apply_all-showing id bs k (s ++ or_else msg.delta []) (apply_message_delta ui msg) msgs a.1
      (apply_message_delta-last id bs k s ui msg a.0 h)
    ∙ ap (showing id bs k) (append_assoc s (or_else msg.delta []) (streamed msgs))
