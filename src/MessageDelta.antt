-- ===== src/MessageDelta.antt =====
-- web/src/message-delta.ts: the text that streams in between two snapshots.
-- The token counts are a function from the name of a count, with none for an absent one.
pub mod Streaming
mod Tests
use dispatch_web.Base.{
  if◌then◌else◌, or_else, length, nat_eq, string_eq, Text, text_eq, text_is_eq, ℕ, zero, suc, ◌-◌,
  String, Bool, true, false, Option, none, some, List, [], ◌∷◌, ◌++◌, map, str_eq,
}
use Prim.Native.Nat.{zero}
use mathlib.Core.Option

pub data DeltaContentBlock : Type 0 where
  text : Text → DeltaContentBlock
  thinking : Text → DeltaContentBlock
  -- A block of another type, which the deltas leave alone.
  other : String → DeltaContentBlock

pub record StreamingMessage : Type 0 where
  pub id : String
  pub content : List DeltaContentBlock

pub record Tokens : Type 0 where
  pub input : ℕ
  pub output : ℕ
  pub total : ℕ
  -- Counts that a delta does not carry.
  pub cache_read : ℕ
  pub cache_write : ℕ

pub record Usage : Type 0 where
  pub input : ℕ
  pub output : ℕ
  pub total : ℕ

pub record MessageDeltaUiState : Type 0 where
  pub streaming_message : Option StreamingMessage
  pub tokens : Tokens

pub data EventType : Type 0 where
  text_delta : EventType
  thinking_delta : EventType
  other_event : EventType

pub record MessageDeltaMsg : Type 0 where
  pub message_id : String
  pub usage : Option Usage
  pub event_type : EventType
  pub content_index : Option ℕ
  pub delta : Option Text

unfoldable pub merge_usage : Tokens → Option Usage → Tokens
merge_usage tokens none = tokens
merge_usage tokens (some usage) = record tokens {
  input = usage.input;
  output = usage.output;
  total = usage.total;
}

abbrev pub new_block : Bool → Text → DeltaContentBlock
new_block is_thinking delta = if is_thinking then thinking delta else text delta

-- The block extended by the delta; none when it is of another type.
abbrev pub extend_block : Bool → Text → DeltaContentBlock → Option DeltaContentBlock
extend_block is_thinking delta (text old) = if is_thinking then none else some (text (old ++ delta))
extend_block is_thinking delta (thinking old) =
    if is_thinking then some (thinking (old ++ delta)) else none
extend_block is_thinking delta (other kind) = none

-- `content[idx]` extended; none when there is no block of the type at the index.
unfoldable pub extend_at :
    Bool → Text → ℕ → List DeltaContentBlock → Option (List DeltaContentBlock)
extend_at is_thinking delta idx [] = none
extend_at is_thinking delta zero (b ∷ content) =
    Option.map (λ b'. b' ∷ content) (extend_block is_thinking delta b)
extend_at is_thinking delta (suc idx) (b ∷ content) =
    Option.map (λ content'. b ∷ content') (extend_at is_thinking delta idx content)

-- The index is `content.length - 1` by default, which is no index for an empty array.
unfoldable pub apply_delta :
    Bool → Text → Option ℕ → List DeltaContentBlock → List DeltaContentBlock
apply_delta is_thinking delta content_index content =
    or_else (extend_at is_thinking delta (or_else content_index (length content - 1)) content)
      (content ++ new_block is_thinking delta ∷ [])

abbrev pub base_of : Option StreamingMessage → String → StreamingMessage
base_of none id = record { id = id; content = [] }
base_of (some prev) id = if str_eq prev.id id then prev else record { id = id; content = [] }

abbrev pub apply_text : Bool → MessageDeltaUiState → MessageDeltaMsg → MessageDeltaUiState
apply_text is_thinking ui msg =
    let tokens = merge_usage ui.tokens msg.usage in
    let delta_text = or_else msg.delta [] in
    if text_eq delta_text [] then record ui { tokens = tokens } else record {
      tokens = tokens;
      streaming_message = some (record {
        id = msg.message_id;
        content =
            apply_delta is_thinking delta_text msg.content_index
              (base_of ui.streaming_message msg.message_id).content;
      });
    }

unfoldable pub apply_message_delta : MessageDeltaUiState → MessageDeltaMsg → MessageDeltaUiState
apply_message_delta ui msg = elim msg.event_type [
  | other_event ↦ record ui { tokens = merge_usage ui.tokens msg.usage }
  | text_delta ↦ apply_text false ui msg
  | thinking_delta ↦ apply_text true ui msg
]

unfoldable pub apply_all : MessageDeltaUiState → List MessageDeltaMsg → MessageDeltaUiState
apply_all ui [] = ui
apply_all ui (msg ∷ msgs) = apply_all (apply_message_delta ui msg) msgs
