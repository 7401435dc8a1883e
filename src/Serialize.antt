-- ===== src/Serialize.antt =====
-- server/serialize.ts: a message of the SDK as the browser shows it.
-- `J` is a value of JSON that is only passed on, `stringify` is JSON.stringify of it. Where the
-- source leaves a field out, it is none; text is a list of UTF-16 code units.
pub mod Cache
pub mod Resolve
pub mod Retry
pub mod Stable
pub mod Ids
pub mod Transcript
mod Tests
use dispatch_web.Base.{
  leb, ltb, ◌==◌, if◌then◌else◌, or_else, length, take, get_elem?, Text, codes, text_eq, ℕ, zero,
  suc, ◌+◌, ◌-◌, ◌/◌, ◌%◌, Bool, true, false, not, ◌&&◌, Option, none, some, List, [], ◌∷◌, ◌++◌,
  map, join,
}

pub record ImageSource : Type 0 where
  pub kind : Option Text
  pub data' : Option Text
  pub media_type : Option Text
  pub url : Option Text

-- A block that a user or an extension wrote: an image, or anything else with the text that it
-- may have.
pub data UserBlock : Type 0 where
  image : (data' mime_type : Option Text) (source : Option ImageSource) → UserBlock
  other : (text : Option Text) → UserBlock

pub data UserContent : Type 0 where
  plain : Text → UserContent
  blocks : List UserBlock → UserContent

pub data ResultBlock : Type 0 where
  result_text : Text → ResultBlock
  result_other : ResultBlock

module _ (J : Type 0) where
  -- A block of a kind that the source does not know is what it reads of it and its fields.
  pub data AssistantBlock : Type 0 where
    text_block : Text → AssistantBlock
    thinking_block : Text → AssistantBlock
    tool_call : (id name : Text) (arguments : Option J) → AssistantBlock
    unknown_block : (read : UserBlock) (fields : J) → AssistantBlock

  pub data UiContentBlock : Type 0 where
    text : (text : Text) (truncated : Option Bool) → UiContentBlock
    ui_image : (data_url mime_type : Option Text) → UiContentBlock
    thinking : Text → UiContentBlock
    ui_tool_call : (id name : Text) (arguments_text : Option (Text × Bool)) → UiContentBlock
    bash :
        (command output : Text) (exit_code : Option J) (cancelled truncated : Bool) → UiContentBlock
    unknown : J → UiContentBlock

  pub record AssistantMessage : Type 0 where
    pub content : List AssistantBlock
    pub timestamp : ℕ
    pub model : Option Text
    pub provider : Option Text
    pub stop_reason : Option Text
    pub error_message : Option Text

  pub record ToolResultMessage : Type 0 where
    pub tool_call_id : Text
    pub tool_name : Text
    pub content : List ResultBlock
    pub is_error : Bool
    pub timestamp : ℕ

  pub record BashMessage : Type 0 where
    pub command : Text
    pub output : Text
    pub exit_code : Option J
    pub cancelled : Bool
    pub timestamp : ℕ

  pub record CustomMessage : Type 0 where
    pub content : UserContent
    pub custom_type : Text
    pub display : Option Bool
    pub details : Option J
    pub timestamp : ℕ

  -- The roles of the SDK's messages, and one that the source does not know.
  pub data AgentMessage : Type 0 where
    system : (content : UserContent) (timestamp : ℕ) → AgentMessage
    user : (content : UserContent) (timestamp : ℕ) → AgentMessage
    assistant : AssistantMessage → AgentMessage
    tool_result : ToolResultMessage → AgentMessage
    bash_execution : BashMessage → AgentMessage
    custom : CustomMessage → AgentMessage
    branch_summary : (summary : Text) (timestamp : ℕ) → AgentMessage
    compaction_summary : (summary : Text) (timestamp : ℕ) (tokens_before : Option J) → AgentMessage
    other_role : (role : Option Text) (content : UserContent) (timestamp : Option ℕ) → AgentMessage

  pub record UiMessage : Type 0 where
    pub id : Text
    pub role : Text
    pub content : List UiContentBlock
    pub timestamp : Option ℕ
    pub model : Option Text
    pub provider : Option Text
    pub stop_reason : Option Text
    pub error_message : Option Text
    pub tool_call_id : Option Text
    pub tool_name : Option Text
    pub is_error : Option Bool
    pub custom_type : Option Text
    pub details : Option J
    pub tokens_before : Option J

abbrev pub text_cap : ℕ
text_cap = 200000

abbrev pub tool_output_cap : ℕ
tool_output_cap = 100000

abbrev pub args_cap : ℕ
args_cap = 20000

-- "\n\n… [truncated]": two line feeds, U+2026 and the word.
unfoldable pub truncated_mark : Text
truncated_mark = 10 ∷ 10 ∷ 8230 ∷ codes " [truncated]"

unfoldable pub truncate : Text → ℕ → Text × Bool
truncate s cap = if leb (length s) cap then (s, false) else (take cap s ++ truncated_mark, true)

-- `n.toString(base)`. A number has at most one digit more than it counts.
abbrev pub digit : ℕ → ℕ
digit d = if ltb d 10 then b'0' + d else b'a' + (d - 10)

abbrev pub digits : ℕ → ℕ → ℕ → Text
digits zero base n = []
digits (suc fuel) base n =
    if ltb n base then digit n ∷ [] else digits fuel base (n / base) ++ digit (n % base) ∷ []

unfoldable pub to_string : ℕ → ℕ → Text
to_string base n = digits (suc n) base n

abbrev pub decimal : ℕ → Text
decimal n = to_string 10 n

abbrev pub is_empty : Text → Bool
is_empty [] = true
is_empty (c ∷ s) = false

-- `data:${mime ?? "image/png"};base64,${data}`
unfoldable pub data_url : Option Text → Text → Text
data_url mime data' = codes "data:" ++ or_else mime (codes "image/png") ++ codes ";base64," ++ data'

unfoldable pub result_line : ResultBlock → Text
result_line (result_text t) = t
result_line result_other = codes "[image result]"

-- `${prefix}-${timestamp}-${seq}`
unfoldable pub stamped_id : Text → ℕ → ℕ → Text
stamped_id prefix timestamp seq = prefix ++ (b'-' ∷ (decimal timestamp ++ (b'-' ∷ decimal seq)))

-- `o === s` for a text that may be missing.
unfoldable pub says : Text → Option Text → Bool
says s none = false
says s (some t) = text_eq t s

module _ {J : Type 0} where
  unfoldable pub image_block : Option Text → Option Text → Option ImageSource → UiContentBlock J
  image_block (some (c ∷ data')) mime source = ui_image (some (data_url mime (c ∷ data'))) mime
  image_block data' mime none = ui_image none none
  image_block data' mime (some src) = elim src.data' [
    | none ↦ ui_image src.url none
    | some inner ↦
        if says (codes "base64") src.kind && not (is_empty inner)
        then ui_image (some (data_url src.media_type inner)) src.media_type
        else ui_image src.url none
  ]

  unfoldable pub user_block : UserBlock → UiContentBlock J
  user_block (image data' mime source) = image_block data' mime source
  user_block (other t) = text (or_else t []) none

  unfoldable pub serialize_user_content : UserContent → List (UiContentBlock J)
  serialize_user_content (plain t) = text t none ∷ []
  serialize_user_content (blocks bs) = map user_block bs

  unfoldable pub cut_text : Text → ℕ → UiContentBlock J
  cut_text t cap = let (cut, is_cut) = truncate t cap in text cut (some is_cut)

  -- An object with the fields that every message has.
  abbrev pub ui_message : Text → Text → List (UiContentBlock J) → Option ℕ → UiMessage J
  ui_message id role content timestamp = record {
    id = id;
    role = role;
    content = content;
    timestamp = timestamp;
    model = none;
    provider = none;
    stop_reason = none;
    error_message = none;
    tool_call_id = none;
    tool_name = none;
    is_error = none;
    custom_type = none;
    details = none;
    tokens_before = none;
  }

  abbrev pub timestamp_of : AgentMessage J → Option ℕ
  timestamp_of (system content timestamp) = some timestamp
  timestamp_of (user content timestamp) = some timestamp
  timestamp_of (assistant m) = some m.timestamp
  timestamp_of (tool_result m) = some m.timestamp
  timestamp_of (bash_execution m) = some m.timestamp
  timestamp_of (custom m) = some m.timestamp
  timestamp_of (branch_summary summary timestamp) = some timestamp
  timestamp_of (compaction_summary summary timestamp tokens_before) = some timestamp
  timestamp_of (other_role role content timestamp) = timestamp

module _ {J : Type 0} (stringify : J → Text) where
  unfoldable pub assistant_block : AssistantBlock J → UiContentBlock J
  assistant_block (text_block t) = cut_text t text_cap
  assistant_block (thinking_block t) = thinking t
  assistant_block (tool_call id name none) = ui_tool_call id name none
  assistant_block (tool_call id name (some arguments)) =
      ui_tool_call id name (some (truncate (stringify arguments) args_cap))
  assistant_block (unknown_block read fields) = unknown fields

  unfoldable pub serialize_message : AgentMessage J → ℕ → Option (UiMessage J)
  serialize_message (system content timestamp) seq = none
  serialize_message (user content timestamp) seq = some (
      ui_message (stamped_id (codes "u") timestamp seq) (codes "user")
        (serialize_user_content content) (some timestamp))
  serialize_message (assistant m) seq =
      some
        (record (ui_message (stamped_id (codes "a") m.timestamp seq) (codes "assistant")
          (map assistant_block m.content) (some m.timestamp)) {
            model = m.model;
            provider = m.provider;
            stop_reason = m.stop_reason;
            error_message = m.error_message;
          })
  serialize_message (tool_result m) seq =
      some
        (record (ui_message (codes "t-" ++ m.tool_call_id) (codes "toolResult")
          (cut_text (join (codes "\n") (map result_line m.content)) tool_output_cap ∷ [])
          (some m.timestamp)) {
            tool_call_id = some m.tool_call_id;
            tool_name = some m.tool_name;
            is_error = some m.is_error;
          })
  serialize_message (bash_execution m) seq =
      let (output, is_cut) = truncate m.output tool_output_cap in
      some (
        ui_message (stamped_id (codes "b") m.timestamp seq) (codes "bashExecution")
          (bash m.command output m.exit_code m.cancelled is_cut ∷ []) (some m.timestamp))
  serialize_message (custom m) seq =
      if not (or_else m.display true)
      then none
      else some
          (record (ui_message (stamped_id (codes "c") m.timestamp seq) (codes "custom")
            (serialize_user_content m.content) (some m.timestamp)) {
              custom_type = some m.custom_type;
              details = m.details;
            })
  serialize_message (branch_summary summary timestamp) seq = some (
      ui_message (stamped_id (codes "bs") timestamp seq) (codes "branchSummary")
        (cut_text summary text_cap ∷ []) (some timestamp))
  serialize_message (compaction_summary summary timestamp tokens_before) seq =
      some
        (record (ui_message (stamped_id (codes "cs") timestamp seq) (codes "compactionSummary")
          (cut_text summary text_cap ∷ []) (some timestamp)) { tokens_before = tokens_before })
  serialize_message (other_role role content timestamp) seq =
      some (ui_message (codes "x-" ++ decimal seq) (or_else role (codes "unknown")) [] timestamp)

  unfoldable pub serialize_streaming_message : AgentMessage J → Option (UiMessage J)
  serialize_streaming_message m = elim (serialize_message m 0) [
    | none ↦ none
    | some msg ↦ some (record msg { id = codes "stream-" ++ decimal (or_else (timestamp_of m) 0) })
  ]

-- `m.role === "assistant" && m.stopReason === "error"`
unfoldable pub is_failed : {J : Type 0} → UiMessage J → Bool
is_failed m = text_eq m.role (codes "assistant") && says (codes "error") m.stop_reason

-- The loop that moves `end` down over the failed messages before it.
unfoldable pub strip_end : {J : Type 0} → List (UiMessage J) → ℕ → ℕ
strip_end messages zero = zero
strip_end messages (suc end') = elim (get_elem? messages end') [
  | none ↦ suc end'
  | some m ↦ let lower = strip_end messages end' in if is_failed m then lower else suc end'
]

unfoldable pub strip_transient_retry_errors :
    {J : Type 0} → List (UiMessage J) → Bool → List (UiMessage J)
unfolding strip_end
strip_transient_retry_errors messages retry_active =
    if not retry_active
    then messages
    else (let end' = strip_end messages (length messages) in
        if end' == length messages then messages else take end' messages)
