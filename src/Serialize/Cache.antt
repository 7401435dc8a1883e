-- ===== src/Serialize/Cache.antt =====
-- server/session-preview.ts: the serialisation of a conversation's messages, with their numbers
-- and the objects made before.
use dispatch_web.Base.{
  or_else, length, take, drop, nat_eq, string_eq, lookup, insert, Text, codes, text_is_eq, ℕ, ◌+◌,
  ◌-◌, ◌*◌, ◌%◌, false, Option, none, some, List, [], ◌∷◌, ◌++◌, map,
}
use dispatch_web.Serialize.{
  AgentMessage, UiMessage, UserBlock, UserContent, AssistantBlock, image, other, plain, blocks,
  text_block, thinking_block, tool_call, unknown_block, system, user, assistant, tool_result,
  bash_execution, custom, branch_summary, compaction_summary, other_role, serialize_message,
  decimal, to_string, timestamp_of, strip_transient_retry_errors,
}

abbrev pub ui_message_cache_cap : ℕ
ui_message_cache_cap = 4096

pub record SerializeCache (J : Type 0) : Type 0 where
  pub msg_ids : List (Text × ℕ)
  pub next_msg_id : ℕ
  pub user_seq_by_ts : List (ℕ × ℕ)
  pub ui_message_cache : List (Text × UiMessage J)

abbrev pub new_serialize_cache : {J : Type 0} → SerializeCache J
new_serialize_cache = record {
  msg_ids = [];
  next_msg_id = 1;
  user_seq_by_ts = [];
  ui_message_cache = [];
}

-- `((h << 5) + h + c) >>> 0`: the shift and the conversion keep the value modulo 2^32.
unfoldable pub djb2 : ℕ → Text → ℕ
djb2 h [] = h
djb2 h (c ∷ s) = djb2 ((h * 32 + h + c) % 4294967296) s

unfoldable pub block_fingerprint : UserBlock → Text
block_fingerprint (image data' mime source) = codes "img:" ++ decimal (length (or_else data' []))
block_fingerprint (other t) =
    let text = or_else t [] in
    codes "txt:" ++ to_string 36 (djb2 5381 (take 512 text)) ++ codes ":" ++ decimal (length text)

unfoldable pub user_fingerprint : UserContent → Text
user_fingerprint (plain t) = codes "empty"
user_fingerprint (blocks []) = codes "empty"
user_fingerprint (blocks (first ∷ rest)) = block_fingerprint first

unfoldable pub printed_time : Option ℕ → Text
printed_time none = codes "undefined"
printed_time (some n) = decimal n

unfoldable pub cache_key_of : Text → ℕ → Text
cache_key_of key n = key ++ codes "#" ++ decimal n

module _ {J : Type 0} where
  -- A block of an assistant as the fingerprint reads it: only some have a text.
  unfoldable pub read_block : AssistantBlock J → UserBlock
  read_block (text_block t) = other (some t)
  read_block (thinking_block t) = other none
  read_block (tool_call id name arguments) = other none
  read_block (unknown_block read fields) = read

  -- Messages without a list of blocks have no more than the word.
  unfoldable pub content_fingerprint : AgentMessage J → Text
  content_fingerprint (system content timestamp) = user_fingerprint content
  content_fingerprint (user content timestamp) = user_fingerprint content
  content_fingerprint (assistant m) = user_fingerprint (blocks (map read_block m.content))
  content_fingerprint (custom m) = user_fingerprint m.content
  content_fingerprint (other_role role content timestamp) = user_fingerprint content
  content_fingerprint (tool_result m) = codes "empty"
  content_fingerprint (bash_execution m) = codes "empty"
  content_fingerprint (branch_summary summary timestamp) = codes "empty"
  content_fingerprint (compaction_summary summary timestamp tokens_before) = codes "empty"

  unfoldable pub role_of : AgentMessage J → Text
  role_of (system content timestamp) = codes "system"
  role_of (user content timestamp) = codes "user"
  role_of (assistant m) = codes "assistant"
  role_of (tool_result m) = codes "toolResult"
  role_of (bash_execution m) = codes "bashExecution"
  role_of (custom m) = codes "custom"
  role_of (branch_summary summary timestamp) = codes "branchSummary"
  role_of (compaction_summary summary timestamp tokens_before) = codes "compactionSummary"
  role_of (other_role role content timestamp) = or_else role (codes "undefined")

  unfoldable pub stamped_key : AgentMessage J → Text
  stamped_key m =
      role_of m ++ codes ":" ++ printed_time (timestamp_of m) ++ codes ":" ++ content_fingerprint m

  unfoldable pub key_of : AgentMessage J → Text
  key_of (tool_result m) = codes "t:" ++ m.tool_call_id
  key_of m = stamped_key m

  unfoldable pub number_of : Text → SerializeCache J → ℕ × SerializeCache J
  number_of key cache = elim (lookup key cache.msg_ids) [
    | some n ↦ (n, cache)
    | none ↦
        let n = cache.next_msg_id in
        (n, record cache { next_msg_id = n + 1; msg_ids = insert key n cache.msg_ids })
  ]

  -- The suffix of the id, which for the user's messages counts those of one timestamp.
  unfoldable pub sequence_of : AgentMessage J → ℕ → SerializeCache J → ℕ × SerializeCache J
  sequence_of (user content ts) n cache =
      let seq = or_else (lookup ts cache.user_seq_by_ts) 0 + 1 in
      (seq, record cache { user_seq_by_ts = insert ts seq cache.user_seq_by_ts })
  sequence_of m n cache = (n, cache)

  -- The entries are in order of insertion, so the first ones are the oldest.
  unfoldable pub store : Text → UiMessage J → SerializeCache J → SerializeCache J
  store cache_key msg cache =
      let stored = insert cache_key msg cache.ui_message_cache in
      record cache { ui_message_cache = drop (length stored - ui_message_cache_cap) stored }

module _ {J : Type 0} (stringify : J → Text) where
  unfoldable pub serialize_new :
      AgentMessage J → ℕ → Text → SerializeCache J → Option (UiMessage J) × SerializeCache J
  serialize_new m n cache_key cache =
      let (seq, counted) = sequence_of m n cache in
      elim (serialize_message stringify m seq) [
        | none ↦ (none, counted)
        | some msg ↦ (some msg, store cache_key msg counted)
      ]

  unfoldable pub serialize_cached_into :
      AgentMessage J → SerializeCache J → Option (UiMessage J) × SerializeCache J
  unfolding serialize_new
  serialize_cached_into m cache =
      let key = key_of m in
      let (n, numbered) = number_of key cache in
      let cache_key = cache_key_of key n in
      elim (lookup cache_key numbered.ui_message_cache) [
        | some cached ↦ (some cached, numbered)
        | none ↦ serialize_new m n cache_key numbered
      ]

  unfoldable pub serialize_all :
      List (AgentMessage J) → SerializeCache J → List (UiMessage J) × SerializeCache J
  serialize_all [] cache = ([], cache)
  serialize_all (m ∷ messages) cache =
      let (ui, next) = serialize_cached_into m cache in
      let (out, last) = serialize_all messages next in
      (elim ui [ none ↦ out | some msg ↦ msg ∷ out ], last)

  unfoldable pub serialize_transcript :
      List (AgentMessage J) → SerializeCache J → List (UiMessage J) × SerializeCache J
  unfolding serialize_all
  serialize_transcript messages cache =
      let (out, last) = serialize_all messages cache in
      (strip_transient_retry_errors out false, last)
