-- ===== src/Serialize/Tests.antt =====
-- Runs of the serialisation on small messages. JSON values are texts here.
use dispatch_web.Base.{
  if◌then◌else◌, nat_eq, string_eq, Text, codes, text_is_eq, ◌+◌, String, ◌≡◌, refl, ◌≢◌, true,
  none, some, [], ◌∷◌, ◌++◌, arith,
}
use dispatch_web.Base.{refl, true, arith, ◌+◌, ◌≢◌}
use dispatch_web.Serialize.{
  strip_transient_retry_errors, AgentMessage, user, plain, serialize_message, stamped_id, truncate,
  truncated_mark, to_string, serialize_user_content, UiMessage,
}
use dispatch_web.Serialize.Cache.{
  new_serialize_cache, key_of, number_of, serialize_cached_into, serialize_all, sequence_of, store,
  serialize_new,
}
use dispatch_web.Serialize.Resolve.{SessionEntry, resolve_user_message_entry_id, is_user_at}
use dispatch_web.Serialize.Ids.{tally, resolve_user_message_entry_id-stamped_id}
use dispatch_web.Serialize.Retry.{
  without_failed_end, strip_transient_retry_errors-without_failed_end,
}
use dispatch_web.Serialize.Transcript.{
  id_of, serialize_cached_into-serialize_all, serialize_cached_into-evicted,
}

abbrev as_text : Text → Text
as_text t = t

abbrev question : AgentMessage Text
question = user (plain (codes "why?")) 7

abbrev entry : String → AgentMessage Text → SessionEntry Text
entry id m = record { id = codes id; is_message = true; message = some m }

resolve_user_message_entry_id-stamped_id_example :
    resolve_user_message_entry_id
      (stamped_id (codes "u") 7 (tally 7 (entry "e1" question ∷ []) + 1))
      (entry "e1" question ∷ [] ++ entry "e2" question ∷ [])
    ≡ some (codes "e2")
unfolding is_user_at
resolve_user_message_entry_id-stamped_id_example =
    resolve_user_message_entry_id-stamped_id 7 (entry "e1" question ∷ []) [] (entry "e2" question)
      refl

abbrev shown_question : UiMessage Text
shown_question = record {
  id = codes "u-7-1";
  role = codes "user";
  content = serialize_user_content (plain (codes "why?"));
  timestamp = some 7;
  model = none;
  provider = none;
  stop_reason = none;
  error_message = none;
  tool_call_id = none;
  tool_name = none;
  is_error = none;
  custom_type = none;
  details = none;
  tokens_before = none;
}

serialize_cached_into-serialize_all_example :
    let later =
      (serialize_all as_text
        (user (plain (codes "and?")) 8 ∷ [])
        (serialize_cached_into as_text question new_serialize_cache).1).1 in
    serialize_cached_into as_text question later ≡ (some shown_question, later)
unfolding serialize_cached_into serialize_new serialize_message sequence_of store number_of
    stamped_id to_string key_of
serialize_cached_into-serialize_all_example =
    serialize_cached_into-serialize_all as_text question (user (plain (codes "and?")) 8 ∷ [])
      new_serialize_cache shown_question refl (omega arith)

serialize_cached_into-evicted_example :
    let (shown, next) = serialize_cached_into as_text question new_serialize_cache in
    let evicted = record next { ui_message_cache = [] } in
    id_of as_text (serialize_cached_into as_text question evicted).0 ≢ id_of as_text shown
serialize_cached_into-evicted_example =
    serialize_cached_into-evicted as_text (plain (codes "why?")) 7 new_serialize_cache [] refl refl

test_truncate : truncate (codes "abcd") 3 ≡ (codes "abc" ++ truncated_mark, true)
unfolding truncate
test_truncate = refl

abbrev failed_answer : UiMessage Text
failed_answer = record shown_question {
  role = codes "assistant";
  stop_reason = some (codes "error");
}

strip_transient_retry_errors-without_failed_end_example :
    strip_transient_retry_errors (shown_question ∷ failed_answer ∷ []) true ≡ (
      if true
      then without_failed_end (shown_question ∷ failed_answer ∷ [])
      else shown_question ∷ failed_answer ∷ [])
strip_transient_retry_errors-without_failed_end_example =
    strip_transient_retry_errors-without_failed_end (shown_question ∷ failed_answer ∷ []) true
