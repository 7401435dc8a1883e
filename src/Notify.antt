-- ===== src/Notify.antt =====
-- server/notification-lifecycle.ts: one session's run lifecycle, and the event that it sends.
-- The private field `run` of `NotificationLifecycle` is the state, `Option Run`; each method is a
-- function of it. The identifier that `newEventId` would return is an argument.
pub mod Laws
pub mod Traces
mod Tests
use dispatch_web.Base.{
  is_text, ltb, String, Bool, true, false, not, ◌||◌, Option, none, some, List, [], ◌∷◌, reverse,
  or_else, length, any, str_eq, if◌then◌else◌,
}

pub record Run : Type 0 where
  pub final_stop_reason : Option String
  pub has_final_assistant : Bool
  pub abort_requested : Bool

pub record Context : Type 0 where
  pub conversation_id : String
  pub project_name : String
  pub session_name : Option String
  pub is_idle : Bool
  pub queued_steering : Option (List String)
  pub queued_follow_up : Option (List String)
  pub retrying : Option Bool
  -- The status of each worker.
  pub workers : Option (List String)

pub record Message : Type 0 where
  pub role : Option String
  pub stop_reason : Option String

pub data Kind : Type 0 where
  run_completed run_failed input_required : Kind

pub record Event : Type 0 where
  pub event_id : String
  pub conversation_id : String
  pub kind : Kind
  pub project_name : String
  pub session_name : Option String

abbrev pub State : Type 0
State = Option Run

unfoldable pub agent_start : State → State
agent_start none =
    some (record { final_stop_reason = none; has_final_assistant = false; abort_requested = false })
agent_start (some run) = some run

-- The loop of `agentEnd`, over the messages from the last to the first.
unfoldable pub scan_assistant : List Message → Run → Run
scan_assistant [] run = run
scan_assistant (m ∷ ms) run =
    if is_text "assistant" m.role
    then record run { final_stop_reason = m.stop_reason; has_final_assistant = true }
    else scan_assistant ms run

unfoldable pub agent_end : List Message → State → State
agent_end messages none = none
agent_end messages (some run) = some (scan_assistant (reverse messages) run)

unfoldable pub abort : State → State
abort none = none
abort (some run) = some (record run { abort_requested = true })

unfoldable pub is_waiting : Option (List String) → Bool
is_waiting none = false
is_waiting (some queue) = ltb 0 (length queue)

unfoldable pub has_active_worker : Option (List String) → Bool
has_active_worker none = false
has_active_worker (some statuses) = any (λ s. str_eq s "starting" || str_eq s "running") statuses

-- A name that is empty is left out of the event.
unfoldable pub shown_name : Option String → Option String
shown_name none = none
shown_name (some s) = if str_eq s "" then none else some s

unfoldable pub finish : String → Context → Run → Option Event
finish id c run =
    if run.abort_requested || is_text "aborted" run.final_stop_reason
    then none
    else some (record {
      event_id = id;
      conversation_id = c.conversation_id;
      kind = if is_text "error" run.final_stop_reason then run_failed else run_completed;
      project_name = c.project_name;
      session_name = shown_name c.session_name;
    })

unfoldable pub settled : String → Context → State → Option Event × State
settled id c none = (none, none)
settled id c (some run) =
    if not c.is_idle || not run.has_final_assistant
    then (none, some run)
    else if is_waiting c.queued_steering || is_waiting c.queued_follow_up
    then (none, some run)
    else if or_else c.retrying false
    then (none, some run)
    else if has_active_worker c.workers
    then (none, some run)
    else (finish id c run, none)

unfoldable pub reset : State → State
reset run = none

unfoldable pub make_input_required : String → Context → Event
make_input_required id c = record {
  event_id = id;
  conversation_id = c.conversation_id;
  kind = input_required;
  project_name = c.project_name;
  session_name = shown_name c.session_name;
}
