-- ===== src/Notify/Tests.antt =====
-- The lifecycle of notifications at concrete inputs.
use dispatch_web.Base.{
  is_some, nat_eq, string_eq, text_is_eq, ◌+◌, ◌≤◌, ◌≡◌, refl, ◌↔◌, true, false, none, some, List,
  [], ◌∷◌,
}
use dispatch_web.Notify.{
  Run, Context, run_failed, Event, agent_start, scan_assistant, agent_end, abort, is_waiting,
  has_active_worker, shown_name, finish, settled,
}
use dispatch_web.Notify.Laws.{IsQuiet, IsAnnounced, IsReport, settled-some_iff, settled-IsReport}
use dispatch_web.Notify.Traces.{
  Call, starts, ends, settles, step, count, sent, started, sent-le-started, abort_silences,
}

abbrev quiet : Context
quiet = record {
  conversation_id = "c1";
  project_name = "web";
  session_name = some "fix";
  is_idle = true;
  queued_steering = some [];
  queued_follow_up = none;
  retrying = none;
  workers = some ("done" ∷ []);
}

abbrev failed_run : Run
failed_run = record {
  final_stop_reason = some "error";
  has_final_assistant = true;
  abort_requested = false;
}

abbrev failure : Event
failure = record {
  event_id = "e1";
  conversation_id = "c1";
  kind = run_failed;
  project_name = "web";
  session_name = some "fix";
}

failed_settles : settled "e1" quiet (some failed_run) ≡ (some failure, none)
unfolding settled is_waiting has_active_worker finish shown_name
failed_settles = refl

busy :
    settled "e1" (record quiet { workers = some ("running" ∷ []) }) (some failed_run)
    ≡ (none, some failed_run)
unfolding settled is_waiting has_active_worker
busy = refl

settled-some_iff_example :
    ((e : Event) × ((settled "e1" quiet (some failed_run)).0 ≡ some e))
    ↔ ((run : Run) × (some failed_run ≡ some run) × IsQuiet quiet × IsAnnounced run)
settled-some_iff_example = settled-some_iff "e1" quiet (some failed_run)

test_settled-IsReport :
    IsReport "e1" quiet failed_run failure × ((settled "e1" quiet (some failed_run)).1 ≡ none)
unfolding settled is_waiting has_active_worker finish shown_name
test_settled-IsReport = settled-IsReport "e1" quiet failed_run failure refl

abbrev ended : List Call
ended =
    starts
    ∷ ends (record { role = some "assistant"; stop_reason = none } ∷ [])
    ∷ settles "e1" quiet
    ∷ settles "e2" quiet
    ∷ []

sent_once : sent none ended ≡ 1
unfolding sent step agent_start agent_end scan_assistant settled is_waiting has_active_worker finish
sent_once = refl

sent-le-started_example : sent none ended ≤ started ended + count (is_some {A = Run} none)
sent-le-started_example = sent-le-started none ended

test_abort_silences : sent (abort (some failed_run)) (settles "e1" quiet ∷ []) ≡ 0
test_abort_silences = abort_silences (some failed_run) (settles "e1" quiet ∷ []) refl
