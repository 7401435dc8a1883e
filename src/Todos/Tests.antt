-- ===== src/Todos/Tests.antt =====
-- The task list at concrete inputs.
use dispatch_web.Base.{
  is_text, ◌==◌, any, nat_eq, string_eq, has, text_is_eq, ℕ, String, ◌≡◌, refl, true, false, not,
  ◌&&◌, ◌||◌, none, some, [], ◌∷◌,
}
use dispatch_web.Todos.{
  Status, pending, deleted, Task, Details, Entry, empty_todos, task_details, is_visible, start_run,
  is_read_only, is_updated, is_changed, is_touched, collect, kept_ids, apply, replay,
}
use dispatch_web.Todos.Membership.{is_alive, is_mutation, is_news, is_named, has-apply}
use dispatch_web.Todos.Replay.{
  snapshots, last_or, snapshot, IsVisible, replay-snapshots, replay_run, starts, ends, applies, run,
  run-IsVisible,
}

abbrev subject_of : Task → String
subject_of t = t.subject

abbrev task : ℕ → String → Status → Task
task id subject status = record {
  id = id;
  subject = subject;
  description = none;
  active_form = none;
  status = status;
  blocked_by = none;
  owner = none;
  metadata = none;
}

abbrev created : Details
created = record {
  tasks = some (task 1 "read" pending ∷ task 2 "write" deleted ∷ []);
  next_id = some 3;
  error = none;
  action = some "create";
  params_id = none;
}

abbrev todo_entry : Details → Entry
todo_entry d = record {
  kind = some "message";
  message = some (record { role = some "toolResult"; tool_name = some "todo"; details = some d });
}

first_snapshot : (apply subject_of (some created) (start_run empty_todos)).0.run_ids ≡ 1 ∷ []
unfolding apply task_details collect is_touched is_read_only is_changed is_updated kept_ids
    is_visible start_run
first_snapshot = refl

has-apply_example : has 1 (apply subject_of (some created) empty_todos).0.run_ids ≡ (
    any (λ t. t.id == 1 && is_alive t.status) (task 1 "read" pending ∷ task 2 "write" deleted ∷ [])
    && ((not (is_text "clear" created.action) && has 1 empty_todos.run_ids)
        || any
            (λ t.
              t.id == 1
              && (is_mutation created && (is_news subject_of [] t || is_named created t.id)))
            (task 1 "read" pending ∷ task 2 "write" deleted ∷ [])))
unfolding task_details
has-apply_example = has-apply subject_of (some created) _ 3 created empty_todos 1 refl

replay-snapshots_example :
    snapshot (replay subject_of (todo_entry created ∷ []) empty_todos)
    ≡ last_or ([], 1) (snapshots (todo_entry created ∷ []))
replay-snapshots_example = replay-snapshots subject_of (todo_entry created ∷ []) empty_todos

test_replay_run :
    ((start_run empty_todos).running ≡ true
      → (replay subject_of (todo_entry created ∷ []) (start_run empty_todos)).running ≡ true)
    × ((id : ℕ)
        → (start_run empty_todos).running ≡ true
        → has id (replay subject_of (todo_entry created ∷ []) (start_run empty_todos)).run_ids ≡ (
            is_visible
              (replay subject_of (todo_entry created ∷ []) (start_run empty_todos)).tasks
              id
            && has id (start_run empty_todos).run_ids))
    × ((start_run empty_todos).running ≡ false
        → replay subject_of (todo_entry created ∷ []) (start_run empty_todos)
          ≡ replay subject_of (todo_entry created ∷ []) empty_todos)
test_replay_run = replay_run subject_of (todo_entry created ∷ []) (start_run empty_todos)

test_run-IsVisible :
    IsVisible (run subject_of empty_todos (starts ∷ applies (some created) ∷ ends ∷ []))
test_run-IsVisible = run-IsVisible subject_of (starts ∷ applies (some created) ∷ ends ∷ [])
