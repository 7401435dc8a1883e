-- ===== src/Todos.antt =====
-- server/todo-state.ts: the task list of a conversation, rebuilt from the results of the todo tool.
-- `ConversationTodos` is the record `Todos`; a method is a function that returns the new record.
-- `JSON.stringify` of a task is the parameter `json` of the section; a value of type `unknown` is
-- `Option Details`, where `none` is a value that is no object.
pub mod Membership
pub mod Replay
mod Tests
use dispatch_web.Base.{
  is_text, ◌==◌, if◌then◌else◌, is_some, filter, any, find, nat_eq, string_eq, add, ℕ, String, Bool,
  true, false, not, ◌&&◌, ◌||◌, Option, none, some, List, [], ◌∷◌, reverse, str_eq,
}

pub data Status : Type 0 where
  pending in_progress completed deleted : Status

pub record Task : Type 0 where
  pub id : ℕ
  pub subject : String
  pub description : Option String
  pub active_form : Option String
  pub status : Status
  pub blocked_by : Option (List ℕ)
  pub owner : Option String
  -- The keys, with the JSON text of each value.
  pub metadata : Option (List (String × String))

-- `tasks` is `none` where the source finds no array, `next_id` where it finds no number.
pub record Details : Type 0 where
  pub tasks : Option (List Task)
  pub next_id : Option ℕ
  pub error : Option String
  pub action : Option String
  pub params_id : Option ℕ

pub record Todos : Type 0 where
  pub tasks : List Task
  pub next_id : ℕ
  pub run_ids : List ℕ
  pub running : Bool

pub record BranchMessage : Type 0 where
  pub role : Option String
  pub tool_name : Option String
  pub details : Option Details

pub record Entry : Type 0 where
  pub kind : Option String
  pub message : Option BranchMessage

abbrev pub empty_todos : Todos
empty_todos = record { tasks = []; next_id = 1; run_ids = []; running = false }

-- The fields of a snapshot that `isTaskDetails` accepts.
unfoldable pub task_details : Option Details → Option (List Task × ℕ × Details)
task_details none = none
task_details (some d) = elim d.tasks [
  | none ↦ none
  | some ts ↦ elim d.next_id [ none ↦ none | some n ↦ some (ts, n, d) ]
]

abbrev pub is_deleted : Status → Bool
is_deleted deleted = true
is_deleted _ = false

-- Membership of an id in the set `visibleIds`.
unfoldable pub is_visible : List Task → ℕ → Bool
is_visible ts id = any (λ t. t.id == id && not (is_deleted t.status)) ts

-- `prev.get(id)` of the map built from the tasks: a later entry hides an earlier one.
unfoldable pub previous : List Task → ℕ → Option Task
previous ts id = find (λ t. t.id == id) (reverse ts)

unfoldable pub start_run : Todos → Todos
start_run s = record s { run_ids = []; running = true }

unfoldable pub end_run : Todos → Todos
end_run s = record s { running = false }

unfoldable pub is_read_only : Details → Bool
is_read_only d = is_text "list" d.action || is_text "get" d.action

unfoldable pub is_updated : Details → ℕ → Bool
is_updated d id =
    not (is_some d.error)
    && (is_text "update" d.action && elim d.params_id [ none ↦ false | some i ↦ i == id ])

module _ (json : Task → String) where
  unfoldable pub is_changed : List Task → Task → Bool
  unfolding previous
  is_changed prev t = elim (previous prev t.id) [
    | none ↦ true
    | some p ↦ not (str_eq (json p) (json t))
  ]

  unfoldable pub is_touched : List Task → Details → Task → Bool
  is_touched prev d t = not (is_read_only d) && (is_changed prev t || is_updated d t.id)

  -- The loop over `next`.
  unfoldable pub collect : List Task → Details → List Task → List ℕ → List ℕ
  collect prev d [] ids = ids
  collect prev d (t ∷ ts) ids =
      collect prev d ts (if is_touched prev d t then add t.id ids else ids)

  unfoldable pub kept_ids : Details → List ℕ → List ℕ
  kept_ids d ids = if is_text "clear" d.action then [] else ids

  unfoldable pub apply : Option Details → Todos → Todos × Bool
  apply details s = elim (task_details details) [
    | none ↦ (s, false)
    | some (next, n, d) ↦ (
      record s {
        tasks = next;
        next_id = n;
        run_ids = filter (is_visible next) (collect s.tasks d next (kept_ids d s.run_ids));
      },
      true,
    )
  ]

  unfoldable pub replay_message : BranchMessage → Todos → Todos
  replay_message m restored =
      let cleared = if is_text "user" m.role then record restored { run_ids = [] } else restored in
      if not (is_text "toolResult" m.role) || not (is_text "todo" m.tool_name)
      then cleared
      else (apply m.details cleared).0

  unfoldable pub replay_entry : Entry → Todos → Todos
  unfolding replay_message
  replay_entry e restored =
      if is_text "message" e.kind
      then elim e.message [ none ↦ restored | some m ↦ replay_message m restored ]
      else restored

  unfoldable pub replay_loop : List Entry → Todos → Todos
  replay_loop [] restored = restored
  replay_loop (e ∷ es) restored = replay_loop es (replay_entry e restored)

  unfoldable pub replay : List Entry → Todos → Todos
  replay branch s =
      let restored = replay_loop branch empty_todos in
      record s {
        tasks = restored.tasks;
        next_id = restored.next_id;
        run_ids =
            if s.running then filter (is_visible restored.tasks) s.run_ids else restored.run_ids;
      }
