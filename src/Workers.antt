-- ===== src/Workers.antt =====
-- server/workers.ts and server/agent-service.ts: the delegated workers of a conversation, and the
-- transcripts that are pushed to the client that follows some of them.
-- `L` is the live state of a worker's session and `T` what transcript() makes of a record, which is
-- the argument `view`. A field of an untrusted event is none where its type is wrong; `role`, `model`,
-- `task` and `activity` are what String() makes of the field, none where it is null or absent.
pub mod Listing
pub mod Changes
pub mod Serving
pub mod Following
pub mod Pane
pub mod Groups
mod Tests
use dispatch_web.Base.{
  ◌==◌, if◌then◌else◌, or_else, nat_eq, string_eq, str_eq, is_text, has, add, adds, delete, lookup,
  insert, keys, ℕ, String, Bool, true, false, not, ◌&&◌, ◌||◌, Option, none, some, List, [], ◌∷◌,
}

abbrev pub statuses : List String
statuses = "starting" ∷ "running" ∷ "completed" ∷ "failed" ∷ "cancelled" ∷ "interrupted" ∷ []

pub record BridgeWorker : Type 0 where
  pub id : Option ℕ
  pub tool_call_id : Option String
  pub role : Option String
  pub model : Option String
  pub task : Option String
  pub status : Option String
  pub activity : Option String
  pub started : Option ℕ
  pub ended : Option ℕ
  pub transcript : Option String
  pub recent : List (Option String)
  pub text : Option String

pub record Summary : Type 0 where
  pub id : ℕ
  pub tool_call_id : Option String
  pub role : String
  pub model : String
  pub task : String
  pub status : String
  pub activity : String
  pub started : ℕ
  pub ended : Option ℕ
  pub recent : List String
  pub text : String

unfoldable pub as_status : Option String → String
as_status none = "starting"
as_status (some s) = if has s statuses then s else "starting"

abbrev pub as_string_list : List (Option String) → List String
as_string_list [] = []
as_string_list (none ∷ v) = as_string_list v
as_string_list (some s ∷ v) = s ∷ as_string_list v

unfoldable pub is_finished : String → Bool
is_finished status = not (str_eq status "starting") && not (str_eq status "running")

unfoldable pub summary_of : ℕ → ℕ → BridgeWorker → Summary
summary_of now id w = record {
  id = id;
  tool_call_id = w.tool_call_id;
  role = or_else w.role "";
  model = or_else w.model "";
  task = or_else w.task "";
  status = as_status w.status;
  activity = or_else w.activity "";
  started = or_else w.started now;
  ended = w.ended;
  recent = as_string_list w.recent;
  text = or_else w.text "";
}

abbrev pub same_option : {A : Type 0} → (A → A → Bool) → Option A → Option A → Bool
same_option eq none none = true
same_option eq (some a) (some b) = eq a b
same_option eq a b = false

abbrev pub same_list : List String → List String → Bool
same_list [] [] = true
same_list (s ∷ a) (t ∷ b) = str_eq s t && same_list a b
same_list a b = false

-- JSON.stringify of both is the same text.
unfoldable pub same_summary : Summary → Summary → Bool
same_summary a b =
    a.id == b.id
    && same_option str_eq a.tool_call_id b.tool_call_id
    && str_eq a.role b.role
    && str_eq a.model b.model
    && str_eq a.task b.task
    && str_eq a.status b.status
    && str_eq a.activity b.activity
    && a.started == b.started
    && same_option ◌==◌ a.ended b.ended
    && same_list a.recent b.recent
    && str_eq a.text b.text

pub record WorkerRecord (L : Type 0) : Type 0 where
  pub summary : Summary
  pub transcript_file : Option String
  pub live : Option L

pub record WorkerHub (L : Type 0) : Type 0 where
  pub records : List (ℕ × WorkerRecord L)
  pub opened : List ℕ

-- `typeof w.transcript === "string" && w.transcript ? w.transcript : undefined`
abbrev pub file_of : Option String → Option String
file_of none = none
file_of (some file) = if str_eq file "" then none else some file

abbrev pub Records : Type 0 → Type 0
Records L = List (ℕ × WorkerRecord L)

module _ {L : Type 0} where
  -- A known worker: its file, if a new one is reported, and its summary, if it has changed.
  unfoldable pub update_file : Option String → WorkerRecord L → WorkerRecord L × Bool
  update_file none rec = (rec, false)
  update_file (some file) rec =
      if is_text file rec.transcript_file
      then (rec, false)
      else (record rec { transcript_file = some file }, true)

  unfoldable pub update_summary : Summary → WorkerRecord L → WorkerRecord L × Bool
  update_summary summary rec =
      if same_summary rec.summary summary
      then (rec, false)
      else (record rec { summary = summary }, true)

  unfoldable pub apply_worker : ℕ → ℕ → BridgeWorker → Records L → Records L × Bool
  apply_worker now id w records = elim (lookup id records) [
    | none ↦ (
      insert id
          (record {
            summary = summary_of now id w;
            transcript_file = file_of w.transcript;
            live = none;
          })
          records,
      true,
    )
    | some rec ↦
        let (rec1, new_file) = update_file (file_of w.transcript) rec in
        let (rec2, new_summary) = update_summary (summary_of now id w) rec1 in
        if new_file || new_summary then (insert id rec2 records, true) else (records, false)
  ]

  -- The first loop of applyList: the records, whether one has changed, and the ids that it saw.
  unfoldable pub apply_workers :
      ℕ → List BridgeWorker → Records L → List ℕ → Bool → Records L × Bool × List ℕ
  unfolding apply_worker
  apply_workers now [] records seen changed = (records, changed, seen)
  apply_workers now (w ∷ workers) records seen changed = elim w.id [
    | none ↦ apply_workers now workers records seen changed
    | some id ↦
        let (next, this) = apply_worker now id w records in
        apply_workers now workers next (add id seen) (changed || this)
  ]

  -- The second loop: what the extension no longer reports goes.
  unfoldable pub drop_unseen : List ℕ → Records L → List ℕ → Bool → Records L × List ℕ × Bool
  drop_unseen seen [] opened changed = ([], opened, changed)
  drop_unseen seen ((id, rec) ∷ records) opened changed =
      let (kept, left, result) = drop_unseen seen records opened changed in
      if has id seen then ((id, rec) ∷ kept, left, result) else (kept, delete id left, true)

  unfoldable pub apply_list : ℕ → List BridgeWorker → WorkerHub L → WorkerHub L × Bool
  unfolding apply_workers drop_unseen
  apply_list now workers hub =
      let (records, changed, seen) = apply_workers now workers hub.records [] false in
      let (kept, opened, result) = drop_unseen seen records hub.opened changed in
      (record { records = kept; opened = opened }, result)

  unfoldable pub apply_transcript : ℕ → L → WorkerHub L → WorkerHub L × Bool
  apply_transcript worker_id live hub = elim (lookup worker_id hub.records) [
    | none ↦ (hub, false)
    | some rec ↦ (
      record hub { records = insert worker_id (record rec { live = some live }) hub.records },
      true,
    )
  ]

  unfoldable pub has_worker : ℕ → WorkerHub L → Bool
  has_worker id hub = has id (keys hub.records)

-- The active conversation: its hub, the workers whose push is waiting for its timer, the pushes that
-- await a transcript, and what has been emitted, both with the latest first. What a push awaits is
-- determined when it starts.
pub record Session (L T : Type 0) : Type 0 where
  pub hub : WorkerHub L
  pub timers : List ℕ
  pub reading : List (ℕ × T)
  pub emitted : List (ℕ × T)

module _ {L T : Type 0} where
  -- scheduleWorkerPush for each worker: one that waits is left as it is.
  unfoldable pub on_workers : ℕ → List BridgeWorker → Session L T → Session L T
  unfolding apply_list apply_workers drop_unseen
  on_workers now workers s =
      let (hub, changed) = apply_list now workers s.hub in
      if not changed
      then record s { hub = hub }
      else record s { hub = hub; timers = adds hub.opened s.timers }

  unfoldable pub on_transcript : ℕ → L → Session L T → Session L T
  unfolding apply_transcript
  on_transcript worker_id live s =
      let (hub, known) = apply_transcript worker_id live s.hub in
      if known && has worker_id hub.opened
      then record s { hub = hub; timers = add worker_id s.timers }
      else record s { hub = hub }

  unfoldable pub close_worker : ℕ → Session L T → Session L T
  close_worker worker_id s = record s {
    hub = record s.hub { opened = delete worker_id s.hub.opened };
  }

  -- After the await: the push of a worker that has been closed in the meantime is dropped.
  unfoldable pub finish_push : ℕ × T → Session L T → Session L T
  finish_push (worker_id, read) s =
      if not (has worker_id s.hub.opened)
      then s
      else record s { emitted = (worker_id, read) ∷ s.emitted }

module _ {L T : Type 0} (view : ℕ → Option (WorkerRecord L) → T) where
  abbrev pub transcript : ℕ → WorkerHub L → T
  transcript worker_id hub = view worker_id (lookup worker_id hub.records)

  -- Up to the await.
  unfoldable pub push_worker_transcript : ℕ → Session L T → Session L T
  push_worker_transcript worker_id s =
      if not (has worker_id s.hub.opened)
      then s
      else record s { reading = (worker_id, transcript worker_id s.hub) ∷ s.reading }

  -- The timer of a worker runs out.
  unfoldable pub fire : ℕ → Session L T → Session L T
  unfolding push_worker_transcript
  fire worker_id s =
      push_worker_transcript worker_id (record s { timers = delete worker_id s.timers })

  unfoldable pub open_worker : ℕ → Session L T → Session L T
  unfolding push_worker_transcript
  open_worker worker_id s =
      if not (has_worker worker_id s.hub)
      then s
      else push_worker_transcript worker_id
          (record s { hub = record s.hub { opened = add worker_id s.hub.opened } })
