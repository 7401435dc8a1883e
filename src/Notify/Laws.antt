-- ===== src/Notify/Laws.antt =====
-- When a settled run is announced, and with what.
use dispatch_web.Base.{
  [], ◌∷◌, List, All, any, str_eq, ◌||◌, string_eq, is_text, String, ◌≡◌, refl, ◌↔◌, ◌≢◌, true,
  false, Option, none, some, or_else, arith, if◌then◌else◌, eq_iff,
}
use dispatch_web.Notify.{
  Run, Context, Event, run_completed, run_failed, State, shown_name, settled, finish, is_waiting,
  has_active_worker,
}

-- The tests of the code that the session is at rest.
record IsResting (c : Context) : Type 0 where
  pub idle : c.is_idle ≡ true
  pub no_steering : is_waiting c.queued_steering ≡ false
  pub no_follow_up : is_waiting c.queued_follow_up ≡ false
  pub no_retry : or_else c.retrying false ≡ false
  pub no_worker : has_active_worker c.workers ≡ false

-- The session is at rest: idle, nothing queued, no retry, no worker at work.
pub record IsQuiet (c : Context) : Type 0 where
  pub idle : c.is_idle ≡ true
  pub no_steering : or_else c.queued_steering [] ≡ []
  pub no_follow_up : or_else c.queued_follow_up [] ≡ []
  pub no_retry : or_else c.retrying false ≡ false
  pub no_worker : All (λ s. (s ≢ "starting") × (s ≢ "running")) (or_else c.workers [])

not_waiting : (queue : Option (List String)) → (is_waiting queue ≡ false) ↔ (or_else queue [] ≡ [])
unfolding is_waiting
not_waiting none = (λ h. refl, λ h. refl)
not_waiting (some []) = (λ h. refl, λ h. refl)
not_waiting (some (s ∷ queue)) = (λ h. absurd (ground (arith, h)), λ h. absurd (ground (arith, h)))

none_active :
    (statuses : List String)
    → (any (λ s. str_eq s "starting" || str_eq s "running") statuses ≡ false)
      ↔ All (λ s. (s ≢ "starting") × (s ≢ "running")) statuses
none_active [] = (λ h. tt, λ h. refl)
none_active (s ∷ statuses) =
    let rest = none_active statuses in
    (
      λ h. (
        (
          λ e. ground (arith, h, eq_iff s "starting", e),
          λ e. ground (arith, h, eq_iff s "running", e),
        ),
        rest.0 (ground (arith, h)),
      ),
      λ a.
          (let others = rest.1 a.1 in
            let not_starting = a.0.0 in
            let not_running = a.0.1 in
            ground
              (arith, others, eq_iff s "starting", eq_iff s "running", not_starting, not_running)),
    )

no_active :
    (workers : Option (List String))
    → (has_active_worker workers ≡ false)
      ↔ All (λ s. (s ≢ "starting") × (s ≢ "running")) (or_else workers [])
unfolding has_active_worker
no_active none = (λ h. tt, λ h. refl)
no_active (some statuses) = none_active statuses

IsResting-IsQuiet : (c : Context) → IsResting c ↔ IsQuiet c
IsResting-IsQuiet c = (
  λ r. record {
    idle = r.idle;
    no_steering = (not_waiting c.queued_steering).0 r.no_steering;
    no_follow_up = (not_waiting c.queued_follow_up).0 r.no_follow_up;
    no_retry = r.no_retry;
    no_worker = (no_active c.workers).0 r.no_worker;
  },
  λ q. record {
    idle = q.idle;
    no_steering = (not_waiting c.queued_steering).1 q.no_steering;
    no_follow_up = (not_waiting c.queued_follow_up).1 q.no_follow_up;
    no_retry = q.no_retry;
    no_worker = (no_active c.workers).1 q.no_worker;
  },
)

-- The run ended by itself.
pub record IsAnnounced (run : Run) : Type 0 where
  pub final : run.has_final_assistant ≡ true
  pub kept : run.abort_requested ≡ false
  pub not_aborted : is_text "aborted" run.final_stop_reason ≡ false

-- What the event says of the run: the kind is `run_failed` just when the stop reason is "error".
pub record IsReport (id : String) (c : Context) (run : Run) (e : Event) : Type 0 where
  pub identified : e.event_id ≡ id
  pub addressed : e.conversation_id ≡ c.conversation_id
  pub project : e.project_name ≡ c.project_name
  pub failed : run.final_stop_reason ≡ some "error" → e.kind ≡ run_failed
  pub completed : run.final_stop_reason ≢ some "error" → e.kind ≡ run_completed
  pub unnamed : c.session_name ≡ some "" → e.session_name ≡ none
  pub named : c.session_name ≢ some "" → e.session_name ≡ c.session_name

finish-IsReport :
    (id : String) (c : Context) (run : Run) (e : Event)
    → finish id c run ≡ some e
    → IsReport id c run e
unfolding finish shown_name
finish-IsReport id c run e h = record {
  identified = ground arith;
  addressed = ground arith;
  project = ground arith;
  failed = λ p. ground (arith, eq_iff "error" "error", eq_iff "error" "aborted");
  completed = λ p. kind run.final_stop_reason refl p;
  unnamed = λ p. ground (arith, eq_iff "" "");
  named = λ p. name c.session_name refl p;
}
  where
    kind :
        (r : Option String)
        → run.final_stop_reason ≡ r
        → run.final_stop_reason ≢ some "error"
        → e.kind ≡ run_completed
    kind none q p = ground arith
    kind (some t) q p = ground (arith, eq_iff t "error")

    name :
        (n : Option String)
        → c.session_name ≡ n
        → c.session_name ≢ some ""
        → e.session_name ≡ c.session_name
    name none q p = ground arith
    name (some t) q p = ground (arith, eq_iff t "")

settled_event :
    (id : String) (c : Context) (s : State) (e : Event)
    → (settled id c s).0 ≡ some e
    → (run : Run) × (s ≡ some run) × IsResting c × IsAnnounced run × (finish id c run ≡ some e)
unfolding settled finish
settled_event id c none e h = ground arith
settled_event id c (some run) e h = (run, refl, ground arith, ground arith, ground arith)

settled_quiet :
    (id : String) (c : Context) (run : Run)
    → IsResting c
    → run.has_final_assistant ≡ true
    → settled id c (some run) ≡ (finish id c run, none)
unfolding settled
settled_quiet id c run q h = ground arith

finish_announced :
    (id : String) (c : Context) (run : Run)
    → IsAnnounced run
    → (e : Event) × (finish id c run ≡ some e)
unfolding finish
finish_announced id c run a = (
  record {
    event_id = id;
    conversation_id = c.conversation_id;
    kind = if is_text "error" run.final_stop_reason then run_failed else run_completed;
    project_name = c.project_name;
    session_name = shown_name c.session_name;
  },
  rw (a.kept, a.not_aborted),
)

-- `settled` sends an event exactly when a run is tracked, the session is at rest (idle, both queues
-- empty, no retry, no worker starting or running), and the run has a final assistant message, was
-- not aborted by the user and did not stop with the reason "aborted".
pub settled-some_iff :
    (id : String) (c : Context) (s : State)
    → ((e : Event) × ((settled id c s).0 ≡ some e))
      ↔ ((run : Run) × (s ≡ some run) × IsQuiet c × IsAnnounced run)
settled-some_iff id c s = (to, from)
  where
    to :
        (e : Event) × ((settled id c s).0 ≡ some e)
        → (run : Run) × (s ≡ some run) × IsQuiet c × IsAnnounced run
    to (e, h) =
        let (run, p, q, a, f) = settled_event id c s e h in (run, p, (IsResting-IsQuiet c).0 q, a)

    from :
        (run : Run) × (s ≡ some run) × IsQuiet c × IsAnnounced run
        → (e : Event) × ((settled id c s).0 ≡ some e)
    from (run, p, q, a) =
        let (e, f) = finish_announced id c run a in
        (e, rw p (rw (settled_quiet id c run ((IsResting-IsQuiet c).1 q) a.final) f))

-- An event that `settled` sends carries the given identifier, the conversation and the project of
-- the context, says `run_failed` if the tracked run's stop reason is "error" and `run_completed` if
-- not, and gives the session's name unless that is empty; the run is no longer tracked after it.
pub settled-IsReport :
    (id : String) (c : Context) (run : Run) (e : Event)
    → (settled id c (some run)).0 ≡ some e
    → IsReport id c run e × ((settled id c (some run)).1 ≡ none)
settled-IsReport id c run e h =
    let (run', p, q, a, f) = settled_event id c (some run) e h in
    let same : run' ≡ run = cc in
    let f' : finish id c run ≡ some e = rw same at f in
    (finish-IsReport id c run e f', rw (settled_quiet id c run q (rw same at a.final)))
