-- ===== src/Todos/Replay.antt =====
-- What a replay of a session branch restores, and the invariant of all operations.
use dispatch_web.Base.{
  is_text, if◌then◌else◌, Option-cases, or_else, nat_eq, string_eq, has, has-filter, ℕ, String, ◌≡◌,
  refl, ap, ◌∙◌, inl, inr, true, false, ◌&&◌, Option, none, some, List, [], ◌∷◌, arith,
}
use dispatch_web.Todos.{
  Task, Details, Todos, Entry, empty_todos, task_details, is_visible, start_run, end_run, collect,
  kept_ids, apply, replay_entry, replay_loop, replay,
}

-- The snapshot in a branch entry: the result of the todo tool, if it is a valid one.
unfoldable pub snapshot_in : Entry → Option (List Task × ℕ)
snapshot_in e =
    if is_text "message" e.kind
    then elim e.message [
      | none ↦ none
      | some m ↦
          if is_text "toolResult" m.role && is_text "todo" m.tool_name
          then elim (task_details m.details) [ none ↦ none | some (ts, n, d) ↦ some (ts, n) ]
          else none
    ]
    else none

unfoldable pub snapshots : List Entry → List (List Task × ℕ)
snapshots [] = []
snapshots (e ∷ es) = elim (snapshot_in e) [ none ↦ snapshots es | some x ↦ x ∷ snapshots es ]

-- The last element, or a default.
unfoldable pub last_or {ℓ} : {A : Type ℓ} → A → List A → A
last_or d [] = d
last_or d (x ∷ xs) = last_or x xs

abbrev pub snapshot : Todos → List Task × ℕ
snapshot s = (s.tasks, s.next_id)

-- The run holds no id of a deleted or missing task.
abbrev pub IsVisible : Todos → Type 0
IsVisible s = (id : ℕ) → has id s.run_ids ≡ true → is_visible s.tasks id ≡ true

module _ (json : Task → String) where
  entry_snapshot :
      (e : Entry) (s : Todos)
      → snapshot (replay_entry json e s) ≡ or_else (snapshot_in e) (snapshot s)
  unfolding replay_entry apply snapshot_in
  entry_snapshot e s = ground arith

  loop_snapshot :
      (es : List Entry) (s : Todos)
      → snapshot (replay_loop json es s) ≡ last_or (snapshot s) (snapshots es)
  unfolding replay_loop snapshots last_or
  loop_snapshot [] s = refl
  loop_snapshot (e ∷ es) s = elim (Option-cases (snapshot_in e)) [
    | inl h ↦
        rw (h, snapshots)
          (loop_snapshot es (replay_entry json e s)
            ∙ ap (λ d. last_or d (snapshots es)) (entry_snapshot e s ∙ rw h refl))
    | inr (x, h) ↦
        rw (h, snapshots)
          (loop_snapshot es (replay_entry json e s)
            ∙ ap (λ d. last_or d (snapshots es)) (entry_snapshot e s ∙ rw h refl))
  ]

  -- A replay restores the tasks and the next id of the last valid todo result on the branch, or no
  -- tasks and 1 if there is none, whatever the state was before.
  pub replay-snapshots :
      (branch : List Entry) (s : Todos)
      → snapshot (replay json branch s) ≡ last_or ([], 1) (snapshots branch)
  unfolding replay
  replay-snapshots branch s = loop_snapshot branch empty_todos

  -- A replay during a run keeps of the run's ids those of restored tasks that are not deleted, and
  -- the run goes on; a replay between runs gives the same state as a replay into a new list.
  pub replay_run :
      (branch : List Entry) (s : Todos)
      → (s.running ≡ true → (replay json branch s).running ≡ true)
        × ((id : ℕ)
            → s.running ≡ true
            → has id (replay json branch s).run_ids
              ≡ (is_visible (replay json branch s).tasks id && has id s.run_ids))
        × (s.running ≡ false → replay json branch s ≡ replay json branch empty_todos)
  unfolding replay
  replay_run branch s = (
    λ h. h,
    λ id h. rw h (has-filter (is_visible (replay_loop json branch empty_todos).tasks) id s.run_ids),
    λ h. rw h,
  )

  apply-IsVisible : (d : Option Details) (s : Todos) → IsVisible s → IsVisible (apply json d s).0
  unfolding apply
  apply-IsVisible d s v = elim (Option-cases (task_details d)) [
    | inl h ↦ rw (h, apply) v
    | inr ((next, n, e), h) ↦
        rw (h, apply)
          λ id k. ground (
            arith,
            has-filter (is_visible next) id
                (collect json s.tasks e next (kept_ids json e s.run_ids)),
          )
  ]

  entry-IsVisible : (e : Entry) (s : Todos) → IsVisible s → IsVisible (replay_entry json e s)
  unfolding replay_entry
  entry-IsVisible e s v id k = elim (Option-cases e.message) [
    | inl h ↦ ground (arith, v id)
    | inr (m, h) ↦ ground (
      arith,
      v id,
      apply-IsVisible m.details s v id,
      apply-IsVisible m.details (record s { run_ids = [] }) (λ i q. cc) id,
    )
  ]

  loop-IsVisible : (es : List Entry) (s : Todos) → IsVisible s → IsVisible (replay_loop json es s)
  unfolding replay_loop
  loop-IsVisible [] s v = v
  loop-IsVisible (e ∷ es) s v = loop-IsVisible es (replay_entry json e s) (entry-IsVisible e s v)

  replay-IsVisible : (branch : List Entry) (s : Todos) → IsVisible (replay json branch s)
  unfolding replay
  replay-IsVisible branch s id h = ground (
    arith,
    has-filter (is_visible (replay_loop json branch empty_todos).tasks) id s.run_ids,
    loop-IsVisible branch empty_todos (λ i k. cc) id,
  )

pub data Call : Type 0 where
  replays : List Entry → Call
  starts ends : Call
  applies : Option Details → Call

module _ (json : Task → String) where
  unfoldable pub step : Todos → Call → Todos
  step s (replays branch) = replay json branch s
  step s starts = start_run s
  step s ends = end_run s
  step s (applies d) = (apply json d s).0

  unfoldable pub run : Todos → List Call → Todos
  run s [] = s
  run s (c ∷ cs) = run (step s c) cs

  step-IsVisible : (s : Todos) (c : Call) → IsVisible s → IsVisible (step s c)
  unfolding step start_run end_run
  step-IsVisible s (replays branch) v = replay-IsVisible json branch s
  step-IsVisible s starts v = λ id k. cc
  step-IsVisible s ends v = v
  step-IsVisible s (applies d) v = apply-IsVisible json d s v

  run_from-IsVisible : (s : Todos) (cs : List Call) → IsVisible s → IsVisible (run s cs)
  unfolding run
  run_from-IsVisible s [] v = v
  run_from-IsVisible s (c ∷ cs) v = run_from-IsVisible (step s c) cs (step-IsVisible s c v)

  -- After any sequence of replays, run starts, run ends and snapshots from a new list, each id of
  -- the run is that of a task in the list that is not deleted.
  pub run-IsVisible : (cs : List Call) → IsVisible (run empty_todos cs)
  run-IsVisible cs = run_from-IsVisible empty_todos cs (λ id k. cc)
