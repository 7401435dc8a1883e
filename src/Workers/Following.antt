-- ===== src/Workers/Following.antt =====
-- server/agent-service.ts: the client gets the transcript of every worker that it follows.
use dispatch_web.Base.{
  if◌then◌else◌, ◌++◌, ◌==◌, nat_eq, string_eq, lookup, text_is_eq, ℕ, ◌≡◌, refl, inl, inr, false,
  List, [], ◌∷◌, arith, Option, ap, ◌∙◌, has, true, some, delete, Bool-cases, ==_iff, sym, deletes,
  has-deletes,
}
use dispatch_web.Base.{refl, false, arith, ◌≡◌, inl, inr}
use dispatch_web.Workers.{
  finish_push, BridgeWorker, WorkerRecord, Session, push_worker_transcript, transcript, fire,
  on_workers, on_transcript, open_worker, close_worker,
}
use dispatch_web.Workers.Serving.{
  IsServed, other_opened, fire-IsServed, on_workers-IsServed, on_transcript-IsServed,
  open_worker-IsServed, close_worker-IsServed, finish-IsServed,
}

module _ {L T : Type 0} (view : ℕ → Option (WorkerRecord L) → T) where
  infix 40 ◌⟶◌
  pub data ◌⟶◌ (s : Session L T) : Session L T → Type 0 where
    reports : (now : ℕ) (workers : List BridgeWorker) → s ⟶ on_workers now workers s
    streams : (worker_id : ℕ) (live : L) → s ⟶ on_transcript worker_id live s
    opens : (worker_id : ℕ) → s ⟶ open_worker view worker_id s
    closes : (worker_id : ℕ) → s ⟶ close_worker worker_id s
    fires : (worker_id : ℕ) → s ⟶ fire view worker_id s
    -- The transcripts are awaited in the order of the pushes.
    answers :
        (rest : List (ℕ × T)) (push : ℕ × T)
        → s.reading ≡ rest ++ push ∷ []
        → s ⟶ finish_push push (record s { reading = rest })

  pub data Reached : Session L T → Type 0 where
    begin : Reached (record {
      hub = record { records = []; opened = [] };
      timers = [];
      reading = [];
      emitted = [];
    })
    after : {s t : Session L T} → Reached s → s ⟶ t → Reached t

  ⟶-IsServed : {s t : Session L T} → s ⟶ t → IsServed view s → IsServed view t
  ⟶-IsServed {s} (reports now workers) v = on_workers-IsServed view now workers s v
  ⟶-IsServed {s} (streams worker_id live) v = on_transcript-IsServed view worker_id live s v
  ⟶-IsServed {s} (opens worker_id) v = open_worker-IsServed view worker_id s v
  ⟶-IsServed {s} (closes worker_id) v = close_worker-IsServed view worker_id s v
  ⟶-IsServed {s} (fires worker_id) v = fire-IsServed view worker_id s v
  ⟶-IsServed {s} (answers rest push e) v = finish-IsServed view s rest push e v

  Reached-IsServed : {s : Session L T} → Reached s → IsServed view s
  unfolding IsServed
  Reached-IsServed begin = λ id followed. absurd (ground (arith, followed))
  Reached-IsServed (after r step) = ⟶-IsServed step (Reached-IsServed r)

  unfoldable pub fire_all : List ℕ → Session L T → Session L T
  fire_all [] s = s
  fire_all (id ∷ ids) s = fire_all ids (fire view id s)

  fire-kept :
      (id : ℕ) (s : Session L T)
      → ((fire view id s).hub ≡ s.hub) × ((fire view id s).timers ≡ delete id s.timers)
  unfolding fire push_worker_transcript
  fire-kept id s = elim (Bool-cases (has id s.hub.opened)) [
    | inl h ↦ simp (fire, push_worker_transcript, h) (refl, refl)
    | inr h ↦ simp (fire, push_worker_transcript, h) (refl, refl)
  ]

  fire_all-kept :
      (ids : List ℕ) (s : Session L T)
      → ((fire_all ids s).hub ≡ s.hub) × ((fire_all ids s).timers ≡ deletes ids s.timers)
  unfolding fire_all
  fire_all-kept [] s = (refl, refl)
  fire_all-kept (id ∷ ids) s =
      let later = fire_all-kept ids (fire view id s) in
      let now = fire-kept id s in (later.0 ∙ now.0, later.1 ∙ ap (deletes ids) now.1)

  fire_all-IsServed :
      (ids : List ℕ) (s : Session L T) → IsServed view s → IsServed view (fire_all ids s)
  unfolding fire_all
  fire_all-IsServed [] s v = v
  fire_all-IsServed (id ∷ ids) s v =
      fire_all-IsServed ids (fire view id s) (fire-IsServed view id s v)

  -- All transcripts that are awaited, the oldest push first.
  unfoldable pub answer_all : List (ℕ × T) → Session L T → Session L T
  answer_all [] s = record s { reading = [] }
  answer_all (push ∷ newer) s = finish_push push (answer_all newer s)

  answer_all-hub :
      (pushes : List (ℕ × T)) (s : Session L T)
      → ((answer_all pushes s).hub ≡ s.hub) × ((answer_all pushes s).reading ≡ [])
  unfolding answer_all finish_push
  answer_all-hub [] s = (refl, refl)
  answer_all-hub ((id, read) ∷ newer) s =
      let before = answer_all-hub newer s in
      elim (Bool-cases (has id (answer_all newer s).hub.opened)) [
        | inl h ↦ simp (answer_all, finish_push, h) before
        | inr h ↦ simp (answer_all, finish_push, h) before
      ]

  -- A worker that is followed gets what was awaited last.
  answer_all-lookup :
      (pushes : List (ℕ × T)) (s : Session L T) (id : ℕ)
      → has id s.hub.opened ≡ true
      → lookup id (answer_all pushes s).emitted ≡ lookup id (pushes ++ s.emitted)
  unfolding answer_all finish_push
  answer_all-lookup [] s id f = refl
  answer_all-lookup ((j, read) ∷ newer) s id f =
      let before = answer_all-lookup newer s id f in
      let same_hub = ap (λ h. has j h.opened) (answer_all-hub newer s).0 in
      elim (Bool-cases (has j s.hub.opened)) [
        | inl h ↦
            simp (answer_all, finish_push, same_hub ∙ h)
              (elim (Bool-cases (j == id)) [
                | inl same ↦ simp (same) refl
                | inr other ↦ simp (other) before
              ])
        | inr h ↦
            simp (answer_all, finish_push, same_hub ∙ h, other_opened j id s.hub.opened f h) before
      ]

  unfoldable pub settle : Session L T → Session L T
  unfolding fire_all answer_all
  settle s = let fired = fire_all s.timers s in answer_all fired.reading fired

  -- A worker that is not followed gets nothing of what was awaited.
  answer_all-closed :
      (pushes : List (ℕ × T)) (s : Session L T) (id : ℕ)
      → has id s.hub.opened ≡ false
      → lookup id (answer_all pushes s).emitted ≡ lookup id s.emitted
  unfolding answer_all finish_push
  answer_all-closed [] s id f = refl
  answer_all-closed ((j, read) ∷ newer) s id f =
      let before = answer_all-closed newer s id f in
      let same_hub = ap (λ h. has j h.opened) (answer_all-hub newer s).0 in
      elim (Bool-cases (has j s.hub.opened)) [
        | inl h ↦
            simp (answer_all, finish_push, same_hub ∙ h)
              (elim (Bool-cases (j == id)) [
                | inl same ↦ absurd (
                    ground
                      (arith, other_opened id j s.hub.opened h f, same, ==_iff j id, ==_iff id j))
                | inr other ↦ simp (other) before
              ])
        | inr h ↦ simp (answer_all, finish_push, same_hub ∙ h) before
      ]

  fire-emitted : (id : ℕ) (s : Session L T) → (fire view id s).emitted ≡ s.emitted
  unfolding fire push_worker_transcript
  fire-emitted id s = elim (Bool-cases (has id s.hub.opened)) [
    | inl h ↦ simp (fire, push_worker_transcript, h) refl
    | inr h ↦ simp (fire, push_worker_transcript, h) refl
  ]

  fire_all-emitted : (ids : List ℕ) (s : Session L T) → (fire_all ids s).emitted ≡ s.emitted
  unfolding fire_all fire push_worker_transcript
  fire_all-emitted [] s = refl
  fire_all-emitted (id ∷ ids) s = fire_all-emitted ids (fire view id s) ∙ fire-emitted id s

  settled_opened :
      {s : Session L T} (id : ℕ)
      → Reached s
      → has id s.hub.opened ≡ true
      → lookup id (settle s).emitted ≡ some (transcript view id s.hub)
  unfolding IsServed settle
  settled_opened {s} id r followed =
      let fired = fire_all s.timers s in
      let kept = fire_all-kept s.timers s in
      let follows = ap (λ h. has id h.opened) kept.0 ∙ followed in
      let served = fire_all-IsServed s.timers s (Reached-IsServed r) id follows in
      answer_all-lookup fired.reading fired id follows ∙ elim served [
        | inr has_it ↦ has_it ∙ ap (λ h. some (transcript view id h)) kept.0
        | inl waits ↦ absurd (
            let gone = sym waits ∙ ap (has id) kept.1 ∙ has-deletes id s.timers s.timers in
            ground (arith, gone))
      ]

  -- Whatever workers were reported, streamed, opened and closed, where the transcripts that pushes
  -- await come in the order of the pushes: once the timers that wait have run out and all awaited
  -- transcripts have come in that order, the last transcript that the client got of a worker that
  -- it follows is the one that the hub has of it, and of a worker that it does not follow the
  -- client got nothing more.
  pub fire_all-delivers :
      {s : Session L T} (id : ℕ)
      → Reached s
      → lookup id (settle s).emitted
        ≡ (if has id s.hub.opened then some (transcript view id s.hub) else lookup id s.emitted)
  unfolding settle
  fire_all-delivers {s} id r = elim (Bool-cases (has id s.hub.opened)) [
    | inl followed ↦ simp (followed) (settled_opened id r followed)
    | inr closed ↦
        (let fired = fire_all s.timers s in
          let kept = fire_all-kept s.timers s in
          simp (closed) (
            answer_all-closed fired.reading fired id (ap (λ h. has id h.opened) kept.0 ∙ closed)
            ∙ ap (lookup id) (fire_all-emitted s.timers s)))
  ]
