-- ===== src/Workers/Serving.antt =====
-- server/agent-service.ts: the calls that keep the client of a followed worker served.
use dispatch_web.Base.{
  ◌++◌, ◌==◌, Option-cases, nat_eq, string_eq, lookup, text_is_eq, ℕ, ◌≡◌, refl, inl, inr, false,
  List, [], ◌∷◌, arith, add, Option, ap, ◌∙◌, has, true, ◌⊎◌, some, delete, Bool-cases, has-delete,
  has-adds, has-add, ==_iff, insert, sym, lookup-insert,
}
use dispatch_web.Base.{refl, false, arith, ◌≡◌, inl, inr}
use mathlib.Core.List.{append_assoc}
use dispatch_web.Workers.{
  finish_push, BridgeWorker, Records, apply_list, WorkerHub, WorkerRecord, Session,
  push_worker_transcript, transcript, fire, on_workers, on_transcript, open_worker, close_worker,
  apply_transcript, has_worker,
}
use dispatch_web.Workers.Changes.{apply_list_same}

-- An entry of another key.
pub lookup-skip :
    {A : Type 0} (id worker_id : ℕ) (a : A) (before after : List (ℕ × A))
    → (worker_id == id) ≡ false
    → lookup id (before ++ (worker_id, a) ∷ after) ≡ lookup id (before ++ after)
lookup-skip id worker_id a [] after h = simp (h) refl
lookup-skip id worker_id a ((j, b) ∷ before) after h = elim (Bool-cases (j == id)) [
  | inl same ↦ simp (same) refl
  | inr other ↦ simp (other) (lookup-skip id worker_id a before after h)
]

pub other_opened :
    (worker_id id : ℕ) (opened : List ℕ)
    → has id opened ≡ true
    → has worker_id opened ≡ false
    → (worker_id == id) ≡ false
other_opened worker_id id opened h k = elim (Bool-cases (worker_id == id)) [
  | inr other ↦ other
  | inl same ↦
      absurd
        (ground (arith, sym h ∙ ap (λ j. has j opened) (sym ((==_iff worker_id id).0 same)) ∙ k))
]

-- A followed worker has a push that waits, or the client has its transcript as it is.
module _ {L T : Type 0} (view : ℕ → Option (WorkerRecord L) → T) where
  -- What the client has once the pushes that await a transcript are through, in their order.
  abbrev Served : Session L T → ℕ → Type 0
  Served s id =
      (has id s.timers ≡ true)
      ⊎ (lookup id (s.reading ++ s.emitted) ≡ some (transcript view id s.hub))

  unfoldable pub IsServed : Session L T → Type 0
  IsServed s =
      (id : ℕ)
      → has id s.hub.opened ≡ true
      → (has id s.timers ≡ true)
        ⊎ (lookup id (s.reading ++ s.emitted) ≡ some (transcript view id s.hub))

  push-IsServed :
      (worker_id : ℕ) (s : Session L T)
      → ((id : ℕ) → has id s.hub.opened ≡ true → (worker_id == id) ≡ false → Served s id)
      → IsServed (push_worker_transcript view worker_id s)
  unfolding IsServed push_worker_transcript
  push-IsServed worker_id s others = elim (Bool-cases (has worker_id s.hub.opened)) [
    | inr closed ↦
        simp (push_worker_transcript, closed)
          (λ id followed. elim (Bool-cases (worker_id == id)) [
            | inl same ↦ absurd (ground (arith, followed, closed, same))
            | inr other ↦ others id followed other
          ])
    | inl known ↦
        simp (push_worker_transcript, known)
          (λ id followed. elim (Bool-cases (worker_id == id)) [
            | inl same ↦ inr (
                rw same
                  (ap (λ j. some (view j (lookup j s.hub.records))) ((==_iff worker_id id).0 same)))
            | inr other ↦ elim (others id followed other) [
              | inl waits ↦ inl waits
              | inr has_it ↦ inr (rw other has_it)
            ]
          ])
  ]

  pub fire-IsServed :
      (worker_id : ℕ) (s : Session L T) → IsServed s → IsServed (fire view worker_id s)
  unfolding IsServed fire push_worker_transcript
  fire-IsServed worker_id s served =
      push-IsServed worker_id (record s { timers = delete worker_id s.timers })
        (λ id followed other. elim (served id followed) [
          | inl waits ↦ inl (has-delete worker_id id s.timers ∙ ground (arith, waits, other))
          | inr has_it ↦ inr has_it
        ])

  keep-IsServed :
      (s : Session L T) (hub : WorkerHub L)
      → hub ≡ s.hub
      → IsServed s
      → IsServed (record s { hub = hub })
  unfolding IsServed
  keep-IsServed s hub e served = rw e served

  pub on_workers-IsServed :
      (now : ℕ) (workers : List BridgeWorker) (s : Session L T)
      → IsServed s
      → IsServed (on_workers now workers s)
  unfolding IsServed on_workers
  on_workers-IsServed now workers s served = elim (Bool-cases (apply_list now workers s.hub).1) [
    | inr same ↦
        (let hub = apply_list_same now workers s.hub same in
          simp (on_workers, same) (keep-IsServed s (apply_list now workers s.hub).0 hub served))
    | inl changed ↦
        simp (on_workers, changed)
          (λ id followed. inl (
            has-adds id (apply_list now workers s.hub).0.opened s.timers
            ∙ ground (arith, followed)))
  ]

  other_record :
      (worker_id id : ℕ) (rec : WorkerRecord L) (records : Records L)
      → (worker_id == id) ≡ false
      → lookup id (insert worker_id rec records) ≡ lookup id records
  other_record worker_id id rec records other =
      lookup-insert worker_id id rec records ∙ simp (other) refl

  pub on_transcript-IsServed :
      (worker_id : ℕ) (live : L) (s : Session L T)
      → IsServed s
      → IsServed (on_transcript worker_id live s)
  unfolding IsServed on_transcript apply_transcript
  on_transcript-IsServed worker_id live s served =
      elim (Option-cases (lookup worker_id s.hub.records)) [
        | inl e ↦ simp (on_transcript, apply_transcript, e) served
        | inr (rec, e) ↦ elim (Bool-cases (has worker_id s.hub.opened)) [
          | inl followed ↦
              simp (on_transcript, apply_transcript, e, followed)
                (λ id f. elim (Bool-cases (worker_id == id)) [
                  | inl same ↦ inl (has-add worker_id id s.timers ∙ simp (same) refl)
                  | inr other ↦ elim (served id f) [
                    | inl waits ↦ inl (has-add worker_id id s.timers ∙ simp (other) waits)
                    | inr has_it ↦ inr (
                        has_it
                        ∙ ap (λ r. some (view id r))
                            (sym (other_record worker_id id _ s.hub.records other)))
                  ]
                ])
          | inr closed ↦
              simp (on_transcript, apply_transcript, e, closed)
                (λ id f. elim (Bool-cases (worker_id == id)) [
                  | inl same ↦ absurd (ground (arith, f, closed, same))
                  | inr other ↦ elim (served id f) [
                    | inl waits ↦ inl waits
                    | inr has_it ↦ inr (
                        has_it
                        ∙ ap (λ r. some (view id r))
                            (sym (other_record worker_id id _ s.hub.records other)))
                  ]
                ])
        ]
      ]

  pub open_worker-IsServed :
      (worker_id : ℕ) (s : Session L T) → IsServed s → IsServed (open_worker view worker_id s)
  unfolding IsServed open_worker push_worker_transcript
  open_worker-IsServed worker_id s served = elim (Bool-cases (has_worker worker_id s.hub)) [
    | inr unknown ↦ simp (open_worker, unknown) served
    | inl known ↦
        simp (open_worker, known)
          (push-IsServed worker_id
            (record s { hub = record s.hub { opened = add worker_id s.hub.opened } })
            (λ id followed other.
              served id (ground (arith, has-add worker_id id s.hub.opened, followed, other))))
  ]

  pub close_worker-IsServed :
      (worker_id : ℕ) (s : Session L T) → IsServed s → IsServed (close_worker worker_id s)
  unfolding IsServed close_worker
  close_worker-IsServed worker_id s served id followed =
      served id (ground (arith, has-delete worker_id id s.hub.opened, followed))

  -- The oldest push that awaits a transcript gets it.
  pub finish-IsServed :
      (s : Session L T) (rest : List (ℕ × T)) (push : ℕ × T)
      → s.reading ≡ rest ++ push ∷ []
      → IsServed s
      → IsServed (finish_push push (record s { reading = rest }))
  unfolding IsServed finish_push
  finish-IsServed s rest (worker_id, read) e served =
      let all_pushes : s.reading ++ s.emitted ≡ rest ++ (worker_id, read) ∷ s.emitted =
        ap (λ r. r ++ s.emitted) e ∙ append_assoc rest ((worker_id, read) ∷ []) s.emitted in
      elim (Bool-cases (has worker_id s.hub.opened)) [
        | inl followed ↦
            simp (finish_push, followed)
              (λ id f. elim (served id f) [
                | inl waits ↦ inl waits
                | inr has_it ↦ inr (sym (ap (lookup id) all_pushes) ∙ has_it)
              ])
        | inr closed ↦
            simp (finish_push, closed)
              (λ id f. elim (served id f) [
                | inl waits ↦ inl waits
                | inr has_it ↦ inr (
                    sym (
                      lookup-skip id worker_id read rest s.emitted
                        (other_opened worker_id id s.hub.opened f closed))
                    ∙ sym (ap (lookup id) all_pushes)
                    ∙ has_it)
              ])
      ]
