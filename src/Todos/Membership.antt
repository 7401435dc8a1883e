-- ===== src/Todos/Membership.antt =====
-- Which tasks count as touched by the current run.
use dispatch_web.Base.{
  none, false, true, find, reverse, is_some, str_eq, Bool, refl, ◌∙◌, ap, is_text, ◌==◌,
  if◌then◌else◌, any, nat_eq, string_eq, has, add, has-add, has-filter, ℕ, String, ◌≡◌, not, ◌&&◌,
  ◌||◌, Option, some, List, [], ◌∷◌, arith,
}
use mathlib.Core.Path.{ap₂}
use dispatch_web.Todos.{
  Status, deleted, is_deleted, is_changed, is_read_only, is_updated, previous, Task, Details, Todos,
  task_details, is_visible, is_touched, collect, kept_ids, apply,
}

-- What the statement means by a task that is not deleted, by an action that is no read, by a task
-- that is new or changed, and by the task that a successful update names.
abbrev pub is_alive : Status → Bool
is_alive deleted = false
is_alive _ = true

abbrev pub is_mutation : Details → Bool
is_mutation d = not (is_text "list" d.action || is_text "get" d.action)

abbrev pub is_news : (Task → String) → List Task → Task → Bool
is_news json before t = elim (find (λ p. p.id == t.id) (reverse before)) [
  | none ↦ true
  | some p ↦ not (str_eq (json p) (json t))
]

abbrev pub is_named : Details → ℕ → Bool
is_named d id =
    not (is_some d.error)
    && (is_text "update" d.action && elim d.params_id [ none ↦ false | some i ↦ i == id ])

not_deleted : (s : Status) → not (is_deleted s) ≡ is_alive s
not_deleted s = ground arith

module _ (json : Task → String) where
  has-collect :
      (prev : List Task) (d : Details) (ts : List Task) (ids : List ℕ) (id : ℕ)
      → has id (collect json prev d ts ids)
        ≡ (has id ids || any (λ t. t.id == id && is_touched json prev d t) ts)
  unfolding collect
  has-collect prev d [] ids id = ground arith
  has-collect prev d (t ∷ ts) ids id = ground (
    arith,
    has-collect prev d ts (if is_touched json prev d t then add t.id ids else ids) id,
    has-add t.id id ids,
  )

  touched-apply :
      (details : Option Details) (next : List Task) (n : ℕ) (d : Details) (s : Todos) (id : ℕ)
      → task_details details ≡ some (next, n, d)
      → has id (apply json details s).0.run_ids ≡ (
          is_visible next id
          && ((not (is_text "clear" d.action) && has id s.run_ids)
              || any (λ t. t.id == id && is_touched json s.tasks d t) next))
  unfolding apply kept_ids
  touched-apply details next n d s id h =
      rw (h, apply)
        (ground (
          arith,
          has-filter (is_visible next) id (collect json s.tasks d next (kept_ids json d s.run_ids)),
          has-collect s.tasks d next (kept_ids json d s.run_ids) id,
        ))

  visible-alive :
      (ts : List Task) (id : ℕ) → is_visible ts id ≡ any (λ t. t.id == id && is_alive t.status) ts
  unfolding is_visible
  visible-alive [] id = refl
  visible-alive (t ∷ ts) id =
      ap₂ (λ a b. (t.id == id && a) || b) (not_deleted t.status) (visible-alive ts id)

  touched-news :
      (before : List Task) (d : Details) (ts : List Task) (id : ℕ)
      → any (λ t. t.id == id && is_touched json before d t) ts
        ≡ any (λ t. t.id == id && (is_mutation d && (is_news json before t || is_named d t.id))) ts
  unfolding is_touched is_changed is_read_only is_updated previous
  touched-news before d ts id = refl

  -- After a valid snapshot is applied, an id belongs to the run exactly when a task of the snapshot
  -- that is not deleted has it, and either it belonged before and the action is not "clear", or the
  -- action is no read and a task of the snapshot with this id is new, differs from the task that
  -- had this id before, or is the one that a successful "update" names.
  pub has-apply :
      (details : Option Details) (next : List Task) (n : ℕ) (d : Details) (s : Todos) (id : ℕ)
      → task_details details ≡ some (next, n, d)
      → has id (apply json details s).0.run_ids ≡ (
          any (λ t. t.id == id && is_alive t.status) next
          && ((not (is_text "clear" d.action) && has id s.run_ids)
              || any
                  (λ t.
                    t.id == id && (is_mutation d && (is_news json s.tasks t || is_named d t.id)))
                  next))
  has-apply details next n d s id h =
      touched-apply details next n d s id h
      ∙ ap₂ ◌&&◌ (visible-alive next id) (
          ap (λ b. (not (is_text "clear" d.action) && has id s.run_ids) || b)
            (touched-news s.tasks d next id))
