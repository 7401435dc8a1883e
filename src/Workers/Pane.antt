-- ===== src/Workers/Pane.antt =====
-- web/src/workers.ts: the workers of a conversation as the browser groups and labels them.
use dispatch_web.Base.{
  ltb, leb, ◌==◌, if◌then◌else◌, length, filter, nat_eq, string_eq, is_text, Text, codes,
  text_is_eq, ℕ, ◌-◌, ◌/◌, ◌%◌, String, Bool, not, ◌&&◌, ◌||◌, Option, none, some, List, [], ◌∷◌,
  ◌++◌, str_eq,
}
use dispatch_web.Base.{leb, ltb, not, ◌==◌, ◌-◌, ◌/◌, ◌%◌, if◌then◌else◌, string_eq}
use dispatch_web.Serialize.{decimal}

-- The fields that the functions below read.
pub record UiWorker : Type 0 where
  pub id : ℕ
  pub tool_call_id : Option String
  pub status : String
  pub started : ℕ
  pub ended : Option ℕ

unfoldable pub is_worker_active : String → Bool
is_worker_active status = str_eq status "starting" || str_eq status "running"

-- `sort` with a comparison: stable, and `before` says that its first argument may stand first.
abbrev pub insert_by : (UiWorker → UiWorker → Bool) → UiWorker → List UiWorker → List UiWorker
insert_by before w [] = w ∷ []
insert_by before w (v ∷ sorted) =
    if before w v then w ∷ v ∷ sorted else v ∷ insert_by before w sorted

unfoldable pub sort_by : (UiWorker → UiWorker → Bool) → List UiWorker → List UiWorker
sort_by before [] = []
sort_by before (w ∷ workers) = insert_by before w (sort_by before workers)

abbrev pub by_start : UiWorker → UiWorker → Bool
by_start a b = leb a.id b.id

abbrev pub newest_first : UiWorker → UiWorker → Bool
newest_first a b = leb b.id a.id

pub record Groups : Type 0 where
  pub active : List UiWorker
  pub done : List UiWorker
  pub failed : List UiWorker

abbrev pub is_failed : UiWorker → Bool
is_failed w = str_eq w.status "failed"

abbrev pub is_done : UiWorker → Bool
is_done w = not (is_worker_active w.status) && not (is_failed w)

unfoldable pub split_workers : List UiWorker → Groups
unfolding sort_by
split_workers workers = record {
  active = sort_by by_start (filter (λ w. is_worker_active w.status) workers);
  done = sort_by newest_first (filter is_done workers);
  failed = sort_by newest_first (filter is_failed workers);
}

-- The workers of a tool call; where none carries its id, those of the saved result.
unfoldable pub workers_for_call : List UiWorker → String → List UiWorker → List UiWorker
unfolding sort_by
workers_for_call workers tool_call_id saved =
    let linked = sort_by by_start (filter (λ w. is_text tool_call_id w.tool_call_id) workers) in
    if ltb 0 (length linked) then linked else saved

-- Whole seconds, none where they cannot be known.
unfoldable pub worker_elapsed_sec : UiWorker → ℕ → Option ℕ
worker_elapsed_sec w now = if w.started == 0 then none else elim w.ended [
  | some ended ↦ some ((ended - w.started) / 1000)
  | none ↦ if is_worker_active w.status then some ((now - w.started) / 1000) else none
]

abbrev pub two_digits : ℕ → Text
two_digits n = if ltb n 10 then b'0' ∷ decimal n else decimal n

unfoldable pub format_elapsed : Option ℕ → Text
format_elapsed none = []
format_elapsed (some sec) =
    if ltb sec 60
    then decimal sec ++ codes "s"
    else (let m = sec / 60 in
        if ltb m 60
        then decimal m ++ codes "m " ++ two_digits (sec % 60) ++ codes "s"
        else decimal (m / 60) ++ codes "h " ++ two_digits (m % 60) ++ codes "m")

unfoldable pub worker_status_tone : String → String
worker_status_tone status =
    if is_worker_active status
    then "run"
    else if str_eq status "completed"
    then "ok"
    else if str_eq status "interrupted"
    then "idle"
    else "err"
