-- ===== src/Terminals/Events.antt =====
-- server/terminals.ts: what happens to a terminal that runs: output, the coalescing timer, exit,
-- closing, renaming and resizing.
use dispatch_web.Base.{
  ltb, leb, ◌==◌, if◌then◌else◌, is_some, length, nat_eq, string_eq, lookup, insert, remove, Text,
  text_eq, text_is_eq, trim, ℕ, true, ◌&&◌, Option, none, some, List, [], ◌∷◌, ◌++◌,
}
use dispatch_web.Terminals.{
  max_terminal_history, TermEntry, ServerMessage, terminal_output, terminal_exit, terminal_list,
  append_output, queue_out, flush_pending, Reading, read_entry,
}
use dispatch_web.Terminals.Manager.{Manager, list, find_entry, dimension}

-- `onData`: an event of a replaced shell is ignored.
unfoldable pub on_data : Text → ℕ → Text → Manager → Manager
on_data id serial data' m = elim (lookup id m.terms) [
  | none ↦ m
  | some e ↦
      if e.serial == serial
      then record m { terms = insert id (queue_out (append_output e data') data') m.terms }
      else m
]

-- The coalescing timer fires, for the entry that set it.
unfoldable pub on_flush : Text → ℕ → Manager → Manager × List ServerMessage
on_flush id serial m = elim (lookup id m.terms) [
  | none ↦ (m, [])
  | some e ↦
      if e.serial == serial && e.flush_timer
      then (let (e', sent) = flush_pending e in (record m { terms = insert id e' m.terms }, sent))
      else (m, [])
]

-- The loop that makes room in the history.
unfoldable pub make_room : List (Text × TermEntry) → List (Text × TermEntry)
make_room [] = []
make_room (oldest ∷ m) =
    let rest = make_room m in
    if leb max_terminal_history (length (oldest ∷ m)) then rest else oldest ∷ m

-- `exit`, for the marker text of the exit code.
unfoldable pub exit : Text → Text → ℕ → Manager → Manager × List ServerMessage
exit id marker code m = elim (lookup id m.terms) [
  | none ↦ (m, [])
  | some e ↦
      if e.exited
      then (m, [])
      else (let (e1, sent) = flush_pending e in
          let e2 = record (append_output e1 marker) { exited = true; exit_code = some code } in
          let m' = record m {
            terms = remove id m.terms;
            history = insert id e2 (make_room m.history);
          } in
          (
            m',
            sent
                ++ (terminal_output id marker
                    ∷ terminal_exit id (some code)
                    ∷ terminal_list (list m')
                    ∷ []),
          ))
]

unfoldable pub kill : Text → Manager → Manager × List ServerMessage
kill id m = elim (lookup id m.terms) [
  | some e ↦
      let m' = record m { terms = remove id m.terms } in
      (m', (flush_pending e).1 ++ (terminal_exit id none ∷ terminal_list (list m') ∷ []))
  | none ↦
      let m' = record m { history = remove id m.history } in
      if is_some (lookup id m.history) then (m', terminal_list (list m') ∷ []) else (m, [])
]

unfoldable pub rename : Text → Text → Manager → Manager × List ServerMessage
rename id title m = if text_eq (trim title) [] then (m, []) else elim (lookup id m.terms) [
  | some e ↦
      let m' = record m { terms = insert id (record e { title = trim title }) m.terms } in
      (m', terminal_list (list m') ∷ [])
  | none ↦ elim (lookup id m.history) [
    | none ↦ (m, [])
    | some e ↦
        let m' = record m { history = insert id (record e { title = trim title }) m.history } in
        (m', terminal_list (list m') ∷ [])
  ]
]

-- `resize`, where node-pty takes the new size.
unfoldable pub resize : Text → ℕ → ℕ → Manager → Manager
resize id cols rows m = elim (lookup id m.terms) [
  | none ↦ m
  | some e ↦ if e.exited then m else record m {
    terms = insert id (record e { cols = dimension cols 80; rows = dimension rows 24 }) m.terms;
  }
]

unfoldable pub kill_all : Manager → Manager × List ServerMessage
kill_all m = (record m { terms = []; history = [] }, terminal_list [] ∷ [])

unfoldable pub replay_from : List (Text × TermEntry) → List (Text × Text)
replay_from [] = []
replay_from ((id, e) ∷ m) =
    if ltb 0 (length e.output) then (e.id, e.output) ∷ replay_from m else replay_from m

unfoldable pub replay : Manager → List (Text × Text)
unfolding replay_from
replay m = replay_from m.terms ++ replay_from m.history

unfoldable pub read : Text → ℕ → ℕ → Manager → Option Reading
unfolding find_entry
read id cursor max_bytes m = elim (find_entry id m) [
  | none ↦ none
  | some e ↦ some (read_entry e cursor max_bytes)
]
