-- ===== src/Terminals.antt =====
-- server/terminals.ts: one terminal of a conversation: its output window and its coalesced output.
-- Timers of the idle watch and the callbacks of waiters and watches are left out; `flush_timer` says
-- whether the coalescing timer runs. A number that the source rounds is a natural number here.
pub mod Keys
pub mod Modified
pub mod Window
pub mod Manager
pub mod Events
pub mod Limits
pub mod Handling
pub mod Starting
pub mod Steps
pub mod Stream
pub mod Pipes
mod Tests
use dispatch_web.Base.{
  ltb, ◌==◌, if◌then◌else◌, length, take, drop, nat_eq, string_eq, Text, text_eq, text_is_eq, ℕ,
  ◌+◌, ◌-◌, min, max, Bool, true, false, not, Option, List, [], ◌∷◌, ◌++◌,
}

abbrev pub max_terminals : ℕ
max_terminals = 16

abbrev pub max_terminal_history : ℕ
max_terminal_history = 32

abbrev pub max_output : ℕ
max_output = 200000

abbrev pub max_id : ℕ
max_id = 80

-- `serial` stands for the identity of the object: a restarted terminal is another entry.
pub record TermEntry : Type 0 where
  pub id : Text
  pub serial : ℕ
  pub title : Text
  pub cwd : Text
  pub cols : ℕ
  pub rows : ℕ
  pub exited : Bool
  pub exit_code : Option ℕ
  pub command : Option Text
  pub output : Text
  pub output_offset : ℕ
  pub pending_out : Text
  pub flush_timer : Bool
  pub agent_bash : Bool

pub record TerminalInfo : Type 0 where
  pub id : Text
  pub title : Text
  pub cwd : Text
  pub cols : ℕ
  pub rows : ℕ
  pub running : Bool
  pub exit_code : Option ℕ
  pub command : Option Text
  pub agent_bash : Bool

pub data ServerMessage : Type 0 where
  terminal_output : Text → Text → ServerMessage
  terminal_exit : Text → Option ℕ → ServerMessage
  terminal_list : List TerminalInfo → ServerMessage
  failed : Text → Text → ServerMessage

unfoldable pub info : TermEntry → TerminalInfo
info e = record {
  id = e.id;
  title = e.title;
  cwd = e.cwd;
  cols = e.cols;
  rows = e.rows;
  running = not e.exited;
  exit_code = e.exit_code;
  command = e.command;
  agent_bash = e.agent_bash;
}

unfoldable pub append_output : TermEntry → Text → TermEntry
append_output e data' =
    let output = e.output ++ data' in
    let excess = length output - max_output in
    if ltb max_output (length output)
    then record e { output = drop excess output; output_offset = e.output_offset + excess }
    else record e { output = output }

unfoldable pub queue_out : TermEntry → Text → TermEntry
queue_out e data' = record e { pending_out = e.pending_out ++ data'; flush_timer = true }

unfoldable pub flush_pending : TermEntry → TermEntry × List ServerMessage
flush_pending e =
    let idle = record e { flush_timer = false } in
    if text_eq e.pending_out []
    then (idle, [])
    else (record idle { pending_out = [] }, terminal_output e.id e.pending_out ∷ [])

unfoldable pub end_of_output : TermEntry → ℕ
end_of_output e = e.output_offset + length e.output

pub record Reading : Type 0 where
  pub text : Text
  pub cursor : ℕ
  pub running : Bool
  pub exit_code : Option ℕ

-- `Math.floor(maxBytes) || 20_000`.
abbrev pub byte_limit : ℕ → ℕ
byte_limit max_bytes = if max_bytes == 0 then 20000 else max_bytes

unfoldable pub read_entry : TermEntry → ℕ → ℕ → Reading
unfolding end_of_output
read_entry e cursor max_bytes =
    let start = max e.output_offset (min cursor (end_of_output e)) in
    let stop = min (start + max 1 (byte_limit max_bytes)) (end_of_output e) in
    record {
      text = take (stop - start) (drop (start - e.output_offset) e.output);
      cursor = stop;
      running = not e.exited;
      exit_code = e.exit_code;
    }
