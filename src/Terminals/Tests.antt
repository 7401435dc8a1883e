-- ===== src/Terminals/Tests.antt =====
-- Runs of server/terminals.ts on small inputs.
use dispatch_web.Base.{◌≢◌, ap, map, codes, ok, ◌-◌, true, false}
use dispatch_web.Serialize.{to_string}
use dispatch_web.Terminals.Modified.{encode_terminal_key-modifiers}
use dispatch_web.Terminals.Keys.{Modifiers, encode_terminal_key, named, named_code}
use dispatch_web.Terminals.Pipes.{
  IsSplit, split_from, split_top_level_pipes, split_top_level_pipes-IsSplit,
}
use dispatch_web.Base.{
  trim_end, trim_start, is_space, length, nat_eq, string_eq, Text, codes, text_is_eq, ◌≡◌, refl,
  Bool, true, false, none, some, List, [], ◌∷◌, ◌++◌, arith,
}
use dispatch_web.Terminals.{TermEntry, append_output, read_entry}
use dispatch_web.Terminals.Window.{
  IsWindow, append_output-IsWindow, IsReading, read_entry-IsReading,
}
use dispatch_web.Terminals.Manager.{
  Manager, CommandDef, Spawning, live_user, create, run_command, valid_id, fresh_entry,
}
use dispatch_web.Terminals.Events.{exit}
use dispatch_web.Terminals.Limits.{IsManager}
use dispatch_web.Terminals.Steps.{
  Event, created, exited, step, new_manager, stepped, Reached-IsManager, run_command-agent_bash,
}
use dispatch_web.Terminals.Stream.{Tick, arrives, fires, run, heard, IsRunning, run-exit}

abbrev shell : Text
shell = codes "t1"

abbrev entry : Bool → TermEntry
entry agent_bash = fresh_entry shell (codes "/w") (codes "one") 80 24 0 none agent_bash

abbrev one_shell : Bool → Manager
one_shell agent_bash = record {
  terms = (shell, entry agent_bash) ∷ [];
  history = [];
  seq = 0;
  serials = 1;
}

abbrev works : Spawning
works = record { dir = some (codes "/w"); failure = none }

abbrev build : CommandDef
build = record { name = codes "build"; command = codes "make" }

entry-IsWindow : IsWindow [] (entry false)
entry-IsWindow = record { offset = refl; suffix = refl }

append_output-IsWindow_example : IsWindow (codes "ok") (append_output (entry false) (codes "ok"))
append_output-IsWindow_example = append_output-IsWindow [] (entry false) (codes "ok") entry-IsWindow

test_read_entry-IsReading :
    IsReading
      (codes "ok")
      (append_output (entry false) (codes "ok"))
      1
      (read_entry (append_output (entry false) (codes "ok")) 1 10)
test_read_entry-IsReading =
    read_entry-IsReading (codes "ok") (append_output (entry false) (codes "ok")) 1 10
      (append_output-IsWindow [] (entry false) (codes "ok") entry-IsWindow)

one_shell-IsRunning : IsRunning shell 0 [] (one_shell false)
one_shell-IsRunning = record {
  entry = entry false;
  found = refl;
  same = refl;
  live = (refl, refl);
  waiting = refl;
  timer = λ h. absurd (h refl);
}

abbrev ticks : List Tick
ticks = arrives (codes "a") ∷ fires ∷ arrives (codes "b") ∷ []

run-exit_example :
    heard shell (
      (run shell 0 ticks (one_shell false)).1
      ++ (exit shell (codes "done") 0 (run shell 0 ticks (one_shell false)).0).1)
    ≡ codes "abdone"
run-exit_example = run-exit shell 0 ticks [] (codes "done") 0 (one_shell false) one_shell-IsRunning

abbrev first_event : Event
first_event = created shell (codes "one") (λ n. codes "t") 80 24 false works

abbrev second_event : Event
second_event = exited shell (codes "done") 0

Reached-IsManager_example : IsManager (
    step second_event
      (step first_event (record { terms = []; history = []; seq = 0; serials = 0 })))
Reached-IsManager_example =
    Reached-IsManager (stepped second_event (stepped first_event new_manager tt) tt)

agent_shell-IsManager : IsManager (one_shell true)
unfolding live_user
agent_shell-IsManager = record {
  live = ((refl, refl), tt);
  distinct_terms = (refl, tt);
  distinct_history = tt;
  apart = λ j h. refl;
  history_bound = omega arith;
  user_bound = omega arith;
}

run_command-agent_bash_example :
    live_user (run_command shell build (λ n. codes "t") [] 80 24 works (one_shell true)).0.terms ≡ 1
unfolding live_user valid_id
run_command-agent_bash_example =
    run_command-agent_bash shell build (λ n. codes "t") [] (codes "/w") 80 24 (one_shell true)
      (entry true) agent_shell-IsManager refl refl refl

test_create : length ((create shell [] (λ n. codes "t") 0 1 false works (one_shell false)).1) ≡ 0
unfolding create valid_id
test_create = refl

split_top_level_pipes-IsSplit_example :
    IsSplit (split_top_level_pipes (codes "make | tail")) (codes "make | tail")
split_top_level_pipes-IsSplit_example = split_top_level_pipes-IsSplit (codes "make | tail")

-- A bar behind a backslash outside of quotes is a separator too.
test_split_escaped : split_top_level_pipes (codes "a\\|b") ≡ codes "a\\" ∷ codes "b" ∷ []
unfolding split_top_level_pipes split_from trim_end trim_start is_space
test_split_escaped = refl

abbrev with_ctrl : Modifiers
with_ctrl = record { ctrl = true; alt = false; shift = false }

test_encode_terminal_key :
    encode_terminal_key (map (λ c. c - 32)) (codes "c") with_ctrl ≡ ok (3 ∷ [])
unfolding encode_terminal_key named named_code
test_encode_terminal_key = refl

test_encode_terminal_key_page_up :
    encode_terminal_key (λ s. s) (codes "PageUp") with_ctrl ≡ ok (27 ∷ codes "[5;5u")
unfolding encode_terminal_key named named_code to_string
test_encode_terminal_key_page_up = refl

abbrev unmodified : Modifiers
unmodified = record { ctrl = false; alt = false; shift = false }

with_ctrl-unmodified : with_ctrl ≢ unmodified
with_ctrl-unmodified same = ground (arith, ap (λ m. m.ctrl) same)

encode_terminal_key-modifiers_example :
    encode_terminal_key (λ s. s) (codes "Tab") with_ctrl
    ≢ encode_terminal_key (λ s. s) (codes "Tab") unmodified
unfolding named
encode_terminal_key-modifiers_example =
    encode_terminal_key-modifiers (λ s. s) (codes "Tab") (9 ∷ []) with_ctrl unmodified refl
      with_ctrl-unmodified
