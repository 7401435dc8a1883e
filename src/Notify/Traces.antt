-- ===== src/Notify/Traces.antt =====
-- Sequences of calls of the lifecycle, in any order, from any state.
use dispatch_web.Base.{
  ℕ, ◌+◌, ◌≤◌, String, ◌≡◌, refl, Bool, true, false, Option, none, some, List, [], ◌∷◌, arith,
  is_some, any, ◌∙◌,
}
use dispatch_web.Notify.{
  Run, Context, Message, Event, State, agent_start, agent_end, abort, settled, reset,
  scan_assistant, finish,
}

pub data Call : Type 0 where
  starts : Call
  ends : List Message → Call
  aborts : Call
  settles : String → Context → Call
  resets : Call

-- The new state, and the event that is sent.
unfoldable pub step : State → Call → Option Event × State
step s starts = (none, agent_start s)
step s (ends messages) = (none, agent_end messages s)
step s aborts = (none, abort s)
step s (settles id c) = settled id c s
step s resets = (none, reset s)

abbrev pub count : Bool → ℕ
count true = 1
count false = 0

abbrev pub is_start : Call → Bool
is_start starts = true
is_start _ = false

-- How many events a sequence of calls sends, and how many runs it starts.
unfoldable pub sent : State → List Call → ℕ
sent s [] = 0
sent s (c ∷ cs) = count (is_some (step s c).0) + sent (step s c).1 cs

unfoldable pub started : List Call → ℕ
started [] = 0
started (c ∷ cs) = count (is_start c) + started cs

step_budget :
    (s : State) (c : Call)
    → count (is_some (step s c).0) + count (is_some (step s c).1)
      ≤ count (is_start c) + count (is_some s)
unfolding step agent_start agent_end abort settled reset
step_budget none starts = omega arith
step_budget (some run) starts = omega arith
step_budget none (ends ms) = omega arith
step_budget (some run) (ends ms) = omega arith
step_budget none aborts = omega arith
step_budget (some run) aborts = omega arith
step_budget none (settles id c) = omega arith
step_budget (some run) (settles id c) = ground arith
step_budget none resets = omega arith
step_budget (some run) resets = omega arith

-- From any state, a sequence of calls sends at most one event for each `agentStart` in it, and one
-- more for a run that is already tracked.
pub sent-le-started : (s : State) (cs : List Call) → sent s cs ≤ started cs + count (is_some s)
unfolding sent started
sent-le-started s [] = omega arith
sent-le-started s (c ∷ cs) = omega (arith, step_budget s c, sent-le-started (step s c).1 cs)

-- No run is tracked, or the user has aborted it.
unfoldable pub is_silenced : State → Bool
is_silenced none = true
is_silenced (some run) = run.abort_requested

scan_keeps :
    (ms : List Message) (run : Run) → (scan_assistant ms run).abort_requested ≡ run.abort_requested
unfolding scan_assistant
scan_keeps [] run = refl
scan_keeps (m ∷ ms) run = ground (arith, scan_keeps ms run)

step_silenced :
    (s : State) (c : Call)
    → is_silenced s ≡ true
    → is_start c ≡ false
    → ((step s c).0 ≡ none) × (is_silenced (step s c).1 ≡ true)
unfolding step agent_end abort settled finish reset is_silenced
step_silenced none starts h k = ground arith
step_silenced (some run) starts h k = ground arith
step_silenced none (ends ms) h k = ground arith
step_silenced (some run) (ends ms) h k = (refl, scan_keeps _ run ∙ h)
step_silenced none aborts h k = ground arith
step_silenced (some run) aborts h k = ground arith
step_silenced none (settles id c) h k = ground arith
step_silenced (some run) (settles id c) h k = ground arith
step_silenced none resets h k = ground arith
step_silenced (some run) resets h k = ground arith

silenced_sends_none :
    (s : State) (cs : List Call) → is_silenced s ≡ true → any is_start cs ≡ false → sent s cs ≡ 0
unfolding sent
silenced_sends_none s [] h k = refl
silenced_sends_none s (c ∷ cs) h k =
    let (quiet, next) = step_silenced s c h (ground arith) in
    let rest = silenced_sends_none (step s c).1 cs next (ground arith) in
    rw quiet (omega (arith, rest))

abort-silenced : (s : State) → is_silenced (abort s) ≡ true
unfolding abort is_silenced
abort-silenced none = refl
abort-silenced (some run) = refl

-- After `abort` no sequence of calls without a further `agentStart` sends an event, whatever it
-- reports or settles, and whether or not a run was tracked.
pub abort_silences : (s : State) (cs : List Call) → any is_start cs ≡ false → sent (abort s) cs ≡ 0
abort_silences s cs k = silenced_sends_none (abort s) cs (abort-silenced s) k
