-- ===== src/Terminals/Steps.antt =====
-- The calls of a manager and the events of its shells, one after the other.
use dispatch_web.Base.{
  Distinct, insert, refl, nat_eq, string_eq, nat_eq, string_eq, has, lookup, remove, keys, Text,
  text_eq_iff, text_is_eq, ℕ, ◌+◌, ◌≡◌, false, some, List, [], ◌∷◌, arith, Bool, true, none, insert,
  remove_absent, ◌∙◌, ap,
}
use dispatch_web.Terminals.{TermEntry}
use dispatch_web.Terminals.Manager.{
  run_command, restart, CommandDef, Manager, live_user, create, spawn_shell, Spawning, valid_id,
}
use dispatch_web.Terminals.Events.{kill_all, on_data, kill, on_flush, exit, rename, resize}
use dispatch_web.Terminals.Limits.{live_user-replace, empty-IsManaged, IsManager}
use dispatch_web.Terminals.Handling.{
  forgotten, append_output-agent_bash, on_data-IsManager, on_flush-IsManager, exit-IsManager,
  rename-IsManager, resize-IsManager, kill-IsManager,
}
use dispatch_web.Terminals.Starting.{
  create-IsManager, IsUserOwned, lookup_inserted, run_command-IsManager,
}

-- A call of the manager, or an event of one of its shells.
pub data Event : Type 0 where
  created : Text → Text → (ℕ → Text) → ℕ → ℕ → Bool → Spawning → Event
  ran : Text → CommandDef → (ℕ → Text) → Text → ℕ → ℕ → Spawning → Event
  printed : Text → ℕ → Text → Event
  flushed : Text → ℕ → Event
  exited : Text → Text → ℕ → Event
  killed : Text → Event
  renamed : Text → Text → Event
  resized : Text → ℕ → ℕ → Event
  cleared : Event

unfoldable pub step : Event → Manager → Manager
step (created id title numbered cols rows agent_bash s) m =
    (create id title numbered cols rows agent_bash s m).0
step (ran id def' numbered banner cols rows s) m =
    (run_command id def' numbered banner cols rows s m).0
step (printed id serial data') m = on_data id serial data' m
step (flushed id serial) m = (on_flush id serial m).0
step (exited id marker code) m = (exit id marker code m).0
step (killed id) m = (kill id m).0
step (renamed id title) m = (rename id title m).0
step (resized id cols rows) m = resize id cols rows m
step cleared m = (kill_all m).0

abbrev pub IsAllowed : Event → Manager → Type 0
IsAllowed (ran id def' numbered banner cols rows s) m = IsUserOwned id m
IsAllowed (created id title numbered cols rows agent_bash s) m = Unit
IsAllowed (printed id serial data') m = Unit
IsAllowed (flushed id serial) m = Unit
IsAllowed (exited id marker code) m = Unit
IsAllowed (killed id) m = Unit
IsAllowed (renamed id title) m = Unit
IsAllowed (resized id cols rows) m = Unit
IsAllowed cleared m = Unit

step-IsManager : (e : Event) (m : Manager) → IsManager m → IsAllowed e m → IsManager (step e m)
unfolding step kill_all
step-IsManager (created id title numbered cols rows agent_bash s) m v a =
    create-IsManager id title numbered cols rows agent_bash s m v
step-IsManager (ran id def' numbered banner cols rows s) m v a =
    run_command-IsManager id def' numbered banner cols rows s m v a
step-IsManager (printed id serial data') m v a = on_data-IsManager id serial data' m v
step-IsManager (flushed id serial) m v a = on_flush-IsManager id serial m v
step-IsManager (exited id marker code) m v a = exit-IsManager id marker code m v
step-IsManager (killed id) m v a = kill-IsManager id m v
step-IsManager (renamed id title) m v a = rename-IsManager id title m v
step-IsManager (resized id cols rows) m v a = resize-IsManager id cols rows m v
step-IsManager cleared m v a = empty-IsManaged

-- The managers that calls and events can produce, when no command restarts an agent's bash call.
pub data Reached : Manager → Type 0 where
  new_manager : Reached (record { terms = []; history = []; seq = 0; serials = 0 })
  stepped : {m : Manager} (e : Event) → Reached m → IsAllowed e m → Reached (step e m)

-- In every state that a sequence of calls and shell events reaches, as long as no command restarts
-- a live agent bash call: no terminal is both live and in the history, no id stands twice, live
-- terminals have not exited, at most 32 terminals are remembered, and at most 16 live terminals
-- count against the limit.
pub Reached-IsManager : {m : Manager} → Reached m → IsManager m
Reached-IsManager new_manager = empty-IsManaged
Reached-IsManager (stepped e r a) = step-IsManager e _ (Reached-IsManager r) a

live_user-remove-agent :
    (id : Text) (e : TermEntry) (m : List (Text × TermEntry))
    → Distinct (keys m)
    → lookup id m ≡ some e
    → e.agent_bash ≡ true
    → live_user (remove id m) ≡ live_user m
unfolding live_user
live_user-remove-agent id e [] d h k = absurd (ground arith)
live_user-remove-agent id e ((j, w) ∷ m) d h k =
    ground (arith, live_user-remove-agent id e m d.1, remove_absent j m, text_eq_iff j id)

live_user-insert-new :
    (id : Text) (e : TermEntry) (m : List (Text × TermEntry))
    → has id (keys m) ≡ false
    → e.agent_bash ≡ false
    → live_user (insert id e m) ≡ live_user m + 1
unfolding live_user
live_user-insert-new id e [] h k = ground arith
live_user-insert-new id e ((j, w) ∷ m) h k = ground (arith, live_user-insert-new id e m)

-- A command that restarts a live agent bash call is not checked against the limit, and the new
-- shell counts as the user's: where the directory is accepted and the shell starts, there is one
-- more user terminal, also when the limit of 16 was reached.
pub run_command-agent_bash :
    (id : Text) (def' : CommandDef) (numbered : ℕ → Text) (banner dir : Text) (cols rows : ℕ)
    (m : Manager) (e : TermEntry)
    → IsManager m
    → valid_id id ≡ true
    → lookup id m.terms ≡ some e
    → e.agent_bash ≡ true
    → live_user
        (run_command id def' numbered banner cols rows
          (record { dir = some dir; failure = none })
          m).0.terms
      ≡ live_user m.terms + 1
unfolding run_command restart spawn_shell
run_command-agent_bash id def' numbered banner dir cols rows m e v b h k =
    simp (run_command, restart, b, h)
      (live_user-replace id _ _ (insert id _ (remove id m.terms))
          (lookup_inserted id _ (remove id m.terms)) (append_output-agent_bash _ banner)
        ∙ live_user-insert-new id _ (remove id m.terms) (forgotten id m.terms) refl
        ∙ ap (λ n. n + 1) (live_user-remove-agent id e m.terms v.distinct_terms h k))
