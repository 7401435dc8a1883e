-- ===== src/Terminals/Starting.antt =====
-- Starting a terminal, new or again, keeps the manager well formed.
use dispatch_web.Base.{
  lookup-insert, not, Option, insert, refl, nat_eq, string_eq, ◌&&◌, Bool-cases, Option-cases,
  is_some, nat_eq, string_eq, has, lookup, remove, keys, Text, text_eq_iff, text_is_eq, ℕ, ◌≤◌, ◌≡◌,
  inl, inr, false, some, List, arith, Bool, true, none, insert, not, lookup-insert,
}
use dispatch_web.Terminals.{TermEntry, append_output, max_terminals}
use dispatch_web.Terminals.Manager.{
  run_command, restart, CommandDef, Manager, live_user, create_new, create, spawn_shell,
  ensure_spawn_allowed, Spawning, valid_id,
}
use dispatch_web.Terminals.Limits.{
  IsManaged, IsLive, IsManager, live_user-remove, forget_history, replace_live, forget_live,
  put_live, live_user-insert,
}
use dispatch_web.Terminals.Handling.{
  forgotten, live_user-remove-user, append_output-IsLive, append_output-agent_bash,
}

pub within_limit :
    (id : Text) (e : TermEntry) (m : Manager)
    → IsManager m
    → ensure_spawn_allowed id e.agent_bash m ≡ true
    → lookup id m.terms ≡ none
    → live_user (insert id e m.terms) ≤ max_terminals
unfolding ensure_spawn_allowed
within_limit id e m v a h = ground (arith, live_user-insert id e m.terms, v.user_bound)

-- A new terminal under an id that stands in neither map.
pub create_new-IsManager :
    (id title : Text) (numbered : ℕ → Text) (cols rows : ℕ) (agent_bash : Bool) (s : Spawning)
    (m : Manager)
    → IsManager m
    → ensure_spawn_allowed id agent_bash m ≡ true
    → lookup id m.terms ≡ none
    → IsManager (create_new id title numbered cols rows agent_bash s m).0
unfolding create_new spawn_shell ensure_spawn_allowed
create_new-IsManager id title numbered cols rows agent_bash s m v a h = elim (Option-cases s.dir) [
  | inl d ↦ simp (create_new, d) (forget_history v id)
  | inr (dir, d) ↦ elim (Option-cases s.failure) [
    | inr (text, f) ↦ simp (create_new, d, f) (forget_history v id)
    | inl f ↦
        simp (create_new, d, f)
          (put_live (forget_history v id) id _ (refl, refl) (within_limit id _ m v a h)
            (forgotten id m.history))
  ]
]

pub create-IsManager :
    (id title : Text) (numbered : ℕ → Text) (cols rows : ℕ) (agent_bash : Bool) (s : Spawning)
    (m : Manager)
    → IsManager m
    → IsManager (create id title numbered cols rows agent_bash s m).0
unfolding create
create-IsManager id title numbered cols rows agent_bash s m v = elim (Bool-cases (valid_id id)) [
  | inr b ↦ simp (create, b) v
  | inl b ↦ elim (Option-cases (lookup id m.terms)) [
    | inr (e, h) ↦ simp (create, b, h) v
    | inl h ↦ elim (Bool-cases (ensure_spawn_allowed id agent_bash m)) [
      | inr a ↦ simp (create, b, h, a) v
      | inl a ↦
          simp (create, b, h, a)
            (create_new-IsManager id title numbered cols rows agent_bash s m v a h)
    ]
  ]
]

-- The terminal that a command restarts is not one of an agent's bash calls.
abbrev pub IsUserOwned : Text → Manager → Type 0
IsUserOwned id m = (e : TermEntry) → lookup id m.terms ≡ some e → e.agent_bash ≡ false

-- A restarted shell takes the slot of the one that it replaces, or the free slot.
pub restart_limit :
    (id : Text) (e : TermEntry) (m : Manager)
    → IsManager m
    → IsUserOwned id m
    → (not (is_some (lookup id m.terms)) && not (ensure_spawn_allowed id false m)) ≡ false
    → live_user (insert id e (remove id m.terms)) ≤ max_terminals
unfolding ensure_spawn_allowed
restart_limit id e m v owned a = elim (Option-cases (lookup id m.terms)) [
  | inl h ↦
      ground (
        arith,
        live_user-insert id e (remove id m.terms),
        live_user-remove id m.terms,
        v.user_bound,
      )
  | inr (old, h) ↦ ground (
    arith,
    live_user-insert id e (remove id m.terms),
    live_user-remove-user id old m.terms,
    owned old h,
    v.user_bound,
  )
]

pub lookup_inserted :
    (id : Text) (e : TermEntry) (m : List (Text × TermEntry)) → lookup id (insert id e m) ≡ some e
lookup_inserted id e m = ground (arith, lookup-insert id id e m, text_eq_iff id id)

-- A new shell whose output begins with a banner.
pub with_banner :
    {terms history : List (Text × TermEntry)}
    → IsManaged terms history
    → (id : Text) (e : TermEntry) (banner : Text) → IsLive (id, e)
    → live_user (insert id e terms) ≤ max_terminals
    → has id (keys history) ≡ false
    → IsManaged (insert id (append_output e banner) (insert id e terms)) history
with_banner {terms} v id e banner l b h =
    replace_live (put_live v id e l b h) id (append_output e banner) e (lookup_inserted id e terms)
      (append_output-IsLive id e banner l) (append_output-agent_bash e banner)

pub restart-IsManager :
    (id : Text) (def' : CommandDef) (numbered : ℕ → Text) (banner : Text) (cols rows : ℕ)
    (s : Spawning) (existing : Option TermEntry) (m : Manager)
    → IsManager m
    → ((e : TermEntry) → live_user (insert id e (remove id m.terms)) ≤ max_terminals)
    → IsManager (restart id def' numbered banner cols rows s existing m).0
unfolding restart spawn_shell
restart-IsManager id def' numbered banner cols rows s existing m v b =
    let removed = forget_live (forget_history v id) id in
    elim (Option-cases s.dir) [
      | inl d ↦ simp (restart, d) v
      | inr (dir, d) ↦ elim (Option-cases s.failure) [
        | inr (text, f) ↦ simp (restart, d, f) removed
        | inl f ↦
            simp (restart, d, f)
              (with_banner removed id _ banner (refl, refl) (b _) (forgotten id m.history))
      ]
    ]

pub run_command-IsManager :
    (id : Text) (def' : CommandDef) (numbered : ℕ → Text) (banner : Text) (cols rows : ℕ)
    (s : Spawning) (m : Manager)
    → IsManager m
    → IsUserOwned id m
    → IsManager (run_command id def' numbered banner cols rows s m).0
unfolding run_command
run_command-IsManager id def' numbered banner cols rows s m v owned =
    elim (Bool-cases (valid_id id)) [
      | inr b ↦ simp (run_command, b) v
      | inl b ↦
          elim (Bool-cases
            (not (is_some (lookup id m.terms)) && not (ensure_spawn_allowed id false m))) [
              | inl a ↦ simp (run_command, b, a) v
              | inr a ↦
                  simp (run_command, b, a)
                    (restart-IsManager id def' numbered banner cols rows s (lookup id m.terms) m v
                      (λ e. restart_limit id e m v owned a))
            ]
    ]
