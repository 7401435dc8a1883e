-- ===== src/Terminals/Handling.antt =====
-- The events of a shell, and the calls on a terminal, keep the manager well formed.
use dispatch_web.Base.{
  refl, ◌++◌, ◌==◌, nat_eq, string_eq, ◌&&◌, Bool-cases, Option-cases, is_some, All, nat_eq,
  string_eq, has, lookup, remove, keys, has-keys-remove, Text, text_eq_iff, text_is_eq, ℕ, ◌+◌, ◌≤◌,
  ◌≡◌, inl, inr, false, some, List, [], ◌∷◌, arith, ltb, text_eq, has-keys, trim, length,
}
use dispatch_web.Terminals.{TermEntry, append_output, queue_out, flush_pending, max_output}
use dispatch_web.Terminals.Manager.{Manager, live_user, dimension}
use dispatch_web.Terminals.Events.{on_data, kill, on_flush, exit, rename, resize}
use dispatch_web.Terminals.Limits.{
  IsLive, IsManager, live_user-remove, forget_history, retire, replace_live, forget_live,
  replace_history,
}

pub lookup-IsLive :
    (id : Text) (e : TermEntry) (m : List (Text × TermEntry))
    → All IsLive m
    → lookup id m ≡ some e
    → IsLive (id, e)
lookup-IsLive id e [] l h = absurd (ground arith)
lookup-IsLive id e ((j, w) ∷ m) l h =
    ground (arith, lookup-IsLive id e m l.1, text_eq_iff j id, l.0)

pub forgotten : (id : Text) (m : List (Text × TermEntry)) → has id (keys (remove id m)) ≡ false
forgotten id m = ground (arith, has-keys-remove id id m, text_eq_iff id id)

pub live_user-remove-user :
    (id : Text) (e : TermEntry) (m : List (Text × TermEntry))
    → lookup id m ≡ some e
    → e.agent_bash ≡ false
    → live_user (remove id m) + 1 ≤ live_user m
unfolding live_user
live_user-remove-user id e [] h k = absurd (ground arith)
live_user-remove-user id e ((j, w) ∷ m) h k =
    ground (arith, live_user-remove-user id e m, live_user-remove id m)

pub append_output-IsLive :
    (id : Text) (e : TermEntry) (data' : Text) → IsLive (id, e) → IsLive (id, append_output e data')
unfolding append_output
append_output-IsLive id e data' l =
    elim (Bool-cases (ltb max_output (length (e.output ++ data')))) [
      | inl h ↦ simp h l
      | inr h ↦ simp h l
    ]

pub append_output-agent_bash :
    (e : TermEntry) (data' : Text) → (append_output e data').agent_bash ≡ e.agent_bash
unfolding append_output
append_output-agent_bash e data' = elim (Bool-cases (ltb max_output (length (e.output ++ data')))) [
  | inl h ↦ simp h refl
  | inr h ↦ simp h refl
]

pub on_data-IsManager :
    (id : Text) (serial : ℕ) (data' : Text) (m : Manager)
    → IsManager m
    → IsManager (on_data id serial data' m)
unfolding on_data queue_out
on_data-IsManager id serial data' m v = elim (Option-cases (lookup id m.terms)) [
  | inl h ↦ simp (on_data, h) v
  | inr (e, h) ↦ elim (Bool-cases (e.serial == serial)) [
    | inr k ↦ simp (on_data, h, k) v
    | inl k ↦
        simp (on_data, h, k)
          (replace_live v id _ e h
            (append_output-IsLive id e data' (lookup-IsLive id e m.terms v.live h))
            (append_output-agent_bash e data'))
  ]
]

pub on_flush-IsManager :
    (id : Text) (serial : ℕ) (m : Manager) → IsManager m → IsManager (on_flush id serial m).0
unfolding on_flush flush_pending
on_flush-IsManager id serial m v = elim (Option-cases (lookup id m.terms)) [
  | inl h ↦ simp (on_flush, h) v
  | inr (e, h) ↦ elim (Bool-cases (e.serial == serial && e.flush_timer)) [
    | inr k ↦ simp (on_flush, h, k) v
    | inl k ↦ elim (Bool-cases (text_eq e.pending_out [])) [
      | inl q ↦
          simp (on_flush, h, k, q)
            (replace_live v id _ e h (lookup-IsLive id e m.terms v.live h) refl)
      | inr q ↦
          simp (on_flush, h, k, q)
            (replace_live v id _ e h (lookup-IsLive id e m.terms v.live h) refl)
    ]
  ]
]

pub exit-IsManager :
    (id marker : Text) (code : ℕ) (m : Manager) → IsManager m → IsManager (exit id marker code m).0
unfolding exit
exit-IsManager id marker code m v = elim (Option-cases (lookup id m.terms)) [
  | inl h ↦ simp (exit, h) v
  | inr (e, h) ↦ elim (Bool-cases e.exited) [
    | inl k ↦ simp (exit, h, k) v
    | inr k ↦ simp (exit, h, k) (retire v id _ (rw (has-keys id m.terms, h) refl))
  ]
]

pub rename-IsManager :
    (id title : Text) (m : Manager) → IsManager m → IsManager (rename id title m).0
unfolding rename
rename-IsManager id title m v = elim (Bool-cases (text_eq (trim title) [])) [
  | inl b ↦ simp (rename, b) v
  | inr b ↦ elim (Option-cases (lookup id m.terms)) [
    | inr (e, h) ↦
        simp (rename, b, h) (replace_live v id _ e h (lookup-IsLive id e m.terms v.live h) refl)
    | inl h ↦ elim (Option-cases (lookup id m.history)) [
      | inl k ↦ simp (rename, b, h, k) v
      | inr (e, k) ↦ simp (rename, b, h, k) (replace_history v id _ e k)
    ]
  ]
]

pub resize-IsManager :
    (id : Text) (cols rows : ℕ) (m : Manager) → IsManager m → IsManager (resize id cols rows m)
unfolding resize
resize-IsManager id cols rows m v = elim (Option-cases (lookup id m.terms)) [
  | inl h ↦ simp (resize, h) v
  | inr (e, h) ↦ elim (Bool-cases e.exited) [
    | inl k ↦ simp (resize, h, k) v
    | inr k ↦
        simp (resize, h, k)
          (replace_live v id
            (record e { cols = dimension cols 80; rows = dimension rows 24; exited = false }) e h
            (refl, (lookup-IsLive id e m.terms v.live h).1) refl)
  ]
]

pub kill-IsManager : (id : Text) (m : Manager) → IsManager m → IsManager (kill id m).0
unfolding kill
kill-IsManager id m v = elim (Option-cases (lookup id m.terms)) [
  | inl h ↦
      simp (kill, h)
        (elim (Bool-cases (is_some (lookup id m.history))) [
          | inl k ↦ simp (kill, k) (forget_history v id)
          | inr k ↦ simp (kill, k) v
        ])
  | inr (e, h) ↦ simp (kill, h) (forget_live v id)
]
