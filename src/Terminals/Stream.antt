-- ===== src/Terminals/Stream.antt =====
-- Output reaches the clients in one piece: the coalescing timer, `flushPending` and `exit` together.
use dispatch_web.Terminals.Handling.{append_output-IsLive}
use dispatch_web.Terminals.Starting.{lookup_inserted}
use mathlib.Core.List.{append-nil, append_assoc}
use dispatch_web.Base.{
  sym, text_eq_iff, ltb, ◌==◌, if◌then◌else◌, Bool-cases, length, nat_eq, string_eq, lookup, Text,
  text_eq, text_is_eq, ℕ, ◌≡◌, refl, ap, ◌∙◌, ◌≢◌, inl, inr, true, some, List, [], ◌∷◌, ◌++◌, arith,
}
use dispatch_web.Terminals.{
  TermEntry, ServerMessage, terminal_output, terminal_exit, terminal_list, failed, append_output,
  queue_out, flush_pending, max_output,
}
use dispatch_web.Terminals.Manager.{Manager}
use dispatch_web.Terminals.Events.{on_data, on_flush, exit}
use dispatch_web.Terminals.Limits.{IsLive}

-- What one shell does: it prints, or its coalescing timer fires.
pub data Tick : Type 0 where
  arrives : Text → Tick
  fires : Tick

unfoldable pub tick : Text → ℕ → Tick → Manager → Manager × List ServerMessage
tick id serial (arrives data') m = (on_data id serial data' m, [])
tick id serial fires m = on_flush id serial m

unfoldable pub run : Text → ℕ → List Tick → Manager → Manager × List ServerMessage
run id serial [] m = (m, [])
run id serial (t ∷ ts) m =
    let (m', sent) = tick id serial t m in
    let (m'', later) = run id serial ts m' in (m'', sent ++ later)

-- All that a shell prints.
abbrev pub printed : List Tick → Text
printed [] = []
printed (arrives data' ∷ ts) = data' ++ printed ts
printed (fires ∷ ts) = printed ts

-- The text that the clients append to the view of a terminal.
abbrev pub heard : Text → List ServerMessage → Text
heard id [] = []
heard id (terminal_output j data' ∷ ms) = if text_eq j id then data' ++ heard id ms else heard id ms
heard id (terminal_exit j code ∷ ms) = heard id ms
heard id (terminal_list l ∷ ms) = heard id ms
heard id (failed j text ∷ ms) = heard id ms

heard-append :
    (id : Text) (ms ns : List ServerMessage) → heard id (ms ++ ns) ≡ heard id ms ++ heard id ns
heard-append id [] ns = refl
heard-append id (terminal_output j data' ∷ ms) ns =
    ground (arith, heard-append id ms ns, append_assoc data' (heard id ms) (heard id ns))
heard-append id (terminal_exit j code ∷ ms) ns = heard-append id ms ns
heard-append id (terminal_list l ∷ ms) ns = heard-append id ms ns
heard-append id (failed j text ∷ ms) ns = heard-append id ms ns

-- The shell `serial` of the terminal `id` runs, and `pending` waits for the timer, which then runs.
pub record IsRunning (id : Text) (serial : ℕ) (pending : Text) (m : Manager) : Type 0 where
  pub entry : TermEntry
  pub found : lookup id m.terms ≡ some entry
  pub same : entry.serial ≡ serial
  pub live : IsLive (id, entry)
  pub waiting : entry.pending_out ≡ pending
  pub timer : pending ≢ [] → entry.flush_timer ≡ true

same_serial : (n m : ℕ) → n ≡ m → (n == m) ≡ true
same_serial n m h = ground arith

pub append_output-kept :
    (e : TermEntry) (data' : Text)
    → ((append_output e data').serial ≡ e.serial)
      × ((append_output e data').pending_out ≡ e.pending_out)
unfolding append_output
append_output-kept e data' = elim (Bool-cases (ltb max_output (length (e.output ++ data')))) [
  | inl h ↦ simp h (refl, refl)
  | inr h ↦ simp h (refl, refl)
]

on_data-IsRunning :
    {id : Text} {serial : ℕ} {pending : Text} {m : Manager} (data' : Text)
    → IsRunning id serial pending m
    → IsRunning id serial (pending ++ data') (on_data id serial data' m)
unfolding on_data queue_out
on_data-IsRunning {id} {serial} {pending} {m} data' r =
    let s = same_serial r.entry.serial serial r.same in
    simp (on_data, r.found, s)
      (record {
        entry = queue_out (append_output r.entry data') data';
        found = lookup_inserted id _ m.terms;
        same = (append_output-kept r.entry data').0 ∙ r.same;
        live = append_output-IsLive id r.entry data' r.live;
        waiting = ap (λ t. t ++ data') ((append_output-kept r.entry data').1 ∙ r.waiting);
        timer = λ h. refl;
      })

-- A flush sends what waits, and nothing is lost.
heard-flush_pending :
    (id : Text) (e : TermEntry) → e.id ≡ id → heard id (flush_pending e).1 ≡ e.pending_out
unfolding flush_pending
heard-flush_pending id e h = elim (Bool-cases (text_eq e.pending_out [])) [
  | inl q ↦ simp (flush_pending, q) (sym ((text_eq_iff e.pending_out []).0 q))
  | inr q ↦ simp (flush_pending, q, (text_eq_iff e.id id).1 h) (append-nil e.pending_out)
]

pub flush_pending-kept :
    (e : TermEntry)
    → ((flush_pending e).0.pending_out ≡ [])
      × ((flush_pending e).0.serial ≡ e.serial)
      × ((flush_pending e).0.exited ≡ e.exited)
      × ((flush_pending e).0.id ≡ e.id)
unfolding flush_pending
flush_pending-kept e = elim (Bool-cases (text_eq e.pending_out [])) [
  | inl q ↦ simp (flush_pending, q) ((text_eq_iff e.pending_out []).0 q, refl, refl, refl)
  | inr q ↦ simp (flush_pending, q) (refl, refl, refl, refl)
]

on_flush-IsRunning :
    {id : Text} {serial : ℕ} {pending : Text} {m : Manager}
    → IsRunning id serial pending m
    → IsRunning id serial [] (on_flush id serial m).0
      × (heard id (on_flush id serial m).1 ≡ pending)
unfolding on_flush
on_flush-IsRunning {id} {serial} {pending} {m} r =
    let s = same_serial r.entry.serial serial r.same in
    let (empty, same, going, name) = flush_pending-kept r.entry in
    elim (Bool-cases r.entry.flush_timer) [
      | inl f ↦
          simp (on_flush, r.found, s, f)
            (
              record {
                entry = (flush_pending r.entry).0;
                found = lookup_inserted id _ m.terms;
                same = same ∙ r.same;
                live = (going ∙ r.live.0, name ∙ r.live.1);
                waiting = empty;
                timer = λ h. absurd (h refl);
              },
              heard-flush_pending id r.entry r.live.1 ∙ r.waiting,
            )
      | inr f ↦
          let nothing : pending ≡ [] = ground (arith, text_eq_iff pending [], r.timer) in
          simp (on_flush, r.found, s, f)
            (
              record {
                entry = r.entry;
                found = r.found;
                same = r.same;
                live = r.live;
                waiting = r.waiting ∙ nothing;
                timer = λ h. absurd (h refl);
              },
              sym nothing,
            )
    ]

-- What has been sent and what waits are together all that was printed.
run-IsRunning :
    (id : Text) (serial : ℕ) (ts : List Tick) (pending : Text) (m : Manager)
    → IsRunning id serial pending m
    → (rest : Text) × IsRunning id serial rest (run id serial ts m).0
      × (heard id (run id serial ts m).1 ++ rest ≡ pending ++ printed ts)
unfolding run tick
run-IsRunning id serial [] pending m r = (pending, r, sym (append-nil pending))
run-IsRunning id serial (arrives data' ∷ ts) pending m r =
    let (rest, r', h) =
      run-IsRunning id serial ts (pending ++ data') _ (on_data-IsRunning data' r) in
    (rest, r', h ∙ append_assoc pending data' (printed ts))
run-IsRunning id serial (fires ∷ ts) pending m r =
    let (r0, sent) = on_flush-IsRunning r in
    let (rest, r', h) = run-IsRunning id serial ts [] _ r0 in
    (
      rest,
      r',
      rw
          (
            heard-append id (on_flush id serial m).1 (run id serial ts (on_flush id serial m).0).1,
            sent,
          )
          (append_assoc pending _ rest ∙ ap (λ t. pending ++ t) h),
    )

heard-exit :
    {id : Text} {serial : ℕ} {pending : Text} {m : Manager} (marker : Text) (code : ℕ)
    → IsRunning id serial pending m
    → heard id (exit id marker code m).1 ≡ pending ++ marker
unfolding exit
heard-exit {id} {serial} {pending} {m} marker code r =
    simp
      (
        exit,
        r.found,
        r.live.0,
        heard-append,
        heard-flush_pending id r.entry r.live.1,
        (text_eq_iff id id).1 refl,
        r.waiting,
      )
      (ap (λ t. pending ++ t) (append-nil marker))

-- Coalescing neither loses, repeats nor reorders output. Let a shell of a live terminal print and
-- its timer fire in any order, and then exit. The data of the `terminal_output` messages for that
-- terminal, one after the other, is what waited at first, then all that the shell printed, then
-- the exit marker.
pub run-exit :
    (id : Text) (serial : ℕ) (ts : List Tick) (pending marker : Text) (code : ℕ) (m : Manager)
    → IsRunning id serial pending m
    → let (m', sent) = run id serial ts m in
      heard id (sent ++ (exit id marker code m').1) ≡ pending ++ (printed ts ++ marker)
run-exit id serial ts pending marker code m r =
    let (rest, r', h) = run-IsRunning id serial ts pending m r in
    heard-append id (run id serial ts m).1 (exit id marker code (run id serial ts m).0).1
    ∙ ap (λ t. heard id (run id serial ts m).1 ++ t) (heard-exit marker code r')
    ∙ sym (append_assoc (heard id (run id serial ts m).1) rest marker)
    ∙ ap (λ t. t ++ marker) h
    ∙ append_assoc pending (printed ts) marker
