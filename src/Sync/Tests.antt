-- ===== src/Sync/Tests.antt =====
-- Runs of the snapshot protocol on small inputs.
use dispatch_web.Base.{
  Member, nat_eq, string_eq, text_is_eq, ℕ, ◌≡◌, refl, true, false, none, some, [], ◌∷◌, arith,
}
use dispatch_web.Snapshots.{UiState, no_usage, cache_snapshot, evict}
use dispatch_web.Sync.{
  Client, initial_emitter, emit_snapshot_now, baseline, is_prefix, reduce, reduce_all, next_state,
  emitted,
}
use dispatch_web.Sync.History.{Mirrors}
use dispatch_web.Sync.Refinement.{
  start, sent, exchange-agrees, IsCurrent, reduce_all-emit_snapshot_now,
}

abbrev light : UiState ℕ ℕ
light = record {
  cwd = "/w";
  session_id = "s";
  session_file = none;
  conversation_id = "";
  rev = 0;
  messages = [];
  booting = false;
  streaming_message = none;
  is_streaming = false;
  steering = [];
  follow_up = [];
  error_message = none;
  retry = none;
  compaction = none;
  pending_question = none;
  workers = [];
  stats = record {
    total_messages = 0;
    tokens = no_usage;
    cost = 0;
    context_window = 0;
    context_tokens = none;
    context_percent = none;
  };
  rest = 0;
}

abbrev first : UiState ℕ ℕ
first = next_state "a" (1 ∷ []) light initial_emitter

abbrev second : UiState ℕ ℕ
second = next_state "a" (1 ∷ 2 ∷ []) light (emitted "a" (1 ∷ []) initial_emitter)

abbrev after_first : Client ℕ ℕ
after_first = record { state = some first; snapshots_by_id = ("a", first) ∷ [] }

-- The second state is sent as an increment, which the client missed.
exchange-agrees_example :
    (w : UiState ℕ ℕ) × Member w (second ∷ first ∷ [])
    × Mirrors first w
    × ((v : UiState ℕ ℕ) → Member v (second ∷ first ∷ []) → v.rev ≡ 1 → v ≡ w)
unfolding emit_snapshot_now reduce reduce_all cache_snapshot evict baseline is_prefix
exchange-agrees_example =
    exchange-agrees
      (sent false "a" (1 ∷ 2 ∷ []) light false (sent false "a" (1 ∷ []) light true start)) first
      refl

after_first-IsCurrent : IsCurrent (emitted "a" (1 ∷ []) initial_emitter) after_first
after_first-IsCurrent = record {
  shows = λ prev id h k. (first, refl, ground arith, ground arith, refl, refl);
}

reduce_all-emit_snapshot_now_example :
    let (s', messages) =
      emit_snapshot_now false false "a" (1 ∷ 2 ∷ []) light (emitted "a" (1 ∷ []) initial_emitter) in
    (u : UiState ℕ ℕ) × ((reduce_all messages after_first).state ≡ some u)
    × Mirrors u second
    × (baseline {M = ℕ} false "a" (1 ∷ 2 ∷ []) (emitted "a" (1 ∷ []) initial_emitter) ≡ none
        → u ≡ second)
    × IsCurrent s' (reduce_all messages after_first)
reduce_all-emit_snapshot_now_example =
    reduce_all-emit_snapshot_now (emitted "a" (1 ∷ []) initial_emitter) after_first false "a"
      (1 ∷ 2 ∷ []) light after_first-IsCurrent

-- An error that has been cleared stays on the screen after an increment.
abbrev failed_light : UiState ℕ ℕ
failed_light = record light { error_message = some "overloaded" }

test_stale_error :
    let (s', messages) =
      emit_snapshot_now false false "a" (1 ∷ 2 ∷ []) light (emitted "a" (1 ∷ []) initial_emitter) in
    (reduce_all messages (record {
      state = some (next_state "a" (1 ∷ []) failed_light initial_emitter);
      snapshots_by_id = [];
    })).state
    ≡ some (record second { error_message = some "overloaded" })
unfolding emit_snapshot_now reduce reduce_all baseline is_prefix
test_stale_error = refl
