-- ===== src/Sync.antt =====
-- The state of a conversation on its way to the browser: `emitSnapshotNow` and
-- `emitSessionPreview` of server/agent-service.ts and the reducer of web/src/use-chat.ts.
-- `M` stands for a message object, compared by identity. What `buildLightState` and
-- `buildPreviewState` collect from the session is an argument of the calls.
pub mod History
pub mod Baseline
pub mod Refinement
mod Tests
use dispatch_web.Base.{
  ◌||◌, ltb, leb, ◌==◌, if◌then◌else◌, length, drop, Eq, ◌===◌, nat_eq, string_eq, lookup,
  text_is_eq, ℕ, ◌+◌, String, Bool, true, false, not, ◌&&◌, Option, none, some, List, [], ◌∷◌, ◌++◌,
  str_eq,
}
use dispatch_web.Snapshots.{UiState, Snapshots, cache_snapshot, snapshot_cache_max}

-- What the server remembers of the last snapshot that it sent.
pub record Emitter (M : Type 0) : Type 0 where
  pub snap_rev : ℕ
  pub emitted_messages : Option (List M)
  pub emitted_conv_id : Option String
  pub emitted_rev : ℕ

pub data ServerMessage (M R : Type 0) : Type 0 where
  snapshot : UiState M R → ServerMessage M R
  -- As JSON: the `messages` and `booting` of the light state do not travel, nor does an optional
  -- field that is undefined.
  snapshot_delta : String → ℕ → ℕ → List M → UiState M R → ServerMessage M R

-- The part of the client's state that these messages change and read.
pub record Client (M R : Type 0) : Type 0 where
  pub state : Option (UiState M R)
  pub snapshots_by_id : Snapshots M R

abbrev pub same_conversation : Option String → String → Bool
same_conversation none active = false
same_conversation (some c) active = str_eq c active

-- A field of a spread object over the one below it.
abbrev pub kept : {A : Type 0} → Option A → Option A → Option A
kept none old = old
kept (some a) old = some a

module _ {M : Type 0} where
  abbrev pub initial_emitter : Emitter M
  initial_emitter = record {
    snap_rev = 0;
    emitted_messages = none;
    emitted_conv_id = none;
    emitted_rev = 0;
  }

  abbrev pub emitted : String → List M → Emitter M → Emitter M
  emitted active cur s = record {
    snap_rev = s.snap_rev + 1;
    emitted_messages = some cur;
    emitted_conv_id = some active;
    emitted_rev = s.snap_rev + 1;
  }

  module _ ⦃e : Eq M⦄ where
    -- The loop that walks both arrays.
    unfoldable pub is_prefix : List M → List M → Bool
    is_prefix [] cur = true
    is_prefix (m ∷ prev) [] = false
    is_prefix (m ∷ prev) (n ∷ cur) = m === n && is_prefix prev cur

    -- The messages that the clients have, when the new state can be sent as an increment.
    unfoldable pub baseline : Bool → String → List M → Emitter M → Option (List M)
    baseline force_full active cur s = elim s.emitted_messages [
      | none ↦ none
      | some prev ↦
          if not force_full
            && same_conversation s.emitted_conv_id active
            && leb (length prev) (length cur)
            && is_prefix prev cur
          then some prev
          else none
    ]

module _ {M R : Type 0} where
  -- The state that the clients are to show after an emission. `buildLightState` sets no `booting`.
  abbrev pub next_state : String → List M → UiState M R → Emitter M → UiState M R
  next_state active cur light s = record light {
    booting = false;
    conversation_id = active;
    rev = s.snap_rev + 1;
    messages = cur;
  }

  module _ ⦃e : Eq M⦄ where
    unfoldable pub emit_snapshot_now :
        (force_full disposed : Bool) (active : String) (cur : List M) (light : UiState M R)
        → Emitter M
        → Emitter M × List (ServerMessage M R)
    emit_snapshot_now force_full disposed active cur light s =
        if disposed then (s, []) else elim (baseline force_full active cur s) [
          | some prev ↦ (
            emitted active cur s,
            snapshot_delta active (s.snap_rev + 1) s.emitted_rev (drop (length prev) cur)
                  (next_state active [] light s)
                ∷ [],
          )
          | none ↦ (emitted active cur s, snapshot (next_state active cur light s) ∷ [])
        ]

  -- `buildPreviewState`, of which only these fields matter here.
  abbrev pub preview_state : String → List M → UiState M R → Emitter M → UiState M R
  preview_state conversation_id messages preview s = record preview {
    conversation_id = conversation_id;
    rev = s.snap_rev + 1;
    messages = messages;
    booting = true;
  }

  -- The preview of a session that is still being opened.
  unfoldable pub emit_session_preview :
      (conversation_id : String) (messages : List M) (preview : UiState M R)
      → Emitter M
      → Emitter M × List (ServerMessage M R)
  emit_session_preview conversation_id messages preview s =
      let rev = s.snap_rev + 1 in
      (
        record {
          snap_rev = rev;
          emitted_messages = none;
          emitted_conv_id = none;
          emitted_rev = rev;
        },
        snapshot (preview_state conversation_id messages preview s) ∷ [],
      )

  abbrev pub chains : UiState M R → String → ℕ → Bool
  chains ui conversation_id base_rev =
      str_eq ui.conversation_id conversation_id && ui.rev == base_rev

  -- `{ ...ui, ...d.state, messages }`: an optional field that did not travel keeps its old value. All
  -- other fields always travel.
  abbrev pub merge : UiState M R → List M → UiState M R → UiState M R
  merge ui appended light = record light {
    booting = light.booting || ui.booting;
    session_file = kept light.session_file ui.session_file;
    error_message = kept light.error_message ui.error_message;
    messages = if ltb 0 (length appended) then ui.messages ++ appended else ui.messages;
  }

  -- A delta that does not chain onto the shown state: it may still chain onto a cached one.
  unfoldable pub merge_cached : String → ℕ → List M → UiState M R → Client M R → Client M R
  merge_cached conversation_id base_rev appended light c =
      elim (lookup conversation_id c.snapshots_by_id) [
        | none ↦ c
        | some cached ↦
            if cached.rev == base_rev
            then record c {
              snapshots_by_id =
                  cache_snapshot c.snapshots_by_id (merge cached appended light) snapshot_cache_max;
            }
            else c
      ]

  unfoldable pub reduce : ServerMessage M R → Client M R → Client M R
  reduce (snapshot state) c = record {
    state = some state;
    snapshots_by_id = cache_snapshot c.snapshots_by_id state snapshot_cache_max;
  }
  reduce (snapshot_delta conversation_id rev base_rev appended light) c = elim c.state [
    | none ↦ merge_cached conversation_id base_rev appended light c
    | some ui ↦
        if chains ui conversation_id base_rev
        then record {
          state = some (merge ui appended light);
          snapshots_by_id =
              cache_snapshot c.snapshots_by_id (merge ui appended light) snapshot_cache_max;
        }
        else merge_cached conversation_id base_rev appended light c
  ]

  unfoldable pub reduce_all : List (ServerMessage M R) → Client M R → Client M R
  reduce_all [] c = c
  reduce_all (m ∷ ms) c = reduce_all ms (reduce m c)
