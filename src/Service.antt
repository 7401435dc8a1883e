-- ===== src/Service.antt =====
-- server/agent-service.ts: `AgentService`, the sessions of all clients and the admission of new ones.
-- `ClientSession.create` runs between `attach` and `settle`. The code that stores its session runs
-- before any other task, so that the end of the creation is one step. A session stands for its
-- working directory; sinks and hooks are left out.
pub mod Admission
mod Tests
use dispatch_web.Base.{
  if◌then◌else◌, nat_eq, string_eq, has, delete, lookup, insert, remove, keys, text_is_eq, ℕ, ◌+◌,
  ◌-◌, String, Bool, true, false, not, ◌&&◌, Option, none, some, List, ◌∷◌, str_eq,
}

pub record AgentService : Type 0 where
  pub cwd : String
  pub clients : List (String × String)
  pub pending : List (String × String)
  pub quiesced : Bool
  pub quiesced_at : ℕ
  pub socket_count : ℕ
  -- The calls of `ClientSession.create` that have not failed, by client.
  pub creations : List String

pub data Attached : Type 0 where
  -- The session that was there.
  attached : String → Attached
  -- The creation that another call has started is awaited.
  waiting : Attached
  refused : Attached
  creating : Attached

unfoldable pub quiesce : ℕ → AgentService → AgentService
quiesce now s = record s { quiesced = true; quiesced_at = now }

unfoldable pub unquiesce : AgentService → AgentService
unquiesce s = record s { quiesced = false; quiesced_at = 0 }

unfoldable pub quiesce_info : AgentService → Option ℕ
quiesce_info s = if s.quiesced then some s.quiesced_at else none

unfoldable pub note_socket_open : AgentService → AgentService
note_socket_open s = record s { socket_count = s.socket_count + 1 }

unfoldable pub note_socket_close : AgentService → AgentService
note_socket_close s = record s { socket_count = s.socket_count - 1 }

-- The directory that the client used last, where it is still one.
unfoldable pub restored_cwd : String → Option String → (String → Bool) → String
restored_cwd cwd none is_directory = cwd
restored_cwd cwd (some last) is_directory =
    if not (str_eq last "") && not (str_eq last cwd) && is_directory last then last else cwd

unfoldable pub attach :
    String → Option String → (String → Bool) → AgentService → AgentService × Attached
attach client_id last_cwd is_directory s = elim (lookup client_id s.clients) [
  | some cs ↦ (s, attached cs)
  | none ↦
      if has client_id (keys s.pending)
      then (s, waiting)
      else if s.quiesced
      then (s, refused)
      else (
        record s {
          pending = insert client_id (restored_cwd s.cwd last_cwd is_directory) s.pending;
          creations = client_id ∷ s.creations;
        },
        creating,
      )
]

-- The creation for a client ends, with a session or not.
unfoldable pub settle : String → Bool → AgentService → AgentService
settle client_id created s = elim (lookup client_id s.pending) [
  | none ↦ s
  | some cwd ↦
      let pending = remove client_id s.pending in
      if created
      then record s { pending = pending; clients = insert client_id cwd s.clients }
      else record s { pending = pending; creations = delete client_id s.creations }
]
