-- ===== src/Conversations.antt =====
-- server/agent-service.ts: the conversations of one client, and what leaving one does to it.
-- The pushes to the browser, the watchdogs and the restored project defaults are left out;
-- whether a session streams and how many terminals live are fields, as the calls read them.
pub mod Leaving
mod Tests
use dispatch_web.Base.{
  ltb, if◌then◌else◌, or_else, ◌===◌, nat_eq, string_eq, has, delete, lookup, insert, remove, keys,
  text_is_eq, ℕ, String, Bool, true, false, not, ◌&&◌, ◌||◌, Option, none, some, List, ◌∷◌,
}

pub record Conversation : Type 0 where
  pub id : String
  pub cwd : String
  pub listed : Bool
  pub prompted_since_active : Bool
  pub last_active_at : ℕ
  -- `session.isStreaming`: none where the session is being replaced and the getter throws.
  pub is_streaming : Option Bool
  -- `terminals.countLive()`.
  pub live_terminals : ℕ

pub record ClientSession : Type 0 where
  pub convs : List (String × Conversation)
  pub active_id : String
  pub cwd : String
  pub conv_statuses : List String
  pub conv_todos : List String
  -- The conversations whose runtime was disposed, the latest first.
  pub disposed : List String

unfoldable pub is_retained : Conversation → Bool
is_retained conv =
    let streaming = or_else conv.is_streaming true in
    if streaming
    then true
    else if ltb 0 conv.live_terminals
    then true
    else conv.listed && conv.prompted_since_active

-- The state afterwards, and the id of the conversation that is to be freed.
unfoldable pub displace_active : ClientSession → ClientSession × Option String
displace_active s = elim (lookup s.active_id s.convs) [
  | none ↦ (s, none)
  | some conv ↦
      if is_retained conv
      then (record s { convs = insert s.active_id (record conv { listed = true }) s.convs }, none)
      else (s, some conv.id)
]

unfoldable pub remove_conversation : String → ClientSession → ClientSession
remove_conversation id s =
    if not (has id (keys s.convs)) || id === s.active_id then s else record s {
      convs = remove id s.convs;
      conv_statuses = delete id s.conv_statuses;
      conv_todos = delete id s.conv_todos;
      disposed = id ∷ s.disposed;
    }

-- A conversation becomes the active one at the time `now`.
abbrev pub activated : ℕ → Conversation → Conversation
activated now conv = record conv { prompted_since_active = false; last_active_at = now }

-- `followWorkspace` for the conversation that is now active.
unfoldable pub activate : ℕ → String → ClientSession → ClientSession
activate now id s = elim (lookup id s.convs) [
  | none ↦ s
  | some conv ↦ record s { convs = insert id (activated now conv) s.convs; cwd = conv.cwd }
]

unfoldable pub switch_conversation : ℕ → String → ClientSession → ClientSession
switch_conversation now id s =
    if not (has id (keys s.convs)) || id === s.active_id
    then s
    else (let (s1, displaced) = displace_active s in
        let s2 = record s1 { active_id = id } in
        let s3 : ClientSession = elim displaced [
          | none ↦ s2
          | some old ↦ remove_conversation old s2
        ] in
        activate now id s3)
