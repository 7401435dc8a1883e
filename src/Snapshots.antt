-- ===== src/Snapshots.antt =====
-- web/src/conversation-view.ts: the chat that is shown before the server answers.
-- `M` stands for a message and `R` for a value that no function here looks into.
pub mod Cache
pub mod Recent
mod Tests
use dispatch_web.Base.{
  ltb, if◌then◌else◌, or_else, is_some, length, any, nat_eq, string_eq, has, lookup, insert, remove,
  keys, ℕ, String, Bool, true, false, not, ◌||◌, Option, none, some, List, [], ◌∷◌, ◌++◌, reverse,
  str_eq,
}

pub record Usage : Type 0 where
  pub input : ℕ
  pub output : ℕ
  pub cache_read : ℕ
  pub cache_write : ℕ
  pub total : ℕ

pub record Stats : Type 0 where
  pub total_messages : ℕ
  pub tokens : Usage
  pub cost : ℕ
  pub context_window : ℕ
  pub context_tokens : Option ℕ
  pub context_percent : Option ℕ

pub record UiState (M R : Type 0) : Type 0 where
  pub cwd : String
  pub session_id : String
  pub session_file : Option String
  pub conversation_id : String
  pub rev : ℕ
  pub messages : List M
  pub booting : Bool
  pub streaming_message : Option M
  pub is_streaming : Bool
  pub steering : List String
  pub follow_up : List String
  pub error_message : Option String
  pub retry : Option R
  pub compaction : Option R
  pub pending_question : Option R
  pub workers : List R
  pub stats : Stats
  -- All other fields.
  pub rest : R

abbrev pub optimistic_conversation_id : String
optimistic_conversation_id = "optimistic-new-chat"

abbrev pub snapshot_cache_max : ℕ
snapshot_cache_max = 8

abbrev pub no_usage : Usage
no_usage = record { input = 0; output = 0; cache_read = 0; cache_write = 0; total = 0 }

-- `cwd || current.cwd`.
abbrev pub chosen_cwd : Option String → String → String
chosen_cwd none d = d
chosen_cwd (some c) d = if str_eq c "" then d else c

unfoldable pub send_blocked : Option Bool → Bool → Option String → Bool
send_blocked booting optimistic switch_pending =
    optimistic || is_some switch_pending || or_else booting false

abbrev pub Snapshots : Type 0 → Type 0 → Type 0
Snapshots M R = List (String × UiState M R)

module _ {M R : Type 0} where
  unfoldable pub synthetic_new_chat : Option (UiState M R) → Option String → Option (UiState M R)
  synthetic_new_chat none cwd = none
  synthetic_new_chat (some current) cwd = some (record current {
    cwd = chosen_cwd cwd current.cwd;
    session_id = "";
    session_file = none;
    conversation_id = optimistic_conversation_id;
    rev = 0;
    messages = [];
    booting = true;
    streaming_message = none;
    is_streaming = false;
    steering = [];
    follow_up = [];
    error_message = none;
    stats = record (current.stats) {
      total_messages = 0;
      tokens = no_usage;
      cost = 0;
      context_tokens = none;
      context_percent = none;
    };
    retry = none;
    compaction = none;
    pending_question = none;
    workers = [];
  })

  -- The loop of `cacheSnapshot`: the first entry of the map is its oldest.
  unfoldable pub evict : ℕ → Snapshots M R → Snapshots M R
  evict max [] = []
  evict max (oldest ∷ next) =
      let rest = evict max next in if ltb max (length (oldest ∷ next)) then rest else oldest ∷ next

  unfoldable pub cache_snapshot : Snapshots M R → UiState M R → ℕ → Snapshots M R
  cache_snapshot cache state max =
      if state.booting || str_eq state.conversation_id optimistic_conversation_id
      then cache
      else evict max (insert state.conversation_id state (remove state.conversation_id cache))

  -- The second loop of `pruneSnapshots`.
  unfoldable pub keep_open : List String → Snapshots M R → Snapshots M R
  keep_open open_ids [] = []
  keep_open open_ids ((id, s) ∷ cache) =
      if has id open_ids then (id, s) ∷ keep_open open_ids cache else keep_open open_ids cache

  unfoldable pub prune_snapshots : Snapshots M R → List String → Snapshots M R
  unfolding keep_open
  prune_snapshots cache open_ids =
      if any (λ id. not (has id open_ids)) (keys cache) then keep_open open_ids cache else cache

  abbrev pub has_messages : Option (UiState M R) → Bool
  has_messages none = false
  has_messages (some s) = ltb 0 (length s.messages)

  -- The loop of `recentConversationIds`, over the ids from the newest to the oldest.
  unfoldable pub recent_from : Snapshots M R → ℕ → List String → List String → List String
  recent_from cache n [] out = out
  recent_from cache n (id ∷ ids) out =
      if not (ltb (length out) n)
      then out
      else recent_from cache n ids (
          if has id out
          then out
          else if not (has_messages (lookup id cache))
          then out
          else out ++ id ∷ [])

  unfoldable pub recent_conversation_ids : Option String → Snapshots M R → ℕ → List String
  recent_conversation_ids current cache n =
      recent_from cache n (reverse (keys cache))
        (elim current [ none ↦ [] | some id ↦ if str_eq id "" then [] else id ∷ [] ])
