-- ===== src/Snapshots/Tests.antt =====
-- The snapshot cache at concrete inputs.
use dispatch_web.Base.{
  if◌then◌else◌, length, drop, All, nat_eq, string_eq, has, Distinct, lookup, remove, keys,
  text_is_eq, ℕ, ◌-◌, ◌≤◌, max, String, ◌≡◌, refl, ◌⊎◌, false, none, some, List, [], ◌∷◌, ◌++◌,
  arith, eq_iff,
}
use dispatch_web.Snapshots.{
  UiState, optimistic_conversation_id, no_usage, Snapshots, evict, cache_snapshot, prune_snapshots,
  recent_from, recent_conversation_ids,
}
use dispatch_web.Snapshots.Cache.{
  IsConfirmed, cache_snapshot-drop, IsCache, cache_snapshot-IsCache, lookup-prune_snapshots,
}
use dispatch_web.Snapshots.Recent.{IsParked, recent_conversation_ids_lem}

abbrev chat : String → List ℕ → UiState ℕ ℕ
chat id messages = record {
  cwd = "/w";
  session_id = "s";
  session_file = none;
  conversation_id = id;
  rev = 1;
  messages = messages;
  booting = false;
  streaming_message = none;
  is_streaming = false;
  steering = [];
  follow_up = [];
  error_message = none;
  retry = none;
  compaction = none;
  pending_question = none;
  workers = [];
  stats = record {
    total_messages = 0;
    tokens = no_usage;
    cost = 0;
    context_window = 0;
    context_tokens = none;
    context_percent = none;
  };
  rest = 0;
}

abbrev two_chats : Snapshots ℕ ℕ
two_chats = ("a", chat "a" (1 ∷ [])) ∷ ("b", chat "b" (2 ∷ [])) ∷ []

evicted : keys (cache_snapshot two_chats (chat "c" []) 2) ≡ "b" ∷ "c" ∷ []
unfolding cache_snapshot evict
evicted = refl

refreshed : keys (cache_snapshot two_chats (chat "a" []) 2) ≡ "b" ∷ "a" ∷ []
unfolding cache_snapshot evict
refreshed = refl

c-IsConfirmed : IsConfirmed (chat "c" [])
c-IsConfirmed = (refl, λ h. ground (arith, eq_iff "c" optimistic_conversation_id))

cache_snapshot-drop_example :
    cache_snapshot two_chats (chat "c" []) 2
    ≡ drop
        (length (remove "c" two_chats ++ ("c", chat "c" []) ∷ []) - 2)
        (remove "c" two_chats ++ ("c", chat "c" []) ∷ [])
cache_snapshot-drop_example = cache_snapshot-drop two_chats (chat "c" []) 2 c-IsConfirmed

test_cache_snapshot-IsCache : IsCache 2 (cache_snapshot [] (chat "c" []) 2)
test_cache_snapshot-IsCache =
    cache_snapshot-IsCache [] (chat "c" []) 2
      (record { bounded = omega arith; distinct = tt; confirmed = tt })

test_lookup-prune_snapshots :
    lookup "a" (prune_snapshots two_chats ("b" ∷ []))
    ≡ (if has {A = String} "a" ("b" ∷ []) then lookup "a" two_chats else none)
test_lookup-prune_snapshots = lookup-prune_snapshots two_chats ("b" ∷ []) "a"

recent_example : recent_conversation_ids (some "a") two_chats 4 ≡ "a" ∷ "b" ∷ []
unfolding recent_conversation_ids recent_from
recent_example = refl

test_recent_conversation_ids_lem :
    (length (recent_conversation_ids (some "a") two_chats 4) ≤ max 4 1)
    × Distinct (recent_conversation_ids (some "a") two_chats 4)
    × All
        (λ id. (some "a" ≡ some id) ⊎ IsParked two_chats id)
        (recent_conversation_ids (some "a") two_chats 4)
test_recent_conversation_ids_lem = recent_conversation_ids_lem (some "a") two_chats 4
