-- ===== src/Queue.antt =====
-- `removeFirstOccurrence` of server/queue-utils.ts and `removeQueued` of server/agent-service.ts.
-- The SDK's queue is a record; `accepts` says whether `steer` or `followUp` takes a text back.
pub mod Removal
mod Tests
use dispatch_web.Base.{
  if◌then◌else◌, filter, ◌===◌, nat_eq, string_eq, has, text_is_eq, String, Bool, not, Option, none,
  some, List, [], ◌∷◌,
}

unfoldable pub remove_first_occurrence : List String → String → List String
remove_first_occurrence [] text = []
remove_first_occurrence (t ∷ list) text =
    let rest = remove_first_occurrence list text in if t === text then list else t ∷ rest

pub data Kind : Type 0 where
  steer : Kind
  follow_up : Kind

-- The queues of the SDK's session.
pub record Queues : Type 0 where
  pub steering : List String
  pub following : List String

pub record Conversation : Type 0 where
  pub queue_steering : List String
  pub queue_follow_up : List String
  -- none while no runtime is bound.
  pub session : Option Queues

abbrev pub local_queue : Kind → Conversation → List String
local_queue steer c = c.queue_steering
local_queue follow_up c = c.queue_follow_up

abbrev pub kept_steering : Kind → String → List String → List String
kept_steering steer text steering = remove_first_occurrence steering text
kept_steering follow_up text steering = steering

abbrev pub kept_following : Kind → String → List String → List String
kept_following steer text following = following
kept_following follow_up text following = remove_first_occurrence following text

abbrev pub spliced : Kind → String → Conversation → Conversation
spliced steer text c = record c { queue_steering = remove_first_occurrence c.queue_steering text }
spliced follow_up text c = record c {
  queue_follow_up = remove_first_occurrence c.queue_follow_up text;
}

-- `clearQueue`, and the survivors that are taken back, in order.
abbrev pub requeued : Kind → String → (String → Bool) → Queues → Queues
requeued kind text accepts q = record {
  steering = filter accepts (kept_steering kind text q.steering);
  following = filter accepts (kept_following kind text q.following);
}

unfoldable pub remove_queued : Kind → String → (String → Bool) → Conversation → Conversation
remove_queued kind text accepts c =
    if not (has text (local_queue kind c)) then c else elim c.session [
      | none ↦ spliced kind text c
      | some q ↦ record c { session = some (requeued kind text accepts q) }
    ]
