-- ===== src/Queue/Tests.antt =====
-- Runs of the queue on small inputs.
use dispatch_web.Base.{nat_eq, string_eq, text_is_eq, ◌≡◌, refl, true, some, [], ◌∷◌}
use dispatch_web.Queue.{remove_first_occurrence, steer, Conversation, remove_queued}
use dispatch_web.Queue.Removal.{remove_first_occurrence-append, remove_queued-steer}

test_remove_first_occurrence-append :
    remove_first_occurrence ("b" ∷ "a" ∷ "c" ∷ "a" ∷ []) "a" ≡ "b" ∷ "c" ∷ "a" ∷ []
test_remove_first_occurrence-append =
    remove_first_occurrence-append ("b" ∷ []) ("c" ∷ "a" ∷ []) "a" refl

abbrev twice : Conversation
twice = record {
  queue_steering = "a" ∷ "a" ∷ [];
  queue_follow_up = [];
  session = some (record { steering = "a" ∷ "a" ∷ []; following = "f" ∷ [] });
}

test_remove_queued-steer :
    (remove_queued steer "a" (λ t. true) twice).session
    ≡ some (record { steering = "a" ∷ []; following = "f" ∷ [] })
test_remove_queued-steer = remove_queued-steer "a" twice [] ("a" ∷ []) ("f" ∷ []) refl refl refl
