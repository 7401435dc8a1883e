-- ===== src/LazyWindow/Tests.antt =====
-- Runs of web/src/lazy-window.ts on small inputs.
use dispatch_web.LazyWindow.Fingerprint.{FingerprintBlock, fingerprint_from, content_fingerprint}
use dispatch_web.Base.{
  codes, drop, nat_eq, string_eq, has, text_is_eq, ◌≤◌, ◌<◌, String, ◌≡◌, refl, inl, true, none,
  List, [], ◌∷◌, arith, some,
}
use dispatch_web.LazyWindow.{
  start_from, estimate_message_height, WinRect, Viewport, plan_window, apply_plan, Message,
  pick_always, recent_start_index, count_visible,
}
use dispatch_web.LazyWindow.Planning.{has-apply_plan-plan_window, plan_window-apply_plan}
use dispatch_web.LazyWindow.Keeping.{IsKept, recent_start_index_lem, pick_always-IsKept}

abbrev above : WinRect
above = record { id = "a"; top = 0; bottom = 10 }

abbrev inside : WinRect
inside = record { id = "b"; top = 10; bottom = 30 }

abbrev view : Viewport
view = record { top = 15; bottom = 40 }

test_has-apply_plan-plan_window :
    has "a" (apply_plan ("b" ∷ []) (plan_window (above ∷ inside ∷ []) view [] ("b" ∷ []))) ≡ true
test_has-apply_plan-plan_window =
    has-apply_plan-plan_window view [] ("b" ∷ []) (above ∷ inside ∷ []) above (refl, (refl, tt))
      (inl refl) refl

plan_window-apply_plan_example :
    plan_window
      (above ∷ inside ∷ [])
      view
      []
      (apply_plan ("b" ∷ []) (plan_window (above ∷ inside ∷ []) view [] ("b" ∷ [])))
    ≡ record { show = []; hide = []; shrink_above = 0 }
plan_window-apply_plan_example =
    plan_window-apply_plan view [] ("b" ∷ []) (above ∷ inside ∷ []) (refl, (refl, tt))

test_recent_start_index_lem :
    (count_visible ("user" ∷ "assistant" ∷ "toolResult" ∷ "user" ∷ []) ≤ 2
      → recent_start_index ("user" ∷ "assistant" ∷ "toolResult" ∷ "user" ∷ []) 2 2 ≡ 0)
    × (2 < count_visible ("user" ∷ "assistant" ∷ "toolResult" ∷ "user" ∷ [])
        → count_visible (
            drop
              (recent_start_index ("user" ∷ "assistant" ∷ "toolResult" ∷ "user" ∷ []) 2 2)
              ("user" ∷ "assistant" ∷ "toolResult" ∷ "user" ∷ []))
          ≡ 2)
test_recent_start_index_lem =
    recent_start_index_lem ("user" ∷ "assistant" ∷ "toolResult" ∷ "user" ∷ []) 2 2 (omega arith)
      (omega arith)

test_recent_start_index :
    recent_start_index ("user" ∷ "assistant" ∷ "toolResult" ∷ "user" ∷ []) 2 2 ≡ 1
unfolding recent_start_index count_visible start_from
test_recent_start_index = refl

abbrev question : Message
question = record { id = "q"; role = "user"; custom_type = none }

abbrev answer : Message
answer = record { id = "r"; role = "assistant"; custom_type = none }

test_pick_always-IsKept :
    (rest : List String) × (pick_always (question ∷ answer ∷ []) [] 300 ≡ "r" ∷ rest)
    × IsKept (question ∷ []) [] 300 280 rest
unfolding estimate_message_height
test_pick_always-IsKept =
    pick_always-IsKept (question ∷ answer ∷ []) (question ∷ []) answer [] 300 refl

abbrev prose : String → FingerprintBlock
prose s = record {
  type = some "text";
  text = some (codes s);
  thinking = none;
  arguments_text = none;
  output = none;
  command = none;
}

-- An edit that keeps the length keeps the fingerprint.
test_content_fingerprint :
    content_fingerprint (prose "good" ∷ []) ≡ content_fingerprint (prose "evil" ∷ [])
unfolding content_fingerprint fingerprint_from
test_content_fingerprint = refl
