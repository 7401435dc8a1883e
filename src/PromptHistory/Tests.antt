-- ===== src/PromptHistory/Tests.antt =====
-- Runs of web/src/prompt-history.ts on small inputs.
use dispatch_web.Base.{
  leb, if◌then◌else◌, length, nat_eq, string_eq, Text, codes, text_eq_iff, text_is_eq, is_space,
  trim_start, trim_end, trim, ◌≤◌, ◌≡◌, refl, some, List, [], ◌∷◌, arith,
}
use dispatch_web.PromptHistory.{
  append_history, Written, accepted, over_quota, Outcome, stored, persist, persist_loop,
}
use dispatch_web.PromptHistory.Bounds.{
  NoRepeat, append_history-NoRepeat, IsWritten, persist-IsWritten,
}

test_append_history-NoRepeat :
    NoRepeat (append_history (codes "a" ∷ codes "b" ∷ []) (codes " c") 2)
    × (length (append_history (codes "a" ∷ codes "b" ∷ []) (codes " c") 2) ≤ 2)
test_append_history-NoRepeat =
    append_history-NoRepeat (codes "a" ∷ codes "b" ∷ []) (codes " c") 2
      ((λ q. ground (arith, text_eq_iff (codes "a") (codes "b"))), tt) (omega arith)

test_append_history :
    append_history (codes "a" ∷ codes "b" ∷ []) (codes " c") 2 ≡ codes "b" ∷ codes "c" ∷ []
unfolding append_history trim trim_end trim_start is_space
test_append_history = refl

-- A storage for one entry.
abbrev small : List Text → Written
small entries = if leb (length entries) 1 then accepted else over_quota

persist-IsWritten_example :
    (o : Outcome) × (persist small (codes "a" ∷ codes "b" ∷ codes "c" ∷ []) ≡ some o)
    × ((kept : List Text)
        → o ≡ stored kept
        → IsWritten small (codes "a" ∷ codes "b" ∷ codes "c" ∷ []) kept)
persist-IsWritten_example = persist-IsWritten small (codes "a" ∷ codes "b" ∷ codes "c" ∷ [])

test_persist :
    persist small (codes "a" ∷ codes "b" ∷ codes "c" ∷ []) ≡ some (stored (codes "c" ∷ []))
unfolding persist persist_loop
test_persist = refl
