-- ===== src/Queue/Removal.antt =====
-- Removing one queued message removes one.
use dispatch_web.Base.{
  filter, nat_eq, string_eq, has, ===_refl, text_is_eq, String, ◌≡◌, refl, ap, true, false, some,
  List, [], ◌∷◌, ◌++◌, arith,
}
use dispatch_web.Queue.{remove_first_occurrence, steer, Conversation, remove_queued}

-- Of a list that holds the text, what stands before its first occurrence and after it stays, in
-- order; a later occurrence of the same text stays too.
pub remove_first_occurrence-append :
    (before after : List String) (text : String)
    → has text before ≡ false
    → remove_first_occurrence (before ++ text ∷ after) text ≡ before ++ after
unfolding remove_first_occurrence
remove_first_occurrence-append [] after text h = ground (arith, ===_refl text)
remove_first_occurrence-append (t ∷ before) after text h = ground (
  arith,
  remove_first_occurrence-append before after text,
  string_eq.beq_iff t text,
  string_eq.beq_iff text t,
)

filter_all : (xs : List String) → filter (λ t. true) xs ≡ xs
filter_all [] = refl
filter_all (x ∷ xs) = ap (λ ys. x ∷ ys) (filter_all xs)

-- Removing a queued steering message that is shown, while the session takes every text back, takes
-- the first such message out of the session's steering queue and leaves everything else in order.
pub remove_queued-steer :
    (text : String) (c : Conversation) (before after following : List String)
    → has text c.queue_steering ≡ true
    → has text before ≡ false
    → c.session ≡ some (record { steering = before ++ text ∷ after; following = following })
    → (remove_queued steer text (λ t. true) c).session
      ≡ some (record { steering = before ++ after; following = following })
unfolding remove_queued
remove_queued-steer text c before after following h b s =
    simp (remove_queued, h, s, filter_all, remove_first_occurrence-append before after text b) refl
