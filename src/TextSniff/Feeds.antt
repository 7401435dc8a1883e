-- ===== src/TextSniff/Feeds.antt =====
-- server/text-sniff.ts: line feeds of a text against its split into lines.

use dispatch_web.Base.{
  ◌≤◌, ltb, ◌&&◌, ◌||◌, Bool, true, false, ◌≡◌, ◌∙◌, refl, ap, suc, ◌+◌, ◌==◌, inl, inr, length,
  nat_eq, string_eq, Text, text_is_eq, push_head, split, ℕ, suc, ◌+◌, ◌≤◌, ◌≡◌, refl, ap, ◌∙◌, inl,
  inr, List, [], ◌∷◌, ◌++◌, map, arith, Bool-cases,
}
use dispatch_web.Base.{refl, ap, arith, suc, ◌+◌, ◌≡◌, inl, inr, ◌∙◌, push_head}
use dispatch_web.TextSniff.{count_feeds, ends_with_feed}

pub count_feeds-append : (s t : Text) → count_feeds (s ++ t) ≡ count_feeds s + count_feeds t
unfolding count_feeds
count_feeds-append [] t = omega arith
count_feeds-append (c ∷ s) t = ground (arith, count_feeds-append s t)

pub length-push_head :
    (c : ℕ) (ps : List Text) → 1 ≤ length ps → length (push_head c ps) ≡ length ps
length-push_head c [] h = absurd (omega (arith, h))
length-push_head c (p ∷ ps) h = refl

pub length-split : (s : Text) → length (split 10 s) ≡ count_feeds s + 1
unfolding count_feeds
length-split [] = refl
length-split (c ∷ s) = ground (arith, length-split s, length-push_head c (split 10 s))

pub length-map : {A B : Type 0} (f : A → B) (xs : List A) → length (map f xs) ≡ length xs
length-map f [] = refl
length-map f (x ∷ xs) = ap suc (length-map f xs)

pub ends_with_feed-count_feeds : (s : Text) → ends_with_feed s ≡ true → 1 ≤ count_feeds s
unfolding count_feeds
ends_with_feed-count_feeds [] h = absurd (ground (arith, h))
ends_with_feed-count_feeds (c ∷ []) h = ground arith
ends_with_feed-count_feeds (c ∷ d ∷ s) h = ground (arith, ends_with_feed-count_feeds (d ∷ s))

unfoldable pub last_blank : List Text → Bool
last_blank [] = false
last_blank (p ∷ []) = length p == 0
last_blank (p ∷ q ∷ ps) = last_blank (q ∷ ps)

pub last_blank-push_head :
    (c : ℕ) (ps : List Text) → last_blank (push_head c ps) ≡ (last_blank ps && ltb 1 (length ps))
unfolding last_blank
last_blank-push_head c [] = ground arith
last_blank-push_head c (p ∷ []) = ground arith
last_blank-push_head c (p ∷ q ∷ ps) = ground arith

pub last_blank-cons :
    (p : Text) (ps : List Text) → 1 ≤ length ps → last_blank (p ∷ ps) ≡ last_blank ps
unfolding last_blank
last_blank-cons p [] h = absurd (omega (arith, h))
last_blank-cons p (q ∷ ps) h = refl

pub last_blank-split : (s : Text) → last_blank (split 10 s) ≡ (length s == 0 || ends_with_feed s)
unfolding last_blank
last_blank-split [] = refl
last_blank-split (c ∷ []) = ground arith
last_blank-split (c ∷ d ∷ s) = elim (Bool-cases (c == 10)) [
  | inl e ↦ rw (e) (
      last_blank-cons [] (split 10 (d ∷ s)) (omega (arith, length-split (d ∷ s)))
      ∙ last_blank-split (d ∷ s)
      ∙ ground arith)
  | inr e ↦ rw (e) (
      last_blank-push_head c (split 10 (d ∷ s))
      ∙ ground (
        arith,
        last_blank-split (d ∷ s),
        length-split (d ∷ s),
        ends_with_feed-count_feeds (d ∷ s),
      ))
]

pub ends_with_feed-append :
    (s t : Text) → length t == 0 ≡ false → ends_with_feed (s ++ t) ≡ ends_with_feed t
ends_with_feed-append [] t h = refl
ends_with_feed-append (c ∷ []) [] h = absurd (ground (arith, h))
ends_with_feed-append (c ∷ []) (d ∷ t) h = refl
ends_with_feed-append (c ∷ d ∷ s) t h = ends_with_feed-append (d ∷ s) t h
