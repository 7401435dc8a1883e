-- ===== src/LazyWindow/Fingerprint.antt =====
-- web/src/lazy-window.ts: `contentFingerprint`, by which a measured height is recognised.
use dispatch_web.Base.{
  if◌then◌else◌, length, nat_eq, string_eq, is_text, Text, text_is_eq, ℕ, ◌+◌, String, Option, none,
  some, List, [], ◌∷◌,
}

pub record FingerprintBlock : Type 0 where
  pub type : Option String
  pub text : Option Text
  pub thinking : Option Text
  pub arguments_text : Option Text
  pub output : Option Text
  pub command : Option Text

-- The values under `FP_KEYS`, in their order.
abbrev pub fp_values : FingerprintBlock → List (Option Text)
fp_values b = b.text ∷ b.thinking ∷ b.arguments_text ∷ b.output ∷ b.command ∷ []

abbrev pub add_lengths : List (Option Text) → ℕ → ℕ
add_lengths [] n = n
add_lengths (none ∷ vs) n = add_lengths vs n
add_lengths (some v ∷ vs) n = add_lengths vs (n + length v)

unfoldable pub fingerprint_from : List FingerprintBlock → ℕ → ℕ
fingerprint_from [] n = n
fingerprint_from (b ∷ content) n =
    fingerprint_from content
      (add_lengths (fp_values b) (if is_text "image" b.type then n + 1 else n))

unfoldable pub content_fingerprint : List FingerprintBlock → ℕ
unfolding fingerprint_from
content_fingerprint content = fingerprint_from content 0
