-- ===== src/Serialize/Retry.antt =====
-- server/serialize.ts: the failed messages at the end of the list while a retry is pending.
use dispatch_web.Base.{
  ◌==◌, if◌then◌else◌, Bool-cases, Option-cases, length, get_elem?, take, nat_eq, string_eq,
  text_is_eq, ℕ, zero, suc, ◌≤◌, ◌≡◌, refl, inl, inr, ◌&&◌, List, [], ◌∷◌, arith, ap, Bool,
}
use dispatch_web.Base.{refl, suc, true, false, arith, ◌==◌, ◌≤◌, if◌then◌else◌}
use dispatch_web.Serialize.{UiMessage, is_failed, strip_end, strip_transient_retry_errors}

module _ {J : Type 0} where
  -- The same from the front: a failed message stays only where something after it stays.
  unfoldable pub without_failed_end : List (UiMessage J) → List (UiMessage J)
  without_failed_end [] = []
  without_failed_end (m ∷ messages) =
      let rest = without_failed_end messages in
      if is_failed m && length rest == 0 then [] else m ∷ rest

  strip_end-le : (messages : List (UiMessage J)) (n : ℕ) → strip_end messages n ≤ n
  unfolding strip_end
  strip_end-le messages zero = omega arith
  strip_end-le messages (suc n) = elim (Option-cases (get_elem? messages n)) [
    | inl e ↦ simp (strip_end, e) (omega arith)
    | inr (m, e) ↦ simp (strip_end, e) (ground (arith, strip_end-le messages n))
  ]

  strip_end-cons :
      (m : UiMessage J) (messages : List (UiMessage J)) (n : ℕ)
      → strip_end (m ∷ messages) (suc n)
        ≡ (if strip_end messages n == 0 && is_failed m then 0 else suc (strip_end messages n))
  unfolding strip_end
  strip_end-cons m messages zero = ground arith
  strip_end-cons m messages (suc n) = elim (Option-cases (get_elem? messages n)) [
    | inl e ↦ simp (strip_end, e) (ground arith)
    | inr (x, e) ↦ simp (strip_end, e) (ground (arith, strip_end-cons m messages n))
  ]

  take-length : (messages : List (UiMessage J)) → take (length messages) messages ≡ messages
  take-length [] = refl
  take-length (m ∷ messages) = ap (λ ms. m ∷ ms) (take-length messages)

  take-strip_end :
      (messages : List (UiMessage J))
      → (take (strip_end messages (length messages)) messages ≡ without_failed_end messages)
        × (length (without_failed_end messages) ≡ strip_end messages (length messages))
  unfolding without_failed_end strip_end
  take-strip_end [] = (refl, refl)
  take-strip_end (m ∷ messages) =
      let later = take-strip_end messages in
      elim (Bool-cases (is_failed m && length (without_failed_end messages) == 0)) [
        | inl h ↦
            rw (strip_end-cons m messages (length messages)) (ground (arith, later.0, later.1, h))
        | inr h ↦
            rw (strip_end-cons m messages (length messages)) (ground (arith, later.0, later.1, h))
      ]

  -- While a retry is pending, the loop from the end hides exactly the failed messages after which
  -- every message has failed, and otherwise nothing is hidden.
  pub strip_transient_retry_errors-without_failed_end :
      (messages : List (UiMessage J)) (retry_active : Bool)
      → strip_transient_retry_errors messages retry_active
        ≡ (if retry_active then without_failed_end messages else messages)
  unfolding strip_transient_retry_errors
  strip_transient_retry_errors-without_failed_end messages false = refl
  strip_transient_retry_errors-without_failed_end messages true =
      ground (arith, (take-strip_end messages).0, take-length messages)
