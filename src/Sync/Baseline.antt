-- ===== src/Sync/Baseline.antt =====
-- server/agent-service.ts: what the increment of a snapshot is cut from.
use dispatch_web.Base.{
  true, eq_iff, ltb, if◌then◌else◌, Option-cases, length, drop, Eq, nat_eq, string_eq, text_is_eq,
  String, ◌≡◌, refl, sym, ap, ◌∙◌, inl, inr, Bool, true, some, List, [], ◌∷◌, ◌++◌, arith,
}
use mathlib.Core.List.{append-nil}
use dispatch_web.Sync.{Emitter, is_prefix, baseline}

module _ {M : Type 0} ⦃e : Eq M⦄ where
  pub is_prefix-drop :
      (prev cur : List M) → is_prefix prev cur ≡ true → prev ++ drop (length prev) cur ≡ cur
  unfolding is_prefix
  is_prefix-drop [] cur h = refl
  is_prefix-drop (m ∷ prev) [] h = absurd (ground arith)
  is_prefix-drop (m ∷ prev) (n ∷ cur) h = ground (arith, is_prefix-drop prev cur, e.beq_iff m n)

  pub baseline-prefix :
      (force_full : Bool) (active : String) (cur : List M) (s : Emitter M) (prev : List M)
      → baseline force_full active cur s ≡ some prev
      → (s.emitted_messages ≡ some prev) × (is_prefix prev cur ≡ true)
  unfolding baseline
  baseline-prefix force_full active cur s prev h = elim (Option-cases s.emitted_messages) [
    | inl q ↦ absurd (let k = (rw (baseline, q) at h) in ground arith)
    | inr (p, q) ↦
        let k = (rw (baseline, q) at h) in
        let r : p ≡ prev = ground arith in (q ∙ ap some r, (rw (← r) (ground arith)))
  ]

  pub baseline-conversation :
      (force_full : Bool) (active : String) (cur : List M) (s : Emitter M) (prev : List M)
      → baseline force_full active cur s ≡ some prev
      → s.emitted_conv_id ≡ some active
  unfolding baseline
  baseline-conversation force_full active cur s prev h = elim (Option-cases s.emitted_messages) [
    | inl q ↦ absurd (let k = (rw (baseline, q) at h) in ground arith)
    | inr (p, q) ↦
        let k = (rw (baseline, q) at h) in
        elim (Option-cases s.emitted_conv_id) [
          | inl n ↦ absurd (ground arith)
          | inr (id, n) ↦ n ∙ ap some (ground (arith, eq_iff id active))
        ]
  ]

pub merged :
    {M : Type 0} (old appended cur : List M)
    → old ++ appended ≡ cur
    → (if ltb 0 (length appended) then old ++ appended else old) ≡ cur
merged old [] cur h = sym (append-nil old) ∙ h
merged old (m ∷ appended) cur h = ground arith
