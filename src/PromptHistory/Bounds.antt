-- ===== src/PromptHistory/Bounds.antt =====
-- The history stays bounded and holds no prompt twice in a row; a full storage loses the oldest.
use dispatch_web.Base.{
  ◌+◌, ◌/◌, ◌-◌, drop-drop, length-drop, sym, ap, ltb, Bool-cases, length, drop, length-drop,
  nat_eq, string_eq, Text, text_eq, text_eq_iff, text_is_eq, trim, ℕ, zero, suc, ◌-◌, ◌≤◌, ◌<◌, ◌≡◌,
  refl, ◌≢◌, inl, inr, false, some, List, [], ◌∷◌, ◌++◌, arith, ◌⊎◌, ◌∙◌, leb,
}
use Prim.Native.Nat.{zero}
use dispatch_web.PromptHistory.{
  repeats, newest, append_history, Written, accepted, Outcome, stored, persist_loop, over_quota,
  persist, refused, given_up,
}

-- No prompt stands directly after itself.
abbrev pub NoRepeat : List Text → Type 0
NoRepeat [] = Unit
NoRepeat (x ∷ []) = Unit
NoRepeat (x ∷ y ∷ xs) = (x ≢ y) × NoRepeat (y ∷ xs)

drop-NoRepeat : (n : ℕ) (xs : List Text) → NoRepeat xs → NoRepeat (drop n xs)
drop-NoRepeat zero xs h = h
drop-NoRepeat (suc n) [] h = tt
drop-NoRepeat (suc n) (x ∷ []) h = drop-NoRepeat n [] tt
drop-NoRepeat (suc n) (x ∷ y ∷ xs) h = drop-NoRepeat n (y ∷ xs) h.1

append-NoRepeat :
    (xs : List Text) (t : Text) → NoRepeat xs → repeats xs t ≡ false → NoRepeat (xs ++ t ∷ [])
append-NoRepeat [] t h k = tt
append-NoRepeat (x ∷ []) t h k = (λ q. ground (arith, text_eq_iff x t), tt)
append-NoRepeat (x ∷ y ∷ xs) t h k = (h.0, append-NoRepeat (y ∷ xs) t h.1 k)

newest-NoRepeat : (max' : ℕ) (xs : List Text) → NoRepeat xs → NoRepeat (newest max' xs)
newest-NoRepeat max' xs h = elim (Bool-cases (ltb max' (length xs))) [
  | inl k ↦ rw k (drop-NoRepeat (length xs - max') xs h)
  | inr k ↦ rw k h
]

newest-bound : (max' : ℕ) (xs : List Text) → length (newest max' xs) ≤ max'
newest-bound max' xs = ground (arith, length-drop (length xs - max') xs)

-- A history that is within the limit and has no repetition stays so, whatever is submitted.
pub append_history-NoRepeat :
    (history : List Text) (text : Text) (max' : ℕ)
    → NoRepeat history
    → length history ≤ max'
    → NoRepeat (append_history history text max')
      × (length (append_history history text max') ≤ max')
unfolding append_history
append_history-NoRepeat history text max' h b = elim (Bool-cases (text_eq (trim text) [])) [
  | inl e ↦ rw e (h, b)
  | inr e ↦ elim (Bool-cases (repeats history (trim text))) [
    | inl r ↦ rw (e, r) (h, b)
    | inr r ↦
        rw (e, r)
          (
            newest-NoRepeat max' (history ++ trim text ∷ [])
                (append-NoRepeat history (trim text) h r),
            newest-bound max' (history ++ trim text ∷ []),
          )
  ]
]

-- How a history was written: not at all, or as what is left after dropping its oldest entries, in
-- a form that the storage accepted.
pub record IsWritten (set_item : List Text → Written) (history kept : List Text) : Type 0 where
  pub dropped : ℕ
  pub suffix : kept ≡ drop dropped history
  pub taken : set_item kept ≡ accepted

stored_eq : {xs ys : List Text} → stored xs ≡ stored ys → xs ≡ ys
stored_eq h = ground arith

Written-cases : (w : Written) → (w ≡ accepted) ⊎ (w ≡ over_quota) ⊎ (w ≡ refused)
Written-cases accepted = inl refl
Written-cases over_quota = inr (inl refl)
Written-cases refused = inr (inr refl)

abbrev half_of : List Text → List Text
half_of cur = drop ((length cur + 1) / 2) cur

half_shorter : (cur : List Text) → 2 ≤ length cur → length (half_of cur) < length cur
half_shorter cur h = let d = length-drop ((length cur + 1) / 2) cur in omega (arith, d)

module _ (set_item : List Text → Written) where
  -- The loop ends with an outcome, and a stored array is one that was written.
  HasEnded : ℕ → List Text → Type 0
  HasEnded fuel cur =
      (o : Outcome) × (persist_loop set_item fuel cur ≡ some o)
      × ((kept : List Text) → o ≡ stored kept → IsWritten set_item cur kept)

  loop_over_quota :
      (fuel : ℕ) (cur : List Text)
      → set_item cur ≡ over_quota
      → leb (length cur) 1 ≡ false
      → HasEnded fuel (half_of cur)
      → HasEnded (suc fuel) cur
  unfolding persist_loop HasEnded
  loop_over_quota fuel cur w b (o, e, k) = (
    o,
    simp (persist_loop, w, b) e,
    λ kept q.
        let v = k kept q in
        record {
          dropped = (length cur + 1) / 2 + v.dropped;
          suffix = v.suffix ∙ drop-drop v.dropped ((length cur + 1) / 2) _ cur refl;
          taken = v.taken;
        },
  )

  loop_ends : (fuel : ℕ) (cur : List Text) → length cur < fuel → HasEnded fuel cur
  unfolding persist_loop HasEnded
  loop_ends zero cur h = absurd (omega arith)
  loop_ends (suc fuel) cur h = elim (Written-cases (set_item cur)) [
    | inl w ↦ (
      stored cur,
      simp (persist_loop, w) refl,
      λ kept q. record {
        dropped = 0;
        suffix = stored_eq (sym q);
        taken = ap set_item (stored_eq (sym q)) ∙ w;
      },
    )
    | inr (inr w) ↦ (given_up, simp (persist_loop, w) refl, λ kept q. absurd (ground arith))
    | inr (inl w) ↦ elim (Bool-cases (leb (length cur) 1)) [
      | inl b ↦ (given_up, simp (persist_loop, w, b) refl, λ kept q. absurd (ground arith))
      | inr b ↦
          let s = half_shorter cur (ground arith) in
          loop_over_quota fuel cur w b (loop_ends fuel (half_of cur) (omega (arith, s, h)))
    ]
  ]

  -- Persisting always ends, whatever the storage answers. When an array is stored, the storage
  -- accepted it and it is the history without some of its oldest entries.
  pub persist-IsWritten :
      (history : List Text)
      → (o : Outcome) × (persist set_item history ≡ some o)
        × ((kept : List Text) → o ≡ stored kept → IsWritten set_item history kept)
  unfolding persist HasEnded
  persist-IsWritten history = loop_ends (suc (length history)) history (omega arith)
