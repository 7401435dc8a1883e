-- ===== src/LazyWindow/Planning.antt =====
-- A plan settles every message, and settling twice changes nothing.
use dispatch_web.Base.{
  suc, Bool-cases, length, ◌==◌, ◌===◌, if◌then◌else◌, ap, Member, nat_eq, string_eq, has, add,
  delete, ===_refl, has-add, has-delete, Distinct, text_is_eq, String, ◌≡◌, refl, ◌∙◌, inl, inr,
  true, false, not, ◌&&◌, ◌||◌, List, [], ◌∷◌, arith,
}
use dispatch_web.LazyWindow.{
  WinRect, Viewport, WindowPlan, visible, plan_window, delete_all, add_all, apply_plan,
}

abbrev pub ids : List WinRect → List String
ids [] = []
ids (it ∷ items) = it.id ∷ ids items

has-delete_all :
    (b : String) (dels next : List String)
    → has b (delete_all dels next) ≡ (not (has b dels) && has b next)
has-delete_all b [] next = ground arith
has-delete_all b (d ∷ dels) next =
    has-delete_all b dels (delete d next)
    ∙ ground (arith, has-delete d b next, string_eq.beq_iff b d, string_eq.beq_iff d b)

has-add_all :
    (b : String) (adds next : List String) → has b (add_all adds next) ≡ (has b adds || has b next)
has-add_all b [] next = ground arith
has-add_all b (d ∷ adds) next = has-add_all b adds (add d next) ∙ ground (arith, has-add d b next)

has-applied :
    (b : String) (prev dels adds : List String)
    → has b
        (if length dels == 0 && length adds == 0 then prev else add_all adds (delete_all dels prev))
      ≡ (has b adds || (not (has b dels) && has b prev))
has-applied b prev [] [] = ground arith
has-applied b prev [] (a ∷ adds) =
    let z : (suc (length adds) == 0) ≡ false = ground arith in rw z (has-add_all b (a ∷ adds) prev)
has-applied b prev (d ∷ dels) adds =
    let z : (suc (length dels) == 0) ≡ false = ground arith in
    rw z (
      has-add_all b adds (delete_all (d ∷ dels) prev)
      ∙ ap (λ c. has b adds || c) (has-delete_all b (d ∷ dels) prev))

has-apply_plan :
    (b : String) (prev : List String) (plan : WindowPlan)
    → has b (apply_plan prev plan) ≡ (has b plan.hide || (not (has b plan.show) && has b prev))
unfolding apply_plan
has-apply_plan b prev plan = has-applied b prev plan.show plan.hide

module _ (viewport : Viewport) (always hidden : List String) where
  unplanned :
      (b : String) (items : List WinRect)
      → has b (ids items) ≡ false
      → (has b (plan_window items viewport always hidden).show ≡ false)
        × (has b (plan_window items viewport always hidden).hide ≡ false)
  unfolding plan_window
  unplanned b [] h = (refl, refl)
  unplanned b (it ∷ items) h = ground (arith, unplanned b items)

  has-ids : (x : WinRect) (items : List WinRect) → Member x items → has x.id (ids items) ≡ true
  has-ids x [] m = absurd m
  has-ids x (it ∷ items) (inl q) = rw q (ground (arith, ===_refl it.id))
  has-ids x (it ∷ items) (inr m) = ground (arith, has-ids x items m)

  -- After the plan an item is hidden when it is not visible.
  Settled : WinRect → WindowPlan → Type 0
  Settled x plan =
      (has x.id plan.hide || (not (has x.id plan.show) && has x.id hidden))
      ≡ not (visible viewport x)

  planned_head :
      (it : WinRect) (items : List WinRect)
      → has it.id (ids items) ≡ false
      → has it.id always ≡ false
      → Settled it (plan_window (it ∷ items) viewport always hidden)
  unfolding plan_window Settled
  planned_head it items d a =
      let (s, h) = unplanned it.id items d in
      let r = ===_refl it.id in
      elim (Bool-cases (visible viewport it)) [
        | inl v ↦ elim (Bool-cases (has it.id hidden)) [
          | inl k ↦ simp (a, v, k, s, h, r) refl
          | inr k ↦ simp (a, v, k, s, h) refl
        ]
        | inr v ↦ elim (Bool-cases (has it.id hidden)) [
          | inl k ↦ simp (a, v, k, s, h) refl
          | inr k ↦ simp (a, v, k, s, h, r) refl
        ]
      ]

  planned_tail :
      (x it : WinRect) (items : List WinRect)
      → (x.id === it.id) ≡ false
      → (it.id === x.id) ≡ false
      → Settled x (plan_window items viewport always hidden)
      → Settled x (plan_window (it ∷ items) viewport always hidden)
  unfolding plan_window Settled
  planned_tail x it items n n' s = elim (Bool-cases (has it.id always)) [
    | inl a ↦ simp a s
    | inr a ↦ elim (Bool-cases (visible viewport it)) [
      | inl v ↦ elim (Bool-cases (has it.id hidden)) [
        | inl k ↦ simp (a, v, k, n') s
        | inr k ↦ simp (a, v, k) s
      ]
      | inr v ↦ elim (Bool-cases (has it.id hidden)) [
        | inl k ↦ simp (a, v, k) s
        | inr k ↦ simp (a, v, k, n') s
      ]
    ]
  ]

  planned :
      (x : WinRect) (items : List WinRect)
      → Member x items
      → Distinct (ids items)
      → has x.id always ≡ false
      → Settled x (plan_window items viewport always hidden)
  planned x [] m d a = absurd m
  planned x (it ∷ items) (inl q) d a = rw q (planned_head it items d.0 (rw (← q) a))
  planned x (it ∷ items) (inr m) d a =
      let k = has-ids x items m in
      let n : (it.id === x.id) ≡ false = ground (arith, string_eq.beq_iff it.id x.id) in
      let n' : (x.id === it.id) ≡ false =
        ground (arith, string_eq.beq_iff it.id x.id, string_eq.beq_iff x.id it.id) in
      planned_tail x it items n' n (planned x items m d.1 a)

  -- The plan settles every managed message: when no id stands twice, a message that is not always
  -- rendered is hidden afterwards exactly when it is out of view.
  pub has-apply_plan-plan_window :
      (items : List WinRect) (x : WinRect)
      → Distinct (ids items)
      → Member x items
      → has x.id always ≡ false
      → has x.id (apply_plan hidden (plan_window items viewport always hidden))
        ≡ not (visible viewport x)
  unfolding Settled
  has-apply_plan-plan_window items x d m a =
      has-apply_plan x.id hidden (plan_window items viewport always hidden) ∙ planned x items m d a

  -- Nothing is left to do where every message that may be hidden is hidden when out of view.
  quiet :
      (items : List WinRect)
      → ((x : WinRect)
          → Member x items
          → has x.id always ≡ false
          → has x.id hidden ≡ not (visible viewport x))
      → plan_window items viewport always hidden ≡ record { show = []; hide = []; shrink_above = 0 }
  unfolding plan_window
  quiet [] h = refl
  quiet (it ∷ items) h =
      let rest = quiet items (λ x m a. h x (inr m) a) in
      elim (Bool-cases (has it.id always)) [
        | inl a ↦ simp a rest
        | inr a ↦
            let k = h it (inl refl) a in
            elim (Bool-cases (visible viewport it)) [
              | inl v ↦ let k' : has it.id hidden ≡ false = k ∙ ap not v in simp (a, v, k') rest
              | inr v ↦ let k' : has it.id hidden ≡ true = k ∙ ap not v in simp (a, v, k') rest
            ]
      ]

-- A second plan for the same layout is empty, so that the scroll position is corrected once: when
-- no id stands twice, planning again after the plan was applied shows nothing, hides nothing and
-- shrinks nothing above the view.
pub plan_window-apply_plan :
    (viewport : Viewport) (always hidden : List String) (items : List WinRect)
    → Distinct (ids items)
    → plan_window items viewport always
        (apply_plan hidden (plan_window items viewport always hidden))
      ≡ record { show = []; hide = []; shrink_above = 0 }
plan_window-apply_plan viewport always hidden items d =
    quiet viewport always _ items
      (λ x m a. has-apply_plan-plan_window viewport always hidden items x d m a)
