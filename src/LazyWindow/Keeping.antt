-- ===== src/LazyWindow/Keeping.antt =====
-- The messages at the end of a chat that stay rendered.
use mathlib.Core.List.{reverse-cons, reverse-reverse}
use dispatch_web.Base.{
  ◌==◌, nat_eq, zero, length-reverse, drop-append, sym, leb, Bool-cases, length, take, nat_eq,
  string_eq, text_is_eq, ℕ, suc, ◌+◌, ◌-◌, ◌≤◌, ◌<◌, String, ◌≡◌, refl, ap, inl, inr, List, [], ◌∷◌,
  ◌++◌, arith, drop, reverse, ◌∙◌, false,
}
use dispatch_web.LazyWindow.{
  Message, height_of, pick_from, count_visible, start_from, is_visible_role, recent_start_index,
  pick_always,
}

abbrev pub total : List (String × ℕ) → List Message → ℕ
total heights [] = 0
total heights (m ∷ ms) = height_of heights m + total heights ms

abbrev pub message_ids : List Message → List String
message_ids [] = []
message_ids (m ∷ ms) = m.id ∷ message_ids ms

-- Which of the messages before the last one are kept: the `kept` nearest to the end, up to the one
-- with which the kept height reaches the budget, or all.
pub record IsKept (older : List Message) (heights : List (String × ℕ)) (budget acc : ℕ)
    (out : List String) : Type 0 where
  pub kept : ℕ
  pub newest : out ≡ message_ids (take kept older)
  pub within : kept ≤ length older
  pub reached : kept < length older → budget ≤ acc + total heights (take kept older)
  pub needed : 1 ≤ kept → acc + total heights (take (kept - 1) older) < budget

needed_step :
    (m : Message) (older : List Message) (heights : List (String × ℕ)) (budget acc n : ℕ)
    → acc < budget
    → (1 ≤ n → acc + height_of heights m + total heights (take (n - 1) older) < budget)
    → acc + total heights (take (suc n - 1) (m ∷ older)) < budget
needed_step m older heights budget acc zero h k =
    let e : 1 - 1 ≡ 0 = omega arith in rw e (omega (arith, h))
needed_step m older heights budget acc (suc n) h k =
    let e : suc (suc n) - 1 ≡ suc n = omega arith in
    let e' : suc n - 1 ≡ n = omega arith in
    let k' : acc + height_of heights m + total heights (take n older) < budget =
      (let q = k (omega arith) in (rw e' at q)) in
    rw e (omega (arith, k'))

pick_from-IsKept :
    (older : List Message) (heights : List (String × ℕ)) (budget acc : ℕ)
    → IsKept older heights budget acc (pick_from older heights budget acc)
unfolding pick_from
pick_from-IsKept [] heights budget acc = record {
  kept = 0;
  newest = refl;
  within = omega arith;
  reached = λ h. absurd (omega arith);
  needed = λ h. absurd (omega arith);
}
pick_from-IsKept (m ∷ older) heights budget acc = elim (Bool-cases (leb budget acc)) [
  | inl full ↦ simp full (record {
    kept = 0;
    newest = refl;
    within = omega arith;
    reached = λ h. ground arith;
    needed = λ h. absurd (omega arith);
  })
  | inr room ↦
      let r = pick_from-IsKept older heights budget (acc + height_of heights m) in
      simp room (record {
        kept = suc r.kept;
        newest = ap (λ ids. m.id ∷ ids) r.newest;
        within = omega (arith, r.within);
        reached = λ h. (let b = r.reached (omega arith) in omega (arith, b));
        needed = λ h. needed_step m older heights budget acc r.kept (ground arith) r.needed;
      })
]

count_visible-append :
    (roles others : List String)
    → count_visible (roles ++ others) ≡ count_visible roles + count_visible others
unfolding count_visible
count_visible-append [] others = omega arith
count_visible-append (role ∷ roles) others = ground (arith, count_visible-append roles others)

start_from-bound : (older : List String) (remaining : ℕ) → start_from older remaining ≤ length older
unfolding start_from
start_from-bound [] remaining = omega arith
start_from-bound (role ∷ older) remaining =
    ground (arith, start_from-bound older remaining, start_from-bound older (remaining - 1))

start_from_inner :
    (role : String) (older : List String) (remaining : ℕ)
    → 1 ≤ remaining
    → remaining ≤ count_visible (role ∷ older)
    → start_from (role ∷ older) remaining ≤ length older
unfolding start_from count_visible
start_from_inner role older remaining h k =
    ground (arith, start_from-bound older remaining, start_from-bound older (remaining - 1))

count_visible-reverse : (roles : List String) → count_visible (reverse roles) ≡ count_visible roles
unfolding count_visible
count_visible-reverse [] = refl
count_visible-reverse (role ∷ roles) =
    ap count_visible (reverse-cons role roles)
    ∙ count_visible-append (reverse roles) (role ∷ [])
    ∙ ground (arith, count_visible-reverse roles)

drop-all : (roles : List String) → drop (length roles) roles ≡ []
drop-all [] = refl
drop-all (role ∷ roles) = drop-all roles

drop-reverse :
    (role : String) (older : List String) (i : ℕ)
    → i ≤ length older
    → count_visible (drop i (reverse (role ∷ older)))
      ≡ count_visible (drop i (reverse older)) + count_visible (role ∷ [])
drop-reverse role older i h =
    ap (λ roles. count_visible (drop i roles)) (reverse-cons role older)
    ∙ ap count_visible (drop-append i (reverse older) (role ∷ []) (rw (length-reverse older) h))
    ∙ count_visible-append (drop i (reverse older)) (role ∷ [])

start_from-visible :
    (roles : List String) (remaining : ℕ)
    → 1 ≤ remaining
    → remaining ≤ count_visible roles
    → count_visible (drop (start_from roles remaining) (reverse roles)) ≡ remaining
unfolding start_from count_visible
start_from-visible [] remaining h k = absurd (ground arith)
start_from-visible (role ∷ older) remaining h k =
    drop-reverse role older _ (start_from_inner role older remaining h k)
    ∙ elim (Bool-cases (is_visible_role role)) [
      | inr v ↦
          rw v (let r = start_from-visible older remaining h (ground arith) in omega (arith, r))
      | inl v ↦ elim (Bool-cases (remaining == 1)) [
        | inl one ↦
            rw (v, one)
              (let d : drop (length older) (reverse older) ≡ [] =
                  ap (λ n. drop n (reverse older)) (sym (length-reverse older))
                  ∙ drop-all (reverse older) in
                rw d (ground arith))
        | inr more ↦
            rw (v, more)
              (let r = start_from-visible older (remaining - 1) (ground arith) (ground arith) in
                ground (arith, r))
      ]
    ]

-- The index at which full rendering starts. A chat of at most `min'` visible messages is rendered
-- from its beginning; in a longer one, for `1 ≤ keep ≤ min'`, exactly `keep` visible messages stand
-- from the index on, where a tool result is not a visible message.
pub recent_start_index_lem :
    (roles : List String) (keep min' : ℕ)
    → 1 ≤ keep
    → keep ≤ min'
    → (count_visible roles ≤ min' → recent_start_index roles keep min' ≡ 0)
      × (min' < count_visible roles
          → count_visible (drop (recent_start_index roles keep min') roles) ≡ keep)
unfolding recent_start_index
recent_start_index_lem roles keep min' h k = (
  λ small. ground arith,
  λ large.
      let c : leb (count_visible roles) min' ≡ false = ground arith in
      rw c (
        let n = count_visible-reverse roles in
        let r = start_from-visible (reverse roles) keep h (omega (arith, n, large, k)) in
        ap (λ rs. count_visible (drop (start_from (reverse roles) keep) rs))
          (sym (reverse-reverse roles))
        ∙ r),
)

-- The ids that `pickAlways` returns for a chat: its last message, whatever its height, and of the
-- messages before it those nearest to the end, as many as it takes for the height to reach the
-- budget. Before each of them the height was below the budget.
pub pick_always-IsKept :
    (msgs older : List Message) (last : Message) (heights : List (String × ℕ)) (budget : ℕ)
    → reverse msgs ≡ last ∷ older
    → (rest : List String) × (pick_always msgs heights budget ≡ last.id ∷ rest)
      × IsKept older heights budget (height_of heights last) rest
unfolding pick_always
pick_always-IsKept msgs older last heights budget h = (
  pick_from older heights budget (height_of heights last),
  rw (pick_always, h) refl,
  pick_from-IsKept older heights budget (height_of heights last),
)
