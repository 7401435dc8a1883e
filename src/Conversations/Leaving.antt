-- ===== src/Conversations/Leaving.antt =====
-- Switching frees a conversation only when nothing would be lost.
use dispatch_web.Base.{
  ◌===◌, nat_eq, string_eq, ===_refl, lookup, insert, remove, lookup-insert, lookup-remove,
  has-keys, text_is_eq, ℕ, String, ◌≡◌, refl, sym, ◌∙◌, ◌≢◌, true, false, none, some, List, ◌∷◌,
  arith, Bool-cases, or_else, inl, ◌⊎◌, inr, ◌≤◌, is_some, Option-cases, ap,
}
use dispatch_web.Conversations.{
  Conversation, ClientSession, is_retained, displace_active, activated, activate,
  switch_conversation, remove_conversation,
}

-- What holds of the conversations of a client: the active one exists, each stands under its id,
-- and those left behind are in the running list.
pub record IsSession (s : ClientSession) : Type 0 where
  pub active : (c : Conversation) × (lookup s.active_id s.convs ≡ some c)
  pub named : (j : String) (c : Conversation) → lookup j s.convs ≡ some c → c.id ≡ j
  pub running :
      (j : String) (c : Conversation)
      → lookup j s.convs ≡ some c
      → j ≢ s.active_id
      → c.listed ≡ true

-- The state after a switch from the conversation `old` to the conversation `target`.
pub record IsSwitched (now : ℕ) (id : String) (old target : Conversation) (s r : ClientSession)
    : Type 0 where
  pub active : r.active_id ≡ id
  pub workspace : r.cwd ≡ target.cwd
  pub shown : lookup id r.convs ≡ some (activated now target)
  pub kept :
      is_retained old ≡ true
      → (lookup s.active_id r.convs ≡ some (record old { listed = true }))
        × (r.disposed ≡ s.disposed)
  pub freed :
      is_retained old ≡ false
      → (lookup s.active_id r.convs ≡ none) × (r.disposed ≡ s.active_id ∷ s.disposed)
  pub others : (j : String) → j ≢ id → j ≢ s.active_id → lookup j r.convs ≡ lookup j s.convs

payload_eq : {A : Type 0} {x y : A} → some x ≡ some y → x ≡ y
payload_eq h = ground arith

differs_from_none : {A : Type 0} {x : A} → ¬ (none ≡ some x)
differs_from_none h = ground arith

differ : (i j : String) → i ≢ j → (i === j) ≡ false
differ i j n = ground (arith, string_eq.beq_iff i j)

lookup_same :
    {V : Type 0} (i : String) (v : V) (m : List (String × V)) → lookup i (insert i v m) ≡ some v
lookup_same i v m = ground (arith, lookup-insert i i v m, ===_refl i)

lookup_other :
    {V : Type 0} (i j : String) (v : V) (m : List (String × V))
    → i ≢ j
    → lookup j (insert i v m) ≡ lookup j m
lookup_other i j v m n = ground (arith, lookup-insert i j v m, differ i j n)

lookup_kept :
    {V : Type 0} (i j : String) (m : List (String × V)) → i ≢ j → lookup j (remove i m) ≡ lookup j m
lookup_kept i j m n = ground (arith, lookup-remove i j m, differ i j n)

module _ (now : ℕ) (id : String) (s : ClientSession) (old target : Conversation)
    (a : lookup s.active_id s.convs ≡ some old) (named : old.id ≡ s.active_id)
    (t : lookup id s.convs ≡ some target) (n : id ≢ s.active_id) where
  retained : is_retained old ≡ true → IsSwitched now id old target s (switch_conversation now id s)
  unfolding switch_conversation displace_active activate
  retained k =
      let n' : s.active_id ≢ id = λ q. n (sym q) in
      let left = record old { listed = true } in
      let t' = lookup_other s.active_id id left s.convs n' ∙ t in
      simp
        (
          switch_conversation,
          displace_active,
          activate,
          has-keys id s.convs,
          t,
          differ id s.active_id n,
          a,
          k,
          t',
        )
        (record {
          active = refl;
          workspace = refl;
          shown = lookup_same id _ _;
          kept =
              λ q. (lookup_other id s.active_id _ _ n ∙ lookup_same s.active_id left s.convs, refl);
          freed = λ q. absurd (ground arith);
          others = λ j p q.
              lookup_other id j _ _ (λ e. p (sym e))
              ∙ lookup_other s.active_id j left s.convs (λ e. q (sym e));
        })

  freed : is_retained old ≡ false → IsSwitched now id old target s (switch_conversation now id s)
  unfolding switch_conversation displace_active activate remove_conversation
  freed k =
      let n' : s.active_id ≢ id = λ q. n (sym q) in
      let t' = lookup_kept s.active_id id s.convs n' ∙ t in
      simp
        (
          switch_conversation,
          displace_active,
          remove_conversation,
          activate,
          has-keys id s.convs,
          has-keys s.active_id s.convs,
          t,
          differ id s.active_id n,
          differ s.active_id id n',
          a,
          k,
          named,
          t',
        )
        (record {
          active = refl;
          workspace = refl;
          shown = lookup_same id _ _;
          kept = λ q. absurd (ground arith);
          freed = λ q. (
            lookup_other id s.active_id _ _ n
                ∙ ground
                    (arith, lookup-remove s.active_id s.active_id s.convs, ===_refl s.active_id),
            refl,
          );
          others = λ j p q.
              lookup_other id j _ _ (λ e. p (sym e))
              ∙ lookup_kept s.active_id j s.convs (λ e. q (sym e));
        })

  -- Switching to another open conversation shows it, in its workspace. The one that is left is kept
  -- in the running list when it must be retained, and otherwise freed and disposed; all others
  -- stay as they are.
  pub switch_conversation-IsSwitched : IsSwitched now id old target s (switch_conversation now id s)
  switch_conversation-IsSwitched = elim (Bool-cases (is_retained old)) [
    | inl k ↦ retained k
    | inr k ↦ freed k
  ]

equal_or_not : (i j : String) → (i ≡ j) ⊎ (i ≢ j)
equal_or_not i j = elim (Bool-cases (i === j)) [
  | inl h ↦ inl ((string_eq.beq_iff i j).0 h)
  | inr h ↦ inr (λ q. ground (arith, string_eq.beq_iff i j))
]

-- A switch to an unknown conversation or to the active one changes nothing.
switch_cases :
    (now : ℕ) (id : String) (s : ClientSession)
    → (switch_conversation now id s ≡ s)
      ⊎ ((target : Conversation) × (lookup id s.convs ≡ some target) × (id ≢ s.active_id))
unfolding switch_conversation
switch_cases now id s = elim (Option-cases (lookup id s.convs)) [
  | inl h ↦ inl (simp (switch_conversation, has-keys id s.convs, h) refl)
  | inr (target, h) ↦ elim (Bool-cases (id === s.active_id)) [
    | inl q ↦ inl (simp (switch_conversation, has-keys id s.convs, h, q) refl)
    | inr q ↦ inr (target, h, λ e. ground (arith, string_eq.beq_iff id s.active_id))
  ]
]

-- Whatever conversation is there after a switch.
switched_entry :
    (now : ℕ) (id : String) (old target : Conversation) (s r : ClientSession)
    → IsSwitched now id old target s r
    → (j : String) (c : Conversation) → lookup j r.convs ≡ some c
    → ((j ≡ id) × (c ≡ activated now target))
      ⊎ ((j ≡ s.active_id) × (c ≡ record old { listed = true }))
      ⊎ ((j ≢ id) × (j ≢ s.active_id) × (lookup j s.convs ≡ some c))
switched_entry now id old target s r w j c h = elim (equal_or_not j id) [
  | inl q ↦ inl (q, payload_eq (sym h ∙ ap (λ i. lookup i r.convs) q ∙ w.shown))
  | inr n ↦ elim (equal_or_not j s.active_id) [
    | inr m ↦ inr (inr (n, m, sym (w.others j n m) ∙ h))
    | inl q ↦
        let here : lookup s.active_id r.convs ≡ some c = ap (λ i. lookup i r.convs) (sym q) ∙ h in
        elim (Bool-cases (is_retained old)) [
          | inl k ↦ inr (inl (q, payload_eq (sym here ∙ (w.kept k).0)))
          | inr k ↦ absurd (differs_from_none (sym (w.freed k).0 ∙ here))
        ]
  ]
]

work-retained :
    (c : Conversation)
    → (or_else c.is_streaming true ≡ true) ⊎ (1 ≤ c.live_terminals)
    → is_retained c ≡ true
unfolding is_retained
work-retained c (inl h) = rw h refl
work-retained c (inr h) = ground arith

-- Switching never drops work: whatever the id, a conversation that streams, whose session is being
-- replaced, or that has a live terminal is still there afterwards.
pub switch_conversation-keeps_work :
    (now : ℕ) (id : String) (s : ClientSession) (j : String) (c : Conversation)
    → IsSession s
    → lookup j s.convs ≡ some c
    → (or_else c.is_streaming true ≡ true) ⊎ (1 ≤ c.live_terminals)
    → is_some (lookup j (switch_conversation now id s).convs) ≡ true
switch_conversation-keeps_work now id s j c v h w = elim (switch_cases now id s) [
  | inl q ↦ rw (q, h) refl
  | inr (target, t, n) ↦
      let (old, a) = v.active in
      let r =
        switch_conversation-IsSwitched now id s old target a (v.named s.active_id old a) t n in
      elim (equal_or_not j id) [
        | inl q ↦ rw (q, r.shown) refl
        | inr m ↦ elim (equal_or_not j s.active_id) [
          | inr l ↦ rw (r.others j m l, h) refl
          | inl q ↦
              let same : old ≡ c = payload_eq (sym a ∙ ap (λ i. lookup i s.convs) (sym q) ∙ h) in
              rw (q, (r.kept (ap is_retained same ∙ work-retained c w)).0) refl
        ]
      ]
]

-- A switch keeps the conversations of a client well formed.
pub switch_conversation-IsSession :
    (now : ℕ) (id : String) (s : ClientSession)
    → IsSession s
    → IsSession (switch_conversation now id s)
switch_conversation-IsSession now id s v = elim (switch_cases now id s) [
  | inl q ↦ rw q v
  | inr (target, t, n) ↦
      let (old, a) = v.active in
      let r =
        switch_conversation-IsSwitched now id s old target a (v.named s.active_id old a) t n in
      let entry = switched_entry now id old target s _ r in
      record {
        active = (activated now target, rw r.active r.shown);
        named = λ j c h. elim (entry j c h) [
          | inl (q, e) ↦ rw (e, q) (v.named id target t)
          | inr (inl (q, e)) ↦ rw (e, q) (v.named s.active_id old a)
          | inr (inr (m, l, k)) ↦ v.named j c k
        ];
        running = λ j c h m. elim (entry j c h) [
          | inl (q, e) ↦ absurd (m (q ∙ sym r.active))
          | inr (inl (q, e)) ↦ rw e refl
          | inr (inr (o, l, k)) ↦ v.running j c k l
        ];
      }
]
