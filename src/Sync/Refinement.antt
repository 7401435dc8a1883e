-- ===== src/Sync/Refinement.antt =====
-- Clients show what the server has sent, also when messages are lost.
use dispatch_web.Base.{
  ◌||◌, Member, false, true, eq_iff, if◌then◌else◌, Option-cases, length, drop, Eq, nat_eq,
  string_eq, text_is_eq, ◌+◌, ◌≤◌, String, ◌≡◌, refl, sym, ap, ◌∙◌, inl, inr, Bool, true, some,
  List, [], ◌∷◌, ◌++◌, arith, false, none,
}
use dispatch_web.Snapshots.{UiState}
use dispatch_web.Sync.{
  kept, preview_state, emit_session_preview, snapshot_delta, reduce, reduce_all, Emitter, is_prefix,
  baseline, merge, emit_snapshot_now, Client, reduce_all, initial_emitter, next_state, emitted,
  emit_session_preview, preview_state, chains,
}
use dispatch_web.Sync.History.{
  Mirrors, itself-Mirrors, IsChained, IsFaithful, snapshot-IsFaithful, later, delta-IsFaithful,
}
use dispatch_web.Sync.Baseline.{is_prefix-drop, baseline-prefix, baseline-conversation, merged}

module _ {M R : Type 0} where
  -- What the server remembers belongs to the states that it has had; a revision has one state.
  pub record IsHistory (s : Emitter M) (hist : List (UiState M R)) : Type 0 where
    pub bounded : (u : UiState M R) → Member u hist → u.rev ≤ s.snap_rev
    pub unique : (u w : UiState M R) → Member u hist → Member w hist → u.rev ≡ w.rev → u ≡ w
    pub known :
        (prev : List M)
        → s.emitted_messages ≡ some prev
        → (u : UiState M R) × Member u hist
          × (u.messages ≡ prev)
          × (u.rev ≡ s.emitted_rev)
          × (u.booting ≡ false)

  grown :
      {s : Emitter M} {hist : List (UiState M R)} (u : UiState M R) (s' : Emitter M)
      → IsHistory s hist
      → u.rev ≡ s.snap_rev + 1
      → s'.snap_rev ≡ s.snap_rev + 1
      → ((prev : List M)
          → s'.emitted_messages ≡ some prev
          → (u.messages ≡ prev) × (u.rev ≡ s'.emitted_rev) × (u.booting ≡ false))
      → IsHistory s' (u ∷ hist)
  grown {s} {hist} u s' i h k e = record {
    bounded = λ w m. elim m [
      | inl q ↦ rw (q, h, k) (omega arith)
      | inr m' ↦ let b = i.bounded w m' in omega (arith, b, k)
    ];
    unique = λ v w m n q. elim m [
      | inl a ↦ elim n [
        | inl b ↦ a ∙ sym b
        | inr n' ↦
            let b = i.bounded w n' in
            let c = ap (λ x. x.rev) a in absurd (omega (arith, b, c, q, h))
      ]
      | inr m' ↦ elim n [
        | inl b ↦
            let d = i.bounded v m' in
            let c = ap (λ x. x.rev) b in absurd (omega (arith, d, c, q, h))
        | inr n' ↦ i.unique v w m' n' q
      ]
    ];
    known = λ prev m. (u, inl refl, (e prev m).0, (e prev m).1, (e prev m).2);
  }

  -- An increment over a state that agrees with the server's.
  merge-Mirrors :
      (u w light : UiState M R) (appended cur : List M)
      → Mirrors u w
      → w.booting ≡ false
      → light.booting ≡ false
      → w.messages ++ appended ≡ cur
      → Mirrors (merge u appended light) (record light { messages = cur })
  merge-Mirrors u w light appended cur a old new h =
      let booting : (light.booting || u.booting) ≡ light.booting =
        ground (arith, ap (λ x. x.booting) a.same, old, new) in
      let messages = merged u.messages appended cur (ap (λ x. x.messages ++ appended) a.same ∙ h) in
      record {
        same = λ i. record light {
          booting = booting i;
          session_file = kept light.session_file u.session_file;
          error_message = kept light.error_message u.error_message;
          messages = messages i;
        };
        error = λ e q. ap (λ x. kept x u.error_message) q;
        file = λ f q. ap (λ x. kept x u.session_file) q;
      }

  module _ ⦃e : Eq M⦄ where
    chained :
        {s : Emitter M} {hist : List (UiState M R)} (active : String) (prev cur : List M)
        (light : UiState M R)
        → IsHistory s hist
        → s.emitted_messages ≡ some prev
        → is_prefix prev cur ≡ true
        → IsChained
            (next_state active cur light s ∷ hist)
            s.emitted_rev
            (drop (length prev) cur)
            (next_state active [] light s)
    chained {s} {hist} active prev cur light i h p u (w, m, agrees) r =
        let (v, n, q, k, ready) = i.known prev h in
        let b = i.bounded v n in
        let at_base = sym (ap (λ x. x.rev) agrees.same) ∙ r in
        elim m [
          | inl a ↦ let c = ap (λ x. x.rev) a in absurd (omega (arith, b, c, k, at_base))
          | inr m' ↦
              let same = i.unique w v m' n (at_base ∙ sym k) in
              (
                next_state active cur light s,
                inl refl,
                merge-Mirrors u w (next_state active [] light s) (drop (length prev) cur) cur agrees
                    (ap (λ x. x.booting) same ∙ ready) refl
                    (rw (same, q) (is_prefix-drop prev cur p)),
              )
        ]

    emitted-IsHistory :
        {s : Emitter M} {hist : List (UiState M R)} (force_full : Bool) (active : String)
        (cur : List M) (light : UiState M R)
        → IsHistory s hist
        → IsHistory
            (emit_snapshot_now force_full false active cur light s).0
            (next_state active cur light s ∷ hist)
    unfolding emit_snapshot_now
    emitted-IsHistory {s} {hist} force_full active cur light i =
        let new =
          grown (next_state active cur light s) (emitted active cur s) i refl refl
            (λ prev h. (ground arith, refl, refl)) in
        elim (Option-cases (baseline force_full active cur s)) [
          | inl h ↦ simp (emit_snapshot_now, h) new
          | inr (prev, h) ↦ simp (emit_snapshot_now, h) new
        ]

    received-IsFaithful :
        {s : Emitter M} {hist : List (UiState M R)} {c : Client M R} (force_full : Bool)
        (active : String) (cur : List M) (light : UiState M R)
        → IsHistory s hist
        → IsFaithful hist c
        → IsFaithful
            (next_state active cur light s ∷ hist)
            (reduce_all (emit_snapshot_now force_full false active cur light s).1 c)
    unfolding emit_snapshot_now reduce_all
    received-IsFaithful {s} {hist} {c} force_full active cur light i f =
        elim (Option-cases (baseline force_full active cur s)) [
          | inl h ↦
              simp (emit_snapshot_now, h)
                (snapshot-IsFaithful (next_state active cur light s) (later _ f) (
                  next_state active cur light s,
                  inl refl,
                  itself-Mirrors (next_state active cur light s),
                ))
          | inr (prev, h) ↦
              let (k, p) = baseline-prefix force_full active cur s prev h in
              simp (emit_snapshot_now, h)
                (delta-IsFaithful active _ s.emitted_rev _ _ (later _ f)
                  (chained active prev cur light i k p))
        ]

    -- The server and one client that may miss messages: the states that the server has had.
    pub data Exchange : Emitter M → List (UiState M R) → Client M R → Type 0 where
      start : Exchange initial_emitter [] (record { state = none; snapshots_by_id = [] })
      sent :
          {s : Emitter M} {hist : List (UiState M R)} {c : Client M R} (force_full : Bool)
          (active : String) (cur : List M) (light : UiState M R) (delivered : Bool)
          → Exchange s hist c
          → Exchange
              (emit_snapshot_now force_full false active cur light s).0
              (next_state active cur light s ∷ hist)
              (if delivered
                then reduce_all (emit_snapshot_now force_full false active cur light s).1 c
                else c)
      previewed :
          {s : Emitter M} {hist : List (UiState M R)} {c : Client M R} (id : String)
          (messages : List M) (preview : UiState M R) (delivered : Bool)
          → Exchange s hist c
          → Exchange
              (emit_session_preview id messages preview s).0
              (preview_state id messages preview s ∷ hist)
              (if delivered then reduce_all (emit_session_preview id messages preview s).1 c else c)

    previewed-IsHistory :
        {s : Emitter M} {hist : List (UiState M R)} (id : String) (messages : List M)
        (preview : UiState M R)
        → IsHistory s hist
        → IsHistory
            (emit_session_preview id messages preview s).0
            (preview_state id messages preview s ∷ hist)
    unfolding emit_session_preview
    previewed-IsHistory {s} id messages preview i =
        grown (preview_state id messages preview s) _ i refl refl (λ prev h. absurd (ground arith))

    preview-IsFaithful :
        (s : Emitter M) {hist : List (UiState M R)} {c : Client M R} (id : String)
        (messages : List M) (preview : UiState M R)
        → IsFaithful hist c
        → IsFaithful
            (preview_state id messages preview s ∷ hist)
            (reduce_all (emit_session_preview id messages preview s).1 c)
    unfolding emit_session_preview reduce_all
    preview-IsFaithful s id messages preview f =
        snapshot-IsFaithful (preview_state id messages preview s) (later _ f) (
          preview_state id messages preview s,
          inl refl,
          itself-Mirrors (preview_state id messages preview s),
        )

    exchange-IsHistory :
        {s : Emitter M} {hist : List (UiState M R)} {c : Client M R}
        → Exchange s hist c
        → IsHistory s hist
    exchange-IsHistory start = record {
      bounded = λ u m. absurd m;
      unique = λ u w m n q. absurd m;
      known = λ prev h. absurd (ground arith);
    }
    exchange-IsHistory (sent force_full active cur light delivered x) =
        emitted-IsHistory force_full active cur light (exchange-IsHistory x)
    exchange-IsHistory (previewed id messages preview delivered x) =
        previewed-IsHistory id messages preview (exchange-IsHistory x)

    exchange-IsFaithful :
        {s : Emitter M} {hist : List (UiState M R)} {c : Client M R}
        → Exchange s hist c
        → IsFaithful hist c
    exchange-IsFaithful start = record { shown = λ u h. absurd (ground arith); cached = tt }
    exchange-IsFaithful (sent force_full active cur light true x) =
        received-IsFaithful force_full active cur light (exchange-IsHistory x)
          (exchange-IsFaithful x)
    exchange-IsFaithful (sent force_full active cur light false x) = later _ (exchange-IsFaithful x)
    exchange-IsFaithful (previewed id messages preview true x) =
        preview-IsFaithful _ id messages preview (exchange-IsFaithful x)
    exchange-IsFaithful (previewed id messages preview false x) = later _ (exchange-IsFaithful x)

    -- Increments never corrupt what a client shows. After any sequence of snapshots, increments and
    -- session previews, of which the client missed any, the client shows a state that the server
    -- has had, the only one that the server had at that revision, but that it may show an error
    -- message or a session file that this state has no more.
    pub exchange-agrees :
        {s : Emitter M} {hist : List (UiState M R)} {c : Client M R}
        → Exchange s hist c
        → (u : UiState M R) → c.state ≡ some u
        → (w : UiState M R) × Member w hist
          × Mirrors u w
          × ((v : UiState M R) → Member v hist → v.rev ≡ u.rev → v ≡ w)
    exchange-agrees x u h =
        let (w, m, a) = (exchange-IsFaithful x).shown u h in
        (w, m, a, λ v n q. (exchange-IsHistory x).unique v w n m (q ∙ ap (λ y. y.rev) a.same))

    -- The client shows what the server has last sent, unless a full snapshot comes next.
    pub record IsCurrent (s : Emitter M) (c : Client M R) : Type 0 where
      pub shows :
          (prev : List M) (id : String)
          → s.emitted_messages ≡ some prev
          → s.emitted_conv_id ≡ some id
          → (u : UiState M R) × (c.state ≡ some u)
            × (u.conversation_id ≡ id)
            × (u.messages ≡ prev)
            × (u.rev ≡ s.emitted_rev)
            × (u.booting ≡ false)

    now-IsCurrent :
        (s : Emitter M) {c : Client M R} (active : String) (cur : List M) (light u : UiState M R)
        → c.state ≡ some u
        → Mirrors u (next_state active cur light s)
        → IsCurrent (emitted active cur s) c
    now-IsCurrent s active cur light u h a = record {
      shows = λ prev id k l. (
        u,
        h,
        ap (λ x. x.conversation_id) a.same ∙ ground arith,
        ap (λ x. x.messages) a.same ∙ ground arith,
        ap (λ x. x.rev) a.same,
        ap (λ x. x.booting) a.same,
      );
    }

    -- A client that is current stays so, whether a full snapshot or an increment was sent: it then
    -- shows the active conversation with all its messages, the new revision and the new light
    -- state. After a full snapshot it shows exactly that; after an increment it may show an error
    -- message or a session file that the server has no more.
    pub reduce_all-emit_snapshot_now :
        (s : Emitter M) (c : Client M R) (force_full : Bool) (active : String) (cur : List M)
        (light : UiState M R)
        → IsCurrent s c
        → let (s', messages) = emit_snapshot_now force_full false active cur light s in
          (u : UiState M R) × ((reduce_all messages c).state ≡ some u)
          × Mirrors u (next_state active cur light s)
          × (baseline force_full active cur s ≡ none → u ≡ next_state active cur light s)
          × IsCurrent s' (reduce_all messages c)
    unfolding emit_snapshot_now reduce_all reduce
    reduce_all-emit_snapshot_now s c force_full active cur light i =
        let next = next_state active cur light s in
        elim (Option-cases (baseline force_full active cur s)) [
          | inl h ↦
              simp (emit_snapshot_now, h)
                (
                  next,
                  refl,
                  itself-Mirrors next,
                  (λ n. refl),
                  now-IsCurrent s active cur light next refl (itself-Mirrors next),
                )
          | inr (prev, h) ↦
              let (k, p) = baseline-prefix force_full active cur s prev h in
              let (u, shown, id, ms, rev, ready) =
                i.shows prev active k (baseline-conversation force_full active cur s prev h) in
              let chain : chains u active s.emitted_rev ≡ true =
                ground (arith, eq_iff u.conversation_id active) in
              let bare = next_state active [] light s in
              let tail = drop (length prev) cur in
              let agrees =
                merge-Mirrors u u bare tail cur (itself-Mirrors u) ready refl
                  (rw ms (is_prefix-drop prev cur p)) in
              let q : (reduce (snapshot_delta active (s.snap_rev + 1) s.emitted_rev tail bare)
                    c).state
                  ≡ some (merge u tail bare) =
                simp (reduce, shown, chain) refl in
              simp (emit_snapshot_now, h)
                (
                  merge u tail bare,
                  q,
                  agrees,
                  (λ n. absurd (ground (arith, n))),
                  now-IsCurrent s active cur light (merge u tail bare) q agrees,
                )
        ]
