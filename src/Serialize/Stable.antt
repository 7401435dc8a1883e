-- ===== src/Serialize/Stable.antt =====
-- server/session-preview.ts: what is serialised again keeps its id and its object.
use dispatch_web.Base.{
  Option-cases, length, drop, length-append, nat_eq, string_eq, ===_refl, lookup, insert,
  lookup-insert, Text, text_is_eq, ℕ, zero, suc, ◌+◌, ◌-◌, ◌≤◌, ◌≡◌, refl, ◌∙◌, inl, inr, none,
  some, List, [], ◌∷◌, ◌++◌, arith, length-insert, text_eq_iff, ap,
}
use dispatch_web.Base.{refl, suc, arith, ◌+◌, ◌-◌, ◌≤◌}
use dispatch_web.Serialize.{
  system, assistant, tool_result, bash_execution, custom, branch_summary, compaction_summary,
  other_role, AgentMessage, UiMessage, serialize_message, user,
}
use dispatch_web.Serialize.Cache.{
  SerializeCache, ui_message_cache_cap, key_of, number_of, cache_key_of, store, serialize_new,
  sequence_of, serialize_cached_into,
}

-- A key that is new goes to the end, and dropping from the front leaves it there.
insert_absent :
    {V : Type 0} (k : Text) (v : V) (m : List (Text × V))
    → lookup k m ≡ none
    → insert k v m ≡ m ++ (k, v) ∷ []
insert_absent k v [] h = refl
insert_absent k v ((j, w) ∷ m) h = ground (arith, insert_absent k v m)

lookup_last :
    {V : Type 0} (n : ℕ) (k : Text) (v : V) (m : List (Text × V))
    → lookup k m ≡ none
    → n ≤ length m
    → lookup k (drop n (m ++ (k, v) ∷ [])) ≡ some v
lookup_last zero k v [] h le = simp (===_refl k) refl
lookup_last zero k v ((j, w) ∷ m) h le = ground (arith, lookup_last zero k v m)
lookup_last (suc n) k v [] h le = absurd (omega arith)
lookup_last (suc n) k v ((j, w) ∷ m) h le = ground (arith, lookup_last n k v m)

module _ {J : Type 0} where
  store-lookup :
      (k : Text) (msg : UiMessage J) (cache : SerializeCache J)
      → lookup k cache.ui_message_cache ≡ none
      → lookup k (store k msg cache).ui_message_cache ≡ some msg
  unfolding store
  store-lookup k msg cache h =
      rw
        (
          insert_absent k msg cache.ui_message_cache h,
          length-append cache.ui_message_cache ((k, msg) ∷ []),
        )
        (lookup_last (length cache.ui_message_cache + 1 - ui_message_cache_cap) k msg
          cache.ui_message_cache h (omega arith))

  store-keeps :
      (k j : Text) (msg : UiMessage J) (cache : SerializeCache J) (ui : UiMessage J)
      → lookup k cache.ui_message_cache ≡ none
      → length cache.ui_message_cache + 1 ≤ ui_message_cache_cap
      → lookup j cache.ui_message_cache ≡ some ui
      → lookup j (store k msg cache).ui_message_cache ≡ some ui
  unfolding store
  store-keeps k j msg cache ui absent small there =
      let none_dropped : length (insert k msg cache.ui_message_cache) - ui_message_cache_cap ≡ 0 =
        (let le = length-insert k msg cache.ui_message_cache in omega (arith, le, small)) in
      rw none_dropped (
        lookup-insert k j msg cache.ui_message_cache
        ∙ ground (arith, text_eq_iff k j, absent, there))

  number_of-keeps :
      (key j : Text) (n : ℕ) (cache : SerializeCache J)
      → lookup j cache.msg_ids ≡ some n
      → lookup j (number_of key cache).1.msg_ids ≡ some n
  unfolding number_of
  number_of-keeps key j n cache h = elim (Option-cases (lookup key cache.msg_ids)) [
    | inl e ↦
        simp (number_of, e)
          (lookup-insert key j cache.next_msg_id cache.msg_ids
            ∙ ground (arith, text_eq_iff key j, e, h))
    | inr (k, e) ↦ simp (number_of, e) h
  ]

  pub number_of-ui_message_cache :
      (key : Text) (cache : SerializeCache J)
      → (number_of key cache).1.ui_message_cache ≡ cache.ui_message_cache
  unfolding number_of
  number_of-ui_message_cache key cache = elim (Option-cases (lookup key cache.msg_ids)) [
    | inl e ↦ simp (number_of, e) refl
    | inr (k, e) ↦ simp (number_of, e) refl
  ]

  pub number_of-again :
      (key : Text) (cache : SerializeCache J)
      → let (n, numbered) = number_of key cache in lookup key numbered.msg_ids ≡ some n
  unfolding number_of
  number_of-again key cache = elim (Option-cases (lookup key cache.msg_ids)) [
    | inl e ↦
        simp (number_of, e)
          (lookup-insert key key cache.next_msg_id cache.msg_ids ∙ simp (===_refl key) refl)
    | inr (n, e) ↦ simp (number_of, e) refl
  ]

  sequence_of-msg_ids :
      (m : AgentMessage J) (n : ℕ) (cache : SerializeCache J)
      → (sequence_of m n cache).1.msg_ids ≡ cache.msg_ids
  unfolding sequence_of
  sequence_of-msg_ids (user content ts) n cache = refl
  sequence_of-msg_ids (system content ts) n cache = refl
  sequence_of-msg_ids (assistant m) n cache = refl
  sequence_of-msg_ids (tool_result m) n cache = refl
  sequence_of-msg_ids (bash_execution m) n cache = refl
  sequence_of-msg_ids (custom m) n cache = refl
  sequence_of-msg_ids (branch_summary s ts) n cache = refl
  sequence_of-msg_ids (compaction_summary s ts t) n cache = refl
  sequence_of-msg_ids (other_role r c ts) n cache = refl

  pub sequence_of-ui_message_cache :
      (m : AgentMessage J) (n : ℕ) (cache : SerializeCache J)
      → (sequence_of m n cache).1.ui_message_cache ≡ cache.ui_message_cache
  unfolding sequence_of
  sequence_of-ui_message_cache (user content ts) n cache = refl
  sequence_of-ui_message_cache (system content ts) n cache = refl
  sequence_of-ui_message_cache (assistant m) n cache = refl
  sequence_of-ui_message_cache (tool_result m) n cache = refl
  sequence_of-ui_message_cache (bash_execution m) n cache = refl
  sequence_of-ui_message_cache (custom m) n cache = refl
  sequence_of-ui_message_cache (branch_summary s ts) n cache = refl
  sequence_of-ui_message_cache (compaction_summary s ts t) n cache = refl
  sequence_of-ui_message_cache (other_role r c ts) n cache = refl

-- The cache has the number of the message and its object.
pub record IsKnown {J : Type 0} (m : AgentMessage J) (ui : UiMessage J) (cache : SerializeCache J)
    : Type 0 where
  n : ℕ
  numbered : lookup (key_of m) cache.msg_ids ≡ some n
  object : lookup (cache_key_of (key_of m) n) cache.ui_message_cache ≡ some ui

module _ {J : Type 0} (stringify : J → Text) where
  serialize_new-msg_ids :
      (m : AgentMessage J) (n : ℕ) (k : Text) (cache : SerializeCache J)
      → (serialize_new stringify m n k cache).1.msg_ids ≡ cache.msg_ids
  unfolding serialize_new store
  serialize_new-msg_ids m n k cache =
      elim (Option-cases (serialize_message stringify m (sequence_of m n cache).0)) [
        | inl e ↦ simp (serialize_new, e) (sequence_of-msg_ids m n cache)
        | inr (ui, e) ↦ simp (serialize_new, e) (sequence_of-msg_ids m n cache)
      ]

  serialize_new-lookup :
      (m : AgentMessage J) (n : ℕ) (k : Text) (cache : SerializeCache J) (ui : UiMessage J)
      → lookup k cache.ui_message_cache ≡ none
      → (serialize_new stringify m n k cache).0 ≡ some ui
      → lookup k (serialize_new stringify m n k cache).1.ui_message_cache ≡ some ui
  unfolding serialize_new
  serialize_new-lookup m n k cache ui h made =
      elim (Option-cases (serialize_message stringify m (sequence_of m n cache).0)) [
        | inl e ↦ absurd (let z = simp (serialize_new, e) at made in ground (arith, z))
        | inr (msg, e) ↦
            (let same : some msg ≡ some ui = simp (serialize_new, e) at made in
              simp (serialize_new, e)
                (store-lookup k msg (sequence_of m n cache).1
                    (rw (sequence_of-ui_message_cache m n cache) h)
                  ∙ same))
      ]

  pub serialize_cached_into-IsKnown :
      (m : AgentMessage J) (cache : SerializeCache J) (ui : UiMessage J)
      → (serialize_cached_into stringify m cache).0 ≡ some ui
      → IsKnown m ui (serialize_cached_into stringify m cache).1
  unfolding serialize_cached_into serialize_new
  serialize_cached_into-IsKnown m cache ui made =
      let numbered = (number_of (key_of m) cache).1 in
      let n = (number_of (key_of m) cache).0 in
      let k = cache_key_of (key_of m) n in
      elim (Option-cases (lookup k numbered.ui_message_cache)) [
        | inr (cached, e) ↦
            (let same : some cached ≡ some ui = simp (serialize_cached_into, e) at made in
              simp (serialize_cached_into, e)
                (record { n = n; numbered = number_of-again (key_of m) cache; object = e ∙ same }))
        | inl e ↦
            simp (serialize_cached_into, e)
              (record {
                n = n;
                numbered =
                    ap (lookup (key_of m)) (serialize_new-msg_ids m n k numbered)
                    ∙ number_of-again (key_of m) cache;
                object =
                    serialize_new-lookup m n k numbered ui e
                      (simp (serialize_cached_into, e) at made);
              })
      ]

  pub known_again :
      (m : AgentMessage J) (ui : UiMessage J) (cache : SerializeCache J)
      → IsKnown m ui cache
      → serialize_cached_into stringify m cache ≡ (some ui, cache)
  unfolding serialize_cached_into number_of serialize_new
  known_again m ui cache known =
      simp (serialize_cached_into, number_of, known.numbered, known.object) refl

  serialize_new-keeps :
      (m : AgentMessage J) (n : ℕ) (k j : Text) (cache : SerializeCache J) (ui : UiMessage J)
      → lookup k cache.ui_message_cache ≡ none
      → length cache.ui_message_cache + 1 ≤ ui_message_cache_cap
      → lookup j cache.ui_message_cache ≡ some ui
      → lookup j (serialize_new stringify m n k cache).1.ui_message_cache ≡ some ui
  unfolding serialize_new
  serialize_new-keeps m n k j cache ui absent small there =
      let counted = (sequence_of m n cache).1 in
      let same = sequence_of-ui_message_cache m n cache in
      elim (Option-cases (serialize_message stringify m (sequence_of m n cache).0)) [
        | inl e ↦ simp (serialize_new, e) (rw same there)
        | inr (msg, e) ↦
            simp (serialize_new, e)
              (store-keeps k j msg counted ui (rw same absent) (rw same small) (rw same there))
      ]

  pub serialize_cached_into-keeps :
      (m later : AgentMessage J) (ui : UiMessage J) (cache : SerializeCache J)
      → length cache.ui_message_cache + 1 ≤ ui_message_cache_cap
      → IsKnown m ui cache
      → IsKnown m ui (serialize_cached_into stringify later cache).1
  unfolding serialize_cached_into serialize_new
  serialize_cached_into-keeps m later ui cache small known =
      let numbered = (number_of (key_of later) cache).1 in
      let n = (number_of (key_of later) cache).0 in
      let k = cache_key_of (key_of later) n in
      let kept = number_of-keeps (key_of later) (key_of m) known.n cache known.numbered in
      let same = number_of-ui_message_cache (key_of later) cache in
      let there = ap (lookup (cache_key_of (key_of m) known.n)) same ∙ known.object in
      elim (Option-cases (lookup k numbered.ui_message_cache)) [
        | inr (cached, e) ↦
            simp (serialize_cached_into, e)
              (record { n = known.n; numbered = kept; object = there })
        | inl e ↦
            simp (serialize_cached_into, e)
              (record {
                n = known.n;
                numbered = ap (lookup (key_of m)) (serialize_new-msg_ids later n k numbered) ∙ kept;
                object =
                    serialize_new-keeps later n k (cache_key_of (key_of m) known.n) numbered ui e
                      (rw same small) there;
              })
      ]
