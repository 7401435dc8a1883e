-- ===== src/Serialize/Transcript.antt =====
-- server/session-preview.ts: the cache over a whole transcript, its bound, and what is evicted.
use dispatch_web.Base.{
  Option-cases, or_else, length, length-drop, nat_eq, string_eq, lookup, insert, length-insert,
  Text, codes, text_is_eq, ℕ, ◌+◌, ◌-◌, ◌≤◌, ◌≡◌, refl, inl, inr, Option, none, some, List, [], ◌∷◌,
  arith, ◌≢◌, ap, ◌∙◌, lookup-insert, ===_refl, sym,
}
use dispatch_web.Base.{refl, arith, ◌+◌, ◌-◌, ◌≤◌}
use dispatch_web.Serialize.{
  AgentMessage, UiMessage, UserContent, user, serialize_message, stamped_id,
}
use dispatch_web.Serialize.Cache.{
  SerializeCache, ui_message_cache_cap, key_of, number_of, cache_key_of, sequence_of, store,
  serialize_new, serialize_cached_into, serialize_all,
}
use dispatch_web.Serialize.Ids.{stamped_id-injective}
use dispatch_web.Serialize.Stable.{
  IsKnown, known_again, number_of-ui_message_cache, sequence_of-ui_message_cache,
  serialize_cached_into-IsKnown, serialize_cached_into-keeps, number_of-again,
}

-- How many objects the cache holds after one more message.
abbrev IsGrown : ℕ → ℕ → Type 0
IsGrown old now = (now ≤ old + 1) × (old ≤ ui_message_cache_cap → now ≤ ui_message_cache_cap)

module _ {J : Type 0} (stringify : J → Text) where
  store-IsGrown :
      (k : Text) (msg : UiMessage J) (cache : SerializeCache J)
      → IsGrown (length cache.ui_message_cache) (length (store k msg cache).ui_message_cache)
  unfolding store
  store-IsGrown k msg cache =
      let stored = insert k msg cache.ui_message_cache in
      let le = length-insert k msg cache.ui_message_cache in
      rw (length-drop (length stored - ui_message_cache_cap) stored)
        (omega (arith, le), λ _. omega (arith, le))

  serialize_cached_into-IsGrown :
      (m : AgentMessage J) (cache : SerializeCache J)
      → IsGrown
          (length cache.ui_message_cache)
          (length (serialize_cached_into stringify m cache).1.ui_message_cache)
  unfolding serialize_cached_into serialize_new
  serialize_cached_into-IsGrown m cache =
      let numbered = (number_of (key_of m) cache).1 in
      let n = (number_of (key_of m) cache).0 in
      let same = number_of-ui_message_cache (key_of m) cache in
      let counted = sequence_of-ui_message_cache m n numbered in
      elim (Option-cases (lookup (cache_key_of (key_of m) n) numbered.ui_message_cache)) [
        | inr (cached, e) ↦ simp (serialize_cached_into, e) (rw same (omega arith, λ h. h))
        | inl e ↦ elim (Option-cases (serialize_message stringify m (sequence_of m n numbered).0)) [
          | inl f ↦
              simp (serialize_cached_into, serialize_new, e, f)
                (rw (counted, same) (omega arith, λ h. h))
          | inr (msg, f) ↦
              simp (serialize_cached_into, serialize_new, e, f)
                (let g =
                    store-IsGrown (cache_key_of (key_of m) n) msg (sequence_of m n numbered).1 in
                  rw (counted, same) at g)
        ]
      ]

  serialize_all-IsKnown :
      (m : AgentMessage J) (ui : UiMessage J) (messages : List (AgentMessage J))
      (cache : SerializeCache J)
      → length cache.ui_message_cache + length messages ≤ ui_message_cache_cap
      → IsKnown m ui cache
      → IsKnown m ui (serialize_all stringify messages cache).1
  unfolding serialize_all
  serialize_all-IsKnown m ui [] cache small known = known
  serialize_all-IsKnown m ui (x ∷ messages) cache small known =
      let grown = (serialize_cached_into-IsGrown x cache).0 in
      serialize_all-IsKnown m ui messages (serialize_cached_into stringify x cache).1
        (omega (arith, grown, small))
        (serialize_cached_into-keeps stringify m x ui cache (omega (arith, small)) known)

  -- A message that is shown once is shown by the same object, with its id, when it is serialised
  -- again after any other messages, and the cache is left as it is, provided that the cache has
  -- room for these messages.
  pub serialize_cached_into-serialize_all :
      (m : AgentMessage J) (messages : List (AgentMessage J)) (cache : SerializeCache J)
      (ui : UiMessage J)
      → (serialize_cached_into stringify m cache).0 ≡ some ui
      → length (serialize_cached_into stringify m cache).1.ui_message_cache + length messages
        ≤ ui_message_cache_cap
      → let later =
          (serialize_all stringify messages (serialize_cached_into stringify m cache).1).1 in
        serialize_cached_into stringify m later ≡ (some ui, later)
  serialize_cached_into-serialize_all m messages cache ui made small =
      known_again stringify m ui _ (
        serialize_all-IsKnown m ui messages (serialize_cached_into stringify m cache).1 small
          (serialize_cached_into-IsKnown stringify m cache ui made))

  -- The objects that are kept are never more than the cap, whatever the transcript.
  pub serialize_all-IsBounded :
      (messages : List (AgentMessage J)) (cache : SerializeCache J)
      → length cache.ui_message_cache ≤ ui_message_cache_cap
      → length (serialize_all stringify messages cache).1.ui_message_cache ≤ ui_message_cache_cap
  unfolding serialize_all
  serialize_all-IsBounded [] cache small = small
  serialize_all-IsBounded (m ∷ messages) cache small =
      serialize_all-IsBounded messages (serialize_cached_into stringify m cache).1
        ((serialize_cached_into-IsGrown m cache).1 small)

  abbrev pub id_of : Option (UiMessage J) → Option Text
  id_of none = none
  id_of (some ui) = some ui.id

  serialize_cached_into-user :
      (content : UserContent) (ts : ℕ) (cache : SerializeCache J)
      → let (n, numbered) = number_of (key_of {J = J} (user content ts)) cache in
        lookup (cache_key_of (key_of {J = J} (user content ts)) n) numbered.ui_message_cache ≡ none
        → let count = or_else (lookup ts numbered.user_seq_by_ts) 0 in
          let (ui, next) = serialize_cached_into stringify (user content ts) cache in
          (id_of ui ≡ some (stamped_id (codes "u") ts (count + 1)))
          × (next.msg_ids ≡ numbered.msg_ids)
          × (next.user_seq_by_ts ≡ insert ts (count + 1) numbered.user_seq_by_ts)
  unfolding serialize_cached_into serialize_new serialize_message sequence_of store
  serialize_cached_into-user content ts cache e = simp (serialize_cached_into, e) (refl, refl, refl)

  renumbered :
      (content : UserContent) (ts : ℕ) (cache : SerializeCache J) (n : ℕ)
      → lookup (key_of {J = J} (user content ts)) cache.msg_ids ≡ some n
      → lookup (cache_key_of (key_of {J = J} (user content ts)) n) cache.ui_message_cache ≡ none
      → id_of (serialize_cached_into stringify (user content ts) cache).0
        ≡ some (stamped_id (codes "u") ts (or_else (lookup ts cache.user_seq_by_ts) 0 + 1))
  unfolding serialize_cached_into serialize_new serialize_message sequence_of number_of
  renumbered content ts cache n known gone =
      simp (serialize_cached_into, number_of, known, gone) refl

  -- A user message that was new to the cache and whose object has been evicted since is not made
  -- again as it was: it comes back with another id.
  pub serialize_cached_into-evicted :
      (content : UserContent) (ts : ℕ) (cache : SerializeCache J) (left : List (Text × UiMessage J))
      → let n = (number_of (key_of {J = J} (user content ts)) cache).0 in
        let cache_key = cache_key_of (key_of {J = J} (user content ts)) n in
        lookup cache_key cache.ui_message_cache ≡ none
        → lookup cache_key left ≡ none
        → let (shown, next) = serialize_cached_into stringify (user content ts) cache in
          let evicted = record next { ui_message_cache = left } in
          id_of (serialize_cached_into stringify (user content ts) evicted).0 ≢ id_of shown
  serialize_cached_into-evicted content ts cache left absent gone same =
      let key = key_of {J = J} (user content ts) in
      let n = (number_of key cache).0 in
      let numbered = (number_of key cache).1 in
      let count = or_else (lookup ts numbered.user_seq_by_ts) 0 in
      let made =
        serialize_cached_into-user content ts cache
          (ap (lookup (cache_key_of key n)) (number_of-ui_message_cache key cache) ∙ absent) in
      let next = (serialize_cached_into stringify (user content ts) cache).1 in
      let evicted : SerializeCache J = record next { ui_message_cache = left } in
      let known : lookup key evicted.msg_ids ≡ some n =
        ap (lookup key) made.1 ∙ number_of-again key cache in
      let again = renumbered content ts evicted n known gone in
      let stored : lookup ts (insert ts (count + 1) numbered.user_seq_by_ts) ≡ some (count + 1) =
        lookup-insert ts ts (count + 1) numbered.user_seq_by_ts ∙ simp (===_refl ts) refl in
      let counted : or_else (lookup ts next.user_seq_by_ts) 0 ≡ count + 1 =
        ap (λ seqs. or_else (lookup ts seqs) 0) made.2 ∙ ap (λ o. or_else o 0) stored in
      let ids = ap (λ o. or_else o []) (sym again ∙ same ∙ made.0) in
      let seqs =
        (stamped_id-injective ts (or_else (lookup ts next.user_seq_by_ts) 0 + 1) ts (count + 1)
          ids).1 in
      ground (arith, seqs, counted)
