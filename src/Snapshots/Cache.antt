-- ===== src/Snapshots/Cache.antt =====
-- The cache of snapshots is least recently used first, bounded, and holds confirmed chats only.
use dispatch_web.Base.{
  All-insert, All-remove, append-Distinct, keys-append, ltb, if◌then◌else◌, Bool-cases, length,
  drop, any, All, All-append, nat_eq, string_eq, has, ===_refl, Distinct, lookup, insert, remove,
  keys, has-keys-remove, remove-Distinct, keys-append, ℕ, suc, ◌-◌, ◌≤◌, String, ◌≡◌, refl, ◌≢◌,
  inl, inr, false, not, ◌||◌, none, List, [], ◌∷◌, ◌++◌, arith, str_eq, eq_iff,
}
use dispatch_web.Snapshots.{
  UiState, optimistic_conversation_id, Snapshots, evict, cache_snapshot, keep_open, prune_snapshots,
}

module _ {M R : Type 0} where
  -- The snapshot is one that `cacheSnapshot` stores.
  abbrev pub IsConfirmed : UiState M R → Type 0
  IsConfirmed s = (s.booting ≡ false) × (s.conversation_id ≢ optimistic_conversation_id)

  evict-drop : (max : ℕ) (m : Snapshots M R) → evict max m ≡ drop (length m - max) m
  unfolding evict
  evict-drop max [] = let e : 0 - max ≡ 0 = omega arith in rw e refl
  evict-drop max (x ∷ m) = elim (Bool-cases (ltb max (suc (length m)))) [
    | inl over ↦
        let e : suc (length m) - max ≡ suc (length m - max) = ground arith in
        rw (over, e) (evict-drop max m)
    | inr fits ↦ let e : suc (length m) - max ≡ 0 = ground arith in rw (fits, e) refl
  ]

  insert-remove :
      (id : String) (s : UiState M R) (m : Snapshots M R)
      → insert id s (remove id m) ≡ remove id m ++ (id, s) ∷ []
  insert-remove id s [] = refl
  insert-remove id s ((j, w) ∷ m) = ground (arith, insert-remove id s m)

  stored :
      (s : UiState M R)
      → IsConfirmed s
      → (s.booting || str_eq s.conversation_id optimistic_conversation_id) ≡ false
  stored s (b, o) = ground (arith, eq_iff s.conversation_id optimistic_conversation_id)

  of_stored :
      (s : UiState M R)
      → (s.booting || str_eq s.conversation_id optimistic_conversation_id) ≡ false
      → IsConfirmed s
  of_stored s h =
      (ground arith, λ q. ground (arith, eq_iff s.conversation_id optimistic_conversation_id))

  -- A snapshot that is neither booting nor optimistic is stored at the newest end, an older entry
  -- of its conversation is taken out, and of the entries only the `max` newest stay.
  pub cache_snapshot-drop :
      (cache : Snapshots M R) (s : UiState M R) (max : ℕ)
      → IsConfirmed s
      → cache_snapshot cache s max
        ≡ drop
            (length (remove s.conversation_id cache ++ (s.conversation_id, s) ∷ []) - max)
            (remove s.conversation_id cache ++ (s.conversation_id, s) ∷ [])
  unfolding cache_snapshot
  cache_snapshot-drop cache s max (b, o) = rw (stored s (b, o)) (
      rw (insert-remove s.conversation_id s cache)
        (evict-drop max (remove s.conversation_id cache ++ (s.conversation_id, s) ∷ [])))

  -- What every cache satisfies: at most `max` entries, no conversation twice, and each entry a
  -- snapshot of the conversation whose id it stands under, confirmed by the server.
  pub record IsCache (max : ℕ) (m : Snapshots M R) : Type 0 where
    pub bounded : length m ≤ max
    pub distinct : Distinct (keys m)
    pub confirmed : All (λ x. (x.1.conversation_id ≡ x.0) × IsConfirmed x.1) m

  evict-bounded : (max : ℕ) (m : Snapshots M R) → length (evict max m) ≤ max
  unfolding evict
  evict-bounded max [] = omega arith
  evict-bounded max (x ∷ m) = ground (arith, evict-bounded max m)

  evict-All :
      (P : String × UiState M R → Type 0) (max : ℕ) (m : Snapshots M R)
      → All P m
      → All P (evict max m)
  unfolding evict
  evict-All P max [] a = tt
  evict-All P max (x ∷ m) a = ground (arith, evict-All P max m a.1)

  evict-Distinct : (max : ℕ) (m : Snapshots M R) → Distinct (keys m) → Distinct (keys (evict max m))
  unfolding evict
  evict-Distinct max [] a = tt
  evict-Distinct max (x ∷ m) a = ground (arith, evict-Distinct max m a.1)

  pub cache_snapshot-All :
      (P : String × UiState M R → Type 0) (cache : Snapshots M R) (s : UiState M R) (max : ℕ)
      → All P cache
      → P (s.conversation_id, s)
      → All P (cache_snapshot cache s max)
  unfolding cache_snapshot
  cache_snapshot-All P cache s max a p =
      elim (Bool-cases (s.booting || str_eq s.conversation_id optimistic_conversation_id)) [
        | inl h ↦ rw h a
        | inr h ↦ rw h (
            evict-All P max _
              (All-insert P s.conversation_id s _ (All-remove P s.conversation_id cache a) p))
      ]

  -- `cacheSnapshot` keeps every cache well formed, whatever snapshot it is given.
  pub cache_snapshot-IsCache :
      (cache : Snapshots M R) (s : UiState M R) (max : ℕ)
      → IsCache max cache
      → IsCache max (cache_snapshot cache s max)
  unfolding cache_snapshot
  cache_snapshot-IsCache cache s max c =
      elim (Bool-cases (s.booting || str_eq s.conversation_id optimistic_conversation_id)) [
        | inl skip ↦ rw skip c
        | inr store ↦
            rw (store, insert-remove s.conversation_id s cache)
              (record {
                bounded = evict-bounded max _;
                distinct = evict-Distinct max _ (
                    rw (keys-append (remove s.conversation_id cache) ((s.conversation_id, s) ∷ []))
                      (append-Distinct s.conversation_id _
                        (rw (
                          has-keys-remove s.conversation_id s.conversation_id cache,
                          ===_refl s.conversation_id,
                        ))
                        (remove-Distinct s.conversation_id cache c.distinct)));
                confirmed = evict-All _ max _ (
                    All-append _ (remove s.conversation_id cache) ((s.conversation_id, s) ∷ [])
                      (All-remove _ s.conversation_id cache c.confirmed)
                      ((refl, of_stored s store), tt));
              })
      ]

  lookup-keep_open :
      (open_ids : List String) (id : String) (cache : Snapshots M R)
      → lookup id (keep_open open_ids cache) ≡ (if has id open_ids then lookup id cache else none)
  unfolding keep_open
  lookup-keep_open open_ids id [] = ground arith
  lookup-keep_open open_ids id ((j, w) ∷ cache) =
      ground (arith, lookup-keep_open open_ids id cache, eq_iff j id)

  lookup_open :
      (open_ids : List String) (id : String) (cache : Snapshots M R)
      → any (λ i. not (has i open_ids)) (keys cache) ≡ false
      → lookup id cache ≡ (if has id open_ids then lookup id cache else none)
  lookup_open open_ids id [] h = ground arith
  lookup_open open_ids id ((j, w) ∷ cache) h =
      ground (arith, lookup_open open_ids id cache, eq_iff j id)

  -- A pruned cache answers for the open conversations as before, and for no other.
  pub lookup-prune_snapshots :
      (cache : Snapshots M R) (open_ids : List String) (id : String)
      → lookup id (prune_snapshots cache open_ids)
        ≡ (if has id open_ids then lookup id cache else none)
  unfolding prune_snapshots
  lookup-prune_snapshots cache open_ids id =
      elim (Bool-cases (any (λ i. not (has i open_ids)) (keys cache))) [
        | inl some_closed ↦ rw some_closed (lookup-keep_open open_ids id cache)
        | inr all_open ↦ rw all_open (lookup_open open_ids id cache all_open)
      ]
