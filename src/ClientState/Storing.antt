-- ===== src/ClientState/Storing.antt =====
-- server/client-state.ts: what every call keeps true of the store.
use dispatch_web.Base.{
  ◌+◌, ltb, Option-cases, nat_eq, string_eq, has, Distinct, keys, text_is_eq, String, ◌≡◌, refl, ap,
  inl, inr, true, false, none, some, List, [], ◌∷◌, map, arith, ℕ, Bool-cases, ltb, ◌∙◌, sym,
  lookup, All-lookup, All-insert,
}
use dispatch_web.Base.{refl}
use dispatch_web.ClientState.{
  ClientStateStore, ClientState, Clients, ProviderKeys, Sweep, sweep_map, sweep_clients, some_keys,
  keys_of, save, swept, state_of, put,
}
use dispatch_web.ClientState.Keys.{IsObject, or_else-some_keys}
use dispatch_web.ClientState.Steps.{
  nothing, sweeps, writes, same_projects-IsTidy, Change, ◌⟶◌, change, sweeps, writes,
}
use dispatch_web.ClientState.Projects.{AllTidy, IsTidy, state_of-IsTidy}

-- The object of a client as a restart reads it: no keys and an empty object of keys are the same.
unfoldable pub settle_state : ClientState → ClientState
settle_state state = record state { project_provider_keys = some_keys (keys_of state) }

abbrev pub settle : Clients → Clients
settle = map (λ entry. (entry.0, settle_state entry.1))

-- Every client's projects are tidy, stored objects have distinct keys, and where the file system
-- takes writes the file holds what is in memory.
pub record IsStored (s : ClientStateStore) : Type 0 where
  pub tidy : AllTidy s.cache
  pub objects : IsObject s.cache
  pub kept : s.writable ≡ true → settle s.file ≡ settle s.cache

save-IsStored : (s : ClientStateStore) → AllTidy s.cache → IsObject s.cache → IsStored (save s)
unfolding save
save-IsStored s a o = elim (Bool-cases s.writable) [
  | inl w ↦ simp (save, w) (record { tidy = a; objects = o; kept = λ _. refl })
  | inr w ↦
      simp (save, w) (record { tidy = a; objects = o; kept = λ z. absurd (ground (arith, w, z)) })
]

module _ (f : Sweep) where
  has-sweep_map :
      (cwd : String) (map' : List (String × ProviderKeys))
      → has cwd (keys map') ≡ false
      → has cwd (keys (sweep_map f map').0) ≡ false
  unfolding sweep_map
  has-sweep_map cwd [] h = refl
  has-sweep_map cwd ((d, inner) ∷ map') h = elim (Option-cases (f inner)) [
    | inl e ↦ simp (sweep_map, e) (ground (arith, has-sweep_map cwd map'))
    | inr (inner', e) ↦ simp (sweep_map, e) (ground (arith, has-sweep_map cwd map'))
  ]

  sweep_map-Distinct :
      (map' : List (String × ProviderKeys))
      → Distinct (keys map')
      → Distinct (keys (sweep_map f map').0)
  unfolding sweep_map
  sweep_map-Distinct [] d = tt
  sweep_map-Distinct ((d, inner) ∷ map') (h, ds) = elim (Option-cases (f inner)) [
    | inl e ↦ simp (sweep_map, e) (has-sweep_map d map' h, sweep_map-Distinct map' ds)
    | inr (inner', e) ↦
        simp (sweep_map, e) (ground (arith, has-sweep_map d map' h, sweep_map-Distinct map' ds))
  ]

  -- A sweep that counts nothing changes nothing.
  sweep_map_none :
      (map' : List (String × ProviderKeys)) → (sweep_map f map').1 ≡ 0 → (sweep_map f map').0 ≡ map'
  unfolding sweep_map
  sweep_map_none [] n = refl
  sweep_map_none ((d, inner) ∷ map') n = elim (Option-cases (f inner)) [
    | inl e ↦
        simp (sweep_map, e)
          (ap (λ m. (d, inner) ∷ m) (sweep_map_none map' (simp (sweep_map, e) at n)))
    | inr (inner', e) ↦ absurd (let z = (simp (sweep_map, e) at n) in ground (arith, z))
  ]

  swept_state : ClientState → ClientState
  swept_state state = elim state.project_provider_keys [
    | none ↦ state
    | some map' ↦ record state { project_provider_keys = some_keys (sweep_map f map').0 }
  ]

  sweep_clients-cons :
      (id : String) (state : ClientState) (all' : Clients)
      → (sweep_clients f ((id, state) ∷ all')).0
        ≡ (id, swept_state state) ∷ (sweep_clients f all').0
  unfolding sweep_clients swept_state
  sweep_clients-cons id state all' = elim (Option-cases state.project_provider_keys) [
    | inl e ↦ simp (sweep_clients, swept_state, e) refl
    | inr (map', e) ↦ simp (sweep_clients, swept_state, e) refl
  ]

  swept_state-IsTidy : (state : ClientState) → IsTidy state → IsTidy (swept_state state)
  unfolding swept_state
  swept_state-IsTidy state t = elim (Option-cases state.project_provider_keys) [
    | inl e ↦ simp (swept_state, e) t
    | inr (map', e) ↦ simp (swept_state, e) (same_projects-IsTidy state _ refl refl t)
  ]

  swept_state-Distinct :
      (state : ClientState)
      → Distinct (keys (keys_of state))
      → Distinct (keys (keys_of (swept_state state)))
  unfolding swept_state sweep_map
  swept_state-Distinct state d = elim (Option-cases state.project_provider_keys) [
    | inl e ↦ simp (swept_state, e) tt
    | inr (map', e) ↦
        simp (swept_state, e, or_else-some_keys (sweep_map f map').0)
          (sweep_map-Distinct map' (simp (e) at d))
  ]

  sweep_clients-AllTidy : (all' : Clients) → AllTidy all' → AllTidy (sweep_clients f all').0
  unfolding sweep_clients
  sweep_clients-AllTidy [] a = tt
  sweep_clients-AllTidy ((id, state) ∷ all') a =
      rw (sweep_clients-cons id state all')
        (swept_state-IsTidy state a.0, sweep_clients-AllTidy all' a.1)

  sweep_clients-IsObject : (all' : Clients) → IsObject all' → IsObject (sweep_clients f all').0
  unfolding sweep_clients
  sweep_clients-IsObject [] a = tt
  sweep_clients-IsObject ((id, state) ∷ all') a =
      rw (sweep_clients-cons id state all')
        (swept_state-Distinct state a.0, sweep_clients-IsObject all' a.1)

  swept_count : ClientState → ℕ
  swept_count state = elim state.project_provider_keys [
    | none ↦ 0
    | some map' ↦ (sweep_map f map').1
  ]

  sweep_clients-count :
      (id : String) (state : ClientState) (all' : Clients)
      → (sweep_clients f ((id, state) ∷ all')).1 ≡ swept_count state + (sweep_clients f all').1
  unfolding sweep_clients swept_count
  sweep_clients-count id state all' = elim (Option-cases state.project_provider_keys) [
    | inl e ↦ simp (sweep_clients, swept_count, e) (omega arith)
    | inr (map', e) ↦ simp (sweep_clients, swept_count, e) refl
  ]

  swept_state_none :
      (state : ClientState)
      → swept_count state ≡ 0
      → settle_state (swept_state state) ≡ settle_state state
  unfolding swept_state swept_count settle_state
  swept_state_none state n = elim (Option-cases state.project_provider_keys) [
    | inl e ↦ simp (swept_state, e) refl
    | inr (map', e) ↦
        (let same = sweep_map_none map' (simp (swept_count, e) at n) in
          simp (swept_state, e, same, or_else-some_keys map') refl)
  ]

  -- A sweep that counts nothing is not saved, and a restart reads what it left in memory.
  sweep_clients_none :
      (all' : Clients)
      → (sweep_clients f all').1 ≡ 0
      → settle (sweep_clients f all').0 ≡ settle all'
  unfolding sweep_clients
  sweep_clients_none [] n = refl
  sweep_clients_none ((id, state) ∷ all') n =
      let count = sweep_clients-count id state all' in
      let q = swept_state_none state (ground (arith, count)) in
      let r = sweep_clients_none all' (ground (arith, count)) in
      rw (sweep_clients-cons id state all', q, r) refl

  swept-IsStored : (s : ClientStateStore) → IsStored s → IsStored (swept f s).0
  unfolding save sweep_clients
  swept-IsStored s v = elim (Bool-cases (ltb 0 (sweep_clients f s.cache).1)) [
    | inl h ↦ simp (h) (
        save-IsStored _ (sweep_clients-AllTidy s.cache v.tidy)
          (sweep_clients-IsObject s.cache v.objects))
    | inr h ↦
        (let none_counted = sweep_clients_none s.cache (ground (arith, h)) in
          simp (h) (record {
            tidy = sweep_clients-AllTidy s.cache v.tidy;
            objects = sweep_clients-IsObject s.cache v.objects;
            kept = λ w. v.kept w ∙ sym none_counted;
          }))
  ]

state_of-Distinct :
    (client_id : String) (s : ClientStateStore)
    → IsObject s.cache
    → Distinct (keys (keys_of (state_of client_id s)))
state_of-Distinct client_id s o = elim (Option-cases (lookup client_id s.cache)) [
  | inl e ↦ rw (e) tt
  | inr (state, e) ↦ rw (e) (All-lookup _ client_id s.cache o e).1
]

Change-IsStored : {s t : ClientStateStore} → Change s t → IsStored s → IsStored t
Change-IsStored nothing v = v
Change-IsStored {s} (sweeps f) v = swept-IsStored f s v
Change-IsStored {s} (writes client_id state tidy distinct) v =
    save-IsStored (put client_id state s)
      (All-insert _ client_id state s.cache v.tidy (tidy (state_of-IsTidy client_id s v.tidy)))
      (All-insert _ client_id state s.cache v.objects
        (distinct (state_of-Distinct client_id s v.objects)))

infix 40 ◌⟶*◌
pub data ◌⟶*◌ (s : ClientStateStore) : ClientStateStore → Type 0 where
  start : s ⟶* s
  next : {t u : ClientStateStore} → s ⟶* t → t ⟶ u → s ⟶* u

-- After any calls from a store that is well kept, it still is: of every client at most thirty
-- projects are kept, no path twice and none that was removed, its stored objects have distinct
-- keys, and where the file system takes writes a restart reads what is in memory, an empty object
-- of keys read as none.
pub ⟶*-IsStored : {s t : ClientStateStore} → s ⟶* t → IsStored s → IsStored t
⟶*-IsStored start v = v
⟶*-IsStored (next p q) v = Change-IsStored (change q) (⟶*-IsStored p v)
