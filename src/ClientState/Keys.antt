-- ===== src/ClientState/Keys.antt =====
-- server/client-state.ts: the two sweeps over every client's keys.
use dispatch_web.Base.{
  ◌==◌, if◌then◌else◌, Option-cases, or_else, All, nat_eq, string_eq, has, Distinct, lookup, keys,
  text_is_eq, String, ◌≡◌, refl, inl, inr, false, Option, none, some, List, [], ◌∷◌, arith, ◌===◌,
  Bool-cases, length, ◌∙◌, true, lookup-remove, ◌&&◌, has-keys, is_text, lookup-insert,
}
use dispatch_web.ClientState.{
  ClientState, Clients, ProviderKeys, Sweep, sweep_map, keys_of, sweep_clients, new_state,
  some_keys, save, get_project_provider_key, drop_provider, repoint, delete_provider_everywhere,
  repoint_deleted_key_everywhere, ClientStateStore, swept, truthy,
}

-- The keys of a JavaScript object are distinct, in what every client stores for its projects.
abbrev pub IsObject : Clients → Type 0
IsObject = All (λ entry. Distinct (keys (keys_of entry.1)))

-- The keys of a project after a sweep.
effect : Sweep → ProviderKeys → ProviderKeys
effect f inner = or_else (f inner) inner

key_in : String → String → List (String × ProviderKeys) → Option String
key_in cwd provider map' = lookup provider (or_else (lookup cwd map') [])

key_in_state : String → String → Option ClientState → Option String
unfolding key_in
key_in_state cwd provider none = none
key_in_state cwd provider (some state) = key_in cwd provider (keys_of state)

placed : String → ProviderKeys → List (String × ProviderKeys) → List (String × ProviderKeys)
placed d inner rest = if length inner == 0 then rest else (d, inner) ∷ rest

key_in-placed :
    (d cwd provider : String) (inner : ProviderKeys) (rest : List (String × ProviderKeys))
    → (d === cwd) ≡ true
    → lookup cwd rest ≡ none
    → key_in cwd provider (placed d inner rest) ≡ lookup provider inner
unfolding key_in placed
key_in-placed d cwd provider [] rest same h = simp (h) refl
key_in-placed d cwd provider (k ∷ inner) rest same h = ground arith

key_in-passed :
    (d cwd provider : String) (inner : ProviderKeys) (rest : List (String × ProviderKeys))
    → (d === cwd) ≡ false
    → key_in cwd provider (placed d inner rest) ≡ key_in cwd provider rest
unfolding key_in placed
key_in-passed d cwd provider [] rest h = refl
key_in-passed d cwd provider (k ∷ inner) rest h = ground arith

pub or_else-some_keys : (map' : List (String × ProviderKeys)) → or_else (some_keys map') [] ≡ map'
or_else-some_keys [] = refl
or_else-some_keys (x ∷ map') = ground arith

module _ (f : Sweep) (same : f [] ≡ none) where
  sweep_map-absent :
      (cwd : String) (map' : List (String × ProviderKeys))
      → has cwd (keys map') ≡ false
      → lookup cwd (sweep_map f map').0 ≡ none
  unfolding sweep_map
  sweep_map-absent cwd [] h = refl
  sweep_map-absent cwd ((d, inner) ∷ map') h = elim (Option-cases (f inner)) [
    | inl e ↦ simp (sweep_map, e) (ground (arith, sweep_map-absent cwd map'))
    | inr (inner', e) ↦ simp (sweep_map, e) (ground (arith, sweep_map-absent cwd map'))
  ]

  key_in-sweep_map :
      (cwd provider : String) (map' : List (String × ProviderKeys))
      → Distinct (keys map')
      → key_in cwd provider (sweep_map f map').0
        ≡ lookup provider (effect f (or_else (lookup cwd map') []))
  unfolding sweep_map key_in effect placed
  key_in-sweep_map cwd provider [] d = simp (same) refl
  key_in-sweep_map cwd provider ((d, inner) ∷ map') (h, ds) =
      let later = key_in-sweep_map cwd provider map' ds in
      let gone = sweep_map-absent d map' h in
      elim (Option-cases (f inner)) [
        | inl e ↦ simp (sweep_map, e) (ground (arith, later, string_eq.beq_iff d cwd))
        | inr (inner', e) ↦ elim (Bool-cases (d === cwd)) [
          | inl here ↦
              (let p = (string_eq.beq_iff d cwd).0 here in
                simp (sweep_map, e, here)
                  (key_in-placed d cwd provider inner' (sweep_map f map').0 here (rw p at gone)))
          | inr other ↦
              rw (sweep_map, e, other)
                (key_in-passed d cwd provider inner' (sweep_map f map').0 other ∙ later)
        ]
      ]

  state_of-sweep_clients :
      (client_id cwd provider : String) (all' : Clients)
      → IsObject all'
      → key_in cwd provider
          (keys_of (or_else (lookup client_id (sweep_clients f all').0) new_state))
        ≡ lookup provider (
            effect f
              (or_else (lookup cwd (keys_of (or_else (lookup client_id all') new_state))) []))
  unfolding sweep_clients key_in effect
  state_of-sweep_clients client_id cwd provider [] o = simp (same) refl
  state_of-sweep_clients client_id cwd provider ((id, state) ∷ all') (d, o) =
      let later = state_of-sweep_clients client_id cwd provider all' o in
      elim (Option-cases state.project_provider_keys) [
        | inl e ↦ elim (Bool-cases (id === client_id)) [
          | inl here ↦ simp (sweep_clients, e, here, same) refl
          | inr other ↦ simp (sweep_clients, e, other) later
        ]
        | inr (map', e) ↦ elim (Bool-cases (id === client_id)) [
          | inl here ↦
              simp (sweep_clients, e, here, or_else-some_keys (sweep_map f map').0)
                (key_in-sweep_map cwd provider map' (simp (e) at d))
          | inr other ↦ simp (sweep_clients, e, other) later
        ]
      ]

  swept-cache : (s : ClientStateStore) → (swept f s).0.cache ≡ (sweep_clients f s.cache).0
  unfolding sweep_clients save
  swept-cache s = ground arith

  swept-key :
      (client_id cwd provider : String) (s : ClientStateStore)
      → IsObject s.cache
      → get_project_provider_key client_id cwd provider (swept f s).0
        ≡ lookup provider (
            effect f
              (or_else (lookup cwd (keys_of (or_else (lookup client_id s.cache) new_state))) []))
  unfolding get_project_provider_key key_in save sweep_clients
  swept-key client_id cwd provider s o =
      rw (swept-cache s) (state_of-sweep_clients client_id cwd provider s.cache o)

effect-drop_provider :
    (provider q : String) (inner : ProviderKeys)
    → lookup q (effect (drop_provider provider) inner)
      ≡ (if provider === q then none else lookup q inner)
unfolding effect
effect-drop_provider provider q inner =
    ground (arith, lookup-remove provider q inner, has-keys q inner, string_eq.beq_iff provider q)

effect-repoint :
    (provider deleted : String) (new_active : Option String) (q : String) (inner : ProviderKeys)
    → lookup q (effect (repoint provider deleted new_active) inner) ≡ (
        if provider === q && is_text deleted (lookup q inner)
        then truthy new_active
        else lookup q inner)
unfolding effect
effect-repoint provider deleted none q inner =
    ground (arith, lookup-remove provider q inner, string_eq.beq_iff provider q)
effect-repoint provider deleted (some key) q inner = ground (
  arith,
  lookup-remove provider q inner,
  lookup-insert provider q key inner,
  string_eq.beq_iff provider q,
)

-- After a provider is deleted everywhere, no project of any client has a key for it, and every
-- other provider has the key it had, when the stored objects have distinct keys.
pub delete_provider_everywhere-get :
    (provider client_id cwd q : String) (s : ClientStateStore)
    → IsObject s.cache
    → get_project_provider_key client_id cwd q (delete_provider_everywhere provider s).0
      ≡ (if provider === q then none else get_project_provider_key client_id cwd q s)
unfolding delete_provider_everywhere get_project_provider_key sweep_clients save
delete_provider_everywhere-get provider client_id cwd q s o =
    swept-key (drop_provider provider) refl client_id cwd q s o ∙ effect-drop_provider provider q _

-- After a deleted key is repointed everywhere, a project of any client that used it for the
-- provider uses the key that took over, or none when there is no such key (an empty name is
-- none); all other keys are as they were, when the stored objects have distinct keys.
pub repoint_deleted_key_everywhere-get :
    (provider deleted : String) (new_active : Option String) (client_id cwd q : String)
    (s : ClientStateStore)
    → IsObject s.cache
    → get_project_provider_key client_id cwd q
        (repoint_deleted_key_everywhere provider deleted new_active s).0
      ≡ (let old = get_project_provider_key client_id cwd q s in
          if provider === q && is_text deleted old then truthy new_active else old)
unfolding repoint_deleted_key_everywhere get_project_provider_key sweep_clients save
repoint_deleted_key_everywhere-get provider deleted new_active client_id cwd q s o =
    swept-key (repoint provider deleted new_active) refl client_id cwd q s o
    ∙ effect-repoint provider deleted new_active q _
