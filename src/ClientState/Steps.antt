-- ===== src/ClientState/Steps.antt =====
-- server/client-state.ts: the calls that change the store, one after the other.
use dispatch_web.Base.{
  nat_eq, string_eq, text_is_eq, ℕ, String, ◌≡◌, refl, Bool, true, false, Option, some, List, [],
  ◌∷◌, Option-cases, lookup, inl, inr, none, Bool-cases, has, keys, Distinct, insert-Distinct,
  remove, arith, remove-Distinct,
}
use dispatch_web.Base.{refl}
use dispatch_web.ClientState.Settings.{PartialSettings, SettingsPreset}
use dispatch_web.ClientState.{
  save_settings, save_presets, global_settings_key, ClientStateStore, ClientState, Interrupted,
  Sweep, swept, sweep_clients, drop_provider, repoint, save, put, remember, remove_project,
  remembered, without_project, save_interrupted, take_interrupted, save_project_provider_key,
  delete_project_provider_key, delete_provider_everywhere, repoint_deleted_key_everywhere,
  save_project_model, delete_project_model, state_of, keys_of, models_of, ProviderKeys, put_inner,
}
use dispatch_web.ClientState.Interruptions.{save_interrupted_cons, take_interrupted-some}
use dispatch_web.ClientState.Projects.{IsTidy, remembered-IsTidy, without_project-IsTidy}

infix 40 ◌⟶◌
pub data ◌⟶◌ (s : ClientStateStore) : ClientStateStore → Type 0 where
  remembers :
      (client_id cwd : String) (as_project : Bool) (now : ℕ)
      → s ⟶ remember client_id cwd as_project now s
  removes : (client_id cwd : String) → s ⟶ remove_project client_id cwd s
  saves_interrupted :
      (client_id : String) (list : List Interrupted) → s ⟶ save_interrupted client_id list s
  takes_interrupted : (client_id : String) → s ⟶ (take_interrupted client_id s).0
  saves_key :
      (client_id cwd provider key_name : String)
      → s ⟶ save_project_provider_key client_id cwd provider key_name s
  deletes_key :
      (client_id cwd provider : String) → s ⟶ delete_project_provider_key client_id cwd provider s
  deletes_provider : (provider : String) → s ⟶ (delete_provider_everywhere provider s).0
  repoints :
      (provider deleted : String) (new_active : Option String)
      → s ⟶ (repoint_deleted_key_everywhere provider deleted new_active s).0
  saves_model : (client_id cwd model_id : String) → s ⟶ save_project_model client_id cwd model_id s
  deletes_model : (client_id cwd : String) → s ⟶ delete_project_model client_id cwd s
  saves_settings : (settings : PartialSettings) → s ⟶ save_settings settings s
  saves_presets : (presets : List SettingsPreset) → s ⟶ save_presets presets s

-- A call either leaves the store as it is, sweeps it, or writes one client and saves.
pub data Change (s : ClientStateStore) : ClientStateStore → Type 0 where
  nothing : Change s s
  sweeps : (f : Sweep) → Change s (swept f s).0
  writes :
      (client_id : String) (state : ClientState)
      → (IsTidy (state_of client_id s) → IsTidy state)
      → (Distinct (keys (keys_of (state_of client_id s))) → Distinct (keys (keys_of state)))
      → Change s (save (put client_id state s))

-- The parts of a client that its projects are told from.
pub same_projects-IsTidy :
    (a b : ClientState)
    → b.projects ≡ a.projects
    → b.removed_projects ≡ a.removed_projects
    → IsTidy a
    → IsTidy b
same_projects-IsTidy a b p r t = record {
  few = rw (p) t.few;
  distinct = rw (p) t.distinct;
  listed = rw (p, r) t.listed;
}

put_inner-Distinct :
    (cwd : String) (inner : ProviderKeys) (map' : List (String × ProviderKeys))
    → Distinct (keys map')
    → Distinct (keys (put_inner cwd inner map'))
put_inner-Distinct cwd [] map' d = remove-Distinct cwd map' d
put_inner-Distinct cwd (k ∷ inner) map' d = ground (arith, insert-Distinct cwd (k ∷ inner) map' d)

pub change : {s t : ClientStateStore} → s ⟶ t → Change s t
unfolding save_settings save_presets remember remove_project save_interrupted take_interrupted
    save_project_provider_key delete_project_provider_key delete_provider_everywhere
    repoint_deleted_key_everywhere save_project_model delete_project_model save sweep_clients
change {s} (remembers client_id cwd true now) =
    writes client_id (remembered cwd now (state_of client_id s))
      (remembered-IsTidy cwd now (state_of client_id s)) (λ d. d)
change {s} (remembers client_id cwd false now) =
    writes client_id (record (state_of client_id s) { last_cwd = some cwd })
      (λ t. same_projects-IsTidy (state_of client_id s) _ refl refl t) (λ d. d)
change {s} (removes client_id cwd) =
    writes client_id (without_project cwd (state_of client_id s))
      (without_project-IsTidy cwd (state_of client_id s)) (λ d. d)
change {s} (saves_interrupted client_id []) = nothing
change {s} (saves_interrupted client_id (i ∷ list)) =
    rw (save_interrupted_cons client_id i list s)
      (writes client_id _ (λ t. same_projects-IsTidy (state_of client_id s) _ refl refl t) (λ d. d))
change {s} (takes_interrupted client_id) = elim (Option-cases (lookup client_id s.cache)) [
  | inl e ↦ simp (take_interrupted, e) nothing
  | inr (state, e) ↦ elim (Option-cases state.interrupted) [
    | inl n ↦ simp (take_interrupted, e, n) nothing
    | inr ([], n) ↦ simp (take_interrupted, e, n) nothing
    | inr (i ∷ list, n) ↦ rw (take_interrupted-some client_id s state i list e n) (
        writes client_id (record state { interrupted = none })
          (λ t. same_projects-IsTidy (state_of client_id s) _ (rw (e) refl) (rw (e) refl) t)
          (λ d. simp (e) at d))
  ]
]
change {s} (saves_key client_id cwd provider key_name) =
    writes client_id _ (λ t. same_projects-IsTidy (state_of client_id s) _ refl refl t)
      (insert-Distinct cwd _ (keys_of (state_of client_id s)))
change {s} (deletes_key client_id cwd provider) =
    elim (Option-cases (lookup cwd (keys_of (state_of client_id s)))) [
      | inl e ↦ simp (delete_project_provider_key, e) nothing
      | inr (inner, e) ↦ elim (Bool-cases (has provider (keys inner))) [
        | inl h ↦
            simp (delete_project_provider_key, e, h)
              (writes client_id _ (λ t. same_projects-IsTidy (state_of client_id s) _ refl refl t)
                (put_inner-Distinct cwd (remove provider inner) (keys_of (state_of client_id s))))
        | inr h ↦ simp (delete_project_provider_key, e, h) nothing
      ]
    ]
change {s} (deletes_provider provider) = sweeps (drop_provider provider)
change {s} (repoints provider deleted new_active) = sweeps (repoint provider deleted new_active)
change {s} (saves_model client_id cwd model_id) =
    writes client_id _ (λ t. same_projects-IsTidy (state_of client_id s) _ refl refl t) (λ d. d)
change {s} (deletes_model client_id cwd) =
    elim (Bool-cases (has cwd (keys (models_of (state_of client_id s))))) [
      | inl h ↦
          simp (delete_project_model, h)
            (writes client_id _ (λ t. same_projects-IsTidy (state_of client_id s) _ refl refl t)
              (λ d. d))
      | inr h ↦ simp (delete_project_model, h) nothing
    ]
change {s} (saves_settings settings) =
    writes global_settings_key _
      (λ t. same_projects-IsTidy (state_of global_settings_key s) _ refl refl t) (λ d. d)
change {s} (saves_presets presets) =
    writes global_settings_key _
      (λ t. same_projects-IsTidy (state_of global_settings_key s) _ refl refl t) (λ d. d)
