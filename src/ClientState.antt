-- ===== src/ClientState.antt =====
-- server/client-state.ts: what the server stores for each browser client.
-- An object of the file is a list of entries. `writable` says whether the file system takes a
-- write. Times are arguments.
pub mod Settings
pub mod Keys
pub mod Projects
pub mod Interruptions
pub mod Extensions
pub mod Packages
pub mod Panel
pub mod Steps
pub mod Storing
mod Tests
use dispatch_web.ClientState.Settings.{
  PartialSettings, SettingsPreset, ClientSettings, read_settings, merge_settings, no_settings,
  read_preset,
}
use dispatch_web.Base.{
  map, ltb, ◌==◌, if◌then◌else◌, or_else, length, take, filter, nat_eq, string_eq, is_text, has,
  add, delete, lookup, insert, remove, keys, text_is_eq, ℕ, suc, ◌+◌, String, Bool, not, Option,
  none, some, List, [], ◌∷◌, str_eq,
}

pub record Project : Type 0 where
  pub path : String
  pub last_used : ℕ

pub record Interrupted : Type 0 where
  pub title : String
  pub cwd : String
  pub at : ℕ

abbrev pub ProviderKeys : Type 0
ProviderKeys = List (String × String)

pub record ClientState : Type 0 where
  pub last_cwd : Option String
  pub projects : List Project
  pub interrupted : Option (List Interrupted)
  pub removed_projects : Option (List String)
  pub project_provider_keys : Option (List (String × ProviderKeys))
  pub project_models : Option (List (String × String))
  pub settings : Option PartialSettings
  pub presets : Option (List SettingsPreset)

abbrev pub new_state : ClientState
new_state = record {
  last_cwd = none;
  projects = [];
  interrupted = none;
  removed_projects = none;
  project_provider_keys = none;
  project_models = none;
  settings = none;
  presets = none;
}

abbrev pub Clients : Type 0
Clients = List (String × ClientState)

-- The cache, once it is loaded, and what the file holds.
pub record ClientStateStore : Type 0 where
  pub cache : Clients
  pub file : Clients
  pub writable : Bool

unfoldable pub save : ClientStateStore → ClientStateStore
save s = if s.writable then record s { file = s.cache } else s

-- `all[clientId] ??= { projects: [] }`.
abbrev pub state_of : String → ClientStateStore → ClientState
state_of client_id s = or_else (lookup client_id s.cache) new_state

abbrev pub put : String → ClientState → ClientStateStore → ClientStateStore
put client_id state s = record s { cache = insert client_id state s.cache }

unfoldable pub get : String → ClientStateStore → ClientState
get client_id s = state_of client_id s

abbrev pub other_paths : String → List Project → List Project
other_paths cwd = filter (λ p. not (str_eq p.path cwd))

abbrev pub max_projects : ℕ
max_projects = 30

abbrev pub remembered : String → ℕ → ClientState → ClientState
remembered cwd now state = record state {
  last_cwd = some cwd;
  projects =
      take max_projects (record { path = cwd; last_used = now } ∷ other_paths cwd state.projects);
  removed_projects = elim state.removed_projects [
    | none ↦ none
    | some removed ↦ some (if length removed == 0 then removed else delete cwd removed)
  ];
}

unfoldable pub remember : String → String → Bool → ℕ → ClientStateStore → ClientStateStore
unfolding save
remember client_id cwd as_project now s =
    let state = state_of client_id s in
    save (
      put client_id
        (if as_project then remembered cwd now state else record state { last_cwd = some cwd }) s)

abbrev pub without_project : String → ClientState → ClientState
without_project cwd state = record state {
  last_cwd = if is_text cwd state.last_cwd then none else state.last_cwd;
  projects = other_paths cwd state.projects;
  removed_projects = some (add cwd (or_else state.removed_projects []));
}

unfoldable pub remove_project : String → String → ClientStateStore → ClientStateStore
unfolding save
remove_project client_id cwd s = save (put client_id (without_project cwd (state_of client_id s)) s)

unfoldable pub get_removed_projects : String → ClientStateStore → List String
get_removed_projects client_id s = or_else (state_of client_id s).removed_projects []

abbrev pub max_interrupted : ℕ
max_interrupted = 8

unfoldable pub save_interrupted : String → List Interrupted → ClientStateStore → ClientStateStore
unfolding save
save_interrupted client_id list s =
    if length list == 0
    then s
    else save (
        put client_id
          (record (state_of client_id s) { interrupted = some (take max_interrupted list) }) s)

unfoldable pub take_interrupted :
    String → ClientStateStore → ClientStateStore × Option (List Interrupted)
unfolding save
take_interrupted client_id s = elim (lookup client_id s.cache) [
  | none ↦ (s, none)
  | some state ↦ elim state.interrupted [
    | none ↦ (s, none)
    | some list ↦
        if length list == 0
        then (s, some list)
        else (save (put client_id (record state { interrupted = none }) s), some list)
  ]
]

abbrev pub keys_of : ClientState → List (String × ProviderKeys)
keys_of state = or_else state.project_provider_keys []

unfoldable pub get_project_provider_keys : String → String → ClientStateStore → Option ProviderKeys
get_project_provider_keys client_id cwd s = lookup cwd (keys_of (state_of client_id s))

unfoldable pub get_project_provider_key :
    String → String → String → ClientStateStore → Option String
get_project_provider_key client_id cwd provider s =
    lookup provider (or_else (lookup cwd (keys_of (state_of client_id s))) [])

unfoldable pub save_project_provider_key :
    (client_id cwd provider key_name : String) → ClientStateStore → ClientStateStore
unfolding save
save_project_provider_key client_id cwd provider key_name s =
    let state = state_of client_id s in
    let inner = or_else (lookup cwd (keys_of state)) [] in
    save (
      put client_id
        (record state {
          project_provider_keys =
              some (insert cwd (insert provider key_name inner) (keys_of state));
        })
        s)

-- An inner object that has become empty is deleted.
abbrev pub put_inner :
    String → ProviderKeys → List (String × ProviderKeys) → List (String × ProviderKeys)
put_inner cwd inner map' = if length inner == 0 then remove cwd map' else insert cwd inner map'

unfoldable pub delete_project_provider_key :
    (client_id cwd provider : String) → ClientStateStore → ClientStateStore
unfolding save
delete_project_provider_key client_id cwd provider s =
    let state = state_of client_id s in
    elim (lookup cwd (keys_of state)) [
      | none ↦ s
      | some inner ↦
          if not (has provider (keys inner))
          then s
          else save (
              put client_id
                (record state {
                  project_provider_keys =
                      some (put_inner cwd (remove provider inner) (keys_of state));
                })
                s)
    ]

-- What one of the two sweeps does with the keys of a project: none leaves them, and they are not
-- counted.
abbrev pub Sweep : Type 0
Sweep = ProviderKeys → Option ProviderKeys

unfoldable pub sweep_map : Sweep → List (String × ProviderKeys) → List (String × ProviderKeys) × ℕ
sweep_map f [] = ([], 0)
sweep_map f ((cwd, inner) ∷ map') =
    let (rest, n) = sweep_map f map' in
    elim (f inner) [
      | none ↦ ((cwd, inner) ∷ rest, n)
      | some inner' ↦ (if length inner' == 0 then rest else (cwd, inner') ∷ rest, suc n)
    ]

abbrev pub some_keys : List (String × ProviderKeys) → Option (List (String × ProviderKeys))
some_keys map' = if length map' == 0 then none else some map'

unfoldable pub sweep_clients : Sweep → Clients → Clients × ℕ
sweep_clients f [] = ([], 0)
sweep_clients f ((id, state) ∷ all') =
    let (rest, n) = sweep_clients f all' in
    elim state.project_provider_keys [
      | none ↦ ((id, state) ∷ rest, n)
      | some map' ↦
          let (map'', k) = sweep_map f map' in
          ((id, record state { project_provider_keys = some_keys map'' }) ∷ rest, k + n)
    ]

abbrev pub swept : Sweep → ClientStateStore → ClientStateStore × ℕ
swept f s =
    let (all', n) = sweep_clients f s.cache in
    let s' = record s { cache = all' } in (if ltb 0 n then save s' else s', n)

abbrev pub drop_provider : String → Sweep
drop_provider provider inner =
    if has provider (keys inner) then some (remove provider inner) else none

unfoldable pub delete_provider_everywhere : String → ClientStateStore → ClientStateStore × ℕ
unfolding sweep_clients save
delete_provider_everywhere provider s = swept (drop_provider provider) s

abbrev pub truthy : Option String → Option String
truthy none = none
truthy (some key) = if str_eq key "" then none else some key

abbrev pub repoint : String → String → Option String → Sweep
repoint provider deleted new_active inner =
    if not (is_text deleted (lookup provider inner)) then none else elim (truthy new_active) [
      | some key ↦ some (insert provider key inner)
      | none ↦ some (remove provider inner)
    ]

unfoldable pub repoint_deleted_key_everywhere :
    (provider deleted : String) → Option String → ClientStateStore → ClientStateStore × ℕ
unfolding sweep_clients save
repoint_deleted_key_everywhere provider deleted new_active s =
    swept (repoint provider deleted new_active) s

abbrev pub models_of : ClientState → List (String × String)
models_of state = or_else state.project_models []

unfoldable pub get_project_model : String → String → ClientStateStore → Option String
get_project_model client_id cwd s = lookup cwd (models_of (state_of client_id s))

unfoldable pub save_project_model :
    (client_id cwd model_id : String) → ClientStateStore → ClientStateStore
unfolding save
save_project_model client_id cwd model_id s =
    let state = state_of client_id s in
    save (
      put client_id (record state { project_models = some (insert cwd model_id (models_of state)) })
        s)

unfoldable pub delete_project_model : (client_id cwd : String) → ClientStateStore → ClientStateStore
unfolding save
delete_project_model client_id cwd s =
    let state = state_of client_id s in
    if not (has cwd (keys (models_of state)))
    then s
    else (let left = remove cwd (models_of state) in
        save (
          put client_id
            (record state { project_models = if length left == 0 then none else some left }) s))

-- The settings are shared: they stand under one key of their own.
abbrev pub global_settings_key : String
global_settings_key = "__settings__"

unfoldable pub get_settings : ClientStateStore → ClientSettings
get_settings s = read_settings (or_else (state_of global_settings_key s).settings no_settings)

unfoldable pub save_settings : PartialSettings → ClientStateStore → ClientStateStore
unfolding save
save_settings settings s =
    let state = state_of global_settings_key s in
    save (
      put global_settings_key
        (record state {
          settings = some (merge_settings settings (or_else state.settings no_settings));
        })
        s)

unfoldable pub get_presets : ClientStateStore → List SettingsPreset
get_presets s = map read_preset (or_else (state_of global_settings_key s).presets [])

unfoldable pub save_presets : List SettingsPreset → ClientStateStore → ClientStateStore
unfolding save
save_presets presets s =
    save (
      put global_settings_key (record (state_of global_settings_key s) { presets = some presets })
        s)
