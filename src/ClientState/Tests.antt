-- ===== src/ClientState/Tests.antt =====
-- Runs of the client store on small inputs.
use dispatch_web.Base.{
  if◌then◌else◌, take, nat_eq, string_eq, is_text, text_is_eq, ◌≡◌, refl, true, ◌&&◌, none, some,
  [], ◌∷◌, str_eq, arith, codes, trim, trim_end, trim_start, is_space,
}
use dispatch_web.Base.{refl, if◌then◌else◌, string_eq}
use dispatch_web.ClientState.{
  ClientStateStore, ClientState, Clients, Interrupted, new_state, delete_provider_everywhere,
  repoint_deleted_key_everywhere, get_project_provider_key, truthy, save_interrupted,
  take_interrupted, max_interrupted, remember, remove_project, get_removed_projects, save,
  sweep_clients, sweep_map,
}
use dispatch_web.ClientState.{get_settings, save_settings, global_settings_key}
use dispatch_web.ClientState.Settings.{
  as_partial, no_settings, replace_mode, read_settings, read_overrides,
  normalize_retry_max_attempts,
}
use dispatch_web.ClientState.Panel.{get_settings-save_settings}
use dispatch_web.ToolManager.{legacy_to_disabled, normalize_disabled_agent_tools, normalize_from}
use dispatch_web.ClientState.Extensions.{Extension, is_extension_disabled, after_last, package_name}
use dispatch_web.ClientState.Packages.{is_extension_disabled-package_name}
use dispatch_web.ClientState.Keys.{
  delete_provider_everywhere-get, repoint_deleted_key_everywhere-get,
}
use dispatch_web.ClientState.Interruptions.{save_interrupted-take_interrupted}
use dispatch_web.ClientState.Steps.{remembers, removes, deletes_provider}
use dispatch_web.ClientState.Storing.{IsStored, start, next, ⟶*-IsStored}

abbrev with_keys : ClientState
with_keys = record new_state {
  project_provider_keys = some (
      ("/a", ("anthropic", "work") ∷ ("openai", "home") ∷ [])
      ∷ ("/b", ("openai", "spare") ∷ [])
      ∷ []);
}

abbrev two_clients : Clients
two_clients = ("one", with_keys) ∷ ("two", new_state) ∷ []

abbrev stored : ClientStateStore
stored = record { cache = two_clients; file = two_clients; writable = true }

test_delete_provider_everywhere-get :
    get_project_provider_key "one" "/a" "openai" (delete_provider_everywhere "openai" stored).0 ≡ (
      if str_eq "openai" "openai"
      then none
      else get_project_provider_key "one" "/a" "openai" stored)
test_delete_provider_everywhere-get =
    delete_provider_everywhere-get "openai" "one" "/a" "openai" stored
      ((refl, (refl, tt)), (tt, tt))

repoint_deleted_key_everywhere-get_example :
    get_project_provider_key "one" "/a" "openai"
      (repoint_deleted_key_everywhere "openai" "home" (some "spare") stored).0
    ≡ (let old = get_project_provider_key "one" "/a" "openai" stored in
        if str_eq "openai" "openai" && is_text "home" old then truthy (some "spare") else old)
repoint_deleted_key_everywhere-get_example =
    repoint_deleted_key_everywhere-get "openai" "home" (some "spare") "one" "/a" "openai" stored
      ((refl, (refl, tt)), (tt, tt))

abbrev lost : Interrupted
lost = record { title = "Build"; cwd = "/a"; at = 5 }

save_interrupted-take_interrupted_example :
    let saved = save_interrupted "two" (lost ∷ []) stored in
    let (taken, got) = take_interrupted "two" saved in
    (got ≡ some (take max_interrupted (lost ∷ []))) × (take_interrupted "two" taken ≡ (taken, none))
save_interrupted-take_interrupted_example = save_interrupted-take_interrupted "two" lost [] stored

abbrev after_calls : ClientStateStore
after_calls =
    (delete_provider_everywhere "openai"
      (remove_project "two" "/a" (remember "two" "/a" true 7 stored))).0

⟶*-IsStored_example : IsStored after_calls
⟶*-IsStored_example =
    ⟶*-IsStored
      (next (next (next start (remembers "two" "/a" true 7)) (removes "two" "/a"))
        (deletes_provider "openai"))
      (record {
        tidy = (
          record { few = omega arith; distinct = tt; listed = tt },
          (record { few = omega arith; distinct = tt; listed = tt }, tt),
        );
        objects = ((refl, (refl, tt)), (tt, tt));
        kept = λ _. refl;
      })

test_remove_project : get_removed_projects "two" after_calls ≡ "/a" ∷ []
unfolding get_removed_projects delete_provider_everywhere remove_project remember save sweep_clients
    sweep_map
test_remove_project = refl

get_settings-save_settings_example :
    get_settings (save_settings (as_partial (get_settings stored)) stored) ≡ get_settings stored
get_settings-save_settings_example = get_settings-save_settings stored

abbrev older : ClientStateStore
older = record stored {
  cache =
      (
        global_settings_key,
        record new_state {
          settings = some (record no_settings {
            custom_system_prompt = some (codes "Be brief.");
            prompt_mode = some replace_mode;
            terminal_tools_enabled = some true;
          });
        },
      )
      ∷ [];
}

test_get_settings :
    ((get_settings older).prompt_overrides ≡ (codes "soul", codes "Be brief.") ∷ [])
    × ((get_settings older).disabled_agent_tools ≡ [])
    × ((get_settings older).retry_max_attempts ≡ 6)
unfolding get_settings read_settings read_overrides trim trim_end trim_start is_space
    legacy_to_disabled normalize_disabled_agent_tools normalize_from normalize_retry_max_attempts
test_get_settings = (refl, refl, refl)

abbrev scoped : Extension
scoped = record { source_info = none; path = codes "C:\\pi\\node_modules\\@me\\todo\\index.js" }

test_is_extension_disabled-package_name :
    is_extension_disabled scoped (codes "npm:@me/todo" ∷ []) ≡ true
unfolding after_last package_name
test_is_extension_disabled-package_name =
    is_extension_disabled-package_name scoped (codes "@me/todo/index.js")
      (codes "npm:@me/todo" ∷ []) refl refl refl
