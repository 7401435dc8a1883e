-- ===== src/ClientState/Panel.antt =====
-- server/client-state.ts: the settings that the panel reads and sends back.
use dispatch_web.Base.{
  if◌then◌else◌, Option-cases, or_else, nat_eq, string_eq, text_is_eq, String, ◌≡◌, refl, ap, ◌∙◌,
  inl, inr, Bool, true, false, Option, some, List, [], ◌∷◌, map, arith,
}
use dispatch_web.Base.{refl, true, false, ap, ◌∙◌, ◌≡◌, arith, if◌then◌else◌}
use dispatch_web.ToolManager.{legacy_to_disabled, derive_legacy, normalize_disabled_agent_tools}
use dispatch_web.ToolManager.Legacy.{derive_legacy-legacy_to_disabled}
use dispatch_web.ToolManager.Normal.{
  normalize_disabled_agent_tools_twice, normalize_disabled_agent_tools-legacy_to_disabled,
}
use dispatch_web.ClientState.{
  ClientStateStore, ClientState, get_settings, save_settings, state_of, global_settings_key,
  new_state,
}
use dispatch_web.ClientState.Interruptions.{lookup-save-put}
use dispatch_web.ClientState.Settings.{
  PartialSettings, read_settings, merge_settings, as_partial, normalize_retry_max_attempts, Floor,
  not_finite, negative, natural, keep_strings, normalize_skill_list, switches_of, append_mode,
  replace_mode, is_replace, read_overrides, no_settings,
}

keep_strings-map : (names : List String) → keep_strings (map some names) ≡ names
keep_strings-map [] = refl
keep_strings-map (n ∷ names) = ap (λ ns. n ∷ ns) (keep_strings-map names)

normalize_retry_max_attempts_twice :
    (v : Floor)
    → normalize_retry_max_attempts (natural (normalize_retry_max_attempts v))
      ≡ normalize_retry_max_attempts v
unfolding normalize_retry_max_attempts
normalize_retry_max_attempts_twice not_finite = omega arith
normalize_retry_max_attempts_twice negative = omega arith
normalize_retry_max_attempts_twice (natural n) = omega arith

-- The switches that are read are those of the list that is read.
read_settings-derive_legacy :
    (stored : PartialSettings)
    → ((derive_legacy (read_settings stored).disabled_agent_tools).terminal_tools_enabled
        ≡ (read_settings stored).terminal_tools_enabled)
      × ((derive_legacy (read_settings stored).disabled_agent_tools).questionnaire_enabled
          ≡ (read_settings stored).questionnaire_enabled)
unfolding read_settings
read_settings-derive_legacy stored = elim (Option-cases stored.disabled_agent_tools) [
  | inr (v, e) ↦ simp (e) (refl, refl)
  | inl e ↦
      (let d =
          derive_legacy-legacy_to_disabled stored.terminal_tools_enabled
            stored.questionnaire_enabled in
        simp (e) (ap (λ l. l.terminal_tools_enabled) d, ap (λ l. l.questionnaire_enabled) d))
]

mode_again :
    (b : Bool)
    → (if is_replace (some (if b then replace_mode else append_mode))
        then replace_mode
        else append_mode)
      ≡ (if b then replace_mode else append_mode)
mode_again true = refl
mode_again false = refl

list_again :
    (stored : PartialSettings)
    → let disabled = legacy_to_disabled (switches_of stored) in
      normalize_disabled_agent_tools
        (some (map some (normalize_disabled_agent_tools (some (map some disabled)))))
      ≡ disabled
list_again stored =
    normalize_disabled_agent_tools_twice (some (map some (legacy_to_disabled (switches_of stored))))
    ∙ normalize_disabled_agent_tools-legacy_to_disabled (switches_of stored)

skills_again :
    (v : Option (List (Option String)))
    → keep_strings (map some (keep_strings (map some (normalize_skill_list v))))
      ≡ normalize_skill_list v
skills_again v = keep_strings-map _ ∙ keep_strings-map (normalize_skill_list v)

retry_again :
    (v : Floor)
    → normalize_retry_max_attempts
        (natural (normalize_retry_max_attempts (natural (normalize_retry_max_attempts v))))
      ≡ normalize_retry_max_attempts v
retry_again v =
    normalize_retry_max_attempts_twice (natural (normalize_retry_max_attempts v))
    ∙ normalize_retry_max_attempts_twice v

merged-read_settings :
    (stored cur : PartialSettings)
    → read_settings (merge_settings (as_partial (read_settings stored)) cur) ≡ read_settings stored
unfolding read_settings merge_settings as_partial normalize_skill_list read_overrides
    legacy_to_disabled
merged-read_settings stored cur =
    let derived = read_settings-derive_legacy stored in
    let old = read_settings stored in
    λ i. record {
      prompt_mode = mode_again (is_replace stored.prompt_mode) i;
      custom_system_prompt = old.custom_system_prompt;
      prompt_template = old.prompt_template;
      prompt_overrides = old.prompt_overrides;
      disabled_skills = old.disabled_skills;
      disabled_extensions = old.disabled_extensions;
      terminal_tools_enabled =
          (ap (λ l. (derive_legacy l).terminal_tools_enabled) (list_again stored) ∙ derived.0) i;
      terminal_bash = old.terminal_bash;
      terminal_bash_idle_ms = old.terminal_bash_idle_ms;
      disabled_agent_tools = list_again stored i;
      questionnaire_enabled =
          (ap (λ l. (derive_legacy l).questionnaire_enabled) (list_again stored) ∙ derived.1) i;
      thinking_wrap = old.thinking_wrap;
      tools_wrap = old.tools_wrap;
      skills_full_text = skills_again stored.skills_full_text i;
      retry_max_attempts = retry_again (or_else stored.retry_max_attempts not_finite) i;
    }

-- Sending back the settings as the panel read them changes nothing that it reads, also where the
-- file is of an older version, whose own prompt and switches are read as overrides and as a list.
pub get_settings-save_settings :
    (s : ClientStateStore)
    → get_settings (save_settings (as_partial (get_settings s)) s) ≡ get_settings s
unfolding get_settings save_settings
get_settings-save_settings s =
    let cur = or_else (state_of global_settings_key s).settings no_settings in
    let state : ClientState = record (state_of global_settings_key s) {
      settings = some (merge_settings (as_partial (read_settings cur)) cur);
    } in
    ap (λ o. read_settings (or_else (or_else o new_state).settings no_settings))
      (lookup-save-put global_settings_key state s)
    ∙ merged-read_settings cur cur
