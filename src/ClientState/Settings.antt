-- ===== src/ClientState/Settings.antt =====
-- server/client-state.ts: the settings panel's state, merged and read with the older fields.
-- A stored field that is missing is none; a list may hold what is not a text, as none.
use dispatch_web.Base.{
  ◌==◌, if◌then◌else◌, or_else, is_some, length, nat_eq, string_eq, Text, codes, text_is_eq, trim,
  ℕ, min, String, Bool, true, false, Option, none, some, List, [], ◌∷◌, map,
}
use dispatch_web.Base.{true, false, ◌==◌, if◌then◌else◌, min}
use dispatch_web.ToolManager.{
  normalize_disabled_agent_tools, legacy_to_disabled, derive_legacy, LegacyToolSwitches,
}

pub data PromptMode : Type 0 where
  append_mode : PromptMode
  replace_mode : PromptMode

-- What `Math.floor(Number(v))` can be.
pub data Floor : Type 0 where
  not_finite : Floor
  negative : Floor
  natural : ℕ → Floor

abbrev pub default_retry_max_attempts : ℕ
default_retry_max_attempts = 6

unfoldable pub normalize_retry_max_attempts : Floor → ℕ
normalize_retry_max_attempts not_finite = default_retry_max_attempts
normalize_retry_max_attempts negative = 0
normalize_retry_max_attempts (natural n) = min 100 n

abbrev pub keep_strings : List (Option String) → List String
keep_strings [] = []
keep_strings (none ∷ v) = keep_strings v
keep_strings (some s ∷ v) = s ∷ keep_strings v

unfoldable pub normalize_skill_list : Option (List (Option String)) → List String
normalize_skill_list none = []
normalize_skill_list (some v) = keep_strings v

abbrev pub Overrides : Type 0
Overrides = List (Text × Text)

pub record ClientSettings : Type 0 where
  pub prompt_mode : PromptMode
  pub custom_system_prompt : Text
  pub prompt_template : Text
  pub prompt_overrides : Overrides
  pub disabled_skills : List String
  pub disabled_extensions : List String
  pub terminal_tools_enabled : Bool
  pub terminal_bash : Bool
  pub terminal_bash_idle_ms : ℕ
  pub disabled_agent_tools : List String
  pub questionnaire_enabled : Bool
  pub thinking_wrap : Bool
  pub tools_wrap : Bool
  pub skills_full_text : List String
  pub retry_max_attempts : ℕ

-- `Partial<ClientSettings>`, which is also what a file of an older version holds.
pub record PartialSettings : Type 0 where
  pub prompt_mode : Option PromptMode
  pub custom_system_prompt : Option Text
  pub prompt_template : Option Text
  pub prompt_overrides : Option Overrides
  pub disabled_skills : Option (List String)
  pub disabled_extensions : Option (List String)
  pub terminal_tools_enabled : Option Bool
  pub terminal_bash : Option Bool
  pub terminal_bash_idle_ms : Option ℕ
  pub disabled_agent_tools : Option (List (Option String))
  pub questionnaire_enabled : Option Bool
  pub thinking_wrap : Option Bool
  pub tools_wrap : Option Bool
  pub skills_full_text : Option (List (Option String))
  pub retry_max_attempts : Option Floor

abbrev pub no_settings : PartialSettings
no_settings = record {
  prompt_mode = none;
  custom_system_prompt = none;
  prompt_template = none;
  prompt_overrides = none;
  disabled_skills = none;
  disabled_extensions = none;
  terminal_tools_enabled = none;
  terminal_bash = none;
  terminal_bash_idle_ms = none;
  disabled_agent_tools = none;
  questionnaire_enabled = none;
  thinking_wrap = none;
  tools_wrap = none;
  skills_full_text = none;
  retry_max_attempts = none;
}

-- The switches that a preset does not have are none in it.
pub record SettingsPreset : Type 0 where
  pub name : String
  pub combo : PartialSettings

-- `a ?? b`
abbrev pub or_option : {A : Type 0} → Option A → Option A → Option A
or_option none b = b
or_option (some a) b = some a

abbrev pub is_replace : Option PromptMode → Bool
is_replace none = false
is_replace (some append_mode) = false
is_replace (some replace_mode) = true

-- An older file's own prompt becomes an override.
unfoldable pub read_overrides : PartialSettings → Overrides
read_overrides stored = elim stored.prompt_template [
  | some template ↦ or_else stored.prompt_overrides []
  | none ↦ elim stored.custom_system_prompt [
    | none ↦ []
    | some custom ↦
        if length (trim custom) == 0
        then []
        else (if is_replace stored.prompt_mode then codes "soul" else codes "append", custom) ∷ []
  ]
]

abbrev pub switches_of : PartialSettings → LegacyToolSwitches
switches_of stored = record {
  terminal_tools_enabled = stored.terminal_tools_enabled;
  questionnaire_enabled = stored.questionnaire_enabled;
  disabled_agent_tools = stored.disabled_agent_tools;
}

unfoldable pub read_settings : PartialSettings → ClientSettings
read_settings stored =
    let disabled = legacy_to_disabled (switches_of stored) in
    let derived = derive_legacy disabled in
    record {
      prompt_mode = if is_replace stored.prompt_mode then replace_mode else append_mode;
      custom_system_prompt = or_else stored.custom_system_prompt [];
      prompt_template = or_else stored.prompt_template [];
      prompt_overrides = read_overrides stored;
      disabled_skills = or_else stored.disabled_skills [];
      disabled_extensions = or_else stored.disabled_extensions [];
      terminal_tools_enabled =
          if is_some stored.disabled_agent_tools
          then derived.terminal_tools_enabled
          else or_else stored.terminal_tools_enabled false;
      terminal_bash = or_else stored.terminal_bash false;
      terminal_bash_idle_ms = or_else stored.terminal_bash_idle_ms 15000;
      disabled_agent_tools = disabled;
      questionnaire_enabled =
          if is_some stored.disabled_agent_tools
          then derived.questionnaire_enabled
          else or_else stored.questionnaire_enabled true;
      thinking_wrap = or_else stored.thinking_wrap false;
      tools_wrap = or_else stored.tools_wrap false;
      skills_full_text = normalize_skill_list stored.skills_full_text;
      retry_max_attempts =
          normalize_retry_max_attempts (or_else stored.retry_max_attempts not_finite);
    }

unfoldable pub merge_settings : PartialSettings → PartialSettings → PartialSettings
merge_settings settings cur = record {
  prompt_mode = some (or_else settings.prompt_mode (or_else cur.prompt_mode append_mode));
  custom_system_prompt =
      some (or_else settings.custom_system_prompt (or_else cur.custom_system_prompt []));
  prompt_template = some (or_else settings.prompt_template (or_else cur.prompt_template []));
  prompt_overrides = some (or_else settings.prompt_overrides (or_else cur.prompt_overrides []));
  disabled_skills = some (or_else settings.disabled_skills (or_else cur.disabled_skills []));
  disabled_extensions =
      some (or_else settings.disabled_extensions (or_else cur.disabled_extensions []));
  terminal_tools_enabled =
      some (or_else settings.terminal_tools_enabled (or_else cur.terminal_tools_enabled false));
  terminal_bash = some (or_else settings.terminal_bash (or_else cur.terminal_bash false));
  terminal_bash_idle_ms =
      some (or_else settings.terminal_bash_idle_ms (or_else cur.terminal_bash_idle_ms 15000));
  disabled_agent_tools = some (
      map some (
        normalize_disabled_agent_tools
          (or_option settings.disabled_agent_tools cur.disabled_agent_tools)));
  questionnaire_enabled =
      some (or_else settings.questionnaire_enabled (or_else cur.questionnaire_enabled true));
  thinking_wrap = some (or_else settings.thinking_wrap (or_else cur.thinking_wrap false));
  tools_wrap = some (or_else settings.tools_wrap (or_else cur.tools_wrap false));
  skills_full_text =
      some (
        map some (normalize_skill_list (or_option settings.skills_full_text cur.skills_full_text)));
  retry_max_attempts = some (
      natural (
        normalize_retry_max_attempts (
          or_else settings.retry_max_attempts
            (or_else cur.retry_max_attempts (natural default_retry_max_attempts)))));
}

-- Older presets have no count of retries.
unfoldable pub read_preset : SettingsPreset → SettingsPreset
read_preset p = record p {
  combo = record p.combo {
    retry_max_attempts =
        some
          (natural (normalize_retry_max_attempts (or_else p.combo.retry_max_attempts not_finite)));
  };
}

-- Every field, as the panel sends it back.
unfoldable pub as_partial : ClientSettings → PartialSettings
as_partial s = record {
  prompt_mode = some s.prompt_mode;
  custom_system_prompt = some s.custom_system_prompt;
  prompt_template = some s.prompt_template;
  prompt_overrides = some s.prompt_overrides;
  disabled_skills = some s.disabled_skills;
  disabled_extensions = some s.disabled_extensions;
  terminal_tools_enabled = some s.terminal_tools_enabled;
  terminal_bash = some s.terminal_bash;
  terminal_bash_idle_ms = some s.terminal_bash_idle_ms;
  disabled_agent_tools = some (map some s.disabled_agent_tools);
  questionnaire_enabled = some s.questionnaire_enabled;
  thinking_wrap = some s.thinking_wrap;
  tools_wrap = some s.tools_wrap;
  skills_full_text = some (map some s.skills_full_text);
  retry_max_attempts = some (natural s.retry_max_attempts);
}
