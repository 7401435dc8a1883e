-- ===== src/ToolManager.antt =====
-- server/tool-manager.ts: the switches of the agent's tools.
-- A set is a list in insertion order. `Unready` is what the session's methods throw.
pub mod Gating
pub mod Normal
pub mod Legacy
mod Tests
use dispatch_web.Base.{
  ◌==◌, if◌then◌else◌, or_else, length, filter, any, all, nat_eq, string_eq, has, add, delete, adds,
  deletes, text_is_eq, ℕ, String, Bool, true, false, not, ◌&&◌, Option, none, some, List, [], ◌∷◌,
  ◌++◌, map,
}

abbrev pub terminal_tool_names : List String
terminal_tool_names =
    "terminal_create" ∷ "terminal_list" ∷ "terminal_close" ∷ "terminal_input" ∷ "terminal_key"
    ∷ "terminal_read" ∷ "terminal_wait" ∷ []

abbrev pub ask_user_question_tool_name : String
ask_user_question_tool_name = "ask_user_question"

pub data AgentToolGroup : Type 0 where
  terminal : AgentToolGroup
  other : AgentToolGroup

pub record AgentToolEntry : Type 0 where
  pub name : String
  pub group : AgentToolGroup
  pub default_on : Bool

abbrev pub terminal_entry : String → AgentToolEntry
terminal_entry name = record { name = name; group = terminal; default_on = false }

abbrev pub agent_tool_catalog : List AgentToolEntry
agent_tool_catalog =
    map terminal_entry terminal_tool_names
    ++ record { name = ask_user_question_tool_name; group = other; default_on = true } ∷ []

abbrev pub known_names : List String
known_names = map (λ t. t.name) agent_tool_catalog

unfoldable pub is_known_agent_tool : String → Bool
is_known_agent_tool name = has name known_names

unfoldable pub default_disabled_agent_tools : List String
default_disabled_agent_tools = map (λ t. t.name) (filter (λ t. not t.default_on) agent_tool_catalog)

-- The loop of `normalizeDisabledAgentTools`; an element that is no text is none.
unfoldable pub normalize_from : List (Option String) → List String → List String
normalize_from [] out = out
normalize_from (none ∷ v) out = normalize_from v out
normalize_from (some name ∷ v) out =
    normalize_from v
      (if is_known_agent_tool name && not (has name out) then out ++ name ∷ [] else out)

-- none stands for a value that is no array.
unfoldable pub normalize_disabled_agent_tools : Option (List (Option String)) → List String
normalize_disabled_agent_tools none = default_disabled_agent_tools
normalize_disabled_agent_tools (some v) = normalize_from v []

unfoldable pub is_agent_tool_enabled : String → List String → Bool
is_agent_tool_enabled name disabled = not (has name disabled)

-- The names that the session reports; none where it throws, as it does before it is ready.
pub record ActiveToolSet : Type 0 where
  pub active : Option (List String)

unfoldable pub set_agent_tool_enabled : String → Bool → ActiveToolSet → ActiveToolSet × Bool
set_agent_tool_enabled name on session =
    if not (is_known_agent_tool name) then (session, false) else elim session.active [
      | none ↦ (session, false)
      | some names ↦
          (record { active = some (if on then add name names else delete name names) }, true)
    ]

unfoldable pub set_agent_tools_enabled : List String → Bool → ActiveToolSet → ActiveToolSet × ℕ
set_agent_tools_enabled names on session =
    let known = filter is_known_agent_tool names in
    if length known == 0 then (session, 0) else elim session.active [
      | none ↦ (session, 0)
      | some active ↦ (
        record { active = some (if on then adds known active else deletes known active) },
        length known,
      )
    ]

unfoldable pub gate : List AgentToolEntry → List String → List String → List String
gate [] off names = names
gate (t ∷ catalog) off names =
    gate catalog off (if has t.name off then delete t.name names else add t.name names)

unfoldable pub apply_agent_tools_gating : List String → ActiveToolSet → ActiveToolSet
apply_agent_tools_gating disabled session = elim session.active [
  | none ↦ session
  | some names ↦ record { active = some (gate agent_tool_catalog disabled names) }
]

pub record LegacyToolSwitches : Type 0 where
  pub terminal_tools_enabled : Option Bool
  pub questionnaire_enabled : Option Bool
  -- none where the value is no array.
  pub disabled_agent_tools : Option (List (Option String))

unfoldable pub legacy_to_disabled : LegacyToolSwitches → List String
legacy_to_disabled s = elim s.disabled_agent_tools [
  | some v ↦ normalize_disabled_agent_tools (some v)
  | none ↦
      let off =
        (if or_else s.terminal_tools_enabled false then [] else terminal_tool_names)
        ++ (if or_else s.questionnaire_enabled true
            then []
            else ask_user_question_tool_name ∷ []) in
      normalize_disabled_agent_tools (some (map some off))
]

pub record LegacySwitches : Type 0 where
  pub terminal_tools_enabled : Bool
  pub questionnaire_enabled : Bool

unfoldable pub derive_legacy : List String → LegacySwitches
derive_legacy disabled = record {
  terminal_tools_enabled = all (λ n. not (has n disabled)) terminal_tool_names;
  questionnaire_enabled = not (has ask_user_question_tool_name disabled);
}

unfoldable pub apply_group : List String → Option Bool → List String → List String
apply_group names none next = next
apply_group names (some v) next = if v then deletes names next else adds names next

unfoldable pub fold_legacy_into_disabled : List String → Option Bool → Option Bool → List String
fold_legacy_into_disabled current terminal_tools_enabled questionnaire_enabled =
    apply_group (ask_user_question_tool_name ∷ []) questionnaire_enabled (
      apply_group terminal_tool_names terminal_tools_enabled
        (normalize_disabled_agent_tools (some (map some current))))

unfoldable pub effective_disabled_agent_tools : LegacyToolSwitches → List String
effective_disabled_agent_tools s =
    let next = legacy_to_disabled s in
    if or_else s.questionnaire_enabled true then next else add ask_user_question_tool_name next

unfoldable pub is_terminal_guidance_on : List String → Bool
is_terminal_guidance_on disabled = any (λ n. not (has n disabled)) terminal_tool_names
