-- ===== src/ToolManager/Tests.antt =====
-- Runs of the tool switches on small inputs.
use dispatch_web.Base.{
  if◌then◌else◌, nat_eq, string_eq, has, text_is_eq, String, ◌≡◌, refl, true, not, none, some, List,
  [], ◌∷◌,
}
use dispatch_web.ToolManager.{
  known_names, apply_agent_tools_gating, derive_legacy, fold_legacy_into_disabled,
  set_agent_tools_enabled, is_known_agent_tool,
}
use dispatch_web.ToolManager.Gating.{apply_agent_tools_gating-has}
use dispatch_web.ToolManager.Legacy.{derive_legacy-fold_legacy_into_disabled}

apply_agent_tools_gating-has_example :
    (now : List String) × ((apply_agent_tools_gating
        ("terminal_read" ∷ [])
        (record { active = some ("bash" ∷ []) })).active
      ≡ some now)
    × (has {A = String} "bash" now ≡ (
        if has {A = String} "bash" known_names
        then not (has {A = String} "bash" ("terminal_read" ∷ []))
        else has {A = String} "bash" ("bash" ∷ [])))
apply_agent_tools_gating-has_example =
    apply_agent_tools_gating-has ("terminal_read" ∷ []) ("bash" ∷ []) "bash"

derive_legacy-fold_legacy_into_disabled_example :
    derive_legacy (fold_legacy_into_disabled ("terminal_read" ∷ []) (some true) none)
    ≡ record { terminal_tools_enabled = true; questionnaire_enabled = true }
unfolding derive_legacy
derive_legacy-fold_legacy_into_disabled_example =
    derive_legacy-fold_legacy_into_disabled ("terminal_read" ∷ []) (some true) none

test_set_agent_tools_enabled :
    set_agent_tools_enabled
      ("bash" ∷ "terminal_read" ∷ [])
      true
      (record { active = some ("bash" ∷ []) })
    ≡ (record { active = some ("bash" ∷ "terminal_read" ∷ []) }, 1)
unfolding set_agent_tools_enabled is_known_agent_tool
test_set_agent_tools_enabled = refl
