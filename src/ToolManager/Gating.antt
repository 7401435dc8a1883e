-- ===== src/ToolManager/Gating.antt =====
-- After a full replay the active tools are those that the list leaves on.
use dispatch_web.Base.{
  if◌then◌else◌, nat_eq, string_eq, has, add, delete, has-add, has-delete, text_is_eq, String, ◌≡◌,
  refl, ◌∙◌, not, some, List, [], ◌∷◌, map, arith,
}
use dispatch_web.ToolManager.{
  AgentToolEntry, agent_tool_catalog, known_names, gate, apply_agent_tools_gating,
}

has-gate :
    (n : String) (catalog : List AgentToolEntry) (off names : List String)
    → has n (gate catalog off names)
      ≡ (if has n (map (λ t. t.name) catalog) then not (has n off) else has n names)
unfolding gate
has-gate n [] off names = refl
has-gate n (t ∷ catalog) off names =
    has-gate n catalog off (if has t.name off then delete t.name names else add t.name names)
    ∙ ground (
      arith,
      has-delete t.name n names,
      has-add t.name n names,
      string_eq.beq_iff t.name n,
      string_eq.beq_iff n t.name,
    )

-- Replaying the switches on a session that is ready: of the tools of the catalog exactly those
-- that are not disabled are active afterwards, whatever was active before, and every other tool is
-- active afterwards exactly when it was before.
pub apply_agent_tools_gating-has :
    (disabled names : List String) (n : String)
    → (now : List String) × ((apply_agent_tools_gating disabled
          (record { active = some names })).active
        ≡ some now)
      × (has n now ≡ (if has n known_names then not (has n disabled) else has n names))
unfolding apply_agent_tools_gating
apply_agent_tools_gating-has disabled names n =
    (gate agent_tool_catalog disabled names, refl, has-gate n agent_tool_catalog disabled names)
