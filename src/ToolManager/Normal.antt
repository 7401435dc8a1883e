-- ===== src/ToolManager/Normal.antt =====
-- server/tool-manager.ts: a disabled list that is normalised once is normal.
use dispatch_web.Base.{
  if◌then◌else◌, string_eq, ◌≡◌, refl, Bool-cases, All, All-append, nat_eq, string_eq, has,
  Distinct, append-Distinct, text_is_eq, String, ◌≡◌, refl, sym, ◌∙◌, inl, inr, true, false, not,
  ◌&&◌, Option, none, some, List, [], ◌∷◌, ◌++◌, map, arith, has-append, Option-cases, ap,
}
use dispatch_web.Base.{refl, true, false, not, ◌&&◌, ◌∙◌, sym, append-Distinct}
use mathlib.Core.List.{append-nil, append_assoc}
use dispatch_web.ToolManager.{
  normalize_from, normalize_disabled_agent_tools, is_known_agent_tool, default_disabled_agent_tools,
  legacy_to_disabled, LegacyToolSwitches,
}

record IsNormal (names : List String) : Type 0 where
  known : All (λ n. is_known_agent_tool n ≡ true) names
  distinct : Distinct names

normalize_from-IsNormal :
    (v : List (Option String)) (out : List String) → IsNormal out → IsNormal (normalize_from v out)
unfolding normalize_from
normalize_from-IsNormal [] out i = i
normalize_from-IsNormal (none ∷ v) out i = normalize_from-IsNormal v out i
normalize_from-IsNormal (some name ∷ v) out i =
    elim (Bool-cases (is_known_agent_tool name && not (has name out))) [
      | inr h ↦ simp (h) (normalize_from-IsNormal v out i)
      | inl h ↦ simp (h) (
          normalize_from-IsNormal v (out ++ name ∷ []) (record {
            known = All-append _ out (name ∷ []) i.known (ground (arith, h), tt);
            distinct = append-Distinct name out (ground (arith, h)) i.distinct;
          }))
    ]

normalize_disabled_agent_tools-IsNormal :
    (v : Option (List (Option String))) → IsNormal (normalize_disabled_agent_tools v)
unfolding normalize_disabled_agent_tools default_disabled_agent_tools is_known_agent_tool
normalize_disabled_agent_tools-IsNormal none = record {
  known = (refl, (refl, (refl, (refl, (refl, (refl, (refl, tt)))))));
  distinct = (refl, (refl, (refl, (refl, (refl, (refl, (refl, tt)))))));
}
normalize_disabled_agent_tools-IsNormal (some v) =
    normalize_from-IsNormal v [] (record { known = tt; distinct = tt })

apart :
    (name : String) (out names : List String)
    → has name names ≡ false
    → All (λ n. has n out ≡ false) names
    → All (λ n. has n (out ++ name ∷ []) ≡ false) names
apart name out [] h a = tt
apart name out (n ∷ names) h a = (
  has-append n out (name ∷ [])
      ∙ ground (arith, h, a.0, string_eq.beq_iff name n, string_eq.beq_iff n name),
  apart name out names (ground (arith, h)) a.1,
)

normalize_from_new :
    (name : String) (v : List (Option String)) (out : List String)
    → is_known_agent_tool name ≡ true
    → has name out ≡ false
    → normalize_from (some name ∷ v) out ≡ normalize_from v (out ++ name ∷ [])
unfolding normalize_from
normalize_from_new name v out k f =
    let new : (is_known_agent_tool name && not (has name out)) ≡ true = ground (arith, k, f) in
    ap (λ b. normalize_from v (if b then out ++ name ∷ [] else out)) new

normalize_from_normal :
    (names out : List String)
    → All (λ n. is_known_agent_tool n ≡ true) names
    → Distinct names
    → All (λ n. has n out ≡ false) names
    → normalize_from (map some names) out ≡ out ++ names
unfolding normalize_from
normalize_from_normal [] out k d f = sym (append-nil out)
normalize_from_normal (name ∷ names) out k d f =
    normalize_from_new name (map some names) out k.0 f.0
    ∙ normalize_from_normal names (out ++ name ∷ []) k.1 d.1 (apart name out names d.0 f.1)
    ∙ append_assoc out (name ∷ []) names

new_to_none : (names : List String) → All (λ n. has {A = String} n [] ≡ false) names
new_to_none [] = tt
new_to_none (n ∷ names) = (refl, new_to_none names)

-- What is normalised is left as it is when it is normalised again.
pub normalize_disabled_agent_tools_twice :
    (v : Option (List (Option String)))
    → normalize_disabled_agent_tools (some (map some (normalize_disabled_agent_tools v)))
      ≡ normalize_disabled_agent_tools v
unfolding normalize_disabled_agent_tools
normalize_disabled_agent_tools_twice v =
    let i = normalize_disabled_agent_tools-IsNormal v in
    normalize_from_normal (normalize_disabled_agent_tools v) [] i.known i.distinct (new_to_none _)

pub normalize_disabled_agent_tools-legacy_to_disabled :
    (s : LegacyToolSwitches)
    → normalize_disabled_agent_tools (some (map some (legacy_to_disabled s))) ≡ legacy_to_disabled s
unfolding legacy_to_disabled
normalize_disabled_agent_tools-legacy_to_disabled s = elim (Option-cases s.disabled_agent_tools) [
  | inl e ↦ simp (legacy_to_disabled, e) (normalize_disabled_agent_tools_twice _)
  | inr (v, e) ↦ simp (legacy_to_disabled, e) (normalize_disabled_agent_tools_twice (some v))
]
