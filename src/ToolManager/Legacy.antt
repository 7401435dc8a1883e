-- ===== src/ToolManager/Legacy.antt =====
-- The older switches and the list of disabled tools say the same.
use dispatch_web.Base.{
  if◌then◌else◌, or_else, all, ◌===◌, nat_eq, string_eq, has, ===_refl, has-append, has-adds,
  has-deletes, text_is_eq, String, ◌≡◌, refl, ◌∙◌, Bool, true, false, not, ◌&&◌, ◌||◌, Option, none,
  some, List, [], ◌∷◌, ◌++◌, map, arith, Bool-cases, ap, inr, inl,
}
use dispatch_web.ToolManager.{
  terminal_tool_names, ask_user_question_tool_name, is_known_agent_tool, normalize_from,
  normalize_disabled_agent_tools, apply_group, fold_legacy_into_disabled, derive_legacy,
  legacy_to_disabled,
}

has-normalize_from :
    (n : String) (v out : List String)
    → has n (normalize_from (map some v) out) ≡ (has n out || (is_known_agent_tool n && has n v))
unfolding normalize_from
has-normalize_from n [] out = ground arith
has-normalize_from n (x ∷ v) out =
    has-normalize_from n v (if is_known_agent_tool x && not (has x out) then out ++ x ∷ [] else out)
    ∙ ground (arith, has-append n out (x ∷ []), string_eq.beq_iff x n, string_eq.beq_iff n x)

has-apply_group :
    (n : String) (names next : List String) (v : Option Bool)
    → has n (apply_group names v next)
      ≡ (if has n names then not (or_else v (not (has n next))) else has n next)
unfolding apply_group
has-apply_group n names next none = ground arith
has-apply_group n names next (some true) = ground (arith, has-deletes n names next)
has-apply_group n names next (some false) = ground (arith, has-adds n names next)

is_terminal : String → Bool
is_terminal n = has n terminal_tool_names

not_asking : (n : String) → is_terminal n ≡ true → (ask_user_question_tool_name === n) ≡ false
unfolding is_terminal
not_asking n h = elim (Bool-cases (ask_user_question_tool_name === n)) [
  | inr k ↦ k
  | inl k ↦
      let q : ask_user_question_tool_name ≡ n =
        (string_eq.beq_iff ask_user_question_tool_name n).0 k in
      let f : false ≡ true = ap is_terminal q ∙ h in cc
]

terminal_known : (n : String) → is_terminal n ≡ true → is_known_agent_tool n ≡ true
unfolding is_terminal is_known_agent_tool
terminal_known n h = ground arith

has-normalized :
    (n : String) (current : List String)
    → has n (normalize_disabled_agent_tools (some (map some current)))
      ≡ (is_known_agent_tool n && has n current)
unfolding normalize_disabled_agent_tools
has-normalized n current = has-normalize_from n current []

-- A terminal tool after folding.
terminal_off :
    (n : String) (current : List String) (t q : Option Bool)
    → is_terminal n ≡ true
    → has n (fold_legacy_into_disabled current t q) ≡ not (or_else t (not (has n current)))
unfolding fold_legacy_into_disabled is_terminal
terminal_off n current t q h =
    has-apply_group n (ask_user_question_tool_name ∷ []) _ q
    ∙ rw (not_asking n h) (
        has-apply_group n terminal_tool_names _ t
        ∙ rw h (
            ap (λ b. not (or_else t (not b)))
              (has-normalized n current ∙ rw (terminal_known n h) refl)))

-- The question tool after folding.
question_off :
    (current : List String) (t q : Option Bool)
    → has ask_user_question_tool_name (fold_legacy_into_disabled current t q)
      ≡ not (or_else q (not (has ask_user_question_tool_name current)))
unfolding fold_legacy_into_disabled is_known_agent_tool
question_off current t q =
    has-apply_group ask_user_question_tool_name (ask_user_question_tool_name ∷ []) _ q
    ∙ ap (λ b. not (or_else q (not b)))
        (has-apply_group ask_user_question_tool_name terminal_tool_names _ t
          ∙ has-normalized ask_user_question_tool_name current)

all_same :
    (f g : String → Bool) (names : List String)
    → ((n : String) → has n names ≡ true → f n ≡ g n)
    → all f names ≡ all g names
all_same f g [] h = refl
all_same f g (x ∷ names) h =
    ground (arith, h x, ===_refl x, all_same f g names (λ n k. h n (ground arith)))

same : (v : Bool) → all (λ n. v) terminal_tool_names ≡ v
same true = refl
same false = refl

not-not : (b : Bool) → not (not b) ≡ b
not-not true = refl
not-not false = refl

fold_terminal :
    (current : List String) (t q : Option Bool)
    → all (λ n. not (has n (fold_legacy_into_disabled current t q))) terminal_tool_names
      ≡ or_else t (all (λ n. not (has n current)) terminal_tool_names)
unfolding is_terminal
fold_terminal current none q =
    all_same _ (λ n. not (has n current)) terminal_tool_names
      (λ n h. ap not (terminal_off n current none q h) ∙ not-not _)
fold_terminal current (some v) q =
    all_same _ (λ n. v) terminal_tool_names
      (λ n h. ap not (terminal_off n current (some v) q h) ∙ not-not _)
    ∙ same v

-- Folding the older switches into the list and reading them back gives what was written, and what
-- was read before where nothing was written.
pub derive_legacy-fold_legacy_into_disabled :
    (current : List String) (t q : Option Bool)
    → derive_legacy (fold_legacy_into_disabled current t q) ≡ record {
      terminal_tools_enabled = or_else t (derive_legacy current).terminal_tools_enabled;
      questionnaire_enabled = or_else q (derive_legacy current).questionnaire_enabled;
    }
unfolding derive_legacy
derive_legacy-fold_legacy_into_disabled current t q = λ i. record {
  terminal_tools_enabled = fold_terminal current t q i;
  questionnaire_enabled = (ap not (question_off current t q) ∙ not-not _) i;
}

-- An old file without the list: the list that it is read as stands for the file's switches.
pub derive_legacy-legacy_to_disabled :
    (t q : Option Bool)
    → derive_legacy (
        legacy_to_disabled (record {
          terminal_tools_enabled = t;
          questionnaire_enabled = q;
          disabled_agent_tools = none;
        }))
      ≡ record { terminal_tools_enabled = or_else t false; questionnaire_enabled = or_else q true }
unfolding derive_legacy legacy_to_disabled normalize_disabled_agent_tools normalize_from
    is_known_agent_tool
derive_legacy-legacy_to_disabled none none = refl
derive_legacy-legacy_to_disabled none (some true) = refl
derive_legacy-legacy_to_disabled none (some false) = refl
derive_legacy-legacy_to_disabled (some true) none = refl
derive_legacy-legacy_to_disabled (some true) (some true) = refl
derive_legacy-legacy_to_disabled (some true) (some false) = refl
derive_legacy-legacy_to_disabled (some false) none = refl
derive_legacy-legacy_to_disabled (some false) (some true) = refl
derive_legacy-legacy_to_disabled (some false) (some false) = refl
