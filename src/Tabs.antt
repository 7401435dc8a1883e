-- ===== src/Tabs.antt =====
-- server/tabs.ts: which tabs an instance offers and which messages it answers.
-- `toLowerCase` is the parameter `to_lower_case`; a set is a list in insertion order.
pub mod Listed
mod Tests
use dispatch_web.Base.{
  ◌==◌, if◌then◌else◌, or_else, length, nat_eq, string_eq, has, add, Text, codes, text_eq,
  text_is_eq, split, trim, Bool, true, not, Option, none, some, List, [], ◌∷◌,
}

abbrev pub owned : List (Text × List Text)
owned =
    (
      codes "terminal",
      codes "terminal_create"
          ∷ codes "terminal_input"
          ∷ codes "terminal_resize"
          ∷ codes "terminal_kill"
          ∷ codes "rename_terminal"
          ∷ codes "run_command"
          ∷ [],
    )
    ∷ (
      codes "git",
      codes "scm_status" ∷ codes "scm_history" ∷ codes "scm_filediff" ∷ codes "scm_commit" ∷ [],
    )
    ∷ (
      codes "tasks",
      codes "list_bg_servers"
          ∷ codes "kill_background_server"
          ∷ codes "kill_background_servers"
          ∷ [],
    )
    ∷ (codes "search", codes "search_files" ∷ codes "search_sessions" ∷ [])
    ∷ []

abbrev pub chat : Text
chat = codes "chat"

-- `new Set(names)`, on top of `tabs`.
abbrev pub set_of : List Text → List Text → List Text
set_of [] tabs = tabs
set_of (t ∷ names) tabs = set_of names (add t tabs)

module _ (to_lower_case : Text → Text) where
  unfoldable pub names_of : List Text → List Text
  names_of [] = []
  names_of (part ∷ parts) =
      let rest = names_of parts in
      let name = to_lower_case (trim part) in if text_eq name [] then rest else name ∷ rest

  unfoldable pub parse_tabs : Option Text → Option (List Text)
  parse_tabs env =
      let raw = trim (or_else env []) in
      let tabs = set_of (names_of (split b',' raw)) [] in
      if text_eq raw [] then none else if length tabs == 0 then none else some (add chat tabs)

  unfoldable pub is_tab_allowed : Text → Option (List Text) → Bool
  is_tab_allowed tab none = true
  is_tab_allowed tab (some tabs) = if text_eq tab chat then true else has (to_lower_case tab) tabs

  -- The loop over the entries of `OWNED`; the answer is the tab that is named in the refusal.
  unfoldable pub refusal_from : List (Text × List Text) → Text → List Text → Option Text
  refusal_from [] type tabs = none
  refusal_from ((tab, messages) ∷ entries) type tabs =
      let rest = refusal_from entries type tabs in
      if not (has type messages)
      then rest
      else if is_tab_allowed tab (some tabs)
      then none
      else some tab

  unfoldable pub tabs_refusal : Text → Option (List Text) → Option Text
  tabs_refusal type none = none
  tabs_refusal type (some tabs) = refusal_from owned type tabs
