-- ===== src/Worktrees.antt =====
-- server/worktrees.ts: the checkouts of a repository. This module holds the parser of
-- `git worktree list --porcelain`; `resolve` of node:path is a parameter.
pub mod Parsing
pub mod Names
pub mod Slugs
pub mod Git
pub mod Removal
pub mod Create
pub mod Creation
mod Tests
use dispatch_web.Base.{
  if◌then◌else◌, or_else, nat_eq, string_eq, Text, codes, text_eq, text_is_eq, strip_prefix,
  starts_with, split, Bool, true, false, Option, none, some, List, [], ◌∷◌, ◌++◌,
}

pub record GitWorktree : Type 0 where
  pub path : Text
  pub head : Text
  pub branch : Option Text
  pub bare : Bool
  pub locked : Bool
  pub prunable : Bool

-- A `Partial<GitWorktree>` under construction; its path is always there.
pub record Draft : Type 0 where
  pub path : Text
  pub head : Option Text
  pub branch : Option Text
  pub bare : Option Bool
  pub locked : Option Bool
  pub prunable : Option Bool

abbrev pub new_draft : Text → Draft
new_draft path = record {
  path = path;
  head = none;
  branch = none;
  bare = none;
  locked = none;
  prunable = none;
}

-- The branch name without `refs/heads/`.
unfoldable pub short_ref : Text → Text
short_ref ref = or_else (strip_prefix (codes "refs/heads/") ref) ref

-- The `else if` chain of the loop, for a line inside an entry.
unfoldable pub attribute : Text → Draft → Draft
attribute line d = elim (strip_prefix (codes "HEAD ") line) [
  | some head ↦ record d { head = some head }
  | none ↦ elim (strip_prefix (codes "branch ") line) [
    | some ref ↦ record d { branch = some (short_ref ref) }
    | none ↦
        if text_eq line (codes "detached")
        then record d { branch = none }
        else if text_eq line (codes "bare")
        then record d { bare = some true }
        else if starts_with (codes "locked") line
        then record d { locked = some true }
        else if starts_with (codes "prunable") line
        then record d { prunable = some true }
        else d
  ]
]

module _ (resolve : Text → Text) where
  unfoldable pub finish : Draft → GitWorktree
  finish d = record {
    path = resolve d.path;
    head = or_else d.head [];
    branch = d.branch;
    bare = or_else d.bare false;
    locked = or_else d.locked false;
    prunable = or_else d.prunable false;
  }

  -- `push`: an entry with an empty path is dropped.
  unfoldable pub push : List GitWorktree → Option Draft → List GitWorktree
  push items none = items
  push items (some d) = if text_eq d.path [] then items else items ++ finish d ∷ []

  unfoldable pub parse_lines : List Text → List GitWorktree → Option Draft → List GitWorktree
  parse_lines [] items current = push items current
  parse_lines (line ∷ lines) items current =
      let blank = parse_lines lines (push items current) none in
      let entry = λ (path : Text). parse_lines lines (push items current) (some (new_draft path)) in
      let inside =
        parse_lines lines items (elim current [ none ↦ none | some d ↦ some (attribute line d) ]) in
      if text_eq line []
      then blank
      else elim (strip_prefix (codes "worktree ") line) [ some path ↦ entry path | none ↦ inside ]

  unfoldable pub parse_worktrees : Text → List GitWorktree
  unfolding parse_lines
  parse_worktrees porcelain = parse_lines (split b'\n' porcelain) [] none
