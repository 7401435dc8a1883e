-- ===== src/Worktrees/Create.antt =====
-- server/worktrees.ts: `createWorktree`, over the operations of Worktrees/Git.
use dispatch_web.Base.{
  if◌then◌else◌, or_else, find, nat_eq, string_eq, Text, codes, text_eq, text_is_eq, Result, Bool,
  true, false, not, Option, none, some, List, [], ◌∷◌, ◌++◌,
}
use dispatch_web.Worktrees.{GitWorktree}
use dispatch_web.Worktrees.Git.{
  ◌>>=◌, ◌>>◌, Platform, Command, ExecError, M, pure, throw, attempt, resolve_worktree_path,
  same_worktree_path, git, list_worktrees, ref_exists, detect_default_branch,
}
use dispatch_web.Worktrees.Names.{valid_branch_name}

pub record CreatedWorktree : Type 0 where
  pub path : Text
  pub branch : Text
  pub existed : Bool

-- `w.branch === branch`.
abbrev pub is_on : Text → GitWorktree → Bool
is_on branch w = elim w.branch [ none ↦ false | some b ↦ text_eq b branch ]

module _ (answer : List Command → Command → Result ExecError Text) (os : Platform) where
  abbrev pub add_args : List Text → List Text
  add_args more = codes "worktree" ∷ codes "add" ∷ more

  -- A local branch is looked for again after a fetch, since it may exist only upstream.
  unfoldable pub find_refs : Text → Text → M (Bool × Bool)
  find_refs main branch = do
    local ← ref_exists answer os main (codes "refs/heads/" ++ branch)
    remote ← ref_exists answer os main (codes "refs/remotes/origin/" ++ branch)
    if local then pure (local, remote) else (do
      attempt (git answer os main (codes "fetch" ∷ codes "origin" ∷ branch ∷ []))
      local' ← ref_exists answer os main (codes "refs/heads/" ++ branch)
      remote' ← ref_exists answer os main (codes "refs/remotes/origin/" ++ branch)
      pure (local', remote'))

  -- Where a new branch starts.
  unfoldable pub find_start : Text → M Text
  find_start main = do
    base ← detect_default_branch answer os main
    tracked ← ref_exists answer os main (codes "refs/remotes/origin/" ++ base)
    if tracked
        then (do
          attempt (git answer os main (codes "fetch" ∷ codes "origin" ∷ base ∷ []))
          pure (codes "origin/" ++ base))
        else pure base

  unfoldable pub add_checkout : Text → Text → Text → Bool × Bool → M Text
  add_checkout main path branch (true, remote) = git answer os main (add_args (path ∷ branch ∷ []))
  add_checkout main path branch (false, true) =
      git answer os main
        (add_args (codes "--track" ∷ codes "-b" ∷ branch ∷ path ∷ (codes "origin/" ++ branch) ∷ []))
  add_checkout main path branch (false, false) = do
    start ← find_start main
    git answer os main (add_args (codes "--no-track" ∷ codes "-b" ∷ branch ∷ path ∷ start ∷ []))

  unfoldable pub create_at : Text → Text → Text → Option GitWorktree → M CreatedWorktree
  create_at main path branch (some taken) = throw (
      path
      ++ codes " is already used by the worktree for "
      ++ or_else taken.branch (codes "a detached HEAD"))
  create_at main path branch none = do
    refs ← find_refs main branch
    _ ← add_checkout main path branch refs
    pure (record { path = path; branch = branch; existed = false })

  unfoldable pub create_listed : List GitWorktree → Text → Text → M CreatedWorktree
  create_listed [] branch home = throw (codes "Not inside a git repository")
  create_listed (main ∷ others) branch home =
      let path = resolve_worktree_path os main.path branch home in
      elim (find (is_on branch) (main ∷ others)) [
        | some existing ↦ pure (record { path = existing.path; branch = branch; existed = true })
        | none ↦
            create_at main.path path branch
              (find (λ w. same_worktree_path os w.path path) (main ∷ others))
      ]

  unfoldable pub create_worktree : Text → Text → Text → M CreatedWorktree
  create_worktree dir branch home =
      if not (valid_branch_name branch)
      then throw (b'"' ∷ branch ++ codes "\" is not a valid branch name")
      else do worktrees ← list_worktrees answer os dir; create_listed worktrees branch home
