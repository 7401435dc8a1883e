-- ===== src/Worktrees/Git.antt =====
-- server/worktrees.ts: the operations that run git. git is not part of the program: `answer` says
-- what it replies to a command after the commands that ran before it, which may have changed the
-- repository. An operation is a function of the commands so far; it returns its result, or the
-- `WorktreeError` that it throws, with the commands after it. Timeouts and buffer sizes are left
-- out. node:path and the platform are the parameter `os`.
use dispatch_web.Base.{
  ltb, ◌==◌, if◌then◌else◌, or_else, length, any, find, nat_eq, string_eq, Text, codes, text_eq,
  text_is_eq, strip_prefix, starts_with, trim, Result, ok, err, ℕ, Bool, true, false, ◌||◌, Option,
  none, some, List, [], ◌∷◌, ◌++◌,
}
use dispatch_web.Worktrees.{GitWorktree, parse_worktrees}
use dispatch_web.Worktrees.Names.{branch_slug}

pub record Platform : Type 0 where
  pub resolve : Text → Text
  pub join_path : List Text → Text
  pub basename : Text → Text
  pub is_windows : Bool
  pub lower_case : Text → Text

pub record Command : Type 0 where
  pub cwd : Text
  pub args : List Text

-- What `execFile` throws.
pub record ExecError : Type 0 where
  pub stderr : Text
  pub stdout : Text
  pub message : Text
  pub killed : Bool

pub record WorktreeError : Type 0 where
  pub message : Text
  pub dirty : Bool

abbrev pub M : Type 0 → Type 0
M A = List Command → Result WorktreeError A × List Command

abbrev pub after :
    {A B : Type 0}
    → Result WorktreeError A × List Command
    → (A → M B)
    → Result WorktreeError B × List Command
after (ok a, h) f = f a h
after (err e, h) f = (err e, h)

infixl 5 ◌>>=◌ ◌>>◌
abbrev pub ◌>>=◌ : {A B : Type 0} → M A → (A → M B) → M B
◌>>=◌ m f h = after (m h) f

abbrev pub ◌>>◌ : {B : Type 0} → M (Unit {0}) → M B → M B
m >> k = m >>= λ _. k

abbrev pub pure : {A : Type 0} → A → M A
pure a h = (ok a, h)

abbrev pub throw : {A : Type 0} → Text → M A
throw message h = (err (record { message = message; dirty = false }), h)

-- `try { await m } catch {}`.
abbrev pub attempt : {A : Type 0} → M A → M (Unit {0})
attempt m h = (ok tt, (m h).1)

abbrev pub text_or : Text → Text → Text
text_or s t = if text_eq s [] then t else s

abbrev pub command_name : List Text → Text
command_name [] = codes "undefined"
command_name (a ∷ _) = a

-- `head.match(/refs\/remotes\/origin\/(.+)$/)?.[1]`: the first place where the text can be read so.
abbrev pub is_line_end : ℕ → Bool
is_line_end c = c == 10 || c == 13 || c == 0x2028 || c == 0x2029

unfoldable pub match_origin : Text → Option Text
match_origin [] = none
match_origin (c ∷ s) =
    let later = match_origin s in
    elim (strip_prefix (codes "refs/remotes/origin/") (c ∷ s)) [
      | none ↦ later
      | some rest ↦ if text_eq rest [] || any is_line_end rest then later else some rest
    ]

unfoldable pub managed_worktrees_root : Platform → Text → Text
managed_worktrees_root os home = os.join_path (home ∷ codes ".pi" ∷ codes "worktrees" ∷ [])

unfoldable pub resolve_worktree_path : Platform → Text → Text → Text → Text
resolve_worktree_path os main_path branch home =
    os.join_path (managed_worktrees_root os home ∷ os.basename main_path ∷ branch_slug branch ∷ [])

unfoldable pub path_key : Platform → Text → Text
path_key os p = if os.is_windows then os.lower_case (os.resolve p) else os.resolve p

unfoldable pub is_managed_worktree : Platform → Text → Text → Bool
is_managed_worktree os path home =
    let root = path_key os (managed_worktrees_root os home) in
    let key = path_key os path in
    starts_with (root ++ 92 ∷ []) key || starts_with (root ++ b'/' ∷ []) key

unfoldable pub same_worktree_path : Platform → Text → Text → Bool
unfolding path_key
same_worktree_path os a b = text_eq (path_key os a) (path_key os b)

module _ (answer : List Command → Command → Result ExecError Text) (os : Platform) where
  -- `execFile("git", args, { cwd })`, which is one more command that has run.
  abbrev pub exec : Text → List Text → List Command → Result ExecError Text × List Command
  exec cwd args h = let c : Command = record { cwd = cwd; args = args } in (answer h c, h ++ c ∷ [])

  -- The `catch` of `git`.
  abbrev pub git_error : List Text → ExecError → WorktreeError
  git_error args e =
      let detail = trim (text_or e.stderr (text_or e.stdout e.message)) in
      record {
        message =
            if e.killed
            then codes "git " ++ command_name args ++ codes " timed out"
            else text_or detail (codes "git " ++ command_name args ++ codes " failed");
        dirty = false;
      }

  abbrev pub git_result : List Text → Result ExecError Text → Result WorktreeError Text
  git_result args (ok stdout) = ok (trim stdout)
  git_result args (err e) = err (git_error args e)

  unfoldable pub git : Text → List Text → M Text
  git cwd args h = let (r, h') = exec cwd args h in (git_result args r, h')

  abbrev pub listed : Result ExecError Text → List GitWorktree
  listed (ok stdout) = parse_worktrees os.resolve stdout
  listed (err e) = []

  abbrev pub list_args : List Text
  list_args = codes "worktree" ∷ codes "list" ∷ codes "--porcelain" ∷ []

  unfoldable pub list_worktrees : Text → M (List GitWorktree)
  list_worktrees dir h = let (r, h') = exec dir list_args h in (ok (listed r), h')

  abbrev pub is_ok : Result WorktreeError Text → Bool
  is_ok (ok t) = true
  is_ok (err e) = false

  unfoldable pub ref_exists : Text → Text → M Bool
  ref_exists cwd ref h =
      let (r, h') = git cwd (codes "show-ref" ∷ codes "--verify" ∷ codes "--quiet" ∷ ref ∷ []) h in
      (ok (is_ok r), h')

  abbrev pub origin_head : Result WorktreeError Text → Option Text
  origin_head (ok head) = match_origin head
  origin_head (err e) = none

  unfoldable pub try_candidates : Text → List Text → M Text
  try_candidates cwd [] h = (ok (codes "main"), h)
  try_candidates cwd (candidate ∷ more) h =
      let rest = try_candidates cwd more in
      after (ref_exists cwd (codes "refs/heads/" ++ candidate) h) λ local.
        if local then pure candidate else λ h'.
        after (ref_exists cwd (codes "refs/remotes/origin/" ++ candidate) h')
          λ remote. if remote then pure candidate else rest

  unfoldable pub detect_default_branch : Text → M Text
  unfolding try_candidates
  detect_default_branch cwd h =
      let (r, h') = git cwd (codes "symbolic-ref" ∷ codes "refs/remotes/origin/HEAD" ∷ []) h in
      elim (origin_head r) [
        | some name ↦ (ok name, h')
        | none ↦ try_candidates cwd (codes "main" ∷ codes "master" ∷ []) h'
      ]

  unfoldable pub worktree_is_dirty : Text → M Bool
  worktree_is_dirty path = do
    out ← git path (codes "status" ∷ codes "--porcelain" ∷ codes "--untracked-files=all" ∷ [])
    pure (ltb 0 (length out))

  abbrev pub remove_args : Bool → Text → List Text
  remove_args force path =
      if force
      then codes "worktree" ∷ codes "remove" ∷ codes "--force" ∷ path ∷ []
      else codes "worktree" ∷ codes "remove" ∷ path ∷ []

  -- `if (!force && (await worktreeIsDirty(…))) throw …`.
  unfoldable pub refuse_dirty : GitWorktree → Bool → M (Unit {0})
  refuse_dirty target true = pure tt
  refuse_dirty target false = do
    dirty ← worktree_is_dirty target.path
    if dirty
        then (λ h. (
          err (record {
            message = or_else target.branch target.path ++ codes " has uncommitted changes";
            dirty = true;
          }),
          h,
        ))
        else pure tt

  unfoldable pub remove_target : GitWorktree → Text → Bool → Option GitWorktree → M GitWorktree
  remove_target main path force none = throw (path ++ codes " is not a worktree of this repository")
  remove_target main path force (some target) =
      if same_worktree_path os target.path main.path
      then throw (codes "Refusing to remove the main checkout")
      else if target.locked
      then throw (codes "Worktree is locked: " ++ target.path)
      else do
        refuse_dirty target force
        _ ← git main.path (remove_args force target.path)
        pure target

  unfoldable pub remove_listed : List GitWorktree → Text → Bool → M GitWorktree
  remove_listed [] path force = throw (codes "Not inside a git repository")
  remove_listed (main ∷ others) path force =
      remove_target main path force (find (λ w. same_worktree_path os w.path path) (main ∷ others))

  unfoldable pub remove_worktree : Text → Bool → M GitWorktree
  remove_worktree path force = do
    worktrees ← list_worktrees path
    remove_listed worktrees path force
