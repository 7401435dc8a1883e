-- ===== src/Worktrees/Removal.antt =====
use mathlib.Core.Bool.{false≢true}
-- A removal that git is asked for is one that the rules allow.
use dispatch_web.Base.{
  ltb, ◌∙◌, filter, if◌then◌else◌, ◌++◌, Option-cases, trim, length, ap, ok, Result-cases, inl, inr,
  refl, any, find, nat_eq, string_eq, Text, codes, text_eq, text_is_eq, Result, ok, ◌≡◌, ◌⊎◌, Bool,
  true, false, ◌&&◌, some, List, [], ◌∷◌, arith, any-append,
}
use dispatch_web.Worktrees.{GitWorktree}
use dispatch_web.Worktrees.Git.{
  Platform, Command, ExecError, same_worktree_path, git_result, listed, list_args, list_worktrees,
  remove_worktree, refuse_dirty, worktree_is_dirty, git, remove_target, remove_listed,
}

-- `git worktree remove`.
abbrev pub is_removal : Command → Bool
is_removal c = elim c.args [
  | [] ↦ false
  | a ∷ more ↦
      text_eq a (codes "worktree") && elim more [ [] ↦ false | b ∷ _ ↦ text_eq b (codes "remove") ]
]

-- The command that removes the checkout `target`, run in the main one.
abbrev pub removal_of : GitWorktree → Bool → GitWorktree → Command
removal_of main force target = record {
  cwd = main.path;
  args =
      codes "worktree"
      ∷ codes "remove"
      ∷ ((if force then codes "--force" ∷ [] else []) ++ target.path ∷ []);
}

removal_of-is_removal :
    (main target : GitWorktree) (force : Bool) → is_removal (removal_of main force target) ≡ true
removal_of-is_removal main target true = refl
removal_of-is_removal main target false = refl

filter-none : (h : List Command) → any is_removal h ≡ false → filter is_removal h ≡ []
filter-none [] q = refl
filter-none (c ∷ h) q = ground (arith, q, filter-none h)

filter-last :
    (h : List Command) (c : Command)
    → any is_removal h ≡ false
    → is_removal c ≡ true
    → filter is_removal (h ++ c ∷ []) ≡ c ∷ []
filter-last [] c q k = ground (arith, k)
filter-last (b ∷ h) c q k = ground (arith, q, filter-last h c, k)

empty_of_length : (s : Text) → length s ≡ 0 → s ≡ []
empty_of_length [] h = refl
empty_of_length (c ∷ s) h = absurd (omega arith)

module _ (answer : List Command → Command → Result ExecError Text) (os : Platform) where
  abbrev pub list_command : Text → Command
  list_command path = record { cwd = path; args = list_args answer os }

  -- What `git worktree list` shows when it is the first command.
  abbrev pub listing : Text → List GitWorktree
  listing path = listed answer os (answer [] (list_command path))

  abbrev pub status_command : Text → Command
  status_command path = record {
    cwd = path;
    args = codes "status" ∷ codes "--porcelain" ∷ codes "--untracked-files=all" ∷ [];
  }
      -- The checkout that may be removed.

  pub record IsRemovable (path : Text) (force : Bool) (target : GitWorktree) : Type 0 where
    pub main : GitWorktree
    pub others : List GitWorktree
    pub is_listed : listing path ≡ main ∷ others
    pub found : find (λ w. same_worktree_path os w.path path) (main ∷ others) ≡ some target
    pub not_main : same_worktree_path os target.path main.path ≡ false
    pub unlocked : target.locked ≡ false
    pub clean :
        (force ≡ true)
        ⊎ (git_result answer os
              (status_command target.path).args
              (answer (list_command path ∷ []) (status_command target.path))
            ≡ ok [])
    pub runs :
        filter is_removal (remove_worktree answer os path force []).1
        ≡ removal_of main force target ∷ []

  dirty_run :
      (path out : Text) (h : List Command)
      → answer h (status_command path) ≡ ok out
      → trim out ≡ []
      → worktree_is_dirty answer os path h ≡ (ok false, h ++ status_command path ∷ [])
  unfolding worktree_is_dirty git
  dirty_run path out h e clean =
      rw e (ap (λ s. (ok (ltb 0 (length s)), h ++ status_command path ∷ [])) clean)

  refuse_run :
      (target : GitWorktree) (out : Text) (h : List Command)
      → answer h (status_command target.path) ≡ ok out
      → trim out ≡ []
      → refuse_dirty answer os target false h ≡ (ok tt, h ++ status_command target.path ∷ [])
  unfolding refuse_dirty
  refuse_run target out h e clean = rw (dirty_run target.path out h e clean) refl

  removal_run :
      (main target : GitWorktree) (path : Text) (h run : List Command) (force : Bool)
      → same_worktree_path os target.path main.path ≡ false
      → target.locked ≡ false
      → refuse_dirty answer os target force h ≡ (ok tt, run)
      → any is_removal run ≡ false
      → filter is_removal (remove_target answer os main path force (some target) h).1
        ≡ removal_of main force target ∷ []
  unfolding remove_target git
  removal_run main target path h run true not_main unlocked ran none_yet =
      (let last = filter-last run (removal_of main true target) none_yet refl in
        elim (Result-cases (answer run (removal_of main true target))) [
          | inl (out, e) ↦ simp (remove_target, not_main, unlocked, ran, e) last
          | inr (x, e) ↦ simp (remove_target, not_main, unlocked, ran, e) last
        ])
  removal_run main target path h run false not_main unlocked ran none_yet =
      (let last = filter-last run (removal_of main false target) none_yet refl in
        elim (Result-cases (answer run (removal_of main false target))) [
          | inl (out, e) ↦ simp (remove_target, not_main, unlocked, ran, e) last
          | inr (x, e) ↦ simp (remove_target, not_main, unlocked, ran, e) last
        ])

  -- What stands after the commands `h`: no removal among them, or one that is allowed.
  target_guarded :
      (main target : GitWorktree) (path : Text) (force : Bool) (h : List Command)
      → any is_removal h ≡ false
      → any is_removal (remove_target answer os main path force (some target) h).1 ≡ true
      → (same_worktree_path os target.path main.path ≡ false)
        × (target.locked ≡ false)
        × ((force ≡ true)
            ⊎ (git_result answer os
                  (status_command target.path).args
                  (answer h (status_command target.path))
                ≡ ok []))
        × (filter is_removal (remove_target answer os main path force (some target) h).1
            ≡ removal_of main force target ∷ [])
  unfolding remove_target refuse_dirty worktree_is_dirty git
  target_guarded main target path true h q k =
      let not_main : same_worktree_path os target.path main.path ≡ false = ground arith in
      let unlocked : target.locked ≡ false = ground arith in
      (not_main, unlocked, inl refl, removal_run main target path h h true not_main unlocked refl q)
  target_guarded main target path false h q k =
      elim (Result-cases (answer h (status_command target.path))) [
        | inl (out, e) ↦
            let more = any-append is_removal h (status_command target.path ∷ []) in
            let not_main : same_worktree_path os target.path main.path ≡ false =
              ground (arith, more) in
            let unlocked : target.locked ≡ false = ground (arith, more) in
            let clean : trim out ≡ [] = empty_of_length (trim out) (ground (arith, more)) in
            (
              not_main,
              unlocked,
              inr (rw e (ap ok clean)),
              removal_run main target path h (h ++ status_command target.path ∷ []) false not_main
                  unlocked (refuse_run target out h e clean) (more ∙ ground (arith, q)),
            )
        | inr (x, e) ↦
            absurd (ground (arith, any-append is_removal h (status_command target.path ∷ [])))
      ]

  listed_guarded :
      (path : Text) (force : Bool) (ws : List GitWorktree)
      → listing path ≡ ws
      → remove_worktree answer os path force []
        ≡ remove_listed answer os ws path force (list_command path ∷ [])
      → any is_removal (remove_listed answer os ws path force (list_command path ∷ [])).1 ≡ true
      → (target : GitWorktree) × IsRemovable path force target
  unfolding remove_listed remove_target
  listed_guarded path force [] e run h = cc
  listed_guarded path force (main ∷ others) e run h =
      elim (Option-cases (find (λ w. same_worktree_path os w.path path) (main ∷ others))) [
        | inl missing ↦ absurd (false≢true (rw (missing, remove_target) at h))
        | inr (target, found) ↦
            let (not_main, unlocked, clean, removed) =
              target_guarded main target path force (list_command path ∷ []) refl (rw found at h) in
            (
              target,
              record {
                main = main;
                others = others;
                is_listed = e;
                found = found;
                not_main = not_main;
                unlocked = unlocked;
                clean = clean;
                runs = ap (λ r. filter is_removal r.1) run ∙ rw found removed;
              },
            )
      ]

  -- If `git worktree remove` is run at all, then it is run once, in the main checkout, for the path
  -- of a target and with `--force` exactly if `force` is given. The target is a listed checkout of
  -- the given path, is not the main one, is not locked, and was clean unless `force` is given.
  pub remove_worktree-IsRemovable :
      (path : Text) (force : Bool)
      → any is_removal (remove_worktree answer os path force []).1 ≡ true
      → (target : GitWorktree) × IsRemovable path force target
  unfolding remove_worktree list_worktrees
  remove_worktree-IsRemovable path force h = listed_guarded path force (listing path) refl refl h
