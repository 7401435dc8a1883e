-- ===== src/Worktrees/Creation.antt =====
use mathlib.Core.Bool.{false≢true}
-- When a checkout is added, and where.
use dispatch_web.Base.{
  ◌++◌, Bool-cases, Option-cases, get_last?, any, find, get_last?-append, nat_eq, string_eq, has,
  Text, codes, text_eq, text_is_eq, Result, ok, ◌≡◌, refl, inl, inr, Bool, true, false, ◌&&◌, none,
  some, List, [], ◌∷◌, err, arith, has_middle, Option, ap,
}
use dispatch_web.Worktrees.{GitWorktree}
use dispatch_web.Worktrees.Git.{
  Platform, Command, ExecError, resolve_worktree_path, same_worktree_path, git, list_worktrees,
  WorktreeError, after, pure, M,
}
use dispatch_web.Worktrees.Create.{
  is_on, add_checkout, create_at, create_listed, create_worktree, add_args, find_start,
  CreatedWorktree, find_refs,
}
use dispatch_web.Worktrees.Names.{valid_branch_name}
use dispatch_web.Worktrees.Removal.{listing, list_command}

-- `git worktree add`, and one that names the path and the branch.
abbrev pub is_add : Command → Bool
is_add c = elim c.args [
  | [] ↦ false
  | a ∷ more ↦
      text_eq a (codes "worktree") && elim more [ [] ↦ false | b ∷ _ ↦ text_eq b (codes "add") ]
]

abbrev pub adds : Text → Text → Command → Bool
adds path branch c = is_add c && (has path c.args && has branch c.args)

both : {a b : Bool} → a ≡ true → b ≡ true → (a && b) ≡ true
both p q = ground arith

-- The arguments that create a branch hold the branch and the path.
named :
    (path branch flag start : Text)
    → (has path (codes "worktree" ∷ codes "add" ∷ flag ∷ codes "-b" ∷ branch ∷ path ∷ start ∷ [])
        && has branch
            (codes "worktree" ∷ codes "add" ∷ flag ∷ codes "-b" ∷ branch ∷ path ∷ start ∷ []))
      ≡ true
named path branch flag start =
    both
      (has_middle path (codes "worktree" ∷ codes "add" ∷ flag ∷ codes "-b" ∷ branch ∷ [])
        (start ∷ []))
      (has_middle branch (codes "worktree" ∷ codes "add" ∷ flag ∷ codes "-b" ∷ [])
        (path ∷ start ∷ []))

module _ (answer : List Command → Command → Result ExecError Text) (os : Platform) where
  -- The repository has no checkout of the branch and none at its managed path.
  pub record IsFree (dir branch home : Text) : Type 0 where
    pub valid : valid_branch_name branch ≡ true
    pub main : GitWorktree
    pub others : List GitWorktree
    pub is_listed : listing answer os dir ≡ main ∷ others
    pub no_checkout : find (is_on branch) (main ∷ others) ≡ none
    pub no_path :
        find
          (λ w. same_worktree_path os w.path (resolve_worktree_path os main.path branch home))
          (main ∷ others)
        ≡ none

  listed-IsFree :
      (dir branch home : Text) (ws : List GitWorktree)
      → valid_branch_name branch ≡ true
      → listing answer os dir ≡ ws
      → any is_add (create_listed answer os ws branch home (list_command answer os dir ∷ [])).1
        ≡ true
      → IsFree dir branch home
  unfolding create_listed create_at
  listed-IsFree dir branch home [] v e h = cc
  listed-IsFree dir branch home (main ∷ others) v e h =
      elim (Option-cases (find (is_on branch) (main ∷ others))) [
        | inr (w, found) ↦ absurd (false≢true (rw (found, create_listed) at h))
        | inl free ↦
            let path = resolve_worktree_path os main.path branch home in
            elim (Option-cases (find (λ w. same_worktree_path os w.path path) (main ∷ others))) [
              | inr (w, taken) ↦
                  absurd (false≢true (rw (free, taken, create_listed, create_at) at h))
              | inl untaken ↦ record {
                valid = v;
                main = main;
                others = others;
                is_listed = e;
                no_checkout = free;
                no_path = untaken;
              }
            ]
      ]

  -- `git worktree add` is run only for a valid branch name, in a repository that has no checkout of
  -- the branch and no checkout at the branch's managed path.
  pub create_worktree-IsFree :
      (dir branch home : Text)
      → any is_add (create_worktree answer os dir branch home []).1 ≡ true
      → IsFree dir branch home
  unfolding create_worktree list_worktrees
  create_worktree-IsFree dir branch home h = elim (Bool-cases (valid_branch_name branch)) [
    | inl v ↦ listed-IsFree dir branch home (listing answer os dir) v refl (rw v at h)
    | inr v ↦ absurd (false≢true (rw v at h))
  ]

  add_last :
      (main path branch : Text) (refs : Bool × Bool) (h : List Command) (out : Text)
      → (add_checkout answer os main path branch refs h).0 ≡ ok out
      → (c : Command) × (get_last? (add_checkout answer os main path branch refs h).1 ≡ some c)
        × (adds path branch c ≡ true)
  unfolding add_checkout git
  add_last main path branch (true, remote) h out e = (
    _,
    get_last?-append h _,
    both (has_middle path (codes "worktree" ∷ codes "add" ∷ []) (branch ∷ []))
        (has_middle branch (codes "worktree" ∷ codes "add" ∷ path ∷ []) []),
  )
  add_last main path branch (false, true) h out e =
      (_, get_last?-append h _, named path branch (codes "--track") (codes "origin/" ++ branch))
  add_last main path branch (false, false) h out e = new_branch (find_start answer os main h) e
    where
      start_args : Text → List Text
      start_args start =
          add_args answer os (codes "--no-track" ∷ codes "-b" ∷ branch ∷ path ∷ start ∷ [])

      new_branch :
          (p : Result WorktreeError Text × List Command)
          → (after p (λ start. git answer os main (start_args start))).0 ≡ ok out
          → (c : Command) × (get_last? (after p (λ start. git answer os main (start_args start))).1
              ≡ some c)
            × (adds path branch c ≡ true)
      new_branch (ok start, h') e' =
          (_, get_last?-append h' _, named path branch (codes "--no-track") start)
      new_branch (err x, h') e' = cc

  -- The checkout that a successful call returns: an old one of the branch, or a new one.
  pub record IsCreated (dir branch home : Text) (r : CreatedWorktree) (log : List Command)
      : Type 0 where
    pub named : r.branch ≡ branch
    pub old :
        r.existed ≡ true
        → (w : GitWorktree) × (find (is_on branch) (listing answer os dir) ≡ some w)
          × (r.path ≡ w.path)
          × (log ≡ list_command answer os dir ∷ [])
    pub new :
        r.existed ≡ false
        → (main : GitWorktree) × (others : List GitWorktree) × (listing answer os dir
            ≡ main ∷ others)
          × (r.path ≡ resolve_worktree_path os main.path branch home)
          × ((c : Command) × (get_last? log ≡ some c) × (adds r.path branch c ≡ true))

  created_at :
      (main path branch : Text) (h : List Command) (taken : Option GitWorktree)
      (r : CreatedWorktree)
      → (create_at answer os main path branch taken h).0 ≡ ok r
      → (r ≡ record { path = path; branch = branch; existed = false })
        × ((c : Command) × (get_last? (create_at answer os main path branch taken h).1 ≡ some c)
            × (adds path branch c ≡ true))
  unfolding create_at
  created_at main path branch h (some w) r e = cc
  created_at main path branch h none r e = refs_found (find_refs answer os main branch h) e
    where
      made : CreatedWorktree
      made = record { path = path; branch = branch; existed = false }

      added :
          (refs : Bool × Bool) (h' : List Command) (p : Result WorktreeError Text × List Command)
          → add_checkout answer os main path branch refs h' ≡ p
          → (after p (λ _. pure made)).0 ≡ ok r
          → (r ≡ made)
            × ((c : Command) × (get_last? (after p (λ _. pure made)).1 ≡ some c)
                × (adds path branch c ≡ true))
      added refs h' (ok out, h'') q k =
          (cc, rw (ap (λ x. x.1) q) at (add_last main path branch refs h' out (ap (λ x. x.0) q)))
      added refs h' (err x, h'') q k = cc

      refs_found :
          (p : Result WorktreeError (Bool × Bool) × List Command)
          → (after p (λ refs h'.
              after (add_checkout answer os main path branch refs h') (λ _. pure made))).0
            ≡ ok r
          → (r ≡ made)
            × ((c : Command) × (get_last?
                    (after p (λ refs h'.
                      after (add_checkout answer os main path branch refs h') (λ _. pure made))).1
                  ≡ some c)
                × (adds path branch c ≡ true))
      refs_found (ok refs, h') k =
          added refs h' (add_checkout answer os main path branch refs h') refl k
      refs_found (err x, h') k = cc

  listed-IsCreated :
      (dir branch home : Text) (ws : List GitWorktree) (r : CreatedWorktree)
      → listing answer os dir ≡ ws
      → (create_listed answer os ws branch home (list_command answer os dir ∷ [])).0 ≡ ok r
      → IsCreated dir branch home r
          (create_listed answer os ws branch home (list_command answer os dir ∷ [])).1
  unfolding create_listed
  listed-IsCreated dir branch home [] r q e = cc
  listed-IsCreated dir branch home (main ∷ others) r q e =
      chosen (find (is_on branch) (main ∷ others)) refl e
    where
      path : Text
      path = resolve_worktree_path os main.path branch home

      call : Option GitWorktree → Result WorktreeError CreatedWorktree × List Command
      call o =
          let f : M CreatedWorktree = elim o [
            | some existing ↦
                pure (record { path = existing.path; branch = branch; existed = true })
            | none ↦
                create_at answer os main.path path branch
                  (find (λ w. same_worktree_path os w.path path) (main ∷ others))
          ] in
          f (list_command answer os dir ∷ [])

      chosen :
          (o : Option GitWorktree)
          → find (is_on branch) (main ∷ others) ≡ o
          → (call o).0 ≡ ok r
          → IsCreated dir branch home r (call o).1
      chosen (some w) f k = record { named = cc; old = λ x. (w, rw q f, cc, refl); new = λ x. cc }
      chosen none f k =
          let (same, added) =
            created_at main.path path branch (list_command answer os dir ∷ [])
              (find (λ w. same_worktree_path os w.path path) (main ∷ others)) r k in
          record {
            named = cc;
            old = λ x. cc;
            new = λ x. (main, others, q, cc, (added.0, added.1, rw same added.2));
          }

  -- A call that succeeds returns the branch that was asked for. If the checkout existed, it is the
  -- first listed one of the branch and only the listing was run; if not, its path is the managed path
  -- of the branch, and the last command is a `git worktree add` with that path and the branch.
  pub create_worktree-IsCreated :
      (dir branch home : Text) (r : CreatedWorktree)
      → (create_worktree answer os dir branch home []).0 ≡ ok r
      → IsCreated dir branch home r (create_worktree answer os dir branch home []).1
  unfolding create_worktree list_worktrees
  create_worktree-IsCreated dir branch home r e = elim (Bool-cases (valid_branch_name branch)) [
    | inl v ↦
        rw (v, create_worktree)
          (listed-IsCreated dir branch home (listing answer os dir) r refl
            (rw (v, create_worktree) at e))
    | inr v ↦ absurd (refused (rw (v, create_worktree) at e))
  ]
    where
      refused :
          {x : WorktreeError} → ◌≡◌ {A = Result WorktreeError CreatedWorktree} (err x) (ok r) → ⊥
      refused p = cc
