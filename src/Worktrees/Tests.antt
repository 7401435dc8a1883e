-- ===== src/Worktrees/Tests.antt =====
-- Worktrees at concrete inputs.
use dispatch_web.Base.{
  if◌then◌else◌, nat_eq, string_eq, Text, codes, text_eq, text_is_eq, join, trim_start, trim_end,
  trim, Result, ok, err, ◌≡◌, refl, true, false, Option, some, List, [], ◌∷◌, arith, none,
}
use dispatch_web.Worktrees.{GitWorktree, short_ref, attribute, finish, push, parse_worktrees}
use dispatch_web.Worktrees.Parsing.{
  Reasons, attribute_lines, entry_lines, write_lines, all_lines, write_worktrees,
  parse_worktrees-write_worktrees,
}
use dispatch_web.Worktrees.Names.{is_windows_reserved_name, slug_of, branch_slug, valid_branch_name}
use dispatch_web.Worktrees.Slugs.{IsDirectoryName, branch_slug-IsDirectoryName}
use dispatch_web.Worktrees.Git.{
  Platform, Command, ExecError, match_origin, managed_worktrees_root, resolve_worktree_path,
  same_worktree_path, git, list_worktrees, ref_exists, detect_default_branch, worktree_is_dirty,
  refuse_dirty, remove_target, remove_listed, remove_worktree,
}
use dispatch_web.Worktrees.Removal.{IsRemovable, remove_worktree-IsRemovable}
use dispatch_web.Worktrees.Create.{
  find_refs, find_start, add_checkout, create_at, create_listed, create_worktree,
}
use dispatch_web.Worktrees.Creation.{
  IsFree, create_worktree-IsFree, IsCreated, create_worktree-IsCreated,
}

abbrev checkout : Text → Option Text → GitWorktree
checkout path branch = record {
  path = path;
  head = codes "abc";
  branch = branch;
  bare = false;
  locked = false;
  prunable = false;
}

abbrev two_checkouts : List GitWorktree
two_checkouts =
    checkout (codes "/r") (some (codes "main")) ∷ checkout (codes "/w") (some (codes "dev")) ∷ []

-- The second checkout is locked for a reason, and can be pruned.
abbrev locked_checkouts : List GitWorktree
locked_checkouts =
    checkout (codes "/r") (some (codes "main"))
    ∷ record (checkout (codes "/w") (some (codes "dev"))) { locked = true; prunable = true }
    ∷ []

abbrev on_usb : GitWorktree → Reasons
on_usb w = record { locked = some (codes "on usb"); prunable = none }

abbrev no_reason : GitWorktree → Reasons
no_reason w = record { locked = none; prunable = none }

abbrev same : Text → Text
same p = p

parse_worktrees-write_worktrees_example :
    parse_worktrees same (write_worktrees on_usb locked_checkouts) ≡ locked_checkouts
parse_worktrees-write_worktrees_example =
    parse_worktrees-write_worktrees same on_usb locked_checkouts (
      record {
        nonempty = λ h. cc;
        normal = refl;
        path_line = omega arith;
        head_line = omega arith;
        branch_line = omega arith;
        locked_line = omega arith;
        prunable_line = omega arith;
      },
      (
        record {
          nonempty = λ h. cc;
          normal = refl;
          path_line = omega arith;
          head_line = omega arith;
          branch_line = omega arith;
          locked_line = omega arith;
          prunable_line = omega arith;
        },
        tt,
      ),
    )

branch_slug-IsDirectoryName_example : IsDirectoryName (branch_slug (codes "refs/heads/feat/Login~"))
branch_slug-IsDirectoryName_example = branch_slug-IsDirectoryName (codes "refs/heads/feat/Login~")

abbrev unix : Platform
unix = record {
  resolve = same;
  join_path = λ parts. join (codes "/") parts;
  basename = same;
  is_windows = false;
  lower_case = same;
}

-- A repository with two clean checkouts and no other branch.
abbrev replies : List Command → Command → Result ExecError Text
replies h c = elim c.args [
  | [] ↦ ok []
  | a ∷ more ↦
      if text_eq a (codes "show-ref")
      then err (record { stderr = []; stdout = []; message = []; killed = false })
      else if text_eq a (codes "status")
      then ok []
      else ok (write_worktrees no_reason two_checkouts)
]

removed :
    (remove_worktree replies unix (codes "/w") false []).0
    ≡ ok (checkout (codes "/w") (some (codes "dev")))
unfolding remove_worktree list_worktrees parse_worktrees remove_listed remove_target refuse_dirty
    worktree_is_dirty git same_worktree_path write_lines all_lines entry_lines attribute_lines push
    finish attribute short_ref trim trim_end trim_start
removed = refl

remove_worktree-IsRemovable_example :
    (target : GitWorktree) × IsRemovable replies unix (codes "/w") false target
unfolding remove_worktree list_worktrees parse_worktrees remove_listed remove_target refuse_dirty
    worktree_is_dirty git same_worktree_path write_lines all_lines entry_lines attribute_lines push
    finish attribute short_ref trim trim_end trim_start
remove_worktree-IsRemovable_example =
    remove_worktree-IsRemovable replies unix (codes "/w") false refl

create_worktree-IsFree_example : IsFree replies unix (codes "/r") (codes "fix") (codes "/h")
unfolding create_worktree create_listed create_at find_refs find_start add_checkout ref_exists
    detect_default_branch list_worktrees parse_worktrees git same_worktree_path write_lines
    all_lines entry_lines attribute_lines push finish attribute short_ref resolve_worktree_path
    managed_worktrees_root branch_slug slug_of is_windows_reserved_name valid_branch_name
    match_origin trim trim_end trim_start
create_worktree-IsFree_example =
    create_worktree-IsFree replies unix (codes "/r") (codes "fix") (codes "/h") refl

create_worktree-IsCreated_example :
    IsCreated replies unix
      (codes "/r")
      (codes "dev")
      (codes "/h")
      (record { path = codes "/w"; branch = codes "dev"; existed = true })
      (create_worktree replies unix (codes "/r") (codes "dev") (codes "/h") []).1
unfolding create_worktree create_listed create_at list_worktrees parse_worktrees same_worktree_path
    write_lines all_lines entry_lines attribute_lines push finish attribute short_ref
    valid_branch_name
create_worktree-IsCreated_example =
    create_worktree-IsCreated replies unix (codes "/r") (codes "dev") (codes "/h")
      (record { path = codes "/w"; branch = codes "dev"; existed = true }) refl
