-- ===== src/Worktrees/Parsing.antt =====
use mathlib.Core.List.{append-nil, append_assoc}
-- The parser reads back what git documents that it writes.
use dispatch_web.Base.{
  if◌then◌else◌, or_else, All, All-append, nat_eq, string_eq, Text, codes, text_eq, text_eq_iff,
  text_is_eq, strip_prefix, split, Lacks, split-append, ◌≡◌, refl, sym, ap, ◌∙◌, ◌≢◌, Bool, true,
  false, not, Option, none, some, List, [], ◌∷◌, ◌++◌, arith,
}
use dispatch_web.Worktrees.{
  GitWorktree, Draft, new_draft, short_ref, attribute, finish, push, parse_lines, parse_worktrees,
}

abbrev when : Bool → List Text → List Text
when b ls = if b then ls else []

-- Why a checkout is locked and why it can be pruned, where git knows a reason.
pub record Reasons : Type 0 where
  pub locked : Option Text
  pub prunable : Option Text

-- What follows the word: nothing, or the reason after a space.
abbrev pub reason_text : Option Text → Text
reason_text none = []
reason_text (some reason) = b' ' ∷ reason

-- The lines that git writes for a checkout below its path: HEAD unless there is none, the branch,
-- or that HEAD is detached, and what else holds of it, with the reasons.
unfoldable pub attribute_lines :
    (no_head : Bool) (head : Text) (branch : Option Text) (bare locked prunable : Bool)
    (lock prune : Text)
    → List Text
attribute_lines no_head head branch bare locked prunable lock prune =
    when bare (codes "bare" ∷ [])
    ++ (when (not no_head) ((codes "HEAD " ++ head) ∷ [])
        ++ (elim branch [
          | some b ↦ (codes "branch refs/heads/" ++ b) ∷ []
          | none ↦ when (not bare) (codes "detached" ∷ [])
        ]
            ++ (when locked ((codes "locked" ++ lock) ∷ [])
                ++ when prunable ((codes "prunable" ++ prune) ∷ []))))

unfoldable pub entry_lines : (GitWorktree → Reasons) → GitWorktree → List Text
entry_lines why w =
    (codes "worktree " ++ w.path)
    ∷ attribute_lines (text_eq w.head []) w.head w.branch w.bare w.locked w.prunable
        (reason_text (why w).locked) (reason_text (why w).prunable)

unfoldable pub write_lines : List Text → Text
write_lines [] = []
write_lines (l ∷ ls) = l ++ b'\n' ∷ write_lines ls

unfoldable pub all_lines : (GitWorktree → Reasons) → List GitWorktree → List Text
all_lines why [] = []
all_lines why (w ∷ ws) = entry_lines why w ++ ([] ∷ all_lines why ws)

-- `git worktree list --porcelain`: each line ends in a newline, each entry in an empty line.
abbrev pub write_worktrees : (GitWorktree → Reasons) → List GitWorktree → Text
write_worktrees why ws = write_lines (all_lines why ws)

-- A checkout that git can list: an absolute, normalised path, no newline in a field or a reason.
pub record IsListed (resolve : Text → Text) (why : GitWorktree → Reasons) (w : GitWorktree)
    : Type 0 where
  pub nonempty : w.path ≢ []
  pub normal : resolve w.path ≡ w.path
  pub path_line : Lacks b'\n' w.path
  pub head_line : Lacks b'\n' w.head
  pub branch_line : Lacks b'\n' (or_else w.branch [])
  pub locked_line : Lacks b'\n' (or_else (why w).locked [])
  pub prunable_line : Lacks b'\n' (or_else (why w).prunable [])

split-write_lines :
    (ls : List Text) → All (Lacks b'\n') ls → split b'\n' (write_lines ls) ≡ ls ++ [] ∷ []
unfolding write_lines
split-write_lines [] h = refl
split-write_lines (l ∷ ls) h =
    split-append b'\n' l (write_lines ls) h.0 ∙ ap (◌∷◌ l) (split-write_lines ls h.1)

attributes : List Text → Draft → Draft
attributes [] d = d
attributes (l ∷ ls) d = attributes ls (attribute l d)

-- A line that neither ends an entry nor begins one.
abbrev IsInner : Text → Type 0
IsInner l = (text_eq l [] ≡ false) × (strip_prefix (codes "worktree ") l ≡ none)

flag : Bool → Option Bool
flag b = if b then some true else none

attributes_read :
    (path head : Text) (no_head : Bool) (branch : Option Text) (bare locked prunable : Bool)
    (lock prune : Text)
    → attributes
        (attribute_lines no_head head branch bare locked prunable lock prune)
        (new_draft path)
      ≡ record {
        path = path;
        head = if no_head then none else some head;
        branch = branch;
        bare = flag bare;
        locked = flag locked;
        prunable = flag prunable;
      }
unfolding attributes attribute_lines attribute short_ref flag
attributes_read path head no_head none bare locked prunable lock prune = ground arith
attributes_read path head no_head (some b) bare locked prunable lock prune = ground arith

lines-IsInner :
    (head : Text) (no_head : Bool) (branch : Option Text) (bare locked prunable : Bool)
    (lock prune : Text)
    → All IsInner (attribute_lines no_head head branch bare locked prunable lock prune)
unfolding attribute_lines
lines-IsInner head no_head none bare locked prunable lock prune = ground arith
lines-IsInner head no_head (some b) bare locked prunable lock prune = ground arith

attribute_lines-Lacks :
    (head : Text) (no_head : Bool) (branch : Option Text) (bare locked prunable : Bool)
    (lock prune : Text)
    → Lacks b'\n' head
    → Lacks b'\n' (or_else branch [])
    → Lacks b'\n' lock
    → Lacks b'\n' prune
    → All (Lacks b'\n') (attribute_lines no_head head branch bare locked prunable lock prune)
unfolding attribute_lines
attribute_lines-Lacks head no_head none bare locked prunable lock prune h k l m = ground arith
attribute_lines-Lacks head no_head (some b) bare locked prunable lock prune h k l m = ground arith

reason_text-Lacks :
    (reason : Option Text) → Lacks b'\n' (or_else reason []) → Lacks b'\n' (reason_text reason)
reason_text-Lacks none h = tt
reason_text-Lacks (some reason) h = ground (arith, h)

codes-Lacks : (path : Text) → Lacks b'\n' path → Lacks b'\n' (codes "worktree " ++ path)
codes-Lacks path h = ground arith

module _ (resolve : Text → Text) (why : GitWorktree → Reasons) where
  inner_lines :
      (ls rest : List Text) (items : List GitWorktree) (d : Draft)
      → All IsInner ls
      → parse_lines resolve (ls ++ rest) items (some d)
        ≡ parse_lines resolve rest items (some (attributes ls d))
  unfolding parse_lines attributes
  inner_lines [] rest items d h = refl
  inner_lines (l ∷ ls) rest items d ((p, q), h) =
      rw (p, q) (inner_lines ls rest items (attribute l d) h)

  entry_draft : GitWorktree → Draft
  entry_draft w = record {
    path = w.path;
    head = if text_eq w.head [] then none else some w.head;
    branch = w.branch;
    bare = flag w.bare;
    locked = flag w.locked;
    prunable = flag w.prunable;
  }

  entry_parses :
      (w : GitWorktree) (rest : List Text) (items : List GitWorktree)
      → parse_lines resolve (entry_lines why w ++ rest) items none
        ≡ parse_lines resolve rest items (some (entry_draft w))
  unfolding parse_lines entry_lines entry_draft push
  entry_parses w rest items =
      inner_lines
        (attribute_lines (text_eq w.head []) w.head w.branch w.bare w.locked w.prunable
          (reason_text (why w).locked) (reason_text (why w).prunable))
        rest items (new_draft w.path)
        (lines-IsInner w.head (text_eq w.head []) w.branch w.bare w.locked w.prunable
          (reason_text (why w).locked) (reason_text (why w).prunable))
      ∙ ap (λ d. parse_lines resolve rest items (some d))
          (attributes_read w.path w.head (text_eq w.head []) w.branch w.bare w.locked w.prunable
            (reason_text (why w).locked) (reason_text (why w).prunable))

  finish_entry : (w : GitWorktree) → resolve w.path ≡ w.path → finish resolve (entry_draft w) ≡ w
  unfolding finish entry_draft flag
  finish_entry w h = ground (arith, text_eq_iff w.head [])

  entry_path : (w : GitWorktree) → w.path ≢ [] → text_eq (entry_draft w).path [] ≡ false
  unfolding entry_draft
  entry_path w h = ground (arith, text_eq_iff w.path [])

  push_entry :
      (w : GitWorktree) (items : List GitWorktree)
      → IsListed resolve why w
      → push resolve items (some (entry_draft w)) ≡ items ++ w ∷ []
  unfolding push
  push_entry w items l = rw (entry_path w l.nonempty, finish_entry w l.normal) refl

  lines_parse :
      (ws items : List GitWorktree)
      → All (IsListed resolve why) ws
      → parse_lines resolve (all_lines why ws ++ [] ∷ []) items none ≡ items ++ ws
  unfolding parse_lines all_lines push
  lines_parse [] items h = sym (append-nil items)
  lines_parse (w ∷ ws) items (l, h) =
      rw (append_assoc (entry_lines why w) ([] ∷ all_lines why ws) ([] ∷ [])) (
        entry_parses w ([] ∷ (all_lines why ws ++ [] ∷ [])) items
        ∙ ap (λ is. parse_lines resolve (all_lines why ws ++ [] ∷ []) is none)
            (push_entry w items l)
        ∙ lines_parse ws (items ++ w ∷ []) h
        ∙ append_assoc items (w ∷ []) ws)

  all_lines-Lacks :
      (ws : List GitWorktree) → All (IsListed resolve why) ws → All (Lacks b'\n') (all_lines why ws)
  unfolding all_lines entry_lines
  all_lines-Lacks [] h = tt
  all_lines-Lacks (w ∷ ws) (l, h) = (
    codes-Lacks w.path l.path_line,
    All-append (Lacks b'\n')
        (attribute_lines (text_eq w.head []) w.head w.branch w.bare w.locked w.prunable
          (reason_text (why w).locked) (reason_text (why w).prunable))
        ([] ∷ all_lines why ws)
        (attribute_lines-Lacks w.head (text_eq w.head []) w.branch w.bare w.locked w.prunable
          (reason_text (why w).locked) (reason_text (why w).prunable) l.head_line l.branch_line
          (reason_text-Lacks (why w).locked l.locked_line)
          (reason_text-Lacks (why w).prunable l.prunable_line))
        (tt, all_lines-Lacks ws h),
  )

  -- What git writes for a list of checkouts is parsed to that list, whatever reasons it gives for a
  -- lock or for what can be pruned, where no path is empty, the paths are normalised, and no path,
  -- commit, branch or reason has a line feed.
  pub parse_worktrees-write_worktrees :
      (ws : List GitWorktree)
      → All (IsListed resolve why) ws
      → parse_worktrees resolve (write_worktrees why ws) ≡ ws
  unfolding parse_worktrees
  parse_worktrees-write_worktrees ws h =
      rw (split-write_lines (all_lines why ws) (all_lines-Lacks ws h)) (lines_parse ws [] h)
