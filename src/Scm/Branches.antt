-- ===== src/Scm/Branches.antt =====
-- server/scm.ts: the branches that git lists are read back.
use dispatch_web.Base.{
  ◌∙◌, Option, reverse, strip_prefix-append, ◌==◌, true, false, if◌then◌else◌, ==_iff, nat_eq,
  string_eq, Text, codes, text_is_eq, ends_with, split, Lacks, ℕ, ◌≡◌, refl, Bool, false, none,
  some, List, [], ◌∷◌, ◌++◌, arith, split-append, All-append, All, ap, all, not,
}
use dispatch_web.Base.{refl, false, arith, ◌≡◌, if◌then◌else◌}
use mathlib.Core.List.{reverse-append}
use dispatch_web.Scm.{
  ScmBranchEntry, remote_name, remote_of, branch_of, cut, is_empty, parse_branches, branches_of,
}

-- A reference as git names it: a local branch, which may be the current one, one of a remote, or
-- the link HEAD of a remote to its default branch.
pub data Ref : Type 0 where
  head : (name : Text) (current : Bool) → Ref
  remote_branch : (remote name : Text) → Ref
  remote_head : (remote : Text) → Ref

unfoldable pub ref_line : Ref → Text
ref_line (head name current) =
    (codes "refs/heads/" ++ name) ++ 9 ∷ (if current then codes "*" else codes " ")
ref_line (remote_branch remote name) =
    (codes "refs/remotes/" ++ (remote ++ b'/' ∷ name)) ++ 9 ∷ codes " "
ref_line (remote_head remote) =
    (codes "refs/remotes/" ++ (remote ++ codes "/HEAD")) ++ 9 ∷ codes " "

-- `git for-each-ref`: a line for each reference.
unfoldable pub write_refs : List Ref → Text
write_refs [] = []
write_refs (r ∷ refs) = ref_line r ++ 10 ∷ write_refs refs

-- A link is no branch.
abbrev pub entries_of : List Ref → List ScmBranchEntry
entries_of [] = []
entries_of (head name current ∷ refs) =
    record { name = name; current = current; remote = none } ∷ entries_of refs
entries_of (remote_branch remote name ∷ refs) =
    record { name = remote ++ b'/' ∷ name; current = false; remote = some (remote_name remote) }
    ∷ entries_of refs
entries_of (remote_head remote ∷ refs) = entries_of refs

abbrev entry_of : Ref → Option ScmBranchEntry
entry_of (head name current) = some (record { name = name; current = current; remote = none })
entry_of (remote_branch remote name) =
    some
      (record { name = remote ++ b'/' ∷ name; current = false; remote = some (remote_name remote) })
entry_of (remote_head remote) = none

-- A name has no tab and no line feed; the name of a remote is not empty and has no slash, and a
-- remote's branch is not named like a link HEAD.
abbrev pub IsRef : Ref → Type 0
IsRef (head name current) = Lacks 9 name × Lacks 10 name
IsRef (remote_branch remote name) =
    Lacks 9 (remote ++ b'/' ∷ name)
    × Lacks 10 (remote ++ b'/' ∷ name)
    × (is_empty remote ≡ false)
    × Lacks b'/' remote
    × (ends_with (codes "/HEAD") (remote ++ b'/' ∷ name) ≡ false)
IsRef (remote_head remote) = Lacks 9 remote × Lacks 10 remote

pub literal-Lacks : (sep : ℕ) (s : Text) → all (λ c. not (c == sep)) s ≡ true → Lacks sep s
literal-Lacks sep [] h = tt
literal-Lacks sep (c ∷ s) h = ground (arith, literal-Lacks sep s, ==_iff c sep)

ends_with-append : (s p : Text) → ends_with p (s ++ p) ≡ true
ends_with-append s p = rw (reverse-append s p, strip_prefix-append (reverse p) (reverse s)) refl

literal-Lacks-last :
    (sep : ℕ) (s p : Text) → Lacks sep s → all (λ c. not (c == sep)) p ≡ true → Lacks sep (s ++ p)
literal-Lacks-last sep s p h k = All-append _ s p h (literal-Lacks sep p k)

split_none : (sep : ℕ) (s : Text) → Lacks sep s → split sep s ≡ s ∷ []
split_none sep [] h = refl
split_none sep (c ∷ s) h = ground (arith, split_none sep s h.1, ==_iff c sep)

cut_slash :
    (before after : Text)
    → Lacks b'/' before
    → cut (codes "/") (before ++ b'/' ∷ after) ≡ some (before, after)
cut_slash [] after h = refl
cut_slash (c ∷ before) after h = ground (arith, cut_slash before after h.1, ==_iff b'/' c)

remote_of_slash :
    (remote name : Text)
    → is_empty remote ≡ false
    → Lacks b'/' remote
    → remote_of (remote ++ b'/' ∷ name) ≡ remote_name remote
unfolding remote_of
remote_of_slash remote name nonempty slash =
    simp (remote_of, cut_slash remote name slash, nonempty) refl

branch_of-ref_line : (r : Ref) → IsRef r → branch_of (split 9 (ref_line r)) ≡ entry_of r
unfolding branch_of ref_line
branch_of-ref_line (head name true) (tab, line) = rw (split-append 9 name (codes "*") tab) refl
branch_of-ref_line (head name false) (tab, line) = rw (split-append 9 name (codes " ") tab) refl
branch_of-ref_line (remote_branch remote name) (tab, line, nonempty, slash, link) =
    rw (split-append 9 (remote ++ b'/' ∷ name) (codes " ") tab)
      (simp (link, remote_of_slash remote name nonempty slash) refl)
branch_of-ref_line (remote_head remote) (tab, line) =
    rw
      (split-append 9 (remote ++ codes "/HEAD") (codes " ")
        (literal-Lacks-last 9 remote (codes "/HEAD") tab refl))
      (simp (ends_with-append remote (codes "/HEAD")) refl)

ref_line-Lacks : (r : Ref) → IsRef r → Lacks 10 (ref_line r)
unfolding ref_line
ref_line-Lacks (head name true) (tab, line) =
    All-append _ (codes "refs/heads/" ++ name) (9 ∷ codes "*")
      (All-append _ (codes "refs/heads/") name (literal-Lacks 10 (codes "refs/heads/") refl) line)
      (literal-Lacks 10 (9 ∷ codes "*") refl)
ref_line-Lacks (head name false) (tab, line) =
    All-append _ (codes "refs/heads/" ++ name) (9 ∷ codes " ")
      (All-append _ (codes "refs/heads/") name (literal-Lacks 10 (codes "refs/heads/") refl) line)
      (literal-Lacks 10 (9 ∷ codes " ") refl)
ref_line-Lacks (remote_branch remote name) (tab, line, nonempty, slash, link) =
    All-append _ (codes "refs/remotes/" ++ (remote ++ b'/' ∷ name)) (9 ∷ codes " ")
      (All-append _ (codes "refs/remotes/") (remote ++ b'/' ∷ name)
        (literal-Lacks 10 (codes "refs/remotes/") refl) line)
      (literal-Lacks 10 (9 ∷ codes " ") refl)
ref_line-Lacks (remote_head remote) (tab, line) =
    All-append _ (codes "refs/remotes/" ++ (remote ++ codes "/HEAD")) (9 ∷ codes " ")
      (All-append _ (codes "refs/remotes/") (remote ++ codes "/HEAD")
        (literal-Lacks 10 (codes "refs/remotes/") refl)
        (literal-Lacks-last 10 remote (codes "/HEAD") line refl))
      (literal-Lacks 10 (9 ∷ codes " ") refl)

abbrev with_entry : Option ScmBranchEntry → List ScmBranchEntry → List ScmBranchEntry
with_entry found rest = elim found [ none ↦ rest | some entry ↦ entry ∷ rest ]

entries_of-cons :
    (r : Ref) (refs : List Ref) → with_entry (entry_of r) (entries_of refs) ≡ entries_of (r ∷ refs)
entries_of-cons (head name current) refs = refl
entries_of-cons (remote_branch remote name) refs = refl
entries_of-cons (remote_head remote) refs = refl

-- The branches that git lists are read back in their order: the local ones with the current one
-- marked, those of a remote with the remote's name, and no entry for the link HEAD of a remote, for
-- names without tabs and line feeds, a remote's name without a slash, and a remote's branch whose
-- name does not end in /HEAD.
pub parse_branches-write_refs :
    (refs : List Ref) → All IsRef refs → parse_branches (write_refs refs) ≡ entries_of refs
unfolding parse_branches branches_of write_refs branch_of
parse_branches-write_refs [] a = refl
parse_branches-write_refs (r ∷ refs) (a, rest) =
    rw
      (
        split-append 10 (ref_line r) (write_refs refs) (ref_line-Lacks r a),
        branches_of,
        branch_of-ref_line r a,
      )
      (ap (with_entry (entry_of r)) (parse_branches-write_refs refs rest) ∙ entries_of-cons r refs)
