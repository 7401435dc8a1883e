-- ===== src/Scm.antt =====
-- server/scm.ts: the parsers of git's output behind the source-control panel, and what they are put
-- together to. The four calls of git have answered; their outputs are arguments.
pub mod Paths
pub mod Branches
pub mod Stats
mod Tests
use dispatch_web.Base.{
  leb, ltb, ◌==◌, if◌then◌else◌, or_else, length, take, drop, min, reverse, all, find, Text, codes,
  text_eq, text_is_eq, strip_prefix, starts_with, ends_with, split, trim, trim_end, lookup, insert,
  ℕ, suc, ◌+◌, ◌-◌, Bool, true, false, not, ◌&&◌, ◌||◌, Option, none, some, List, [], ◌∷◌,
}
use dispatch_web.Serialize.{is_empty}
use dispatch_web.Serialize.Resolve.{is_digit, number}

pub record ScmFileEntry : Type 0 where
  pub path : Text
  pub x : ℕ
  pub y : ℕ

-- `remote`: none for a local branch, and where the remote cannot be told it is unknown.
pub data Remote : Type 0 where
  remote_name : Text → Remote
  unknown_remote : Remote

pub record ScmBranchEntry : Type 0 where
  pub name : Text
  pub current : Bool
  pub remote : Option Remote

pub record ScmCommitEntry : Type 0 where
  pub hash : Text
  pub short_hash : Text
  pub author : Text
  pub date : Text
  pub subject : Text
  pub decorations : Text
  pub graph : Text

-- What stands before and after the first occurrence of `p`, from `indexOf` and `slice`.
abbrev pub cut : Text → Text → Option (Text × Text)
cut p [] = none
cut p (c ∷ s) =
    let later = cut p s in
    elim (strip_prefix p (c ∷ s)) [
      | some rest ↦ some ([], rest)
      | none ↦ elim later [ none ↦ none | some (before, after) ↦ some (c ∷ before, after) ]
    ]

-- What `.` of a regular expression does not match.
abbrev pub is_line_end : ℕ → Bool
is_line_end c = c == 10 || c == 13 || c == 0x2028 || c == 0x2029

-- The cases of the switch; "\a" of JavaScript is the letter.
unfoldable pub unescape_char : ℕ → ℕ
unescape_char c =
    if c == b'n'
    then 10
    else if c == b't'
    then 9
    else if c == b'r'
    then 13
    else if c == b'b'
    then 8
    else if c == b'f'
    then 12
    else if c == b'v'
    then 11
    else c

-- `.replace(/\\(.)/g, …)`; the flag says that the unit before was a backslash that waits.
unfoldable pub unescape : Bool → Text → Text
unescape false [] = []
unescape true [] = b'\\' ∷ []
unescape false (c ∷ s) = if c == b'\\' then unescape true s else c ∷ unescape false s
unescape true (c ∷ s) =
    if is_line_end c then b'\\' ∷ c ∷ unescape false s else unescape_char c ∷ unescape false s

abbrev pub quote : ℕ
quote = 34

abbrev pub drop_last : Text → Text
drop_last [] = []
drop_last (c ∷ []) = []
drop_last (c ∷ d ∷ s) = c ∷ drop_last (d ∷ s)

-- `s.endsWith('"')`
abbrev pub ends_quote : Text → Bool
ends_quote [] = false
ends_quote (c ∷ []) = c == quote
ends_quote (c ∷ d ∷ s) = ends_quote (d ∷ s)

unfoldable pub unquote_path : Text → Text
unfolding unescape
unquote_path [] = []
unquote_path (c ∷ s) =
    if c == quote then unescape false (if ends_quote (c ∷ s) then drop_last s else s) else c ∷ s

pub record StatusHeader : Type 0 where
  pub branch : Text
  pub detached : Bool
  pub upstream : Option Text
  pub ahead : ℕ
  pub behind : ℕ
  pub upstream_gone : Bool

abbrev pub new_header : StatusHeader
new_header = record {
  branch = codes "HEAD";
  detached = false;
  upstream = none;
  ahead = 0;
  behind = 0;
  upstream_gone = false;
}

-- `^word (\d+)$`
abbrev pub counted : Text → Text → Option ℕ
counted word p = elim (strip_prefix word p) [
  | none ↦ none
  | some ds ↦ if not (is_empty ds) && all is_digit ds then some (number 0 ds) else none
]

unfoldable pub read_flag : Text → StatusHeader → StatusHeader
read_flag part out =
    let p = trim part in
    elim (counted (codes "ahead ") p) [
      | some n ↦ record out { ahead = n }
      | none ↦ elim (counted (codes "behind ") p) [
        | some n ↦ record out { behind = n }
        | none ↦ if text_eq p (codes "gone") then record out { upstream_gone = true } else out
      ]
    ]

unfoldable pub read_flags : List Text → StatusHeader → StatusHeader
read_flags [] out = out
read_flags (part ∷ parts) out = read_flags parts (read_flag part out)

abbrev pub without_bracket : Text → Text
without_bracket flags = if ends_with (codes "]") flags then drop_last flags else flags

unfoldable pub read_branch : Text → StatusHeader
read_branch branch_part =
    if text_eq branch_part (codes "HEAD (no branch)") || text_eq branch_part (codes "HEAD")
    then record new_header { detached = true }
    else (let name = or_else (strip_prefix (codes "No commits yet on ") branch_part) branch_part in
        elim (cut (codes "...") name) [
          | none ↦ record new_header { branch = name }
          | some (branch, upstream) ↦ record new_header {
            branch = branch;
            upstream = some upstream;
          }
        ])

-- The branch part and the flags in brackets, which are empty where there are none.
abbrev pub split_flags : Text → Text × Text
split_flags rest = elim (cut (codes " [") rest) [
  | none ↦ (rest, [])
  | some (before, after) ↦ (before, without_bracket after)
]

unfoldable pub parse_status_header : Text → StatusHeader
unfolding read_flags
parse_status_header rest =
    let (branch_part, flags) = split_flags rest in
    if is_empty flags
    then read_branch branch_part
    else read_flags (split b',' flags) (read_branch branch_part)

abbrev pub new_path : Text → Text
new_path path = elim (cut (codes " -> ") path) [ none ↦ path | some (old, new) ↦ new ]

-- One line of the status; a line of fewer than three units is no entry.
unfoldable pub file_of : Text → Option ScmFileEntry
file_of (x ∷ y ∷ space ∷ path) =
    if starts_with (codes "## ") (x ∷ y ∷ space ∷ path)
    then none
    else some (record { path = unquote_path (new_path path); x = x; y = y })
file_of line = none

unfoldable pub files_of : List Text → List ScmFileEntry
files_of [] = []
files_of (raw_line ∷ lines) =
    let rest = files_of lines in
    elim (file_of (trim_end raw_line)) [ none ↦ rest | some entry ↦ entry ∷ rest ]

unfoldable pub parse_status_files : Text → List ScmFileEntry
unfolding files_of
parse_status_files text = files_of (split 10 text)

unfoldable pub remote_of : Text → Remote
remote_of short = elim (cut (codes "/") short) [
  | none ↦ unknown_remote
  | some (before, after) ↦ if is_empty before then unknown_remote else remote_name before
]

unfoldable pub branch_of : List Text → Option ScmBranchEntry
branch_of (ref ∷ head ∷ parts) = elim (strip_prefix (codes "refs/heads/") ref) [
  | some name ↦ some (record { name = name; current = text_eq head (codes "*"); remote = none })
  | none ↦ elim (strip_prefix (codes "refs/remotes/") ref) [
    | none ↦ none
    | some short ↦
        if ends_with (codes "/HEAD") short
        then none
        else some (record { name = short; current = false; remote = some (remote_of short) })
  ]
]
branch_of parts = none

unfoldable pub branches_of : List Text → List ScmBranchEntry
branches_of [] = []
branches_of (line ∷ lines) =
    let rest = branches_of lines in
    elim (branch_of (split 9 line)) [ none ↦ rest | some entry ↦ entry ∷ rest ]

unfoldable pub parse_branches : Text → List ScmBranchEntry
unfolding branches_of
parse_branches text = branches_of (split 10 text)

abbrev pub is_hex : ℕ → Bool
is_hex c = is_digit c || (leb b'a' c && leb c b'f') || (leb b'A' c && leb c b'F')

unfoldable pub hex_run : Text → ℕ
hex_run [] = 0
hex_run (c ∷ s) = let n = hex_run s in if is_hex c then suc n else 0

-- `/([0-9a-f]{7,40})$/i`: the graph before the hash, and the hash, which ends the text.
unfoldable pub match_hash : Text → Option (Text × Text)
match_hash s =
    let n = min (hex_run (reverse s)) 40 in
    if ltb n 7 then none else some (take (length s - n) s, drop (length s - n) s)

unfoldable pub commit_from : Text → Text → List Text → Option ScmCommitEntry
commit_from graph hash (short_hash ∷ author ∷ date ∷ subject ∷ rest) = some (record {
  hash = hash;
  short_hash = short_hash;
  author = author;
  date = date;
  subject = subject;
  decorations = elim rest [ [] ↦ [] | ◌∷◌ decorations more ↦ decorations ];
  graph = graph;
})
commit_from graph hash fields = none

unfoldable pub commit_of : Text → Option ScmCommitEntry
commit_of line = elim (cut (codes "\t") line) [
  | none ↦ none
  | some (prefix_and_hash, rest) ↦ elim (match_hash prefix_and_hash) [
    | none ↦ none
    | some (graph, hash) ↦ commit_from graph hash (split 9 rest)
  ]
]

unfoldable pub commits_of : List Text → List ScmCommitEntry
commits_of [] = []
commits_of (line ∷ lines) =
    let rest = commits_of lines in elim (commit_of line) [ none ↦ rest | some entry ↦ entry ∷ rest ]

unfoldable pub parse_commit_history : Text → List ScmCommitEntry
unfolding commits_of
parse_commit_history text = commits_of (split 10 text)

-- `Number` of what git prints for a count: digits, or a dash for a binary file, which is not finite.
unfoldable pub to_count : Text → Option ℕ
to_count s = if all is_digit s then some (number 0 s) else none

-- Path → [added, deleted].
abbrev pub Stats : Type 0
Stats = List (Text × (ℕ × ℕ))

abbrev pub added : Option (ℕ × ℕ) → ℕ × ℕ → ℕ × ℕ
added prev (add, del) = let (a, d) = or_else prev (0, 0) in (a + add, d + del)

abbrev pub count_at : Text → ℕ × ℕ → Stats → Stats
count_at path pair stats = insert path (added (lookup path stats) pair) stats

unfoldable pub read_stat : Text → Stats → Stats
read_stat line stats = elim (cut (codes "\t") line) [
  | none ↦ stats
  | some (add, rest) ↦ elim (cut (codes "\t") rest) [
    | none ↦ stats
    | some (del, path) ↦
        count_at (unquote_path (trim path)) (or_else (to_count add) 0, or_else (to_count del) 0)
          stats
  ]
]

unfoldable pub read_stats : List Text → Stats → Stats
read_stats [] stats = stats
read_stats (line ∷ lines) stats =
    read_stats lines (if is_empty (trim line) then stats else read_stat line stats)

unfoldable pub parse_num_stat : Text → Stats
unfolding read_stats
parse_num_stat text = read_stats (split 10 text) []

-- The second loop of scmStatus; the first copies what stands in an object into an empty one.
unfoldable pub merge_stats : Stats → Stats → Stats
merge_stats merged [] = merged
merge_stats merged ((path, pair) ∷ cached) = merge_stats (count_at path pair merged) cached

pub record ScmStatusData : Type 0 where
  pub header : StatusHeader
  pub files : List ScmFileEntry
  pub branches : List ScmBranchEntry
  pub stats : Stats

unfoldable pub scm_status : (status branch stat cached_stat : Text) → ScmStatusData
unfolding merge_stats parse_num_stat
scm_status status_text branch_text stat_text cached_stat_text = record {
  header = parse_status_header (elim (find (starts_with (codes "## ")) (split 10 status_text)) [
    | none ↦ []
    | some line ↦ drop 3 line
  ]);
  files = parse_status_files status_text;
  branches = parse_branches branch_text;
  stats = merge_stats (parse_num_stat stat_text) (parse_num_stat cached_stat_text);
}
