-- ===== src/Scm/Tests.antt =====
-- Runs of the parsers of git's output.
use dispatch_web.Base.{
  nat_eq, string_eq, codes, text_is_eq, is_space, trim_start, trim_end, trim, ◌≡◌, refl, true,
  false, some, List, [], ◌∷◌, map,
}
use dispatch_web.Base.{refl, true, false, ◌≡◌}
use dispatch_web.Scm.{
  parse_status_header, parse_status_files, files_of, file_of, parse_branches, unquote_path,
  unescape, parse_num_stat, scm_status, read_flags, read_flag, read_branch, parse_commit_history,
  commits_of, commit_of, commit_from, match_hash, hex_run, number,
}
use dispatch_web.Serialize.Resolve.{number}
use dispatch_web.Scm.Paths.{quote_path, unquote_path-quote_path}
use dispatch_web.Scm.Branches.{
  Ref, head, remote_branch, remote_head, write_refs, entries_of, parse_branches-write_refs,
  literal-Lacks,
}
use dispatch_web.Scm.Stats.{counts_of, plus, scm_status-counts_of}

test_bell : unquote_path (quote_path (7 ∷ [])) ≡ codes "a"
test_bell = unquote_path-quote_path (7 ∷ [])

abbrev refs : List Ref
refs =
    head (codes "main") true
    ∷ remote_head (codes "origin")
    ∷ remote_branch (codes "origin") (codes "dev")
    ∷ []

parse_branches-write_refs_example : parse_branches (write_refs refs) ≡ entries_of refs
parse_branches-write_refs_example = parse_branches-write_refs refs (
  (literal-Lacks 9 (codes "main") refl, literal-Lacks 10 (codes "main") refl),
  (
    (literal-Lacks 9 (codes "origin") refl, literal-Lacks 10 (codes "origin") refl),
    (
      (
        literal-Lacks 9 (codes "origin/dev") refl,
        literal-Lacks 10 (codes "origin/dev") refl,
        refl,
        literal-Lacks b'/' (codes "origin") refl,
        refl,
      ),
      tt,
    ),
  ),
)

scm_status-counts_of_example :
    counts_of (codes "a.ts") (scm_status [] [] (codes "1\t2\ta.ts\n") (codes "3\t0\ta.ts\n")).stats
    ≡ plus
        (counts_of (codes "a.ts") (parse_num_stat (codes "1\t2\ta.ts\n")))
        (counts_of (codes "a.ts") (parse_num_stat (codes "3\t0\ta.ts\n")))
scm_status-counts_of_example =
    scm_status-counts_of [] [] (codes "1\t2\ta.ts\n") (codes "3\t0\ta.ts\n") (codes "a.ts")

test_parse_status_header :
    parse_status_header (codes "main...origin/main [ahead 2, behind 13]") ≡ record {
      branch = codes "main";
      detached = false;
      upstream = some (codes "origin/main");
      ahead = 2;
      behind = 13;
      upstream_gone = false;
    }
unfolding parse_status_header read_flags read_flag read_branch trim trim_end trim_start is_space
    number
test_parse_status_header = refl

test_parse_status_files :
    parse_status_files (codes "## main\nR  old.ts -> new.ts\n?? x\n")
    ≡ record { path = codes "new.ts"; x = b'R'; y = b' ' }
      ∷ record { path = codes "x"; x = b'?'; y = b'?' }
      ∷ []
unfolding parse_status_files files_of file_of unquote_path unescape trim_end trim_start is_space
test_parse_status_files = refl

test_parse_commit_history :
    map (λ c. c.hash) (parse_commit_history (codes "* 0123abc\t0123\tA\t2026\tfix\n|\\\n"))
    ≡ codes "0123abc" ∷ []
unfolding parse_commit_history commits_of commit_of commit_from match_hash hex_run
test_parse_commit_history = refl
