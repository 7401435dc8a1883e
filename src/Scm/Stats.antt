-- ===== src/Scm/Stats.antt =====
-- server/scm.ts: the line counts of the worktree and of what is staged, put together by path.
use dispatch_web.Base.{
  if◌then◌else◌, or_else, nat_eq, string_eq, Distinct, lookup, keys, Text, text_eq, text_is_eq, ℕ,
  ◌+◌, ◌≡◌, [], ◌∷◌, ap, arith, lookup-insert, ◌∙◌, text_eq_iff, has-keys, Option-cases, List,
  split, Bool-cases, codes, inl, trim, inr, insert-Distinct,
}
use dispatch_web.Base.{◌+◌, ◌≡◌, if◌then◌else◌}
use dispatch_web.Scm.{
  added, parse_num_stat, read_stats, read_stat, scm_status, Stats, count_at, merge_stats, added,
  cut, is_empty,
}

abbrev pub counts_of : Text → Stats → ℕ × ℕ
counts_of path stats = or_else (lookup path stats) (0, 0)

abbrev pub plus : ℕ × ℕ → ℕ × ℕ → ℕ × ℕ
plus (a, d) (b, e) = (a + b, d + e)

counts_of-count_at :
    (path q : Text) (pair : ℕ × ℕ) (stats : Stats)
    → counts_of q (count_at path pair stats)
      ≡ (if text_eq path q then plus (counts_of q stats) pair else counts_of q stats)
counts_of-count_at path q pair stats =
    ap (λ o. or_else o (0, 0)) (lookup-insert path q (added (lookup path stats) pair) stats)
    ∙ ground (arith, text_eq_iff path q)

-- The keys of the counts that are added are distinct.
merge_stats-counts_of :
    (q : Text) (merged cached : Stats)
    → Distinct (keys cached)
    → counts_of q (merge_stats merged cached) ≡ plus (counts_of q merged) (counts_of q cached)
unfolding merge_stats
merge_stats-counts_of q merged [] d = ground arith
merge_stats-counts_of q merged ((path, pair) ∷ cached) d =
    let later = merge_stats-counts_of q (count_at path pair merged) cached d.1 in
    let first = counts_of-count_at path q pair merged in
    later
    ∙ rw first (ground (arith, text_eq_iff path q, has-keys q cached, has-keys path cached, d.0))

read_stat-Distinct :
    (line : Text) (stats : Stats) → Distinct (keys stats) → Distinct (keys (read_stat line stats))
unfolding read_stat
read_stat-Distinct line stats d = elim (Option-cases (cut (codes "\t") line)) [
  | inl e ↦ simp (read_stat, e) d
  | inr (p, e) ↦ elim (Option-cases (cut (codes "\t") p.1)) [
    | inl f ↦ simp (read_stat, e, f) d
    | inr (q, f) ↦ simp (read_stat, e, f) (insert-Distinct _ _ stats d)
  ]
]

read_stats-Distinct :
    (lines : List Text) (stats : Stats)
    → Distinct (keys stats)
    → Distinct (keys (read_stats lines stats))
unfolding read_stats
read_stats-Distinct [] stats d = d
read_stats-Distinct (line ∷ lines) stats d = elim (Bool-cases (is_empty (trim line))) [
  | inl e ↦ simp (e) (read_stats-Distinct lines stats d)
  | inr e ↦
      simp (e) (read_stats-Distinct lines (read_stat line stats) (read_stat-Distinct line stats d))
]

-- What the panel shows for a path is the sum of the lines added and of the lines deleted in the
-- worktree and in what is staged, a path that is not listed counting for nothing.
pub scm_status-counts_of :
    (status branch stat cached_stat path : Text)
    → counts_of path (scm_status status branch stat cached_stat).stats
      ≡ plus (counts_of path (parse_num_stat stat)) (counts_of path (parse_num_stat cached_stat))
unfolding scm_status parse_num_stat read_stats merge_stats
scm_status-counts_of status branch stat cached_stat path =
    merge_stats-counts_of path (parse_num_stat stat) (parse_num_stat cached_stat)
      (read_stats-Distinct (split 10 cached_stat) [] tt)
