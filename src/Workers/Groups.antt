-- ===== src/Workers/Groups.antt =====
-- web/src/workers.ts: the groups of the pane share the workers out.
use dispatch_web.Base.{
  Bool-cases, length, filter, nat_eq, string_eq, text_is_eq, suc, ◌+◌, ◌≡◌, refl, ◌∙◌, inl, inr,
  Bool, true, false, List, [], ◌∷◌, arith, eq_iff,
}
use dispatch_web.Base.{refl, suc, true, false, ◌∙◌, ◌≡◌, ◌+◌, arith, eq_iff}
use dispatch_web.Workers.Pane.{
  UiWorker, is_worker_active, is_done, is_failed, insert_by, sort_by, by_start, newest_first,
  split_workers,
}

length-insert_by :
    (before : UiWorker → UiWorker → Bool) (w : UiWorker) (sorted : List UiWorker)
    → length (insert_by before w sorted) ≡ suc (length sorted)
length-insert_by before w [] = refl
length-insert_by before w (v ∷ sorted) = ground (arith, length-insert_by before w sorted)

length-sort_by :
    (before : UiWorker → UiWorker → Bool) (workers : List UiWorker)
    → length (sort_by before workers) ≡ length workers
unfolding sort_by
length-sort_by before [] = refl
length-sort_by before (w ∷ workers) =
    length-insert_by before w (sort_by before workers)
    ∙ ground (arith, length-sort_by before workers)

-- Each worker stands right before one that may follow it.
abbrev pub IsOrdered : (UiWorker → UiWorker → Bool) → List UiWorker → Type 0
IsOrdered before [] = Unit
IsOrdered before (w ∷ []) = Unit
IsOrdered before (w ∷ v ∷ workers) = (before w v ≡ true) × IsOrdered before (v ∷ workers)

insert_by-IsOrdered :
    (before : UiWorker → UiWorker → Bool)
    → ((a b : UiWorker) → before a b ≡ false → before b a ≡ true)
    → (w : UiWorker) (sorted : List UiWorker) → IsOrdered before sorted
    → IsOrdered before (insert_by before w sorted)
insert_by-IsOrdered before total w [] o = tt
insert_by-IsOrdered before total w (v ∷ []) o = elim (Bool-cases (before w v)) [
  | inl h ↦ simp (h) (refl, tt)
  | inr h ↦ simp (h) (total w v h, tt)
]
insert_by-IsOrdered before total w (v ∷ u ∷ sorted) o = elim (Bool-cases (before w v)) [
  | inl h ↦ simp (h) (refl, o)
  | inr h ↦
      (let rest = insert_by-IsOrdered before total w (u ∷ sorted) o.1 in
        elim (Bool-cases (before w u)) [
          | inl k ↦ simp (h, k) (total w v h, (refl, o.1))
          | inr k ↦ simp (h, k) (o.0, (simp (k) at rest))
        ])
]

sort_by-IsOrdered :
    (before : UiWorker → UiWorker → Bool)
    → ((a b : UiWorker) → before a b ≡ false → before b a ≡ true)
    → (workers : List UiWorker) → IsOrdered before (sort_by before workers)
unfolding sort_by
sort_by-IsOrdered before total [] = tt
sort_by-IsOrdered before total (w ∷ workers) =
    insert_by-IsOrdered before total w (sort_by before workers)
      (sort_by-IsOrdered before total workers)

not_active : ¬ (is_worker_active "failed" ≡ true)
unfolding is_worker_active
not_active h = ground (arith, h)

-- No status is both active and failed.
active-failed : (w : UiWorker) → is_worker_active w.status ≡ true → is_failed w ≡ false
unfolding is_worker_active
active-failed w h = elim (Bool-cases (is_failed w)) [
  | inr k ↦ k
  | inl k ↦ absurd (not_active (rw ((eq_iff w.status "failed").0 k) at h))
]

shared_out :
    (workers : List UiWorker)
    → length (filter (λ w. is_worker_active w.status) workers)
        + length (filter is_done workers)
        + length (filter is_failed workers)
      ≡ length workers
shared_out [] = refl
shared_out (w ∷ workers) = elim (Bool-cases (is_worker_active w.status)) [
  | inl h ↦ simp (h, active-failed w h) (ground (arith, shared_out workers))
  | inr h ↦ elim (Bool-cases (is_failed w)) [
    | inl k ↦ simp (h, k) (ground (arith, shared_out workers))
    | inr k ↦ simp (h, k) (ground (arith, shared_out workers))
  ]
]

-- The pane shows every worker once: the active ones in the order of their start, the finished and
-- the failed ones with the newest first.
pub split_workers-IsOrdered :
    (workers : List UiWorker)
    → let groups = split_workers workers in
      (length groups.active + length groups.done + length groups.failed ≡ length workers)
      × IsOrdered by_start groups.active
      × IsOrdered newest_first groups.done
      × IsOrdered newest_first groups.failed
unfolding split_workers
split_workers-IsOrdered workers = (
  (let a = length-sort_by by_start (filter (λ w. is_worker_active w.status) workers) in
      let d = length-sort_by newest_first (filter is_done workers) in
      let f = length-sort_by newest_first (filter is_failed workers) in
      rw (a, d, f) (shared_out workers)),
  sort_by-IsOrdered by_start (λ a b h. ground (arith, h))
      (filter (λ w. is_worker_active w.status) workers),
  sort_by-IsOrdered newest_first (λ a b h. ground (arith, h)) (filter is_done workers),
  sort_by-IsOrdered newest_first (λ a b h. ground (arith, h)) (filter is_failed workers),
)
