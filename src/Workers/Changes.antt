-- ===== src/Workers/Changes.antt =====
-- server/workers.ts: a report that announces no change has made none.
use dispatch_web.Base.{
  ◌||◌, Option-cases, nat_eq, string_eq, lookup, text_is_eq, ℕ, ◌≡◌, refl, inl, inr, Bool, false,
  List, [], ◌∷◌, arith, add, ◌∙◌,
}
use dispatch_web.Base.{refl, false, arith, ◌≡◌, inl, inr}
use dispatch_web.Workers.{
  BridgeWorker, Records, apply_worker, apply_workers, drop_unseen, apply_list, WorkerHub,
}

module _ {L : Type 0} where
  -- A run of applyList that reports no change has made none.
  apply_worker_same :
      (now id : ℕ) (w : BridgeWorker) (records : Records L)
      → (apply_worker now id w records).1 ≡ false
      → (apply_worker now id w records).0 ≡ records
  unfolding apply_worker
  apply_worker_same now id w records h = elim (Option-cases (lookup id records)) [
    | inl e ↦ absurd (let z = simp (apply_worker, e) at h in ground (arith, z))
    | inr (rec, e) ↦
        simp (apply_worker, e) (let z = simp (apply_worker, e) at h in ground (arith, z))
  ]

  apply_workers_same :
      (now : ℕ) (workers : List BridgeWorker) (records : Records L) (seen : List ℕ) (changed : Bool)
      → (apply_workers now workers records seen changed).1 ≡ false
      → ((apply_workers now workers records seen changed).0 ≡ records) × (changed ≡ false)
  unfolding apply_workers
  apply_workers_same now [] records seen changed h = (refl, h)
  apply_workers_same now (w ∷ workers) records seen changed h = elim (Option-cases w.id) [
    | inl e ↦
        simp (apply_workers, e)
          (apply_workers_same now workers records seen changed (simp (apply_workers, e) at h))
    | inr (id, e) ↦
        (let next = (apply_worker now id w records).0 in
          let this = (apply_worker now id w records).1 in
          let later =
            apply_workers_same now workers next (add id seen) (changed || this)
              (simp (apply_workers, e) at h) in
          let same = apply_worker_same now id w records (ground (arith, later.1)) in
          simp (apply_workers, e) (later.0 ∙ same, ground (arith, later.1)))
  ]

  drop_unseen_same :
      (seen : List ℕ) (records : Records L) (opened : List ℕ) (changed : Bool)
      → (drop_unseen seen records opened changed).2 ≡ false
      → ((drop_unseen seen records opened changed).0 ≡ records)
        × ((drop_unseen seen records opened changed).1 ≡ opened)
        × (changed ≡ false)
  unfolding drop_unseen
  drop_unseen_same seen [] opened changed h = (refl, refl, h)
  drop_unseen_same seen ((id, rec) ∷ records) opened changed h =
      ground (arith, drop_unseen_same seen records opened changed)

  pub apply_list_same :
      (now : ℕ) (workers : List BridgeWorker) (hub : WorkerHub L)
      → (apply_list now workers hub).1 ≡ false
      → (apply_list now workers hub).0 ≡ hub
  unfolding apply_list
  apply_list_same now workers hub h =
      let (records, first, seen) = apply_workers now workers hub.records [] false in
      let dropped = drop_unseen_same seen records hub.opened first h in
      let applied = apply_workers_same now workers hub.records [] false dropped.2 in
      λ i. record { records = (dropped.0 ∙ applied.0) i; opened = dropped.1 i }
