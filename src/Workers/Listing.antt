-- ===== src/Workers/Listing.antt =====
-- server/workers.ts: which workers are known, and which of them are followed, after a report.
use dispatch_web.Base.{
  Bool, true, false, refl, if◌then◌else◌, ◌&&◌, not, ◌==◌, ==_iff, Option-cases, nat_eq, string_eq,
  has, lookup, keys, has-keys, has-keys-insert, text_is_eq, ℕ, ◌≡◌, inl, inr, ◌||◌, none, some,
  List, [], ◌∷◌, arith, ◌∙◌, Bool, true, add, Bool-cases, has-add, has-delete, false, insert,
}
use dispatch_web.Base.{refl, if◌then◌else◌, ◌&&◌, not, arith, ◌≡◌, inl, inr, ◌==◌, ◌||◌, ==_iff}
use dispatch_web.Workers.{
  BridgeWorker, Records, apply_worker, WorkerRecord, apply_workers, drop_unseen, apply_list,
  WorkerHub,
}

-- The ids of a report, of the entries that have one.
unfoldable pub ids_of : List BridgeWorker → List ℕ
ids_of [] = []
ids_of (w ∷ workers) = elim w.id [ none ↦ ids_of workers | some id ↦ id ∷ ids_of workers ]

module _ {L : Type 0} where
  abbrev chosen : Bool → Records L → Records L → Records L × Bool
  chosen changed new old = if changed then (new, true) else (old, false)

  has-keys-written :
      (id q : ℕ) (rec : WorkerRecord L) (changed : Bool) (records : Records L)
      → has id (keys records) ≡ true
      → has q (keys (chosen changed (insert id rec records) records).0)
        ≡ (id == q || has q (keys records))
  has-keys-written id q rec changed records known = elim (Bool-cases changed) [
    | inl e ↦ simp (e) (has-keys-insert id q rec records)
    | inr e ↦ simp (e) (ground (arith, known, ==_iff id q))
  ]

  has-keys-apply_worker :
      (now id q : ℕ) (w : BridgeWorker) (records : Records L)
      → has q (keys (apply_worker now id w records).0) ≡ (id == q || has q (keys records))
  unfolding apply_worker
  has-keys-apply_worker now id q w records = elim (Option-cases (lookup id records)) [
    | inl e ↦ simp (apply_worker, e) (has-keys-insert id q _ records)
    | inr (rec, e) ↦
        simp (apply_worker, e)
          (has-keys-written id q _ _ records (has-keys id records ∙ simp (e) refl))
  ]

  apply_workers-has :
      (now q : ℕ) (workers : List BridgeWorker) (records : Records L) (seen : List ℕ)
      (changed : Bool)
      → let (next, result, seen') = apply_workers now workers records seen changed in
        (has q (keys next) ≡ (has q (ids_of workers) || has q (keys records)))
        × (has q seen' ≡ (has q (ids_of workers) || has q seen))
  unfolding apply_workers ids_of
  apply_workers-has now q [] records seen changed = (refl, refl)
  apply_workers-has now q (w ∷ workers) records seen changed = elim (Option-cases w.id) [
    | inl e ↦ simp (apply_workers, ids_of, e) (apply_workers-has now q workers records seen changed)
    | inr (id, e) ↦
        (let next = (apply_worker now id w records).0 in
          let this = (apply_worker now id w records).1 in
          let later = apply_workers-has now q workers next (add id seen) (changed || this) in
          let known = has-keys-apply_worker now id q w records in
          simp (apply_workers, ids_of, e)
            (later.0 ∙ ground (arith, known), later.1 ∙ ground (arith, has-add id q seen)))
  ]

  drop_unseen-has :
      (q : ℕ) (seen : List ℕ) (records : Records L) (opened : List ℕ) (changed : Bool)
      → let (kept, left, result) = drop_unseen seen records opened changed in
        (has q (keys kept) ≡ (has q seen && has q (keys records)))
        × (has q left ≡ (has q opened && (has q seen || not (has q (keys records)))))
  unfolding drop_unseen
  drop_unseen-has q seen [] opened changed = (ground arith, ground arith)
  drop_unseen-has q seen ((id, rec) ∷ records) opened changed =
      let later = drop_unseen-has q seen records opened changed in
      let left = (drop_unseen seen records opened changed).1 in
      elim (Bool-cases (has id seen)) [
        | inl e ↦
            simp (drop_unseen, e)
              (ground (arith, later.0, ==_iff id q, e), ground (arith, later.1, ==_iff id q, e))
        | inr e ↦
            simp (drop_unseen, e)
              (
                ground (arith, later.0, ==_iff id q, e),
                has-delete id q left ∙ ground (arith, later.1, ==_iff id q, ==_iff q id, e),
              )
      ]

  -- After a report exactly the reported workers are known, and of the workers that a client
  -- followed, which were known, exactly the reported ones are still followed.
  pub apply_list-has :
      (now q : ℕ) (workers : List BridgeWorker) (hub : WorkerHub L)
      → (has q hub.opened ≡ true → has q (keys hub.records) ≡ true)
      → let (next, changed) = apply_list now workers hub in
        (has q (keys next.records) ≡ has q (ids_of workers))
        × (has q next.opened ≡ (has q hub.opened && has q (ids_of workers)))
  unfolding apply_list
  apply_list-has now q workers hub known =
      let (records, changed, seen) = apply_workers now workers hub.records [] false in
      let applied = apply_workers-has now q workers hub.records [] false in
      let dropped = drop_unseen-has q seen records hub.opened changed in
      (
        dropped.0 ∙ ground (arith, applied.0, applied.1),
        dropped.1 ∙ ground (arith, applied.0, applied.1, known),
      )
