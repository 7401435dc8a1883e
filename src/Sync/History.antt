-- ===== src/Sync/History.antt =====
-- The states that the server has had, and what a client makes of the messages.

use dispatch_web.Base.{
  refl, Member, ◌==◌, nat_eq, ◌==◌, Bool-cases, Option-cases, All, nat_eq, string_eq, lookup,
  All-lookup, text_is_eq, ℕ, String, ◌≡◌, inl, inr, some, List, [], ◌∷◌, arith,
}
use dispatch_web.Snapshots.{UiState, Snapshots, cache_snapshot, snapshot_cache_max}
use dispatch_web.Snapshots.Cache.{cache_snapshot-All}
use dispatch_web.Sync.{snapshot, snapshot_delta, Client, chains, merge, merge_cached, reduce}

module _ {M R : Type 0} where
  -- `u` is the state `w` of the server, but that it may have an error message or a session file
  -- that `w` no longer has.
  pub record Mirrors (u w : UiState M R) : Type 0 where
    pub same : u ≡ record w { error_message = u.error_message; session_file = u.session_file }
    pub error : (e : String) → w.error_message ≡ some e → u.error_message ≡ some e
    pub file : (f : String) → w.session_file ≡ some f → u.session_file ≡ some f

  pub itself-Mirrors : (u : UiState M R) → Mirrors u u
  itself-Mirrors u = record { same = refl; error = λ e h. h; file = λ f h. h }

  -- `u` agrees with a state that the server has had.
  abbrev pub IsKnown : List (UiState M R) → UiState M R → Type 0
  IsKnown hist u = (w : UiState M R) × Member w hist × Mirrors u w

  IsKnown-later :
      (s u : UiState M R) (hist : List (UiState M R)) → IsKnown hist u → IsKnown (s ∷ hist) u
  IsKnown-later s u hist (w, m, a) = (w, inr m, a)

  -- Every state that the client shows or keeps agrees with one that the server has had.
  pub record IsFaithful (hist : List (UiState M R)) (c : Client M R) : Type 0 where
    pub shown : (u : UiState M R) → c.state ≡ some u → IsKnown hist u
    pub cached : All (λ x. IsKnown hist x.1) c.snapshots_by_id

  All-later :
      (s : UiState M R) (hist : List (UiState M R)) (m : Snapshots M R)
      → All (λ x. IsKnown hist x.1) m
      → All (λ x. IsKnown (s ∷ hist) x.1) m
  All-later s hist [] a = tt
  All-later s hist (x ∷ m) a = (IsKnown-later s x.1 hist a.0, All-later s hist m a.1)

  pub later :
      {hist : List (UiState M R)} {c : Client M R} (s : UiState M R)
      → IsFaithful hist c
      → IsFaithful (s ∷ hist) c
  later {hist} {c} s f = record {
    shown = λ u h. IsKnown-later s u hist (f.shown u h);
    cached = All-later s hist c.snapshots_by_id f.cached;
  }

  -- The client shows a state that the server has had.
  shows :
      {hist : List (UiState M R)} {c : Client M R} (s : UiState M R)
      → IsFaithful hist c
      → IsKnown hist s
      → IsFaithful hist (record {
        state = some s;
        snapshots_by_id = cache_snapshot c.snapshots_by_id s snapshot_cache_max;
      })
  shows {hist} {c} s f i = record {
    shown = λ u h. (let q : u ≡ s = ground arith in rw q i);
    cached = cache_snapshot-All _ c.snapshots_by_id s snapshot_cache_max f.cached i;
  }

  keeps :
      {hist : List (UiState M R)} {c : Client M R} (s : UiState M R)
      → IsFaithful hist c
      → IsKnown hist s
      → IsFaithful hist
          (record c { snapshots_by_id = cache_snapshot c.snapshots_by_id s snapshot_cache_max })
  keeps {hist} {c} s f i = record {
    shown = f.shown;
    cached = cache_snapshot-All _ c.snapshots_by_id s snapshot_cache_max f.cached i;
  }

  -- What a delta does to each state with its base revision is in the history.
  abbrev pub IsChained : List (UiState M R) → ℕ → List M → UiState M R → Type 0
  IsChained hist base_rev appended light =
      (u : UiState M R) → IsKnown hist u → u.rev ≡ base_rev → IsKnown hist (merge u appended light)

  merge_cached-IsFaithful :
      {hist : List (UiState M R)} {c : Client M R} (conversation_id : String) (base_rev : ℕ)
      (appended : List M) (light : UiState M R)
      → IsFaithful hist c
      → IsChained hist base_rev appended light
      → IsFaithful hist (merge_cached conversation_id base_rev appended light c)
  unfolding merge_cached
  merge_cached-IsFaithful {hist} {c} id base_rev appended light f k =
      elim (Option-cases (lookup id c.snapshots_by_id)) [
        | inl h ↦ simp (merge_cached, h) f
        | inr (u, h) ↦ elim (Bool-cases (u.rev == base_rev)) [
          | inr q ↦ simp (merge_cached, h, q) f
          | inl q ↦
              simp (merge_cached, h, q)
                (keeps (merge u appended light) f (
                  k u (All-lookup (λ x. IsKnown hist x.1) id c.snapshots_by_id f.cached h).1
                    (ground arith)))
        ]
      ]

  pub delta-IsFaithful :
      {hist : List (UiState M R)} {c : Client M R} (conversation_id : String) (rev base_rev : ℕ)
      (appended : List M) (light : UiState M R)
      → IsFaithful hist c
      → IsChained hist base_rev appended light
      → IsFaithful hist (reduce (snapshot_delta conversation_id rev base_rev appended light) c)
  unfolding reduce
  delta-IsFaithful {hist} {c} id rev base_rev appended light f k = elim (Option-cases c.state) [
    | inl h ↦ simp (reduce, h) (merge_cached-IsFaithful id base_rev appended light f k)
    | inr (u, h) ↦ elim (Bool-cases (chains u id base_rev)) [
      | inr q ↦ simp (reduce, h, q) (merge_cached-IsFaithful id base_rev appended light f k)
      | inl q ↦
          simp (reduce, h, q) (shows (merge u appended light) f (k u (f.shown u h) (ground arith)))
    ]
  ]

  pub snapshot-IsFaithful :
      {hist : List (UiState M R)} {c : Client M R} (s : UiState M R)
      → IsFaithful hist c
      → IsKnown hist s
      → IsFaithful hist (reduce (snapshot s) c)
  unfolding reduce
  snapshot-IsFaithful s f i = shows s f i
