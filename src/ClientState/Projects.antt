-- ===== src/ClientState/Projects.antt =====
-- server/client-state.ts: the projects of a client, and the ones it removed.
use dispatch_web.Base.{
  Bool-cases, Option-cases, or_else, length, take, All, length-take, length-filter-le, ◌===◌,
  nat_eq, string_eq, has, ===_refl, has-add, has-delete, Distinct, text_is_eq, ℕ, zero, suc, ◌≤◌,
  String, ◌≡◌, refl, inl, inr, false, not, ◌&&◌, List, [], ◌∷◌, map, arith, All-take, lookup,
  All-insert, All-lookup,
}
use dispatch_web.ClientState.{
  ClientState, Project, remembered, without_project, new_state, other_paths, max_projects, Clients,
  ClientStateStore, save, state_of, put,
}

abbrev pub paths : List Project → List String
paths = map (λ p. p.path)

-- Of what the object of a client keeps: at most thirty projects, no path twice, none of them
-- removed.
pub record IsTidy (state : ClientState) : Type 0 where
  pub few : length state.projects ≤ max_projects
  pub distinct : Distinct (paths state.projects)
  pub listed : All (λ p. has p.path (or_else state.removed_projects []) ≡ false) state.projects

new_state-IsTidy : IsTidy new_state
new_state-IsTidy = record { few = omega arith; distinct = tt; listed = tt }

has-paths-other_paths :
    (cwd q : String) (ps : List Project)
    → has q (paths (other_paths cwd ps)) ≡ (not (cwd === q) && has q (paths ps))
has-paths-other_paths cwd q [] = ground arith
has-paths-other_paths cwd q (p ∷ ps) = ground (
  arith,
  has-paths-other_paths cwd q ps,
  string_eq.beq_iff cwd q,
  string_eq.beq_iff p.path cwd,
  string_eq.beq_iff p.path q,
)

other_paths-Distinct :
    (cwd : String) (ps : List Project) → Distinct (paths ps) → Distinct (paths (other_paths cwd ps))
other_paths-Distinct cwd [] d = tt
other_paths-Distinct cwd (p ∷ ps) d =
    ground (arith, other_paths-Distinct cwd ps d.1, has-paths-other_paths cwd p.path ps)

has-paths-take :
    (n : ℕ) (q : String) (ps : List Project)
    → has q (paths ps) ≡ false
    → has q (paths (take n ps)) ≡ false
has-paths-take zero q ps h = refl
has-paths-take (suc n) q [] h = refl
has-paths-take (suc n) q (p ∷ ps) h = ground (arith, has-paths-take n q ps)

take-Distinct : (n : ℕ) (ps : List Project) → Distinct (paths ps) → Distinct (paths (take n ps))
take-Distinct zero ps d = tt
take-Distinct (suc n) [] d = tt
take-Distinct (suc n) (p ∷ ps) d = (has-paths-take n p.path ps d.0, take-Distinct n ps d.1)

All-other_paths :
    (P : Project → Type 0) (Q : Project → Type 0) (cwd : String) (ps : List Project)
    → ((p : Project) → (cwd === p.path) ≡ false → P p → Q p)
    → All P ps
    → All Q (other_paths cwd ps)
All-other_paths P Q cwd [] f a = tt
All-other_paths P Q cwd (p ∷ ps) f a = elim (Bool-cases (p.path === cwd)) [
  | inl same ↦ simp (same) (All-other_paths P Q cwd ps f a.1)
  | inr other ↦ simp (other) (
    f p (ground (arith, string_eq.beq_iff p.path cwd, string_eq.beq_iff cwd p.path)) a.0,
    All-other_paths P Q cwd ps f a.1,
  )
]

remembered-removed :
    (cwd : String) (now : ℕ) (state : ClientState) (q : String)
    → has q (or_else (remembered cwd now state).removed_projects [])
      ≡ (not (cwd === q) && has q (or_else state.removed_projects []))
remembered-removed cwd now state q = elim (Option-cases state.removed_projects) [
  | inl e ↦ simp (e) (ground arith)
  | inr ([], e) ↦ simp (e) (ground arith)
  | inr (r ∷ rs, e) ↦
      simp (e) (
        ground (arith, has-delete cwd q (r ∷ rs), string_eq.beq_iff cwd q, string_eq.beq_iff q cwd))
]

pub remembered-IsTidy :
    (cwd : String) (now : ℕ) (state : ClientState)
    → IsTidy state
    → IsTidy (remembered cwd now state)
remembered-IsTidy cwd now state tidy = record {
  few = ground (
    arith,
    length-take max_projects
        (record { path = cwd; last_used = now } ∷ other_paths cwd state.projects),
  );
  distinct =
      take-Distinct max_projects
        (record { path = cwd; last_used = now } ∷ other_paths cwd state.projects)
        (
          ground (arith, has-paths-other_paths cwd cwd state.projects, ===_refl cwd),
          other_paths-Distinct cwd state.projects tidy.distinct,
        );
  listed = (
    ground (arith, remembered-removed cwd now state cwd, string_eq.beq_iff cwd cwd),
    All-take _ 29 (other_paths cwd state.projects) (
        All-other_paths _ _ cwd state.projects
          (λ p other h. ground (arith, remembered-removed cwd now state p.path)) tidy.listed),
  );
}

pub without_project-IsTidy :
    (cwd : String) (state : ClientState) → IsTidy state → IsTidy (without_project cwd state)
without_project-IsTidy cwd state tidy = record {
  few = ground (arith, length-filter-le (λ p. not (p.path === cwd)) state.projects, tidy.few);
  distinct = other_paths-Distinct cwd state.projects tidy.distinct;
  listed =
      All-other_paths _ _ cwd state.projects
        (λ p other h. ground (arith, has-add cwd p.path (or_else state.removed_projects [])))
        tidy.listed;
}

abbrev pub AllTidy : Clients → Type 0
AllTidy = All (λ entry. IsTidy entry.1)

-- What is read for a client of a tidy store, one that is not there included.
pub state_of-IsTidy :
    (client_id : String) (s : ClientStateStore) → AllTidy s.cache → IsTidy (state_of client_id s)
state_of-IsTidy client_id s a = elim (Option-cases (lookup client_id s.cache)) [
  | inl e ↦ rw (e) new_state-IsTidy
  | inr (state, e) ↦ rw (e) (All-lookup _ client_id s.cache a e).1
]

pub save-AllTidy : (s : ClientStateStore) → AllTidy s.cache → AllTidy (save s).cache
unfolding save
save-AllTidy s a = ground (arith, a)

pub save-put-AllTidy :
    (client_id : String) (state : ClientState) (s : ClientStateStore)
    → IsTidy state
    → AllTidy s.cache
    → AllTidy (save (put client_id state s)).cache
save-put-AllTidy client_id state s t a =
    save-AllTidy (put client_id state s) (All-insert _ client_id state s.cache a t)
