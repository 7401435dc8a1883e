-- ===== src/Service/Admission.antt =====
-- One session for each client, and none begun while the service drains.
use dispatch_web.Base.{
  sym, ap, refl, ◌∙◌, if◌then◌else◌, ℕ, Bool-cases, Option-cases, nat_eq, string_eq, has, delete,
  has-delete, Distinct, lookup, insert, keys, has-keys, has-keys-remove, has-keys-insert,
  text_is_eq, String, ◌≡◌, inl, inr, Bool, true, false, ◌||◌, Option, none, List, [], ◌∷◌, arith,
}
use dispatch_web.Service.{
  AgentService, attach, settle, quiesce, Attached, unquiesce, note_socket_open, note_socket_close,
}

-- Every client has at most one creation, running or done, and its session is the one created.
pub record IsAccounted (clients pending : List (String × String)) (creations : List String)
    : Type 0 where
  pub once : Distinct creations
  pub accounted : (j : String) → has j creations ≡ (has j (keys clients) || has j (keys pending))
  pub apart : (j : String) → has j (keys clients) ≡ true → has j (keys pending) ≡ false

abbrev pub IsService : AgentService → Type 0
IsService s = IsAccounted s.clients s.pending s.creations

delete-Distinct : (a : String) (xs : List String) → Distinct xs → Distinct (delete a xs)
delete-Distinct a [] d = tt
delete-Distinct a (x ∷ xs) d = ground (arith, delete-Distinct a xs d.1, has-delete a x xs)

begun :
    (id cwd : String) (s : AgentService)
    → IsService s
    → lookup id s.clients ≡ none
    → has id (keys s.pending) ≡ false
    → IsAccounted s.clients (insert id cwd s.pending) (id ∷ s.creations)
begun id cwd s v h k =
    let c : has id (keys s.clients) ≡ false = ground (arith, has-keys id s.clients) in
    record {
      once = (ground (arith, v.accounted id), v.once);
      accounted = λ j. ground (
        arith,
        v.accounted j,
        has-keys-insert id j cwd s.pending,
        string_eq.beq_iff id j,
        string_eq.beq_iff j id,
      );
      apart = λ j q.
          ground (arith, v.apart j, has-keys-insert id j cwd s.pending, string_eq.beq_iff id j);
    }

attach-IsService :
    (id : String) (last : Option String) (is_directory : String → Bool) (s : AgentService)
    → IsService s
    → IsService (attach id last is_directory s).0
unfolding attach
attach-IsService id last is_directory s v = elim (Option-cases (lookup id s.clients)) [
  | inr (cs, h) ↦ simp (attach, h) v
  | inl h ↦ elim (Bool-cases (has id (keys s.pending))) [
    | inl p ↦ simp (attach, h, p) v
    | inr p ↦ elim (Bool-cases s.quiesced) [
      | inl q ↦ simp (attach, h, p, q) v
      | inr q ↦ simp (attach, h, p, q) (begun id _ s v h p)
    ]
  ]
]

settle-IsService :
    (id : String) (created : Bool) (s : AgentService)
    → IsService s
    → IsService (settle id created s)
unfolding settle
settle-IsService id created s v = elim (Option-cases (lookup id s.pending)) [
  | inl h ↦ simp (settle, h) v
  | inr (cwd, h) ↦
      let p : has id (keys s.pending) ≡ true = ground (arith, has-keys id s.pending) in
      elim (Bool-cases created) [
        | inl c ↦
            simp (settle, h, c)
              (record {
                once = v.once;
                accounted = λ j. ground (
                  arith,
                  v.accounted j,
                  has-keys-insert id j cwd s.clients,
                  has-keys-remove id j s.pending,
                  string_eq.beq_iff id j,
                );
                apart = λ j q. ground (
                  arith,
                  v.apart j,
                  has-keys-insert id j cwd s.clients,
                  has-keys-remove id j s.pending,
                  string_eq.beq_iff id j,
                );
              })
        | inr c ↦
            simp (settle, h, c)
              (record {
                once = delete-Distinct id s.creations v.once;
                accounted = λ j. ground (
                  arith,
                  v.accounted j,
                  v.apart j,
                  has-delete id j s.creations,
                  has-keys-remove id j s.pending,
                  string_eq.beq_iff id j,
                  string_eq.beq_iff j id,
                );
                apart = λ j q. ground (arith, v.apart j, has-keys-remove id j s.pending);
              })
      ]
]

-- What the browser's sockets and the control socket ask for, and the end of a creation.
pub data Call : Type 0 where
  attaching : String → Option String → (String → Bool) → Call
  settling : String → Bool → Call
  quiescing : ℕ → Call
  unquiescing : Call
  socket_opened : Call
  socket_closed : Call

unfoldable pub step : Call → AgentService → AgentService
step (attaching id last is_directory) s = (attach id last is_directory s).0
step (settling id created) s = settle id created s
step (quiescing now) s = quiesce now s
step unquiescing s = unquiesce s
step socket_opened s = note_socket_open s
step socket_closed s = note_socket_close s

unfoldable pub run : List Call → AgentService → AgentService
run [] s = s
run (c ∷ cs) s = run cs (step c s)

step-IsService : (c : Call) (s : AgentService) → IsService s → IsService (step c s)
unfolding step quiesce unquiesce note_socket_open note_socket_close
step-IsService (attaching id last is_directory) s v = attach-IsService id last is_directory s v
step-IsService (settling id created) s v = settle-IsService id created s v
step-IsService (quiescing now) s v = v
step-IsService unquiescing s v = v
step-IsService socket_opened s v = v
step-IsService socket_closed s v = v

-- However the calls interleave with the ends of creations, failed ones included, no client ever has
-- two creations that run or have succeeded, each client with a session or a running creation has
-- one, and none has both.
pub run-IsService : (cs : List Call) (s : AgentService) → IsService s → IsService (run cs s)
unfolding run
run-IsService [] s v = v
run-IsService (c ∷ cs) s v = run-IsService cs (step c s) (step-IsService c s v)

abbrev pub keeps_quiesced : List Call → Bool
keeps_quiesced [] = true
keeps_quiesced (unquiescing ∷ cs) = false
keeps_quiesced (attaching id last is_directory ∷ cs) = keeps_quiesced cs
keeps_quiesced (settling id created ∷ cs) = keeps_quiesced cs
keeps_quiesced (quiescing now ∷ cs) = keeps_quiesced cs
keeps_quiesced (socket_opened ∷ cs) = keeps_quiesced cs
keeps_quiesced (socket_closed ∷ cs) = keeps_quiesced cs

chosen : (b : Bool) (x y : AgentService × Attached) → b ≡ true → (if b then x else y) ≡ x
chosen true x y h = refl
chosen false x y h = absurd (ground arith)

attach-quiesced :
    (id : String) (last : Option String) (is_directory : String → Bool) (s : AgentService)
    → s.quiesced ≡ true
    → (attach id last is_directory s).0 ≡ s
unfolding attach
attach-quiesced id last is_directory s q = elim (Option-cases (lookup id s.clients)) [
  | inr (cs, h) ↦ rw (attach, h) refl
  | inl h ↦ elim (Bool-cases (has id (keys s.pending))) [
    | inl p ↦ rw (attach, h, p) refl
    | inr p ↦ rw (attach, h, p) (ap (λ x. x.0) (chosen s.quiesced _ _ q))
  ]
]

settle-creations :
    (id : String) (created : Bool) (s : AgentService) (j : String)
    → has j (settle id created s).creations ≡ true
    → has j s.creations ≡ true
unfolding settle
settle-creations id created s j h = elim (Option-cases (lookup id s.pending)) [
  | inl k ↦ rw (settle, k) at h
  | inr (cwd, k) ↦ elim (Bool-cases created) [
    | inl c ↦ rw (settle, k, c) at h
    | inr c ↦ let q = (rw (settle, k, c) at h) in ground (arith, has-delete id j s.creations)
  ]
]

settle-quiesced :
    (id : String) (created : Bool) (s : AgentService) → (settle id created s).quiesced ≡ s.quiesced
unfolding settle
settle-quiesced id created s = elim (Option-cases (lookup id s.pending)) [
  | inl k ↦ rw (settle, k) refl
  | inr (cwd, k) ↦ elim (Bool-cases created) [
    | inl c ↦ rw (settle, k, c) refl
    | inr c ↦ rw (settle, k, c) refl
  ]
]

-- A service that drains admits nobody new: from a quiesced service, whatever calls follow short of
-- `unquiesce`, every creation was already there before.
pub run-quiesced :
    (cs : List Call) (s : AgentService) (j : String)
    → s.quiesced ≡ true
    → keeps_quiesced cs ≡ true
    → has j (run cs s).creations ≡ true
    → has j s.creations ≡ true
unfolding run step quiesce unquiesce note_socket_open note_socket_close
run-quiesced [] s j q k h = h
run-quiesced (unquiescing ∷ cs) s j q k h = absurd (ground arith)
run-quiesced (attaching id last is_directory ∷ cs) s j q k h =
    let e = ap (λ x. has j (run cs x).creations) (attach-quiesced id last is_directory s q) in
    run-quiesced cs s j q k (sym e ∙ h)
run-quiesced (settling id created ∷ cs) s j q k h =
    settle-creations id created s j
      (run-quiesced cs (settle id created s) j (settle-quiesced id created s ∙ q) k h)
run-quiesced (quiescing now ∷ cs) s j q k h = run-quiesced cs (quiesce now s) j refl k h
run-quiesced (socket_opened ∷ cs) s j q k h = run-quiesced cs (note_socket_open s) j q k h
run-quiesced (socket_closed ∷ cs) s j q k h = run-quiesced cs (note_socket_close s) j q k h
