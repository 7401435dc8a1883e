-- ===== src/ClientState/Interruptions.antt =====
-- server/client-state.ts: the conversations that were still streaming when the server stopped.
use dispatch_web.Base.{
  refl, take, nat_eq, string_eq, text_is_eq, String, ◌≡◌, none, some, List, ◌∷◌, arith, lookup,
  lookup-insert, ◌∙◌, ===_refl,
}
use dispatch_web.ClientState.{
  ClientStateStore, ClientState, state_of, put, Interrupted, save, save_interrupted,
  take_interrupted, max_interrupted,
}

save-cache : (s : ClientStateStore) → (save s).cache ≡ s.cache
unfolding save
save-cache s = ground arith

pub take_interrupted-some :
    (client_id : String) (s : ClientStateStore) (state : ClientState) (x : Interrupted)
    (xs : List Interrupted)
    → lookup client_id s.cache ≡ some state
    → state.interrupted ≡ some (x ∷ xs)
    → take_interrupted client_id s
      ≡ (save (put client_id (record state { interrupted = none }) s), some (x ∷ xs))
unfolding take_interrupted save
take_interrupted-some client_id s state x xs h e = simp (take_interrupted, h, e) (ground arith)

take_interrupted-none :
    (client_id : String) (s : ClientStateStore) (state : ClientState)
    → lookup client_id s.cache ≡ some state
    → state.interrupted ≡ none
    → take_interrupted client_id s ≡ (s, none)
unfolding take_interrupted save
take_interrupted-none client_id s state h e = simp (take_interrupted, h, e) refl

pub lookup-save-put :
    (client_id : String) (state : ClientState) (s : ClientStateStore)
    → lookup client_id (save (put client_id state s)).cache ≡ some state
lookup-save-put client_id state s =
    rw (save-cache (put client_id state s))
      (lookup-insert client_id client_id state s.cache ∙ simp (===_refl client_id) refl)

pub save_interrupted_cons :
    (client_id : String) (first : Interrupted) (list : List Interrupted) (s : ClientStateStore)
    → save_interrupted client_id (first ∷ list) s
      ≡ save (
          put client_id
            (record (state_of client_id s) {
              interrupted = some (take max_interrupted (first ∷ list));
            })
            s)
unfolding save_interrupted save
save_interrupted_cons client_id first list s = ground arith

-- What is saved for a client is taken once: the first eight conversations, and after that
-- nothing, and taking nothing changes nothing. The list that is saved is not empty.
pub save_interrupted-take_interrupted :
    (client_id : String) (first : Interrupted) (list : List Interrupted) (s : ClientStateStore)
    → let saved = save_interrupted client_id (first ∷ list) s in
      let (taken, got) = take_interrupted client_id saved in
      (got ≡ some (take max_interrupted (first ∷ list)))
      × (take_interrupted client_id taken ≡ (taken, none))
save_interrupted-take_interrupted client_id first list s =
    let state = record (state_of client_id s) {
      interrupted = some (take max_interrupted (first ∷ list));
    } in
    let q = save_interrupted_cons client_id first list s in
    let r =
      take_interrupted-some client_id (save (put client_id state s)) state first (take 7 list)
        (lookup-save-put client_id state s) refl in
    let taken =
      save (put client_id (record state { interrupted = none }) (save (put client_id state s))) in
    rw (q, r)
      (
        refl,
        take_interrupted-none client_id taken (record state { interrupted = none })
            (lookup-save-put client_id (record state { interrupted = none })
              (save (put client_id state s)))
            refl,
      )
