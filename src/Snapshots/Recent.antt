-- ===== src/Snapshots/Recent.antt =====
-- Which conversations keep their message lists mounted.
use dispatch_web.Base.{
  append-Distinct, Bool-cases, length, All, length-append, All-append, nat_eq, string_eq, Distinct,
  lookup, keys, ℕ, ◌≤◌, max, String, ◌≡◌, refl, ◌⊎◌, inl, inr, true, Option, none, some, List, [],
  ◌∷◌, ◌++◌, reverse, arith, str_eq,
}
use dispatch_web.Snapshots.{Snapshots, has_messages, recent_from, recent_conversation_ids}

module _ {M R : Type 0} where
  recent_from_bound :
      (cache : Snapshots M R) (n : ℕ) (ids out : List String)
      → length (recent_from cache n ids out) ≤ max n (length out)
  unfolding recent_from
  recent_from_bound cache n [] out = omega arith
  recent_from_bound cache n (id ∷ ids) out = ground (
    arith,
    recent_from_bound cache n ids out,
    recent_from_bound cache n ids (out ++ id ∷ []),
    length-append out (id ∷ []),
  )

  recent_from-Distinct :
      (cache : Snapshots M R) (n : ℕ) (ids out : List String)
      → Distinct out
      → Distinct (recent_from cache n ids out)
  unfolding recent_from
  recent_from-Distinct cache n [] out d = d
  recent_from-Distinct cache n (id ∷ ids) out d = ground (
    arith,
    recent_from-Distinct cache n ids out,
    recent_from-Distinct cache n ids (out ++ id ∷ []),
    append-Distinct id out,
  )

  -- The id is that of a cached conversation with messages.
  abbrev pub IsParked : Snapshots M R → String → Type 0
  IsParked cache id = has_messages (lookup id cache) ≡ true

  recent_from-IsParked :
      (P : String → Type 0) (cache : Snapshots M R) (n : ℕ) (ids out : List String)
      → ((id : String) → IsParked cache id → P id)
      → All P out
      → All P (recent_from cache n ids out)
  unfolding recent_from
  recent_from-IsParked P cache n [] out f a = a
  recent_from-IsParked P cache n (id ∷ ids) out f a = ground (
    arith,
    recent_from-IsParked P cache n ids out f,
    recent_from-IsParked P cache n ids (out ++ id ∷ []) f,
    All-append P out (id ∷ []) a,
    f id,
  )

  -- At most `n` ids are returned (one, if `n` is 0 and a conversation is shown), none twice, and
  -- each is the one that is shown or a cached conversation that has messages.
  pub recent_conversation_ids_lem :
      (current : Option String) (cache : Snapshots M R) (n : ℕ)
      → (length (recent_conversation_ids current cache n) ≤ max n 1)
        × Distinct (recent_conversation_ids current cache n)
        × All
            (λ id. (current ≡ some id) ⊎ IsParked cache id)
            (recent_conversation_ids current cache n)
  unfolding recent_conversation_ids
  recent_conversation_ids_lem none cache n = (
    omega (arith, recent_from_bound cache n (reverse (keys cache)) []),
    recent_from-Distinct cache n (reverse (keys cache)) [] tt,
    recent_from-IsParked _ cache n (reverse (keys cache)) [] (λ i p. inr p) tt,
  )
  recent_conversation_ids_lem (some c) cache n = elim (Bool-cases (str_eq c "")) [
    | inl empty ↦
        rw (empty, recent_conversation_ids)
          (
            omega (arith, recent_from_bound cache n (reverse (keys cache)) []),
            recent_from-Distinct cache n (reverse (keys cache)) [] tt,
            recent_from-IsParked _ cache n (reverse (keys cache)) [] (λ i p. inr p) tt,
          )
    | inr shown ↦
        rw (shown, recent_conversation_ids)
          (
            omega (arith, recent_from_bound cache n (reverse (keys cache)) (c ∷ [])),
            recent_from-Distinct cache n (reverse (keys cache)) (c ∷ []) (refl, tt),
            recent_from-IsParked _ cache n (reverse (keys cache)) (c ∷ []) (λ i p. inr p)
                (inl refl, tt),
          )
  ]
