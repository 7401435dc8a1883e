-- ===== src/Base/Maps.antt =====
-- `Map` of the source: a list of entries in insertion order, each key once.
use Prim.Native.Nat.{◌+◌, ◌≤◌}
use mathlib.Core.Path.{◌≡◌, refl}
use mathlib.Core.Bool.{true, false, not, ◌&&◌, ◌||◌}
use mathlib.Core.Logic.{inl, inr}
use mathlib.Core.Option.{Option, none, some}
use mathlib.Core.List.{List, [], ◌∷◌, ◌++◌}
use native.Mathlib.Omega.{arith}
use dispatch_web.Base.Tests.{Bool-cases, if◌then◌else◌, is_some}
use dispatch_web.Base.Lists.{All, length}
use dispatch_web.Base.Sets.{Eq, ◌===◌, has, has-append}

module _ {ℓ} {K : Type ℓ} ⦃e : Eq K⦄ where
  -- No key stands twice.
  abbrev pub Distinct : List K → Type 0
  Distinct [] = Unit
  Distinct (k ∷ ks) = (has k ks ≡ false) × Distinct ks

  pub append-Distinct :
      (k : K) (ks : List K) → has k ks ≡ false → Distinct ks → Distinct (ks ++ k ∷ [])
  append-Distinct k [] h d = (refl, tt)
  append-Distinct k (j ∷ ks) h d =
      ground (arith, append-Distinct k ks, has-append j ks (k ∷ []), e.beq_iff j k, e.beq_iff k j)

module _ {ℓ κ} {K : Type ℓ} {V : Type κ} ⦃e : Eq K⦄ where
  abbrev pub lookup : K → List (K × V) → Option V
  lookup k [] = none
  lookup k ((j, v) ∷ m) = if j === k then some v else lookup k m

  -- `Map.set`: a key that is there keeps its place.
  abbrev pub insert : K → V → List (K × V) → List (K × V)
  insert k v [] = (k, v) ∷ []
  insert k v ((j, w) ∷ m) = if j === k then (k, v) ∷ m else (j, w) ∷ insert k v m

  abbrev pub remove : K → List (K × V) → List (K × V)
  remove k [] = []
  remove k ((j, w) ∷ m) = if j === k then remove k m else (j, w) ∷ remove k m

  abbrev pub keys : List (K × V) → List K
  keys [] = []
  keys ((j, w) ∷ m) = j ∷ keys m

  pub lookup-insert :
      (k j : K) (v : V) (m : List (K × V))
      → lookup j (insert k v m) ≡ (if k === j then some v else lookup j m)
  lookup-insert k j v [] = refl
  lookup-insert k j v ((i, w) ∷ m) =
      ground (arith, e.beq_iff k j, e.beq_iff i k, e.beq_iff i j, lookup-insert k j v m)

  pub lookup-remove :
      (k j : K) (m : List (K × V)) → lookup j (remove k m) ≡ (if k === j then none else lookup j m)
  lookup-remove k j [] = ground arith
  lookup-remove k j ((i, w) ∷ m) =
      ground (arith, e.beq_iff k j, e.beq_iff i k, e.beq_iff i j, lookup-remove k j m)

  pub has-keys : (k : K) (m : List (K × V)) → has k (keys m) ≡ is_some (lookup k m)
  has-keys k [] = refl
  has-keys k ((j, w) ∷ m) = ground (arith, has-keys k m)

  pub length-insert : (k : K) (v : V) (m : List (K × V)) → length (insert k v m) ≤ length m + 1
  length-insert k v [] = omega arith
  length-insert k v ((j, w) ∷ m) = ground (arith, length-insert k v m)

  pub remove_absent : (k : K) (m : List (K × V)) → has k (keys m) ≡ false → remove k m ≡ m
  remove_absent k [] h = refl
  remove_absent k ((i, w) ∷ m) h = ground (arith, remove_absent k m)

  pub length-insert-known :
      (k : K) (v : V) (m : List (K × V)) → has k (keys m) ≡ true → length (insert k v m) ≡ length m
  length-insert-known k v [] h = absurd (ground arith)
  length-insert-known k v ((i, w) ∷ m) h = ground (arith, length-insert-known k v m)

  pub length-remove : (k : K) (m : List (K × V)) → length (remove k m) ≤ length m
  length-remove k [] = omega arith
  length-remove k ((j, w) ∷ m) = ground (arith, length-remove k m)

  pub has-keys-remove :
      (k j : K) (m : List (K × V)) → has j (keys (remove k m)) ≡ (not (k === j) && has j (keys m))
  has-keys-remove k j [] = ground arith
  has-keys-remove k j ((i, w) ∷ m) =
      ground (arith, e.beq_iff k j, e.beq_iff i k, e.beq_iff i j, has-keys-remove k j m)

  pub remove-Distinct :
      (k : K) (m : List (K × V)) → Distinct (keys m) → Distinct (keys (remove k m))
  remove-Distinct k [] d = tt
  remove-Distinct k ((i, w) ∷ m) d = ground (arith, has-keys-remove k i m, remove-Distinct k m d.1)

  pub keys-append : (m n : List (K × V)) → keys (m ++ n) ≡ keys m ++ keys n
  keys-append [] n = refl
  keys-append ((i, w) ∷ m) n = ground (arith, keys-append m n)

  pub has-keys-insert :
      (k j : K) (v : V) (m : List (K × V))
      → has j (keys (insert k v m)) ≡ (k === j || has j (keys m))
  has-keys-insert k j v [] = refl
  has-keys-insert k j v ((i, w) ∷ m) =
      ground (arith, e.beq_iff k j, e.beq_iff i k, e.beq_iff i j, has-keys-insert k j v m)

  pub insert-Distinct :
      (k : K) (v : V) (m : List (K × V)) → Distinct (keys m) → Distinct (keys (insert k v m))
  insert-Distinct k v [] d = (refl, tt)
  insert-Distinct k v ((i, w) ∷ m) d =
      ground
        (arith, insert-Distinct k v m d.1, has-keys-insert k i v m, e.beq_iff k i, e.beq_iff i k)

  module _ {ι} (P : K × V → Type ι) where
    pub All-insert : (k : K) (v : V) (m : List (K × V)) → All P m → P (k, v) → All P (insert k v m)
    All-insert k v [] a p = (p, tt)
    All-insert k v ((i, w) ∷ m) a p = ground (arith, All-insert k v m a.1 p)

    pub All-remove : (k : K) (m : List (K × V)) → All P m → All P (remove k m)
    All-remove k [] a = tt
    All-remove k ((i, w) ∷ m) a = ground (arith, All-remove k m a.1)

    pub All-lookup :
        (k : K) (m : List (K × V)) {v : V}
        → All P m
        → lookup k m ≡ some v
        → (j : K) × P (j, v) × (j ≡ k)
    All-lookup k [] a h = cc
    All-lookup k ((i, w) ∷ m) {v} a h = elim (Bool-cases (i === k)) [
      | inl same ↦ (i, (let q : w ≡ v = ground arith in rw (← q) a.0), (e.beq_iff i k).0 same)
      | inr other ↦ All-lookup k m a.1 (rw other at h)
    ]
