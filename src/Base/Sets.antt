-- ===== src/Base/Sets.antt =====
-- `Set` of the source: a list in insertion order, with a test of equality that is taken as an
-- instance.
use Prim.Native.Nat.{ℕ}
use Prim.Native.String.{String}
use mathlib.Core.Path.{◌∙◌, ◌≡◌, refl}
use mathlib.Core.Logic.{◌↔◌}
use mathlib.Core.Bool.{Bool, true, false, not, ◌&&◌, ◌||◌}
use mathlib.Core.Option.{Option, none, some}
use mathlib.Core.List.{List, [], ◌∷◌, ◌++◌}
use native.Mathlib.Omega.{arith}
use text.Mathlib.Text.{◌==◌ as str_eq}
use text.Mathlib.TextEquality.{eq_iff}
use dispatch_web.Base.Tests.{◌==◌, ==_iff, if◌then◌else◌}
use dispatch_web.Base.Lists.{filter}

pub record Eq {ℓ} (A : Type ℓ) : Type ℓ where
  pub beq : A → A → Bool
  pub beq_iff : (a b : A) → (beq a b ≡ true) ↔ (a ≡ b)

infix 50 ◌===◌
abbrev pub ◌===◌ {ℓ} : {A : Type ℓ} ⦃e : Eq A⦄ → A → A → Bool
◌===◌ ⦃e⦄ = e.beq

instance abbrev pub nat_eq : Eq ℕ
nat_eq = record { beq = ◌==◌; beq_iff = ==_iff }

instance abbrev pub string_eq : Eq String
string_eq = record { beq = str_eq; beq_iff = eq_iff }

-- `o === s` for a text that may be missing.
abbrev pub is_text : String → Option String → Bool
is_text s none = false
is_text s (some t) = str_eq t s

pub str_eq_ne : (s t : String) → ¬ (s ≡ t) → str_eq s t ≡ false
str_eq_ne s t h = ground (arith, eq_iff s t)

module _ {ℓ} {A : Type ℓ} ⦃e : Eq A⦄ where
  abbrev pub has : A → List A → Bool
  has a [] = false
  has a (x ∷ xs) = x === a || has a xs

  -- `Set.add`: an element that is there keeps its place.
  abbrev pub add : A → List A → List A
  add a xs = if has a xs then xs else xs ++ a ∷ []

  abbrev pub delete : A → List A → List A
  delete a = filter (λ x. not (x === a))

  pub ===_refl : (a : A) → (a === a) ≡ true
  ===_refl a = (e.beq_iff a a).1 refl

  pub has_middle : (a : A) (xs ys : List A) → has a (xs ++ a ∷ ys) ≡ true
  has_middle a [] ys = rw (===_refl a) refl
  has_middle a (x ∷ xs) ys = ground (arith, has_middle a xs ys)

  pub has-append : (a : A) (xs ys : List A) → has a (xs ++ ys) ≡ (has a xs || has a ys)
  has-append a [] ys = refl
  has-append a (x ∷ xs) ys = ground (arith, has-append a xs ys)

  pub has-add : (a b : A) (xs : List A) → has b (add a xs) ≡ (a === b || has b xs)
  has-add a b xs = ground (arith, has-append b xs (a ∷ []), e.beq_iff a b)

  pub has-filter : (p : A → Bool) (a : A) (xs : List A) → has a (filter p xs) ≡ (p a && has a xs)
  has-filter p a [] = ground arith
  has-filter p a (x ∷ xs) = ground (arith, has-filter p a xs, e.beq_iff x a)

  pub has-delete : (a b : A) (xs : List A) → has b (delete a xs) ≡ (not (b === a) && has b xs)
  has-delete a b xs = has-filter (λ x. not (x === a)) b xs

  -- `for (const x of xs) s.add(x)`, and with `delete`.
  abbrev pub adds : List A → List A → List A
  adds [] s = s
  adds (x ∷ xs) s = adds xs (add x s)

  abbrev pub deletes : List A → List A → List A
  deletes [] s = s
  deletes (x ∷ xs) s = deletes xs (delete x s)

  pub has-adds : (a : A) (xs s : List A) → has a (adds xs s) ≡ (has a xs || has a s)
  has-adds a [] s = refl
  has-adds a (x ∷ xs) s = has-adds a xs (add x s) ∙ ground (arith, has-add x a s)

  pub has-deletes : (a : A) (xs s : List A) → has a (deletes xs s) ≡ (not (has a xs) && has a s)
  has-deletes a [] s = refl
  has-deletes a (x ∷ xs) s =
      has-deletes a xs (delete x s) ∙ ground (arith, has-delete x a s, e.beq_iff a x, e.beq_iff x a)
