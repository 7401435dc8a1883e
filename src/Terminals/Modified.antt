-- ===== src/Terminals/Modified.antt =====
-- server/terminals.ts: what a named key sends tells its modifiers.
use dispatch_web.Base.{
  ◌≢◌, ◌≡◌, refl, Bool-cases, inl, inr, Bool, true, false, not, ◌&&◌, ◌||◌, some, List, [], ◌∷◌,
  Text, text_eq, text_eq_iff, text_is_eq, lookup, all, Result, ok, err, arith,
}
use dispatch_web.Serialize.{to_string}
use dispatch_web.Terminals.Keys.{Modifiers, KeyError, named, named_code, encode_terminal_key}

abbrev pub modifiers : Bool → Bool → Bool → Modifiers
modifiers ctrl alt shift = record { ctrl = ctrl; alt = alt; shift = shift }

abbrev same_bool : Bool → Bool → Bool
same_bool true b = b
same_bool false b = not b

abbrev same_modifiers : Modifiers → Modifiers → Bool
same_modifiers m n = same_bool m.ctrl n.ctrl && same_bool m.alt n.alt && same_bool m.shift n.shift

same_bool_iff : (a b : Bool) → same_bool a b ≡ true → a ≡ b
same_bool_iff true b h = ground (arith, h)
same_bool_iff false true h = ground (arith, h)
same_bool_iff false false h = refl

same_modifiers_iff : (m n : Modifiers) → same_modifiers m n ≡ true → m ≡ n
same_modifiers_iff m n h =
    let c : m.ctrl ≡ n.ctrl = same_bool_iff m.ctrl n.ctrl (ground (arith, h)) in
    let a : m.alt ≡ n.alt = same_bool_iff m.alt n.alt (ground (arith, h)) in
    let s : m.shift ≡ n.shift = same_bool_iff m.shift n.shift (ground (arith, h)) in
    λ i. modifiers (c i) (a i) (s i)

abbrev for_all_bool : (Bool → Bool) → Bool
for_all_bool q = q true && q false

for_all_bool_lem : (q : Bool → Bool) → for_all_bool q ≡ true → (b : Bool) → q b ≡ true
for_all_bool_lem q h true = ground (arith, h)
for_all_bool_lem q h false = ground (arith, h)

abbrev for_all : (Modifiers → Bool) → Bool
for_all q = for_all_bool (λ c. for_all_bool (λ a. for_all_bool (λ s. q (modifiers c a s))))

for_all_lem : (q : Modifiers → Bool) → for_all q ≡ true → (m : Modifiers) → q m ≡ true
for_all_lem q h m =
    let at_ctrl =
      for_all_bool_lem (λ c. for_all_bool (λ a. for_all_bool (λ s. q (modifiers c a s)))) h
        m.ctrl in
    let at_alt =
      for_all_bool_lem (λ a. for_all_bool (λ s. q (modifiers m.ctrl a s))) at_ctrl m.alt in
    for_all_bool_lem (λ s. q (modifiers m.ctrl m.alt s)) at_alt m.shift

abbrev same_result : Result KeyError Text → Result KeyError Text → Bool
same_result (ok a) (ok b) = text_eq a b
same_result (ok a) (err e) = false
same_result (err e) r = true

same_result_refl : (r : Result KeyError Text) → same_result r r ≡ true
same_result_refl (ok a) = (text_eq_iff a a).1 refl
same_result_refl (err e) = refl

abbrev tells : (Text → Text) → Text → Modifiers → Modifiers → Bool
tells upper key m n =
    same_modifiers m n
    || not (same_result (encode_terminal_key upper key m) (encode_terminal_key upper key n))

abbrev tells_all : (Text → Text) → Text → Bool
tells_all upper key = for_all (λ m. for_all (tells upper key m))

named_tells : (upper : Text → Text) → all (λ entry. tells_all upper entry.0) named ≡ true
unfolding encode_terminal_key named named_code to_string
named_tells upper = refl

all-lookup :
    (p : Text → Bool) (entries : List (Text × Text)) (key bytes : Text)
    → all (λ entry. p entry.0) entries ≡ true
    → lookup key entries ≡ some bytes
    → p key ≡ true
all-lookup p [] key bytes h k = absurd (ground (arith, k))
all-lookup p (entry ∷ entries) key bytes h k = elim (Bool-cases (text_eq entry.0 key)) [
  | inl same ↦ rw (← (text_eq_iff entry.0 key).0 same) (ground (arith, h))
  | inr other ↦
      all-lookup p entries key bytes (ground (arith, h))
        (ground (arith, k, other, text_eq_iff entry.0 key, text_eq_iff key entry.0))
]

-- A named key sends different bytes with different modifiers, so that a program in the terminal can
-- tell them apart.
pub encode_terminal_key-modifiers :
    (upper : Text → Text) (key bytes : Text) (m n : Modifiers)
    → lookup key named ≡ some bytes
    → m ≢ n
    → encode_terminal_key upper key m ≢ encode_terminal_key upper key n
encode_terminal_key-modifiers upper key bytes m n is_named differ same =
    let told = all-lookup (tells_all upper) named key bytes (named_tells upper) is_named in
    let at_m = for_all_lem (λ m'. for_all (tells upper key m')) told m in
    let at_n = for_all_lem (tells upper key m) at_m n in
    let equal : same_result (encode_terminal_key upper key m) (encode_terminal_key upper key n)
        ≡ true =
      rw (same) (same_result_refl (encode_terminal_key upper key n)) in
    differ (same_modifiers_iff m n (ground (arith, at_n, equal)))
