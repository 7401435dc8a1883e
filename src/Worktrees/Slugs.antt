-- ===== src/Worktrees/Slugs.antt =====
-- The directory name of a branch is one plain path component.
use dispatch_web.Base.{
  zero, suc, leb, ◌==◌, All, nat_eq, string_eq, Text, codes, text_is_eq, ℕ, ◌≡◌, refl, Bool, true,
  ◌&&◌, ◌||◌, All-map, ◌<◌, All-take, ◌++◌, ◌≢◌, ◌∷◌, All-reverse, suc, false, [], arith,
  All-append, not, ◌/◌, ◌%◌, if◌then◌else◌, or_else, text_eq, strip_prefix, Bool-cases, inl,
  text_eq_iff, inr,
}
use dispatch_web.Worktrees.Names.{
  slug_hash, is_windows_reserved_name, slug_of, branch_slug, is_word, replace_runs, drop_dashes,
  trim_dashes, hex_digits, to_lower, hex_digit, hash_from, code_points,
}

-- `[a-z0-9._-]`: no separator, no space, no upper case.
abbrev pub is_plain : ℕ → Bool
is_plain c =
    (leb b'a' c && leb c b'z') || (leb b'0' c && leb c b'9') || c == b'.' || c == b'_' || c == b'-'

abbrev pub IsPlain : Text → Type 0
IsPlain = All (λ c. is_plain c ≡ true)

slug_login : branch_slug (codes "refs/heads/feat/Login~") ≡ codes "feat-login"
unfolding branch_slug slug_of is_windows_reserved_name
slug_login = refl

abbrev IsWord : Text → Type 0
IsWord = All (λ c. is_word c ≡ true)

replace_runs-IsWord : (r : Bool) (s : Text) → IsWord (replace_runs r s)
unfolding replace_runs
replace_runs-IsWord r [] = tt
replace_runs-IsWord r (c ∷ s) = ground (arith, replace_runs-IsWord (not (is_word c)) s)

drop_dashes-IsWord : (s : Text) → IsWord s → IsWord (drop_dashes s)
unfolding drop_dashes
drop_dashes-IsWord [] h = tt
drop_dashes-IsWord (c ∷ s) h = ground (arith, drop_dashes-IsWord s h.1)

trim_dashes-IsWord : (s : Text) → IsWord s → IsWord (trim_dashes s)
unfolding trim_dashes
trim_dashes-IsWord s h =
    All-reverse _ _ (drop_dashes-IsWord _ (All-reverse _ _ (drop_dashes-IsWord s h)))

plain_of_word : (c : ℕ) → is_word c ≡ true → is_plain (to_lower c) ≡ true
plain_of_word c h = ground arith

slug_of-IsPlain : (name : Text) → IsPlain (slug_of name)
unfolding slug_of
slug_of-IsPlain name =
    All-map _ _ to_lower _ plain_of_word (trim_dashes-IsWord _ (replace_runs-IsWord false name))

hex_digit-IsPlain : (d : ℕ) → d < 16 → is_plain (hex_digit d) ≡ true
hex_digit-IsPlain d h = ground arith

hex_digits-IsPlain : (k n : ℕ) → IsPlain (hex_digits k n)
unfolding hex_digits
hex_digits-IsPlain zero n = tt
hex_digits-IsPlain (suc k) n =
    All-append _ (hex_digits k (n / 16)) (hex_digit (n % 16) ∷ []) (hex_digits-IsPlain k (n / 16))
      (hex_digit-IsPlain (n % 16) (omega arith), tt)

slug_hash-IsPlain : (v : Text) → IsPlain (slug_hash v)
unfolding slug_hash
slug_hash-IsPlain v =
    All-take (λ c. is_plain c ≡ true) 6 (hex_digits 8 (hash_from 2166136261 (code_points v)))
      (hex_digits-IsPlain 8 (hash_from 2166136261 (code_points v)))

hashed : (v : Text) → IsPlain (codes "branch-" ++ slug_hash v)
hashed v = ground (arith, slug_hash-IsPlain v)

hashed_reserved : (v : Text) → is_windows_reserved_name (codes "branch-" ++ slug_hash v) ≡ false
unfolding is_windows_reserved_name
hashed_reserved v = refl

-- A name for a directory: plain, not empty, not reserved.
abbrev pub IsDirectoryName : Text → Type 0
IsDirectoryName slug = IsPlain slug × (slug ≢ []) × (is_windows_reserved_name slug ≡ false)

slug_or_hash :
    (name : Text)
    → IsDirectoryName (
        if not (text_eq (slug_of name) []) && not (is_windows_reserved_name (slug_of name))
        then slug_of name
        else codes "branch-" ++ slug_hash name)
slug_or_hash name =
    elim (Bool-cases
      (not (text_eq (slug_of name) []) && not (is_windows_reserved_name (slug_of name)))) [
        | inl plain ↦
            rw plain
              (slug_of-IsPlain name, ground (arith, text_eq_iff (slug_of name) []), ground arith)
        | inr other ↦ rw other (hashed name, (λ h. cc), hashed_reserved name)
      ]

-- The directory name of any branch, valid or not, is not empty, has only lower case letters,
-- digits, dots, underscores and dashes, and is no reserved device name of Windows.
pub branch_slug-IsDirectoryName : (branch : Text) → IsDirectoryName (branch_slug branch)
unfolding branch_slug
branch_slug-IsDirectoryName branch =
    slug_or_hash (or_else (strip_prefix (codes "refs/heads/") branch) branch)
