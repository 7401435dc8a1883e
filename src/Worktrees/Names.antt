-- ===== src/Worktrees/Names.antt =====
-- server/worktrees.ts: branch names that a user may type, and the directory name of a branch.
use Prim.Native.Nat.{bit_xor}
use dispatch_web.Base.{
  ltb, leb, ◌==◌, if◌then◌else◌, or_else, length, take, any, nat_eq, string_eq, Text, codes,
  text_eq, text_is_eq, strip_prefix, starts_with, ends_with, includes, is_space, ℕ, zero, suc, ◌+◌,
  ◌-◌, ◌*◌, ◌/◌, ◌%◌, Bool, false, not, ◌&&◌, ◌||◌, List, [], ◌∷◌, ◌++◌, map, reverse,
}

abbrev pub u32_mod : ℕ
u32_mod = 4294967296

-- `for (const char of value)`: the code points of a text of code units. A pair of surrogates is
-- one code point.
abbrev pub is_high : ℕ → Bool
is_high c = leb 0xd800 c && leb c 0xdbff

abbrev pub is_low : ℕ → Bool
is_low c = leb 0xdc00 c && leb c 0xdfff

unfoldable pub code_points : Text → List ℕ
code_points [] = []
code_points (c ∷ []) = c ∷ []
code_points (c ∷ d ∷ s) =
    let pair = code_points s in
    let single = code_points (d ∷ s) in
    if is_high c && is_low d
    then (0x10000 + (c - 0xd800) * 1024 + (d - 0xdc00)) ∷ pair
    else c ∷ single

-- `hash ^= …; hash = Math.imul(hash, 16777619)`, as an unsigned 32-bit number.
unfoldable pub hash_from : ℕ → List ℕ → ℕ
hash_from hash [] = hash
hash_from hash (c ∷ cs) = hash_from (bit_xor hash c % u32_mod * 16777619 % u32_mod) cs

abbrev pub hex_digit : ℕ → ℕ
hex_digit d = if ltb d 10 then b'0' + d else b'a' + (d - 10)

-- `n.toString(16).padStart(8, "0")` of a 32-bit number: its eight digits.
unfoldable pub hex_digits : ℕ → ℕ → Text
hex_digits zero n = []
hex_digits (suc k) n = hex_digits k (n / 16) ++ hex_digit (n % 16) ∷ []

unfoldable pub slug_hash : Text → Text
unfolding hash_from hex_digits code_points
slug_hash value = take 6 (hex_digits 8 (hash_from 2166136261 (code_points value)))

abbrev pub to_lower : ℕ → ℕ
to_lower c = if leb b'A' c && leb c b'Z' then c + 32 else c

-- `[a-zA-Z0-9._-]`.
abbrev pub is_word : ℕ → Bool
is_word c =
    (leb b'a' c && leb c b'z')
    || (leb b'A' c && leb c b'Z')
    || (leb b'0' c && leb c b'9')
    || c == b'.'
    || c == b'_'
    || c == b'-'

-- `.replace(/[^a-zA-Z0-9._-]+/g, "-")`; the flag says that the unit before was replaced.
unfoldable pub replace_runs : Bool → Text → Text
replace_runs in_run [] = []
replace_runs in_run (c ∷ s) =
    let rest = replace_runs (not (is_word c)) s in
    if is_word c then c ∷ rest else if in_run then rest else b'-' ∷ rest

-- `.replace(/^-+|-+$/g, "")`.
unfoldable pub drop_dashes : Text → Text
drop_dashes [] = []
drop_dashes (c ∷ s) = if c == b'-' then drop_dashes s else c ∷ s

unfoldable pub trim_dashes : Text → Text
unfolding drop_dashes
trim_dashes s = reverse (drop_dashes (reverse (drop_dashes s)))

-- `slug.split(".", 1)[0]`.
unfoldable pub stem : Text → Text
stem [] = []
stem (c ∷ s) = if c == b'.' then [] else c ∷ stem s

unfoldable pub is_port_name : Text → Bool
is_port_name (a ∷ b ∷ c ∷ d ∷ []) =
    (text_eq (a ∷ b ∷ c ∷ []) (codes "com") || text_eq (a ∷ b ∷ c ∷ []) (codes "lpt"))
    && (leb b'1' d && leb d b'9')
is_port_name _ = false

unfoldable pub is_windows_reserved_name : Text → Bool
unfolding stem is_port_name
is_windows_reserved_name slug =
    let s = map to_lower (stem slug) in
    text_eq s (codes "con")
    || text_eq s (codes "prn")
    || text_eq s (codes "aux")
    || text_eq s (codes "nul")
    || is_port_name s

unfoldable pub slug_of : Text → Text
unfolding replace_runs trim_dashes
slug_of name = map to_lower (trim_dashes (replace_runs false name))

unfoldable pub branch_slug : Text → Text
branch_slug branch =
    let name = or_else (strip_prefix (codes "refs/heads/") branch) branch in
    let slug = slug_of name in
    if not (text_eq slug []) && not (is_windows_reserved_name slug)
    then slug
    else codes "branch-" ++ slug_hash name

-- `[\s~^:?*[\\\x00-\x1f\x7f]`.
unfoldable pub is_forbidden : ℕ → Bool
unfolding is_space
is_forbidden c =
    is_space c
    || c == b'~'
    || c == b'^'
    || c == b':'
    || c == b'?'
    || c == b'*'
    || c == 91
    || c == 92
    || leb c 0x1f
    || c == 0x7f

unfoldable pub valid_branch_name : Text → Bool
unfolding is_forbidden
valid_branch_name name =
    if text_eq name [] || ltb 200 (length name)
    then false
    else if starts_with (codes "-") name
        || starts_with (codes "/") name
        || ends_with (codes "/") name
        || ends_with (codes ".") name
    then false
    else if ends_with (codes ".lock") name
        || includes (codes "..") name
        || includes (codes "//") name
        || includes (codes "@{") name
    then false
    else not (any is_forbidden name)
