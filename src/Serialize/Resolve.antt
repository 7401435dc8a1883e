-- ===== src/Serialize/Resolve.antt =====
-- server/agent-service.ts: which entry of the session a user message of the browser is.
-- The session manager's buildContextEntries is the list of entries it returns.
use dispatch_web.Base.{
  leb, ◌==◌, if◌then◌else◌, nat_eq, string_eq, Text, codes, text_is_eq, strip_prefix, ℕ, ◌+◌, ◌-◌,
  ◌*◌, Bool, false, not, ◌&&◌, Option, none, some, List, [], ◌∷◌,
}
use dispatch_web.Serialize.{AgentMessage, user, is_empty}

abbrev pub is_digit : ℕ → Bool
is_digit c = leb b'0' c && leb c b'9'

-- `\d+` and what is left of the text.
unfoldable pub span_digits : Text → Text × Text
span_digits [] = ([], [])
span_digits (c ∷ s) =
    let (ds, rest) = span_digits s in if is_digit c then (c ∷ ds, rest) else ([], c ∷ s)

-- `Number` of a text of digits.
unfoldable pub number : ℕ → Text → ℕ
number acc [] = acc
number acc (c ∷ s) = number (acc * 10 + (c - b'0')) s

abbrev pub parse_rest : ℕ → Text → Option (ℕ × ℕ)
parse_rest ts [] = some (ts, 1)
parse_rest ts (c ∷ s) =
    let (ds, rest) = span_digits s in
    if c == b'-' && not (is_empty ds) && is_empty rest then some (ts, number 0 ds) else none

-- `/^u-(\d+)(?:-(\d+))?$/`: the timestamp and the count, which is 1 where the id has none.
unfoldable pub parse_id : Text → Option (ℕ × ℕ)
unfolding span_digits number
parse_id id = elim (strip_prefix (codes "u-") id) [
  | none ↦ none
  | some s ↦
      let (ds, rest) = span_digits s in if is_empty ds then none else parse_rest (number 0 ds) rest
]

pub record SessionEntry (J : Type 0) : Type 0 where
  pub id : Text
  pub is_message : Bool
  pub message : Option (AgentMessage J)

module _ {J : Type 0} where
  unfoldable pub is_user_at : ℕ → Option (AgentMessage J) → Bool
  is_user_at ts (some (user content timestamp)) = timestamp == ts
  is_user_at ts m = false

  abbrev pub counts : ℕ → SessionEntry J → Bool
  counts ts entry = entry.is_message && is_user_at ts entry.message

  unfoldable pub find_user : ℕ → ℕ → ℕ → List (SessionEntry J) → Option Text
  find_user ts seq count [] = none
  find_user ts seq count (entry ∷ entries) =
      let later = find_user ts seq count entries in
      let next = find_user ts seq (count + 1) entries in
      if not (counts ts entry) then later else if count + 1 == seq then some entry.id else next

  unfoldable pub resolve_user_message_entry_id : Text → List (SessionEntry J) → Option Text
  unfolding find_user parse_id
  resolve_user_message_entry_id message_id entries = elim (parse_id message_id) [
    | none ↦ none
    | some (ts, seq) ↦ find_user ts seq 0 entries
  ]
