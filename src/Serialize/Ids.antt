-- ===== src/Serialize/Ids.antt =====
-- server/serialize.ts and server/agent-service.ts: the id of a user message is read back, and
-- finds its entry.
use dispatch_web.Base.{
  if◌then◌else◌, ltb, Bool-cases, All, All-append, nat_eq, string_eq, Text, codes, text_is_eq, ℕ,
  zero, suc, ◌+◌, ◌-◌, ◌*◌, ◌/◌, ◌%◌, ◌<◌, ◌≡◌, refl, ◌∙◌, inl, inr, true, false, some, [], ◌∷◌,
  ◌++◌, arith, sym, List, ap,
}
use dispatch_web.Base.{refl, arith, zero, suc, ◌+◌, ◌*◌, ◌-◌, ◌/◌, ◌%◌, ◌<◌}
use dispatch_web.Serialize.{is_empty, digits, digit, to_string, decimal, stamped_id}
use dispatch_web.Serialize.Resolve.{
  is_digit, span_digits, number, parse_id, find_user, resolve_user_message_entry_id, SessionEntry,
  counts, parse_rest,
}

abbrev IsDigits : Text → Type 0
IsDigits = All (λ c. is_digit c ≡ true)

digit-IsDigit : (d : ℕ) → d < 10 → is_digit (digit d) ≡ true
digit-IsDigit d h = ground arith

digits-IsDigits : (fuel n : ℕ) → IsDigits (digits fuel 10 n)
digits-IsDigits zero n = tt
digits-IsDigits (suc fuel) n = elim (Bool-cases (ltb n 10)) [
  | inl h ↦ simp (h) (ground arith, tt)
  | inr h ↦ simp (h) (
      All-append _ (digits fuel 10 (n / 10)) (digit (n % 10) ∷ []) (digits-IsDigits fuel (n / 10))
        (digit-IsDigit (n % 10) (omega arith), tt))
]

number-append :
    (acc : ℕ) (s : Text) (c : ℕ) → number acc (s ++ c ∷ []) ≡ number acc s * 10 + (c - b'0')
unfolding number
number-append acc [] c = refl
number-append acc (d ∷ s) c = number-append (acc * 10 + (d - b'0')) s c

number-digits : (fuel n : ℕ) → n < fuel → number 0 (digits fuel 10 n) ≡ n
unfolding number
number-digits zero n h = absurd (omega arith)
number-digits (suc fuel) n h = elim (Bool-cases (ltb n 10)) [
  | inl k ↦ simp (k) (ground arith)
  | inr k ↦ simp (k) (
      number-append 0 (digits fuel 10 (n / 10)) (digit (n % 10))
      ∙ (let r = number-digits fuel (n / 10) (ground arith) in ground (arith, r)))
]

decimal-IsDigits : (n : ℕ) → IsDigits (decimal n)
unfolding to_string
decimal-IsDigits n = digits-IsDigits (suc n) n

number-decimal : (n : ℕ) → number 0 (decimal n) ≡ n
unfolding to_string
number-decimal n = number-digits (suc n) n (omega arith)

span_digits_all : (ds : Text) → IsDigits ds → span_digits ds ≡ (ds, [])
unfolding span_digits
span_digits_all [] a = refl
span_digits_all (c ∷ ds) a = rw (a.0, span_digits_all ds a.1) refl

span_digits_dash : (ds s : Text) → IsDigits ds → span_digits (ds ++ b'-' ∷ s) ≡ (ds, b'-' ∷ s)
unfolding span_digits
span_digits_dash [] s a = refl
span_digits_dash (c ∷ ds) s a = rw (a.0, span_digits_dash ds s a.1) refl

append-nonempty : (s : Text) (c : ℕ) → is_empty (s ++ c ∷ []) ≡ false
append-nonempty [] c = refl
append-nonempty (d ∷ s) c = refl

decimal-nonempty : (n : ℕ) → is_empty (decimal n) ≡ false
unfolding to_string
decimal-nonempty n = elim (Bool-cases (ltb n 10)) [
  | inl h ↦ simp (h) refl
  | inr h ↦ simp (h) (append-nonempty (digits n 10 (n / 10)) (digit (n % 10)))
]

parse_id_dash :
    (ds s : Text)
    → IsDigits ds
    → is_empty ds ≡ false
    → parse_id (codes "u-" ++ (ds ++ b'-' ∷ s)) ≡ parse_rest (number 0 ds) (b'-' ∷ s)
unfolding parse_id
parse_id_dash ds s a h = rw (span_digits_dash ds s a, h) refl

parse_rest_dash :
    (ts : ℕ) (ds : Text)
    → IsDigits ds
    → is_empty ds ≡ false
    → parse_rest ts (b'-' ∷ ds) ≡ some (ts, number 0 ds)
parse_rest_dash ts ds a h = rw (span_digits_all ds a, h) refl

stamped_id_text :
    (ts seq : ℕ) → stamped_id (codes "u") ts seq ≡ codes "u-" ++ (decimal ts ++ b'-' ∷ decimal seq)
unfolding stamped_id
stamped_id_text ts seq = refl

parse_id-stamped_id : (ts seq : ℕ) → parse_id (stamped_id (codes "u") ts seq) ≡ some (ts, seq)
parse_id-stamped_id ts seq =
    ap parse_id (stamped_id_text ts seq)
    ∙ parse_id_dash (decimal ts) (decimal seq) (decimal-IsDigits ts) (decimal-nonempty ts)
    ∙ parse_rest_dash (number 0 (decimal ts)) (decimal seq) (decimal-IsDigits seq)
        (decimal-nonempty seq)
    ∙ rw (number-decimal ts, number-decimal seq) refl

-- Two user messages have one id only where both parts agree.
pub stamped_id-injective :
    (ts seq ts' seq' : ℕ)
    → stamped_id (codes "u") ts seq ≡ stamped_id (codes "u") ts' seq'
    → (ts ≡ ts') × (seq ≡ seq')
stamped_id-injective ts seq ts' seq' e =
    ground (arith, sym (parse_id-stamped_id ts seq) ∙ ap parse_id e ∙ parse_id-stamped_id ts' seq')

module _ {J : Type 0} where
  -- How many of the entries are user messages of the timestamp.
  unfoldable pub tally : ℕ → List (SessionEntry J) → ℕ
  tally ts [] = 0
  tally ts (entry ∷ entries) = if counts ts entry then tally ts entries + 1 else tally ts entries

  find_user_past :
      (ts seq count : ℕ) (before after : List (SessionEntry J)) (entry : SessionEntry J)
      → counts ts entry ≡ true
      → seq ≡ count + tally ts before + 1
      → find_user ts seq count (before ++ entry ∷ after) ≡ some entry.id
  unfolding find_user tally
  find_user_past ts seq count [] after entry h e = ground arith
  find_user_past ts seq count (b ∷ before) after entry h e = ground (
    arith,
    find_user_past ts seq count before after entry,
    find_user_past ts seq (count + 1) before after entry,
  )

  -- The id that the serialiser gives a user message, with its timestamp and the place it has among
  -- the user messages of that timestamp, resolves to the entry of that message.
  pub resolve_user_message_entry_id-stamped_id :
      (ts : ℕ) (before after : List (SessionEntry J)) (entry : SessionEntry J)
      → counts ts entry ≡ true
      → resolve_user_message_entry_id
          (stamped_id (codes "u") ts (tally ts before + 1))
          (before ++ entry ∷ after)
        ≡ some entry.id
  unfolding resolve_user_message_entry_id find_user parse_id
  resolve_user_message_entry_id-stamped_id ts before after entry h =
      rw (resolve_user_message_entry_id, parse_id-stamped_id ts (tally ts before + 1))
        (find_user_past ts (tally ts before + 1) 0 before after entry h (omega arith))
