-- ===== src/Terminals/Pipes.antt =====
-- server/terminals.ts: `splitTopLevelPipes`.
use mathlib.Core.List.{append-nil, append_assoc}
use dispatch_web.Base.{
  Bool-cases, inl, inr, sym, refl, ◌∙◌, ◌≡◌, ap, map, join, true, arith, ◌==◌, if◌then◌else◌,
  nat_eq, string_eq, Text, text_is_eq, join, trim_end, ℕ, ◌≡◌, Bool, not, ◌&&◌, ◌||◌, Option, none,
  some, List, [], ◌∷◌, ◌++◌, map,
}

abbrev pub is_quote : ℕ → Bool
is_quote c = c == b'\'' || c == b'"' || c == b'`'

-- The loop from the state `quote` and `cur` on. A recursive call stands before the tests.
unfoldable pub split_from : Option ℕ → Text → Text → List Text
split_from quote cur [] = trim_end cur ∷ []
split_from none cur (ch ∷ cmd) =
    let quoted = split_from (some ch) (cur ++ ch ∷ []) cmd in
    let rest = split_from none [] cmd in
    let more = split_from none (cur ++ ch ∷ []) cmd in
    if is_quote ch then quoted else if ch == b'|' then trim_end cur ∷ rest else more
split_from (some quote) cur (ch ∷ []) = trim_end (cur ++ ch ∷ []) ∷ []
split_from (some quote) cur (ch ∷ next ∷ cmd) =
    let escaped = split_from (some quote) (cur ++ ch ∷ next ∷ []) cmd in
    let closed = split_from none (cur ++ ch ∷ []) (next ∷ cmd) in
    let more = split_from (some quote) (cur ++ ch ∷ []) (next ∷ cmd) in
    if ch == b'\\' && not (quote == b'\'') && not (quote == b'`')
    then escaped
    else if ch == quote
    then closed
    else more

unfoldable pub split_top_level_pipes : Text → List Text
unfolding split_from
split_top_level_pipes cmd = split_from none [] cmd

-- The parts are those of the text cut at some of its bars, each without the white space at its end.
pub record IsSplit (parts : List Text) (cmd : Text) : Type 0 where
  pub first : Text
  pub others : List Text
  pub trimmed : parts ≡ map trim_end (first ∷ others)
  pub joined : join (b'|' ∷ []) (first ∷ others) ≡ cmd

advanced :
    (parts : List Text) (cur read cmd : Text)
    → IsSplit parts ((cur ++ read) ++ cmd)
    → IsSplit parts (cur ++ (read ++ cmd))
advanced parts cur read cmd s = record {
  first = s.first;
  others = s.others;
  trimmed = s.trimmed;
  joined = s.joined ∙ append_assoc cur read cmd;
}

last_part : (cur : Text) → IsSplit (trim_end cur ∷ []) (cur ++ [])
last_part cur = record { first = cur; others = []; trimmed = refl; joined = sym (append-nil cur) }

cut :
    (cur cmd : Text) (rest : List Text) (ch : ℕ)
    → (ch == b'|') ≡ true
    → IsSplit rest cmd
    → IsSplit (trim_end cur ∷ rest) (cur ++ ch ∷ cmd)
cut cur cmd rest ch h s =
    let bar : ch ≡ b'|' = ground arith in
    record {
      first = cur;
      others = s.first ∷ s.others;
      trimmed = ap (λ ps. trim_end cur ∷ ps) s.trimmed;
      joined =
          append_assoc cur (b'|' ∷ []) _
          ∙ ap (λ r. cur ++ b'|' ∷ r) s.joined
          ∙ ap (λ c. cur ++ c ∷ cmd) (sym bar);
    }

split_from-IsSplit :
    (quote : Option ℕ) (cur cmd : Text) → IsSplit (split_from quote cur cmd) (cur ++ cmd)
unfolding split_from
split_from-IsSplit none cur [] = last_part cur
split_from-IsSplit (some quote) cur [] = last_part cur
split_from-IsSplit none cur (ch ∷ cmd) = elim (Bool-cases (is_quote ch)) [
  | inl q ↦ rw q (advanced _ cur (ch ∷ []) cmd (split_from-IsSplit (some ch) (cur ++ ch ∷ []) cmd))
  | inr q ↦ elim (Bool-cases (ch == b'|')) [
    | inl bar ↦ rw (q, bar) (cut cur cmd _ ch bar (split_from-IsSplit none [] cmd))
    | inr bar ↦
        rw (q, bar) (advanced _ cur (ch ∷ []) cmd (split_from-IsSplit none (cur ++ ch ∷ []) cmd))
  ]
]
split_from-IsSplit (some quote) cur (ch ∷ []) =
    advanced _ cur (ch ∷ []) [] (last_part (cur ++ ch ∷ []))
split_from-IsSplit (some quote) cur (ch ∷ next ∷ cmd) =
    elim (Bool-cases (ch == b'\\' && not (quote == b'\'') && not (quote == b'`'))) [
      | inl e ↦ rw e (
          advanced _ cur (ch ∷ next ∷ []) cmd
            (split_from-IsSplit (some quote) (cur ++ ch ∷ next ∷ []) cmd))
      | inr e ↦ elim (Bool-cases (ch == quote)) [
        | inl c ↦
            rw (e, c)
              (advanced _ cur (ch ∷ []) (next ∷ cmd)
                (split_from-IsSplit none (cur ++ ch ∷ []) (next ∷ cmd)))
        | inr c ↦
            rw (e, c)
              (advanced _ cur (ch ∷ []) (next ∷ cmd)
                (split_from-IsSplit (some quote) (cur ++ ch ∷ []) (next ∷ cmd)))
      ]
    ]

-- Splitting a command loses nothing but bars and white space before them or at the end: the parts
-- are, without the white space at their ends, those of a list that joined with bars is the command.
pub split_top_level_pipes-IsSplit : (cmd : Text) → IsSplit (split_top_level_pipes cmd) cmd
unfolding split_top_level_pipes
split_top_level_pipes-IsSplit cmd = split_from-IsSplit none [] cmd
