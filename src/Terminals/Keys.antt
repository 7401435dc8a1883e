-- ===== src/Terminals/Keys.antt =====
-- server/terminals.ts: the bytes that a key with its modifiers sends to a shell.
use dispatch_web.Base.{
  ℕ, ◌+◌, ◌-◌, String, Bool, ◌&&◌, Option, none, some, List, [], ◌∷◌, ◌++◌, Text, codes, text_is_eq,
  nat_eq, lookup, has, length, leb, ◌==◌, if◌then◌else◌, Result, ok, err,
}
use dispatch_web.Serialize.{decimal}

pub record Modifiers : Type 0 where
  pub ctrl : Bool
  pub alt : Bool
  pub shift : Bool

pub data KeyError : Type 0 where
  unsupported : Text → KeyError
  ctrl_invalid : Text → KeyError

-- An escape sequence.
abbrev pub escaped : String → Text
escaped s = 27 ∷ codes s

unfoldable pub named : List (Text × Text)
named =
    (codes "Enter", 13 ∷ [])
    ∷ (codes "Return", 13 ∷ [])
    ∷ (codes "Tab", 9 ∷ [])
    ∷ (codes "Backspace", 127 ∷ [])
    ∷ (codes "Escape", 27 ∷ [])
    ∷ (codes "Up", escaped "[A")
    ∷ (codes "ArrowUp", escaped "[A")
    ∷ (codes "Down", escaped "[B")
    ∷ (codes "ArrowDown", escaped "[B")
    ∷ (codes "Left", escaped "[D")
    ∷ (codes "ArrowLeft", escaped "[D")
    ∷ (codes "Right", escaped "[C")
    ∷ (codes "ArrowRight", escaped "[C")
    ∷ (codes "Home", escaped "[H")
    ∷ (codes "End", escaped "[F")
    ∷ (codes "Delete", escaped "[3~")
    ∷ (codes "Insert", escaped "[2~")
    ∷ (codes "PageUp", escaped "[5~")
    ∷ (codes "PageDown", escaped "[6~")
    ∷ (codes "F1", escaped "OP")
    ∷ (codes "F2", escaped "OQ")
    ∷ (codes "F3", escaped "OR")
    ∷ (codes "F4", escaped "OS")
    ∷ []

unfoldable pub named_code : List (Text × ℕ)
named_code =
    (codes "Enter", 13)
    ∷ (codes "Return", 13)
    ∷ (codes "Tab", 9)
    ∷ (codes "Backspace", 127)
    ∷ (codes "Escape", 27)
    ∷ (codes "Insert", 2)
    ∷ (codes "Delete", 3)
    ∷ (codes "Home", 1)
    ∷ (codes "End", 4)
    ∷ (codes "PageUp", 5)
    ∷ (codes "PageDown", 6)
    ∷ []

abbrev pub bit : Bool → ℕ → ℕ
bit b n = if b then n else 0

abbrev pub modifier_of : Modifiers → ℕ
modifier_of m = 1 + bit m.shift 1 + bit m.alt 2 + bit m.ctrl 4

-- The last unit of a text of three units with the given start.
abbrev pub final_of : Text → Text → Option ℕ
final_of (e ∷ k ∷ []) (a ∷ b ∷ c ∷ []) = if e == a && k == b then some c else none
final_of start bytes = none

-- The letters of the two patterns.
abbrev pub arrow_final : Text → Option ℕ
arrow_final bytes = elim (final_of (escaped "[") bytes) [
  | none ↦ none
  | some c ↦ if has c (codes "ABCDHF") then some c else none
]

abbrev pub function_final : Text → Option ℕ
function_final bytes = elim (final_of (escaped "O") bytes) [
  | none ↦ none
  | some c ↦ if has c (codes "PQRS") then some c else none
]

-- Either pattern: no text has both.
abbrev pub letter_of : Text → Option ℕ
letter_of bytes = elim (arrow_final bytes) [ some c ↦ some c | none ↦ function_final bytes ]

abbrev pub with_alt : Bool → Text → Text
with_alt alt bytes = if alt then 27 ∷ bytes else bytes

abbrev pub control_code : Text → Option ℕ
control_code [] = none
control_code (u ∷ s) = if leb 64 u && leb u 95 then some (u - 64) else none

-- A key without a sequence for its modifiers.
abbrev pub encode_plain : (Text → Text) → Text → Modifiers → Text → Result KeyError Text
encode_plain upper key m bytes =
    if m.ctrl
    then (if length key == 1
        then (elim (control_code (upper key)) [
          | some c ↦ ok (with_alt m.alt (c ∷ []))
          | none ↦ err (ctrl_invalid key)
        ])
        else err (ctrl_invalid key))
    else if m.shift && length key == 1
    then ok (with_alt m.alt (upper key))
    else ok (with_alt m.alt bytes)

abbrev pub encode_data : (Text → Text) → Text → Modifiers → Text → Result KeyError Text
encode_data upper key m bytes =
    let modifier = modifier_of m in
    if modifier == 1 then encode_plain upper key m bytes else elim (letter_of bytes) [
      | some c ↦ ok (escaped "[1;" ++ decimal modifier ++ c ∷ [])
      | none ↦ elim (lookup key named_code) [
        | some n ↦ ok (escaped "[" ++ decimal n ++ codes ";" ++ decimal modifier ++ codes "u")
        | none ↦ encode_plain upper key m bytes
      ]
    ]

-- `upper` is `toUpperCase`; a key spelled like a property of every object is left out.
unfoldable pub encode_terminal_key : (Text → Text) → Text → Modifiers → Result KeyError Text
encode_terminal_key upper key m = elim (lookup key named) [
  | some bytes ↦ encode_data upper key m bytes
  | none ↦ if length key == 1 then encode_data upper key m key else err (unsupported key)
]
