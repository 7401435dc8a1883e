-- ===== src/Scm/Paths.antt =====
-- server/scm.ts: the path that git quotes is read back.
use dispatch_web.Base.{
  ◌==◌, if◌then◌else◌, nat_eq, string_eq, Text, codes, text_is_eq, ℕ, ◌≡◌, refl, ap, ◌∙◌, true,
  false, [], ◌∷◌, ◌++◌, arith, map,
}
use dispatch_web.Base.{refl, ap, true, false, ◌==◌, if◌then◌else◌}
use dispatch_web.Scm.{unquote_path, unescape, unescape_char, quote, drop_last, ends_quote}

-- git's C-style quoting: the characters that have a letter stand after a backslash. Other control
-- characters, which git writes as octal numbers, are left out.
unfoldable pub quote_char : ℕ → Text
quote_char c =
    if c == 10
    then codes "\\n"
    else if c == 9
    then codes "\\t"
    else if c == 13
    then codes "\\r"
    else if c == 8
    then codes "\\b"
    else if c == 12
    then codes "\\f"
    else if c == 11
    then codes "\\v"
    else if c == 7
    then codes "\\a"
    else if c == b'\\'
    then codes "\\\\"
    else if c == quote
    then b'\\' ∷ quote ∷ []
    else c ∷ []

unfoldable pub quote_text : Text → Text
quote_text [] = []
quote_text (c ∷ s) = quote_char c ++ quote_text s

unfoldable pub quote_path : Text → Text
quote_path s = quote ∷ (quote_text s ++ quote ∷ [])

-- The bell comes back as the letter of its escape.
abbrev pub letter_for_bell : ℕ → ℕ
letter_for_bell c = if c == 7 then b'a' else c

unescape-quote_char :
    (c : ℕ) (s : Text) → unescape false (quote_char c ++ s) ≡ letter_for_bell c ∷ unescape false s
unfolding unescape unescape_char quote_char
unescape-quote_char c s = ground arith

unescape-quote_text : (s : Text) → unescape false (quote_text s) ≡ map letter_for_bell s
unfolding quote_text unescape
unescape-quote_text [] = refl
unescape-quote_text (c ∷ s) =
    unescape-quote_char c (quote_text s) ∙ ap (λ t. letter_for_bell c ∷ t) (unescape-quote_text s)

ends_quote_last : (c : ℕ) (s : Text) → ends_quote (c ∷ (s ++ quote ∷ [])) ≡ true
ends_quote_last c [] = refl
ends_quote_last c (d ∷ s) = ends_quote_last d s

drop_last_last : (s : Text) (c : ℕ) → drop_last (s ++ c ∷ []) ≡ s
drop_last_last [] c = refl
drop_last_last (d ∷ []) c = refl
drop_last_last (d ∷ e ∷ s) c = ap (λ t. d ∷ t) (drop_last_last (e ∷ s) c)

pub unquote_path-quote_path :
    (path : Text) → unquote_path (quote_path path) ≡ map letter_for_bell path
unfolding unquote_path quote_path unescape
unquote_path-quote_path path =
    simp (ends_quote_last quote (quote_text path), drop_last_last (quote_text path) quote)
      (unescape-quote_text path)
