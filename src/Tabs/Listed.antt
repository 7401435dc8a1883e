-- ===== src/Tabs/Listed.antt =====
-- The tabs of a list are those that it names.
use dispatch_web.Base.{
  ◌==◌, Bool-cases, or_else, length, any, nat_eq, string_eq, has, add, has-add, Text, text_eq,
  text_eq_iff, text_is_eq, split, trim, ◌≡◌, refl, ◌∙◌, inl, inr, Bool, false, ◌||◌, Option, some,
  List, [], ◌∷◌, arith,
}
use dispatch_web.Tabs.{chat, set_of, names_of, parse_tabs, is_tab_allowed}

has-set_of :
    (t : Text) (names tabs : List Text) → has t (set_of names tabs) ≡ (has t tabs || has t names)
has-set_of t [] tabs = ground arith
has-set_of t (n ∷ names) tabs =
    has-set_of t names (add n tabs)
    ∙ ground (arith, has-add n t tabs, text_eq_iff n t, text_eq_iff t n)

module _ (to_lower_case : Text → Text) where
  abbrev pub is_named : Text → Text → Bool
  is_named t part = text_eq (to_lower_case (trim part)) t

  has-names_of :
      (t : Text) (parts : List Text)
      → text_eq t [] ≡ false
      → has t (names_of to_lower_case parts) ≡ any (is_named t) parts
  unfolding names_of
  has-names_of t [] h = refl
  has-names_of t (part ∷ parts) h = ground (
    arith,
    has-names_of t parts h,
    text_eq_iff (to_lower_case (trim part)) [],
    text_eq_iff (to_lower_case (trim part)) t,
    text_eq_iff t [],
  )

  parsed :
      (env : Option Text) (tabs : List Text)
      → parse_tabs to_lower_case env ≡ some tabs
      → tabs ≡ add chat (set_of (names_of to_lower_case (split b',' (trim (or_else env [])))) [])
  unfolding parse_tabs
  parsed env tabs h = elim (Bool-cases (text_eq (trim (or_else env [])) [])) [
    | inl z ↦ absurd (let k = (rw (parse_tabs, z) at h) in ground arith)
    | inr z ↦
        elim (Bool-cases
          (length (set_of (names_of to_lower_case (split b',' (trim (or_else env [])))) []) == 0)) [
            | inl y ↦ absurd (let k = (rw (parse_tabs, z, y) at h) in ground arith)
            | inr y ↦ let k = (rw (parse_tabs, z, y) at h) in ground arith
          ]
  ]

  -- Under a list, a tab other than the chat is offered exactly when a part of the list between two
  -- commas names it, up to case and to the space around it; `t` is a name in lower case.
  pub is_tab_allowed-parse_tabs :
      (env : Option Text) (t : Text) (tabs : List Text)
      → to_lower_case t ≡ t
      → text_eq t [] ≡ false
      → text_eq t chat ≡ false
      → parse_tabs to_lower_case env ≡ some tabs
      → is_tab_allowed to_lower_case t (some tabs)
        ≡ any (is_named t) (split b',' (trim (or_else env [])))
  unfolding is_tab_allowed
  is_tab_allowed-parse_tabs env t tabs l e c h =
      let names = names_of to_lower_case (split b',' (trim (or_else env []))) in
      let q : tabs ≡ add chat (set_of names []) = parsed env tabs h in
      rw (c, l, q)
        (ground (
          arith,
          has-add chat t (set_of names []),
          has-set_of t names [],
          has-names_of t (split b',' (trim (or_else env []))) e,
          text_eq_iff chat t,
          text_eq_iff t chat,
        ))
