-- ===== src/Tabs/Tests.antt =====
-- Runs of server/tabs.ts on small inputs.
use dispatch_web.Base.{
  leb, if◌then◌else◌, any, nat_eq, string_eq, Text, codes, text_is_eq, is_space, trim_start,
  trim_end, trim, ◌+◌, ◌≡◌, refl, ◌&&◌, some, List, [], ◌∷◌,
}
use dispatch_web.Tabs.{parse_tabs, names_of, is_tab_allowed, tabs_refusal, refusal_from}
use dispatch_web.Tabs.Listed.{is_named, is_tab_allowed-parse_tabs}

-- Lower case of the letters of ASCII.
abbrev lower : Text → Text
lower [] = []
lower (c ∷ s) = (if leb b'A' c && leb c b'Z' then c + 32 else c) ∷ lower s

abbrev listed : List Text
listed = codes "git" ∷ codes "search" ∷ codes "chat" ∷ []

test_is_tab_allowed-parse_tabs :
    is_tab_allowed lower (codes "search") (some listed)
    ≡ any (is_named lower (codes "search")) (codes "git" ∷ codes " Search" ∷ [])
unfolding parse_tabs names_of trim trim_end trim_start is_space
test_is_tab_allowed-parse_tabs =
    is_tab_allowed-parse_tabs lower (some (codes "git, Search")) (codes "search") listed refl refl
      refl refl

test_tabs_refusal : tabs_refusal lower (codes "run_command") (some listed) ≡ some (codes "terminal")
unfolding tabs_refusal refusal_from is_tab_allowed
test_tabs_refusal = refl
