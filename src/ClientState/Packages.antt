-- ===== src/ClientState/Packages.antt =====
-- server/client-state.ts: a package is disabled by its name, also before it has its source.
use dispatch_web.Base.{
  any, nat_eq, string_eq, has, Text, codes, text_eq_iff, text_is_eq, split, ◌≡◌, true, false, some,
  List, [], ◌∷◌, ◌++◌, arith, has-add, ◌∙◌,
}
use dispatch_web.Base.{true, false, ◌≡◌, arith}
use dispatch_web.ClientState.Extensions.{
  Extension, extension_key_candidates, is_extension_disabled, after_last, package_name, slashed,
  is_blank, extension_key,
}

any-has :
    (ks disabled : List Text) (k : Text)
    → has k ks ≡ true
    → has k disabled ≡ true
    → any (λ d. has d ks) disabled ≡ true
any-has ks [] k h m = absurd (ground (arith, m))
any-has ks (d ∷ disabled) k h m = ground (arith, any-has ks disabled k h, text_eq_iff d k)

named_candidate :
    (e : Extension) (rest : Text)
    → after_last (codes "/node_modules/") (slashed e.path) ≡ some rest
    → is_blank (package_name (split b'/' rest)) ≡ false
    → has (codes "npm:" ++ package_name (split b'/' rest)) (extension_key_candidates e) ≡ true
unfolding extension_key_candidates
named_candidate e rest through named =
    let k = codes "npm:" ++ package_name (split b'/' rest) in
    simp (extension_key_candidates, through, named)
      (has-add k k (extension_key e ∷ []) ∙ ground (arith, text_eq_iff k k))

-- An extension of a package, of whatever source, is disabled by the name npm:<package> that the
-- settings panel stores, where its path leads through node_modules to a package with that name.
pub is_extension_disabled-package_name :
    (e : Extension) (rest : Text) (disabled : List Text)
    → after_last (codes "/node_modules/") (slashed e.path) ≡ some rest
    → is_blank (package_name (split b'/' rest)) ≡ false
    → has (codes "npm:" ++ package_name (split b'/' rest)) disabled ≡ true
    → is_extension_disabled e disabled ≡ true
unfolding is_extension_disabled extension_key_candidates
is_extension_disabled-package_name e rest [] through named listed = absurd (ground (arith, listed))
is_extension_disabled-package_name e rest (d ∷ disabled) through named listed =
    let k = codes "npm:" ++ package_name (split b'/' rest) in
    let found =
      any-has (extension_key_candidates e) (d ∷ disabled) k (named_candidate e rest through named)
        listed in
    ground (arith, found)
