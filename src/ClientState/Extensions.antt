-- ===== src/ClientState/Extensions.antt =====
-- server/client-state.ts: the identities by which an extension is disabled.
use dispatch_web.Base.{
  ◌==◌, if◌then◌else◌, or_else, length, any, nat_eq, string_eq, has, add, Text, codes, text_eq,
  text_is_eq, strip_prefix, starts_with, split, Bool, true, false, not, ◌&&◌, Option, none, some,
  List, [], ◌∷◌, ◌++◌, map,
}
use dispatch_web.Base.{true, false, ◌==◌, if◌then◌else◌}

pub record SourceInfo : Type 0 where
  pub origin : Option Text
  pub source : Option Text
  pub path : Option Text

pub record Extension : Type 0 where
  pub source_info : Option SourceInfo
  pub path : Text

abbrev pub is_blank : Text → Bool
is_blank [] = true
is_blank (c ∷ s) = false

unfoldable pub extension_key : Extension → Text
extension_key e = elim e.source_info [
  | none ↦ e.path
  | some src ↦
      let is_package = elim src.origin as (λ _. Bool) [
        | none ↦ false
        | some origin ↦ text_eq origin (codes "package")
      ] in
      let own = or_else src.path e.path in
      elim src.source [
        | none ↦ own
        | some source ↦ if is_package && not (is_blank source) then source else own
      ]
]

-- `.replace(/\\/g, "/")`
abbrev pub slashed : Text → Text
slashed = map (λ c. if c == b'\\' then b'/' else c)

-- What stands after the last occurrence of `p`.
unfoldable pub after_last : Text → Text → Option Text
after_last p [] = none
after_last p (c ∷ s) = elim (after_last p s) [
  | some rest ↦ some rest
  | none ↦ strip_prefix p (c ∷ s)
]

-- A scoped package spans two segments.
unfoldable pub package_name : List Text → Text
package_name [] = []
package_name (first ∷ []) = first
package_name (first ∷ second ∷ segs) =
    if starts_with (codes "@") first && not (is_blank second)
    then first ++ codes "/" ++ second
    else first

unfoldable pub extension_key_candidates : Extension → List Text
extension_key_candidates e =
    let keys = extension_key e ∷ [] in
    elim (after_last (codes "/node_modules/") (slashed e.path)) [
      | none ↦ keys
      | some rest ↦
          let name = package_name (split b'/' rest) in
          if is_blank name then keys else add (codes "npm:" ++ name) keys
    ]

unfoldable pub is_extension_disabled : Extension → List Text → Bool
is_extension_disabled e disabled =
    if length disabled == 0 then false else any (λ d. has d (extension_key_candidates e)) disabled
