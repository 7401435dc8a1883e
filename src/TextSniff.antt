-- ===== src/TextSniff.antt =====
-- server/text-sniff.ts: the kind of a file by its name and its bytes, its hex view and its lines.
-- A buffer is a list of bytes; `to_lower_case` and the UTF-8 decoder are parameters, as the runtime
-- has them.
pub mod CodeLines
pub mod Feeds
pub mod LineCount
mod Tests
use dispatch_web.Base.{
  nat_eq, ◌%◌, leb, ltb, ◌==◌, if◌then◌else◌, length, take, drop, min, get_last?, map, has, lookup,
  Text, codes, text_eq, text_is_eq, join, ℕ, zero, suc, ◌+◌, ◌-◌, ◌*◌, String, Bool, true, false,
  not, ◌&&◌, ◌||◌, Option, none, some, List, [], ◌∷◌, ◌++◌,
}
use dispatch_web.Serialize.{to_string}

abbrev pub Buffer : Type 0
Buffer = List ℕ

pub data PreviewKind : Type 0 where
  image_kind : PreviewKind
  video_kind : PreviewKind
  text_kind : PreviewKind
  no_kind : PreviewKind

abbrev pub all_codes : List String → List Text
all_codes = map codes

unfoldable pub preview_image_exts : List Text
preview_image_exts = all_codes (
    "png" ∷ "jpg" ∷ "jpeg" ∷ "gif" ∷ "webp" ∷ "svg" ∷ "bmp" ∷ "ico" ∷ "avif" ∷ "jfif" ∷ "tif"
    ∷ "tiff" ∷ [])

unfoldable pub preview_video_exts : List Text
preview_video_exts =
    all_codes
      ("mp4" ∷ "webm" ∷ "mov" ∷ "mkv" ∷ "avi" ∷ "m4v" ∷ "ogv" ∷ "mpg" ∷ "mpeg" ∷ "wmv" ∷ "flv" ∷ [])

unfoldable pub preview_text_exts : List Text
preview_text_exts = all_codes (
    "ts" ∷ "tsx" ∷ "js" ∷ "jsx" ∷ "mjs" ∷ "cjs" ∷ "jsm" ∷ "es6" ∷ "vue" ∷ "svelte" ∷ "py" ∷ "pyw"
    ∷ "ipynb" ∷ "go" ∷ "rs" ∷ "c" ∷ "h" ∷ "cpp" ∷ "hpp" ∷ "cc" ∷ "cxx" ∷ "hh" ∷ "csh" ∷ "java"
    ∷ "kt" ∷ "kts" ∷ "scala" ∷ "sc" ∷ "cs" ∷ "fs" ∷ "fsx" ∷ "fsi" ∷ "sh" ∷ "bash" ∷ "zsh" ∷ "fish"
    ∷ "bat" ∷ "cmd" ∷ "ps1" ∷ "psd1" ∷ "psm1" ∷ "rb" ∷ "php" ∷ "pl" ∷ "pm" ∷ "tcl" ∷ "lua" ∷ "r"
    ∷ "rmd" ∷ "sql" ∷ "swift" ∷ "dart" ∷ "groovy" ∷ "gradle" ∷ "tf" ∷ "tfvars" ∷ "hcl" ∷ "nim"
    ∷ "zig" ∷ "v" ∷ "vala" ∷ "d" ∷ "clj" ∷ "cljs" ∷ "cljc" ∷ "edn" ∷ "ex" ∷ "exs" ∷ "erl" ∷ "hrl"
    ∷ "ml" ∷ "mli" ∷ "json" ∷ "jsonc" ∷ "json5" ∷ "jsonl" ∷ "md" ∷ "mdx" ∷ "markdown" ∷ "html"
    ∷ "htm" ∷ "xhtml" ∷ "css" ∷ "scss" ∷ "sass" ∷ "less" ∷ "styl" ∷ "xml" ∷ "dtd" ∷ "yaml" ∷ "yml"
    ∷ "toml" ∷ "ini" ∷ "cfg" ∷ "conf" ∷ "properties" ∷ "env" ∷ "log" ∷ "txt" ∷ "text" ∷ "csv"
    ∷ "tsv" ∷ "lock" ∷ "sqlite" ∷ "graphql" ∷ "gql" ∷ "proto" ∷ "prisma" ∷ "asm" ∷ "s" ∷ [])

-- What stands before and after the last dot.
unfoldable pub cut_last : ℕ → Text → Option (Text × Text)
cut_last sep [] = none
cut_last sep (c ∷ s) = elim (cut_last sep s) [
  | some (before, after) ↦ some (c ∷ before, after)
  | none ↦ if c == sep then some ([], s) else none
]

module _ (to_lower_case : Text → Text) where
  -- A dot in front is no extension.
  unfoldable pub extension_of : Text → Text
  extension_of name = elim (cut_last b'.' name) [
    | none ↦ []
    | some (before, after) ↦ if length before == 0 then [] else to_lower_case after
  ]

  unfoldable pub preview_kind : Text → PreviewKind
  preview_kind name =
      let ext = extension_of name in
      if has ext preview_image_exts
      then image_kind
      else if has ext preview_video_exts
      then video_kind
      else if text_eq ext [] || has ext preview_text_exts
      then text_kind
      else no_kind

-- Everything below a space but tab, line feed, form feed and carriage return.
abbrev pub is_control : ℕ → Bool
is_control c = ltb c 32 && not (c == 9) && not (c == 10) && not (c == 12) && not (c == 13)

unfoldable pub count_control : Text → ℕ
count_control [] = 0
count_control (c ∷ s) = let n = count_control s in if is_control c then n + 1 else n

-- `control / max(length, 1) < 0.02`
unfoldable pub looks_like_text : (Buffer → Text) → Buffer → Bool
looks_like_text decode buf =
    if length buf == 0
    then true
    else if has 0 buf
    then false
    else (let text = decode buf in
        ltb (count_control text * 50) (if length text == 0 then 1 else length text))

abbrev pub starts : List ℕ → Buffer → Bool
starts [] buf = true
starts (b ∷ bytes) [] = false
starts (b ∷ bytes) (c ∷ buf) = c == b && starts bytes buf

-- `buf.slice(…).toString("ascii") === text`: the decoder clears the highest bit of a byte.
abbrev pub starts_ascii : Text → Buffer → Bool
starts_ascii [] buf = true
starts_ascii (b ∷ text) [] = false
starts_ascii (b ∷ text) (c ∷ buf) = c % 128 == b && starts_ascii text buf

unfoldable pub known_mimes : List (Text × Text)
known_mimes =
    (codes ".png", codes "image/png")
    ∷ (codes ".jpg", codes "image/jpeg")
    ∷ (codes ".jpeg", codes "image/jpeg")
    ∷ (codes ".gif", codes "image/gif")
    ∷ (codes ".webp", codes "image/webp")
    ∷ (codes ".bmp", codes "image/bmp")
    ∷ []

unfoldable pub sniff_image_mime : Buffer → Text → Option Text
sniff_image_mime buf ext =
    if leb 8 (length buf) && starts (0x89 ∷ 0x50 ∷ 0x4e ∷ 0x47 ∷ []) buf
    then some (codes "image/png")
    else if starts (0xff ∷ 0xd8 ∷ 0xff ∷ []) buf
    then some (codes "image/jpeg")
    else if starts_ascii (codes "GIF87a") buf || starts_ascii (codes "GIF89a") buf
    then some (codes "image/gif")
    else if leb 12 (length buf)
        && starts_ascii (codes "RIFF") buf
        && starts_ascii (codes "WEBP") (drop 8 buf)
    then some (codes "image/webp")
    else if starts (0x42 ∷ 0x4d ∷ []) buf
    then some (codes "image/bmp")
    else lookup ext known_mimes

-- `n` copies of a character.
abbrev pub copies : ℕ → ℕ → Text
copies c zero = []
copies c (suc n) = c ∷ copies c n

abbrev pub pad_start : ℕ → ℕ → Text → Text
pad_start n c s = copies c (n - length s) ++ s

abbrev pub pad_end : ℕ → ℕ → Text → Text
pad_end n c s = s ++ copies c (n - length s)

abbrev pub as_ascii : ℕ → ℕ
as_ascii b = if leb 0x20 b && ltb b 0x7f then b else b'.'

unfoldable pub hex_row : ℕ → Buffer → Text
hex_row off chunk =
    pad_start 8 b'0' (to_string 16 off)
    ++ codes "  "
    ++ pad_end 47 b' ' (join (codes " ") (map (λ b. pad_start 2 b'0' (to_string 16 b)) chunk))
    ++ codes "  "
    ++ map as_ascii chunk

-- The loop over the rows; each takes sixteen bytes, so as many rows as bytes are enough fuel.
unfoldable pub hex_rows : (fuel off : ℕ) → Buffer → List Text
hex_rows zero off data' = []
hex_rows (suc fuel) off [] = []
hex_rows (suc fuel) off (b ∷ data') =
    hex_row off (take 16 (b ∷ data')) ∷ hex_rows fuel (off + 16) (drop 16 (b ∷ data'))

unfoldable pub hex_dump : Buffer → ℕ → Text
unfolding hex_rows
hex_dump buf max_bytes =
    let data' = take (min (length buf) max_bytes) buf in
    join (codes "\n") (hex_rows (length data') 0 data')

unfoldable pub count_feeds : Buffer → ℕ
count_feeds [] = 0
count_feeds (b ∷ buf) = let n = count_feeds buf in if b == 10 then n + 1 else n

abbrev pub ends_with_feed : Buffer → Bool
ends_with_feed buf = elim (get_last? buf) [ none ↦ false | some b ↦ b == 10 ]

unfoldable pub count_lines : Buffer → ℕ
count_lines buf =
    if length buf == 0
    then 0
    else if ends_with_feed buf
    then count_feeds buf
    else count_feeds buf + 1
