-- ===== src/TextSniff/Tests.antt =====
-- Runs of the file previews on small inputs. Elements are numbers here.
use dispatch_web.Base.{length, nat_eq, string_eq, Text, codes, text_is_eq, ℕ, ◌≡◌, refl, [], ◌∷◌}
use dispatch_web.Base.{refl, ◌≡◌, string_eq}
use dispatch_web.TextSniff.{
  count_lines, count_feeds, preview_kind, extension_of, cut_last, preview_text_exts,
  preview_image_exts, preview_video_exts, text_kind, no_kind, hex_dump, hex_rows, hex_row,
}
use dispatch_web.TextSniff.CodeLines.{
  CodeNodes, run, element, array, no_nodes, node, split_code_lines, walk, join_lines, wrap,
  pop_phantom,
}
use dispatch_web.TextSniff.LineCount.{text_all, text_of, and_last, length-split_code_lines}
use dispatch_web.Serialize.{to_string}

abbrev comment : CodeNodes ℕ
comment = node (element 1 (node (run (codes "// a")) no_nodes)) no_nodes

length-split_code_lines_example :
    let code = and_last comment (run (codes "\nb\n")) in
    length (split_code_lines (array code)) ≡ count_lines (text_all code)
length-split_code_lines_example = length-split_code_lines comment (codes "\nb\n") refl

abbrev feed_in_element : CodeNodes ℕ
feed_in_element = node (element 1 (node (run (codes "a\n")) no_nodes)) no_nodes

test_feed_in_element :
    (length (split_code_lines (array feed_in_element)) ≡ 2)
    × (count_lines (text_all feed_in_element) ≡ 1)
unfolding split_code_lines walk join_lines wrap pop_phantom count_lines count_feeds text_of
test_feed_in_element = (refl, refl)

abbrev same_case : Text → Text
same_case s = s

test_preview_kind :
    (preview_kind same_case (codes "notes.md") ≡ text_kind)
    × (preview_kind same_case (codes ".zip") ≡ text_kind)
    × (preview_kind same_case (codes "a.zip") ≡ no_kind)
unfolding preview_kind extension_of cut_last preview_text_exts preview_image_exts preview_video_exts
test_preview_kind = (refl, refl, refl)

test_hex_dump :
    hex_dump (72 ∷ 105 ∷ 0 ∷ []) 4096
    ≡ codes "00000000  48 69 00                                         Hi."
unfolding hex_dump hex_rows hex_row to_string
test_hex_dump = refl
