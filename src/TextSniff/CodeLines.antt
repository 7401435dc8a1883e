-- ===== src/TextSniff/CodeLines.antt =====
-- web/src/code-lines.ts: the children of a code element split into lines.
-- `E` is an element without its children, or any other node; a child that is not an array is an
-- array of one, and children that are missing are an empty one.
use dispatch_web.Base.{
  if◌then◌else◌, nat_eq, string_eq, Text, text_is_eq, split, Bool, true, false, List, [], ◌∷◌, map,
}
use dispatch_web.Base.{split}

module _ (E : Type 0) where
  mutual
    pub data CodeNode : Type 0 where
      run : Text → CodeNode
      element : E → CodeNodes → CodeNode
      array : CodeNodes → CodeNode
      leaf : E → CodeNode

    pub data CodeNodes : Type 0 where
      no_nodes : CodeNodes
      node : CodeNode → CodeNodes → CodeNodes

  -- A line of the result.
  mutual
    pub data Piece : Type 0 where
      text_piece : Text → Piece
      element_piece : E → Line → Piece
      leaf_piece : E → Piece

    pub data Line : Type 0 where
      no_pieces : Line
      piece : Piece → Line → Line

module _ {E : Type 0} where
  abbrev pub append_line : Line E → Line E → Line E
  append_line no_pieces more = more
  append_line (piece p line) more = piece p (append_line line more)

  abbrev pub line_of : Text → Line E
  line_of [] = no_pieces
  line_of (c ∷ s) = piece (text_piece (c ∷ s)) no_pieces

  -- The first line of what is added goes on with the last one.
  unfoldable pub join_lines : List (Line E) → List (Line E) → List (Line E)
  join_lines [] sub = sub
  join_lines (last ∷ []) [] = last ∷ []
  join_lines (last ∷ []) (head ∷ sub) = append_line last head ∷ sub
  join_lines (line ∷ next ∷ out) sub = line ∷ join_lines (next ∷ out) sub

  -- An element over several lines is cloned for each.
  unfoldable pub wrap : E → List (Line E) → List (Line E)
  wrap el [] = piece (element_piece el no_pieces) no_pieces ∷ []
  wrap el (seg ∷ sub) = map (λ line. piece (element_piece el line) no_pieces) (seg ∷ sub)

  unfoldable mutual
    pub walk : CodeNode E → List (Line E)
    walk (run text) = map line_of (split 10 text)
    walk (element el kids) = wrap el (walk_all [] kids)
    walk (array nodes) = walk_all [] nodes
    walk (leaf el) = (piece (leaf_piece el) no_pieces) ∷ []

    pub walk_all : List (Line E) → CodeNodes E → List (Line E)
    walk_all out no_nodes = out
    walk_all out (node n nodes) = walk_all (join_lines out (walk n)) nodes

  abbrev pub is_no_line : Line E → Bool
  is_no_line no_pieces = true
  is_no_line (piece p line) = false

  -- `if (result.length > 1 && the last line is empty) result.pop()`
  unfoldable pub pop_phantom : List (Line E) → List (Line E)
  pop_phantom [] = []
  pop_phantom (line ∷ []) = line ∷ []
  pop_phantom (line ∷ last ∷ []) = if is_no_line last then line ∷ [] else line ∷ last ∷ []
  pop_phantom (line ∷ next ∷ more ∷ lines) = line ∷ pop_phantom (next ∷ more ∷ lines)

  unfoldable pub split_code_lines : CodeNode E → List (Line E)
  unfolding walk
  split_code_lines n = pop_phantom (walk n)
