-- ===== src/TextSniff/LineCount.antt =====
-- web/src/code-lines.ts against server/text-sniff.ts: both count the same lines.
use mathlib.Core.List.{append-nil, append_assoc}
use dispatch_web.Base.{
  ◌≤◌, ltb, ◌&&◌, ◌||◌, Bool, false, ◌≡◌, ◌∙◌, sym, refl, ap, ◌+◌, ◌-◌, ◌==◌, if◌then◌else◌, inl,
  inr, length, nat_eq, string_eq, Text, text_is_eq, split, ℕ, ◌+◌, ◌≤◌, ◌≡◌, refl, ap, ◌∙◌, ◌⊎◌,
  inl, inr, List, [], ◌∷◌, ◌++◌, map, arith, length-append,
}
use dispatch_web.Base.{refl, ap, arith, ◌+◌, ◌≡◌, ◌⊎◌, inl, inr, ◌∙◌}
use dispatch_web.TextSniff.{count_feeds, ends_with_feed, count_lines}
use dispatch_web.TextSniff.Feeds.{
  count_feeds-append, length-split, length-map, ends_with_feed-count_feeds, last_blank,
  last_blank-split, ends_with_feed-append,
}
use dispatch_web.TextSniff.CodeLines.{
  CodeNode, CodeNodes, Line, run, element, array, leaf, no_nodes, node, no_pieces, piece, line_of,
  join_lines, wrap, walk, walk_all, element_piece, is_no_line, pop_phantom, append_line,
  split_code_lines,
}

module _ {E : Type 0} where
  -- The text that a node shows, without what its elements are.
  unfoldable mutual
    pub text_of : CodeNode E → Text
    text_of (run text) = text
    text_of (element el kids) = text_all kids
    text_of (array nodes) = text_all nodes
    text_of (leaf el) = []

    pub text_all : CodeNodes E → Text
    text_all no_nodes = []
    text_all (node n nodes) = text_of n ++ text_all nodes

  -- No line and no line feed, or one line more than there are line feeds.
  abbrev IsCounted : List (Line E) → ℕ → Type 0
  IsCounted lines feeds = ((length lines ≡ 0) × (feeds ≡ 0)) ⊎ (length lines ≡ feeds + 1)

  recount : (lines : List (Line E)) (m n : ℕ) → m ≡ n → IsCounted lines m → IsCounted lines n
  recount lines m n e a = rw (← e) a

  length-join_lines :
      (out sub : List (Line E))
      → length (join_lines out sub) ≡ (
          if length out == 0
          then length sub
          else if length sub == 0
          then length out
          else length out + length sub - 1)
  unfolding join_lines
  length-join_lines [] sub = refl
  length-join_lines (last ∷ []) [] = ground arith
  length-join_lines (last ∷ []) (head ∷ sub) = ground arith
  length-join_lines (line ∷ next ∷ out) sub = ground (arith, length-join_lines (next ∷ out) sub)

  join_lines-IsCounted :
      (out sub : List (Line E)) (m n : ℕ)
      → IsCounted out m
      → IsCounted sub n
      → IsCounted (join_lines out sub) (m + n)
  join_lines-IsCounted out sub m n a b = ground (arith, length-join_lines out sub, a, b)

  length-wrap : (el : E) (sub : List (Line E)) (n : ℕ) → IsCounted sub n → IsCounted (wrap el sub) n
  unfolding wrap
  length-wrap el [] n a = ground arith
  length-wrap el (seg ∷ sub) n a =
      ground (arith, length-map (λ line. piece (element_piece el line) no_pieces) sub)

  mutual
    unfolding walk text_of count_feeds

    walk-IsCounted : (n : CodeNode E) → IsCounted (walk n) (count_feeds (text_of n))
    walk-IsCounted (run text) = inr (length-map line_of (split 10 text) ∙ length-split text)
    walk-IsCounted (element el kids) =
        length-wrap el (walk_all [] kids) (count_feeds (text_all kids)) (
          recount (walk_all [] kids) (0 + count_feeds (text_all kids)) (count_feeds (text_all kids))
            (omega arith) (walk_all-IsCounted [] 0 kids (inl (refl, refl))))
    walk-IsCounted (array nodes) =
        recount (walk_all [] nodes) (0 + count_feeds (text_all nodes))
          (count_feeds (text_all nodes)) (omega arith)
          (walk_all-IsCounted [] 0 nodes (inl (refl, refl)))
    walk-IsCounted (leaf el) = inr refl

    walk_all-IsCounted :
        (out : List (Line E)) (m : ℕ) (nodes : CodeNodes E)
        → IsCounted out m
        → IsCounted (walk_all out nodes) (m + count_feeds (text_all nodes))
    walk_all-IsCounted out m no_nodes a = recount out m (m + 0) (omega arith) a
    walk_all-IsCounted out m (node n nodes) a =
        recount (walk_all (join_lines out (walk n)) nodes)
          ((m + count_feeds (text_of n)) + count_feeds (text_all nodes))
          (m + count_feeds (text_of n ++ text_all nodes))
          (omega (arith, count_feeds-append (text_of n) (text_all nodes)))
          (walk_all-IsCounted (join_lines out (walk n)) (m + count_feeds (text_of n)) nodes
            (join_lines-IsCounted out (walk n) m (count_feeds (text_of n)) a (walk-IsCounted n)))

  unfoldable pub and_last : CodeNodes E → CodeNode E → CodeNodes E
  and_last no_nodes x = node x no_nodes
  and_last (node n nodes) x = node n (and_last nodes x)

  walk_all-and_last :
      (out : List (Line E)) (nodes : CodeNodes E) (x : CodeNode E)
      → walk_all out (and_last nodes x) ≡ join_lines (walk_all out nodes) (walk x)
  unfolding walk and_last
  walk_all-and_last out no_nodes x = refl
  walk_all-and_last out (node n nodes) x = walk_all-and_last (join_lines out (walk n)) nodes x

  text_all-and_last :
      (nodes : CodeNodes E) (x : CodeNode E)
      → text_all (and_last nodes x) ≡ text_all nodes ++ text_of x
  unfolding text_of and_last
  text_all-and_last no_nodes x = append-nil (text_of x)
  text_all-and_last (node n nodes) x =
      ap (λ s. text_of n ++ s) (text_all-and_last nodes x)
      ∙ sym (append_assoc (text_of n) (text_all nodes) (text_of x))

  last_empty : List (Line E) → Bool
  last_empty [] = false
  last_empty (line ∷ []) = is_no_line line
  last_empty (line ∷ next ∷ lines) = last_empty (next ∷ lines)

  length-pop_phantom :
      (lines : List (Line E))
      → length (pop_phantom lines)
        ≡ (if last_empty lines && ltb 1 (length lines) then length lines - 1 else length lines)
  unfolding pop_phantom last_empty
  length-pop_phantom [] = refl
  length-pop_phantom (line ∷ []) = ground arith
  length-pop_phantom (line ∷ last ∷ []) = ground arith
  length-pop_phantom (line ∷ next ∷ more ∷ lines) =
      ground (arith, length-pop_phantom (next ∷ more ∷ lines))

  is_no_line-append_line :
      (a b : Line E) → is_no_line (append_line a b) ≡ (is_no_line a && is_no_line b)
  is_no_line-append_line no_pieces b = refl
  is_no_line-append_line (piece p a) b = refl

  last_empty-join_lines :
      (out sub : List (Line E))
      → 1 ≤ length sub
      → last_empty (join_lines out sub)
        ≡ (last_empty sub && (ltb 1 (length sub) || length out == 0 || last_empty out))
  unfolding join_lines last_empty
  last_empty-join_lines out [] h = absurd (omega (arith, h))
  last_empty-join_lines [] (head ∷ sub) h = ground arith
  last_empty-join_lines (last ∷ []) (head ∷ []) h = ground (arith, is_no_line-append_line last head)
  last_empty-join_lines (last ∷ []) (head ∷ next ∷ sub) h = ground arith
  last_empty-join_lines (line ∷ next ∷ out) (head ∷ sub) h =
      ground (arith, last_empty-join_lines (next ∷ out) (head ∷ sub))

module _ (E : Type 0) where
  last_empty-map : (ps : List Text) → last_empty (map (line_of {E = E}) ps) ≡ last_blank ps
  unfolding last_empty last_blank
  last_empty-map [] = refl
  last_empty-map ([] ∷ []) = ground arith
  last_empty-map ((c ∷ p) ∷ []) = ground arith
  last_empty-map (p ∷ q ∷ ps) = last_empty-map (q ∷ ps)

module _ {E : Type 0} where
  -- The rows that the browser makes of a code element are as many as the lines that the server
  -- counts in its text, however the text is spread over elements, where the last child is a text
  -- that is not empty.
  pub length-split_code_lines :
      (before : CodeNodes E) (last : Text)
      → length last == 0 ≡ false
      → let code = and_last before (run last) in
        length (split_code_lines (array code)) ≡ count_lines (text_all code)
  unfolding split_code_lines walk count_lines text_of
  length-split_code_lines before last nonempty =
      let code = and_last before (run last) in
      let sub = map (line_of {E = E}) (split 10 last) in
      let text = text_all code in
      let joined = walk_all-and_last [] before (run last) in
      let counted = walk_all-IsCounted [] 0 code (inl (refl, refl)) in
      let rows = length-map (line_of {E = E}) (split 10 last) ∙ length-split last in
      let empty = last_empty-join_lines (walk_all [] before) sub (omega (arith, rows)) in
      let blank = last_empty-map E (split 10 last) ∙ last_blank-split last in
      let shown = text_all-and_last before (run last) in
      let popped = length-pop_phantom (walk_all [] code) in
      let hidden : last_empty (walk_all [] code)
          ≡ last_empty (join_lines (walk_all [] before) sub) =
        ap last_empty joined in
      let long : length (walk_all [] code) ≡ length (join_lines (walk_all [] before) sub) =
        ap length joined in
      let whole = length-join_lines (walk_all [] before) sub in
      let ends : ends_with_feed text ≡ ends_with_feed last =
        ap ends_with_feed shown ∙ ends_with_feed-append (text_all before) last nonempty in
      let size : length text ≡ length (text_all before) + length last =
        ap length shown ∙ length-append (text_all before) last in
      let feeds : count_feeds text ≡ count_feeds (text_all before) + count_feeds last =
        ap count_feeds shown ∙ count_feeds-append (text_all before) last in
      ground (
        arith,
        popped,
        hidden,
        long,
        whole,
        ends,
        size,
        feeds,
        rows,
        empty,
        blank,
        nonempty,
        counted,
        ends_with_feed-count_feeds last,
      )
