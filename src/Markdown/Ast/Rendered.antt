-- ===== src/Markdown/Ast/Rendered.antt =====
-- The length of a container's rendered text.
use burlmd.Prelude.{ℕ, ◌+◌, ◌≡◌, Bool, Option, ◌∷◌, length, length-append, arith}
use burlmd.Prelude.Split.{join}
use burlmd.Markdown.Ast.{
  AstNode, list, list_item, blockquote, Nodes, no_nodes, node, rendered_text, rendered_all,
}

-- The lengths of the nodes' rendered texts, with one more character after each.
abbrev pub joined_len : Nodes → ℕ
joined_len no_nodes = 0
joined_len (node n rest) = length (rendered_text n) + (1 + joined_len rest)

length-join_rendered :
    (n : AstNode) (rest : Nodes)
    → length (join 10 (rendered_all (node n rest))) + 1 ≡ joined_len (node n rest)
unfolding rendered_all join
length-join_rendered n no_nodes = omega arith
length-join_rendered n (node m rest) = omega (
  arith,
  length-append (rendered_text n) (10 ∷ join 10 (rendered_all (node m rest))),
  length-join_rendered m rest,
)

-- The rendered text of a list, a list item or a quote that is not empty has the length of its
-- children's, with one character between two: a container's length in the span map.
pub length-rendered_text :
    (ordered : Bool) (checked : Option Bool) (n : AstNode) (rest : Nodes)
    → (length (rendered_text (list ordered (node n rest))) + 1 ≡ joined_len (node n rest))
      × (length (rendered_text (list_item (node n rest) checked)) + 1 ≡ joined_len (node n rest))
      × (length (rendered_text (blockquote (node n rest))) + 1 ≡ joined_len (node n rest))
unfolding rendered_text
length-rendered_text ordered checked n rest =
    (length-join_rendered n rest, length-join_rendered n rest, length-join_rendered n rest)
