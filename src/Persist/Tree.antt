-- ===== src/Persist/Tree.antt =====
-- rust/src/workspace/persist.rs: paths in the tree of a Note.
use burlmd.Prelude.{
  ℕ, zero, suc, Bool, true, false, Option, none, some, [], ◌∷◌, ◌++◌, ◌==◌, if◌then◌else◌, ◌>>=◌,
  unwrap_or,
}
use burlmd.Markdown.Ast.{
  AstNode, heading, paragraph, list, list_item, blockquote, code_block, thematic_break, image,
  suggestion, Nodes, no_nodes, node,
}
use burlmd.Markdown.Spans.{BlockPath}

-- `nodes.get(index)` and `nodes.len()`.
unfoldable pub get_node : Nodes → ℕ → Option AstNode
get_node no_nodes index = none
get_node (node n rest) zero = some n
get_node (node n rest) (suc index) = get_node rest index

unfoldable pub node_count : Nodes → ℕ
node_count no_nodes = 0
node_count (node n rest) = suc (node_count rest)

-- The nodes that a path goes down to: those of a list, a list item, a quote, and a suggestion's own.
unfoldable pub children_of : AstNode → Option Nodes
children_of (list ordered items) = some items
children_of (list_item content checked) = some content
children_of (blockquote nodes) = some nodes
children_of (suggestion base here incoming) = some here
children_of (heading level content) = none
children_of (paragraph content) = none
children_of (code_block language code) = none
children_of thematic_break = none
children_of (image alt_text url_or_path) = none

unfoldable pub node_at_path : Nodes → BlockPath → Option AstNode
node_at_path nodes [] = none
node_at_path nodes (head ∷ []) = get_node nodes head
node_at_path nodes (head ∷ next ∷ rest) =
    get_node nodes head >>= λ n. children_of n >>= λ below. node_at_path below (next ∷ rest)

abbrev pub is_list : AstNode → Bool
is_list (list ordered items) = true
is_list _ = false

abbrev pub is_list_or_quote : AstNode → Bool
is_list_or_quote (list ordered items) = true
is_list_or_quote (blockquote nodes) = true
is_list_or_quote _ = false

-- `walk`: outside `none`, the path names a node; inside is the closest list so far. A path that ends
-- at a list has no item, and fails.
unfoldable pub walk_items :
    Nodes → BlockPath → BlockPath → Option (BlockPath × ℕ) → Option (Option (BlockPath × ℕ))
walk_items nodes [] prefix closest = none
walk_items nodes (head ∷ []) prefix closest =
    get_node nodes head >>= λ n. if is_list n then none else some closest
walk_items nodes (head ∷ item ∷ rest) prefix closest = get_node nodes head >>= λ n.
    children_of n >>= λ below.
    walk_items below (item ∷ rest) (prefix ++ head ∷ [])
      (if is_list n then some (prefix ++ head ∷ [], item) else closest)

unfoldable pub nearest_list_item : Nodes → BlockPath → Option (BlockPath × ℕ)
nearest_list_item nodes path = walk_items nodes path [] none >>= λ closest. closest

-- Whether a container lets go of its only child's line: a list always does.
abbrev pub lets_go : AstNode → Nodes → Bool
lets_go (list ordered items) below = true
lets_go _ below = node_count below == 1

removable_walk : Nodes → BlockPath → Option Bool
removable_walk nodes [] = none
removable_walk nodes (head ∷ []) = get_node nodes head >>= λ _. some true
removable_walk nodes (head ∷ next ∷ rest) = get_node nodes head >>= λ n. elim (children_of n) [
  | none ↦ some false
  | some below ↦ if lets_go n below then removable_walk below (next ∷ rest) else none
]

unfoldable pub removable_structural_line : Nodes → BlockPath → Bool
unfolding removable_walk
removable_structural_line nodes path = unwrap_or (removable_walk nodes path) false
