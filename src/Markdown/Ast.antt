-- ===== src/Markdown/Ast.antt =====
-- rust/src/markdown/ast.rs: the tree that a Note is parsed to, and its rendered text, which is
-- `rendered_text` of rust/src/markdown/spans.rs. A vector of nodes is a data type of its own, as the
-- trees hold it.
pub mod Rendered
use burlmd.Prelude.{ℕ, Bool, Option, List, [], ◌∷◌, ◌++◌}
use burlmd.Prelude.Text.{Text}
use burlmd.Prelude.Split.{join}

pub record TextRun : Type 0 where
  pub content : Text
  pub bold : Bool
  pub italic : Bool
  pub strikethrough : Bool
  pub code : Bool

mutual
  pub data InlineElement : Type 0 where
    text : TextRun → InlineElement
    link : Text → Bool → Inlines → InlineElement
    external_link : Text → Inlines → InlineElement

  pub data Inlines : Type 0 where
    no_inlines : Inlines
    inline : InlineElement → Inlines → Inlines

mutual
  pub data AstNode : Type 0 where
    heading : ℕ → Inlines → AstNode
    paragraph : Inlines → AstNode
    list : Bool → Nodes → AstNode
    list_item : Nodes → Option Bool → AstNode
    blockquote : Nodes → AstNode
    code_block : Option Text → Text → AstNode
    thematic_break : AstNode
    image : Text → Text → AstNode
    suggestion : OptionalNodes → Nodes → Nodes → AstNode

  pub data Nodes : Type 0 where
    no_nodes : Nodes
    node : AstNode → Nodes → Nodes

  pub data OptionalNodes : Type 0 where
    absent : OptionalNodes
    present : Nodes → OptionalNodes

-- `push_inline_text`, which appends to the text so far.
unfoldable mutual
  pub inline_text : InlineElement → Text → Text
  inline_text (text run) out = out ++ run.content
  inline_text (link target exists content) out = push_inline_text content out
  inline_text (external_link url content) out = push_inline_text content out

  pub push_inline_text : Inlines → Text → Text
  push_inline_text no_inlines out = out
  push_inline_text (inline element rest) out = push_inline_text rest (inline_text element out)

unfoldable pub rendered_inline_text : Inlines → Text
rendered_inline_text content = push_inline_text content []

abbrev newline : ℕ
newline = 10

unfoldable mutual
  pub rendered_text : AstNode → Text
  rendered_text (heading level content) = rendered_inline_text content
  rendered_text (paragraph content) = rendered_inline_text content
  rendered_text (list ordered items) = join newline (rendered_all items)
  rendered_text (list_item content checked) = join newline (rendered_all content)
  rendered_text (blockquote nodes) = join newline (rendered_all nodes)
  rendered_text (code_block language code) = code
  rendered_text thematic_break = []
  rendered_text (image alt_text url_or_path) = alt_text
  rendered_text (suggestion base here incoming) =
      join newline (rendered_optional base ++ (rendered_all here ++ rendered_all incoming))

  pub rendered_all : Nodes → List Text
  rendered_all no_nodes = []
  rendered_all (node n rest) = rendered_text n ∷ rendered_all rest

  pub rendered_optional : OptionalNodes → List Text
  rendered_optional absent = []
  rendered_optional (present nodes) = rendered_all nodes
