-- ===== src/Persist/Continue/Examples.antt =====
-- A continuation of rust/src/workspace/persist.rs after a heading with a paragraph right below it.
use burlmd.Prelude.{ℕ}
use burlmd.Prelude.{◌≡◌, refl, none, [], ◌∷◌}
use burlmd.Prelude.Text.{Text, codes, text_eq}
use burlmd.Prelude.Bytes.{byte_len, get, is_char_boundary, split_at, slice_to, slice_from}
use burlmd.Error.{ok}
use burlmd.Markdown.Ast.{Nodes, node, no_nodes, paragraph, no_inlines}
use burlmd.Markdown.Spans.{BlockSpan, SpanMap, block, lookup_path, is_leaf}
use burlmd.Persist.Blocks.{map_splice_error}
use burlmd.Markdown.Splice.{splice_source}
use burlmd.Persist.Fixtures.{one_core}
use burlmd.Persist.Leaves.{editable_live_path, block_span, best_of, filter}
use burlmd.Persist.Tree.{nearest_list_item, walk_items, get_node}
use burlmd.Persist.Continue.{
  continuation_of, continue_by, continue_edit, final_editable_leaf_inserted_under,
}
use burlmd.Error.{AppError, err}
use burlmd.Prelude.Split.{rsplit_once}
use burlmd.Prelude.Text.{ends_with}
use burlmd.Persist.Blocks.{seam_newline}
use burlmd.Persist.Seams.{
  newline_style, leading_newlines, trailing_newlines, separator_before, repeat, newline_run,
}
use burlmd.Persist.Tree.{node_at_path}

abbrev heading_then_text : Text
heading_then_text = codes "# A\nB\n"

abbrev leaf_at : ℕ → ℕ → ℕ → BlockSpan
leaf_at n start stop = record {
  path = n ∷ [];
  source = record { start = start; stop = stop };
  runs = [];
  rendered_len = 1;
  children = [];
}

abbrev both : SpanMap
both = record {
  blocks = leaf_at 0 0 4 ∷ leaf_at 1 4 6 ∷ [];
  by_path = (0 ∷ [], 0) ∷ (1 ∷ [], 1) ∷ [];
  frontmatter = none;
}

abbrev two_nodes : Nodes
two_nodes = node (paragraph no_inlines) (node (paragraph no_inlines) no_nodes)

-- The new paragraph starts at 5. The range that is recorded for it starts at 7, behind its line end.
continued :
    continue_edit one_core (0 ∷ []) (codes "x") heading_then_text both two_nodes both
    ≡ ok (
      codes "# A\n\nx\n\nB\n",
      record { focus_parent = 1 ∷ []; inserted = record { start = 7; stop = 8 } },
    )
unfolding continue_edit continuation_of continue_by editable_live_path block_span block lookup_path
    text_eq is_leaf nearest_list_item walk_items get_node get split_at byte_len map_splice_error
    splice_source is_char_boundary slice_to slice_from seam_newline separator_before repeat
    trailing_newlines leading_newlines newline_run newline_style rsplit_once ends_with
continued = refl

abbrev three : SpanMap
three = record {
  blocks = leaf_at 0 0 4 ∷ leaf_at 1 5 7 ∷ leaf_at 2 8 10 ∷ [];
  by_path = (0 ∷ [], 0) ∷ (1 ∷ [], 1) ∷ (2 ∷ [], 2) ∷ [];
  frontmatter = none;
}

-- So the paragraph is not found, and the continuation is refused.
not_found_again :
    (e : AppError) × (final_editable_leaf_inserted_under one_core
        (codes "# A\n\nx\n\nB\n")
        three
        (node (paragraph no_inlines) two_nodes)
        (1 ∷ [])
        (record { start = 7; stop = 8 })
      ≡ err e)
unfolding final_editable_leaf_inserted_under filter best_of is_leaf node_at_path get_node
not_found_again = (_, refl)
