-- ===== src/Persist/Merge/Examples.antt =====
-- Two paragraphs of a Note, merged by rust/src/workspace/persist.rs.
use burlmd.Prelude.{ℕ}
use burlmd.Prelude.{◌≡◌, refl, ◌⊎◌, none, [], ◌∷◌}
use burlmd.Prelude.Text.{Text, codes, text_eq}
use burlmd.Prelude.Bytes.{byte_len, get, is_char_boundary, split_at, slice_to, slice_from}
use burlmd.Error.{ok}
use burlmd.Markdown.Ast.{Nodes, node, no_nodes, paragraph, no_inlines}
use burlmd.Markdown.Spans.{BlockSpan, SpanMap, block, lookup_path, is_leaf}
use burlmd.Persist.Blocks.{map_splice_error}
use burlmd.Markdown.Splice.{splice_source}
use burlmd.Persist.Fixtures.{one_core}
use burlmd.Markdown.Spans.{BlockPath}
use burlmd.Prelude.Bytes.{Range, utf16_len}
use burlmd.Persist.Leaves.{
  editable_live_path, block_span, previous_block_end, previous_editable_leaf, max_by_key, best_of,
  filter,
}
use burlmd.Persist.Tree.{nearest_list_item, walk_items, get_node}
use burlmd.Persist.Seams.{source_caret_before_trailing_newline, trim_line_end}
use burlmd.Workspace.Title.{trim, trim_whitespace}
use burlmd.Persist.Merge.{
  gap_of, close_gap, merge_list_item, merge_container, merge_blank, merge_edit,
}
use burlmd.Persist.Merge.Seam.{IsFirst, Cut, merge_edit-Cut}

abbrev two : Text
two = codes "a\n\nb\n"

abbrev leaf_at : ℕ → ℕ → ℕ → BlockSpan
leaf_at n start stop = record {
  path = n ∷ [];
  source = record { start = start; stop = stop };
  runs = [];
  rendered_len = 1;
  children = [];
}

abbrev both : SpanMap
both = record {
  blocks = leaf_at 0 0 2 ∷ leaf_at 1 3 5 ∷ [];
  by_path = (0 ∷ [], 0) ∷ (1 ∷ [], 1) ∷ [];
  frontmatter = none;
}

abbrev two_paragraphs : Nodes
two_paragraphs = node (paragraph no_inlines) (node (paragraph no_inlines) no_nodes)

merged :
    merge_edit one_core (1 ∷ []) two both two_paragraphs both ≡ ok (codes "a\nb\n", (0 ∷ [], 1))
unfolding merge_edit editable_live_path block_span block lookup_path text_eq is_leaf merge_list_item
    nearest_list_item walk_items get_node merge_container merge_blank previous_block_end
    previous_editable_leaf max_by_key best_of filter gap_of close_gap get split_at byte_len trim
    trim_whitespace map_splice_error splice_source is_char_boundary slice_to slice_from
    source_caret_before_trailing_newline trim_line_end utf16_len
merged = refl

merge_edit-Cut_example :
    (live : BlockPath) × (span : Range) × (editable_live_path one_core both both (1 ∷ []) ≡ ok live)
    × (block_span one_core both live ≡ ok span)
    × (IsFirst one_core two both live span (codes "a\nb\n") (0 ∷ [], 1)
        ⊎ Cut one_core two span (codes "a\nb\n"))
merge_edit-Cut_example =
    merge_edit-Cut one_core (1 ∷ []) two both both two_paragraphs (codes "a\nb\n") (0 ∷ [], 1)
      merged
