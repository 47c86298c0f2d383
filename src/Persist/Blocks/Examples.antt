-- ===== src/Persist/Blocks/Examples.antt =====
-- Structural edits of rust/src/workspace/persist.rs run on examples.
use burlmd.Prelude.{◌≡◌, refl, none, some, [], ◌∷◌}
use burlmd.Prelude.Text.{Text, codes, text_eq, ends_with}
use burlmd.Prelude.Bytes.{byte_len, get, is_char_boundary, split_at, slice_to, slice_from}
use burlmd.Error.{ok}
use burlmd.Markdown.Spans.{BlockSpan, SpanMap, block, lookup_path}
use burlmd.Prelude.Split.{rsplit_once}
use burlmd.Persist.Blocks.{insert_block_edit, map_splice_error, seam_newline}
use burlmd.Persist.Seams.{separator_before, repeat, trailing_newlines, newline_run, newline_style}
use burlmd.Markdown.Splice.{splice_source}
use burlmd.Persist.Blocks.Insert.{Inserted, insert_block_edit-Inserted}
use burlmd.Persist.Blocks.Delete.{Deleted, delete_block_edit-Deleted}
use burlmd.Persist.Leaves.{live_path}
use burlmd.Markdown.Splice.Laws.{IsSpan}
use burlmd.Persist.Fixtures.{one_block, one_paragraph, one_core}

at_the_end :
    insert_block_edit one_core
      (9 ∷ [])
      (codes "again")
      (codes "hello")
      (one_block (codes "hello"))
      one_paragraph
      (one_block (codes "hello"))
    ≡ ok (codes "hello\n\nagain\n", tt)
unfolding insert_block_edit get block lookup_path text_eq byte_len split_at map_splice_error
    splice_source is_char_boundary slice_to slice_from separator_before repeat trailing_newlines
    newline_run newline_style rsplit_once seam_newline ends_with
at_the_end = refl

insert_block_edit-Inserted_example :
    Inserted one_core
      (9 ∷ [])
      (codes "again")
      (codes "hello")
      (one_block (codes "hello"))
      (codes "hello\n\nagain\n")
insert_block_edit-Inserted_example =
    insert_block_edit-Inserted one_core (9 ∷ []) (codes "again") (codes "hello")
      (one_block (codes "hello")) (one_block (codes "hello")) one_paragraph
      (codes "hello\n\nagain\n") at_the_end

-- Two Blocks, of which the first is deleted.
abbrev two : Text
two = codes "a\n\nb\n"

abbrev first_block : BlockSpan
first_block = record {
  path = 0 ∷ [];
  source = record { start = 0; stop = 2 };
  runs = [];
  rendered_len = 1;
  children = [];
}

abbrev two_blocks : SpanMap
two_blocks = record { blocks = first_block ∷ []; by_path = (0 ∷ [], 0) ∷ []; frontmatter = none }

abbrev first_span : IsSpan two (first_block.source)
first_span = record {
  before = [];
  inside = codes "a\n";
  after = codes "\nb\n";
  text = refl;
  starts = unfold byte_len in refl;
  stops = unfold byte_len in refl;
}

first_found : block two_blocks (0 ∷ []) ≡ some first_block
unfolding block lookup_path text_eq
first_found = refl

first_live : live_path one_core two_blocks two_blocks (0 ∷ []) ≡ ok (0 ∷ [])
unfolding live_path block lookup_path text_eq
first_live = refl

delete_block_edit-Deleted_example :
    Deleted one_core (0 ∷ []) two (codes "a\n") two_blocks two_blocks one_paragraph
delete_block_edit-Deleted_example =
    delete_block_edit-Deleted one_core (0 ∷ []) (0 ∷ []) two two_blocks two_blocks one_paragraph
      first_block first_live first_found first_span
