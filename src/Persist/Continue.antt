-- ===== src/Persist/Continue.antt =====
-- rust/src/workspace/persist.rs: the continuation after a Block, and where it leaves the caret.
pub mod Examples
use burlmd.Prelude.{
  ℕ, suc, ◌+◌, ◌-◌, min, max, Bool, true, false, not, ◌&&◌, ◌||◌, Option, none, some, List, [], ◌∷◌,
  ◌++◌, ltb, leb, ◌==◌, if◌then◌else◌,
}
use burlmd.Prelude.Text.{Text, codes, text_eq}
use burlmd.Prelude.Bytes.{Range, byte_len, get, utf16_len}
use burlmd.Error.{AppError, parse_error, Result, ok, err, ◌>>=◌}
use burlmd.Markdown.Ast.{AstNode, list_item, Nodes, no_nodes}
use burlmd.Markdown.Spans.{BlockPath, BlockSpan, SpanMap, block, is_leaf, usize_max}
use burlmd.Markdown.Splice.{splice_source}
use burlmd.Persist.{Core, Note, NoteState}
use burlmd.Persist.Session.{ok_or, no_block}
use burlmd.Persist.Edit.{EditFunction, DeriveFunction, structural_edit_with_result}
use burlmd.Persist.Seams.{
  block_separator_newlines, trailing_newlines, leading_newlines, newline_style, repeat,
  separator_before,
}
use burlmd.Persist.Tree.{node_at_path, nearest_list_item}
use burlmd.Persist.Leaves.{
  filter, best_of, clamp, block_span, path_error, editable_live_path, line_prefix_before,
}
use burlmd.Persist.Blocks.{
  up_to, at_point, from_offset, seam_newline, unaddressable_offset, map_splice_error, Called,
}
use burlmd.Persist.Merge.{Focus}

abbrev saturating_add : ℕ → ℕ → ℕ
saturating_add a b = min (a + b) usize_max

-- Where the focus is to be, and the range that the caller's text was given.
pub record ContinuationResult : Type 0 where
  pub focus_parent : BlockPath
  pub inserted : Range

pub data Continuation : Type 0 where
  in_list : Text → BlockPath → BlockPath → ℕ → Continuation
  independent : ℕ → Continuation
  empty_note : Continuation

abbrev is_empty_item : Option AstNode → Bool
is_empty_item (some (list_item no_nodes checked)) = true
is_empty_item _ = false

-- By the start and then by the end, the last of the greatest.
abbrev is_later : BlockSpan → BlockSpan → Bool
is_later best b =
    ltb best.source.start b.source.start
    || (best.source.start == b.source.start && leb best.source.stop b.source.stop)

abbrev overlaps : Range → BlockSpan → Bool
overlaps inserted b =
    is_leaf b && (ltb b.source.start inserted.stop && ltb inserted.start b.source.stop)

abbrev range_from : ℕ → Text → Range
range_from content_start source = record {
  start = content_start;
  stop = saturating_add content_start (byte_len source);
}

module _ (core : Core) where
  inserted_editable_focus : Text → BlockSpan → Range → Result Focus
  inserted_editable_focus source b inserted = do
    field_prefix ←
        ok_or (get source (record { start = b.source.start; stop = clamp inserted.stop b.source }))
          (path_error core (codes "continued Block at ") b.path
            (codes " has an unaddressable focus offset"))
    ok (b.path, utf16_len field_prefix)

  unfoldable pub final_editable_leaf_inserted_under :
      Text → SpanMap → Nodes → BlockPath → Range → Result Focus
  unfolding inserted_editable_focus
  final_editable_leaf_inserted_under source spans ast parent_path inserted = do
    b ←
        ok_or
          (best_of is_later (
            filter (λ b. overlaps inserted b && not (is_empty_item (node_at_path ast b.path)))
              spans.blocks))
          (path_error core (codes "continued Block at ") parent_path
            (codes " created no editable leaf"))
    inserted_editable_focus source b inserted

  -- What a continuation of a leaf is. A path of an editable leaf is not empty.
  continuation_at : Text → Nodes → BlockSpan → BlockPath → Result Continuation
  continuation_at working ast leaf live = elim (nearest_list_item ast live) [
    | some (list_path, item_index) ↦ line_prefix_before core working leaf.source.start >>= λ prefix.
        ok (in_list prefix live list_path item_index)
    | none ↦ (elim live [ [] ↦ err (no_block core []) | top ∷ below ↦ ok (independent top) ])
  ]

  unfoldable pub continuation_of :
      BlockPath → Text → SpanMap → Nodes → SpanMap → Result Continuation
  unfolding continuation_at
  continuation_of path working spans ast retained =
      if (elim spans.blocks [ [] ↦ true | _ ∷ _ ↦ false ]) && text_eq path (0 ∷ [])
      then ok empty_note
      else do
        live ← editable_live_path core spans retained path
        leaf ← ok_or (block spans live) (no_block core live)
        if not (is_leaf leaf)
            then err (
                path_error core (codes "block_path ") live
                  (codes " does not name an editable leaf"))
            else continuation_at working ast leaf live

  -- The range counts from the point by all that is spliced in but the caller's text, so what follows
  -- that text counts too.
  continue_with : Text → ℕ → Text → Text → BlockPath → Result (Text × ContinuationResult)
  continue_with working at text source parent = do
    spliced ← map_splice_error core (splice_source working (at_point at) text)
    ok (
      spliced,
      record {
        focus_parent = parent;
        inserted = range_from (saturating_add at (byte_len text - byte_len source)) source;
      },
    )

  unfoldable pub continue_by :
      Text → Text → SpanMap → Continuation → Result (Text × ContinuationResult)
  unfolding continue_with
  continue_by source working spans (in_list marker leaf_path list_path item_index) = do
    span ← block_span core spans leaf_path
    let newline = newline_style working
    spliced ←
        map_splice_error core
          (splice_source working (at_point span.stop) (newline ++ (marker ++ source)))
    ok (
      spliced,
      record {
        focus_parent = list_path ++ saturating_add item_index 1 ∷ [];
        inserted =
            range_from (saturating_add span.stop (byte_len newline + byte_len marker)) source;
      },
    )
  continue_by source working spans (independent top) = do
    span ← block_span core spans (top ∷ [])
    before ← ok_or (get working (up_to span.stop)) (unaddressable_offset core span.stop)
    after ← ok_or (from_offset working span.stop) (unaddressable_offset core span.stop)
    let required_after : ℕ = if text_eq after [] then 1 else block_separator_newlines
    let trail =
        repeat (seam_newline before working)
          (required_after - saturating_add (trailing_newlines source) (leading_newlines after))
    continue_with working span.stop
        (separator_before before block_separator_newlines ++ (source ++ trail)) source
        (saturating_add top 1 ∷ [])
  continue_by source working spans empty_note =
      continue_with working (byte_len working)
        (separator_before working block_separator_newlines
          ++ (source ++ repeat (newline_style working) (1 - trailing_newlines source)))
        source (0 ∷ [])

  unfoldable pub continue_edit : BlockPath → Text → EditFunction ContinuationResult
  continue_edit path source working spans ast retained = do
    kind ← continuation_of path working spans ast retained
    continue_by source working spans kind

  unfoldable pub continue_block_after :
      Text
      → ℕ
      → Option AppError
      → (Note → Note)
      → (Nodes → Result Nodes)
      → BlockPath
      → Text
      → Note
      → Called Focus
  continue_block_after note_id now draft meanwhile links path source n =
      structural_edit_with_result core note_id now draft meanwhile links (continue_edit path source)
        (λ working spans ast r.
          final_editable_leaf_inserted_under working spans ast r.focus_parent r.inserted)
        n
