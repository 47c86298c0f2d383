-- ===== src/Persist/Merge.antt =====
-- rust/src/workspace/persist.rs: the merge of a Block with the one before it.
pub mod Seam
pub mod Examples
use burlmd.Prelude.{
  ℕ, ◌-◌, Bool, false, ◌&&◌, Option, none, some, List, [], ◌∷◌, ◌++◌, ltb, if◌then◌else◌,
}
use burlmd.Prelude.Text.{Text, codes, text_eq}
use burlmd.Prelude.Bytes.{Range, get}
use burlmd.Error.{AppError, parse_error, Result, ok, err, ◌>>=◌}
use burlmd.Workspace.Title.{trim}
use burlmd.Markdown.Ast.{Nodes}
use burlmd.Markdown.Spans.{BlockPath, BlockSpan, SpanMap}
use burlmd.Markdown.Splice.{splice_source}
use burlmd.Persist.{Core, Note, NoteState}
use burlmd.Persist.Session.{ok_or, not_addressable}
use burlmd.Persist.Edit.{EditFunction, structural_edit_with_result}
use burlmd.Persist.Seams.{newline_style, source_caret_before_trailing_newline, elided}
use burlmd.Persist.Tree.{get_node, is_list_or_quote, nearest_list_item}
use burlmd.Persist.Leaves.{
  previous_block_end, first_editable_leaf, last_editable_leaf, previous_editable_leaf, block_span,
  path_error, editable_live_path, line_prefix_before,
}
use burlmd.Persist.Blocks.{map_splice_error, structural_edit, Called}

-- The Block and the offset in it that a merge leaves the caret at.
abbrev pub Focus : Type 0
Focus = BlockPath × ℕ

abbrev pub between : ℕ → ℕ → Range
between from to = record { start = from; stop = to }

-- Whether a leaf was found at a path.
abbrev pub is_at : BlockPath → Option BlockSpan → Bool
is_at path none = false
is_at path (some b) = text_eq b.path path

abbrev pub is_container : Nodes → ℕ → Bool
is_container ast top = elim (get_node ast top) [ none ↦ false | some n ↦ is_list_or_quote n ]

module _ (core : Core) where
  unfoldable pub gap_of : Text → Range → Result Text
  gap_of working range = ok_or (get working range) (not_addressable core range)

  -- The gap is cut out, and the caret stays at the end of the previous leaf.
  unfoldable pub close_gap : Text → Range → BlockSpan → Result (Text × Focus)
  close_gap working gap previous = do
    text ← ok_or (get working previous.source) (not_addressable core previous.source)
    spliced ← map_splice_error core (splice_source working gap [])
    ok (spliced, (previous.path, source_caret_before_trailing_newline text))

  -- A gap that is one line end and the container's own syntax is a seam; any other falls through.
  unfoldable pub merge_seam : Text → Range → BlockSpan → Result (Option (Text × Focus))
  merge_seam working span previous = do
    prefix ← line_prefix_before core working span.start
    gap ← gap_of working (between previous.source.stop span.start)
    if text_eq gap (newline_style working ++ prefix)
        then (close_gap working (between previous.source.stop span.start) previous >>= λ merged.
            ok (some merged))
        else ok none

  no_leaf : BlockPath → AppError
  no_leaf item_path =
      path_error core (codes "ListItem at block_path ") item_path (codes " has no editable leaf")

  merge_item : Text → SpanMap → BlockPath → Range → BlockPath → ℕ → Result (Option (Text × Focus))
  unfolding no_leaf
  merge_item working spans live span list_path item_index = do
    first ←
        ok_or (first_editable_leaf spans (list_path ++ item_index ∷ []))
          (no_leaf (list_path ++ item_index ∷ []))
    let before = list_path ++ (item_index - 1) ∷ []
    if ltb 0 item_index && text_eq first.path live
        then (ok_or (last_editable_leaf spans before) (no_leaf before) >>= λ previous.
            merge_seam working span previous)
        else ok none

  unfoldable pub merge_list_item :
      Text → SpanMap → Nodes → BlockPath → Range → Result (Option (Text × Focus))
  unfolding merge_item
  merge_list_item working spans ast live span = elim (nearest_list_item ast live) [
    | none ↦ ok none
    | some (list_path, item_index) ↦ merge_item working spans live span list_path item_index
  ]

  no_predecessor : ℕ → AppError
  no_predecessor top =
      parse_error
        (codes "top-level Block " ++ (core.decimal top ++ codes " has no editable predecessor"))

  unfoldable pub merge_container :
      Text → SpanMap → Nodes → BlockPath → Range → Result (Option (Text × Focus))
  unfolding no_predecessor
  merge_container working spans ast [] span = ok none
  merge_container working spans ast (top ∷ below) span =
      if ltb 0 top
        && (is_container ast top && is_at (top ∷ below) (first_editable_leaf spans (top ∷ [])))
      then (ok_or (last_editable_leaf spans ((top - 1) ∷ [])) (no_predecessor (top - 1))
          >>= λ previous. merge_seam working span previous)
      else ok none

  hidden_content : BlockPath → Text → AppError
  hidden_content live gap = path_error core (codes "block_path ") live (
      codes
        " cannot be merged with the Block before it: the two are separated by content this editor does not render and cannot address, and the merge would delete it — "
      ++ elided gap 60)

  -- The merge over blank source. The first Block has nothing to merge with.
  unfoldable pub merge_blank : Text → SpanMap → BlockPath → Range → Result (Text × Focus)
  unfolding hidden_content
  merge_blank working spans live span = elim (previous_block_end spans span) [
    | none ↦ ok (working, (live, 0))
    | some previous_end ↦ do
      previous ←
          ok_or (previous_editable_leaf spans span)
            (path_error core (codes "block_path ") live (codes " has no editable predecessor"))
      gap ← gap_of working (between previous_end span.start)
      if text_eq (trim gap) []
          then close_gap working (between previous_end span.start) previous
          else err (hidden_content live gap)
  ]

  unfoldable pub merge_edit : BlockPath → EditFunction Focus
  merge_edit path working spans ast retained = do
    live ← editable_live_path core spans retained path
    span ← block_span core spans live
    by_item ← merge_list_item working spans ast live span
    by_container ← elim by_item [
      | some merged ↦ ok (some merged)
      | none ↦ merge_container working spans ast live span
    ]
    elim by_container [ some merged ↦ ok merged | none ↦ merge_blank working spans live span ]

  unfoldable pub merge_block_with_previous :
      Text
      → ℕ
      → Option AppError
      → (Note → Note)
      → (Nodes → Result Nodes)
      → BlockPath
      → Note
      → Called Focus
  merge_block_with_previous note_id now draft meanwhile links path n =
      structural_edit core note_id now draft meanwhile links (merge_edit path) n
