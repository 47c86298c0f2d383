-- ===== src/Persist/Blocks.antt =====
-- rust/src/workspace/persist.rs: the structural edits, each the new source that it computes from the
-- working source, its live parse and the spans that the session holds, and the calls that run them.
pub mod Insert
pub mod Delete
pub mod Examples
use burlmd.Prelude.{
  ℕ, suc, ◌+◌, ◌-◌, Bool, true, false, not, ◌||◌, ◌&&◌, Option, none, some, List, [], ◌∷◌, ◌++◌,
  ltb, leb, ◌==◌, if◌then◌else◌, is_some, unwrap_or,
}
use burlmd.Prelude.Text.{Text, codes, text_eq, starts_with, contains}
use burlmd.Prelude.Bytes.{Range, byte_len, get, is_char_boundary}
use burlmd.Error.{AppError, parse_error, Result, ok, err, ◌>>=◌}
use burlmd.Markdown.Ast.{Nodes}
use burlmd.Markdown.Spans.{
  BlockPath, BlockSpan, RenderedRange, SpanMap, block, block_source, utf16_to_byte_offset,
  usize_max,
}
use burlmd.Markdown.Splice
use burlmd.Markdown.Splice.{
  SpliceError, unknown_block, offset_out_of_range, inverted_range, invalid_source_range, Spliced,
  splice_source, resolve_range, extract_range,
}
use burlmd.Persist.{Core, SessionState, Note, NoteState, refuse_while_conflicted}
use burlmd.Persist.Session.{ok_or, check_span, no_block, not_addressable}
use burlmd.Persist.Edit.{EditFunction, structural_edit_with_result}
use burlmd.Persist.Seams.{
  block_separator_newlines, trailing_newlines, newline_style, repeat, separator_before,
  cut_to_one_trailing_newline, separator_across, newline_run_len,
}
use burlmd.Persist.Leaves.{
  RangeEditLocation, range_edit_caret, block_span, editable_live_path, live_path,
}

abbrev pub up_to : ℕ → Range
up_to at = record { start = 0; stop = at }

abbrev pub at_point : ℕ → Range
at_point at = record { start = at; stop = at }

-- `working.get(at..)`.
abbrev pub from_offset : Text → ℕ → Option Text
from_offset working at = get working (record { start = at; stop = byte_len working })

-- The line ending of the text before a seam, or of the Note.
unfoldable pub seam_newline : Text → Text → Text
seam_newline before working =
    if contains b'\n' before then newline_style before else newline_style working

-- Before the Block, or at the end of the Note, which has no following Block to stay apart from.
abbrev pub insertion_point : Option BlockSpan → Text → ℕ
insertion_point none working = byte_len working
insertion_point (some b) working = b.source.start

abbrev pub required_newlines : Option BlockSpan → ℕ
required_newlines none = 1
required_newlines (some b) = block_separator_newlines

-- What a structural call answers, and the note that it leaves.
abbrev pub Called : Type 0 → Type 0
Called T = Result (NoteState × T) × Note

module _ (core : Core) where
  -- `SpliceError`'s message.
  show_splice_error : SpliceError → Text
  show_splice_error (unknown_block path) =
      codes "no Block is addressed by block_path " ++ core.debug_path path
  show_splice_error (offset_out_of_range path offset) =
      codes "rendered offset "
      ++ (core.decimal offset ++ (codes " is out of range for block_path " ++ core.debug_path path))
  show_splice_error inverted_range = codes "selection ends before it starts"
  show_splice_error (invalid_source_range range) =
      codes "source range "
      ++ (core.decimal range.start
          ++ (codes ".."
              ++ (core.decimal range.stop ++ codes " is not a valid character range in this Note")))

  -- `.map_err(splice_error)`.
  unfoldable pub map_splice_error {ℓ} : {A : Type ℓ} → Spliced A → Result A
  unfolding show_splice_error
  map_splice_error (Splice.ok a) = ok a
  map_splice_error (Splice.err e) = err (parse_error (show_splice_error e))

  pub unaddressable_offset : ℕ → AppError
  unaddressable_offset at =
      parse_error (codes "offset " ++ (core.decimal at ++ codes " is not addressable"))

  unfoldable pub insert_block_edit : BlockPath → Text → EditFunction Unit
  unfolding unaddressable_offset
  insert_block_edit path source working spans ast retained = do
    let target = block spans path
    let required_after = required_newlines target
    let at = insertion_point target working
    before ← ok_or (get working (up_to at)) (unaddressable_offset at)
    let newline = seam_newline before working
    let text =
        separator_before before block_separator_newlines
        ++ (source ++ repeat newline (required_after - trailing_newlines source))
    spliced ← map_splice_error (splice_source working (at_point at) text)
    ok (spliced, tt)

  -- What a deletion removes: with what follows, or from the end of what is before.
  unfoldable pub deleted_region : Text → Range → Range
  deleted_region working span =
      let run_end = span.stop + newline_run_len (unwrap_or (from_offset working span.stop) []) in
      if text_eq (unwrap_or (from_offset working run_end) []) []
      then record {
        start = cut_to_one_trailing_newline (unwrap_or (get working (up_to span.start)) []);
        stop = span.stop;
      }
      else record { start = span.start; stop = run_end }

  unfoldable pub delete_block_edit : BlockPath → EditFunction Unit
  delete_block_edit path working spans ast retained = do
    live ← live_path core spans retained path
    span ← block_span core spans live
    let region = deleted_region working span
    _ ← check_span core working region
    spliced ←
        map_splice_error
          (splice_source working region (separator_across working region.start region.stop))
    ok (spliced, tt)

  not_a_boundary : ℕ → BlockPath → AppError
  not_a_boundary offset path = parse_error (
      codes "split UTF-16 offset "
      ++ (core.decimal offset
          ++ (codes " is not a character boundary in block_path " ++ core.debug_path path)))

  unfoldable pub split_block_edit : BlockPath → ℕ → EditFunction Unit
  unfolding unaddressable_offset not_a_boundary
  split_block_edit path offset working spans ast retained = do
    live ← editable_live_path core spans retained path
    span ← block_span core spans live
    source ← ok_or (get working span) (not_addressable core span)
    byte_offset ← ok_or (utf16_to_byte_offset source offset) (not_a_boundary offset live)
    let at = span.start + byte_offset
    before ← ok_or (get working (up_to at)) (unaddressable_offset at)
    spliced ←
        map_splice_error
          (splice_source working (at_point at) (repeat (seam_newline before working) 2))
    ok (spliced, tt)

  -- `resolved.start.checked_add(replacement.len())`.
  join_of : Text → Range → Text → Result ℕ
  join_of message resolved replacement =
      if ltb usize_max (resolved.start + byte_len replacement)
      then err (parse_error message)
      else ok (resolved.start + byte_len replacement)

  unfoldable pub replace_range_edit : RenderedRange → Text → EditFunction ℕ
  unfolding join_of
  replace_range_edit range replacement working spans ast retained = do
    resolved ← map_splice_error (resolve_range working spans range)
    join ← join_of (codes "range replacement join overflowed source offset") resolved replacement
    spliced ← map_splice_error (splice_source working resolved replacement)
    ok (spliced, join)

  line_ending_len : Text → ℕ
  line_ending_len suffix =
      if starts_with (b'\r' ∷ b'\n' ∷ []) suffix
      then 2
      else if starts_with (b'\n' ∷ []) suffix
      then 1
      else 0

  -- The body behind a frontmatter that conforms.
  body_range : Text → Range → Result Range
  unfolding line_ending_len
  body_range source frontmatter = do
    suffix ←
        ok_or (from_offset source frontmatter.stop)
          (parse_error (codes "frontmatter end is not addressable in this Note"))
    let body_start = frontmatter.stop + line_ending_len suffix
    if ltb usize_max body_start
        then err (parse_error (codes "frontmatter boundary overflowed source"))
        else if not (is_char_boundary source body_start)
        then err (parse_error (codes "frontmatter boundary is not a source character boundary"))
        else ok (record { start = body_start; stop = byte_len source })

  unfoldable pub whole_note_source_range : Text → SpanMap → Result Range
  unfolding body_range
  whole_note_source_range source spans = elim spans.frontmatter [
    | none ↦ ok (up_to (byte_len source))
    | some frontmatter ↦ elim (get source frontmatter) [
      | none ↦ err (parse_error (codes "frontmatter span is not addressable in this Note"))
      | some raw ↦
          let read = core.read_frontmatter raw in
          if not read.is_conformant
          then ok (up_to (byte_len source))
          else body_range source frontmatter
    ]
  ]

  unfoldable pub replace_whole_note_edit : Text → EditFunction ℕ
  unfolding join_of
  replace_whole_note_edit replacement working spans ast retained = do
    resolved ← whole_note_source_range working spans
    join ←
        join_of (codes "whole-Note replacement join overflowed source offset") resolved replacement
    spliced ← map_splice_error (splice_source working resolved replacement)
    ok (spliced, join)

  module _ (note_id : Text) (now : ℕ) (draft : Option AppError) (meanwhile : Note → Note)
      (links : Nodes → Result Nodes) where
    -- `structural_edit`: the result is the edit's own.
    unfoldable pub structural_edit : {T : Type 0} → EditFunction T → Note → Called T
    structural_edit edit n =
        structural_edit_with_result core note_id now draft meanwhile links edit
          (λ _ _ _ result. ok result) n

    unfoldable pub insert_block : BlockPath → Text → Note → Called Unit
    insert_block path source n = structural_edit (insert_block_edit path source) n

    unfoldable pub delete_block : BlockPath → Note → Called Unit
    delete_block path n = structural_edit (delete_block_edit path) n

    unfoldable pub split_block : BlockPath → ℕ → Note → Called Unit
    split_block path offset n = structural_edit (split_block_edit path offset) n

    unfoldable pub replace_range_call : RenderedRange → Text → Note → Called RangeEditLocation
    replace_range_call range replacement n =
        structural_edit_with_result core note_id now draft meanwhile links
          (replace_range_edit range replacement)
          (λ source spans _ join. range_edit_caret core source spans join) n

    unfoldable pub replace_whole_note : Text → Note → Called RangeEditLocation
    replace_whole_note replacement n =
        structural_edit_with_result core note_id now draft meanwhile links
          (replace_whole_note_edit replacement)
          (λ source spans _ join. range_edit_caret core source spans join) n

    unfoldable pub delete_range : RenderedRange → Note → Called RangeEditLocation
    delete_range range n = replace_range_call range [] n

    unfoldable pub delete_whole_note : Note → Called RangeEditLocation
    delete_whole_note n = replace_whole_note [] n

  module _ (note_id : Text) where
    -- `block_source` of a session.
    unfoldable pub read_block_source : BlockPath → SessionState → Result Text
    read_block_source path s = do
      _ ← refuse_while_conflicted s note_id (codes "reading a Block's source")
      ok_or (block_source s.spans s.source path) (no_block core path)

    unfoldable pub copy_range_as_markdown : RenderedRange → SessionState → Result Text
    copy_range_as_markdown range s = do
      _ ← refuse_while_conflicted s note_id (codes "copying a range")
      map_splice_error (extract_range s.source s.spans range)

    unfoldable pub copy_whole_note_as_markdown : SessionState → Result Text
    copy_whole_note_as_markdown s = do
      _ ← refuse_while_conflicted s note_id (codes "copying the whole Note")
      range ← whole_note_source_range s.source s.spans
      ok_or (get s.source range) (parse_error (codes "whole-Note source range is not addressable"))
