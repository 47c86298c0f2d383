-- ===== src/Persist/Refinement.antt =====
-- What a session promises its user: whatever it does to stores and timers, through writes, failures
-- of the file system and the database, and kills of the program, it is a text, with the map of its Blocks,
-- that its edits change.
pub mod Simulation
pub mod Kept
pub mod Opened
pub mod Runs
use burlmd.Prelude.{
  ℕ, ◌≡◌, refl, sym, ap, ◌∙◌, ◌⊎◌, inl, inr, Bool, true, false, Option, none, some, List, [], ◌∷◌,
  is_some, if◌then◌else◌, Option-cases, subst, unwrap_or,
}
use burlmd.Prelude.Text.{Text}
use burlmd.Error.{AppError, Result, ok, err, ◌>>=◌, >>=-ok, >>=-eq-ok}
use burlmd.Markdown.Ast.{Nodes}
use burlmd.Prelude.Bytes.{byte_len}
use burlmd.Markdown.Spans.{BlockPath, RenderedRange, SpanMap, block, apply_buffered_edit}
use burlmd.Workspace.Names.{containing_dir}
use burlmd.Persist.{
  Bytes, utf8_bytes, absent_file, Core, DraftRow, SessionState, Stores, Note, NoteState,
}
use burlmd.Persist.Session.{ok_or, check_span, no_block, replace_range}
use burlmd.Persist.Edit.{EditFunction, DeriveFunction, container, update_block, commit_block}
use burlmd.Persist.Blocks.{
  insert_block_edit, insert_block, delete_block_edit, delete_block, split_block_edit, split_block,
  replace_range_edit, replace_range_call, replace_whole_note_edit, replace_whole_note,
}
use burlmd.Persist.Leaves.{RangeEditLocation, range_edit_caret}
use burlmd.Persist.Merge.{Focus, merge_edit, merge_block_with_previous}
use burlmd.Persist.Continue.{
  ContinuationResult, continue_edit, continue_block_after, final_editable_leaf_inserted_under,
}
use burlmd.Persist.Write.{WriteAnswers, flush_covering}
use burlmd.Persist.Open.{open_note}

-- How the database answers an edit, and the time.
pub record Answers : Type 0 where
  pub now : ℕ
  pub draft : Option AppError
  pub links : Nodes → Result Nodes

-- The calls on a session, the idle timer's among them, and a kill of the program with the open that
-- follows it, which marks the links.
pub data Command : Type 0 where
  update : Answers → BlockPath → Text → Command
  insert : Answers → BlockPath → Text → Command
  delete : Answers → BlockPath → Command
  split : Answers → BlockPath → ℕ → Command
  merge : Answers → BlockPath → Command
  continue_after : Answers → BlockPath → Text → Command
  replace : Answers → RenderedRange → Text → Command
  rewrite : Answers → Text → Command
  commit : (Nodes → Result Nodes) → Command
  flush : ℕ → WriteAnswers → Command
  crash : (Nodes → Nodes) → ℕ → Command

-- The note of a successful open.
abbrev pub reopened_note : Result (Note × NoteState) → Note → Note
reopened_note (ok (opened, shown)) n = opened
reopened_note (err e) n = n

-- What the specification is of: a text, and the map by which its Blocks are named until the next
-- parse.
pub record Document : Type 0 where
  pub text : Text
  pub spans : SpanMap

abbrev pub document : SessionState → Document
document s = record { text = s.source; spans = s.spans }

-- The document after an edit: only an accepted one counts.
abbrev pub kept_or : Option AppError → Document → Result Document → Document
kept_or none d (ok new) = new
kept_or (some e) d (ok new) = d
kept_or draft d (err e) = d

module _ (core : Core) (note_id : Text) where
  unfoldable pub execute : Command → Note → Note
  execute (update a path text) n = (update_block core note_id a.now a.draft (λ m. m) path text n).1
  execute (insert a path text) n =
      (insert_block core note_id a.now a.draft (λ m. m) a.links path text n).1
  execute (delete a path) n = (delete_block core note_id a.now a.draft (λ m. m) a.links path n).1
  execute (split a path offset) n =
      (split_block core note_id a.now a.draft (λ m. m) a.links path offset n).1
  execute (merge a path) n =
      (merge_block_with_previous core note_id a.now a.draft (λ m. m) a.links path n).1
  execute (continue_after a path text) n =
      (continue_block_after core note_id a.now a.draft (λ m. m) a.links path text n).1
  execute (replace a range text) n =
      (replace_range_call core note_id a.now a.draft (λ m. m) a.links range text n).1
  execute (rewrite a text) n =
      (replace_whole_note core note_id a.now a.draft (λ m. m) a.links text n).1
  execute (commit links) n = (commit_block core note_id links n).1
  execute (flush now a) n = (flush_covering core note_id now a n).1
  execute (crash mark mtime) n =
      reopened_note (open_note core note_id (λ ast. ok (mark ast)) mtime none none none n.stores) n

  unfoldable pub run_commands : List Command → Note → Note
  run_commands [] n = n
  run_commands (c ∷ commands) n = run_commands commands (execute c n)

  abbrev pub parsed_spans : Text → SpanMap
  parsed_spans text = (core.parse_note text (containing_dir note_id)).1

  -- A keystroke replaces the text of a Block of the map and moves the map along.
  unfoldable pub typed_document : BlockPath → Text → Document → Result Document
  typed_document path new d = do
    b ← ok_or (block d.spans path) (no_block core path)
    _ ← check_span core d.text b.source
    (_, spans) ←
        ok_or (apply_buffered_edit d.spans path (byte_len new)) (container core note_id path)
    ok (record { text = replace_range d.text b.source new; spans = spans })

  -- A structural edit computes the new text from the text, its parse and the map, and may be refused
  -- on the way. The new map is that of the new text's parse.
  unfoldable pub edited_document :
      {T U : Type 0}
      → (Nodes → Result Nodes)
      → EditFunction T
      → DeriveFunction T U
      → Document
      → Result Document
  edited_document links edit derive d = do
    let (live_ast, live_spans) = core.parse_note d.text (containing_dir note_id)
    (new, result) ← edit d.text live_spans live_ast d.spans
    let (parsed, spans) = core.parse_note new (containing_dir note_id)
    ast ← links parsed
    _ ← derive new spans ast result
    ok (record { text = new; spans = spans })

  -- A reparse, unless the index fails.
  unfoldable pub reparsed_document : (Nodes → Result Nodes) → Document → Result Document
  reparsed_document links d = do
    let (parsed, spans) = core.parse_note d.text (containing_dir note_id)
    ast ← links parsed
    ok (record { text = d.text; spans = spans })

  abbrev pub own_result : {T : Type 0} → DeriveFunction T T
  own_result source spans ast result = ok result

  abbrev pub caret_of : DeriveFunction ℕ RangeEditLocation
  caret_of source spans _ join = range_edit_caret core source spans join

  abbrev pub focus_of : DeriveFunction ContinuationResult Focus
  focus_of source spans ast r =
      final_editable_leaf_inserted_under core source spans ast r.focus_parent r.inserted

  unfoldable pub apply : Command → Document → Document
  apply (update a path text) d = kept_or a.draft d (typed_document path text d)
  apply (insert a path text) d =
      kept_or a.draft d (edited_document a.links (insert_block_edit core path text) own_result d)
  apply (delete a path) d =
      kept_or a.draft d (edited_document a.links (delete_block_edit core path) own_result d)
  apply (split a path offset) d =
      kept_or a.draft d (edited_document a.links (split_block_edit core path offset) own_result d)
  apply (merge a path) d =
      kept_or a.draft d (edited_document a.links (merge_edit core path) own_result d)
  apply (continue_after a path text) d =
      kept_or a.draft d (edited_document a.links (continue_edit core path text) focus_of d)
  apply (replace a range text) d =
      kept_or a.draft d (edited_document a.links (replace_range_edit core range text) caret_of d)
  apply (rewrite a text) d =
      kept_or a.draft d (edited_document a.links (replace_whole_note_edit core text) caret_of d)
  apply (commit links) d = kept_or none d (reparsed_document links d)
  apply (flush now a) d = d
  apply (crash mark mtime) d = record { text = d.text; spans = parsed_spans d.text }

  unfoldable pub replay : List Command → Document → Document
  replay [] d = d
  replay (c ∷ commands) d = replay commands (apply c d)
