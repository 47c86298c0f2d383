-- ===== src/Persist/Refinement/Runs.antt =====
-- A run of commands on a session is a run of edits on a text and the map of its Blocks.
use burlmd.Prelude.{ℕ, ◌≡◌, refl, ap, ◌∙◌, List, [], ◌∷◌, none}
use burlmd.Prelude.Text.{Text}
use burlmd.Error.{Result, ok}
use burlmd.Markdown.Ast.{Nodes}
use burlmd.Persist.{Bytes, Core, Stores, Note, NoteState}
use burlmd.Persist.Blocks.{
  insert_block_edit, insert_block, delete_block_edit, delete_block, split_block_edit, split_block,
  structural_edit, replace_range_edit, replace_range_call, replace_whole_note_edit,
  replace_whole_note,
}
use burlmd.Persist.Merge.{merge_edit, merge_block_with_previous}
use burlmd.Persist.Continue.{continue_edit, continue_block_after}
use burlmd.Persist.Refinement.{
  Command, update, insert, delete, split, merge, continue_after, replace, rewrite, commit, flush,
  crash, document, execute, run_commands, own_result, caret_of, focus_of, apply, replay,
}
use burlmd.Persist.Refinement.Simulation.{Good, InStep, update-InStep, edit-InStep}
use burlmd.Persist.Open.{open_note}
use burlmd.Persist.Refinement.Opened.{opened-Good}
use burlmd.Persist.Refinement.Kept.{flush-InStep, commit-InStep, crash-InStep}

module _ (core : Core) (note_id : Text)
    (injective : (b b' : Bytes) → core.content_hash b ≡ core.content_hash b' → b ≡ b') where
  execute-InStep :
      (c : Command) (n : Note)
      → Good core n
      → InStep core note_id (execute core note_id c n) (apply core note_id c (document n.state))
  unfolding execute apply insert_block delete_block split_block merge_block_with_previous
      continue_block_after structural_edit replace_range_call replace_whole_note
  execute-InStep (update a path text) n good = update-InStep core note_id a path text n good
  execute-InStep (insert a path text) n good =
      edit-InStep core note_id a (insert_block_edit core path text) (own_result core note_id) n good
  execute-InStep (delete a path) n good =
      edit-InStep core note_id a (delete_block_edit core path) (own_result core note_id) n good
  execute-InStep (split a path offset) n good =
      edit-InStep core note_id a (split_block_edit core path offset) (own_result core note_id) n
        good
  execute-InStep (merge a path) n good =
      edit-InStep core note_id a (merge_edit core path) (own_result core note_id) n good
  execute-InStep (continue_after a path text) n good =
      edit-InStep core note_id a (continue_edit core path text) (focus_of core note_id) n good
  execute-InStep (replace a range text) n good =
      edit-InStep core note_id a (replace_range_edit core range text) (caret_of core note_id) n good
  execute-InStep (rewrite a text) n good =
      edit-InStep core note_id a (replace_whole_note_edit core text) (caret_of core note_id) n good
  execute-InStep (commit links) n good = commit-InStep core note_id links n good
  execute-InStep (flush now a) n good = flush-InStep core note_id injective now a n good
  execute-InStep (crash mark mtime) n good = crash-InStep core note_id mark mtime n good

  pub run-InStep :
      (commands : List Command) (n : Note)
      → Good core n
      → InStep core note_id
          (run_commands core note_id commands n)
          (replay core note_id commands (document n.state))
  unfolding run_commands replay
  run-InStep [] n good = (good, refl)
  run-InStep (c ∷ commands) n good =
      let (good', same) = execute-InStep c n good in
      let (good'', rest) = run-InStep commands (execute core note_id c n) good' in
      (good'', rest ∙ ap (replay core note_id commands) same)

  -- The session refines the text and its map, where the hash tells contents apart and the calls come
  -- one after another: after a successful open and any sequence of keystrokes, insertions,
  -- deletions, splits, merges and continuations of Blocks, replacements of a range or of the whole
  -- Note, reparses and flushes, with any answers of the database and the file system to each of
  -- them, and of kills, each followed by an open that nothing fails, and with no other program at
  -- the file, the working source and the map are what the edits and the parses alone make of those
  -- that were opened.
  pub run_refines :
      (links : Nodes → Result Nodes) (mtime : ℕ) (stores : Stores) (n : Note) (shown : NoteState)
      → open_note core note_id links mtime none none none stores ≡ ok (n, shown)
      → (commands : List Command)
      → document (run_commands core note_id commands n).state
        ≡ replay core note_id commands (document n.state)
  run_refines links mtime stores n shown h commands =
      (run-InStep commands n (opened-Good core note_id links mtime stores h)).1
