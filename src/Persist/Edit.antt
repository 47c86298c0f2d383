-- ===== src/Persist/Edit.antt =====
-- rust/src/workspace/persist.rs: the calls that change or reparse the working source. An edit is
-- installed by one critical section and settled by another, after the draft row was written or
-- refused; a write to the file may fall between the two.
pub mod Refusals
use burlmd.Prelude.{
  ℕ, suc, ◌+◌, Bool, true, false, not, ◌||◌, ◌&&◌, Option, none, some, List, [], ◌∷◌, ◌++◌, ltb,
  leb, ◌==◌, if◌then◌else◌, length, get_elem?,
}
use burlmd.Prelude.Text.{Text, codes, text_eq}
use burlmd.Prelude.Bytes.{Range, byte_len, get}
use burlmd.Markdown.Ast.{AstNode, Nodes, rendered_text}
use burlmd.Markdown.Spans.{BlockPath, SpanMap, block, apply_buffered_edit}
use burlmd.Error.{AppError, parse_error, Result, ok, err, ◌>>=◌}
use burlmd.Workspace.Names.{containing_dir}
use burlmd.Persist.{
  Core, NoteMetadata, SessionState, Note, NoteState, StructuralEditRollback, BufferedEditRollback,
  refuse_while_conflicted, note_state_from,
}
use burlmd.Persist.Session.{
  ok_or, check_span, no_block, replace_range, write_draft, arm_idle_timer, derive_metadata,
}

-- `rollback`, when neither another mutation nor a write of tier 2 has seen the edit.
unfoldable pub restore_buffered : BufferedEditRollback → SessionState → SessionState
restore_buffered previous s = record s {
  source = previous.source;
  spans = previous.spans;
  edit_seq = previous.edit_seq;
  session_edited = previous.session_edited;
  unwritten = previous.unwritten;
}

unfoldable pub restore_structural : StructuralEditRollback → SessionState → SessionState
restore_structural previous s = record s {
  source = previous.source;
  spans = previous.spans;
  ast = previous.ast;
  metadata = previous.metadata;
  edit_seq = previous.edit_seq;
  session_edited = previous.session_edited;
  unwritten = previous.unwritten;
}

-- Whether the state moved on from an edit that was installed over a revision.
unfoldable pub moved_on : SessionState → ℕ → Text → Bool
moved_on s seq revision = not (s.edit_seq == seq) || not (text_eq s.revision revision)

-- What an edit left to do when it released the state lock.
pub record PendingEdit (R : Type 0) : Type 0 where
  pub snapshot : Text
  pub seq : ℕ
  pub previous : R

-- `update_block` from the draft statement on, by the database's answer.
unfoldable pub settle_update :
    ℕ → Option AppError → PendingEdit BufferedEditRollback → Note → Result {0} Unit × Note
settle_update now none p n = (ok tt, arm_idle_timer (write_draft now p.snapshot p.seq n))
settle_update now (some error) p n =
    if moved_on n.state p.seq p.previous.revision
    then (ok tt, arm_idle_timer n)
    else (err error, record n { state = restore_buffered p.previous n.state })

-- A structural edit from the draft statement on.
unfoldable pub settle_structural :
    {U : Type 0}
    → ℕ
    → Option AppError
    → PendingEdit StructuralEditRollback
    → U
    → Note
    → Result (NoteState × U) × Note
settle_structural {U} now none p result n =
    let written = arm_idle_timer (write_draft now p.snapshot p.seq n) in
    (ok (note_state_from written.state, result), written)
settle_structural now (some error) p result n =
    if moved_on n.state p.seq p.previous.revision
    then (ok (note_state_from n.state, result), arm_idle_timer n)
    else (err error, record n { state = restore_structural p.previous n.state })

-- How an edit computes the new source and a result from the working source, its live parse and the
-- spans that the session holds.
abbrev pub EditFunction : Type 0 → Type 0
EditFunction T = Text → SpanMap → Nodes → SpanMap → Result (Text × T)

-- How the result is read off the new source and its parse.
abbrev pub DeriveFunction : Type 0 → Type 0 → Type 0
DeriveFunction T U = Text → SpanMap → Nodes → T → Result U

-- What a structural edit is about to install.
pub record Planned (U : Type 0) : Type 0 where
  pub source : Text
  pub spans : SpanMap
  pub ast : Nodes
  pub result : U

module _ (core : Core) (note_id : Text) where
  pub container : BlockPath → AppError
  container path = parse_error (
      codes "block_path "
      ++ (core.debug_path path
          ++ (codes " addresses a container Block, whose child spans a buffered edit cannot "
              ++ codes "maintain; edit the Block that holds the text, or use a reparsing call")))

  -- `update_block` up to the draft statement.
  unfoldable pub begin_update :
      BlockPath → Text → SessionState → Result (SessionState × PendingEdit BufferedEditRollback)
  begin_update path new_source s = do
    _ ← refuse_while_conflicted s note_id (codes "editing a Block")
    b ← ok_or (block s.spans path) (no_block core path)
    _ ← check_span core s.source b.source
    (_, spans) ← ok_or (apply_buffered_edit s.spans path (byte_len new_source)) (container path)
    let source = replace_range s.source b.source new_source
    ok (
      record s {
        source = source;
        spans = spans;
        edit_seq = suc s.edit_seq;
        session_edited = true;
        unwritten = true;
      },
      record {
        snapshot = source;
        seq = suc s.edit_seq;
        previous = record {
          source = s.source;
          spans = s.spans;
          edit_seq = s.edit_seq;
          revision = s.revision;
          session_edited = s.session_edited;
          unwritten = s.unwritten;
        };
      },
    )

  -- `meanwhile` is what runs on the session, a write or a reparse, while the draft statement runs.
  unfoldable pub update_block :
      ℕ → Option AppError → (Note → Note) → BlockPath → Text → Note → Result {0} Unit × Note
  update_block now draft meanwhile path new_source n = elim (begin_update path new_source n.state) [
    | err error ↦ (err error, n)
    | ok (s, pending) ↦ settle_update now draft pending (meanwhile (record n { state = s }))
  ]

  -- The part of a structural edit that runs under no lock. `links` answers for the index.
  unfoldable pub plan_structural :
      {T U : Type 0}
      → (Nodes → Result Nodes)
      → EditFunction T
      → DeriveFunction T U
      → SessionState
      → Result (Planned U)
  plan_structural links edit derive s = do
    _ ← refuse_while_conflicted s note_id (codes "a structural edit")
    let (live_ast, live_spans) = core.parse_note s.source (containing_dir note_id)
    (new_source, result) ← edit s.source live_spans live_ast s.spans
    let (parsed, spans) = core.parse_note new_source (containing_dir note_id)
    ast ← links parsed
    derived ← derive new_source spans ast result
    ok (record { source = new_source; spans = spans; ast = ast; result = derived })

  unfoldable pub install_structural :
      {U : Type 0} → Planned U → SessionState → SessionState × PendingEdit StructuralEditRollback
  install_structural planned s = (
    record s {
      source = planned.source;
      spans = planned.spans;
      ast = planned.ast;
      metadata = derive_metadata core note_id planned.source planned.spans s.metadata.last_modified;
      edit_seq = suc s.edit_seq;
      session_edited = true;
      unwritten = true;
    },
    record {
      snapshot = planned.source;
      seq = suc s.edit_seq;
      previous = record {
        source = s.source;
        spans = s.spans;
        ast = s.ast;
        metadata = s.metadata;
        edit_seq = s.edit_seq;
        revision = s.revision;
        session_edited = s.session_edited;
        unwritten = s.unwritten;
      };
    },
  )

  unfoldable pub structural_edit_with_result :
      {T U : Type 0}
      → ℕ
      → Option AppError
      → (Note → Note)
      → (Nodes → Result Nodes)
      → EditFunction T
      → DeriveFunction T U
      → Note
      → Result (NoteState × U) × Note
  structural_edit_with_result now draft meanwhile links edit derive n =
      elim (plan_structural links edit derive n.state) [
        | err error ↦ (err error, n)
        | ok planned ↦
            let (s, pending) = install_structural planned n.state in
            settle_structural now draft pending planned.result (meanwhile (record n { state = s }))
      ]

  -- What `commit_block` installs, if the edit sequence has not moved on.
  unfoldable pub reparse_state : (Nodes → Result Nodes) → SessionState → Result SessionState
  reparse_state links s = do
    _ ← refuse_while_conflicted s note_id (codes "committing a Block")
    let (parsed, spans) = core.parse_note s.source (containing_dir note_id)
    ast ← links parsed
    ok (record s {
      metadata = derive_metadata core note_id s.source spans s.metadata.last_modified;
      ast = ast;
      spans = spans;
    })

  -- A reparse of the working source. No row is written.
  unfoldable pub commit_block : (Nodes → Result Nodes) → Note → Result NoteState × Note
  commit_block links n = elim (reparse_state links n.state) [
    | err error ↦ (err error, n)
    | ok s ↦ (ok (note_state_from s), record n { state = s })
  ]
