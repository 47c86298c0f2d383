-- ===== src/Persist/Open.antt =====
-- rust/src/workspace/persist.rs: opening and closing a session. The registry of open sessions is the
-- argument `existing` of an open, and a close answers whether the session is still in it.
pub mod Closing
use burlmd.Prelude.{
  ℕ, Bool, true, false, not, ◌||◌, ◌&&◌, Option, none, some, List, [], ◌∷◌, ◌++◌, if◌then◌else◌,
  is_some, unwrap_or,
}
use burlmd.Prelude.Text.{Text, codes}
use burlmd.Markdown.Ast.{Nodes}
use burlmd.Markdown.Spans.{SpanMap}
use burlmd.Okf.ConceptId.{concept_id_to_path}
use burlmd.Error.{AppError, not_found, io_error, parse_error, Result, ok, err, ◌>>=◌}
use burlmd.Workspace.Journal.{restate, commit_stage_failure}
use burlmd.Workspace.Names.{containing_dir}
use burlmd.Persist.{
  Bytes, from_utf8, absent_file, Core, SessionState, DraftRow, Stores, Note, NoteState,
  WrittenThrough, note_state_from,
}
use burlmd.Persist.Session.{ok_or, clear_draft_through, arm_idle_timer, derive_metadata}
use burlmd.Persist.Write.{WriteAnswers, malformed_source, flush_covering}

-- What the user interface polls.
pub record NoteWriteStatus : Type 0 where
  pub last_written_at : Option ℕ
  pub last_error : Option AppError
  pub has_unwritten_edits : Bool

unfoldable pub write_status : SessionState → NoteWriteStatus
write_status s = record {
  last_written_at = s.last_written_at;
  last_error = s.last_error;
  has_unwritten_edits = s.unwritten;
}

pub data CloseOutcome : Type 0 where
  closed : CloseOutcome
  closed_with_warning : AppError → CloseOutcome

-- A close of the session: what it returns, the note, whether the session is still registered, and
-- whether the scheduler of the synchronization was notified.
pub record Close : Type 0 where
  pub outcome : Result CloseOutcome
  pub note : Note
  pub registered : Bool
  pub notified : Bool

-- `Err(AppError::NotFound(_))`
abbrev is_not_found : AppError → Bool
is_not_found (not_found m) = true
is_not_found _ = false

-- A file's modification time, or that of the draft where there is no file.
modified : ℕ → Option Bytes → Option DraftRow → ℕ
modified mtime (some _) row = mtime
modified mtime none (some row) = row.updated_at
modified mtime none none = 0

module _ (core : Core) (note_id : Text) where
  -- The working source and its sequence number: the draft's, if there is one.
  unfoldable pub restored : Option DraftRow → Option Bytes → Result (Text × ℕ)
  restored (some row) on_disk = ok (row.raw_markdown, row.edit_seq)
  restored none (some bytes) =
      ok_or (from_utf8 bytes) (malformed_source core note_id) >>= λ source. ok (source, 0)
  restored none none = err (not_found (codes "no file on disk for concept id " ++ note_id))

  unfoldable pub opened_state :
      (Nodes → Result Nodes) → ℕ → Option DraftRow → Option Bytes → Result SessionState
  unfolding modified
  opened_state links mtime draft on_disk = do
    (source, edit_seq) ← restored draft on_disk
    let (parsed, spans) = core.parse_note source (containing_dir note_id)
    ast ← links parsed
    ok (record {
      source = source;
      spans = spans;
      ast = ast;
      edit_seq = edit_seq;
      revision = core.content_hash (unwrap_or on_disk absent_file);
      restored_from_draft = is_some draft;
      awaiting_recreate = not (is_some on_disk);
      session_edited = is_some draft;
      unwritten = is_some draft;
      conflicted = false;
      last_written_at = none;
      last_error = none;
      closed = false;
      metadata = derive_metadata core note_id source spans (modified mtime on_disk draft);
    })

  -- `open_note_serialized` on the stores, where `read` and `query` are the failures of the file
  -- system and of the database.
  unfoldable pub open_note :
      (Nodes → Result Nodes)
      → ℕ
      → Option Text
      → Option AppError
      → Option Note
      → Stores
      → Result (Note × NoteState)
  open_note links mtime read query (some session) stores =
      ok (session, note_state_from session.state)
  open_note links mtime (some message) query none stores = err (io_error message)
  open_note links mtime none (some error) none stores = err error
  open_note links mtime none none none stores = do
    s ← opened_state links mtime stores.draft stores.file
    let n : Note = record { state = s; stores = stores; armed = is_some stores.draft }
    ok (n, note_state_from s)

  draft_stage_failure : AppError → AppError
  draft_stage_failure error = restate error (λ detail.
      codes "closing "
      ++ (note_id
          ++ (codes
                ": the Note is closed and its work is safe — the bytes are on disk and the index has them — but clearing the draft row that recorded the unflushed edits failed, so the row stays behind: "
              ++ (detail
                  ++ codes
                      ". Nothing is lost by it: the row holds what the file holds, and the next open (or the next successful write) clears it."))))

  -- The generated message of a commit, from whether the note is in the last commit.
  unfoldable pub commit_message : Bool → SessionState → Text
  commit_message existed s =
      (if existed then codes "Update" else codes "Create")
      ++ (b' ' ∷ s.metadata.title ++ b'\n' ∷ b'\n' ∷ (concept_id_to_path note_id ++ b'\n' ∷ []))

  module _ (debug_error : AppError → Text) where
    -- The warning of a close: a commit that failed counts more than a draft row that stayed.
    warning : Option AppError → Option AppError → CloseOutcome
    warning none none = closed
    warning none (some error) = closed_with_warning (draft_stage_failure error)
    warning (some error) none =
        closed_with_warning (commit_stage_failure (codes "closing " ++ note_id) error [])
    warning (some error) (some draft_error) = closed_with_warning (
        commit_stage_failure (codes "closing " ++ note_id) error (
          (codes "clearing the draft row for "
            ++ (note_id ++ (codes ": " ++ debug_error draft_error)))
          ∷ []))

    retire : Bool → Note → Note
    retire file_vanished n = record n {
      state = record (n.state) { closed = true; session_edited = false; unwritten = file_vanished };
    }

    committed : Result Bool → Bool
    committed (ok made) = made
    committed (err e) = false

    failure_of : {A : Type 0} → Result A → Option AppError
    failure_of (ok a) = none
    failure_of (err e) = some e

    -- The commit stage, by whether this session changed the note and the file is there.
    commit_stage : Bool → Result Bool → (Text → Result Bool) → Note → Result Bool
    commit_stage false existed commit n = ok false
    commit_stage true existed commit n = existed >>= λ known. commit (commit_message known n.state)

    -- The draft row that a close clears is bound to what its own write covered.
    clear_stage : Option AppError → Option WrittenThrough → Note → Option AppError × Note
    clear_stage clear none n = (none, n)
    clear_stage none (some flushed) n = (none, clear_draft_through flushed.seq n)
    clear_stage (some error) (some flushed) n = (some error, n)

    -- A close from its commit stage on.
    finish_close :
        Bool
        → Option WrittenThrough
        → Bool
        → Result Bool
        → (Text → Result Bool)
        → Option AppError
        → Note
        → Close
    finish_close edited written file_vanished existed commit clear n =
        let made = commit_stage (edited && not file_vanished) existed commit n in
        let (clear_failure, n') = clear_stage clear written n in
        record {
          outcome = ok (warning (failure_of made) clear_failure);
          note = retire file_vanished n';
          registered = false;
          notified = committed made;
        }

    -- By the outcome of the write: a file that is gone retires the session, any other failure
    -- refuses the close.
    close_after :
        Bool
        → Result Bool
        → (Text → Result Bool)
        → Option AppError
        → Result WrittenThrough × Note
        → Close
    close_after edited existed commit clear (ok flushed, n) =
        finish_close edited (some flushed) false existed commit clear n
    close_after edited existed commit clear (err error, n) =
        if is_not_found error
        then finish_close edited none true existed commit clear n
        else record { outcome = err error; note = n; registered = true; notified = false }

    unfoldable pub close_with_outcome :
        ℕ → WriteAnswers → Result Bool → (Text → Result Bool) → Option AppError → Note → Close
    unfolding warning retire committed failure_of commit_stage clear_stage finish_close close_after
        draft_stage_failure
    close_with_outcome now a existed commit clear n =
        if n.state.session_edited || n.state.unwritten
        then close_after n.state.session_edited existed commit clear
            (flush_covering core note_id now a n)
        else finish_close n.state.session_edited none false existed commit clear n
