-- ===== src/Persist/Steps.antt =====
-- rust/src/workspace/persist.rs: how the calls on one session interleave. The locks leave these
-- critical sections whole: an edit's install and its draft statement (one edit at a time, under the
-- tier 1 lock), and the stages of one write or reload at a time, under the write lock. Another
-- program may change the file between any two.
pub mod Invariant
pub mod Edits
pub mod Writes
pub mod Recovery
pub mod Crash
pub mod AllOrNothing
pub mod Meanwhile
pub mod Settled
pub mod Outcomes
pub mod Examples
use burlmd.Prelude.{true, not, ◌||◌, ℕ, ◌≡◌, Bool, false, Option, none, some}
use burlmd.Prelude.Text.{Text}
use burlmd.Markdown.Ast.{Nodes}
use burlmd.Markdown.Spans.{BlockPath}
use burlmd.Error.{AppError, Result, ok, err}
use burlmd.Persist.{
  Bytes, Core, SessionState, Stores, Note, NoteState, StructuralEditRollback, BufferedEditRollback,
}
use burlmd.Persist.Session.{write_draft, clear_draft_through, arm_idle_timer}
use burlmd.Persist.Edit.{
  PendingEdit, settle_update, settle_structural, begin_update, EditFunction, DeriveFunction,
  Planned, plan_structural, install_structural, reparse_state,
}
use burlmd.Persist.Write.{
  WriteAnswers, Covering, snapshot, publish, set_file, set_indexed, record_revision, settle_write,
  record_error, Loaded, load, install_loaded,
}
use burlmd.Persist.Open.{open_note}

-- How far the writer of tier 2 has come.
pub data Stage : Type 0 where
  idle : Stage
  taken : Covering → Stage
  written : Covering → Text → Stage
  recorded : Covering → Stage
  row_cleared : Covering → Stage

pub data Rollback : Type 0 where
  buffered : BufferedEditRollback → Rollback
  structural : StructuralEditRollback → Rollback

-- A draft statement that is to come: the text and its sequence number, what undoes its edit, and
-- whether no write has been under way since the edit.
pub record Draft : Type 0 where
  pub source : Text
  pub seq : ℕ
  pub rollback : Rollback
  pub alone : Bool

-- `raced` tells of the run so far that a draft statement failed whose edit a write overlapped.
pub record System : Type 0 where
  pub note : Note
  pub draft : Option Draft
  pub stage : Stage
  pub raced : Bool

abbrev pub with_state : SessionState → Note → Note
with_state s n = record n { state = s }

abbrev pub is_idle : Stage → Bool
is_idle idle = true
is_idle _ = false

abbrev pub draft_of : {R : Type 0} → (R → Rollback) → Stage → PendingEdit R → Draft
draft_of kind stage p = record {
  source = p.snapshot;
  seq = p.seq;
  rollback = kind p.previous;
  alone = is_idle stage;
}

-- A write begins.
abbrev pub overlapped : Option Draft → Option Draft
overlapped none = none
overlapped (some d) = some (record d { alone = false })

-- A draft statement fails: the edit is undone, or kept where the state has moved on.
unfoldable pub refuse : AppError → Draft → Note → Note
refuse error d n = elim d.rollback [
  | buffered previous ↦
      (settle_update 0 (some error)
        (record { snapshot = d.source; seq = d.seq; previous = previous }) n).1
  | structural previous ↦
      (settle_structural 0 (some error)
        (record { snapshot = d.source; seq = d.seq; previous = previous }) tt n).1
]

module _ (core : Core) (note_id : Text) where
  pub data Step (s : System) : System → Type 1 where
    typed :
        (path : BlockPath) (new : Text) (state : SessionState)
        (p : PendingEdit BufferedEditRollback)
        → s.draft ≡ none
        → begin_update core note_id path new s.note.state ≡ ok (state, p)
        → Step s (record s {
          note = with_state state s.note;
          draft = some (draft_of buffered s.stage p);
        })
    edited :
        {T U : Type 0} (links : Nodes → Result Nodes) (edit : EditFunction T)
        (derive : DeriveFunction T U) (planned : Planned U)
        → s.draft ≡ none
        → plan_structural core note_id links edit derive s.note.state ≡ ok planned
        → Step s (record s {
          note = with_state (install_structural core note_id planned s.note.state).0 s.note;
          draft = some (
              draft_of structural s.stage (install_structural core note_id planned s.note.state).1);
        })
    drafted :
        (now : ℕ) (d : Draft)
        → s.draft ≡ some d
        → Step s (record s {
          note = arm_idle_timer (write_draft now d.source d.seq s.note);
          draft = none;
        })
    draft_refused :
        (error : AppError) (d : Draft)
        → s.draft ≡ some d
        → Step s (record s {
          note = refuse error d s.note;
          draft = none;
          raced = s.raced || not d.alone;
        })
    reparsed :
        (links : Nodes → Result Nodes) (state : SessionState)
        → reparse_state core note_id links s.note.state ≡ ok state
        → Step s (record s { note = with_state state s.note })
    snapshotted :
        s.stage ≡ idle
        → s.note.state.closed ≡ false
        → Step s (record s { draft = overlapped s.draft; stage = taken (snapshot s.note.state) })
    refused :
        (a : WriteAnswers) (c : Covering) (error : AppError)
        → s.stage ≡ taken c
        → publish core note_id a c s.note.state.awaiting_recreate s.note.stores.file ≡ err error
        → Step s (record s { note = record_error error s.note; stage = idle })
    published :
        (a : WriteAnswers) (c : Covering) (revision : Text) (file : Option Bytes)
        → s.stage ≡ taken c
        → publish core note_id a c s.note.state.awaiting_recreate s.note.stores.file
          ≡ ok (revision, file)
        → Step s (record s { note = set_file file s.note; stage = written c revision })
    rebased :
        (c : Covering) (revision : Text)
        → s.stage ≡ written c revision
        → Step s (record s { note = record_revision revision s.note; stage = recorded c })
    row_gone :
        (c : Covering)
        → s.stage ≡ recorded c
        → Step s (record s { note = clear_draft_through c.seq s.note; stage = row_cleared c })
    row_kept :
        (c : Covering) (error : AppError)
        → s.stage ≡ recorded c
        → Step s (record s { note = record_error error s.note; stage = idle })
    not_indexed :
        (c : Covering) (error : AppError)
        → s.stage ≡ row_cleared c
        → Step s (record s { note = record_error error s.note; stage = idle })
    settled :
        (now : ℕ) (c : Covering) (indexed : Option Text)
        → s.stage ≡ row_cleared c
        → Step s
            (record s { note = settle_write now c.seq (set_indexed indexed s.note); stage = idle })
    reloaded :
        (links : Nodes → Result Nodes) (mtime : ℕ) (read : Option Text) (file : Option Bytes)
        (loaded : Loaded)
        → s.draft ≡ none
        → s.stage ≡ idle
        → load core note_id links mtime read file ≡ ok loaded
        → Step s (record s { note = install_loaded loaded s.note })
    foreign : (file : Option Bytes) → Step s (record s { note = set_file file s.note })

  -- What a session that was opened over some stores can come to.
  pub data Reach : System → Type 1 where
    opened :
        (links : Nodes → Result Nodes) (mtime : ℕ) (stores : Stores) (n : Note) (view : NoteState)
        → open_note core note_id links mtime none none none stores ≡ ok (n, view)
        → Reach (record { note = n; draft = none; stage = idle; raced = false })
    then_step : {s t : System} → Reach s → Step s t → Reach t
