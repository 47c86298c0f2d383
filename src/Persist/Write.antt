-- ===== src/Persist/Write.antt =====
-- rust/src/workspace/persist.rs: tier 2. A write of the file goes through stages, each a critical
-- section, under the write lock; an edit may fall between two. A file is written whole or not at
-- all.
pub mod Overwrites
pub mod Baseline
pub mod Safety
use burlmd.Prelude.{
  ℕ, Bool, true, false, not, ◌||◌, Option, none, some, [], ◌++◌, ltb, if◌then◌else◌, is_some,
  unwrap_or,
}
use burlmd.Prelude.Text.{Text, codes, text_eq}
use burlmd.Markdown.Ast.{Nodes}
use burlmd.Markdown.Spans.{SpanMap}
use burlmd.Error.{
  AppError, revision_mismatch, not_found, io_error, parse_error, Result, ok, err, ◌>>=◌,
}
use burlmd.Workspace.Names.{containing_dir}
use burlmd.Persist.{
  Bytes, utf8_bytes, from_utf8, absent_file, Core, NoteMetadata, SessionState, Stores, Note,
  NoteState, WrittenThrough, note_state_from,
}
use burlmd.Persist.Session.{clear_draft_through, derive_metadata, ok_or}
use burlmd.Persist.Conflicts.{conflict_suggestions}

-- How the file system and the database answer one write: `none` is success. A failed read of a file
-- that is there has a message.
pub record WriteAnswers : Type 0 where
  pub read : Option Text
  pub create_directory : Option AppError
  pub write : Option AppError
  pub clear : Option AppError
  pub stored : Option AppError
  pub rows : Option AppError

-- What a write snapshots under the state lock.
pub record Covering : Type 0 where
  pub source : Text
  pub seq : ℕ
  pub revision : Text

abbrev pub snapshot : SessionState → Covering
snapshot s = record { source = s.source; seq = s.edit_seq; revision = s.revision }

-- The baseline is re-recorded as soon as the bytes are on disk.
unfoldable pub record_revision : Text → Note → Note
record_revision revision n = record n {
  state = record (n.state) { revision = revision; awaiting_recreate = false };
}

-- The end of a write that covered `seq`.
unfoldable pub settle_write : ℕ → ℕ → Note → Note
settle_write now seq n = record n {
  state = record (n.state) {
    metadata = record (n.state.metadata) { last_modified = now };
    last_written_at = some now;
    last_error = none;
    unwritten = ltb seq n.state.edit_seq;
  };
}

unfoldable pub record_error : AppError → Note → Note
record_error error n = record n { state = record (n.state) { last_error = some error } }

-- Two answers in turn, where the first failure counts.
unfoldable pub first_failure : Option AppError → Option AppError → Result {0} Unit
first_failure none none = ok tt
first_failure none (some e) = err e
first_failure (some e) later = err e

unfoldable pub set_file : Option Bytes → Note → Note
set_file file n = record n { stores = record (n.stores) { file = file } }

unfoldable pub set_indexed : Option Text → Note → Note
set_indexed indexed n = record n { stores = record (n.stores) { indexed = indexed } }

-- `stored.as_deref() == Some(revision)`
is_stored : Text → Option Text → Bool
is_stored revision none = false
is_stored revision (some stored) = text_eq stored revision

-- `index_written_source`: the index row of the note is brought level with the file.
unfoldable pub index_written_source :
    Option AppError → Option AppError → Text → Option Text → Result (Option Text)
unfolding is_stored
index_written_source (some e) rows revision indexed = err e
index_written_source none rows revision indexed =
    if is_stored revision indexed
    then ok indexed
    else (elim rows [ some e ↦ err e | none ↦ ok (some revision) ])

-- What a reload has in hand before it discards anything.
pub record Loaded : Type 0 where
  pub source : Text
  pub spans : SpanMap
  pub ast : Nodes
  pub revision : Text
  pub conflicted : Bool
  pub metadata : NoteMetadata

-- The draft row goes and the loaded text takes the buffer's place.
unfoldable pub install_loaded : Loaded → Note → Note
install_loaded loaded n = record n {
  state = record (n.state) {
    source = loaded.source;
    spans = loaded.spans;
    ast = loaded.ast;
    revision = loaded.revision;
    awaiting_recreate = false;
    metadata = loaded.metadata;
    restored_from_draft = false;
    unwritten = false;
    conflicted = loaded.conflicted;
    last_error = none;
  };
  stores = record (n.stores) { draft = none };
}

module _ (core : Core) (note_id : Text) where
  vanished : AppError
  vanished = not_found (codes "the file for " ++ (note_id ++ codes " is no longer on disk"))

  -- `decode_source`'s refusal.
  pub malformed_source : AppError
  malformed_source = parse_error (
      core.display_path note_id
      ++ codes " is not valid UTF-8, so it cannot be edited without corrupting it")

  unfoldable pub read_file : Option Text → Option Bytes → Result Bytes
  unfolding vanished
  read_file (some message) file = err (io_error message)
  read_file none none = err vanished
  read_file none (some bytes) = ok bytes

  -- An absent file is no error of a session that opened over none.
  unfoldable pub on_disk : Bool → Result Bytes → Result Bytes
  on_disk true (err (not_found m)) = ok absent_file
  on_disk awaiting outcome = outcome

  -- `write_locked` up to the write: the new revision and the file.
  unfoldable pub publish :
      WriteAnswers → Covering → Bool → Option Bytes → Result (Text × Option Bytes)
  publish a c awaiting_recreate file = do
    bytes ← on_disk awaiting_recreate (read_file a.read file)
    if not (text_eq (core.content_hash bytes) c.revision)
        then err (revision_mismatch (core.content_hash bytes))
        else (let new_revision = core.content_hash (utf8_bytes c.source) in
            if not (text_eq new_revision (core.content_hash bytes)) || awaiting_recreate
            then (first_failure (if awaiting_recreate then a.create_directory else none) a.write
                >>= λ _. ok (new_revision, some (utf8_bytes c.source)))
            else ok (new_revision, file))

  -- The steps that follow a recorded write.
  finish_write : ℕ → WriteAnswers → ℕ → Text → Note → Result Text × Note
  finish_write now a seq revision n = elim a.clear [
    | some e ↦ (err e, n)
    | none ↦
        let cleared_note = clear_draft_through seq n in
        elim (index_written_source a.stored a.rows revision n.stores.indexed) [
          | err e ↦ (err e, cleared_note)
          | ok indexed ↦ (ok revision, settle_write now seq (set_indexed indexed cleared_note))
        ]
  ]

  unfoldable pub write_locked : ℕ → WriteAnswers → Covering → Note → Result Text × Note
  unfolding finish_write
  write_locked now a c n = elim (publish a c n.state.awaiting_recreate n.stores.file) [
    | err e ↦ (err e, n)
    | ok (new_revision, file) ↦
        finish_write now a c.seq new_revision (record_revision new_revision (set_file file n))
  ]

  unfoldable pub covered : ℕ → Result Text × Note → Result WrittenThrough × Note
  covered seq (ok revision, n) = (ok (record { revision = revision; seq = seq }), n)
  covered seq (err error, n) = (err error, record_error error n)

  unfoldable pub flush_covering : ℕ → WriteAnswers → Note → Result WrittenThrough × Note
  flush_covering now a n =
      if n.state.closed
      then (ok (record { revision = n.state.revision; seq = n.state.edit_seq }), n)
      else covered n.state.edit_seq (write_locked now a (snapshot n.state) n)

  unfoldable pub load : (Nodes → Result Nodes) → ℕ → Option Text → Option Bytes → Result Loaded
  load links mtime read file = do
    bytes ← read_file read file
    source ← ok_or (from_utf8 bytes) malformed_source
    let (parsed, spans) = core.parse_note source (containing_dir note_id)
    let collapsed = conflict_suggestions core (containing_dir note_id) source
    ast ← links (unwrap_or collapsed parsed)
    ok (record {
      source = source;
      spans = spans;
      ast = ast;
      revision = core.content_hash bytes;
      conflicted = is_some collapsed;
      metadata = derive_metadata core note_id source spans mtime;
    })

  unfoldable pub reload :
      (Nodes → Result Nodes) → ℕ → Option Text → Option AppError → Note → Result NoteState × Note
  reload links mtime read delete n = elim (load links mtime read n.stores.file) [
    | err e ↦ (err e, n)
    | ok loaded ↦ elim delete [
      | some e ↦ (err e, n)
      | none ↦
          let installed = install_loaded loaded n in
          (ok (note_state_from installed.state), installed)
    ]
  ]
