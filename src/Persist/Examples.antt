-- ===== src/Persist/Examples.antt =====
-- The model of rust/src/workspace/persist.rs run on examples: a parser that makes a text one Block.
use burlmd.Prelude.{◌≡◌, refl, ◌⊎◌, true, false, none, some, List, [], ◌∷◌}
use burlmd.Prelude.Text.{Text, codes}
use burlmd.Error.{AppError, database_error, revision_mismatch, ok, err}
use burlmd.Persist.{
  utf8, utf8_bytes, NoteMetadata, SessionState, Stores, Note, NoteState, BufferedEditRollback,
  note_state_from,
}
use burlmd.Okf.ConceptId.{concept_id_to_path}
use burlmd.Okf.Links.{last_segment}
use burlmd.Prelude.Split.{rsplit_once}
use burlmd.Persist.Session.{derive_metadata}
use burlmd.Persist.Edit.{PendingEdit}
use burlmd.Persist.Steps.{System, Reach, idle, opened}
use burlmd.Persist.Steps.Crash.{write_status_truthful}
use burlmd.Persist.Write.{WriteAnswers, flush_covering, record_error}
use burlmd.Persist.Write.Safety.{IsBased, flush_keeps_foreign, flush-IsBased, flush_refuses_foreign}
use burlmd.Persist.Open.{open_note, opened_state, restored, close_with_outcome, write_status}
use burlmd.Persist.Open.Closing.{IsWhole, IsStored, close_loses_nothing}
use burlmd.Persist.Refinement.{
  Answers, Command, update, insert, delete, commit, flush, crash, document, run_commands, replay,
}
use burlmd.Persist.Refinement.Simulation.{Good}
use burlmd.Persist.Refinement.Opened.{opened-Good}
use burlmd.Persist.Refinement.Runs.{run-InStep, run_refines}
use burlmd.Persist.Fixtures.{one_block, one_paragraph, plain_hash, plain_hash_injective, one_core}

abbrev pub id : Text
id = codes "a"

abbrev hello : Text
hello = codes "hello\n"

abbrev on_file : Stores
on_file = record { file = some (utf8 hello); draft = none; indexed = none }

abbrev hello_metadata : NoteMetadata
hello_metadata = record {
  id = id;
  path = codes "a.md";
  title = id;
  last_modified = 7;
  snippet = none;
  okf_conformant = false;
}

abbrev pub hello_note : Note
hello_note = record {
  state = record {
    source = hello;
    spans = one_block hello;
    ast = one_paragraph;
    edit_seq = 0;
    revision = plain_hash (utf8 hello);
    restored_from_draft = false;
    awaiting_recreate = false;
    session_edited = false;
    unwritten = false;
    conflicted = false;
    last_written_at = none;
    last_error = none;
    closed = false;
    metadata = hello_metadata;
  };
  stores = on_file;
  armed = false;
}

abbrev hello_shown : NoteState
hello_shown = record {
  ast = one_paragraph;
  metadata = hello_metadata;
  base_revision = plain_hash (utf8 hello);
  restored_from_draft = false;
}

opened_hello :
    open_note one_core id (λ ast. ok ast) 7 none none none on_file ≡ ok (hello_note, hello_shown)
unfolding open_note opened_state restored derive_metadata note_state_from concept_id_to_path
    last_segment rsplit_once
opened_hello = refl

abbrev answered : Answers
answered = record { now = 8; draft = none; links = λ ast. ok ast }

abbrev pub locked : AppError
locked = database_error (codes "locked")

abbrev inserted : Command
inserted = insert answered (9 ∷ []) (codes "again")

abbrev pub no_failure : WriteAnswers
no_failure = record {
  read = none;
  create_directory = none;
  write = none;
  clear = none;
  stored = none;
  rows = none;
}

-- Keystrokes and an insertion, a flush that cannot clear the draft row, a kill, an edit that the
-- database refuses, a deletion, a reparse that the index fails, and a flush.
abbrev commands : List Command
commands =
    update answered (0 ∷ []) (codes "hi\n")
    ∷ inserted
    ∷ flush 9 (record no_failure { clear = some locked })
    ∷ crash (λ ast. ast) 9
    ∷ insert (record answered { draft = some locked }) (9 ∷ []) (codes "lost")
    ∷ delete answered (0 ∷ [])
    ∷ commit (λ ast. err locked)
    ∷ flush 10 no_failure
    ∷ []

abbrev edited_note : Note
edited_note = run_commands one_core id (inserted ∷ []) hello_note

hello_Good : Good one_core hello_note
hello_Good = opened-Good one_core id (λ ast. ok ast) 7 on_file opened_hello

edited_Good : Good one_core edited_note
edited_Good = (run-InStep one_core id plain_hash_injective (inserted ∷ []) hello_note hello_Good).0

run_refines_example :
    document (run_commands one_core id commands hello_note).state
    ≡ replay one_core id commands (record { text = hello; spans = one_block hello })
run_refines_example =
    run_refines one_core id plain_hash_injective (λ ast. ok ast) 7 on_file hello_note hello_shown
      opened_hello commands

close_loses_nothing_example :
    let c =
      close_with_outcome one_core id
        (λ e. [])
        9
        no_failure
        (ok true)
        (λ m. err locked)
        none
        edited_note in
    IsWhole c edited_note
    × (c.note.state.source ≡ edited_note.state.source)
    × IsStored c.note edited_note.state.source
close_loses_nothing_example =
    close_loses_nothing one_core id (λ e. []) plain_hash_injective 9 no_failure (ok true)
      (λ m. err locked) none edited_note edited_Good

flush_keeps_foreign_example :
    let m = (flush_covering one_core id 9 no_failure edited_note).1 in
    (m.stores.file ≡ edited_note.stores.file)
    ⊎ ((m.stores.file ≡ some (utf8_bytes edited_note.state.source)) × IsBased one_core edited_note)
flush_keeps_foreign_example = flush_keeps_foreign one_core id 9 no_failure edited_note

flush-IsBased_example : IsBased one_core (flush_covering one_core id 9 no_failure edited_note).1
flush-IsBased_example = flush-IsBased one_core id 9 no_failure edited_note (edited_Good.based)

abbrev changed_note : Note
changed_note = record hello_note { stores = record on_file { file = some (utf8 (codes "other")) } }

flush_refuses_foreign_example : flush_covering one_core id 9 no_failure changed_note ≡ (
  err (revision_mismatch (0 ∷ codes "other")),
  record_error (revision_mismatch (0 ∷ codes "other")) changed_note,
)
flush_refuses_foreign_example =
    flush_refuses_foreign one_core id 9 no_failure changed_note (utf8 (codes "other")) refl refl
      refl (λ e. cc e)

abbrev opened_system : System
opened_system = record { note = hello_note; draft = none; stage = idle; raced = false }

opened_reach : Reach one_core id opened_system
opened_reach = opened (λ ast. ok ast) 7 on_file hello_note hello_shown opened_hello

abbrev typed_state : SessionState
typed_state = record (hello_note.state) {
  source = codes "hi";
  spans = one_block (codes "hi");
  edit_seq = 1;
  session_edited = true;
  unwritten = true;
}

-- Typed in, with the draft row written, and killed before any write of the file.
abbrev killed : System
killed = record {
  note = record {
    state = typed_state;
    stores = record on_file {
      draft = some (record { raw_markdown = codes "hi"; edit_seq = 1; updated_at = 8 });
    };
    armed = true;
  };
  draft = none;
  stage = idle;
  raced = false;
}

abbrev typed_pending : PendingEdit BufferedEditRollback
typed_pending = record {
  snapshot = codes "hi";
  seq = 1;
  previous = record {
    source = hello;
    spans = one_block hello;
    edit_seq = 0;
    revision = plain_hash (utf8 hello);
    session_edited = false;
    unwritten = false;
  };
}

write_status_truthful_example : hello_note.state.revision ≡ plain_hash (utf8_bytes hello)
write_status_truthful_example =
    write_status_truthful one_core id opened_system opened_reach refl (unfold write_status in refl)
