-- ===== src/Lib.antt =====
-- The core of burlmd, a Markdown note application: a bundle of Notes (OKF files) on disk, edited in
-- place, linked to one another and synchronised through git. This library models the Rust core.
--
-- The parts, and the files that model them:
-- * rust/src/okf/concept_id.rs, rust/src/okf/links.rs (Okf): the identity of a Note, the links
--   between Notes. `classify` and `serialize_link` keep their names; a path or a title is a list of
--   code points.
-- * rust/src/markdown/spans.rs (Markdown/Spans): the span map, from places in what the user sees to
--   bytes of the file. The methods of `SpanMap` are functions on the record `SpanMap`; `start` and
--   `end` of a resolution are `res_start` and `res_end`. `apply_buffered_edit` returns the map that
--   the code leaves in place. Its builder is Markdown/Spans/Builder; the tree of
--   rust/src/markdown/ast.rs and the text that the user sees of it are Markdown/Ast.
-- * rust/src/markdown/splice.rs (Markdown/Splice): edits as splices of source bytes, each followed
--   by a reparse. The parser is a parameter.
-- * rust/src/sync/scheduler.rs (Sync/Scheduler): the background worker. Its loop is `run` over the
--   list of what woke it, with the clock's readings and the results of the injected operations;
--   `run_sync_cycle` records the calls of those operations in order.
-- * rust/src/workspace/lifecycle.rs, rust/src/workspace/mod.rs (Workspace): the names that Notes
--   and Directories may have (Names), the journal that undoes a failed operation's file steps
--   (Journal, where the disk is a field of the journal's state), burlmd's own files (Scratch), and
--   the title in a Note's frontmatter (Title).
-- * rust/src/workspace/links_rewrite.rs (Workspace/LinksRewrite, and Workspace/Destinations for the
--   search for a destination in the bytes): the rewriting of a Note's links when Notes move, over
--   the parser's events.
-- * rust/src/workspace/persist.rs, rust/src/draft.rs (Persist): the session of an open Note. A
--   `Note` is the state under the session's lock with the stores behind it: the file, the draft row
--   and the content hash of the index row. A function that the code runs in several critical
--   sections has a definition for each (`begin_update` and `settle_update`; `snapshot`, `publish`,
--   `record_revision`, `clear_draft_through`, `settle_write`) and one for the whole call.
--   Persist/Seams has the line endings at seams, Tree and Leaves the search for Blocks, Edit the
--   transaction of an edit, Blocks, Merge and Continue the structural edits, Write tier 2 and the
--   reload, Open the open, the status and the close, Conflicts the suggestions, Steps the
--   interleavings (with the outcomes of one edit in Steps/Outcomes) and Refinement the text, with the
--   map of its Blocks, that a session is. Admission has the leases of edits and
--   the gate that an operation of the lifecycle closes, over any number of threads. The methods
--   `block_source` and `replace_range` of a session are `read_block_source` and
--   `replace_range_call`.
-- * rust/src/error.rs (Error): the error type.
--
-- How they interact: a keystroke in rust/src/workspace/persist.rs splices the source over the span
-- that the span map gives and then shifts the map (Persist/Edit, Markdown/Splice/Buffered); a
-- structural edit splices and reparses. Either writes the draft row before it answers. The idle
-- write, the close and the operations of the lifecycle take the draft to the file. Links in a Note
-- are classified against the directory that holds it.
--
-- Bounds and fuel: the descent into child Blocks is on fuel, the number of Blocks, which is enough
-- when children come before their parents, as the builder leaves them. The loops of the search for
-- a destination are on the number of bytes that are left, of which each turn passes one or more.
-- The arithmetic of a buffered edit saturates at 2 ^ 64 - 1, which is written out. An `Instant` is
-- a number without a bound. So is the sequence number of an edit, an i64 in the code. A file's
-- bytes are the UTF-8 of a text or are malformed. In Persist/Steps the look at the file and the
-- write that follows it are one step, so another program's change falls before or after both.
--
-- A draft statement may fail at any point of a run, as it does in the code: the step
-- `draft_refused` undoes the edit or, where `moved_on` says so, keeps it. The field `raced` of a
-- system remembers that this happened to an edit that a write overlapped, in which case the code
-- may keep or undo the edit wrongly; what is said of crashes and of the status is said of the runs
-- where it has not. In the calls of a whole edit (`update_block`, `structural_edit_with_result`) the
-- argument `meanwhile` is what runs while the draft statement does; Persist/Refinement has the calls
-- one after another, so there it is nothing.
--
-- Not modelled: the parser (third-party events), the lifecycle operations above the journal, the
-- insertion slots of a session, snapshots, SQL, git and keychain calls, HTTP, the threads and locks
-- around the worker, and the user interface in Dart.
pub mod Prelude
pub mod Error
pub mod Markdown
pub mod Okf
pub mod Persist
pub mod Sync
pub mod Workspace
