-- ===== src/Persist.antt =====
-- rust/src/workspace/persist.rs: the session of an open Note. Its state, the stores behind it, and
-- what the code takes from elsewhere: the parser (rust/src/markdown/parser.rs over the third-party
-- pulldown-cmark), the YAML reader, SHA-256 and the formatting of numbers and paths. A file's bytes are the
-- UTF-8 of a text or are malformed. Sequence numbers and times are natural numbers.
mod Seams
mod Tree
mod Leaves
mod Session
mod Edit
mod Conflicts
mod Blocks
mod Merge
mod Continue
mod Write
mod Open
mod Steps
mod Refinement
mod Admission
mod Fixtures
mod Examples
use burlmd.Prelude.{ℕ, Bool, true, false, Option, none, some, List, [], ◌++◌, if◌then◌else◌}
use burlmd.Prelude.Text.{Text, codes}
use burlmd.Markdown.Ast.{Nodes}
use burlmd.Markdown.Spans.{BlockPath, SpanMap}
use burlmd.Error.{AppError, parse_error, Result, ok, err}

pub data Bytes : Type 0 where
  utf8 : Text → Bytes
  malformed : List ℕ → Bytes

-- `source.as_bytes()`.
abbrev pub utf8_bytes : Text → Bytes
utf8_bytes = utf8

-- `String::from_utf8(bytes).ok()`.
abbrev pub from_utf8 : Bytes → Option Text
from_utf8 (utf8 s) = some s
from_utf8 (malformed b) = none

abbrev pub absent_file : Bytes
absent_file = utf8 []

pub record Frontmatter : Type 0 where
  pub title : Option Text
  pub is_conformant : Bool

-- What the session calls and this file does not define.
pub record Core : Type 0 where
  pub parse_note : Text → Text → Nodes × SpanMap
  pub parse_markdown_fragment : Text → Text → Nodes
  pub read_frontmatter : Text → Frontmatter
  pub content_hash : Bytes → Text
  pub debug_path : BlockPath → Text
  pub decimal : ℕ → Text
  pub display_path : Text → Text

pub record NoteMetadata : Type 0 where
  pub id : Text
  pub path : Text
  pub title : Text
  pub last_modified : ℕ
  pub snippet : Option Text
  pub okf_conformant : Bool

pub record SessionState : Type 0 where
  pub source : Text
  pub spans : SpanMap
  pub ast : Nodes
  pub edit_seq : ℕ
  pub revision : Text
  pub restored_from_draft : Bool
  pub awaiting_recreate : Bool
  pub session_edited : Bool
  pub unwritten : Bool
  pub conflicted : Bool
  pub last_written_at : Option ℕ
  pub last_error : Option AppError
  pub closed : Bool
  pub metadata : NoteMetadata

-- What crosses to the user interface.
pub record NoteState : Type 0 where
  pub ast : Nodes
  pub metadata : NoteMetadata
  pub base_revision : Text
  pub restored_from_draft : Bool

-- A row of the drafts table.
pub record DraftRow : Type 0 where
  pub raw_markdown : Text
  pub edit_seq : ℕ
  pub updated_at : ℕ

-- The stores behind one Note: its file, its draft row and the content hash of its index row.
pub record Stores : Type 0 where
  pub file : Option Bytes
  pub draft : Option DraftRow
  pub indexed : Option Text

-- A session with its stores, and whether its idle timer has a deadline.
pub record Note : Type 0 where
  pub state : SessionState
  pub stores : Stores
  pub armed : Bool

-- The state that a structural edit replaces, for its rollback.
pub record StructuralEditRollback : Type 0 where
  pub source : Text
  pub spans : SpanMap
  pub ast : Nodes
  pub metadata : NoteMetadata
  pub edit_seq : ℕ
  pub revision : Text
  pub session_edited : Bool
  pub unwritten : Bool

-- The state that a buffered edit replaces.
pub record BufferedEditRollback : Type 0 where
  pub source : Text
  pub spans : SpanMap
  pub edit_seq : ℕ
  pub revision : Text
  pub session_edited : Bool
  pub unwritten : Bool

-- What a write covered.
pub record WrittenThrough : Type 0 where
  pub revision : Text
  pub seq : ℕ

retired : Text → Text → Text
retired note_id what =
    note_id
    ++ (codes " was retired by a Workspace lifecycle operation, so "
        ++ (what ++ codes " is refused; open its current identity instead"))

unresolved : Text → Text → Text
unresolved note_id what =
    note_id
    ++ (codes " holds an unresolved merge conflict, so "
        ++ (what
            ++ (codes " is refused: the Suggestion nodes the reload installed renumbered this "
                ++ (codes "Note's Blocks and the span map still indexes the raw markers, so no "
                    ++ (codes
                          "block_path addresses the same Block in both. Resolve the conflict in "
                        ++ codes "the file, then reload the Note.")))))

unfoldable pub refuse_while_conflicted : SessionState → Text → Text → Result {0} Unit
unfolding retired unresolved
refuse_while_conflicted s note_id what =
    if s.closed
    then err (parse_error (retired note_id what))
    else if s.conflicted
    then err (parse_error (unresolved note_id what))
    else ok tt

unfoldable pub note_state_from : SessionState → NoteState
note_state_from s = record {
  ast = s.ast;
  metadata = s.metadata;
  base_revision = s.revision;
  restored_from_draft = s.restored_from_draft;
}
