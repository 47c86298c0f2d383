-- ===== src/Persist/Steps/Crash.antt =====
-- A crash between any two critical sections, and what the status says.
use burlmd.Prelude.{◌≡◌, false, some}
use burlmd.Prelude.Text.{Text}
use burlmd.Persist.{Bytes, utf8_bytes, Core, Note}
use burlmd.Persist.Steps.{System, Reach}
use burlmd.Persist.Open.{write_status}
use burlmd.Persist.Steps.Recovery.{Reach-Inv}

-- The file is as the session last wrote or read it: no other program has changed it since.
abbrev pub IsOwnFile : Core → Note → Type 0
IsOwnFile core n = (b : Bytes) × (n.stores.file ≡ some b) × (core.content_hash b ≡ n.state.revision)

module _ (core : Core) (note_id : Text) where
  -- In every reachable state of a run where no draft statement has failed whose edit a write
  -- overlapped, a status without unwritten edits is true: the working source is what the recorded
  -- baseline is the hash of.
  pub write_status_truthful :
      (s : System)
      → Reach core note_id s
      → s.raced ≡ false
      → (write_status s.note.state).has_unwritten_edits ≡ false
      → s.note.state.revision ≡ core.content_hash (utf8_bytes s.note.state.source)
  unfolding write_status
  write_status_truthful s reach unraced clean =
      (Reach-Inv core note_id reach unraced).at.truthful clean
