-- ===== src/Persist/Steps/Invariant.antt =====
-- No edit is lost: what holds of the working source, the draft row and the file's baseline in every
-- reachable state.
use burlmd.Prelude.{ℕ, ◌≤◌, ◌<◌, ◌≡◌, ◌⊎◌, Bool, true, false, Option, none, some}
use burlmd.Prelude.Text.{Text}
use burlmd.Persist.{utf8_bytes, Core, SessionState, DraftRow, Note}
use burlmd.Persist.Write.{Covering}
use burlmd.Persist.Steps.{
  Stage, idle, taken, written, recorded, row_cleared, Rollback, buffered, structural, Draft, System,
}

-- What the invariant reads of a note.
pub record View : Type 0 where
  pub row : Option DraftRow
  pub source : Text
  pub edit_seq : ℕ
  pub revision : Text
  pub unwritten : Bool

abbrev pub view_of : Option DraftRow → SessionState → View
view_of row s = record {
  row = row;
  source = s.source;
  edit_seq = s.edit_seq;
  revision = s.revision;
  unwritten = s.unwritten;
}

abbrev pub view : Note → View
view n = view_of n.stores.draft n.state

-- The draft row holds the working source under the newest sequence number.
pub record Held (v : View) : Type 0 where
  pub row : DraftRow
  pub there : v.row ≡ some row
  pub text : row.raw_markdown ≡ v.source
  pub newest : row.edit_seq ≡ v.edit_seq

-- Every draft row is at most as new as `seq`.
abbrev pub IsWithin : Option DraftRow → ℕ → Type 0
IsWithin row seq = (r : DraftRow) → row ≡ some r → r.edit_seq ≤ seq

-- What a rollback restores, of that.
pub record Before : Type 0 where
  pub source : Text
  pub edit_seq : ℕ
  pub unwritten : Bool
  pub revision : Text

abbrev pub before_of : Rollback → Before
before_of (buffered p) = record {
  source = p.source;
  edit_seq = p.edit_seq;
  unwritten = p.unwritten;
  revision = p.revision;
}
before_of (structural p) = record {
  source = p.source;
  edit_seq = p.edit_seq;
  unwritten = p.unwritten;
  revision = p.revision;
}

abbrev pub undone : Rollback → View → View
undone rollback v =
    let b = before_of rollback in
    record v { source = b.source; edit_seq = b.edit_seq; unwritten = b.unwritten }

module _ (core : Core) where
  -- The baseline is that of the working source: the session wrote it or read it.
  abbrev pub IsPublished : View → Type 0
  IsPublished v = v.revision ≡ core.content_hash (utf8_bytes v.source)

  -- While no draft statement is due, a crash loses nothing: the row or the file has the source.
  abbrev pub IsSafe : View → Type 0
  IsSafe v = Held v ⊎ ((v.row ≡ none) × IsPublished v)

  abbrev pub EditInv : Option Draft → View → Type 0
  EditInv none v = IsSafe v
  EditInv (some d) v =
      (d.source ≡ v.source)
      × (d.seq ≡ v.edit_seq)
      × ((r : DraftRow) → v.row ≡ some r → r.edit_seq < v.edit_seq)

  -- A write covers the working source, or an edit came later and its row is there or to come.
  abbrev pub Covers : Covering → Option Draft → View → Type 0
  Covers c draft v =
      ((c.seq ≡ v.edit_seq) × (c.source ≡ v.source))
      ⊎ ((c.seq < v.edit_seq) × (v.unwritten ≡ true) × (draft ≡ none → Held v))

  abbrev pub Rebased : Covering → Option Draft → View → Type 0
  Rebased c draft v = Covers c draft v × (v.revision ≡ core.content_hash (utf8_bytes c.source))

  abbrev pub StageInv : Stage → Option Draft → View → Type 0
  StageInv idle draft v = Unit
  StageInv (taken c) draft v = Covers c draft v
  StageInv (written c revision) draft v =
      Covers c draft v × (revision ≡ core.content_hash (utf8_bytes c.source))
  StageInv (recorded c) draft v = Rebased c draft v
  StageInv (row_cleared c) draft v = Rebased c draft v

  pub record InvAt (stage : Stage) (draft : Option Draft) (v : View) : Type 0 where
    pub rows : IsWithin v.row v.edit_seq
    pub truthful : v.unwritten ≡ false → IsPublished v
    pub edit : EditInv draft v
    pub progress : StageInv stage draft v

  -- A failed draft statement that no write overlaps leads back to a state that is in order.
  abbrev pub AloneInv : Stage → Option Draft → View → Type 0
  AloneInv stage none v = Unit
  AloneInv stage (some d) v =
      (d.alone ≡ false)
      ⊎ ((stage ≡ idle)
          × ((before_of d.rollback).revision ≡ v.revision)
          × InvAt idle none (undone d.rollback v))

  pub record Whole (stage : Stage) (draft : Option Draft) (v : View) : Type 0 where
    pub at : InvAt stage draft v
    pub alone : AloneInv stage draft v

  abbrev pub Inv : System → Type 0
  Inv s = s.raced ≡ false → Whole s.stage s.draft (view s.note)
