-- ===== src/Persist/Steps/Writes.antt =====
-- What the stages of a write, a reload and an open do to the invariant.
use burlmd.Prelude.{
  ℕ, ◌≤◌, ◌<◌, ◌≡◌, refl, ap, ◌∙◌, inl, inr, Bool, false, Option, none, some, ltb, leb, Bool-cases,
  arith,
}
use burlmd.Prelude.Text.{Text}
use burlmd.Persist.{utf8_bytes, Core, DraftRow}
use burlmd.Persist.Session.{cleared}
use burlmd.Persist.Write.{Covering}
use burlmd.Persist.Steps.{Stage, idle, written, recorded, row_cleared, Draft}
use burlmd.Persist.Steps.Invariant.{
  View, Held, IsPublished, IsSafe, EditInv, Covers, Rebased, InvAt,
}

-- A row that is cleared or kept is the row that was there.
pub cleared-eq-some :
    (seq : ℕ) (row : Option DraftRow) {r : DraftRow} → cleared seq row ≡ some r → row ≡ some r
unfolding cleared
cleared-eq-some seq none h = cc
cleared-eq-some seq (some row) h = elim (Bool-cases (leb row.edit_seq seq)) [
  | inl e ↦ cc (rw e at h)
  | inr e ↦ rw e at h
]

cleared_newer : (seq : ℕ) (row : DraftRow) → seq < row.edit_seq → cleared seq (some row) ≡ some row
unfolding cleared
cleared_newer seq row h = ground arith

pub cleared_older : (seq : ℕ) (row : DraftRow) → row.edit_seq ≤ seq → cleared seq (some row) ≡ none
unfolding cleared
cleared_older seq row h = ground arith

module _ (core : Core) where
  -- An equal view but for the baseline and the flag holds the same row.
  Held-keeps :
      (v : View) (revision : Text) (unwritten : Bool)
      → Held v
      → Held (record v { revision = revision; unwritten = unwritten })
  Held-keeps v revision unwritten h = record {
    row = h.row;
    there = h.there;
    text = h.text;
    newest = h.newest;
  }

  -- A baseline is recorded over a write: what the write covers is published, or a newer row is held.
  covered-IsPublished :
      (c : Covering) (draft : Option Draft) (v : View)
      → Rebased core c draft v
      → v.unwritten ≡ false
      → IsPublished core v
  covered-IsPublished c draft v (inl (newest, text), e) clean =
      e ∙ ap (λ t. core.content_hash (utf8_bytes t)) text
  covered-IsPublished c draft v (inr (older, dirty, held), e) clean = cc (dirty, clean)

  rebased-IsSafe :
      (c : Covering) (v : View) (revision : Text)
      → Covers core c none v
      → revision ≡ core.content_hash (utf8_bytes c.source)
      → IsSafe core v
      → IsSafe core (record v { revision = revision })
  rebased-IsSafe c v revision covers e (inl h) = inl (Held-keeps v revision v.unwritten h)
  rebased-IsSafe c v revision (inl (newest, text)) e (inr (gone, _)) =
      inr (gone, e ∙ ap (λ t. core.content_hash (utf8_bytes t)) text)
  rebased-IsSafe c v revision (inr (older, dirty, held)) e (inr (gone, _)) =
      inl (Held-keeps v revision v.unwritten (held refl))

  rebased_edit :
      (c : Covering) (draft : Option Draft) (v : View) (revision : Text)
      → Covers core c draft v
      → revision ≡ core.content_hash (utf8_bytes c.source)
      → EditInv core draft v
      → EditInv core draft (record v { revision = revision })
  rebased_edit c none v revision covers e h = rebased-IsSafe c v revision covers e h
  rebased_edit c (some d) v revision covers e h = h

  Covers-keeps :
      (c : Covering) (draft : Option Draft) (v : View) (revision : Text)
      → Covers core c draft v
      → Covers core c draft (record v { revision = revision })
  Covers-keeps c draft v revision (inl h) = inl h
  Covers-keeps c draft v revision (inr (older, dirty, held)) =
      inr (older, dirty, λ e. Held-keeps v revision v.unwritten (held e))

  pub rebased-InvAt :
      (c : Covering) (draft : Option Draft) (v : View) (revision : Text)
      → InvAt core (written c revision) draft v
      → InvAt core (recorded c) draft (record v { revision = revision })
  rebased-InvAt c draft v revision inv =
      let (covers, e) = inv.progress in
      let rebased_view : Rebased core c draft (record v { revision = revision }) =
        (Covers-keeps c draft v revision covers, e) in
      record {
        rows = inv.rows;
        truthful = covered-IsPublished c draft (record v { revision = revision }) rebased_view;
        edit = rebased_edit c draft v revision covers e inv.edit;
        progress = rebased_view;
      }

  -- A newer row outlives the clearing.
  Held-cleared :
      (seq : ℕ) (v : View) → Held v → seq < v.edit_seq → Held (record v { row = cleared seq v.row })
  Held-cleared seq v h newer = record {
    row = h.row;
    there = ap (cleared seq) h.there ∙ cleared_newer seq h.row (omega (arith, h.newest));
    text = h.text;
    newest = h.newest;
  }

  cleared-IsSafe :
      (c : Covering) (v : View)
      → Rebased core c none v
      → IsSafe core v
      → IsSafe core (record v { row = cleared c.seq v.row })
  cleared-IsSafe c v (inr (older, dirty, held), e) safe =
      inl (Held-cleared c.seq v (held refl) older)
  cleared-IsSafe c v (inl (newest, text), e) (inl h) = inr (
    ap (cleared c.seq) h.there ∙ cleared_older c.seq h.row (omega (arith, h.newest)),
    e ∙ ap (λ t. core.content_hash (utf8_bytes t)) text,
  )
  cleared-IsSafe c v (inl (newest, text), e) (inr (gone, clean)) =
      inr (ap (cleared c.seq) gone ∙ unfold cleared in refl, clean)

  cleared_edit :
      (c : Covering) (draft : Option Draft) (v : View)
      → Rebased core c draft v
      → EditInv core draft v
      → EditInv core draft (record v { row = cleared c.seq v.row })
  cleared_edit c none v h safe = cleared-IsSafe c v h safe
  cleared_edit c (some d) v h (text, seq, older) =
      (text, seq, λ r e. older r (cleared-eq-some c.seq v.row e))

  Covers-cleared :
      (c : Covering) (draft : Option Draft) (v : View)
      → Covers core c draft v
      → Covers core c draft (record v { row = cleared c.seq v.row })
  Covers-cleared c draft v (inl h) = inl h
  Covers-cleared c draft v (inr (older, dirty, held)) =
      inr (older, dirty, λ e. Held-cleared c.seq v (held e) older)

  pub row_gone-InvAt :
      (c : Covering) (draft : Option Draft) (v : View)
      → InvAt core (recorded c) draft v
      → InvAt core (row_cleared c) draft (record v { row = cleared c.seq v.row })
  row_gone-InvAt c draft v inv = record {
    rows = λ r e. inv.rows r (cleared-eq-some c.seq v.row e);
    truthful = inv.truthful;
    edit = cleared_edit c draft v inv.progress inv.edit;
    progress = (Covers-cleared c draft v inv.progress.0, inv.progress.1);
  }

  -- A flag that says unwritten only of an edit that is newer than the write.
  pub settled-InvAt :
      (c : Covering) (draft : Option Draft) (v : View)
      → InvAt core (row_cleared c) draft v
      → InvAt core idle draft (record v { unwritten = ltb c.seq v.edit_seq })
  settled-InvAt c draft v inv = record {
    rows = inv.rows;
    truthful = λ clean. by_cover inv.progress.0 clean;
    edit = keeps draft inv.edit;
    progress = tt;
  }
    where
      by_cover : Covers core c draft v → ltb c.seq v.edit_seq ≡ false → IsPublished core v
      by_cover (inl (newest, text)) clean =
          inv.progress.1 ∙ ap (λ t. core.content_hash (utf8_bytes t)) text
      by_cover (inr (older, dirty, held)) clean = absurd (ground arith)

      keeps :
          (draft' : Option Draft)
          → EditInv core draft' v
          → EditInv core draft' (record v { unwritten = ltb c.seq v.edit_seq })
      keeps none (inl h) = inl (Held-keeps v v.revision (ltb c.seq v.edit_seq) h)
      keeps none (inr h) = inr h
      keeps (some d) h = h

  -- A write that stops leaves what its last stage reached.
  pub stopped-InvAt :
      {stage : Stage} {draft : Option Draft} {v : View}
      → InvAt core stage draft v
      → InvAt core idle draft v
  stopped-InvAt inv = record {
    rows = inv.rows;
    truthful = inv.truthful;
    edit = inv.edit;
    progress = tt;
  }

  -- A state that was read from the file, and has no row.
  pub from_file-InvAt : (v : View) → v.row ≡ none → IsPublished core v → InvAt core idle none v
  from_file-InvAt v gone clean = record {
    rows = λ r e. cc (gone, e);
    truthful = λ _. clean;
    edit = inr (gone, clean);
    progress = tt;
  }
