-- ===== src/Persist/Steps/Edits.antt =====
-- What an edit, its draft statement and a reparse do to the invariant.
use burlmd.Prelude.{
  sym, ap₂, ℕ, suc, ◌<◌, ◌≡◌, refl, ap, ◌∙◌, inl, inr, true, Option, none, some, some_inj, subst,
  arith,
}
use burlmd.Prelude.Text.{Text, codes}
use burlmd.Prelude.Bytes.{byte_len}
use burlmd.Markdown.Ast.{Nodes}
use burlmd.Markdown.Spans.{SpanMap, BlockPath, block, apply_buffered_edit}
use burlmd.Error.{Result, ok, >>=-eq-ok, ok_inj}
use burlmd.Workspace.Names.{containing_dir}
use burlmd.Persist.{
  NoteMetadata, Core, SessionState, DraftRow, BufferedEditRollback, refuse_while_conflicted,
}
use burlmd.Persist.Session.{ok_or, no_block, check_span, upsert}
use burlmd.Persist.Edit.{
  PendingEdit, container, begin_update, Planned, install_structural, reparse_state,
}
use burlmd.Persist.Write.{Covering}
use burlmd.Persist.Steps.{
  Stage, idle, taken, written, recorded, row_cleared, buffered, structural, Draft, is_idle,
  draft_of,
}
use burlmd.Persist.Steps.Invariant.{
  View, view_of, Held, Before, before_of, Covers, StageInv, InvAt, AloneInv,
}

-- An edit over a state: its draft statement is to come.
pub record Began (s s' : SessionState) (d : Draft) : Type 0 where
  pub source : d.source ≡ s'.source
  pub seq : d.seq ≡ s'.edit_seq
  pub next : s'.edit_seq ≡ suc s.edit_seq
  pub dirty : s'.unwritten ≡ true
  pub kept : s'.revision ≡ s.revision
  pub undoes : before_of d.rollback ≡ record {
    source = s.source;
    edit_seq = s.edit_seq;
    unwritten = s.unwritten;
    revision = s.revision;
  }

module _ (core : Core) (note_id : Text) where
  pub begin_update-Began :
      (path : BlockPath) (new : Text) (s : SessionState) {s' : SessionState}
      {p : PendingEdit BufferedEditRollback}
      → begin_update core note_id path new s ≡ ok (s', p)
      → (stage : Stage) → Began s s' (draft_of buffered stage p)
  unfolding begin_update
  begin_update-Began path new s {s'} {p} h stage =
      let (_, h1, _) =
        >>=-eq-ok _ (refuse_while_conflicted s note_id (codes "editing a Block")) h in
      let (b, h2, _) = >>=-eq-ok _ (ok_or (block s.spans path) (no_block core path)) h1 in
      let (_, h3, _) = >>=-eq-ok _ (check_span core s.source b.source) h2 in
      let (moved, h4, _) =
        >>=-eq-ok _
          (ok_or (apply_buffered_edit s.spans path (byte_len new)) (container core note_id path))
          h3 in
      subst
        (λ (q : SessionState × PendingEdit BufferedEditRollback).
          Began s q.0 (draft_of buffered stage q.1))
        (ok_inj h4)
        (record {
          source = refl;
          seq = refl;
          next = refl;
          dirty = refl;
          kept = refl;
          undoes = refl;
        })

  pub install_structural-Began :
      {U : Type 0} (planned : Planned U) (s : SessionState) (stage : Stage)
      → let q = install_structural core note_id planned s in
        Began s q.0 (draft_of structural stage q.1)
  unfolding install_structural
  install_structural-Began planned s stage = record {
    source = refl;
    seq = refl;
    next = refl;
    dirty = refl;
    kept = refl;
    undoes = refl;
  }

  Covers-Began :
      (c : Covering) (row : Option DraftRow) {s s' : SessionState} {d : Draft}
      → Began s s' d
      → Covers core c none (view_of row s)
      → Covers core c (some d) (view_of row s')
  Covers-Began c row b (inl (newest, _)) = inr (omega (arith, b.next), b.dirty, λ e. cc)
  Covers-Began c row b (inr (older, _, _)) = inr (omega (arith, b.next), b.dirty, λ e. cc)

  StageInv-Began :
      (stage : Stage) (row : Option DraftRow) {s s' : SessionState} {d : Draft}
      → Began s s' d
      → StageInv core stage none (view_of row s)
      → StageInv core stage (some d) (view_of row s')
  StageInv-Began idle row b h = tt
  StageInv-Began (taken c) row b h = Covers-Began c row b h
  StageInv-Began (written c revision) row b (h, e) = (Covers-Began c row b h, e)
  StageInv-Began (recorded c) row b (h, e) = (Covers-Began c row b h, b.kept ∙ e)
  StageInv-Began (row_cleared c) row b (h, e) = (Covers-Began c row b h, b.kept ∙ e)

  -- An edit is installed.
  pub Began-InvAt :
      (stage : Stage) (row : Option DraftRow) {s s' : SessionState} {d : Draft}
      → Began s s' d
      → InvAt core stage none (view_of row s)
      → InvAt core stage (some d) (view_of row s')
  Began-InvAt stage row b inv = record {
    rows = λ r e. let h = inv.rows r e in omega (arith, b.next);
    truthful = λ e. cc (b.dirty);
    edit = (b.source, b.seq, λ r e. let h = inv.rows r e in omega (arith, b.next));
    progress = StageInv-Began stage row b inv.progress;
  }

  -- No write is under way when the edit is installed, or one is.
  pub Began-AloneInv :
      (stage : Stage) (row : Option DraftRow) {s s' : SessionState} {d : Draft}
      → Began s s' d
      → d.alone ≡ is_idle stage
      → InvAt core stage none (view_of row s)
      → AloneInv core stage (some d) (view_of row s')
  Began-AloneInv idle row {s} {s'} {d} b e inv = inr (
    refl,
    ap (λ (q : Before). q.revision) b.undoes ∙ sym b.kept,
    subst (InvAt core idle none)
        (ap₂
          (λ (q : Before) r. record {
            row = row;
            source = q.source;
            edit_seq = q.edit_seq;
            revision = r;
            unwritten = q.unwritten;
          })
          (sym b.undoes) (sym b.kept))
        inv,
  )
  Began-AloneInv (taken c) row b e inv = inl e
  Began-AloneInv (written c revision) row b e inv = inl e
  Began-AloneInv (recorded c) row b e inv = inl e
  Began-AloneInv (row_cleared c) row b e inv = inl e

  -- A reparse changes the tree, the spans and the metadata.
  pub reparse_state-shape :
      (links : Nodes → Result Nodes) (s : SessionState) {s' : SessionState}
      → reparse_state core note_id links s ≡ ok s'
      → (metadata : NoteMetadata) × (ast : Nodes) × (spans : SpanMap) × (record s {
        metadata = metadata;
        ast = ast;
        spans = spans;
      }
          ≡ s')
  unfolding reparse_state
  reparse_state-shape links s h =
      let (_, h1, _) =
        >>=-eq-ok _ (refuse_while_conflicted s note_id (codes "committing a Block")) h in
      let (ast, h2, _) =
        >>=-eq-ok _ (links (core.parse_note s.source (containing_dir note_id)).0) h1 in
      (_, _, _, ok_inj h2)

  -- That is nothing that the invariant reads.
  pub reparse_state-view :
      (links : Nodes → Result Nodes) (row : Option DraftRow) (s : SessionState) {s' : SessionState}
      → reparse_state core note_id links s ≡ ok s'
      → view_of row s ≡ view_of row s'
  reparse_state-view links row s h =
      let (_, _, _, shape) = reparse_state-shape links s h in ap (view_of row) shape

pub upsert_newer :
    (now seq : ℕ) (source : Text) (row : Option DraftRow)
    → ((r : DraftRow) → row ≡ some r → r.edit_seq < seq)
    → upsert now source seq row ≡ record { raw_markdown = source; edit_seq = seq; updated_at = now }
unfolding upsert
upsert_newer now seq source none h = refl
upsert_newer now seq source (some row) h = let less = h row refl in ground arith

module _ (core : Core) where
  Covers-Held :
      (c : Covering) (v : View) (d : Draft) (row : Option DraftRow)
      → Covers core c (some d) v
      → Held (record v { row = row })
      → Covers core c none (record v { row = row })
  Covers-Held c v d row (inl h) held = inl h
  Covers-Held c v d row (inr (older, dirty, _)) held = inr (older, dirty, λ _. held)

  StageInv-Held :
      (stage : Stage) (v : View) (d : Draft) (row : Option DraftRow)
      → StageInv core stage (some d) v
      → Held (record v { row = row })
      → StageInv core stage none (record v { row = row })
  StageInv-Held idle v d row h held = tt
  StageInv-Held (taken c) v d row h held = Covers-Held c v d row h held
  StageInv-Held (written c revision) v d row (h, e) held = (Covers-Held c v d row h held, e)
  StageInv-Held (recorded c) v d row (h, e) held = (Covers-Held c v d row h held, e)
  StageInv-Held (row_cleared c) v d row (h, e) held = (Covers-Held c v d row h held, e)

  -- The draft statement of an edit ran.
  pub drafted-InvAt :
      (stage : Stage) (v : View) (d : Draft) (now : ℕ)
      → InvAt core stage (some d) v
      → InvAt core stage none (record v { row = some (upsert now d.source d.seq v.row) })
  drafted-InvAt stage v d now inv =
      let (text, seq, older) = inv.edit in
      let row =
        upsert_newer now d.seq d.source v.row (λ r e. let h = older r e in omega (arith, seq)) in
      let held : Held (record v { row = some (upsert now d.source d.seq v.row) }) = record {
        row = upsert now d.source d.seq v.row;
        there = refl;
        text = ap (λ (r : DraftRow). r.raw_markdown) row ∙ text;
        newest = ap (λ (r : DraftRow). r.edit_seq) row ∙ seq;
      } in
      record {
        rows = λ r e. omega (arith, held.newest, ap (λ (t : DraftRow). t.edit_seq) (some_inj e));
        truthful = inv.truthful;
        edit = inl held;
        progress = StageInv-Held stage v d _ inv.progress held;
      }
