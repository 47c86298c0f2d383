-- ===== src/Persist/Steps/Outcomes.antt =====
-- What an edit comes to when a write or a reparse runs while its draft statement does.
use burlmd.Prelude.{ℕ, ◌≡◌, refl, sym, ◌∙◌, ◌⊎◌, inl, inr, Option, some, subst, arith}
use burlmd.Prelude.Text.{Text}
use burlmd.Error.{AppError, Result, ok, err, Result-cases}
use burlmd.Markdown.Ast.{Nodes}
use burlmd.Markdown.Spans.{BlockPath, BlockSpan, block}
use burlmd.Persist.{Core, SessionState, Note, BufferedEditRollback}
use burlmd.Persist.Session.{replace_range}
use burlmd.Persist.Edit.{
  restore_buffered, restore_structural, settle_update, begin_update, update_block, EditFunction,
  DeriveFunction, Planned, plan_structural, install_structural, structural_edit_with_result,
}
use burlmd.Persist.Edit.Refusals.{begin_update-Begun}
use burlmd.Persist.Steps.{idle}
use burlmd.Persist.Steps.Meanwhile.{LeavesEdits}
use burlmd.Persist.Steps.Invariant.{IsWithin}
use burlmd.Persist.Steps.Edits.{begin_update-Began, install_structural-Began}
use burlmd.Persist.Steps.Settled.{
  Outcomes, AnswersUpdate, AnswersEdit, settle_update-Outcomes, settle_structural-Outcomes,
}

module _ (core : Core) (note_id : Text) where
  -- An edit of a Block, while whose draft statement something runs that makes no edit and writes no
  -- draft row, as a write of the file does, and where the draft row is no newer than the session. It
  -- is refused by a check and leaves everything as it was; or the Block's span in the working source
  -- is replaced, and: the draft row is written with the new source in it, and the timer is armed; or
  -- the database refuses it and the baseline is as before, and the answer is the database's and the
  -- source, the spans, the sequence number and the flags are the old ones, all else being as what
  -- ran meanwhile left it; or the database refuses it but the baseline has changed, and the edit is
  -- kept in memory, the timer is armed and the answer is success.
  pub update_block-Outcomes :
      (now : ℕ) (draft : Option AppError) (meanwhile : Note → Note) (path : BlockPath) (new : Text)
      (n : Note)
      → LeavesEdits meanwhile
      → IsWithin n.stores.draft n.state.edit_seq
      → ((e : AppError) × (begin_update core note_id path new n.state ≡ err e)
          × (update_block core note_id now draft meanwhile path new n ≡ (err e, n)))
        ⊎ ((b : BlockSpan) × (s : SessionState) × (block n.state.spans path ≡ some b)
            × (s.source ≡ replace_range n.state.source b.source new)
            × (let m = meanwhile (record n { state = s }) in
                Outcomes AnswersUpdate draft
                  (update_block core note_id now draft meanwhile path new n)
                  s.source
                  n.state.revision
                  m
                  (record m {
                    state = record (m.state) {
                      source = n.state.source;
                      spans = n.state.spans;
                      edit_seq = n.state.edit_seq;
                      session_edited = n.state.session_edited;
                      unwritten = n.state.unwritten;
                    };
                  })))
  unfolding update_block restore_buffered
  update_block-Outcomes now draft meanwhile path new n leaves within =
      elim (Result-cases (begin_update core note_id path new n.state)) [
        | inl (e, h) ↦ inl (e, h, rw (h, update_block) refl)
        | inr ((s, p), h) ↦
            let begun = begin_update-Begun core note_id path new n.state h in
            let began = begin_update-Began core note_id path new n.state h idle in
            let installed : Note = record n { state = s } in
            let m = meanwhile installed in
            let back : Note = record m {
              state = record (m.state) {
                source = n.state.source;
                spans = n.state.spans;
                edit_seq = n.state.edit_seq;
                session_edited = n.state.session_edited;
                unwritten = n.state.unwritten;
              };
            } in
            inr (
              begun.focused,
              s,
              begun.found,
              begun.spliced,
              subst (λ o. Outcomes AnswersUpdate draft o s.source n.state.revision m back)
                  (sym (rw (h, update_block) refl))
                  (subst
                    (λ t.
                      Outcomes AnswersUpdate draft (settle_update now draft p m) t n.state.revision
                        m back)
                    began.source
                    (subst
                      (λ (q : BufferedEditRollback).
                        Outcomes AnswersUpdate draft (settle_update now draft p m) p.snapshot
                          q.revision m (record m { state = restore_buffered q m.state }))
                      begun.previous
                      (settle_update-Outcomes now draft p m
                        (began.source ∙ sym (leaves.source installed))
                        (began.seq ∙ sym (leaves.seq installed))
                        (λ r e.
                          let old = within r (leaves.rows installed r e) in
                          omega (arith, old, began.seq, began.next))))),
            )
      ]

  -- A structural edit, whatever computes its new source and its result, in the same setting: it is
  -- refused by its plan and leaves everything as it was; or, with the planned source, it comes to
  -- the same three outcomes, where undoing it restores the tree and the metadata too, and a success
  -- answers with the state that it leaves and the planned result.
  pub structural_edit-Outcomes :
      {T U : Type 0} (now : ℕ) (draft : Option AppError) (meanwhile : Note → Note)
      (links : Nodes → Result Nodes) (edit : EditFunction T) (derive : DeriveFunction T U)
      (n : Note)
      → LeavesEdits meanwhile
      → IsWithin n.stores.draft n.state.edit_seq
      → ((e : AppError) × (plan_structural core note_id links edit derive n.state ≡ err e)
          × (structural_edit_with_result core note_id now draft meanwhile links edit derive n
              ≡ (err e, n)))
        ⊎ ((planned : Planned U) × (s : SessionState) × (plan_structural core note_id links edit
                derive n.state
              ≡ ok planned)
            × (s.source ≡ planned.source)
            × (let m = meanwhile (record n { state = s }) in
                Outcomes
                  (AnswersEdit planned.result)
                  draft
                  (structural_edit_with_result core note_id now draft meanwhile links edit derive n)
                  planned.source
                  n.state.revision
                  m
                  (record m {
                    state = record (m.state) {
                      source = n.state.source;
                      spans = n.state.spans;
                      ast = n.state.ast;
                      metadata = n.state.metadata;
                      edit_seq = n.state.edit_seq;
                      session_edited = n.state.session_edited;
                      unwritten = n.state.unwritten;
                    };
                  })))
  unfolding structural_edit_with_result restore_structural install_structural
  structural_edit-Outcomes now draft meanwhile links edit derive n leaves within =
      elim (Result-cases (plan_structural core note_id links edit derive n.state)) [
        | inl (e, h) ↦ inl (e, h, rw (h, structural_edit_with_result) refl)
        | inr (planned, h) ↦
            let (s, p) = install_structural core note_id planned n.state in
            let installed : Note = record n { state = s } in
            let m = meanwhile installed in
            let began = install_structural-Began core note_id planned n.state idle in
            let back : Note = record m {
              state = record (m.state) {
                source = n.state.source;
                spans = n.state.spans;
                ast = n.state.ast;
                metadata = n.state.metadata;
                edit_seq = n.state.edit_seq;
                session_edited = n.state.session_edited;
                unwritten = n.state.unwritten;
              };
            } in
            inr (
              planned,
              s,
              h,
              refl,
              subst
                  (λ o.
                    Outcomes (AnswersEdit planned.result) draft o planned.source n.state.revision m
                      back)
                  (sym (rw (h, structural_edit_with_result) refl))
                  (settle_structural-Outcomes now draft p planned.result m
                    (sym (leaves.source installed)) (sym (leaves.seq installed))
                    (λ r e.
                      let old = within r (leaves.rows installed r e) in
                      omega (arith, old, began.next))),
            )
      ]
