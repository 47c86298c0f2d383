-- ===== src/Persist/Steps/AllOrNothing.antt =====
-- An edit during which nothing else runs is refused and changes nothing, or its text is in memory
-- and in the draft row.
use burlmd.Prelude.{ℕ, suc, ◌≡◌, refl, sym, ap, ◌∙◌, ◌⊎◌, inl, inr, true, Option, none, some}
use burlmd.Prelude.Text.{Text}
use burlmd.Error.{AppError, Result, ok, err, Result-cases}
use burlmd.Markdown.Ast.{Nodes}
use burlmd.Markdown.Spans.{BlockPath, BlockSpan, block}
use burlmd.Persist.{Core, SessionState, Note, NoteState, BufferedEditRollback}
use burlmd.Persist.Session.{replace_range, write_draft, arm_idle_timer}
use burlmd.Persist.Edit.{
  PendingEdit, begin_update, update_block, EditFunction, DeriveFunction, Planned, plan_structural,
  install_structural, structural_edit_with_result,
}
use burlmd.Prelude.{arith}
use burlmd.Persist.{DraftRow}
use burlmd.Persist.Session.{upsert}
use burlmd.Persist.Edit.Refusals.{begin_update-Begun, settle-Begun, settle_installed}
use burlmd.Persist.Steps.Invariant.{view, Held, IsWithin}
use burlmd.Persist.Steps.{idle}
use burlmd.Persist.Steps.Edits.{begin_update-Began, install_structural-Began, upsert_newer}

-- The draft row of an edit that is the newest.
written_Held :
    (now : ℕ) (source : Text) (seq : ℕ) (n : Note)
    → IsWithin n.stores.draft n.state.edit_seq
    → (s' : SessionState) → source ≡ s'.source
    → seq ≡ s'.edit_seq
    → s'.edit_seq ≡ suc n.state.edit_seq
    → Held (view (arm_idle_timer (write_draft now source seq (record n { state = s' }))))
unfolding arm_idle_timer write_draft
written_Held now source seq n within s' text newest next =
    let row =
      upsert_newer now seq source n.stores.draft
        (λ r e. let h = within r e in omega (arith, newest, next)) in
    record {
      row = upsert now source seq n.stores.draft;
      there = refl;
      text = ap (λ (r : DraftRow). r.raw_markdown) row ∙ text;
      newest = ap (λ (r : DraftRow). r.edit_seq) row ∙ newest;
    }

-- What an edit leaves alone.
pub record Framed (n m : Note) : Type 0 where
  pub closed : m.state.closed ≡ n.state.closed
  pub conflicted : m.state.conflicted ≡ n.state.conflicted
  pub file : m.stores.file ≡ n.stores.file
  pub revision : m.state.revision ≡ n.state.revision
  pub awaiting : m.state.awaiting_recreate ≡ n.state.awaiting_recreate

-- An accepted edit of a Block: the working source is the old one with the Block's span replaced, the
-- draft row holds it under the newest sequence number, and the timer is armed.
pub record AcceptedUpdate (outcome : Result {0} Unit × Note) (draft : Option AppError)
    (path : BlockPath) (new : Text) (n : Note)
    (plan : Result (SessionState × PendingEdit BufferedEditRollback)) : Type 0 where
  pub note : Note
  pub pending : PendingEdit BufferedEditRollback
  pub made : plan ≡ ok (note.state, pending)
  pub framed : Framed n note
  pub answer : outcome ≡ (ok tt, note)
  pub focused : BlockSpan
  pub found : block n.state.spans path ≡ some focused
  pub spliced : note.state.source ≡ replace_range n.state.source focused.source new
  pub held : Held (view note)
  pub armed : note.armed ≡ true
  pub stored : draft ≡ none

-- An accepted structural edit: it was planned, the working source is the planned one and the draft
-- row holds it.
pub record AcceptedEdit {U : Type 0} (outcome : Result (NoteState × U) × Note) (n : Note)
    (draft : Option AppError) (plan : Result (Planned U)) : Type 0 where
  pub note : Note
  pub shown : NoteState
  pub planned : Planned U
  pub answer : outcome ≡ (ok (shown, planned.result), note)
  pub made : plan ≡ ok planned
  pub source : note.state.source ≡ planned.source
  pub spans : note.state.spans ≡ planned.spans
  pub held : Held (view note)
  pub framed : Framed n note
  pub armed : note.armed ≡ true
  pub stored : draft ≡ none

module _ (core : Core) (note_id : Text) where
  -- An edit of a Block during which nothing else runs, where the draft row is no newer than the
  -- session: it is refused and leaves the state, the stores and the timer exactly as they were, a
  -- check or the database having refused it, which the answer says; or both accepted it, the working
  -- source is the old one with the Block's span replaced, the draft row holds it under the newest
  -- sequence number, and the timer is armed.
  pub update_block_all_or_nothing :
      (now : ℕ) (draft : Option AppError) (path : BlockPath) (new : Text) (n : Note)
      → IsWithin n.stores.draft n.state.edit_seq
      → ((e : AppError) × ((draft ≡ some e) ⊎ (begin_update core note_id path new n.state ≡ err e))
          × (update_block core note_id now draft (λ m. m) path new n ≡ (err e, n)))
        ⊎ AcceptedUpdate
            (update_block core note_id now draft (λ m. m) path new n)
            draft
            path
            new
            n
            (begin_update core note_id path new n.state)
  unfolding update_block arm_idle_timer write_draft
  update_block_all_or_nothing now draft path new n within =
      elim (Result-cases (begin_update core note_id path new n.state)) [
        | inl (e, h) ↦ inl (e, inr h, rw (h, update_block) refl)
        | inr ((s', p), h) ↦
            let begun = begin_update-Begun core note_id path new n.state h in
            let began = begin_update-Began core note_id path new n.state h idle in
            elim (settle-Begun core note_id now draft path new n begun) [
              | inl (e, why, out) ↦ inl (e, inl why, rw (h, update_block) out)
              | inr (stored, out) ↦ inr (record {
                note = arm_idle_timer (write_draft now p.snapshot p.seq (record n { state = s' }));
                answer = rw (h, update_block) out;
                pending = p;
                made = h;
                framed = record {
                  closed = begun.closed;
                  conflicted = begun.conflicted;
                  file = refl;
                  revision = begun.revision;
                  awaiting = begun.awaiting;
                };
                focused = begun.focused;
                found = begun.found;
                spliced = begun.spliced;
                held =
                    written_Held now p.snapshot p.seq n within s' began.source began.seq began.next;
                armed = refl;
                stored = stored;
              })
            ]
      ]

  -- A structural edit during which nothing else runs, whatever computes its new source and its
  -- result, where the draft row is no
  -- newer than the session: it is refused and leaves the state, the stores and the timer exactly as
  -- they were, the plan or the database having refused it, which the answer says; or both accepted
  -- it, the planned source is the working source, the draft row holds it under the newest sequence
  -- number, and the timer is armed.
  pub structural_edit_all_or_nothing :
      {T U : Type 0} (now : ℕ) (draft : Option AppError) (links : Nodes → Result Nodes)
      (edit : EditFunction T) (derive : DeriveFunction T U) (n : Note)
      → IsWithin n.stores.draft n.state.edit_seq
      → ((e : AppError) × ((draft ≡ some e)
            ⊎ (plan_structural core note_id links edit derive n.state ≡ err e))
          × (structural_edit_with_result core note_id now draft (λ m. m) links edit derive n
              ≡ (err e, n)))
        ⊎ AcceptedEdit
            (structural_edit_with_result core note_id now draft (λ m. m) links edit derive n)
            n
            draft
            (plan_structural core note_id links edit derive n.state)
  unfolding structural_edit_with_result arm_idle_timer write_draft
  structural_edit_all_or_nothing now draft links edit derive n within =
      elim (Result-cases (plan_structural core note_id links edit derive n.state)) [
        | inl (e, h) ↦ inl (e, inr h, rw (h, structural_edit_with_result) refl)
        | inr (planned, h) ↦
            let q = install_structural core note_id planned n.state in
            let began = install_structural-Began core note_id planned n.state idle in
            elim (settle_installed core note_id now draft planned n) [
              | inl (e, why, out) ↦ inl (e, inl why, rw (h, structural_edit_with_result) out)
              | inr (shown, stored, out) ↦ inr (record {
                note =
                    arm_idle_timer
                      (write_draft now q.1.snapshot q.1.seq (record n { state = q.0 }));
                shown = shown;
                planned = planned;
                answer = rw (h, structural_edit_with_result) out;
                made = h;
                source = sym began.source ∙ unfold install_structural in refl;
                spans = unfold install_structural in refl;
                held =
                    written_Held now q.1.snapshot q.1.seq n within q.0 began.source began.seq
                      began.next;
                framed =
                    unfold install_structural in
                    record {
                      closed = refl;
                      conflicted = refl;
                      file = refl;
                      revision = refl;
                      awaiting = refl;
                    };
                armed = refl;
                stored = stored;
              })
            ]
      ]
