-- ===== src/Persist/Steps/Settled.antt =====
-- What an edit comes to once the database has answered its draft statement.
use burlmd.Prelude.{
  ℕ, suc, ◌≡◌, ◌≢◌, refl, sym, ap, ◌∙◌, ◌⊎◌, ◌≤◌, inl, inr, true, not, Bool-cases, ==_refl, Option,
  none, some,
}
use burlmd.Prelude.Text.{Text, text_eq, text_eq→eq, text_eq_refl}
use burlmd.Error.{AppError, Result, ok, err}
use burlmd.Persist.{
  SessionState, DraftRow, Note, NoteState, BufferedEditRollback, StructuralEditRollback,
  note_state_from,
}
use burlmd.Persist.Session.{upsert, write_draft, arm_idle_timer}
use burlmd.Persist.Edit.{
  restore_buffered, restore_structural, moved_on, settle_update, settle_structural, PendingEdit,
}
use burlmd.Persist.Steps.Invariant.{view, Held}
use burlmd.Persist.Steps.Edits.{upsert_newer}

-- An edit of `n` to a source is installed and `m` is what it finds when the database has answered:
-- the draft row is written, with the source in it under the newest sequence number; or it is
-- refused, and the edit is undone, so that `back` is left, or, if the baseline has changed, is kept
-- without a draft row.
abbrev pub Outcomes :
    {A : Type 0}
    → (A → Note → Type 0)
    → Option AppError
    → Result A × Note
    → Text
    → Text
    → Note
    → Note
    → Type 0
Outcomes {A} Answers draft outcome source revision m back =
    ((draft ≡ none)
      × (a : A) × (after : Note) × (outcome ≡ (ok a, after))
      × Answers a after
      × (after.state ≡ m.state)
      × (after.state.source ≡ source)
      × Held (view after)
      × (after.armed ≡ true))
    ⊎ ((e : AppError) × (draft ≡ some e)
        × (m.state.revision ≡ revision)
        × (outcome ≡ (err e, back)))
    ⊎ ((e : AppError) × (draft ≡ some e)
        × (m.state.revision ≢ revision)
        × (a : A) × (outcome ≡ (ok a, record m { armed = true }))
        × Answers a m
        × (m.state.source ≡ source))

moved_on-at :
    (s : SessionState) (seq : ℕ) (revision : Text)
    → s.edit_seq ≡ seq
    → moved_on s seq revision ≡ not (text_eq s.revision revision)
unfolding moved_on
moved_on-at s seq revision newest = rw (newest, ==_refl seq) refl

-- The row that is written is newer than any that is there.
written_later :
    (now : ℕ) (source : Text) (seq : ℕ) (m : Note)
    → source ≡ m.state.source
    → seq ≡ m.state.edit_seq
    → ((r : DraftRow) → m.stores.draft ≡ some r → suc r.edit_seq ≤ seq)
    → Held (view (arm_idle_timer (write_draft now source seq m)))
unfolding arm_idle_timer write_draft
written_later now source seq m text newest older =
    let row = upsert_newer now seq source m.stores.draft older in
    record {
      row = upsert now source seq m.stores.draft;
      there = refl;
      text = ap (λ (r : DraftRow). r.raw_markdown) row ∙ text;
      newest = ap (λ (r : DraftRow). r.edit_seq) row ∙ newest;
    }

abbrev pub AnswersUpdate : Unit {0} → Note → Type 0
AnswersUpdate a m = Unit

pub settle_update-Outcomes :
    (now : ℕ) (draft : Option AppError) (p : PendingEdit BufferedEditRollback) (m : Note)
    → p.snapshot ≡ m.state.source
    → p.seq ≡ m.state.edit_seq
    → ((r : DraftRow) → m.stores.draft ≡ some r → suc r.edit_seq ≤ p.seq)
    → Outcomes AnswersUpdate draft
        (settle_update now draft p m)
        p.snapshot
        p.previous.revision
        m
        (record m { state = restore_buffered p.previous m.state })
unfolding settle_update
settle_update-Outcomes now none p m text newest older = inl (
  refl,
  tt,
  arm_idle_timer (write_draft now p.snapshot p.seq m),
  refl,
  tt,
  unfold arm_idle_timer write_draft in refl,
  unfold arm_idle_timer write_draft in sym text,
  written_later now p.snapshot p.seq m text newest older,
  unfold arm_idle_timer in refl,
)
settle_update-Outcomes now (some e) p m text newest older =
    let moved = moved_on-at m.state p.seq p.previous.revision (sym newest) in
    elim (Bool-cases (text_eq m.state.revision p.previous.revision)) [
      | inl same ↦ inr (inl (e, refl, text_eq→eq _ _ same, rw (moved, same) refl))
      | inr other ↦ inr (
          inr (
            e,
            refl,
            (λ same. cc (
              other,
              ap (λ t. text_eq t p.previous.revision) same,
              text_eq_refl p.previous.revision,
            )),
            tt,
            rw (moved, other) (unfold arm_idle_timer in refl),
            tt,
            sym text,
          ))
    ]

abbrev pub AnswersEdit : {U : Type 0} → U → (NoteState × U) → Note → Type 0
AnswersEdit result a m = (a.0 ≡ note_state_from m.state) × (a.1 ≡ result)

pub settle_structural-Outcomes :
    {U : Type 0} (now : ℕ) (draft : Option AppError) (p : PendingEdit StructuralEditRollback)
    (result : U) (m : Note)
    → p.snapshot ≡ m.state.source
    → p.seq ≡ m.state.edit_seq
    → ((r : DraftRow) → m.stores.draft ≡ some r → suc r.edit_seq ≤ p.seq)
    → Outcomes
        (AnswersEdit result)
        draft
        (settle_structural now draft p result m)
        p.snapshot
        p.previous.revision
        m
        (record m { state = restore_structural p.previous m.state })
unfolding settle_structural
settle_structural-Outcomes now none p result m text newest older = inl (
  refl,
  (note_state_from m.state, result),
  arm_idle_timer (write_draft now p.snapshot p.seq m),
  unfold arm_idle_timer write_draft in refl,
  unfold arm_idle_timer write_draft in (refl, refl),
  unfold arm_idle_timer write_draft in refl,
  unfold arm_idle_timer write_draft in sym text,
  written_later now p.snapshot p.seq m text newest older,
  unfold arm_idle_timer in refl,
)
settle_structural-Outcomes now (some e) p result m text newest older =
    let moved = moved_on-at m.state p.seq p.previous.revision (sym newest) in
    elim (Bool-cases (text_eq m.state.revision p.previous.revision)) [
      | inl same ↦ inr (inl (e, refl, text_eq→eq _ _ same, rw (moved, same) refl))
      | inr other ↦ inr (
          inr (
            e,
            refl,
            (λ same. cc (
              other,
              ap (λ t. text_eq t p.previous.revision) same,
              text_eq_refl p.previous.revision,
            )),
            (note_state_from m.state, result),
            rw (moved, other) (unfold arm_idle_timer in refl),
            (refl, refl),
            sym text,
          ))
    ]
