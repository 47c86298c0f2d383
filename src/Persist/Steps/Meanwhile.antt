-- ===== src/Persist/Steps/Meanwhile.antt =====
-- What may run on a session while the draft statement of an edit does.
use burlmd.Prelude.{ℕ, ◌≡◌, sym, ◌∙◌, inl, inr, some}
use burlmd.Persist.{Core, DraftRow, Note}
use burlmd.Prelude.Text.{Text}
use burlmd.Persist.Write.{WriteAnswers, flush_covering}
use burlmd.Persist.Write.Baseline.{flush_covering-cases}
use burlmd.Persist.Steps.Writes.{cleared-eq-some}

-- What runs meanwhile makes no edit and writes no draft row, as a write of tier 2 and a reparse do.
pub record LeavesEdits (meanwhile : Note → Note) : Type 0 where
  pub seq : (m : Note) → (meanwhile m).state.edit_seq ≡ m.state.edit_seq
  pub source : (m : Note) → (meanwhile m).state.source ≡ m.state.source
  pub rows :
      (m : Note) (r : DraftRow) → (meanwhile m).stores.draft ≡ some r → m.stores.draft ≡ some r

pub flush-LeavesEdits :
    (core : Core) (note_id : Text) (now : ℕ) (a : WriteAnswers)
    → LeavesEdits (λ m. (flush_covering core note_id now a m).1)
flush-LeavesEdits core note_id now a = record {
  seq = λ m. elim (flush_covering-cases core note_id now a m) [
    | inl k ↦ k.keeps.edit_seq
    | inr w ↦ w.edit_seq
  ];
  source = λ m. elim (flush_covering-cases core note_id now a m) [
    | inl k ↦ k.keeps.source
    | inr w ↦ w.source
  ];
  rows = λ m r e. elim (flush_covering-cases core note_id now a m) [
    | inl k ↦ sym k.row ∙ e
    | inr w ↦ elim w.row [
      | inl same ↦ sym same ∙ e
      | inr gone ↦ cleared-eq-some m.state.edit_seq m.stores.draft (sym gone ∙ e)
    ]
  ];
}
