-- ===== src/Persist/Open/Closing.antt =====
-- A close loses nothing, and is a refusal or complete.
use burlmd.Prelude.{
  ℕ, ◌≤◌, ◌≡◌, refl, sym, ap, ◌∙◌, ◌⊎◌, inl, inr, Bool, true, false, ◌||◌, Option, none, some,
  Bool-cases, if◌then◌else◌, subst, arith,
}
use burlmd.Prelude.Text.{Text}
use burlmd.Error.{AppError, Result, ok, err, ok_inj}
use burlmd.Persist.{Bytes, utf8_bytes, Core, DraftRow, Note, WrittenThrough}
use burlmd.Persist.Session.{cleared, clear_draft_through}
use burlmd.Persist.Write.{WriteAnswers, covered, flush_covering}
use burlmd.Persist.Write.Baseline.{flush_open, flush_covering-cases}
use burlmd.Persist.Open.{
  is_not_found, CloseOutcome, Close, retire, clear_stage, finish_close, close_after,
  close_with_outcome,
}
use burlmd.Persist.Steps.Writes.{cleared_older}
use burlmd.Persist.Refinement.{Document}
use burlmd.Persist.Refinement.Simulation.{Good}
use burlmd.Persist.Refinement.Kept.{Wrote-file, flush-InStep}

-- The stores have the working source of a session.
abbrev pub IsStored : Note → Text → Type 0
IsStored m source =
    ((row : DraftRow) × (m.stores.draft ≡ some row) × (row.raw_markdown ≡ source))
    ⊎ ((m.stores.draft ≡ none) × (m.stores.file ≡ some (utf8_bytes source)))

-- A close that is refused leaves the session registered, open and silent; a complete one retires it.
abbrev pub IsWhole : Close → Note → Type 0
IsWhole c n =
    ((e : AppError) × (c.outcome ≡ err e)
      × (c.registered ≡ true)
      × (c.notified ≡ false)
      × (c.note.state.closed ≡ n.state.closed))
    ⊎ ((o : CloseOutcome) × (c.outcome ≡ ok o)
        × (c.registered ≡ false)
        × (c.note.state.closed ≡ true))

module _ (core : Core) (note_id : Text) (debug_error : AppError → Text) where
  Good-IsStored : (m : Note) → Good core m → IsStored m m.state.source
  Good-IsStored m good = elim good.saved [ inl h ↦ inl (h.row, h.there, h.text) | inr h ↦ inr h ]

  finish_close-IsWhole :
      (edited : Bool) (written : Option WrittenThrough) (file_vanished : Bool)
      (existed : Result Bool) (commit : Text → Result Bool) (clear : Option AppError) (m n : Note)
      → IsWhole
          (finish_close core note_id debug_error edited written file_vanished existed commit clear
            m)
          n
  unfolding finish_close retire
  finish_close-IsWhole edited written file_vanished existed commit clear m n =
      inr (_, refl, refl, refl)

  close_after-IsWhole :
      (edited : Bool) (existed : Result Bool) (commit : Text → Result Bool)
      (clear : Option AppError) (q : Result WrittenThrough × Note) (n : Note)
      → q.1.state.closed ≡ n.state.closed
      → IsWhole (close_after core note_id debug_error edited existed commit clear q) n
  unfolding close_after
  close_after-IsWhole edited existed commit clear (ok flushed, m) n live =
      finish_close-IsWhole edited (some flushed) false existed commit clear m n
  close_after-IsWhole edited existed commit clear (err e, m) n live =
      elim (Bool-cases (is_not_found e)) [
        | inl missing ↦
            rw (missing, close_after)
              (finish_close-IsWhole edited none true existed commit clear m n)
        | inr other ↦ rw (other, close_after) (inl (e, refl, refl, refl, live))
      ]

  -- What the last stages leave of the stores.
  finish_close-IsStored :
      (edited : Bool) (written : Option WrittenThrough) (file_vanished : Bool)
      (existed : Result Bool) (commit : Text → Result Bool) (clear : Option AppError) (m : Note)
      (source : Text)
      → IsStored m source
      → IsStored (clear_stage core note_id debug_error clear written m).1 source
      → let c =
          finish_close core note_id debug_error edited written file_vanished existed commit clear
            m in
        IsStored c.note source
  unfolding finish_close retire
  finish_close-IsStored edited written file_vanished existed commit clear m source before after =
      after

  clear_stage-IsStored :
      (clear : Option AppError) (flushed : WrittenThrough) (m : Note) (source : Text)
      → IsStored m source
      → m.stores.file ≡ some (utf8_bytes source)
      → ((row : DraftRow) → m.stores.draft ≡ some row → row.edit_seq ≤ flushed.seq)
      → IsStored (clear_stage core note_id debug_error clear (some flushed) m).1 source
  unfolding clear_stage clear_draft_through
  clear_stage-IsStored (some e) flushed m source before file covered_rows = before
  clear_stage-IsStored none flushed m source (inr (gone, _)) file covered_rows =
      inr (ap (cleared flushed.seq) gone ∙ unfold cleared in refl, file)
  clear_stage-IsStored none flushed m source (inl (row, there, _)) file covered_rows = inr (
    ap (cleared flushed.seq) there ∙ cleared_older flushed.seq row (covered_rows row there),
    file,
  )

  covered-seq :
      (seq : ℕ) (q : Result Text × Note) {w : WrittenThrough}
      → (covered core note_id seq q).0 ≡ ok w
      → w.seq ≡ seq
  unfolding covered
  covered-seq seq (ok revision, m) h = ap (λ (w : WrittenThrough). w.seq) (sym (ok_inj h))
  covered-seq seq (err e, m) h = cc h

  close_after-IsStored :
      (edited : Bool) (existed : Result Bool) (commit : Text → Result Bool)
      (clear : Option AppError) (q : Result WrittenThrough × Note) (source : Text)
      → q.1.state.source ≡ source
      → IsStored q.1 source
      → ((w : WrittenThrough)
          → q.0 ≡ ok w
          → (q.1.stores.file ≡ some (utf8_bytes source))
            × ((row : DraftRow) → q.1.stores.draft ≡ some row → row.edit_seq ≤ w.seq))
      → let c = close_after core note_id debug_error edited existed commit clear q in
        (c.note.state.source ≡ source) × IsStored c.note source
  unfolding close_after finish_close retire clear_stage clear_draft_through
  close_after-IsStored edited existed commit clear (ok w, m) source same stored wrote =
      let (file, rows) = wrote w refl in
      (kept clear, clear_stage-IsStored clear w m source stored file rows)
    where
      kept :
          (failed : Option AppError)
          → (clear_stage core note_id debug_error failed (some w) m).1.state.source ≡ source
      kept none = same
      kept (some e) = same
  close_after-IsStored edited existed commit clear (err e, m) source same stored wrote =
      elim (Bool-cases (is_not_found e)) [
        | inl missing ↦ rw (missing, close_after) (same, stored)
        | inr other ↦ rw (other, close_after) (same, stored)
      ]

  -- What a flush that answers has done.
  flushed :
      ((b b' : Bytes) → core.content_hash b ≡ core.content_hash b' → b ≡ b')
      → (now : ℕ) (a : WriteAnswers) (n : Note) → Good core n
      → let q = flush_covering core note_id now a n in
        (w : WrittenThrough)
        → q.0 ≡ ok w
        → (q.1.stores.file ≡ some (utf8_bytes n.state.source))
          × ((row : DraftRow) → q.1.stores.draft ≡ some row → row.edit_seq ≤ w.seq)
  flushed injective now a n good w h = elim (flush_covering-cases core note_id now a n) [
    | inl u ↦ elim u.why [
      | inl closed_before ↦ cc (closed_before, good.live)
      | inr (e, f) ↦ cc (f, h)
    ]
    | inr wrote ↦
        let (good', _) = flush-InStep core note_id injective now a n good in
        let answered =
          ap (λ (q : Result WrittenThrough × Note). q.0)
            (sym (flush_open core note_id now a n good.live))
          ∙ h in
        let seq = covered-seq n.state.edit_seq _ answered in
        (
          Wrote-file core note_id injective n _ wrote,
          λ row e. let r = good'.within row e in omega (arith, wrote.edit_seq, seq),
        )
  ]

  -- A close of a session in step, where the hash tells contents apart: it is refused with an error
  -- and the session stays registered, open, and unknown to the scheduler, or it is complete, with or
  -- without a warning, and the session is retired; and in every case, whichever stage failed, the
  -- draft row or else the file has exactly the working source.
  pub close_loses_nothing :
      ((b b' : Bytes) → core.content_hash b ≡ core.content_hash b' → b ≡ b')
      → (now : ℕ) (a : WriteAnswers) (existed : Result Bool) (commit : Text → Result Bool)
        (clear : Option AppError) (n : Note)
      → Good core n
      → let c = close_with_outcome core note_id debug_error now a existed commit clear n in
        IsWhole c n × (c.note.state.source ≡ n.state.source) × IsStored c.note n.state.source
  unfolding close_with_outcome
  close_loses_nothing injective now a existed commit clear n good =
      by_need (n.state.session_edited || n.state.unwritten)
    where
      by_need :
          (needed : Bool)
          → let c : Close =
              if needed
              then close_after core note_id debug_error n.state.session_edited existed commit clear
                  (flush_covering core note_id now a n)
              else finish_close core note_id debug_error n.state.session_edited none false existed
                  commit clear n in
            IsWhole c n × (c.note.state.source ≡ n.state.source) × IsStored c.note n.state.source
      by_need true =
          let q = flush_covering core note_id now a n in
          let (good', agree) = flush-InStep core note_id injective now a n good in
          let same = ap (λ (d : Document). d.text) agree in
          let stored = subst (IsStored q.1) same (Good-IsStored q.1 good') in
          let whole =
            close_after-IsStored n.state.session_edited existed commit clear q n.state.source same
              stored (flushed injective now a n good) in
          (
            close_after-IsWhole n.state.session_edited existed commit clear q n
                (good'.live ∙ sym good.live),
            whole.0,
            whole.1,
          )
      by_need false = (
        finish_close-IsWhole n.state.session_edited none false existed commit clear n n,
        unfold finish_close retire clear_stage in refl,
        unfold finish_close retire clear_stage in Good-IsStored n good,
      )
