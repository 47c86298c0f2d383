-- ===== src/Persist/Write/Baseline.antt =====
-- Whatever stage of a write fails, the recorded baseline is that of the file.
use burlmd.Prelude.{
  ℕ, ◌≡◌, refl, sym, ap, ◌∙◌, ◌⊎◌, inl, inr, Bool, true, false, Option, none, some, Bool-cases,
  Option-cases, subst, if◌then◌else◌,
}
use burlmd.Prelude.Text.{Text}
use burlmd.Error.{AppError, Result, ok, err, ok_inj, Result-cases}
use burlmd.Persist.{DraftRow, Bytes, absent_file, Core, Note, WrittenThrough}
use burlmd.Persist.Session.{cleared, clear_draft_through}
use burlmd.Persist.Write.{
  WriteAnswers, snapshot, read_file, on_disk, publish, set_file, set_indexed, record_revision,
  settle_write, record_error, index_written_source, finish_write, write_locked, covered,
  flush_covering,
}
use burlmd.Persist.Write.Overwrites.{Published, publish-Published}

-- What the later stages of a write leave alone.
pub record Keeps (n m : Note) : Type 0 where
  pub file : m.stores.file ≡ n.stores.file
  pub revision : m.state.revision ≡ n.state.revision
  pub awaiting : m.state.awaiting_recreate ≡ n.state.awaiting_recreate
  pub source : m.state.source ≡ n.state.source
  pub spans : m.state.spans ≡ n.state.spans
  pub edit_seq : m.state.edit_seq ≡ n.state.edit_seq
  pub closed : m.state.closed ≡ n.state.closed
  pub conflicted : m.state.conflicted ≡ n.state.conflicted

Keeps-refl : (n : Note) → Keeps n n
Keeps-refl n = record {
  file = refl;
  revision = refl;
  awaiting = refl;
  source = refl;
  spans = refl;
  edit_seq = refl;
  closed = refl;
  conflicted = refl;
}

module _ (core : Core) (note_id : Text) where
  finish_write-Keeps :
      (now : ℕ) (a : WriteAnswers) (seq : ℕ) (revision : Text) (n : Note)
      → Keeps n (finish_write core note_id now a seq revision n).1
  unfolding finish_write set_indexed settle_write clear_draft_through
  finish_write-Keeps now a seq revision n = elim (Option-cases a.clear) [
    | inr (e, h) ↦ rw (h, finish_write) (Keeps-refl n)
    | inl h ↦ elim (Result-cases (index_written_source a.stored a.rows revision n.stores.indexed)) [
      | inl (e, k) ↦
          rw (h, k, finish_write)
            (record {
              file = refl;
              revision = refl;
              awaiting = refl;
              source = refl;
              spans = refl;
              edit_seq = refl;
              closed = refl;
              conflicted = refl;
            })
      | inr (indexed, k) ↦
          rw (h, k, finish_write)
            (record {
              file = refl;
              revision = refl;
              awaiting = refl;
              source = refl;
              spans = refl;
              edit_seq = refl;
              closed = refl;
              conflicted = refl;
            })
    ]
  ]

  finish_write-row :
      (now : ℕ) (a : WriteAnswers) (seq : ℕ) (revision : Text) (n : Note)
      → let m = (finish_write core note_id now a seq revision n).1 in
        (m.stores.draft ≡ n.stores.draft) ⊎ (m.stores.draft ≡ cleared seq n.stores.draft)
  unfolding finish_write set_indexed settle_write clear_draft_through
  finish_write-row now a seq revision n = elim (Option-cases a.clear) [
    | inr (e, h) ↦ rw (h, finish_write) (inl refl)
    | inl h ↦ elim (Result-cases (index_written_source a.stored a.rows revision n.stores.indexed)) [
      | inl (e, k) ↦ rw (h, k, finish_write) (inr refl)
      | inr (indexed, k) ↦ rw (h, k, finish_write) (inr refl)
    ]
  ]

  covered-row :
      (seq : ℕ) (q : Result Text × Note)
      → (covered core note_id seq q).1.stores.draft ≡ q.1.stores.draft
  unfolding covered record_error
  covered-row seq (ok revision, n) = refl
  covered-row seq (err e, n) = refl

  covered-Keeps : (seq : ℕ) (q : Result Text × Note) → Keeps q.1 (covered core note_id seq q).1
  unfolding covered record_error
  covered-Keeps seq (ok revision, n) = Keeps-refl n
  covered-Keeps seq (err e, n) = record {
    file = refl;
    revision = refl;
    awaiting = refl;
    source = refl;
    spans = refl;
    edit_seq = refl;
    closed = refl;
    conflicted = refl;
  }

  -- What a look at the file has found.
  pub looked :
      (awaiting : Bool) (read : Option Text) (file : Option Bytes) {found : Bytes}
      → on_disk core note_id awaiting (read_file core note_id read file) ≡ ok found
      → (file ≡ some found) ⊎ ((file ≡ none) × (awaiting ≡ true) × (found ≡ absent_file))
  unfolding on_disk read_file
  looked true (some m) file h = cc h
  looked false (some m) file h = cc h
  looked true none none h = inr (refl, refl, sym (ok_inj h))
  looked false none none h = cc h
  looked true none (some b) h = inl (cc h)
  looked false none (some b) h = inl (cc h)

  -- A write that reached the file.
  pub record Wrote (n m : Note) (read : Option Text) : Type 0 where
    pub revision : Text
    pub file : Option Bytes
    pub through :
        Published core note_id
          (snapshot n.state)
          n.state.awaiting_recreate
          read
          n.stores.file
          revision
          file
    pub now_file : m.stores.file ≡ file
    pub now_revision : m.state.revision ≡ revision
    pub now_awaiting : m.state.awaiting_recreate ≡ false
    pub source : m.state.source ≡ n.state.source
    pub spans : m.state.spans ≡ n.state.spans
    pub edit_seq : m.state.edit_seq ≡ n.state.edit_seq
    pub closed : m.state.closed ≡ n.state.closed
    pub conflicted : m.state.conflicted ≡ n.state.conflicted
    pub row :
        (m.stores.draft ≡ n.stores.draft)
        ⊎ (m.stores.draft ≡ cleared n.state.edit_seq n.stores.draft)

  -- A write that stopped before the file.
  record Stopped (n : Note) (q : Result Text × Note) : Type 0 where
    keeps : Keeps n q.1
    row : q.1.stores.draft ≡ n.stores.draft
    failed : (e : AppError) × (q.0 ≡ err e)

  write_locked-cases :
      (now : ℕ) (a : WriteAnswers) (n : Note)
      → let q = write_locked core note_id now a (snapshot n.state) n in
        Stopped n q ⊎ Wrote n q.1 a.read
  unfolding write_locked set_file record_revision
  write_locked-cases now a n =
      elim (Result-cases
        (publish core note_id a (snapshot n.state) n.state.awaiting_recreate n.stores.file)) [
          | inl (e, h) ↦ inl (
              rw (h, write_locked)
                (record { keeps = Keeps-refl n; row = refl; failed = (e, refl) }))
          | inr ((revision, file), h) ↦
              let at = record_revision revision (set_file file n) in
              let kept = finish_write-Keeps now a n.state.edit_seq revision at in
              inr (
                rw (h, write_locked)
                  (record {
                    revision = revision;
                    file = file;
                    through = publish-Published core note_id a (snapshot n.state) _ _ h;
                    now_file = kept.file;
                    now_revision = kept.revision;
                    now_awaiting = kept.awaiting;
                    source = kept.source;
                    spans = kept.spans;
                    edit_seq = kept.edit_seq;
                    closed = kept.closed;
                    conflicted = kept.conflicted;
                    row = finish_write-row now a n.state.edit_seq revision at;
                  }))
        ]

  then_same :
      {row row' rows : Option DraftRow} (seq : ℕ)
      → row' ≡ row
      → ((row ≡ rows) ⊎ (row ≡ cleared seq rows))
      → (row' ≡ rows) ⊎ (row' ≡ cleared seq rows)
  then_same seq same (inl e) = inl (same ∙ e)
  then_same seq same (inr e) = inr (same ∙ e)

  Keeps-then : {n m k : Note} → Keeps n m → Keeps m k → Keeps n k
  Keeps-then p q = record {
    file = q.file ∙ p.file;
    revision = q.revision ∙ p.revision;
    awaiting = q.awaiting ∙ p.awaiting;
    source = q.source ∙ p.source;
    spans = q.spans ∙ p.spans;
    edit_seq = q.edit_seq ∙ p.edit_seq;
    closed = q.closed ∙ p.closed;
    conflicted = q.conflicted ∙ p.conflicted;
  }

  Wrote-then :
      {n m k : Note} {read : Option Text}
      → Wrote n m read
      → Keeps m k
      → k.stores.draft ≡ m.stores.draft
      → Wrote n k read
  Wrote-then w q same = record {
    revision = w.revision;
    file = w.file;
    through = w.through;
    now_file = q.file ∙ w.now_file;
    now_revision = q.revision ∙ w.now_revision;
    now_awaiting = q.awaiting ∙ w.now_awaiting;
    source = q.source ∙ w.source;
    spans = q.spans ∙ w.spans;
    edit_seq = q.edit_seq ∙ w.edit_seq;
    closed = q.closed ∙ w.closed;
    conflicted = q.conflicted ∙ w.conflicted;
    row = then_same _ same w.row;
  }

  pub flush_open :
      (now : ℕ) (a : WriteAnswers) (n : Note)
      → n.state.closed ≡ false
      → flush_covering core note_id now a n
        ≡ covered core note_id n.state.edit_seq
            (write_locked core note_id now a (snapshot n.state) n)
  unfolding flush_covering
  flush_open now a n live =
      ap
        (λ c.
          if c
          then (ok (record { revision = n.state.revision; seq = n.state.edit_seq }), n)
          else covered core note_id n.state.edit_seq
              (write_locked core note_id now a (snapshot n.state) n))
        live

  flush_closed :
      (now : ℕ) (a : WriteAnswers) (n : Note)
      → n.state.closed ≡ true
      → flush_covering core note_id now a n
        ≡ (ok (record { revision = n.state.revision; seq = n.state.edit_seq }), n)
  unfolding flush_covering
  flush_closed now a n closed =
      ap
        (λ c.
          if c
          then (ok (record { revision = n.state.revision; seq = n.state.edit_seq }), n)
          else covered core note_id n.state.edit_seq
              (write_locked core note_id now a (snapshot n.state) n))
        closed

  -- A flush that left the file and the baseline: the session was closed, or it failed.
  pub record Untouched (n : Note) (q : Result WrittenThrough × Note) : Type 0 where
    pub keeps : Keeps n q.1
    pub row : q.1.stores.draft ≡ n.stores.draft
    pub why : (n.state.closed ≡ true) ⊎ ((e : AppError) × (q.0 ≡ err e))

  covered-Untouched :
      (n : Note) (seq : ℕ) (q : Result Text × Note)
      → Stopped n q
      → Untouched n (covered core note_id seq q)
  unfolding covered record_error
  covered-Untouched n seq (ok revision, m) s = let (e, failed) = s.failed in cc failed
  covered-Untouched n seq (err e, m) s = record {
    keeps = Keeps-then s.keeps (covered-Keeps seq (err e, m));
    row = covered-row seq (err e, m) ∙ s.row;
    why = inr (e, refl);
  }

  -- A flush is one or the other.
  pub flush_covering-cases :
      (now : ℕ) (a : WriteAnswers) (n : Note)
      → let q = flush_covering core note_id now a n in Untouched n q ⊎ Wrote n q.1 a.read
  flush_covering-cases now a n = elim (Bool-cases n.state.closed) [
    | inl e ↦ inl (
        subst (Untouched n) (sym (flush_closed now a n e))
          (record { keeps = Keeps-refl n; row = refl; why = inl e }))
    | inr e ↦
        let q = write_locked core note_id now a (snapshot n.state) n in
        let opened = sym (flush_open now a n e) in
        elim (write_locked-cases now a n) [
          | inl k ↦ inl (subst (Untouched n) opened (covered-Untouched n n.state.edit_seq q k))
          | inr w ↦ inr (
              subst (λ (r : Result WrittenThrough × Note). Wrote n r.1 a.read) opened
                (Wrote-then w (covered-Keeps n.state.edit_seq q) (covered-row n.state.edit_seq q)))
        ]
  ]
