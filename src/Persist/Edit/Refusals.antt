-- ===== src/Persist/Edit/Refusals.antt =====
-- An edit is all or nothing: what a refused one leaves, and what is refused.
use burlmd.Prelude.{ℕ, suc, ◌≡◌, refl, ◌⊎◌, inl, inr, false, Option, none, some, ==_refl, subst}
use burlmd.Prelude.Text.{Text, codes, text_eq_refl}
use burlmd.Prelude.Bytes.{byte_len}
use burlmd.Error.{AppError, ok, err, >>=-eq-ok, ok_inj}
use burlmd.Markdown.Spans.{BlockPath, BlockSpan, block, apply_buffered_edit}
use burlmd.Persist.{
  Core, SessionState, Note, NoteState, BufferedEditRollback, refuse_while_conflicted,
}
use burlmd.Persist.Session.{
  ok_or, ok_or-eq-ok, check_span, no_block, replace_range, write_draft, arm_idle_timer,
}
use burlmd.Persist.Edit.{
  PendingEdit, restore_buffered, restore_structural, moved_on, settle_update, settle_structural,
  container, begin_update, Planned, install_structural,
}

pub in_place_at :
    (seq : ℕ) (revision : Text) (s : SessionState)
    → s.edit_seq ≡ seq
    → s.revision ≡ revision
    → moved_on s seq revision ≡ false
unfolding moved_on
in_place_at seq revision s newest same = rw (newest, same, ==_refl seq, text_eq_refl revision) refl

module _ (core : Core) (note_id : Text) where
  -- An accepted edit of a Block: over its span the source is spliced.
  pub record Begun (path : BlockPath) (new : Text) (s s' : SessionState)
      (p : PendingEdit BufferedEditRollback) : Type 0 where
    pub focused : BlockSpan
    pub found : block s.spans path ≡ some focused
    pub spliced : s'.source ≡ replace_range s.source focused.source new
    pub undone : restore_buffered p.previous s' ≡ s
    pub previous : p.previous ≡ record {
      source = s.source;
      spans = s.spans;
      edit_seq = s.edit_seq;
      revision = s.revision;
      session_edited = s.session_edited;
      unwritten = s.unwritten;
    }
    pub in_place : moved_on s' p.seq p.previous.revision ≡ false
    pub closed : s'.closed ≡ s.closed
    pub conflicted : s'.conflicted ≡ s.conflicted
    pub revision : s'.revision ≡ s.revision
    pub awaiting : s'.awaiting_recreate ≡ s.awaiting_recreate

  pub begin_update-Begun :
      (path : BlockPath) (new : Text) (s : SessionState) {s' : SessionState}
      {p : PendingEdit BufferedEditRollback}
      → begin_update core note_id path new s ≡ ok (s', p)
      → Begun path new s s' p
  unfolding begin_update restore_buffered
  begin_update-Begun path new s {s'} {p} h =
      let (_, h1, _) =
        >>=-eq-ok _ (refuse_while_conflicted s note_id (codes "editing a Block")) h in
      let (b, h2, found) = >>=-eq-ok _ (ok_or (block s.spans path) (no_block core path)) h1 in
      let (_, h3, _) = >>=-eq-ok _ (check_span core s.source b.source) h2 in
      let (moved, h4, _) =
        >>=-eq-ok _
          (ok_or (apply_buffered_edit s.spans path (byte_len new)) (container core note_id path))
          h3 in
      subst (λ (q : SessionState × PendingEdit BufferedEditRollback). Begun path new s q.0 q.1)
        (ok_inj h4)
        (record {
          focused = b;
          found = ok_or-eq-ok (block s.spans path) (no_block core path) found;
          spliced = refl;
          undone = refl;
          previous = refl;
          in_place = in_place_at (suc s.edit_seq) s.revision _ refl refl;
          closed = refl;
          conflicted = refl;
          revision = refl;
          awaiting = refl;
        })

  -- What a settled edit of a Block comes to, by the database's answer.
  pub settle-Begun :
      (now : ℕ) (draft : Option AppError) (path : BlockPath) (new : Text) (n : Note)
      {s' : SessionState} {p : PendingEdit BufferedEditRollback}
      → Begun path new n.state s' p
      → ((e : AppError) × (draft ≡ some e)
          × (settle_update now draft p (record n { state = s' }) ≡ (err e, n)))
        ⊎ ((draft ≡ none)
            × (settle_update now draft p (record n { state = s' }) ≡ (
              ok tt,
              arm_idle_timer (write_draft now p.snapshot p.seq (record n { state = s' })),
            )))
  unfolding settle_update
  settle-Begun now none path new n b = inr (refl, refl)
  settle-Begun now (some e) path new n b =
      inl (e, refl, rw (b.in_place) (λ i. (err e, record n { state = b.undone i })))

  restore_install :
      {U : Type 0} (planned : Planned U) (s : SessionState)
      → let q = install_structural core note_id planned s in
        (restore_structural q.1.previous q.0 ≡ s)
        × (moved_on q.0 q.1.seq q.1.previous.revision ≡ false)
  unfolding install_structural restore_structural
  restore_install planned s = (refl, in_place_at (suc s.edit_seq) s.revision _ refl refl)

  pub settle_installed :
      {U : Type 0} (now : ℕ) (draft : Option AppError) (planned : Planned U) (n : Note)
      → let q = install_structural core note_id planned n.state in
        let at : Note = record n { state = q.0 } in
        ((e : AppError) × (draft ≡ some e)
          × (settle_structural now draft q.1 planned.result at ≡ (err e, n)))
        ⊎ ((shown : NoteState) × (draft ≡ none)
            × (settle_structural now draft q.1 planned.result at ≡ (
              ok (shown, planned.result),
              arm_idle_timer (write_draft now q.1.snapshot q.1.seq at),
            )))
  unfolding settle_structural
  settle_installed now none planned n = inr (_, refl, refl)
  settle_installed now (some e) planned n =
      let (undone, in_place) = restore_install planned n.state in
      inl (e, refl, rw in_place (λ i. (err e, record n { state = undone i })))
