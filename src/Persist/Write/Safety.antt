-- ===== src/Persist/Write/Safety.antt =====
-- A flush never overwrites what another program wrote, and its baseline stays that of the file.
use burlmd.Prelude.{
  ℕ, ◌≡◌, refl, sym, ap, ◌∙◌, ◌⊎◌, inl, inr, ◌≢◌, Bool, true, false, Option, none, some, Bool-cases,
}
use burlmd.Prelude.Text.{Text, text_eq, text_eq→eq}
use burlmd.Error.{revision_mismatch, ok, err, >>=-ok}
use burlmd.Persist.{Bytes, utf8_bytes, absent_file, Core, Note}
use burlmd.Persist.Write.{
  WriteAnswers, snapshot, read_file, on_disk, publish, write_locked, covered, record_error,
  flush_covering,
}
use burlmd.Persist.Write.Baseline.{Keeps, Wrote, looked, flush_open, flush_covering-cases}

-- The recorded baseline is the hash of the file, or the file is one that the session still owes.
abbrev pub IsBased : Core → Note → Type 0
IsBased core n =
    ((b : Bytes) × (n.stores.file ≡ some b) × (core.content_hash b ≡ n.state.revision))
    ⊎ ((n.stores.file ≡ none)
        × (n.state.awaiting_recreate ≡ true)
        × (core.content_hash absent_file ≡ n.state.revision))

module _ (core : Core) (note_id : Text) where
  -- A flush leaves the file as it is, or the file has the working source and had before it the
  -- contents whose hash is the recorded baseline, or there was none and the session owed one.
  pub flush_keeps_foreign :
      (now : ℕ) (a : WriteAnswers) (n : Note)
      → let m = (flush_covering core note_id now a n).1 in
        (m.stores.file ≡ n.stores.file)
        ⊎ ((m.stores.file ≡ some (utf8_bytes n.state.source)) × IsBased core n)
  flush_keeps_foreign now a n = elim (flush_covering-cases core note_id now a n) [
    | inl k ↦ inl k.keeps.file
    | inr w ↦ elim w.through.wrote [
      | inr (same, _, _) ↦ inl (w.now_file ∙ same)
      | inl new ↦ elim (looked core note_id _ _ _ w.through.looked) [
        | inl there ↦ inr (w.now_file ∙ new, inl (w.through.found, there, w.through.baseline))
        | inr (gone, owed, absent) ↦ inr (
          w.now_file ∙ new,
          inr (gone, owed, ap core.content_hash (sym absent) ∙ w.through.baseline),
        )
      ]
    ]
  ]

  Keeps-IsBased : (n m : Note) → Keeps n m → IsBased core n → IsBased core m
  Keeps-IsBased n m k (inl (b, there, hash)) = inl (b, k.file ∙ there, hash ∙ sym k.revision)
  Keeps-IsBased n m k (inr (gone, owed, hash)) =
      inr (k.file ∙ gone, k.awaiting ∙ owed, hash ∙ sym k.revision)

  Wrote-IsBased : (n m : Note) {read : Option Text} → Wrote core note_id n m read → IsBased core m
  Wrote-IsBased n m w = elim w.through.wrote [
    | inl new ↦
        inl (utf8_bytes n.state.source, w.now_file ∙ new, sym (w.now_revision ∙ w.through.rebased))
    | inr (same, live, hash) ↦ elim (looked core note_id _ _ _ w.through.looked) [
      | inl there ↦ inl (
        w.through.found,
        w.now_file ∙ (same ∙ there),
        hash ∙ sym (w.now_revision ∙ w.through.rebased),
      )
      | inr (gone, owed, absent) ↦ cc (live, owed)
    ]
  ]

  -- Where the baseline is that of the file, it is so after a flush, whichever of its stages fails:
  -- the file system or the database at the look, the directory, the write, the clearing of the
  -- draft row or the index.
  pub flush-IsBased :
      (now : ℕ) (a : WriteAnswers) (n : Note)
      → IsBased core n
      → IsBased core (flush_covering core note_id now a n).1
  flush-IsBased now a n based = elim (flush_covering-cases core note_id now a n) [
    | inl k ↦ Keeps-IsBased n _ k.keeps based
    | inr w ↦ Wrote-IsBased n _ w
  ]

  -- A file that another program changed is refused: an open session answers with the revision that
  -- is on disk, and nothing but the error that it reports has changed.
  pub flush_refuses_foreign :
      (now : ℕ) (a : WriteAnswers) (n : Note) (b : Bytes)
      → n.state.closed ≡ false
      → a.read ≡ none
      → n.stores.file ≡ some b
      → core.content_hash b ≢ n.state.revision
      → flush_covering core note_id now a n ≡ (
        err (revision_mismatch (core.content_hash b)),
        record_error (revision_mismatch (core.content_hash b)) n,
      )
  unfolding write_locked publish covered read_file on_disk
  flush_refuses_foreign now a n b live reads there other =
      flush_open core note_id now a n live ∙ ap (covered core note_id n.state.edit_seq) refusal
    where
      differs : text_eq (core.content_hash b) n.state.revision ≡ false
      differs = elim (Bool-cases (text_eq (core.content_hash b) n.state.revision)) [
        | inl e ↦ absurd (other (text_eq→eq _ _ e))
        | inr e ↦ e
      ]

      seen :
          (awaiting : Bool)
          → on_disk core note_id awaiting (read_file core note_id a.read n.stores.file) ≡ ok b
      seen awaiting = rw (reads, there) (by awaiting)
        where
          by : (w : Bool) → on_disk core note_id w (ok b) ≡ ok b
          by true = refl
          by false = refl

      refused :
          publish core note_id a (snapshot n.state) n.state.awaiting_recreate n.stores.file
          ≡ err (revision_mismatch (core.content_hash b))
      refused = >>=-ok _ (seen n.state.awaiting_recreate) ∙ rw differs refl

      refusal :
          write_locked core note_id now a (snapshot n.state) n
          ≡ (err (revision_mismatch (core.content_hash b)), n)
      refusal = rw (refused, write_locked) refl
