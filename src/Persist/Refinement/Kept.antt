-- ===== src/Persist/Refinement/Kept.antt =====
-- A write, a reparse and a kill keep the text, whatever they do to the stores.
use burlmd.Prelude.{
  ℕ, ◌≡◌, refl, sym, ap, ◌∙◌, ◌⊎◌, inl, inr, true, false, not, Option, none, some, is_some,
  some_inj, subst, unwrap_or, arith, ap₂,
}
use burlmd.Prelude.Text.{Text, codes}
use burlmd.Workspace.Names.{containing_dir}
use burlmd.Error.{Result, ok, >>=-ok, Result-cases}
use burlmd.Markdown.Ast.{Nodes}
use burlmd.Persist.{Bytes, utf8_bytes, absent_file, Core, DraftRow, SessionState, Note}
use burlmd.Persist.Session.{cleared}
use burlmd.Persist.Edit.{commit_block, reparse_state}
use burlmd.Persist.Write.{WriteAnswers, flush_covering}
use burlmd.Persist.Write.Safety.{IsBased, flush-IsBased}
use burlmd.Persist.Write.Baseline.{Keeps, Wrote, looked, flush_covering-cases}
use burlmd.Persist.Steps.Invariant.{View, view, Held, IsWithin}
use burlmd.Persist.Steps.Writes.{cleared-eq-some, cleared_older}
use burlmd.Persist.Steps.Edits.{reparse_state-shape}
use burlmd.Persist.Open.{open_note, opened_state, restored}
use burlmd.Persist.Refinement.{reopened_note, document, kept_or, parsed_spans, reparsed_document}
use burlmd.Persist.Refinement.Simulation.{Good, InStep, kept_err, map_ok, map_ok->>=, not_refused}

module _ (core : Core) (note_id : Text) where
  pub Held-at :
      (v v' : View)
      → v'.row ≡ v.row
      → v'.source ≡ v.source
      → v'.edit_seq ≡ v.edit_seq
      → Held v
      → Held v'
  Held-at v v' row source seq h = record {
    row = h.row;
    there = row ∙ h.there;
    text = h.text ∙ sym source;
    newest = h.newest ∙ sym seq;
  }

  Keeps-Good :
      (n m : Note)
      → Keeps n m
      → m.stores.draft ≡ n.stores.draft
      → IsBased core m
      → Good core n
      → Good core m
  Keeps-Good n m k row based good = record {
    live = k.closed ∙ good.live;
    clear = k.conflicted ∙ good.clear;
    within = λ r e. let h = good.within r (sym row ∙ e) in omega (arith, k.edit_seq);
    saved = elim good.saved [
      | inl h ↦ inl (Held-at (view n) (view m) row k.source k.edit_seq h)
      | inr (gone, file) ↦
          inr (row ∙ gone, k.file ∙ (file ∙ ap (λ t. some (utf8_bytes t)) (sym k.source)))
    ];
    based = based;
  }

  module _ (injective : (b b' : Bytes) → core.content_hash b ≡ core.content_hash b' → b ≡ b') where
    -- The file after a write that reached it.
    pub Wrote-file :
        (n m : Note) {read : Option Text}
        → Wrote core note_id n m read
        → m.stores.file ≡ some (utf8_bytes n.state.source)
    Wrote-file n m w = elim w.through.wrote [
      | inl new ↦ w.now_file ∙ new
      | inr (same, live, hash) ↦ elim (looked core note_id _ _ _ w.through.looked) [
        | inl there ↦ w.now_file ∙ (same ∙ (there ∙ ap (λ b. some b) (injective _ _ hash)))
        | inr (gone, owed, absent) ↦ cc (live, owed)
      ]
    ]

    Wrote-Good :
        (n m : Note) {read : Option Text}
        → Wrote core note_id n m read
        → IsBased core m
        → Good core n
        → Good core m
    Wrote-Good n m w based good = record {
      live = w.closed ∙ good.live;
      clear = w.conflicted ∙ good.clear;
      within = λ r e. let h = good.within r (row_before r e w.row) in omega (arith, w.edit_seq);
      saved = saved_after w.row good.saved;
      based = based;
    }
      where
        file : m.stores.file ≡ some (utf8_bytes m.state.source)
        file = Wrote-file n m w ∙ ap (λ t. some (utf8_bytes t)) (sym w.source)

        row_before :
            (r : DraftRow)
            → m.stores.draft ≡ some r
            → ((m.stores.draft ≡ n.stores.draft)
                ⊎ (m.stores.draft ≡ cleared n.state.edit_seq n.stores.draft))
            → n.stores.draft ≡ some r
        row_before r e (inl same) = sym same ∙ e
        row_before r e (inr gone) = cleared-eq-some n.state.edit_seq n.stores.draft (sym gone ∙ e)

        saved_after :
            ((m.stores.draft ≡ n.stores.draft)
              ⊎ (m.stores.draft ≡ cleared n.state.edit_seq n.stores.draft))
            → (Held (view n)
                ⊎ ((n.stores.draft ≡ none) × (n.stores.file ≡ some (utf8_bytes n.state.source))))
            → Held (view m)
              ⊎ ((m.stores.draft ≡ none) × (m.stores.file ≡ some (utf8_bytes m.state.source)))
        saved_after (inl same) (inl h) = inl (Held-at (view n) (view m) same w.source w.edit_seq h)
        saved_after (inl same) (inr (none_left, _)) = inr (same ∙ none_left, file)
        saved_after (inr gone) (inl h) = inr (
          gone
              ∙ (ap (cleared n.state.edit_seq) h.there
                  ∙ cleared_older n.state.edit_seq h.row (omega (arith, h.newest))),
          file,
        )
        saved_after (inr gone) (inr (none_left, _)) =
            inr (gone ∙ (ap (cleared n.state.edit_seq) none_left ∙ unfold cleared in refl), file)

    pub flush-InStep :
        (now : ℕ) (a : WriteAnswers) (n : Note)
        → Good core n
        → InStep core note_id (flush_covering core note_id now a n).1 (document n.state)
    flush-InStep now a n good =
        let based = flush-IsBased core note_id now a n good.based in
        elim (flush_covering-cases core note_id now a n) [
          | inl k ↦ (
            Keeps-Good n _ k.keeps k.row based good,
            ap₂ (λ t sp. record { text = t; spans = sp }) k.keeps.source k.keeps.spans,
          )
          | inr w ↦ (
            Wrote-Good n _ w based good,
            ap₂ (λ t sp. record { text = t; spans = sp }) w.source w.spans,
          )
        ]

  reparse_state-reparsed :
      (links : Nodes → Result Nodes) (s : SessionState)
      → s.closed ≡ false
      → s.conflicted ≡ false
      → map_ok document (reparse_state core note_id links s)
        ≡ reparsed_document core note_id links (document s)
  unfolding reparse_state reparsed_document
  reparse_state-reparsed links s live clear =
      ap (map_ok document)
        (>>=-ok _ (not_refused core note_id s (codes "committing a Block") live clear))
      ∙ map_ok->>= document (links (core.parse_note s.source (containing_dir note_id)).0) _ _
          (λ ast. refl)

  pub commit-InStep :
      (links : Nodes → Result Nodes) (n : Note)
      → Good core n
      → InStep core note_id (commit_block core note_id links n).1 (
          kept_or none (document n.state) (reparsed_document core note_id links (document n.state)))
  unfolding commit_block
  commit-InStep links n good =
      let same = reparse_state-reparsed links n.state good.live good.clear in
      elim (Result-cases (reparse_state core note_id links n.state)) [
        | inl (e, h) ↦
            rw (h, commit_block)
              (good, kept_err none (document n.state) (sym same ∙ ap (map_ok document) h))
        | inr (s, h) ↦
            let (_, _, _, shape) = reparse_state-shape core note_id links n.state h in
            rw (h, commit_block)
              (
                subst (λ t. Good core (record n { state = t })) shape
                    (record {
                      live = good.live;
                      clear = good.clear;
                      within = good.within;
                      saved = good.saved;
                      based = good.based;
                    }),
                ap (kept_or none (document n.state)) (sym (sym same ∙ ap (map_ok document) h)),
              )
      ]

  -- What an open after a kill restores.
  record Restored (n : Note) : Type 0 where
    seq : ℕ
    found : restored core note_id n.stores.draft n.stores.file ≡ ok (n.state.source, seq)
    within : IsWithin n.stores.draft seq
    saved :
        Held (record (view n) { edit_seq = seq })
        ⊎ ((n.stores.draft ≡ none) × (n.stores.file ≡ some (utf8_bytes n.state.source)))

  Good-Restored : (n : Note) → Good core n → Restored n
  unfolding restored
  Good-Restored n good = elim good.saved [
    | inl h ↦ (record {
      seq = h.row.edit_seq;
      found = rw (h.there, h.text) refl;
      within = λ r e. omega (arith, ap (λ (t : DraftRow). t.edit_seq) (some_inj (sym h.there ∙ e)));
      saved = inl (record { row = h.row; there = h.there; text = h.text; newest = refl });
    })
    | inr (gone, file) ↦ (record {
      seq = 0;
      found = rw (gone, file) refl;
      within = λ r e. cc (gone, e);
      saved = inr (gone, file);
    })
  ]

  pub opened_based :
      (file : Option Bytes)
      → ((b : Bytes) × (file ≡ some b)
          × (core.content_hash b ≡ core.content_hash (unwrap_or file absent_file)))
        ⊎ ((file ≡ none)
            × (not (is_some file) ≡ true)
            × (core.content_hash absent_file ≡ core.content_hash (unwrap_or file absent_file)))
  opened_based none = inr (refl, refl, refl)
  opened_based (some b) = inl (b, refl, refl)

  pub crash-InStep :
      (mark : Nodes → Nodes) (mtime : ℕ) (n : Note)
      → Good core n
      → InStep core note_id
          (reopened_note
            (open_note core note_id (λ ast. ok (mark ast)) mtime none none none n.stores)
            n)
          (record { text = n.state.source; spans = parsed_spans core note_id n.state.source })
  unfolding open_note opened_state
  crash-InStep mark mtime n good =
      let r = Good-Restored n good in
      subst
        (λ o.
          InStep core note_id (reopened_note o n)
            (record { text = n.state.source; spans = parsed_spans core note_id n.state.source }))
        (sym (>>=-ok _ (>>=-ok _ r.found ∙ refl) ∙ refl))
        (
          record {
            live = refl;
            clear = refl;
            within = r.within;
            saved = elim r.saved [ inl h ↦ inl (Held-at _ _ refl refl refl h) | inr h ↦ inr h ];
            based = opened_based n.stores.file;
          },
          refl,
        )
