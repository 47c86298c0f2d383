-- ===== src/Persist/Refinement/Simulation.antt =====
-- Each command keeps the session in step with its text.
use burlmd.Prelude.{
  ◌≡◌, refl, sym, ap, ap₂, ◌∙◌, ◌⊎◌, inl, inr, false, Option, none, some, some_inj, subst, arith,
}
use burlmd.Prelude.Text.{Text, codes}
use burlmd.Error.{AppError, Result, ok, err, ◌>>=◌, >>=-ok}
use burlmd.Markdown.Ast.{Nodes}
use burlmd.Markdown.Spans.{BlockPath, block, apply_buffered_edit}
use burlmd.Prelude.Bytes.{byte_len}
use burlmd.Persist.Session.{ok_or, check_span, no_block}
use burlmd.Workspace.Names.{containing_dir}
use burlmd.Persist.{
  utf8_bytes, Core, DraftRow, SessionState, Note, NoteState, BufferedEditRollback,
  refuse_while_conflicted,
}
use burlmd.Persist.Edit.{
  PendingEdit, container, begin_update, update_block, EditFunction, DeriveFunction, Planned,
  plan_structural, structural_edit_with_result,
}
use burlmd.Persist.Write.Safety.{IsBased}
use burlmd.Persist.Steps.Invariant.{View, view, Held, IsWithin}
use burlmd.Persist.Steps.AllOrNothing.{
  Framed, update_block_all_or_nothing, structural_edit_all_or_nothing,
}
use burlmd.Persist.Refinement.{
  Answers, Document, document, kept_or, typed_document, edited_document,
}

-- A session in step: it is live, and its draft row or its file has the source.
pub record Good (core : Core) (n : Note) : Type 0 where
  pub live : n.state.closed ≡ false
  pub clear : n.state.conflicted ≡ false
  pub within : IsWithin n.stores.draft n.state.edit_seq
  pub saved :
      Held (view n) ⊎ ((n.stores.draft ≡ none) × (n.stores.file ≡ some (utf8_bytes n.state.source)))
  pub based : IsBased core n

pub Held-IsWithin : (v : View) → Held v → IsWithin v.row v.edit_seq
Held-IsWithin v h r e =
    omega (arith, h.newest, ap (λ (t : DraftRow). t.edit_seq) (some_inj (sym h.there ∙ e)))

kept_some :
    {draft : Option AppError} (e : AppError) (d : Document) (r : Result Document)
    → draft ≡ some e
    → d ≡ kept_or draft d r
kept_some e d (ok new) h = ap (λ a. kept_or a d (ok new)) (sym h)
kept_some e d (err why) h = ap (λ a. kept_or a d (err why)) (sym h)

pub kept_err :
    (draft : Option AppError) (d : Document) {e : AppError} {r : Result Document}
    → r ≡ err e
    → d ≡ kept_or draft d r
kept_err none d h = rw h refl
kept_err (some e) d h = rw h refl

-- What an outcome has of a document.
abbrev pub map_ok : {A B : Type 0} → (A → B) → Result A → Result B
map_ok f (ok a) = ok (f a)
map_ok f (err e) = err e

pub map_ok->>= :
    {X A B : Type 0} (f : A → B) (o : Result X) (next : X → Result A) (next' : X → Result B)
    → ((x : X) → map_ok f (next x) ≡ next' x)
    → map_ok f (o >>= next) ≡ (o >>= next')
map_ok->>= f (ok x) next next' h = h x
map_ok->>= f (err e) next next' h = refl

abbrev planned_document : {U : Type 0} → Planned U → Document
planned_document planned = record { text = planned.source; spans = planned.spans }

abbrev begun_document : SessionState × PendingEdit BufferedEditRollback → Document
begun_document q = document q.0

module _ (core : Core) (note_id : Text) where
  pub not_refused :
      (s : SessionState) (what : Text)
      → s.closed ≡ false
      → s.conflicted ≡ false
      → refuse_while_conflicted s note_id what ≡ ok tt
  unfolding refuse_while_conflicted
  not_refused s what live clear = rw (live, clear) refl

  plan-edited_document :
      {T U : Type 0} (links : Nodes → Result Nodes) (edit : EditFunction T)
      (derive : DeriveFunction T U) (s : SessionState)
      → s.closed ≡ false
      → s.conflicted ≡ false
      → map_ok planned_document (plan_structural core note_id links edit derive s)
        ≡ edited_document core note_id links edit derive (document s)
  unfolding plan_structural edited_document
  plan-edited_document {T} {U} links edit derive s live clear =
      let p = core.parse_note s.source (containing_dir note_id) in
      ap (map_ok planned_document) (>>=-ok _ (not_refused s (codes "a structural edit") live clear))
      ∙ map_ok->>= planned_document (edit s.source p.1 p.0 s.spans) _ _ (λ q.
        map_ok->>= planned_document (links (core.parse_note q.0 (containing_dir note_id)).0) _ _
          (λ ast.
            map_ok->>= planned_document
              (derive q.0 (core.parse_note q.0 (containing_dir note_id)).1 ast q.1) _ _
              (λ d. refl)))

  begin_update-typed_document :
      (path : BlockPath) (new : Text) (s : SessionState)
      → s.closed ≡ false
      → s.conflicted ≡ false
      → map_ok begun_document (begin_update core note_id path new s)
        ≡ typed_document core note_id path new (document s)
  unfolding begin_update typed_document
  begin_update-typed_document path new s live clear =
      ap (map_ok begun_document) (>>=-ok _ (not_refused s (codes "editing a Block") live clear))
      ∙ map_ok->>= begun_document (ok_or (block s.spans path) (no_block core path)) _ _ (λ b.
        map_ok->>= begun_document (check_span core s.source b.source) _ _ (λ _.
          map_ok->>= begun_document
            (ok_or (apply_buffered_edit s.spans path (byte_len new)) (container core note_id path))
            _ _ (λ moved. refl)))

  Framed-IsBased : (n m : Note) → Framed n m → IsBased core n → IsBased core m
  Framed-IsBased n m f (inl (b, there, hash)) = inl (b, f.file ∙ there, hash ∙ sym f.revision)
  Framed-IsBased n m f (inr (gone, owed, hash)) =
      inr (f.file ∙ gone, f.awaiting ∙ owed, hash ∙ sym f.revision)

  abbrev pub InStep : Note → Document → Type 0
  InStep m d = Good core m × (document m.state ≡ d)

  -- A refused edit and an accepted one, which has the text in the draft row.
  refused-InStep :
      (n m : Note) (d : Document) → m ≡ n → document n.state ≡ d → Good core n → InStep m d
  refused-InStep n m d back same good =
      (subst (Good core) (sym back) good, ap (λ (k : Note). document k.state) back ∙ same)

  accepted-Good : (n m : Note) → Framed n m → Held (view m) → Good core n → Good core m
  accepted-Good n m framed held good = record {
    live = framed.closed ∙ good.live;
    clear = framed.conflicted ∙ good.clear;
    within = Held-IsWithin _ held;
    saved = inl held;
    based = Framed-IsBased n m framed good.based;
  }

  accepted-InStep :
      {A : Type 0} (n m : Note) (q : A × Note) (a : A) {draft : Option AppError}
      {spec : Result Document}
      → q ≡ (a, m)
      → Framed n m
      → Held (view m)
      → draft ≡ none
      → spec ≡ ok (document m.state)
      → Good core n
      → InStep q.1 (kept_or draft (document n.state) spec)
  accepted-InStep n m q a out framed held stored made good =
      let to = ap (λ (r : _ × Note). r.1) out in
      (
        subst (Good core) (sym to) (accepted-Good n m framed held good),
        ap (λ (k : Note). document k.state) to
            ∙ ap₂ (λ d r. kept_or d (document n.state) r) (sym stored) (sym made),
      )

  pub update-InStep :
      (a : Answers) (path : BlockPath) (new : Text) (n : Note)
      → Good core n
      → InStep (update_block core note_id a.now a.draft (λ m. m) path new n).1 (
          kept_or a.draft
            (document n.state)
            (typed_document core note_id path new (document n.state)))
  update-InStep a path new n good =
      let same = begin_update-typed_document path new n.state good.live good.clear in
      elim (update_block_all_or_nothing core note_id a.now a.draft path new n good.within) [
        | inl (e, inl failed, out) ↦
            refused-InStep n _ _ (ap (λ (q : Result _ × Note). q.1) out) (kept_some e _ _ failed)
              good
        | inl (e, inr failed, out) ↦
            refused-InStep n _ _ (ap (λ (q : Result _ × Note). q.1) out)
              (kept_err a.draft _ (sym same ∙ ap (map_ok begun_document) failed)) good
        | inr done ↦
            accepted-InStep n done.note _ _ done.answer done.framed done.held done.stored
              (sym same ∙ ap (map_ok begun_document) done.made) good
      ]

  pub edit-InStep :
      {T U : Type 0} (a : Answers) (edit : EditFunction T) (derive : DeriveFunction T U) (n : Note)
      → Good core n
      → InStep
          (structural_edit_with_result core note_id a.now a.draft (λ m. m) a.links edit derive n).1
          (kept_or a.draft
            (document n.state)
            (edited_document core note_id a.links edit derive (document n.state)))
  edit-InStep a edit derive n good =
      let same = plan-edited_document a.links edit derive n.state good.live good.clear in
      elim (structural_edit_all_or_nothing core note_id a.now a.draft a.links edit derive n
        good.within) [
          | inl (e, inl failed, out) ↦
              refused-InStep n _ _ (ap (λ (q : Result (NoteState × _) × Note). q.1) out)
                (kept_some e _ _ failed) good
          | inl (e, inr failed, out) ↦
              refused-InStep n _ _ (ap (λ (q : Result (NoteState × _) × Note). q.1) out)
                (kept_err a.draft _ (sym same ∙ ap (map_ok planned_document) failed)) good
          | inr done ↦
              accepted-InStep n done.note _ _ done.answer done.framed done.held done.stored
                (sym same
                  ∙ (ap (map_ok planned_document) done.made
                      ∙ ap₂ (λ t sp. ok (record { text = t; spans = sp })) (sym done.source)
                          (sym done.spans)))
                good
        ]
