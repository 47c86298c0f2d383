-- ===== src/Persist/Refinement/Opened.antt =====
-- An open that succeeds has a session in step.
use burlmd.Prelude.{
  ℕ, ◌≡◌, refl, ap, inl, inr, Bool, Option, none, some, is_some, some_inj, subst, arith,
}
use burlmd.Prelude.Text.{Text}
use burlmd.Error.{Result, ok, >>=-eq-ok, ok_inj}
use burlmd.Markdown.Ast.{Nodes}
use burlmd.Workspace.Names.{containing_dir}
use burlmd.Persist.{Bytes, Core, DraftRow, SessionState, Stores, Note, NoteState}
use burlmd.Persist.Open.{open_note, opened_state, restored}
use burlmd.Persist.Refinement.Simulation.{Good}
use burlmd.Persist.{utf8, malformed}
use burlmd.Persist.Refinement.Kept.{opened_based}

module _ (core : Core) (note_id : Text) where
  opened_state-Good :
      (links : Nodes → Result Nodes) (mtime : ℕ) (row : Option DraftRow) (file : Option Bytes)
      (indexed : Option Text) (armed : Bool) {s : SessionState}
      → opened_state core note_id links mtime row file ≡ ok s
      → Good core (record {
        state = s;
        stores = record { file = file; draft = row; indexed = indexed };
        armed = armed;
      })
  unfolding opened_state restored
  opened_state-Good links mtime (some row) file indexed armed h =
      let (ast, h1, _) =
        >>=-eq-ok _ (links (core.parse_note row.raw_markdown (containing_dir note_id)).0) h in
      subst
        (λ t. Good core (record {
          state = t;
          stores = record { file = file; draft = some row; indexed = indexed };
          armed = armed;
        }))
        (ok_inj h1)
        (record {
          live = refl;
          clear = refl;
          within = λ r e. omega (arith, ap (λ (t : DraftRow). t.edit_seq) (some_inj e));
          saved = inl (record { row = row; there = refl; text = refl; newest = refl });
          based = opened_based core note_id file;
        })
  opened_state-Good links mtime none none indexed armed h = cc h
  opened_state-Good links mtime none (some (malformed b)) indexed armed h = cc h
  opened_state-Good links mtime none (some (utf8 t)) indexed armed h =
      let (ast, h1, _) = >>=-eq-ok _ (links (core.parse_note t (containing_dir note_id)).0) h in
      subst
        (λ t'. Good core (record {
          state = t';
          stores = record { file = some (utf8 t); draft = none; indexed = indexed };
          armed = armed;
        }))
        (ok_inj h1)
        (record {
          live = refl;
          clear = refl;
          within = λ r e. cc e;
          saved = inr (refl, refl);
          based = opened_based core note_id (some (utf8 t));
        })

  pub opened-Good :
      (links : Nodes → Result Nodes) (mtime : ℕ) (stores : Stores) {n : Note} {shown : NoteState}
      → open_note core note_id links mtime none none none stores ≡ ok (n, shown)
      → Good core n
  unfolding open_note
  opened-Good links mtime stores h =
      let (s, h1, reached) =
        >>=-eq-ok _ (opened_state core note_id links mtime stores.draft stores.file) h in
      subst (λ (q : Note × NoteState). Good core q.0) (ok_inj h1)
        (opened_state-Good links mtime stores.draft stores.file stores.indexed
          (is_some stores.draft) reached)
