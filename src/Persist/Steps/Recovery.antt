-- ===== src/Persist/Steps/Recovery.antt =====
-- In every reachable state the working source is recoverable, and the status tells the truth.
use burlmd.Prelude.{ℕ, ◌≡◌, refl, sym, ap, inl, Option, none, some, some_inj, subst, arith}
use burlmd.Prelude.Text.{Text}
use burlmd.Markdown.Ast.{Nodes}
use burlmd.Error.{Result, ok, >>=-eq-ok, ok_inj}
use burlmd.Workspace.Names.{containing_dir}
use burlmd.Persist.{
  Bytes, utf8, malformed, utf8_bytes, from_utf8, Core, SessionState, DraftRow, Stores, Note,
  NoteState,
}
use burlmd.Persist.Session.{ok_or, ok_or-eq-ok, write_draft, clear_draft_through, arm_idle_timer}
use burlmd.Persist.Write.{
  set_file, set_indexed, record_revision, settle_write, record_error, Loaded, load, install_loaded,
  read_file, malformed_source,
}
use burlmd.Persist.Edit.{settle_update, settle_structural, restore_buffered, restore_structural}
use burlmd.Persist.Edit.Refusals.{in_place_at}
use burlmd.Persist.Write.{Covering, snapshot}
use burlmd.Error.{AppError}
use burlmd.Prelude.{inr, ◌≢◌, not, ◌||◌, Bool, true, false}
use burlmd.Persist.Open.{open_note, opened_state, restored}
use burlmd.Persist.Steps.{
  Rollback, buffered, structural, is_idle, overlapped, refuse, taken, Stage, idle, Draft, System,
  Step, typed, edited, drafted, draft_refused, reparsed, snapshotted, refused, published, rebased,
  row_gone, row_kept, not_indexed, settled, reloaded, foreign, Reach, opened, then_step,
}
use burlmd.Persist.Steps.Invariant.{
  before_of, undone, View, AloneInv, Whole, view_of, InvAt, Inv, view,
}
use burlmd.Persist.Steps.Edits.{
  begin_update-Began, install_structural-Began, Began, Began-AloneInv, Began-InvAt,
  reparse_state-view, drafted-InvAt,
}
use burlmd.Persist.Steps.Writes.{
  rebased-InvAt, row_gone-InvAt, settled-InvAt, stopped-InvAt, from_file-InvAt,
}
use burlmd.Persist.Write.Overwrites.{publish-Published}
use burlmd.Prelude.{unwrap_or}
use burlmd.Persist.Conflicts.{conflict_suggestions}

module _ (core : Core) (note_id : Text) where
  from_utf8-utf8_bytes : (b : Bytes) {s : Text} → from_utf8 b ≡ some s → b ≡ utf8_bytes s
  from_utf8-utf8_bytes (utf8 t) e = cc
  from_utf8-utf8_bytes (malformed t) e = cc

  -- A text that is loaded is published: its baseline is the hash of the bytes that it was read from.
  load-IsPublished :
      (links : Nodes → Result Nodes) (mtime : ℕ) (read : Option Text) (file : Option Bytes)
      {loaded : Loaded}
      → load core note_id links mtime read file ≡ ok loaded
      → loaded.revision ≡ core.content_hash (utf8_bytes loaded.source)
  unfolding load
  load-IsPublished links mtime read file h =
      let (bytes, h1, _) = >>=-eq-ok _ (read_file core note_id read file) h in
      let (source, h2, decoded) =
        >>=-eq-ok _ (ok_or (from_utf8 bytes) (malformed_source core note_id)) h1 in
      let collapsed = conflict_suggestions core (containing_dir note_id) source in
      let (ast, h3, _) =
        >>=-eq-ok _
          (links (unwrap_or collapsed (core.parse_note source (containing_dir note_id)).0)) h2 in
      let same =
        from_utf8-utf8_bytes bytes
          (ok_or-eq-ok (from_utf8 bytes) (malformed_source core note_id) decoded) in
      subst (λ (l : Loaded). l.revision ≡ core.content_hash (utf8_bytes l.source)) (ok_inj h3)
        (ap core.content_hash same)

  at_draft :
      (s : System) {draft : Option Draft}
      → s.draft ≡ draft
      → InvAt core s.stage s.draft (view s.note)
      → InvAt core s.stage draft (view s.note)
  at_draft s e inv = subst (λ d. InvAt core s.stage d (view s.note)) e inv

  at_stage :
      (s : System) {stage : Stage}
      → s.stage ≡ stage
      → InvAt core s.stage s.draft (view s.note)
      → InvAt core stage s.draft (view s.note)
  at_stage s e inv = subst (λ t. InvAt core t s.draft (view s.note)) e inv

  -- While a write is under way, the edit whose draft statement is due is not alone.
  busy-AloneInv :
      (stage : Stage) (draft : Option Draft) (v : View)
      → stage ≢ idle
      → AloneInv core stage draft v
      → (stage' : Stage) (v' : View) → AloneInv core stage' draft v'
  busy-AloneInv stage none v busy h stage' v' = tt
  busy-AloneInv stage (some d) v busy (inl h) stage' v' = inl h
  busy-AloneInv stage (some d) v busy (inr (free, _, _)) stage' v' = absurd (busy free)

  overlapped-Whole :
      (c : Covering) (draft : Option Draft) (v : View)
      → InvAt core idle draft v
      → (c.seq ≡ v.edit_seq) × (c.source ≡ v.source)
      → Whole core (taken c) (overlapped draft) v
  overlapped-Whole c none v inv now = record {
    at = record { rows = inv.rows; truthful = inv.truthful; edit = inv.edit; progress = inl now };
    alone = tt;
  }
  overlapped-Whole c (some d) v inv now = record {
    at = record { rows = inv.rows; truthful = inv.truthful; edit = inv.edit; progress = inl now };
    alone = inl refl;
  }

  -- A failed draft statement, where nothing has moved on, undoes its edit.
  view-refuse :
      (error : AppError) (rollback : Rollback) (source : Text) (seq : ℕ) (alone : Bool) (n : Note)
      → n.state.edit_seq ≡ seq
      → (before_of rollback).revision ≡ n.state.revision
      → view (
          refuse error
            (record { source = source; seq = seq; rollback = rollback; alone = alone })
            n)
        ≡ undone rollback (view n)
  unfolding refuse settle_update settle_structural restore_buffered restore_structural
  view-refuse error (buffered p) source seq alone n newest same =
      rw (in_place_at seq p.revision n.state newest (sym same), refuse, settle_update) refl
  view-refuse error (structural p) source seq alone n newest same =
      rw (in_place_at seq p.revision n.state newest (sym same), refuse, settle_structural) refl

  refused-Whole :
      (stage : Stage) (error : AppError) (d : Draft) (n : Note)
      → d.alone ≡ true
      → Whole core stage (some d) (view n)
      → Whole core stage none (view (refuse error d n))
  refused-Whole stage error d n alone w = elim w.alone [
    | inl not_alone ↦ cc (alone, not_alone)
    | inr (free, same, back) ↦ (record {
      at =
          subst (λ v. InvAt core stage none v)
            (sym (view-refuse error d.rollback d.source d.seq d.alone n (sym w.at.edit.1) same))
            (subst (λ t. InvAt core t none (undone d.rollback (view n))) (sym free) back);
      alone = tt;
    })
  ]

  not_raced : (raced alone : Bool) → raced || not alone ≡ false → (raced ≡ false) × (alone ≡ true)
  not_raced raced alone h = ground arith

  installed-Whole :
      (stage : Stage) (row : Option DraftRow) {s s' : SessionState} {d : Draft}
      → Began s s' d
      → d.alone ≡ is_idle stage
      → InvAt core stage none (view_of row s)
      → Whole core stage (some d) (view_of row s')
  installed-Whole stage row b e inv = record {
    at = Began-InvAt core note_id stage row b inv;
    alone = Began-AloneInv core note_id stage row b e inv;
  }

  Step-Inv : {s t : System} → Step core note_id s t → Inv core s → Inv core t
  unfolding arm_idle_timer write_draft record_error set_file set_indexed record_revision
      clear_draft_through settle_write install_loaded
  Step-Inv {s} (typed path new state p free h) inv clean =
      installed-Whole s.stage _ (begin_update-Began core note_id path new s.note.state h s.stage)
        refl (at_draft s free (inv clean).at)
  Step-Inv {s} (edited links edit derive planned free h) inv clean =
      installed-Whole s.stage _ (install_structural-Began core note_id planned s.note.state s.stage)
        refl (at_draft s free (inv clean).at)
  Step-Inv {s} (drafted now d due) inv clean = record {
    at = drafted-InvAt core s.stage (view s.note) d now (at_draft s due (inv clean).at);
    alone = tt;
  }
  Step-Inv {s} (draft_refused error d due) inv raced =
      let (clean, alone) = not_raced s.raced d.alone raced in
      refused-Whole s.stage error d s.note alone
        (subst (λ q. Whole core s.stage q (view s.note)) due (inv clean))
  Step-Inv {s} (reparsed links state h) inv clean =
      subst (Whole core s.stage s.draft)
        (reparse_state-view core note_id links s.note.stores.draft s.note.state h) (inv clean)
  Step-Inv {s} (snapshotted free live) inv clean =
      overlapped-Whole (snapshot s.note.state) s.draft (view s.note)
        (at_stage s free (inv clean).at) (refl, refl)
  Step-Inv {s} (refused a c error e h) inv clean = record {
    at = stopped-InvAt core (at_stage s e (inv clean).at);
    alone = busy-AloneInv s.stage s.draft _ (λ i. cc (i, e)) (inv clean).alone idle _;
  }
  Step-Inv {s} (published a c revision file e h) inv clean =
      let at = at_stage s e (inv clean).at in
      let out = publish-Published core note_id a c _ _ h in
      record {
        at = record {
          rows = at.rows;
          truthful = at.truthful;
          edit = at.edit;
          progress = (at.progress, out.rebased);
        };
        alone = busy-AloneInv s.stage s.draft _ (λ i. cc (i, e)) (inv clean).alone _ _;
      }
  Step-Inv {s} (rebased c revision e) inv clean = record {
    at = rebased-InvAt core c s.draft (view s.note) revision (at_stage s e (inv clean).at);
    alone = busy-AloneInv s.stage s.draft _ (λ i. cc (i, e)) (inv clean).alone _ _;
  }
  Step-Inv {s} (row_gone c e) inv clean = record {
    at = row_gone-InvAt core c s.draft (view s.note) (at_stage s e (inv clean).at);
    alone = busy-AloneInv s.stage s.draft _ (λ i. cc (i, e)) (inv clean).alone _ _;
  }
  Step-Inv {s} (row_kept c error e) inv clean = record {
    at = stopped-InvAt core (at_stage s e (inv clean).at);
    alone = busy-AloneInv s.stage s.draft _ (λ i. cc (i, e)) (inv clean).alone _ _;
  }
  Step-Inv {s} (not_indexed c error e) inv clean = record {
    at = stopped-InvAt core (at_stage s e (inv clean).at);
    alone = busy-AloneInv s.stage s.draft _ (λ i. cc (i, e)) (inv clean).alone _ _;
  }
  Step-Inv {s} (settled now c indexed e) inv clean = record {
    at = settled-InvAt core c s.draft (view s.note) (at_stage s e (inv clean).at);
    alone = busy-AloneInv s.stage s.draft _ (λ i. cc (i, e)) (inv clean).alone _ _;
  }
  Step-Inv {s} (reloaded links mtime read file loaded free e h) inv clean =
      let v = view (install_loaded loaded s.note) in
      subst (λ t. Whole core t s.draft v) (sym e)
        (subst (λ d. Whole core idle d v) (sym free)
          (record {
            at = from_file-InvAt core v refl (load-IsPublished links mtime read file h);
            alone = tt;
          }))
  Step-Inv (foreign file) inv clean = inv clean

  opened_state-InvAt :
      (links : Nodes → Result Nodes) (mtime : ℕ) (row : Option DraftRow) (file : Option Bytes)
      {s : SessionState}
      → opened_state core note_id links mtime row file ≡ ok s
      → InvAt core idle none (view_of row s)
  unfolding opened_state restored
  opened_state-InvAt links mtime (some row) file h =
      let parsed = core.parse_note row.raw_markdown (containing_dir note_id) in
      let (ast, h1, _) = >>=-eq-ok _ (links parsed.0) h in
      subst (λ t. InvAt core idle none (view_of (some row) t)) (ok_inj h1)
        (record {
          rows = λ r e. omega (arith, ap (λ (t : DraftRow). t.edit_seq) (some_inj e));
          truthful = λ e. cc e;
          edit = inl (record { row = row; there = refl; text = refl; newest = refl });
          progress = tt;
        })
  opened_state-InvAt links mtime none none h = cc h
  opened_state-InvAt links mtime none (some (malformed b)) h = cc h
  opened_state-InvAt links mtime none (some (utf8 t)) h =
      let (ast, h1, _) = >>=-eq-ok _ (links (core.parse_note t (containing_dir note_id)).0) h in
      subst (λ t. InvAt core idle none (view_of none t)) (ok_inj h1)
        (from_file-InvAt core _ refl refl)

  opened-Inv :
      (links : Nodes → Result Nodes) (mtime : ℕ) (stores : Stores) {n : Note} {shown : NoteState}
      → open_note core note_id links mtime none none none stores ≡ ok (n, shown)
      → InvAt core idle none (view n)
  unfolding open_note
  opened-Inv links mtime stores h =
      let (s, h1, reached) =
        >>=-eq-ok _ (opened_state core note_id links mtime stores.draft stores.file) h in
      subst (λ (q : Note × NoteState). InvAt core idle none (view q.0)) (ok_inj h1)
        (opened_state-InvAt links mtime stores.draft stores.file reached)

  pub Reach-Inv : {s : System} → Reach core note_id s → Inv core s
  Reach-Inv (opened links mtime stores n shown h) clean = record {
    at = opened-Inv links mtime stores h;
    alone = tt;
  }
  Reach-Inv (then_step r step) clean = Step-Inv step (Reach-Inv r) clean
