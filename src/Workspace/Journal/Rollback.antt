-- ===== src/Workspace/Journal/Rollback.antt =====
-- A rollback that reports nothing has put every file back.
use mathlib.Core.List.{reverse, reverse-append}
use burlmd.Prelude.{
  ℕ, suc, ◌≡◌, refl, ap, ◌∙◌, ◌≢◌, ◌⊎◌, inl, inr, Bool, true, false, Option, none, some, List, [],
  ◌∷◌, ◌++◌, Option-cases, subst,
}
use burlmd.Prelude.Text.{Text}
use burlmd.Error.{
  AppError, disk_full, auth_expired, git_conflict, oauth_state_mismatch, revision_mismatch,
  path_unavailable, not_found, database_error, crypto_error, network_error, oauth_error, io_error,
  parse_error,
}
use burlmd.Workspace.Journal.Moves.{IsFree, write_back, move_back}
use burlmd.Workspace.Journal.{
  Disk, FileStep, overwrote, renamed, trashed, Journal, overwrite, rename, trash, trash_path, undo,
  undo_all, rollback, rolled_back, create_parent, restate,
}

-- Undoing the newest step leads to the disk before it.
record Follows (j j' : Journal) : Type 0 where
  step : FileStep
  pushed : j'.steps ≡ j.steps ++ step ∷ []
  undone : undo step j'.disk ≡ j.disk

-- How a composite operation uses its journal: from no steps, by the journal's own operations, where
-- nothing is at the path that a rename or a deletion moves to. An operation may fail.
pub data Journaled (before : Disk) : Journal → Type 0 where
  opened : (j : Journal) → j ≡ record { steps = []; disk = before } → Journaled before j
  overwritten :
      (was j : Journal) (read : Option Text) (wrote : Option AppError) (path bytes : Text)
      → Journaled before was
      → (overwrite read wrote path bytes was).1 ≡ j
      → Journaled before j
  relocated :
      (was j : Journal) (created moved : Option Text) (from to : Text)
      → Journaled before was
      → IsFree to was.disk
      → (rename created moved from to was).1 ≡ j
      → Journaled before j
  deleted :
      (was j : Journal) (exists : Bool) (moved : Option Text) (pid counter path : Text)
      → Journaled before was
      → ((parked : Text) → trash_path pid counter path ≡ some parked → IsFree parked was.disk)
      → (trash exists moved pid counter path was).1 ≡ j
      → Journaled before j

-- An operation of the journal changes nothing, or is undone by its newest step.
data Effect (j j' : Journal) : Type 0 where
  nothing : j' ≡ j → Effect j j'
  one_step : Follows j j' → Effect j j'

overwrite-Effect :
    (read : Option Text) (wrote : Option AppError) (path bytes : Text) (j : Journal)
    → Effect j (overwrite read wrote path bytes j).1
unfolding overwrite undo
overwrite-Effect (some e) wrote path bytes j = nothing refl
overwrite-Effect none (some e) path bytes j = nothing refl
overwrite-Effect none none path bytes j = one_step (record {
  step = overwrote path (j.disk path);
  pushed = refl;
  undone = write_back path bytes j.disk;
})

rename-Effect :
    (created moved : Option Text) (from to : Text) (j : Journal)
    → IsFree to j.disk
    → Effect j (rename created moved from to j).1
unfolding rename undo
rename-Effect created moved from to j free = elim (Option-cases (create_parent created to)) [
  | inr (e, f) ↦ rw (f, rename) (nothing refl)
  | inl f ↦ elim (Option-cases moved) [
    | inr (e, g) ↦ rw (f, rename, g) (nothing refl)
    | inl g ↦
        rw (f, rename, g)
          (one_step (record {
            step = renamed from to;
            pushed = refl;
            undone = move_back from to j.disk free;
          }))
  ]
]

trash-Effect :
    (exists : Bool) (moved : Option Text) (pid counter path : Text) (j : Journal)
    → ((parked : Text) → trash_path pid counter path ≡ some parked → IsFree parked j.disk)
    → Effect j (trash exists moved pid counter path j).1
unfolding trash undo
trash-Effect false moved pid counter path j free = nothing refl
trash-Effect true moved pid counter path j free =
    elim (Option-cases (trash_path pid counter path)) [
      | inl f ↦ rw (f, trash) (nothing refl)
      | inr (parked, f) ↦ elim (Option-cases moved) [
        | inr (e, g) ↦ rw (f, trash, g) (nothing refl)
        | inl g ↦
            rw (f, trash, g)
              (one_step (record {
                step = trashed path parked;
                pushed = refl;
                undone = move_back path parked j.disk (free parked f);
              }))
      ]
    ]

-- Undoing every step with success, newest first.
undo_steps : List FileStep → Disk → Disk
undo_steps [] disk = disk
undo_steps (step ∷ rest) disk = undo_steps rest (undo step disk)

Effect-undo_steps :
    (before : Disk) (j j' : Journal)
    → Effect j j'
    → undo_steps (reverse j.steps) j.disk ≡ before
    → undo_steps (reverse j'.steps) j'.disk ≡ before
unfolding undo_steps
Effect-undo_steps before j j' (nothing e) h = rw e h
Effect-undo_steps before j j' (one_step f) h =
    ap (λ (steps : List FileStep). undo_steps (reverse steps) j'.disk) f.pushed
    ∙ ap (λ (steps : List FileStep). undo_steps steps j'.disk)
        (reverse-append j.steps (f.step ∷ []))
    ∙ ap (undo_steps (reverse j.steps)) f.undone
    ∙ h

Journaled-undo_steps :
    (before : Disk) (j : Journal)
    → Journaled before j
    → undo_steps (reverse j.steps) j.disk ≡ before
unfolding undo_steps
Journaled-undo_steps before _ (opened j e) = rw e refl
Journaled-undo_steps before _ (overwritten was j read wrote path bytes h e) =
    Effect-undo_steps before was j
      (subst (Effect was) e (overwrite-Effect read wrote path bytes was))
      (Journaled-undo_steps before was h)
Journaled-undo_steps before _ (relocated was j created moved from to h free e) =
    Effect-undo_steps before was j
      (subst (Effect was) e (rename-Effect created moved from to was free))
      (Journaled-undo_steps before was h)
Journaled-undo_steps before _ (deleted was j exists moved pid counter path h free e) =
    Effect-undo_steps before was j
      (subst (Effect was) e (trash-Effect exists moved pid counter path was free))
      (Journaled-undo_steps before was h)

-- Without a failure the loop has undone every step.
undo_all-undo_steps :
    (answers : ℕ → Option Text) (n : ℕ) (steps : List FileStep) (disk : Disk)
    → (undo_all answers n steps disk).1 ≡ []
    → (undo_all answers n steps disk).0 ≡ undo_steps steps disk
unfolding undo_all undo_steps
undo_all-undo_steps answers n [] disk h = refl
undo_all-undo_steps answers n (step ∷ rest) disk h = elim (Option-cases (answers n)) [
  | inl e ↦
      rw (e, undo_all)
        (undo_all-undo_steps answers (suc n) rest (undo step disk) (rw (e, undo_all) at h))
  | inr (m, e) ↦ cc (rw (e, undo_all) at h)
]

undo_all-none :
    (answers : ℕ → Option Text) (n : ℕ) (steps : List FileStep) (disk : Disk)
    → ((k : ℕ) → answers k ≡ none)
    → (undo_all answers n steps disk).1 ≡ []
unfolding undo_all
undo_all-none answers n [] disk h = refl
undo_all-none answers n (step ∷ rest) disk h =
    rw (h n, undo_all) (undo_all-none answers (suc n) rest (undo step disk) h)

longer_text : (s t : Text) → t ≢ [] → s ++ t ≢ s
longer_text [] t n e = n e
longer_text (c ∷ s) t n e = longer_text s t n (cc e)

-- Whether a revision mismatch is what an error says.
abbrev pub is_mismatch : AppError → Bool
is_mismatch (revision_mismatch _) = true
is_mismatch other = false

restate_changes :
    (error : AppError) (rewrite : Text → Text)
    → ((m : Text) → rewrite m ≢ m)
    → is_mismatch error ≡ false
    → restate error rewrite ≢ error
unfolding restate
restate_changes (revision_mismatch r) rewrite n h = cc
restate_changes (path_unavailable m) rewrite n h = λ e. n m (cc e)
restate_changes (not_found m) rewrite n h = λ e. n m (cc e)
restate_changes (database_error m) rewrite n h = λ e. n m (cc e)
restate_changes (crypto_error m) rewrite n h = λ e. n m (cc e)
restate_changes (network_error m) rewrite n h = λ e. n m (cc e)
restate_changes (oauth_error m) rewrite n h = λ e. n m (cc e)
restate_changes (io_error m) rewrite n h = λ e. n m (cc e)
restate_changes (parse_error m) rewrite n h = λ e. n m (cc e)
restate_changes disk_full rewrite n h = λ e. cc e
restate_changes auth_expired rewrite n h = λ e. cc e
restate_changes git_conflict rewrite n h = λ e. cc e
restate_changes oauth_state_mismatch rewrite n h = λ e. cc e

empty_or_not : (ts : List Text) → (ts ≡ []) ⊎ ((u : Text) × (us : List Text) × (ts ≡ u ∷ us))
empty_or_not [] = inl refl
empty_or_not (u ∷ us) = inr (u, us, refl)

module _ (decimal : ℕ → Text) where
  rollback-failures :
      (answers : ℕ → Option Text) (j : Journal)
      → (rollback decimal answers j).0 ≡ none
      → (undo_all answers 0 (reverse j.steps) j.disk).1 ≡ []
  unfolding rollback
  rollback-failures answers j h =
      elim (empty_or_not (undo_all answers 0 (reverse j.steps) j.disk).1) [
        | inl e ↦ e
        | inr (t, ts, e) ↦ cc (rw (e, rollback) at h)
      ]

  -- Whatever the operating system answers: a rollback, after steps whose renames and deletions went to
  -- paths where nothing was, that reports nothing has put back the disk that the composite operation
  -- found, every file with its contents, and the journal is empty.
  pub rollback_restores :
      (answers : ℕ → Option Text) (before : Disk) (j : Journal)
      → Journaled before j
      → (rollback decimal answers j).0 ≡ none
      → (rollback decimal answers j).1 ≡ record { steps = []; disk = before }
  unfolding rollback
  rollback_restores answers before j h silent =
      let restored =
        undo_all-undo_steps answers 0 (reverse j.steps) j.disk (rollback-failures answers j silent)
        ∙ Journaled-undo_steps before j h in
      λ i. record { steps = []; disk = restored i }

  -- A rollback of which every step succeeds, after steps whose renames and deletions went to paths
  -- where nothing was, reports nothing and restores the disk.
  pub rollback_succeeds :
      (answers : ℕ → Option Text) (before : Disk) (j : Journal)
      → Journaled before j
      → ((n : ℕ) → answers n ≡ none)
      → rollback decimal answers j ≡ (none, record { steps = []; disk = before })
  unfolding rollback
  rollback_succeeds answers before j h none_fails =
      let silent : (rollback decimal answers j).0 ≡ none =
        rw (undo_all-none answers 0 (reverse j.steps) j.disk none_fails, rollback) in
      let restored = rollback_restores answers before j h silent in λ i. (silent i, restored i)

  -- An operation that failed, with an error other than a revision mismatch, after steps whose renames
  -- and deletions went to paths where nothing was, and whose error comes back from the rollback
  -- unchanged, has changed no file.
  pub rolled_back_unchanged :
      (answers : ℕ → Option Text) (before : Disk) (error : AppError) (j : Journal)
      → Journaled before j
      → is_mismatch error ≡ false
      → (rolled_back decimal answers error j).0 ≡ error
      → (rolled_back decimal answers error j).1 ≡ record { steps = []; disk = before }
  unfolding rolled_back
  rolled_back_unchanged answers before error j h plain same =
      elim (Option-cases (rollback decimal answers j).0) [
        | inl e ↦ rollback_restores answers before j h e
        | inr (report, e) ↦ absurd (
            restate_changes error _ (λ m. longer_text m _ (λ x. cc x)) plain
              (rw (e, rolled_back) at same))
      ]
