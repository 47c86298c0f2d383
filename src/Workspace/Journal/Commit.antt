-- ===== src/Workspace/Journal/Commit.antt =====
-- What a commit of the journal removes: the trash entries, and no other file.
use burlmd.Prelude.{
  ℕ, suc, ◌≡◌, refl, sym, ap, ◌∙◌, ◌⊎◌, inl, inr, Bool, true, false, ◌||◌, Option, none, some,
  is_some, List, [], ◌∷◌, ◌++◌, any, if◌then◌else◌,
}
use burlmd.Prelude.Text.{Text, codes}
use burlmd.Error.{AppError, io_error, Result, ok}
use burlmd.Workspace.Journal.{
  Disk, under, FileStep, overwrote, renamed, trashed, Journal, Removal, removed, failed, clear,
  discard_trash, discard_all, commit, drop,
}

-- Whether a path is that of a trash entry, or lies in it.
abbrev pub is_trash : Text → FileStep → Bool
is_trash p (trashed original parked) = is_some (under parked p)
is_trash p (overwrote path previous) = false
is_trash p (renamed from to) = false

abbrev pub without_trash : List FileStep → Disk → Disk
without_trash steps disk = λ p. if any (is_trash p) steps then none else disk p

-- Removing the first entry and then the others.
without_both :
    (a b : Bool) (f : Option Text)
    → (if b then none else if a then none else f) ≡ (if a || b then none else f)
without_both true true f = refl
without_both true false f = refl
without_both false b f = refl

discarded_other :
    (a : Removal) (path : Text) (previous : Option Text) (disk : Disk)
    → discard_trash a (overwrote path previous) disk ≡ (none, disk)
unfolding discard_trash
discarded_other removed path previous disk = refl
discarded_other (failed e left) path previous disk = refl

discarded_renamed :
    (a : Removal) (from to : Text) (disk : Disk)
    → discard_trash a (renamed from to) disk ≡ (none, disk)
unfolding discard_trash
discarded_renamed removed from to disk = refl
discarded_renamed (failed e left) from to disk = refl

module _ (answers : ℕ → Removal) (n : ℕ) (step : FileStep) (rest : List FileStep)
    (disk d : Disk) where
  after : Option AppError × Disk → List AppError × Disk
  after x = (
    elim x.0 [
      | none ↦ (discard_all answers (suc n) rest x.1).0
      | some error ↦ error ∷ (discard_all answers (suc n) rest x.1).0
    ],
    (discard_all answers (suc n) rest x.1).1,
  )

  discard_next :
      discard_trash (answers n) step disk ≡ (none, d)
      → discard_all answers n (step ∷ rest) disk ≡ discard_all answers (suc n) rest d
  unfolding discard_all after
  discard_next e = ap after e

  discard_failed :
      (error : AppError)
      → discard_trash (answers n) step disk ≡ (some error, d)
      → discard_all answers n (step ∷ rest) disk
        ≡ (error ∷ (discard_all answers (suc n) rest d).0, (discard_all answers (suc n) rest d).1)
  unfolding discard_all after
  discard_failed error e = ap after e

discard_all-cleared :
    (answers : ℕ → Removal) (n : ℕ) (steps : List FileStep) (disk : Disk) (p : Text)
    → (discard_all answers n steps disk).0 ≡ []
    → (discard_all answers n steps disk).1 p ≡ without_trash steps disk p
unfolding discard_all
discard_all-cleared answers n [] disk p h = refl
discard_all-cleared answers n (overwrote path previous ∷ rest) disk p h =
    let e =
      discard_next answers n (overwrote path previous) rest disk disk
        (discarded_other (answers n) path previous disk) in
    ap (λ (r : List AppError × Disk). r.1 p) e
    ∙ discard_all-cleared answers (suc n) rest disk p
        (sym (ap (λ (r : List AppError × Disk). r.0) e) ∙ h)
discard_all-cleared answers n (renamed from to ∷ rest) disk p h =
    let e =
      discard_next answers n (renamed from to) rest disk disk
        (discarded_renamed (answers n) from to disk) in
    ap (λ (r : List AppError × Disk). r.1 p) e
    ∙ discard_all-cleared answers (suc n) rest disk p
        (sym (ap (λ (r : List AppError × Disk). r.0) e) ∙ h)
discard_all-cleared answers n (trashed original parked ∷ rest) disk p h =
    by_answer (answers n) refl (λ d. discard_all-cleared answers (suc n) rest d p)
  where
    by_answer :
        (a : Removal)
        → answers n ≡ a
        → ((d : Disk)
            → (discard_all answers (suc n) rest d).0 ≡ []
            → (discard_all answers (suc n) rest d).1 p ≡ without_trash rest d p)
        → (discard_all answers n (trashed original parked ∷ rest) disk).1 p
          ≡ without_trash (trashed original parked ∷ rest) disk p
    by_answer removed e ih =
        let d = clear parked (λ _. false) disk in
        let next =
          discard_next answers n (trashed original parked) rest disk d
            (rw e (unfold discard_trash in refl)) in
        ap (λ (r : List AppError × Disk). r.1 p) next
        ∙ ih d (sym (ap (λ (r : List AppError × Disk). r.0) next) ∙ h)
        ∙ unfold clear in without_both (is_some (under parked p)) (any (is_trash p) rest) (disk p)
    by_answer (failed m left) e ih =
        let d = clear parked left disk in
        let next =
          discard_failed answers n (trashed original parked) rest disk d
            (io_error (codes "remove recovery trash " ++ (parked ++ (codes ": " ++ m))))
            (rw e (unfold discard_trash in refl)) in
        cc (ap (λ (r : List AppError × Disk). r.0) next, h)

empty_or_not :
    (es : List AppError) → (es ≡ []) ⊎ ((u : AppError) × (us : List AppError) × (es ≡ u ∷ us))
empty_or_not [] = inl refl
empty_or_not (u ∷ us) = inr (u, us, refl)

-- A commit that succeeds has removed what was parked for deletion, and nothing else, and leaves an
-- empty journal.
pub commit_clears :
    (decimal : ℕ → Text) (debug_error : AppError → Text) (answers : ℕ → Removal) (j j' : Journal)
    → commit decimal debug_error answers j ≡ (ok tt, j')
    → j' ≡ record { steps = []; disk = without_trash j.steps j.disk }
unfolding commit
commit_clears decimal debug_error answers j j' h =
    elim (empty_or_not (discard_all answers 0 j.steps j.disk).0) [
      | inl e ↦
          let cleared : (discard_all answers 0 j.steps j.disk).1 ≡ without_trash j.steps j.disk =
            λ i p. discard_all-cleared answers 0 j.steps j.disk p e i in
          let left : (ok tt, record { steps = []; disk = (discard_all answers 0 j.steps j.disk).1 })
              ≡ (ok tt, j') =
            (rw (e, commit) at h) in
          sym (ap (λ (r : Result (Unit {0}) × Journal). r.1) left)
          ∙ (λ i. record { steps = []; disk = cleared i })
      | inr (u, us, e) ↦ cc (rw (e, commit) at h)
    ]

-- Dropping a journal that a failed commit has kept, with removals that all succeed, leaves no trash
-- and removes no other file.
pub drop_clears :
    (answers : ℕ → Removal) (j : Journal)
    → ((n : ℕ) → answers n ≡ removed)
    → drop answers j ≡ without_trash j.steps j.disk
unfolding drop
drop_clears answers j all_removed =
    λ i p. discard_all-cleared answers 0 j.steps j.disk p (no_errors 0 j.steps j.disk) i
  where
    no_errors :
        (n : ℕ) (steps : List FileStep) (disk : Disk) → (discard_all answers n steps disk).0 ≡ []
    no_errors n [] disk = unfold discard_all in refl
    no_errors n (overwrote path previous ∷ rest) disk =
        ap (λ (r : List AppError × Disk). r.0)
          (discard_next answers n (overwrote path previous) rest disk disk
            (discarded_other (answers n) path previous disk))
        ∙ no_errors (suc n) rest disk
    no_errors n (renamed from to ∷ rest) disk =
        ap (λ (r : List AppError × Disk). r.0)
          (discard_next answers n (renamed from to) rest disk disk
            (discarded_renamed (answers n) from to disk))
        ∙ no_errors (suc n) rest disk
    no_errors n (trashed original parked ∷ rest) disk =
        ap (λ (r : List AppError × Disk). r.0)
          (discard_next answers n (trashed original parked) rest disk
            (clear parked (λ _. false) disk) (rw (all_removed n) (unfold discard_trash in refl)))
        ∙ no_errors (suc n) rest (clear parked (λ _. false) disk)
