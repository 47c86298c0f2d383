-- ===== src/Workspace/Journal.antt =====
-- rust/src/workspace/lifecycle.rs: `FileJournal`, which undoes the file steps of a composite
-- operation. The disk is the contents of its files by absolute path; its directories are not part of
-- it. What the operating system answers to a call is an argument: nothing, or the message of an error,
-- after which the files are as they were, but for a removal, which may stop half way. The `Debug` and
-- `Display` forms that error messages quote are parameters.
pub mod Moves
pub mod Rollback
pub mod Commit
use mathlib.Core.List.{reverse}
use mathlib.Core.Option
use burlmd.Prelude.{
  ℕ, zero, suc, ◌+◌, Bool, true, false, ◌||◌, Option, none, some, is_some, List, [], ◌∷◌, ◌++◌,
  length, if◌then◌else◌, ◌>>=◌,
}
use burlmd.Prelude.Text.{Text, codes, text_eq, starts_with, strip_prefix}
use burlmd.Prelude.Split.{rsplit_once}
use burlmd.Error.{
  AppError, disk_full, auth_expired, git_conflict, oauth_state_mismatch, revision_mismatch,
  path_unavailable, not_found, database_error, crypto_error, network_error, oauth_error, io_error,
  parse_error, Result, ok, err,
}
use burlmd.Okf.ConceptId.{slash}
use burlmd.Okf.Links.{dot_dot}
use burlmd.Workspace.Scratch.{trash_prefix}

abbrev pub Disk : Type 0
Disk = Text → Option Text

-- What stands in a path after a file or directory that it is or lies in.
unfoldable pub under : Text → Text → Option Text
under top path = strip_prefix top path >>= λ rest.
    if text_eq rest [] || starts_with (slash ∷ []) rest then some rest else none

unfoldable pub write : Text → Option Text → Disk → Disk
write path bytes disk = λ p. if text_eq p path then bytes else disk p

-- A file, or a directory with all that is in it, goes to another path.
unfoldable pub move : Text → Text → Disk → Disk
move from to disk = λ p. elim (under to p) [
  | some rest ↦ disk (from ++ rest)
  | none ↦ if is_some (under from p) then none else disk p
]

pub data FileStep : Type 0 where
  overwrote : Text → Option Text → FileStep
  renamed : Text → Text → FileStep
  trashed : Text → Text → FileStep

-- The journal's steps, and the disk that they were done on.
pub record Journal : Type 0 where
  pub steps : List FileStep
  pub disk : Disk

push : FileStep → Disk → Journal → Journal
push step disk j = record { steps = j.steps ++ step ∷ []; disk = disk }

unfoldable pub overwrite :
    Option Text → Option AppError → Text → Text → Journal → Result (Unit {0}) × Journal
unfolding push
overwrite (some e) wrote path bytes j =
    (err (io_error (codes "read " ++ (path ++ (codes ": " ++ e)))), j)
overwrite none (some e) path bytes j = (err e, j)
overwrite none none path bytes j =
    (ok tt, push (overwrote path (j.disk path)) (write path (some bytes) j.disk) j)

-- `Path::parent` and `Path::file_name` of an absolute path.
parent : Text → Option Text
parent path = Option.map (λ (p : Text × Text). p.0) (rsplit_once slash path)

file_name : Text → Text
file_name path = elim (rsplit_once slash path) [
  | none ↦ codes "note"
  | some (_, name) ↦ if text_eq name [] || text_eq name dot_dot then codes "note" else name
]

-- Creating the parent directory, if the path has one.
create_parent : Option Text → Text → Option AppError
unfolding parent
create_parent created to = parent to >>= λ p.
    Option.map (λ e. io_error (codes "create " ++ (p ++ (codes ": " ++ e)))) created

unfoldable pub rename :
    Option Text → Option Text → Text → Text → Journal → Result (Unit {0}) × Journal
unfolding create_parent push
rename created moved from to j = elim (create_parent created to) [
  | some e ↦ (err e, j)
  | none ↦ elim moved [
    | some e ↦ (
      err (io_error (codes "rename " ++ (from ++ (codes " to " ++ (to ++ (codes ": " ++ e)))))),
      j,
    )
    | none ↦ (ok tt, push (renamed from to) (move from to j.disk) j)
  ]
]

-- The dot-prefixed sibling that a deletion is parked under, by the process id and the counter.
unfoldable pub trash_path : Text → Text → Text → Option Text
unfolding parent file_name
trash_path pid counter path =
    Option.map
      (λ p. p ++ slash ∷ (trash_prefix ++ (file_name path ++ b'.' ∷ (pid ++ b'.' ∷ counter))))
      (parent path)

unfoldable pub trash :
    Bool → Option Text → Text → Text → Text → Journal → Result (Unit {0}) × Journal
unfolding push
trash false moved pid counter path j = (ok tt, j)
trash true moved pid counter path j = elim (trash_path pid counter path) [
  | none ↦ (err (io_error (path ++ codes " has no parent")), j)
  | some parked ↦ elim moved [
    | some e ↦ (err (io_error (codes "remove " ++ (path ++ (codes ": " ++ e)))), j)
    | none ↦ (ok tt, push (trashed path parked) (move path parked j.disk) j)
  ]
]

unfoldable pub undo : FileStep → Disk → Disk
undo (overwrote path previous) disk = write path previous disk
undo (renamed from to) disk = move to from disk
undo (trashed original parked) disk = move parked original disk

failure : FileStep → Text → Text
failure (overwrote path (some bytes)) e = codes "restore " ++ (path ++ (codes ": " ++ e))
failure (overwrote path none) e = codes "remove " ++ (path ++ (codes ": " ++ e))
failure (renamed from to) e =
    codes "move " ++ (to ++ (codes " back to " ++ (from ++ (codes ": " ++ e))))
failure (trashed original parked) e = codes "restore " ++ (original ++ (codes ": " ++ e))

-- The loop of `rollback` over the steps, newest first, with the number of those gone before.
unfoldable pub undo_all : (ℕ → Option Text) → ℕ → List FileStep → Disk → Disk × List Text
unfolding failure
undo_all answers n [] disk = (disk, [])
undo_all answers n (step ∷ rest) disk = elim (answers n) [
  | none ↦ undo_all answers (suc n) rest (undo step disk)
  | some e ↦
      let (disk', failures) = undo_all answers (suc n) rest disk in
      (disk', failure step e ∷ failures)
]

-- What a removal of a trash entry did: all of it, or an error with the files that are left.
pub data Removal : Type 0 where
  removed : Removal
  failed : Text → (Text → Bool) → Removal

clear : Text → (Text → Bool) → Disk → Disk
clear parked left disk =
    λ p. if is_some (under parked p) then (if left p then disk p else none) else disk p

unfoldable pub discard_trash : Removal → FileStep → Disk → Option AppError × Disk
unfolding clear
discard_trash removed (trashed original parked) disk = (none, clear parked (λ _. false) disk)
discard_trash (failed e left) (trashed original parked) disk = (
  some (io_error (codes "remove recovery trash " ++ (parked ++ (codes ": " ++ e)))),
  clear parked left disk,
)
discard_trash answer step disk = (none, disk)

unfoldable pub discard_all : (ℕ → Removal) → ℕ → List FileStep → Disk → List AppError × Disk
discard_all answers n [] disk = ([], disk)
discard_all answers n (step ∷ rest) disk =
    let (e, disk') = discard_trash (answers n) step disk in
    let (errors, last) = discard_all answers (suc n) rest disk' in
    (elim e [ none ↦ errors | some error ↦ error ∷ errors ], last)

-- `[String]::join("; ")`
join_texts : List Text → Text
join_texts [] = []
join_texts (t ∷ []) = t
join_texts (t ∷ ts) = t ++ (codes "; " ++ join_texts ts)

-- `Drop`: the answers to its removals are not looked at.
unfoldable pub drop : (ℕ → Removal) → Journal → Disk
drop answers j = (discard_all answers 0 j.steps j.disk).1

-- `other => AppError::IoError(rewrite(&format!("{other:?}")))` for the variants without a message.
unfoldable pub restate : AppError → (Text → Text) → AppError
restate (revision_mismatch revision) rewrite = revision_mismatch revision
restate (path_unavailable m) rewrite = path_unavailable (rewrite m)
restate (not_found m) rewrite = not_found (rewrite m)
restate (database_error m) rewrite = database_error (rewrite m)
restate (crypto_error m) rewrite = crypto_error (rewrite m)
restate (network_error m) rewrite = network_error (rewrite m)
restate (oauth_error m) rewrite = oauth_error (rewrite m)
restate (io_error m) rewrite = io_error (rewrite m)
restate (parse_error m) rewrite = parse_error (rewrite m)
restate disk_full rewrite = io_error (rewrite (codes "DiskFull"))
restate auth_expired rewrite = io_error (rewrite (codes "AuthExpired"))
restate git_conflict rewrite = io_error (rewrite (codes "GitConflict"))
restate oauth_state_mismatch rewrite = io_error (rewrite (codes "OAuthStateMismatch"))

unfoldable pub commit_stage_failure : Text → AppError → List Text → AppError
unfolding join_texts
commit_stage_failure subject error best_effort =
    let trailer : Text = elim best_effort [
      | [] ↦ []
      | t ∷ ts ↦
          codes " (also, best-effort steps did not run: " ++ (join_texts (t ∷ ts) ++ codes ")")
    ] in
    restate error (λ detail.
      subject
      ++ (codes
            ": the operation completed — the bundle and the index have both moved — but the commit recording it in version history failed, so the Workspace is uncommitted: "
          ++ (detail ++ trailer)))

module _ (decimal : ℕ → Text) where
  unfoldable pub rollback : (ℕ → Option Text) → Journal → Option Text × Journal
  rollback answers j =
      let (disk, failures) = undo_all answers 0 (reverse j.steps) j.disk in
      (
        elim failures [
          | [] ↦ none
          | first ∷ more ↦ some (
              decimal (length (first ∷ more))
              ++ (codes " of "
                  ++ (decimal (length j.steps)
                      ++ (codes " filesystem steps could not be undone, the first being: "
                          ++ first))))
        ],
        record { steps = []; disk = disk },
      )

  unfoldable pub rolled_back : (ℕ → Option Text) → AppError → Journal → AppError × Journal
  rolled_back answers error j =
      let (incomplete, j') = rollback answers j in
      (
        elim incomplete [
          | none ↦ error
          | some report ↦ restate error (λ detail.
              detail
              ++ (codes
                    " — and undoing it did not fully succeed, so the bundle is part-way through this operation on disk: "
                  ++ report))
        ],
        j',
      )

  module _ (debug_error : AppError → Text) where
    debug_all : List AppError → List Text
    debug_all [] = []
    debug_all (e ∷ es) = debug_error e ∷ debug_all es

    unfoldable pub commit : (ℕ → Removal) → Journal → Result (Unit {0}) × Journal
    unfolding debug_all join_texts
    commit answers j =
        let (errors, disk) = discard_all answers 0 j.steps j.disk in
        elim errors [
          | [] ↦ (ok tt, record { steps = []; disk = disk })
          | e ∷ es ↦ (
            err (
                io_error (
                  codes "could not remove "
                  ++ (decimal (length (e ∷ es))
                      ++ (codes " recovery trash artifact(s): "
                          ++ join_texts (debug_all (e ∷ es)))))),
            record { steps = j.steps; disk = disk },
          )
        ]
