-- ===== src/Persist/Admission.antt =====
-- rust/src/workspace/persist.rs: the admission of edits, which a lifecycle operation closes. A thread
-- holds its leases newest first; an inner lease of a thread that holds one is not counted. A thread
-- with no entry in the table of depths has depth 0.
pub mod Threads
pub mod Invariant
pub mod Exclusion
pub mod Examples
use burlmd.Prelude.{
  ℕ, zero, suc, ◌≡◌, Bool, true, false, Option, none, some, List, [], ◌∷◌, ◌++◌, ltb, ◌==◌,
  if◌then◌else◌, length,
}
use burlmd.Prelude.Text.{Text, codes}
use burlmd.Error.{AppError, parse_error, Result, ok, err}

pub record EditAdmission : Type 0 where
  pub active : Bool
  pub leases : ℕ

pub record EditLease : Type 0 where
  pub counted : Bool

pub record Thread : Type 0 where
  pub depth : ℕ
  pub held : List EditLease

unfoldable pub edit_lease_is_held : Thread → Bool
edit_lease_is_held t = ltb 0 t.depth

-- The lease is the thread's newest.
unfoldable pub edit_lease_enter : EditLease → Thread → Thread
edit_lease_enter lease t = record { depth = suc t.depth; held = lease ∷ t.held }

pub in_progress : Text → AppError
in_progress note_id = parse_error (
    codes "cannot edit "
    ++ (note_id
        ++ codes " while a Workspace lifecycle operation is in progress; retry after it completes"))

unfoldable pub edit_lease : Text → EditAdmission → Thread → Result (EditAdmission × Thread)
unfolding edit_lease_is_held edit_lease_enter
edit_lease note_id admission t =
    if edit_lease_is_held t
    then ok (admission, edit_lease_enter (record { counted = false }) t)
    else if admission.active
    then err (in_progress note_id)
    else ok (
      record { active = admission.active; leases = suc admission.leases },
      edit_lease_enter (record { counted = true }) t,
    )

-- `checked_sub(1)`, where the code panics on `none`.
unfoldable pub checked_pred : ℕ → Option ℕ
checked_pred zero = none
checked_pred (suc n) = some n

unfoldable pub edit_lease_exit : ℕ → Option ℕ
unfolding checked_pred
edit_lease_exit depth = checked_pred depth

-- What a drop does to the admission, where the lease is counted.
unfoldable pub uncount : EditLease → EditAdmission → Option EditAdmission
unfolding checked_pred
uncount lease admission =
    if lease.counted
    then (elim (checked_pred admission.leases) [
      | none ↦ none
      | some leases ↦ some (record { active = admission.active; leases = leases })
    ])
    else some admission

-- The drop of a thread's newest lease.
unfoldable pub drop_lease : EditAdmission → Thread → Option (EditAdmission × Thread)
unfolding edit_lease_exit uncount
drop_lease admission t = elim t.held [
  | [] ↦ none
  | lease ∷ rest ↦ elim (edit_lease_exit t.depth) [
    | none ↦ none
    | some depth ↦ elim (uncount lease admission) [
      | none ↦ none
      | some admission' ↦ some (admission', record { depth = depth; held = rest })
    ]
  ]
]

unfoldable pub close_gate : EditAdmission → EditAdmission
close_gate admission = record { active = true; leases = admission.leases }

unfoldable pub reopen_gate : EditAdmission → EditAdmission
reopen_gate admission = record { active = false; leases = admission.leases }

-- How far the operation has come that holds the lifecycle lock.
pub data Operation : Type 0 where
  unlocked : Operation
  draining : Operation
  running : Operation

pub record Coordination : Type 0 where
  pub admission : EditAdmission
  pub threads : List Thread
  pub operation : Operation

abbrev pub idle_thread : Thread
idle_thread = record { depth = 0; held = [] }

abbrev pub idle_threads : ℕ → List Thread
idle_threads zero = []
idle_threads (suc n) = idle_thread ∷ idle_threads n

-- `with_lifecycle_lock_id` closes the gate, waits for the leases and runs; whatever ends it opens
-- the gate. An edit that is refused changes nothing.
pub data Turn (c : Coordination) : Coordination → Type 0 where
  admitted :
      (note_id : Text) (before after : List Thread) (t t' : Thread) (admission : EditAdmission)
      → c.threads ≡ before ++ t ∷ after
      → edit_lease note_id c.admission t ≡ ok (admission, t')
      → Turn c (record c { admission = admission; threads = before ++ t' ∷ after })
  dropped :
      (before after : List Thread) (t t' : Thread) (admission : EditAdmission)
      → c.threads ≡ before ++ t ∷ after
      → drop_lease c.admission t ≡ some (admission, t')
      → Turn c (record c { admission = admission; threads = before ++ t' ∷ after })
  gate_closed :
      c.operation ≡ unlocked
      → Turn c (record c { admission = close_gate c.admission; operation = draining })
  drained :
      c.operation ≡ draining → c.admission.leases ≡ 0 → Turn c (record c { operation = running })
  gave_up :
      c.operation ≡ draining
      → Turn c (record c { admission = reopen_gate c.admission; operation = unlocked })
  finished :
      c.operation ≡ running
      → Turn c (record c { admission = reopen_gate c.admission; operation = unlocked })

pub data Arises : Coordination → Type 0 where
  started :
      (n : ℕ)
      → Arises (record {
        admission = record { active = false; leases = 0 };
        threads = idle_threads n;
        operation = unlocked;
      })
  then_turn : {c d : Coordination} → Arises c → Turn c d → Arises d
