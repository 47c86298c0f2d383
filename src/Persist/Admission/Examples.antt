-- ===== src/Persist/Admission/Examples.antt =====
-- The admission of edits in rust/src/workspace/persist.rs on two threads.
use burlmd.Prelude.{◌≡◌, refl, ◌≤◌, true, false, some, [], ◌∷◌, All}
use burlmd.Prelude.Text.{codes}
use burlmd.Persist.Admission.{
  EditAdmission, Thread, edit_lease_is_held, edit_lease_enter, edit_lease, edit_lease_exit, uncount,
  checked_pred, drop_lease, close_gate, unlocked, draining, running, Coordination, admitted,
  dropped, gate_closed, drained, Arises, started, then_turn, idle_thread,
}
use burlmd.Persist.Admission.Exclusion.{
  IsExcluded, lifecycle_excludes_edits, drop_never_panics, closed_gate_drains,
}

-- One of two threads has edited, and then an operation runs.
abbrev edited_thread : Thread
edited_thread = record { depth = 1; held = record { counted = true } ∷ [] }

abbrev one_lease : EditAdmission
one_lease = record { active = false; leases = 1 }

abbrev one_edits : Coordination
one_edits = record {
  admission = one_lease;
  threads = edited_thread ∷ idle_thread ∷ [];
  operation = unlocked;
}

edits_begun : Arises one_edits
unfolding edit_lease edit_lease_is_held edit_lease_enter
edits_begun =
    then_turn (started 2)
      (admitted (codes "a") [] (idle_thread ∷ []) idle_thread edited_thread one_lease refl refl)

abbrev none_edits : EditAdmission
none_edits = record { active = true; leases = 0 }

abbrev operation_runs : Coordination
operation_runs = record {
  admission = none_edits;
  threads = idle_thread ∷ idle_thread ∷ [];
  operation = running;
}

operation-Arises : Arises operation_runs
unfolding drop_lease edit_lease_exit uncount checked_pred close_gate
operation-Arises =
    then_turn
      (then_turn (then_turn edits_begun (gate_closed refl))
        (dropped [] (idle_thread ∷ []) edited_thread idle_thread none_edits refl refl))
      (drained refl refl)

lifecycle_excludes_edits_example : All (IsExcluded none_edits) (idle_thread ∷ idle_thread ∷ [])
lifecycle_excludes_edits_example = lifecycle_excludes_edits operation_runs operation-Arises refl

drop_never_panics_example :
    (a : EditAdmission) × (t' : Thread) × (drop_lease one_lease edited_thread ≡ some (a, t'))
drop_never_panics_example =
    drop_never_panics one_edits [] (idle_thread ∷ []) edited_thread (record { counted = true }) []
      edits_begun refl refl

closed_gate_drains_example : none_edits.leases ≤ one_lease.leases
unfolding close_gate drop_lease edit_lease_exit uncount checked_pred
closed_gate_drains_example =
    closed_gate_drains
      (record {
        admission = record { active = true; leases = 1 };
        threads = edited_thread ∷ idle_thread ∷ [];
        operation = draining;
      })
      (record {
        admission = none_edits;
        threads = idle_thread ∷ idle_thread ∷ [];
        operation = draining;
      })
      (then_turn edits_begun (gate_closed refl)) refl
      (dropped [] (idle_thread ∷ []) edited_thread idle_thread none_edits refl refl)
