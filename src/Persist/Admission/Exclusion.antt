-- ===== src/Persist/Admission/Exclusion.antt =====
-- Edits and lifecycle operations exclude each other.
use burlmd.Prelude.{
  ℕ, zero, suc, ◌≡◌, refl, sym, ap, subst, ◌∙◌, ◌≤◌, true, some, List, [], ◌∷◌, ◌++◌, arith, All,
  inl, inr,
}
use burlmd.Prelude.Text.{Text}
use burlmd.Error.{err}
use burlmd.Persist.Admission.{
  EditAdmission, EditLease, Thread, edit_lease_is_held, edit_lease, in_progress, drop_lease,
  running, Coordination, Turn, admitted, dropped, gate_closed, drained, gave_up, finished, Arises,
  close_gate, reopen_gate,
}
use burlmd.Persist.Admission.Threads.{
  IsThread, holds, lease_count, entered, drop_held-Dropped, drop_lease-Dropped,
}
use burlmd.Persist.Admission.Invariant.{Gate, thread_at, Arises-IsAdmitting}

-- A thread holds no lease, and none is given to it.
abbrev pub IsExcluded : EditAdmission → Thread → Type 0
IsExcluded a t =
    (t.held ≡ []) × ((note_id : Text) → edit_lease note_id a t ≡ err (in_progress note_id))

without_lease-IsExcluded :
    (a : EditAdmission) (depth : ℕ) (held : List EditLease)
    → a.active ≡ true
    → IsThread (record { depth = depth; held = held })
    → holds held ≡ 0
    → IsExcluded a (record { depth = depth; held = held })
unfolding edit_lease edit_lease_is_held
without_lease-IsExcluded a depth (lease ∷ older) closed thread none_held =
    absurd (omega (arith, none_held))
without_lease-IsExcluded a (suc depth) [] closed (deep, nested) none_held =
    absurd (omega (arith, deep))
without_lease-IsExcluded a zero [] closed thread none_held = (refl, λ note_id. rw closed refl)

All-IsExcluded :
    (a : EditAdmission) (ts : List Thread)
    → a.active ≡ true
    → All IsThread ts
    → lease_count ts ≡ 0
    → All (IsExcluded a) ts
All-IsExcluded a [] closed all none_held = tt
All-IsExcluded a (t ∷ ts) closed (thread, all) none_held = (
  without_lease-IsExcluded a t.depth t.held closed thread (omega (arith, none_held)),
  All-IsExcluded a ts closed all (omega (arith, none_held)),
)

-- Edits and lifecycle operations exclude each other: whatever came before, while the body of an
-- operation runs, no thread holds a lease, and every edit that a thread asks for is refused as in
-- progress.
pub lifecycle_excludes_edits :
    (c : Coordination) → Arises c → c.operation ≡ running → All (IsExcluded c.admission) c.threads
lifecycle_excludes_edits c arises runs =
    let inv = Arises-IsAdmitting arises in
    let (closed, none_left) = subst (λ o. Gate o c.admission) runs inv.gate in
    All-IsExcluded c.admission c.threads closed inv.threads (sym inv.leases ∙ none_left)

-- Whatever came before, a thread that drops the newest of its leases does not panic: neither its
-- depth nor the count of leases underflows.
pub drop_never_panics :
    (c : Coordination) (before after : List Thread) (t : Thread) (lease : EditLease)
    (older : List EditLease)
    → Arises c
    → c.threads ≡ before ++ t ∷ after
    → t.held ≡ lease ∷ older
    → (a : EditAdmission) × (t' : Thread) × (drop_lease c.admission t ≡ some (a, t'))
drop_never_panics c before after t lease older arises at holding =
    let (thread, counted) = thread_at c before after t at (Arises-IsAdmitting arises) in
    let one = ap holds holding in
    let spelled : t ≡ record { depth = t.depth; held = lease ∷ older } =
      ap (λ held. record { depth = t.depth; held = held }) holding in
    let (a, t', out) =
      drop_held-Dropped c.admission t.depth lease older (subst IsThread spelled thread)
        (omega (arith, counted, one)) in
    (a, t', ap (drop_lease c.admission) spelled ∙ out.result)

-- Whatever came before, while the gate is closed no turn adds to the leases that an operation waits
-- for, so that it waits for those edits only that were admitted before it.
pub closed_gate_drains :
    (c d : Coordination)
    → Arises c
    → c.admission.active ≡ true
    → Turn c d
    → d.admission.leases ≤ c.admission.leases
unfolding close_gate reopen_gate
closed_gate_drains c d arises closed (admitted note_id before after t t' a' at h) =
    let (thread, _) = thread_at c before after t at (Arises-IsAdmitting arises) in
    elim ((entered note_id c.admission t.depth t.held thread h).gate) [
      | inl same ↦ (let leases = ap (λ (a : EditAdmission). a.leases) same in omega (arith, leases))
      | inr (opened, _) ↦ cc (opened, closed)
    ]
closed_gate_drains c d arises closed (dropped before after t t' a' at h) =
    let (thread, counted) = thread_at c before after t at (Arises-IsAdmitting arises) in
    let out = drop_lease-Dropped c.admission t.depth t.held thread counted h in
    let leases = out.leases in let fewer = out.fewer in omega (arith, leases, fewer)
closed_gate_drains c d arises closed (gate_closed e) = omega arith
closed_gate_drains c d arises closed (drained e none_left) = omega arith
closed_gate_drains c d arises closed (gave_up e) = omega arith
closed_gate_drains c d arises closed (finished e) = omega arith
