-- ===== src/Persist/Admission/Invariant.antt =====
-- What holds of the threads, the count of leases and the gate, whatever turn is taken.
use burlmd.Prelude.{
  ℕ, zero, suc, ◌≡◌, refl, sym, ap, subst, ◌∙◌, ◌≤◌, ◌+◌, true, false, List, ◌∷◌, ◌++◌, arith, All,
  All-append, All-append_left, All-append_right, ◌⊎◌, inl, inr,
}
use burlmd.Persist.Admission.{
  EditAdmission, Thread, Operation, unlocked, draining, running, Coordination, Turn, admitted,
  dropped, gate_closed, drained, gave_up, finished, Arises, started, then_turn, idle_threads,
  close_gate, reopen_gate,
}
use burlmd.Persist.Admission.Threads.{
  IsThread, holds, lease_count, lease_count-append, entered, drop_lease-Dropped,
}

-- The gate, by how far the operation has come.
abbrev pub Gate : Operation → EditAdmission → Type 0
Gate unlocked a = a.active ≡ false
Gate draining a = a.active ≡ true
Gate running a = (a.active ≡ true) × (a.leases ≡ 0)

pub record IsAdmitting (c : Coordination) : Type 0 where
  pub threads : All IsThread c.threads
  pub leases : c.admission.leases ≡ lease_count c.threads
  pub gate : Gate c.operation c.admission

-- One thread of many is exchanged.
pub exchanged :
    (c : Coordination) (before after : List Thread) (t t' : Thread) (a' : EditAdmission)
    → c.threads ≡ before ++ t ∷ after
    → IsAdmitting c
    → IsThread t'
    → a'.leases + holds t.held ≡ c.admission.leases + holds t'.held
    → Gate c.operation a'
    → IsAdmitting (record c { admission = a'; threads = before ++ t' ∷ after })
exchanged c before after t t' a' at inv thread leases gate =
    let all = subst (All IsThread) at inv.threads in
    let counted = inv.leases ∙ ap lease_count at ∙ lease_count-append before (t ∷ after) in
    record {
      threads =
          All-append IsThread before (t' ∷ after) (All-append_left IsThread before (t ∷ after) all)
            (thread, (All-append_right IsThread before (t ∷ after) all).1);
      leases =
          let total = lease_count-append before (t' ∷ after) in
          omega (arith, counted, leases, total);
      gate = gate;
    }

pub thread_at :
    (c : Coordination) (before after : List Thread) (t : Thread)
    → c.threads ≡ before ++ t ∷ after
    → IsAdmitting c
    → IsThread t × (holds t.held ≤ c.admission.leases)
thread_at c before after t at inv = (
  (All-append_right IsThread before (t ∷ after) (subst (All IsThread) at inv.threads)).0,
  (let counted = inv.leases ∙ ap lease_count at ∙ lease_count-append before (t ∷ after) in
      omega (arith, counted)),
)

pub entered-Gate :
    (o : Operation) (a a' : EditAdmission)
    → (a' ≡ a) ⊎ ((a.active ≡ false) × (a'.active ≡ false))
    → Gate o a
    → Gate o a'
entered-Gate o a a' (inl same) gate = subst (Gate o) (sym same) gate
entered-Gate unlocked a a' (inr (_, opened)) gate = opened
entered-Gate draining a a' (inr (opened, _)) gate = cc (opened, gate)
entered-Gate running a a' (inr (opened, _)) gate = cc (opened, gate.0)

pub dropped-Gate :
    (o : Operation) (a a' : EditAdmission)
    → a'.active ≡ a.active
    → a'.leases ≤ a.leases
    → Gate o a
    → Gate o a'
dropped-Gate unlocked a a' same less gate = same ∙ gate
dropped-Gate draining a a' same less gate = same ∙ gate
dropped-Gate running a a' same less gate =
    (same ∙ gate.0, (let none_left = gate.1 in omega (arith, less, none_left)))

pub Turn-IsAdmitting : {c d : Coordination} → Turn c d → IsAdmitting c → IsAdmitting d
unfolding close_gate reopen_gate
Turn-IsAdmitting {c} (admitted note_id before after t t' a' at h) inv =
    let (thread, _) = thread_at c before after t at inv in
    let out = entered note_id c.admission t.depth t.held thread h in
    exchanged c before after t t' a' at inv out.thread out.leases
      (entered-Gate c.operation c.admission a' out.gate inv.gate)
Turn-IsAdmitting {c} (dropped before after t t' a' at h) inv =
    let (thread, counted) = thread_at c before after t at inv in
    let out = drop_lease-Dropped c.admission t.depth t.held thread counted h in
    exchanged c before after t t' a' at inv out.thread out.leases (
      dropped-Gate c.operation c.admission a' out.gate
        (let leases = out.leases in let fewer = out.fewer in omega (arith, leases, fewer)) inv.gate)
Turn-IsAdmitting {c} (gate_closed e) inv = record {
  threads = inv.threads;
  leases = inv.leases;
  gate = refl;
}
Turn-IsAdmitting {c} (drained e none_left) inv = record {
  threads = inv.threads;
  leases = inv.leases;
  gate = (subst (λ o. Gate o c.admission) e inv.gate, none_left);
}
Turn-IsAdmitting {c} (gave_up e) inv = record {
  threads = inv.threads;
  leases = inv.leases;
  gate = refl;
}
Turn-IsAdmitting {c} (finished e) inv = record {
  threads = inv.threads;
  leases = inv.leases;
  gate = refl;
}

pub idle-IsThread : (n : ℕ) → All IsThread (idle_threads n)
idle-IsThread zero = tt
idle-IsThread (suc n) = ((refl, tt), idle-IsThread n)

pub idle-lease_count : (n : ℕ) → lease_count (idle_threads n) ≡ 0
idle-lease_count zero = refl
idle-lease_count (suc n) = let ih = idle-lease_count n in omega (arith, ih)

pub Arises-IsAdmitting : {c : Coordination} → Arises c → IsAdmitting c
Arises-IsAdmitting (started n) = record {
  threads = idle-IsThread n;
  leases = sym (idle-lease_count n);
  gate = refl;
}
Arises-IsAdmitting (then_turn arises turn) = Turn-IsAdmitting turn (Arises-IsAdmitting arises)
