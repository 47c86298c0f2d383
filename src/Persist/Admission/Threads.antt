-- ===== src/Persist/Admission/Threads.antt =====
-- What an admission and a drop do to a thread and to the count of leases.
use burlmd.Prelude.{
  ℕ, zero, suc, ◌≡◌, ◌≢◌, refl, sym, ap, subst, ◌∙◌, ◌≤◌, ◌<◌, ◌+◌, Bool, true, false, some, List,
  [], ◌∷◌, ◌++◌, ltb, length, arith, Bool-cases, some_inj, ◌⊎◌, inl, inr,
}
use burlmd.Prelude.Text.{Text}
use burlmd.Error.{ok, ok_inj}
use burlmd.Persist.Admission.{
  EditAdmission, EditLease, Thread, edit_lease_is_held, edit_lease_enter, edit_lease,
  edit_lease_exit, uncount, checked_pred, drop_lease, idle_thread,
}

-- Only a thread's oldest lease is counted.
abbrev pub IsOver : Bool → List EditLease → Type 0
IsOver true older = older ≡ []
IsOver false older = older ≢ []

abbrev pub IsNested : List EditLease → Type 0
IsNested [] = Unit
IsNested (lease ∷ older) = IsOver lease.counted older × IsNested older

abbrev pub IsThread : Thread → Type 0
IsThread t = (t.depth ≡ length t.held) × IsNested t.held

-- Whether a thread holds a lease, as a number.
abbrev pub holds : List EditLease → ℕ
holds [] = 0
holds (lease ∷ older) = 1

abbrev pub lease_count : List Thread → ℕ
lease_count [] = 0
lease_count (t ∷ ts) = holds t.held + lease_count ts

pub lease_count-append :
    (ts us : List Thread) → lease_count (ts ++ us) ≡ lease_count ts + lease_count us
lease_count-append [] us = omega arith
lease_count-append (t ∷ ts) us = let ih = lease_count-append ts us in omega arith

pub holds_bound : (ls : List EditLease) → holds ls ≤ 1
holds_bound [] = omega arith
holds_bound (l ∷ ls) = omega arith

pub holds_some : (ls : List EditLease) → ls ≢ [] → holds ls ≡ 1
holds_some [] h = absurd (h refl)
holds_some (l ∷ ls) h = refl

pub record Entered (a : EditAdmission) (t : Thread) (a' : EditAdmission) (t' : Thread)
    : Type 0 where
  pub thread : IsThread t'
  pub leases : a'.leases + holds t.held ≡ a.leases + holds t'.held
  pub gate : (a' ≡ a) ⊎ ((a.active ≡ false) × (a'.active ≡ false))

pub first_refused :
    (note_id : Text) (a : EditAdmission) {q : EditAdmission × Thread}
    → a.active ≡ true
    → edit_lease note_id a idle_thread ≢ ok q
unfolding edit_lease edit_lease_is_held
first_refused note_id a closed h = cc (rw closed at h)

pub first_admitted :
    (note_id : Text) (a : EditAdmission)
    → a.active ≡ false
    → edit_lease note_id a idle_thread
      ≡ ok (
        record { active = a.active; leases = suc a.leases },
        record { depth = 1; held = record { counted = true } ∷ [] },
      )
unfolding edit_lease edit_lease_is_held edit_lease_enter
first_admitted note_id a opened = rw opened refl

pub inner_admitted :
    (note_id : Text) (a : EditAdmission) (t : Thread)
    → 0 < t.depth
    → edit_lease note_id a t
      ≡ ok (a, record { depth = suc t.depth; held = record { counted = false } ∷ t.held })
unfolding edit_lease edit_lease_is_held edit_lease_enter
inner_admitted note_id a t deep = let held : ltb 0 t.depth ≡ true = ground arith in rw held refl

pub entered :
    (note_id : Text) (a : EditAdmission) (depth : ℕ) (held : List EditLease) {a' : EditAdmission}
    {t' : Thread}
    → let t : Thread = record { depth = depth; held = held } in
      IsThread t → edit_lease note_id a t ≡ ok (a', t') → Entered a t a' t'
entered note_id a depth (lease ∷ older) (deep, nested) h =
    let t : Thread = record { depth = depth; held = lease ∷ older } in
    let into = sym (inner_admitted note_id a t (omega (arith, deep))) ∙ h in
    subst (λ (q : EditAdmission × Thread). Entered a t q.0 q.1) (ok_inj into)
      (record { thread = (ap suc deep, ((λ e. cc e), nested)); leases = refl; gate = inl refl })
entered note_id a (suc depth) [] (deep, nested) h = absurd (omega (arith, deep))
entered note_id a zero [] thread h = elim (Bool-cases a.active) [
  | inl closed ↦ absurd (first_refused note_id a closed h)
  | inr opened ↦
      let into = sym (first_admitted note_id a opened) ∙ h in
      subst (λ (q : EditAdmission × Thread). Entered a idle_thread q.0 q.1) (ok_inj into)
        (record { thread = (refl, (refl, tt)); leases = omega arith; gate = inr (opened, opened) })
]

pub record Dropped (a : EditAdmission) (t : Thread) (a' : EditAdmission) (t' : Thread)
    : Type 0 where
  pub thread : IsThread t'
  pub leases : a'.leases + holds t.held ≡ a.leases + holds t'.held
  pub gate : a'.active ≡ a.active
  pub fewer : holds t'.held ≤ holds t.held
  pub result : drop_lease a t ≡ some (a', t')

pub pred_some : (n : ℕ) → 1 ≤ n → (m : ℕ) × (checked_pred n ≡ some m) × (suc m ≡ n)
unfolding checked_pred
pred_some zero positive = absurd (omega (arith, positive))
pred_some (suc n) positive = (n, refl, refl)

-- The drop of a lease that is held does not underflow.
pub drop_held-Dropped :
    (a : EditAdmission) (depth : ℕ) (lease : EditLease) (older : List EditLease)
    → let t : Thread = record { depth = depth; held = lease ∷ older } in
      IsThread t → 1 ≤ a.leases → (a' : EditAdmission) × (t' : Thread) × Dropped a t a' t'
unfolding drop_lease edit_lease_exit uncount
drop_held-Dropped a depth lease older (deep, (over, nested)) counted =
    let (depth', exited, before) = pred_some depth (omega (arith, deep)) in
    let (leases, uncounted, one_less) = pred_some a.leases counted in
    let t' : Thread = record { depth = depth'; held = older } in
    elim (Bool-cases lease.counted) [
      | inl oldest ↦ (
        record { active = a.active; leases = leases },
        t',
        record {
          thread = (omega (arith, deep, before), nested);
          leases =
              let last = ap holds (subst (λ c. IsOver c older) oldest over) in
              omega (arith, last, one_less);
          gate = refl;
          fewer = holds_bound older;
          result = rw (exited, oldest, uncounted, drop_lease, edit_lease_exit, uncount) refl;
        },
      )
      | inr inner ↦ (
        a,
        t',
        record {
          thread = (omega (arith, deep, before), nested);
          leases =
              ap (λ k. a.leases + k)
                (sym (holds_some older (subst (λ c. IsOver c older) inner over)));
          gate = refl;
          fewer = holds_bound older;
          result = rw (exited, inner, drop_lease, edit_lease_exit, uncount) refl;
        },
      )
    ]

pub drop_lease-Dropped :
    (a : EditAdmission) (depth : ℕ) (held : List EditLease) {a' : EditAdmission} {t' : Thread}
    → let t : Thread = record { depth = depth; held = held } in
      IsThread t → holds held ≤ a.leases → drop_lease a t ≡ some (a', t') → Dropped a t a' t'
unfolding drop_lease
drop_lease-Dropped a depth [] thread counted h = cc h
drop_lease-Dropped a depth (lease ∷ older) thread counted h =
    let t : Thread = record { depth = depth; held = lease ∷ older } in
    let (a', t', out) = drop_held-Dropped a depth lease older thread counted in
    subst (λ (q : EditAdmission × Thread). Dropped a t q.0 q.1) (some_inj (sym out.result ∙ h)) out
