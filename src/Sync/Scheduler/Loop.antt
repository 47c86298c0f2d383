-- ===== src/Sync/Scheduler/Loop.antt =====
-- The worker's loop: what holds between its turns, how it ends, and how retries back off.
use burlmd.Prelude.{
  none, Option, ◌<◌, ◌+◌, Bool-cases, ℕ, ◌≤◌, ◌≡◌, refl, sym, ap, ◌∙◌, ◌⊎◌, Bool, true, false, ◌||◌,
  some, List, [], ◌∷◌, ◌++◌, arith, leb, Option-cases, some_inj, inl, inr, subst,
}
use burlmd.Sync.Scheduler.{
  SyncConfig, Outcome, Worker, Wake, activity, stop, disconnected, timeout, start, is_due, take_due,
  on_timeout, turn, run, run_sync_cycle,
}
use burlmd.Sync.Scheduler.Cycle.{
  Deadlines, run_sync_cycle-Deadlines, Settled, cycle_calls, run_sync_cycle-Settled,
  calls-run_sync_cycle,
}

module _ (config : SyncConfig) where
  on_timeout-Settled :
      (o : Outcome) (s : Worker) (due : Bool)
      → config.backoff_base ≤ s.backoff_delay
      → s.backoff_delay ≤ config.backoff_cap
      → (due ≡ false → Settled config s)
      → Settled config (on_timeout config o (s, due))
  unfolding on_timeout
  on_timeout-Settled o s true low high h = run_sync_cycle-Settled config o s low high
  on_timeout-Settled o s false low high h = h refl

  -- Whether a timeout at this time runs a cycle.
  abbrev pub cycle_due : ℕ → Worker → Bool
  cycle_due now s =
      is_due s.backoff_deadline now || (is_due s.debounce_deadline now || leb s.next_poll now)

  record Taken (now : ℕ) (s t : Worker) (due : Bool) : Type 0 where
    same_delay : t.backoff_delay ≡ s.backoff_delay
    otherwise_same : due ≡ false → t ≡ s

  take_due-Taken :
      (now : ℕ) (s : Worker) → Taken now s (take_due config now s).0 (take_due config now s).1
  unfolding take_due
  take_due-Taken now s = ground arith

  turn-Settled :
      (w : Wake) (s : Worker) {s' : Worker}
      → Settled config s
      → turn config w s ≡ some s'
      → Settled config s'
  unfolding turn
  turn-Settled (activity now) s h e = subst (Settled config) (some_inj e) (ground arith)
  turn-Settled stop s h e = cc
  turn-Settled disconnected s h e = cc
  turn-Settled (timeout now o) s h e =
      let (t, due) = take_due config now s in
      let k = take_due-Taken now s in
      subst (Settled config) (some_inj e) (
        on_timeout-Settled o t due (rw k.same_delay h.delay_from_base)
          (rw k.same_delay h.delay_capped) (λ d. rw (k.otherwise_same d) h))

  run-Settled : (ws : List Wake) (s : Worker) → Settled config s → Settled config (run config ws s)
  unfolding run
  run-Settled [] s h = h
  run-Settled (w ∷ ws) s h = elim (Option-cases (turn config w s)) [
    | inl e ↦ rw (e, run) h
    | inr (s', e) ↦ rw (e, run) (run-Settled ws s' (turn-Settled w s h e))
  ]

  -- However the worker is woken, between two turns it is settled: retrying exactly while a retry is
  -- scheduled, idle exactly while no error is recorded, in conflict only with the conflict recorded,
  -- never syncing, and with a backoff delay between the base and the cap, given that the base does
  -- not pass the cap.
  pub run-start_Settled :
      (now : ℕ) (ws : List Wake)
      → config.backoff_base ≤ config.backoff_cap
      → Settled config (run config ws (start config now))
  unfolding start
  run-start_Settled now ws h = run-Settled ws (start config now) (ground arith)

  -- A deadline that is set has passed.
  abbrev pub HasPassed : Option ℕ → ℕ → Type 0
  HasPassed deadline now = (d : ℕ) × (deadline ≡ some d) × (d ≤ now)

  is_due-HasPassed :
      (deadline : Option ℕ) (now : ℕ) → is_due deadline now ≡ true → HasPassed deadline now
  unfolding is_due
  is_due-HasPassed none now h = cc h
  is_due-HasPassed (some d) now h = (d, refl, ground arith)

  is_due-ahead :
      (deadline : Option ℕ) (now : ℕ) → is_due deadline now ≡ false → ¬ HasPassed deadline now
  unfolding is_due
  is_due-ahead none now h (d, e, _) = cc e
  is_due-ahead (some k) now h (d, e, passed) =
      let same : k ≡ d = some_inj e in absurd (ground arith)

  -- The first deadline that has passed, of the retry, the debounce and the poll in this order, and
  -- how it is used up before the cycle.
  abbrev pub UsesUp : ℕ → Worker → Worker → Type 0
  UsesUp now s t =
      (HasPassed s.backoff_deadline now × (t ≡ record s { backoff_deadline = none }))
      ⊎ ((¬ HasPassed s.backoff_deadline now)
          × HasPassed s.debounce_deadline now
          × (t ≡ record s { debounce_deadline = none }))
      ⊎ ((¬ HasPassed s.backoff_deadline now)
          × (¬ HasPassed s.debounce_deadline now)
          × (s.next_poll ≤ now)
          × (t ≡ record s { next_poll = now + config.poll_interval }))

  abbrev pub IsQuiet : ℕ → Worker → Type 0
  IsQuiet now s =
      (¬ HasPassed s.backoff_deadline now)
      × (¬ HasPassed s.debounce_deadline now)
      × (now < s.next_poll)

  take_due-cases :
      (now : ℕ) (s : Worker)
      → ((t : Worker) × (take_due config now s ≡ (t, true)) × UsesUp now s t)
        ⊎ ((take_due config now s ≡ (s, false)) × IsQuiet now s)
  unfolding take_due
  take_due-cases now s = elim (Bool-cases (is_due s.backoff_deadline now)) [
    | inl b ↦ inl (_, rw (b, take_due) refl, inl (is_due-HasPassed _ now b, refl))
    | inr b ↦
        let no_retry = is_due-ahead s.backoff_deadline now b in
        elim (Bool-cases (is_due s.debounce_deadline now)) [
          | inl d ↦
              inl
                (_, rw (b, d, take_due) refl, inr (inl (no_retry, is_due-HasPassed _ now d, refl)))
          | inr d ↦
              let no_debounce = is_due-ahead s.debounce_deadline now d in
              elim (Bool-cases (leb s.next_poll now)) [
                | inl p ↦ inl (
                  _,
                  rw (b, d, p, take_due) refl,
                  inr (inr (no_retry, no_debounce, ground arith, refl)),
                )
                | inr p ↦ inr (rw (b, d, p, take_due) refl, (no_retry, no_debounce, ground arith))
              ]
        ]
  ]

  UsesUp-calls : (now : ℕ) (s t : Worker) → UsesUp now s t → t.calls ≡ s.calls
  UsesUp-calls now s t (inl (_, e)) = ap (λ (w : Worker). w.calls) e
  UsesUp-calls now s t (inr (inl (_, _, e))) = ap (λ (w : Worker). w.calls) e
  UsesUp-calls now s t (inr (inr (_, _, _, e))) = ap (λ (w : Worker). w.calls) e

  -- What a timeout comes to.
  abbrev pub TimedOut : ℕ → Outcome → Worker → Worker → Type 0
  TimedOut now o s s' =
      ((t : Worker) × UsesUp now s t
        × (s' ≡ run_sync_cycle config o t)
        × (s'.calls ≡ s.calls ++ cycle_calls config o o.push)
        × Deadlines config o t s')
      ⊎ (IsQuiet now s × (s' ≡ s))

  -- A timeout uses up one deadline that has passed, that of the retry before that of the debounce
  -- before that of the poll, and runs exactly one cycle, which leaves the debounce and the poll as
  -- they then are and the retry unset or set anew; and if no deadline has passed it changes nothing.
  pub turn-timeout :
      (now : ℕ) (o : Outcome) (s : Worker) {s' : Worker}
      → turn config (timeout now o) s ≡ some s'
      → TimedOut now o s s'
  unfolding turn on_timeout
  turn-timeout now o s {s'} e = elim (take_due-cases now s) [
    | inl (t, taken, used) ↦
        let ran : s' ≡ run_sync_cycle config o t = sym (some_inj (rw taken at e)) in
        inl (
          t,
          used,
          ran,
          ap (λ (w : Worker). w.calls) ran
              ∙ (calls-run_sync_cycle config o t
                  ∙ ap (λ c. c ++ cycle_calls config o o.push) (UsesUp-calls now s t used)),
          subst (Deadlines config o t) (sym ran) (run_sync_cycle-Deadlines config o t),
        )
    | inr (kept, quiet) ↦ inr (quiet, sym (some_inj (rw kept at e)))
  ]
