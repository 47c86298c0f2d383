-- ===== src/Sync/Scheduler/Timing.antt =====
-- When the worker wakes, and how a retry's delay grows.
use native.Mathlib.Decide.{dec_le}
use native.Mathlib.Nat.{pow-suc}
use burlmd.Prelude.{
  ℕ, ◌+◌, ◌*◌, ◌^◌, ◌≤◌, ◌<◌, zero, suc, min, ◌≡◌, refl, ◌↔◌, true, false, some, List, [], ◌∷◌,
  ◌++◌, map, length, All, arith,
}
use burlmd.Prelude.Text.{Text}
use burlmd.Error.{network_error, err}
use burlmd.Sync.Scheduler.{
  SyncConfig, Outcome, Worker, activity, timeout, is_due, take_due, wait_for, on_timeout, pushed,
  run_sync_cycle, turn, run,
}
use burlmd.Sync.Scheduler.Loop.{cycle_due}

-- The computed wait ends at the first deadline: from now on, a cycle is due exactly once the wait is
-- over.
pub wait_for_exact :
    (config : SyncConfig) (now t : ℕ) (s : Worker)
    → now ≤ t
    → (cycle_due config t s ≡ true) ↔ (now + wait_for now s ≤ t)
unfolding wait_for is_due
wait_for_exact config now t s later = ground arith

-- Activity keeps pushing the cycle out: after any number of activity pings, the last at `last`, a
-- timeout before `last + debounce` changes nothing more, unless a retry or the poll is due.
pub debounce_postpones :
    (config : SyncConfig) (pings : List ℕ) (last now : ℕ) (o : Outcome) (s : Worker)
    → is_due s.backoff_deadline now ≡ false
    → now < s.next_poll
    → now < last + config.debounce
    → run config (map activity pings ++ activity last ∷ timeout now o ∷ []) s
      ≡ record s { debounce_deadline = some (last + config.debounce) }
unfolding run turn take_due on_timeout is_due
debounce_postpones config [] last now o s b p d = ground arith
debounce_postpones config (t ∷ pings) last now o s b p d =
    debounce_postpones config pings last now o
      (record s { debounce_deadline = some (t + config.debounce) }) b p d

min_doubled : (d most p : ℕ) → 1 ≤ p → min (min (d * 2) most * p) most ≡ min (d * (p * 2)) most
min_doubled d most zero h = elim h [ ]
min_doubled d most (suc q) h = elim (dec_le (d * 2) most) [
  | yes low ↦ let e : min (d * 2) most ≡ d * 2 = omega arith in rw e (omega arith)
  | no high ↦ let e : min (d * 2) most ≡ most = omega arith in rw e (omega arith)
]

-- Cycles that fail one after another for want of a network.
unfoldable pub cycles : SyncConfig → List Outcome → Worker → Worker
cycles config [] s = s
cycles config (o ∷ os) s = cycles config os (run_sync_cycle config o s)

abbrev pub NetworkFailed : Outcome → Type 0
NetworkFailed o = (msg : Text) × (o.push ≡ err (network_error msg))

pow_pos : (n : ℕ) → 1 ≤ 2 ^ n
pow_pos zero = omega arith
pow_pos (suc n) = rw pow-suc (omega (arith, pow_pos n))

failed_delay :
    (config : SyncConfig) (o : Outcome) (s : Worker)
    → NetworkFailed o
    → ((run_sync_cycle config o s).backoff_delay ≡ min (s.backoff_delay * 2) config.backoff_cap)
      × ((run_sync_cycle config o s).backoff_deadline ≡ some (o.pushed_at + s.backoff_delay))
unfolding run_sync_cycle
failed_delay config o s (msg, e) = rw (e, pushed) (refl, refl)

-- The delay after so many network failures in a row is doubled by each, up to the cap.
pub backoff_doubles :
    (config : SyncConfig) (os : List Outcome) (s : Worker)
    → s.backoff_delay ≤ config.backoff_cap
    → All NetworkFailed os
    → (cycles config os s).backoff_delay ≡ min (s.backoff_delay * 2 ^ length os) config.backoff_cap
unfolding cycles
backoff_doubles config [] s h all = omega arith
backoff_doubles config (o ∷ os) s h all =
    let d = (failed_delay config o s all.0).0 in
    rw
      (backoff_doubles config os (run_sync_cycle config o s) (rw d (omega arith)) all.1, d, pow-suc)
      (min_doubled s.backoff_delay config.backoff_cap (2 ^ length os) (pow_pos (length os)))
