-- ===== src/Sync/Examples.antt =====
-- The model of rust/src/sync/scheduler.rs run on examples.
use burlmd.Prelude.{
  ◌+◌, ◌*◌, ◌^◌, ◌≤◌, min, ◌≡◌, refl, ◌↔◌, true, none, some, [], ◌∷◌, ◌++◌, map, length, arith,
}
use burlmd.Prelude.Text.{codes}
use burlmd.Error.{network_error, git_conflict, ok, err}
use burlmd.Sync.Scheduler.{
  SyncConfig, new, Outcome, fetch_credentials, run_reindex, run_push, run_pull, run_on_conflict,
  Worker, activity, timeout, start, run_sync_cycle, turn, run, wait_for, idle, conflict, is_due,
  take_due,
}
use burlmd.Sync.Scheduler.Cycle.{Settled, cycle_calls, calls-run_sync_cycle}
use burlmd.Sync.Scheduler.Loop.{TimedOut, cycle_due, run-start_Settled, turn-timeout}
use burlmd.Sync.Scheduler.Timing.{wait_for_exact, debounce_postpones, cycles, backoff_doubles}

abbrev config : SyncConfig
config = record {
  repo_path = codes "/bundle";
  remote = codes "origin";
  branch = codes "main";
  debounce = 5000;
  poll_interval = 300000;
  backoff_base = 1000;
  backoff_cap = 60000;
}

configured : new (codes "/bundle") (codes "origin") (codes "main") ≡ config
unfolding new
configured = refl

-- The remote has moved on, and the pull that follows the refused push merges with conflicts.
abbrev conflicting : Outcome
conflicting = record {
  credentials = none;
  push = err git_conflict;
  pushed_at = 10;
  pull = err git_conflict;
  reindex = ok tt;
}

abbrev unreachable : Outcome
unreachable = record {
  credentials = none;
  push = err (network_error (codes "no route"));
  pushed_at = 7000;
  pull = ok tt;
  reindex = ok tt;
}

abbrev worker : Worker
worker = record {
  next_poll = 300000;
  debounce_deadline = none;
  backoff_delay = 1000;
  backoff_deadline = none;
  status = idle;
  last_error = none;
  calls = [];
}

started : start config 0 ≡ worker
unfolding start
started = refl

after_conflict : (run_sync_cycle config conflicting worker).status ≡ conflict
unfolding run_sync_cycle
after_conflict = refl

calls_after_conflict :
    (run_sync_cycle config conflicting worker).calls
    ≡ fetch_credentials
      ∷ run_push (codes "/bundle") (codes "origin") (codes "main") none
      ∷ run_pull (codes "/bundle") (codes "origin") (codes "main") none
      ∷ run_reindex
      ∷ run_on_conflict (err git_conflict)
      ∷ []
unfolding run_sync_cycle
calls_after_conflict = refl

calls-run_sync_cycle_example :
    (run_sync_cycle config conflicting worker).calls
    ≡ worker.calls ++ cycle_calls config conflicting (err git_conflict)
calls-run_sync_cycle_example = calls-run_sync_cycle config conflicting worker

run-start_Settled_example : Settled config (
    run config
      (activity 2000 ∷ timeout 7000 unreachable ∷ timeout 8000 conflicting ∷ [])
      (start config 0))
run-start_Settled_example =
    run-start_Settled config 0
      (activity 2000 ∷ timeout 7000 unreachable ∷ timeout 8000 conflicting ∷ []) (omega arith)

turn-timeout_example :
    TimedOut config 400000 conflicting worker
      (run_sync_cycle config conflicting (record worker { next_poll = 700000 }))
turn-timeout_example =
    turn-timeout config 400000 conflicting worker
      {s' = run_sync_cycle config conflicting (record worker { next_poll = 700000 })}
      (unfold turn take_due is_due in refl)

wait_for_exact_example :
    (cycle_due config 300000 worker ≡ true) ↔ (100 + wait_for 100 worker ≤ 300000)
wait_for_exact_example = wait_for_exact config 100 300000 worker (omega arith)

debounce_postpones_example :
    run config
      (map activity (1000 ∷ 2000 ∷ []) ++ activity 6000 ∷ timeout 10999 unreachable ∷ [])
      worker
    ≡ record worker { debounce_deadline = some (6000 + config.debounce) }
debounce_postpones_example =
    debounce_postpones config (1000 ∷ 2000 ∷ []) 6000 10999 unreachable worker
      (unfold is_due in refl) (omega arith) (omega arith)

backoff_doubles_example :
    (cycles config (unreachable ∷ unreachable ∷ []) worker).backoff_delay
    ≡ min (worker.backoff_delay * 2 ^ length (unreachable ∷ unreachable ∷ [])) config.backoff_cap
backoff_doubles_example =
    backoff_doubles config (unreachable ∷ unreachable ∷ []) worker (omega arith)
      ((codes "no route", refl), ((codes "no route", refl), tt))
