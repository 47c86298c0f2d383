-- ===== src/Sync/Scheduler.antt =====
-- rust/src/sync/scheduler.rs. An `Instant` and a `Duration` are numbers of one unit. What the
-- worker hears from outside comes with the wake: the command or the timeout, the clock's reading,
-- and for a sync cycle what each injected operation returned. The calls of those operations are
-- kept in order in `calls`. The two mutexes are fields: no holder of them panics.
pub mod Cycle
pub mod Loop
pub mod Timing
use burlmd.Prelude.{
  ℕ, ◌+◌, ◌-◌, ◌*◌, min, Bool, true, false, Option, none, some, List, [], ◌∷◌, ◌++◌, leb,
  if◌then◌else◌,
}
use burlmd.Prelude.Text.{Text}
use burlmd.Error.{AppError, network_error, auth_expired, git_conflict, Result, ok, err}

pub record SyncConfig : Type 0 where
  pub repo_path : Text
  pub remote : Text
  pub branch : Text
  pub debounce : ℕ
  pub poll_interval : ℕ
  pub backoff_base : ℕ
  pub backoff_cap : ℕ

-- The unit is a millisecond.
unfoldable pub new : Text → Text → Text → SyncConfig
new repo_path remote branch = record {
  repo_path = repo_path;
  remote = remote;
  branch = branch;
  debounce = 5000;
  poll_interval = 5 * 60 * 1000;
  backoff_base = 1000;
  backoff_cap = 60000;
}

pub data SyncStatus : Type 0 where
  idle syncing retrying conflict error : SyncStatus

pub record GitCredentials : Type 0 where
  pub username : Text
  pub token : Text

-- What the injected operations return in one cycle.
pub record Outcome : Type 0 where
  pub credentials : Option GitCredentials
  pub push : Result (Unit {0})
  pub pushed_at : ℕ  -- `Instant::now()` after the push
  pub pull : Result (Unit {0})
  pub reindex : Result (Unit {0})

-- A call of an injected operation, with its arguments.
pub data Call : Type 0 where
  fetch_credentials run_reindex : Call
  run_push run_pull : Text → Text → Text → Option GitCredentials → Call
  run_on_conflict : Result (Unit {0}) → Call

pub record Worker : Type 0 where
  pub next_poll : ℕ
  pub debounce_deadline : Option ℕ
  pub backoff_delay : ℕ
  pub backoff_deadline : Option ℕ
  pub status : SyncStatus
  pub last_error : Option AppError
  pub calls : List Call

unfoldable pub start : SyncConfig → ℕ → Worker
start config now = record {
  next_poll = now + config.poll_interval;
  debounce_deadline = none;
  backoff_delay = config.backoff_base;
  backoff_deadline = none;
  status = idle;
  last_error = none;
  calls = [];
}

call : Call → Worker → Worker
call c s = record s { calls = s.calls ++ c ∷ [] }

reset_backoff : SyncConfig → Worker → Worker
reset_backoff config s = record s { backoff_delay = config.backoff_base; backoff_deadline = none }

-- `matches!(pull_result, Ok(()) | Err(AppError::GitConflict))`
unfoldable pub merge_ran : Result (Unit {0}) → Bool
merge_ran (ok _) = true
merge_ran (err git_conflict) = true
merge_ran (err other) = false

record_reindex : Result (Unit {0}) → Worker → Worker
record_reindex (ok _) s = s
record_reindex (err e) s = record s { last_error = some e }

-- The end of the conflict path, once a merge has run and the hooks have been called.
settle_merge : Result (Unit {0}) → Result (Unit {0}) → Worker → Worker
settle_merge (ok _) (ok _) s = record s { last_error = none; status = idle }
settle_merge (ok _) (err e) s = record s { status = error }
settle_merge (err e) reindex s = record s { last_error = some git_conflict; status = conflict }

after_merge : Outcome → Worker → Worker
after_merge o s =
    settle_merge o.pull o.reindex
      (call (run_on_conflict o.pull) (record_reindex o.reindex (call run_reindex s)))

-- No merge ran: `pull_result.expect_err` is the error that the pull returned.
pull_failed : Result (Unit {0}) → Worker → Worker
pull_failed (ok _) s = s
pull_failed (err e) s = record s { last_error = some e; status = error }

pulled : SyncConfig → Outcome → Worker → Worker
pulled config o s =
    let s' =
      reset_backoff config
        (call (run_pull config.repo_path config.remote config.branch o.credentials) s) in
    if merge_ran o.pull then after_merge o s' else pull_failed o.pull s'

pushed : SyncConfig → Outcome → Result (Unit {0}) → Worker → Worker
pushed config o (ok _) s = record (reset_backoff config s) { last_error = none; status = idle }
pushed config o (err (network_error msg)) s = record s {
  last_error = some (network_error msg);
  status = retrying;
  backoff_deadline = some (o.pushed_at + s.backoff_delay);
  backoff_delay = min (s.backoff_delay * 2) config.backoff_cap;
}
pushed config o (err auth_expired) s =
    reset_backoff config (record s { last_error = some auth_expired; status = error })
pushed config o (err git_conflict) s = pulled config o s
pushed config o (err other) s =
    reset_backoff config (record s { last_error = some other; status = error })

unfoldable pub run_sync_cycle : SyncConfig → Outcome → Worker → Worker
unfolding call reset_backoff merge_ran record_reindex settle_merge after_merge pull_failed pulled
    pushed
run_sync_cycle config o s = pushed config o o.push (
    call (run_push config.repo_path config.remote config.branch o.credentials)
      (call fetch_credentials (record s { status = syncing })))

-- `deadline.is_some_and(|d| now >= d)`
unfoldable pub is_due : Option ℕ → ℕ → Bool
is_due none now = false
is_due (some deadline) now = leb deadline now

-- Whether a timeout at `now` runs a cycle, with the deadline that it uses up.
unfoldable pub take_due : SyncConfig → ℕ → Worker → Worker × Bool
unfolding is_due
take_due config now s =
    if is_due s.backoff_deadline now
    then (record s { backoff_deadline = none }, true)
    else if is_due s.debounce_deadline now
    then (record s { debounce_deadline = none }, true)
    else if leb s.next_poll now
    then (record s { next_poll = now + config.poll_interval }, true)
    else (s, false)

-- `wait = wait.min(deadline.saturating_duration_since(now))` for a deadline that is set.
sooner : Option ℕ → ℕ → ℕ → ℕ
sooner none now wait = wait
sooner (some deadline) now wait = min wait (deadline - now)

unfoldable pub wait_for : ℕ → Worker → ℕ
unfolding sooner
wait_for now s = sooner s.backoff_deadline now (sooner s.debounce_deadline now (s.next_poll - now))

-- What ends a wait: a command, the sender's end, or the timeout with the outcome of a cycle, should
-- one run. The number is the clock's reading.
pub data Wake : Type 0 where
  activity : ℕ → Wake
  stop disconnected : Wake
  timeout : ℕ → Outcome → Wake

on_timeout : SyncConfig → Outcome → Worker × Bool → Worker
on_timeout config o (s, true) = run_sync_cycle config o s
on_timeout config o (s, false) = s

-- One turn of the loop; `none` is its `break`.
unfoldable pub turn : SyncConfig → Wake → Worker → Option Worker
unfolding on_timeout
turn config (activity now) s = some (record s { debounce_deadline = some (now + config.debounce) })
turn config stop s = none
turn config disconnected s = none
turn config (timeout now o) s = some (on_timeout config o (take_due config now s))

-- The worker as the loop leaves it, or as the wakes so far have made it.
unfoldable pub run : SyncConfig → List Wake → Worker → Worker
run config [] s = s
run config (w ∷ ws) s = elim (turn config w s) [ none ↦ s | some s' ↦ run config ws s' ]
