-- ===== src/Sync/Scheduler/Cycle.antt =====
-- One sync cycle: which operations it calls, in which order, and the state that it leaves.
use burlmd.Prelude.{
  refl, ap, ◌∙◌, ◌⊎◌, ◌+◌, if◌then◌else◌, ◌≤◌, ◌≡◌, ◌≢◌, ◌↔◌, inl, inr, true, none, some, is_some,
  List, [], ◌∷◌, ◌++◌, append_assoc, arith, Bool-cases,
}
use burlmd.Error.{auth_expired, git_conflict, Result, ok, err}
use burlmd.Sync.Scheduler.{
  SyncConfig, idle, syncing, retrying, conflict, Outcome, Call, fetch_credentials, run_reindex,
  run_push, run_pull, run_on_conflict, Worker, merge_ran, record_reindex, settle_merge, pull_failed,
  after_merge, pulled, pushed, call, reset_backoff, run_sync_cycle,
}

-- The calls of a cycle, by what the push and the pull returned. A pull that succeeded or that ended
-- in a conflict has run a merge.
abbrev pub pull_calls : SyncConfig → Outcome → Result (Unit {0}) → List Call
pull_calls config o (ok _) =
    run_pull config.repo_path config.remote config.branch o.credentials
    ∷ run_reindex
    ∷ run_on_conflict o.pull
    ∷ []
pull_calls config o (err git_conflict) =
    run_pull config.repo_path config.remote config.branch o.credentials
    ∷ run_reindex
    ∷ run_on_conflict o.pull
    ∷ []
pull_calls config o (err _) =
    run_pull config.repo_path config.remote config.branch o.credentials ∷ []

abbrev pub cycle_calls : SyncConfig → Outcome → Result (Unit {0}) → List Call
cycle_calls config o (err git_conflict) =
    fetch_credentials
    ∷ run_push config.repo_path config.remote config.branch o.credentials
    ∷ pull_calls config o o.pull
cycle_calls config o r =
    fetch_credentials ∷ run_push config.repo_path config.remote config.branch o.credentials ∷ []

-- What a worker is like between two turns of its loop.
pub record Settled (config : SyncConfig) (s : Worker) : Type 0 where
  pub retry_pending : (s.status ≡ retrying) ↔ (is_some s.backoff_deadline ≡ true)
  pub error_kept : (s.status ≡ idle) ↔ (s.last_error ≡ none)
  pub conflict_kept : s.status ≡ conflict → s.last_error ≡ some git_conflict
  pub not_syncing : s.status ≢ syncing
  pub delay_from_base : config.backoff_base ≤ s.backoff_delay
  pub delay_capped : s.backoff_delay ≤ config.backoff_cap

calls-settle_merge :
    (pull reindex : Result (Unit {0})) (s : Worker) → (settle_merge pull reindex s).calls ≡ s.calls
unfolding settle_merge
calls-settle_merge pull reindex s = ground arith

calls-record_reindex : (r : Result (Unit {0})) (s : Worker) → (record_reindex r s).calls ≡ s.calls
unfolding record_reindex
calls-record_reindex r s = ground arith

calls-pull_failed : (r : Result (Unit {0})) (s : Worker) → (pull_failed r s).calls ≡ s.calls
unfolding pull_failed
calls-pull_failed r s = ground arith

module _ (config : SyncConfig) (o : Outcome) where
  merged_calls : Result (Unit {0}) → List Call
  merged_calls r =
      if merge_ran r
      then run_pull config.repo_path config.remote config.branch o.credentials
        ∷ run_reindex
        ∷ run_on_conflict o.pull
        ∷ []
      else run_pull config.repo_path config.remote config.branch o.credentials ∷ []

  merged-pull_calls : (r : Result (Unit {0})) → merged_calls r ≡ pull_calls config o r
  unfolding merged_calls merge_ran
  merged-pull_calls (ok _) = refl
  merged-pull_calls (err git_conflict) = refl
  merged-pull_calls (err _) = refl

  calls-pulled : (s : Worker) → (pulled config o s).calls ≡ s.calls ++ pull_calls config o o.pull
  unfolding pulled after_merge call reset_backoff merged_calls
  calls-pulled s =
      (elim (Bool-cases (merge_ran o.pull)) [
        | inl e ↦ rw e (simp (calls-settle_merge, calls-record_reindex, append_assoc))
        | inr e ↦ rw e (simp calls-pull_failed)
      ])
      ∙ ap (λ calls. s.calls ++ calls) (merged-pull_calls o.pull)

  calls-pushed :
      (r : Result (Unit {0})) (s : Worker) (before : List Call)
      → s.calls
        ≡ before
          ++ fetch_credentials
            ∷ run_push config.repo_path config.remote config.branch o.credentials
            ∷ []
      → (pushed config o r s).calls ≡ before ++ cycle_calls config o r
  unfolding pushed reset_backoff
  calls-pushed (err git_conflict) s before e =
      rw (calls-pulled s, e) (append_assoc before _ (pull_calls config o o.pull))
  calls-pushed (err auth_expired) s before e = e
  calls-pushed _ s before e = e

  -- A cycle asks for the credentials, pushes, and pulls only if the push was refused as a conflict;
  -- the re-index and then the conflict hook are called exactly if that pull ran a merge.
  pub calls-run_sync_cycle :
      (s : Worker) → (run_sync_cycle config o s).calls ≡ s.calls ++ cycle_calls config o o.push
  unfolding run_sync_cycle
  calls-run_sync_cycle s =
      calls-pushed o.push _ s.calls (append_assoc s.calls (fetch_credentials ∷ []) _)

  -- A cycle, whatever its operations return, leaves a worker settled, if its backoff delay was between
  -- the base and the cap: it is retrying exactly while a retry is scheduled, idle exactly while no
  -- error is recorded, in conflict only with the conflict recorded, never syncing, and its backoff
  -- delay stays between the base and the cap.
  pub run_sync_cycle-Settled :
      (s : Worker)
      → config.backoff_base ≤ s.backoff_delay
      → s.backoff_delay ≤ config.backoff_cap
      → Settled config (run_sync_cycle config o s)
  unfolding run_sync_cycle
  run_sync_cycle-Settled s low high = ground arith

  -- A cycle leaves the other deadlines alone. A network failure of the push sets the next retry.
  pub record Deadlines (s t : Worker) : Type 0 where
    pub debounce : t.debounce_deadline ≡ s.debounce_deadline
    pub poll : t.next_poll ≡ s.next_poll
    pub retry :
        (t.backoff_deadline ≡ none) ⊎ (t.backoff_deadline ≡ some (o.pushed_at + s.backoff_delay))

  pub run_sync_cycle-Deadlines : (s : Worker) → Deadlines s (run_sync_cycle config o s)
  unfolding run_sync_cycle pushed pulled after_merge call reset_backoff record_reindex settle_merge
      pull_failed merge_ran
  run_sync_cycle-Deadlines s = ground arith
