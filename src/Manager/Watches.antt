-- ===== src/Manager/Watches.antt =====
-- cmd/cert-sync/main.go: the watchers and the states of a new configuration, and how it is made active.
use zoraxy_cert_warden.Base.{
  ℕ, Bool, false, ◌&&◌, Option, none, some, List, [], ◌∷◌, ◌++◌, Str, codes, ◌==◌, str_eq, nat_eq,
  if◌then◌else◌,
}
use zoraxy_cert_warden.Failure.{Error, joined, ok, err}
use zoraxy_cert_warden.Host.{Host}
use zoraxy_cert_warden.Config.{CertificateConfig, Config, is_cert_warden}
use zoraxy_cert_warden.Config.Policy.{PathPolicy, resolve_destination}
use zoraxy_cert_warden.Status.{State}
use zoraxy_cert_warden.SecretStore.{Secrets}
use zoraxy_cert_warden.Manager.Runs.{sync_generation}
use zoraxy_cert_warden.Manager.{
  Level, level_debug, level_info, level_warn, level_error, Watch, Manager, plainly, Verdict, failed,
  done, Services, Run, P, note, call, make_poller, make_watcher, start_watch, stop_watch,
  is_pending,
}

-- `setLogLevel`
unfoldable pub level_of : Str → Level
unfolding str_eq
level_of level =
    if level == codes "debug"
    then level_debug
    else if level == codes "warn"
    then level_warn
    else if level == codes "error"
    then level_error
    else level_info

-- `&status.State{Config: certCfg}`
unfoldable pub new_state : CertificateConfig → State
new_state c = record {
  config = c;
  source_info = none;
  source_fingerprint = [];
  source_digest = [];
  destination_digest = [];
  destination_fingerprint = [];
  last_source_modification = 0;
  last_source_validation = none;
  last_destination_validation = none;
  last_successful_sync = none;
  last_attempted_sync = none;
  last_watcher_error = none;
  source_validation_error = none;
  destination_validation_error = none;
  sync_error = none;
  watcher_error = none;
  fallback_pending_restart = false;
  cert_warden_query = none;
}

-- `SnapshotConfig`
unfoldable pub snapshot_config : Option Config → Config
snapshot_config none = record { certificates = []; log_level = [] }
snapshot_config (some cfg) = cfg

-- `errors.Join` of an error and what may have gone wrong in the rollback.
unfoldable pub join_rollback : Error → Option Error → Error
join_rollback e none = e
join_rollback e (some f) = joined e f

-- `stopWatchers`: no watcher's `Stop` answers anything.
unfoldable pub stop_watches : List Watch → Run → Run
stop_watches [] r = r
stop_watches (w ∷ ws) r = stop_watches ws (note (stop_watch w) r)

module _ (h : Host) (policy : PathPolicy) (s : Services) where
  -- The call of the factory for a certificate: `pollerFactory` cannot fail.
  unfoldable pub make_watch : CertificateConfig → Watch → P (Option Error)
  make_watch c w r =
      if is_cert_warden c.source.source_type
      then (none, note (make_poller w) r)
      else call s (make_watcher w) r

  abbrev pub watch_of : CertificateConfig → ℕ → Watch
  watch_of c generation = record { name = c.name; generation = generation }

  -- `!certCfg.Enabled || !certCfg.Sync.AutoSync`, negated.
  abbrev pub wants_watch : CertificateConfig → Bool
  wants_watch c = c.enabled && c.sync.auto_sync

  -- The loop that makes the watchers; those made before a failure are stopped.
  unfoldable pub make_watches : ℕ → List CertificateConfig → List Watch → P (Verdict (List Watch))
  unfolding make_watch stop_watches
  make_watches generation [] made r = (done made, r)
  make_watches generation (c ∷ cs) made r =
      let (e, r') = make_watch c (watch_of c generation) r in
      let rest = make_watches generation cs (made ++ (watch_of c generation ∷ [])) r' in
      let skipped = make_watches generation cs made r in
      if wants_watch c
      then (elim e [ none ↦ rest | some x ↦ (failed (plainly x), stop_watches made r') ])
      else skipped

  -- The loop that starts them; all are stopped if one does not start.
  unfoldable pub start_watches : List Watch → List Watch → P (Option Error)
  unfolding stop_watches
  start_watches all [] r = (none, r)
  start_watches all (w ∷ ws) r =
      let (e, r') = call s (start_watch w) r in
      elim e [ none ↦ start_watches all ws r' | some x ↦ (some x, stop_watches all r') ]

  -- The new state of a certificate, which shows whether its destination waits for a restart.
  unfoldable pub fresh_state : List Str → CertificateConfig → State
  unfolding new_state resolve_destination is_pending
  fresh_state pending c = record (new_state c) {
    fallback_pending_restart =
        if c.fallback
        then (elim (resolve_destination h policy c.destination.target_directory false) [
          | err e ↦ false
          | ok destination ↦ is_pending pending destination
        ])
        else false;
  }

  unfoldable pub fresh_states : List Str → List CertificateConfig → List (Str × State)
  unfolding fresh_state
  fresh_states pending [] = []
  fresh_states pending (c ∷ cs) = (c.name, fresh_state pending c) ∷ fresh_states pending cs

  -- The assignment of the active state, under the lock.
  unfoldable pub activate : Config → Secrets → List Watch → ℕ → Manager → Manager
  unfolding fresh_states level_of
  activate staged secrets watches generation m = record m {
    cfg = some staged;
    secrets = secrets;
    states = fresh_states m.fallback_pending staged.certificates;
    watchers = watches;
    generation = generation;
    log_level = level_of staged.log_level;
  }

  -- The first runs of the new configuration; their errors stay in the states.
  unfoldable pub sync_all : ℕ → List CertificateConfig → Run → Run
  unfolding sync_generation
  sync_all generation [] r = r
  sync_all generation (c ∷ cs) r =
      sync_all generation cs
        (if c.enabled then (sync_generation h policy s c.name generation r).1 else r)
