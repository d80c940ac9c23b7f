-- ===== src/Manager/Steady.antt =====
-- cmd/cert-sync/main.go: runs of the synchronisation write states and pending restarts, and leave
-- the configuration, the credentials and the watchers alone.
use zoraxy_cert_warden.Base.{
  ◌∙◌, ℕ, Bool, true, false, not, Option, none, some, List, [], ◌∷◌, Str, ◌==◌, str_eq, nat_eq,
  if◌then◌else◌, ◌≡◌, refl, if-holds, Option-holds,
}
use zoraxy_cert_warden.Text.FilePath.{join}
use zoraxy_cert_warden.Failure.{Error, Result-holds}
use zoraxy_cert_warden.Host.{Host}
use zoraxy_cert_warden.Config.{CertificateConfig, is_cert_warden}
use zoraxy_cert_warden.Config.Policy.{PathPolicy, resolve_source, resolve_destination}
use zoraxy_cert_warden.CertUtil.{CertInfo}
use zoraxy_cert_warden.Sync.Fallback.{Report}
use zoraxy_cert_warden.Manager.Records.{SyncRun, record_sync}
use zoraxy_cert_warden.Manager.Remote.{fetch_remote}
use zoraxy_cert_warden.Manager.Runs.{
  source_time, look_at_destination, mark_changed, finish_run, after_sync, sync_call, publish_run,
  unresolved, outcome_of, classify, fallback_changed, publish_if_active, fetch_and_publish,
  obtain_and_publish, run_sync, sync_generation, is_local,
}
use zoraxy_cert_warden.Manager.Watches.{sync_all}
use zoraxy_cert_warden.Manager.Quiet.{
  is_live, last_save, note-Harmless, is_marked, mark_fallback_pending-Harmless,
}
use zoraxy_cert_warden.Manager.{
  Call, sync_files, sync_material, Material, no_material, Failed, plainly, Services, Run, note,
  wait, lookup_state, lock_destination, stat_source, read_destination,
}
use zoraxy_cert_warden.Manager.Queries.{
  Steady, Steady-refl, Steady-trans, Harmless-Steady, record_state-settings, KeepsSettings,
  fetch_remote-Steady,
}

module _ (s : Services) (calm : KeepsSettings s) where
  module _ (h : Host) (policy : PathPolicy) where
    note-Steady : (c : Call) → is_marked c ≡ false → (r : Run) → Steady r (note c r)
    note-Steady c e r = Harmless-Steady r (note c r) (note-Harmless c e r)

    source_time-Steady :
        (cfg : CertificateConfig) (zero_time : ℕ) (r : Run)
        → Steady r (source_time h policy s cfg zero_time r).1
    unfolding source_time
    source_time-Steady cfg zero_time r =
        if-holds (λ (x : ℕ × Run). Steady r x.1) (is_local cfg.source.source_type)
          (λ e.
            Result-holds (λ (x : ℕ × Run). Steady r x.1)
              (resolve_source h policy cfg.source.certificate true) (λ e. Steady-refl r)
              (λ path. note-Steady (stat_source path) refl r))
          (λ e. Steady-refl r)

    look_at_destination-Steady :
        (cfg : CertificateConfig) (info : Option CertInfo) (r : Run)
        → Steady r (look_at_destination h policy s cfg info r).1
    unfolding look_at_destination
    look_at_destination-Steady cfg none r = Steady-refl r
    look_at_destination-Steady cfg (some info) r = note-Steady (read_destination cfg) refl r

    mark_changed-Steady :
        (destination : Str) (changed : Bool) (failure : Option Failed) (r : Run)
        → Steady r (mark_changed h policy s destination changed failure r).1
    unfolding mark_changed
    mark_changed-Steady destination false failure r = Steady-refl r
    mark_changed-Steady destination true failure r =
        Harmless-Steady r _ (mark_fallback_pending-Harmless h policy s (destination ∷ []) r)

    module _ (name : Str) (g : ℕ) (cfg : CertificateConfig) where
      finish_run-Steady :
          (run : SyncRun) (failure : Option Failed) (r : Run)
          → Steady r (finish_run h policy s name g cfg run failure r).1
      unfolding finish_run record_sync
      finish_run-Steady run failure r = record {
        same_settings =
            record_state-settings g _ name (s.meanwhile r.log r.manager) ∙ calm r.log r.manager;
        same_live = λ w. refl;
        same_saves = refl;
      }

      after_sync-Steady :
          (destination : Str) (zero_time : ℕ) (k : Option CertInfo × Option Report × Option Error)
          (r : Run)
          → Steady r (after_sync h policy s name g cfg destination zero_time k r).1
      unfolding after_sync
      after_sync-Steady destination zero_time (info, result, e) r =
          let k1 = source_time h policy s cfg zero_time r in
          let r1 = k1.1 in
          let k2 = look_at_destination h policy s cfg info r1 in
          let r2 = k2.1 in
          let k3 =
            mark_changed h policy s destination (fallback_changed result) (classify info e) r2 in
          Steady-trans r r1 _ (source_time-Steady cfg zero_time r) (
            Steady-trans r1 r2 _ (look_at_destination-Steady cfg info r1) (
              Steady-trans r2 _ _
                (mark_changed-Steady destination (fallback_changed result) (classify info e) r2)
                (finish_run-Steady (outcome_of destination info result k1.0 k2.0 k3.0) k3.0 k3.1)))

      sync_call-Steady :
          (active_generation : ℕ) (material : Material) (r : Run)
          → Steady r (note (sync_call h policy s name g cfg active_generation material) r)
      unfolding sync_call
      sync_call-Steady active_generation material r =
          if-holds (λ c. Steady r (note c r)) (is_cert_warden cfg.source.source_type)
            (λ e. note-Steady (sync_material active_generation cfg material) refl r)
            (λ e. note-Steady (sync_files active_generation cfg) refl r)

      waited : Str → Run → Run
      waited destination r =
          (wait s (note (lock_destination (join destination cfg.destination.target_name)) r)).1

      waited-Steady : (destination : Str) (r : Run) → Steady r (waited destination r)
      unfolding waited is_live last_save
      waited-Steady destination r = record {
        same_settings = calm _ r.manager;
        same_live = λ w. refl;
        same_saves = refl;
      }

      publish_if_active-Steady :
          (destination : Str) (material : Material) (r : Run)
          → Steady r (publish_if_active h policy s name g cfg destination material r).1
      unfolding publish_if_active publish_run sync_call
      publish_if_active-Steady destination material r =
          Option-holds (λ (x : Option Failed × Run). Steady r x.1)
            (lookup_state r.manager.states name) (Steady-refl r)
            (λ x.
              if-holds (λ (x : Option Failed × Run). Steady r x.1) (not (r.manager.generation == g))
                (λ e. Steady-refl r)
                (λ e.
                  Steady-trans r
                    (note (sync_call h policy s name g cfg r.manager.generation material) r) _
                    (sync_call-Steady r.manager.generation material r)
                    (after_sync-Steady destination
                      (if is_cert_warden cfg.source.source_type then material.retrieved_at else 0)
                      (s.synced r.log)
                      (note (sync_call h policy s name g cfg r.manager.generation material) r))))

      obtain_and_publish-Steady :
          (destination : Str) (r : Run)
          → Steady r (obtain_and_publish h policy s name g cfg destination r).1
      unfolding obtain_and_publish fetch_and_publish
      obtain_and_publish-Steady destination r =
          if-holds (λ (x : Option Failed × Run). Steady r x.1)
            (is_cert_warden cfg.source.source_type)
            (λ e.
              let k = fetch_remote s name g cfg r in
              Option-holds (λ (x : Option Failed × Run). Steady r x.1) k.0.1
                (Steady-trans r k.1 _ (fetch_remote-Steady s calm name g cfg r)
                  (publish_if_active-Steady destination k.0.0 k.1))
                (λ x. fetch_remote-Steady s calm name g cfg r))
            (λ e. publish_if_active-Steady destination no_material r)

      run_sync-Steady : (r : Run) → Steady r (run_sync h policy s name g cfg r).1
      unfolding run_sync waited
      run_sync-Steady r =
          Result-holds (λ (x : Option Failed × Run). Steady r x.1)
            (resolve_destination h policy cfg.destination.target_directory false)
            (λ e. finish_run-Steady (unresolved e) (some (plainly e)) r)
            (λ destination.
              Steady-trans r (waited destination r) _ (waited-Steady destination r)
                (obtain_and_publish-Steady destination (waited destination r)))

    sync_generation-Steady :
        (name : Str) (g : ℕ) (r : Run) → Steady r (sync_generation h policy s name g r).1
    unfolding sync_generation
    sync_generation-Steady name g r =
        Option-holds (λ (x : Option Failed × Run). Steady r x.1)
          (lookup_state r.manager.states name)
          (if-holds (λ (x : Option Failed × Run). Steady r x.1) (r.manager.generation == g)
            (λ e. Steady-refl r) (λ e. Steady-refl r))
          (λ x.
            if-holds (λ (x : Option Failed × Run). Steady r x.1) (r.manager.generation == g)
              (λ e. run_sync-Steady name g x.config r) (λ e. Steady-refl r))

    pub sync_all-Steady :
        (g : ℕ) (cs : List CertificateConfig) (r : Run) → Steady r (sync_all h policy s g cs r)
    unfolding sync_all
    sync_all-Steady g [] r = Steady-refl r
    sync_all-Steady g (c ∷ cs) r =
        let r' = if c.enabled then (sync_generation h policy s c.name g r).1 else r in
        Steady-trans r r' _
          (if-holds (Steady r) c.enabled (λ e. sync_generation-Steady c.name g r)
            (λ e. Steady-refl r))
          (sync_all-Steady g cs r')
