-- ===== src/Manager/Stale.antt =====
-- cmd/cert-sync/main.go: a run of the synchronisation that a change of the configuration has
-- overtaken publishes nothing.
use zoraxy_cert_warden.Base.{
  ℕ, List, Bool, true, false, not, Option, none, some, [], ◌∷◌, ◌++◌, All, Str, ◌≡◌, refl, ◌∙◌,
  arith, if-holds, Option-holds, ◌==◌, nat_eq, if◌then◌else◌, ap, ◌⊎◌, inl, inr,
}
use zoraxy_cert_warden.Failure.{Error, Result-holds}
use zoraxy_cert_warden.Text.FilePath.{join}
use zoraxy_cert_warden.Host.{Host}
use zoraxy_cert_warden.Config.{CertificateConfig, is_cert_warden}
use zoraxy_cert_warden.Config.Policy.{PathPolicy, resolve_source, resolve_destination}
use zoraxy_cert_warden.Manager.Records.{record_sync}
use zoraxy_cert_warden.Manager.Remote.{fetch_remote}
use zoraxy_cert_warden.Manager.Fallbacks.{mark_fallback_pending, save_runtime_state, set_pending}
use zoraxy_cert_warden.CertUtil.{CertInfo}
use zoraxy_cert_warden.Sync.Fallback.{Report}
use zoraxy_cert_warden.SecretStore.{Secrets}
use zoraxy_cert_warden.Manager.Secrecy.{Entitled, fetch_remote-Entitled}
use zoraxy_cert_warden.Manager.Runs.{
  source_time, look_at_destination, mark_changed, after_sync, publish_run, sync_call, is_local,
  classify, fallback_changed, finish_run, publish_if_active, fetch_and_publish, obtain_and_publish,
  run_sync, sync_generation,
}
use zoraxy_cert_warden.Manager.{
  Failed, Log, Services, Run, note, wait, lookup_state, no_material, Material, make_client, fetch,
  lock_destination, sync_files, sync_material,
}

-- The generations in which the destination was written, the last one first.
unfoldable pub publications : Log → List ℕ
publications [] = []
publications (sync_files g cfg ∷ l) = g ∷ publications l
publications (sync_material g cfg material ∷ l) = g ∷ publications l
publications (_ ∷ l) = publications l

-- Nothing was published.
abbrev Silent : Run → Run → Type 0
Silent r r' = publications r'.log ≡ publications r.log

-- What a run has come to: it has published nothing, or once, in its own generation.
abbrev Current : ℕ → Run → Run → Type 0
Current g r r' =
    (publications r'.log ≡ publications r.log) ⊎ (publications r'.log ≡ g ∷ publications r.log)

Current-since :
    (g : ℕ) (q r t : Run) → publications r.log ≡ publications q.log → Current g r t → Current g q t
Current-since g q r t e (inl c) = inl (c ∙ e)
Current-since g q r t e (inr c) = inr (c ∙ ap (λ l. g ∷ l) e)

-- A query of Cert Warden publishes nothing.
Entitled-publications :
    (secrets : Secrets) (name : Str) (calls l : Log)
    → All (Entitled secrets name) calls
    → publications (calls ++ l) ≡ publications l
unfolding publications
Entitled-publications secrets name [] l a = refl
Entitled-publications secrets name (make_client u c k ∷ calls) l (e, a) =
    Entitled-publications secrets name calls l a
Entitled-publications secrets name (fetch u n ∷ calls) l (e, a) =
    Entitled-publications secrets name calls l a
Entitled-publications secrets name (_ ∷ calls) l (e, a) = absurd e

fetch_remote-publications :
    (s : Services) (name : Str) (g : ℕ) (cfg : CertificateConfig) (r : Run)
    → publications (fetch_remote s name g cfg r).1.log ≡ publications r.log
fetch_remote-publications s name g cfg r =
    let (calls, e, a) = fetch_remote-Entitled s name g cfg r in
    ap publications e ∙ Entitled-publications r.manager.secrets name calls r.log a

module _ (h : Host) (policy : PathPolicy) (s : Services) where
  source_time-Silent :
      (cfg : CertificateConfig) (t : ℕ) (r : Run) → Silent r (source_time h policy s cfg t r).1
  unfolding source_time publications
  source_time-Silent cfg t r =
      if-holds (λ (x : ℕ × Run). Silent r x.1) (is_local cfg.source.source_type)
        (λ e.
          Result-holds (λ (x : ℕ × Run). Silent r x.1)
            (resolve_source h policy cfg.source.certificate true) (λ e. refl) (λ path. refl))
        (λ e. refl)

  look_at_destination-Silent :
      (cfg : CertificateConfig) (info : Option CertInfo) (r : Run)
      → Silent r (look_at_destination h policy s cfg info r).1
  unfolding look_at_destination publications
  look_at_destination-Silent cfg none r = refl
  look_at_destination-Silent cfg (some info) r = refl

  mark_changed-Silent :
      (destination : Str) (changed : Bool) (failure : Option Failed) (r : Run)
      → Silent r (mark_changed h policy s destination changed failure r).1
  unfolding mark_changed mark_fallback_pending save_runtime_state set_pending publications
  mark_changed-Silent destination false failure r = refl
  mark_changed-Silent destination true failure r = ground arith

  module _ (name : Str) (g : ℕ) (cfg : CertificateConfig) where
    after_sync-Silent :
        (destination : Str) (t : ℕ) (k : Option CertInfo × Option Report × Option Error) (r : Run)
        → Silent r (after_sync h policy s name g cfg destination t k r).1
    unfolding after_sync finish_run record_sync
    after_sync-Silent destination t (info, result, e) r =
        let k1 = source_time h policy s cfg t r in
        let k2 = look_at_destination h policy s cfg info k1.1 in
        let k3 =
          mark_changed h policy s destination (fallback_changed result) (classify info e) k2.1 in
        mark_changed-Silent destination (fallback_changed result) (classify info e) k2.1
        ∙ look_at_destination-Silent cfg info k1.1
        ∙ source_time-Silent cfg t r

    sync_call-publications :
        (active_generation : ℕ) (material : Material) (l : Log)
        → publications (sync_call h policy s name g cfg active_generation material ∷ l)
          ≡ active_generation ∷ publications l
    unfolding sync_call publications
    sync_call-publications active_generation material l =
        if-holds (λ c. publications (c ∷ l) ≡ active_generation ∷ publications l)
          (is_cert_warden cfg.source.source_type) (λ e. refl) (λ e. refl)

    publish_run-Current :
        (destination : Str) (material : Material) (r : Run)
        → r.manager.generation ≡ g
        → Current g r (publish_run h policy s name g cfg destination material r).1
    unfolding publish_run
    publish_run-Current destination material r e =
        let c = sync_call-publications r.manager.generation material r.log in
        let k =
          after_sync-Silent destination
            (if is_cert_warden cfg.source.source_type then material.retrieved_at else 0)
            (s.synced r.log)
            (note (sync_call h policy s name g cfg r.manager.generation material) r) in
        inr (k ∙ c ∙ ap (λ n. n ∷ publications r.log) e)

    publish_if_active-Current :
        (destination : Str) (material : Material) (r : Run)
        → Current g r (publish_if_active h policy s name g cfg destination material r).1
    unfolding publish_if_active nat_eq
    publish_if_active-Current destination material r =
        Option-holds (λ (x : Option Failed × Run). Current g r x.1)
          (lookup_state r.manager.states name) (inl refl)
          (λ x.
            if-holds (λ (x : Option Failed × Run). Current g r x.1)
              (not (r.manager.generation == g)) (λ e. inl refl)
              (λ e. publish_run-Current destination material r (ground arith)))

    obtain_and_publish-Current :
        (destination : Str) (r : Run)
        → Current g r (obtain_and_publish h policy s name g cfg destination r).1
    unfolding obtain_and_publish fetch_and_publish
    obtain_and_publish-Current destination r =
        if-holds (λ (x : Option Failed × Run). Current g r x.1)
          (is_cert_warden cfg.source.source_type)
          (λ e.
            let k = fetch_remote s name g cfg r in
            let c = fetch_remote-publications s name g cfg r in
            Option-holds (λ (x : Option Failed × Run). Current g r x.1) k.0.1
              (Current-since g r k.1
                (publish_if_active h policy s name g cfg destination k.0.0 k.1).1 c
                (publish_if_active-Current destination k.0.0 k.1))
              (λ x. inl c))
          (λ e. publish_if_active-Current destination no_material r)

    run_sync-Current : (r : Run) → Current g r (run_sync h policy s name g cfg r).1
    unfolding run_sync finish_run publications
    run_sync-Current r =
        Result-holds (λ (x : Option Failed × Run). Current g r x.1)
          (resolve_destination h policy cfg.destination.target_directory false) (λ e. inl refl)
          (λ destination.
            let w =
              (wait s
                (note (lock_destination (join destination cfg.destination.target_name)) r)).1 in
            Current-since g r w (obtain_and_publish h policy s name g cfg destination w).1 refl
              (obtain_and_publish-Current destination w))

-- A run of the synchronisation writes the destination at most once, and only in the generation that
-- it was started for: that generation is still the active one at the call that publishes, whatever
-- other goroutines did while the run waited.
pub sync_generation-Current :
    (h : Host) (policy : PathPolicy) (s : Services) (name : Str) (g : ℕ) (r : Run)
    → (publications (sync_generation h policy s name g r).1.log ≡ publications r.log)
      ⊎ (publications (sync_generation h policy s name g r).1.log ≡ g ∷ publications r.log)
unfolding sync_generation
sync_generation-Current h policy s name g r =
    Option-holds (λ (x : Option Failed × Run). Current g r x.1) (lookup_state r.manager.states name)
      (if-holds (λ (x : Option Failed × Run). Current g r x.1) (r.manager.generation == g)
        (λ e. inl refl) (λ e. inl refl))
      (λ x.
        if-holds (λ (x : Option Failed × Run). Current g r x.1) (r.manager.generation == g)
          (λ e. run_sync-Current h policy s name g x.config r) (λ e. inl refl))
