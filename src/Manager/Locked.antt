-- ===== src/Manager/Locked.antt =====
-- cmd/cert-sync/main.go: what `applyConfigLocked` comes to.
use zoraxy_cert_warden.Base.{
  false, Option, none, some, str_eq, nat_eq, ◌≡◌, refl, sym, arith, Option-holds, ap, subst,
}
use zoraxy_cert_warden.Failure.{Error, ok}
use zoraxy_cert_warden.Host.{Host}
use zoraxy_cert_warden.Config.{Config}
use zoraxy_cert_warden.Config.Normalize.{normalize}
use zoraxy_cert_warden.Config.Policy.{PathPolicy}
use zoraxy_cert_warden.Config.Whole.{validate}
use zoraxy_cert_warden.SecretStore.{Secrets}
use zoraxy_cert_warden.Manager.Credentials.{validate_remote_credentials}
use zoraxy_cert_warden.Manager.Fallbacks.{load_runtime_state}
use zoraxy_cert_warden.Manager.Watches.{snapshot_config}
use zoraxy_cert_warden.Manager.Apply.{
  stage_watches, check_staged, apply_staged, apply_candidate, apply_config_locked,
}
use zoraxy_cert_warden.Manager.Quiet.{
  Harmless, Harmless-trans, note-Harmless, load_runtime_state-Harmless,
}
use zoraxy_cert_warden.Manager.Started.{Unused}
use zoraxy_cert_warden.Manager.Atomic.{Settled, stage_watches-Settled}
use zoraxy_cert_warden.Manager.{
  Manager, Failed, Verdict, failed, done, Services, Run, note, attempt, check_context,
  generation_after, plainly,
}

module _ (h : Host) (policy : PathPolicy) (s : Services) where
  -- What a change with this configuration and these credentials comes to: it failed and the active
  -- state and the running watchers are as before, or the configuration is valid, has its
  -- credentials, and was switched to with watchers of the next generation.
  unfoldable pub Changed : Config → Secrets → Run → Verdict (Unit {0}) × Run → Type 0
  Changed staged secrets q (failed f, r) = Harmless q r
  Changed staged secrets q (done _, r) =
      (validate h false (some policy) (some staged) ≡ ok tt)
      × (validate_remote_credentials (some staged) secrets ≡ ok tt)
      × ((old : Config) × Settled h policy s (generation_after q.manager.generation) staged secrets
            old q (done tt, r))

  check_staged-none :
      (staged : Config) (secrets : Secrets)
      → check_staged h policy s staged secrets ≡ none
      → (validate h false (some policy) (some staged) ≡ ok tt)
        × (validate_remote_credentials (some staged) secrets ≡ ok tt)
  unfolding check_staged
  check_staged-none staged secrets e = ground arith

  Settled-Changed :
      (staged : Config) (secrets : Secrets) (old : Config) (q : Run)
      → (validate h false (some policy) (some staged) ≡ ok tt)
      → (validate_remote_credentials (some staged) secrets ≡ ok tt)
      → (x : Verdict (Unit {0}) × Run)
      → Settled h policy s (generation_after q.manager.generation) staged secrets old q x
      → Changed staged secrets q x
  unfolding Changed Settled
  Settled-Changed staged secrets old q v c (failed f, r) b = b
  Settled-Changed staged secrets old q v c (done a, r) b = (v, c, (old, b))

  of_load :
      (staged : Config) (secrets : Secrets) (q : Run)
      → Unused (generation_after q.manager.generation) q
      → check_staged h policy s staged secrets ≡ none
      → (e : Option Error) → (r : Run) → Harmless q r
      → Changed staged secrets q (elim e [
        | some x ↦ (failed (plainly x), r)
        | none ↦
            stage_watches h policy s staged secrets
              (snapshot_config r.manager.cfg)
              (generation_after r.manager.generation)
              r
      ])
  unfolding Changed
  of_load staged secrets q u c (some x) r m = m
  of_load staged secrets q u c none r m =
      let k = check_staged-none staged secrets c in
      let g = ap (λ (x : Manager). x.generation) m.same_active in
      Settled-Changed staged secrets (snapshot_config r.manager.cfg) q k.0 k.1 _ (
        subst
          (λ n.
            Settled h policy s (generation_after q.manager.generation) staged secrets
              (snapshot_config r.manager.cfg) q
              (stage_watches h policy s staged secrets (snapshot_config r.manager.cfg)
                (generation_after n) r))
          (sym g)
          (stage_watches-Settled h policy s (generation_after q.manager.generation) staged secrets
            (snapshot_config r.manager.cfg) q r u m))

  of_check :
      (staged : Config) (secrets : Secrets) (q r : Run)
      → Unused (generation_after q.manager.generation) q
      → Harmless q r
      → (o : Option Failed) → check_staged h policy s staged secrets ≡ o
      → Changed staged secrets q (elim o [
        | some f ↦ (failed f, r)
        | none ↦
            let (e, r') = load_runtime_state h policy s r in
            elim e [
              | some x ↦ (failed (plainly x), r')
              | none ↦
                  stage_watches h policy s staged secrets
                    (snapshot_config r'.manager.cfg)
                    (generation_after r'.manager.generation)
                    r'
            ]
      ])
  unfolding Changed
  of_check staged secrets q r u m (some f) e = m
  of_check staged secrets q r u m none e =
      let k = load_runtime_state h policy s r in
      of_load staged secrets q u e k.0 k.1
        (Harmless-trans q r k.1 m (load_runtime_state-Harmless h policy s r))

  apply_staged-Changed :
      (staged : Config) (secrets : Secrets) (q r : Run)
      → Unused (generation_after q.manager.generation) q
      → Harmless q r
      → Changed staged secrets q (apply_staged h policy s staged secrets r)
  unfolding apply_staged
  apply_staged-Changed staged secrets q r u m =
      of_check staged secrets q r u m (check_staged h policy s staged secrets) refl

  pub apply_config_locked-Changed :
      (cfg : Config) (secrets : Secrets) (q r : Run)
      → Unused (generation_after q.manager.generation) q
      → Harmless q r
      → Changed (normalize cfg) secrets q (apply_config_locked h policy s (some cfg) secrets r)
  unfolding apply_config_locked apply_candidate attempt Changed
  apply_config_locked-Changed cfg secrets q r u m =
      let r' = note check_context r in
      let m' = Harmless-trans q r r' m (note-Harmless check_context refl r) in
      Option-holds (Changed (normalize cfg) secrets q) (s.answer r.log check_context)
        (apply_staged-Changed (normalize cfg) secrets q r' u m') (λ x. m')
