-- ===== src/Manager/Changes.antt =====
-- cmd/cert-sync/main.go: what a change of the configuration promises, whether it fails or not.
use zoraxy_cert_warden.Base.{
  Bool, true, false, not, some, str_eq, nat_eq, ◌≡◌, refl, ◌∷◌, ◌∙◌, arith, Option-holds,
}
use zoraxy_cert_warden.Failure.{ok, Result-holds}
use zoraxy_cert_warden.Host.{Host}
use zoraxy_cert_warden.Config.{Config}
use zoraxy_cert_warden.Config.Normalize.{normalize}
use zoraxy_cert_warden.Config.Policy.{PathPolicy}
use zoraxy_cert_warden.Config.Whole.{validate}
use zoraxy_cert_warden.SecretStore.{Secrets}
use zoraxy_cert_warden.Manager.Credentials.{
  validate_remote_credentials, prune_secrets, secrets_equal,
}
use zoraxy_cert_warden.Manager.Apply.{
  restore_secrets, apply_with, save_and_apply, apply_config_and_secrets, apply_config_locked,
}
use zoraxy_cert_warden.Manager.Quiet.{is_live, active, Harmless, Harmless-refl}
use zoraxy_cert_warden.Manager.Started.{Unused}
use zoraxy_cert_warden.Manager.Queries.{KeepsSettings}
use zoraxy_cert_warden.Manager.{
  Log, Watch, Failed, Verdict, failed, done, Services, Run, save_secrets, generation_after,
}
use zoraxy_cert_warden.Manager.Locked.{Changed, apply_config_locked-Changed}
use zoraxy_cert_warden.Manager.Switching.{Switched, of_Settled}

module _ (h : Host) (policy : PathPolicy) (s : Services) where
  -- The active state and the running watchers are as before.
  record Undone (q r : Run) : Type 0 where
    same_active : active r.manager ≡ active q.manager
    same_live : (w : Watch) → is_live w r.log ≡ is_live w q.log

  -- What the whole change comes to: it is undone, or the switch was made.
  unfoldable Concluded : Config → Secrets → Run → Verdict (Unit {0}) × Run → Type 0
  Concluded staged secrets q (failed f, r) = Undone q r
  Concluded staged secrets q (done _, r) =
      (validate h false (some policy) (some staged) ≡ ok tt)
      × (validate_remote_credentials (some staged) secrets ≡ ok tt)
      × (KeepsSettings s → Switched h policy s staged secrets q r)

  -- Between `q` and the change, calls were made that move no watcher.
  module _ (q : Run) (l : Log) (same : (w : Watch) → is_live w l ≡ is_live w q.log) where
    Harmless-Undone : (r : Run) → Harmless (record q { log = l }) r → Undone q r
    Harmless-Undone r m = record {
      same_active = m.same_active;
      same_live = λ w. m.same_live w ∙ same w;
    }

    Switched-since :
        (staged : Config) (secrets : Secrets) (r : Run)
        → Switched h policy s staged secrets (record q { log = l }) r
        → Switched h policy s staged secrets q r
    Switched-since staged secrets r k = record {
      new_config = k.new_config;
      new_secrets = k.new_secrets;
      new_generation = k.new_generation;
      new_level = k.new_level;
      new_watchers = k.new_watchers;
      new_live = λ w. ground (arith, k.new_live w, same w);
    }

    of_verdict :
        (changed : Bool) (staged : Config) (old secrets : Secrets) (k : Verdict (Unit {0}) × Run)
        → Changed h policy s staged secrets (record q { log = l }) k
        → Concluded staged secrets q (elim k.0 [
          | done _ ↦ (done tt, k.1)
          | failed f ↦ restore_secrets h policy s changed old f k.1
        ])
    unfolding restore_secrets Changed Concluded is_live
    of_verdict changed staged old secrets (done a, r) (v, c, (was, b)) = (
      v,
      c,
      λ calm.
          Switched-since staged secrets r (
            of_Settled h policy s calm staged secrets was (record q { log = l }) (done a, r) refl
              b),
    )
    of_verdict false staged old secrets (failed f, r) m = Harmless-Undone r m
    of_verdict true staged old secrets (failed f, r) m = record {
      same_active = m.same_active;
      same_live = λ w. m.same_live w ∙ same w;
    }

    apply_with-Concluded :
        (changed : Bool) (cfg : Config) (old secrets : Secrets)
        → Unused (generation_after q.manager.generation) q
        → Concluded
            (normalize cfg)
            secrets
            q
            (apply_with h policy s changed (some cfg) old secrets (record q { log = l }))
    unfolding apply_with
    apply_with-Concluded changed cfg old secrets u =
        let q' = record q { log = l } in
        of_verdict changed (normalize cfg) old secrets
          (apply_config_locked h policy s (some cfg) secrets q')
          (apply_config_locked-Changed h policy s cfg secrets q' q' (λ w e. same w ∙ u w e)
            (Harmless-refl q'))

  save_and_apply-Concluded :
      (changed : Bool) (cfg : Config) (old secrets : Secrets) (q : Run)
      → Unused (generation_after q.manager.generation) q
      → Concluded
          (normalize cfg)
          secrets
          q
          (save_and_apply h policy s changed (some cfg) old secrets q)
  unfolding save_and_apply Concluded is_live
  save_and_apply-Concluded false cfg old secrets q u =
      apply_with-Concluded q q.log (λ w. refl) false cfg old secrets u
  save_and_apply-Concluded true cfg old secrets q u =
      Option-holds (Concluded (normalize cfg) secrets q) (s.answer q.log (save_secrets secrets))
        (apply_with-Concluded q (save_secrets secrets ∷ q.log) (λ w. refl) true cfg old secrets u)
        (λ x. record { same_active = refl; same_live = λ w. refl })

  apply_config_and_secrets-Concluded :
      (cfg : Config) (requested : Secrets) (q : Run)
      → Unused (generation_after q.manager.generation) q
      → Concluded
          (normalize cfg)
          (prune_secrets (some cfg) requested)
          q
          (apply_config_and_secrets h policy s (some cfg) requested q)
  unfolding apply_config_and_secrets Concluded
  apply_config_and_secrets-Concluded cfg requested q u =
      let next = prune_secrets (some cfg) requested in
      Result-holds (Concluded (normalize cfg) next q) (validate_remote_credentials (some cfg) next)
        (λ e. record { same_active = refl; same_live = λ w. refl })
        (λ a.
          save_and_apply-Concluded (not (secrets_equal q.manager.secrets next)) cfg
            q.manager.secrets next q u)

  of_Concluded-failed :
      (staged : Config) (secrets : Secrets) (f : Failed) (q : Run) (x : Verdict (Unit {0}) × Run)
      → x.0 ≡ failed f
      → Concluded staged secrets q x
      → Undone q x.1
  unfolding Concluded
  of_Concluded-failed staged secrets f q (failed f', r) e b = b
  of_Concluded-failed staged secrets f q (done a, r) e b = cc

  of_Concluded-done :
      KeepsSettings s
      → (staged : Config) (secrets : Secrets) (q : Run) (x : Verdict (Unit {0}) × Run)
      → x.0 ≡ done tt
      → Concluded staged secrets q x
      → (validate h false (some policy) (some staged) ≡ ok tt)
        × (validate_remote_credentials (some staged) secrets ≡ ok tt)
        × Switched h policy s staged secrets q x.1
  unfolding Concluded
  of_Concluded-done calm staged secrets q (failed f, r) e b = cc
  of_Concluded-done calm staged secrets q (done a, r) e (v, c, k) = (v, c, k calm)

-- A change of the configuration and the credentials that returns an error has changed nothing:
-- wherever it failed, the active configuration, credentials, states, watchers, generation and log
-- level are the old ones, and exactly the watchers run that ran before; provided that no watcher
-- of the next generation ran before.
pub failed_change_leaves_all :
    (h : Host) (policy : PathPolicy) (s : Services) (cfg : Config) (requested : Secrets) (q : Run)
    (f : Failed)
    → Unused (generation_after q.manager.generation) q
    → (apply_config_and_secrets h policy s (some cfg) requested q).0 ≡ failed f
    → (active (apply_config_and_secrets h policy s (some cfg) requested q).1.manager
        ≡ active q.manager)
      × ((w : Watch)
          → is_live w (apply_config_and_secrets h policy s (some cfg) requested q).1.log
            ≡ is_live w q.log)
failed_change_leaves_all h policy s cfg requested q f u e =
    let m =
      of_Concluded-failed h policy s (normalize cfg) (prune_secrets (some cfg) requested) f q _ e
        (apply_config_and_secrets-Concluded h policy s cfg requested q u) in
    (m.same_active, m.same_live)

-- A change of the configuration and the credentials that returns no error has made the normalized
-- configuration active, which is valid, and the requested credentials of its remote certificates,
-- each of which has them for its server and name; the generation and the log level are the new
-- ones, the old watchers have stopped, those of the new generation run, and all others are left
-- alone; provided that no watcher of the next generation ran before, and that the other goroutines
-- leave the settings alone meanwhile.
pub done_change_switches :
    (h : Host) (policy : PathPolicy) (s : Services) (cfg : Config) (requested : Secrets) (q : Run)
    → KeepsSettings s
    → Unused (generation_after q.manager.generation) q
    → (apply_config_and_secrets h policy s (some cfg) requested q).0 ≡ done tt
    → (validate h false (some policy) (some (normalize cfg)) ≡ ok tt)
      × (validate_remote_credentials (some (normalize cfg)) (prune_secrets (some cfg) requested)
          ≡ ok tt)
      × Switched h policy s
          (normalize cfg)
          (prune_secrets (some cfg) requested)
          q
          (apply_config_and_secrets h policy s (some cfg) requested q).1
done_change_switches h policy s cfg requested q calm u e =
    of_Concluded-done h policy s calm (normalize cfg) (prune_secrets (some cfg) requested) q _ e
      (apply_config_and_secrets-Concluded h policy s cfg requested q u)
