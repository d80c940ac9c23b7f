-- ===== src/Manager/Saved.antt =====
-- cmd/cert-sync/main.go: the credentials in memory and the credentials that were last saved.
use zoraxy_cert_warden.Base.{
  Bool, true, false, not, ◌||◌, Option, none, some, List, [], ◌∷◌, Str, ◌==◌, str_eq, nat_eq, ◌≡◌,
  ◌≢◌, refl, sym, ◌∙◌, arith, if-holds, ap, subst, Distinct, ◌⊎◌, inl, inr,
}
use zoraxy_cert_warden.Failure.{Error, wrap, Result-holds}
use zoraxy_cert_warden.Host.{Host}
use zoraxy_cert_warden.Config.{CertificateConfig, Config}
use zoraxy_cert_warden.Config.Normalize.{normalize}
use zoraxy_cert_warden.Config.Policy.{PathPolicy}
use zoraxy_cert_warden.SecretStore.{Credentials, Secrets, lookup_secret}
use zoraxy_cert_warden.Manager.Credentials.{
  is_remote, set_secret, keep_secret, prune_loop, validate_remote_credentials, prune_secrets,
  secrets_equal,
}
use zoraxy_cert_warden.Manager.SameSecrets.{names_of, has, SameMap, secrets_equal_iff}
use zoraxy_cert_warden.Manager.Apply.{
  restore_secrets, apply_with, save_and_apply, apply_config_and_secrets, apply_config_locked,
}
use zoraxy_cert_warden.Manager.Quiet.{is_live, last_save, Harmless-refl}
use zoraxy_cert_warden.Manager.Started.{Unused}
use zoraxy_cert_warden.Manager.Queries.{KeepsSettings}
use zoraxy_cert_warden.Manager.Locked.{Changed, apply_config_locked-Changed}
use zoraxy_cert_warden.Manager.Switching.{of_Settled, of_Settled-last_save}
use zoraxy_cert_warden.Manager.{
  plainly, Manager, Log, Verdict, failed, done, Services, Run, note, save_secrets, generation_after,
}

-- The credentials of the last save that succeeded; `first` are those before all calls.
unfoldable pub stored : Services → Secrets → Log → Secrets
stored s first [] = first
stored s first (save_secrets secrets ∷ l) =
    let before = stored s first l in
    elim (s.answer l (save_secrets secrets)) [ none ↦ secrets | some e ↦ before ]
stored s first (_ ∷ l) = stored s first l

stored-last_save :
    (s : Services) (first : Secrets) (l : Log) → stored s first (last_save l) ≡ stored s first l
unfolding stored last_save
stored-last_save s first [] = refl
stored-last_save s first (save_secrets secrets ∷ l) = refl
stored-last_save s first (_ ∷ l) = stored-last_save s first l

-- A map of credentials never gets a name twice.
has-set_secret :
    (l : Secrets) (n : Str) (c : Credentials) (m : Str)
    → has (set_secret l n c) m ≡ (n == m || has l m)
unfolding set_secret str_eq
has-set_secret [] n c m = ground arith
has-set_secret ((k, d) ∷ l) n c m = ground (arith, has-set_secret l n c m)

set_secret-Distinct :
    (l : Secrets) (n : Str) (c : Credentials)
    → Distinct (names_of l)
    → Distinct (names_of (set_secret l n c))
unfolding set_secret str_eq
set_secret-Distinct [] n c d = (refl, tt)
set_secret-Distinct ((k, x) ∷ l) n c d =
    if-holds (λ p. Distinct (names_of p)) (k == n) (λ e. d)
      (λ e. (ground (arith, has-set_secret l n c k, d.0), set_secret-Distinct l n c d.1))

prune_loop-Distinct :
    (cs : List CertificateConfig) (secrets pruned : Secrets)
    → Distinct (names_of pruned)
    → Distinct (names_of (prune_loop cs secrets pruned))
unfolding prune_loop keep_secret
prune_loop-Distinct [] secrets pruned d = d
prune_loop-Distinct (c ∷ cs) secrets pruned d = prune_loop-Distinct cs secrets _ (
    if-holds (λ p. Distinct (names_of p)) (is_remote c) (λ e. keep (lookup_secret secrets c.name))
      (λ e. d))
  where
    keep : (o : Option Credentials) → Distinct (names_of (keep_secret o c.name pruned))
    keep none = d
    keep (some k) = set_secret-Distinct pruned c.name k d

prune_secrets-Distinct :
    (cfg : Config) (secrets : Secrets) → Distinct (names_of (prune_secrets (some cfg) secrets))
unfolding prune_secrets
prune_secrets-Distinct cfg secrets = prune_loop-Distinct cfg.certificates secrets [] tt

module _ (s : Services) (first : Secrets) where
  -- The saved credentials and those in memory are the same map.
  abbrev pub Agree : Run → Type 0
  Agree r =
      ((name : Str)
        → lookup_secret (stored s first r.log) name ≡ lookup_secret r.manager.secrets name)
      × Distinct (names_of r.manager.secrets)

  -- They agree, or the last call was the save that should have taken the credentials back, and it
  -- failed.
  abbrev pub Agreed : Secrets → Run → Type 0
  Agreed old r =
      Agree r
      ⊎ ((l : Log) × (r.log ≡ save_secrets old ∷ l) × (s.answer l (save_secrets old) ≢ none))

  abbrev Ended : Secrets → Verdict (Unit {0}) × Run → Type 0
  Ended old x = Agreed old x.1

  same_saves-stored :
      (l l' : Log) → last_save l' ≡ last_save l → stored s first l' ≡ stored s first l
  same_saves-stored l l' e =
      sym (stored-last_save s first l') ∙ ap (stored s first) e ∙ stored-last_save s first l

  Agree-of :
      (secrets : Secrets) (l : Log) (r : Run)
      → SameMap (stored s first l) secrets
      → Distinct (names_of secrets)
      → last_save r.log ≡ last_save l
      → r.manager.secrets ≡ secrets
      → Agree r
  Agree-of secrets l r a d e m = (
    λ n.
        ap (λ x. lookup_secret x n) (same_saves-stored l r.log e)
        ∙ a n
        ∙ ap (λ x. lookup_secret x n) (sym m),
    subst (λ x. Distinct (names_of x)) (sym m) d,
  )

  restore_secrets-Agreed :
      (old : Secrets) (r : Run)
      → Distinct (names_of old)
      → r.manager.secrets ≡ old
      → Agreed old (note (save_secrets old) r)
  unfolding stored
  restore_secrets-Agreed old r d m = of_answer (s.answer r.log (save_secrets old)) refl
    where
      of_answer :
          (o : Option Error)
          → s.answer r.log (save_secrets old) ≡ o
          → Agreed old (note (save_secrets old) r)
      of_answer none e =
          inl (λ n. ground (arith, e, m), subst (λ x. Distinct (names_of x)) (sym m) d)
      of_answer (some x) e = inr (r.log, refl, λ c. cc)

  module _ (h : Host) (policy : PathPolicy) (calm : KeepsSettings s) (q : Run) where
    -- The change begins once the new credentials are saved, or are what was saved before.
    module _ (changed : Bool) (secrets : Secrets) (l : Log)
        (d : Distinct (names_of q.manager.secrets)) (c : Distinct (names_of secrets))
        (new : SameMap (stored s first l) secrets)
        (old : changed ≡ false → SameMap (stored s first l) q.manager.secrets) where
      of_verdict :
          (staged : Config) (k : Verdict (Unit {0}) × Run)
          → Changed h policy s staged secrets (record q { log = l }) k
          → Ended q.manager.secrets (elim k.0 [
            | done _ ↦ (done tt, k.1)
            | failed f ↦ restore_secrets h policy s changed q.manager.secrets f k.1
          ])
      unfolding restore_secrets Changed
      of_verdict staged (done a, r) (v, w, (was, b)) =
          let q' = record q { log = l } in
          let k = of_Settled h policy s calm staged secrets was q' (done a, r) refl b in
          let saves =
            of_Settled-last_save h policy s calm staged secrets was _ q' (done a, r) refl b in
          inl (Agree-of secrets l r new c saves k.new_secrets)
      of_verdict staged (failed f, r) m = of_failure changed refl
        where
          same : r.manager.secrets ≡ q.manager.secrets
          same = ap (λ (x : Manager). x.secrets) m.same_active

          of_failure :
              (b : Bool)
              → changed ≡ b
              → Agreed q.manager.secrets (restore_secrets h policy s b q.manager.secrets f r).1
          of_failure false e = inl (Agree-of q.manager.secrets l r (old e) d m.same_saves same)
          of_failure true e = restore_secrets-Agreed q.manager.secrets r d same

      apply_with-Agreed :
          (cfg : Config)
          → Unused (generation_after q.manager.generation) (record q { log = l })
          → Ended q.manager.secrets (
              apply_with h policy s changed
                (some cfg)
                q.manager.secrets
                secrets
                (record q { log = l }))
      unfolding apply_with
      apply_with-Agreed cfg u =
          let q' = record q { log = l } in
          of_verdict (normalize cfg) (apply_config_locked h policy s (some cfg) secrets q')
            (apply_config_locked-Changed h policy s cfg secrets q' q' u (Harmless-refl q'))

    save_and_apply-Agreed :
        (changed : Bool) (cfg : Config) (secrets : Secrets)
        → Unused (generation_after q.manager.generation) q
        → Agree q
        → Distinct (names_of secrets)
        → (changed ≡ false → SameMap q.manager.secrets secrets)
        → Ended q.manager.secrets
            (save_and_apply h policy s changed (some cfg) q.manager.secrets secrets q)
    unfolding save_and_apply stored is_live
    save_and_apply-Agreed false cfg secrets u a c e =
        apply_with-Agreed false secrets q.log a.1 c (λ n. a.0 n ∙ e refl n) (λ _. a.0) cfg u
    save_and_apply-Agreed true cfg secrets u a c e =
        of_answer (s.answer q.log (save_secrets secrets)) refl
      where
        l : Log
        l = save_secrets secrets ∷ q.log

        of_answer :
            (o : Option Error)
            → s.answer q.log (save_secrets secrets) ≡ o
            → Ended q.manager.secrets (elim o [
              | some x ↦
                  (failed (plainly (wrap "persist credentials" x)), note (save_secrets secrets) q)
              | none ↦
                  apply_with h policy s true
                    (some cfg)
                    q.manager.secrets
                    secrets
                    (note (save_secrets secrets) q)
            ])
        of_answer none o =
            apply_with-Agreed true secrets l a.1 c (λ n. ground (arith, o)) (λ x. cc) cfg u
        of_answer (some x) o = inl (λ n. ground (arith, o, a.0 n), a.1)

-- The credentials in memory and those of the last save that succeeded are the same map, in which
-- no name stands twice, and so they are after every change of the configuration and the
-- credentials, whether it fails or not, unless its last call is a save of the old credentials that
-- failed; provided that no watcher of the next generation ran before, and that the other goroutines
-- leave the settings alone meanwhile.
pub change_keeps_saved :
    (h : Host) (policy : PathPolicy) (s : Services) (first : Secrets) (cfg : Config)
    (requested : Secrets) (q : Run)
    → KeepsSettings s
    → Unused (generation_after q.manager.generation) q
    → Agree s first q
    → Agreed s first q.manager.secrets
        (apply_config_and_secrets h policy s (some cfg) requested q).1
unfolding apply_config_and_secrets
change_keeps_saved h policy s first cfg requested q calm u a =
    let next = prune_secrets (some cfg) requested in
    let d = prune_secrets-Distinct cfg requested in
    Result-holds (Ended s first q.manager.secrets) (validate_remote_credentials (some cfg) next)
      (λ e. inl a)
      (λ v.
        save_and_apply-Agreed s first h policy calm q (not (secrets_equal q.manager.secrets next))
          cfg next u a d (λ e. (secrets_equal_iff q.manager.secrets next a.1 d).0 (ground arith)))
