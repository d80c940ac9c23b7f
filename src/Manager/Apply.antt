-- ===== src/Manager/Apply.antt =====
-- cmd/cert-sync/main.go: the change of the configuration and of the credentials. No active state
-- changes until every new watcher has started and the files are written.
use zoraxy_cert_warden.Base.{
  ℕ, Bool, true, false, not, Option, none, some, List, [], Str, str_eq, nat_eq, if◌then◌else◌,
}
use zoraxy_cert_warden.Failure.{Error, new, wrap, Result, ok, err}
use zoraxy_cert_warden.Host.{Host}
use zoraxy_cert_warden.Config.{Config}
use zoraxy_cert_warden.Config.Normalize.{normalize}
use zoraxy_cert_warden.Config.Policy.{PathPolicy}
use zoraxy_cert_warden.Config.Whole.{validate, is_config_conflict}
use zoraxy_cert_warden.SecretStore.{Secrets}
use zoraxy_cert_warden.Manager.Credentials.{
  CredentialMutation, next_secrets, validate_remote_credentials, prune_secrets, secrets_equal,
}
use zoraxy_cert_warden.Manager.Fallbacks.{
  load_runtime_state, mark_fallback_pending, reconcile_fallbacks,
}
use zoraxy_cert_warden.Manager.{
  Watch, Failed, config_validation, config_conflict, plainly, as_kind, Verdict, failed, done,
  Services, Run, P, call, attempt, check_context, save_config, save_secrets, generation_after,
}
use zoraxy_cert_warden.Manager.Watches.{
  snapshot_config, join_rollback, stop_watches, make_watches, start_watches, activate, sync_all,
}

module _ (h : Host) (policy : PathPolicy) (s : Services) where
  module _ (staged : Config) (secrets : Secrets) (old : Config) (generation : ℕ) where
    unfoldable pub switch : List Watch → Run → Run
    unfolding activate stop_watches sync_all
    switch watches r = sync_all h policy s generation staged.certificates (
        stop_watches r.manager.watchers
          (record r { manager = activate h policy s staged secrets watches generation r.manager }))

    -- The fallback files go back to the old configuration, and the new watchers stop.
    unfoldable pub take_back : List Watch → Error → P (Verdict (Unit {0}))
    unfolding reconcile_fallbacks stop_watches join_rollback
    take_back watches e r =
        let ((_, f), r') = reconcile_fallbacks h policy s (some staged) (some old) r in
        (failed (plainly (join_rollback e f)), stop_watches watches r')

    -- The same after the configuration file was written: it is written back first.
    unfoldable pub take_back_config : List Watch → Error → P (Verdict (Unit {0}))
    unfolding take_back join_rollback
    take_back_config watches e r =
        let (f, r') = call s (save_config old) r in take_back watches (join_rollback e f) r'

    unfoldable pub mark_and_switch : List Watch → List Str → P (Verdict (Unit {0}))
    unfolding mark_fallback_pending take_back_config switch
    mark_and_switch watches changed r =
        let (e, r') = mark_fallback_pending h policy s changed r in
        elim e [ some x ↦ take_back_config watches x r' | none ↦ (done tt, switch watches r') ]

    unfoldable pub persist : List Watch → List Str → P (Verdict (Unit {0}))
    unfolding take_back mark_and_switch
    persist watches changed r =
        let (e, r') = call s (save_config staged) r in
        elim e [ some x ↦ take_back watches x r' | none ↦ mark_and_switch watches changed r' ]

    -- From the change of the fallback files on.
    unfoldable pub publish_config : List Watch → P (Verdict (Unit {0}))
    unfolding reconcile_fallbacks take_back persist
    publish_config watches r =
        let ((changed, e), r') = reconcile_fallbacks h policy s (some old) (some staged) r in
        elim e [ some x ↦ take_back watches x r' | none ↦ persist watches changed r' ]

    -- The last look at the context.
    unfoldable pub confirm_context : List Watch → P (Verdict (Unit {0}))
    unfolding stop_watches publish_config
    confirm_context watches r =
        let (e, r') = call s check_context r in
        elim e [
          | some x ↦ (failed (plainly x), stop_watches watches r')
          | none ↦ publish_config watches r'
        ]

    unfoldable pub start_and_publish : List Watch → P (Verdict (Unit {0}))
    unfolding start_watches confirm_context
    start_and_publish watches r =
        let (e, r') = start_watches h policy s watches watches r in
        elim e [ some x ↦ (failed (plainly x), r') | none ↦ confirm_context watches r' ]

    unfoldable pub stage_watches : P (Verdict (Unit {0}))
    unfolding make_watches start_and_publish
    stage_watches r =
        let (v, r') = make_watches h policy s generation staged.certificates [] r in
        elim v [ failed f ↦ (failed f, r') | done watches ↦ start_and_publish watches r' ]

  -- The validation of the staged configuration with the staged credentials.
  unfoldable pub check_staged : Config → Secrets → Option Failed
  unfolding validate is_config_conflict validate_remote_credentials
  check_staged staged secrets = elim (validate h false (some policy) (some staged)) [
    | err e ↦ some (as_kind (if is_config_conflict e then config_conflict else config_validation) e)
    | ok _ ↦ elim (validate_remote_credentials (some staged) secrets) [
      | err e ↦ some (as_kind config_validation e)
      | ok _ ↦ none
    ]
  ]

  unfoldable pub apply_staged : Config → Secrets → P (Verdict (Unit {0}))
  unfolding check_staged load_runtime_state snapshot_config stage_watches
  apply_staged staged secrets r = elim (check_staged staged secrets) [
    | some f ↦ (failed f, r)
    | none ↦
        let (e, r') = load_runtime_state h policy s r in
        elim e [
          | some x ↦ (failed (plainly x), r')
          | none ↦
              stage_watches staged secrets (snapshot_config r'.manager.cfg)
                (generation_after r'.manager.generation) r'
        ]
  ]

  unfoldable pub apply_candidate : Option Config → Secrets → P (Verdict (Unit {0}))
  unfolding normalize apply_staged
  apply_candidate none secrets r =
      (failed (as_kind config_validation (new "configuration is required")), r)
  apply_candidate (some cfg) secrets r = apply_staged (normalize cfg) secrets r

  -- `applyConfigLocked`
  unfoldable pub apply_config_locked : Option Config → Secrets → P (Verdict (Unit {0}))
  unfolding attempt apply_candidate
  apply_config_locked candidate secrets =
      attempt (call s check_context) (apply_candidate candidate secrets)

  -- The credentials go back after a failure, if they were written.
  unfoldable pub restore_secrets : Bool → Secrets → Failed → P (Verdict (Unit {0}))
  unfolding join_rollback
  restore_secrets false old f r = (failed f, r)
  restore_secrets true old f r =
      let (e, r') = call s (save_secrets old) r in
      (failed record { kind = f.kind; cause = join_rollback f.cause e }, r')

  unfoldable pub apply_with : Bool → Option Config → Secrets → Secrets → P (Verdict (Unit {0}))
  unfolding apply_config_locked restore_secrets
  apply_with changed candidate old secrets r =
      let (v, r') = apply_config_locked candidate secrets r in
      elim v [ done _ ↦ (done tt, r') | failed f ↦ restore_secrets changed old f r' ]

  unfoldable pub save_and_apply : Bool → Option Config → Secrets → Secrets → P (Verdict (Unit {0}))
  unfolding apply_with
  save_and_apply false candidate old secrets r = apply_with false candidate old secrets r
  save_and_apply true candidate old secrets r =
      let (e, r') = call s (save_secrets secrets) r in
      elim e [
        | some x ↦ (failed (plainly (wrap "persist credentials" x)), r')
        | none ↦ apply_with true candidate old secrets r'
      ]

  -- `applyConfigAndSecretsLocked`
  unfoldable pub apply_config_and_secrets : Option Config → Secrets → P (Verdict (Unit {0}))
  unfolding prune_secrets validate_remote_credentials secrets_equal save_and_apply
  apply_config_and_secrets candidate requested r =
      let next = prune_secrets candidate requested in
      elim (validate_remote_credentials candidate next) [
        | err e ↦ (failed (as_kind config_validation e), r)
        | ok _ ↦
            save_and_apply (not (secrets_equal r.manager.secrets next)) candidate r.manager.secrets
              next r
      ]

  -- `ApplyConfig`
  unfoldable pub apply_config : Option Config → P (Verdict (Unit {0}))
  unfolding apply_config_and_secrets
  apply_config candidate r = apply_config_and_secrets candidate r.manager.secrets r

  unfoldable pub apply_mutation : Option CredentialMutation → Result Config → P (Verdict (Unit {0}))
  unfolding next_secrets apply_config_and_secrets
  apply_mutation m (err e) r = (failed (plainly e), r)
  apply_mutation m (ok candidate) r = elim (next_secrets (some candidate) m r.manager.secrets) [
    | err e ↦ (failed (as_kind config_validation e), r)
    | ok secrets ↦ apply_config_and_secrets (some candidate) secrets r
  ]

  -- `MutateConfigAndCredentials`; `MutateConfig` is the case without a change of credentials.
  unfoldable pub mutate_config_and_credentials :
      (Config → Result Config) → Option CredentialMutation → P (Verdict (Unit {0}))
  unfolding attempt snapshot_config apply_mutation
  mutate_config_and_credentials mutation m =
      attempt (call s check_context)
        (λ r. apply_mutation m (mutation (snapshot_config r.manager.cfg)) r)
