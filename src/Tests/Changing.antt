-- ===== src/Tests/Changing.antt =====
-- Runs of the manager.
use zoraxy_cert_warden.Base.{
  ◌≡◌, refl, ◌⊎◌, ◌↔◌, true, false, none, some, List, [], ◌∷◌, ◌++◌, Str, codes, str_eq, nat_eq,
  All, if◌then◌else◌,
}
use zoraxy_cert_warden.Failure.{new, ok}
use zoraxy_cert_warden.Config.Normalize.{
  normalize, normalize_log_level, normalize_certificate, normalize_type, normalize_remote,
  normalize_interval,
}
use zoraxy_cert_warden.Config.Policy.{resolve_allowed_path}
use zoraxy_cert_warden.Config.Validate.{is_valid_name}
use zoraxy_cert_warden.Text.{to_lower, trim_space}
use zoraxy_cert_warden.Text.FilePath.{base}
use zoraxy_cert_warden.Config.Whole.{validate}
use zoraxy_cert_warden.SecretStore.{lookup_secret}
use zoraxy_cert_warden.Manager.Credentials.{
  validate_remote_credentials, prune_secrets, secrets_equal,
}
use zoraxy_cert_warden.Manager.Prune.{names_remote, lookup_secret-prune_secrets}
use zoraxy_cert_warden.Manager.SameSecrets.{secrets_equal_iff}
use zoraxy_cert_warden.Manager.Apply.{apply_config_and_secrets}
use zoraxy_cert_warden.Manager.Quiet.{is_live, active}
use zoraxy_cert_warden.Manager.Switching.{Switched}
use zoraxy_cert_warden.Manager.Changes.{failed_change_leaves_all, done_change_switches}
use zoraxy_cert_warden.Manager.Remote.{fetch_remote}
use zoraxy_cert_warden.Manager.Secrecy.{Entitled, fetch_remote-Entitled}
use zoraxy_cert_warden.Manager.Runs.{sync_generation}
use zoraxy_cert_warden.Manager.Stale.{publications, sync_generation-Current}
use zoraxy_cert_warden.Manager.{Watch, plainly, Call}
use zoraxy_cert_warden.Tests.Fixtures.{host, policy, two_certificates}
use zoraxy_cert_warden.Tests.Managers.{
  manager, first, full_disk, services, calm, keys, secrets, remote, active_run,
}

failed_change_leaves_all_example :
    (active
        (apply_config_and_secrets host policy
          (services full_disk)
          (some two_certificates)
          []
          first).1.manager
      ≡ active manager)
    × ((w : Watch)
        → is_live w
            (apply_config_and_secrets host policy
              (services full_disk)
              (some two_certificates)
              []
              first).1.log
          ≡ false)
unfolding is_live apply_config_and_secrets normalize_log_level to_lower trim_space
    normalize_certificate is_valid_name normalize_type normalize_remote resolve_allowed_path base
    normalize_interval
failed_change_leaves_all_example =
    failed_change_leaves_all host policy (services full_disk) two_certificates [] first
      (plainly (new "no space left on device")) (λ w e. refl) refl

done_change_switches_example :
    (validate host false (some policy) (some (normalize two_certificates)) ≡ ok tt)
    × (validate_remote_credentials
          (some (normalize two_certificates))
          (prune_secrets (some two_certificates) [])
        ≡ ok tt)
    × Switched host policy calm
        (normalize two_certificates)
        (prune_secrets (some two_certificates) [])
        first
        (apply_config_and_secrets host policy calm (some two_certificates) [] first).1
unfolding is_live apply_config_and_secrets normalize_log_level to_lower trim_space
    normalize_certificate is_valid_name normalize_type normalize_remote resolve_allowed_path base
    normalize_interval
done_change_switches_example =
    done_change_switches host policy calm two_certificates [] first (λ l m. refl) (λ w e. refl) refl

fetch_remote-Entitled_example :
    (calls : List Call) × ((fetch_remote calm (codes "a") 1 remote active_run).1.log ≡ calls ++ [])
    × All (Entitled secrets (codes "a")) calls
fetch_remote-Entitled_example = fetch_remote-Entitled calm (codes "a") 1 remote active_run

sync_generation-Current_example :
    (publications (sync_generation host policy calm (codes "a") 1 active_run).1.log ≡ [])
    ⊎ (publications (sync_generation host policy calm (codes "a") 1 active_run).1.log ≡ 1 ∷ [])
unfolding publications
sync_generation-Current_example = sync_generation-Current host policy calm (codes "a") 1 active_run

secrets_equal_iff_example :
    (secrets_equal secrets ((codes "x", keys) ∷ (codes "a", keys) ∷ []) ≡ true) ↔ (
      (name : Str)
      → lookup_secret secrets name
        ≡ lookup_secret ((codes "x", keys) ∷ (codes "a", keys) ∷ []) name)
unfolding str_eq
secrets_equal_iff_example =
    secrets_equal_iff secrets ((codes "x", keys) ∷ (codes "a", keys) ∷ []) (refl, (refl, tt))
      (refl, (refl, tt))

lookup_secret-prune_secrets_example :
    lookup_secret
      (prune_secrets (some record { certificates = remote ∷ []; log_level = [] }) secrets)
      (codes "x")
    ≡ (if names_remote (remote ∷ []) (codes "x") then lookup_secret secrets (codes "x") else none)
lookup_secret-prune_secrets_example =
    lookup_secret-prune_secrets record { certificates = remote ∷ []; log_level = [] } secrets
      (codes "x")
