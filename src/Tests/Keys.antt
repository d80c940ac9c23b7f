-- ===== src/Tests/Keys.antt =====
-- Runs of the manager that change the credentials.
use zoraxy_cert_warden.Base.{◌≡◌, refl, true, false, some, [], ◌∷◌, codes, str_eq, nat_eq}
use zoraxy_cert_warden.Failure.{ok}
use zoraxy_cert_warden.Config.Normalize.{
  normalize_log_level, normalize_certificate, normalize_type, normalize_remote, normalize_interval,
}
use zoraxy_cert_warden.Config.Policy.{resolve_allowed_path}
use zoraxy_cert_warden.Config.Validate.{is_valid_name}
use zoraxy_cert_warden.Text.{to_lower, trim_space}
use zoraxy_cert_warden.Text.FilePath.{base}
use zoraxy_cert_warden.SecretStore.{lookup_secret}
use zoraxy_cert_warden.Manager.Apply.{apply_config_and_secrets}
use zoraxy_cert_warden.Manager.Quiet.{is_live}
use zoraxy_cert_warden.Manager.{Run}
use zoraxy_cert_warden.Tests.Fixtures.{host, policy, two_certificates}
use zoraxy_cert_warden.Tests.Managers.{manager, full_disk, services, calm, secrets, remote}
use zoraxy_cert_warden.Manager.Saved.{stored, Agreed, change_keeps_saved}
use zoraxy_cert_warden.Manager.Mutated.{mutated, restricted, mutate_config_and_credentials_refines}
use zoraxy_cert_warden.Manager.Credentials.{CredentialMutation}
use zoraxy_cert_warden.Manager.Apply.{mutate_config_and_credentials}
use zoraxy_cert_warden.Config.{Config}
use zoraxy_cert_warden.Host.{Host}
use zoraxy_cert_warden.Base.Int.{pos}

-- A run with credentials in memory.
abbrev keyed : Run
keyed = record { manager = record manager { secrets = secrets }; log = [] }

change_keeps_saved_example :
    Agreed
      (services full_disk)
      secrets
      secrets
      (apply_config_and_secrets host policy (services full_disk) (some two_certificates) [] keyed).1
unfolding str_eq is_live stored
change_keeps_saved_example =
    change_keeps_saved host policy (services full_disk) secrets two_certificates [] keyed
      (λ l m. refl) (λ w e. refl) (λ n. refl, (refl, (refl, tt)))

abbrev new_keys : CredentialMutation
new_keys = record {
  name = codes "a";
  is_delete = false;
  certificate_api_key = some (codes " new");
  private_key_api_key = some (codes "key");
}

abbrev one_remote : Config
one_remote = record {
  certificates =
      record remote {
        sync = record {
          auto_sync = true;
          filesystem_watch = false;
          poll_interval_seconds = pos 60;
        };
      }
      ∷ [];
  log_level = [];
}

-- Every URL is that of the server.
abbrev online : Host
online = record host {
  parse_url = λ p. some record {
    scheme = codes "https";
    host = codes "ca.test";
    has_user = false;
    raw_query = [];
    force_query = false;
    opaque = [];
    path = [];
  };
}

mutate_config_and_credentials_refines_example :
    lookup_secret
      (mutate_config_and_credentials online policy calm
        (λ c. ok one_remote)
        (some new_keys)
        keyed).1.manager.secrets
      (codes "a")
    ≡ restricted one_remote (mutated one_remote (some new_keys) (lookup_secret secrets)) (codes "a")
unfolding is_live mutate_config_and_credentials normalize_log_level to_lower trim_space
    normalize_certificate is_valid_name normalize_type normalize_remote resolve_allowed_path base
    normalize_interval
mutate_config_and_credentials_refines_example =
    mutate_config_and_credentials_refines online policy calm (λ c. ok one_remote) (some new_keys)
      one_remote keyed (λ l m. refl) (λ w e. refl) refl refl (codes "a")
