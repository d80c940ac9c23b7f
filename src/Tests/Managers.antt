-- ===== src/Tests/Managers.antt =====
-- The managers, their services and their certificates in the runs of the manager.
use zoraxy_cert_warden.Base.{false, Option, none, some, [], ◌∷◌, codes, str_eq, nat_eq}
use zoraxy_cert_warden.Failure.{Error, new, ok, err}
use zoraxy_cert_warden.Config.{CertificateConfig, source_type_cert_warden}
use zoraxy_cert_warden.SecretStore.{Credentials, Secrets}
use zoraxy_cert_warden.Manager.Watches.{new_state}
use zoraxy_cert_warden.Manager.{
  Manager, Call, save_config, Log, Services, Run, level_info, no_material,
}
use zoraxy_cert_warden.Tests.Fixtures.{config_of}

abbrev pub manager : Manager
manager = record {
  cfg = none;
  states = [];
  watchers = [];
  generation = 1;
  config_path = [];
  secrets = [];
  log_level = level_info;
  fallback_pending = [];
  runtime_loaded = false;
}

abbrev pub first : Run
first = record { manager = manager; log = [] }

-- The configuration file cannot be written.
abbrev pub full_disk : Log → Call → Option Error
full_disk l (save_config c) = some (new "no space left on device")
full_disk l _ = none

abbrev pub services : (Log → Call → Option Error) → Services
services answer = record {
  answer = answer;
  changes_fallback = λ l. false;
  persisted = λ l. ok none;
  fetched = λ l. (no_material, none);
  synced = λ l. (none, none, none);
  destination_info = λ l. err (new "missing");
  modified = λ l. none;
  now = λ l. 10;
  meanwhile = λ l m. m;
}

abbrev pub calm : Services
calm = services (λ l c. none)

abbrev pub keys : Credentials
keys = record {
  server_url = codes "https://ca.test";
  certificate_name = codes "web";
  certificate_api_key = codes "c";
  private_key_api_key = codes "k";
}

abbrev pub secrets : Secrets
secrets = (codes "a", keys) ∷ (codes "x", keys) ∷ []

abbrev pub remote : CertificateConfig
remote = record (config_of (codes "a")) {
  source = record {
    source_type = source_type_cert_warden;
    certificate = [];
    private_key = [];
    cert_warden =
        some record { server_url = codes "https://ca.test"; certificate_name = codes "web" };
  };
}

abbrev pub active_run : Run
active_run = record {
  manager = record manager { states = (codes "a", new_state remote) ∷ []; secrets = secrets };
  log = [];
}
