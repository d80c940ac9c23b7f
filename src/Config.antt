-- ===== src/Config.antt =====
-- The data of internal/config/config.go: the plugin's configuration and its constants.
use zoraxy_cert_warden.Base.{ℕ, Bool, true, false, Option, none, List, [], ◌∷◌, Str, codes}
use zoraxy_cert_warden.Base.Int.{ℤ, pos}
pub mod Normalize
pub mod Policy
pub mod Validate
pub mod Whole
pub mod Unique
pub mod Contained
pub mod Allowed
pub mod Promises

abbrev pub default_source_certificate : Str
default_source_certificate = codes "/cert_warden_plugin/certchain0.pem"

abbrev pub default_source_private_key : Str
default_source_private_key = codes "/cert_warden_plugin/key0.pem"

abbrev pub default_target_directory : Str
default_target_directory = codes "/opt/zoraxy/config/conf/certs"

abbrev pub default_poll_interval : ℕ
default_poll_interval = 10

abbrev pub default_remote_poll_interval : ℕ
default_remote_poll_interval = 300

abbrev pub min_poll_interval_seconds : ℕ
min_poll_interval_seconds = 1

abbrev pub min_remote_poll_interval_seconds : ℕ
min_remote_poll_interval_seconds = 60

abbrev pub max_poll_interval_seconds : ℕ
max_poll_interval_seconds = 86400

-- The string type `SourceType`: the empty string, the two constants, and any other text.
pub data SourceType : Type 0 where
  unset : SourceType
  source_type_local : SourceType
  source_type_cert_warden : SourceType
  other : Str → SourceType

abbrev pub is_cert_warden : SourceType → Bool
is_cert_warden source_type_cert_warden = true
is_cert_warden _ = false

pub record CertWardenSource : Type 0 where
  pub server_url : Str
  pub certificate_name : Str

-- The pointer `CertWarden` is an option: the code clones what it points to before it writes.
pub record CertificateSource : Type 0 where
  pub source_type : SourceType
  pub certificate : Str
  pub private_key : Str
  pub cert_warden : Option CertWardenSource

pub record CertificateDestination : Type 0 where
  pub target_directory : Str
  pub target_name : Str

pub record SyncConfig : Type 0 where
  pub auto_sync : Bool
  pub filesystem_watch : Bool
  pub poll_interval_seconds : ℤ

pub record CertificateConfig : Type 0 where
  pub name : Str
  pub enabled : Bool
  pub source : CertificateSource
  pub destination : CertificateDestination
  pub sync : SyncConfig
  pub fallback : Bool

pub record Config : Type 0 where
  pub certificates : List CertificateConfig
  pub log_level : Str

unfoldable pub default_config : Config
default_config = record {
  log_level = codes "info";
  certificates =
      record {
        name = codes "example-certificate";
        enabled = true;
        source = record {
          source_type = unset;
          certificate = default_source_certificate;
          private_key = default_source_private_key;
          cert_warden = none;
        };
        destination = record {
          target_directory = default_target_directory;
          target_name = codes "example-certificate";
        };
        sync = record {
          auto_sync = true;
          filesystem_watch = true;
          poll_interval_seconds = pos default_poll_interval;
        };
        fallback = false;
      }
      ∷ [];
}
