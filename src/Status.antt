-- ===== src/Status.antt =====
-- internal/status/status.go: the report on one certificate and the aggregate of all.
-- A clone of a pointed-to time is the same value, so `cloneTime` leaves no trace. An absent
-- `sourceInfo` leaves Go's zero values.
pub mod Aggregate
pub mod Counters
pub mod Health
use zoraxy_cert_warden.Base.{
  ℕ, zero, suc, ◌-◌, ◌*◌, ◌/◌, Bool, true, false, not, ◌&&◌, ◌||◌, Option, none, some, List, [],
  ◌∷◌, Str, codes, ◌==◌, str_eq, if◌then◌else◌, leb,
}
use zoraxy_cert_warden.Base.Int.{ℤ, pos, negsuc}
use zoraxy_cert_warden.Failure.{Error, message}
use zoraxy_cert_warden.CertUtil.{Certificate, CertInfo, common_name}
use zoraxy_cert_warden.Config.{CertificateConfig, SourceType, is_cert_warden}

-- The constants of the string type `Status`.
pub data Status : Type 0 where
  status_healthy status_error status_unknown status_disabled : Status

abbrev pub is_healthy : Status → Bool
is_healthy status_healthy = true
is_healthy _ = false

abbrev pub is_error : Status → Bool
is_error status_error = true
is_error _ = false

pub record CertWardenQueryStatus : Type 0 where
  pub status : Status
  pub in_progress : Bool
  pub last_attempt : Option ℕ
  pub last_success : Option ℕ
  pub next_attempt : Option ℕ
  pub latency_millis : ℤ
  pub http_status : ℤ
  pub failure_kind : Str
  pub text : Str

-- What a report shows of the source certificate.
pub record Shown : Type 0 where
  pub common_name : Str
  pub issuer : Str
  pub serial : Str
  pub valid_from : ℕ
  pub expires : ℕ
  pub days_remaining : ℤ
  pub key_match : Bool
  pub source_fingerprint : Str
  pub source_bundle_digest : Str

pub record CertificateStatus : Type 0 where
  pub name : Str
  pub status : Status
  pub text : Str
  pub enabled : Bool
  pub shown : Shown
  pub last_source_modification : ℕ
  pub last_source_validation : Option ℕ
  pub last_destination_validation : Option ℕ
  pub last_successful_sync : Option ℕ
  pub last_attempted_sync : Option ℕ
  pub last_watcher_error : Option ℕ
  pub destination_fingerprint : Str
  pub destination_bundle_digest : Str
  pub source_validation_error : Str
  pub destination_validation_error : Str
  pub sync_error : Str
  pub watcher_error : Str
  pub auto_sync : Bool
  pub fallback : Bool
  pub fallback_pending_restart : Bool
  pub source_type : SourceType
  pub cert_warden_query : Option CertWardenQueryStatus

pub record State : Type 0 where
  pub config : CertificateConfig
  pub source_info : Option CertInfo
  pub source_fingerprint : Str
  pub source_digest : Str
  pub destination_digest : Str
  pub destination_fingerprint : Str
  pub last_source_modification : ℕ
  pub last_source_validation : Option ℕ
  pub last_destination_validation : Option ℕ
  pub last_successful_sync : Option ℕ
  pub last_attempted_sync : Option ℕ
  pub last_watcher_error : Option ℕ
  pub source_validation_error : Option Error
  pub destination_validation_error : Option Error
  pub sync_error : Option Error
  pub watcher_error : Option Error
  pub fallback_pending_restart : Bool
  pub cert_warden_query : Option CertWardenQueryStatus

abbrev pub error_string : Option Error → Str
error_string none = []
error_string (some e) = message e

abbrev pub is_set : {A : Type 0} → Option A → Bool
is_set none = false
is_set (some a) = true

abbrev pub nanoseconds_per_day : ℕ
nanoseconds_per_day = 86400000000000

abbrev days_ago : ℕ → ℤ
days_ago zero = pos 0
days_ago (suc n) = negsuc n

-- `DaysRemaining`: whole days, rounded towards zero.
unfoldable pub days_remaining : ℕ → ℕ → ℤ
days_remaining now not_after =
    if leb now not_after
    then pos ((not_after - now) / nanoseconds_per_day)
    else days_ago ((now - not_after) / nanoseconds_per_day)

abbrev pub or_else : Str → Str → Str
or_else s t = if s == [] then t else s

unfoldable pub key_match : State → Bool
unfolding str_eq
key_match s =
    (is_set s.last_destination_validation && not (is_set s.destination_validation_error))
    && (not (s.source_digest == []) && s.source_digest == s.destination_digest)

unfoldable pub show_source : ℕ → State → Option CertInfo → Shown
unfolding str_eq days_remaining key_match common_name
show_source now s none = record {
  common_name = [];
  issuer = [];
  serial = [];
  valid_from = 0;
  expires = 0;
  days_remaining = pos 0;
  key_match = false;
  source_fingerprint = s.source_fingerprint;
  source_bundle_digest = s.source_digest;
}
show_source now s (some info) = record {
  common_name = common_name (some info);
  issuer = info.certificate.issuer_name;
  serial = info.certificate.serial;
  valid_from = info.certificate.not_before;
  expires = info.certificate.not_after;
  days_remaining = days_remaining now info.certificate.not_after;
  key_match = key_match s;
  source_fingerprint = or_else s.source_fingerprint info.fingerprint;
  source_bundle_digest = or_else s.source_digest info.bundle_digest;
}

-- `CertWardenQuery != nil && CertWardenQuery.Status == StatusError`, with the message.
abbrev pub query_failure : Option CertWardenQueryStatus → Option Str
query_failure none = none
query_failure (some q) = if is_error q.status then some q.text else none

-- A case of the switch that a stored error decides.
abbrev pub or_error : Option Error → Status × Str → Status × Str
or_error none rest = rest
or_error (some e) rest = (status_error, message e)

abbrev pub or_failure : Option Str → Status × Str → Status × Str
or_failure none rest = rest
or_failure (some m) rest = (status_error, m)

abbrev pub is_synchronized : State → Bool
is_synchronized s =
    (is_set s.source_info && is_set s.last_destination_validation)
    && s.source_digest == s.destination_digest

-- The switch of `ToCertificateStatus`.
unfoldable pub health : State → Status × Str
unfolding str_eq
health s =
    if not s.config.enabled
    then (status_disabled, codes "Certificate is disabled")
    else or_failure (query_failure s.cert_warden_query) (
        or_error s.watcher_error (
          or_error s.sync_error (
            or_error s.source_validation_error (
              or_error s.destination_validation_error (
                if is_synchronized s
                then (status_healthy, codes "Certificate is valid and synchronized")
                else (status_unknown, codes "No source certificate loaded"))))))

-- `(*State).ToCertificateStatus`
unfoldable pub to_certificate_status : ℕ → State → CertificateStatus
unfolding show_source health
to_certificate_status now s = record {
  name = s.config.name;
  status = (health s).0;
  text = (health s).1;
  enabled = s.config.enabled;
  shown = show_source now s s.source_info;
  last_source_modification = s.last_source_modification;
  last_source_validation = s.last_source_validation;
  last_destination_validation = s.last_destination_validation;
  last_successful_sync = s.last_successful_sync;
  last_attempted_sync = s.last_attempted_sync;
  last_watcher_error = s.last_watcher_error;
  destination_fingerprint = s.destination_fingerprint;
  destination_bundle_digest = s.destination_digest;
  source_validation_error = error_string s.source_validation_error;
  destination_validation_error = error_string s.destination_validation_error;
  sync_error = error_string s.sync_error;
  watcher_error = error_string s.watcher_error;
  auto_sync = s.config.sync.auto_sync;
  fallback = s.config.fallback;
  fallback_pending_restart = s.fallback_pending_restart;
  source_type = s.config.source.source_type;
  cert_warden_query = s.cert_warden_query;
}
