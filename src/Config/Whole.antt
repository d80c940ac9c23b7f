-- ===== src/Config/Whole.antt =====
-- `Validate`, `Clone` and `Load` of internal/config/config.go, for a whole configuration.
use zoraxy_cert_warden.Base.{
  ℕ, suc, Bool, not, ◌&&◌, ◌||◌, Option, none, some, List, [], ◌∷◌, ◌++◌, Str, codes, ◌==◌, str_eq,
  pair_eq, contains, if◌then◌else◌,
}
use zoraxy_cert_warden.Text.{contains_text, decimal}
use zoraxy_cert_warden.Failure.{
  Error, errorf, wrapf, new, message, Result, ok, err, ◌>>=◌, ◌>>◌, reject, within,
}
use zoraxy_cert_warden.Host.{Host}
use zoraxy_cert_warden.Config.{CertificateConfig, Config}
use zoraxy_cert_warden.Config.Normalize.{normalize_certificate, normalize}
use zoraxy_cert_warden.Config.Policy.{PathPolicy}
use zoraxy_cert_warden.Config.Validate.{validate_certificate}

-- The switch over the log levels.
unfoldable pub is_log_level : Str → Bool
unfolding str_eq
is_log_level s = s == codes "debug" || s == codes "info" || s == codes "warn" || s == codes "error"

-- The maps `seenNames`, `seenDestinations` and `fallbackDirectories`, as lists of their keys.
pub record Seen : Type 0 where
  pub names : List Str
  pub destinations : List (Str × Str)
  pub fallback_directories : List Str

abbrev pub nothing_seen : Seen
nothing_seen = record { names = []; destinations = []; fallback_directories = [] }

-- The maps after a certificate with the given resolved directory.
abbrev pub extend : Seen → Str → CertificateConfig → Seen
extend seen resolved c = record {
  names = c.name ∷ seen.names;
  destinations = (resolved, c.destination.target_name) ∷ seen.destinations;
  fallback_directories =
      if c.fallback then resolved ∷ seen.fallback_directories else seen.fallback_directories;
}

-- The body of the loop once the certificate itself is valid: the uniqueness checks.
unfoldable pub note_certificate : Seen → Str → CertificateConfig → Result Seen
unfolding str_eq pair_eq
note_certificate seen resolved c = do
  reject (contains seen.names c.name) (errorf (codes "duplicate certificate name: " ++ c.name))
  reject (contains seen.destinations (resolved, c.destination.target_name)) (
      errorf
        (codes "duplicate destination: " ++ (resolved ++ (codes "/" ++ c.destination.target_name))))
  reject (c.fallback && contains seen.fallback_directories resolved)
      (errorf (codes "multiple fallback certificates for destination directory: " ++ resolved))
  ok (extend seen resolved c)

at_certificate : ℕ → Str → Error → Error
unfolding decimal
at_certificate i name e =
    wrapf (codes "certificate " ++ (decimal i ++ (codes " (" ++ (name ++ codes "): ")))) e []

module _ (h : Host) (check_paths : Bool) (policy : PathPolicy) where
  -- The loop of `validate`, from the certificate with the index `i`.
  unfoldable pub validate_from : ℕ → Seen → List CertificateConfig → Result (Unit {0})
  unfolding validate_certificate note_certificate at_certificate
  validate_from i seen [] = ok tt
  validate_from i seen (c ∷ cs) = do
    resolved ← within (at_certificate i c.name) (validate_certificate h check_paths policy c)
    seen' ← note_certificate seen resolved c
    validate_from (suc i) seen' cs

  -- `(*Config).validate`, with a policy.
  unfoldable pub validate_normalized : Config → Result (Unit {0})
  unfolding validate_from is_log_level
  validate_normalized cfg = do
    reject (not (is_log_level cfg.log_level))
        (errorf (codes "unsupported log level: \"" ++ (cfg.log_level ++ codes "\"")))
    validate_from 0 nothing_seen cfg.certificates

-- `(*Config).Validate`; `none` stands for a nil configuration or policy.
unfoldable pub validate : Host → Bool → Option PathPolicy → Option Config → Result (Unit {0})
unfolding normalize validate_normalized
validate h check_paths policy none = err (new "configuration is required")
validate h check_paths none (some cfg) = err (new "path policy is required")
validate h check_paths (some policy) (some cfg) =
    validate_normalized h check_paths policy (normalize cfg)

-- `(*CertificateConfig).Validate`
unfoldable pub validate_one :
    Host → Bool → Option PathPolicy → Option CertificateConfig → Result (Unit {0})
unfolding normalize_certificate validate_certificate
validate_one h check_paths policy none = err (new "certificate configuration is required")
validate_one h check_paths none (some c) = err (new "path policy is required")
validate_one h check_paths (some policy) (some c) =
    validate_certificate h check_paths policy (normalize_certificate c) >>= λ _. ok tt

-- `isConfigConflict` of cmd/cert-sync/main.go
unfoldable pub is_config_conflict : Error → Bool
unfolding message contains_text
is_config_conflict e =
    contains_text (message e) (codes "duplicate certificate name:")
    || contains_text (message e) (codes "duplicate destination:")
    || contains_text (message e) (codes "multiple fallback certificates for destination directory:")
