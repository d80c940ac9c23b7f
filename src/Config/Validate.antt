-- ===== src/Config/Validate.antt =====
-- `validate` and `Validate` of internal/config/config.go, for one certificate and for the whole.
use zoraxy_cert_warden.Base.{
  ℕ, Bool, true, false, not, ◌&&◌, ◌||◌, Option, none, some, [], ◌∷◌, ◌++◌, Str, codes, ◌==◌,
  nat_eq, str_eq, leb,
}
use zoraxy_cert_warden.Base.Int.{ℤ, pos, ltb_ℤ}
use zoraxy_cert_warden.Text.{contains_any}
use zoraxy_cert_warden.Text.FilePath.{is_abs, clean, base}
use zoraxy_cert_warden.Failure.{errorf, new, wrap, Result, ok, err, ◌>>=◌, ◌>>◌, reject, within}
use zoraxy_cert_warden.Host.{Host, Url}
use zoraxy_cert_warden.Config.{
  SourceType, unset, source_type_local, source_type_cert_warden, other, CertWardenSource,
  CertificateSource, CertificateDestination, CertificateConfig, is_cert_warden,
  min_poll_interval_seconds, min_remote_poll_interval_seconds, max_poll_interval_seconds,
}
use zoraxy_cert_warden.Config.Policy.{PathPolicy, resolve_source, resolve_destination}

unfoldable pub is_name_char : ℕ → Bool
unfolding nat_eq
is_name_char c =
    (leb b'a' c && leb c b'z')
    || (leb b'A' c && leb c b'Z')
    || (leb b'0' c && leb c b'9')
    || c == b'.'
    || c == b'_'
    || c == b'-'

unfoldable pub all_name_chars : Str → Bool
unfolding is_name_char
all_name_chars [] = true
all_name_chars (c ∷ s) = is_name_char c && all_name_chars s

-- `validNameRegex`: ^[a-zA-Z0-9._-]+$
unfoldable pub is_valid_name : Str → Bool
unfolding all_name_chars
is_valid_name [] = false
is_valid_name (c ∷ s) = all_name_chars (c ∷ s)

unfoldable pub is_some {ℓ} : {A : Type ℓ} → Option A → Bool
is_some none = false
is_some (some a) = true

-- The test of `validateCertWardenOrigin`, turned round.
unfoldable pub is_https_origin : Str → Url → Bool
unfolding str_eq contains_any
is_https_origin raw u = not (
    not (u.scheme == codes "https")
    || u.host == []
    || u.has_user
    || not (u.raw_query == [])
    || u.force_query
    || contains_any raw (codes "#")
    || not (u.opaque == [])
    || (not (u.path == []) && not (u.path == codes "/")))

unfoldable pub validate_path : Str → Str → Result (Unit {0})
unfolding str_eq
validate_path path label = do
  reject (path == []) (errorf (label ++ codes " path is required"))
  reject (not (is_abs path)) (errorf (label ++ codes " path must be absolute"))
  reject (not (clean path == path)) (errorf (label ++ codes " path must be normalized"))

unfoldable pub validate_interval : SourceType → ℤ → Result (Unit {0})
validate_interval t n = do
  reject (ltb_ℤ n (pos min_poll_interval_seconds) || ltb_ℤ (pos max_poll_interval_seconds) n)
      (new "poll interval must be between 1 and 86400 seconds")
  reject (is_cert_warden t && ltb_ℤ n (pos min_remote_poll_interval_seconds))
      (new "remote poll interval must be between 60 and 86400 seconds")

module _ (h : Host) where
  unfoldable pub validate_cert_warden_origin : Str → Result (Unit {0})
  unfolding is_https_origin
  validate_cert_warden_origin raw = elim (h.parse_url raw) [
    | none ↦ err (new "server URL: must be an HTTPS origin for Cert Warden")
    | some u ↦
        reject (not (is_https_origin raw u))
          (new "server URL: must be an HTTPS origin for Cert Warden")
  ]

  module _ (check_paths : Bool) (policy : PathPolicy) where
    -- The case `SourceTypeLocal` of `validate`.
    unfoldable pub validate_local : CertificateSource → Result (Unit {0})
    unfolding validate_path is_some
    validate_local s = do
      reject (is_some s.cert_warden)
          (new "remote source settings are not allowed for a local source")
      validate_path s.certificate (codes "source certificate")
      _ ← within (wrap "source certificate") (resolve_source h policy s.certificate check_paths)
      validate_path s.private_key (codes "source private key")
      _ ← within (wrap "source private key") (resolve_source h policy s.private_key check_paths)
      ok tt

    -- The settings that the case `SourceTypeCertWarden` requires.
    unfoldable pub validate_remote_settings : Option CertWardenSource → Result (Unit {0})
    unfolding validate_cert_warden_origin contains_any str_eq
    validate_remote_settings none = err (new "remote source settings are required")
    validate_remote_settings (some r) = do
      validate_cert_warden_origin r.server_url
      reject (r.certificate_name == []) (new "remote certificate name is required")
      reject (contains_any r.certificate_name (codes "\r\n"))
          (new "remote certificate name contains invalid characters")

    -- The case `SourceTypeCertWarden` of `validate`.
    unfoldable pub validate_remote : CertificateConfig → Result (Unit {0})
    unfolding validate_remote_settings str_eq
    validate_remote c = do
      reject (not (c.source.certificate == []) || not (c.source.private_key == []))
          (new "local file paths are not allowed for a Cert Warden source")
      validate_remote_settings c.source.cert_warden
      reject c.sync.filesystem_watch
          (new "filesystem watch is not supported for a Cert Warden source")

    -- The `switch` of `validate`.
    unfoldable pub validate_source : SourceType → CertificateConfig → Result (Unit {0})
    unfolding validate_local validate_remote
    validate_source source_type_local c = validate_local c.source
    validate_source source_type_cert_warden c = validate_remote c
    validate_source unset c = err (errorf (codes "unsupported source type: \"\""))
    validate_source (other s) c =
        err (errorf (codes "unsupported source type: \"" ++ (s ++ codes "\"")))

    unfoldable pub validate_destination : CertificateDestination → Result Str
    unfolding str_eq
    validate_destination d = do
      reject (d.target_directory == []) (new "target directory is required")
      reject (not (is_abs d.target_directory)) (new "target directory must be an absolute path")
      reject (not (clean d.target_directory == d.target_directory))
          (new "target directory must be normalized")
      resolved ←
          within (wrap "target directory")
            (resolve_destination h policy d.target_directory check_paths)
      reject (d.target_name == []) (new "target name is required")
      reject (not (is_valid_name d.target_name)) (new "target name contains invalid characters")
      reject (not (d.target_name == base d.target_name)) (new "target name must be a basename")
      ok resolved

    -- `(*CertificateConfig).validate`, with a policy.
    unfoldable pub validate_certificate : CertificateConfig → Result Str
    unfolding validate_source validate_destination validate_interval str_eq
    validate_certificate c = do
      reject (c.name == []) (new "certificate name is required")
      reject (not (is_valid_name c.name)) (new "certificate name contains invalid characters")
      validate_source c.source.source_type c
      resolved ← validate_destination c.destination
      validate_interval c.source.source_type c.sync.poll_interval_seconds
      ok resolved
