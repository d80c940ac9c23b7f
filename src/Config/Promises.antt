-- ===== src/Config/Promises.antt =====
-- What `validate` of internal/config/config.go ensures of a certificate that it accepts.
use zoraxy_cert_warden.Base.{
  ℕ, ◌≤◌, ◌≡◌, ◌≢◌, Bool, true, false, [], ◌∷◌, Str, str_eq, nat_eq, arith, All, if◌then◌else◌,
  subst, codes,
}
use zoraxy_cert_warden.Base.Int.{ℤ, pos, negsuc}
use zoraxy_cert_warden.Text.FilePath.{slash}
use zoraxy_cert_warden.Failure.{ok, >>=-eq-ok}
use zoraxy_cert_warden.Host.{Host}
use zoraxy_cert_warden.Config.{
  SourceType, CertificateConfig, CertificateDestination, is_cert_warden,
}
use zoraxy_cert_warden.Config.Policy.{
  PathPolicy, resolve_allowed_path, resolve_destination, check_destination_directory,
}
use zoraxy_cert_warden.Config.Validate.{
  is_valid_name, is_name_char, all_name_chars, validate_interval, validate_destination,
  validate_certificate,
}
use zoraxy_cert_warden.Config.Allowed.{Allowed, resolve_allowed_path-Allowed}

name_char-slash : (c : ℕ) → is_name_char c ≡ true → c ≢ slash
unfolding is_name_char nat_eq
name_char-slash c e same = ground arith

all_name_chars-no_slash : (s : Str) → all_name_chars s ≡ true → All (λ c. c ≢ slash) s
unfolding all_name_chars
all_name_chars-no_slash [] e = tt
all_name_chars-no_slash (c ∷ s) e =
    (name_char-slash c (ground arith), all_name_chars-no_slash s (ground arith))

is_valid_name-no_slash : (s : Str) → is_valid_name s ≡ true → All (λ c. c ≢ slash) s
unfolding is_valid_name
is_valid_name-no_slash [] e = tt
is_valid_name-no_slash (c ∷ s) e = all_name_chars-no_slash (c ∷ s) e

-- The poll interval is between its bounds.
abbrev pub InBounds : SourceType → ℤ → Type 0
InBounds t (pos n) = (1 ≤ n) × (n ≤ 86400) × ((if is_cert_warden t then 60 else 1) ≤ n)
InBounds t (negsuc n) = ⊥

validate_interval-InBounds : (t : SourceType) (n : ℤ) → validate_interval t n ≡ ok tt → InBounds t n
unfolding validate_interval
validate_interval-InBounds t (pos n) e = ground arith
validate_interval-InBounds t (negsuc n) e = absurd (ground arith)

module _ (h : Host) (check_paths : Bool) (policy : PathPolicy) where
  check_destination_directory-same :
      (b : Bool) (r d : Str) → check_destination_directory h b r ≡ ok d → r ≡ d
  unfolding check_destination_directory
  check_destination_directory-same false r d e = cc
  check_destination_directory-same true r d e = ground arith

  resolve_destination-Allowed :
      (path d : Str)
      → resolve_destination h policy path check_paths ≡ ok d
      → Allowed h path policy.destination_roots d
  unfolding resolve_destination
  resolve_destination-Allowed path d e =
      let (r, found, e1) =
        >>=-eq-ok (resolve_allowed_path h path policy.destination_roots (codes "destination")) _
          e in
      let same = check_destination_directory-same check_paths r d e1 in
      subst (Allowed h path policy.destination_roots) same
        (resolve_allowed_path-Allowed h path policy.destination_roots (codes "destination") r found)

  validate_destination-parts :
      (c : CertificateDestination) (d : Str)
      → validate_destination h check_paths policy c ≡ ok d
      → (is_valid_name c.target_name ≡ true)
        × (resolve_destination h policy c.target_directory check_paths ≡ ok d)
  unfolding validate_destination
  validate_destination-parts c d e = ground arith

  -- What an accepted certificate cannot do.
  pub record Harmless (c : CertificateConfig) (directory : Str) : Type 0 where
    pub file_name : All (λ c. c ≢ slash) c.destination.target_name
    pub entry_name : All (λ c. c ≢ slash) c.name
    pub destination : Allowed h c.destination.target_directory policy.destination_roots directory
    pub interval : InBounds c.source.source_type c.sync.poll_interval_seconds

  validate_certificate-parts :
      (c : CertificateConfig) (d : Str)
      → validate_certificate h check_paths policy c ≡ ok d
      → (is_valid_name c.name ≡ true)
        × (validate_destination h check_paths policy c.destination ≡ ok d)
        × (validate_interval c.source.source_type c.sync.poll_interval_seconds ≡ ok tt)
  unfolding validate_certificate
  validate_certificate-parts c d e = ground arith

  -- A certificate that the validation accepts has names without a slash, so that its files are in
  -- the directory returned; this directory is the resolution of the configured one and lies in an
  -- allowed destination root; and its poll interval is between 1 and 86400 seconds, and at least 60
  -- for a remote source.
  pub validate_certificate-Harmless :
      (c : CertificateConfig) (directory : Str)
      → validate_certificate h check_paths policy c ≡ ok directory
      → Harmless c directory
  validate_certificate-Harmless c directory e =
      let (entry, placed, timed) = validate_certificate-parts c directory e in
      let (named, resolved) = validate_destination-parts c.destination directory placed in
      record {
        file_name = is_valid_name-no_slash c.destination.target_name named;
        entry_name = is_valid_name-no_slash c.name entry;
        destination = resolve_destination-Allowed c.destination.target_directory directory resolved;
        interval =
            validate_interval-InBounds c.source.source_type c.sync.poll_interval_seconds timed;
      }
