-- ===== src/Tests/Certificates.antt =====
-- Runs of the certificate checks and of the configuration's validation.
use zoraxy_cert_warden.Base.{codes, ◌≡◌, refl, ◌↔◌, false, List, [], ◌∷◌, arith}
use zoraxy_cert_warden.Failure.{ok}
use zoraxy_cert_warden.Text.{trim_space}
use zoraxy_cert_warden.Text.FilePath.{base, clean, is_abs}
use zoraxy_cert_warden.Config.Policy.{resolve_allowed_path, resolve_destination, resolve_source}
use zoraxy_cert_warden.Config.Validate.{is_valid_name, validate_certificate}
use zoraxy_cert_warden.Config.Promises.{Harmless, validate_certificate-Harmless}
use zoraxy_cert_warden.Config.Whole.{validate_normalized}
use zoraxy_cert_warden.Config.Normalize.{normalize, normalize_idem}
use zoraxy_cert_warden.Config.Unique.{IsValid, validate_iff_IsValid}
use zoraxy_cert_warden.CertUtil.{
  Bytes, Block, raws, contains_encrypted_private_key, parse_certificate_chain,
}
use zoraxy_cert_warden.CertUtil.{parse_private_key}
use zoraxy_cert_warden.CertUtil.Keys.{first_key, parse_private_key-eq-first_key}
use zoraxy_cert_warden.CertUtil.Digest.{digest_input_injective}
use zoraxy_cert_warden.CertUtil.Loops.{Blocks, has_encrypted, contains_encrypted-eq-has_encrypted}
use zoraxy_cert_warden.Tests.Fixtures.{
  leaf, cert_pem, key_pem, crypto, crypto-DecodeShrinks, host, policy, two_certificates, config_of,
}

validate_iff_IsValid_example :
    (validate_normalized host false policy two_certificates ≡ ok tt)
    ↔ IsValid host false policy two_certificates
validate_iff_IsValid_example = validate_iff_IsValid host false policy two_certificates

normalize_idem_example : normalize (normalize two_certificates) ≡ normalize two_certificates
normalize_idem_example = normalize_idem two_certificates

contains_encrypted-eq-has_encrypted_example :
    (bs : List Block) × Blocks crypto key_pem bs
    × (contains_encrypted_private_key crypto key_pem ≡ has_encrypted bs)
contains_encrypted-eq-has_encrypted_example =
    contains_encrypted-eq-has_encrypted crypto crypto-DecodeShrinks key_pem

digest_input_injective_example :
    (raws (leaf ∷ []) ≡ raws (leaf ∷ [])) × (◌≡◌ {A = Bytes} (7 ∷ []) (7 ∷ []))
unfolding raws
digest_input_injective_example =
    digest_input_injective (leaf ∷ []) (leaf ∷ []) (7 ∷ []) (7 ∷ []) (omega arith, tt)
      (omega arith, tt) (omega arith) (omega arith) refl

-- The validation accepts the configuration, and the parser the bundle.
accepts : validate_normalized host false policy two_certificates ≡ ok tt
unfolding validate_normalized is_valid_name is_abs clean resolve_source resolve_allowed_path
    trim_space resolve_destination base
accepts = refl

parses : parse_certificate_chain crypto cert_pem ≡ ok (leaf ∷ [])
unfolding parse_certificate_chain
parses = refl

validate_certificate-Harmless_example :
    Harmless host false policy (config_of (codes "a")) (codes "/d")
unfolding validate_certificate is_valid_name is_abs clean resolve_source resolve_allowed_path
    trim_space resolve_destination base
validate_certificate-Harmless_example =
    validate_certificate-Harmless host false policy (config_of (codes "a")) (codes "/d") refl

parse_private_key-eq-first_key_example :
    (bs : List Block) × Blocks crypto key_pem bs
    × (parse_private_key crypto key_pem ≡ first_key crypto bs)
parse_private_key-eq-first_key_example =
    parse_private_key-eq-first_key crypto crypto-DecodeShrinks key_pem
