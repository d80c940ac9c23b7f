-- ===== src/SecretStore.antt =====
-- internal/secretstore/secretstore.go: the credentials of the remote sources and their file. A
-- list stands for the map, in the order in which a walk meets the entries; JSON is a parameter.
pub mod Save
use zoraxy_cert_warden.Base.{
  ℕ, Bool, true, false, Option, none, some, List, [], ◌∷◌, ◌++◌, Str, codes, ◌==◌, str_eq,
  if◌then◌else◌,
}
use zoraxy_cert_warden.Text.{trim_space}
use zoraxy_cert_warden.Failure.{Error, errorf, new, Result, ok, err, ◌>>◌, reject}
use zoraxy_cert_warden.CertUtil.{Bytes}

pub record Credentials : Type 0 where
  pub server_url : Str
  pub certificate_name : Str
  pub certificate_api_key : Str
  pub private_key_api_key : Str

abbrev pub Secrets : Type 0
Secrets = List (Str × Credentials)

-- `(Data).Get`
unfoldable pub lookup_secret : Secrets → Str → Option Credentials
unfolding str_eq
lookup_secret [] name = none
lookup_secret ((n, c) ∷ data') name = if n == name then some c else lookup_secret data' name

abbrev pub is_empty_text : Str → Bool
is_empty_text s = trim_space s == []

abbrev entry_error : Str → Str → Error
entry_error name what = errorf (
    codes "validate secret store entry \""
    ++ (name ++ (codes "\": " ++ (what ++ codes " must not be empty"))))

-- One round of `validate`.
unfoldable pub validate_secret : Str → Credentials → Result (Unit {0})
unfolding str_eq
validate_secret name c = do
  reject (is_empty_text name)
      (new "validate secret store: certificate entry name must not be empty")
  reject (is_empty_text c.server_url) (entry_error name (codes "server URL"))
  reject (is_empty_text c.certificate_name) (entry_error name (codes "certificate name"))
  reject (is_empty_text c.certificate_api_key) (entry_error name (codes "certificate API key"))
  reject (is_empty_text c.private_key_api_key) (entry_error name (codes "private key API key"))

-- `validate`
unfoldable pub validate_secrets : Secrets → Result (Unit {0})
unfolding validate_secret
validate_secrets [] = ok tt
validate_secrets ((name, c) ∷ rest) = validate_secret name c >> validate_secrets rest

-- What the decoder finds in the file: no JSON of this form, more than one value, or one value,
-- where `none` is null.
pub data Decoded : Type 0 where
  malformed trailing : Decoded
  decoded : Option Secrets → Decoded

unfoldable pub accept_decoded : Decoded → Result Secrets
unfolding validate_secrets
accept_decoded malformed = err (new "decode secret store: invalid JSON")
accept_decoded trailing = err (new "decode secret store: trailing JSON data")
accept_decoded (decoded none) = err (new "validate secret store: data must be a JSON object")
accept_decoded (decoded (some secrets)) = do validate_secrets secrets; ok secrets
