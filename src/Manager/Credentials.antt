-- ===== src/Manager/Credentials.antt =====
-- cmd/cert-sync/main.go: which credentials go with which certificate. A list stands for the map
-- of the secrets, in the order in which a walk meets the entries.
use zoraxy_cert_warden.Base.{
  Bool, true, false, not, ◌&&◌, ◌||◌, Option, none, some, List, [], ◌∷◌, ◌++◌, Str, codes, ◌==◌,
  str_eq, nat_eq, if◌then◌else◌, length,
}
use zoraxy_cert_warden.Text.{trim_space}
use zoraxy_cert_warden.Failure.{errorf, new, Result, ok, err, reject, ◌>>◌}
use zoraxy_cert_warden.Config.{CertWardenSource, CertificateConfig, Config, is_cert_warden}
use zoraxy_cert_warden.SecretStore.{Credentials, Secrets, lookup_secret}

abbrev pub is_remote : CertificateConfig → Bool
is_remote c = is_cert_warden c.source.source_type

-- `data[name] = credentials`
unfoldable pub set_secret : Secrets → Str → Credentials → Secrets
unfolding str_eq
set_secret [] name c = (name, c) ∷ []
set_secret ((n, d) ∷ rest) name c =
    let later = set_secret rest name c in if n == name then (n, c) ∷ rest else (n, d) ∷ later

-- `delete(data, name)`
unfoldable pub delete_secret : Secrets → Str → Secrets
unfolding str_eq
delete_secret [] name = []
delete_secret ((n, d) ∷ rest) name =
    let later = delete_secret rest name in if n == name then later else (n, d) ∷ later

unfoldable pub identity_in : List CertificateConfig → Str → Option CertWardenSource
unfolding str_eq
identity_in [] name = none
identity_in (c ∷ cs) name =
    let later = identity_in cs name in
    if c.name == name && is_remote c
    then elim c.source.cert_warden [ some remote ↦ some remote | none ↦ later ]
    else later

-- `remoteIdentity`
unfoldable pub remote_identity : Option Config → Str → Option CertWardenSource
unfolding identity_in
remote_identity none name = none
remote_identity (some cfg) name = identity_in cfg.certificates name

-- `web.CredentialMutation`
pub record CredentialMutation : Type 0 where
  pub name : Str
  pub is_delete : Bool
  pub certificate_api_key : Option Str
  pub private_key_api_key : Option Str

abbrev keys_required : Result Secrets
keys_required = err (new "both Cert Warden API keys are required")

unfoldable pub keep_old : Option Credentials → Secrets → Result Secrets
keep_old none secrets = err (new "remote API credentials are required")
keep_old (some c) secrets = ok secrets

unfoldable pub set_keys : Option CertWardenSource → Str → Str → Str → Secrets → Result Secrets
unfolding set_secret
set_keys none name cert_key private_key secrets = err (new "remote source settings are required")
set_keys (some remote) name cert_key private_key secrets = ok (
    set_secret secrets name record {
      server_url = remote.server_url;
      certificate_name = remote.certificate_name;
      certificate_api_key = cert_key;
      private_key_api_key = private_key;
    })

unfoldable pub change_keys : Option Config → Str → Str → Str → Secrets → Result Secrets
unfolding str_eq keep_old set_keys lookup_secret remote_identity
change_keys candidate name cert_key private_key secrets =
    if cert_key == [] && private_key == []
    then keep_old (lookup_secret secrets name) secrets
    else if cert_key == [] || private_key == []
    then keys_required
    else set_keys (remote_identity candidate name) name cert_key private_key secrets

unfoldable pub replace_keys :
    Option Config → Str → Option Str → Option Str → Secrets → Result Secrets
unfolding change_keys trim_space
replace_keys candidate name none none secrets = ok secrets
replace_keys candidate name (some cert_key) (some private_key) secrets =
    change_keys candidate name (trim_space cert_key) (trim_space private_key) secrets
replace_keys candidate name _ _ secrets = keys_required

-- What `MutateConfigAndCredentials` makes of the secrets.
unfoldable pub next_secrets : Option Config → Option CredentialMutation → Secrets → Result Secrets
unfolding delete_secret replace_keys
next_secrets candidate none secrets = ok secrets
next_secrets candidate (some m) secrets =
    if m.is_delete
    then ok (delete_secret secrets m.name)
    else replace_keys candidate m.name m.certificate_api_key m.private_key_api_key secrets

-- The entry was stored for this server and this name.
unfoldable pub is_stored_for : Credentials → Option CertWardenSource → Bool
unfolding str_eq
is_stored_for c none = false
is_stored_for c (some remote) =
    c.server_url == remote.server_url && c.certificate_name == remote.certificate_name

-- The entry has both keys, too.
unfoldable pub is_for : Option Credentials → Option CertWardenSource → Bool
unfolding str_eq is_stored_for
is_for none remote = false
is_for (some c) remote =
    (not (c.certificate_api_key == []) && not (c.private_key_api_key == []))
    && is_stored_for c remote

unfoldable pub check_credentials : List CertificateConfig → Secrets → Result (Unit {0})
unfolding is_for lookup_secret
check_credentials [] secrets = ok tt
check_credentials (c ∷ cs) secrets = do
  reject (is_remote c && not (is_for (lookup_secret secrets c.name) c.source.cert_warden)) (
      errorf
        (codes "certificate " ++ (c.name ++ codes ": Cert Warden API credentials are required")))
  check_credentials cs secrets

-- `validateRemoteCredentials`
unfoldable pub validate_remote_credentials : Option Config → Secrets → Result (Unit {0})
unfolding check_credentials
validate_remote_credentials none secrets = err (new "configuration is required")
validate_remote_credentials (some cfg) secrets = check_credentials cfg.certificates secrets

unfoldable pub keep_secret : Option Credentials → Str → Secrets → Secrets
unfolding set_secret
keep_secret none name pruned = pruned
keep_secret (some c) name pruned = set_secret pruned name c

unfoldable pub prune_loop : List CertificateConfig → Secrets → Secrets → Secrets
unfolding keep_secret lookup_secret
prune_loop [] secrets pruned = pruned
prune_loop (c ∷ cs) secrets pruned =
    prune_loop cs secrets
      (if is_remote c then keep_secret (lookup_secret secrets c.name) c.name pruned else pruned)

-- `pruneSecrets`
unfoldable pub prune_secrets : Option Config → Secrets → Secrets
unfolding prune_loop
prune_secrets none secrets = []
prune_secrets (some cfg) secrets = prune_loop cfg.certificates secrets []

unfoldable pub same_credentials : Credentials → Credentials → Bool
unfolding str_eq
same_credentials a b =
    (a.server_url == b.server_url && a.certificate_name == b.certificate_name)
    && (a.certificate_api_key == b.certificate_api_key
        && a.private_key_api_key == b.private_key_api_key)

unfoldable pub is_same : Option Credentials → Credentials → Bool
unfolding same_credentials
is_same none c = false
is_same (some other) c = same_credentials other c

unfoldable pub all_in : Secrets → Secrets → Bool
unfolding is_same lookup_secret
all_in [] b = true
all_in ((name, c) ∷ rest) b = is_same (lookup_secret b name) c && all_in rest b

-- `secretsEqual`
unfoldable pub secrets_equal : Secrets → Secrets → Bool
unfolding nat_eq all_in
secrets_equal a b = if not (length a == length b) then false else all_in a b

-- `CredentialsConfigured`
unfoldable pub credentials_configured : Secrets → Str → Bool × Bool
unfolding lookup_secret str_eq
credentials_configured secrets name = elim (lookup_secret secrets name) [
  | none ↦ (false, false)
  | some c ↦ (not (c.certificate_api_key == []), not (c.private_key_api_key == []))
]
