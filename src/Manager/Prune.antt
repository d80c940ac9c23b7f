-- ===== src/Manager/Prune.antt =====
-- cmd/cert-sync/main.go: what pruning the credentials comes to, read as a map from names.
use zoraxy_cert_warden.Base.{
  Bool, false, ◌&&◌, ◌||◌, Option, none, some, List, [], ◌∷◌, Str, ◌==◌, str_eq, nat_eq,
  if◌then◌else◌, ◌≡◌, refl, arith, ◌⊎◌, inl,
}
use zoraxy_cert_warden.Config.{CertificateConfig, Config}
use zoraxy_cert_warden.SecretStore.{Credentials, Secrets, lookup_secret}
use zoraxy_cert_warden.Manager.Credentials.{
  is_remote, set_secret, keep_secret, prune_loop, prune_secrets,
}

pub lookup_secret-set_secret :
    (l : Secrets) (n : Str) (c : Credentials) (m : Str)
    → lookup_secret (set_secret l n c) m ≡ (if n == m then some c else lookup_secret l m)
unfolding lookup_secret set_secret str_eq
lookup_secret-set_secret [] n c m = refl
lookup_secret-set_secret ((k, d) ∷ l) n c m = ground (arith, lookup_secret-set_secret l n c m)

-- A certificate of the list with this name takes its material from Cert Warden.
unfoldable pub names_remote : List CertificateConfig → Str → Bool
unfolding str_eq
names_remote [] name = false
names_remote (c ∷ cs) name = (is_remote c && c.name == name) || names_remote cs name

lookup_secret-keep_secret :
    (o : Option Credentials) (n : Str) (pruned : Secrets) (m : Str)
    → lookup_secret (keep_secret o n pruned) m ≡ (
        if n == m
        then (elim o [ none ↦ lookup_secret pruned m | some c ↦ some c ])
        else lookup_secret pruned m)
unfolding keep_secret str_eq
lookup_secret-keep_secret none n pruned m = ground arith
lookup_secret-keep_secret (some c) n pruned m = lookup_secret-set_secret pruned n c m

-- What was kept so far is what the secrets say.
abbrev KeptSo : Secrets → Secrets → Str → Type 0
KeptSo secrets pruned m =
    (lookup_secret pruned m ≡ none) ⊎ (lookup_secret pruned m ≡ lookup_secret secrets m)

abbrev prune_one : CertificateConfig → Secrets → Secrets → Secrets
prune_one c secrets pruned =
    if is_remote c then keep_secret (lookup_secret secrets c.name) c.name pruned else pruned

lookup_secret-prune_one :
    (c : CertificateConfig) (secrets pruned : Secrets) (m : Str)
    → KeptSo secrets pruned m
    → lookup_secret (prune_one c secrets pruned) m
      ≡ (if is_remote c && c.name == m then lookup_secret secrets m else lookup_secret pruned m)
unfolding str_eq
lookup_secret-prune_one c secrets pruned m h =
    ground (arith, lookup_secret-keep_secret (lookup_secret secrets c.name) c.name pruned m)

lookup_secret-prune_loop :
    (cs : List CertificateConfig) (secrets pruned : Secrets) (m : Str)
    → KeptSo secrets pruned m
    → lookup_secret (prune_loop cs secrets pruned) m
      ≡ (if names_remote cs m then lookup_secret secrets m else lookup_secret pruned m)
unfolding prune_loop names_remote str_eq
lookup_secret-prune_loop [] secrets pruned m h = refl
lookup_secret-prune_loop (c ∷ cs) secrets pruned m h =
    let one = lookup_secret-prune_one c secrets pruned m h in
    let later =
      lookup_secret-prune_loop cs secrets (prune_one c secrets pruned) m (ground (arith, one)) in
    ground (arith, one, later)

-- Pruning keeps exactly the credentials of the certificates that take their material from Cert
-- Warden: such a name has what the secrets have for it, and any other name has none.
pub lookup_secret-prune_secrets :
    (cfg : Config) (secrets : Secrets) (name : Str)
    → lookup_secret (prune_secrets (some cfg) secrets) name
      ≡ (if names_remote cfg.certificates name then lookup_secret secrets name else none)
unfolding prune_secrets lookup_secret
lookup_secret-prune_secrets cfg secrets name =
    lookup_secret-prune_loop cfg.certificates secrets [] name (inl refl)
