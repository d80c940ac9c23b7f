-- ===== src/Manager/Mutated.antt =====
-- cmd/cert-sync/main.go: what a change of the API keys of one certificate comes to, read as a map
-- from names to credentials.
use zoraxy_cert_warden.Base.{
  true, not, Option, none, some, [], ◌∷◌, Str, ◌==◌, str_eq, nat_eq, if◌then◌else◌, ◌≡◌, refl, sym,
  ◌∙◌, arith, Option-holds, ap, subst, Bool-cases, inl, inr,
}
use zoraxy_cert_warden.Text.{trim_space}
use zoraxy_cert_warden.Failure.{Result, ok, err}
use zoraxy_cert_warden.Host.{Host}
use zoraxy_cert_warden.Config.{CertWardenSource, Config}
use zoraxy_cert_warden.Config.Policy.{PathPolicy}
use zoraxy_cert_warden.SecretStore.{Credentials, Secrets, lookup_secret}
use zoraxy_cert_warden.Manager.Credentials.{
  CredentialMutation, delete_secret, keep_old, set_keys, change_keys, replace_keys, next_secrets,
  remote_identity,
}
use zoraxy_cert_warden.Manager.Prune.{
  names_remote, lookup_secret-set_secret, lookup_secret-prune_secrets,
}
use zoraxy_cert_warden.Manager.Watches.{snapshot_config}
use zoraxy_cert_warden.Manager.Apply.{
  apply_config_and_secrets, apply_mutation, mutate_config_and_credentials,
}
use zoraxy_cert_warden.Manager.Started.{Unused}
use zoraxy_cert_warden.Manager.Quiet.{is_live}
use zoraxy_cert_warden.Manager.Queries.{KeepsSettings}
use zoraxy_cert_warden.Manager.Changes.{done_change_switches}
use zoraxy_cert_warden.Manager.{
  as_kind, config_validation, Verdict, failed, done, Services, Run, note, attempt, check_context,
  generation_after,
}

-- Credentials as a map from the names of the certificates.
abbrev pub CredentialMap : Type 0
CredentialMap = Str → Option Credentials

-- Keys for a certificate with this source.
abbrev pub keys_for : CertWardenSource → Str → Str → Credentials
keys_for remote cert_key private_key = record {
  server_url = remote.server_url;
  certificate_name = remote.certificate_name;
  certificate_api_key = trim_space cert_key;
  private_key_api_key = trim_space private_key;
}

-- What a certificate has after its keys were given: blank keys stand for the old ones.
abbrev pub given_keys :
    Option CertWardenSource → Option Str → Option Str → Option Credentials → Option Credentials
given_keys (some remote) (some cert_key) (some private_key) old =
    if trim_space cert_key == [] then old else some (keys_for remote cert_key private_key)
given_keys _ _ _ old = old

-- The map after the change that was asked for.
unfoldable pub mutated : Config → Option CredentialMutation → CredentialMap → CredentialMap
unfolding str_eq
mutated candidate none old name = old name
mutated candidate (some m) old name =
    if not (m.name == name)
    then old name
    else if m.is_delete
    then none
    else given_keys (remote_identity (some candidate) m.name) m.certificate_api_key
        m.private_key_api_key (old name)

-- Only the certificates that take their material from Cert Warden have credentials.
unfoldable pub restricted : Config → CredentialMap → CredentialMap
restricted candidate old name = if names_remote candidate.certificates name then old name else none

lookup_secret-delete_secret :
    (l : Secrets) (n m : Str)
    → lookup_secret (delete_secret l n) m ≡ (if n == m then none else lookup_secret l m)
unfolding delete_secret lookup_secret str_eq
lookup_secret-delete_secret [] n m = ground arith
lookup_secret-delete_secret ((k, d) ∷ l) n m = ground (arith, lookup_secret-delete_secret l n m)

lookup_secret-set_keys :
    (remote : Option CertWardenSource) (name cert_key private_key : Str) (secrets next : Secrets)
    → not (trim_space cert_key == []) ≡ true
    → set_keys remote name (trim_space cert_key) (trim_space private_key) secrets ≡ ok next
    → (n : Str)
    → lookup_secret next n ≡ (
        if not (name == n)
        then lookup_secret secrets n
        else given_keys remote (some cert_key) (some private_key) (lookup_secret secrets n))
unfolding set_keys str_eq
lookup_secret-set_keys none name cert_key private_key secrets next b e n = cc
lookup_secret-set_keys (some remote) name cert_key private_key secrets next b e n =
    let s = lookup_secret-set_secret secrets name (keys_for remote cert_key private_key) n in
    ground (arith, s, e, b)

given_keys-blank :
    (remote : Option CertWardenSource) (cert_key private_key : Str) (old : Option Credentials)
    → (trim_space cert_key == []) ≡ true
    → given_keys remote (some cert_key) (some private_key) old ≡ old
unfolding str_eq
given_keys-blank none cert_key private_key old e = refl
given_keys-blank (some remote) cert_key private_key old e = ground (arith, e)

keep_old-ok :
    (o : Option Credentials) (secrets next : Secrets)
    → keep_old o secrets ≡ ok next
    → next ≡ secrets
unfolding keep_old
keep_old-ok none secrets next e = cc
keep_old-ok (some c) secrets next e = cc

lookup_secret-change_keys :
    (candidate : Config) (name cert_key private_key : Str) (secrets next : Secrets)
    → change_keys (some candidate) name (trim_space cert_key) (trim_space private_key) secrets
      ≡ ok next
    → (n : Str)
    → lookup_secret next n ≡ (
        if not (name == n)
        then lookup_secret secrets n
        else given_keys
            (remote_identity (some candidate) name)
            (some cert_key)
            (some private_key)
            (lookup_secret secrets n))
unfolding change_keys keep_old str_eq
lookup_secret-change_keys candidate name cert_key private_key secrets next e n =
    elim (Bool-cases (trim_space cert_key == [])) [
      | inl b ↦ ground (
        arith,
        b,
        e,
        keep_old-ok (lookup_secret secrets name) secrets next,
        given_keys-blank (remote_identity (some candidate) name) cert_key private_key
            (lookup_secret secrets n) b,
      )
      | inr b ↦
          lookup_secret-set_keys (remote_identity (some candidate) name) name cert_key private_key
            secrets next (ground (arith, b)) (ground (arith, b, e)) n
    ]

lookup_secret-replace_keys :
    (candidate : Config) (name : Str) (cert_key private_key : Option Str) (secrets next : Secrets)
    → replace_keys (some candidate) name cert_key private_key secrets ≡ ok next
    → (n : Str)
    → lookup_secret next n ≡ (
        if not (name == n)
        then lookup_secret secrets n
        else given_keys
            (remote_identity (some candidate) name)
            cert_key
            private_key
            (lookup_secret secrets n))
unfolding replace_keys str_eq
lookup_secret-replace_keys candidate name (some c) (some k) secrets next e n =
    lookup_secret-change_keys candidate name c k secrets next e n
lookup_secret-replace_keys candidate name (some c) none secrets next e n = cc
lookup_secret-replace_keys candidate name none (some k) secrets next e n = cc
lookup_secret-replace_keys candidate name none none secrets next e n = ground (arith, e)

lookup_secret-next_secrets :
    (candidate : Config) (m : Option CredentialMutation) (secrets next : Secrets)
    → next_secrets (some candidate) m secrets ≡ ok next
    → (n : Str) → lookup_secret next n ≡ mutated candidate m (lookup_secret secrets) n
unfolding next_secrets mutated str_eq
lookup_secret-next_secrets candidate none secrets next e n = ground (arith, e)
lookup_secret-next_secrets candidate (some m) secrets next e n = elim (Bool-cases m.is_delete) [
  | inl b ↦ ground (arith, b, e, lookup_secret-delete_secret secrets m.name n)
  | inr b ↦
      let k =
        lookup_secret-replace_keys candidate m.name m.certificate_api_key m.private_key_api_key
          secrets next (ground (arith, b, e)) n in
      ground (arith, b, k)
]

restricted-same :
    (candidate : Config) (old new : CredentialMap) (n : Str)
    → old n ≡ new n
    → restricted candidate old n ≡ restricted candidate new n
unfolding restricted
restricted-same candidate old new n e = ground (arith, e)

module _ (h : Host) (policy : PathPolicy) (s : Services) (calm : KeepsSettings s) where
  -- What the credentials in memory are after a change that succeeded.
  abbrev Mutates : Config → Option CredentialMutation → Run → Verdict (Unit {0}) × Run → Type 0
  Mutates candidate m q x =
      x.0 ≡ done tt
      → (n : Str)
      → lookup_secret x.1.manager.secrets n
        ≡ restricted candidate (mutated candidate m (lookup_secret q.manager.secrets)) n

  of_next :
      (candidate : Config) (m : Option CredentialMutation) (q : Run)
      → Unused (generation_after q.manager.generation) q
      → (o : Result Secrets) → next_secrets (some candidate) m q.manager.secrets ≡ o
      → Mutates candidate m q (elim o [
        | err e ↦ (failed (as_kind config_validation e), q)
        | ok secrets ↦ apply_config_and_secrets h policy s (some candidate) secrets q
      ])
  unfolding restricted
  of_next candidate m q u (err e) o d n = cc
  of_next candidate m q u (ok next) o d n =
      let (v, c, k) = done_change_switches h policy s candidate next q calm u d in
      ap (λ x. lookup_secret x n) k.new_secrets
      ∙ lookup_secret-prune_secrets candidate next n
      ∙ restricted-same candidate (lookup_secret next)
          (mutated candidate m (lookup_secret q.manager.secrets)) n
          (lookup_secret-next_secrets candidate m q.manager.secrets next o n)

  apply_mutation-Mutates :
      (candidate : Config) (m : Option CredentialMutation) (q : Run)
      → Unused (generation_after q.manager.generation) q
      → Mutates candidate m q (apply_mutation h policy s m (ok candidate) q)
  unfolding apply_mutation
  apply_mutation-Mutates candidate m q u =
      of_next candidate m q u (next_secrets (some candidate) m q.manager.secrets) refl

-- Read as a map from names, the credentials that a change which returns no error leaves in memory
-- are those before it, with the entry of the named certificate removed, or made of the new keys for
-- the server and the name in the new configuration (blank or missing keys keep the old entry), and
-- then restricted to the certificates that take their material from Cert Warden; provided that the
-- mutation made the configuration `candidate`, that no watcher of the next generation ran before,
-- and that the other goroutines leave the settings alone meanwhile.
pub mutate_config_and_credentials_refines :
    (h : Host) (policy : PathPolicy) (s : Services) (mutation : Config → Result Config)
    (m : Option CredentialMutation) (candidate : Config) (q : Run)
    → KeepsSettings s
    → Unused (generation_after q.manager.generation) q
    → mutation (snapshot_config q.manager.cfg) ≡ ok candidate
    → (mutate_config_and_credentials h policy s mutation m q).0 ≡ done tt
    → (n : Str)
    → lookup_secret (mutate_config_and_credentials h policy s mutation m q).1.manager.secrets n
      ≡ restricted candidate (mutated candidate m (lookup_secret q.manager.secrets)) n
unfolding mutate_config_and_credentials attempt is_live
mutate_config_and_credentials_refines h policy s mutation m candidate q calm u e =
    Option-holds (Mutates h policy s calm candidate m q) (s.answer q.log check_context)
      (subst
        (λ r.
          Mutates h policy s calm candidate m q
            (apply_mutation h policy s m r (note check_context q)))
        (sym e) (apply_mutation-Mutates h policy s calm candidate m (note check_context q) u))
      (λ x d. cc)
