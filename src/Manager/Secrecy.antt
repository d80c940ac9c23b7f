-- ===== src/Manager/Secrecy.antt =====
-- cmd/cert-sync/main.go: where a query of Cert Warden sends the API keys.
use zoraxy_cert_warden.Base.{
  true, not, Option, none, some, List, [], ◌∷◌, ◌++◌, Str, ◌≡◌, refl, arith, if-holds, Option-holds,
  All, ◌==◌, nat_eq, str_eq, ℕ,
}
use zoraxy_cert_warden.Failure.{Error}
use zoraxy_cert_warden.Config.{CertWardenSource, CertificateConfig}
use zoraxy_cert_warden.SecretStore.{Credentials, Secrets, lookup_secret}
use zoraxy_cert_warden.Manager.Credentials.{is_stored_for}
use zoraxy_cert_warden.Manager.Records.{record_state}
use zoraxy_cert_warden.Manager.Remote.{
  begin_query, finish_query, run_fetch, with_client, ask, query_with, fetch_remote,
}
use zoraxy_cert_warden.Manager.{
  Material, QueryError, Call, Services, Run, note, lookup_state, make_client, fetch,
}

-- The client is made for the server that the keys were stored for, with these keys, and asks for
-- the certificate that they were stored for.
abbrev pub Entitled : Secrets → Str → Call → Type 0
Entitled secrets name (make_client url cert_key private_key) =
    (c : Credentials) × (lookup_secret secrets name ≡ some c)
    × (url ≡ c.server_url)
    × (cert_key ≡ c.certificate_api_key)
    × (private_key ≡ c.private_key_api_key)
Entitled secrets name (fetch url certificate_name) =
    (c : Credentials) × (lookup_secret secrets name ≡ some c)
    × (url ≡ c.server_url)
    × (certificate_name ≡ c.certificate_name)
Entitled secrets name _ = ⊥

-- The calls since a run, all of them entitled.
abbrev pub Sends : Secrets → Str → Run → Run → Type 0
Sends secrets name r r' =
    (calls : List Call) × (r'.log ≡ calls ++ r.log) × All (Entitled secrets name) calls

module _ (s : Services) (name : Str) (g : ℕ) (cfg : CertificateConfig) (secrets : Secrets) where
  module _ (c : Credentials) (remote : CertWardenSource) (l : lookup_secret secrets name ≡ some c)
      (e : is_stored_for c (some remote) ≡ true) where
    same_server : remote.server_url ≡ c.server_url
    unfolding is_stored_for str_eq
    same_server = ground arith

    same_name : remote.certificate_name ≡ c.certificate_name
    unfolding is_stored_for str_eq
    same_name = ground arith

    client_call : Call
    client_call = make_client remote.server_url c.certificate_api_key c.private_key_api_key

    client_call-Entitled : Entitled secrets name client_call
    unfolding client_call
    client_call-Entitled = (c, l, same_server, refl, refl)

    with_client-Sends :
        (o : Option Error) (r : Run)
        → Sends secrets name r (with_client s name g cfg remote o (note client_call r)).1
    unfolding with_client run_fetch finish_query
    with_client-Sends (some x) r = (client_call ∷ [], refl, (client_call-Entitled, tt))
    with_client-Sends none r = (
      fetch remote.server_url remote.certificate_name ∷ client_call ∷ [],
      refl,
      ((c, l, same_server, same_name), (client_call-Entitled, tt)),
    )

    ask-Sends : (r : Run) → Sends secrets name r (ask s name g cfg c remote r).1
    unfolding ask client_call
    ask-Sends r = with_client-Sends (s.answer r.log client_call) r

  query_with-Sends :
      (o : Option Credentials) (remote : Option CertWardenSource) (r : Run)
      → lookup_secret secrets name ≡ o
      → Sends secrets name r (query_with s name g cfg o remote r).1
  unfolding query_with finish_query
  query_with-Sends (some c) (some remote) r l =
      if-holds (λ (x : (Material × Option QueryError) × Run). Sends secrets name r x.1)
        (is_stored_for c (some remote)) (λ e. ask-Sends c remote l e r) (λ e. ([], refl, tt))
  query_with-Sends none none r l = ([], refl, tt)
  query_with-Sends none (some remote) r l = ([], refl, tt)
  query_with-Sends (some c) none r l = ([], refl, tt)

marked-Sends :
    (s : Services) (name : Str) (g : ℕ) (cfg : CertificateConfig) (r : Run)
    → Sends r.manager.secrets name r
        (query_with s name g cfg
          (lookup_secret r.manager.secrets name)
          cfg.source.cert_warden
          (record r { manager = record_state g begin_query name r.manager })).1
marked-Sends s name g cfg r =
    query_with-Sends s name g cfg r.manager.secrets (lookup_secret r.manager.secrets name)
      cfg.source.cert_warden (record r { manager = record_state g begin_query name r.manager }) refl

-- A query of Cert Warden hands the API keys of a certificate to no server but the one that they
-- were stored for, and asks there for no certificate but the one that they were stored for,
-- whatever the configuration says: every call that it makes is of that kind.
pub fetch_remote-Entitled :
    (s : Services) (name : Str) (g : ℕ) (cfg : CertificateConfig) (r : Run)
    → (calls : List Call) × ((fetch_remote s name g cfg r).1.log ≡ calls ++ r.log)
      × All (Entitled r.manager.secrets name) calls
unfolding fetch_remote
fetch_remote-Entitled s name g cfg r =
    Option-holds (λ (x : (Material × Option QueryError) × Run). Sends r.manager.secrets name r x.1)
      (lookup_state r.manager.states name) ([], refl, tt)
      (λ x.
        if-holds (λ (x : (Material × Option QueryError) × Run). Sends r.manager.secrets name r x.1)
          (not (r.manager.generation == g)) (λ e. ([], refl, tt))
          (λ e. marked-Sends s name g cfg r))
