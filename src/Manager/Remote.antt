-- ===== src/Manager/Remote.antt =====
-- cmd/cert-sync/main.go: queries of Cert Warden, with the credentials of one certificate.
use zoraxy_cert_warden.Base.{
  ℕ, true, not, Option, none, some, Str, codes, ◌==◌, str_eq, nat_eq, if◌then◌else◌,
}
use zoraxy_cert_warden.Base.Int.{pos}
use zoraxy_cert_warden.Failure.{Error, new}
use zoraxy_cert_warden.Config.{CertWardenSource, CertificateConfig}
use zoraxy_cert_warden.Status.{State}
use zoraxy_cert_warden.SecretStore.{Credentials, lookup_secret}
use zoraxy_cert_warden.Manager.Credentials.{is_stored_for}
use zoraxy_cert_warden.Manager.Records.{record_state, record_remote_query, empty_query}
use zoraxy_cert_warden.Manager.{
  Material, no_material, QueryError, Services, P, note, call, wait, lookup_state, make_client,
  fetch,
}

abbrev pub canceled : QueryError
canceled = record { cause = new "context canceled"; fetch_error = none }

-- `&certwarden.FetchError{Kind: certwarden.ErrorKindAuthentication}`
abbrev pub no_access : QueryError
no_access = record {
  cause = new "certwarden fetch failed: authentication";
  fetch_error = some (codes "authentication", pos 0);
}

abbrev pub of_error : Error → QueryError
of_error e = record { cause = e; fetch_error = none }

-- The query is marked as under way.
unfoldable pub begin_query : State → State
begin_query x = record x {
  cert_warden_query = some record (elim x.cert_warden_query [ none ↦ empty_query | some q ↦ q ]) {
    in_progress = true;
    text = codes "Querying Cert Warden";
  };
}

module _ (s : Services) (name : Str) (generation : ℕ) (cfg : CertificateConfig) where
  -- The end of `fetchRemote`.
  unfoldable pub finish_query : Material → Option QueryError → P (Material × Option QueryError)
  unfolding record_remote_query
  finish_query material e r = (
    (material, e),
    record r {
      manager = record_remote_query (s.now r.log) name generation material e cfg r.manager;
    },
  )

  unfoldable pub run_fetch : CertWardenSource → P (Material × Option QueryError)
  unfolding finish_query
  run_fetch remote r =
      let (material, e) = s.fetched r.log in
      let (_, r') = wait s (note (fetch remote.server_url remote.certificate_name) r) in
      finish_query material e r'

  unfoldable pub with_client : CertWardenSource → Option Error → P (Material × Option QueryError)
  unfolding finish_query run_fetch
  with_client remote (some e) = finish_query no_material (some (of_error e))
  with_client remote none = run_fetch remote

  unfoldable pub ask : Credentials → CertWardenSource → P (Material × Option QueryError)
  unfolding with_client
  ask c remote r =
      let (e, r') =
        call s (make_client remote.server_url c.certificate_api_key c.private_key_api_key) r in
      with_client remote e r'

  unfoldable pub query_with :
      Option Credentials → Option CertWardenSource → P (Material × Option QueryError)
  unfolding finish_query ask is_stored_for
  query_with (some c) (some remote) r =
      if is_stored_for c (some remote)
      then ask c remote r
      else finish_query no_material (some no_access) r
  query_with _ _ r = finish_query no_material (some no_access) r

  -- `fetchRemote`
  unfoldable pub fetch_remote : P (Material × Option QueryError)
  unfolding lookup_state record_state begin_query query_with lookup_secret nat_eq
  fetch_remote r = elim (lookup_state r.manager.states name) [
    | none ↦ ((no_material, some canceled), r)
    | some x ↦
        if not (r.manager.generation == generation)
        then ((no_material, some canceled), r)
        else query_with (lookup_secret r.manager.secrets name) cfg.source.cert_warden
            (record r { manager = record_state generation begin_query name r.manager })
  ]
