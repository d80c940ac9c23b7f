-- ===== src/Manager/Queries.antt =====
-- cmd/cert-sync/main.go: which fields of the manager a query of Cert Warden leaves alone.
use zoraxy_cert_warden.Base.{
  ℕ, false, not, Option, none, some, [], Str, ◌==◌, str_eq, nat_eq, ◌≡◌, refl, ◌∙◌, arith, if-holds,
  Option-holds,
}
use zoraxy_cert_warden.Failure.{Error}
use zoraxy_cert_warden.Config.{CertificateConfig, CertWardenSource}
use zoraxy_cert_warden.Status.{State}
use zoraxy_cert_warden.SecretStore.{Credentials, lookup_secret}
use zoraxy_cert_warden.Manager.Credentials.{is_stored_for}
use zoraxy_cert_warden.Manager.Records.{record_state, record_remote_query}
use zoraxy_cert_warden.Manager.Remote.{
  begin_query, finish_query, run_fetch, with_client, ask, query_with, fetch_remote, no_access,
  of_error,
}
use zoraxy_cert_warden.Manager.Quiet.{is_live, last_save, Harmless, note-Harmless}
use zoraxy_cert_warden.Manager.{
  Watch, Manager, Material, no_material, QueryError, Log, Services, Run, lookup_state, make_client,
}

-- The manager without its states and pending restarts.
abbrev pub settings : Manager → Manager
settings m = record m { states = []; fallback_pending = []; runtime_loaded = false }

pub record Steady (r r' : Run) : Type 0 where
  pub same_settings : settings r'.manager ≡ settings r.manager
  pub same_live : (w : Watch) → is_live w r'.log ≡ is_live w r.log
  pub same_saves : last_save r'.log ≡ last_save r.log

pub Steady-refl : (r : Run) → Steady r r
Steady-refl r = record { same_settings = refl; same_live = λ w. refl; same_saves = refl }

pub Steady-trans : (q r t : Run) → Steady q r → Steady r t → Steady q t
Steady-trans q r t a b = record {
  same_settings = b.same_settings ∙ a.same_settings;
  same_live = λ w. b.same_live w ∙ a.same_live w;
  same_saves = b.same_saves ∙ a.same_saves;
}

pub Harmless-Steady : (r t : Run) → Harmless r t → Steady r t
Harmless-Steady r t h = record {
  same_settings = ground (arith, h.same_active);
  same_live = h.same_live;
  same_saves = h.same_saves;
}

pub record_state-settings :
    (g : ℕ) (f : State → State) (name : Str) (m : Manager)
    → settings (record_state g f name m) ≡ settings m
unfolding record_state
record_state-settings g f name m =
    if-holds (λ x. settings x ≡ settings m) (m.generation == g) (λ e. refl) (λ e. refl)

-- The other goroutines wait for `applyMu` before they change the configuration.
abbrev pub KeepsSettings : Services → Type 0
KeepsSettings s = (l : Log) (m : Manager) → settings (s.meanwhile l m) ≡ settings m

module _ (s : Services) (calm : KeepsSettings s) where
  module _ (name : Str) (g : ℕ) (cfg : CertificateConfig) where
    finish_query-Steady :
        (material : Material) (e : Option QueryError) (r : Run)
        → Steady r (finish_query s name g cfg material e r).1
    unfolding finish_query record_remote_query
    finish_query-Steady material e r = record {
      same_settings = record_state-settings g _ name r.manager;
      same_live = λ w. refl;
      same_saves = refl;
    }

    with_client-Steady :
        (remote : CertWardenSource) (e : Option Error) (r : Run)
        → Steady r (with_client s name g cfg remote e r).1
    unfolding with_client run_fetch is_live last_save
    with_client-Steady remote (some e) r = finish_query-Steady no_material (some (of_error e)) r
    with_client-Steady remote none r =
        Steady-trans r _ _
          record { same_settings = calm _ r.manager; same_live = λ w. refl; same_saves = refl }
          (finish_query-Steady (s.fetched r.log).0 (s.fetched r.log).1 _)

    query_with-Steady :
        (c : Option Credentials) (remote : Option CertWardenSource) (r : Run)
        → Steady r (query_with s name g cfg c remote r).1
    unfolding query_with ask
    query_with-Steady (some c) (some remote) r =
        if-holds (λ (x : (Material × Option QueryError) × Run). Steady r x.1)
          (is_stored_for c (some remote))
          (λ e.
            Steady-trans r _ _
              (Harmless-Steady _ _ (
                note-Harmless
                  (make_client remote.server_url c.certificate_api_key c.private_key_api_key) refl
                  r))
              (with_client-Steady remote
                (s.answer r.log
                  (make_client remote.server_url c.certificate_api_key c.private_key_api_key))
                _))
          (λ e. finish_query-Steady no_material (some no_access) r)
    query_with-Steady none none r = finish_query-Steady no_material (some no_access) r
    query_with-Steady none (some remote) r = finish_query-Steady no_material (some no_access) r
    query_with-Steady (some c) none r = finish_query-Steady no_material (some no_access) r

    pub fetch_remote-Steady : (r : Run) → Steady r (fetch_remote s name g cfg r).1
    unfolding fetch_remote
    fetch_remote-Steady r =
        Option-holds (λ (x : (Material × Option QueryError) × Run). Steady r x.1)
          (lookup_state r.manager.states name) (Steady-refl r)
          (λ x.
            if-holds (λ (x : (Material × Option QueryError) × Run). Steady r x.1)
              (not (r.manager.generation == g)) (λ e. Steady-refl r)
              (λ e.
                Steady-trans r _ _
                  record {
                    same_settings = record_state-settings g begin_query name r.manager;
                    same_live = λ w. refl;
                    same_saves = refl;
                  }
                  (query_with-Steady (lookup_secret r.manager.secrets name) cfg.source.cert_warden
                    _)))
