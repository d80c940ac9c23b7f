-- ===== src/Manager/Records.antt =====
-- cmd/cert-sync/main.go: the three functions that record an outcome in the state of a
-- certificate, each only while the generation of the run is the active one.
use zoraxy_cert_warden.Base.{
  ℕ, ◌+◌, ◌*◌, false, not, ◌&&◌, Option, none, some, List, [], Str, codes, ◌==◌, str_eq, nat_eq,
  if◌then◌else◌,
}
use zoraxy_cert_warden.Base.Int.{ℤ, pos, pos_part}
use zoraxy_cert_warden.Failure.{Error}
use zoraxy_cert_warden.Config.{CertificateConfig}
use zoraxy_cert_warden.CertUtil.{CertInfo}
use zoraxy_cert_warden.Sync.Fallback.{Report}
use zoraxy_cert_warden.Status.{
  State, CertWardenQueryStatus, status_healthy, status_error, status_unknown,
}
use zoraxy_cert_warden.Manager.{Manager, Material, QueryError, update_state, is_pending}

-- `state, ok := m.states[name]; if !ok || m.generation != generation { return }`, and then what is
-- written through `state`.
unfoldable pub record_state : ℕ → (State → State) → Str → Manager → Manager
unfolding nat_eq update_state
record_state generation f name m =
    if m.generation == generation then record m { states = update_state f m.states name } else m

abbrev pub empty_query : CertWardenQueryStatus
empty_query = record {
  status = status_unknown;
  in_progress = false;
  last_attempt = none;
  last_success = none;
  next_attempt = none;
  latency_millis = pos 0;
  http_status = pos 0;
  failure_kind = [];
  text = [];
}

abbrev query_of : Option CertWardenQueryStatus → CertWardenQueryStatus
query_of none = empty_query
query_of (some q) = q

-- `now.Add(time.Duration(seconds) * time.Second)`, in nanoseconds; the validated intervals are
-- positive.
abbrev later_by : ℕ → ℤ → ℕ
later_by now seconds = now + pos_part seconds * 1000000000

unfoldable pub next_attempt : ℕ → CertificateConfig → Option ℕ
next_attempt now cfg =
    if cfg.sync.auto_sync then some (later_by now cfg.sync.poll_interval_seconds) else none

-- `recordRemoteQuery`, on the query of a state.
unfoldable pub query_outcome :
    ℕ
    → Material
    → Option QueryError
    → CertificateConfig
    → CertWardenQueryStatus
    → CertWardenQueryStatus
unfolding next_attempt
query_outcome now material none cfg q = record q {
  in_progress = false;
  last_attempt = some now;
  http_status = material.http_status;
  latency_millis = material.latency_millis;
  next_attempt = next_attempt now cfg;
  status = status_healthy;
  last_success = some now;
  failure_kind = [];
  text = codes "Certificate bundle downloaded";
}
query_outcome now material (some e) cfg q = record q {
  in_progress = false;
  last_attempt = some now;
  http_status = elim e.fetch_error [ none ↦ material.http_status | some k ↦ k.1 ];
  latency_millis = material.latency_millis;
  next_attempt = next_attempt now cfg;
  status = status_error;
  failure_kind = elim e.fetch_error [ none ↦ q.failure_kind | some k ↦ k.0 ];
  text = codes "Cert Warden query failed";
}

-- `recordRemoteQuery`
unfoldable pub record_remote_query :
    ℕ → Str → ℕ → Material → Option QueryError → CertificateConfig → Manager → Manager
unfolding record_state query_outcome
record_remote_query now name generation material e cfg m =
    record_state generation
      (λ x. record x {
        cert_warden_query = some (query_outcome now material e cfg (query_of x.cert_warden_query));
      })
      name m

-- All that a run of the synchronisation hands to `recordSync`.
pub record SyncRun : Type 0 where
  pub info : Option CertInfo
  pub result : Option Report
  pub modified : ℕ
  pub destination_info : Option CertInfo
  pub destination_error : Option Error
  pub fallback_destination : Str
  pub sync_error : Option Error

-- The first lines of `recordSync`.
unfoldable pub note_attempt : ℕ → List Str → SyncRun → State → State
unfolding str_eq is_pending
note_attempt now pending s x = record x {
  last_attempted_sync = some now;
  last_source_modification = s.modified;
  sync_error = s.sync_error;
  fallback_pending_restart =
      x.config.fallback
      && (not (s.fallback_destination == []) && is_pending pending s.fallback_destination);
  source_info = s.info;
}

-- The part without `info`.
unfoldable pub note_no_source : ℕ → Option Error → Option Error → State → State
note_no_source now none sync_error x = record x {
  last_source_validation = some now;
  source_validation_error = sync_error;
}
note_no_source now (some e) sync_error x = record x {
  last_destination_validation = some now;
  destination_validation_error = some e;
}

abbrev destination_digest_of : Option CertInfo → Str
destination_digest_of none = []
destination_digest_of (some i) = i.bundle_digest

abbrev destination_fingerprint_of : Option CertInfo → Str
destination_fingerprint_of none = []
destination_fingerprint_of (some i) = i.fingerprint

-- `destinationInfo` as far as `destinationErr == nil` lets it be read.
unfoldable pub note_destination : Option CertInfo → Option Error → State → State
note_destination info none x = record x {
  destination_digest = destination_digest_of info;
  destination_fingerprint = destination_fingerprint_of info;
}
note_destination info (some e) x = x

unfoldable pub note_source : ℕ → CertInfo → Option CertInfo → Option Error → State → State
unfolding note_destination
note_source now info destination_info destination_error x =
    note_destination destination_info destination_error (record x {
      last_source_validation = some now;
      source_validation_error = none;
      source_fingerprint = info.fingerprint;
      source_digest = info.bundle_digest;
      last_destination_validation = some now;
      destination_validation_error = destination_error;
    })

unfoldable pub note_success : ℕ → Option Report → Option Error → State → State
unfolding str_eq
note_success now (some result) none x = record x {
  last_successful_sync = some now;
  destination_digest =
      if x.destination_digest == [] then result.dest_bundle_digest else x.destination_digest;
  destination_fingerprint =
      if x.destination_fingerprint == [] then result.dest_fp else x.destination_fingerprint;
}
note_success now _ _ x = x

unfoldable pub sync_outcome : ℕ → List Str → SyncRun → State → State
unfolding note_attempt note_no_source note_source note_success
sync_outcome now pending s x = elim s.info [
  | none ↦ note_no_source now s.destination_error s.sync_error (note_attempt now pending s x)
  | some info ↦
      note_success now s.result s.sync_error
        (note_source now info s.destination_info s.destination_error (note_attempt now pending s x))
]

-- `recordSync`
unfoldable pub record_sync : ℕ → Str → ℕ → SyncRun → Manager → Manager
unfolding record_state sync_outcome
record_sync now name generation s m =
    record_state generation (sync_outcome now m.fallback_pending s) name m

unfoldable pub validation_outcome : ℕ → Option CertInfo → Option Error → State → State
validation_outcome now none e x = record x {
  last_source_validation = some now;
  source_validation_error = e;
  source_info = none;
}
validation_outcome now (some info) e x = record x {
  last_source_validation = some now;
  source_validation_error = e;
  source_info = some info;
  source_fingerprint = info.fingerprint;
  source_digest = info.bundle_digest;
}

-- `recordValidation`
unfoldable pub record_validation : ℕ → Str → ℕ → Option CertInfo → Option Error → Manager → Manager
unfolding record_state validation_outcome
record_validation now name generation info e m =
    record_state generation (validation_outcome now info e) name m
