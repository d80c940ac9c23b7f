-- ===== src/Tests/Reports.antt =====
-- Runs of the reports.
use zoraxy_cert_warden.Base.{◌≡◌, refl, ◌↔◌, false, none, some, List, [], ◌∷◌, codes}
use zoraxy_cert_warden.CertUtil.{CertInfo}
use zoraxy_cert_warden.Status.{State, CertificateStatus, status_healthy, to_certificate_status}
use zoraxy_cert_warden.Status.Aggregate.{add_item, aggregate}
use zoraxy_cert_warden.Status.Health.{
  Tallied, aggregate_tallies, Sound, to_certificate_status-healthy_iff,
}
use zoraxy_cert_warden.Tests.Fixtures.{leaf, config_of}

abbrev info : CertInfo
info = record {
  certificate = leaf;
  chain = leaf ∷ [];
  fingerprint = codes "00";
  leaf_fingerprint = codes "00";
  bundle_digest = codes "11";
}

abbrev healthy_state : State
healthy_state = record {
  config = config_of (codes "a");
  source_info = some info;
  source_fingerprint = codes "00";
  source_digest = codes "11";
  destination_digest = codes "11";
  destination_fingerprint = codes "00";
  last_source_modification = 1;
  last_source_validation = some 2;
  last_destination_validation = some 3;
  last_successful_sync = none;
  last_attempted_sync = none;
  last_watcher_error = none;
  source_validation_error = none;
  destination_validation_error = none;
  sync_error = none;
  watcher_error = none;
  fallback_pending_restart = false;
  cert_warden_query = none;
}

abbrev reports : List CertificateStatus
reports =
    to_certificate_status 10 healthy_state
    ∷ to_certificate_status 10 (record healthy_state { destination_digest = [] })
    ∷ []

aggregate_tallies_example : Tallied false reports (aggregate reports none)
aggregate_tallies_example = aggregate_tallies reports none

to_certificate_status-healthy_iff_example :
    ((to_certificate_status 10 healthy_state).status ≡ status_healthy) ↔ Sound healthy_state
to_certificate_status-healthy_iff_example = to_certificate_status-healthy_iff 10 healthy_state

-- One of the two reports is healthy.
one_healthy : (aggregate reports none).healthy ≡ 1
unfolding aggregate to_certificate_status add_item
one_healthy = refl
