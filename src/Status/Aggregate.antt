-- ===== src/Status/Aggregate.antt =====
-- internal/status/status.go: `Aggregate`.
use zoraxy_cert_warden.Base.{
  ℕ, suc, Bool, true, false, ◌||◌, Option, none, some, List, [], ◌∷◌, str_eq, if◌then◌else◌, ltb,
}
use zoraxy_cert_warden.Config.{is_cert_warden}
use zoraxy_cert_warden.Status.{
  Status, status_healthy, status_error, status_unknown, status_disabled, CertWardenQueryStatus,
  CertificateStatus, is_set,
}

pub record AggregatedStatus : Type 0 where
  pub status : Status
  pub certificates : ℕ
  pub healthy : ℕ
  pub errors : ℕ
  pub unknown : ℕ
  pub disabled : ℕ
  pub fallback_pending_restart : Bool
  pub remote_sources : ℕ
  pub remote_connected : ℕ
  pub remote_checking : ℕ
  pub remote_errors : ℕ
  pub items : List CertificateStatus

-- The first value, and `persistentPending[0]` if it is given.
unfoldable pub empty_aggregate : List CertificateStatus → Option Bool → AggregatedStatus
empty_aggregate items pending = record {
  status = status_healthy;
  certificates = 0;
  healthy = 0;
  errors = 0;
  unknown = 0;
  disabled = 0;
  fallback_pending_restart = elim pending [ none ↦ false | some b ↦ b ];
  remote_sources = 0;
  remote_connected = 0;
  remote_checking = 0;
  remote_errors = 0;
  items = items;
}

abbrev pub count_item : Status → AggregatedStatus → AggregatedStatus
count_item status_healthy agg = record agg { healthy = suc agg.healthy }
count_item status_error agg = record agg { errors = suc agg.errors }
count_item status_unknown agg = record agg { unknown = suc agg.unknown }
count_item status_disabled agg = record agg { disabled = suc agg.disabled }

abbrev pub count_remote : Bool → AggregatedStatus → AggregatedStatus
count_remote true agg = record agg { remote_sources = suc agg.remote_sources }
count_remote false agg = agg

abbrev pub count_finished : Status → AggregatedStatus → AggregatedStatus
count_finished status_healthy agg = record agg { remote_connected = suc agg.remote_connected }
count_finished status_error agg = record agg { remote_errors = suc agg.remote_errors }
count_finished _ agg = agg

abbrev pub count_query : Option CertWardenQueryStatus → AggregatedStatus → AggregatedStatus
count_query none agg = agg
count_query (some q) agg =
    if q.in_progress
    then record agg { remote_checking = suc agg.remote_checking }
    else count_finished q.status agg

abbrev pub is_remote : CertificateStatus → Bool
is_remote item = is_cert_warden item.source_type || is_set item.cert_warden_query

-- One turn of the loop.
unfoldable pub add_item : AggregatedStatus → CertificateStatus → AggregatedStatus
add_item agg item = count_query item.cert_warden_query (
    count_remote (is_remote item) (
      count_item item.status (record agg {
        certificates = suc agg.certificates;
        fallback_pending_restart = agg.fallback_pending_restart || item.fallback_pending_restart;
      })))

unfoldable pub add_items : AggregatedStatus → List CertificateStatus → AggregatedStatus
add_items agg [] = agg
add_items agg (item ∷ items) = add_items (add_item agg item) items

unfoldable pub overall : AggregatedStatus → AggregatedStatus
overall agg =
    if ltb 0 agg.errors
    then record agg { status = status_error }
    else if ltb 0 agg.unknown
    then record agg { status = status_unknown }
    else agg

-- `Aggregate`
unfoldable pub aggregate : List CertificateStatus → Option Bool → AggregatedStatus
unfolding empty_aggregate add_items overall
aggregate items pending = overall (add_items (empty_aggregate items pending) items)
