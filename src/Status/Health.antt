-- ===== src/Status/Health.antt =====
-- internal/status/status.go: what the aggregate of all reports, and the report on one certificate,
-- promise.
use zoraxy_cert_warden.Base.{
  ◌||◌, false, some, ℕ, suc, ◌+◌, ◌<◌, ◌≤◌, ap, sym, ◌∙◌, ◌≡◌, refl, Bool, true, Option, none, List,
  [], ◌∷◌, str_eq, length, arith, ◌↔◌,
}
use zoraxy_cert_warden.Status.{
  status_unknown, status_healthy, status_error, is_healthy, is_error, CertificateStatus, State,
  is_set, query_failure, health, to_certificate_status,
}
use zoraxy_cert_warden.Config.{is_cert_warden}
use zoraxy_cert_warden.Status.Aggregate.{
  AggregatedStatus, empty_aggregate, is_remote, add_item, add_items, overall, aggregate,
}
use zoraxy_cert_warden.Status.Counters.{
  count, is_unknown, is_disabled, aggregate_counts_field, any_item, counts_all, counts_healthy,
  counts_errors, counts_unknown, counts_disabled, counts_remote, is_connected_item,
  counts_connected, is_checking_item, counts_checking, has_failed_item, counts_failed,
}

-- Some report waits for a restart.
abbrev pub some_pending : List CertificateStatus → Bool
some_pending [] = false
some_pending (item ∷ items) = item.fallback_pending_restart || some_pending items

-- What `Aggregate` promises: each number counts the reports of its kind, the four kinds of status
-- add up to all reports, and the overall status is the worst one, where a disabled report counts
-- as healthy.
pub record Tallied (pending : Bool) (items : List CertificateStatus) (agg : AggregatedStatus)
    : Type 0 where
  pub same_items : agg.items ≡ items
  pub all_counted : agg.certificates ≡ length items
  pub healthy_counted : agg.healthy ≡ count (λ i. is_healthy i.status) items
  pub errors_counted : agg.errors ≡ count (λ i. is_error i.status) items
  pub unknown_counted : agg.unknown ≡ count (λ i. is_unknown i.status) items
  pub disabled_counted : agg.disabled ≡ count (λ i. is_disabled i.status) items
  pub kinds_add_up : agg.healthy + agg.errors + agg.unknown + agg.disabled ≡ agg.certificates
  pub remote_counted :
      agg.remote_sources
      ≡ count (λ i. is_cert_warden i.source_type || is_set i.cert_warden_query) items
  pub checking_counted : agg.remote_checking ≡ count is_checking_item items
  pub connected_counted : agg.remote_connected ≡ count is_connected_item items
  pub failed_counted : agg.remote_errors ≡ count has_failed_item items
  pub connected_bound : agg.remote_connected ≤ agg.remote_sources
  pub flag_raised : agg.fallback_pending_restart ≡ (pending || some_pending items)
  pub error_iff : (agg.status ≡ status_error) ↔ (0 < count (λ i. is_error i.status) items)
  pub unknown_iff :
      (agg.status ≡ status_unknown)
      ↔ ((count (λ i. is_error i.status) items ≡ 0) × (0 < count (λ i. is_unknown i.status) items))
  pub healthy_iff : (agg.status ≡ status_healthy) ↔ (agg.healthy + agg.disabled ≡ length items)

kinds_add_up_lem :
    (items : List CertificateStatus)
    → count (λ i. is_healthy i.status) items
        + count (λ i. is_error i.status) items
        + count (λ i. is_unknown i.status) items
        + count (λ i. is_disabled i.status) items
      ≡ length items
unfolding count is_unknown is_disabled
kinds_add_up_lem [] = refl
kinds_add_up_lem (item ∷ items) = let rest = kinds_add_up_lem items in ground arith

count_any : (items : List CertificateStatus) → count any_item items ≡ length items
unfolding count any_item
count_any [] = refl
count_any (item ∷ items) = ap suc (count_any items)

count_le :
    (f g : CertificateStatus → Bool)
    → ((item : CertificateStatus) → f item ≡ true → g item ≡ true)
    → (items : List CertificateStatus) → count f items ≤ count g items
unfolding count
count_le f g imp [] = omega arith
count_le f g imp (item ∷ items) =
    let rest = count_le f g imp items in let here = imp item in ground arith

overall_status :
    (agg : AggregatedStatus)
    → agg.status ≡ status_healthy
    → ((overall agg).status ≡ status_error ↔ (0 < agg.errors))
      × ((overall agg).status ≡ status_healthy ↔ (agg.errors + agg.unknown ≡ 0))
      × ((overall agg).status ≡ status_unknown ↔ ((agg.errors ≡ 0) × (0 < agg.unknown)))
unfolding overall
overall_status agg h = ground arith

overall_keeps_all :
    (agg : AggregatedStatus)
    → ((overall agg).certificates ≡ agg.certificates)
      × ((overall agg).errors ≡ agg.errors)
      × ((overall agg).unknown ≡ agg.unknown)
unfolding overall
overall_keeps_all agg = ground arith

add_item_keeps_status :
    (agg : AggregatedStatus) (item : CertificateStatus) → (add_item agg item).status ≡ agg.status
unfolding add_item
add_item_keeps_status agg item = ground arith

add_items_keep_status :
    (agg : AggregatedStatus) (items : List CertificateStatus)
    → (add_items agg items).status ≡ agg.status
unfolding add_items
add_items_keep_status agg [] = refl
add_items_keep_status agg (item ∷ items) =
    add_items_keep_status (add_item agg item) items ∙ add_item_keeps_status agg item

connected_is_remote :
    (item : CertificateStatus) → is_connected_item item ≡ true → is_remote item ≡ true
unfolding is_connected_item
connected_is_remote item h = ground arith

aggregate_status :
    (items : List CertificateStatus) (pending : Option Bool)
    → let a = aggregate items pending in
      ((a.status ≡ status_error) ↔ (0 < a.errors))
      × ((a.status ≡ status_healthy) ↔ (a.errors + a.unknown ≡ 0))
      × ((a.status ≡ status_unknown) ↔ ((a.errors ≡ 0) × (0 < a.unknown)))
unfolding aggregate empty_aggregate
aggregate_status items pending =
    let start = empty_aggregate items pending in
    let end = add_items start items in
    let keeps = overall_keeps_all end in
    rw (keeps.1, keeps.2) (overall_status end (add_items_keep_status start items))

-- The flag is raised by the reports that wait for a restart.
add_items-pending :
    (agg : AggregatedStatus) (items : List CertificateStatus)
    → (add_items agg items).fallback_pending_restart
      ≡ (agg.fallback_pending_restart || some_pending items)
unfolding add_items add_item
add_items-pending agg [] = ground arith
add_items-pending agg (item ∷ items) = ground (arith, add_items-pending (add_item agg item) items)

add_items-items :
    (agg : AggregatedStatus) (items : List CertificateStatus)
    → (add_items agg items).items ≡ agg.items
unfolding add_items add_item
add_items-items agg [] = refl
add_items-items agg (item ∷ items) = ground (arith, add_items-items (add_item agg item) items)

overall_keeps_rest :
    (agg : AggregatedStatus)
    → ((overall agg).fallback_pending_restart ≡ agg.fallback_pending_restart)
      × ((overall agg).items ≡ agg.items)
unfolding overall
overall_keeps_rest agg = ground arith

-- The flag that is handed over, if one is.
abbrev pub given_flag : Option Bool → Bool
given_flag none = false
given_flag (some b) = b

aggregate_rest :
    (items : List CertificateStatus) (pending : Option Bool)
    → ((aggregate items pending).fallback_pending_restart
        ≡ (given_flag pending || some_pending items))
      × ((aggregate items pending).items ≡ items)
unfolding aggregate empty_aggregate
aggregate_rest items none =
    let start = empty_aggregate items none in
    let k = overall_keeps_rest (add_items start items) in
    (k.0 ∙ add_items-pending start items, k.1 ∙ add_items-items start items)
aggregate_rest items (some b) =
    let start = empty_aggregate items (some b) in
    let k = overall_keeps_rest (add_items start items) in
    (k.0 ∙ add_items-pending start items, k.1 ∙ add_items-items start items)

-- For every list of reports and every pending flag, the numbers, the flag and the status that
-- `Aggregate` returns are the ones that it promises: each number counts the reports of its kind
-- (healthy, error, unknown, disabled; with a remote source, with a query under way, with a finished
-- query that is healthy or failed), the four kinds add up to all reports, no more remote sources
-- are connected than there are, the flag is raised exactly when the given one or that of a report
-- is, the status is an error exactly when some report is one, unknown exactly when none is an error
-- and some is unknown, and healthy exactly when every report is healthy or disabled.
pub aggregate_tallies :
    (items : List CertificateStatus) (pending : Option Bool)
    → Tallied (given_flag pending) items (aggregate items pending)
aggregate_tallies items pending =
    let all = aggregate_counts_field any_item _ counts_all items pending ∙ count_any items in
    let healthy = aggregate_counts_field _ _ counts_healthy items pending in
    let errors = aggregate_counts_field _ _ counts_errors items pending in
    let unknown = aggregate_counts_field _ _ counts_unknown items pending in
    let disabled = aggregate_counts_field _ _ counts_disabled items pending in
    let remote = aggregate_counts_field _ _ counts_remote items pending in
    let connected = aggregate_counts_field _ _ counts_connected items pending in
    let sum = kinds_add_up_lem items in
    let bound = count_le is_connected_item is_remote connected_is_remote items in
    let worst = aggregate_status items pending in
    let rest = aggregate_rest items pending in
    record {
      same_items = rest.1;
      all_counted = all;
      healthy_counted = healthy;
      errors_counted = errors;
      unknown_counted = unknown;
      disabled_counted = disabled;
      kinds_add_up = omega arith;
      remote_counted = remote;
      checking_counted = aggregate_counts_field _ _ counts_checking items pending;
      connected_counted = connected;
      failed_counted = aggregate_counts_field _ _ counts_failed items pending;
      connected_bound = omega arith;
      flag_raised = rest.0;
      error_iff = rw (sym errors) worst.0;
      unknown_iff = rw (sym errors, sym unknown) worst.2;
      healthy_iff = (λ h. let z = worst.1.0 h in omega arith, λ h. worst.1.1 (omega arith));
    }

-- What makes a report healthy.
pub record Sound (s : State) : Type 0 where
  pub enabled : s.config.enabled ≡ true
  pub loaded : is_set s.source_info ≡ true
  pub checked : is_set s.last_destination_validation ≡ true
  pub same_digest : s.source_digest ≡ s.destination_digest
  pub no_query_failure : query_failure s.cert_warden_query ≡ none
  pub no_watcher_error : s.watcher_error ≡ none
  pub no_sync_error : s.sync_error ≡ none
  pub no_source_error : s.source_validation_error ≡ none
  pub no_destination_error : s.destination_validation_error ≡ none

healthy_of_test : (s : State) → ((health s).0 ≡ status_healthy) → Sound s
unfolding health
healthy_of_test s h = ground arith

test_of_healthy : (s : State) → Sound s → (health s).0 ≡ status_healthy
unfolding health
test_of_healthy s h = ground arith

-- At every time, the report on a state is healthy exactly when the certificate is enabled, its
-- source is loaded, its destination was validated, the two digests agree, and neither the remote
-- query, the watcher, the synchronisation nor a validation has left an error.
pub to_certificate_status-healthy_iff :
    (now : ℕ) (s : State) → ((to_certificate_status now s).status ≡ status_healthy) ↔ Sound s
unfolding to_certificate_status
to_certificate_status-healthy_iff now s = (healthy_of_test s, test_of_healthy s)
