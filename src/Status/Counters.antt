-- ===== src/Status/Counters.antt =====
-- internal/status/status.go: each counter of `Aggregate` counts the reports that a test accepts.
use zoraxy_cert_warden.Base.{
  ℕ, suc, ◌+◌, ◌≡◌, refl, Bool, true, false, not, ◌&&◌, Option, none, some, List, [], ◌∷◌, str_eq,
  if◌then◌else◌, arith,
}
use zoraxy_cert_warden.Status.{
  Status, status_unknown, status_disabled, is_healthy, is_error, CertWardenQueryStatus,
  CertificateStatus,
}
use zoraxy_cert_warden.Status.Aggregate.{
  AggregatedStatus, empty_aggregate, is_remote, add_item, add_items, overall, aggregate,
}

-- How many reports satisfy a test.
unfoldable pub count : (CertificateStatus → Bool) → List CertificateStatus → ℕ
count f [] = 0
count f (item ∷ items) = if f item then suc (count f items) else count f items

abbrev is_connected : Option CertWardenQueryStatus → Bool
is_connected none = false
is_connected (some q) = not q.in_progress && is_healthy q.status

unfoldable pub is_unknown : Status → Bool
is_unknown status_unknown = true
is_unknown _ = false

abbrev is_checking : Option CertWardenQueryStatus → Bool
is_checking none = false
is_checking (some q) = q.in_progress

abbrev has_failed : Option CertWardenQueryStatus → Bool
has_failed none = false
has_failed (some q) = not q.in_progress && is_error q.status

unfoldable pub is_disabled : Status → Bool
is_disabled status_disabled = true
is_disabled _ = false

-- A counter that one turn of the loop raises for the reports that a test accepts counts them.
pub record Counter (test : CertificateStatus → Bool) (field : AggregatedStatus → ℕ) : Type 0 where
  step :
      (agg : AggregatedStatus) (item : CertificateStatus)
      → field (add_item agg item) ≡ (if test item then suc (field agg) else field agg)
  start :
      (items : List CertificateStatus) (pending : Option Bool)
      → field (empty_aggregate items pending) ≡ 0
  end : (agg : AggregatedStatus) → field (overall agg) ≡ field agg

module _ (test : CertificateStatus → Bool) (field : AggregatedStatus → ℕ)
    (c : Counter test field) where
  moved : (n m : ℕ) (b : Bool) → (if b then suc n else n) + m ≡ n + (if b then suc m else m)
  moved n m true = omega arith
  moved n m false = refl

  add_items_counts :
      (agg : AggregatedStatus) (items : List CertificateStatus)
      → field (add_items agg items) ≡ field agg + count test items
  unfolding add_items count
  add_items_counts agg [] = omega arith
  add_items_counts agg (item ∷ items) =
      rw (add_items_counts (add_item agg item) items, c.step agg item)
        (moved (field agg) (count test items) (test item))

  pub aggregate_counts_field :
      (items : List CertificateStatus) (pending : Option Bool)
      → field (aggregate items pending) ≡ count test items
  unfolding aggregate
  aggregate_counts_field items pending =
      rw
        (
          c.end (add_items (empty_aggregate items pending) items),
          add_items_counts (empty_aggregate items pending) items,
          c.start items pending,
        )
        (omega arith)

unfoldable pub any_item : CertificateStatus → Bool
any_item item = true

pub counts_all : Counter any_item (λ a. a.certificates)
unfolding any_item add_item empty_aggregate overall
counts_all = record {
  step = λ agg item. ground arith;
  start = λ items pending. refl;
  end = λ agg. ground arith;
}

pub counts_healthy : Counter (λ i. is_healthy i.status) (λ a. a.healthy)
unfolding add_item empty_aggregate overall
counts_healthy = record {
  step = λ agg item. ground arith;
  start = λ items pending. refl;
  end = λ agg. ground arith;
}

pub counts_errors : Counter (λ i. is_error i.status) (λ a. a.errors)
unfolding add_item empty_aggregate overall
counts_errors = record {
  step = λ agg item. ground arith;
  start = λ items pending. refl;
  end = λ agg. ground arith;
}

pub counts_unknown : Counter (λ i. is_unknown i.status) (λ a. a.unknown)
unfolding is_unknown add_item empty_aggregate overall
counts_unknown = record {
  step = λ agg item. ground arith;
  start = λ items pending. refl;
  end = λ agg. ground arith;
}

pub counts_disabled : Counter (λ i. is_disabled i.status) (λ a. a.disabled)
unfolding is_disabled add_item empty_aggregate overall
counts_disabled = record {
  step = λ agg item. ground arith;
  start = λ items pending. refl;
  end = λ agg. ground arith;
}

pub counts_remote : Counter is_remote (λ a. a.remote_sources)
unfolding add_item empty_aggregate overall
counts_remote = record {
  step = λ agg item. ground arith;
  start = λ items pending. refl;
  end = λ agg. ground arith;
}

unfoldable pub is_connected_item : CertificateStatus → Bool
is_connected_item item = is_connected item.cert_warden_query

pub counts_connected : Counter is_connected_item (λ a. a.remote_connected)
unfolding is_connected_item add_item empty_aggregate overall
counts_connected = record {
  step = λ agg item. ground arith;
  start = λ items pending. refl;
  end = λ agg. ground arith;
}

unfoldable pub is_checking_item : CertificateStatus → Bool
is_checking_item item = is_checking item.cert_warden_query

pub counts_checking : Counter is_checking_item (λ a. a.remote_checking)
unfolding is_checking_item add_item empty_aggregate overall
counts_checking = record {
  step = λ agg item. ground arith;
  start = λ items pending. refl;
  end = λ agg. ground arith;
}

unfoldable pub has_failed_item : CertificateStatus → Bool
has_failed_item item = has_failed item.cert_warden_query

pub counts_failed : Counter has_failed_item (λ a. a.remote_errors)
unfolding has_failed_item add_item empty_aggregate overall
counts_failed = record {
  step = λ agg item. ground arith;
  start = λ items pending. refl;
  end = λ agg. ground arith;
}
