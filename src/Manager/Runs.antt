-- ===== src/Manager/Runs.antt =====
-- cmd/cert-sync/main.go: one run of the synchronisation of a certificate, and its validation.
use zoraxy_cert_warden.Base.{
  ℕ, Bool, true, false, not, ◌||◌, Option, none, some, [], ◌∷◌, ◌++◌, Str, codes, ◌==◌, str_eq,
  nat_eq, if◌then◌else◌,
}
use zoraxy_cert_warden.Text.FilePath.{join}
use zoraxy_cert_warden.Text.{has_prefix}
use zoraxy_cert_warden.Failure.{Error, errorf, wrapf, path_error, joined, wrap, ok, err}
use zoraxy_cert_warden.Host.{Host}
use zoraxy_cert_warden.Config.{CertificateConfig, SourceType, source_type_local, is_cert_warden}
use zoraxy_cert_warden.Config.Policy.{PathPolicy, resolve_source, resolve_destination}
use zoraxy_cert_warden.CertUtil.{CertInfo}
use zoraxy_cert_warden.Sync.Fallback.{Report}
use zoraxy_cert_warden.Manager.Fallbacks.{mark_fallback_pending}
use zoraxy_cert_warden.Manager.Records.{SyncRun, record_sync}
use zoraxy_cert_warden.Manager.Remote.{fetch_remote}
use zoraxy_cert_warden.Manager.{
  Material, no_material, Failed, certificate_not_found, source_validation, plainly, as_kind,
  Services, P, note, wait, Call, lookup_state, lock_destination, sync_files, sync_material,
  read_destination, stat_source,
}

-- `isFilesystemError`
-- The error of `os.Rename` and `os.Link` is no `*os.PathError`.
unfoldable pub is_link_operation : Str → Bool
unfolding has_prefix
is_link_operation op = has_prefix op (codes "rename ") || has_prefix op (codes "link ")

unfoldable pub is_filesystem_error : Error → Bool
is_filesystem_error (errorf t) = false
is_filesystem_error (wrapf before e after) = is_filesystem_error e
is_filesystem_error (path_error op e) = not (is_link_operation op)
is_filesystem_error (joined e f) = is_filesystem_error e || is_filesystem_error f

-- `if syncErr != nil && info == nil && !isFilesystemError(syncErr)`, and its branch.
unfoldable pub classify : Option CertInfo → Option Error → Option Failed
unfolding is_filesystem_error
classify info none = none
classify none (some e) =
    if is_filesystem_error e then some (plainly e) else some (as_kind source_validation e)
classify (some info) (some e) = some (plainly e)

-- `errors.Join` of the run's error, if any, and another.
unfoldable pub join_failure : Option Failed → Error → Option Failed
join_failure none e = some (plainly e)
join_failure (some f) e = some record { kind = f.kind; cause = joined f.cause e }

abbrev pub cause_of : Option Failed → Option Error
cause_of none = none
cause_of (some f) = some f.cause

abbrev pub is_local : SourceType → Bool
is_local source_type_local = true
is_local _ = false

abbrev pub not_found : Str → Failed
not_found name =
    as_kind certificate_not_found
      (errorf (codes "certificate \"" ++ (name ++ codes "\" not found")))

-- `result != nil && result.FallbackChanged`
abbrev pub fallback_changed : Option Report → Bool
fallback_changed none = false
fallback_changed (some r) = r.fallback_changed

-- What a run that got as far as the publication hands to `recordSync`.
abbrev pub outcome_of :
    Str
    → Option CertInfo
    → Option Report
    → ℕ
    → Option CertInfo × Option Error
    → Option Failed
    → SyncRun
outcome_of destination info result modified found failure = record {
  info = info;
  result = result;
  modified = modified;
  destination_info = found.0;
  destination_error = found.1;
  fallback_destination = destination;
  sync_error = cause_of failure;
}

-- What a run without a destination hands to it.
abbrev pub unresolved : Error → SyncRun
unresolved e = record {
  info = none;
  result = none;
  modified = 0;
  destination_info = none;
  destination_error = some e;
  fallback_destination = [];
  sync_error = some e;
}

module _ (h : Host) (policy : PathPolicy) (s : Services) where
  -- The time of the source file, where it can be had; `zero` is Go's zero time.
  unfoldable pub source_time : CertificateConfig → ℕ → P ℕ
  unfolding resolve_source
  source_time cfg zero_time r =
      if is_local cfg.source.source_type
      then elim (resolve_source h policy cfg.source.certificate true) [
        | err e ↦ (zero_time, r)
        | ok path ↦
            (elim (s.modified r.log) [ none ↦ zero_time | some t ↦ t ], note (stat_source path) r)
      ]
      else (zero_time, r)

  -- `readDestinationFunc`, if there is a certificate to compare with.
  unfoldable pub look_at_destination :
      CertificateConfig → Option CertInfo → P (Option CertInfo × Option Error)
  look_at_destination cfg none r = ((none, none), r)
  look_at_destination cfg (some info) r = (
    elim (s.destination_info r.log) [ err e ↦ (none, some e) | ok found ↦ (some found, none) ],
    note (read_destination cfg) r,
  )

  -- `markFallbackPending` after a change of the fallback file.
  unfoldable pub mark_changed : Str → Bool → Option Failed → P (Option Failed)
  unfolding mark_fallback_pending join_failure
  mark_changed destination false failure r = (failure, r)
  mark_changed destination true failure r =
      let (e, r') = mark_fallback_pending h policy s (destination ∷ []) r in
      (
        elim e [
          | none ↦ failure
          | some x ↦ join_failure failure (wrap "persist fallback restart state" x)
        ],
        r',
      )

  module _ (name : Str) (generation : ℕ) (cfg : CertificateConfig) where
    -- The end of the run: its outcome is recorded, after a moment without the lock.
    unfoldable pub finish_run : SyncRun → Option Failed → P (Option Failed)
    unfolding record_sync
    finish_run run failure r =
        let (_, r') = wait s r in
        (failure, record r' { manager = record_sync (s.now r'.log) name generation run r'.manager })

    -- What follows the publication.
    unfoldable pub after_sync :
        Str → ℕ → Option CertInfo × Option Report × Option Error → P (Option Failed)
    unfolding source_time look_at_destination mark_changed finish_run classify
    after_sync destination zero_time (info, result, sync_error) r =
        let (modified, r1) = source_time cfg zero_time r in
        let (found, r2) = look_at_destination cfg info r1 in
        let (failure, r3) =
          mark_changed destination (fallback_changed result) (classify info sync_error) r2 in
        finish_run (outcome_of destination info result modified found failure) failure r3

    -- The call that publishes, and the time that goes with it.
    unfoldable pub sync_call : ℕ → Material → Call
    sync_call active_generation material =
        if is_cert_warden cfg.source.source_type
        then sync_material active_generation cfg material
        else sync_files active_generation cfg

    unfoldable pub publish_run : Str → Material → P (Option Failed)
    unfolding after_sync sync_call
    publish_run destination material r =
        after_sync destination
          (if is_cert_warden cfg.source.source_type then material.retrieved_at else 0)
          (s.synced r.log) (note (sync_call r.manager.generation material) r)

    -- The second look at the generation, before anything is published.
    unfoldable pub publish_if_active : Str → Material → P (Option Failed)
    unfolding lookup_state nat_eq publish_run
    publish_if_active destination material r = elim (lookup_state r.manager.states name) [
      | none ↦ (none, r)
      | some x ↦
          if not (r.manager.generation == generation)
          then (none, r)
          else publish_run destination material r
    ]

    unfoldable pub fetch_and_publish : Str → P (Option Failed)
    unfolding fetch_remote publish_if_active
    fetch_and_publish destination r =
        let ((material, e), r') = fetch_remote s name generation cfg r in
        elim e [
          | some x ↦ (some (plainly x.cause), r')
          | none ↦ publish_if_active destination material r'
        ]

    unfoldable pub obtain_and_publish : Str → P (Option Failed)
    unfolding fetch_and_publish publish_if_active
    obtain_and_publish destination r =
        if is_cert_warden cfg.source.source_type
        then fetch_and_publish destination r
        else publish_if_active destination no_material r

    -- The run from the resolution of the destination on; it waits for the lock of the destination.
    unfoldable pub run_sync : P (Option Failed)
    unfolding resolve_destination finish_run obtain_and_publish join
    run_sync r = elim (resolve_destination h policy cfg.destination.target_directory false) [
      | err e ↦ finish_run (unresolved e) (some (plainly e)) r
      | ok destination ↦
          let (_, r') =
            wait s (note (lock_destination (join destination cfg.destination.target_name)) r) in
          obtain_and_publish destination r'
    ]

  -- `syncGenerationContext`
  unfoldable pub sync_generation : Str → ℕ → P (Option Failed)
  unfolding lookup_state nat_eq run_sync
  sync_generation name generation r = elim (lookup_state r.manager.states name) [
    | none ↦ if r.manager.generation == generation then (some (not_found name), r) else (none, r)
    | some x ↦
        if r.manager.generation == generation
        then run_sync name generation x.config r
        else (none, r)
  ]

  -- `SyncCertificate`
  unfoldable pub sync_certificate : Str → P (Option Failed)
  unfolding sync_generation
  sync_certificate name r = sync_generation name r.manager.generation r
