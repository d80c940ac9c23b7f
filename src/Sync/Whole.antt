-- ===== src/Sync/Whole.antt =====
-- `SyncMaterial` and `Sync` of internal/sync/sync.go. What the path policy resolves and whether a
-- configuration is valid are parameters.
use zoraxy_cert_warden.Base.{
  Bool, true, false, not, none, some, Str, ◌==◌, str_eq, nat_eq, if◌then◌else◌,
}
use zoraxy_cert_warden.Failure.{new, wrap, Result, ok, err}
use zoraxy_cert_warden.Host.{Host}
use zoraxy_cert_warden.Config.{CertificateConfig, SourceType, unset, source_type_local}
use zoraxy_cert_warden.Config.Policy.{PathPolicy, resolve_source, resolve_destination}
use zoraxy_cert_warden.Config.Whole.{validate_one}
use zoraxy_cert_warden.CertUtil.{Bytes, CertInfo, Crypto, validate_pem_pair}
use zoraxy_cert_warden.Disk.{Env, P, M, return, fail, attempt, ◌>>=◌}
use zoraxy_cert_warden.Disk.Calls.{read_file}
use zoraxy_cert_warden.Sync.Staging.{read_pair_at}
use zoraxy_cert_warden.Sync.Replace.{cert_path, key_path, replace_pair}
use zoraxy_cert_warden.Sync.Fallback.{Report, empty_report, Reply, refuse, Json, sync_fallback}

-- `policy.ResolveDestination(cfg.Destination.TargetDirectory, false)`
unfoldable pub resolved_directory : Host → PathPolicy → CertificateConfig → Result Str
resolved_directory h policy cfg =
    resolve_destination h policy cfg.destination.target_directory false

module _ (o : Env) (k : Crypto) (h : Host) (policy : PathPolicy) where
  -- `readDestinationPair`
  unfoldable pub read_destination_pair : CertificateConfig → M CertInfo
  read_destination_pair cfg = attempt (return (resolved_directory h policy cfg)) fail λ dir.
      read_pair_at o k (cert_path dir cfg.destination.target_name)
        (key_path dir cfg.destination.target_name)

module _ (o : Env) (k : Crypto) (json : Json) (h : Host) (policy : PathPolicy) where
  abbrev describe_source : CertInfo → Report
  describe_source info = record empty_report {
    source_fp = info.fingerprint;
    source_bundle_digest = info.bundle_digest;
  }

  abbrev describe_destination : CertInfo → Report → Report
  describe_destination info report = record report {
    dest_fp = info.fingerprint;
    dest_bundle_digest = info.bundle_digest;
  }

  -- `SyncMaterial` from the replacement on.
  unfoldable pub install_material : CertificateConfig → Bytes → Bytes → CertInfo → Report → P Reply
  install_material cfg cert_pem key_pem info report =
      attempt
        (replace_pair o k (resolved_directory h policy cfg) cfg.destination.target_name cert_pem
          key_pem info.bundle_digest)
        (λ e. return (refuse (some info) report e))
        λ _.
          sync_fallback o json cfg (resolved_directory h policy cfg) info
            (describe_destination info (record report { synced = true }))

  -- `SyncMaterial` once the destination has been read.
  unfoldable pub compare_material :
      CertificateConfig → Bytes → Bytes → CertInfo → Result CertInfo → P Reply
  unfolding str_eq
  compare_material cfg cert_pem key_pem info (err e) =
      install_material cfg cert_pem key_pem info (describe_source info)
  compare_material cfg cert_pem key_pem info (ok dest) =
      let report = describe_destination dest (describe_source info) in
      if dest.bundle_digest == info.bundle_digest
      then sync_fallback o json cfg (resolved_directory h policy cfg) info
          (record report { no_changes = true })
      else install_material cfg cert_pem key_pem info report

  -- `SyncMaterial`
  unfoldable pub sync_material : CertificateConfig → Bytes → Bytes → P Reply
  sync_material cfg cert_pem key_pem =
      attempt (return (validate_one h false (some policy) (some cfg)))
        (λ e. return (refuse none empty_report e))
        λ _.
          attempt (return (validate_pem_pair k cert_pem key_pem))
            (λ e. return (refuse none empty_report e))
            λ info. do
              dest ← read_destination_pair o k h policy cfg
              compare_material cfg cert_pem key_pem info dest

  -- `cfg.Source.Type != "" && cfg.Source.Type != config.SourceTypeLocal`
  abbrev pub is_filesystem : SourceType → Bool
  is_filesystem unset = true
  is_filesystem source_type_local = true
  is_filesystem _ = false

  -- `Sync` once the source paths are resolved.
  unfoldable pub read_and_sync : CertificateConfig → Str → Str → P Reply
  read_and_sync cfg cert key =
      attempt (read_file o cert) (λ e. return (refuse none empty_report e))
        λ cert_pem.
          attempt (read_file o key) (λ e. return (refuse none empty_report e))
            λ key_pem. sync_material cfg cert_pem key_pem

  -- `Sync`
  unfoldable pub sync_source : CertificateConfig → P Reply
  sync_source cfg =
      attempt (return (validate_one h false (some policy) (some cfg)))
        (λ e. return (refuse none empty_report e))
        λ _.
          if not (is_filesystem cfg.source.source_type)
          then return (refuse none empty_report (new "filesystem sync requires a local source"))
          else attempt (return (resolve_source h policy cfg.source.certificate true))
              (λ e. return (refuse none empty_report e))
              λ cert.
                attempt (return (resolve_source h policy cfg.source.private_key true))
                  (λ e. return (refuse none empty_report e)) λ key. read_and_sync cfg cert key

-- `AtomicWrite`, given what `policy.ResolveDestination` returns.
unfoldable pub atomic_write : Env → Crypto → Result Str → Str → Bytes → Bytes → M (Unit {0})
atomic_write o k resolved dest_name cert_pem key_pem =
    attempt (return (validate_pem_pair k cert_pem key_pem))
      (λ e. fail (wrap "invalid source certificate pair" e))
      λ info. replace_pair o k resolved dest_name cert_pem key_pem info.bundle_digest

-- `LoadAndValidate` of internal/certutil/certutil.go
unfoldable pub load_and_validate : Env → Crypto → Str → Str → M CertInfo
load_and_validate o k cert_path key_path =
    attempt (read_file o cert_path) (λ e. fail (wrap "failed to read certificate" e))
      λ cert_pem.
        attempt (read_file o key_path) (λ e. fail (wrap "failed to read private key" e))
          λ key_pem. return (validate_pem_pair k cert_pem key_pem)

-- `ReadDestinationFingerprint`
unfoldable pub read_destination_fingerprint :
    Env → Crypto → Host → PathPolicy → CertificateConfig → M Str
read_destination_fingerprint o k h policy cfg =
    attempt (read_destination_pair o k h policy cfg) fail λ info. return (ok info.fingerprint)
