-- ===== src/Sync/Fallback.antt =====
-- `EnsureFallback` and `ReadFallback` of internal/sync/sync.go, and the reports. The JSON of the
-- fallback file is a parameter.
use zoraxy_cert_warden.Base.{
  ℕ, Bool, true, false, not, ◌&&◌, ◌||◌, Option, none, some, [], ◌++◌, Str, codes, ◌==◌, str_eq,
  nat_eq, if◌then◌else◌,
}
use zoraxy_cert_warden.Text.FilePath.{base, join}
use zoraxy_cert_warden.Failure.{Error, errorf, new, wrap, is_not_exist, Result, ok, err}
use zoraxy_cert_warden.Host.{FileInfo}
use zoraxy_cert_warden.Config.{CertificateConfig}
use zoraxy_cert_warden.CertUtil.{Bytes, CertInfo}
use zoraxy_cert_warden.Disk.{Env, P, M, return, fail, attempt, ◌>>=◌, ◌>>◌}
use zoraxy_cert_warden.Disk.Calls.{lstat, read_file, mkdir_all, create_temp, remove, rename}
use zoraxy_cert_warden.Sync.Staging.{is_link, is_regular, fill}
use zoraxy_cert_warden.Sync.Backup.{sync_dir}

abbrev pub fallback_file_mode : ℕ
fallback_file_mode = 420

-- The struct `Result`.
pub record Report : Type 0 where
  pub synced : Bool
  pub no_changes : Bool
  pub fallback : Bool
  pub fallback_changed : Bool
  pub source_fp : Str
  pub dest_fp : Str
  pub source_bundle_digest : Str
  pub dest_bundle_digest : Str
  pub error : Option Error

abbrev pub empty_report : Report
empty_report = record {
  synced = false;
  no_changes = false;
  fallback = false;
  fallback_changed = false;
  source_fp = [];
  dest_fp = [];
  source_bundle_digest = [];
  dest_bundle_digest = [];
  error = none;
}

-- The three values that the functions return: the certificate, the result and the error.
abbrev pub Reply : Type 0
Reply = Option CertInfo × Report × Option Error

abbrev pub refuse : Option CertInfo → Report → Error → Reply
refuse info report e = (info, record report { error = some e }, some e)

-- `encoding/json` on the fallback file: its bytes for a name, and the name that bytes hold.
pub record Json : Type 0 where
  pub marshal_fallback : Str → Result Bytes
  pub unmarshal_fallback : Bytes → Result Str

module _ (o : Env) (json : Json) where
  -- The file is regular, has its mode and holds the desired name.
  unfoldable pub is_current : Str → Result Bytes → Bool
  unfolding str_eq
  is_current desired (err e) = false
  is_current desired (ok bytes) = elim (json.unmarshal_fallback bytes) [
    | err e ↦ false
    | ok current ↦ current == desired
  ]

  unfoldable pub flush_fallback : Str → P (Bool × Option Error)
  flush_fallback dir =
      attempt (sync_dir o dir) (λ e. return (true, some (wrap "sync fallback directory" e)))
        (λ _. return (true, none))

  unfoldable pub publish_fallback : Str → Str → Str → P (Bool × Option Error)
  publish_fallback dir path tmp =
      attempt (rename o tmp path) (λ e. return (false, some e)) (λ _. flush_fallback dir)

  -- `writeTempFileFS` with the pattern of the fallback file.
  unfoldable pub write_fallback_temp : Str → Bytes → M Str
  write_fallback_temp dir bytes =
      attempt (create_temp o dir (codes ".fallback-") (codes ".json.tmp")) fail
        (fill o bytes fallback_file_mode)

  -- `EnsureFallback` from the creation of the directory on.
  unfoldable pub write_fallback : Str → Str → Str → P (Bool × Option Error)
  write_fallback dir path desired =
      attempt (mkdir_all o dir)
        (λ e. return (false, some (wrap "failed to create target directory" e)))
        λ _.
          attempt (return (json.marshal_fallback desired)) (λ e. return (false, some e))
            λ bytes.
              attempt (write_fallback_temp dir bytes) (λ e. return (false, some e))
                λ tmp. do r ← publish_fallback dir path tmp; remove o tmp; return r

  unfoldable pub remove_fallback : Str → Str → P (Bool × Option Error)
  remove_fallback dir path =
      attempt (remove o path) (λ e. return (false, some (wrap "remove fallback file" e)))
        (λ _. flush_fallback dir)

  -- `statErr == nil && info.Mode().IsRegular() && info.Mode().Perm() == fallbackFileMode`
  unfoldable pub is_proper : Option FileInfo → Bool
  unfolding nat_eq
  is_proper none = false
  is_proper (some info) = is_regular info.kind && info.perm == fallback_file_mode

  unfoldable pub keep_fallback : Str → Str → Str → Result Bytes → P (Bool × Option Error)
  keep_fallback dir path desired contents =
      if is_current desired contents then return (false, none) else write_fallback dir path desired

  unfoldable pub set_fallback : Str → Str → Option FileInfo → Str → P (Bool × Option Error)
  unfolding str_eq is_proper
  set_fallback dir path seen desired =
      if desired == [] || not (base desired == desired)
      then return (false, some (new "fallback certificate name must be a non-empty basename"))
      else if is_proper seen
      then read_file o path >>= keep_fallback dir path desired
      else write_fallback dir path desired

  -- `EnsureFallback` once the entry has been looked at; a missing entry is `none`.
  unfoldable pub reconcile : Str → Str → Option Str → Option FileInfo → P (Bool × Option Error)
  reconcile dir path none none = return (false, none)
  reconcile dir path none (some info) = remove_fallback dir path
  reconcile dir path (some desired) seen = set_fallback dir path seen desired

  unfoldable pub inspect_fallback :
      Str → Str → Option Str → Result FileInfo → P (Bool × Option Error)
  inspect_fallback dir path desired (err e) =
      if is_not_exist e
      then reconcile dir path desired none
      else return (false, some (wrap "inspect fallback file" e))
  inspect_fallback dir path desired (ok info) =
      if is_link info.kind
      then return (false, some (errorf (codes "refusing to modify symlink: " ++ path)))
      else reconcile dir path desired (some info)

  abbrev pub fallback_path : Str → Str
  fallback_path dir = join dir (codes "fallback.json")

  -- `EnsureFallback`, given what `policy.ResolveDestination` returns; a nil name is `none`.
  unfoldable pub ensure_fallback : Result Str → Option Str → P (Bool × Option Error)
  ensure_fallback (err e) desired = return (false, some e)
  ensure_fallback (ok dir) desired = do
    r ← lstat o (fallback_path dir)
    inspect_fallback dir (fallback_path dir) desired r

  -- `rejectSymlink`
  unfoldable pub reject_symlink : Str → M (Unit {0})
  reject_symlink path = do
    r ← lstat o path
    return (elim r [
      | err e ↦ if is_not_exist e then ok tt else err e
      | ok info ↦
          if is_link info.kind
          then err (errorf (codes "refusing to read symlink: " ++ path))
          else ok tt
    ])

  -- `ReadFallback`, given what `policy.ResolveDestination` returns.
  unfoldable pub read_fallback : Result Str → M Str
  read_fallback resolved = attempt (return resolved) fail λ dir.
      attempt (reject_symlink (fallback_path dir)) fail λ _.
        attempt (read_file o (fallback_path dir)) fail
          λ contents. return (json.unmarshal_fallback contents)

  -- The fallback part of `SyncMaterial`.
  unfoldable pub finish_report : CertInfo → Report → Bool × Option Error → Reply
  finish_report info report (changed, none) =
      (some info, record report { fallback_changed = changed; fallback = true }, none)
  finish_report info report (changed, some e) =
      refuse (some info) (record report { fallback_changed = changed }) e

  unfoldable pub sync_fallback : CertificateConfig → Result Str → CertInfo → Report → P Reply
  sync_fallback cfg resolved info report =
      if cfg.fallback
      then ensure_fallback resolved (some cfg.destination.target_name)
        >>= (λ r. return (finish_report info report r))
      else return (some info, report, none)
