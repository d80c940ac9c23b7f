-- ===== src/Sync/Replace.antt =====
-- `replacePair` of internal/sync/sync.go. The lock that it takes serialises the calls for one
-- destination, so that a run is one sequence of calls.
use zoraxy_cert_warden.Base.{[], ◌++◌, Str, codes, ◌==◌, str_eq, if◌then◌else◌}
use zoraxy_cert_warden.Text.FilePath.{join}
use zoraxy_cert_warden.Failure.{errorf, wrap, Result, ok, err, within}
use zoraxy_cert_warden.CertUtil.{Bytes, CertInfo, Crypto, validate_pem_pair}
use zoraxy_cert_warden.Disk.{Env, M, return, fail, attempt, tolerate, ◌>>=◌, ◌>>◌}
use zoraxy_cert_warden.Disk.Calls.{mkdir_all, remove, rename}
use zoraxy_cert_warden.Sync.Staging.{
  public_cert_file_mode, private_key_file_mode, dot_name, cleanup_staging, write_temp_file,
  read_pair_at,
}
use zoraxy_cert_warden.Sync.Backup.{
  OldEntry, entry_at, prepare_backup, sync_dir, fail_with_rollback,
}

-- What one run of `replacePair` works on, once the arguments are checked.
pub record Job : Type 0 where
  pub dir : Str
  pub name : Str
  pub cert_pem : Bytes
  pub key_pem : Bytes
  pub expected_digest : Str

abbrev pub cert_path : Str → Str → Str
cert_path dir name = join dir (name ++ codes ".pem")

abbrev pub key_path : Str → Str → Str
key_path dir name = join dir (name ++ codes ".key")

-- `err == nil && installed.BundleDigest != expectedDigest`
abbrev pub check_digest : Str → Result CertInfo → Result (Unit {0})
check_digest expected (err e) = err e
check_digest expected (ok info) =
    if info.bundle_digest == expected
    then ok tt
    else err (
        errorf (
          codes "installed bundle digest mismatch: got "
          ++ (info.bundle_digest ++ (codes ", want " ++ expected))))

module _ (o : Env) where
  -- The loop over the two entries after the pair is installed.
  unfoldable pub remove_backup : OldEntry → M (Unit {0})
  unfolding str_eq
  remove_backup old =
      if old.backup_path == []
      then return (ok tt)
      else tolerate (remove o old.backup_path)
          (λ e. fail (wrap "installed pair is valid but backup cleanup failed" e)) (return (ok tt))

  unfoldable pub finish : Str → OldEntry → OldEntry → M (Unit {0})
  finish dir cert_old key_old = attempt (remove_backup cert_old) fail λ _.
      attempt (remove_backup key_old) fail λ _. do
        r ← sync_dir o dir
        return (within (wrap "installed pair is valid but final directory sync failed") r)

module _ (o : Env) (k : Crypto) (j : Job) where
  -- From the check of the installed pair on.
  unfoldable pub confirm : OldEntry → OldEntry → M (Unit {0})
  unfolding str_eq
  confirm cert_old key_old = do
    installed ← read_pair_at o k cert_old.path key_old.path
    attempt (return (check_digest j.expected_digest installed))
        (λ e. fail_with_rollback o k (wrap "validate installed pair" e) j.dir cert_old key_old)
        λ _.
          attempt (sync_dir o j.dir)
            (λ e. fail_with_rollback o k (wrap "sync target directory" e) j.dir cert_old key_old)
            λ _. finish o j.dir cert_old key_old

  unfoldable pub publish : Str → Str → OldEntry → OldEntry → M (Unit {0})
  publish cert_tmp key_tmp cert_old key_old =
      attempt (rename o cert_tmp cert_old.path)
        (λ e. fail_with_rollback o k (wrap "publish certificate" e) j.dir cert_old key_old)
        λ _.
          attempt (rename o key_tmp key_old.path)
            (λ e. fail_with_rollback o k (wrap "publish private key" e) j.dir cert_old key_old)
            λ _. confirm cert_old key_old

  -- What the error of the second backup leads to.
  unfoldable pub back_up_key : Str → Str → OldEntry → Result (Unit {0}) × OldEntry → M (Unit {0})
  back_up_key cert_tmp key_tmp cert_old (ok _, key_old) = publish cert_tmp key_tmp cert_old key_old
  back_up_key cert_tmp key_tmp cert_old (err e, key_old) =
      fail_with_rollback o k (wrap "prepare private key backup" e) j.dir cert_old key_old

  unfoldable pub back_up_cert : Str → Str → Result (Unit {0}) × OldEntry → M (Unit {0})
  back_up_cert cert_tmp key_tmp (err e, cert_old) = fail (wrap "prepare certificate backup" e)
  back_up_cert cert_tmp key_tmp (ok _, cert_old) = do
    r ←
        prepare_backup o (entry_at (key_path j.dir j.name)) j.dir
          (dot_name j.name (codes "-key-backup-"))
    back_up_key cert_tmp key_tmp cert_old r

  -- The backups and the publication of the staged files.
  unfoldable pub install : Str → Str → M (Unit {0})
  install cert_tmp key_tmp = do
    r ←
        prepare_backup o (entry_at (cert_path j.dir j.name)) j.dir
          (dot_name j.name (codes "-cert-backup-"))
    back_up_cert cert_tmp key_tmp r

  -- Staging, installation, and the deferred removal of the staged files.
  unfoldable pub stage_and_install : M (Unit {0})
  stage_and_install =
      attempt
        (write_temp_file o j.dir (dot_name j.name (codes "-cert-sync-")) j.cert_pem
          public_cert_file_mode)
        (λ e. fail (wrap "stage certificate" e))
        λ cert_tmp.
          attempt
            (write_temp_file o j.dir (dot_name j.name (codes "-key-sync-")) j.key_pem
              private_key_file_mode)
            (λ e. do remove o cert_tmp; fail (wrap "stage private key" e))
            λ key_tmp. do
              r ← install cert_tmp key_tmp
              remove o cert_tmp
              remove o key_tmp
              return r

  -- `replacePair` once the destination is resolved.
  unfoldable pub replace_at : M (Unit {0})
  replace_at =
      attempt (mkdir_all o j.dir) (λ e. fail (wrap "create target directory" e))
        λ _.
          attempt (cleanup_staging o j.dir j.name) (λ e. fail (wrap "clean stale staging files" e))
            λ _. stage_and_install

abbrev pub or_digest : Str → CertInfo → Str
or_digest expected info = if expected == [] then info.bundle_digest else expected

-- `replacePair`, given what `policy.ResolveDestination` returns.
unfoldable pub replace_pair : Env → Crypto → Result Str → Str → Bytes → Bytes → Str → M (Unit {0})
unfolding str_eq
replace_pair o k resolved dest_name cert_pem key_pem expected =
    attempt (return (validate_pem_pair k cert_pem key_pem))
      (λ e. fail (wrap "invalid source certificate pair" e))
      λ info. attempt (return resolved) fail λ dir. replace_at o k (record {
        dir = dir;
        name = dest_name;
        cert_pem = cert_pem;
        key_pem = key_pem;
        expected_digest = or_digest expected info;
      })
