-- ===== src/SecretStore/Save.antt =====
-- `Load` and `save` of internal/secretstore/secretstore.go.
use zoraxy_cert_warden.Base.{
  Bool, true, false, Option, none, some, [], ◌∷◌, ◌++◌, Str, codes, if◌then◌else◌,
}
use zoraxy_cert_warden.Text.FilePath.{dir}
use zoraxy_cert_warden.Failure.{Error, errorf, wrapf, new, wrap, is_not_exist, Result, ok, err}
use zoraxy_cert_warden.CertUtil.{Bytes}
use zoraxy_cert_warden.Disk.{Env, P, M, return, fail, attempt, tolerate, ◌>>=◌, ◌>>◌}
use zoraxy_cert_warden.Disk.Calls.{
  stat, read_file, mkdir_all, create_temp, write, chmod, sync, close, open_directory, remove,
  rename, link,
}
use zoraxy_cert_warden.SecretStore.{Secrets, Decoded, accept_decoded, validate_secrets}

-- The text and the cause of `RollbackError`.
unfoldable pub secret_rollback_error : Str → Str → Error
secret_rollback_error operation [] =
    wrapf [] (errorf operation) (codes "; rollback failed: restore previous secret store state")
secret_rollback_error operation (c ∷ backup) = wrapf [] (errorf operation) (
    codes
      "; rollback failed: restore previous secret store state (previous data retained in backup)")

module _ (o : Env) where
  -- `Load`
  unfoldable pub load_secrets : (Bytes → Decoded) → Str → M Secrets
  unfolding is_not_exist
  load_secrets decode path =
      attempt (read_file o path)
        (λ e. if is_not_exist e then return (ok []) else fail (wrap "open secret store" e))
        (λ bytes. return (accept_decoded (decode bytes)))

  -- `syncDirectory`
  unfoldable pub sync_directory : Str → M (Unit {0})
  sync_directory path =
      attempt (open_directory o path) fail
        λ _. attempt (sync o path) (λ e. do close o path; fail e) λ _. close o path

  unfoldable pub end_rollback : Str → P (Bool × Bool)
  end_rollback directory =
      attempt (sync_directory directory) (λ e. return (true, false)) (λ _. return (false, false))

  -- `rollback`: whether it failed, and whether the backup is left.
  unfoldable pub roll_back_secrets : Str → Str → Str → Bool → P (Bool × Bool)
  roll_back_secrets path backup directory true =
      attempt (rename o backup path) (λ e. return (true, true)) (λ _. end_rollback directory)
  roll_back_secrets path backup directory false =
      tolerate (remove o path) (λ e. return (true, false)) (end_rollback directory)

  -- The deferred removal of the backup.
  unfoldable pub drop_secret_backup : Str → Result (Unit {0}) → M (Unit {0})
  drop_secret_backup backup r = do remove o backup; return r

  unfoldable pub report_secret_failure : Str → Str → Bool × Bool → M (Unit {0})
  report_secret_failure backup operation (false, retained) =
      drop_secret_backup backup (err (errorf operation))
  report_secret_failure backup operation (true, true) =
      fail (secret_rollback_error operation backup)
  report_secret_failure backup operation (true, false) =
      drop_secret_backup backup (err (secret_rollback_error operation []))

  module _ (path directory tmp : Str) where
    abbrev secret_backup : Str
    secret_backup = tmp ++ codes ".backup"

    unfoldable pub fail_secret_save : Bool → Str → M (Unit {0})
    fail_secret_save had operation = do
      r ← roll_back_secrets path secret_backup directory had
      report_secret_failure secret_backup operation r

    unfoldable pub finish_secret_save : Bool → M (Unit {0})
    finish_secret_save true =
        attempt (remove o secret_backup)
          (λ e. fail_secret_save true (codes "finalize secret store replacement"))
          (λ _. drop_secret_backup secret_backup (ok tt))
    finish_secret_save false = drop_secret_backup secret_backup (ok tt)

    unfoldable pub replace_secrets : Bool → M (Unit {0})
    replace_secrets had =
        attempt (rename o tmp path)
          (λ e. drop_secret_backup secret_backup (err (wrap "replace secret store" e)))
          λ _.
            attempt (sync_directory directory)
              (λ e. fail_secret_save had (codes "sync secret store directory"))
              (λ _. finish_secret_save had)

    unfoldable pub link_secret_backup : M (Unit {0})
    link_secret_backup =
        attempt (link o path secret_backup) (λ e. fail (wrap "create secret store backup" e))
          λ _.
            attempt (sync_directory directory)
              (λ e. do remove o secret_backup; fail (wrap "sync secret store backup" e))
              (λ _. replace_secrets true)

    unfoldable pub back_up_secrets : M (Unit {0})
    unfolding is_not_exist
    back_up_secrets =
        attempt (stat o path)
          (λ e.
            if is_not_exist e
            then replace_secrets false
            else fail (wrap "inspect existing secret store" e))
          (λ info. link_secret_backup)

    -- The deferred close of a file that is still open.
    unfoldable pub close_and_fail : Error → M (Unit {0})
    close_and_fail e = do close o tmp; fail e

    unfoldable pub fill_secrets : Bytes → M (Unit {0})
    fill_secrets bytes =
        attempt (chmod o tmp 384)
          (λ e. close_and_fail (wrap "secure secret store temporary file" e))
          λ _.
            attempt (write o tmp bytes)
              (λ e. close_and_fail (wrap "write secret store temporary file" e))
              λ _.
                attempt (sync o tmp)
                  (λ e. close_and_fail (wrap "sync secret store temporary file" e))
                  λ _.
                    attempt (close o tmp) (λ e. fail (wrap "close secret store temporary file" e))
                      (λ _. back_up_secrets)

  -- `save` once the data is encoded.
  unfoldable pub save_secret_bytes : Str → Bytes → M (Unit {0})
  save_secret_bytes path bytes =
      attempt (mkdir_all o (dir path)) (λ e. fail (wrap "create secret store directory" e))
        λ _.
          attempt (create_temp o (dir path) (codes ".secretstore-") (codes ".tmp"))
            (λ e. fail (wrap "create secret store temporary file" e))
            λ tmp. do r ← fill_secrets path (dir path) tmp bytes; remove o tmp; return r

  -- `Save`; `none` stands for a failing encoder.
  unfoldable pub save_secrets : (Secrets → Option Bytes) → Str → Secrets → M (Unit {0})
  save_secrets encode path secrets = attempt (return (validate_secrets secrets)) fail λ _.
      elim (encode secrets) [
        | none ↦ fail (new "encode secret store")
        | some bytes ↦ save_secret_bytes path (bytes ++ (10 ∷ []))
      ]
