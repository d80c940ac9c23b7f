-- ===== src/Store.antt =====
-- internal/config/store.go: the configuration file is replaced with a backup at hand. The
-- encoding of a configuration as JSON is a parameter.
pub mod Rollback
pub mod Durable
pub mod Saved
pub mod Promise
pub mod Load
use zoraxy_cert_warden.Base.{
  ℕ, Bool, true, false, Option, none, some, [], ◌∷◌, ◌++◌, Str, codes, if◌then◌else◌,
}
use zoraxy_cert_warden.Text.FilePath.{dir}
use zoraxy_cert_warden.Failure.{
  Error, wrapf, message, new, wrap, is_not_exist, Result, ok, err, within,
}
use zoraxy_cert_warden.Host.{Host}
use zoraxy_cert_warden.Config.{Config}
use zoraxy_cert_warden.Config.Normalize.{normalize}
use zoraxy_cert_warden.Config.Policy.{PathPolicy}
use zoraxy_cert_warden.Config.Whole.{validate}
use zoraxy_cert_warden.CertUtil.{Bytes}
use zoraxy_cert_warden.Disk.{Env, P, M, return, fail, attempt, tolerate, ◌>>=◌, ◌>>◌}
use zoraxy_cert_warden.Disk.Calls.{
  stat, create_temp, write, chmod, sync, close, open_directory, remove, rename, link,
}

abbrev pub config_mode : ℕ
config_mode = 384

-- `RollbackError` with its text; it unwraps to the save failure.
unfoldable pub rollback_error : Error → Error → Str → Error
rollback_error save rollback [] = wrapf [] save (codes "; rollback failed: " ++ message rollback)
rollback_error save rollback (c ∷ backup) = wrapf [] save (
    codes "; rollback failed: "
    ++ (message rollback
        ++ (codes " (previous config retained at " ++ ((c ∷ backup) ++ codes ")"))))

abbrev pub retained_backup : Str → Bool → Str
retained_backup path retain = if retain then path else []

abbrev pub backup_of : Str → Str
backup_of tmp = tmp ++ codes ".backup"

module _ (o : Env) where
  -- `(*Store).syncDir`
  unfoldable pub flush_directory : Str → M (Unit {0})
  flush_directory path =
      attempt (open_directory o path) fail
        λ _. attempt (sync o path) (λ e. do close o path; fail e) λ _. close o path

  -- The end of `rollback`.
  unfoldable pub settle : Str → P (Option Error × Bool)
  settle directory =
      attempt (flush_directory directory)
        (λ e. return (some (wrap "failed to sync restored config directory" e), false))
        (λ _. return (none, false))

  -- `(*Store).rollback`
  unfoldable pub rollback : Str → Str → Str → Bool → P (Option Error × Bool)
  rollback path backup directory true =
      attempt (rename o backup path)
        (λ e. return (some (wrap "failed to restore previous config" e), true))
        (λ _. settle directory)
  rollback path backup directory false =
      tolerate (remove o path)
        (λ e. return (some (wrap "failed to remove replacement config" e), false))
        (settle directory)

  -- The deferred removal of the backup, and the result.
  unfoldable pub leave : Str → Result (Unit {0}) → M (Unit {0})
  leave backup r = do remove o backup; return r

  -- What follows a rollback: the backup goes unless it is retained.
  unfoldable pub after_rollback : Str → Error → Option Error × Bool → M (Unit {0})
  after_rollback backup save (none, retained) = leave backup (err save)
  after_rollback backup save (some e, true) =
      fail (rollback_error save e (retained_backup backup true))
  after_rollback backup save (some e, false) =
      leave backup (err (rollback_error save e (retained_backup backup false)))

  module _ (path directory tmp : Str) where
    unfoldable pub fail_save : Bool → Error → M (Unit {0})
    fail_save had save = do
      r ← rollback path (backup_of tmp) directory had
      after_rollback (backup_of tmp) save r

    unfoldable pub drop_backup : Bool → M (Unit {0})
    drop_backup true =
        attempt (remove o (backup_of tmp))
          (λ e. fail_save true (wrap "failed to remove config backup" e))
          (λ _. leave (backup_of tmp) (ok tt))
    drop_backup false = leave (backup_of tmp) (ok tt)

    -- `Save` from the rename on.
    unfoldable pub replace : Bool → M (Unit {0})
    replace had =
        attempt (rename o tmp path)
          (λ e. leave (backup_of tmp) (err (wrap "failed to rename config file" e)))
          λ _.
            attempt (flush_directory directory)
              (λ e. fail_save had (wrap "failed to sync config directory" e)) (λ _. drop_backup had)

    unfoldable pub link_backup : M (Unit {0})
    link_backup =
        attempt (link o path (backup_of tmp)) (λ e. fail (wrap "failed to create config backup" e))
          λ _.
            attempt (flush_directory directory)
              (λ e. do remove o (backup_of tmp); fail (wrap "failed to sync config backup" e))
              (λ _. replace true)

    -- `Save` from the look at the previous file on.
    unfoldable pub back_up : M (Unit {0})
    back_up =
        attempt (stat o path)
          (λ e.
            if is_not_exist e
            then replace false
            else fail (wrap "failed to inspect existing config" e))
          (λ info. link_backup)

    -- `Save` from the creation of the temporary file on, its removal left out.
    unfoldable pub fill_and_replace : Bytes → M (Unit {0})
    fill_and_replace bytes =
        attempt (chmod o tmp config_mode)
          (λ e. do close o tmp; fail (wrap "failed to secure config temp file" e))
          λ _.
            attempt (write o tmp bytes)
              (λ e. do close o tmp; fail (wrap "failed to write config temp file" e))
              λ _.
                attempt (sync o tmp)
                  (λ e. do close o tmp; fail (wrap "failed to sync config temp file" e))
                  λ _.
                    attempt (close o tmp) (λ e. fail (wrap "failed to close config temp file" e))
                      (λ _. back_up)

  -- The part of `Save` that changes the disk.
  unfoldable pub save_bytes : Str → Bytes → M (Unit {0})
  save_bytes path bytes =
      attempt (create_temp o (dir path) (codes ".config-") (codes ".json.tmp"))
        (λ e. fail (wrap "failed to create config temp file" e))
        λ tmp. do r ← fill_and_replace path (dir path) tmp bytes; remove o tmp; return r

  -- `(*Store).Save`; `none` stands for a nil configuration.
  unfoldable pub save :
      Host → (Config → Result Bytes) → Option Config → Str → Option PathPolicy → M (Unit {0})
  unfolding validate normalize
  save h marshal none path policy = fail (new "configuration is required")
  save h marshal (some cfg) path policy =
      attempt (return (validate h false policy (some (normalize cfg)))) fail λ _.
        attempt (return (within (wrap "failed to marshal config") (marshal (normalize cfg)))) fail
          λ bytes. save_bytes path bytes
