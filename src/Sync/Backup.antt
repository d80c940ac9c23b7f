-- ===== src/Sync/Backup.antt =====
-- `prepareBackup`, `restoreEntry` and `failWithRollback` of internal/sync/sync.go.
use zoraxy_cert_warden.Base.{
  Bool, true, false, ◌&&◌, Option, none, some, [], ◌++◌, Str, codes, if◌then◌else◌,
}
use zoraxy_cert_warden.Failure.{Error, wrapf, wrap, joined, is_not_exist, Result, ok, err, within}
use zoraxy_cert_warden.CertUtil.{Crypto}
use zoraxy_cert_warden.Disk.{Env, P, M, return, fail, attempt, tolerate, ◌>>=◌, ◌>>◌}
use zoraxy_cert_warden.Disk.Calls.{open_directory, lstat, create_temp, sync, close, remove, rename}
use zoraxy_cert_warden.Sync.Staging.{read_pair_at}

pub record OldEntry : Type 0 where
  pub path : Str
  pub backup_path : Str
  pub existed : Bool
  pub backed_up : Bool

abbrev pub entry_at : Str → OldEntry
entry_at p = record { path = p; backup_path = []; existed = false; backed_up = false }

abbrev pub found : OldEntry → OldEntry
found old = record old { existed = true }

abbrev pub saved : OldEntry → Str → OldEntry
saved old marker = record old { existed = true; backup_path = marker; backed_up = true }

-- What `restoreEntry` says of the entry: "unchanged", "restored", "absent", or "unknown" with the
-- error.
pub data Restored : Type 0 where
  unchanged restored absent : Restored
  unknown : Error → Restored

abbrev pub state_text : Restored → Str
state_text unchanged = codes "unchanged"
state_text restored = codes "restored"
state_text absent = codes "absent"
state_text (unknown e) = codes "unknown"

abbrev pub restore_error : Restored → Option Error
restore_error (unknown e) = some e
restore_error _ = none

-- `errors.Join`, which leaves out what is nil.
abbrev pub join_errors : Option Error → Option Error → Option Error
join_errors none f = f
join_errors (some e) none = some e
join_errors (some e) (some f) = some (joined e f)

abbrev pub error_of {ℓ} : {A : Type ℓ} → Result A → Option Error
error_of (ok a) = none
error_of (err e) = some e

unfoldable pub is_none : Option Error → Bool
is_none none = true
is_none (some e) = false

unfoldable pub rollback_text : Restored → Restored → Str
rollback_text cert key =
    codes "rollback states: certificate="
    ++ (state_text cert ++ (codes ", private key=" ++ state_text key))

-- The error that `failWithRollback` returns.
unfoldable pub rollback_result : Error → Restored → Restored → Option Error → Error
unfolding rollback_text
rollback_result original cert key none = wrapf [] original (codes "; " ++ rollback_text cert key)
rollback_result original cert key (some e) =
    joined original (wrapf (rollback_text cert key ++ codes ": ") e [])

module _ (o : Env) where
  -- `prepareBackup` once the entry is known to exist. The entry comes back with the error, since
  -- the code writes through a pointer.
  unfoldable pub move_aside : OldEntry → Str → Str → P (Result (Unit {0}) × OldEntry)
  move_aside old dir prefix =
      attempt (create_temp o dir prefix (codes ".tmp")) (λ e. return (err e, old))
        λ marker.
          attempt (close o marker) (λ e. do remove o marker; return (err e, old))
            λ _.
              attempt (remove o marker) (λ e. return (err e, old))
                λ _.
                  attempt (rename o old.path marker) (λ e. return (err e, old))
                    λ _. return (ok tt, saved old marker)

  unfoldable pub prepare_backup : OldEntry → Str → Str → P (Result (Unit {0}) × OldEntry)
  unfolding is_not_exist
  prepare_backup old dir prefix =
      attempt (lstat o old.path)
        (λ e. if is_not_exist e then return (ok tt, old) else return (err e, old))
        (λ info. move_aside (found old) dir prefix)

  unfoldable pub bring_back : OldEntry → P Restored
  bring_back old =
      attempt (rename o old.backup_path old.path)
        (λ e. return (unknown (wrapf (codes "restore " ++ (old.path ++ codes ": ")) e [])))
        (λ _. return restored)

  unfoldable pub restore_saved : OldEntry → P Restored
  restore_saved old =
      tolerate (remove o old.path)
        (λ e. return (unknown (wrapf (codes "remove current " ++ (old.path ++ codes ": ")) e [])))
        (bring_back old)

  unfoldable pub restore_absence : OldEntry → P Restored
  restore_absence old =
      tolerate (remove o old.path)
        (λ e.
          return (unknown (wrapf (codes "restore absence of " ++ (old.path ++ codes ": ")) e [])))
        (return absent)

  unfoldable pub restore_entry : OldEntry → P Restored
  restore_entry old =
      if old.existed
      then (if old.backed_up then restore_saved old else return unchanged)
      else restore_absence old

  -- `syncDir` of `osFilesystem`
  unfoldable pub sync_dir : Str → M (Unit {0})
  sync_dir dir = attempt (open_directory o dir) fail λ _. do r ← sync o dir; close o dir; return r

module _ (o : Env) (k : Crypto) where
  unfoldable pub check_restored : OldEntry → OldEntry → P (Option Error)
  check_restored cert_old key_old = do
    r ← read_pair_at o k cert_old.path key_old.path
    return (error_of (within (wrap "restored pair validation") r))

  -- The validation of a pair that existed and is back: `none` where the code makes none.
  unfoldable pub revalidate : OldEntry → OldEntry → Restored → Restored → P (Option Error)
  revalidate cert_old key_old cert key =
      if cert_old.existed
        && key_old.existed
        && is_none (restore_error cert)
        && is_none (restore_error key)
      then check_restored cert_old key_old
      else return none

  -- `failWithRollback`
  unfoldable pub fail_with_rollback : Error → Str → OldEntry → OldEntry → M (Unit {0})
  fail_with_rollback original dir cert_old key_old = do
    cert ← restore_entry o cert_old
    key ← restore_entry o key_old
    flushed ← sync_dir o dir
    invalid ← revalidate cert_old key_old cert key
    fail (
        rollback_result original cert key (
          join_errors (restore_error cert)
            (join_errors (restore_error key) (join_errors invalid (error_of flushed)))))
