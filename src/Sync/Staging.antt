-- ===== src/Sync/Staging.antt =====
-- `cleanupStaging`, `writeTempFileFS` and `readPairAt` of internal/sync/sync.go.
use zoraxy_cert_warden.Base.{
  ℕ, Bool, true, false, not, ◌&&◌, ◌||◌, List, [], ◌∷◌, ◌++◌, Str, codes, ◌==◌, nat_eq, str_eq,
  if◌then◌else◌,
}
use zoraxy_cert_warden.Text.{has_prefix, has_suffix}
use zoraxy_cert_warden.Text.FilePath.{join}
use zoraxy_cert_warden.Failure.{Error, wrap, new, Result, ok, err, within, joined}
use zoraxy_cert_warden.Host.{FileInfo, FileKind, regular, symlink}
use zoraxy_cert_warden.CertUtil.{Bytes, CertInfo, Crypto, validate_pem_pair}
use zoraxy_cert_warden.Disk.{Env, M, return, fail, attempt, tolerate, ◌>>=◌, ◌>>◌}
use zoraxy_cert_warden.Disk.Calls.{
  lstat, read_file, create_temp, write, chmod, sync, close, remove, read_dir,
}

-- 0644 and 0600
abbrev pub public_cert_file_mode : ℕ
public_cert_file_mode = 420

abbrev pub private_key_file_mode : ℕ
private_key_file_mode = 384

abbrev pub dot_name : Str → Str → Str
dot_name dest_name suffix = codes "." ++ (dest_name ++ suffix)

unfoldable pub is_stale : Str → Str → Bool
unfolding has_prefix has_suffix
is_stale prefix entry = has_prefix entry prefix && has_suffix entry (codes ".tmp")

module _ (o : Env) where
  -- One entry under one prefix in `cleanupStaging`.
  unfoldable pub clean_entry : Str → Str → Str → M (Unit {0})
  clean_entry dir prefix entry =
      if is_stale prefix entry
      then tolerate (remove o (join dir entry)) fail (return (ok tt))
      else return (ok tt)

  unfoldable pub clean_entries : Str → Str → List Str → M (Unit {0})
  clean_entries dir dest_name [] = return (ok tt)
  clean_entries dir dest_name (entry ∷ entries) =
      attempt (clean_entry dir (dot_name dest_name (codes "-cert-sync-")) entry) fail λ _.
        attempt (clean_entry dir (dot_name dest_name (codes "-key-sync-")) entry) fail
          λ _. clean_entries dir dest_name entries

  unfoldable pub cleanup_staging : Str → Str → M (Unit {0})
  cleanup_staging dir dest_name = attempt (read_dir o dir) fail (clean_entries dir dest_name)

  -- The deferred part of `writeTempFileFS` after a failure.
  unfoldable pub abandon : Str → Error → M Str
  abandon path e = do close o path; remove o path; fail e

  -- `writeTempFileFS` from the first write on.
  unfoldable pub fill : Bytes → ℕ → Str → M Str
  fill bytes mode path = attempt (write o path bytes) (abandon path) λ _.
      attempt (chmod o path mode) (abandon path) λ _.
        attempt (sync o path) (abandon path)
          λ _. attempt (close o path) (abandon path) λ _. do close o path; return (ok path)

  -- `writeTempFileFS`
  unfoldable pub write_temp_file : Str → Str → Bytes → ℕ → M Str
  write_temp_file dir prefix bytes mode =
      attempt (create_temp o dir prefix (codes ".tmp")) fail (fill bytes mode)

unfoldable pub is_link : FileKind → Bool
is_link symlink = true
is_link _ = false

unfoldable pub is_regular : FileKind → Bool
is_regular regular = true
is_regular _ = false

-- The tests of `readPairAt` on the kinds of the two entries.
unfoldable pub check_kinds : FileInfo → FileInfo → Result (Unit {0})
check_kinds cert key =
    if is_link cert.kind || is_link key.kind
    then err (new "destination certificate pair contains a symlink")
    else if not (is_regular cert.kind) || not (is_regular key.kind)
    then err (new "destination certificate pair must contain regular files")
    else ok tt

unfoldable pub check_modes : FileInfo → FileInfo → Result (Unit {0})
unfolding nat_eq
check_modes cert key =
    if not (cert.perm == public_cert_file_mode) || not (key.perm == private_key_file_mode)
    then err (new "destination modes")
    else ok tt

-- `errors.Join` of two wrapped results: both values, or the errors that there are.
unfoldable pub both : {A : Type 0} → Result A → Result A → Result (A × A)
both (ok a) (ok b) = ok (a, b)
both (ok a) (err f) = err f
both (err f) (ok b) = err f
both (err f) (err g) = err (joined f g)

module _ (o : Env) (k : Crypto) where
  -- The last part of `readPairAt`: the contents, the modes and the validation.
  unfoldable pub validate_contents : FileInfo → FileInfo → Result (Bytes × Bytes) → Result CertInfo
  validate_contents cert key (err e) = err e
  validate_contents cert key (ok (cert_pem, key_pem)) = elim (check_modes cert key) [
    | err e ↦ err e
    | ok _ ↦ validate_pem_pair k cert_pem key_pem
  ]

  unfoldable pub read_contents : Str → Str → FileInfo → FileInfo → M CertInfo
  read_contents cert_path key_path cert key = do
    cert_pem ← read_file o cert_path
    key_pem ← read_file o key_path
    return (
        validate_contents cert key (
          both (within (wrap "read certificate") cert_pem)
            (within (wrap "read private key") key_pem)))

  unfoldable pub inspect_then : Str → Str → Result (FileInfo × FileInfo) → M CertInfo
  inspect_then cert_path key_path (err e) = fail e
  inspect_then cert_path key_path (ok (cert, key)) = elim (check_kinds cert key) [
    | err e ↦ fail e
    | ok _ ↦ read_contents cert_path key_path cert key
  ]

  -- `readPairAt`
  unfoldable pub read_pair_at : Str → Str → M CertInfo
  read_pair_at cert_path key_path = do
    cert ← lstat o cert_path
    key ← lstat o key_path
    inspect_then cert_path key_path
        (both (within (wrap "inspect certificate") cert) (within (wrap "inspect private key") key))
