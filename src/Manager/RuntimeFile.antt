-- ===== src/Manager/RuntimeFile.antt =====
-- cmd/cert-sync/main.go: the file that keeps the destinations that wait for a restart, on a disk
-- whose calls may fail. `encoding/json` is a parameter.
use zoraxy_cert_warden.Base.{not, ◌||◌, Option, none, some, List, Str, codes, str_eq, if◌then◌else◌}
use zoraxy_cert_warden.Text.FilePath.{dir}
use zoraxy_cert_warden.Failure.{Error, new, wrap, is_not_exist, Result, ok, err}
use zoraxy_cert_warden.Host.{FileInfo}
use zoraxy_cert_warden.CertUtil.{Bytes}
use zoraxy_cert_warden.Disk.{Env, M, return, fail, attempt, ◌>>=◌, ◌>>◌}
use zoraxy_cert_warden.Disk.Calls.{
  lstat, read_file, create_temp, write, chmod, sync, close, open_directory, remove, rename,
}
use zoraxy_cert_warden.Sync.Staging.{is_link, is_regular}
use zoraxy_cert_warden.Manager.Fallbacks.{sorted}

module _ (o : Env) where
  -- The deferred calls where the file was not renamed; a second `Close` does nothing.
  unfoldable pub drop_runtime : Str → Error → M (Unit {0})
  drop_runtime tmp e = do remove o tmp; fail e

  unfoldable pub close_runtime : Str → Error → M (Unit {0})
  unfolding drop_runtime
  close_runtime tmp e = do close o tmp; drop_runtime tmp e

  -- The end of `saveRuntimeStateLocked`: the directory is flushed, and closed in any case.
  unfoldable pub flush_runtime : Str → M (Unit {0})
  flush_runtime directory =
      attempt (open_directory o directory) fail
        (λ _. do r ← sync o directory; close o directory; return r)

  unfoldable pub fill_runtime : Str → Str → Bytes → Str → M (Unit {0})
  unfolding close_runtime drop_runtime flush_runtime
  fill_runtime path directory bytes tmp = attempt (chmod o tmp 384) (close_runtime tmp) λ _.
      attempt (write o tmp bytes) (close_runtime tmp) λ _.
        attempt (sync o tmp) (close_runtime tmp) λ _.
          attempt (close o tmp) (drop_runtime tmp)
            λ _. attempt (rename o tmp path) (drop_runtime tmp) (λ _. flush_runtime directory)

  -- `saveRuntimeStateLocked`, where there is a path.
  unfoldable pub write_runtime_file : (List Str → Result Bytes) → Str → List Str → M (Unit {0})
  unfolding sorted fill_runtime
  write_runtime_file marshal path pending = elim (marshal (sorted pending)) [
    | err e ↦ fail e
    | ok bytes ↦
        attempt (create_temp o (dir path) (codes ".runtime-state-") (codes ".tmp")) fail
          (fill_runtime path (dir path) bytes)
  ]

  unfoldable pub parse_runtime : (Bytes → Result (List Str)) → Bytes → M (Option (List Str))
  parse_runtime unmarshal bytes = elim (unmarshal bytes) [
    | err e ↦ fail (wrap "parse runtime state" e)
    | ok destinations ↦ return (ok (some destinations))
  ]

  unfoldable pub read_regular : (Bytes → Result (List Str)) → Str → FileInfo → M (Option (List Str))
  unfolding is_link is_regular parse_runtime
  read_regular unmarshal path info =
      if is_link info.kind || not (is_regular info.kind)
      then fail (new "runtime state must be a regular file")
      else attempt (read_file o path) (λ e. fail (wrap "read runtime state" e))
          (parse_runtime unmarshal)

  -- What `loadRuntimeState` reads; `none` where there is no file.
  unfoldable pub read_runtime_file : (Bytes → Result (List Str)) → Str → M (Option (List Str))
  unfolding read_regular is_not_exist
  read_runtime_file unmarshal path =
      attempt (lstat o path)
        (λ e. if is_not_exist e then return (ok none) else fail (wrap "inspect runtime state" e))
        (read_regular unmarshal path)
