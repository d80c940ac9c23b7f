-- ===== src/Watcher/Polling.antt =====
-- internal/watcher/watcher.go: the construction of a watcher and its polling of the files.
-- A list of pairs stands for the map of snapshots; the file system is a parameter.
use zoraxy_cert_warden.Base.{
  ℕ, Bool, true, false, not, ◌||◌, Option, none, some, List, [], ◌∷◌, Str, ◌==◌, str_eq, nat_eq,
  if◌then◌else◌, contains,
}
use zoraxy_cert_warden.Base.Int.{ℤ, pos, ltb_ℤ}
use zoraxy_cert_warden.Text.FilePath.{clean}
use zoraxy_cert_warden.Failure.{wrap, new, Result, ok, ◌>>=◌, ◌>>◌, reject, within}
use zoraxy_cert_warden.Host.{Host}
use zoraxy_cert_warden.Config.Policy.{PathPolicy, resolve_source}
use zoraxy_cert_warden.CertUtil.{Bytes}

-- `os.FileInfo` by the fields that a snapshot keeps; `identity` is what `os.SameFile` compares.
pub record Stat : Type 0 where
  pub size : ℕ
  pub mod_time : ℕ
  pub mode : ℕ
  pub regular_file : Bool
  pub identity : ℕ

-- An open file: what its `Stat` answers, and what `io.Copy` reads; `none` is an error.
pub record OpenFile : Type 0 where
  pub opened_stat : Option Stat
  pub content : Option Bytes

-- `os.Stat`, `os.Open`, and SHA-256.
pub record Files : Type 0 where
  pub stat_file : Str → Option Stat
  pub open_file : Str → Option OpenFile
  pub sha256_sum : Bytes → Bytes

-- `fileSnapshot`; `info` and `digest` with `digestOK` are options.
pub record FileSnapshot : Type 0 where
  pub exists : Bool
  pub size : ℕ
  pub mod_time : ℕ
  pub mode : ℕ
  pub info : Option ℕ
  pub digest : Option Bytes

abbrev pub no_snapshot : FileSnapshot
no_snapshot = record {
  exists = false;
  size = 0;
  mod_time = 0;
  mode = 0;
  info = none;
  digest = none;
}

abbrev pub of_stat : Stat → FileSnapshot
of_stat info = record {
  exists = true;
  size = info.size;
  mod_time = info.mod_time;
  mode = info.mode;
  info = some info.identity;
  digest = none;
}

unfoldable pub with_open_stat : Stat → Option Stat → FileSnapshot
with_open_stat info none = of_stat info
with_open_stat info (some open_info) = of_stat open_info

module _ (fs : Files) where
  unfoldable pub digest_of : Option Bytes → Option Bytes
  digest_of none = none
  digest_of (some content) = some (fs.sha256_sum content)

  unfoldable pub of_open : Stat → Option OpenFile → FileSnapshot
  unfolding with_open_stat digest_of
  of_open info none = of_stat info
  of_open info (some file) = record (with_open_stat info file.opened_stat) {
    digest = digest_of file.content;
  }

  unfoldable pub of_path : Str → Option Stat → FileSnapshot
  unfolding of_open
  of_path path none = no_snapshot
  of_path path (some info) =
      if info.regular_file then of_open info (fs.open_file path) else of_stat info

  -- `snapshot`
  unfoldable pub snapshot : Str → FileSnapshot
  unfolding of_path
  snapshot path = of_path path (fs.stat_file path)

-- `previous.info != nil && current.info != nil && !os.SameFile(previous.info, current.info)`
unfoldable pub other_file : Option ℕ → Option ℕ → Bool
unfolding nat_eq
other_file (some a) (some b) = not (a == b)
other_file _ _ = false

-- `previous.digestOK != current.digestOK || (current.digestOK && previous.digest != current.digest)`
unfoldable pub other_digest : Option Bytes → Option Bytes → Bool
unfolding str_eq
other_digest none none = false
other_digest (some a) (some b) = not (a == b)
other_digest _ _ = true

unfoldable pub existing_differ : FileSnapshot → FileSnapshot → Bool
unfolding nat_eq other_file other_digest
existing_differ previous current =
    if not (previous.size == current.size)
      || (not (previous.mod_time == current.mod_time) || not (previous.mode == current.mode))
    then true
    else if other_file previous.info current.info
    then true
    else other_digest previous.digest current.digest

-- `snapshotsDiffer`
unfoldable pub snapshots_differ : FileSnapshot → FileSnapshot → Bool
unfolding existing_differ
snapshots_differ previous current = elim previous.exists [
  | true ↦ if current.exists then existing_differ previous current else true
  | false ↦ current.exists
]

abbrev pub Snapshots : Type 0
Snapshots = List (Str × FileSnapshot)

-- `w.snapshots[path]`
unfoldable pub lookup_snapshot : Snapshots → Str → Option FileSnapshot
unfolding str_eq
lookup_snapshot [] path = none
lookup_snapshot ((p, s) ∷ rest) path = if p == path then some s else lookup_snapshot rest path

-- `previous, ok := w.snapshots[path]; !ok || snapshotsDiffer(previous, current)`
unfoldable pub is_news : Option FileSnapshot → FileSnapshot → Bool
unfolding snapshots_differ
is_news none current = true
is_news (some previous) current = snapshots_differ previous current

module _ (fs : Files) where
  -- The baseline that `Start` takes.
  unfoldable pub baseline : List Str → Snapshots → Snapshots
  unfolding snapshot
  baseline [] seen = seen
  baseline (path ∷ paths) seen = baseline paths ((path, snapshot fs path) ∷ seen)

  unfoldable pub poll_loop : Bool → List Str → Snapshots → Bool × Snapshots
  unfolding snapshot is_news lookup_snapshot
  poll_loop changed [] seen = (changed, seen)
  poll_loop changed (path ∷ paths) seen =
      poll_loop (if is_news (lookup_snapshot seen path) (snapshot fs path) then true else changed)
        paths ((path, snapshot fs path) ∷ seen)

  -- `pollChanged`
  unfoldable pub poll_changed : List Str → Snapshots → Bool × Snapshots
  unfolding poll_loop
  poll_changed paths seen = poll_loop false paths seen

-- `matches`
unfoldable pub matches : List Str → Str → Bool
unfolding str_eq clean
matches paths path = contains paths (clean path)

-- `NewWithLogger`, as far as the paths that the new watcher gets.
module _ (h : Host) where
  unfoldable pub resolve_paths : PathPolicy → List Str → Result (List Str)
  unfolding resolve_source
  resolve_paths policy [] = ok []
  resolve_paths policy (path ∷ paths) =
      within (wrap "invalid watcher path") (resolve_source h policy path false) >>= λ resolved.
      resolve_paths policy paths >>= λ rest. ok (resolved ∷ rest)

  unfoldable pub new_with_logger : List Str → ℤ → ℤ → PathPolicy → Result (List Str)
  unfolding resolve_paths
  new_with_logger paths poll_interval debounce_delay policy = do
    reject (not (ltb_ℤ (pos 0) poll_interval)) (new "poll interval must be positive")
    reject (ltb_ℤ debounce_delay (pos 0)) (new "debounce delay must not be negative")
    resolve_paths policy paths
