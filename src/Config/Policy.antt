-- ===== src/Config/Policy.antt =====
-- internal/config/path_policy.go: source reads and destination writes stay within approved roots.
use zoraxy_cert_warden.Base.{
  ℕ, zero, suc, Bool, true, false, not, ◌&&◌, ◌||◌, none, some, List, [], ◌∷◌, ◌++◌, Str, codes,
  ◌==◌, nat_eq, str_eq, if◌then◌else◌, leb, length,
}
use zoraxy_cert_warden.Text.{trim_space, has_prefix}
use zoraxy_cert_warden.Text.FilePath.{slash, split, is_abs, clean, base, dir, join, rel, dot_dot}
use zoraxy_cert_warden.Failure.{
  Error, errorf, wrapf, new, is_not_exist, Result, ok, err, ◌>>=◌, ◌>>◌, reject, within,
}
use zoraxy_cert_warden.Host.{Host, FileKind, directory}

abbrev pub default_source_root : Str
default_source_root = codes "/cert_warden_plugin"

abbrev pub default_destination_root : Str
default_destination_root = codes "/opt/zoraxy/config/conf/certs"

pub record PathPolicy : Type 0 where
  pub source_roots : List Str
  pub destination_roots : List Str

is_safe_path_char : ℕ → Bool
unfolding nat_eq
is_safe_path_char c =
    (leb b'A' c && leb c b'Z')
    || (leb b'a' c && leb c b'z')
    || (leb b'0' c && leb c b'9')
    || c == b'_'
    || c == b'.'
    || c == b'/'
    || c == b'-'

all_safe : Str → Bool
unfolding is_safe_path_char
all_safe [] = true
all_safe (c ∷ s) = is_safe_path_char c && all_safe s

-- `safePathRegex`: ^/[A-Za-z0-9_./-]*$
unfoldable pub is_safe_path : Str → Bool
unfolding all_safe nat_eq
is_safe_path [] = false
is_safe_path (c ∷ s) = c == slash && all_safe s

-- `rootsFromEnv`, given the value of the environment variable.
unfoldable pub roots_from_env : Str → Str → List Str
unfolding str_eq trim_space split
roots_from_env value default_root =
    if trim_space value == [] then default_root ∷ [] else split b':' (trim_space value)

normalize_root : Str → Str → Result Str
normalize_root label root = do
  reject (root == [] || not (is_abs root))
      (errorf (codes "allowed " ++ (label ++ codes " root must be an absolute path")))
  reject (not (clean root == root))
      (errorf (codes "allowed " ++ (label ++ (codes " root must be normalized: " ++ root))))
  reject (not (is_safe_path root)) (
      errorf
        (codes "allowed " ++ (label ++ (codes " root contains unsupported characters: " ++ root))))
  ok (clean root)

-- The loop of `normalizeRoots`.
normalize_each : Str → List Str → Result (List Str)
unfolding normalize_root
normalize_each label [] = ok []
normalize_each label (r ∷ rs) = do
  root ← normalize_root label (trim_space r)
  roots ← normalize_each label rs
  ok (root ∷ roots)

unfoldable pub normalize_roots : Str → List Str → Result (List Str)
unfolding normalize_each
normalize_roots label [] =
    err (errorf (codes "at least one allowed " ++ (label ++ codes " root is required")))
normalize_roots label (r ∷ rs) = normalize_each label (r ∷ rs)

unfoldable pub new_path_policy : List Str → List Str → Result PathPolicy
unfolding normalize_roots
new_path_policy source_roots destination_roots = do
  sources ← normalize_roots (codes "source") source_roots
  destinations ← normalize_roots (codes "destination") destination_roots
  ok (record { source_roots = sources; destination_roots = destinations })

-- `PathPolicyFromEnv`, given the values of the two environment variables.
unfoldable pub path_policy_from_env : Str → Str → Result PathPolicy
unfolding new_path_policy roots_from_env
path_policy_from_env source destination =
    new_path_policy (roots_from_env source default_source_root)
      (roots_from_env destination default_destination_root)

unfoldable pub path_within_root : Str → Str → Bool
unfolding rel str_eq has_prefix
path_within_root path root = elim (rel root path) [
  | none ↦ false
  | some r ↦ not (r == dot_dot) && not (has_prefix r (dot_dot ++ (slash ∷ [])))
]

-- The missing elements are joined again, the one found last first.
unfoldable pub join_missing : Str → List Str → Str
unfolding join
join_missing resolved [] = resolved
join_missing resolved (m ∷ ms) = join_missing (join resolved m) ms

out_of_fuel : Error
out_of_fuel = new "resolvePath did not end"

module _ (h : Host) where
  -- The loop of `resolvePath`: `missing` holds the elements that do not exist, the last found
  -- first. Each round takes one element off `current`, so its length bounds the rounds.
  unfoldable pub resolve_loop : ℕ → Str → List Str → Result Str
  unfolding str_eq join_missing out_of_fuel
  resolve_loop zero current missing = err out_of_fuel
  resolve_loop (suc fuel) current missing = elim (h.lstat current) [
    | ok info ↦ do resolved ← h.eval_symlinks current; ok (clean (join_missing resolved missing))
    | err e ↦
        let rest = resolve_loop fuel (dir current) (base current ∷ missing) in
        if not (is_not_exist e) || dir current == current then err e else rest
  ]

  unfoldable pub resolve_path : Str → Result Str
  unfolding resolve_loop
  resolve_path path = resolve_loop (suc (length (clean path))) (clean path) []

  -- The loop over the roots of `resolveAllowedPath`.
  unfoldable pub search_roots : Str → Str → List Str → Result Str
  unfolding resolve_path path_within_root
  search_roots label resolved [] =
      err (errorf (label ++ codes " path is outside the allowed roots"))
  search_roots label resolved (root ∷ roots) =
      let rest = search_roots label resolved roots in
      within (λ e. wrapf (codes "failed to resolve allowed " ++ (label ++ codes " root: ")) e [])
        (resolve_path root)
      >>= λ resolved_root. if path_within_root resolved resolved_root then ok resolved else rest

  unfoldable pub resolve_allowed_path : Str → List Str → Str → Result Str
  unfolding search_roots is_safe_path str_eq
  resolve_allowed_path p roots label = do
    let path = trim_space p
    reject (path == [] || not (is_abs path) || not (clean path == path))
        (errorf (label ++ codes " path must be absolute and normalized"))
    reject (not (is_safe_path path))
        (errorf (label ++ codes " path contains unsupported characters"))
    resolved ←
        within (λ e. wrapf (codes "failed to resolve " ++ (label ++ codes " path: ")) e [])
          (resolve_path path)
    search_roots label resolved roots

  is_directory_kind : FileKind → Bool
  is_directory_kind directory = true
  is_directory_kind _ = false

  unfoldable pub check_source_file : Bool → Str → Result Str
  unfolding is_directory_kind
  check_source_file false resolved = ok resolved
  check_source_file true resolved = do
    info ← within (λ e. wrapf (codes "source path is not accessible: ") e []) (h.stat resolved)
    reject (is_directory_kind info.kind) (new "source path must be a file")
    ok resolved

  unfoldable pub resolve_source : PathPolicy → Str → Bool → Result Str
  unfolding check_source_file
  resolve_source policy path check_exists =
      resolve_allowed_path path policy.source_roots (codes "source")
      >>= check_source_file check_exists

  unfoldable pub check_destination_directory : Bool → Str → Result Str
  unfolding is_directory_kind
  check_destination_directory false resolved = ok resolved
  check_destination_directory true resolved = do
    info ← within (λ e. wrapf (codes "destination path is not accessible: ") e []) (h.stat resolved)
    reject (not (is_directory_kind info.kind)) (new "destination path must be a directory")
    ok resolved

  unfoldable pub resolve_destination : PathPolicy → Str → Bool → Result Str
  unfolding check_destination_directory
  resolve_destination policy path check_exists =
      resolve_allowed_path path policy.destination_roots (codes "destination")
      >>= check_destination_directory check_exists
