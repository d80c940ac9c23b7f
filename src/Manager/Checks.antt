-- ===== src/Manager/Checks.antt =====
-- cmd/cert-sync/main.go: the validation of one source on demand, the test of a connection, the
-- state that the web interface reads, and the end of the manager.
use zoraxy_cert_warden.Base.{
  ℕ, zero, ◌+◌, ◌*◌, ◌-◌, ◌^◌, Bool, true, false, not, ◌&&◌, Option, none, some, List, [], ◌∷◌, Str,
  ◌==◌, str_eq, nat_eq, if◌then◌else◌, leb, ltb,
}
use zoraxy_cert_warden.Text.{trim_space}
use zoraxy_cert_warden.Text.FilePath.{split}
use zoraxy_cert_warden.Failure.{Error, Result, ok, err, ◌>>=◌}
use zoraxy_cert_warden.Host.{Host}
use zoraxy_cert_warden.Config.{CertificateConfig, is_cert_warden}
use zoraxy_cert_warden.Config.Policy.{PathPolicy, resolve_source}
use zoraxy_cert_warden.CertUtil.{CertInfo, Crypto, validate_pem_pair}
use zoraxy_cert_warden.Status.{State, CertificateStatus, to_certificate_status}
use zoraxy_cert_warden.Manager.Fallbacks.{less}
use zoraxy_cert_warden.Manager.Records.{record_validation}
use zoraxy_cert_warden.Manager.Remote.{fetch_remote}
use zoraxy_cert_warden.Manager.Runs.{is_filesystem_error, not_found}
use zoraxy_cert_warden.Manager.Watches.{stop_watches}
use zoraxy_cert_warden.Manager.{
  wait, Manager, Material, QueryError, Failed, config_validation, source_validation, plainly,
  as_kind, Services, Run, P, note, call, lookup_state, generation_after, make_client, fetch,
}

-- An error of a source, unless it is one of the file system.
unfoldable pub as_source_error : Error → Failed
unfolding is_filesystem_error
as_source_error e = if is_filesystem_error e then plainly e else as_kind source_validation e

module _ (h : Host) (policy : PathPolicy) (k : Crypto) (s : Services) where
  -- `validateFunc` on the two files.
  module _ (validate_files : Str → Str → Result CertInfo) (name : Str) (generation : ℕ) where
    -- The outcome is recorded, after a time without the lock.
    unfoldable pub finish_validation : Option CertInfo → Option Failed → P (Option Failed)
    unfolding record_validation
    finish_validation info failure r =
        let (_, r') = wait s r in
        (
          failure,
          record r' {
            manager =
                record_validation (s.now r'.log) name generation info
                  (elim failure [ none ↦ none | some f ↦ some f.cause ]) r'.manager;
          },
        )

    unfoldable pub of_pair : (Error → Failed) → Result CertInfo → P (Option Failed)
    unfolding finish_validation
    of_pair kind (err e) = finish_validation none (some (kind e))
    of_pair kind (ok info) = finish_validation (some info) none

    -- The two files of a local source.
    unfoldable pub source_files : CertificateConfig → Result (Str × Str)
    unfolding resolve_source
    source_files cfg = do
      cert_path ← resolve_source h policy cfg.source.certificate true
      key_path ← resolve_source h policy cfg.source.private_key true
      ok (cert_path, key_path)

    unfoldable pub validate_local_source : CertificateConfig → P (Option Failed)
    unfolding source_files finish_validation of_pair as_source_error
    validate_local_source cfg = elim (source_files cfg) [
      | err e ↦ finish_validation none (some (plainly e))
      | ok (cert_path, key_path) ↦ of_pair as_source_error (validate_files cert_path key_path)
    ]

    unfoldable pub validate_material : Material → Option QueryError → P (Option Failed)
    unfolding of_pair validate_pem_pair
    validate_material material (some e) r = (some (plainly e.cause), r)
    validate_material material none r =
        of_pair (as_kind source_validation)
          (validate_pem_pair k material.certificate_pem material.private_key_pem) r

    unfoldable pub validate_remote_source : CertificateConfig → P (Option Failed)
    unfolding fetch_remote validate_material
    validate_remote_source cfg r =
        let ((material, e), r') = fetch_remote s name generation cfg r in
        validate_material material e r'

  -- `ValidateCertificate`
  unfoldable pub validate_source_of : (Str → Str → Result CertInfo) → Str → P (Option Failed)
  unfolding lookup_state validate_remote_source validate_local_source
  validate_source_of validate_files name r = elim (lookup_state r.manager.states name) [
    | none ↦ (some (not_found name), r)
    | some x ↦
        if is_cert_warden x.config.source.source_type
        then validate_remote_source validate_files name r.manager.generation x.config r
        else validate_local_source validate_files name r.manager.generation x.config r
  ]

  unfoldable pub check_material : Material → Option QueryError → Option Failed
  unfolding validate_pem_pair
  check_material material (some e) = some (plainly e.cause)
  check_material material none =
      elim (validate_pem_pair k material.certificate_pem material.private_key_pem) [
        | err e ↦ some (as_kind source_validation e)
        | ok info ↦ none
      ]

  -- `TestCertWardenConnection`
  unfoldable pub test_connection : Str → Str → Str → Str → P (Option Failed)
  unfolding trim_space check_material
  test_connection server_url certificate_name certificate_key private_key r =
      let (e, r') =
        call s
          (make_client (trim_space server_url) (trim_space certificate_key)
            (trim_space private_key))
          r in
      elim e [
        | some x ↦ (some (as_kind config_validation x), r')
        | none ↦
            let (material, x) = s.fetched r'.log in
            (
              check_material material x,
              note (fetch (trim_space server_url) (trim_space certificate_name)) r',
            )
      ]

-- One step of the sort by names.
unfoldable pub insert_status : CertificateStatus → List CertificateStatus → List CertificateStatus
unfolding less
insert_status c [] = c ∷ []
insert_status c (d ∷ ds) =
    let rest = insert_status c ds in if less d.name c.name then d ∷ rest else c ∷ d ∷ ds

-- `SnapshotStatus`
unfoldable pub snapshot_status : ℕ → List (Str × State) → List CertificateStatus
unfolding insert_status to_certificate_status
snapshot_status now [] = []
snapshot_status now ((n, x) ∷ rest) =
    insert_status (to_certificate_status now x) (snapshot_status now rest)

-- `FallbackRestartPending`
unfoldable pub fallback_restart_pending : Manager → Bool
fallback_restart_pending m = elim m.fallback_pending [ [] ↦ false | d ∷ ds ↦ true ]

-- `(*manager).stopWatchers`
unfoldable pub stop_manager : Run → Run
unfolding stop_watches
stop_manager r = stop_watches r.manager.watchers (record r {
  manager = record r.manager { watchers = []; generation = generation_after r.manager.generation };
})

unfoldable pub digits_value : ℕ → Str → Option ℕ
digits_value n [] = some n
digits_value n (c ∷ s) =
    let rest = digits_value (n * 10 + (c - b'0')) s in
    if leb b'0' c && leb c b'9' then rest else none

-- The value of at least one digit, within an int64.
unfoldable pub number : Str → Option ℕ
unfolding digits_value
number [] = none
number (c ∷ s) = elim (digits_value 0 (c ∷ s)) [
  | none ↦ none
  | some n ↦ if ltb n (2 ^ 63) then some n else none
]

-- `strconv.Atoi`, where a negative value counts as an error.
unfoldable pub atoi : Str → Option ℕ
unfolding number nat_eq
atoi [] = none
atoi (c ∷ s) =
    if c == b'+'
    then number s
    else if c == b'-'
    then (elim (number s) [ some zero ↦ some 0 | _ ↦ none ])
    else number (c ∷ s)

-- `part == "" || (len(part) > 1 && part[0] == '0')`, and the value.
unfoldable pub version_part : Str → Option ℕ
unfolding str_eq nat_eq atoi
version_part [] = none
version_part (c ∷ s) = if c == b'0' && not (s == []) then none else atoi (c ∷ s)

unfoldable pub three_parts : List Str → ℕ × ℕ × ℕ
unfolding version_part
three_parts (a ∷ b ∷ c ∷ []) = elim (version_part a) [
  | none ↦ (0, 0, 0)
  | some x ↦ elim (version_part b) [
    | none ↦ (0, 0, 0)
    | some y ↦ elim (version_part c) [ none ↦ (0, 0, 0) | some z ↦ (x, y, z) ]
  ]
]
three_parts _ = (0, 0, 0)

-- `semanticVersion`
unfoldable pub semantic_version : Str → ℕ × ℕ × ℕ
unfolding split three_parts nat_eq
semantic_version [] = three_parts (split b'.' [])
semantic_version (c ∷ s) = three_parts (split b'.' (if c == b'v' then s else c ∷ s))
