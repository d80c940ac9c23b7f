-- ===== src/Manager/Fallbacks.antt =====
-- cmd/cert-sync/main.go: the fallback files of the destinations, and the restarts of Zoraxy that
-- they wait for. A sorted list stands for the set that the walk over a map and the sort make.
use zoraxy_cert_warden.Base.{
  Bool, true, false, not, ◌&&◌, Option, none, some, List, [], ◌∷◌, ◌++◌, Str, codes, ◌==◌, str_eq,
  nat_eq, if◌then◌else◌, ltb,
}
use zoraxy_cert_warden.Failure.{Error, errorf, Result, ok, err, ◌>>=◌}
use zoraxy_cert_warden.Host.{Host}
use zoraxy_cert_warden.Config.{CertificateConfig, Config}
use zoraxy_cert_warden.Config.Policy.{PathPolicy, resolve_destination}
use zoraxy_cert_warden.Status.{State}
use zoraxy_cert_warden.Manager.{
  Manager, Services, P, note, call, is_pending, check_context, read_runtime, write_runtime,
  ensure_fallback,
}

-- Go's order on strings.
unfoldable pub less : Str → Str → Bool
unfolding nat_eq
less s [] = false
less [] (d ∷ t) = true
less (c ∷ s) (d ∷ t) = let rest = less s t in if c == d then rest else ltb c d

-- A name goes into a sorted list that has no name twice.
unfoldable pub insert : Str → List Str → List Str
unfolding str_eq less
insert d [] = d ∷ []
insert d (x ∷ xs) =
    let rest = insert d xs in if d == x then x ∷ xs else if less d x then d ∷ x ∷ xs else x ∷ rest

unfoldable pub add_all : List Str → List Str → List Str
add_all [] pending = pending
add_all (d ∷ ds) pending = add_all ds (if is_pending pending d then pending else d ∷ pending)

-- The order in which the runtime file lists the destinations.
unfoldable pub sorted : List Str → List Str
unfolding insert
sorted [] = []
sorted (d ∷ ds) = insert d (sorted ds)

module _ (h : Host) (policy : PathPolicy) (s : Services) where
  is_own : Str → Result Str → Bool
  unfolding str_eq
  is_own d (err e) = false
  is_own d (ok resolved) = resolved == d

  -- The destinations of the runtime file, up to the first that is not its own resolution.
  unfoldable pub accept_destinations : List Str → List Str → Option Error × List Str
  unfolding is_own resolve_destination
  accept_destinations [] pending = (none, pending)
  accept_destinations (d ∷ ds) pending =
      let rest = accept_destinations ds (if is_pending pending d then pending else d ∷ pending) in
      if is_own d (resolve_destination h policy d false)
      then rest
      else (some (errorf (codes "invalid runtime fallback destination " ++ d)), pending)

  unfoldable pub take_persisted : Result (Option (List Str)) → Manager → Option Error × Manager
  unfolding accept_destinations
  take_persisted (err e) m = (some e, record m { fallback_pending = [] })
  take_persisted (ok none) m = (none, record m { fallback_pending = []; runtime_loaded = true })
  take_persisted (ok (some ds)) m =
      let (e, pending) = accept_destinations ds [] in
      elim e [
        | none ↦ (none, record m { fallback_pending = pending; runtime_loaded = true })
        | some x ↦ (some x, record m { fallback_pending = pending })
      ]

  -- `loadRuntimeState`
  unfoldable pub load_runtime_state : P (Option Error)
  unfolding str_eq take_persisted
  load_runtime_state r =
      if r.manager.runtime_loaded
      then (none, r)
      else if r.manager.config_path == []
      then (
        none,
        record r { manager = record r.manager { fallback_pending = []; runtime_loaded = true } },
      )
      else let (e, m) = take_persisted (s.persisted r.log) r.manager in
        (e, record { manager = m; log = read_runtime ∷ r.log })

  -- `saveRuntimeStateLocked`, as one call.
  unfoldable pub save_runtime_state : List Str → P (Option Error)
  unfolding str_eq sorted
  save_runtime_state pending r =
      if r.manager.config_path == [] then (none, r) else call s (write_runtime (sorted pending)) r

  unfoldable pub set_pending : List Str → Option Error → P (Option Error)
  set_pending pending (some e) r = (some e, r)
  set_pending pending none r =
      (none, record r { manager = record r.manager { fallback_pending = pending } })

  -- `markFallbackPending`
  unfoldable pub mark_fallback_pending : List Str → P (Option Error)
  unfolding save_runtime_state add_all set_pending
  mark_fallback_pending [] r = (none, r)
  mark_fallback_pending (d ∷ ds) r =
      let pending = add_all (d ∷ ds) r.manager.fallback_pending in
      let (e, r') = save_runtime_state pending r in set_pending pending e r'

  unfoldable pub forget_pending : List (Str × State) → List (Str × State)
  forget_pending [] = []
  forget_pending ((n, x) ∷ rest) =
      (n, record x { fallback_pending_restart = false }) ∷ forget_pending rest

  unfoldable pub settle_restart : Option Error → P (Option Error)
  unfolding forget_pending
  settle_restart (some e) r = (some e, r)
  settle_restart none r = (
    none,
    record r {
      manager = record r.manager {
        fallback_pending = [];
        states = forget_pending r.manager.states;
      };
    },
  )

  unfoldable pub acknowledge : List Str → P (Option Error)
  unfolding save_runtime_state settle_restart
  acknowledge [] r = (none, r)
  acknowledge (d ∷ ds) r = let (e, r') = save_runtime_state [] r in settle_restart e r'

  -- `AcknowledgeFallbackRestart`
  unfoldable pub acknowledge_fallback_restart : P (Option Error)
  unfolding acknowledge
  acknowledge_fallback_restart r =
      let (e, r') = call s check_context r in
      elim e [ some x ↦ (some x, r') | none ↦ acknowledge r'.manager.fallback_pending r' ]

  -- The destinations of the certificates, in `directories`.
  unfoldable pub collect_directories : List CertificateConfig → List Str → Result (List Str)
  unfolding resolve_destination insert
  collect_directories [] found = ok found
  collect_directories (c ∷ cs) found =
      elim (resolve_destination h policy c.destination.target_directory false) [
        | err e ↦ err e
        | ok d ↦ collect_directories cs (insert d found)
      ]

  -- The enabled fallback certificates by their destinations, in `desired`; of two for one
  -- destination the later counts.
  unfoldable pub collect_desired :
      List CertificateConfig → List (Str × Str) → Result (List (Str × Str))
  unfolding resolve_destination
  collect_desired [] found = ok found
  collect_desired (c ∷ cs) found =
      if not (c.enabled && c.fallback)
      then collect_desired cs found
      else elim (resolve_destination h policy c.destination.target_directory false) [
        | err e ↦ err e
        | ok d ↦ collect_desired cs ((d, c.destination.target_name) ∷ found)
      ]

  -- `desired[destination]`
  unfoldable pub desired_name : List (Str × Str) → Str → Option Str
  unfolding str_eq
  desired_name [] d = none
  desired_name ((x, name) ∷ rest) d = if x == d then some name else desired_name rest d

  certificates_of : Option Config → List CertificateConfig
  certificates_of none = []
  certificates_of (some cfg) = cfg.certificates

  -- `certSync.EnsureFallback` on one destination.
  unfoldable pub ensure_one : Str → Option Str → P (Bool × Option Error)
  ensure_one d wanted r = (
    (s.changes_fallback r.log, s.answer r.log (ensure_fallback d wanted)),
    note (ensure_fallback d wanted) r,
  )

  unfoldable pub ensure_all : List (Str × Str) → List Str → List Str → P (List Str × Option Error)
  unfolding ensure_one desired_name
  ensure_all desired [] changed r = ((changed, none), r)
  ensure_all desired (d ∷ ds) changed r =
      let ((was_changed, e), r') = ensure_one d (desired_name desired d) r in
      let now_changed = if was_changed then changed ++ (d ∷ []) else changed in
      elim e [ some x ↦ ((now_changed, some x), r') | none ↦ ensure_all desired ds now_changed r' ]

  unfoldable pub plan_fallbacks :
      Option Config → Option Config → Result (List Str × List (Str × Str))
  unfolding certificates_of collect_directories collect_desired
  plan_fallbacks old new = do
    found ← collect_directories (certificates_of old) []
    directories ← collect_directories (certificates_of new) found
    desired ← collect_desired (certificates_of new) []
    ok (directories, desired)

  -- `reconcileFallbacks`
  unfoldable pub reconcile_fallbacks : Option Config → Option Config → P (List Str × Option Error)
  unfolding plan_fallbacks ensure_all
  reconcile_fallbacks old new r = elim (plan_fallbacks old new) [
    | err e ↦ (([], some e), r)
    | ok plan ↦ ensure_all plan.1 plan.0 [] r
  ]
