-- ===== src/Manager.antt =====
-- cmd/cert-sync/main.go: the manager, which holds the active configuration, the credentials and
-- the running watchers, and changes them together. What it calls answers as `Services` says,
-- and each call is written down, the last one first.
pub mod Credentials
pub mod Prune
pub mod SameSecrets
pub mod Records
pub mod Fallbacks
pub mod Remote
pub mod Runs
pub mod Watches
pub mod Apply
pub mod Quiet
pub mod Started
pub mod Atomic
pub mod Queries
pub mod Steady
pub mod Locked
pub mod Switching
pub mod Changes
pub mod Saved
pub mod Mutated
pub mod Checks
pub mod RuntimeFile
pub mod Secrecy
pub mod Stale
use zoraxy_cert_warden.Base.{
  ℕ, ◌+◌, ◌%◌, ◌^◌, Bool, true, false, Option, none, some, List, [], ◌∷◌, ◌++◌, Str, codes, ◌==◌,
  str_eq, if◌then◌else◌,
}
use zoraxy_cert_warden.Base.Int.{ℤ, pos}
use zoraxy_cert_warden.Failure.{Error, Result, ok, err}
use zoraxy_cert_warden.Config.{CertificateConfig, Config}
use zoraxy_cert_warden.CertUtil.{Bytes, CertInfo}
use zoraxy_cert_warden.Sync.Fallback.{Report}
use zoraxy_cert_warden.Status.{State}
use zoraxy_cert_warden.SecretStore.{Secrets}

-- `slog.Level`, as far as `setLogLevel` chooses.
pub data Level : Type 0 where
  level_debug level_info level_warn level_error : Level

-- A watcher or a poller, known by the certificate and the generation that it was made for.
pub record Watch : Type 0 where
  pub name : Str
  pub generation : ℕ

-- `certwarden.Material`
pub record Material : Type 0 where
  pub certificate_pem : Bytes
  pub private_key_pem : Bytes
  pub retrieved_at : ℕ
  pub http_status : ℤ
  pub latency_millis : ℤ

abbrev pub no_material : Material
no_material = record {
  certificate_pem = [];
  private_key_pem = [];
  retrieved_at = 0;
  http_status = pos 0;
  latency_millis = pos 0;
}

-- An error of a query; for a `*certwarden.FetchError`, its kind and the HTTP status.
pub record QueryError : Type 0 where
  pub cause : Error
  pub fetch_error : Option (Str × ℤ)

-- `manager`, by its data. Lists of pairs stand for the maps.
pub record Manager : Type 0 where
  pub cfg : Option Config
  pub states : List (Str × State)
  pub watchers : List Watch
  pub generation : ℕ
  pub config_path : Str
  pub secrets : Secrets
  pub log_level : Level
  pub fallback_pending : List Str
  pub runtime_loaded : Bool

-- What the error types of the manager tell the web interface.
pub data FailureKind : Type 0 where
  plain config_validation config_conflict certificate_not_found source_validation : FailureKind

pub record Failed : Type 0 where
  pub kind : FailureKind
  pub cause : Error

-- A value, or the error that is returned instead.
pub data Verdict (A : Type 0) : Type 0 where
  failed : Failed → Verdict A
  done : A → Verdict A

-- The calls of the manager. Those that publish are written down with the active generation.
pub data Call : Type 0 where
  check_context read_runtime : Call
  write_runtime : List Str → Call
  make_poller make_watcher start_watch stop_watch : Watch → Call
  ensure_fallback : Str → Option Str → Call
  save_config : Config → Call
  save_secrets : Secrets → Call
  lock_destination : Str → Call
  make_client : Str → Str → Str → Call
  fetch : Str → Str → Call
  sync_files : ℕ → CertificateConfig → Call
  sync_material : ℕ → CertificateConfig → Material → Call
  read_destination : CertificateConfig → Call
  stat_source : Str → Call

abbrev pub Log : Type 0
Log = List Call

-- What the callees answer, given the calls before.
pub record Services : Type 0 where
  -- Of a call that only succeeds or fails.
  pub answer : Log → Call → Option Error
  -- Whether `EnsureFallback` changed the file.
  pub changes_fallback : Log → Bool
  -- The destinations in the runtime file; `none` where there is no file.
  pub persisted : Log → Result (Option (List Str))
  pub fetched : Log → Material × Option QueryError
  -- `syncFunc` and `syncMaterialFunc`
  pub synced : Log → Option CertInfo × Option Report × Option Error
  pub destination_info : Log → Result CertInfo
  -- `os.Stat` of a source file, its time.
  pub modified : Log → Option ℕ
  pub now : Log → ℕ
  -- What the other goroutines do to the manager while it waits without its lock.
  pub meanwhile : Log → Manager → Manager

-- A run of the program has the manager and the calls so far.
pub record Run : Type 0 where
  pub manager : Manager
  pub log : Log

abbrev pub P : Type 0 → Type 0
P A = Run → A × Run

abbrev pub return : {A : Type 0} → A → P A
return a r = (a, r)

infixl 5 ◌>>=◌ ◌>>◌
unfoldable pub ◌>>=◌ : {A B : Type 0} → P A → (A → P B) → P B
◌>>=◌ m f r = let (a, r') = m r in f a r'

unfoldable pub ◌>>◌ : {A B : Type 0} → P A → P B → P B
◌>>◌ m k r = let (a, r') = m r in k r'

-- The manager's fields are read and written.
abbrev pub get : P Manager
get r = (r.manager, r)

abbrev pub put : Manager → P (Unit {0})
put m r = (tt, record r { manager = m })

abbrev pub note : Call → Run → Run
note c r = record r { log = c ∷ r.log }

module _ (s : Services) where
  -- A call that only succeeds or fails.
  abbrev pub call : Call → P (Option Error)
  call c r = (s.answer r.log c, note c r)

  -- A wait without the manager's lock.
  abbrev pub wait : P (Unit {0})
  wait r = (tt, record r { manager = s.meanwhile r.log r.manager })

abbrev pub plainly : Error → Failed
plainly e = record { kind = plain; cause = e }

abbrev pub as_kind : FailureKind → Error → Failed
as_kind k e = record { kind = k; cause = e }

-- `if err := call; err != nil { return err }`
unfoldable pub attempt : {A : Type 0} → P (Option Error) → P (Verdict A) → P (Verdict A)
attempt m k r = let (e, r') = m r in elim e [ none ↦ k r' | some x ↦ (failed (plainly x), r') ]

-- `m.states[name]`
unfoldable pub lookup_state : List (Str × State) → Str → Option State
unfolding str_eq
lookup_state [] name = none
lookup_state ((n, x) ∷ rest) name = if n == name then some x else lookup_state rest name

-- What is written through the pointer that `m.states[name]` holds.
unfoldable pub update_state : (State → State) → List (Str × State) → Str → List (Str × State)
unfolding str_eq
update_state f [] name = []
update_state f ((n, x) ∷ rest) name =
    let later = update_state f rest name in if n == name then (n, f x) ∷ rest else (n, x) ∷ later

-- `m.fallbackPending[destination]`
unfoldable pub is_pending : List Str → Str → Bool
unfolding str_eq
is_pending [] d = false
is_pending (x ∷ xs) d = if x == d then true else is_pending xs d

abbrev pub generation_after : ℕ → ℕ
generation_after g = (g + 1) % 2 ^ 64

-- What holds of both cases of a verdict.
pub Verdict-holds {κ} :
    {A B : Type 0} (P : B → Type κ) (v : Verdict A) {f : Failed → B} {g : A → B}
    → ((e : Failed) → P (f e))
    → ((a : A) → P (g a))
    → P (elim v [ failed e ↦ f e | done a ↦ g a ])
Verdict-holds P (failed e) p q = p e
Verdict-holds P (done a) p q = q a
