-- ===== src/Lib.antt =====
-- A model of Zoraxy Cert Warden, the program that keeps certificate files in step with their
-- source, and what is proved of it.
--
-- The program. A configuration (internal/config) names certificates, each with a source and a
-- destination. A path policy limits what may be read and written. For each certificate the program
-- reads the source pair, from files or from a Cert Warden server (internal/certwarden), checks it
-- (internal/certutil), and installs it with its private key at the destination as one pair
-- (internal/sync). A watcher (internal/watcher) asks for a run when a source file has changed. The
-- manager (cmd/cert-sync) holds the active configuration, the credentials, the states and the
-- watchers, and changes them together. The state of every certificate is reported
-- (internal/status). The configuration file itself is replaced with a backup at hand
-- (internal/config/store.go), and so are the credentials of the remote sources
-- (internal/secretstore).
--
-- The files.
--   Base, Text, Failure  strings as lists of character codes, numbers, Go's errors as values
--   Host                 what path and address checks ask of the operating system, a parameter
--   Config               internal/config/config.go, its children: Normalize (Normalize), Validate
--                        ((*CertificateConfig).validate), Whole ((*Config).validate), Policy
--                        (path_policy.go), Unique (when a configuration is accepted),
--                        Allowed and Contained (which paths the policy lets through),
--                        Promises (what an accepted certificate cannot do)
--   CertUtil             internal/certutil/certutil.go, with Digest, Loops and Keys for its proofs
--   Disk                 the file system with failing calls, and specifications of runs on it
--   Sync                 internal/sync/sync.go: Staging (cleanupStaging, writeTempFileFS, readPairAt),
--                        Backup (prepareBackup, restoreEntry, failWithRollback), Replace
--                        (replacePair), Fallback (EnsureFallback, ReadFallback), Whole (Sync,
--                        SyncMaterial); its proofs are in Written, Restore, Rollback, Undo,
--                        Install, Pair, Promises
--   Status               internal/status/status.go, its children: Aggregate (Aggregate), and
--                        Counters and Health for its proofs
--   Store                internal/config/store.go, and Load of internal/config/config.go; its proofs
--                        are in Rollback, Durable, Saved, Promise
--   SecretStore          internal/secretstore/secretstore.go
--   Watcher              internal/watcher/watcher.go: Start, Stop, triggerDebounce and the steps of
--                        the goroutines; its children: Debounce (the timers), Polling (New,
--                        pollChanged, snapshot), and Stopping, Balance, Invariant, Shutdown,
--                        Coalesce and Changes for its proofs
--   CertWarden           internal/certwarden/client.go: NewClient and splitMaterial; its children:
--                        Fetch (Fetch), Bundle, Rounds and Material (which responses are accepted)
--   Manager              cmd/cert-sync/main.go, its children: Credentials (which keys go with which
--                        certificate), Fallbacks (reconcileFallbacks and the pending restarts),
--                        RuntimeFile (their file), Records (the updates of a state), Remote
--                        (fetchRemote), Runs (syncGeneration), Watches (the watchers and states of a
--                        new configuration), Apply (applyConfigAndSecretsLocked
--                        and its callers), Checks (validation on demand, connection test, Close);
--                        its proofs are in Prune, SameSecrets, Quiet, Started, Atomic, Locked,
--                        Queries, Steady, Switching, Changes, Saved, Mutated, Secrecy and Stale
--   Tests                runs at concrete inputs
--
-- How code becomes definitions. A Go struct is a record, an error is a value of Failure.Error, and
-- a function that returns an error returns a result. Code that changes files is a function from a
-- world to a result and a world. The world has the entries of the disk by their paths, the number
-- of calls made, and the states that the disk went through. An environment says which call fails,
-- what a failing write has written, and which random part the name of a temporary file gets. A
-- call that fails changes nothing, except that a write may have written a part. Two paths name one
-- entry only if they are equal, and a second name for a file is a copy, since no code writes to a
-- file that has a second name. A deferred call stands where it runs.
--
-- The manager is a function from a run to a result and a run: the manager's fields and the list of
-- the calls that it has made, the last one first, so that a promise about an order, or about what
-- reaches a server, is one about that list. A watcher is a step relation: each section under its
-- lock, and each step of a timer's function, is one step, and the steps come in any order.
--
-- Parameters. Crypto stands for crypto/tls, crypto/x509, crypto/sha256, encoding/pem and the
-- clock; Host for os.Lstat, os.Stat, filepath.EvalSymlinks and url.Parse; JSON is a function where
-- it is used. Files is what the poll of a watcher sees of the files, Http an exchange with the
-- server. Services says what the manager's calls answer, as a function of the calls made before,
-- and what other goroutines do to the manager while a run is without its lock. The
-- file path functions of Go are defined in Text.FilePath.
--
-- Bounds and fuel. Natural numbers are unbounded; the length that the digest writes is taken
-- modulo 2^64, as bytes. The loops over PEM blocks get as much fuel as the text is long and one
-- more; each round reads a block, so the text gets shorter (CertUtil.Loops and CertUtil.Keys), and
-- so it is for the loop over a server's response (CertWarden.Material). The generations of watcher
-- and manager wrap at 2^64; the numbers of timers and calls do not. The resolution of a path gets
-- as many rounds as the path has characters, and one more; each round takes the last element off.
-- A chain of symbolic links is followed forty times, which is the limit of Linux.
--
-- Not modelled. The poller of remote sources and the web interface, which call the manager; the
-- start of the process, its signals and its logs; the embedded copy of the plugin kit of Zoraxy,
-- the mock server and the test helpers. The lock that serialises the replacements for one
-- destination is a point where a run waits. The runs that a change of the configuration starts
-- stand one after the other. While a configuration changes, runs that the old watchers have
-- started may record their outcomes in the old states; the change is modelled without them. Times
-- and durations of an exchange with the server are left out. Text that fmt.Errorf formats with %q
-- is kept without escapes, and the octal modes in one error text are left out. White space around
-- PEM blocks is that of ASCII.
pub mod Base
pub mod Text
pub mod Failure
pub mod Host
pub mod Config
pub mod CertUtil
pub mod Disk
pub mod Sync
pub mod Status
pub mod Store
pub mod SecretStore
pub mod Watcher
pub mod CertWarden
pub mod Manager
mod Tests
