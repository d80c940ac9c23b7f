-- ===== src/Sync/Promises.antt =====
-- What internal/sync/sync.go promises of a replacement, of a backup and of a staged file.
use zoraxy_cert_warden.Base.{
  ℕ, ◌≡◌, refl, sym, ◌∙◌, ap, if◌then◌else◌, str_eq, subst, ◌≢◌, inl, inr, true, Option, none, some,
  ◌++◌, Str, codes, arith,
}
use zoraxy_cert_warden.Failure.{Error, path_error, io, Result, ok, err, is_not_exist}
use zoraxy_cert_warden.CertUtil.{Bytes, Crypto}
use zoraxy_cert_warden.Disk.{
  Node, file, Env, World, Disk, P, M, tick, show, update, tolerate, attempt,
}
use zoraxy_cert_warden.Disk.Calls.{lstat, remove}
use zoraxy_cert_warden.Disk.Effects.{Holds}
use zoraxy_cert_warden.Disk.Triples.{OnOk, Temp, At}
use zoraxy_cert_warden.Sync.Staging.{write_temp_file}
use zoraxy_cert_warden.Sync.Written.{write_temp_file-At, write_temp_file_ok}
use zoraxy_cert_warden.Sync.Backup.{
  OldEntry, entry_at, prepare_backup, Restored, unchanged, restored, absent, unknown, restore_entry,
  restore_absence,
}
use zoraxy_cert_warden.Sync.Restore.{nothing, aside, Prepared, LstatReliable, prepare_backup_kept}
use zoraxy_cert_warden.Sync.Rollback.{Recovered, restore_entry_recovers}
use zoraxy_cert_warden.Sync.Pair.{Safe, Safe-of_parts, PairOutcome, stage_and_install_settles}
use zoraxy_cert_warden.Sync.Replace.{Job, cert_path, key_path, stage_and_install}

-- If no look at an entry fails by itself, and the certificate's and the key's path differ and
-- bear no temporary names, then whatever other calls fail: when the replacement of a pair reports
-- success, both paths hold the new contents with the modes 0644 and 0600; when it reports an
-- error, either that is so, or what each path held before is at the path or under a temporary
-- name.
pub stage_and_install_safe :
    (o : Env) (k : Crypto) (j : Job) (w : World)
    → LstatReliable o
    → cert_path j.dir j.name ≢ key_path j.dir j.name
    → ((q : Str) → Temp q → q ≢ cert_path j.dir j.name)
    → ((q : Str) → Temp q → q ≢ key_path j.dir j.name)
    → PairOutcome j
        (w.disk (cert_path j.dir j.name))
        (w.disk (key_path j.dir j.name))
        (stage_and_install o k j w).0
        (stage_and_install o k j w).1
stage_and_install_safe o k j w reliable differ cert_named key_named =
    (stage_and_install_settles o reliable k j _ _ differ cert_named key_named).run w (refl, refl)

-- What `restoreEntry` promises: the entry is as it was, or it is not known to be, and safe.
abbrev pub Reached : Str → Option Node → Restored → World → Type 0
Reached p v (unknown e) w = Safe p v w
Reached p v _ w = At p v w

reached :
    (p : Str) (v : Option Node) (old : OldEntry) (r : Restored) (w : World)
    → (old.backed_up ≡ true → Temp old.backup_path)
    → Recovered p v old r w
    → Reached p v r w
reached p v old (unknown e) w t h =
    Safe-of_parts p v w (λ n s. inr (old.backup_path, t (h n s).0, (h n s).1))
reached p v old unchanged w t h = h
reached p v old restored w t h = h
reached p v old absent w t h = h

Temp-of_Prepared :
    (p : Str) (v : Option Node) (r : Result (Unit {0}) × OldEntry) (w : World)
    → Prepared p v r w
    → r.1.backed_up ≡ true
    → Temp r.1.backup_path
Temp-of_Prepared p v (ok u, old) w (nothing e) b = cc
Temp-of_Prepared p v (ok u, old) w (aside q n e h t) b = t
Temp-of_Prepared p v (err e, old) w (same, h) b = cc

-- If no look at an entry fails by itself and the entry's path is no temporary name, then a backup
-- followed by a restoration, whatever calls fail, has put back what the path held, unless the
-- restoration reports an unknown state; then what the path held is at the path or under a
-- temporary name.
pub restore_entry-prepare_backup :
    (o : Env) (p dir prefix : Str) (w : World)
    → LstatReliable o
    → ((q : Str) → Temp q → q ≢ p)
    → let prepared = prepare_backup o (entry_at p) dir prefix w in
      let after = restore_entry o prepared.0.1 prepared.1 in Reached p (w.disk p) after.0 after.1
restore_entry-prepare_backup o p dir prefix w reliable named =
    go (prepare_backup o (entry_at p) dir prefix w).0 (prepare_backup o (entry_at p) dir prefix w).1
      ((prepare_backup_kept o p reliable (w.disk p) dir prefix).run w refl)
  where
    go :
        (r : Result (Unit {0}) × OldEntry) (w' : World)
        → Prepared p (w.disk p) r w'
        → Reached p (w.disk p) (restore_entry o r.1 w').0 (restore_entry o r.1 w').1
    go (ok u, old) w' h =
        reached p (w.disk p) old _ _ (Temp-of_Prepared p _ (ok u, old) w' h)
          ((restore_entry_recovers o p (w.disk p) old named).run w' (inl h))
    go (err e, old) w' h =
        reached p (w.disk p) old _ _ (Temp-of_Prepared p _ (err e, old) w' h)
          ((restore_entry_recovers o p (w.disk p) old named).run w' (inr h))

-- A file `x` that exists is never touched by the staging of another file; and when the staging
-- reports success, the name that it returns is a temporary one other than `x` and holds the whole
-- contents with the mode asked for.
pub write_temp_file_stages :
    (o : Env) (dir prefix : Str) (bytes : Bytes) (mode : ℕ) (x : Str) (n : Node) (w : World)
    → Holds x n w
    → let staged = write_temp_file o dir prefix bytes mode w in
      Holds x n staged.1
      × OnOk (λ q w'. Holds q (file bytes mode) w' × Temp q) staged.0 staged.1
      × OnOk (λ q w'. (x ≢ q) × Temp q) staged.0 staged.1
write_temp_file_stages o dir prefix bytes mode x n w h =
    let kept = (write_temp_file-At o x (some n) dir prefix bytes mode (inl (n, refl))).run w h in
    (kept.0, (write_temp_file_ok o dir prefix bytes mode).run w tt, kept.1)

attempt_err :
    {A B : Type 0} (m : M A) (failed : Error → P B) (done : A → P B) (e : Error) (w w' : World)
    → m w ≡ (err e, w')
    → attempt m failed done w ≡ failed e w'
unfolding attempt
attempt_err m failed done e w w' h =
    ap (λ r. elim r.0 [ err e ↦ failed e r.1 | ok a ↦ done a r.1 ]) h

tolerate_ok :
    {B : Type 0} (m : M (Unit {0})) (failed : Error → P B) (done : P B) (w w' : World)
    → m w ≡ (ok tt, w')
    → tolerate m failed done w ≡ done w'
unfolding tolerate attempt
tolerate_ok {B} m failed done w w' h =
    ap
      (λ r. elim r.0 [
        | err e ↦ let next : P B = if is_not_exist e then done else failed e in next r.1
        | ok a ↦ done r.1
      ])
      h

updated : (p : Str) (d : Disk) → update d p none p ≡ none
unfolding str_eq
updated p d = ground arith

lstat_fails :
    (o : Env) (p reason : Str) (w : World)
    → o.lstat_fault w.clock ≡ some reason
    → lstat o p w ≡ (err (path_error (codes "lstat " ++ p) (io reason)), tick w)
unfolding lstat
lstat_fails o p reason w e = ground arith

prepare_backup_fails :
    (o : Env) (p dir prefix reason : Str) (w : World)
    → o.lstat_fault w.clock ≡ some reason
    → prepare_backup o (entry_at p) dir prefix w
      ≡ ((err (path_error (codes "lstat " ++ p) (io reason)), entry_at p), tick w)
unfolding prepare_backup is_not_exist
prepare_backup_fails o p dir prefix reason w e =
    attempt_err (lstat o p) _ _ _ w (tick w) (lstat_fails o p reason w e)

remove_works :
    (o : Env) (p bytes : Str) (mode : ℕ) (w : World)
    → Holds p (file bytes mode) w
    → o.fault w.clock ≡ none
    → remove o p w ≡ (ok tt, show w (update w.disk p none))
unfolding remove
remove_works o p bytes mode w h f = ground arith

restore_entry_removes :
    (o : Env) (p bytes : Str) (mode : ℕ) (w : World)
    → Holds p (file bytes mode) w
    → o.fault w.clock ≡ none
    → restore_entry o (entry_at p) w ≡ (absent, show w (update w.disk p none))
unfolding restore_entry restore_absence
restore_entry_removes o p bytes mode w h f =
    tolerate_ok (remove o p) _ _ w _ (remove_works o p bytes mode w h f)

-- If the look at a file fails for another reason than that it is missing, the backup reports this
-- error and leaves the file, but what it returns makes the restoration remove the file and report
-- that there is none, unless the removal fails too.
pub restore_entry-prepare_backup_loses :
    (o : Env) (p dir prefix bytes : Str) (mode : ℕ) (reason : Str) (w : World)
    → Holds p (file bytes mode) w
    → o.lstat_fault w.clock ≡ some reason
    → o.fault (prepare_backup o (entry_at p) dir prefix w).1.clock ≡ none
    → let prepared = prepare_backup o (entry_at p) dir prefix w in
      let after = restore_entry o prepared.0.1 prepared.1 in
      (prepared.0.0 ≡ err (path_error (codes "lstat " ++ p) (io reason)))
      × Holds p (file bytes mode) prepared.1
      × At p none after.1
      × (after.0 ≡ absent)
restore_entry-prepare_backup_loses o p dir prefix bytes mode reason w h e f =
    let failed = prepare_backup_fails o p dir prefix reason w e in
    let removed =
      restore_entry_removes o p bytes mode (tick w) h
        (sym (ap (λ r. o.fault r.1.clock) failed) ∙ f) in
    subst
      (λ r.
        (r.0.0 ≡ err (path_error (codes "lstat " ++ p) (io reason)))
        × Holds p (file bytes mode) r.1
        × At p none (restore_entry o r.0.1 r.1).1
        × ((restore_entry o r.0.1 r.1).0 ≡ absent))
      (sym failed) (refl, h, ap (λ r. r.1.disk p) removed ∙ updated p w.disk, ap (λ r. r.0) removed)
