-- ===== src/Sync/Rollback.antt =====
-- `restoreEntry` and `failWithRollback` of internal/sync/sync.go: what was there before is back
-- at its path, or an error tells so and it is still under its backup name.
use zoraxy_cert_warden.Base.{
  ◌≡◌, refl, sym, ◌∙◌, ◌≢◌, ◌⊎◌, inl, inr, Bool, true, false, Option, none, some, Str,
  if◌then◌else◌, subst,
}
use zoraxy_cert_warden.Failure.{Result, ok, err, is_not_exist}
use zoraxy_cert_warden.Disk.{Node, Env, World, return}
use zoraxy_cert_warden.Disk.Calls.{remove}
use zoraxy_cert_warden.Disk.Effects.{Holds, remove_ok, remove_missing}
use zoraxy_cert_warden.Disk.Triples.{
  Triple, attempt_rule, return_rule, keep_rule, tolerate_rule, tolerate_keep_rule, Temp, At,
}
use zoraxy_cert_warden.Disk.Frames.{remove-At, rename-At}
use zoraxy_cert_warden.Sync.Backup.{
  OldEntry, entry_at, found, saved, bring_back, Restored, unchanged, unknown, restore_saved,
  restore_absence, restore_entry,
}
use zoraxy_cert_warden.Sync.Restore.{Moved, nothing, aside, Clear, renamed}

-- An entry that a rollback can bring back: ready for a new file, or still in place.
abbrev pub Backed : Str → Option Node → World → OldEntry → Type 0
Backed p v w old = Moved p v w old ⊎ ((old ≡ found (entry_at p)) × At p v w)

-- What `restoreEntry` has reached: the entry is as it was, or its backup still holds it.
abbrev pub Recovered : Str → Option Node → OldEntry → Restored → World → Type 0
Recovered p v old (unknown e) w =
    (n : Node) → v ≡ some n → (old.backed_up ≡ true) × Holds old.backup_path n w
Recovered p v old _ w = At p v w

module _ (o : Env) (x : Str) (v : Option Node) where
  bring_back-At :
      (old : OldEntry)
      → x ≢ old.path
      → x ≢ old.backup_path
      → Triple (At x v) (bring_back o old) (λ r. At x v)
  unfolding bring_back
  bring_back-At old np nq =
      keep_rule (rename-At o x v old.backup_path old.path nq np) (λ e. return_rule _ (λ w h. h))
        (λ _. return_rule _ (λ w h. h))

  -- Restoring an entry touches its path and its backup only.
  pub restore_entry-At :
      (old : OldEntry)
      → x ≢ old.path
      → Clear x old
      → Triple (At x v) (restore_entry o old) (λ r. At x v)
  unfolding restore_entry restore_saved restore_absence
  restore_entry-At old np clear = go old.existed old.backed_up clear
    where
      go :
          (existed backed_up : Bool)
          → (backed_up ≡ true → x ≢ old.backup_path)
          → Triple
              (At x v)
              (if existed
                then if backed_up then restore_saved o old else return unchanged
                else restore_absence o old)
              (λ r. At x v)
      go true true nq =
          tolerate_keep_rule (remove-At o x v old.path np) (bring_back-At old np (nq refl))
            (λ e. return_rule _ (λ w h. h))
      go true false nq = return_rule _ (λ w h. h)
      go false b nq =
          tolerate_keep_rule (remove-At o x v old.path np) (return_rule _ (λ w h. h))
            (λ e. return_rule _ (λ w h. h))

module _ (o : Env) (p : Str) where
  bring_back_recovers :
      (n : Node) (q : Str)
      → Triple
          (Holds q n)
          (bring_back o (saved (entry_at p) q))
          (Recovered p (some n) (saved (entry_at p) q))
  unfolding bring_back
  bring_back_recovers n q =
      attempt_rule _ (renamed o q n p) (λ e. return_rule _ (λ w h m same. (refl, h ∙ same)))
        (λ _. return_rule _ (λ w h. h))

  restore_saved_recovers :
      (n : Node) (q : Str)
      → q ≢ p
      → Triple
          (Holds q n)
          (restore_saved o (saved (entry_at p) q))
          (Recovered p (some n) (saved (entry_at p) q))
  unfolding restore_saved
  restore_saved_recovers n q ne =
      tolerate_keep_rule (remove-At o q (some n) p ne) (bring_back_recovers n q)
        (λ e. return_rule _ (λ w h m same. (refl, h ∙ same)))

  -- The path after a removal that finds nothing or succeeds.
  abbrev Emptied : Result (Unit {0}) → World → Type 0
  Emptied (ok _) w = At p none w
  Emptied (err e) w = is_not_exist e ≡ true → At p none w

  emptied : Triple (λ w. Unit {0}) (remove o p) Emptied
  emptied = record { run = λ w _. go w (remove o p w).0 refl }
    where
      go : (w : World) (r : Result (Unit {0})) → (remove o p w).0 ≡ r → Emptied r (remove o p w).1
      go w (ok u) e = remove_ok o p w e
      go w (err f) e = λ missing. remove_missing o p w e missing

  restore_absence_recovers :
      Triple (λ w. Unit {0}) (restore_absence o (entry_at p)) (Recovered p none (entry_at p))
  unfolding restore_absence
  restore_absence_recovers =
      tolerate_rule Emptied (At p none) emptied (λ w h. h) (λ e w missing h. h missing)
        (return_rule _ (λ w h. h)) (λ e. return_rule _ (λ w h n same. cc))

  -- Whatever happens, the entry is back, or the error leaves its contents in the backup.
  pub restore_entry_recovers :
      (v : Option Node) (old : OldEntry)
      → ((q : Str) → Temp q → q ≢ p)
      → Triple (λ w. Backed p v w old) (restore_entry o old) (Recovered p v old)
  unfolding restore_entry
  restore_entry_recovers v old named = record { run = λ w h. go w old h }
    where
      go :
          (w : World) (old : OldEntry)
          → Backed p v w old
          → Recovered p v old (restore_entry o old w).0 (restore_entry o old w).1
      go w old (inl (nothing e)) =
          subst
            (λ u.
              Recovered p u (entry_at p) (restore_absence o (entry_at p) w).0
                (restore_absence o (entry_at p) w).1)
            (sym e) (restore_absence_recovers.run w tt)
      go w old (inl (aside q n e h t)) =
          subst
            (λ u.
              Recovered p u (saved (entry_at p) q) (restore_saved o (saved (entry_at p) q) w).0
                (restore_saved o (saved (entry_at p) q) w).1)
            (sym e) ((restore_saved_recovers n q (named q t)).run w h)
      go w old (inr (e, h)) = rw e h
