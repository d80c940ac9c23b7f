-- ===== src/Sync/Restore.antt =====
-- `prepareBackup` and `restoreEntry` of internal/sync/sync.go keep what an entry held: at its
-- path, or under a backup name.
use zoraxy_cert_warden.Base.{
  ℕ, ◌≡◌, refl, sym, ◌∙◌, ap, ◌≢◌, inl, Bool, true, false, if◌then◌else◌, subst, Option, none, some,
  Str,
}
use zoraxy_cert_warden.Failure.{Error, Result, ok, err, is_not_exist}
use zoraxy_cert_warden.Host.{FileInfo}
use zoraxy_cert_warden.Disk.{Node, Env, World, P, return, attempt, ◌>>◌}
use zoraxy_cert_warden.Disk.Calls.{lstat, close, remove, rename}
use zoraxy_cert_warden.Disk.Effects.{Holds, rename_ok, rename_err}
use zoraxy_cert_warden.Disk.Triples.{
  Triple, attempt_rule, then_rule, return_rule, keep_rule, Temp, Drawn, At, Apart, create_temp-At,
}
use zoraxy_cert_warden.Disk.Frames.{lstat-At, close-At, remove-At, rename-At}
use zoraxy_cert_warden.Sync.Backup.{OldEntry, entry_at, found, saved, move_aside, prepare_backup}

-- A backup that is ready for the publication of a new file: there was nothing, or it is aside.
pub data Moved (p : Str) (v : Option Node) (w : World) : OldEntry → Type 0 where
  nothing : v ≡ none → Moved p v w (entry_at p)
  aside :
      (q : Str) (n : Node) → v ≡ some n → Holds q n w → Temp q → Moved p v w (saved (entry_at p) q)

-- What `prepareBackup` returns: a backup, or an error with the entry still in place.
abbrev pub Prepared : Str → Option Node → Result (Unit {0}) × OldEntry → World → Type 0
Prepared p v (ok _, old) w = Moved p v w old
Prepared p v (err e, old) w = (old ≡ found (entry_at p)) × At p v w

-- No look at an entry fails by itself.
abbrev pub LstatReliable : Env → Type 0
LstatReliable o = (n : ℕ) → o.lstat_fault n ≡ none

module _ (o : Env) (p : Str) where
  pub renamed :
      (n : Node) (q : Str)
      → Triple
          (Holds p n)
          (rename o p q)
          (λ r w. elim r as (λ _. Type 0) [ ok _ ↦ Holds q n w | err _ ↦ Holds p n w ])
  renamed n q = record { run = λ w h. go w h (rename o p q w).0 refl }
    where
      go :
          (w : World)
          → Holds p n w
          → (r : Result (Unit {0})) → (rename o p q w).0 ≡ r
          → elim r as (λ _. Type 0) [
            | ok _ ↦ Holds q n (rename o p q w).1
            | err _ ↦ Holds p n (rename o p q w).1
          ]
      go w h (ok u) e = rename_ok o p q n w e h
      go w h (err f) e = ap (λ d. d p) (rename_err o p q w e) ∙ h

  move_aside_kept :
      (n : Node) (dir prefix : Str)
      → Triple (Holds p n) (move_aside o (found (entry_at p)) dir prefix) (Prepared p (some n))
  unfolding move_aside
  move_aside_kept n dir prefix =
      attempt_rule (Drawn p (some n)) (create_temp-At o dir prefix p (some n) (inl (n, refl)))
        (λ e. return_rule _ (λ w h. (refl, h.0)))
        (λ q. record { run = λ w h. (rest q h.1.0 h.1.1).run w h.0 })
    where
      rest :
          (q : Str)
          → p ≢ q
          → Temp q
          → Triple
              (Holds p n)
              (attempt
                (close o q)
                (λ e. do remove o q; return (err e, found (entry_at p)))
                λ _.
                  attempt
                    (remove o q)
                    (λ e. return (err e, found (entry_at p)))
                    λ _.
                      attempt
                        (rename o p q)
                        (λ e. return (err e, found (entry_at p)))
                        λ _. return (ok tt, saved (entry_at p) q))
              (Prepared p (some n))
      rest q ne t =
          keep_rule (close-At o p (some n) q)
            (λ e.
              then_rule (Holds p n) (remove-At o p (some n) q ne)
                (return_rule _ (λ w h. (refl, h))))
            λ _.
              keep_rule (remove-At o p (some n) q ne) (λ e. return_rule _ (λ w h. (refl, h)))
                λ _.
                  attempt_rule _ (renamed n q) (λ e. return_rule _ (λ w h. (refl, h)))
                    (λ _. return_rule _ (λ w h. aside q n refl h t))

  -- What a look that fails for no reason of its own tells of the entry.
  abbrev Looked : Option Node → Result FileInfo → World → Type 0
  Looked v (ok info) w = At p v w × (n : Node) × (v ≡ some n)
  Looked v (err e) w = At p v w × (v ≡ none) × (is_not_exist e ≡ true)

  looked : LstatReliable o → (v : Option Node) → Triple (At p v) (lstat o p) (Looked v)
  unfolding lstat is_not_exist
  looked reliable none = record { run = λ w h. rw (reliable w.clock) (rw h (h, refl, refl)) }
  looked reliable (some n) = record { run = λ w h. rw (reliable w.clock) (rw h (h, n, refl)) }

  -- The entry is ready, or the error leaves it in place.
  pub prepare_backup_kept :
      LstatReliable o
      → (v : Option Node) (dir prefix : Str)
      → Triple (At p v) (prepare_backup o (entry_at p) dir prefix) (Prepared p v)
  unfolding prepare_backup
  prepare_backup_kept reliable v dir prefix =
      attempt_rule (Looked v) (looked reliable v)
        (λ e. record { run = λ w (h, n, missing). rw missing (nothing n) })
        (λ info. record {
          run = λ w (h, n, e).
              subst
                (λ u.
                  Prepared p u (move_aside o (found (entry_at p)) dir prefix w).0
                    (move_aside o (found (entry_at p)) dir prefix w).1)
                (sym e) ((move_aside_kept n dir prefix).run w (h ∙ e));
        })

-- `x` is no backup of the entry.
abbrev pub Clear : Str → OldEntry → Type 0
Clear x old = old.backed_up ≡ true → x ≢ old.backup_path

module _ (o : Env) (x : Str) (v : Option Node) where
  abbrev AtClear : Result (Unit {0}) × OldEntry → World → Type 0
  AtClear r w = At x v w × Clear x r.1

  move_aside-At :
      (old : OldEntry) (dir prefix : Str)
      → Apart x v
      → x ≢ old.path
      → Clear x old
      → Triple (At x v) (move_aside o old dir prefix) AtClear
  unfolding move_aside
  move_aside-At old dir prefix apart ne clear =
      attempt_rule (Drawn x v) (create_temp-At o dir prefix x v apart)
        (λ e. return_rule _ (λ w h. (h.0, clear)))
        (λ q. record { run = λ w h. (rest q h.1.0).run w h.0 })
    where
      rest :
          (q : Str)
          → x ≢ q
          → Triple
              (At x v)
              (attempt
                (close o q)
                (λ e. do remove o q; return (err e, old))
                λ _.
                  attempt
                    (remove o q)
                    (λ e. return (err e, old))
                    λ _.
                      attempt
                        (rename o old.path q)
                        (λ e. return (err e, old))
                        λ _. return (ok tt, saved old q))
              AtClear
      rest q nq =
          keep_rule (close-At o x v q)
            (λ e. then_rule (At x v) (remove-At o x v q nq) (return_rule _ (λ w h. (h, clear))))
            λ _.
              keep_rule (remove-At o x v q nq) (λ e. return_rule _ (λ w h. (h, clear)))
                λ _.
                  keep_rule (rename-At o x v old.path q ne nq)
                    (λ e. return_rule _ (λ w h. (h, clear)))
                    (λ _. return_rule _ (λ w h. (h, λ t. nq)))

  -- Another entry stays as it is, and does not become the backup.
  pub prepare_backup-At :
      (p dir prefix : Str)
      → Apart x v
      → x ≢ p
      → Triple (At x v) (prepare_backup o (entry_at p) dir prefix) AtClear
  unfolding prepare_backup
  prepare_backup-At p dir prefix apart ne =
      keep_rule (lstat-At o x v p) (λ e. record { run = λ w h. split (is_not_exist e) e w h })
        (λ info. move_aside-At (found (entry_at p)) dir prefix apart ne none_yet)
    where
      none_yet : Clear x (entry_at p)
      none_yet t = cc

      split :
          (b : Bool) (e : Error) (w : World)
          → At x v w
          → let m : P (Result (Unit {0}) × OldEntry) =
              if b then return (ok tt, entry_at p) else return (err e, entry_at p) in
            AtClear (m w).0 (m w).1
      split true e w h = (h, none_yet)
      split false e w h = (h, none_yet)
