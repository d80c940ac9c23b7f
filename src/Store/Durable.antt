-- ===== src/Store/Durable.antt =====
-- `Save` of internal/config/store.go: a success has put the new configuration in place, and an
-- error has not lost the old one.

use zoraxy_cert_warden.Base.{
  ◌≡◌, refl, sym, ◌∙◌, ap, ◌≢◌, inl, Bool, true, false, Option, none, some, Str, arith, nat_eq,
}
use zoraxy_cert_warden.Failure.{Result, ok, err}
use zoraxy_cert_warden.Disk.{Node, file, Env, World}
use zoraxy_cert_warden.Disk.Calls.{stat, remove, rename, link, info_behind}
use zoraxy_cert_warden.Disk.Effects.{
  Holds, remove_frame, remove_err, rename_ok, rename_err, rename_frame,
}
use zoraxy_cert_warden.Disk.Triples.{Triple, attempt_rule, weaken, At}
use zoraxy_cert_warden.Sync.Undo.{Keeps}
use zoraxy_cert_warden.Store.{backup_of, drop_backup, replace}
use zoraxy_cert_warden.Store.Rollback.{
  flush_directory-Keeps, SaveOutcome, Replaced, Replaced-keeps, leaves_err, leaves_ok,
  fail_save_settles,
}

module _ (o : Env) where
  pub link_frame : (p q x : Str) (w : World) → x ≢ q → (link o p q w).1.disk x ≡ w.disk x
  unfolding link
  link_frame p q x w ne = ground arith

  pub link_ok :
      (p q : Str) (n : Node) (w : World)
      → (link o p q w).0 ≡ ok tt
      → Holds p n w
      → Holds q n (link o p q w).1
  unfolding link
  link_ok p q n w r h = ground arith

  pub stat-Keeps : (x p : Str) → Keeps x (stat o p)
  unfolding stat info_behind
  stat-Keeps x p v = record { run = λ w h. ground arith }

-- The path names a file or nothing.
abbrev pub IsPlain : Option Node → Type 0
IsPlain none = Unit {0}
IsPlain (some (file bytes mode)) = Unit {0}
IsPlain _ = ⊥

module _ (o : Env) (path directory tmp : Str) (new : Node) (path_not_tmp : path ≢ tmp)
    (path_not_backup : path ≢ backup_of tmp) (tmp_not_backup : tmp ≢ backup_of tmp) where
  -- The new contents wait in the temporary file, and the old ones are in the backup too.
  abbrev pub Waiting : Option Node → Bool → World → Type 0
  Waiting (some n) true w = Holds path n w × Holds (backup_of tmp) n w × Holds tmp new w
  Waiting none false w = At path none w × Holds tmp new w
  Waiting _ _ w = ⊥

  abbrev Published : Option Node → Bool → Result (Unit {0}) → World → Type 0
  Published v had (ok _) w = Replaced o path directory tmp new path_not_backup v had w
  Published v had (err e) w = At path v w

  published :
      (v : Option Node) (had : Bool) → Triple (Waiting v had) (rename o tmp path) (Published v had)
  published (some n) true = record { run = λ w h. go w h (rename o tmp path w).0 refl }
    where
      go :
          (w : World)
          → Waiting (some n) true w
          → (r : Result (Unit {0})) → (rename o tmp path w).0 ≡ r
          → Published (some n) true r (rename o tmp path w).1
      go w (h, b, t) (ok u) e = (
        rename_ok o tmp path new w e t,
        rename_frame o tmp path (backup_of tmp) w (λ q. tmp_not_backup (sym q))
              (λ q. path_not_backup (sym q))
            ∙ b,
      )
      go w (h, b, t) (err f) e = ap (λ d. d path) (rename_err o tmp path w e) ∙ h
  published none false = record { run = λ w h. go w h (rename o tmp path w).0 refl }
    where
      go :
          (w : World)
          → Waiting none false w
          → (r : Result (Unit {0})) → (rename o tmp path w).0 ≡ r
          → Published none false r (rename o tmp path w).1
      go w (h, t) (ok u) e = rename_ok o tmp path new w e t
      go w (h, t) (err f) e = ap (λ d. d path) (rename_err o tmp path w e) ∙ h
  published (some n) false = record { run = λ w h. absurd h }
  published none true = record { run = λ w h. absurd h }

  abbrev Dropped : Node → Result (Unit {0}) → World → Type 0
  Dropped n (ok _) w = Holds path new w
  Dropped n (err e) w = Replaced o path directory tmp new path_not_backup (some n) true w

  dropped :
      (n : Node)
      → Triple
          (Replaced o path directory tmp new path_not_backup (some n) true)
          (remove o (backup_of tmp))
          (Dropped n)
  dropped n = record { run = λ w h. go w h (remove o (backup_of tmp) w).0 refl }
    where
      go :
          (w : World)
          → Replaced o path directory tmp new path_not_backup (some n) true w
          → (r : Result (Unit {0})) → (remove o (backup_of tmp) w).0 ≡ r
          → Dropped n r (remove o (backup_of tmp) w).1
      go w h (ok u) e = remove_frame o (backup_of tmp) path w path_not_backup ∙ h.0
      go w h (err f) e =
          let same = remove_err o (backup_of tmp) w e in
          (ap (λ d. d path) same ∙ h.0, ap (λ d. d (backup_of tmp)) same ∙ h.1)

  drop_backup_settles :
      (v : Option Node) (had : Bool)
      → Triple
          (Replaced o path directory tmp new path_not_backup v had)
          (drop_backup o path directory tmp had)
          (SaveOutcome path v new)
  unfolding drop_backup
  drop_backup_settles (some n) true =
      attempt_rule (Dropped n) (dropped n)
        (λ e. fail_save_settles o path directory tmp new path_not_backup (some n) true _)
        (λ _. leaves_ok o path directory tmp new path_not_backup (some n))
  drop_backup_settles none false = leaves_ok o path directory tmp new path_not_backup none
  drop_backup_settles (some n) false = record { run = λ w h. absurd h }
  drop_backup_settles none true = record { run = λ w h. absurd h }

  pub replace_settles :
      (v : Option Node) (had : Bool)
      → Triple (Waiting v had) (replace o path directory tmp had) (SaveOutcome path v new)
  unfolding replace
  replace_settles v had =
      attempt_rule (Published v had) (published v had)
        (λ e.
          weaken (λ w h. inl h) (leaves_err o path directory tmp new path_not_backup v _)
            (λ a w h. h))
        λ _.
          attempt_rule (λ r. Replaced o path directory tmp new path_not_backup v had)
            (Replaced-keeps o path directory tmp new path_not_backup v had
              (λ x. flush_directory-Keeps o x directory))
            (λ e. fail_save_settles o path directory tmp new path_not_backup v had _)
            (λ _. drop_backup_settles v had)
