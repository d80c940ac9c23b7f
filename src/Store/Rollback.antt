-- ===== src/Store/Rollback.antt =====
-- The rollback of `Save` in internal/config/store.go: the old configuration is back, or its
-- backup is left.
use zoraxy_cert_warden.Base.{
  ◌≡◌, refl, sym, ◌∙◌, ap, ◌≢◌, ◌⊎◌, inl, inr, Bool, true, false, Option, none, some, ◌++◌, Str,
  codes, subst,
}
use zoraxy_cert_warden.Failure.{Error, Result, ok, err, is_not_exist}
use zoraxy_cert_warden.Disk.{Node, Env, World, P, ◌>>◌}
use zoraxy_cert_warden.Disk.Calls.{remove, rename}
use zoraxy_cert_warden.Disk.Effects.{
  Holds, remove_frame, remove_ok, remove_err, remove_missing, rename_ok, rename_err,
}
use zoraxy_cert_warden.Disk.Triples.{
  Triple, attempt_rule, bind_rule, then_rule, tolerate_rule, return_rule, keep_rule, weaken, At,
}
use zoraxy_cert_warden.Disk.Frames.{sync-At, close-At, open_directory-At, remove-At}
use zoraxy_cert_warden.Sync.Undo.{Keeps, Keeps-path}
use zoraxy_cert_warden.Store.{
  flush_directory, settle, rollback, leave, after_rollback, fail_save, backup_of,
}

pub flush_directory-Keeps : (o : Env) (x directory : Str) → Keeps x (flush_directory o directory)
unfolding flush_directory
flush_directory-Keeps o x directory v =
    keep_rule (open_directory-At o x v directory) (λ e. return_rule _ (λ w h. h))
      λ _.
        keep_rule (sync-At o x v directory)
          (λ e. then_rule (At x v) (close-At o x v directory) (return_rule _ (λ w h. h)))
          (λ _. close-At o x v directory)

settle-Keeps : (o : Env) (x directory : Str) → Keeps x (settle o directory)
unfolding settle
settle-Keeps o x directory v =
    keep_rule (flush_directory-Keeps o x directory v) (λ e. return_rule _ (λ w h. h))
      (λ _. return_rule _ (λ w h. h))

-- Names that backups of the configuration bear.
abbrev pub BackupName : Str → Type 0
BackupName q = (stem : Str) × (q ≡ stem ++ codes ".backup")

-- What the path held is in a backup, if it held anything.
abbrev pub BackedUp : Option Node → World → Type 0
BackedUp none w = Unit {0}
BackedUp (some n) w = (q : Str) × BackupName q × Holds q n w

-- What `Save` promises of the path: a success has put the new contents there; after an error it
-- is as it was, or it has the new contents and what it held is in a backup.
abbrev pub SaveOutcome : Str → Option Node → Node → Result (Unit {0}) → World → Type 0
SaveOutcome path v new (ok _) w = Holds path new w
SaveOutcome path v new (err e) w = At path v w ⊎ (Holds path new w × BackedUp v w)

module _ (o : Env) (path directory tmp : Str) (new : Node)
    (path_not_backup : path ≢ backup_of tmp) where
  -- The new contents are in place, and the old ones in the backup if there were any.
  abbrev pub Replaced : Option Node → Bool → World → Type 0
  Replaced (some n) true w = Holds path new w × Holds (backup_of tmp) n w
  Replaced none false w = Holds path new w
  Replaced _ _ w = ⊥

  pub Replaced-keeps :
      {A : Type 0} {m : P A} (v : Option Node) (had : Bool)
      → ((x : Str) → Keeps x m)
      → Triple (Replaced v had) m (λ r. Replaced v had)
  Replaced-keeps (some n) true still = record {
    run = λ w h. (Keeps-path (still path) w ∙ h.0, Keeps-path (still (backup_of tmp)) w ∙ h.1);
  }
  Replaced-keeps none false still = record { run = λ w h. Keeps-path (still path) w ∙ h }
  Replaced-keeps (some n) false still = record { run = λ w h. absurd h }
  Replaced-keeps none true still = record { run = λ w h. absurd h }

  abbrev RolledBack : Option Node → Option Error × Bool → World → Type 0
  RolledBack v (none, b) w = At path v w
  RolledBack v (some e, true) w = Holds path new w × BackedUp v w
  RolledBack v (some e, false) w = At path v w ⊎ (Holds path new w × (v ≡ none))

  settled : (v : Option Node) → Triple (At path v) (settle o directory) (RolledBack v)
  unfolding settle
  settled v =
      keep_rule (flush_directory-Keeps o path directory v) (λ e. return_rule _ (λ w h. inl h))
        (λ _. return_rule _ (λ w h. h))

  -- The rename of the backup to the path.
  abbrev Renamed : Node → Result (Unit {0}) → World → Type 0
  Renamed n (ok _) w = At path (some n) w
  Renamed n (err e) w = Holds path new w × Holds (backup_of tmp) n w

  bring_back :
      (n : Node) → Triple (Replaced (some n) true) (rename o (backup_of tmp) path) (Renamed n)
  bring_back n = record { run = λ w h. go w h (rename o (backup_of tmp) path w).0 refl }
    where
      go :
          (w : World)
          → Replaced (some n) true w
          → (r : Result (Unit {0})) → (rename o (backup_of tmp) path w).0 ≡ r
          → Renamed n r (rename o (backup_of tmp) path w).1
      go w h (ok u) e = rename_ok o (backup_of tmp) path n w e h.1
      go w h (err f) e =
          let same = rename_err o (backup_of tmp) path w e in
          (ap (λ d. d path) same ∙ h.0, ap (λ d. d (backup_of tmp)) same ∙ h.1)

  -- The removal of the new file where there was none.
  abbrev Removed : Result (Unit {0}) → World → Type 0
  Removed (ok _) w = At path none w
  Removed (err e) w = (is_not_exist e ≡ true → At path none w) × Holds path new w ⊎ At path none w

  removed : Triple (Holds path new) (remove o path) Removed
  removed = record { run = λ w h. go w h (remove o path w).0 refl }
    where
      go :
          (w : World)
          → Holds path new w
          → (r : Result (Unit {0})) → (remove o path w).0 ≡ r
          → Removed r (remove o path w).1
      go w h (ok u) e = remove_ok o path w e
      go w h (err f) e =
          inl (remove_missing o path w e, ap (λ d. d path) (remove_err o path w e) ∙ h)

  rolls_back :
      (v : Option Node) (had : Bool)
      → Triple (Replaced v had) (rollback o path (backup_of tmp) directory had) (RolledBack v)
  unfolding rollback
  rolls_back (some n) true =
      attempt_rule (Renamed n) (bring_back n)
        (λ e. return_rule _ (λ w h. (h.0, (backup_of tmp, (tmp, refl), h.1))))
        (λ _. settled (some n))
  rolls_back none false =
      tolerate_rule Removed (At path none) removed (λ w h. h) missing (settled none)
        (λ e. return_rule _ (λ w h. failed e w h))
    where
      missing : (e : Error) (w : World) → is_not_exist e ≡ true → Removed (err e) w → At path none w
      missing e w gone (inl h) = h.0 gone
      missing e w gone (inr h) = h

      failed :
          (e : Error) (w : World)
          → Removed (err e) w
          → At path none w ⊎ (Holds path new w × (◌≡◌ {A = Option Node} none none))
      failed e w (inl h) = inr (h.1, refl)
      failed e w (inr h) = inl h
  rolls_back (some n) false = record { run = λ w h. absurd h }
  rolls_back none true = record { run = λ w h. absurd h }

  pub leaves_err :
      (v : Option Node) (e : Error)
      → Triple
          (λ w. At path v w ⊎ (Holds path new w × (v ≡ none)))
          (leave o (backup_of tmp) (err e))
          (SaveOutcome path v new)
  unfolding leave ◌>>◌
  leaves_err v e = record { run = go }
    where
      go :
          (w : World)
          → At path v w ⊎ (Holds path new w × (v ≡ none))
          → SaveOutcome path v new (err e) (remove o (backup_of tmp) w).1
      go w (inl h) = inl (remove_frame o (backup_of tmp) path w path_not_backup ∙ h)
      go w (inr (h, same)) = inr (
        remove_frame o (backup_of tmp) path w path_not_backup ∙ h,
        subst (λ u. BackedUp u (remove o (backup_of tmp) w).1) (sym same) tt,
      )

  pub leaves_ok :
      (v : Option Node)
      → Triple (Holds path new) (leave o (backup_of tmp) (ok tt)) (SaveOutcome path v new)
  unfolding leave
  leaves_ok v =
      then_rule (Holds path new) (remove-At o path (some new) (backup_of tmp) path_not_backup)
        (return_rule _ (λ w h. h))

  pub fail_save_settles :
      (v : Option Node) (had : Bool) (e : Error)
      → Triple (Replaced v had) (fail_save o path directory tmp had e) (SaveOutcome path v new)
  unfolding fail_save after_rollback
  fail_save_settles v had e = bind_rule (RolledBack v) (rolls_back v had) after
    where
      after :
          (r : Option Error × Bool)
          → Triple (RolledBack v r) (after_rollback o (backup_of tmp) e r) (SaveOutcome path v new)
      after (none, b) = weaken (λ w h. inl h) (leaves_err v e) (λ a w h. h)
      after (some f, true) = return_rule _ (λ w h. inr h)
      after (some f, false) = leaves_err v _
