-- ===== src/Sync/Install.antt =====
-- The publication of the staged pair in `replacePair` of internal/sync/sync.go: it is installed,
-- or what was there survives.
use zoraxy_cert_warden.Base.{
  ◌≡◌, refl, sym, ◌∙◌, ◌≢◌, ◌⊎◌, inl, inr, Bool, true, false, [], Option, some, Str, arith, subst,
  ◌==◌, str_eq,
}
use zoraxy_cert_warden.Failure.{Error, Result, ok, err}
use zoraxy_cert_warden.CertUtil.{Crypto}
use zoraxy_cert_warden.Disk.{Node, file, Env, World, P}
use zoraxy_cert_warden.Disk.Calls.{rename}
use zoraxy_cert_warden.Disk.Effects.{Holds, rename_ok, rename_frame}
use zoraxy_cert_warden.Disk.Triples.{
  Triple, attempt_rule, bind_rule, return_rule, keep_rule, tolerate_keep_rule, weaken, Temp, At,
}
use zoraxy_cert_warden.Disk.Frames.{remove-At}
use zoraxy_cert_warden.Sync.Staging.{public_cert_file_mode, private_key_file_mode}
use zoraxy_cert_warden.Sync.Backup.{OldEntry, fail_with_rollback}
use zoraxy_cert_warden.Sync.Restore.{Moved, nothing, aside, Clear}
use zoraxy_cert_warden.Sync.Undo.{
  Separate, Survives, Undone, Keeps, Keeps-path, sync_dir-At, read_pair_at-At,
  fail_with_rollback_undoes,
}
use zoraxy_cert_warden.Sync.Replace.{Job, remove_backup, finish, confirm, publish}

-- `x` is not the backup that the entry has, if it has one.
abbrev pub Off : Str → OldEntry → Type 0
Off x old = old.backup_path ≢ [] → x ≢ old.backup_path

pub differs_of_test : (a b : Str) → (a == b) ≡ false → a ≢ b
differs_of_test a b e same = ground arith

module _ (o : Env) (x : Str) (v : Option Node) where
  remove_backup-At :
      (old : OldEntry) → Off x old → Triple (At x v) (remove_backup o old) (λ r. At x v)
  unfolding remove_backup
  remove_backup-At old off = go (old.backup_path == []) refl
    where
      go :
          (b : Bool)
          → (old.backup_path == []) ≡ b
          → Triple (At x v) (remove_backup o old) (λ r. At x v)
      go true e = rw (e, remove_backup) (return_rule (ok tt) (λ w h. h))
      go false e =
          rw (e, remove_backup)
            (tolerate_keep_rule
              (remove-At o x v old.backup_path (off (differs_of_test old.backup_path [] e)))
              (return_rule (ok tt) (λ w h. h)) (λ f. return_rule _ (λ w h. h)))

  finish-At :
      (dir : Str) (co ko : OldEntry)
      → Off x co
      → Off x ko
      → Triple (At x v) (finish o dir co ko) (λ r. At x v)
  unfolding finish
  finish-At dir co ko oc ok' =
      keep_rule (remove_backup-At co oc) (λ e. return_rule _ (λ w h. h))
        λ _.
          keep_rule (remove_backup-At ko ok') (λ e. return_rule _ (λ w h. h))
            λ _. bind_rule (λ r. At x v) (sync_dir-At o x v dir) λ r. return_rule _ (λ w h. h)

-- The staged files are no backups, and have names of their own.
pub record Staged (ct kt : Str) (co ko : OldEntry) : Type 0 where
  pub cert_temp : Temp ct
  pub key_temp : Temp kt
  pub tmp_differ : kt ≢ ct
  pub cert_clear_cert : Clear ct co
  pub cert_clear_key : Clear ct ko
  pub key_clear_cert : Clear kt co
  pub key_clear_key : Clear kt ko

pub Moved-step :
    {p : Str} {v : Option Node} {old : OldEntry} {w w' : World}
    → (old.backed_up ≡ true
        → Temp old.backup_path
        → w'.disk old.backup_path ≡ w.disk old.backup_path)
    → Moved p v w old
    → Moved p v w' old
Moved-step f (nothing e) = nothing e
Moved-step f (aside q n e h t) = aside q n e (f refl t ∙ h) t

pub Moved-path :
    {p : Str} {v : Option Node} {old : OldEntry} {w : World} → Moved p v w old → old.path ≡ p
Moved-path (nothing e) = refl
Moved-path (aside q n e h t) = refl

module _ (o : Env) (k : Crypto) (j : Job) (cp kp ct kt : Str) (vc vk : Option Node)
    (co ko : OldEntry) (s : Separate cp kp co ko) (g : Staged ct kt co ko)
    (cert_off_cert : Off cp co) (cert_off_key : Off cp ko) (key_off_cert : Off kp co)
    (key_off_key : Off kp ko) where
  abbrev new_cert : Node
  new_cert = file j.cert_pem public_cert_file_mode

  abbrev new_key : Node
  new_key = file j.key_pem private_key_file_mode

  abbrev Installed : World → Type 0
  Installed w = Holds cp new_cert w × Holds kp new_key w

  abbrev BothMoved : World → Type 0
  BothMoved w = Moved cp vc w co × Moved kp vk w ko

  -- A success has installed the pair. After an error it is installed, or what was there survives.
  abbrev pub Outcome : Result (Unit {0}) → World → Type 0
  Outcome (ok _) w = Installed w
  Outcome (err e) w = Installed w ⊎ (Survives cp vc co w × Survives kp vk ko w)

  undo : (e : Error) → Triple BothMoved (fail_with_rollback o k e j.dir co ko) Outcome
  undo e =
      weaken (λ w (c, i). (inl c, inl i, Moved-path c, Moved-path i))
        (fail_with_rollback_undoes o k cp kp vc vk co ko s e j.dir) settle
    where
      settle : (r : Result (Unit {0})) (w : World) → Undone cp kp vc vk co ko r w → Outcome r w
      settle (ok u) w h = absurd h
      settle (err f) w h = inr h

  finish-Installed : Triple Installed (finish o j.dir co ko) Outcome
  finish-Installed = record {
    run = λ w h. settle (finish o j.dir co ko w).0 (finish o j.dir co ko w).1 (
      (finish-At o cp (some new_cert) j.dir co ko cert_off_cert cert_off_key).run w h.0,
      (finish-At o kp (some new_key) j.dir co ko key_off_cert key_off_key).run w h.1,
    );
  }
    where
      settle : (r : Result (Unit {0})) (w : World) → Installed w → Outcome r w
      settle (ok u) w h = h
      settle (err f) w h = inl h

  abbrev Published : World → Type 0
  Published w = BothMoved w × Installed w

  quiet : {A : Type 0} {m : P A} → ((x : Str) → Keeps x m) → Triple Published m (λ r. Published)
  quiet {m} still = record {
    run = λ w ((c, i), h). (
      (
        Moved-step (λ b t. Keeps-path (still co.backup_path) w) c,
        Moved-step (λ b t. Keeps-path (still ko.backup_path) w) i,
      ),
      ((still cp _).run w h.0, (still kp _).run w h.1),
    );
  }

  confirm_settles : Triple Published (confirm o k j co ko) Outcome
  unfolding confirm
  confirm_settles =
      bind_rule (λ r. Published) (quiet (λ x v. read_pair_at-At o x v k co.path ko.path))
        λ r.
          attempt_rule (λ r. Published) (return_rule _ (λ w h. h))
            (λ e. weaken (λ w h. h.0) (undo _) (λ a w h. h))
            λ _.
              attempt_rule (λ r. Published) (quiet (λ x v. sync_dir-At o x v j.dir))
                (λ e. weaken (λ w h. h.0) (undo _) (λ a w h. h))
                (λ _. weaken (λ w h. h.1) finish-Installed (λ a w h. h))

  -- A rename of a staged file to a path leaves both backups alone.
  moved_rename :
      (p q : Str) (w : World)
      → Clear p co
      → Clear p ko
      → ((x : Str) → Temp x → x ≢ q)
      → BothMoved w
      → BothMoved (rename o p q w).1
  moved_rename p q w cc ck named (c, i) = (
    Moved-step (λ b t. rename_frame o p q co.backup_path w (λ e. cc b (sym e)) (named _ t)) c,
    Moved-step (λ b t. rename_frame o p q ko.backup_path w (λ e. ck b (sym e)) (named _ t)) i,
  )

  abbrev Renamed : Str → Node → Str → Node → Result (Unit {0}) → World → Type 0
  Renamed q n x m (ok _) w = BothMoved w × Holds q n w × Holds x m w
  Renamed q n x m (err e) w = BothMoved w

  rename_step :
      (p q : Str) (n : Node) (x : Str) (m : Node)
      → Clear p co
      → Clear p ko
      → ((y : Str) → Temp y → y ≢ q)
      → x ≢ p
      → x ≢ q
      → Triple (λ w. BothMoved w × Holds p n w × Holds x m w) (rename o p q) (Renamed q n x m)
  rename_step p q n x m cc ck named xp xq = record {
    run = λ w (b, h, other). go w b h other (rename o p q w).0 refl;
  }
    where
      go :
          (w : World)
          → BothMoved w
          → Holds p n w
          → Holds x m w
          → (r : Result (Unit {0})) → (rename o p q w).0 ≡ r
          → Renamed q n x m r (rename o p q w).1
      go w b h other (err f) e = moved_rename p q w cc ck named b
      go w b h other (ok u) e = (
        moved_rename p q w cc ck named b,
        rename_ok o p q n w e h,
        rename_frame o p q x w xp xq ∙ other,
      )

  -- Publication of the staged files: they are installed, or what was there survives.
  pub publish_settles :
      co.path ≡ cp
      → ko.path ≡ kp
      → Triple
          (λ w. BothMoved w × Holds ct new_cert w × Holds kt new_key w)
          (publish o k j ct kt co ko)
          Outcome
  unfolding publish
  publish_settles pc pk =
      attempt_rule (Renamed cp new_cert kt new_key) first (λ e. undo _)
        λ _.
          attempt_rule (Renamed kp new_key cp new_cert) second (λ e. undo _)
            λ _. weaken (λ w h. (h.0, (h.2, h.1))) confirm_settles (λ r w h. h)
    where
      first :
          Triple
            (λ w. BothMoved w × Holds ct new_cert w × Holds kt new_key w)
            (rename o ct co.path)
            (Renamed cp new_cert kt new_key)
      first =
          subst
            (λ y.
              Triple (λ w. BothMoved w × Holds ct new_cert w × Holds kt new_key w) (rename o ct y)
                (Renamed cp new_cert kt new_key))
            (sym pc)
            (rename_step ct cp new_cert kt new_key g.cert_clear_cert g.cert_clear_key
              s.cert_path_named g.tmp_differ (s.cert_path_named kt g.key_temp))

      second :
          Triple
            (λ w. BothMoved w × Holds cp new_cert w × Holds kt new_key w)
            (rename o kt ko.path)
            (Renamed kp new_key cp new_cert)
      second =
          subst
            (λ y.
              Triple (λ w. BothMoved w × Holds cp new_cert w × Holds kt new_key w) (rename o kt y)
                (Renamed kp new_key cp new_cert))
            (sym pk)
            (weaken (λ w h. (h.0, h.2, h.1))
              (rename_step kt kp new_key cp new_cert g.key_clear_cert g.key_clear_key
                s.key_path_named (λ e. s.cert_path_named kt g.key_temp (sym e)) s.cert_not_key)
              (λ r w h. h))
