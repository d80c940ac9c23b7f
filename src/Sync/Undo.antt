-- ===== src/Sync/Undo.antt =====
-- `failWithRollback` of internal/sync/sync.go, for the pair: what either entry held survives.
use zoraxy_cert_warden.Base.{
  ◌≡◌, refl, sym, ◌∙◌, ◌≢◌, ◌⊎◌, inl, inr, true, ◌&&◌, Option, none, some, Str,
}
use zoraxy_cert_warden.Failure.{within, wrap, Error, Result, ok, err}
use zoraxy_cert_warden.Host.{FileInfo}
use zoraxy_cert_warden.CertUtil.{Crypto, CertInfo}
use zoraxy_cert_warden.Disk.{Node, Env, World, P, M, fail}
use zoraxy_cert_warden.Disk.Effects.{Holds}
use zoraxy_cert_warden.Disk.Triples.{
  Triple, bind_rule, then_rule, return_rule, keep_rule, if_rule, Temp, At,
}
use zoraxy_cert_warden.Disk.Frames.{sync-At, close-At, open_directory-At, lstat-At, read_file-At}
use zoraxy_cert_warden.Sync.Staging.{read_pair_at, inspect_then, read_contents, check_kinds}
use zoraxy_cert_warden.Sync.Backup.{
  OldEntry, Restored, unchanged, restored, absent, unknown, restore_entry, sync_dir, restore_error,
  is_none, error_of, check_restored, revalidate, fail_with_rollback,
}
use zoraxy_cert_warden.Sync.Restore.{nothing, aside, Clear}
use zoraxy_cert_warden.Sync.Rollback.{Backed, Recovered, restore_entry-At, restore_entry_recovers}

module _ (o : Env) (x : Str) (v : Option Node) where
  pub sync_dir-At : (dir : Str) → Triple (At x v) (sync_dir o dir) (λ r. At x v)
  unfolding sync_dir
  sync_dir-At dir =
      keep_rule (open_directory-At o x v dir) (λ e. return_rule _ (λ w h. h))
        λ _.
          bind_rule (λ r. At x v) (sync-At o x v dir)
            λ r. then_rule (At x v) (close-At o x v dir) (return_rule _ (λ w h. h))

  module _ (k : Crypto) where
    read_contents-At :
        (cp kp : Str) (c i : FileInfo) → Triple (At x v) (read_contents o k cp kp c i) (λ r. At x v)
    unfolding read_contents
    read_contents-At cp kp c i =
        bind_rule (λ r. At x v) (read_file-At o x v cp)
          λ r. bind_rule (λ r. At x v) (read_file-At o x v kp) λ r. return_rule _ (λ w h. h)

    inspect_then-At :
        (cp kp : Str) (r : Result (FileInfo × FileInfo))
        → Triple (At x v) (inspect_then o k cp kp r) (λ r. At x v)
    unfolding inspect_then
    inspect_then-At cp kp (err e) = return_rule _ (λ w h. h)
    inspect_then-At cp kp (ok (c, i)) = go (check_kinds c i)
      where
        go :
            (r : Result (Unit {0}))
            → Triple
                (At x v)
                (let m : M CertInfo = elim r [
                  | err e ↦ fail e
                  | ok _ ↦ read_contents o k cp kp c i
                ] in
                  m)
                (λ r. At x v)
        go (err e) = return_rule _ (λ w h. h)
        go (ok u) = read_contents-At cp kp c i

    pub read_pair_at-At : (cp kp : Str) → Triple (At x v) (read_pair_at o k cp kp) (λ r. At x v)
    unfolding read_pair_at
    read_pair_at-At cp kp =
        bind_rule (λ r. At x v) (lstat-At o x v cp)
          λ c. bind_rule (λ r. At x v) (lstat-At o x v kp) λ i. inspect_then-At cp kp _

    revalidate-At :
        (co ko : OldEntry) (c i : Restored)
        → Triple (At x v) (revalidate o k co ko c i) (λ r. At x v)
    unfolding revalidate check_restored
    revalidate-At co ko c i =
        if_rule (co.existed && ko.existed && is_none (restore_error c) && is_none (restore_error i))
          (bind_rule (λ r. At x v) (read_pair_at-At co.path ko.path)
            (λ r. return_rule (error_of (within (wrap "restored pair validation") r)) (λ w h. h)))
          (return_rule none (λ w h. h))

-- What the entry held is at its path, or in its backup.
abbrev pub Survives : Str → Option Node → OldEntry → World → Type 0
Survives p v old w =
    At p v w ⊎ ((n : Node) → v ≡ some n → (old.backed_up ≡ true) × Holds old.backup_path n w)

-- A run that leaves every entry at `x` alone.
abbrev pub Keeps : {A : Type 0} → Str → P A → Type 0
Keeps x m = (v : Option Node) → Triple (At x v) m (λ r. At x v)

pub Keeps-path :
    {A : Type 0} {m : P A} {x : Str} → Keeps x m → (w : World) → (m w).1.disk x ≡ w.disk x
Keeps-path k w = (k _).run w refl

-- An error, and what both entries held survives.
abbrev pub Undone :
    Str → Str → Option Node → Option Node → OldEntry → OldEntry → Result (Unit {0}) → World → Type 0
Undone cp kp vc vk co ko (ok _) w = ⊥
Undone cp kp vc vk co ko (err e) w = Survives cp vc co w × Survives kp vk ko w

-- The paths and backups of the two entries do not meet.
pub record Separate (cp kp : Str) (co ko : OldEntry) : Type 0 where
  pub cert_not_key : cp ≢ kp
  pub cert_path_named : (q : Str) → Temp q → q ≢ cp
  pub key_path_named : (q : Str) → Temp q → q ≢ kp
  pub cert_clear : Clear cp ko
  pub key_clear : Clear kp co
  pub backups_differ : co.backed_up ≡ true → Clear co.backup_path ko

-- A backup that a step leaves alone stays ready to be brought back.
pub Backed-step :
    {p : Str} {v : Option Node} {old : OldEntry} {w w' : World}
    → w'.disk p ≡ w.disk p
    → (old.backed_up ≡ true → w'.disk old.backup_path ≡ w.disk old.backup_path)
    → Backed p v w old
    → Backed p v w' old
Backed-step path back (inl (nothing e)) = inl (nothing e)
Backed-step path back (inl (aside q n e h t)) = inl (aside q n e (back refl ∙ h) t)
Backed-step path back (inr (e, h)) = inr (e, path ∙ h)

-- What has been recovered survives.
Survives-of_Recovered :
    (p : Str) (v : Option Node) (old : OldEntry) (r : Restored) (w : World)
    → Recovered p v old r w
    → Survives p v old w
Survives-of_Recovered p v old (unknown e) w h = inr h
Survives-of_Recovered p v old unchanged w h = inl h
Survives-of_Recovered p v old restored w h = inl h
Survives-of_Recovered p v old absent w h = inl h

pub Survives-step :
    (p : Str) (v : Option Node) (old : OldEntry) (w w' : World)
    → w'.disk p ≡ w.disk p
    → (old.backed_up ≡ true → w'.disk old.backup_path ≡ w.disk old.backup_path)
    → Survives p v old w
    → Survives p v old w'
Survives-step p v old w w' path back (inl h) = inl (path ∙ h)
Survives-step p v old w w' path back (inr h) = inr (λ n e. ((h n e).0, back (h n e).0 ∙ (h n e).1))

module _ (o : Env) (k : Crypto) (cp kp : Str) (vc vk : Option Node) (co ko : OldEntry)
    (s : Separate cp kp co ko) where
  abbrev BothBacked : World → Type 0
  BothBacked w = Backed cp vc w co × Backed kp vk w ko × (co.path ≡ cp) × (ko.path ≡ kp)

  -- After a rollback the run reports an error, and what each entry held is at its path or in its
  -- backup.
  pub fail_with_rollback_undoes :
      (e : Error) (dir : Str)
      → Triple BothBacked (fail_with_rollback o k e dir co ko) (Undone cp kp vc vk co ko)
  unfolding fail_with_rollback
  fail_with_rollback_undoes e dir =
      bind_rule (λ r w. Survives cp vc co w × Backed kp vk w ko × (ko.path ≡ kp)) cert
        λ r.
          bind_rule (λ i w. Survives cp vc co w × Survives kp vk ko w) key
            λ i.
              bind_rule (λ f w. Survives cp vc co w × Survives kp vk ko w)
                (quiet (λ x v. sync_dir-At o x v dir))
                λ f.
                  bind_rule (λ f w. Survives cp vc co w × Survives kp vk ko w)
                    (quiet (λ x v. revalidate-At o x v k co ko r i)) (λ g. return_rule _ (λ w h. h))
    where
      restored_frame :
          (old : OldEntry) (x : Str) (w : World)
          → x ≢ old.path
          → Clear x old
          → (restore_entry o old w).1.disk x ≡ w.disk x
      restored_frame old x w ne clear = (restore_entry-At o x _ old ne clear).run w refl

      quiet :
          {A : Type 0} {m : P A}
          → ((x : Str) → Keeps x m)
          → Triple
              (λ w. Survives cp vc co w × Survives kp vk ko w)
              m
              (λ f w. Survives cp vc co w × Survives kp vk ko w)
      quiet {m} still = record {
        run = λ w h. (
          Survives-step cp vc co w (m w).1 (Keeps-path (still cp) w)
              (λ b. Keeps-path (still co.backup_path) w) h.0,
          Survives-step kp vk ko w (m w).1 (Keeps-path (still kp) w)
              (λ b. Keeps-path (still ko.backup_path) w) h.1,
        );
      }

      cert :
          Triple BothBacked
            (restore_entry o co)
            (λ r w. Survives cp vc co w × Backed kp vk w ko × (ko.path ≡ kp))
      cert = record {
        run = λ w (c, i, cpath, kpath). (
          Survives-of_Recovered cp vc co (restore_entry o co w).0 (restore_entry o co w).1
              ((restore_entry_recovers o cp vc co s.cert_path_named).run w c),
          Backed-step (restored_frame co kp w (λ e. s.cert_not_key (sym (e ∙ cpath))) s.key_clear)
              (λ b.
                restored_frame co ko.backup_path w (λ e. s.cert_clear b (sym (e ∙ cpath)))
                  (λ c e. s.backups_differ c b (sym e)))
              i,
          kpath,
        );
      }

      key :
          Triple
            (λ w. Survives cp vc co w × Backed kp vk w ko × (ko.path ≡ kp))
            (restore_entry o ko)
            (λ i w. Survives cp vc co w × Survives kp vk ko w)
      key = record {
        run = λ w (c, i, kpath). (
          Survives-step cp vc co w (restore_entry o ko w).1
              (restored_frame ko cp w (λ e. s.cert_not_key (e ∙ kpath)) s.cert_clear)
              (λ b.
                restored_frame ko co.backup_path w (λ e. s.key_clear b (sym (e ∙ kpath)))
                  (s.backups_differ b))
              c,
          Survives-of_Recovered kp vk ko (restore_entry o ko w).0 (restore_entry o ko w).1
              ((restore_entry_recovers o kp vk ko s.key_path_named).run w i),
        );
      }
