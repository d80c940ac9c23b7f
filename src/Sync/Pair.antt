-- ===== src/Sync/Pair.antt =====
-- `replacePair` of internal/sync/sync.go from the staging on: the new pair is installed, or what
-- the two paths held is still on the disk.
use zoraxy_cert_warden.Base.{
  ◌≡◌, refl, sym, ◌∙◌, ◌≢◌, ◌⊎◌, inl, inr, true, Option, none, some, Str, codes, subst,
}
use zoraxy_cert_warden.Failure.{Error, Result, ok, err, wrap}
use zoraxy_cert_warden.CertUtil.{Crypto}
use zoraxy_cert_warden.Disk.{Node, file, Env, World, P, M, return, fail, attempt, ◌>>◌, ◌>>=◌}
use zoraxy_cert_warden.Disk.Calls.{remove}
use zoraxy_cert_warden.Disk.Effects.{Holds, remove_frame}
use zoraxy_cert_warden.Disk.Triples.{
  Triple, OnOk, attempt_rule, return_rule, weaken, Temp, At, Apart,
}
use zoraxy_cert_warden.Sync.Staging.{
  public_cert_file_mode, private_key_file_mode, dot_name, write_temp_file,
}
use zoraxy_cert_warden.Sync.Written.{write_temp_file-At, write_temp_file_ok}
use zoraxy_cert_warden.Sync.Backup.{OldEntry, entry_at, found, prepare_backup}
use zoraxy_cert_warden.Sync.Restore.{
  Moved, nothing, aside, Prepared, LstatReliable, Clear, prepare_backup_kept, prepare_backup-At,
}
use zoraxy_cert_warden.Sync.Undo.{Separate, Survives, Undone, fail_with_rollback_undoes}
use zoraxy_cert_warden.Sync.Install.{Off, Staged, Moved-path, Outcome, publish_settles}
use zoraxy_cert_warden.Sync.Replace.{
  Job, cert_path, key_path, back_up_key, back_up_cert, install, stage_and_install,
}

abbrev pub cert_file : Job → Node
cert_file j = file j.cert_pem public_cert_file_mode

abbrev pub key_file : Job → Node
key_file j = file j.key_pem private_key_file_mode

-- What the path named, if anything, is at the path or under a temporary name other than two.
abbrev Kept : Str → Str → Str → Option Node → World → Type 0
Kept ct kt p v w =
    (n : Node) → v ≡ some n → Holds p n w ⊎ ((q : Str) × Temp q × (q ≢ ct) × (q ≢ kt) × Holds q n w)

-- What the path named, if anything, is at the path or under a temporary name.
abbrev pub Safe : Str → Option Node → World → Type 0
Safe p none w = Unit {0}
Safe p (some n) w = Holds p n w ⊎ ((q : Str) × Temp q × Holds q n w)

pub Safe-of_parts :
    (p : Str) (v : Option Node) (w : World)
    → ((n : Node) → v ≡ some n → Holds p n w ⊎ ((q : Str) × Temp q × Holds q n w))
    → Safe p v w
Safe-of_parts p none w f = tt
Safe-of_parts p (some n) w f = f n refl

-- Success means that both new files are in place. After an error both are in place, or what
-- the two paths held is safe.
abbrev pub PairOutcome : Job → Option Node → Option Node → Result (Unit {0}) → World → Type 0
PairOutcome j vc vk (ok _) w =
    Holds (cert_path j.dir j.name) (cert_file j) w × Holds (key_path j.dir j.name) (key_file j) w
PairOutcome j vc vk (err e) w =
    (Holds (cert_path j.dir j.name) (cert_file j) w × Holds (key_path j.dir j.name) (key_file j) w)
    ⊎ (Safe (cert_path j.dir j.name) vc w × Safe (key_path j.dir j.name) vk w)

Off-of_Moved :
    {p x : Str} {v : Option Node} {w : World} {old : OldEntry}
    → Moved p v w old
    → ((q : Str) → Temp q → q ≢ x)
    → Off x old
Off-of_Moved (nothing e) named filled = absurd (filled refl)
Off-of_Moved (aside q n e h t) named filled = λ e. named q t (sym e)

-- A backup that exists bears a temporary name.
abbrev TempBackup : OldEntry → Type 0
TempBackup old = old.backed_up ≡ true → Temp old.backup_path

Moved-TempBackup :
    {p : Str} {v : Option Node} {w : World} {old : OldEntry} → Moved p v w old → TempBackup old
Moved-TempBackup (nothing e) b = cc
Moved-TempBackup (aside q n e h t) b = t

Kept-of_Survives :
    {ct kt p : Str} {v : Option Node} (old : OldEntry) (w : World)
    → TempBackup old
    → Clear ct old
    → Clear kt old
    → Survives p v old w
    → Kept ct kt p v w
Kept-of_Survives old w t c i (inl h) n e = inl (h ∙ e)
Kept-of_Survives old w t c i (inr f) n e =
    let (b, h) = f n e in inr (old.backup_path, t b, (λ q. c b (sym q)), (λ q. i b (sym q)), h)

Kept-of_At : {ct kt p : Str} {v : Option Node} (w : World) → At p v w → Kept ct kt p v w
Kept-of_At w h n e = inl (h ∙ e)

module _ (o : Env) (reliable : LstatReliable o) (k : Crypto) (j : Job) (vc vk : Option Node) where
  abbrev cp : Str
  cp = cert_path j.dir j.name

  abbrev kp : Str
  kp = key_path j.dir j.name

  module _ (differ : cp ≢ kp) (cert_named : (q : Str) → Temp q → q ≢ cp)
      (key_named : (q : Str) → Temp q → q ≢ kp) where
    cert-Apart : Apart cp vc
    cert-Apart = inr (λ q t e. cert_named q t (sym e))

    key-Apart : Apart kp vk
    key-Apart = inr (λ q t e. key_named q t (sym e))

    abbrev Installed : World → Type 0
    Installed w = Holds cp (cert_file j) w × Holds kp (key_file j) w

    module _ (ct kt : Str) (ct_temp : Temp ct) (kt_temp : Temp kt) (tmp_differ : kt ≢ ct) where
      abbrev Final : Result (Unit {0}) → World → Type 0
      Final (ok _) w = Installed w
      Final (err e) w = Installed w ⊎ (Kept ct kt cp vc w × Kept ct kt kp vk w)

      -- The staged files.
      abbrev Ready : World → Type 0
      Ready w = Holds ct (cert_file j) w × Holds kt (key_file j) w

      -- The backup is none of the paths in use.
      record Free (x : Str) (old : OldEntry) : Type 0 where
        other : Clear x old
        cert_tmp : Clear ct old
        key_tmp : Clear kt old

      -- What the two backups have to do with each other and with the staged files.
      abbrev Meet : OldEntry → OldEntry → Type 0
      Meet co ko = Free kp co × Free cp ko × (co.backed_up ≡ true → Clear co.backup_path ko)

      separate : (co ko : OldEntry) → Meet co ko → Separate cp kp co ko
      separate co ko (fc, fi, d) = record {
        cert_not_key = differ;
        cert_path_named = cert_named;
        key_path_named = key_named;
        cert_clear = fi.other;
        key_clear = fc.other;
        backups_differ = d;
      }

      staged : (co ko : OldEntry) → Meet co ko → Staged ct kt co ko
      staged co ko (fc, fi, d) = record {
        cert_temp = ct_temp;
        key_temp = kt_temp;
        tmp_differ = tmp_differ;
        cert_clear_cert = fc.cert_tmp;
        cert_clear_key = fi.cert_tmp;
        key_clear_cert = fc.key_tmp;
        key_clear_key = fi.key_tmp;
      }

      -- Both entries survive, so what they held is kept.
      kept :
          (co ko : OldEntry) (w : World)
          → Meet co ko
          → TempBackup co
          → TempBackup ko
          → Survives cp vc co w × Survives kp vk ko w
          → Kept ct kt cp vc w × Kept ct kt kp vk w
      kept co ko w (fc, fi, d) tc tk (sc, sk) = (
        Kept-of_Survives co w tc fc.cert_tmp fc.key_tmp sc,
        Kept-of_Survives ko w tk fi.cert_tmp fi.key_tmp sk,
      )

      publish-Final :
          (co ko : OldEntry) (w : World)
          → Meet co ko
          → Moved cp vc w co
          → Moved kp vk w ko
          → Ready w
          → Final
              (back_up_key o k j ct kt co (ok tt, ko) w).0
              (back_up_key o k j ct kt co (ok tt, ko) w).1
      unfolding back_up_key
      publish-Final co ko w m c i ready = settle _ _ (
          (publish_settles o k j cp kp ct kt vc vk co ko (separate co ko m) (staged co ko m)
              (Off-of_Moved c cert_named) (Off-of_Moved i cert_named) (Off-of_Moved c key_named)
              (Off-of_Moved i key_named) (Moved-path c) (Moved-path i)).run
            w ((c, i), ready.0, ready.1))
        where
          settle :
              (r : Result (Unit {0})) (w' : World)
              → Outcome o k j cp kp ct kt vc vk co ko
                  (separate co ko m)
                  (staged co ko m)
                  (Off-of_Moved c cert_named)
                  (Off-of_Moved i cert_named)
                  (Off-of_Moved c key_named)
                  (Off-of_Moved i key_named)
                  r
                  w'
              → Final r w'
          settle (ok u) w' h = h
          settle (err e) w' (inl h) = inl h
          settle (err e) w' (inr h) =
              inr (kept co ko w' m (Moved-TempBackup c) (Moved-TempBackup i) h)

      undo-Final :
          (co : OldEntry) (e : Error) (w : World)
          → Meet co (found (entry_at kp))
          → Moved cp vc w co
          → At kp vk w
          → Final
              (back_up_key o k j ct kt co (err e, found (entry_at kp)) w).0
              (back_up_key o k j ct kt co (err e, found (entry_at kp)) w).1
      unfolding back_up_key
      undo-Final co e w m c h = settle _ _ (
          (fail_with_rollback_undoes o k cp kp vc vk co (found (entry_at kp))
              (separate co (found (entry_at kp)) m) (wrap "prepare private key backup" e) j.dir).run
            w (inl c, inr (refl, h), Moved-path c, refl))
        where
          settle :
              (r : Result (Unit {0})) (w' : World)
              → Undone cp kp vc vk co (found (entry_at kp)) r w'
              → Final r w'
          settle (ok u) w' h = absurd h
          settle (err e) w' h =
              inr (kept co (found (entry_at kp)) w' m (Moved-TempBackup c) (λ b. cc) h)

      -- The backup of the key leaves what it does not move, and takes a name of its own.
      abbrev key_backup : P (Result (Unit {0}) × OldEntry)
      key_backup = prepare_backup o (entry_at kp) j.dir (dot_name j.name (codes "-key-backup-"))

      Moved-stays :
          (co : OldEntry) (w : World)
          → Moved cp vc w co
          → Moved cp vc (key_backup w).1 co
            × (co.backed_up ≡ true → Clear co.backup_path (key_backup w).0.1)
      Moved-stays co w (nothing e) = (nothing e, λ b. cc)
      Moved-stays co w (aside q n e h t) =
          let (held, clear) =
            (prepare_backup-At o q (some n) kp j.dir _ (inl (n, refl)) (key_named q t)).run w h in
          (aside q n e held t, λ b. clear)

      after_key :
          (co : OldEntry) (w : World)
          → Free kp co
          → Moved cp vc w co
          → At kp vk w
          → Ready w
          → Final
              (back_up_key o k j ct kt co (key_backup w).0 (key_backup w).1).0
              (back_up_key o k j ct kt co (key_backup w).0 (key_backup w).1).1
      after_key co w fc c h (hc, hk) =
          go (key_backup w).0 (key_backup w).1
            ((prepare_backup_kept o kp reliable vk j.dir _).run w h) stays.0
            (fc, record { other = at_cert.1; cert_tmp = at_ct.1; key_tmp = at_kt.1 }, stays.1)
            (at_ct.0, at_kt.0)
        where
          stays :
              Moved cp vc (key_backup w).1 co
              × (co.backed_up ≡ true → Clear co.backup_path (key_backup w).0.1)
          stays = Moved-stays co w c

          at_cert : At cp (w.disk cp) (key_backup w).1 × Clear cp (key_backup w).0.1
          at_cert =
              (prepare_backup-At o cp (w.disk cp) kp j.dir _ (inr (λ q t e. cert_named q t (sym e)))
                  differ).run
                w refl

          at_ct : Holds ct (cert_file j) (key_backup w).1 × Clear ct (key_backup w).0.1
          at_ct =
              (prepare_backup-At o ct _ kp j.dir _ (inl (cert_file j, refl))
                  (key_named ct ct_temp)).run
                w hc

          at_kt : Holds kt (key_file j) (key_backup w).1 × Clear kt (key_backup w).0.1
          at_kt =
              (prepare_backup-At o kt _ kp j.dir _ (inl (key_file j, refl))
                  (key_named kt kt_temp)).run
                w hk

          go :
              (r : Result (Unit {0}) × OldEntry) (w' : World)
              → Prepared kp vk r w'
              → Moved cp vc w' co
              → Meet co r.1
              → Ready w'
              → Final (back_up_key o k j ct kt co r w').0 (back_up_key o k j ct kt co r w').1
          go (ok u, ko) w' p c' m ready = publish-Final co ko w' m c' p ready
          go (err e, ko) w' (same, at) c' m ready =
              subst
                (λ old.
                  Meet co old
                  → Final (back_up_key o k j ct kt co (err e, old) w').0
                      (back_up_key o k j ct kt co (err e, old) w').1)
                (sym same) (λ m. undo-Final co e w' m c' at) m

      abbrev cert_backup : P (Result (Unit {0}) × OldEntry)
      cert_backup = prepare_backup o (entry_at cp) j.dir (dot_name j.name (codes "-cert-backup-"))

      -- Installation of the staged files: success means both are in place, and an error leaves
      -- both in place or what was there safe.
      install-Final :
          (w : World)
          → At cp vc w
          → At kp vk w
          → Ready w
          → Final (install o k j ct kt w).0 (install o k j ct kt w).1
      unfolding install back_up_cert ◌>>=◌
      install-Final w hc hk (rc, rk) =
          go (cert_backup w).0 (cert_backup w).1
            ((prepare_backup_kept o cp reliable vc j.dir _).run w hc) at_key.0
            (record { other = at_key.1; cert_tmp = at_ct.1; key_tmp = at_kt.1 }) (at_ct.0, at_kt.0)
        where
          at_key : At kp vk (cert_backup w).1 × Clear kp (cert_backup w).0.1
          at_key = (prepare_backup-At o kp vk cp j.dir _ key-Apart (λ e. differ (sym e))).run w hk

          at_ct : Holds ct (cert_file j) (cert_backup w).1 × Clear ct (cert_backup w).0.1
          at_ct =
              (prepare_backup-At o ct _ cp j.dir _ (inl (cert_file j, refl))
                  (cert_named ct ct_temp)).run
                w rc

          at_kt : Holds kt (key_file j) (cert_backup w).1 × Clear kt (cert_backup w).0.1
          at_kt =
              (prepare_backup-At o kt _ cp j.dir _ (inl (key_file j, refl))
                  (cert_named kt kt_temp)).run
                w rk

          go :
              (r : Result (Unit {0}) × OldEntry) (w' : World)
              → Prepared cp vc r w'
              → At kp vk w'
              → Free kp r.1
              → Ready w'
              → Final (back_up_cert o k j ct kt r w').0 (back_up_cert o k j ct kt r w').1
          go (ok u, co) w' p h f ready = after_key co w' f p h ready
          go (err e, co) w' (same, at) h f ready = inr (Kept-of_At w' at, Kept-of_At w' h)

    -- After an error the pair is installed, or what was there is safe.
    abbrev SettledPair : Result (Unit {0}) → World → Type 0
    SettledPair = PairOutcome j vc vk

    -- Removal of the two staged files.
    module _ (ct kt : Str) (ct_temp : Temp ct) (kt_temp : Temp kt) (tmp_differ : kt ≢ ct) where
      Holds-removed :
          (p : Str) (n : Node) (w : World)
          → p ≢ ct
          → p ≢ kt
          → Holds p n w
          → Holds p n (remove o kt (remove o ct w).1).1
      Holds-removed p n w nc nk h =
          remove_frame o kt p (remove o ct w).1 nk ∙ remove_frame o ct p w nc ∙ h

      Safe-removed :
          (p : Str) (v : Option Node) (w : World)
          → p ≢ ct
          → p ≢ kt
          → Kept ct kt p v w
          → Safe p v (remove o kt (remove o ct w).1).1
      Safe-removed p v w nc nk s = Safe-of_parts p v _ (λ n e. go n (s n e))
        where
          go :
              (n : Node)
              → Holds p n w ⊎ ((q : Str) × Temp q × (q ≢ ct) × (q ≢ kt) × Holds q n w)
              → Holds p n (remove o kt (remove o ct w).1).1
                ⊎ ((q : Str) × Temp q × Holds q n (remove o kt (remove o ct w).1).1)
          go n (inl h) = inl (Holds-removed p n w nc nk h)
          go n (inr (q, t, qc, qk, h)) = inr (q, t, Holds-removed q n w qc qk h)

      cert_apart_ct : cp ≢ ct
      cert_apart_ct e = cert_named ct ct_temp (sym e)

      cert_apart_kt : cp ≢ kt
      cert_apart_kt e = cert_named kt kt_temp (sym e)

      key_apart_ct : kp ≢ ct
      key_apart_ct e = key_named ct ct_temp (sym e)

      key_apart_kt : kp ≢ kt
      key_apart_kt e = key_named kt kt_temp (sym e)

      Installed-removed : (w : World) → Installed w → Installed (remove o kt (remove o ct w).1).1
      Installed-removed w (hc, hk) = (
        Holds-removed cp _ w cert_apart_ct cert_apart_kt hc,
        Holds-removed kp _ w key_apart_ct key_apart_kt hk,
      )

      Final-removed :
          (r : Result (Unit {0})) (w : World)
          → Final ct kt ct_temp kt_temp tmp_differ r w
          → SettledPair r (remove o kt (remove o ct w).1).1
      Final-removed (ok u) w h = Installed-removed w h
      Final-removed (err e) w (inl h) = inl (Installed-removed w h)
      Final-removed (err e) w (inr (sc, sk)) = inr (
        Safe-removed cp vc w cert_apart_ct cert_apart_kt sc,
        Safe-removed kp vk w key_apart_ct key_apart_kt sk,
      )

    abbrev Start : World → Type 0
    Start w = At cp vc w × At kp vk w

    unsafe_free : (e : Error) (w : World) → Start w → SettledPair (err e) w
    unsafe_free e w (hc, hk) =
        inr
          (Safe-of_parts cp vc w (λ n v. inl (hc ∙ v)), Safe-of_parts kp vk w (λ n v. inl (hk ∙ v)))

    abbrev CertStaged : Result Str → World → Type 0
    CertStaged r w = Start w × OnOk (λ q w. Holds q (cert_file j) w × Temp q) r w

    stage_cert :
        Triple Start
          (write_temp_file o j.dir
            (dot_name j.name (codes "-cert-sync-"))
            j.cert_pem
            public_cert_file_mode)
          CertStaged
    stage_cert = record {
      run = λ w (hc, hk).
          let m = write_temp_file-At o cp vc j.dir _ j.cert_pem public_cert_file_mode cert-Apart in
          let n = write_temp_file-At o kp vk j.dir _ j.cert_pem public_cert_file_mode key-Apart in
          (
            ((m.run w hc).0, (n.run w hk).0),
            (write_temp_file_ok o j.dir _ j.cert_pem public_cert_file_mode).run w tt,
          );
    }

    abbrev KeyStaged : Str → Result Str → World → Type 0
    KeyStaged ct r w =
        (Start w × Holds ct (cert_file j) w)
        × OnOk (λ q w. Holds q (key_file j) w × Temp q) r w
        × OnOk (λ q w. (ct ≢ q) × Temp q) r w

    stage_key :
        (ct : Str)
        → Triple
            (λ w. Start w × Holds ct (cert_file j) w)
            (write_temp_file o j.dir
              (dot_name j.name (codes "-key-sync-"))
              j.key_pem
              private_key_file_mode)
            (KeyStaged ct)
    stage_key ct = record {
      run = λ w ((hc, hk), h).
          let m = write_temp_file-At o cp vc j.dir _ j.key_pem private_key_file_mode cert-Apart in
          let n = write_temp_file-At o kp vk j.dir _ j.key_pem private_key_file_mode key-Apart in
          let c =
            (write_temp_file-At o ct (some (cert_file j)) j.dir _ j.key_pem private_key_file_mode
                (inl (cert_file j, refl))).run
              w h in
          (
            (((m.run w hc).0, (n.run w hk).0), c.0),
            (write_temp_file_ok o j.dir _ j.key_pem private_key_file_mode).run w tt,
            c.1,
          );
    }

    -- What follows the staging.
    abbrev finish_staged : Str → Str → M (Unit {0})
    finish_staged ct kt = do r ← install o k j ct kt; remove o ct; remove o kt; return r

    install_staged :
        (ct kt : Str) → Temp ct → Triple (KeyStaged ct (ok kt)) (finish_staged ct kt) SettledPair
    unfolding ◌>>=◌ ◌>>◌
    install_staged ct kt tc = record {
      run = λ w (((hc, hk), h), (g, tk), (ne, t)).
          Final-removed ct kt tc tk (λ e. ne (sym e)) (install o k j ct kt w).0
            (install o k j ct kt w).1 (install-Final ct kt tc tk (λ e. ne (sym e)) w hc hk (h, g));
    }

    give_up : (ct : Str) (e : Error) → Temp ct → Triple Start (do remove o ct; fail e) SettledPair
    unfolding ◌>>◌
    give_up ct e t = record {
      run = λ w (hc, hk). unsafe_free e (remove o ct w).1 (
        remove_frame o ct cp w (λ q. cert_named ct t (sym q)) ∙ hc,
        remove_frame o ct kp w (λ q. key_named ct t (sym q)) ∙ hk,
      );
    }

    pub stage_and_install_settles : Triple Start (stage_and_install o k j) SettledPair
    unfolding stage_and_install
    stage_and_install_settles =
        attempt_rule CertStaged stage_cert (λ e. return_rule _ (λ w h. unsafe_free e w h.0))
          λ ct. record { run = λ w h. (with_cert ct h.1.1).run w (h.0, h.1.0) }
      where
        with_cert :
            (ct : Str)
            → Temp ct
            → Triple
                (λ w. Start w × Holds ct (cert_file j) w)
                (attempt
                  (write_temp_file o j.dir
                    (dot_name j.name (codes "-key-sync-"))
                    j.key_pem
                    private_key_file_mode)
                  (λ e. do remove o ct; fail (wrap "stage private key" e))
                  λ kt. finish_staged ct kt)
                SettledPair
        with_cert ct t =
            attempt_rule (KeyStaged ct) (stage_key ct)
              (λ e. weaken (λ w h. h.0.0) (give_up ct _ t) (λ r w h. h))
              (λ kt. install_staged ct kt t)
