-- ===== src/Store/Saved.antt =====
-- `Save` of internal/config/store.go from the creation of the temporary file on.

use zoraxy_cert_warden.Base.{
  ℕ, ◌≡◌, refl, ◌∙◌, ◌≢◌, inl, Bool, true, false, List, Option, none, some, [], Str, arith,
  if◌then◌else◌, nat_eq,
}
use zoraxy_cert_warden.Failure.{Error, Result, ok, err, is_not_exist, wrap}
use zoraxy_cert_warden.Host.{FileInfo}
use zoraxy_cert_warden.Disk.{
  Node, file, directory_node, link_node, special_node, Env, World, M, fail, ◌>>◌,
}
use zoraxy_cert_warden.Disk.Calls.{stat, close, link, behind, info_behind}
use zoraxy_cert_warden.Disk.Effects.{Holds, write_ok, write_frame, chmod_ok, chmod_frame}
use zoraxy_cert_warden.Disk.Triples.{
  Triple, OnOk, attempt_rule, then_rule, return_rule, weaken, if_rule, At,
}
use zoraxy_cert_warden.Disk.Frames.{sync-At, close-At, remove-At}
use zoraxy_cert_warden.Sync.Undo.{Keeps-path}
use zoraxy_cert_warden.Store.{
  flush_directory, backup_of, replace, link_backup, back_up, fill_and_replace, config_mode,
}
use zoraxy_cert_warden.Store.Rollback.{flush_directory-Keeps, SaveOutcome}
use zoraxy_cert_warden.Store.Durable.{
  link_frame, link_ok, stat-Keeps, IsPlain, Waiting, replace_settles,
}

module _ (o : Env) (p : Str) where
  stat_of_file :
      (bytes : List ℕ) (mode : ℕ) (w : World) {e : Error}
      → Holds p (file bytes mode) w
      → (stat o p w).0 ≡ err e
      → is_not_exist e ≡ false
  unfolding stat behind info_behind is_not_exist
  stat_of_file bytes mode w h r = ground arith

  stat_of_missing : (w : World) {info : FileInfo} → At p none w → (stat o p w).0 ≡ ok info → ⊥
  unfolding stat behind info_behind
  stat_of_missing w h r = ground arith

module _ (o : Env) (path directory tmp : Str) (bytes : List ℕ) (path_not_tmp : path ≢ tmp)
    (path_not_backup : path ≢ backup_of tmp) (tmp_not_backup : tmp ≢ backup_of tmp) where
  abbrev new : Node
  new = file bytes config_mode

  abbrev Filled : Option Node → World → Type 0
  Filled v w = At path v w × Holds tmp new w

  -- The failure of a step that left the path alone.
  untouched : (v : Option Node) (e : Error) → Triple (At path v) (fail e) (SaveOutcome path v new)
  untouched v e = return_rule _ (λ w h. inl h)

  abbrev Linked : Node → Result (Unit {0}) → World → Type 0
  Linked n (ok _) w =
      Waiting o path directory tmp new path_not_tmp path_not_backup tmp_not_backup (some n) true w
  Linked n (err e) w = At path (some n) w

  linked : (n : Node) → Triple (Filled (some n)) (link o path (backup_of tmp)) (Linked n)
  linked n = record { run = λ w h. go w h (link o path (backup_of tmp) w).0 refl }
    where
      go :
          (w : World)
          → Filled (some n) w
          → (r : Result (Unit {0})) → (link o path (backup_of tmp) w).0 ≡ r
          → Linked n r (link o path (backup_of tmp) w).1
      go w (h, t) (ok u) e = (
        link_frame o path (backup_of tmp) path w path_not_backup ∙ h,
        link_ok o path (backup_of tmp) n w e h,
        link_frame o path (backup_of tmp) tmp w tmp_not_backup ∙ t,
      )
      go w (h, t) (err f) e = link_frame o path (backup_of tmp) path w path_not_backup ∙ h

  link_backup_settles :
      (n : Node)
      → Triple (Filled (some n)) (link_backup o path directory tmp) (SaveOutcome path (some n) new)
  unfolding link_backup
  link_backup_settles n =
      attempt_rule (Linked n) (linked n) (λ e. untouched (some n) _)
        λ _.
          attempt_rule (λ r. Linked n (ok tt)) waits
            (λ e.
              weaken (λ w h. h.0)
                (then_rule (At path (some n))
                  (remove-At o path (some n) (backup_of tmp) path_not_backup)
                  (untouched (some n) _))
                (λ r w h. h))
            (λ _.
              replace_settles o path directory tmp new path_not_tmp path_not_backup tmp_not_backup
                (some n) true)
    where
      waits : Triple (Linked n (ok tt)) (flush_directory o directory) (λ r. Linked n (ok tt))
      waits = record {
        run = λ w (h, b, t). (
          Keeps-path (flush_directory-Keeps o path directory) w ∙ h,
          Keeps-path (flush_directory-Keeps o (backup_of tmp) directory) w ∙ b,
          Keeps-path (flush_directory-Keeps o tmp directory) w ∙ t,
        );
      }

  -- What `os.Stat` tells of a path that names a file or nothing.
  abbrev Stated : Option Node → Result FileInfo → World → Type 0
  Stated none (ok info) w = ⊥
  Stated none (err e) w = Filled none w
  Stated (some n) (ok info) w = Filled (some n) w
  Stated (some n) (err e) w = Filled (some n) w × (is_not_exist e ≡ false)

  stated : (v : Option Node) → IsPlain v → Triple (Filled v) (stat o path) (Stated v)
  stated v plain = record { run = λ w h. go v plain w h (stat o path w).0 refl }
    where
      same : (v : Option Node) (w : World) → Filled v w → Filled v (stat o path w).1
      same v w (h, t) = (
        Keeps-path (λ u. stat-Keeps o path path u) w ∙ h,
        Keeps-path (λ u. stat-Keeps o tmp path u) w ∙ t,
      )

      go :
          (v : Option Node)
          → IsPlain v
          → (w : World) → Filled v w
          → (r : Result FileInfo) → (stat o path w).0 ≡ r
          → Stated v r (stat o path w).1
      go none plain w h (ok info) e = stat_of_missing o path w h.0 e
      go none plain w h (err f) e = same none w h
      go (some n) plain w h (ok info) e = same (some n) w h
      go (some (file b m)) plain w h (err f) e =
          (same (some (file b m)) w h, stat_of_file o path b m w h.0 e)
      go (some (directory_node b)) plain w h (err f) e = absurd plain
      go (some (link_node t)) plain w h (err f) e = absurd plain
      go (some special_node) plain w h (err f) e = absurd plain

  back_up_settles :
      (v : Option Node)
      → IsPlain v
      → Triple (Filled v) (back_up o path directory tmp) (SaveOutcome path v new)
  unfolding back_up
  back_up_settles none plain =
      attempt_rule (Stated none) (stated none plain)
        (λ e.
          if_rule (is_not_exist e)
            (replace_settles o path directory tmp new path_not_tmp path_not_backup tmp_not_backup
              none false)
            (weaken (λ w h. h.0) (untouched none _) (λ r w h. h)))
        (λ info. record { run = λ w h. absurd h })
  back_up_settles (some n) plain =
      attempt_rule (Stated (some n)) (stated (some n) plain)
        (λ e. record { run = λ w h. not_missing e (is_not_exist e) h.1 w h.0 })
        (λ info. link_backup_settles n)
    where
      not_missing :
          (e : Error) (b : Bool)
          → b ≡ false
          → (w : World) → Filled (some n) w
          → let m : M (Unit {0}) =
              if b
              then replace o path directory tmp false
              else fail (wrap "failed to inspect existing config" e) in
            SaveOutcome path (some n) new (m w).0 (m w).1
      not_missing e true refuted w h = cc
      not_missing e false refuted w h = inl h.0

  -- A step on the temporary file: the path stays, and a success leaves a file.
  abbrev Wrote : Option Node → Node → Result (Unit {0}) → World → Type 0
  Wrote v n r w = At path v w × OnOk (λ u. Holds tmp n) r w

  step :
      {m : M (Unit {0})} (v : Option Node) (n n' : Node)
      → ((w : World) → (m w).1.disk path ≡ w.disk path)
      → ((w : World) → (m w).0 ≡ ok tt → Holds tmp n w → Holds tmp n' (m w).1)
      → Triple (λ w. At path v w × Holds tmp n w) m (Wrote v n')
  step {m} v n n' frame works = record { run = λ w h. (frame w ∙ h.0, go w h.1 (m w).0 refl) }
    where
      go :
          (w : World)
          → Holds tmp n w
          → (r : Result (Unit {0})) → (m w).0 ≡ r
          → OnOk (λ u. Holds tmp n') r (m w).1
      go w h (ok u) e = works w e h
      go w h (err f) e = tt

  close_untouched :
      (v : Option Node) (n : Node) (e : Error) (f : Error)
      → Triple (Wrote v n (err f)) (do close o tmp; fail e) (SaveOutcome path v new)
  close_untouched v n e f =
      weaken (λ w h. h.0) (then_rule (At path v) (close-At o path v tmp) (untouched v e))
        (λ r w h. h)

  pub fill_and_replace_settles :
      (v : Option Node)
      → IsPlain v
      → Triple
          (λ w. At path v w × Holds tmp (file [] 384) w)
          (fill_and_replace o path directory tmp bytes)
          (SaveOutcome path v new)
  unfolding fill_and_replace
  fill_and_replace_settles v plain =
      attempt_rule (Wrote v (file [] 384))
        (step v (file [] 384) (file [] 384) (λ w. chmod_frame o tmp path 384 w path_not_tmp)
          (λ w r h. chmod_ok o tmp [] 384 384 w r h))
        (λ e. close_untouched v (file [] 384) _ e)
        λ _.
          attempt_rule (Wrote v new)
            (step v (file [] 384) new (λ w. write_frame o tmp path bytes w path_not_tmp)
              (λ w r h. write_ok o tmp bytes [] 384 w r h))
            (λ e. close_untouched v new _ e)
            λ _.
              attempt_rule (Wrote v new)
                (step v new new (λ w. Keeps-path (λ u. sync-At o path u tmp) w)
                  (λ w r h. Keeps-path (λ u. sync-At o tmp u tmp) w ∙ h))
                (λ e. close_untouched v new _ e)
                λ _.
                  attempt_rule (Wrote v new)
                    (step v new new (λ w. Keeps-path (λ u. close-At o path u tmp) w)
                      (λ w r h. Keeps-path (λ u. close-At o tmp u tmp) w ∙ h))
                    (λ e. weaken (λ w h. h.0) (untouched v _) (λ r w h. h))
                    (λ _. back_up_settles v plain)
