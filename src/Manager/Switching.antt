-- ===== src/Manager/Switching.antt =====
-- cmd/cert-sync/main.go: what the switch to a new configuration leaves.
use zoraxy_cert_warden.Base.{
  Bool, true, false, some, List, str_eq, nat_eq, if◌then◌else◌, ◌≡◌, refl, sym, ℕ, ◌∙◌, ap, subst,
}
use zoraxy_cert_warden.Host.{Host}
use zoraxy_cert_warden.Config.{Config}
use zoraxy_cert_warden.Config.Policy.{PathPolicy}
use zoraxy_cert_warden.SecretStore.{Secrets}
use zoraxy_cert_warden.Manager.Watches.{stop_watches, activate, level_of}
use zoraxy_cert_warden.Manager.Apply.{switch}
use zoraxy_cert_warden.Manager.Quiet.{is_live, last_save}
use zoraxy_cert_warden.Manager.Started.{
  among, OfGeneration, Started, is_live-stop_watches, stop_watches-active, last_save-stop_watches,
}
use zoraxy_cert_warden.Manager.Atomic.{Settled}
use zoraxy_cert_warden.Manager.Queries.{KeepsSettings}
use zoraxy_cert_warden.Manager.Steady.{sync_all-Steady}
use zoraxy_cert_warden.Manager.{
  Watch, Manager, Verdict, failed, done, Services, Run, generation_after,
}

module _ (h : Host) (policy : PathPolicy) (s : Services) where
  -- What a switch has made active, and which watchers run after it.
  pub record Switched (staged : Config) (secrets : Secrets) (q r : Run) : Type 0 where
    pub new_config : r.manager.cfg ≡ some staged
    pub new_secrets : r.manager.secrets ≡ secrets
    pub new_generation : r.manager.generation ≡ generation_after q.manager.generation
    pub new_level : r.manager.log_level ≡ level_of staged.log_level
    pub new_watchers : OfGeneration (generation_after q.manager.generation) r.manager.watchers
    pub new_live :
        (w : Watch)
        → is_live w r.log ≡ (
            if among q.manager.watchers w
            then false
            else if among r.manager.watchers w
            then true
            else is_live w q.log)

  live_after :
      (old old' new new' : List Watch) (w : Watch) (x y : Bool)
      → old' ≡ old
      → new' ≡ new
      → x ≡ (if among new w then true else y)
      → (if among old' w then false else x)
        ≡ (if among old w then false else if among new' w then true else y)
  live_after old old' new new' w x y e f l = rw e (rw f (rw l refl))

  module _ (calm : KeepsSettings s) (staged : Config) (secrets : Secrets) (old : Config) where
    switch-Switched :
        (q t : Run) (ws : List Watch)
        → Started ws q t
        → OfGeneration (generation_after q.manager.generation) ws
        → Switched staged secrets q
            (switch h policy s staged secrets old (generation_after q.manager.generation) ws t)
    unfolding switch activate
    switch-Switched q t ws b o =
        let g = generation_after q.manager.generation in
        let t1 = record t { manager = activate h policy s staged secrets ws g t.manager } in
        let t2 = stop_watches t.manager.watchers t1 in
        let k = sync_all-Steady s calm h policy g staged.certificates t2 in
        let m = stop_watches-active t.manager.watchers t1 in
        let old_watchers = ap (λ (x : Manager). x.watchers) b.same_active in
        let watchers =
          ap (λ (x : Manager). x.watchers) k.same_settings ∙ ap (λ (x : Manager). x.watchers) m in
        record {
          new_config = ap (λ (x : Manager). x.cfg) k.same_settings ∙ ap (λ (x : Manager). x.cfg) m;
          new_secrets =
              ap (λ (x : Manager). x.secrets) k.same_settings ∙ ap (λ (x : Manager). x.secrets) m;
          new_generation =
              ap (λ (x : Manager). x.generation) k.same_settings
              ∙ ap (λ (x : Manager). x.generation) m;
          new_level =
              ap (λ (x : Manager). x.log_level) k.same_settings
              ∙ ap (λ (x : Manager). x.log_level) m;
          new_watchers = rw watchers o;
          new_live = λ w.
              k.same_live w
              ∙ is_live-stop_watches t.manager.watchers t1 w
              ∙ live_after _ _ _ _ w _ _ old_watchers watchers (b.live w);
        }

    pub of_Settled :
        (q : Run) (x : Verdict (Unit {0}) × Run)
        → x.0 ≡ done tt
        → Settled h policy s (generation_after q.manager.generation) staged secrets old q x
        → Switched staged secrets q x.1
    unfolding Settled
    of_Settled q (failed f, r) e b = cc
    of_Settled q (done a, r) e (ws, t, b, o, same) =
        subst (Switched staged secrets q) (sym same) (switch-Switched q t ws b o)

    switch-last_save :
        (g : ℕ) (ws : List Watch) (t : Run)
        → last_save (switch h policy s staged secrets old g ws t).log ≡ last_save t.log
    unfolding switch activate
    switch-last_save g ws t =
        let t1 = record t { manager = activate h policy s staged secrets ws g t.manager } in
        let k =
          sync_all-Steady s calm h policy g staged.certificates
            (stop_watches t.manager.watchers t1) in
        k.same_saves ∙ last_save-stop_watches t.manager.watchers t1

    pub of_Settled-last_save :
        (g : ℕ) (q : Run) (x : Verdict (Unit {0}) × Run)
        → x.0 ≡ done tt
        → Settled h policy s g staged secrets old q x
        → last_save x.1.log ≡ last_save q.log
    unfolding Settled
    of_Settled-last_save g q (failed f, r) e b = cc
    of_Settled-last_save g q (done a, r) e (ws, t, b, o, same) =
        ap (λ (x : Run). last_save x.log) same ∙ switch-last_save g ws t ∙ b.same_saves
