-- ===== src/Manager/Atomic.antt =====
-- cmd/cert-sync/main.go: a change of the configuration that fails has changed nothing.
use zoraxy_cert_warden.Base.{
  ℕ, ◌||◌, Option, none, some, List, [], ◌∷◌, ◌++◌, Str, str_eq, nat_eq, ◌≡◌, refl, ◌∙◌, arith,
  if-holds, Option-holds,
}
use zoraxy_cert_warden.Failure.{Error}
use zoraxy_cert_warden.Host.{Host}
use zoraxy_cert_warden.Config.{CertificateConfig, Config, is_cert_warden}
use zoraxy_cert_warden.Config.Policy.{PathPolicy}
use zoraxy_cert_warden.SecretStore.{Secrets}
use zoraxy_cert_warden.Manager.Fallbacks.{mark_fallback_pending, reconcile_fallbacks}
use zoraxy_cert_warden.Manager.Watches.{
  make_watch, watch_of, make_watches, start_watches, wants_watch,
}
use zoraxy_cert_warden.Manager.Apply.{
  switch, take_back, take_back_config, mark_and_switch, persist, publish_config, confirm_context,
  start_and_publish, stage_watches,
}
use zoraxy_cert_warden.Manager.Quiet.{
  is_live, last_save, Harmless, Harmless-trans, note-Harmless, mark_fallback_pending-Harmless,
  reconcile_fallbacks-Harmless,
}
use zoraxy_cert_warden.Manager.{
  Watch, Verdict, failed, done, Services, Run, note, check_context, make_poller, make_watcher,
  start_watch, save_config, plainly,
}
use zoraxy_cert_warden.Manager.Started.{
  among, Unused, OfGeneration, stop_watches-active, is_live-stop_watches, last_save-stop_watches,
  Started, stop-Started, stop_unstarted, OfGeneration-add,
}

module _ (h : Host) (policy : PathPolicy) (s : Services) (g : ℕ) where
  -- What making the watchers has done.
  unfoldable Made : Run → Verdict (List Watch) × Run → Type 0
  Made r (failed f, r') = Harmless r r'
  Made r (done ws, r') = Harmless r r' × OfGeneration g ws

  make_watch-Harmless :
      (c : CertificateConfig) (w : Watch) (r : Run) → Harmless r (make_watch h policy s c w r).1
  unfolding make_watch
  make_watch-Harmless c w r =
      if-holds (λ (x : Option Error × Run). Harmless r x.1) (is_cert_warden c.source.source_type)
        (λ e. note-Harmless (make_poller w) refl r) (λ e. note-Harmless (make_watcher w) refl r)

  make_watches-Made :
      (cs : List CertificateConfig) (made : List Watch) (q r : Run)
      → Unused g q
      → OfGeneration g made
      → Harmless q r
      → Made q (make_watches h policy s g cs made r)
  unfolding make_watches Made
  make_watches-Made [] made q r u o b = (b, o)
  make_watches-Made (c ∷ cs) made q r u o b =
      let w = watch_of h policy s c g in
      let m = make_watch h policy s c w r in
      let b' = Harmless-trans q r m.1 b (make_watch-Harmless c w r) in
      if-holds (Made q) (wants_watch h policy s c)
        (λ e.
          Option-holds (Made q) m.0
            (make_watches-Made cs (made ++ (w ∷ [])) q m.1 u (OfGeneration-add g made w o refl) b')
            (λ x. stop_unstarted g made q m.1 u o b'))
        (λ e. make_watches-Made cs made q r u o b)

  -- What starting the watchers has done, after some were started.
  unfoldable Tried : List Watch → Run → Option Error × Run → Type 0
  Tried all q (some e, r) = Harmless q r
  Tried all q (none, r) = Started all q r

  start_watches-Tried :
      (all before ws : List Watch) (q r : Run)
      → Unused g q
      → OfGeneration g all
      → ((v : Watch) → among all v ≡ (among before v || among ws v))
      → Started before q r
      → Tried all q (start_watches h policy s all ws r)
  unfolding start_watches Tried is_live last_save
  start_watches-Tried all before [] q r u o e b = record {
    same_active = b.same_active;
    live = λ v. ground (arith, b.live v, e v);
    same_saves = b.same_saves;
  }
  start_watches-Tried all before (w ∷ ws) q r u o e b =
      let r' = note (start_watch w) r in
      Option-holds (Tried all q) (s.answer r.log (start_watch w))
        (start_watches-Tried all (w ∷ before) ws q r' u o (λ v. ground (arith, e v))
          record {
            same_active = b.same_active;
            live = λ v. ground (arith, b.live v);
            same_saves = b.same_saves;
          })
        (λ x. record {
          same_active = ground (arith, stop_watches-active all r', b.same_active);
          same_live = λ v. ground (arith, is_live-stop_watches all r' v, b.live v, e v, u v, o v);
          same_saves = last_save-stop_watches all r' ∙ b.same_saves;
        })

  Started-Harmless :
      (ws : List Watch) (q r t : Run) → Started ws q r → Harmless r t → Started ws q t
  Started-Harmless ws q r t b m = record {
    same_active = m.same_active ∙ b.same_active;
    live = λ v. m.same_live v ∙ b.live v;
    same_saves = m.same_saves ∙ b.same_saves;
  }

  module _ (staged : Config) (secrets : Secrets) (old : Config) where
    -- What the change comes to: it failed and all is as before, or the new watchers were started
    -- besides the old ones, and then the active state was switched.
    unfoldable pub Settled : Run → Verdict (Unit {0}) × Run → Type 0
    Settled q (failed f, r) = Harmless q r
    Settled q (done _, r) =
        (ws : List Watch) × (t : Run) × Started ws q t
        × OfGeneration g ws
        × (r ≡ switch h policy s staged secrets old g ws t)

    module _ (q : Run) (u : Unused g q) (ws : List Watch) (o : OfGeneration g ws) where
      take_back-Settled :
          (e : Error) (r t : Run)
          → Started ws q r
          → Harmless r t
          → Settled q (take_back h policy s staged secrets old g ws e t)
      unfolding take_back Settled
      take_back-Settled e r t b m = stop-Started g ws q r _ u o b (
          Harmless-trans r t _ m
            (reconcile_fallbacks-Harmless h policy s (some staged) (some old) t))

      take_back_config-Settled :
          (e : Error) (r t : Run)
          → Started ws q r
          → Harmless r t
          → Settled q (take_back_config h policy s staged secrets old g ws e t)
      unfolding take_back_config
      take_back_config-Settled e r t b m =
          take_back-Settled _ r _ b
            (Harmless-trans r t _ m (note-Harmless (save_config old) refl t))

      mark_and_switch-Settled :
          (changed : List Str) (r t : Run)
          → Started ws q r
          → Harmless r t
          → Settled q (mark_and_switch h policy s staged secrets old g ws changed t)
      unfolding mark_and_switch Settled
      mark_and_switch-Settled changed r t b m =
          let k = mark_fallback_pending h policy s changed t in
          let m' = Harmless-trans r t k.1 m (mark_fallback_pending-Harmless h policy s changed t) in
          Option-holds (Settled q) k.0 (ws, k.1, Started-Harmless ws q r k.1 b m', o, refl)
            (λ x. take_back_config-Settled x r k.1 b m')

      persist-Settled :
          (changed : List Str) (r t : Run)
          → Started ws q r
          → Harmless r t
          → Settled q (persist h policy s staged secrets old g ws changed t)
      unfolding persist
      persist-Settled changed r t b m =
          let t' = note (save_config staged) t in
          let m' = Harmless-trans r t t' m (note-Harmless (save_config staged) refl t) in
          Option-holds (Settled q) (s.answer t.log (save_config staged))
            (mark_and_switch-Settled changed r t' b m') (λ x. take_back-Settled x r t' b m')

      publish_config-Settled :
          (r t : Run)
          → Started ws q r
          → Harmless r t
          → Settled q (publish_config h policy s staged secrets old g ws t)
      unfolding publish_config
      publish_config-Settled r t b m =
          let k = reconcile_fallbacks h policy s (some old) (some staged) t in
          let m' =
            Harmless-trans r t k.1 m
              (reconcile_fallbacks-Harmless h policy s (some old) (some staged) t) in
          Option-holds (Settled q) k.0.1 (persist-Settled k.0.0 r k.1 b m')
            (λ x. take_back-Settled x r k.1 b m')

      confirm_context-Settled :
          (r : Run)
          → Started ws q r
          → Settled q (confirm_context h policy s staged secrets old g ws r)
      unfolding confirm_context Settled
      confirm_context-Settled r b =
          let t = note check_context r in
          let m = note-Harmless check_context refl r in
          Option-holds (Settled q) (s.answer r.log check_context) (publish_config-Settled r t b m)
            (λ x. stop-Started g ws q r t u o b m)

      of_Tried :
          (k : Option Error × Run)
          → Tried ws q k
          → Settled q (elim k.0 [
            | some x ↦ (failed (plainly x), k.1)
            | none ↦ confirm_context h policy s staged secrets old g ws k.1
          ])
      unfolding Tried Settled
      of_Tried (none, r) b = confirm_context-Settled r b
      of_Tried (some x, r) b = b

      start_and_publish-Settled :
          (r : Run)
          → Harmless q r
          → Settled q (start_and_publish h policy s staged secrets old g ws r)
      unfolding start_and_publish
      start_and_publish-Settled r m = of_Tried (start_watches h policy s ws ws r) (
          start_watches-Tried ws [] ws q r u o (λ v. refl)
            record { same_active = m.same_active; live = m.same_live; same_saves = m.same_saves })

    of_Made :
        (q : Run)
        → Unused g q
        → (k : Verdict (List Watch) × Run) → Made q k
        → Settled q (elim k.0 [
          | failed f ↦ (failed f, k.1)
          | done ws ↦ start_and_publish h policy s staged secrets old g ws k.1
        ])
    unfolding Made Settled
    of_Made q u (failed f, r) m = m
    of_Made q u (done ws, r) (m, o) = start_and_publish-Settled q u ws o r m

    pub stage_watches-Settled :
        (q r : Run)
        → Unused g q
        → Harmless q r
        → Settled q (stage_watches h policy s staged secrets old g r)
    unfolding stage_watches
    stage_watches-Settled q r u m =
        of_Made q u (make_watches h policy s g staged.certificates [] r)
          (make_watches-Made staged.certificates [] q r u (λ w a. cc) m)
