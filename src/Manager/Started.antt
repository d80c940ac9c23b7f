-- ===== src/Manager/Started.antt =====
-- cmd/cert-sync/main.go: the watchers of a new generation, which are started and stopped together.
use zoraxy_cert_warden.Base.{
  ℕ, Bool, true, false, ◌||◌, List, [], ◌∷◌, ◌++◌, str_eq, nat_eq, if◌then◌else◌, ◌≡◌, refl, ◌∙◌,
  arith, ◌⊎◌,
}
use zoraxy_cert_warden.Manager.Watches.{stop_watches}
use zoraxy_cert_warden.Manager.Quiet.{is_live, last_save, same_watch, active, Harmless}
use zoraxy_cert_warden.Manager.{Watch, Run, note, stop_watch}

abbrev pub among : List Watch → Watch → Bool
among [] w = false
among (v ∷ vs) w = same_watch v w || among vs w

-- No watcher of the generation runs.
abbrev pub Unused : ℕ → Run → Type 0
Unused g r = (w : Watch) → w.generation ≡ g → is_live w r.log ≡ false

-- All watchers of the list are of the generation.
abbrev pub OfGeneration : ℕ → List Watch → Type 0
OfGeneration g ws = (w : Watch) → among ws w ≡ true → w.generation ≡ g

pub stop_watches-active : (ws : List Watch) (r : Run) → (stop_watches ws r).manager ≡ r.manager
unfolding stop_watches
stop_watches-active [] r = refl
stop_watches-active (v ∷ ws) r = stop_watches-active ws (note (stop_watch v) r)

pub is_live-stop_watches :
    (ws : List Watch) (r : Run) (w : Watch)
    → is_live w (stop_watches ws r).log ≡ (if among ws w then false else is_live w r.log)
unfolding stop_watches is_live
is_live-stop_watches [] r w = refl
is_live-stop_watches (v ∷ ws) r w =
    ground (arith, is_live-stop_watches ws (note (stop_watch v) r) w)

pub last_save-stop_watches :
    (ws : List Watch) (r : Run) → last_save (stop_watches ws r).log ≡ last_save r.log
unfolding stop_watches last_save
last_save-stop_watches [] r = refl
last_save-stop_watches (v ∷ ws) r = last_save-stop_watches ws (note (stop_watch v) r)

-- The watchers of the list run besides those that ran before, and that is all.
pub record Started (ws : List Watch) (r r' : Run) : Type 0 where
  pub same_active : active r'.manager ≡ active r.manager
  pub live : (w : Watch) → is_live w r'.log ≡ (if among ws w then true else is_live w r.log)
  pub same_saves : last_save r'.log ≡ last_save r.log

-- Once the new watchers have stopped again, all is as before.
pub stop-Started :
    (g : ℕ) (ws : List Watch) (q r t : Run)
    → Unused g q
    → OfGeneration g ws
    → Started ws q r
    → Harmless r t
    → Harmless q (stop_watches ws t)
stop-Started g ws q r t u o b h = record {
  same_active = ground (arith, stop_watches-active ws t, h.same_active, b.same_active);
  same_live = λ w. ground (arith, is_live-stop_watches ws t w, h.same_live w, b.live w, u w, o w);
  same_saves = last_save-stop_watches ws t ∙ h.same_saves ∙ b.same_saves;
}

pub stop_unstarted :
    (g : ℕ) (ws : List Watch) (q t : Run)
    → Unused g q
    → OfGeneration g ws
    → Harmless q t
    → Harmless q (stop_watches ws t)
stop_unstarted g ws q t u o h = record {
  same_active = ground (arith, stop_watches-active ws t, h.same_active);
  same_live = λ w. ground (arith, is_live-stop_watches ws t w, h.same_live w, u w, o w);
  same_saves = last_save-stop_watches ws t ∙ h.same_saves;
}

among-append :
    (ws : List Watch) (v w : Watch)
    → among (ws ++ (v ∷ [])) w ≡ true
    → (among ws w ≡ true) ⊎ (same_watch v w ≡ true)
among-append [] v w e = ground arith
among-append (x ∷ ws) v w e = ground (arith, among-append ws v w)

pub OfGeneration-add :
    (g : ℕ) (ws : List Watch) (v : Watch)
    → OfGeneration g ws
    → v.generation ≡ g
    → OfGeneration g (ws ++ (v ∷ []))
unfolding nat_eq
OfGeneration-add g ws v o e w a = ground (arith, among-append ws v w a, o w)
