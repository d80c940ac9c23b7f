-- ===== src/Manager/Quiet.antt =====
-- cmd/cert-sync/main.go: which of the manager's steps leave the active state, the running watchers
-- and the saved credentials alone.
use zoraxy_cert_warden.Base.{
  Bool, true, false, ◌&&◌, Option, none, some, List, [], ◌∷◌, Str, ◌==◌, str_eq, nat_eq,
  if◌then◌else◌, ◌≡◌, refl, ◌∙◌, arith, Option-holds,
}
use zoraxy_cert_warden.Failure.{Error, Result, ok, err, Result-holds}
use zoraxy_cert_warden.Host.{Host}
use zoraxy_cert_warden.Config.{Config}
use zoraxy_cert_warden.Config.Policy.{PathPolicy}
use zoraxy_cert_warden.Manager.Fallbacks.{
  take_persisted, load_runtime_state, save_runtime_state, set_pending, mark_fallback_pending,
  ensure_one, ensure_all, plan_fallbacks, reconcile_fallbacks, desired_name,
}
use zoraxy_cert_warden.Manager.{
  Watch, Manager, Call, Log, Services, Run, note, start_watch, stop_watch, save_secrets,
  ensure_fallback,
}

abbrev pub same_watch : Watch → Watch → Bool
same_watch v w = v.name == w.name && v.generation == w.generation

-- The watcher was started, and not stopped since.
unfoldable pub is_live : Watch → Log → Bool
unfolding str_eq nat_eq
is_live w [] = false
is_live w (start_watch v ∷ l) = if same_watch v w then true else is_live w l
is_live w (stop_watch v ∷ l) = if same_watch v w then false else is_live w l
is_live w (_ ∷ l) = is_live w l

-- The fields that `applyConfigLocked` assigns under the lock; the others are set aside.
abbrev pub active : Manager → Manager
active m = record m { fallback_pending = []; runtime_loaded = false }

-- The calls up to the last one that saved credentials.
unfoldable pub last_save : Log → Log
last_save [] = []
last_save (save_secrets secrets ∷ l) = save_secrets secrets ∷ l
last_save (_ ∷ l) = last_save l

-- The active state is the same, and so are the watchers that run; no credentials were saved.
pub record Harmless (r r' : Run) : Type 0 where
  pub same_active : active r'.manager ≡ active r.manager
  pub same_live : (w : Watch) → is_live w r'.log ≡ is_live w r.log
  pub same_saves : last_save r'.log ≡ last_save r.log

pub Harmless-refl : (r : Run) → Harmless r r
Harmless-refl r = record { same_active = refl; same_live = λ w. refl; same_saves = refl }

pub Harmless-trans : (q r t : Run) → Harmless q r → Harmless r t → Harmless q t
Harmless-trans q r t a b = record {
  same_active = b.same_active ∙ a.same_active;
  same_live = λ w. b.same_live w ∙ a.same_live w;
  same_saves = b.same_saves ∙ a.same_saves;
}

-- A call that starts or stops a watcher, or saves credentials.
abbrev pub is_marked : Call → Bool
is_marked (start_watch w) = true
is_marked (stop_watch w) = true
is_marked (save_secrets secrets) = true
is_marked _ = false

is_live-note :
    (c : Call) (l : Log) (w : Watch) → is_marked c ≡ false → is_live w (c ∷ l) ≡ is_live w l
unfolding is_live
is_live-note (start_watch v) l w e = cc
is_live-note (stop_watch v) l w e = cc
is_live-note _ l w e = ground arith

last_save-note : (c : Call) (l : Log) → is_marked c ≡ false → last_save (c ∷ l) ≡ last_save l
unfolding last_save
last_save-note (save_secrets secrets) l e = cc
last_save-note _ l e = ground arith

pub note-Harmless : (c : Call) → is_marked c ≡ false → (r : Run) → Harmless r (note c r)
note-Harmless c e r = record {
  same_active = refl;
  same_live = λ w. is_live-note c r.log w e;
  same_saves = last_save-note c r.log e;
}

module _ (h : Host) (policy : PathPolicy) (s : Services) where
  take_persisted-active :
      (p : Result (Option (List Str))) (m : Manager)
      → active (take_persisted h policy s p m).1 ≡ active m
  unfolding take_persisted
  take_persisted-active (err e) m = refl
  take_persisted-active (ok none) m = refl
  take_persisted-active (ok (some ds)) m = ground arith

  pub load_runtime_state-Harmless : (r : Run) → Harmless r (load_runtime_state h policy s r).1
  unfolding load_runtime_state is_live last_save
  load_runtime_state-Harmless r = record {
    same_active = ground (arith, take_persisted-active (s.persisted r.log) r.manager);
    same_live = λ w. ground arith;
    same_saves = ground arith;
  }

  pub mark_fallback_pending-Harmless :
      (ds : List Str) (r : Run) → Harmless r (mark_fallback_pending h policy s ds r).1
  unfolding mark_fallback_pending save_runtime_state set_pending is_live last_save
  mark_fallback_pending-Harmless [] r = Harmless-refl r
  mark_fallback_pending-Harmless (d ∷ ds) r = record {
    same_active = ground arith;
    same_live = λ w. ground arith;
    same_saves = ground arith;
  }

  ensure_all-Harmless :
      (desired : List (Str × Str)) (ds changed : List Str) (r : Run)
      → Harmless r (ensure_all h policy s desired ds changed r).1
  unfolding ensure_all ensure_one is_live
  ensure_all-Harmless desired [] changed r = Harmless-refl r
  ensure_all-Harmless desired (d ∷ ds) changed r =
      let r' = note (ensure_fallback d (desired_name h policy s desired d)) r in
      let one = note-Harmless (ensure_fallback d (desired_name h policy s desired d)) refl r in
      Option-holds (λ (x : (List Str × Option Error) × Run). Harmless r x.1)
        (s.answer r.log (ensure_fallback d (desired_name h policy s desired d)))
        (Harmless-trans r r' _ one (ensure_all-Harmless desired ds _ r')) (λ x. one)

  pub reconcile_fallbacks-Harmless :
      (old new : Option Config) (r : Run) → Harmless r (reconcile_fallbacks h policy s old new r).1
  unfolding reconcile_fallbacks
  reconcile_fallbacks-Harmless old new r =
      Result-holds (λ (x : (List Str × Option Error) × Run). Harmless r x.1)
        (plan_fallbacks h policy s old new) (λ e. Harmless-refl r)
        (λ plan. ensure_all-Harmless plan.1 plan.0 [] r)
