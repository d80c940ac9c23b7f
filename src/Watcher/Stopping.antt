-- ===== src/Watcher/Stopping.antt =====
-- The timers and the wait group of internal/watcher/watcher.go: what balance between them is, and how
-- stopping a timer keeps it.
use zoraxy_cert_warden.Base.{
  ℕ, suc, ◌<◌, ◌≡◌, refl, sym, Bool, false, Option, none, some, arith, nat_eq, ap,
}
use zoraxy_cert_warden.Watcher.Debounce.{
  Phase, armed, fired, accepted, calling, owed, due, owed-set_phase, leaving, finished, Timers,
  phase_of, set_phase, is_armed, outstanding, weight, Disarmed, OneArmed, Numbered,
  outstanding-set_phase, set_phase-OneArmed, set_phase-Disarmed, set_phase-Numbered, Ordered,
  set_phase-Ordered,
}
use zoraxy_cert_warden.Watcher.{Watcher, callback_done, stop_timer, stop_pending, stop_debounce}

-- The timers: the wait group counts the functions that still owe it a `Done`, and no timer is
-- armed but the one that the debounce waits for.
pub record Balanced (w : Watcher) : Type 0 where
  pub counted : w.callback_wg ≡ outstanding w.timers
  pub calm : w.panicked ≡ false
  pub one_armed : OneArmed w.timers w.debounce
  pub numbered : Numbered w.timers w.created
  pub ordered : Ordered w.timers

-- The fields of the timers decide.
pub frame :
    (w v : Watcher)
    → Balanced w
    → v.callback_wg ≡ w.callback_wg
    → v.panicked ≡ w.panicked
    → v.timers ≡ w.timers
    → v.debounce ≡ w.debounce
    → v.created ≡ w.created
    → Balanced v
frame w v b c p t d n = record {
  counted = rw c (rw t b.counted);
  calm = rw p b.calm;
  one_armed = rw t (rw d b.one_armed);
  numbered = rw t (rw n b.numbered);
  ordered = rw t b.ordered;
}

module _ (w : Watcher) (b : Balanced w) (t g : ℕ) (q p : Phase)
    (e : phase_of w.timers t ≡ some (g, q)) (away : p ≡ armed → ⊥) where
  -- A timer of weight one takes a new phase of weight one.
  pub moved-Balanced : weight q ≡ weight p → Balanced (record w { timers = set_phase w.timers t p })
  moved-Balanced same = record {
    counted = ground (arith, outstanding-set_phase w.timers t g q p e, b.counted);
    calm = b.calm;
    one_armed = set_phase-OneArmed w.timers w.debounce t g q p e away b.one_armed;
    numbered = set_phase-Numbered w.timers w.created t g q p e b.numbered;
    ordered = set_phase-Ordered w.timers t p b.ordered;
  }

  -- A function that owes a `Done` gives it: the wait group is above zero.
  pub released-counted :
      weight q ≡ 1
      → weight p ≡ 0
      → (0 < w.callback_wg) × (w.callback_wg ≡ suc (outstanding (set_phase w.timers t p)))
  released-counted one zero = ground (arith, outstanding-set_phase w.timers t g q p e, b.counted)

-- What a trigger, or `Stop`, makes of the timers: the fields of the life cycle stay.
pub record Stopped (w v : Watcher) : Type 0 where
  pub wg : ℕ
  pub timers : Timers
  pub same : v ≡ record w { callback_wg = wg; timers = timers }
  pub counted : wg ≡ outstanding timers
  pub disarmed : Disarmed timers
  pub numbered : Numbered timers w.created
  pub ordered : Ordered timers
  pub same_owed : (b : Bool) → owed b timers ≡ owed b w.timers

untouched-Stopped :
    (w : Watcher) (t : ℕ)
    → Balanced w
    → w.debounce ≡ some t
    → is_armed (phase_of w.timers t) ≡ false
    → Stopped w (stop_timer t w)
unfolding stop_timer is_armed
untouched-Stopped w t b d n = record {
  wg = w.callback_wg;
  timers = w.timers;
  same = ground arith;
  counted = b.counted;
  disarmed = λ u g a. ground (arith, b.one_armed u g a);
  numbered = b.numbered;
  ordered = b.ordered;
  same_owed = λ c. refl;
}

stop_timer-Stopped :
    (w : Watcher) (t : ℕ)
    → Balanced w
    → w.debounce ≡ some t
    → (p : Option (ℕ × Phase)) → phase_of w.timers t ≡ p
    → Stopped w (stop_timer t w)
unfolding stop_timer is_armed callback_done weight due
stop_timer-Stopped w t b d (some (g, armed)) e =
    let l = set_phase w.timers t finished in
    let c = released-counted w b t g armed finished e (λ x. cc) refl refl in
    record {
      wg = outstanding l;
      timers = l;
      same = ground (arith, c);
      counted = refl;
      disarmed =
          set_phase-Disarmed w.timers t g armed finished e (λ x. cc) (rw (sym d) b.one_armed);
      numbered = set_phase-Numbered w.timers w.created t g armed finished e b.numbered;
      ordered = set_phase-Ordered w.timers t finished b.ordered;
      same_owed = λ c. ground (arith, owed-set_phase c w.timers t g armed finished e);
    }
stop_timer-Stopped w t b d none e = untouched-Stopped w t b d (ap is_armed e)
stop_timer-Stopped w t b d (some (g, fired)) e = untouched-Stopped w t b d (ap is_armed e)
stop_timer-Stopped w t b d (some (g, accepted)) e = untouched-Stopped w t b d (ap is_armed e)
stop_timer-Stopped w t b d (some (g, calling)) e = untouched-Stopped w t b d (ap is_armed e)
stop_timer-Stopped w t b d (some (g, leaving)) e = untouched-Stopped w t b d (ap is_armed e)
stop_timer-Stopped w t b d (some (g, finished)) e = untouched-Stopped w t b d (ap is_armed e)

stop_pending-Stopped :
    (w : Watcher) → Balanced w → (d : Option ℕ) → w.debounce ≡ d → Stopped w (stop_pending d w)
unfolding stop_pending
stop_pending-Stopped w b none e = record {
  wg = w.callback_wg;
  timers = w.timers;
  same = refl;
  counted = b.counted;
  disarmed = λ u g a. ground (arith, b.one_armed u g a);
  numbered = b.numbered;
  ordered = b.ordered;
  same_owed = λ c. refl;
}
stop_pending-Stopped w b (some t) e = stop_timer-Stopped w t b e (phase_of w.timers t) refl

pub stop_debounce-Stopped : (w : Watcher) → Balanced w → Stopped w (stop_debounce w)
unfolding stop_debounce
stop_debounce-Stopped w b = stop_pending-Stopped w b w.debounce refl
