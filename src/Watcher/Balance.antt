-- ===== src/Watcher/Balance.antt =====
-- The timers and the wait group of the callbacks of internal/watcher/watcher.go: how each operation
-- keeps them in balance.
use zoraxy_cert_warden.Base.{
  ℕ, ◌-◌, ◌<◌, ◌≡◌, refl, sym, Bool, true, false, Option, none, some, arith, nat_eq, ltb, if-holds,
  ◌&&◌,
}
use zoraxy_cert_warden.Watcher.Debounce.{
  fired, accepted, calling, leaving, finished, phase_of, set_phase, is_timer, outstanding, weight,
  set_phase-OneArmed, set_phase-Disarmed, set_phase-Numbered, set_phase-Ordered,
}
use zoraxy_cert_warden.Watcher.{
  next_generation, shut, LifecycleState, state_ready, state_running, state_stopped, Watcher, launch,
  start_from, stop_from, accept, call_back, callback_done, stop_debounce, is_current, arm,
  trigger_debounce, check_timer, leave_timer, leave_loop, close_done,
}
use zoraxy_cert_warden.Watcher.Stopping.{
  Balanced, frame, moved-Balanced, released-counted, Stopped, stop_debounce-Stopped,
}

arm-Balanced :
    (generation : ℕ) (w v : Watcher) → Balanced w → Stopped w v → Balanced (arm generation v)
unfolding arm phase_of nat_eq outstanding weight
arm-Balanced generation w v b s = rw (s.same) record {
  counted = ground (arith, s.counted);
  calm = b.calm;
  one_armed = λ u g a. ground (arith, s.disarmed u g);
  numbered = λ u le. ground (arith, s.numbered u (omega arith));
  ordered = (s.numbered, s.ordered);
}

pub trigger_debounce-Balanced :
    (generation : ℕ) (w : Watcher) → Balanced w → Balanced (trigger_debounce generation w)
unfolding trigger_debounce
trigger_debounce-Balanced generation w b =
    if-holds Balanced (is_current generation w)
      (λ e. arm-Balanced generation w (stop_debounce w) b (stop_debounce-Stopped w b)) (λ e. b)

is_timer-true : (d : Option ℕ) (t : ℕ) → is_timer d t ≡ true → d ≡ some t
unfolding is_timer nat_eq
is_timer-true none t e = cc
is_timer-true (some d) t e = ground arith

pub and-true : (a b : Bool) → (a && b) ≡ true → (a ≡ true) × (b ≡ true)
and-true true b e = (refl, e)
and-true false b e = cc

accept-Balanced :
    (t g : ℕ) (w : Watcher)
    → Balanced w
    → phase_of w.timers t ≡ some (g, fired)
    → w.debounce ≡ some t
    → Balanced (accept t w)
unfolding accept weight
accept-Balanced t g w b p d =
    let m = moved-Balanced w b t g fired accepted p (λ x. cc) refl in
    record {
      counted = m.counted;
      calm = b.calm;
      one_armed = λ u g' a. absurd (
          set_phase-Disarmed w.timers t g fired accepted p (λ x. cc) (rw (sym d) b.one_armed) u g'
            a);
      numbered = m.numbered;
      ordered = m.ordered;
    }

pub check_timer-Balanced :
    (t g : ℕ) (w : Watcher)
    → Balanced w
    → phase_of w.timers t ≡ some (g, fired)
    → Balanced (check_timer g t w)
unfolding check_timer weight
check_timer-Balanced t g w b p =
    if-holds Balanced (is_current g w && is_timer w.debounce t)
      (λ e.
        accept-Balanced t g w b p
          (is_timer-true w.debounce t (and-true (is_current g w) (is_timer w.debounce t) e).1))
      (λ e. moved-Balanced w b t g fired leaving p (λ x. cc) refl)

pub call_back-Balanced :
    (has_callback : Bool) (t g : ℕ) (w : Watcher)
    → Balanced w
    → phase_of w.timers t ≡ some (g, accepted)
    → Balanced (call_back has_callback t w)
unfolding call_back weight
call_back-Balanced true t g w b p =
    let m = moved-Balanced w b t g accepted calling p (λ x. cc) refl in
    frame (record w { timers = set_phase w.timers t calling }) _ m refl refl refl refl refl
call_back-Balanced false t g w b p = moved-Balanced w b t g accepted leaving p (λ x. cc) refl

pub leave_timer-Balanced :
    (t g : ℕ) (w : Watcher)
    → Balanced w
    → phase_of w.timers t ≡ some (g, leaving)
    → Balanced (leave_timer t w)
unfolding leave_timer callback_done weight
leave_timer-Balanced t g w b p =
    let c = released-counted w b t g leaving finished p (λ x. cc) refl refl in
    if-holds Balanced (ltb 0 w.callback_wg)
      (λ e. record {
        counted = omega (arith, c);
        calm = b.calm;
        one_armed =
            set_phase-OneArmed w.timers w.debounce t g leaving finished p (λ x. cc) b.one_armed;
        numbered = set_phase-Numbered w.timers w.created t g leaving finished p b.numbered;
        ordered = set_phase-Ordered w.timers t finished b.ordered;
      })
      (λ e. ground (arith, c))

pub launch-Balanced : (notify : Bool) (w : Watcher) → Balanced w → Balanced (launch notify w)
unfolding launch
launch-Balanced notify w b = frame w (launch notify w) b refl refl refl refl refl

pub start_from-launch :
    (s : LifecycleState) (notify : Bool) (w v : Watcher)
    → start_from s notify w ≡ some v
    → (s ≡ state_ready) × (v ≡ launch notify w)
unfolding start_from
start_from-launch state_ready notify w v e = (refl, cc)
start_from-launch state_running notify w v e = cc
start_from-launch state_stopped notify w v e = cc

pub close_done-Balanced : (w : Watcher) → Balanced w → w.done ≡ false → Balanced (close_done w)
unfolding close_done
close_done-Balanced w b d =
    if-holds Balanced w.done (λ e. cc)
      (λ e. frame w (record w { done = true }) b refl refl refl refl refl)

pub leave_loop-Balanced : (w : Watcher) → Balanced w → 0 < w.loop_wg → Balanced (leave_loop w)
unfolding leave_loop
leave_loop-Balanced w b h =
    if-holds Balanced (ltb 0 w.loop_wg)
      (λ e. frame w (record w { loop_wg = w.loop_wg - 1 }) b refl refl refl refl refl)
      (λ e. ground arith)

pub stop_from-Balanced :
    (s : LifecycleState) (w : Watcher)
    → Balanced w
    → (s ≡ state_ready → w.done ≡ false)
    → Balanced (stop_from s w)
unfolding stop_from
stop_from-Balanced state_stopped w b d = b
stop_from-Balanced state_ready w b d =
    close_done-Balanced
      (record w { state = state_stopped; generation = next_generation w.generation })
      (frame w (record w { state = state_stopped; generation = next_generation w.generation }) b
        refl refl refl refl refl)
      (d refl)
stop_from-Balanced state_running w b d =
    let s = stop_debounce-Stopped (shut w) (frame w (shut w) b refl refl refl refl refl) in
    rw (s.same) record {
      counted = s.counted;
      calm = b.calm;
      one_armed = λ u g a. absurd (s.disarmed u g a);
      numbered = s.numbered;
      ordered = s.ordered;
    }
