-- ===== src/Watcher/Invariant.antt =====
-- What holds of a watcher of internal/watcher/watcher.go between two steps of its goroutines.
use zoraxy_cert_warden.Base.{
  ℕ, ◌≡◌, refl, ◌⊎◌, Bool, true, false, none, some, arith, nat_eq, ltb, if-holds, ◌&&◌, if-holds,
  ◌&&◌,
}
use zoraxy_cert_warden.Base.Runs.{Reach, Reach-keeps}
use zoraxy_cert_warden.Watcher.Debounce.{
  armed, fired, calling, leaving, finished, phase_of, is_timer, outstanding, weight, OneArmed,
}
use zoraxy_cert_warden.Watcher.{
  accept, shut, launch, stop_from, call_back, LifecycleState, state_ready, state_running,
  state_stopped, Watcher, new_watcher, is_running, launch, stop_from, call_back, start,
  callback_done, is_current, arm, trigger_debounce, fire, check_timer, return_callback, leave_timer,
  leave_loop, close_done, stop, finish_stop, Step, starts, triggers, loop_returns, fires, checks,
  calls_back, callback_returns, leaves, stops, stop_finishes,
}
use zoraxy_cert_warden.Watcher.Stopping.{
  Balanced, frame, moved-Balanced, released-counted, stop_debounce-Stopped,
}
use zoraxy_cert_warden.Watcher.Balance.{
  and-true, trigger_debounce-Balanced, check_timer-Balanced, call_back-Balanced,
  leave_timer-Balanced, launch-Balanced, start_from-launch, close_done-Balanced,
  leave_loop-Balanced, stop_from-Balanced,
}

-- The life cycle.
pub record Lively (w : Watcher) : Type 0 where
  pub idle : is_running w.state ≡ false → w.debounce ≡ none
  pub ready :
      w.state ≡ state_ready
      → (w.loop_wg ≡ 0)
        × (w.callback_wg ≡ 0)
        × (w.cancelled ≡ false)
        × (w.stopping ≡ false)
        × (w.done ≡ false)
  pub running :
      w.state ≡ state_running → (w.cancelled ≡ false) × (w.stopping ≡ false) × (w.done ≡ false)
  pub stopped :
      w.state ≡ state_stopped
      → ((w.stopping ≡ true) × (w.done ≡ false) × (w.cancelled ≡ true))
        ⊎ ((w.stopping ≡ false) × (w.done ≡ true) × (w.loop_wg ≡ 0) × (w.callback_wg ≡ 0))

pub record IsSound (w : Watcher) : Type 0 where
  pub balanced : Balanced w
  pub lively : Lively w

pub new_watcher-IsSound : IsSound new_watcher
unfolding new_watcher phase_of outstanding
new_watcher-IsSound = record {
  balanced = record {
    counted = refl;
    calm = refl;
    one_armed = λ t g e. cc;
    numbered = λ t le. refl;
    ordered = tt;
  };
  lively = ground arith;
}

-- A `Stop` that waits has stopped the watcher, and `done` is still open.
pub stopping-open :
    (w : Watcher)
    → Lively w
    → w.stopping ≡ true
    → (w.state ≡ state_stopped) × (w.done ≡ false) × (w.cancelled ≡ true)
stopping-open w l s = ground arith

trigger_debounce-Lively : (g : ℕ) (w : Watcher) → IsSound w → Lively (trigger_debounce g w)
unfolding trigger_debounce is_current arm
trigger_debounce-Lively g w i =
    if-holds Lively (is_current g w)
      (λ e.
        let r = (and-true (is_running w.state) _ e).0 in
        let s = stop_debounce-Stopped w i.balanced in rw (s.same) (ground (arith, i.lively)))
      (λ e. i.lively)

check_timer-Lively : (t g : ℕ) (w : Watcher) → IsSound w → Lively (check_timer g t w)
unfolding check_timer accept
check_timer-Lively t g w i =
    if-holds Lively (is_current g w && is_timer w.debounce t) (λ e. ground (arith, i.lively))
      (λ e. ground (arith, i.lively))

call_back-Lively :
    (has_callback : Bool) (t : ℕ) (w : Watcher) → IsSound w → Lively (call_back has_callback t w)
unfolding call_back
call_back-Lively true t w i = ground (arith, i.lively)
call_back-Lively false t w i = ground (arith, i.lively)

leave_timer-Lively :
    (t g : ℕ) (w : Watcher)
    → IsSound w
    → phase_of w.timers t ≡ some (g, leaving)
    → Lively (leave_timer t w)
unfolding leave_timer callback_done weight
leave_timer-Lively t g w i p =
    let c = released-counted w i.balanced t g leaving finished p (λ x. cc) refl refl in
    if-holds Lively (ltb 0 w.callback_wg) (λ e. ground (arith, i.lively, c))
      (λ e. ground (arith, i.lively, c))

stop_from-Lively :
    (s : LifecycleState) (w : Watcher) → IsSound w → w.state ≡ s → Lively (stop_from s w)
unfolding stop_from close_done
stop_from-Lively state_stopped w i e = i.lively
stop_from-Lively state_ready w i e =
    if-holds Lively w.done (λ d. ground (arith, i.lively)) (λ d. ground (arith, i.lively))
stop_from-Lively state_running w i e =
    let s = stop_debounce-Stopped (shut w) (frame w (shut w) i.balanced refl refl refl refl refl) in
    rw (s.same) (ground (arith, i.lively))

-- Each step keeps the balance of the timers.
module _ {has_callback : Bool} where
  Step-Balanced : (w v : Watcher) → Step has_callback w v → IsSound w → Balanced v
  unfolding start fire return_callback stop finish_stop weight
  Step-Balanced w v (starts notify e) i =
      rw (start_from-launch w.state notify w v e).1 (launch-Balanced notify w i.balanced)
  Step-Balanced w v (triggers generation h e) i =
      rw e (trigger_debounce-Balanced generation w i.balanced)
  Step-Balanced w v (loop_returns h c e) i = rw e (leave_loop-Balanced w i.balanced h)
  Step-Balanced w v (fires t g p e) i =
      rw e (moved-Balanced w i.balanced t g armed fired p (λ x. cc) refl)
  Step-Balanced w v (checks t g p e) i = rw e (check_timer-Balanced t g w i.balanced p)
  Step-Balanced w v (calls_back t g p e) i =
      rw e (call_back-Balanced has_callback t g w i.balanced p)
  Step-Balanced w v (callback_returns t g p e) i =
      rw e (moved-Balanced w i.balanced t g calling leaving p (λ x. cc) refl)
  Step-Balanced w v (leaves t g p e) i = rw e (leave_timer-Balanced t g w i.balanced p)
  Step-Balanced w v (stops e) i =
      rw e (stop_from-Balanced w.state w i.balanced (λ r. (i.lively.ready r).4))
  Step-Balanced w v (stop_finishes p l c e) i = rw e (
      close_done-Balanced (record w { stopping = false })
        (frame w (record w { stopping = false }) i.balanced refl refl refl refl refl)
        (stopping-open w i.lively p).1)

  Step-Lively : (w v : Watcher) → Step has_callback w v → IsSound w → Lively v
  unfolding start fire return_callback stop finish_stop close_done leave_loop launch
  Step-Lively w v (starts notify e) i =
      let l = start_from-launch w.state notify w v e in rw (l.1) (ground (arith, i.lively, l))
  Step-Lively w v (triggers generation h e) i = rw e (trigger_debounce-Lively generation w i)
  Step-Lively w v (loop_returns h c e) i = rw e (ground (arith, i.lively))
  Step-Lively w v (fires t g p e) i = rw e (ground (arith, i.lively))
  Step-Lively w v (checks t g p e) i = rw e (check_timer-Lively t g w i)
  Step-Lively w v (calls_back t g p e) i = rw e (call_back-Lively has_callback t w i)
  Step-Lively w v (callback_returns t g p e) i = rw e (ground (arith, i.lively))
  Step-Lively w v (leaves t g p e) i = rw e (leave_timer-Lively t g w i p)
  Step-Lively w v (stops e) i = rw e (stop_from-Lively w.state w i refl)
  Step-Lively w v (stop_finishes p l c e) i =
      rw e (if-holds Lively w.done (λ d. ground (arith, i.lively)) (λ d. ground (arith, i.lively)))

  pub Step-IsSound : (w v : Watcher) → Step has_callback w v → IsSound w → IsSound v
  Step-IsSound w v step i = record {
    balanced = Step-Balanced w v step i;
    lively = Step-Lively w v step i;
  }

done_stopped :
    (w : Watcher)
    → Lively w
    → (w.done ≡ false) ⊎ ((w.state ≡ state_stopped) × (w.loop_wg ≡ 0) × (w.callback_wg ≡ 0))
done_stopped w l = ground (arith, l)

-- Whatever the goroutines of a watcher do, in any order, the wait group of the callbacks counts
-- exactly the timer functions that have not ended and not been stopped, it never falls below zero
-- and no channel is closed twice, no timer is armed but the one that the debounce waits for, and
-- once `done` is closed the loops and the functions have ended.
pub watcher_sound :
    (has_callback : Bool) (w : Watcher)
    → Reach (Step has_callback) new_watcher w
    → (w.callback_wg ≡ outstanding w.timers)
      × (w.panicked ≡ false)
      × OneArmed w.timers w.debounce
      × ((w.done ≡ false) ⊎ ((w.state ≡ state_stopped) × (w.loop_wg ≡ 0) × (w.callback_wg ≡ 0)))
watcher_sound has_callback w r =
    let i =
      Reach-keeps IsSound (Step-IsSound {has_callback = has_callback}) r new_watcher-IsSound in
    (i.balanced.counted, i.balanced.calm, i.balanced.one_armed, done_stopped w i.lively)
