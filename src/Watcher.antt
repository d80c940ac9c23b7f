-- ===== src/Watcher.antt =====
-- internal/watcher/watcher.go: the life of a watcher, which two loops, the timers of the debounce
-- and the callers of `Stop` share. Each section under the lock is one operation.
pub mod Debounce
pub mod Stopping
pub mod Balance
pub mod Invariant
pub mod Shutdown
pub mod Coalesce
pub mod Polling
pub mod Changes
use zoraxy_cert_warden.Base.{
  ℕ, suc, ◌+◌, ◌-◌, ◌%◌, ◌^◌, ◌<◌, ◌≡◌, Bool, true, false, ◌&&◌, Option, none, some, List, [], ◌∷◌,
  ◌==◌, nat_eq, if◌then◌else◌, ltb,
}
use zoraxy_cert_warden.Watcher.Debounce.{
  Phase, armed, fired, accepted, calling, leaving, finished, Timers, phase_of, set_phase, is_armed,
  is_timer,
}

pub data LifecycleState : Type 0 where
  state_ready state_running state_stopped : LifecycleState

-- `Watcher`, by the fields that its goroutines share: `ctx.Err()`, the two wait groups, and
-- whether `done` is closed. A timer is known by its number, in the order of creation. `stopping`
-- says that a call of `Stop` waits for the goroutines; `calls` counts the callbacks begun, and
-- `panicked` records a wait group below zero or a channel closed twice.
pub record Watcher : Type 0 where
  pub state : LifecycleState
  pub generation : ℕ
  pub cancelled : Bool
  pub debounce : Option ℕ
  pub timers : Timers
  pub created : ℕ
  pub loop_wg : ℕ
  pub callback_wg : ℕ
  pub stopping : Bool
  pub done : Bool
  pub calls : ℕ
  pub panicked : Bool

unfoldable pub new_watcher : Watcher
new_watcher = record {
  state = state_ready;
  generation = 0;
  cancelled = false;
  debounce = none;
  timers = [];
  created = 0;
  loop_wg = 0;
  callback_wg = 0;
  stopping = false;
  done = false;
  calls = 0;
  panicked = false;
}

-- `w.generation++` on a `uint64`
abbrev pub next_generation : ℕ → ℕ
next_generation g = (g + 1) % 2 ^ 64

abbrev pub is_running : LifecycleState → Bool
is_running state_running = true
is_running _ = false

-- `Start` in the state `stateReady`.
unfoldable pub launch : Bool → Watcher → Watcher
launch notify w = record w {
  state = state_running;
  generation = next_generation w.generation;
  loop_wg = w.loop_wg + (if notify then 2 else 1);
}

unfoldable pub start_from : LifecycleState → Bool → Watcher → Option Watcher
unfolding launch
start_from state_ready notify w = some (launch notify w)
start_from _ notify w = none

-- `Start`: `none` is `ErrAlreadyStarted`. The argument says whether fsnotify runs beside polling.
unfoldable pub start : Bool → Watcher → Option Watcher
unfolding start_from
start notify w = start_from w.state notify w

-- `w.callbackWG.Done()`
unfoldable pub callback_done : Watcher → Watcher
callback_done w =
    if ltb 0 w.callback_wg
    then record w { callback_wg = w.callback_wg - 1 }
    else record w { panicked = true }

-- `w.debounce.Stop()`, and `w.callbackWG.Done()` if it stopped the timer.
unfoldable pub stop_timer : ℕ → Watcher → Watcher
unfolding callback_done is_armed
stop_timer t w =
    if is_armed (phase_of w.timers t)
    then callback_done (record w { timers = set_phase w.timers t finished })
    else w

unfoldable pub stop_pending : Option ℕ → Watcher → Watcher
unfolding stop_timer
stop_pending none w = w
stop_pending (some t) w = stop_timer t w

-- `if w.debounce != nil && w.debounce.Stop() { w.callbackWG.Done() }`
unfoldable pub stop_debounce : Watcher → Watcher
unfolding stop_pending
stop_debounce w = stop_pending w.debounce w

-- `w.state != stateRunning || w.generation != generation || ctx.Err() != nil`, negated.
unfoldable pub is_current : ℕ → Watcher → Bool
unfolding nat_eq
is_current generation w =
    is_running w.state && (w.generation == generation && (if w.cancelled then false else true))

-- `time.AfterFunc` with what stands around it.
unfoldable pub arm : ℕ → Watcher → Watcher
arm generation w = record w {
  callback_wg = w.callback_wg + 1;
  timers = (w.created, (generation, armed)) ∷ w.timers;
  created = suc w.created;
  debounce = some w.created;
}

-- `triggerDebounce`
unfoldable pub trigger_debounce : ℕ → Watcher → Watcher
unfolding is_current arm stop_debounce
trigger_debounce generation w =
    if is_current generation w then arm generation (stop_debounce w) else w

-- The runtime starts the function of a timer.
unfoldable pub fire : ℕ → Watcher → Watcher
fire t w = record w { timers = set_phase w.timers t fired }

-- The timer's function has passed the test, and lets go of the lock.
unfoldable pub accept : ℕ → Watcher → Watcher
accept t w = record w { debounce = none; timers = set_phase w.timers t accepted }

-- That function under the lock.
unfoldable pub check_timer : ℕ → ℕ → Watcher → Watcher
unfolding is_current is_timer accept
check_timer generation t w =
    if is_current generation w && is_timer w.debounce t
    then accept t w
    else record w { timers = set_phase w.timers t leaving }

-- Without the lock, it begins the callback, if there is one.
unfoldable pub call_back : Bool → ℕ → Watcher → Watcher
call_back true t w = record w { timers = set_phase w.timers t calling; calls = suc w.calls }
call_back false t w = record w { timers = set_phase w.timers t leaving }

-- The callback returns.
unfoldable pub return_callback : ℕ → Watcher → Watcher
return_callback t w = record w { timers = set_phase w.timers t leaving }

-- The deferred `w.callbackWG.Done()` of the function.
unfoldable pub leave_timer : ℕ → Watcher → Watcher
unfolding callback_done
leave_timer t w = callback_done (record w { timers = set_phase w.timers t finished })

-- `defer w.loopWG.Done()` of the two loops.
unfoldable pub leave_loop : Watcher → Watcher
leave_loop w =
    if ltb 0 w.loop_wg then record w { loop_wg = w.loop_wg - 1 } else record w { panicked = true }

-- `close(w.done)`
unfoldable pub close_done : Watcher → Watcher
close_done w = if w.done then record w { panicked = true } else record w { done = true }

-- `w.state = stateStopped; w.generation++; w.cancel()`
abbrev pub shut : Watcher → Watcher
shut w = record w {
  state = state_stopped;
  generation = next_generation w.generation;
  cancelled = true;
}

unfoldable pub stop_from : LifecycleState → Watcher → Watcher
unfolding stop_debounce close_done
stop_from state_stopped w = w
stop_from state_ready w =
    close_done (record w { state = state_stopped; generation = next_generation w.generation })
stop_from state_running w = record (stop_debounce (shut w)) { debounce = none; stopping = true }

-- `Stop` under the lock.
unfoldable pub stop : Watcher → Watcher
unfolding stop_from
stop w = stop_from w.state w

-- `Stop` after the two waits.
unfoldable pub finish_stop : Watcher → Watcher
unfolding close_done
finish_stop w = close_done (record w { stopping = false })

-- What may happen next, in any order: `Start` succeeds; a loop asks for the callback, or returns
-- once the context is cancelled; the function of a timer takes its next step; somebody calls
-- `Stop`, or a `Stop` has waited for the loops and for the functions.
pub data Step (has_callback : Bool) (w v : Watcher) : Type 0 where
  starts : (notify : Bool) → start notify w ≡ some v → Step has_callback w v
  triggers :
      (generation : ℕ) → 0 < w.loop_wg → v ≡ trigger_debounce generation w → Step has_callback w v
  loop_returns : 0 < w.loop_wg → w.cancelled ≡ true → v ≡ leave_loop w → Step has_callback w v
  fires :
      (t generation : ℕ)
      → phase_of w.timers t ≡ some (generation, armed)
      → v ≡ fire t w
      → Step has_callback w v
  checks :
      (t generation : ℕ)
      → phase_of w.timers t ≡ some (generation, fired)
      → v ≡ check_timer generation t w
      → Step has_callback w v
  calls_back :
      (t generation : ℕ)
      → phase_of w.timers t ≡ some (generation, accepted)
      → v ≡ call_back has_callback t w
      → Step has_callback w v
  callback_returns :
      (t generation : ℕ)
      → phase_of w.timers t ≡ some (generation, calling)
      → v ≡ return_callback t w
      → Step has_callback w v
  leaves :
      (t generation : ℕ)
      → phase_of w.timers t ≡ some (generation, leaving)
      → v ≡ leave_timer t w
      → Step has_callback w v
  stops : v ≡ stop w → Step has_callback w v
  stop_finishes :
      w.stopping ≡ true
      → w.loop_wg ≡ 0
      → w.callback_wg ≡ 0
      → v ≡ finish_stop w
      → Step has_callback w v
