-- ===== src/Watcher/Coalesce.antt =====
-- internal/watcher/watcher.go: what the debounce promises of one trigger and the time after it.
use zoraxy_cert_warden.Base.{
  ℕ, zero, suc, ◌+◌, ◌≤◌, ◌&&◌, ltb, subst, ◌≡◌, refl, ◌⊎◌, inl, inr, Bool, true, false, none, some,
  arith, nat_eq, if-holds,
}
use zoraxy_cert_warden.Base.Runs.{Reach, here, next, Reach-keeps, Reach-trans}
use zoraxy_cert_warden.Watcher.Debounce.{
  armed, fired, accepted, due, owed, owed-set_phase, find_owed, set_phase, Ordered,
  set_phase-Ordered, calling, leaving, finished, phase_of, is_timer, phase_of-set_phase,
  phase_of-set_phase-cases,
}
use zoraxy_cert_warden.Watcher.Invariant.{IsSound, Step-IsSound, new_watcher-IsSound}
use zoraxy_cert_warden.Watcher.Balance.{trigger_debounce-Balanced}
use zoraxy_cert_warden.Watcher.Stopping.{Balanced, Stopped, stop_debounce-Stopped}
use zoraxy_cert_warden.Watcher.{
  Watcher, accept, new_watcher, call_back, callback_done, is_current, trigger_debounce, fire,
  check_timer, return_callback, leave_timer, leave_loop, close_done, finish_stop, Step, starts,
  triggers, loop_returns, fires, checks, calls_back, callback_returns, leaves, stops, stop_finishes,
  arm, stop_debounce,
}

-- Steps between two changes of the files: no trigger, and nobody starts or stops the watcher.
unfoldable pub is_quiet : {has_callback : Bool} {w v : Watcher} → Step has_callback w v → Bool
is_quiet (starts notify e) = false
is_quiet (triggers generation h e) = false
is_quiet (stops e) = false
is_quiet _ = true

abbrev pub Quiet : Bool → Watcher → Watcher → Type 0
Quiet has_callback w v = (s : Step has_callback w v) × (is_quiet s ≡ true)

-- The callbacks begun, and those certain to begin.
abbrev promised : Watcher → ℕ
promised w = w.calls + owed true w.timers

-- The trigger of the timer `t` is kept: its function is under way, or its callback is promised.
abbrev Kept : ℕ → ℕ → ℕ → Watcher → Type 0
Kept generation t n w =
    (is_current generation w ≡ true)
    × (((promised w ≡ suc n) × (w.debounce ≡ none))
        ⊎ ((promised w ≡ n)
            × (w.debounce ≡ some t)
            × ((phase_of w.timers t ≡ some (generation, armed))
                ⊎ (phase_of w.timers t ≡ some (generation, fired)))))

module _ (generation t n : ℕ) (w : Watcher) (k : Kept generation t n w) where
  check_timer-Kept :
      (u g : ℕ) → phase_of w.timers u ≡ some (g, fired) → Kept generation t n (check_timer g u w)
  unfolding check_timer is_current accept is_timer nat_eq due
  check_timer-Kept u g p = ground (
    arith,
    phase_of-set_phase-cases w.timers u g fired leaving t p,
    owed-set_phase true w.timers u g fired leaving p,
    owed-set_phase true w.timers u g fired accepted p,
  )

  Quiet-Kept : (v : Watcher) → Quiet true w v → Kept generation t n v
  unfolding is_quiet is_current leave_loop fire call_back return_callback leave_timer callback_done
      finish_stop close_done nat_eq due
  Quiet-Kept v (loop_returns h c e, q) = ground arith
  Quiet-Kept v (fires u g p e, q) = ground (
    arith,
    phase_of-set_phase-cases w.timers u g armed fired t p,
    owed-set_phase true w.timers u g armed fired p,
  )
  Quiet-Kept v (checks u g p e, q) = rw e (check_timer-Kept u g p)
  Quiet-Kept v (calls_back u g p e, q) = ground (
    arith,
    phase_of-set_phase-cases w.timers u g accepted calling t p,
    owed-set_phase true w.timers u g accepted calling p,
  )
  Quiet-Kept v (callback_returns u g p e, q) = ground (
    arith,
    phase_of-set_phase-cases w.timers u g calling leaving t p,
    owed-set_phase true w.timers u g calling leaving p,
  )
  Quiet-Kept v (leaves u g p e, q) = ground (
    arith,
    phase_of-set_phase-cases w.timers u g leaving finished t p,
    owed-set_phase true w.timers u g leaving finished p,
  )
  Quiet-Kept v (stop_finishes p l c e, q) = ground arith
  Quiet-Kept v (_, q) = cc

check_timer-Ordered :
    (g t : ℕ) (w : Watcher) → Ordered w.timers → Ordered (check_timer g t w).timers
unfolding check_timer accept
check_timer-Ordered g t w o =
    if-holds (λ (x : Watcher). Ordered x.timers) (is_current g w && is_timer w.debounce t)
      (λ e. set_phase-Ordered w.timers t accepted o) (λ e. set_phase-Ordered w.timers t leaving o)

Quiet-Ordered : (w v : Watcher) → Quiet true w v → Ordered w.timers → Ordered v.timers
unfolding is_quiet leave_loop fire call_back return_callback leave_timer callback_done finish_stop
    close_done
Quiet-Ordered w v (loop_returns h c e, q) o = ground (arith, o)
Quiet-Ordered w v (fires u g p e, q) o = rw e (set_phase-Ordered w.timers u fired o)
Quiet-Ordered w v (checks u g p e, q) o = rw e (check_timer-Ordered g u w o)
Quiet-Ordered w v (calls_back u g p e, q) o = rw e (set_phase-Ordered w.timers u calling o)
Quiet-Ordered w v (callback_returns u g p e, q) o = rw e (set_phase-Ordered w.timers u leaving o)
Quiet-Ordered w v (leaves u g p e, q) o = rw e (
    if-holds (λ (x : Watcher). Ordered x.timers) (ltb 0 w.callback_wg)
      (λ l. set_phase-Ordered w.timers u finished o) (λ l. set_phase-Ordered w.timers u finished o))
Quiet-Ordered w v (stop_finishes p l c e, q) o =
    rw e (if-holds (λ (x : Watcher). Ordered x.timers) w.done (λ d. o) (λ d. o))
Quiet-Ordered w v (_, q) o = cc

arm-Kept :
    (g : ℕ) (w v : Watcher)
    → is_current g w ≡ true
    → Stopped w v
    → Kept g w.created (promised w) (arm g v)
unfolding arm is_current phase_of nat_eq owed due
arm-Kept g w v c s = rw (s.same) (ground (arith, s.same_owed true))

trigger_debounce-Kept :
    (g : ℕ) (w : Watcher)
    → Balanced w
    → is_current g w ≡ true
    → Kept g w.created (promised w) (trigger_debounce g w)
unfolding trigger_debounce
trigger_debounce-Kept g w b c =
    if-holds (Kept g w.created (promised w)) (is_current g w)
      (λ e. arm-Kept g w (stop_debounce w) c (stop_debounce-Stopped w b))
      (λ e. absurd (ground arith))

-- Steps of the functions alone bring the watcher to so many callbacks.
abbrev Brings : ℕ → Watcher → Type 0
Brings n w = (u : Watcher) × Reach (Quiet true) w u × (u.calls ≡ n)

Brings-after : (n : ℕ) (w v : Watcher) → Quiet true w v → Brings n v → Brings n w
Brings-after n w v s (u, r, c) = (u, Reach-trans (next here s) r, c)

-- What is certain to begin begins.
all_begin :
    (k : ℕ) (w : Watcher) → Ordered w.timers → owed true w.timers ≡ k → Brings (w.calls + k) w
unfolding is_quiet call_back due
all_begin zero w o e = (w, here, omega arith)
all_begin (suc k) w o e =
    let (t, g, p) = find_owed w.timers o (omega (arith, e)) in
    let d = owed-set_phase true w.timers t g accepted calling p in
    let l = set_phase w.timers t calling in
    let (u, r, c) =
      all_begin k (call_back true t w) (set_phase-Ordered w.timers t calling o)
        (omega (arith, e, d)) in
    (u, Reach-trans (next here (calls_back t g p refl, refl)) r, omega (arith, c))

-- A kept trigger whose function waits for the lock is promised its callback.
check_timer-promises :
    (g t n : ℕ) (w : Watcher)
    → is_current g w ≡ true
    → promised w ≡ n
    → w.debounce ≡ some t
    → phase_of w.timers t ≡ some (g, fired)
    → promised (check_timer g t w) ≡ suc n
unfolding check_timer accept is_timer nat_eq due
check_timer-promises g t n w c k d p =
    ground (arith, owed-set_phase true w.timers t g fired accepted p)

promise_kept : (n : ℕ) (w : Watcher) → Ordered w.timers → promised w ≡ n → Brings n w
promise_kept n w o e = subst (λ m. Brings m w) e (all_begin (owed true w.timers) w o refl)

fired_answers :
    (g t n : ℕ) (w : Watcher)
    → is_current g w ≡ true
    → promised w ≡ n
    → w.debounce ≡ some t
    → Ordered w.timers
    → phase_of w.timers t ≡ some (g, fired)
    → Brings (suc n) w
unfolding is_quiet
fired_answers g t n w c k d o p =
    Brings-after (suc n) w (check_timer g t w) (checks t g p refl, refl)
      (promise_kept (suc n) (check_timer g t w) (check_timer-Ordered g t w o)
        (check_timer-promises g t n w c k d p))

-- A kept trigger is answered, by steps of the functions alone.
answers : (g t n : ℕ) (w : Watcher) → Ordered w.timers → Kept g t n w → Brings (suc n) w
unfolding is_quiet fire is_current due
answers g t n w o (c, inl k) = promise_kept (suc n) w o k.0
answers g t n w o (c, inr (k, d, inr p)) = fired_answers g t n w c k d o p
answers g t n w o (c, inr (k, d, inl p)) =
    Brings-after (suc n) w (fire t w) (fires t g p refl, refl)
      (fired_answers g t n (fire t w) c
        (omega (arith, k, owed-set_phase true w.timers t g armed fired p)) d
        (set_phase-Ordered w.timers t fired o) (phase_of-set_phase w.timers t g armed fired p))

Kept-bound : (g t n : ℕ) (w : Watcher) → Kept g t n w → w.calls ≤ suc n
Kept-bound g t n w k = ground (arith, k)

-- One trigger in a running watcher, and then time without another trigger and without `Start` or
-- `Stop`: beside the callbacks whose functions had passed their test under the lock before the
-- trigger, at most one begins, however many older timers had fired; and the trigger is never lost,
-- since at every moment steps of the timers' functions lead to just so many callbacks.
pub trigger_answered_once :
    (w v : Watcher) (generation : ℕ)
    → Reach (Step true) new_watcher w
    → is_current generation w ≡ true
    → Reach (Quiet true) (trigger_debounce generation w) v
    → (v.calls ≤ suc (w.calls + owed true w.timers))
      × ((u : Watcher) × Reach (Quiet true) v u × (u.calls ≡ suc (w.calls + owed true w.timers)))
trigger_answered_once w v generation r c q =
    let i = Reach-keeps IsSound (Step-IsSound {has_callback = true}) r new_watcher-IsSound in
    let j = trigger_debounce-Balanced generation w i.balanced in
    let (k, o) =
      Reach-keeps (λ x. Kept generation w.created (promised w) x × Ordered x.timers)
        (λ t u s k.
          (Quiet-Kept generation w.created (promised w) t k.0 u s, Quiet-Ordered t u s k.1))
        q (trigger_debounce-Kept generation w i.balanced c, j.ordered) in
    (
      Kept-bound generation w.created (promised w) v k,
      answers generation w.created (promised w) v o k,
    )
