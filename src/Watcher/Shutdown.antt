-- ===== src/Watcher/Shutdown.antt =====
-- internal/watcher/watcher.go after `Stop` has taken the lock: which callbacks still begin, and how
-- what is under way comes to its end.
use zoraxy_cert_warden.Base.{
  ℕ, zero, suc, ◌+◌, ◌<◌, ◌≡◌, refl, ◌∙◌, ◌⊎◌, inl, inr, Bool, true, false, some, arith, nat_eq,
  Bool-cases, ltb,
}
use zoraxy_cert_warden.Base.Runs.{Reach, here, next, Reach-keeps, Reach-trans}
use zoraxy_cert_warden.Watcher.Debounce.{
  Phase, armed, fired, accepted, due, owed, owed-set_phase, owed_le, calling, leaving, finished,
  phase_of, weight, effort, efforts, efforts-set_phase, find_outstanding,
}
use zoraxy_cert_warden.Watcher.Stopping.{released-counted}
use zoraxy_cert_warden.Watcher.Balance.{start_from-launch}
use zoraxy_cert_warden.Watcher.Invariant.{IsSound, Step-IsSound, new_watcher-IsSound, stopping-open}
use zoraxy_cert_warden.Watcher.{
  state_stopped, Watcher, new_watcher, stop_from, start, callback_done, is_current,
  trigger_debounce, fire, check_timer, call_back, return_callback, leave_timer, leave_loop,
  close_done, stop, finish_stop, Step, starts, triggers, loop_returns, fires, checks, calls_back,
  callback_returns, leaves, stops, stop_finishes,
}

-- The steps that a stopped watcher still has before it.
unfoldable pub remaining : Watcher → ℕ
remaining w = efforts w.timers + w.loop_wg + (elim w.stopping [ true ↦ 1 | false ↦ 0 ])

-- What a step of a stopped watcher does: it is still stopped, a callback has begun only where its
-- function had passed the test before, and either nothing has changed or less remains.
abbrev Wanes : Bool → Watcher → Watcher → Type 0
Wanes has_callback w v =
    (v.state ≡ state_stopped)
    × (v.calls + owed has_callback v.timers ≡ w.calls + owed has_callback w.timers)
    × (w.done ≡ true → v.done ≡ true)
    × ((v ≡ w) ⊎ (remaining v < remaining w))

waiting : (w : Watcher) → IsSound w → w.state ≡ state_stopped → w.done ≡ false → w.stopping ≡ true
waiting w i halted waits = ground (arith, i.lively)

module _ (w : Watcher) (halted : w.state ≡ state_stopped) where
  call_back-Wanes :
      (has_callback : Bool) (v : Watcher) (t g : ℕ)
      → phase_of w.timers t ≡ some (g, accepted)
      → v ≡ call_back has_callback t w
      → Wanes has_callback w v
  unfolding call_back remaining effort due
  call_back-Wanes true v t g p e = ground (
    arith,
    efforts-set_phase w.timers t g accepted calling p,
    owed-set_phase true w.timers t g accepted calling p,
  )
  call_back-Wanes false v t g p e = ground (
    arith,
    efforts-set_phase w.timers t g accepted leaving p,
    owed-set_phase false w.timers t g accepted leaving p,
  )

  call_back-remaining :
      (has_callback : Bool) (t g : ℕ)
      → phase_of w.timers t ≡ some (g, accepted)
      → remaining (call_back has_callback t w) < remaining w
  unfolding call_back remaining effort
  call_back-remaining true t g p = ground (arith, efforts-set_phase w.timers t g accepted calling p)
  call_back-remaining false t g p =
      ground (arith, efforts-set_phase w.timers t g accepted leaving p)

module _ {has_callback : Bool} (w : Watcher) (i : IsSound w)
    (halted : w.state ≡ state_stopped) where
  Step-Wanes : (v : Watcher) → Step has_callback w v → Wanes has_callback w v
  unfolding start trigger_debounce is_current leave_loop fire check_timer call_back return_callback
      leave_timer callback_done stop stop_from finish_stop close_done remaining effort weight due
  Step-Wanes v (starts notify e) = ground (arith, start_from-launch w.state notify w v e)
  Step-Wanes v (triggers generation h e) = ground arith
  Step-Wanes v (loop_returns h c e) = ground arith
  Step-Wanes v (fires t g p e) = ground (
    arith,
    efforts-set_phase w.timers t g armed fired p,
    owed-set_phase has_callback w.timers t g armed fired p,
  )
  Step-Wanes v (checks t g p e) = ground (
    arith,
    efforts-set_phase w.timers t g fired leaving p,
    owed-set_phase has_callback w.timers t g fired leaving p,
  )
  Step-Wanes v (calls_back t g p e) = call_back-Wanes w halted has_callback v t g p e
  Step-Wanes v (callback_returns t g p e) = ground (
    arith,
    efforts-set_phase w.timers t g calling leaving p,
    owed-set_phase has_callback w.timers t g calling leaving p,
  )
  Step-Wanes v (leaves t g p e) = ground (
    arith,
    efforts-set_phase w.timers t g leaving finished p,
    owed-set_phase has_callback w.timers t g leaving finished p,
    released-counted w i.balanced t g leaving finished p (λ x. cc) refl refl,
  )
  Step-Wanes v (stops e) = ground arith
  Step-Wanes v (stop_finishes p l c e) = ground arith

  -- As long as `done` is open, some goroutine can take a step, and less remains after it.
  module _ (waits : w.done ≡ false) where
    function_goes_on :
        (t g : ℕ) (p : Phase)
        → phase_of w.timers t ≡ some (g, p)
        → weight p ≡ 1
        → (v : Watcher) × Step has_callback w v × (remaining v < remaining w)
    unfolding weight fire check_timer is_current return_callback leave_timer callback_done remaining
        effort
    function_goes_on t g armed e one =
        (fire t w, fires t g e refl, ground (arith, efforts-set_phase w.timers t g armed fired e))
    function_goes_on t g fired e one = (
      check_timer g t w,
      checks t g e refl,
      ground (arith, efforts-set_phase w.timers t g fired leaving e),
    )
    function_goes_on t g accepted e one = (
      call_back has_callback t w,
      calls_back t g e refl,
      call_back-remaining w halted has_callback t g e,
    )
    function_goes_on t g calling e one = (
      return_callback t w,
      callback_returns t g e refl,
      ground (arith, efforts-set_phase w.timers t g calling leaving e),
    )
    function_goes_on t g leaving e one = (
      leave_timer t w,
      leaves t g e refl,
      ground (arith, efforts-set_phase w.timers t g leaving finished e),
    )
    function_goes_on t g finished e one = absurd (omega (arith, one))

    goes_on : (v : Watcher) × Step has_callback w v × (remaining v < remaining w)
    unfolding leave_loop finish_stop close_done remaining
    goes_on =
        let p = waiting w i halted waits in
        elim (Bool-cases (ltb 0 w.loop_wg)) [
          | inl l ↦ (
            leave_loop w,
            loop_returns (ground arith) (stopping-open w i.lively p).2 refl,
            ground arith,
          )
          | inr l ↦ elim (Bool-cases (ltb 0 w.callback_wg)) [
            | inl c ↦
                let (t, g, p, e, one) =
                  find_outstanding w.timers i.balanced.ordered
                    (ground (arith, i.balanced.counted)) in
                function_goes_on t g p e one
            | inr c ↦ (
              finish_stop w,
              stop_finishes p (ground arith) (ground arith) refl,
              ground (arith, p),
            )
          ]
        ]

-- What a stopped watcher stays, with the callbacks begun and those certain to begin.
abbrev Halted : Bool → ℕ → Watcher → Type 0
Halted has_callback n w =
    IsSound w × (w.state ≡ state_stopped) × (w.calls + owed has_callback w.timers ≡ n)

Step-Halted :
    {has_callback : Bool} (n : ℕ) (w v : Watcher)
    → Step has_callback w v
    → Halted has_callback n w
    → Halted has_callback n v
Step-Halted n w v s (i, h, c) = let d = Step-Wanes w i h v s in (Step-IsSound w v s i, d.0, d.1 ∙ c)

Reach-Halted :
    (has_callback : Bool) (w v : Watcher)
    → Reach (Step has_callback) new_watcher w
    → w.state ≡ state_stopped
    → Reach (Step has_callback) w v
    → Halted has_callback (w.calls + owed has_callback w.timers) v
Reach-Halted has_callback w v r h q =
    let i =
      Reach-keeps IsSound (Step-IsSound {has_callback = has_callback}) r new_watcher-IsSound in
    Reach-keeps (Halted has_callback (w.calls + owed has_callback w.timers))
      (Step-Halted {has_callback = has_callback} (w.calls + owed has_callback w.timers)) q
      (i, h, refl)

-- Once `done` is closed, no callback is certain to begin.
done_owes_nothing :
    (has_callback : Bool) (w : Watcher)
    → IsSound w
    → w.state ≡ state_stopped
    → w.done ≡ true
    → owed has_callback w.timers ≡ 0
done_owes_nothing has_callback w i h d =
    ground (arith, i.lively, i.balanced.counted, owed_le has_callback w.timers)

-- Once `Stop` has taken the lock of a watcher that has run in any way, exactly those callbacks may
-- still begin whose functions had passed their test under the lock before: whatever happens after
-- that, the callbacks begun since and those still certain to begin are as many as were certain to
-- begin then; and at any moment of it when `done` is closed, all of them have begun.
pub stop_silences :
    (has_callback : Bool) (w v : Watcher)
    → Reach (Step has_callback) new_watcher w
    → w.state ≡ state_stopped
    → Reach (Step has_callback) w v
    → (v.calls + owed has_callback v.timers ≡ w.calls + owed has_callback w.timers)
      × ((v.done ≡ false) ⊎ (v.calls ≡ w.calls + owed has_callback w.timers))
stop_silences has_callback w v r h q =
    let (i, s, c) = Reach-Halted has_callback w v r h q in
    (
      c,
      elim (Bool-cases v.done) [
        | inl d ↦ inr (omega (arith, c, done_owes_nothing has_callback v i s d))
        | inr d ↦ inl d
      ],
    )

finishes_within :
    (fuel : ℕ) {has_callback : Bool} (w : Watcher)
    → IsSound w
    → w.state ≡ state_stopped
    → remaining w < fuel
    → (v : Watcher) × Reach (Step has_callback) w v × (v.done ≡ true)
finishes_within zero w i h le = absurd (omega (arith, le))
finishes_within (suc fuel) w i h le = elim (Bool-cases w.done) [
  | inl d ↦ (w, here, d)
  | inr d ↦
      let (u, s, less) = goes_on w i h d in
      let (v, r, done) =
        finishes_within fuel u (Step-IsSound w u s i) (Step-Wanes w i h u s).0
          (omega (arith, le, less)) in
      (v, Reach-trans (next here s) r, done)
]

-- Each step of a watcher that has run in any way and was stopped leaves all as it is, or leaves
-- less to do for `Stop` to return.
pub stop_advances :
    (has_callback : Bool) (w v : Watcher)
    → Reach (Step has_callback) new_watcher w
    → w.state ≡ state_stopped
    → Step has_callback w v
    → (v ≡ w) ⊎ (remaining v < remaining w)
stop_advances has_callback w v r h s =
    let i =
      Reach-keeps IsSound (Step-IsSound {has_callback = has_callback}) r new_watcher-IsSound in
    (Step-Wanes w i h v s).3

-- `Stop` can always come to its end: from a watcher that has run in any way and was stopped, a
-- run of its goroutines leads to the closing of `done`, and just those callbacks have begun in it
-- whose functions had passed their test under the lock before.
pub stop_completes :
    (has_callback : Bool) (w : Watcher)
    → Reach (Step has_callback) new_watcher w
    → w.state ≡ state_stopped
    → (v : Watcher) × Reach (Step has_callback) w v
      × (v.done ≡ true)
      × (v.calls ≡ w.calls + owed has_callback w.timers)
stop_completes has_callback w r h =
    let i =
      Reach-keeps IsSound (Step-IsSound {has_callback = has_callback}) r new_watcher-IsSound in
    let (v, q, d) = finishes_within (suc (remaining w)) w i h (omega arith) in
    let (j, s, c) = Reach-Halted has_callback w v r h q in
    (v, q, d, omega (arith, c, done_owes_nothing has_callback v j s d))
