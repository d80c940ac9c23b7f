-- ===== src/Tests/Watching.antt =====
-- Runs of a watcher and of its polling.
use zoraxy_cert_warden.Base.{
  ℕ, ◌+◌, ◌≤◌, ◌<◌, ◌≡◌, refl, ◌⊎◌, ◌↔◌, true, false, none, some, List, [], ◌∷◌, codes, nat_eq,
  arith, All, suc,
}
use zoraxy_cert_warden.Base.Runs.{Reach, here, next}
use zoraxy_cert_warden.Watcher.Debounce.{
  accepted, owed, phase_of, set_phase, is_timer, outstanding, OneArmed,
}
use zoraxy_cert_warden.Watcher.Invariant.{watcher_sound}
use zoraxy_cert_warden.Watcher.Shutdown.{remaining, stop_silences, stop_advances, stop_completes}
use zoraxy_cert_warden.Watcher.Coalesce.{Quiet, is_quiet, trigger_answered_once}
use zoraxy_cert_warden.Watcher.Polling.{Stat, Files, baseline, poll_changed}
use zoraxy_cert_warden.Watcher.Changes.{Unaltered, first_poll_iff}
use zoraxy_cert_warden.Watcher.{
  Watcher, new_watcher, state_stopped, launch, start, start_from, trigger_debounce, is_current, arm,
  stop_debounce, stop_pending, fire, check_timer, accept, call_back, stop, stop_from, Step, starts,
  triggers, fires, checks, calls_back, stops,
}

abbrev started : Watcher
started = launch true new_watcher

abbrev triggered : Watcher
triggered = trigger_debounce 1 started

abbrev fired_once : Watcher
fired_once = fire 0 triggered

abbrev checked : Watcher
checked = check_timer 1 0 fired_once

-- `Stop` takes the lock after the function has let go of it, and before the callback begins.
abbrev stopped : Watcher
stopped = stop checked

started_run : Reach (Step true) new_watcher started
unfolding start start_from launch new_watcher
started_run = next here (starts true refl)

checked_run : Reach (Step true) new_watcher checked
unfolding start start_from launch new_watcher trigger_debounce is_current arm stop_debounce
    stop_pending fire check_timer accept phase_of set_phase is_timer nat_eq
checked_run =
    next (next (next started_run (triggers 1 (omega arith) refl)) (fires 0 1 refl refl))
      (checks 0 1 refl refl)

stopped_run : Reach (Step true) new_watcher stopped
stopped_run = next checked_run (stops refl)

watcher_sound_example :
    (stopped.callback_wg ≡ outstanding stopped.timers)
    × (stopped.panicked ≡ false)
    × OneArmed stopped.timers stopped.debounce
    × ((stopped.done ≡ false)
        ⊎ ((stopped.state ≡ state_stopped) × (stopped.loop_wg ≡ 0) × (stopped.callback_wg ≡ 0)))
watcher_sound_example = watcher_sound true stopped stopped_run

halted : stopped.state ≡ state_stopped
unfolding stop stop_from stop_debounce stop_pending check_timer accept fire trigger_debounce
    is_current arm launch new_watcher phase_of set_phase is_timer nat_eq
halted = refl

waits : phase_of stopped.timers 0 ≡ some (1, accepted)
unfolding stop stop_from stop_debounce stop_pending check_timer accept fire trigger_debounce
    is_current arm launch new_watcher phase_of set_phase is_timer nat_eq
waits = refl

abbrev called : Watcher
called = call_back true 0 stopped

stop_silences_example :
    (called.calls + owed true called.timers ≡ stopped.calls + owed true stopped.timers)
    × ((called.done ≡ false) ⊎ (called.calls ≡ stopped.calls + owed true stopped.timers))
stop_silences_example =
    stop_silences true stopped called stopped_run halted (next here (calls_back 0 1 waits refl))

stop_advances_example : (called ≡ stopped) ⊎ (remaining called < remaining stopped)
stop_advances_example =
    stop_advances true stopped called stopped_run halted (calls_back 0 1 waits refl)

stop_completes_example :
    (v : Watcher) × Reach (Step true) stopped v
    × (v.done ≡ true)
    × (v.calls ≡ stopped.calls + owed true stopped.timers)
stop_completes_example = stop_completes true stopped stopped_run halted

trigger_answered_once_example :
    (checked.calls ≤ suc (started.calls + owed true started.timers))
    × ((u : Watcher) × Reach (Quiet true) checked u
        × (u.calls ≡ suc (started.calls + owed true started.timers)))
unfolding launch new_watcher trigger_debounce is_current arm stop_debounce stop_pending fire
    check_timer accept phase_of set_phase is_timer nat_eq is_quiet
trigger_answered_once_example =
    trigger_answered_once started checked 1 started_run refl
      (next (next here (fires 0 1 refl refl, refl)) (checks 0 1 refl refl, refl))

abbrev of_size : ℕ → Stat
of_size n = record { size = n; mod_time = 5; mode = 420; regular_file = true; identity = 7 }

abbrev files : List ℕ → Files
files content = record {
  stat_file = λ p. some (of_size 2);
  open_file = λ p. some record { opened_stat = none; content = some content };
  sha256_sum = λ s. s;
}

first_poll_iff_example :
    ((poll_changed
        (files (2 ∷ 1 ∷ []))
        (codes "/s/a" ∷ [])
        (baseline (files (1 ∷ 2 ∷ [])) (codes "/s/a" ∷ []) [])).0
      ≡ false)
    ↔ All (λ p. Unaltered (files (1 ∷ 2 ∷ [])) (files (2 ∷ 1 ∷ [])) p) (codes "/s/a" ∷ [])
first_poll_iff_example =
    first_poll_iff (files (1 ∷ 2 ∷ [])) (files (2 ∷ 1 ∷ [])) (codes "/s/a" ∷ [])
