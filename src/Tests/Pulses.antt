-- ===== src/Tests/Pulses.antt =====
-- Runs of pulses through the width filter, on a timer of a flag and a number.
use n_rf52840_power_meter.Prelude.{
  ℕ, ◌+◌, ◌%◌, ◌^◌, ◌≡◌, refl, Bool, true, false, not, ◌&&◌, ◌==◌, if◌then◌else◌, List, [], ◌∷◌,
  sum,
}
use n_rf52840_power_meter.Nvs.{load_pulse_min_width_us}
use n_rf52840_power_meter.Pulse.{
  Task, task_start, task_stop, task_clear, task_count, TimerMode, timer_mode, counter_mode, hw_init,
  effective_min_width_us_at_init,
}
use n_rf52840_power_meter.Pulse.Filter.{
  TimerSetup, WidthTimer, light, bench, Chain, Step, pulse, set_threshold, long_enough,
  counted_midway,
}
use n_rf52840_power_meter.Pulse.Threshold.{Threshold}
use n_rf52840_power_meter.Pulse.Filter.Total.{lasting}
use n_rf52840_power_meter.Tests.{flash, used_store, config, nrfx}

abbrev timer_task : Task → Bool × ℕ → Bool × ℕ
timer_task task_start q = (true, q.1)
timer_task task_stop q = (false, q.1)
timer_task task_clear q = (q.0, 0)
timer_task task_count q = q

-- Counts in timer mode at 1 MHz alone; TIMER3 is in counter mode after a reset here.
abbrev clocked : TimerMode → ℕ → Bool
clocked timer_mode hz = hz == 1000000
clocked counter_mode hz = false

abbrev timer_tick : TimerSetup → Bool × ℕ → Bool × (Bool × ℕ)
timer_tick t (true, v) =
    let v' = if clocked t.mode t.hz then (v + 1) % 2 ^ t.bits else v in
    let hit = clocked t.mode t.hz && v' == t.cc in (hit, (not (hit && t.stops), v'))
timer_tick t (false, v) = (false, (false, v))

abbrev timer : WidthTimer (Bool × ℕ)
timer = record {
  reset = record { mode = counter_mode; hz = 0; bits = 16; cc = 0; stops = false };
  task = timer_task;
  tick = timer_tick;
  running = λ q. q.0;
  value = λ q. q.1;
}

-- Two pulses of light on either side of the threshold of 2000 us, and two of the bench pin on either
-- side of one of 500 us; TIMER2 stood at 7.
abbrev train : List Step
train =
    pulse light 30 1999
    ∷ pulse light 30 2000
    ∷ set_threshold 500
    ∷ pulse bench 30 500
    ∷ pulse bench 30 499
    ∷ []

abbrev brought_up : Chain (Bool × ℕ)
brought_up = record {
  calls = (hw_init (nrfx 0) flash config used_store []).1;
  width = (false, 0);
  count = 7;
}

-- At the build's threshold of 2000 us the train adds two, as the chain does.
train_adds_two : long_enough (effective_min_width_us_at_init flash config used_store) train ≡ 2
unfolding effective_min_width_us_at_init load_pulse_min_width_us
train_adds_two = refl

lost_midway :
    counted_midway (effective_min_width_us_at_init flash config used_store) 300 500 3000 ≡ 0
unfolding effective_min_width_us_at_init load_pulse_min_width_us
lost_midway = refl

-- The first train adds two; then the pulse of 600 us counts, and that of 400 us does not.
abbrev trains : List (List Step)
trains = train ∷ (pulse light 5 600 ∷ []) ∷ (pulse bench 5 400 ∷ []) ∷ []

trains_add_three : sum (lasting (effective_min_width_us_at_init flash config used_store) trains) ≡ 3
unfolding effective_min_width_us_at_init load_pulse_min_width_us
trains_add_three = refl
