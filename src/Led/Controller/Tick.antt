-- ===== src/Led/Controller/Tick.antt =====
-- `tick_handler` of src/led_controller.c: what the delayed work item does for the pattern that is
-- rendered when it runs. `now` is what `k_uptime_get` returns.
use n_rf52840_power_meter.Prelude.{
  ℕ, ◌+◌, ◌-◌, ◌*◌, ◌%◌, not, ltb, leb, ◌==◌, if◌then◌else◌, u32, sub32,
}
use n_rf52840_power_meter.Led.Priority.{
  Pattern, fatal, joining, join_success, join_fail, erase_confirm, button_ack, heartbeat,
}
use n_rf52840_power_meter.Led.Priority
use n_rf52840_power_meter.Led.Controller.{
  k_work_reschedule, Led, call, set_leds_rgb, reselect_if_changed_locked, joining_half_period_ms,
  join_fail_half_period_ms, erase_confirm_half_period_ms, fatal_pulse_on_ms, fatal_pulse_off_ms,
  fatal_cycle_ms, fatal_collapse_after_ms, fatal_collapse_on_ms, fatal_collapse_off_ms,
}

-- After ten minutes: one flash every ten seconds.
unfoldable pub fatal_collapsed_tick : Led → Led
unfolding set_leds_rgb
fatal_collapsed_tick s =
    let index = u32 (s.fatal_phase_index + 1) % 2 in
    let s' = record s { fatal_phase_index = index } in
    if index == 0
    then call (k_work_reschedule fatal_collapse_on_ms) (set_leds_rgb 1 0 0 s')
    else call (k_work_reschedule fatal_collapse_off_ms) (set_leds_rgb 0 0 0 s')

-- The delay after the phase with this index, of `phases`; `flash_count` is 1 to 5.
abbrev pub pulse_delay : ℕ → ℕ → ℕ → ℕ
pulse_delay flash_count phases index =
    if index % 2 == 0
    then fatal_pulse_on_ms
    else if ltb index (sub32 phases 1)
    then fatal_pulse_off_ms
    else sub32 fatal_cycle_ms (u32 (sub32 (u32 (2 * flash_count)) 1 * fatal_pulse_on_ms))

-- Before that: `fatal_flash_count` pulses in each cycle.
unfoldable pub fatal_pulse_tick : Led → Led
unfolding set_leds_rgb
fatal_pulse_tick s =
    let phases = u32 (2 * s.fatal_flash_count) in
    let index = u32 (s.fatal_phase_index + 1) % phases in
    call (k_work_reschedule (pulse_delay s.fatal_flash_count phases index))
      (set_leds_rgb (if index % 2 == 0 then 1 else 0) 0 0 (record s { fatal_phase_index = index }))

-- The FATAL case of `tick_handler`. `now - start` is an `int64_t`; an uptime never falls, and a
-- negative difference would be below the threshold too.
unfoldable pub fatal_tick : ℕ → Led → Led
fatal_tick now s =
    if leb fatal_collapse_after_ms (now - s.fatal_start_ms)
    then fatal_collapsed_tick s
    else fatal_pulse_tick s

-- A one-shot pattern ends: its slot is freed and the next selection rendered.
unfoldable pub finish : Pattern → Led → Led
finish pattern s = reselect_if_changed_locked (record s { state = Priority.cancel s.state pattern })

unfoldable pub join_fail_tick : Led → Led
unfolding set_leds_rgb
join_fail_tick s =
    if s.join_fail_ticks_remaining == 0
    then finish join_fail s
    else let red_on = s.join_fail_ticks_remaining % 2 == 0 in
      call (k_work_reschedule join_fail_half_period_ms) (
        set_leds_rgb (if red_on then 1 else 0) 0 0
          (record s { join_fail_ticks_remaining = s.join_fail_ticks_remaining - 1 }))

unfoldable pub erase_confirm_tick : Led → Led
unfolding set_leds_rgb
erase_confirm_tick s =
    if s.erase_confirm_ticks_remaining == 0
    then finish erase_confirm s
    else let red_on = s.erase_confirm_ticks_remaining % 2 == 0 in
      call (k_work_reschedule erase_confirm_half_period_ms) (
        set_leds_rgb (if red_on then 1 else 0) 0 0
          (record s { erase_confirm_ticks_remaining = s.erase_confirm_ticks_remaining - 1 }))

-- The `switch` of `tick_handler` on `rendered`.
unfoldable pub tick_rendered : Pattern → ℕ → Led → Led
unfolding set_leds_rgb
tick_rendered button_ack now s = finish button_ack s
tick_rendered joining now s =
    let on = not s.joining_phase_on in
    call (k_work_reschedule joining_half_period_ms)
      (set_leds_rgb 0 0 (if on then 1 else 0) (record s { joining_phase_on = on }))
tick_rendered join_success now s = finish join_success s
tick_rendered join_fail now s = join_fail_tick s
tick_rendered erase_confirm now s = erase_confirm_tick s
tick_rendered heartbeat now s = finish heartbeat s
tick_rendered fatal now s = fatal_tick now s
tick_rendered _ now s = s

unfoldable pub tick_handler : ℕ → Led → Led
unfolding tick_rendered
tick_handler now s = tick_rendered s.rendered now s
