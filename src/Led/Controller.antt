-- ===== src/Led/Controller.antt =====
-- src/led_controller.c: the renderer behind the arbiter. The file-scope variables are one record;
-- each function takes it and returns it, as the code does under its spinlock. The GPIO driver
-- and the work queue are not code of the repository: `calls` lists what was asked of them, the
-- latest first. Uptimes are milliseconds since boot.
pub mod Tick
pub mod Sync
pub mod Fatal
pub mod Cycle
pub mod Blink
pub mod Ends
pub mod Armed
pub mod Hold
use n_rf52840_power_meter.Prelude.{
  ℕ, ◌*◌, Bool, true, false, not, ◌||◌, ltb, if◌then◌else◌, List, [], ◌∷◌,
}
use n_rf52840_power_meter.Rc.{Rc, success, fail, enodev}
use n_rf52840_power_meter.Led.Priority.{
  Pattern, none, fatal, long_press_hold, joining, join_success, join_fail, erase_confirm,
  button_ack, heartbeat, PriorityState, prio_fatal, same,
}
use n_rf52840_power_meter.Led.Priority

pub data Pin : Type 0 where
  led_red led_green led_blue : Pin

pub data LedCall : Type 0 where
  gpio_pin_configure_dt : Pin → LedCall
  gpio_pin_set_dt : Pin → ℕ → LedCall
  k_work_cancel_delayable : LedCall
  k_work_reschedule : ℕ → LedCall

pub record Led : Type 0 where
  pub state : PriorityState
  pub rendered : Pattern
  pub joining_phase_on : Bool
  pub join_fail_ticks_remaining : ℕ
  pub erase_confirm_ticks_remaining : ℕ
  pub fatal_flash_count : ℕ
  pub fatal_phase_index : ℕ
  pub fatal_start_ms : ℕ
  pub calls : List LedCall

-- The static storage before `led_controller_init`.
abbrev pub boot : Led
boot = record {
  state = record { active = none; active_prio = 0 };
  rendered = none;
  joining_phase_on = false;
  join_fail_ticks_remaining = 0;
  erase_confirm_ticks_remaining = 0;
  fatal_flash_count = 0;
  fatal_phase_index = 0;
  fatal_start_ms = 0;
  calls = [];
}

abbrev pub button_ack_on_ms : ℕ
button_ack_on_ms = 100

abbrev pub joining_half_period_ms : ℕ
joining_half_period_ms = 500

abbrev pub join_success_on_ms : ℕ
join_success_on_ms = 2000

abbrev pub join_fail_half_period_ms : ℕ
join_fail_half_period_ms = 200

abbrev pub join_fail_ticks : ℕ
join_fail_ticks = 5

abbrev pub erase_confirm_half_period_ms : ℕ
erase_confirm_half_period_ms = 150

abbrev pub erase_confirm_ticks : ℕ
erase_confirm_ticks = 7

abbrev pub fatal_pulse_on_ms : ℕ
fatal_pulse_on_ms = 100

abbrev pub fatal_pulse_off_ms : ℕ
fatal_pulse_off_ms = 100

abbrev pub fatal_cycle_ms : ℕ
fatal_cycle_ms = 5000

abbrev pub fatal_collapse_after_ms : ℕ
fatal_collapse_after_ms = 10 * 60 * 1000

abbrev pub fatal_collapse_on_ms : ℕ
fatal_collapse_on_ms = 100

abbrev pub fatal_collapse_off_ms : ℕ
fatal_collapse_off_ms = 9900

abbrev pub heartbeat_on_ms : ℕ
heartbeat_on_ms = 50

abbrev pub call : LedCall → Led → Led
call c s = record s { calls = c ∷ s.calls }

unfoldable pub set_leds_rgb : ℕ → ℕ → ℕ → Led → Led
set_leds_rgb r g b s =
    call (gpio_pin_set_dt led_blue b)
      (call (gpio_pin_set_dt led_green g) (call (gpio_pin_set_dt led_red r) s))

unfoldable pub set_all_leds : ℕ → Led → Led
unfolding set_leds_rgb
set_all_leds on s = set_leds_rgb on on on s

-- The `switch` of `render_start_locked`, which ends in `default`.
pub render_pattern : Pattern → Led → Led
unfolding set_leds_rgb set_all_leds
render_pattern button_ack s = call (k_work_reschedule button_ack_on_ms) (set_all_leds 1 s)
render_pattern joining s =
    call (k_work_reschedule joining_half_period_ms)
      (set_leds_rgb 0 0 1 (record s { joining_phase_on = true }))
render_pattern join_success s = call (k_work_reschedule join_success_on_ms) (set_leds_rgb 0 1 0 s)
render_pattern join_fail s =
    call (k_work_reschedule join_fail_half_period_ms)
      (set_leds_rgb 1 0 0 (record s { join_fail_ticks_remaining = join_fail_ticks }))
render_pattern long_press_hold s = set_leds_rgb 1 0 0 s
render_pattern erase_confirm s =
    call (k_work_reschedule erase_confirm_half_period_ms)
      (set_leds_rgb 1 0 0 (record s { erase_confirm_ticks_remaining = erase_confirm_ticks }))
render_pattern fatal s =
    call (k_work_reschedule fatal_pulse_on_ms)
      (set_leds_rgb 1 0 0 (record s { fatal_phase_index = 0 }))
render_pattern heartbeat s = call (k_work_reschedule heartbeat_on_ms) (set_leds_rgb 0 1 0 s)
render_pattern none s = set_all_leds 0 s
render_pattern _ s = set_all_leds 0 s

unfoldable pub render_start_locked : Pattern → Led → Led
unfolding render_pattern
render_start_locked pattern s = render_pattern pattern (call k_work_cancel_delayable s)

unfoldable pub reselect_if_changed_locked : Led → Led
reselect_if_changed_locked s =
    let selected = Priority.selected s.state in
    if same selected s.rendered
    then s
    else render_start_locked selected (record s { rendered = selected })

-- The three `gpio_pin_configure_dt` calls, each checked before the next.
pub configure_pins : (Pin → Rc) → List Pin → Led → Rc × Led
configure_pins configure [] s = (success, s)
configure_pins configure (p ∷ ps) s =
    let s' = call (gpio_pin_configure_dt p) s in
    let rest = configure_pins configure ps s' in
    elim (configure p) [ success ↦ rest | fail e ↦ (fail e, s') ]

-- `ready` and `configure` are the answers of the GPIO driver for each pin.
unfoldable pub controller_init : (Pin → Bool) → (Pin → Rc) → Led → Rc × Led
unfolding configure_pins
controller_init ready configure s =
    if not (ready led_red) || not (ready led_green) || not (ready led_blue)
    then (fail enodev, s)
    else let (rc, s') = configure_pins configure (led_red ∷ led_green ∷ led_blue ∷ []) s in
      elim rc [
        | success ↦ (success, record s' { state = Priority.init; rendered = none })
        | fail e ↦ (fail e, s')
      ]

unfoldable pub led_request : Pattern → ℕ → Led → Led
led_request pattern prio s =
    reselect_if_changed_locked (record s { state = (Priority.request s.state pattern prio).1 })

unfoldable pub led_cancel : Pattern → Led → Led
led_cancel pattern s =
    reselect_if_changed_locked (record s { state = Priority.cancel s.state pattern })

-- `now` is what `k_uptime_get` returns.
unfoldable pub led_request_fatal : ℕ → ℕ → Led → Led
led_request_fatal flash_count now s =
    let clamped = if ltb flash_count 1 then 1 else if ltb 5 flash_count then 5 else flash_count in
    reselect_if_changed_locked (record s {
      fatal_flash_count = clamped;
      fatal_start_ms = now;
      state = (Priority.request s.state fatal prio_fatal).1;
    })
