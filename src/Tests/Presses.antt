-- ===== src/Tests/Presses.antt =====
-- A press of the button over time.
use n_rf52840_power_meter.Prelude.{
  ℕ, zero, suc, ◌+◌, ◌≤◌, ◌≡◌, ◌≢◌, ◌⊎◌, inl, refl, arith, sym, true, false,
}
use mathlib.Core.Path.{subst}
use mathlib.Core.Option.{some, none}
use n_rf52840_power_meter.Prelude.Int.{pos}
use n_rf52840_power_meter.Led.Priority.{Pattern, long_press_hold}
use n_rf52840_power_meter.Led.Priority
use n_rf52840_power_meter.Led.Controller.{
  led_request, reselect_if_changed_locked, render_start_locked,
}
use n_rf52840_power_meter.Led.Controller.Hold.{Dark}
use n_rf52840_power_meter.Main.Press.{user_button_isr, long_press_hold_arm_handler}
use n_rf52840_power_meter.Main.Press.Timed.{
  Moment, after_edge, Awaits, wait, edge, expire, Course, here, next, Tells, indicator-Tells,
}
use n_rf52840_power_meter.Tests.{config, zboss}
use n_rf52840_power_meter.Tests.Device.{panel}

-- A press at an uptime of 10 s, three seconds of waiting, and the indicator.
abbrev clock : ℕ → ℕ → ℕ
clock zero t = t
clock (suc n) t = clock n t + 1

clock_lem : (n t : ℕ) → clock n t ≡ t + n
clock_lem zero t = omega arith
clock_lem (suc n) t = omega (arith, clock_lem n t)

abbrev armed : Moment
armed = record { now = 10000; due = none; down = false; repeated = false; panel = panel }

abbrev pressed : Moment
pressed = after_edge (pos 1) armed

pressed-due : pressed.due ≡ some 13000
unfolding user_button_isr
pressed-due = refl

abbrev waiting : ℕ → Moment
waiting n = record pressed { now = clock n 10000 }

waits : (n : ℕ) → n ≤ 3000 → Course 20 armed (waiting n)
waits zero h = next here (edge armed (pos 1))
waits (suc n) h = next (waits n (omega arith)) (
    wait (waiting n) (
      subst (λ d. Awaits 20 d (clock n 10000)) (sym pressed-due)
        (omega (arith, clock_lem n 10000))))

abbrev held : Moment
held = let m = waiting 3000 in record m { due = none; panel = long_press_hold_arm_handler m.panel }

armed-Dark : Dark armed.panel.node.led
unfolding Priority.selected
armed-Dark = ((λ (e : Pattern.none ≡ long_press_hold). cc, inl refl), refl)

indicator-Tells_example :
    ((held.down ≡ true) × Tells zboss config (λ n. n) 20 held)
    ⊎ ((held.down ≡ false) × (held.panel.node.led.rendered ≢ long_press_hold))
indicator-Tells_example =
    indicator-Tells zboss config (λ n. n) 20 armed held
      (record { due = refl; dark = armed-Dark; down = refl; classifier = refl })
      (next (waits 3000 (omega arith))
        (expire (waiting 3000) 13000 pressed-due (omega (arith, clock_lem 3000 10000))))

held_shows : held.panel.node.led.rendered ≡ long_press_hold
unfolding long_press_hold_arm_handler user_button_isr led_request reselect_if_changed_locked
    Priority.request Priority.selected render_start_locked
held_shows = refl

-- A second press edge with no release between, read once the indicator is on: the indicator stays, and
-- the duration counts from the second edge.
abbrev pressed_again : Moment
pressed_again = after_edge (pos 1) held

still_shows :
    (pressed_again.panel.node.led.rendered ≡ long_press_hold)
    × (pressed_again.panel.press_start_ms ≡ pos held.now)
unfolding long_press_hold_arm_handler user_button_isr led_request reselect_if_changed_locked
    Priority.request Priority.selected render_start_locked
still_shows = (refl, refl)
