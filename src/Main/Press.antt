-- ===== src/Main/Press.antt =====
-- The user button in src/main.c: the edge interrupt, the hold indicator and the dispatch thread; and
-- the handler of the report timer.
pub mod Gesture
pub mod Others
pub mod Timed
use n_rf52840_power_meter.Prelude.{
  ℕ, ◌-◌, ◌^◌, Bool, false, ltb, ◌==◌, if◌then◌else◌, u32, List, ◌∷◌,
}
use n_rf52840_power_meter.Prelude.Int.{ℤ, pos, negsuc, ◌-ℤ◌}
use n_rf52840_power_meter.Config.{Config}
use n_rf52840_power_meter.Button.{
  PressClassifier, classify, Action, ignore, join, wake, factory_reset, action_for_press,
}
use n_rf52840_power_meter.Led.Priority.{
  long_press_hold, button_ack, erase_confirm, prio_long_press_hold, prio_button_ack,
  prio_erase_confirm, heartbeat, prio_heartbeat,
}
use n_rf52840_power_meter.Led.Controller.{led_request, led_cancel}
use n_rf52840_power_meter.Zigbee.{Zboss}
use n_rf52840_power_meter.Zigbee.Signals.{
  Node, on_zb, on_led, start_join, wake_for_write, is_joined,
}
use n_rf52840_power_meter.Zigbee.Signals
use mathlib.Core.Option.{Option, some, none}
use n_rf52840_power_meter.Zigbee.Publish.{Adc, publish_summation_and_report}
use n_rf52840_power_meter.Main.{button_long_min_ms, zigbee_report_interval_ms}

abbrev pub int32_max : ℕ
int32_max = 2 ^ 31 - 1

-- What the interrupt asks of the kernel: the delayed work `long_press_hold_arm`, and the semaphore.
pub data KernelCall : Type 0 where
  reschedule_long_press_hold_arm : ℕ → KernelCall
  cancel_long_press_hold_arm give_button_release_sem : KernelCall

-- The button's file-scope variables, with the state that the dispatch thread reaches.
pub record Panel : Type 0 where
  pub press_start_ms : ℤ
  pub press_duration_ms : ℕ
  pub classifier : PressClassifier
  pub node : Node
  pub calls : List KernelCall

-- `value == 1` on what the GPIO driver returns.
abbrev pub is_active : ℤ → Bool
is_active (pos n) = n == 1
is_active (negsuc k) = false

abbrev pub clamp_duration : ℤ → ℕ
clamp_duration (negsuc k) = 0
clamp_duration (pos n) = if ltb int32_max n then int32_max else n

-- `now` and `value` are what `k_uptime_get` and `gpio_pin_get_dt` return.
unfoldable pub user_button_isr : ℤ → ℤ → Panel → Panel
user_button_isr now value s =
    if is_active value
    then record s {
      press_start_ms = now;
      calls = reschedule_long_press_hold_arm button_long_min_ms ∷ s.calls;
    }
    else record s {
      node = on_led (led_cancel long_press_hold) s.node;
      press_duration_ms = clamp_duration (now -ℤ s.press_start_ms);
      calls = give_button_release_sem ∷ (cancel_long_press_hold_arm ∷ s.calls);
    }

unfoldable pub long_press_hold_arm_handler : Panel → Panel
long_press_hold_arm_handler s = record s {
  node = on_led (led_request long_press_hold prio_long_press_hold) s.node;
}

-- One action of the dispatch thread. `meanwhile` is what the other threads do while the thread
-- sleeps for 100 ms.
unfoldable pub act : Zboss → Config → (Node → Node) → Action → Node → Node
act z c meanwhile join n =
    start_join (meanwhile (on_led (led_request button_ack prio_button_ack) n))
act z c meanwhile wake n =
    on_zb (wake_for_write z c) (on_led (led_request button_ack prio_button_ack) n)
act z c meanwhile factory_reset n =
    on_led (led_request erase_confirm prio_erase_confirm) (on_zb Signals.factory_reset n)
act z c meanwhile ignore n = n

-- The body of `button_dispatch_thread`'s loop after it has taken the semaphore.
unfoldable pub button_dispatch : Zboss → Config → (Node → Node) → Panel → Panel
button_dispatch z c meanwhile s =
    let kind = classify s.classifier (u32 s.press_duration_ms) in
    let action = action_for_press kind (is_joined s.node.zb) in
    record s { node = act z c meanwhile action s.node }

-- The handler of `metering_report_work`: the total behind `report_accumulator`, where that is set.
-- The number is the delay of the next run.
unfoldable pub metering_report_work_handler : Config → Adc → Option ℕ → Node → Node × Option ℕ
metering_report_work_handler c a none n = (n, none)
metering_report_work_handler c a (some total) n =
    let lit = if c.report_heartbeat then on_led (led_request heartbeat prio_heartbeat) n else n in
    (on_zb (publish_summation_and_report c a total) lit, some zigbee_report_interval_ms)
