-- ===== src/Zigbee/Signals.antt =====
-- `zboss_signal_handler` of src/zigbee_app.c and the callbacks that steer the network.
use n_rf52840_power_meter.Prelude.{ℕ, Bool, true, false, not, ◌||◌, ◌==◌, if◌then◌else◌}
use n_rf52840_power_meter.Config.{Config}
use n_rf52840_power_meter.Led.Priority.{
  joining, join_success, join_fail, prio_joining, prio_join_success, prio_join_fail,
}
use n_rf52840_power_meter.Led.Controller.{Led, led_request, led_cancel}
use n_rf52840_power_meter.Zigbee.{
  ZbRet, is_ok, Zboss, Zb, call, pim_set_long_poll_interval, pim_start_turbo_poll_continuous,
  default_signal_handler, buf_free, start_top_level_commissioning, reset_via_local_action,
  schedule_app_callback, start_steering_cb, factory_reset_cb, wake_turbo_poll_cb,
}
use n_rf52840_power_meter.Zigbee.Attrs.{probe_kick}

-- The application signals that the handler tells apart.
pub data Signal : Type 0 where
  steering device_reboot leave : Signal
  other_signal : ℕ → Signal

-- The Zigbee state and the LED, which the handler also drives.
pub record Node : Type 0 where
  pub zb : Zb
  pub led : Led

abbrev pub on_zb : (Zb → Zb) → Node → Node
on_zb f n = record n { zb = f n.zb }

abbrev pub on_led : (Led → Led) → Node → Node
on_led f n = record n { led = f n.led }

module _ (z : Zboss) (c : Config) where
  -- `found`: whether `zb_zcl_get_attr_desc_a` finds the LongPollInterval descriptor, which points
  -- at `dev_ctx.poll_long_poll_interval`.
  unfoldable pub apply_sleepy_poll_intervals_if_joined : ZbRet → Bool → Zb → Zb
  apply_sleepy_poll_intervals_if_joined status found s =
      if not c.zigbee_sleepy_ed || not (is_ok status)
      then s
      else let long_poll_qs = s.dev_ctx.poll_long_poll_interval in
        let s' =
          if found
          then call (pim_set_long_poll_interval (z.quarterseconds_to_msec long_poll_qs)) s
          else s in
        call (pim_start_turbo_poll_continuous c.zigbee_join_turbo_poll_ms) s'

  -- The outcome of a join that the user asked for, painted once; `atomic_cas(&…, 1, 0)`.
  unfoldable pub paint_outcome : ZbRet → Node → Node
  paint_outcome status n =
      if n.zb.user_join_in_flight == 1
      then on_led
          (λ l.
            if is_ok status
            then led_request join_success prio_join_success (led_cancel joining l)
            else led_request join_fail prio_join_fail (led_cancel joining l))
          (on_zb (λ s. record s { user_join_in_flight = 0 }) n)
      else n

  -- The `switch` of the handler.
  unfoldable pub on_signal : Signal → ZbRet → Bool → Node → Node
  on_signal steering status found n =
      let joined_now = on_zb (λ s. record s { joined = is_ok status }) n in
      let kicked = if is_ok status then on_zb (probe_kick c) joined_now else joined_now in
      on_zb (apply_sleepy_poll_intervals_if_joined status found) (paint_outcome status kicked)
  on_signal device_reboot status found n =
      let attached =
        if is_ok status then on_zb (λ s. probe_kick c (record s { joined = true })) n else n in
      on_zb (apply_sleepy_poll_intervals_if_joined status found) attached
  on_signal leave status found n = on_zb (λ s. record s { joined = false }) n
  on_signal (other_signal k) status found n = n

  -- ZB_ERROR_CHECK resets the device where the default handler fails; that ends the run.
  unfoldable pub signal_handler : ℕ → Signal → ZbRet → Bool → Node → Node
  signal_handler bufid sig status found n =
      let delegated = on_zb (call (default_signal_handler bufid)) (on_signal sig status found n) in
      if bufid == 0 then delegated else on_zb (call (buf_free bufid)) delegated

  unfoldable pub wake_turbo_poll : Zb → Zb
  wake_turbo_poll s = call (pim_start_turbo_poll_continuous c.zigbee_wake_turbo_poll_ms) s

  unfoldable pub wake_for_write : Zb → Zb
  wake_for_write s =
      if not c.zigbee_sleepy_ed
      then s
      else if not s.joined
      then s
      else call (schedule_app_callback wake_turbo_poll_cb) s

unfoldable pub start_steering : Zb → Zb
start_steering s = call start_top_level_commissioning s

unfoldable pub factory_reset_now : Zb → Zb
factory_reset_now s = call reset_via_local_action (record s { joined = false })

unfoldable pub start_join : Node → Node
start_join n =
    let flagged = on_zb (λ s. record s { user_join_in_flight = 1 }) n in
    on_zb (call (schedule_app_callback start_steering_cb))
      (on_led (led_request joining prio_joining) flagged)

unfoldable pub factory_reset : Zb → Zb
factory_reset s = call (schedule_app_callback factory_reset_cb) s

unfoldable pub is_joined : Zb → Bool
is_joined s = s.joined
