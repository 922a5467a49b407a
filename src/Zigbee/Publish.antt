-- ===== src/Zigbee/Publish.antt =====
-- Publishing in src/zigbee_app.c: the battery sample, the attribute writes on the ZBOSS thread, and the
-- two entry points of the sample loop and the report timer.
use n_rf52840_power_meter.Prelude.{ℕ, ◌-◌, ◌^◌, Bool, not, ltb, ◌==◌, if◌then◌else◌}
use n_rf52840_power_meter.Prelude.Int.{ℤ, pos, negsuc}
use n_rf52840_power_meter.Config.{Config}
use n_rf52840_power_meter.Rc.{Rc, success, fail}
use n_rf52840_power_meter.Metering.{scale_to_u48}
use n_rf52840_power_meter.Battery.{zcl_unknown, percent, zcl_voltage, zcl_percentage}
use n_rf52840_power_meter.Zigbee.{
  Zboss, Zb, call, set_attr, summation, battery_voltage, battery_percentage,
  send_report_attr_command, schedule_app_callback, publish_summation_cb,
  publish_summation_and_report_cb,
}

-- What the ADC driver answers to the calls of one reading: the return codes, and the millivolts.
pub record Adc : Type 0 where
  pub sequence_init : Rc
  pub read : Rc
  pub raw_to_millivolts : Rc
  pub millivolts : ℤ

-- A reading: the error, or the clamped millivolts.
pub data Reading : Type 0 where
  millivolts : ℕ → Reading
  unread : Reading

abbrev clamp_mv : ℤ → ℕ
clamp_mv (negsuc k) = 0
clamp_mv (pos n) = if ltb (2 ^ 16 - 1) n then 2 ^ 16 - 1 else n

unfoldable pub battery_read_mv : Adc → Reading
battery_read_mv a = elim a.sequence_init [
  | fail e ↦ unread
  | success ↦ elim a.read [
    | fail e ↦ unread
    | success ↦ elim a.raw_to_millivolts [
      | fail e ↦ unread
      | success ↦ millivolts (clamp_mv a.millivolts)
    ]
  ]
]

unfoldable pub battery_sample : Config → Adc → Zb → Zb
battery_sample c a s = elim (battery_read_mv a) [
  | unread ↦ record s {
    pending_battery_voltage = zcl_unknown;
    pending_battery_percentage = zcl_unknown;
  }
  | millivolts mv ↦ record s {
    pending_battery_voltage = zcl_voltage mv;
    pending_battery_percentage = zcl_percentage (percent mv c.battery_empty_mv c.battery_full_mv);
  }
]

module _ (z : Zboss) where
  -- ZB_ASSIGN_UINT48 takes the high half first; the attribute has both halves.
  unfoldable pub write_summation_attribute : ℕ → Zb → Zb
  write_summation_attribute pulse_total s = set_attr z (summation (scale_to_u48 pulse_total)) s

  unfoldable pub battery_write_attributes : Zb → Zb
  battery_write_attributes s =
      let s' = set_attr z (battery_voltage s.pending_battery_voltage) s in
      set_attr z (battery_percentage s'.pending_battery_percentage) s'

  -- `slot`: whether `zb_zcl_find_reporting_info` finds one; `bufid` is what `zb_buf_get_out` returns.
  unfoldable pub send_explicit_summation_report : Bool → ℕ → Zb → Zb
  send_explicit_summation_report slot bufid s =
      if not slot then s else if bufid == 0 then s else call (send_report_attr_command bufid) s

  unfoldable pub run_publish_summation : Zb → Zb
  run_publish_summation s = write_summation_attribute s.pending_summation_total s

  unfoldable pub run_publish_summation_and_report : Config → Bool → ℕ → Zb → Zb
  run_publish_summation_and_report c slot bufid s =
      let written = write_summation_attribute s.pending_summation_total s in
      let battery = if c.battery_reporting then battery_write_attributes written else written in
      send_explicit_summation_report slot bufid battery

unfoldable pub publish_summation : ℕ → Zb → Zb
publish_summation pulse_total s =
    if not s.endpoint_registered
    then s
    else call (schedule_app_callback publish_summation_cb)
        (record s { pending_summation_total = pulse_total })

unfoldable pub publish_summation_and_report : Config → Adc → ℕ → Zb → Zb
publish_summation_and_report c a pulse_total s =
    if not s.endpoint_registered
    then s
    else let sampled = if c.battery_reporting then battery_sample c a s else s in
      call (schedule_app_callback publish_summation_and_report_cb)
        (record sampled { pending_summation_total = pulse_total })
