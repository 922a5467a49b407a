-- ===== src/Zigbee/Write.antt =====
-- `zcl_device_cb` of src/zigbee_app.c: a coordinator's write to a calibration attribute. ZBOSS calls it
-- after it has stored the new value, as the comment above the C function says.
use n_rf52840_power_meter.Prelude.{ℕ, not, ◌==◌, ◌!=◌, if◌then◌else◌, List}
use n_rf52840_power_meter.Calibration.{is_valid_imp_per_kwh, is_valid_pulse_min_width_us}
use n_rf52840_power_meter.Nvs.{NvsBackend, Store, save_imp_per_kwh, save_pulse_min_width_us}
use n_rf52840_power_meter.Pulse.{HwCall, set_min_width_us}
use n_rf52840_power_meter.Zigbee.{
  U24, ZbRet, ret_ok, ret_out_of_range, Zboss, Zb, set_attr, divisor, min_pulse_width, to_u24,
  from_u24,
}

abbrev pub attr_metering_min_pulse_width_us_id : ℕ
attr_metering_min_pulse_width_us_id = 0xF000

-- `zb_zcl_device_callback_param_t` as the callback reads it.
pub record CallbackParam : Type 0 where
  pub device_cb_id : ℕ
  pub cluster_id : ℕ
  pub attr_id : ℕ
  pub data16 : ℕ
  pub data24 : U24

-- What the callback reaches: the Zigbee state, the NVS store and the pulse hardware.
pub record Meter (Fs : Type 0) : Type 0 where
  pub zb : Zb
  pub store : Store Fs
  pub hw : List HwCall

module _ {Fs : Type 0} (b : NvsBackend Fs) (z : Zboss) where
  -- The branch for the min-pulse-width attribute.
  unfoldable pub write_min_pulse_width : ℕ → Meter Fs → ZbRet × Meter Fs
  write_min_pulse_width new_width m =
      if not (is_valid_pulse_min_width_us new_width)
      then (let rollback = m.zb.dev_ctx.metering_min_pulse_width_us in
          (ret_out_of_range, record m { zb = set_attr z (min_pulse_width rollback) m.zb }))
      else let hw = set_min_width_us new_width m.hw in
        let (rc, store) = save_pulse_min_width_us b new_width m.store in
        let zb = m.zb in
        (
          ret_ok,
          record {
            zb = record zb {
              dev_ctx = record (zb.dev_ctx) { metering_min_pulse_width_us = new_width };
            };
            store = store;
            hw = hw;
          },
        )

  -- The branch for the Divisor attribute.
  unfoldable pub write_divisor : ℕ → Meter Fs → ZbRet × Meter Fs
  write_divisor new_divisor m =
      if not (is_valid_imp_per_kwh new_divisor)
      then (
        ret_out_of_range,
        record m { zb = set_attr z (divisor (to_u24 m.zb.effective_divisor)) m.zb },
      )
      else let (rc, store) = save_imp_per_kwh b new_divisor m.store in
        let zb = m.zb in
        (ret_ok, record m { zb = record zb { effective_divisor = new_divisor }; store = store })

  -- The status is what the callback leaves in `p->status`.
  unfoldable pub zcl_device_cb : CallbackParam → Meter Fs → ZbRet × Meter Fs
  zcl_device_cb p m =
      if p.device_cb_id != z.set_attr_value_cb_id
      then (ret_ok, m)
      else if p.cluster_id != z.cluster_id_metering
      then (ret_ok, m)
      else if p.attr_id == attr_metering_min_pulse_width_us_id
      then write_min_pulse_width p.data16 m
      else if p.attr_id != z.attr_metering_divisor_id
      then (ret_ok, m)
      else write_divisor (from_u24 p.data24) m
