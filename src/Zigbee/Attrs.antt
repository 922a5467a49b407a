-- ===== src/Zigbee/Attrs.antt =====
-- Initialisation in src/zigbee_app.c: the attribute values and the bring-up of the stack.
use n_rf52840_power_meter.Prelude.{ℕ, ◌*◌, ◌/◌, true, if◌then◌else◌, u16, u32}
use n_rf52840_power_meter.Config.{Config}
use n_rf52840_power_meter.Calibration.{is_valid_imp_per_kwh, is_valid_pulse_min_width_us}
use n_rf52840_power_meter.Battery.{zcl_unknown}
use n_rf52840_power_meter.Nvs.{
  NvsBackend, Store, accepted_or, load_imp_per_kwh, load_pulse_min_width_us,
}
use n_rf52840_power_meter.Zigbee.{
  Zboss, BasicAttrs, DevCtx, Zb, call, to_u24, register_device_cb, register_device_ctx,
  zigbee_enable, set_ed_timeout, set_keepalive_timeout, configure_sleepy_behavior,
  rx_idle_probe_kick,
}

-- QS_FROM_SEC and QS_FROM_MS.
abbrev pub qs_from_sec : ℕ → ℕ
qs_from_sec s = u32 (s * 4)

abbrev pub qs_from_ms : ℕ → ℕ
qs_from_ms ms = u32 ms / 250

unfoldable pub poll_control_attrs_init : Zboss → Config → DevCtx → DevCtx
poll_control_attrs_init z c d = record d {
  poll_checkin_interval = qs_from_sec c.zigbee_checkin_interval_s;
  poll_long_poll_interval = qs_from_ms c.zigbee_long_poll_interval_ms;
  poll_fast_poll_timeout = u16 (qs_from_sec c.zigbee_fast_poll_timeout_s);
  poll_short_poll_interval = z.poll_short_interval_default;
  poll_checkin_interval_min = z.poll_checkin_min_interval_default;
  poll_long_poll_interval_min = z.poll_long_min_interval_default;
  poll_fast_poll_timeout_max = z.poll_fast_max_timeout_default;
}

-- The readiness of the ADC only decides on log lines and on the channel set-up in its driver.
unfoldable pub power_config_attrs_init : DevCtx → DevCtx
power_config_attrs_init d = record d {
  power_config_battery_voltage = zcl_unknown;
  power_config_battery_percentage = zcl_unknown;
}

unfoldable pub basic_attrs_init : Zboss → BasicAttrs
basic_attrs_init z = record {
  zcl_version = z.zcl_version;
  app_version = 0x01;
  stack_version = 0x03;
  hw_version = 0x01;
  mf_name = "kwood1992";
  model_id = "xiao-power-meter";
  date_code = "20260723";
  power_source = z.basic_power_source_battery;
  location_id = "";
  ph_env = z.basic_env_unspecified;
  sw_ver = "0.5.0";
}

-- `rx_idle_probe_kick`, which is empty without the probe.
abbrev pub probe_kick : Config → Zb → Zb
probe_kick c s = if c.zigbee_rx_idle_probe then call rx_idle_probe_kick s else s

module _ {Fs : Type 0} (b : NvsBackend Fs) (z : Zboss) (c : Config) where
  unfoldable pub metering_attrs_init : Store Fs → Zb → Zb
  metering_attrs_init store s =
      let default_divisor = c.metering_default_imp_per_kwh in
      let divisor = accepted_or is_valid_imp_per_kwh default_divisor (load_imp_per_kwh b store) in
      let width =
        accepted_or is_valid_pulse_min_width_us c.pulse_min_width_us
          (load_pulse_min_width_us b store) in
      record s {
        effective_divisor = divisor;
        dev_ctx = record (s.dev_ctx) {
          metering_current_summation = record { low = 0; high = 0 };
          metering_status = 0;
          metering_unit_of_measure = z.metering_unit_of_measure_default;
          metering_summation_formatting = 0;
          metering_device_type = 0;
          metering_multiplier = to_u24 1;
          metering_divisor = to_u24 divisor;
          metering_min_pulse_width_us = u16 width;
        };
      }

  unfoldable pub app_clusters_attr_init : Store Fs → Zb → Zb
  app_clusters_attr_init store s =
      let d = power_config_attrs_init (record (s.dev_ctx) {
        basic_attr = basic_attrs_init z;
        identify_time = z.identify_time_default;
      }) in
      let t = metering_attrs_init store (record s { dev_ctx = d }) in
      record t { dev_ctx = poll_control_attrs_init z c t.dev_ctx }

  -- `zigbee_app_init` always returns 0.
  unfoldable pub app_init : Store Fs → Zb → Zb
  app_init store s =
      let registered =
        record (app_clusters_attr_init store
          (call register_device_ctx (call register_device_cb s))) { endpoint_registered = true } in
      let sleepy =
        if c.zigbee_sleepy_ed
        then call set_keepalive_timeout (call set_ed_timeout registered)
        else registered in
      call zigbee_enable (probe_kick c (call (configure_sleepy_behavior c.zigbee_sleepy_ed) sleepy))
