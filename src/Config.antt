-- ===== src/Config.antt =====
-- The build's Kconfig values that the code reads, with the ranges that Kconfig enforces.
use n_rf52840_power_meter.Prelude.{ℕ, Bool, ◌≤◌}

pub record Config : Type 0 where
  pub boot_flash : Bool
  pub report_heartbeat : Bool
  pub usb_device_stack : Bool
  pub hw_pulse_counter : Bool
  pub battery_reporting : Bool
  pub zigbee_sleepy_ed : Bool
  pub zigbee_rx_idle_probe : Bool
  pub zigbee_join_turbo_poll_ms : ℕ
  pub zigbee_wake_turbo_poll_ms : ℕ
  pub zigbee_checkin_interval_s : ℕ
  pub zigbee_fast_poll_timeout_s : ℕ
  pub zigbee_long_poll_interval_ms : ℕ
  pub pulse_min_width_us : ℕ
  pub metering_default_imp_per_kwh : ℕ
  pub battery_full_mv : ℕ
  pub battery_empty_mv : ℕ

pub record InRange (c : Config) : Type 0 where
  pub width_min : 100 ≤ c.pulse_min_width_us
  pub width_max : c.pulse_min_width_us ≤ 10000
  pub imp_min : 100 ≤ c.metering_default_imp_per_kwh
  pub imp_max : c.metering_default_imp_per_kwh ≤ 10000
