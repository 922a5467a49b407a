-- ===== src/Tests.antt =====
-- Concrete parameters and states that the tests run the code on.
mod Pure
mod Leds
mod Hardware
mod Network
mod Device
mod Systems
mod Lives
mod Presses
mod Pulses
use n_rf52840_power_meter.Prelude.{ℕ, refl, arith, true, false, ◌==◌, if◌then◌else◌, []}
use mathlib.Core.Option.{Option, some, none}
use n_rf52840_power_meter.Config.{Config, InRange}
use n_rf52840_power_meter.Prelude.Int.{pos}
use n_rf52840_power_meter.Rc.{success, enoent}
use n_rf52840_power_meter.Nvs.{Ssize, bytes, negative, NvsBackend, Store}
use n_rf52840_power_meter.Nvs.Slots.{NvsLaws, Writes}
use n_rf52840_power_meter.Nvs.Remount.{Mounts, MountKeeps}
use n_rf52840_power_meter.Pulse.{
  Nrfx, nrfx_success, other_ref, other_detect, hitolo, lotohi, ch_up, ch_down, ch_bench_h,
  ch_bench_l, ch_cnt,
}
use n_rf52840_power_meter.Zigbee.{Zboss, DevCtx, Zb, stored, Stores}
use n_rf52840_power_meter.Zigbee.Attrs.{basic_attrs_init}
use n_rf52840_power_meter.Zigbee.Publish.{Adc}

-- A flash that keeps a value for each identifier.
abbrev pub Flash : Type 0
Flash = ℕ → Option ℕ

abbrev pub flash_read : Option ℕ → ℕ → Ssize × ℕ
flash_read none size = (negative enoent, 0)
flash_read (some v) size = (bytes size, v)

abbrev pub flash : NvsBackend Flash
flash = record {
  device_ready = true;
  partition_offset = 0xFC000;
  partition_size = 0x4000;
  flash_get_page_info_by_offs = λ o. (success, 4096);
  nvs_mount = λ g fs. (success, fs);
  nvs_clear = λ g fs. (success, λ k. none);
  nvs_read = λ fs slot size. flash_read (fs slot) size;
  nvs_write = λ fs slot val size. (bytes size, λ k. if k == slot then some val else fs k);
}

pub flash-NvsLaws : NvsLaws flash
flash-NvsLaws = record {
  read_back = λ fs slot val size k small e. ground arith;
  read_other = λ fs slot other val size size' ne. ground arith;
}

pub flash-Writes : Writes flash
flash-Writes fs slot val size = (size, refl)

pub flash-Mounts : (fs : Flash) → Mounts flash fs
flash-Mounts fs = record { ready = refl; page = refl; mounted = refl }

pub flash-MountKeeps : MountKeeps flash
flash-MountKeeps g fs slot size e = refl

-- A mounted store that holds nothing, and one that has saved a total.
abbrev pub empty_store : Store Flash
empty_store = record {
  fs = λ k. none;
  geometry = record { offset = 0; sector_size = 4096; sector_count = 4 };
  initialized = true;
}

abbrev pub used_store : Store Flash
used_store = record empty_store { fs = λ k. if k == 1 then some 5000 else none }

abbrev pub unmounted_store : Store Flash
unmounted_store = record used_store { initialized = false }

-- The battery build's defaults.
abbrev pub config : Config
config = record {
  boot_flash = false;
  report_heartbeat = false;
  usb_device_stack = false;
  hw_pulse_counter = true;
  battery_reporting = true;
  zigbee_sleepy_ed = true;
  zigbee_rx_idle_probe = false;
  zigbee_join_turbo_poll_ms = 60000;
  zigbee_wake_turbo_poll_ms = 30000;
  zigbee_checkin_interval_s = 3600;
  zigbee_fast_poll_timeout_s = 10;
  zigbee_long_poll_interval_ms = 60000;
  pulse_min_width_us = 2000;
  metering_default_imp_per_kwh = 1000;
  battery_full_mv = 4200;
  battery_empty_mv = 3300;
}

pub config-InRange : InRange config
config-InRange = record {
  width_min = omega arith;
  width_max = omega arith;
  imp_min = omega arith;
  imp_max = omega arith;
}

-- Hardware whose calls succeed, with a channel of its own for each role.
abbrev pub nrfx : ℕ → Nrfx
nrfx captured = record {
  timer_init_err = λ t. nrfx_success;
  lpcomp_default_config = λ input. record {
    input = input;
    reference = other_ref 0;
    detection = other_detect 0;
    hyst_enabled = false;
  };
  lpcomp_has_hyst = true;
  lpcomp_init_err = nrfx_success;
  gpiote_init_err = nrfx_success;
  gpiote_alloc = λ e. elim e [ hitolo ↦ (nrfx_success, 0) | lotohi ↦ (nrfx_success, 1) ];
  gpiote_configure_err = λ e. nrfx_success;
  gppi_alloc = λ r. elim r [
    | ch_up ↦ (nrfx_success, 0)
    | ch_down ↦ (nrfx_success, 1)
    | ch_bench_h ↦ (nrfx_success, 2)
    | ch_bench_l ↦ (nrfx_success, 3)
    | ch_cnt ↦ (nrfx_success, 4)
  ];
  captured = captured;
}

-- A stack that stores each attribute in the variable of its descriptor.
abbrev pub zboss : Zboss
zboss = record {
  write_attribute = stored;
  quarterseconds_to_msec = λ q. q;
  set_attr_value_cb_id = 0;
  cluster_id_metering = 0x0702;
  attr_metering_divisor_id = 0x0302;
  zcl_version = 3;
  basic_power_source_battery = 3;
  basic_env_unspecified = 0;
  identify_time_default = 0;
  metering_unit_of_measure_default = 0;
  poll_short_interval_default = 2;
  poll_checkin_min_interval_default = 0;
  poll_long_min_interval_default = 0;
  poll_fast_max_timeout_default = 0;
}

pub zboss-Stores : Stores zboss
zboss-Stores w d = refl

-- The Zigbee state with zero storage, before and after the endpoint is registered.
abbrev pub zeroed : DevCtx
zeroed = record {
  basic_attr = basic_attrs_init zboss;
  identify_time = 0;
  metering_current_summation = record { low = 0; high = 0 };
  metering_status = 0;
  metering_unit_of_measure = 0;
  metering_summation_formatting = 0;
  metering_device_type = 0;
  metering_multiplier = record { low = 1; high = 0 };
  metering_divisor = record { low = 1000; high = 0 };
  power_config_battery_voltage = 0;
  power_config_battery_percentage = 0;
  metering_min_pulse_width_us = 2000;
  poll_checkin_interval = 0;
  poll_long_poll_interval = 0;
  poll_short_poll_interval = 0;
  poll_fast_poll_timeout = 0;
  poll_checkin_interval_min = 0;
  poll_long_poll_interval_min = 0;
  poll_fast_poll_timeout_max = 0;
}

abbrev pub unregistered : Zb
unregistered = record {
  dev_ctx = zeroed;
  joined = false;
  endpoint_registered = false;
  effective_divisor = 1000;
  user_join_in_flight = 0;
  pending_summation_total = 0;
  pending_battery_voltage = 255;
  pending_battery_percentage = 255;
  calls = [];
}

abbrev pub registered : Zb
registered = record unregistered { endpoint_registered = true }

abbrev pub adc : Adc
adc = record {
  sequence_init = success;
  read = success;
  raw_to_millivolts = success;
  millivolts = pos 3900;
}
