-- ===== src/Zigbee.antt =====
-- src/zigbee_app.c: the state of the Zigbee application and its calls of ZBOSS. ZBOSS, with its
-- header constants, is not code of the repository: it is the record `Zboss`, and `calls` lists
-- what was asked of it, the latest first.
pub mod Probe
pub mod Descriptors
pub mod Declared
pub mod Attrs
pub mod Signals
pub mod Write
pub mod Publish
pub mod Seeded
pub mod Joining
pub mod Polling
pub mod JoinLed
pub mod Calibrated
pub mod Width
pub mod Reports
pub mod Served
use n_rf52840_power_meter.Prelude.{ℕ, ◌+◌, ◌*◌, ◌/◌, ◌%◌, ◌^◌, ◌≡◌, Bool, true, false, List, ◌∷◌}
use Prim.Native.String.{String}
use n_rf52840_power_meter.Metering.{MeteringU48}

-- `zb_uint24_t`: a packed pair of a 16-bit and an 8-bit word.
pub record U24 : Type 0 where
  pub low : ℕ
  pub high : ℕ

-- `zb_ret_t`.
pub data ZbRet : Type 0 where
  ret_ok ret_out_of_range : ZbRet
  ret_other : ℕ → ZbRet

abbrev pub is_ok : ZbRet → Bool
is_ok ret_ok = true
is_ok _ = false

pub record BasicAttrs : Type 0 where
  pub zcl_version : ℕ
  pub app_version : ℕ
  pub stack_version : ℕ
  pub hw_version : ℕ
  pub mf_name : String
  pub model_id : String
  pub date_code : String
  pub power_source : ℕ
  pub location_id : String
  pub ph_env : ℕ
  pub sw_ver : String

-- `struct zb_device_ctx`, the storage behind the attribute lists.
pub record DevCtx : Type 0 where
  pub basic_attr : BasicAttrs
  pub identify_time : ℕ
  pub metering_current_summation : MeteringU48
  pub metering_status : ℕ
  pub metering_unit_of_measure : ℕ
  pub metering_summation_formatting : ℕ
  pub metering_device_type : ℕ
  pub metering_multiplier : U24
  pub metering_divisor : U24
  pub power_config_battery_voltage : ℕ
  pub power_config_battery_percentage : ℕ
  pub metering_min_pulse_width_us : ℕ
  pub poll_checkin_interval : ℕ
  pub poll_long_poll_interval : ℕ
  pub poll_short_poll_interval : ℕ
  pub poll_fast_poll_timeout : ℕ
  pub poll_checkin_interval_min : ℕ
  pub poll_long_poll_interval_min : ℕ
  pub poll_fast_poll_timeout_max : ℕ

-- A `ZB_ZCL_SET_ATTRIBUTE` call: the attribute and the value.
pub data AttrWrite : Type 0 where
  summation : MeteringU48 → AttrWrite
  divisor : U24 → AttrWrite
  min_pulse_width : ℕ → AttrWrite
  battery_voltage : ℕ → AttrWrite
  battery_percentage : ℕ → AttrWrite

-- The functions handed to `ZB_SCHEDULE_APP_CALLBACK`.
pub data Callback : Type 0 where
  start_steering_cb factory_reset_cb wake_turbo_poll_cb : Callback
  publish_summation_cb publish_summation_and_report_cb : Callback

pub data ZbCall : Type 0 where
  register_device_cb register_device_ctx zigbee_enable : ZbCall
  set_ed_timeout set_keepalive_timeout : ZbCall
  configure_sleepy_behavior : Bool → ZbCall
  rx_idle_probe_kick : ZbCall
  set_attribute : AttrWrite → ZbCall
  pim_set_long_poll_interval : ℕ → ZbCall
  pim_start_turbo_poll_continuous : ℕ → ZbCall
  default_signal_handler : ℕ → ZbCall
  buf_free : ℕ → ZbCall
  start_top_level_commissioning : ZbCall
  reset_via_local_action : ZbCall
  send_report_attr_command : ℕ → ZbCall
  schedule_app_callback : Callback → ZbCall

-- What the code takes from ZBOSS: the effect of ZB_ZCL_SET_ATTRIBUTE on the attribute storage, the
-- conversion macro, and the constants of its headers.
pub record Zboss : Type 0 where
  pub write_attribute : AttrWrite → DevCtx → DevCtx
  pub quarterseconds_to_msec : ℕ → ℕ
  pub set_attr_value_cb_id : ℕ
  pub cluster_id_metering : ℕ
  pub attr_metering_divisor_id : ℕ
  pub zcl_version : ℕ
  pub basic_power_source_battery : ℕ
  pub basic_env_unspecified : ℕ
  pub identify_time_default : ℕ
  pub metering_unit_of_measure_default : ℕ
  pub poll_short_interval_default : ℕ
  pub poll_checkin_min_interval_default : ℕ
  pub poll_long_min_interval_default : ℕ
  pub poll_fast_max_timeout_default : ℕ

-- The storage that an attribute's descriptor points at, after a write of the value.
abbrev pub stored : AttrWrite → DevCtx → DevCtx
stored (summation v) d = record d { metering_current_summation = v }
stored (divisor v) d = record d { metering_divisor = v }
stored (min_pulse_width v) d = record d { metering_min_pulse_width_us = v }
stored (battery_voltage v) d = record d { power_config_battery_voltage = v }
stored (battery_percentage v) d = record d { power_config_battery_percentage = v }

-- ZBOSS documents that the macro writes the value to the variable that the descriptor names.
abbrev pub Stores : Zboss → Type 0
Stores z = (w : AttrWrite) (d : DevCtx) → z.write_attribute w d ≡ stored w d

-- The file-scope variables.
pub record Zb : Type 0 where
  pub dev_ctx : DevCtx
  pub joined : Bool
  pub endpoint_registered : Bool
  pub effective_divisor : ℕ
  pub user_join_in_flight : ℕ
  pub pending_summation_total : ℕ
  pub pending_battery_voltage : ℕ
  pub pending_battery_percentage : ℕ
  pub calls : List ZbCall

abbrev pub call : ZbCall → Zb → Zb
call c s = record s { calls = c ∷ s.calls }

-- ZB_ZCL_SET_ATTRIBUTE on the application's endpoint, without the access check.
abbrev pub set_attr : Zboss → AttrWrite → Zb → Zb
set_attr z w s = call (set_attribute w) (record s { dev_ctx = z.write_attribute w s.dev_ctx })

-- `zb_uint32_to_uint24`, and the expression by which the callback goes back.
abbrev pub to_u24 : ℕ → U24
to_u24 n = record { low = n % 2 ^ 16; high = (n / 2 ^ 16) % 2 ^ 8 }

abbrev pub from_u24 : U24 → ℕ
from_u24 v = v.high * 2 ^ 16 + v.low
