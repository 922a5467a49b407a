-- ===== src/Tests/Network.antt =====
-- Runs of the Zigbee application.
use n_rf52840_power_meter.Prelude.{
  ℕ, ◌+◌, ◌≡◌, ◌⊎◌, ◌++◌, refl, arith, true, false, min, List, [], ◌∷◌,
}
use n_rf52840_power_meter.Rc.{success}
use n_rf52840_power_meter.Led.Priority.{joining, join_fail}
use n_rf52840_power_meter.Led.Controller.{boot}
use n_rf52840_power_meter.Metering.{summation_u48_max}
use n_rf52840_power_meter.Metering.Wire.{value_of}
use n_rf52840_power_meter.Nvs.{save_imp_per_kwh}
use n_rf52840_power_meter.Zigbee.{U24, ret_ok, ret_other, from_u24}
use n_rf52840_power_meter.Zigbee.Attrs.{app_init}
use mathlib.Core.List.{Memᴰ}
use n_rf52840_power_meter.Zigbee.Write.{Meter, CallbackParam}
use n_rf52840_power_meter.Zigbee.Descriptors.{
  Sdk, Attr, standard, zcl_version, Variable, current_summation, status, unit_of_measure,
  summation_formatting, device_type, multiplier, divisor,
}
use n_rf52840_power_meter.Zigbee.Declared.{SdkLaws, Served, metering_attrs-Served}
use n_rf52840_power_meter.Zigbee.Signals.{Node, steering, leave, other_signal, start_join}
use n_rf52840_power_meter.Zigbee.Calibrated.{
  Agrees, write_the_divisor, write_the_width, DivisorAccepted, DivisorRejected, divisor_write,
}
use n_rf52840_power_meter.Zigbee.Width.{WidthAccepted, WidthRejected, min_pulse_width_write}
use n_rf52840_power_meter.Zigbee.Seeded.{Seeded, app_init-Seeded, saved_divisor_survives}
use n_rf52840_power_meter.Zigbee.Joining.{
  Event, handled, delegated, freed, buffers, real_buffers, latest_verdict, handled_lem,
}
use n_rf52840_power_meter.Zigbee.Polling.{polls, expected_polls, handled-polls}
use n_rf52840_power_meter.Zigbee.JoinLed.{join_outcome_painted_once}
use n_rf52840_power_meter.Zigbee.Publish.{
  run_publish_summation, run_publish_summation_and_report, publish_summation_and_report,
}
use n_rf52840_power_meter.Zigbee.Reports.{Publish, plain, reported, published, scheduled, BatteryOf}
use n_rf52840_power_meter.Zigbee.Served.{latest_total_published, battery_reported}
use n_rf52840_power_meter.Tests.{
  Flash, flash, flash-NvsLaws, used_store, config, config-InRange, zboss, zboss-Stores,
  unregistered, registered, adc,
}

abbrev meter : Meter Flash
meter = record { zb = registered; store = used_store; hw = [] }

abbrev wanted : U24
wanted = record { low = 800; high = 0 }

meter-Agrees : Agrees meter
meter-Agrees = record { in_range = (omega arith, omega arith); shown = refl }

divisor_write_example :
    Agrees (write_the_divisor flash zboss wanted meter).1
    × (DivisorAccepted flash wanted meter (write_the_divisor flash zboss wanted meter)
        ⊎ DivisorRejected wanted meter (write_the_divisor flash zboss wanted meter))
divisor_write_example =
    divisor_write flash zboss wanted meter zboss-Stores (omega arith) (omega arith, omega arith)
      meter-Agrees

-- 20000 microseconds are out of range.
min_pulse_width_write_example :
    ((write_the_width flash zboss 20000 meter).1.zb.dev_ctx.metering_min_pulse_width_us ≡ 20000)
    × (WidthAccepted flash 20000 meter (write_the_width flash zboss 20000 meter)
        ⊎ WidthRejected 20000 meter (write_the_width flash zboss 20000 meter))
min_pulse_width_write_example = min_pulse_width_write flash zboss 20000 meter zboss-Stores

app_init-Seeded_example :
    Seeded flash config used_store (app_init flash zboss config used_store unregistered)
app_init-Seeded_example = app_init-Seeded flash zboss config used_store unregistered config-InRange

saved_divisor : (save_imp_per_kwh flash 800 used_store).0 ≡ success
unfolding save_imp_per_kwh
saved_divisor = refl

saved_divisor_survives_example :
    let s' = app_init flash zboss config (save_imp_per_kwh flash 800 used_store).1 unregistered in
    (s'.effective_divisor ≡ 800) × (from_u24 s'.dev_ctx.metering_divisor ≡ 800)
saved_divisor_survives_example =
    saved_divisor_survives flash zboss config used_store unregistered 800 flash-NvsLaws
      (omega arith, omega arith) saved_divisor

abbrev node : Node
node = record { zb = registered; led = boot }

abbrev failed_steering : Event
failed_steering = record { bufid = 9; signal = steering; status = ret_other 1; attr_found = true }

abbrev skipped : Event
skipped = record { bufid = 0; signal = other_signal 4; status = ret_ok; attr_found = false }

abbrev left : Event
left = record { bufid = 12; signal = leave; status = ret_ok; attr_found = false }

handled_lem_example :
    let es = left ∷ skipped ∷ failed_steering ∷ [] in
    let s = (handled zboss config es node).zb in
    (delegated s.calls ≡ buffers es ++ delegated registered.calls)
    × (freed s.calls ≡ real_buffers es ++ freed registered.calls)
    × (s.joined ≡ latest_verdict es registered.joined)
handled_lem_example = handled_lem zboss config (left ∷ skipped ∷ failed_steering ∷ []) node

-- A steering that succeeds after one that failed.
abbrev attached : Event
attached = record { bufid = 14; signal = steering; status = ret_ok; attr_found = true }

handled-polls_example :
    let es = left ∷ attached ∷ failed_steering ∷ [] in
    let s = (handled zboss config es node).zb in
    (polls s.calls ≡ expected_polls zboss config 0 es ++ polls registered.calls)
    × (s.dev_ctx.poll_long_poll_interval ≡ 0)
handled-polls_example = handled-polls zboss config (left ∷ attached ∷ failed_steering ∷ []) node

join_outcome_painted_once_example :
    let pending = handled zboss config (skipped ∷ []) (start_join node) in
    let done = handled zboss config (left ∷ failed_steering ∷ skipped ∷ []) (start_join node) in
    (pending.led.rendered ≡ joining)
    × (done.led.rendered ≡ join_fail)
    × (done.zb.user_join_in_flight ≡ 0)
join_outcome_painted_once_example =
    join_outcome_painted_once zboss config (skipped ∷ []) (left ∷ []) failed_steering node refl
      ((λ (e : other_signal 4 ≡ steering). cc), tt) refl

abbrev backlog : List Publish
backlog = reported adc 8 ∷ plain 7 ∷ []

latest_total_published_example :
    let t = published config (plain 9 ∷ backlog) registered in
    let plainly = run_publish_summation zboss t in
    let reporting = run_publish_summation_and_report zboss config true 5 t in
    (scheduled t.calls ≡ 3 + scheduled registered.calls)
    × (value_of plainly.dev_ctx.metering_current_summation ≡ min 9 summation_u48_max)
    × (value_of reporting.dev_ctx.metering_current_summation ≡ min 9 summation_u48_max)
latest_total_published_example =
    latest_total_published zboss config true 5 (plain 9) backlog registered zboss-Stores refl

battery_reported_example :
    let d =
      (run_publish_summation_and_report zboss config true 5
        (publish_summation_and_report config adc 8 registered)).dev_ctx in
    BatteryOf config adc d.power_config_battery_voltage d.power_config_battery_percentage
battery_reported_example =
    battery_reported zboss config true 5 adc 8 registered zboss-Stores refl refl

-- The Metering identifiers of the ZCL; the other clusters do not matter.
abbrev sdk_id : Variable → ℕ
sdk_id v = elim v [
  | current_summation ↦ 0
  | status ↦ 0x0200
  | unit_of_measure ↦ 0x0300
  | multiplier ↦ 0x0301
  | divisor ↦ 0x0302
  | summation_formatting ↦ 0x0303
  | device_type ↦ 0x0306
  | _ ↦ 0x0400
]

abbrev stock_desc : Variable → Attr
stock_desc v = record {
  id = sdk_id v;
  access = record { writable = false; reporting = false };
  manuf_code = standard;
  data_p = v;
}

abbrev stock_descs : List Variable → List Attr
stock_descs [] = []
stock_descs (v ∷ vs) = stock_desc v ∷ stock_descs vs

abbrev sdk : Sdk
sdk = record {
  attr_id = sdk_id;
  cluster_revision =
      record {
        id = 0xFFFD;
        access = record { writable = false; reporting = false };
        manuf_code = standard;
        data_p = zcl_version;
      }
      ∷ [];
  set_attr_desc = stock_desc;
  set_attr_desc_m = λ v a. record { id = sdk_id v; access = a; manuf_code = standard; data_p = v };
  set_manuf_spec_attr_desc =
      λ n a code v. record { id = n; access = a; manuf_code = code; data_p = v };
  declare_identify_attrib_list = stock_descs;
  declare_basic_attrib_list_ext = stock_descs;
  declare_poll_control_attrib_list = stock_descs;
  metering_report_attr_count = 3;
  ha_profile_id = 0x0104;
}

sdk-SdkLaws : SdkLaws zboss sdk
sdk-SdkLaws = record {
  revision = ((refl, omega arith, omega arith), tt);
  stock_desc = (
    (refl, omega arith, omega arith),
    (
      (refl, omega arith, omega arith),
      (
        (refl, omega arith, omega arith),
        (
          (refl, omega arith, omega arith),
          ((refl, omega arith, omega arith), ((refl, omega arith, omega arith), tt)),
        ),
      ),
    ),
  );
  desc_m = λ v a. (refl, refl, refl);
  manuf_spec_desc = λ n a code v. (refl, refl, refl);
  same_divisor = refl;
  divisor_apart = omega arith;
}

abbrev status_write : CallbackParam
status_write = record {
  device_cb_id = 0;
  cluster_id = 0x0702;
  attr_id = 0x0200;
  data16 = 7;
  data24 = wanted;
}

metering_attrs-Served_example : Served flash zboss sdk status_write meter (stock_desc status)
metering_attrs-Served_example =
    metering_attrs-Served flash zboss sdk status_write meter (stock_desc status) sdk-SdkLaws
      (Memᴰ.tail (Memᴰ.tail (Memᴰ.head refl)))
