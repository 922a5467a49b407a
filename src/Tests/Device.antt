-- ===== src/Tests/Device.antt =====
-- Runs of `main`: the button, the start and the sample loop.
use n_rf52840_power_meter.Prelude.{
  if◌then◌else◌, leb, ℕ, ◌+◌, ◌*◌, ◌≤◌, ◌<◌, ◌≡◌, ◌↔◌, ◌⊎◌, inl, refl, arith, Bool, true, false,
  sum, List, [], ◌∷◌,
}
use mathlib.Core.Option.{some}
use n_rf52840_power_meter.Prelude.Int.{pos}
use n_rf52840_power_meter.Rc.{success}
use n_rf52840_power_meter.Button
use n_rf52840_power_meter.Button.{PressClassifier}
use n_rf52840_power_meter.Led.Priority.{long_press_hold}
use n_rf52840_power_meter.Led.Controller.{Led, boot, led_cancel}
use n_rf52840_power_meter.Accumulator
use n_rf52840_power_meter.Persist
use n_rf52840_power_meter.Gate
use n_rf52840_power_meter.Nvs.{loaded, load_total}
use n_rf52840_power_meter.Zigbee.Signals.{on_led}
use n_rf52840_power_meter.Main.Press.{Panel}
use n_rf52840_power_meter.Main.Press.Gesture.{gesture, Asked, gesture-Asked}
use n_rf52840_power_meter.Main.Loop.{Loop, Sample}
use n_rf52840_power_meter.Main.Loop.Save.{Restores, Safe}
use n_rf52840_power_meter.Main.{zigbee_report_pulse_heartbeat}
use n_rf52840_power_meter.Main.Loop.Paced.{changes, reports, reports_paced}
use n_rf52840_power_meter.Zigbee.Reports.{scheduled}
use n_rf52840_power_meter.Main.Loop.Loss.{iterate_all}
use n_rf52840_power_meter.Main.Boot.{
  halted, blinking, running, BootEnv, Restored, erase_if_held, load_into, restore_total, enter_loop,
}
use n_rf52840_power_meter.Main.Poll.{boot_button_held, wait_for_host_dtr_or_timeout}
use n_rf52840_power_meter.Main.Boot.Hold.{
  Held, lit, boot_button_held_iff, wait_for_host_dtr_ends, ended, Waited,
}
use n_rf52840_power_meter.Main.Boot.Restore.{Resumed, restore_total_lem}
use n_rf52840_power_meter.Main.Metered.{metered}
use n_rf52840_power_meter.Tests.{
  Flash, flash, flash-NvsLaws, flash-Writes, used_store, config, nrfx, zboss, unregistered,
  registered, adc,
}

abbrev pub panel : Panel
panel = record {
  press_start_ms = pos 0;
  press_duration_ms = 0;
  classifier = Button.init 1000 3000;
  node = record { zb = registered; led = boot };
  calls = [];
}

gesture-Asked_example :
    Asked config
      (λ n. n)
      3200
      (on_led (led_cancel long_press_hold) panel.node)
      (gesture zboss config (λ n. n) 10000 3200 panel).node
gesture-Asked_example = gesture-Asked zboss config (λ n. n) 10000 3200 panel refl

boot_button_held_iff_example :
    (h : Bool) × (boot_button_held 301 3000 (λ k. pos 1) boot ≡ some (h, lit h boot))
    × ((h ≡ true) ↔ Held 300 (λ k. pos 1) 0)
boot_button_held_iff_example =
    boot_button_held_iff 301 3000 (λ k. pos 1) boot (omega arith) (omega arith)

-- The host opens the port before the 13th turn.
abbrev host_line : ℕ → ℕ → ℕ
host_line poll old = if leb 12 poll then 1 else old

wait_for_host_dtr_ends_example :
    (j : ℕ) × (wait_for_host_dtr_or_timeout 51 (pos 5000) host_line 800 ≡ ended j (800 + 100 * j))
    × Waited host_line 50 0 0 j
wait_for_host_dtr_ends_example =
    wait_for_host_dtr_ends 51 5000 host_line 800 (omega arith) (omega arith)

abbrev restored : Bool → Restored Flash
restored held = restore_total flash success (held, boot) boot used_store

restore_total_lem_example :
    Resumed flash (restored true)
    × ((restored true).store.initialized ≡ true)
    × (((true ≡ true)
          × ((restored true).acc.total ≡ 0)
          × (load_total flash (restored true).store ≡ loaded 0))
        ⊎ ((true ≡ false) × ((restored true).store ≡ used_store)))
restore_total_lem_example =
    restore_total_lem flash flash-NvsLaws flash-Writes true boot boot used_store refl

abbrev pub env : BootEnv
env = record {
  cdc_ready = true;
  usb_enable = success;
  button_ready = true;
  button_configure = success;
  led_ready = λ p. true;
  led_configure = λ p. success;
  pin = λ k. pos 0;
  dtr = λ k old. 0;
  button_interrupt_configure = success;
  button_add_callback = success;
  nrfx = nrfx 0;
  uptime_ms = 700;
}

-- Two readings of the counter, 40 pulses and then 130 more, 200 ms apart.
abbrev samples : List Sample
samples =
    record { nrfx = nrfx 40; adc = adc; now = pos 1000 }
    ∷ (record { nrfx = nrfx 170; adc = adc; now = pos 1200 } ∷ [])

abbrev fresh : Loop Flash
fresh = record {
  acc = record { total = 5000; last_hw = 0 };
  policy = Persist.init 300000 100;
  pulse_heartbeat = Gate.init 100;
  last_saved_total = 5000;
  last_saved_ms = pos 0;
  last_published_total = 5000;
  zb = registered;
  store = used_store;
  hw = [];
}

fresh-Safe : Safe flash fresh
unfolding load_total
fresh-Safe = record {
  policy = refl;
  up = refl;
  total_fits = omega arith;
  restores = inl refl;
  saved_le = omega arith;
  loss = omega arith;
}

fresh-gate : fresh.pulse_heartbeat ≡ Gate.init zigbee_report_pulse_heartbeat
fresh-gate = refl

restored-total : (restored false).acc.total ≡ 5000
unfolding restore_total erase_if_held load_into load_total Accumulator.restore
restored-total = refl

abbrev pub start : Loop Flash × PressClassifier × Led
start = elim (enter_loop flash zboss config env 700 unregistered [] (restored false)) [
  | halted l ↦ (fresh, Button.init 1000 3000, l)
  | blinking ↦ (fresh, Button.init 1000 3000, boot)
  | running x ↦ x
]

reaches_loop :
    enter_loop flash zboss config env 700 unregistered [] (restored false) ≡ running start
unfolding enter_loop
reaches_loop = refl

metered_example :
    let t = iterate_all flash config samples start.0 in
    let total = (restored false).acc.total + sum (40 ∷ 130 ∷ []) in
    (t.acc.total ≡ total) × ((v : ℕ) × Restores flash t.store v × (v ≤ total) × (total < v + 100))
metered_example =
    metered flash zboss config env 700 unregistered [] false boot boot used_store start
      (40 ∷ 130 ∷ []) samples flash-NvsLaws flash-Writes refl refl reaches_loop
      (refl, omega arith, (refl, omega arith, tt)) (omega (arith, restored-total))

reports_paced_example :
    let t = iterate_all flash config samples fresh in
    let n = changes flash config samples fresh in
    (scheduled t.zb.calls ≡ n + scheduled fresh.zb.calls)
    × ((f : ℕ) × (reports t.zb.calls ≡ f + reports fresh.zb.calls)
        × (f * 100 ≤ n)
        × (n < f * 100 + 100))
reports_paced_example = reports_paced flash config samples fresh refl fresh-gate
