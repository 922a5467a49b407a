-- ===== src/Tests/Systems.antt =====
-- Runs of the whole system.
use n_rf52840_power_meter.Prelude.{
  ℕ, false, true, ◌!=◌, if◌then◌else◌, ◌≤◌, ◌⊎◌, ◌≡◌, ◌+◌, inl, refl, arith, ap,
}
use mathlib.Core.Option.{some, none}
use n_rf52840_power_meter.Prelude.Int.{pos}
use n_rf52840_power_meter.Rc.{Rc, success}
use n_rf52840_power_meter.Led.Controller
use n_rf52840_power_meter.Accumulator
use n_rf52840_power_meter.Nvs.{Store, store_init, load_total}
use n_rf52840_power_meter.Nvs.Remount.{store_init-off}
use n_rf52840_power_meter.Pulse
use n_rf52840_power_meter.Pulse.{hw_init}
use n_rf52840_power_meter.Main.Loop.{Sample, count_pulses, publish_if_changed}
use n_rf52840_power_meter.Led.Controller.Tick.{tick_handler}
use n_rf52840_power_meter.Main.Boot.{
  Boot, halted, blinking, running, Booting, boot, start_console, start_inputs, start_counter,
  enter_loop, restore_total, erase_if_held, load_into,
}
use n_rf52840_power_meter.Main.Poll.{boot_button_held}
use n_rf52840_power_meter.Main.Boot.Course.{Started, Course}
use n_rf52840_power_meter.Main.Boot.Diagnosis.{boot-Course}
use n_rf52840_power_meter.Zigbee.Publish.{run_publish_summation, run_publish_summation_and_report}
use n_rf52840_power_meter.Accumulator.{total_of}
use n_rf52840_power_meter.Main.Press.{
  metering_report_work_handler, user_button_isr, button_dispatch,
}
use n_rf52840_power_meter.System.{
  node, with_node, report_read, report_publish, World, Reach, here, next, emit, count, publish,
  led_tick, publishing, persisting, panel,
}
use n_rf52840_power_meter.System.Sound.{Sound}
use n_rf52840_power_meter.System.Run.{Outside, Reach-Sound}
use n_rf52840_power_meter.System.Published.{report_tick_lem}
use n_rf52840_power_meter.System.Start.{begin, boot-Reach-Sound}
use n_rf52840_power_meter.System.Life.{power_up}
use n_rf52840_power_meter.System.Spec.{MeterRun, Ordered, Grows}
use n_rf52840_power_meter.System.Refines.{Reach-Refines}
use n_rf52840_power_meter.System.View.{view}
use n_rf52840_power_meter.Main.Loop.Save.{Restores}
use n_rf52840_power_meter.System.Release.{first_release_resets}
use n_rf52840_power_meter.Zigbee.{call, schedule_app_callback, factory_reset_cb}
use n_rf52840_power_meter.System.Shown.{Reads, Reach-Reads}
use n_rf52840_power_meter.Tests.{
  Flash, flash, flash-NvsLaws, flash-Writes, flash-Mounts, used_store, config, config-InRange, nrfx,
  zboss, zboss-Stores, unregistered, adc,
}
use n_rf52840_power_meter.Tests.Device.{env, start}

abbrev pub powered : Booting Flash
powered = power_up unregistered used_store.fs

boot-Course_example :
    (o : Boot (Started Flash)) × (boot flash 301 zboss config env powered ≡ some o)
    × Course flash zboss config env powered o
boot-Course_example = boot-Course flash zboss config env powered (inl refl) 301 (omega arith)

abbrev pub first : Started Flash
first = elim (boot flash 301 zboss config env powered) [
  | none ↦ start
  | some o ↦ elim o [ halted l ↦ start | blinking ↦ start | running x ↦ x ]
]

pub reaches : boot flash 301 zboss config env powered ≡ some (running first)
unfolding boot start_console start_inputs start_counter boot_button_held enter_loop
    Controller.controller_init hw_init Pulse.init_chain Pulse.init_counter_timer
    Pulse.init_width_timer Pulse.init_lpcomp Pulse.init_gpiote Pulse.init_ppi store_init
reaches = refl

first-total : first.0.acc.total ≡ 5000
unfolding boot start_console start_inputs start_counter boot_button_held enter_loop restore_total
    erase_if_held load_into load_total Accumulator.restore Controller.controller_init hw_init
    Pulse.init_chain Pulse.init_counter_timer Pulse.init_width_timer Pulse.init_lpcomp
    Pulse.init_gpiote Pulse.init_ppi store_init
first-total = refl

store_init-used : (store_init flash powered.store).0 ≡ success
store_init-used =
    ap (λ (r : Rc × Store Flash). r.0)
      (store_init-off flash used_store.fs (flash-Mounts used_store.fs))

pub outside : Outside flash zboss config
outside = record {
  laws = flash-NvsLaws;
  writes = flash-Writes;
  stores = zboss-Stores;
  ids = omega arith;
  counter = refl;
}

-- Forty pulses, an expiry of the LED's timer, and the counting of the next turn.
abbrev shot : Sample
shot = record { nrfx = nrfx 40; adc = adc; now = pos 1000 }

abbrev pulsed : World Flash
pulsed = let w = begin first in record w { emitted = 40 }

abbrev ticked : World Flash
ticked = let w = pulsed in record w { led = tick_handler 900 w.led }

abbrev counted : World Flash
counted =
    let w = ticked in
    record w { loop = count_pulses flash config shot w.loop; sampled = 40; turn = publishing }

abbrev pub published : World Flash
published =
    let w = counted in
    record w {
      loop = publish_if_changed flash config shot w.loop;
      turn = persisting;
      stale = if w.loop.acc.total != w.loop.last_published_total then false else w.stale;
    }

pub run : Reach flash zboss config (begin first) published
run =
    next
      (next
        (next (next here (emit (begin first) 40 (omega (arith, first-total))))
          (led_tick pulsed 900))
        (count ticked shot refl refl (omega arith)))
      (publish counted shot refl)

boot-Reach-Sound_example : Sound flash published
boot-Reach-Sound_example =
    boot-Reach-Sound flash zboss config env powered 301 first published outside config-InRange
      (omega arith) (inl refl) store_init-used reaches (omega (arith, first-total)) run

begin-Sound : Sound flash (begin first)
begin-Sound =
    boot-Reach-Sound flash zboss config env powered 301 first (begin first) outside config-InRange
      (omega arith) (inl refl) store_init-used reaches (omega (arith, first-total)) here

Reach-Reads_example :
    let zb = published.loop.zb in
    (n : ℕ) × Reads n (run_publish_summation zboss zb)
    × Reads n (run_publish_summation_and_report zboss config true 5 zb)
    × (n ≤ published.base + 40)
    × ((n ≡ published.base + 40) ⊎ (persisting ≡ publishing) ⊎ (published.stale ≡ true))
Reach-Reads_example =
    Reach-Reads flash zboss config (begin first) published true 5 outside begin-Sound run

-- A report that has read the total before those pulses and then waits for the battery is overtaken
-- by the turn that counts them, and puts the older total back.
abbrev reading : World Flash
reading = let w = ticked in record w { report = some (total_of w.loop.acc) }

abbrev read_counted : World Flash
read_counted =
    let w = reading in
    record w { loop = count_pulses flash config shot w.loop; sampled = 40; turn = publishing }

abbrev read_published : World Flash
read_published =
    let w = read_counted in
    record w {
      loop = publish_if_changed flash config shot w.loop;
      turn = persisting;
      stale = if w.loop.acc.total != w.loop.last_published_total then false else w.stale;
    }

abbrev overtaken : World Flash
overtaken =
    let w = read_published in
    let n = total_of ticked.loop.acc in
    record (with_node (metering_report_work_handler config adc (some n) (node w)).0 w) {
      report = none;
      stale = n != w.loop.acc.total;
    }

reads : Reach flash zboss config (begin first) read_published
reads =
    next
      (next
        (next
          (next (next here (emit (begin first) 40 (omega (arith, first-total))))
            (led_tick pulsed 900))
          (report_read ticked refl))
        (count reading shot refl refl (omega arith)))
      (publish read_counted shot refl)

overtakes : Reach flash zboss config (begin first) overtaken
overtakes = next reads (report_publish read_published adc (total_of ticked.loop.acc) refl)

overtaken-stale :
    (overtaken.loop.zb.pending_summation_total ≡ first.0.acc.total)
    × (overtaken.loop.acc.total ≡ first.0.acc.total + 40)
unfolding total_of
overtaken-stale =
    let before = Reach-Sound flash zboss config outside begin-Sound reads in
    let after = Reach-Sound flash zboss config outside begin-Sound overtakes in
    let n = first.0.acc.total in
    let k =
      report_tick_lem config adc n (node read_published) before.calibrated.registered
        before.in_sync in
    (k.0.pending, after.total)

-- The button of the erase gesture is let go four seconds after power-up.
first_release_resets_example :
    let p = panel (begin first) in
    (button_dispatch zboss config (λ n. n) (user_button_isr (pos 4000) (pos 0) p)).node.zb
    ≡ call (schedule_app_callback factory_reset_cb) first.0.zb
first_release_resets_example =
    first_release_resets flash zboss config env powered 301 first (λ n. n) 4000 (omega arith)
      (inl refl) reaches (omega arith)

Reach-Refines_example :
    MeterRun (view (begin first)) (view published)
    × Ordered (view published)
    × Grows (view (begin first)) (view published)
    × Restores flash published.loop.store (view published).saved
Reach-Refines_example =
    Reach-Refines flash zboss config (begin first) published outside begin-Sound run
