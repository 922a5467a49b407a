-- ===== src/Main/Loop.antt =====
-- The sample loop of `main` in src/main.c, one iteration at a time.
pub mod Save
pub mod Paced
pub mod Loss
use n_rf52840_power_meter.Prelude.{ℕ, ◌!=◌, if◌then◌else◌, List}
use n_rf52840_power_meter.Prelude.Int.{ℤ, ◌-ℤ◌, u64_of_ℤ}
use n_rf52840_power_meter.Config.{Config}
use n_rf52840_power_meter.Rc.{success, fail}
use n_rf52840_power_meter.Accumulator.{PulseAccumulator}
use n_rf52840_power_meter.Accumulator
use n_rf52840_power_meter.Persist.{PersistPolicy, should_write}
use n_rf52840_power_meter.Gate.{ReportGate, advance}
use n_rf52840_power_meter.Nvs.{NvsBackend, Store, save_total}
use n_rf52840_power_meter.Pulse.{HwCall, Nrfx, hw_read}
use n_rf52840_power_meter.Zigbee.{Zb}
use n_rf52840_power_meter.Zigbee.Publish.{Adc, publish_summation, publish_summation_and_report}

-- The locals of `main` that the loop keeps, and what it reaches.
pub record Loop (Fs : Type 0) : Type 0 where
  pub acc : PulseAccumulator
  pub policy : PersistPolicy
  pub pulse_heartbeat : ReportGate
  pub last_saved_total : ℕ
  pub last_saved_ms : ℤ
  pub last_published_total : ℕ
  pub zb : Zb
  pub store : Store Fs
  pub hw : List HwCall

-- What one iteration gets from outside: the counter, the battery's ADC and the uptime.
pub record Sample : Type 0 where
  pub nrfx : Nrfx
  pub adc : Adc
  pub now : ℤ

module _ {Fs : Type 0} (b : NvsBackend Fs) (c : Config) where
  -- The counter, or 0 in the build without it, into the accumulator.
  unfoldable pub count_pulses : Sample → Loop Fs → Loop Fs
  count_pulses i m =
      if c.hw_pulse_counter
      then (let (pulses, hw) = hw_read i.nrfx m.hw in
          record m { acc = Accumulator.update m.acc pulses; hw = hw })
      else record m { acc = Accumulator.update m.acc 0 }

  unfoldable pub publish_if_changed : Sample → Loop Fs → Loop Fs
  publish_if_changed i m =
      let total = Accumulator.total_of m.acc in
      if total != m.last_published_total
      then (let (force, gate) = advance m.pulse_heartbeat in
          let zb =
            if force
            then publish_summation_and_report c i.adc total m.zb
            else publish_summation total m.zb in
          record m { pulse_heartbeat = gate; zb = zb; last_published_total = total })
      else m

  unfoldable pub persist_if_due : Sample → Loop Fs → Loop Fs
  persist_if_due i m =
      let total = Accumulator.total_of m.acc in
      if should_write m.policy total m.last_saved_total (u64_of_ℤ (i.now -ℤ m.last_saved_ms))
      then (let (save_err, store) = save_total b total m.store in
          elim save_err [
            | success ↦ record m { store = store; last_saved_total = total; last_saved_ms = i.now }
            | fail e ↦ record m { store = store }
          ])
      else m

  -- The body of `while (1)`.
  unfoldable pub iterate : Sample → Loop Fs → Loop Fs
  iterate i m = persist_if_due i (publish_if_changed i (count_pulses i m))
