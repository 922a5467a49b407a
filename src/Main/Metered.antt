-- ===== src/Main/Metered.antt =====
-- From the start of `main` through any number of turns of its sample loop.
use n_rf52840_power_meter.Prelude.{
  ℕ, ◌+◌, ◌^◌, ◌≤◌, ◌<◌, ◌≡◌, arith, ◌∙◌, ap, Bool, true, List, sum,
}
use n_rf52840_power_meter.Config.{Config}
use n_rf52840_power_meter.Rc.{success}
use n_rf52840_power_meter.Accumulator.{PulseAccumulator}
use n_rf52840_power_meter.Nvs.{NvsBackend, Store}
use n_rf52840_power_meter.Pulse.{HwCall}
use n_rf52840_power_meter.Led.Controller.{Led}
use n_rf52840_power_meter.Button.{PressClassifier}
use n_rf52840_power_meter.Zigbee.{Zboss, Zb}
use n_rf52840_power_meter.Nvs.Slots.{NvsLaws, Writes}
use n_rf52840_power_meter.Main.Loop.{Loop, Sample}
use n_rf52840_power_meter.Main.Loop.Save.{Restores}
use n_rf52840_power_meter.Main.Loop.Loss.{Observes, iterate_all, power_loss_bound}
use n_rf52840_power_meter.Main.Boot.{running, BootEnv, restore_total, enter_loop}
use n_rf52840_power_meter.Main.Boot.Restore.{restore_total_lem}
use n_rf52840_power_meter.Main.Boot.Enter.{enter_loop-Safe}

-- In a build with the pulse counter, a start with an initialised store that reaches the sample
-- loop, followed by any number of its turns, with a flash that keeps and accepts writes, fewer
-- than 2^32 pulses between readings and a total below 2^64: the total is what the start restored
-- plus every pulse emitted since, and at the end a boot from the store would restore it but for
-- fewer than 100 pulses.
pub metered :
    {Fs : Type 0} (b : NvsBackend Fs) (z : Zboss) (c : Config) (e : BootEnv) (start_ms : ℕ)
    (zb : Zb) (hw : List HwCall) (held : Bool) (held_led led : Led) (s : Store Fs)
    (x : Loop Fs × PressClassifier × Led) (pulses : List ℕ) (samples : List Sample)
    → NvsLaws b
    → Writes b
    → c.hw_pulse_counter ≡ true
    → s.initialized ≡ true
    → enter_loop b z c e start_ms zb hw (restore_total b success (held, held_led) led s) ≡ running x
    → Observes 0 pulses samples
    → (restore_total b success (held, held_led) led s).acc.total + sum pulses < 2 ^ 64
    → let restored = (restore_total b success (held, held_led) led s).acc.total in
      let t = iterate_all b c samples x.0 in
      (t.acc.total ≡ restored + sum pulses)
      × ((v : ℕ) × Restores b t.store v
          × (v ≤ restored + sum pulses)
          × (restored + sum pulses < v + 100))
metered b z c e start_ms zb hw held held_led led s x pulses samples laws w on up eq o fits =
    let r = restore_total b success (held, held_led) led s in
    let k = restore_total_lem b laws w held held_led led s up in
    let safe = enter_loop-Safe b z c e start_ms zb hw r x k.0 k.1 (omega (arith, fits)) eq in
    let acc = safe.1 in
    let total = ap (λ (a : PulseAccumulator). a.total) acc in
    let from_zero = ap (λ (a : PulseAccumulator). a.last_hw) acc ∙ k.0.counts_from in
    let p =
      power_loss_bound b c 0 pulses samples x.0 laws w on safe.0 from_zero o
        (omega (arith, total, fits)) in
    let t = iterate_all b c samples x.0 in
    let sum_total : t.acc.total ≡ r.acc.total + sum pulses = omega (arith, p.1, total) in
    (
      sum_total,
      (
        t.last_saved_total,
        p.0.restores,
        omega (arith, p.0.saved_le, sum_total),
        omega (arith, p.0.loss, sum_total),
      ),
    )
