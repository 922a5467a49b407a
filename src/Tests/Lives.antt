-- ===== src/Tests/Lives.antt =====
-- A life of two starts.
use n_rf52840_power_meter.Prelude.{◌≡◌, ◌⊎◌, inl, refl, arith}
use mathlib.Core.Option.{some, none}
use n_rf52840_power_meter.Led.Controller
use n_rf52840_power_meter.Nvs.{store_init, load_total}
use n_rf52840_power_meter.Pulse
use n_rf52840_power_meter.Pulse.{hw_init}
use n_rf52840_power_meter.Main.Boot.{
  halted, blinking, running, boot, start_console, start_inputs, start_counter, enter_loop,
}
use n_rf52840_power_meter.Main.Poll.{boot_button_held}
use n_rf52840_power_meter.Main.Boot.Course.{Started, HeldAtBoot}
use n_rf52840_power_meter.Zigbee.{Zb}
use n_rf52840_power_meter.System.Life.{Ledger, charge, power_up, Life, new, kept, Accounts}
use n_rf52840_power_meter.System.Life.Account.{Life-total}
use n_rf52840_power_meter.Tests.{
  Flash, flash, flash-Mounts, flash-MountKeeps, used_store, config, config-InRange, zboss,
  unregistered,
}
use n_rf52840_power_meter.Tests.Device.{env, start}
use n_rf52840_power_meter.Tests.Systems.{first, reaches, published, run, outside}

-- The meter has counted 5000 pulses; the first run reads 40 more, and the power fails before it saves.
abbrev ledger : Ledger
ledger = charge published (record { read = 5000; settled = 5000; cuts = 0 })

not_held : (zb : Zb) (fs : Flash) → ¬ HeldAtBoot flash zboss config env (power_up zb fs)
not_held zb fs h = cc h.0

lived : Life flash zboss config 301 published.loop.store.fs ledger
unfolding load_total
lived =
    kept used_store.fs (record { read = 5000; settled = 5000; cuts = 0 }) env unregistered first
      published (new used_store.fs 5000 (inl refl) (omega arith)) (flash-Mounts used_store.fs)
      (not_held unregistered used_store.fs) reaches run

abbrev second : Started Flash
second = elim (boot flash 301 zboss config env (power_up unregistered published.loop.store.fs)) [
  | none ↦ start
  | some o ↦ elim o [ halted l ↦ start | blinking ↦ start | running x ↦ x ]
]

reaches_again :
    boot flash 301 zboss config env (power_up unregistered published.loop.store.fs)
    ≡ some (running second)
unfolding boot start_console start_inputs start_counter boot_button_held enter_loop
    Controller.controller_init hw_init Pulse.init_chain Pulse.init_counter_timer
    Pulse.init_width_timer Pulse.init_lpcomp Pulse.init_gpiote Pulse.init_ppi store_init
reaches_again = refl

Life-total_example :
    let held = HeldAtBoot flash zboss config env (power_up unregistered published.loop.store.fs) in
    (held × (second.0.acc.total ≡ 0)) ⊎ ((¬ held) × Accounts second.0.acc.total ledger)
Life-total_example =
    Life-total flash zboss config 301 published.loop.store.fs ledger env unregistered second outside
      config-InRange flash-MountKeeps (omega arith) lived (flash-Mounts published.loop.store.fs)
      reaches_again
