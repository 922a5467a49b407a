-- ===== src/System/Life.antt =====
-- The device over its whole life: starts of src/main.c, runs of its threads, and losses of power, each
-- at any point of a run.
pub mod Restart
pub mod Account
use n_rf52840_power_meter.Prelude.{ℕ, ◌+◌, ◌*◌, ◌^◌, ◌≤◌, ◌<◌, ◌≡◌, []}
use mathlib.Core.Option.{some}
use n_rf52840_power_meter.Config.{Config}
use n_rf52840_power_meter.Nvs.{NvsBackend, save_total, store_init}
use n_rf52840_power_meter.Nvs.Remount.{off, held_by, Mounts}
use n_rf52840_power_meter.Led.Controller
use n_rf52840_power_meter.Zigbee.{Zboss, Zb}
use n_rf52840_power_meter.Main.Loop.Save.{Restores}
use n_rf52840_power_meter.Main.Boot.{running, BootEnv, Booting, boot}
use n_rf52840_power_meter.Main.Boot.Course.{Started, HeldAtBoot}
use n_rf52840_power_meter.System.{World, Reach}
use n_rf52840_power_meter.System.Start.{begin}

-- What has become of the meter's pulses since the total was last erased, over every run: those that
-- a loop has read, those that one had read by the end of its last turn, and the losses of power.
pub record Ledger : Type 0 where
  pub read : ℕ
  pub settled : ℕ
  pub cuts : ℕ

abbrev pub erased : Ledger
erased = record { read = 0; settled = 0; cuts = 0 }

-- The ledger with a run that ended in the world `v`.
abbrev pub charge : {Fs : Type 0} → World Fs → Ledger → Ledger
charge v k = record {
  read = k.read + v.sampled;
  settled = k.settled + v.settled;
  cuts = k.cuts + 1;
}

-- The device as the power comes on.
abbrev pub power_up : {Fs : Type 0} → Zb → Fs → Booting Fs
power_up zb fs = record { zb = zb; led = Controller.boot; store = off fs; hw = [] }

-- A life, by what the flash holds and the ledger says after it. A run starts at the sample loop that
-- a start has come to, and ends at any world that the threads come to. A start that halts or loses
-- power before its sample loop has mounted the flash at most, or has also erased the total.
pub data Life {Fs : Type 0} (b : NvsBackend Fs) (z : Zboss) (c : Config) (fuel : ℕ)
    : Fs → Ledger → Type 0 where
  new :
      (fs : Fs) (total : ℕ)
      → Restores b (held_by fs) total
      → total < 2 ^ 64
      → Life b z c fuel fs (record { read = total; settled = total; cuts = 0 })
  kept :
      (fs : Fs) (k : Ledger) (e : BootEnv) (zb : Zb) (x : Started Fs) (v : World Fs)
      → Life b z c fuel fs k
      → Mounts b fs
      → ¬ HeldAtBoot b z c e (power_up zb fs)
      → boot b fuel z c e (power_up zb fs) ≡ some (running x)
      → Reach b z c (begin x) v
      → Life b z c fuel v.loop.store.fs (charge v k)
  unfinished :
      (fs : Fs) (k : Ledger)
      → Life b z c fuel fs k
      → Mounts b fs
      → Life b z c fuel (store_init b (off fs)).1.fs k
  unfinished_erase :
      (fs : Fs) (k : Ledger) (e : BootEnv) (zb : Zb)
      → Life b z c fuel fs k
      → Mounts b fs
      → HeldAtBoot b z c e (power_up zb fs)
      → Life b z c fuel (save_total b 0 (store_init b (off fs)).1).1.fs erased
  erases :
      (fs : Fs) (k : Ledger) (e : BootEnv) (zb : Zb) (x : Started Fs) (v : World Fs)
      → Life b z c fuel fs k
      → Mounts b fs
      → HeldAtBoot b z c e (power_up zb fs)
      → boot b fuel z c e (power_up zb fs) ≡ some (running x)
      → Reach b z c (begin x) v
      → Life b z c fuel v.loop.store.fs (charge v erased)

-- A total that accounts for a ledger: no pulse twice, and fewer than 100 lost in each loss of power.
abbrev pub Accounts : ℕ → Ledger → Type 0
Accounts total k = (total ≤ k.read) × (k.settled ≤ total + 99 * k.cuts)
