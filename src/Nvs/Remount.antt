-- ===== src/Nvs/Remount.antt =====
-- The store over a loss of power: what was in RAM is gone, and the next start mounts the flash again.
use n_rf52840_power_meter.Prelude.{ℕ, ◌/◌, ◌≡◌, refl, arith, ap, true, false}
use n_rf52840_power_meter.Rc.{Rc, success}
use n_rf52840_power_meter.Nvs.{
  Geometry, NvsBackend, Store, mount_or_recover, store_init, load_slot, load_total,
  load_imp_per_kwh, load_pulse_min_width_us,
}

-- The file-scope variables as the power comes on, over what the flash has kept.
abbrev pub off : {Fs : Type 0} → Fs → Store Fs
off fs = record {
  fs = fs;
  geometry = record { offset = 0; sector_size = 0; sector_count = 0 };
  initialized = false;
}

-- The same with the flag set, for what the flash itself holds.
abbrev pub held_by : {Fs : Type 0} → Fs → Store Fs
held_by fs = let s = off fs in record s { initialized = true }

module _ {Fs : Type 0} (b : NvsBackend Fs) where
  -- The geometry that the code asks for.
  abbrev pub geometry : Geometry
  geometry =
      let size = (b.flash_get_page_info_by_offs b.partition_offset).1 in
      record {
        offset = b.partition_offset;
        sector_size = size;
        sector_count = b.partition_size / size;
      }

  -- The flash answers, and its first mount succeeds, so that nothing is cleared.
  pub record Mounts (fs : Fs) : Type 0 where
    pub ready : b.device_ready ≡ true
    pub page : (b.flash_get_page_info_by_offs b.partition_offset).0 ≡ success
    pub mounted : (b.nvs_mount geometry fs).0 ≡ success

  -- A mount that succeeds leaves every entry as it reads.
  abbrev pub MountKeeps : Type 0
  MountKeeps =
      (g : Geometry) (fs : Fs) (slot size : ℕ)
      → (b.nvs_mount g fs).0 ≡ success
      → b.nvs_read (b.nvs_mount g fs).1 slot size ≡ b.nvs_read fs slot size

  pub store_init-off :
      (fs : Fs)
      → Mounts fs
      → store_init b (off fs) ≡ (
        success,
        record { fs = (b.nvs_mount geometry fs).1; geometry = geometry; initialized = true },
      )
  unfolding store_init mount_or_recover
  store_init-off fs m = ground (arith, m.ready, m.page, m.mounted)

  -- A load sees only the flag and what the flash reads.
  load_slot-cong :
      (slot size : ℕ) (s t : Store Fs)
      → s.initialized ≡ true
      → t.initialized ≡ true
      → b.nvs_read s.fs slot size ≡ b.nvs_read t.fs slot size
      → load_slot b slot size s ≡ load_slot b slot size t
  unfolding load_slot
  load_slot-cong slot size s t up up' e = ground (arith, up, up', e)

  load_slot-remount :
      (keeps : MountKeeps) (slot size : ℕ) (s : Store Fs)
      → s.initialized ≡ true
      → Mounts s.fs
      → load_slot b slot size (store_init b (off s.fs)).1 ≡ load_slot b slot size s
  load_slot-remount keeps slot size s up m =
      rw (store_init-off s.fs m)
        (load_slot-cong slot size _ s refl up (keeps geometry s.fs slot size m.mounted))

  pub load_total_held :
      (s : Store Fs) → s.initialized ≡ true → load_total b s ≡ load_total b (held_by s.fs)
  unfolding load_total
  load_total_held s up = load_slot-cong 1 8 s (held_by s.fs) up refl refl

  -- What the three slots load after a loss of power and the next initialisation is what they loaded
  -- before.
  pub load-remount :
      (keeps : MountKeeps) (s : Store Fs)
      → s.initialized ≡ true
      → Mounts s.fs
      → let s' = (store_init b (off s.fs)).1 in
        (load_total b s' ≡ load_total b s)
        × (load_imp_per_kwh b s' ≡ load_imp_per_kwh b s)
        × (load_pulse_min_width_us b s' ≡ load_pulse_min_width_us b s)
        × (s'.initialized ≡ true)
  unfolding load_total load_imp_per_kwh load_pulse_min_width_us
  load-remount keeps s up m = (
    load_slot-remount keeps 1 8 s up m,
    load_slot-remount keeps 2 4 s up m,
    load_slot-remount keeps 3 4 s up m,
    ap (λ (r : Rc × Store Fs). r.1.initialized) (store_init-off s.fs m),
  )
