-- ===== src/Nvs.antt =====
-- src/nvs_store.c: three persisted values over Zephyr's NVS, which is a parameter: its state `Fs`
-- and what each call on it returns.
pub mod Slots
pub mod Table
pub mod Remount
pub mod Accepted
use n_rf52840_power_meter.Prelude.{
  ℕ, ◌/◌, ◌≡◌, ◌⊎◌, inl, inr, refl, Bool, true, not, ◌==◌, if◌then◌else◌,
}
use n_rf52840_power_meter.Rc.{Errno, enodev, einval, enoent, Rc, success, fail}

-- An `ssize_t`: a count of bytes, or a negated error code.
pub data Ssize : Type 0 where
  bytes : ℕ → Ssize
  negative : Errno → Ssize

-- The geometry that the code writes into `struct nvs_fs` before it mounts.
pub record Geometry : Type 0 where
  pub offset : ℕ
  pub sector_size : ℕ
  pub sector_count : ℕ

-- The flash device and Zephyr's NVS on it. `read` gives the return value and what the buffer holds
-- afterwards; the partition's offset and size come from the build.
pub record NvsBackend (Fs : Type 0) : Type 0 where
  pub device_ready : Bool
  pub partition_offset : ℕ
  pub partition_size : ℕ
  pub flash_get_page_info_by_offs : ℕ → Rc × ℕ
  pub nvs_mount : Geometry → Fs → Rc × Fs
  pub nvs_clear : Geometry → Fs → Rc × Fs
  pub nvs_read : Fs → ℕ → ℕ → Ssize × ℕ
  pub nvs_write : Fs → ℕ → ℕ → ℕ → Ssize × Fs

-- The two file-scope variables.
pub record Store (Fs : Type 0) : Type 0 where
  pub fs : Fs
  pub geometry : Geometry
  pub initialized : Bool

abbrev pub id_accumulator_total : ℕ
id_accumulator_total = 1

abbrev pub id_imp_per_kwh : ℕ
id_imp_per_kwh = 2

abbrev pub id_pulse_min_width_us : ℕ
id_pulse_min_width_us = 3

-- A load writes through its pointer only where it returns 0.
pub data Loaded : Type 0 where
  loaded : ℕ → Loaded
  not_loaded : Errno → Loaded

-- A split on the result of a load.
pub Loaded-cases : (l : Loaded) → ((v : ℕ) × (l ≡ loaded v)) ⊎ ((e : Errno) × (l ≡ not_loaded e))
Loaded-cases (loaded v) = inl (v, refl)
Loaded-cases (not_loaded e) = inr (e, refl)

-- The value of a calibration slot: what was loaded, if it is valid, or the build's default.
abbrev pub accepted_or : (ℕ → Bool) → ℕ → Loaded → ℕ
accepted_or valid default (loaded v) = if valid v then v else default
accepted_or valid default (not_loaded e) = default

module _ {Fs : Type 0} (b : NvsBackend Fs) where
  -- The mount, and on failure one clear and one more mount.
  mount_or_recover : Store Fs → Rc × Store Fs
  mount_or_recover s =
      let (rc, fs1) = b.nvs_mount s.geometry s.fs in
      elim rc [
        | success ↦ (success, record s { fs = fs1; initialized = true })
        | fail e ↦
            let (clr, fs2) = b.nvs_clear s.geometry fs1 in
            elim clr [
              | success ↦
                  let (again, fs3) = b.nvs_mount s.geometry fs2 in
                  elim again [
                    | success ↦ (success, record s { fs = fs3; initialized = true })
                    | fail e2 ↦ (fail e2, record s { fs = fs3 })
                  ]
              | fail _ ↦ (fail e, record s { fs = fs2 })
            ]
      ]

  unfoldable pub store_init : Store Fs → Rc × Store Fs
  unfolding mount_or_recover
  store_init s =
      if s.initialized
      then (success, s)
      else if not b.device_ready
      then (fail enodev, s)
      else let g = record (s.geometry) { offset = b.partition_offset } in
        let (rc, size) = b.flash_get_page_info_by_offs b.partition_offset in
        elim rc [
          | fail e ↦ (fail e, record s { geometry = g })
          | success ↦ mount_or_recover (record s {
            geometry = record g { sector_size = size; sector_count = b.partition_size / size };
          })
        ]

  -- The body that the three loads share, with the slot's number and the size of its value.
  load_slot : ℕ → ℕ → Store Fs → Loaded
  load_slot slot size s =
      if not s.initialized
      then not_loaded einval
      else let (n, val) = b.nvs_read s.fs slot size in
        elim n [
          | bytes k ↦ if k == size then loaded val else not_loaded enoent
          | negative e ↦ not_loaded e
        ]

  -- The body that the three saves share.
  save_slot : ℕ → ℕ → ℕ → Store Fs → Rc × Store Fs
  save_slot slot size val s =
      if not s.initialized
      then (fail einval, s)
      else let (n, fs') = b.nvs_write s.fs slot val size in
        let s' = record s { fs = fs' } in
        elim n [ bytes k ↦ (success, s') | negative e ↦ (fail e, s') ]

  unfoldable pub load_total : Store Fs → Loaded
  unfolding load_slot
  load_total s = load_slot id_accumulator_total 8 s

  unfoldable pub save_total : ℕ → Store Fs → Rc × Store Fs
  unfolding save_slot
  save_total total s = save_slot id_accumulator_total 8 total s

  unfoldable pub load_imp_per_kwh : Store Fs → Loaded
  unfolding load_slot
  load_imp_per_kwh s = load_slot id_imp_per_kwh 4 s

  unfoldable pub save_imp_per_kwh : ℕ → Store Fs → Rc × Store Fs
  unfolding save_slot
  save_imp_per_kwh imp_per_kwh s = save_slot id_imp_per_kwh 4 imp_per_kwh s

  unfoldable pub load_pulse_min_width_us : Store Fs → Loaded
  unfolding load_slot
  load_pulse_min_width_us s = load_slot id_pulse_min_width_us 4 s

  unfoldable pub save_pulse_min_width_us : ℕ → Store Fs → Rc × Store Fs
  unfolding save_slot
  save_pulse_min_width_us min_width_us s = save_slot id_pulse_min_width_us 4 min_width_us s
