-- ===== src/Nvs/Slots.antt =====
-- What a saved value is worth: it is the one that the next load gives, and no other slot changes.
use n_rf52840_power_meter.Prelude.{
  ℕ, ◌^◌, ◌<◌, ◌≡◌, ◌≢◌, ◌↔◌, ◌⊎◌, inl, inr, refl, arith, true, false, Bool-cases,
}
use n_rf52840_power_meter.Rc.{Errno, einval, success, fail}
use n_rf52840_power_meter.Nvs.{
  Ssize, bytes, negative, NvsBackend, Store, loaded, not_loaded, mount_or_recover, store_init,
  load_slot, save_slot, load_total, save_total, load_imp_per_kwh, save_imp_per_kwh,
  load_pulse_min_width_us, save_pulse_min_width_us,
}

-- What Zephyr documents of NVS: a write that is not refused is what a read of the same size gives
-- back, for a value of that size, and a write to one identifier leaves the others alone.
pub record NvsLaws {Fs : Type 0} (b : NvsBackend Fs) : Type 0 where
  pub read_back :
      (fs : Fs) (slot val size k : ℕ)
      → val < 256 ^ size
      → (b.nvs_write fs slot val size).0 ≡ bytes k
      → b.nvs_read (b.nvs_write fs slot val size).1 slot size ≡ (bytes size, val)
  pub read_other :
      (fs : Fs) (slot other val size size' : ℕ)
      → slot ≢ other
      → b.nvs_read (b.nvs_write fs slot val size).1 other size' ≡ b.nvs_read fs other size'

-- The flash accepts every write.
abbrev pub Writes : {Fs : Type 0} → NvsBackend Fs → Type 0
Writes {Fs} b =
    (fs : Fs) (slot val size : ℕ) → (k : ℕ) × ((b.nvs_write fs slot val size).0 ≡ bytes k)

Ssize-cases : (n : Ssize) → ((k : ℕ) × (n ≡ bytes k)) ⊎ ((e : Errno) × (n ≡ negative e))
Ssize-cases (bytes k) = inl (k, refl)
Ssize-cases (negative e) = inr (e, refl)

module _ {Fs : Type 0} (b : NvsBackend Fs) where
  initialized : (s : Store Fs) → (store_init b s ≡ (success, s)) ⊎ (s.initialized ≡ false)
  unfolding store_init
  initialized s = elim (Bool-cases s.initialized) [ inl e ↦ inl (rw e) | inr e ↦ inr e ]

  -- Initialisation returns 0 exactly if it leaves the store initialised. On a store that was
  -- initialised, and on one that it has just initialised, it returns 0 and changes nothing.
  pub store_init_iff :
      (s : Store Fs)
      → let (rc, s') = store_init b s in
        ((rc ≡ success) ↔ (s'.initialized ≡ true))
        × ((store_init b s ≡ (success, s)) ⊎ (s.initialized ≡ false))
        × ((store_init b s' ≡ (success, s')) ⊎ (s'.initialized ≡ false))
  unfolding store_init mount_or_recover
  store_init_iff s =
      ((λ e. ground arith, λ e. ground arith), initialized s, initialized (store_init b s).1)

  -- Before a successful initialisation every load and save is refused with EINVAL, and no save
  -- reaches the flash.
  pub uninitialized :
      (s : Store Fs) (v : ℕ)
      → s.initialized ≡ false
      → (load_total b s ≡ not_loaded einval)
        × (load_imp_per_kwh b s ≡ not_loaded einval)
        × (load_pulse_min_width_us b s ≡ not_loaded einval)
        × (save_total b v s ≡ (fail einval, s))
        × (save_imp_per_kwh b v s ≡ (fail einval, s))
        × (save_pulse_min_width_us b v s ≡ (fail einval, s))
  unfolding load_total load_imp_per_kwh load_pulse_min_width_us save_total save_imp_per_kwh
      save_pulse_min_width_us
  uninitialized s v h = rw h (refl, refl, refl, refl, refl, refl)

  -- What a save that returns 0 has done.
  save_slot_lem :
      (slot size v : ℕ) (s : Store Fs)
      → (save_slot b slot size v s).0 ≡ success
      → (k : ℕ) × (s.initialized ≡ true)
        × ((b.nvs_write s.fs slot v size).0 ≡ bytes k)
        × ((save_slot b slot size v s).1 ≡ record s { fs = (b.nvs_write s.fs slot v size).1 })
  unfolding save_slot
  save_slot_lem slot size v s e = elim (Bool-cases s.initialized) [
    | inl up ↦ elim (Ssize-cases (b.nvs_write s.fs slot v size).0) [
      | inl w ↦ (w.0, up, w.1, ground (arith, w.1))
      | inr w ↦ cc (rw (up, w.1) at e)
    ]
    | inr down ↦ cc (rw down at e)
  ]

  load-save_slot :
      (laws : NvsLaws b) (slot size v : ℕ) (s : Store Fs)
      → v < 256 ^ size
      → (save_slot b slot size v s).0 ≡ success
      → load_slot b slot size (save_slot b slot size v s).1 ≡ loaded v
  unfolding load_slot
  load-save_slot laws slot size v s h e =
      let w = save_slot_lem slot size v s e in
      ground (arith, w.1, w.3, laws.read_back s.fs slot v size w.0 h w.2)

  load-save_slot_other :
      (laws : NvsLaws b) (slot other size size' v : ℕ) (s : Store Fs)
      → slot ≢ other
      → (save_slot b slot size v s).0 ≡ success
      → load_slot b other size' (save_slot b slot size v s).1 ≡ load_slot b other size' s
  unfolding load_slot
  load-save_slot_other laws slot other size size' v s ne e =
      let w = save_slot_lem slot size v s e in
      ground (arith, w.1, w.3, laws.read_other s.fs slot other v size size' ne)

  -- A total that was saved with return code 0 is the one that the next load gives, and the two
  -- calibration slots load as before.
  pub load-save_total :
      (laws : NvsLaws b) (s : Store Fs) (v : ℕ)
      → v < 2 ^ 64
      → (save_total b v s).0 ≡ success
      → let s' = (save_total b v s).1 in
        (load_total b s' ≡ loaded v)
        × (load_imp_per_kwh b s' ≡ load_imp_per_kwh b s)
        × (load_pulse_min_width_us b s' ≡ load_pulse_min_width_us b s)
  unfolding save_total load_total load_imp_per_kwh load_pulse_min_width_us
  load-save_total laws s v h e = (
    load-save_slot laws 1 8 v s h e,
    load-save_slot_other laws 1 2 8 4 v s (omega arith) e,
    load-save_slot_other laws 1 3 8 4 v s (omega arith) e,
  )

  -- The same for the imp/kWh calibration, which leaves the total and the pulse width as they load.
  pub load-save_imp_per_kwh :
      (laws : NvsLaws b) (s : Store Fs) (v : ℕ)
      → v < 2 ^ 32
      → (save_imp_per_kwh b v s).0 ≡ success
      → let s' = (save_imp_per_kwh b v s).1 in
        (load_imp_per_kwh b s' ≡ loaded v)
        × (load_total b s' ≡ load_total b s)
        × (load_pulse_min_width_us b s' ≡ load_pulse_min_width_us b s)
  unfolding save_imp_per_kwh load_total load_imp_per_kwh load_pulse_min_width_us
  load-save_imp_per_kwh laws s v h e = (
    load-save_slot laws 2 4 v s h e,
    load-save_slot_other laws 2 1 4 8 v s (omega arith) e,
    load-save_slot_other laws 2 3 4 4 v s (omega arith) e,
  )

  -- The same for the minimum pulse width, which leaves the total and the calibration as they load.
  pub load-save_pulse_min_width_us :
      (laws : NvsLaws b) (s : Store Fs) (v : ℕ)
      → v < 2 ^ 32
      → (save_pulse_min_width_us b v s).0 ≡ success
      → let s' = (save_pulse_min_width_us b v s).1 in
        (load_pulse_min_width_us b s' ≡ loaded v)
        × (load_total b s' ≡ load_total b s)
        × (load_imp_per_kwh b s' ≡ load_imp_per_kwh b s)
  unfolding save_pulse_min_width_us load_total load_imp_per_kwh load_pulse_min_width_us
  load-save_pulse_min_width_us laws s v h e = (
    load-save_slot laws 3 4 v s h e,
    load-save_slot_other laws 3 1 4 8 v s (omega arith) e,
    load-save_slot_other laws 3 2 4 4 v s (omega arith) e,
  )

  module _ (writes : Writes b) where
    save_slot_accepted :
        (slot size v : ℕ) (s : Store Fs)
        → s.initialized ≡ true
        → ((save_slot b slot size v s).0 ≡ success)
          × ((save_slot b slot size v s).1.initialized ≡ true)
    unfolding save_slot
    save_slot_accepted slot size v s up = let k = writes s.fs slot v size in rw (up, k.1) (refl, up)

    -- On a flash that accepts writes every save to an initialised store returns 0.
    pub save_total_accepted :
        (v : ℕ) (s : Store Fs)
        → s.initialized ≡ true
        → ((save_total b v s).0 ≡ success) × ((save_total b v s).1.initialized ≡ true)
    unfolding save_total
    save_total_accepted v s up = save_slot_accepted 1 8 v s up

    pub save_imp_per_kwh_accepted :
        (v : ℕ) (s : Store Fs)
        → s.initialized ≡ true
        → ((save_imp_per_kwh b v s).0 ≡ success) × ((save_imp_per_kwh b v s).1.initialized ≡ true)
    unfolding save_imp_per_kwh
    save_imp_per_kwh_accepted v s up = save_slot_accepted 2 4 v s up

    pub save_pulse_min_width_us_accepted :
        (v : ℕ) (s : Store Fs)
        → s.initialized ≡ true
        → ((save_pulse_min_width_us b v s).0 ≡ success)
          × ((save_pulse_min_width_us b v s).1.initialized ≡ true)
    unfolding save_pulse_min_width_us
    save_pulse_min_width_us_accepted v s up = save_slot_accepted 3 4 v s up
