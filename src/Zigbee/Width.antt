-- ===== src/Zigbee/Width.antt =====
-- The minimum pulse width under a coordinator's writes.
use n_rf52840_power_meter.Prelude.{
  ℕ, ◌≡◌, ◌⊎◌, inl, inr, refl, arith, sym, ap, true, false, Bool-cases,
}
use n_rf52840_power_meter.Calibration.{
  is_valid_pulse_min_width_us, WidthInRange, is_valid_pulse_min_width_us→WidthInRange,
  WidthInRange→is_valid_pulse_min_width_us,
}
use n_rf52840_power_meter.Nvs.{NvsBackend, save_pulse_min_width_us}
use n_rf52840_power_meter.Pulse.{set_min_width_us}
use n_rf52840_power_meter.Zigbee.{
  U24, ZbRet, ret_ok, ret_out_of_range, Zboss, set_attr, min_pulse_width, Stores, stored,
}
use mathlib.Core.Path.{subst}
use mathlib.Core.Option.{some}
use n_rf52840_power_meter.Pulse.Threshold.{cc0}
use n_rf52840_power_meter.Zigbee.Write.{Meter, write_min_pulse_width}
use n_rf52840_power_meter.Zigbee.Calibrated.{write_the_width, zcl_device_cb-width}

module _ {Fs : Type 0} (b : NvsBackend Fs) (z : Zboss) where
  pub write_min_pulse_width-ok :
      (w : ℕ) (m : Meter Fs)
      → is_valid_pulse_min_width_us w ≡ true
      → let zb = m.zb in
        write_min_pulse_width b z w m ≡ (
          ret_ok,
          record {
            zb = record zb { dev_ctx = record (zb.dev_ctx) { metering_min_pulse_width_us = w } };
            store = (save_pulse_min_width_us b w m.store).1;
            hw = set_min_width_us w m.hw;
          },
        )
  unfolding write_min_pulse_width
  write_min_pulse_width-ok w m ok = rw ok

  pub write_min_pulse_width-bad :
      (w : ℕ) (m : Meter Fs)
      → is_valid_pulse_min_width_us w ≡ false
      → write_min_pulse_width b z w m ≡ (
        ret_out_of_range,
        record m {
          zb = set_attr z (min_pulse_width m.zb.dev_ctx.metering_min_pulse_width_us) m.zb;
        },
      )
  unfolding write_min_pulse_width
  write_min_pulse_width-bad w m bad = rw bad

-- What an accepted write of the minimum pulse width leaves, and what a rejected one does.
abbrev pub WidthAccepted : {Fs : Type 0} → NvsBackend Fs → ℕ → Meter Fs → ZbRet × Meter Fs → Type 0
WidthAccepted b w m (status, m') =
    (status ≡ ret_ok)
    × WidthInRange w
    × (cc0 m'.hw ≡ some w)
    × (m'.store ≡ (save_pulse_min_width_us b w m.store).1)

abbrev pub WidthRejected : {Fs : Type 0} → ℕ → Meter Fs → ZbRet × Meter Fs → Type 0
WidthRejected w m (status, m') =
    (status ≡ ret_out_of_range) × ¬ WidthInRange w × (m'.hw ≡ m.hw) × (m'.store ≡ m.store)

-- Where ZBOSS stores what it is given, a coordinator's write of the minimum pulse width is
-- accepted exactly if it is in range, and then programs CC[0] and saves it; a rejected write
-- leaves the hardware and the store alone. Either way the attribute reads the written value
-- afterwards, since a rejected write's roll-back takes the value from the storage that ZBOSS has
-- already overwritten.
pub min_pulse_width_write :
    {Fs : Type 0} (b : NvsBackend Fs) (z : Zboss) (w : ℕ) (m : Meter Fs)
    → Stores z
    → ((write_the_width b z w m).1.zb.dev_ctx.metering_min_pulse_width_us ≡ w)
      × (WidthAccepted b w m (write_the_width b z w m)
          ⊎ WidthRejected w m (write_the_width b z w m))
unfolding set_min_width_us
min_pulse_width_write b z w m st =
    let zb = m.zb in
    let m1 = record m { zb = record zb { dev_ctx = stored (min_pulse_width w) zb.dev_ctx } } in
    let none24 : U24 = record { low = 0; high = 0 } in
    subst
      (λ r.
        (r.1.zb.dev_ctx.metering_min_pulse_width_us ≡ w)
        × (WidthAccepted b w m r ⊎ WidthRejected w m r))
      (sym (zcl_device_cb-width b z w none24 m1))
      (elim (Bool-cases (is_valid_pulse_min_width_us w)) [
        | inl ok ↦
            subst
              (λ r.
                (r.1.zb.dev_ctx.metering_min_pulse_width_us ≡ w)
                × (WidthAccepted b w m r ⊎ WidthRejected w m r))
              (sym (write_min_pulse_width-ok b z w m1 ok))
              (refl, inl (refl, is_valid_pulse_min_width_us→WidthInRange w ok, refl, refl))
        | inr bad ↦
            subst
              (λ r.
                (r.1.zb.dev_ctx.metering_min_pulse_width_us ≡ w)
                × (WidthAccepted b w m r ⊎ WidthRejected w m r))
              (sym (write_min_pulse_width-bad b z w m1 bad))
              (
                ap (λ d. d.metering_min_pulse_width_us) (st (min_pulse_width w) m1.zb.dev_ctx),
                inr (
                  refl,
                  (λ i. grind (arith, bad, WidthInRange→is_valid_pulse_min_width_us w i)),
                  refl,
                  refl,
                ),
              )
      ])
