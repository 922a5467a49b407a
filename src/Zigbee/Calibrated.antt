-- ===== src/Zigbee/Calibrated.antt =====
-- The Divisor under a coordinator's writes.
use n_rf52840_power_meter.Prelude.{
  ℕ, ◌^◌, ◌<◌, ◌≡◌, ◌≢◌, ◌⊎◌, inl, inr, refl, arith, sym, ap, true, false, Bool-cases,
}
use n_rf52840_power_meter.Calibration.{
  is_valid_imp_per_kwh, ImpInRange, is_valid_imp_per_kwh→ImpInRange,
  ImpInRange→is_valid_imp_per_kwh,
}
use n_rf52840_power_meter.Nvs.{NvsBackend, save_imp_per_kwh}
use n_rf52840_power_meter.Zigbee.{
  U24, ZbRet, ret_ok, ret_out_of_range, Zboss, set_attr, divisor, min_pulse_width, to_u24, from_u24,
  AttrWrite, Stores, stored,
}
use mathlib.Core.Path.{subst}
use n_rf52840_power_meter.Zigbee.Write.{
  CallbackParam, Meter, attr_metering_min_pulse_width_us_id, write_min_pulse_width, write_divisor,
  zcl_device_cb,
}

-- Both words of a u24 are in range.
abbrev pub Fits : U24 → Type 0
Fits v = (v.low < 2 ^ 16) × (v.high < 2 ^ 8)

pub from_u24-lt : (v : U24) → Fits v → from_u24 v < 2 ^ 24
from_u24-lt v h = omega arith

pub from_u24-to_u24 : (n : ℕ) → n < 2 ^ 24 → from_u24 (to_u24 n) ≡ n
from_u24-to_u24 n h = omega arith

pub to_u24-Fits : (n : ℕ) → Fits (to_u24 n)
to_u24-Fits n = omega arith

module _ {Fs : Type 0} (b : NvsBackend Fs) (z : Zboss) where
  -- ZBOSS stores the value that a coordinator wrote, and then calls the callback.
  abbrev pub coordinator_write : AttrWrite → CallbackParam → Meter Fs → ZbRet × Meter Fs
  coordinator_write w p m =
      let zb = m.zb in
      zcl_device_cb b z p (record m { zb = record zb { dev_ctx = stored w zb.dev_ctx } })

  abbrev pub divisor_param : U24 → ℕ → CallbackParam
  divisor_param v d16 = record {
    device_cb_id = z.set_attr_value_cb_id;
    cluster_id = z.cluster_id_metering;
    attr_id = z.attr_metering_divisor_id;
    data16 = d16;
    data24 = v;
  }

  abbrev pub width_param : ℕ → U24 → CallbackParam
  width_param w v = record {
    device_cb_id = z.set_attr_value_cb_id;
    cluster_id = z.cluster_id_metering;
    attr_id = attr_metering_min_pulse_width_us_id;
    data16 = w;
    data24 = v;
  }

  abbrev pub write_the_divisor : U24 → Meter Fs → ZbRet × Meter Fs
  write_the_divisor v m = coordinator_write (divisor v) (divisor_param v 0) m

  abbrev pub write_the_width : ℕ → Meter Fs → ZbRet × Meter Fs
  write_the_width w m =
      coordinator_write (min_pulse_width w) (width_param w (record { low = 0; high = 0 })) m

-- The effective divisor is in range, and is what the Divisor attribute reads.
pub record Agrees {Fs : Type 0} (m : Meter Fs) : Type 0 where
  pub in_range : ImpInRange m.zb.effective_divisor
  pub shown : m.zb.dev_ctx.metering_divisor ≡ to_u24 m.zb.effective_divisor

to_u24-from_u24 : (v : U24) → Fits v → to_u24 (from_u24 v) ≡ v
to_u24-from_u24 v h = ground arith

module _ {Fs : Type 0} (b : NvsBackend Fs) (z : Zboss) where
  pub zcl_device_cb-divisor :
      (v : U24) (m : Meter Fs)
      → z.attr_metering_divisor_id ≢ attr_metering_min_pulse_width_us_id
      → zcl_device_cb b z (divisor_param b z v 0) m ≡ write_divisor b z (from_u24 v) m
  unfolding zcl_device_cb
  zcl_device_cb-divisor v m ne = ground arith

  pub zcl_device_cb-width :
      (w : ℕ) (v : U24) (m : Meter Fs)
      → zcl_device_cb b z (width_param b z w v) m ≡ write_min_pulse_width b z w m
  unfolding zcl_device_cb
  zcl_device_cb-width w v m = ground arith

  pub write_divisor-ok :
      (n : ℕ) (m : Meter Fs)
      → is_valid_imp_per_kwh n ≡ true
      → let zb = m.zb in
        write_divisor b z n m ≡ (
          ret_ok,
          record m {
            zb = record zb { effective_divisor = n };
            store = (save_imp_per_kwh b n m.store).1;
          },
        )
  unfolding write_divisor
  write_divisor-ok n m ok = rw ok

  pub write_divisor-bad :
      (n : ℕ) (m : Meter Fs)
      → is_valid_imp_per_kwh n ≡ false
      → write_divisor b z n m ≡ (
        ret_out_of_range,
        record m { zb = set_attr z (divisor (to_u24 m.zb.effective_divisor)) m.zb },
      )
  unfolding write_divisor
  write_divisor-bad n m bad = rw bad

-- What an accepted write of the Divisor leaves, and what a rejected one does.
abbrev pub DivisorAccepted :
    {Fs : Type 0} → NvsBackend Fs → U24 → Meter Fs → ZbRet × Meter Fs → Type 0
DivisorAccepted b v m (status, m') =
    (status ≡ ret_ok)
    × ImpInRange (from_u24 v)
    × (m'.zb.effective_divisor ≡ from_u24 v)
    × (m'.store ≡ (save_imp_per_kwh b (from_u24 v) m.store).1)

abbrev pub DivisorRejected : {Fs : Type 0} → U24 → Meter Fs → ZbRet × Meter Fs → Type 0
DivisorRejected v m (status, m') =
    (status ≡ ret_out_of_range)
    × ¬ ImpInRange (from_u24 v)
    × (m'.zb.effective_divisor ≡ m.zb.effective_divisor)
    × (m'.store ≡ m.store)

-- Where ZBOSS stores what it is given and the Divisor attribute reads the effective divisor and
-- that is in range, a coordinator's write of a 24-bit Divisor is accepted exactly if the value
-- is in range, and then is the effective divisor; a rejected write leaves the effective divisor
-- and the store alone. Either way the attribute reads the effective divisor afterwards, which
-- stays in range.
pub divisor_write :
    {Fs : Type 0} (b : NvsBackend Fs) (z : Zboss) (v : U24) (m : Meter Fs)
    → Stores z
    → z.attr_metering_divisor_id ≢ attr_metering_min_pulse_width_us_id
    → Fits v
    → Agrees m
    → Agrees (write_the_divisor b z v m).1
      × (DivisorAccepted b v m (write_the_divisor b z v m)
          ⊎ DivisorRejected v m (write_the_divisor b z v m))
divisor_write b z v m st ne f a =
    let zb = m.zb in
    let m1 = record m { zb = record zb { dev_ctx = stored (divisor v) zb.dev_ctx } } in
    subst (λ r. Agrees r.1 × (DivisorAccepted b v m r ⊎ DivisorRejected v m r))
      (sym (zcl_device_cb-divisor b z v m1 ne))
      (elim (Bool-cases (is_valid_imp_per_kwh (from_u24 v))) [
        | inl ok ↦
            subst (λ r. Agrees r.1 × (DivisorAccepted b v m r ⊎ DivisorRejected v m r))
              (sym (write_divisor-ok b z (from_u24 v) m1 ok))
              (
                record {
                  in_range = is_valid_imp_per_kwh→ImpInRange (from_u24 v) ok;
                  shown = sym (to_u24-from_u24 v f);
                },
                inl (refl, is_valid_imp_per_kwh→ImpInRange (from_u24 v) ok, refl, refl),
              )
        | inr bad ↦
            subst (λ r. Agrees r.1 × (DivisorAccepted b v m r ⊎ DivisorRejected v m r))
              (sym (write_divisor-bad b z (from_u24 v) m1 bad))
              (
                record {
                  in_range = a.in_range;
                  shown =
                      ap (λ d. d.metering_divisor)
                        (st (divisor (to_u24 m.zb.effective_divisor)) m1.zb.dev_ctx);
                },
                inr (
                  refl,
                  (λ i. grind (arith, bad, ImpInRange→is_valid_imp_per_kwh (from_u24 v) i)),
                  refl,
                  refl,
                ),
              )
      ])
