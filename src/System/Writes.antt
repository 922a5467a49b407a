-- ===== src/System/Writes.antt =====
-- A coordinator's write of a calibration attribute as a step of the system.
use n_rf52840_power_meter.Prelude.{
  ℕ, ◌^◌, ◌<◌, ◌≡◌, ◌≢◌, ◌⊎◌, inl, inr, refl, arith, sym, ◌∙◌, ap, true, Bool-cases,
}
use mathlib.Core.Path.{subst}
use n_rf52840_power_meter.Calibration.{
  ImpInRange, is_valid_imp_per_kwh, is_valid_pulse_min_width_us,
  is_valid_pulse_min_width_us→WidthInRange,
}
use n_rf52840_power_meter.Nvs.{
  NvsBackend, Store, load_total, save_imp_per_kwh, save_pulse_min_width_us, Loaded, loaded,
  not_loaded,
}
use n_rf52840_power_meter.Nvs.Slots.{
  NvsLaws, load-save_imp_per_kwh, load-save_pulse_min_width_us, Writes, save_imp_per_kwh_accepted,
  save_pulse_min_width_us_accepted,
}
use n_rf52840_power_meter.Pulse.Threshold.{cc0}
use n_rf52840_power_meter.Zigbee.{
  Zboss, Stores, to_u24, U24, divisor, min_pulse_width, from_u24, stored,
}
use n_rf52840_power_meter.Main.Loop.Save.{Restores}
use n_rf52840_power_meter.System.{World, with_meter, meter}
use n_rf52840_power_meter.Rc.{Errno}
use n_rf52840_power_meter.Pulse.{set_min_width_us}
use n_rf52840_power_meter.Zigbee.Write.{Meter, attr_metering_min_pulse_width_us_id}
use n_rf52840_power_meter.Zigbee.Calibrated.{
  Fits, from_u24-lt, Agrees, write_the_divisor, write_the_width, zcl_device_cb-divisor,
  zcl_device_cb-width, write_divisor-ok, write_divisor-bad, divisor_write,
}
use n_rf52840_power_meter.Zigbee.Width.{write_min_pulse_width-ok, write_min_pulse_width-bad}
use n_rf52840_power_meter.System.Sound.{Sound, Calibrated, Filtered, Kept-Fresh}

module _ {Fs : Type 0} (b : NvsBackend Fs) (z : Zboss) where
  -- What a boot from the store would start from stays.
  pub record Held (s t : Store Fs) : Type 0 where
    pub up : t.initialized ≡ true
    pub total : load_total b t ≡ load_total b s

  -- What the write of either attribute does outside the attribute itself.
  pub record Framed (m t : Meter Fs) : Type 0 where
    pub held : Held m.store t.store
    pub registered : t.zb.endpoint_registered ≡ m.zb.endpoint_registered
    pub pending : t.zb.pending_summation_total ≡ m.zb.pending_summation_total
    pub summation :
        t.zb.dev_ctx.metering_current_summation ≡ m.zb.dev_ctx.metering_current_summation

  module _ (laws : NvsLaws b) (writes : Writes b) where
    save_imp_per_kwh-Held :
        (v : ℕ) (s : Store Fs)
        → s.initialized ≡ true
        → v < 2 ^ 32
        → Held s (save_imp_per_kwh b v s).1
    save_imp_per_kwh-Held v s up h =
        let k = save_imp_per_kwh_accepted b writes v s up in
        record { up = k.1; total = (load-save_imp_per_kwh b laws s v h k.0).1 }

    save_pulse_min_width_us-Held :
        (v : ℕ) (s : Store Fs)
        → s.initialized ≡ true
        → v < 2 ^ 32
        → Held s (save_pulse_min_width_us b v s).1
    save_pulse_min_width_us-Held v s up h =
        let k = save_pulse_min_width_us_accepted b writes v s up in
        record { up = k.1; total = (load-save_pulse_min_width_us b laws s v h k.0).1 }

    pub divisor-Framed :
        (v : U24) (m : Meter Fs)
        → z.attr_metering_divisor_id ≢ attr_metering_min_pulse_width_us_id
        → Fits v
        → m.store.initialized ≡ true
        → Stores z
        → let t = (write_the_divisor b z v m).1 in Framed m t × (t.hw ≡ m.hw)
    divisor-Framed v m ne f up st =
        let zb = m.zb in
        let m1 = record m { zb = record zb { dev_ctx = stored (divisor v) zb.dev_ctx } } in
        let P : Meter Fs → Type 0 = λ t. Framed m t × (t.hw ≡ m.hw) in
        subst (λ r. P r.1) (sym (zcl_device_cb-divisor b z v m1 ne))
          (elim (Bool-cases (is_valid_imp_per_kwh (from_u24 v))) [
            | inl ok ↦
                subst (λ r. P r.1) (sym (write_divisor-ok b z (from_u24 v) m1 ok))
                  (
                    record {
                      held =
                          save_imp_per_kwh-Held (from_u24 v) m.store up
                            (omega (arith, from_u24-lt v f));
                      registered = refl;
                      pending = refl;
                      summation = refl;
                    },
                    refl,
                  )
            | inr bad ↦
                subst (λ r. P r.1) (sym (write_divisor-bad b z (from_u24 v) m1 bad))
                  (
                    record {
                      held = record { up = up; total = refl };
                      registered = refl;
                      pending = refl;
                      summation =
                          ap (λ d. d.metering_current_summation)
                            (st (divisor (to_u24 m.zb.effective_divisor)) m1.zb.dev_ctx);
                    },
                    refl,
                  )
          ])

    pub width-Framed :
        (n : ℕ) (m : Meter Fs)
        → m.store.initialized ≡ true
        → Stores z
        → Filtered m.hw
        → let t = (write_the_width b z n m).1 in
          Framed m t
          × Filtered t.hw
          × (t.zb.effective_divisor ≡ m.zb.effective_divisor)
          × (t.zb.dev_ctx.metering_divisor ≡ m.zb.dev_ctx.metering_divisor)
    unfolding set_min_width_us
    width-Framed n m up st f =
        let zb = m.zb in
        let m1 = record m { zb = record zb { dev_ctx = stored (min_pulse_width n) zb.dev_ctx } } in
        let none24 : U24 = record { low = 0; high = 0 } in
        let P : Meter Fs → Type 0 = λ t.
          Framed m t
          × Filtered t.hw
          × (t.zb.effective_divisor ≡ m.zb.effective_divisor)
          × (t.zb.dev_ctx.metering_divisor ≡ m.zb.dev_ctx.metering_divisor) in
        subst (λ r. P r.1) (sym (zcl_device_cb-width b z n none24 m1))
          (elim (Bool-cases (is_valid_pulse_min_width_us n)) [
            | inl ok ↦
                let range = is_valid_pulse_min_width_us→WidthInRange n ok in
                subst (λ r. P r.1) (sym (write_min_pulse_width-ok b z n m1 ok))
                  (
                    record {
                      held = save_pulse_min_width_us-Held n m.store up (omega (arith, range));
                      registered = refl;
                      pending = refl;
                      summation = refl;
                    },
                    (n, refl, range),
                    refl,
                    refl,
                  )
            | inr bad ↦
                let back = min_pulse_width n in
                subst (λ r. P r.1) (sym (write_min_pulse_width-bad b z n m1 bad))
                  (
                    record {
                      held = record { up = up; total = refl };
                      registered = refl;
                      pending = refl;
                      summation = ap (λ d. d.metering_current_summation) (st back m1.zb.dev_ctx);
                    },
                    f,
                    refl,
                    ap (λ d. d.metering_divisor) (st back m1.zb.dev_ctx),
                  )
          ])

    Held-Restores : {s t : Store Fs} {v : ℕ} → Held s t → Restores b s v → Restores b t v
    Held-Restores {s} {t} {v} h r =
        subst (λ (l : Loaded). (l ≡ loaded v) ⊎ ((v ≡ 0) × ((e : Errno) × (l ≡ not_loaded e))))
          (sym h.total) r

    Framed-Sound :
        (w : World Fs) (t : Meter Fs)
        → Sound b w
        → Framed (meter w) t
        → Calibrated t.zb
        → Filtered t.hw
        → Sound b (with_meter t w)
    Framed-Sound w t s f c h =
        let d = s.counted in
        record {
          counted = record {
            policy = d.policy;
            up = f.held.up;
            total_fits = d.total_fits;
            restores = Held-Restores f.held d.restores;
            saved_le = d.saved_le;
          };
          total = s.total;
          register = s.register;
          seen = s.seen;
          fits = s.fits;
          settled = s.settled;
          loss = s.loss;
          fresh = Kept-Fresh w t.zb s.fresh f.pending;
          published = s.published;
          pending_le = omega (arith, f.pending, s.pending_le);
          read_le = s.read_le;
          calibrated = c;
          filtered = h;
          in_sync = s.in_sync;
        }

    pub write_divisor-Sound :
        (w : World Fs) (v : U24)
        → Sound b w
        → Stores z
        → z.attr_metering_divisor_id ≢ attr_metering_min_pulse_width_us_id
        → Fits v
        → Sound b (with_meter (write_the_divisor b z v (meter w)).1 w)
    write_divisor-Sound w v s st ne f =
        let m = meter w in
        let c = s.calibrated in
        let t = (write_the_divisor b z v m).1 in
        let k = divisor-Framed v m ne f s.counted.up st in
        let agrees : Agrees m = record { in_range = c.in_range; shown = c.shown } in
        let a = (divisor_write b z v m st ne f agrees).0 in
        Framed-Sound w t s k.0
          (record {
            registered = k.0.registered ∙ c.registered;
            in_range = a.in_range;
            shown = a.shown;
          })
          (s.filtered.0, ap cc0 k.1 ∙ s.filtered.1, s.filtered.2)

    pub write_width-Sound :
        (w : World Fs) (n : ℕ)
        → Sound b w
        → Stores z
        → Sound b (with_meter (write_the_width b z n (meter w)).1 w)
    write_width-Sound w n s st =
        let m = meter w in
        let c = s.calibrated in
        let k = width-Framed n m s.counted.up st s.filtered in
        Framed-Sound w (write_the_width b z n m).1 s k.0
          (record {
            registered = k.0.registered ∙ c.registered;
            in_range = subst ImpInRange (sym k.2) c.in_range;
            shown = k.3 ∙ c.shown ∙ ap to_u24 (sym k.2);
          })
          k.1
