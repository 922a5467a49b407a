-- ===== src/Zigbee/Seeded.antt =====
-- What a boot takes from NVS into the calibration attributes.
use n_rf52840_power_meter.Prelude.{
  ℕ, ◌≡◌, inl, inr, refl, arith, sym, ◌∙◌, ap, Bool, true, Bool-cases, u16,
}
use mathlib.Core.Path.{subst}
use n_rf52840_power_meter.Rc.{success}
use n_rf52840_power_meter.Config.{Config, InRange}
use n_rf52840_power_meter.Calibration.{
  ImpInRange, is_valid_imp_per_kwh, is_valid_imp_per_kwh→ImpInRange,
  ImpInRange→is_valid_imp_per_kwh, WidthInRange,
}
use n_rf52840_power_meter.Nvs.{
  NvsBackend, Store, Loaded, loaded, accepted_or, load_imp_per_kwh, save_imp_per_kwh,
}
use n_rf52840_power_meter.Nvs.Accepted.{Accepted, accepted_or-Accepted}
use n_rf52840_power_meter.Nvs.Slots.{NvsLaws, load-save_imp_per_kwh}
use n_rf52840_power_meter.Pulse.{effective_min_width_us_at_init}
use n_rf52840_power_meter.Pulse.Threshold.{
  Threshold, effective_min_width-Threshold, Threshold-WidthInRange,
}
use n_rf52840_power_meter.Zigbee.{
  Zboss, Zb, to_u24, from_u24, call, register_device_ctx, register_device_cb,
}
use n_rf52840_power_meter.Zigbee.Calibrated.{from_u24-to_u24}
use n_rf52840_power_meter.Zigbee.Attrs.{
  metering_attrs_init, poll_control_attrs_init, app_clusters_attr_init, app_init,
}

module _ {Fs : Type 0} (b : NvsBackend Fs) (z : Zboss) (c : Config) (store : Store Fs) where
  pub app_clusters_attr_init_lem :
      (s : Zb)
      → let divisor =
          accepted_or is_valid_imp_per_kwh c.metering_default_imp_per_kwh
            (load_imp_per_kwh b store) in
        let s' = app_clusters_attr_init b z c store s in
        (s'.effective_divisor ≡ divisor)
        × (s'.dev_ctx.metering_divisor ≡ to_u24 divisor)
        × (s'.dev_ctx.metering_min_pulse_width_us ≡ u16 (effective_min_width_us_at_init b c store))
  unfolding app_clusters_attr_init metering_attrs_init poll_control_attrs_init
      effective_min_width_us_at_init
  app_clusters_attr_init_lem s = (refl, refl, refl)

  -- What the bring-up leaves of the attribute initialisation.
  pub app_init_lem :
      (s : Zb)
      → let s0 = call register_device_ctx (call register_device_cb s) in
        let seeded = app_clusters_attr_init b z c store s0 in
        let s' = app_init b z c store s in
        (s'.effective_divisor ≡ seeded.effective_divisor)
        × (s'.dev_ctx ≡ seeded.dev_ctx)
        × (s'.endpoint_registered ≡ true)
        × (s'.joined ≡ seeded.joined)
  unfolding app_init
  app_init_lem s = elim (Bool-cases c.zigbee_sleepy_ed) [
    | inl e ↦ elim (Bool-cases c.zigbee_rx_idle_probe) [
      | inl f ↦ rw (e, f) (refl, refl, refl, refl)
      | inr f ↦ rw (e, f) (refl, refl, refl, refl)
    ]
    | inr e ↦ elim (Bool-cases c.zigbee_rx_idle_probe) [
      | inl f ↦ rw (e, f) (refl, refl, refl, refl)
      | inr f ↦ rw (e, f) (refl, refl, refl, refl)
    ]
  ]

-- The calibration of a state: the effective divisor comes from the store or the default and is in
-- range, the attributes read it and the threshold that the pulse hardware takes from that store.
pub record Seeded {Fs : Type 0} (b : NvsBackend Fs) (c : Config) (store : Store Fs) (s : Zb)
    : Type 0 where
  pub taken :
      Accepted is_valid_imp_per_kwh c.metering_default_imp_per_kwh
        (load_imp_per_kwh b store)
        s.effective_divisor
  pub imp_in_range : ImpInRange s.effective_divisor
  pub divisor_shown : from_u24 s.dev_ctx.metering_divisor ≡ s.effective_divisor
  pub width_taken : Threshold b c store s.dev_ctx.metering_min_pulse_width_us
  pub width_programmed :
      s.dev_ctx.metering_min_pulse_width_us ≡ effective_min_width_us_at_init b c store
  pub width_in_range : WidthInRange s.dev_ctx.metering_min_pulse_width_us
  pub registered : s.endpoint_registered ≡ true

Accepted-ImpInRange :
    (c : Config) (l : Loaded) {n : ℕ}
    → InRange c
    → Accepted is_valid_imp_per_kwh c.metering_default_imp_per_kwh l n
    → ImpInRange n
Accepted-ImpInRange c l {n} r t = elim t [
  | inl l ↦ is_valid_imp_per_kwh→ImpInRange n l.1
  | inr d ↦ rw d.0 (r.imp_min, r.imp_max)
]

u16-WidthInRange : (w : ℕ) → WidthInRange w → u16 w ≡ w
u16-WidthInRange w h = omega arith

-- With the build's defaults in range, bringing the Zigbee application up registers the endpoint and
-- seeds both calibration attributes: each is the stored value, if one in range is stored, and the
-- build's default otherwise, and is in range. The width attribute reads the threshold that the pulse
-- counter takes from the same store.
pub app_init-Seeded :
    {Fs : Type 0} (b : NvsBackend Fs) (z : Zboss) (c : Config) (store : Store Fs) (s : Zb)
    → InRange c
    → Seeded b c store (app_init b z c store s)
app_init-Seeded b z c store s r =
    let s0 = call register_device_ctx (call register_device_cb s) in
    let init = app_init_lem b z c store s in
    let seed = app_clusters_attr_init_lem b z c store s0 in
    let n =
      accepted_or is_valid_imp_per_kwh c.metering_default_imp_per_kwh (load_imp_per_kwh b store) in
    let w = effective_min_width_us_at_init b c store in
    let width_range =
      Threshold-WidthInRange b c store r (effective_min_width-Threshold b c store) in
    let imp_range = Accepted-ImpInRange c (load_imp_per_kwh b store) r (
      accepted_or-Accepted is_valid_imp_per_kwh c.metering_default_imp_per_kwh
        (load_imp_per_kwh b store)) in
    let eff : (app_init b z c store s).effective_divisor ≡ n = init.0 ∙ seed.0 in
    let div : (app_init b z c store s).dev_ctx.metering_divisor ≡ to_u24 n =
      ap (λ d. d.metering_divisor) init.1 ∙ seed.1 in
    let width : (app_init b z c store s).dev_ctx.metering_min_pulse_width_us ≡ w =
      ap (λ d. d.metering_min_pulse_width_us) init.1 ∙ seed.2 ∙ u16-WidthInRange w width_range in
    record {
      taken =
          subst
            (λ x.
              Accepted is_valid_imp_per_kwh c.metering_default_imp_per_kwh
                (load_imp_per_kwh b store) x)
            (sym eff)
            (accepted_or-Accepted is_valid_imp_per_kwh c.metering_default_imp_per_kwh
              (load_imp_per_kwh b store));
      imp_in_range = subst ImpInRange (sym eff) imp_range;
      divisor_shown = ap from_u24 div ∙ from_u24-to_u24 n (omega (arith, imp_range)) ∙ sym eff;
      width_taken =
          subst (λ x. Threshold b c store x) (sym width) (effective_min_width-Threshold b c store);
      width_programmed = width;
      width_in_range = subst WidthInRange (sym width) width_range;
      registered = init.2;
    }

Accepted-loaded :
    (valid : ℕ → Bool) (default : ℕ) {l : Loaded} (v : ℕ)
    → l ≡ loaded v
    → valid v ≡ true
    → accepted_or valid default l ≡ v
Accepted-loaded valid default v e ok = rw (e, ok) refl

-- A calibration that was saved with return code 0 and is in range is the effective divisor after the
-- next bring-up, and the Divisor attribute reads it, whatever the build's default is.
pub saved_divisor_survives :
    {Fs : Type 0} (b : NvsBackend Fs) (z : Zboss) (c : Config) (store : Store Fs) (s : Zb) (n : ℕ)
    → NvsLaws b
    → ImpInRange n
    → (save_imp_per_kwh b n store).0 ≡ success
    → let s' = app_init b z c (save_imp_per_kwh b n store).1 s in
      (s'.effective_divisor ≡ n) × (from_u24 s'.dev_ctx.metering_divisor ≡ n)
saved_divisor_survives b z c store s n laws r ok =
    let after = (save_imp_per_kwh b n store).1 in
    let s0 = call register_device_ctx (call register_device_cb s) in
    let init = app_init_lem b z c after s in
    let seed = app_clusters_attr_init_lem b z c after s0 in
    let taken =
      Accepted-loaded is_valid_imp_per_kwh c.metering_default_imp_per_kwh n
        (load-save_imp_per_kwh b laws store n (omega (arith, r)) ok).0
        (ImpInRange→is_valid_imp_per_kwh n r) in
    (
      init.0 ∙ seed.0 ∙ taken,
      ap (λ d. from_u24 d.metering_divisor) init.1
          ∙ ap from_u24 (seed.1 ∙ ap to_u24 taken)
          ∙ from_u24-to_u24 n (omega (arith, r)),
    )
