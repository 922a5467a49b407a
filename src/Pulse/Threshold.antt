-- ===== src/Pulse/Threshold.antt =====
-- The min-pulse-width threshold in TIMER3's CC[0].
use n_rf52840_power_meter.Prelude.{ℕ, ◌≡◌, inl, inr, ap, List, [], ◌∷◌}
use mathlib.Core.Option.{Option, some, none}
use n_rf52840_power_meter.Rc.{success}
use n_rf52840_power_meter.Config.{Config, InRange}
use n_rf52840_power_meter.Nvs.{NvsBackend, Store, load_pulse_min_width_us}
use n_rf52840_power_meter.Pulse.{
  HwCall, extended_compare, width_timer, cc_channel0, Nrfx, effective_min_width_us_at_init, hw_init,
}
use n_rf52840_power_meter.Calibration.{
  WidthInRange, is_valid_pulse_min_width_us, is_valid_pulse_min_width_us→WidthInRange,
}
use n_rf52840_power_meter.Nvs.Accepted.{Accepted, accepted_or-Accepted}
use n_rf52840_power_meter.Pulse.Wiring.{hw_init_calls}

-- The value last programmed into CC[0] of the width timer.
abbrev pub cc0 : List HwCall → Option ℕ
cc0 [] = none
cc0 (extended_compare width_timer cc_channel0 w _ _ ∷ cs) = some w
cc0 (_ ∷ cs) = cc0 cs

-- `w` is what a boot from the store `s` takes as the threshold: the stored value, if that is in
-- range, and the build's default if no value in range is stored.
abbrev pub Threshold : {Fs : Type 0} → NvsBackend Fs → Config → Store Fs → ℕ → Type 0
Threshold b c s w =
    Accepted is_valid_pulse_min_width_us c.pulse_min_width_us (load_pulse_min_width_us b s) w

module _ {Fs : Type 0} (b : NvsBackend Fs) (c : Config) (s : Store Fs) where
  pub effective_min_width-Threshold : Threshold b c s (effective_min_width_us_at_init b c s)
  unfolding effective_min_width_us_at_init
  effective_min_width-Threshold =
      accepted_or-Accepted is_valid_pulse_min_width_us c.pulse_min_width_us
        (load_pulse_min_width_us b s)

  pub Threshold-WidthInRange : {w : ℕ} → InRange c → Threshold b c s w → WidthInRange w
  Threshold-WidthInRange {w} r t = elim t [
    | inl l ↦ is_valid_pulse_min_width_us→WidthInRange w l.1
    | inr d ↦ rw d.0 (r.width_min, r.width_max)
  ]

-- An initialisation that returns 0 leaves CC[0] at the stored threshold if one in range is stored,
-- and at the build's default otherwise: in either case within 100 to 10000 microseconds.
pub hw_init-Threshold :
    {Fs : Type 0} (n : Nrfx) (b : NvsBackend Fs) (c : Config) (s : Store Fs) (cs : List HwCall)
    → InRange c
    → (hw_init n b c s cs).0 ≡ success
    → (w : ℕ) × (cc0 (hw_init n b c s cs).1 ≡ some w) × Threshold b c s w × WidthInRange w
hw_init-Threshold n b c s cs r e =
    let w = effective_min_width_us_at_init b c s in
    let t = effective_min_width-Threshold b c s in
    (w, ap cc0 (hw_init_calls n b c s cs e), t, Threshold-WidthInRange b c s r t)
