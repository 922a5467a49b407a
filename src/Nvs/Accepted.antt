-- ===== src/Nvs/Accepted.antt =====
-- How a calibration value that was loaded at boot is taken, or replaced by the build's default.
use n_rf52840_power_meter.Prelude.{ℕ, ◌≡◌, ◌⊎◌, inl, inr, refl, ap, Bool, true, Bool-cases}
use n_rf52840_power_meter.Nvs.{Loaded, loaded, not_loaded, accepted_or}

-- `w` is the loaded value, if that is valid, and the default if no valid value was loaded.
abbrev pub Accepted : (ℕ → Bool) → ℕ → Loaded → ℕ → Type 0
Accepted valid default l w =
    ((l ≡ loaded w) × (valid w ≡ true))
    ⊎ ((w ≡ default) × ¬ ((v : ℕ) × (l ≡ loaded v) × (valid v ≡ true)))

loaded-inj : {v w : ℕ} → loaded v ≡ loaded w → v ≡ w
loaded-inj e = ap (λ l. elim l [ loaded v ↦ v | not_loaded e ↦ 0 ]) e

pub accepted_or-Accepted :
    (valid : ℕ → Bool) (default : ℕ) (l : Loaded)
    → Accepted valid default l (accepted_or valid default l)
accepted_or-Accepted valid default (loaded v) = elim (Bool-cases (valid v)) [
  | inl ok ↦ rw ok (inl (refl, ok))
  | inr bad ↦ rw bad (inr (refl, λ (w, e, h). cc (ap valid (loaded-inj e), h, bad)))
]
accepted_or-Accepted valid default (not_loaded e) = inr (refl, λ (w, e, h). cc e)
