-- ===== src/Battery/Percent.antt =====
-- What the battery attributes say of the measured voltage.
use n_rf52840_power_meter.Prelude.{
  ℕ, ◌+◌, ◌-◌, ◌*◌, ◌/◌, ◌^◌, ◌≤◌, ◌<◌, ◌≡◌, ◌≢◌, ◌⊎◌, inl, inr, arith, min,
}
use native.Mathlib.Nat.{div-mul-le_self, lt-div-mul-add}
use n_rf52840_power_meter.Battery.{zcl_unknown, percent, zcl_percentage, zcl_voltage}

-- The quotient that the middle branch computes, with no wrap.
abbrev rounded : ℕ → ℕ → ℕ
rounded above span = (above * 100 + span / 2) / span

rounded-le : (above span : ℕ) → above < span → rounded above span ≤ 100
rounded-le above span h = grind arith

rounded_mono : (a b span : ℕ) → a ≤ b → rounded a span ≤ rounded b span
rounded_mono a b span h = grind arith

percent-eq-rounded :
    (mv empty full : ℕ)
    → empty < mv
    → mv < full
    → full < 2 ^ 16
    → percent mv empty full ≡ rounded (mv - empty) (full - empty)
unfolding percent
percent-eq-rounded mv empty full h k b = grind arith

rounded_nearest :
    (above span : ℕ)
    → 0 < span
    → (2 * (rounded above span * span) ≤ 2 * (above * 100) + span)
      × (2 * (above * 100) ≤ 2 * (rounded above span * span) + span)
rounded_nearest above span h = omega (
  arith,
  div-mul-le_self (above * 100 + span / 2) span,
  lt-div-mul-add {a = above * 100 + span / 2} h,
)

percent-outside :
    (mv empty full : ℕ)
    → ((full ≤ mv) × (empty < full) × (percent mv empty full ≡ 100))
      ⊎ ((mv ≤ empty) × (percent mv empty full ≡ 0))
      ⊎ ((full ≤ empty) × (percent mv empty full ≡ 0))
      ⊎ ((empty < mv) × (mv < full))
unfolding percent
percent-outside mv empty full = ground arith

pub percent-le : (mv empty full : ℕ) → full < 2 ^ 16 → percent mv empty full ≤ 100
percent-le mv empty full b = elim (percent-outside mv empty full) [
  | inl e ↦ omega (arith, e.2)
  | inr (inl e) ↦ omega (arith, e.1)
  | inr (inr (inl e)) ↦ omega (arith, e.1)
  | inr (inr (inr e)) ↦
      rw (percent-eq-rounded mv empty full e.0 e.1 b)
        (rounded-le (mv - empty) (full - empty) (omega (arith, e.0, e.1)))
]

-- Between the two voltages the percentage is the nearest whole number to the linear map: twice
-- its distance from the exact value, scaled by the span, is at most the span.
pub percent_nearest :
    (mv empty full : ℕ)
    → empty < mv
    → mv < full
    → full < 2 ^ 16
    → let span = full - empty in
      let exact = (mv - empty) * 100 in
      let scaled = percent mv empty full * span in
      (2 * scaled ≤ 2 * exact + span) × (2 * exact ≤ 2 * scaled + span)
percent_nearest mv empty full h k b =
    rw (percent-eq-rounded mv empty full h k b)
      (rounded_nearest (mv - empty) (full - empty) (omega arith))

-- A higher voltage never gives a lower percentage.
pub percent_mono :
    (mv mv' empty full : ℕ)
    → full < 2 ^ 16
    → mv ≤ mv'
    → percent mv empty full ≤ percent mv' empty full
percent_mono mv mv' empty full b h = elim (percent-outside mv empty full) [
  | inl e ↦ elim (percent-outside mv' empty full) [
    | inl e' ↦ omega (arith, e.2, e'.2)
    | inr (inl e') ↦ omega (arith, e.0, e.1, e'.0)
    | inr (inr (inl e')) ↦ omega (arith, e.1, e'.0)
    | inr (inr (inr e')) ↦ omega (arith, e.0, e'.1)
  ]
  | inr (inl e) ↦ omega (arith, e.1)
  | inr (inr (inl e)) ↦ omega (arith, e.1)
  | inr (inr (inr e)) ↦ elim (percent-outside mv' empty full) [
    | inl e' ↦ omega (arith, e'.2, percent-le mv empty full b)
    | inr (inl e') ↦ omega (arith, e.0, e'.0)
    | inr (inr (inl e')) ↦ omega (arith, e.0, e.1, e'.0)
    | inr (inr (inr e')) ↦
        rw
          (
            percent-eq-rounded mv empty full e.0 e.1 b,
            percent-eq-rounded mv' empty full e'.0 e'.1 b,
          )
          (rounded_mono (mv - empty) (mv' - empty) (full - empty) (omega arith))
  ]
]

-- What the report path writes for a successful reading is never the 0xFF of an unknown value: the
-- percentage attribute is twice the percentage, at most 200, and the voltage attribute is the
-- reading in units of 100 mV, rounded to nearest, at most 254 and exact below 25450 mV.
pub zcl_known :
    (mv empty full : ℕ)
    → mv < 2 ^ 16
    → full < 2 ^ 16
    → (zcl_percentage (percent mv empty full) ≡ 2 * percent mv empty full)
      × (zcl_percentage (percent mv empty full) ≤ 200)
      × (zcl_percentage (percent mv empty full) ≢ zcl_unknown)
      × (zcl_voltage mv ≡ min ((mv + 50) / 100) 254)
      × (zcl_voltage mv ≢ zcl_unknown)
unfolding zcl_percentage zcl_voltage
zcl_known mv empty full hm hf = ground (arith, percent-le mv empty full hf)
