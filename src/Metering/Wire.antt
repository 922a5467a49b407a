-- ===== src/Metering/Wire.antt =====
-- What a reader of the summation attribute sees.
use n_rf52840_power_meter.Prelude.{
  ℕ, ◌+◌, ◌*◌, ◌^◌, ◌≤◌, ◌<◌, ◌≡◌, inl, inr, arith, ltb, Bool-cases, min, tests,
}
use n_rf52840_power_meter.Metering.{MeteringU48, summation_u48_max, scale_to_u48}

-- The number that the two halves stand for on the wire.
abbrev pub value_of : MeteringU48 → ℕ
value_of v = v.high * 2 ^ 32 + v.low

-- The attribute carries the total itself up to 2^48 - 1 and saturates there, and both halves fit
-- their fields.
pub value_of-scale_to_u48 :
    (n : ℕ)
    → (value_of (scale_to_u48 n) ≡ min n summation_u48_max)
      × ((scale_to_u48 n).low < 2 ^ 32)
      × ((scale_to_u48 n).high < 2 ^ 16)
unfolding scale_to_u48
value_of-scale_to_u48 n = elim (Bool-cases (ltb summation_u48_max n)) [
  | inl h ↦ rw h (omega tests)
  | inr h ↦ rw h (omega tests)
]

-- A growing total never makes the reported summation fall, so a reader never sees a meter reset.
pub scale_to_u48_mono : (m n : ℕ) → m ≤ n → value_of (scale_to_u48 m) ≤ value_of (scale_to_u48 n)
scale_to_u48_mono m n h = omega (arith, value_of-scale_to_u48 m, value_of-scale_to_u48 n)
