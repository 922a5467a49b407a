-- ===== src/Metering.antt =====
-- src/metering_scale.c: the pulse total in the 48-bit summation attribute.
pub mod Wire
use n_rf52840_power_meter.Prelude.{ℕ, ◌/◌, ◌%◌, ◌^◌, ltb, if◌then◌else◌}

abbrev pub summation_u48_max : ℕ
summation_u48_max = 0xFFFF_FFFF_FFFF

pub record MeteringU48 : Type 0 where
  pub low : ℕ
  pub high : ℕ

-- `& 0xFFFFFFFF` and `>> 32` are `%` and `/` by 2^32, `& 0xFFFF` is `%` by 2^16.
unfoldable pub scale_to_u48 : ℕ → MeteringU48
scale_to_u48 pulse_total =
    let clamped = if ltb summation_u48_max pulse_total then summation_u48_max else pulse_total in
    record { low = clamped % 2 ^ 32; high = (clamped / 2 ^ 32) % 2 ^ 16 }
