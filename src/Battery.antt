-- ===== src/Battery.antt =====
-- src/battery_level.c: from millivolts to the Power Configuration attributes. The arguments are
-- 16-bit and 8-bit words; the casts and the 32-bit intermediate wraps are written out.
pub mod Percent
use n_rf52840_power_meter.Prelude.{ℕ, ◌+◌, ◌*◌, ◌/◌, ltb, leb, if◌then◌else◌, u8, u32, sub32}

abbrev pub zcl_unknown : ℕ
zcl_unknown = 0xFF

unfoldable pub percent : ℕ → ℕ → ℕ → ℕ
percent mv empty_mv full_mv =
    if leb full_mv empty_mv
    then 0
    else if leb mv empty_mv
    then 0
    else if leb full_mv mv
    then 100
    else let span = sub32 full_mv empty_mv in
      let above = sub32 mv empty_mv in u8 (u32 (u32 (above * 100) + span / 2) / span)

unfoldable pub zcl_percentage : ℕ → ℕ
zcl_percentage percent_value = if leb 100 percent_value then 200 else u8 (percent_value * 2)

unfoldable pub zcl_voltage : ℕ → ℕ
zcl_voltage mv = let units = u32 (mv + 50) / 100 in if ltb 254 units then 254 else u8 units
