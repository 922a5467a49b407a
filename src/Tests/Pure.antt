-- ===== src/Tests/Pure.antt =====
-- Runs of the hardware-free parts: accumulator, policies, gate, press bands and scales.
use n_rf52840_power_meter.Prelude.{
  ℕ, ◌+◌, ◌-◌, ◌*◌, ◌/◌, ◌^◌, ◌≤◌, ◌<◌, ◌≡◌, ◌≢◌, ◌↔◌, ◌⊎◌, refl, arith, true, min, List, [], ◌∷◌,
}
use n_rf52840_power_meter.Accumulator.{restore}
use n_rf52840_power_meter.Accumulator.Counting.{readings, update_all, update_all_schedule}
use n_rf52840_power_meter.Persist.{init, should_write}
use n_rf52840_power_meter.Persist.Bound.{should_write_iff}
use n_rf52840_power_meter.Metering.{scale_to_u48, summation_u48_max}
use n_rf52840_power_meter.Metering.Wire.{value_of, value_of-scale_to_u48}
use n_rf52840_power_meter.Battery.{percent, zcl_percentage, zcl_voltage, zcl_unknown}
use n_rf52840_power_meter.Battery.Percent.{percent_nearest, zcl_known}

-- The register wraps between the second and the third reading.
abbrev saved_total : ℕ
saved_total = 5000

abbrev now_total : ℕ
now_total = 5100

abbrev held_ms : ℕ
held_ms = 400

abbrev wrapping : List ℕ
wrapping = 3 ∷ 4294967290 ∷ 10 ∷ []

update_all_schedule_example :
    update_all (restore 5000) (readings 0 wrapping)
    ≡ update_all (restore 5000) (readings 0 (4294967293 ∷ 5 ∷ 5 ∷ []))
unfolding restore
update_all_schedule_example =
    update_all_schedule (restore 5000) 0 wrapping (4294967293 ∷ 5 ∷ 5 ∷ []) (omega arith) refl
      (omega arith, (omega arith, (omega arith, tt)))
      (omega arith, (omega arith, (omega arith, tt))) refl

should_write_iff_example :
    (should_write (init 300000 100) 5100 5000 20 ≡ true)
    ↔ ((now_total ≢ saved_total) × (((5000 < 5100) × (5000 + 100 ≤ 5100)) ⊎ (300000 ≤ 20)))
unfolding init
should_write_iff_example =
    should_write_iff (init 300000 100) 5100 5000 20 (omega arith) (omega arith)

value_of-scale_to_u48_example :
    (value_of (scale_to_u48 (2 ^ 50)) ≡ min (2 ^ 50) summation_u48_max)
    × ((scale_to_u48 (2 ^ 50)).low < 2 ^ 32)
    × ((scale_to_u48 (2 ^ 50)).high < 2 ^ 16)
value_of-scale_to_u48_example = value_of-scale_to_u48 (2 ^ 50)

percent_nearest_example :
    let span = 4200 - 3300 in
    let exact = (3750 - 3300) * 100 in
    let scaled = percent 3750 3300 4200 * span in
    (2 * scaled ≤ 2 * exact + span) × (2 * exact ≤ 2 * scaled + span)
percent_nearest_example = percent_nearest 3750 3300 4200 (omega arith) (omega arith) (omega arith)

zcl_known_example :
    (zcl_percentage (percent 3900 3300 4200) ≡ 2 * percent 3900 3300 4200)
    × (zcl_percentage (percent 3900 3300 4200) ≤ 200)
    × (zcl_percentage (percent 3900 3300 4200) ≢ zcl_unknown)
    × (zcl_voltage 3900 ≡ min ((3900 + 50) / 100) 254)
    × (zcl_voltage 3900 ≢ zcl_unknown)
zcl_known_example = zcl_known 3900 3300 4200 (omega arith) (omega arith)
