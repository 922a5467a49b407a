-- ===== src/System/Spec.antt =====
-- What the threads of the firmware promise together: an electricity meter of four numbers.
use n_rf52840_power_meter.Prelude.{ℕ, ◌+◌, ◌≤◌, ◌<◌, ◌≡◌, ◌⊎◌, inl, inr, arith}
use n_rf52840_power_meter.Metering.{MeteringU48, scale_to_u48}

-- The pulses of the meter, those in the total, those that a loss of power leaves, and what the
-- metering attribute reads.
pub record EnergyMeter : Type 0 where
  pub emitted : ℕ
  pub counted : ℕ
  pub saved : ℕ
  pub shown : MeteringU48

-- The hardware counts a pulse at any time. The total catches up with it, all at once. At the end of a
-- turn the total is saved or not, but fewer than 100 pulses are unsaved. The attribute takes up a
-- total that has been counted. Nothing else happens to the energy.
pub data MeterStep : EnergyMeter → EnergyMeter → Type 0 where
  pulses : (m : EnergyMeter) (n : ℕ) → MeterStep m (record m { emitted = m.emitted + n })
  counts :
      (m : EnergyMeter) (total : ℕ) → total ≡ m.emitted → MeterStep m (record m { counted = total })
  settles :
      (m : EnergyMeter) (total : ℕ)
      → (total ≡ m.saved) ⊎ (total ≡ m.counted)
      → m.counted < total + 100
      → MeterStep m (record m { saved = total })
  shows :
      (m : EnergyMeter) (total : ℕ) (u : MeteringU48)
      → total ≤ m.counted
      → u ≡ scale_to_u48 total
      → MeterStep m (record m { shown = u })
  rests : (m : EnergyMeter) → MeterStep m m

pub data MeterRun (m : EnergyMeter) : EnergyMeter → Type 0 where
  start : MeterRun m m
  then_step : {u v : EnergyMeter} → MeterRun m u → MeterStep u v → MeterRun m v

-- The order in which pulses get on: none is counted before it is emitted, or saved before it is counted.
pub record Ordered (m : EnergyMeter) : Type 0 where
  pub counted_le : m.counted ≤ m.emitted
  pub saved_le : m.saved ≤ m.counted

pub record Grows (m t : EnergyMeter) : Type 0 where
  pub emitted : m.emitted ≤ t.emitted
  pub counted : m.counted ≤ t.counted
  pub saved : m.saved ≤ t.saved

MeterStep-Ordered : {m t : EnergyMeter} → MeterStep m t → Ordered m → Ordered t × Grows m t
MeterStep-Ordered (pulses m n) o = omega arith
MeterStep-Ordered (counts m total e) o = omega arith
MeterStep-Ordered (settles m total (inl e) h) o = omega arith
MeterStep-Ordered (settles m total (inr e) h) o = omega arith
MeterStep-Ordered (shows m total u le e) o = omega arith
MeterStep-Ordered (rests m) o = omega arith

-- Along a run of the specification no number but what the attribute reads goes down.
pub MeterRun-Grows : {m t : EnergyMeter} → MeterRun m t → Ordered m → Ordered t × Grows m t
MeterRun-Grows start o = omega arith
MeterRun-Grows (then_step r s) o =
    let k = MeterRun-Grows r o in let l = MeterStep-Ordered s k.0 in (l.0, omega (arith, k.1, l.1))
