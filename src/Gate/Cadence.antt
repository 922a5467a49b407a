-- ===== src/Gate/Cadence.antt =====
-- How often the report gate fires.
use n_rf52840_power_meter.Prelude.{
  ℕ, zero, suc, ◌+◌, ◌*◌, ◌^◌, ◌≤◌, ◌<◌, ◌≡◌, refl, arith, if◌then◌else◌,
}
use n_rf52840_power_meter.Gate.{ReportGate, init, advance}

-- The gate after `n` calls, and how many of them returned true.
abbrev pub advances : ℕ → ReportGate → ReportGate
advances zero g = g
advances (suc n) g = (advance (advances n g)).1

abbrev pub fires : ℕ → ReportGate → ℕ
fires zero g = 0
fires (suc n) g = fires n g + (if (advance (advances n g)).0 then 1 else 0)

-- `period` is kept, and the counter says how far the calls are past the last fire.
pub record Cadence (period n : ℕ) (g : ReportGate) (fired : ℕ) : Type 0 where
  pub kept : g.period ≡ period
  pub below : g.counter < period
  pub phase : n ≡ fired * period + g.counter

pub advance-Cadence :
    (period n : ℕ) (g : ReportGate) (fired : ℕ)
    → period < 2 ^ 32
    → Cadence period n g fired
    → Cadence period (suc n) (advance g).1 (fired + (if (advance g).0 then 1 else 0))
unfolding advance
advance-Cadence period n g fired b c = ground arith

advances-Cadence :
    (period n : ℕ)
    → 0 < period
    → period < 2 ^ 32
    → Cadence period n (advances n (init period)) (fires n (init period))
unfolding init
advances-Cadence period zero p b = omega arith
advances-Cadence period (suc n) p b =
    advance-Cadence period n (advances n (init period)) (fires n (init period)) b
      (advances-Cadence period n p b)

-- A gate with a positive 32-bit period fires exactly once in every `period` calls: after `n`
-- calls it has fired `f` times with `f` the quotient of `n` by `period`, and the counter holds
-- the remainder.
pub fires-init :
    (period n : ℕ)
    → 0 < period
    → period < 2 ^ 32
    → let f = fires n (init period) in
      let g = advances n (init period) in
      (f * period ≤ n) × (n < f * period + period) × (n ≡ f * period + g.counter)
fires-init period n p b = let c = advances-Cadence period n p b in omega (arith, c.below, c.phase)

-- A gate with period 0 never fires and never changes.
pub disabled : (n : ℕ) → (fires n (init 0) ≡ 0) × (advances n (init 0) ≡ init 0)
unfolding advance init
disabled zero = (refl, refl)
disabled (suc n) = let ih = disabled n in ground (arith, ih.0, ih.1)
