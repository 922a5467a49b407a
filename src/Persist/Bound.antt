-- ===== src/Persist/Bound.antt =====
-- What a decision of the persistence policy says of the unsaved pulses.
use n_rf52840_power_meter.Prelude.{ℕ, ◌+◌, ◌^◌, ◌≤◌, ◌<◌, ◌≡◌, ◌≢◌, ◌⊎◌, ◌↔◌, true, false, arith}
use n_rf52840_power_meter.Persist.{PersistPolicy, should_write}

-- The policy asks for a write exactly if the total has changed and either the pulses counted
-- since the last save have reached the limit, or the interval has passed; totals are 64-bit.
pub should_write_iff :
    (p : PersistPolicy) (current saved ms : ℕ)
    → current < 2 ^ 64
    → saved < 2 ^ 64
    → (should_write p current saved ms ≡ true) ↔ (
        (current ≢ saved)
        × (((saved < current) × (saved + p.max_pulse_delta ≤ current)) ⊎ (p.interval_ms ≤ ms)))
unfolding should_write
should_write_iff p current saved ms hc hs = (λ h. ground arith, λ h. ground arith)

-- Where the policy declines a write, the pulses that a reset would lose are fewer than the limit
-- (or none, with a limit of 0), for a total that has not fallen below the saved one.
pub declined_bound :
    (p : PersistPolicy) (current saved ms : ℕ)
    → saved ≤ current
    → current < 2 ^ 64
    → should_write p current saved ms ≡ false
    → (current ≡ saved) ⊎ ((current < saved + p.max_pulse_delta) × (ms < p.interval_ms))
unfolding should_write
declined_bound p current saved ms hle hc h = ground arith
