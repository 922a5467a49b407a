-- ===== src/Accumulator.antt =====
-- src/pulse_accumulator.c: the 64-bit total behind the 32-bit hardware counter.
-- `uint32_t` and `uint64_t` arithmetic wraps; a call that writes through `acc` returns the new one.
pub mod Counting
use n_rf52840_power_meter.Prelude.{ℕ, ◌+◌, u64, sub32}

pub record PulseAccumulator : Type 0 where
  pub total : ℕ
  pub last_hw : ℕ

-- `pulse_accumulator_init` writes both fields, whatever they held.
unfoldable pub init : PulseAccumulator
init = record { total = 0; last_hw = 0 }

unfoldable pub update : PulseAccumulator → ℕ → PulseAccumulator
update acc hw_counter =
    let delta = sub32 hw_counter acc.last_hw in
    record { total = u64 (acc.total + delta); last_hw = hw_counter }

-- `pulse_accumulator_restore` also overwrites both fields.
unfoldable pub restore : ℕ → PulseAccumulator
restore saved_total = record { total = saved_total; last_hw = 0 }

unfoldable pub total_of : PulseAccumulator → ℕ
total_of acc = acc.total
