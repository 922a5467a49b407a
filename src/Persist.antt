-- ===== src/Persist.antt =====
-- src/persist_policy.c: when the sample loop writes the total to flash.
pub mod Bound
use n_rf52840_power_meter.Prelude.{ℕ, Bool, true, false, ◌&&◌, ltb, leb, ◌==◌, if◌then◌else◌, sub64}

pub record PersistPolicy : Type 0 where
  pub interval_ms : ℕ
  pub max_pulse_delta : ℕ

unfoldable pub init : ℕ → ℕ → PersistPolicy
init interval_ms max_pulse_delta = record {
  interval_ms = interval_ms;
  max_pulse_delta = max_pulse_delta;
}

unfoldable pub should_write : PersistPolicy → ℕ → ℕ → ℕ → Bool
should_write p current_total last_saved_total ms_since_last_write =
    if current_total == last_saved_total
    then false
    else if ltb last_saved_total current_total
        && leb p.max_pulse_delta (sub64 current_total last_saved_total)
    then true
    else leb p.interval_ms ms_since_last_write
