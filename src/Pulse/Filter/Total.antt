-- ===== src/Pulse/Filter/Total.antt =====
-- From the pulses at the inputs to the total: the chain, its 32-bit register and the accumulator.
use n_rf52840_power_meter.Prelude.{ℕ, ◌+◌, ◌%◌, ◌^◌, ◌<◌, List, [], ◌∷◌}
use n_rf52840_power_meter.Config.{Config}
use n_rf52840_power_meter.Pulse.Threshold.{Threshold}
use n_rf52840_power_meter.Pulse.Filter.{
  WidthTimer, counter_bits, Chain, Step, pulse, set_threshold, steps, long_enough, threshold_after,
  ThresholdsInRange,
}

-- What TIMER2 shows, at the width it is configured for.
abbrev register : {Q : Type 0} → Chain Q → ℕ
register h = h.count % 2 ^ counter_bits h.calls

-- The readings, with a reading after each train of pulses.
abbrev pub captured_after : {Q : Type 0} → WidthTimer Q → Chain Q → List (List Step) → List ℕ
captured_after p h [] = []
captured_after p h (ss ∷ trains) = let g = steps p ss h in register g ∷ captured_after p g trains

-- The pulses of each train that last, with the threshold `w` at first.
abbrev pub lasting : ℕ → List (List Step) → List ℕ
lasting w [] = []
lasting w (ss ∷ trains) = long_enough w ss ∷ lasting (threshold_after w ss) trains

abbrev pulse_count : List Step → ℕ
pulse_count [] = 0
pulse_count (pulse i gap d ∷ ss) = 1 + pulse_count ss
pulse_count (set_threshold w ∷ ss) = pulse_count ss

-- Every threshold is in range, and TIMER2 is read before 2^32 pulses.
abbrev pub Trains : List (List Step) → Type 0
Trains [] = Unit {0}
Trains (ss ∷ trains) = ThresholdsInRange ss × (pulse_count ss < 2 ^ 32) × Trains trains
