-- ===== src/Button/Bands.antt =====
-- The press bands: which durations lead to which action.
use n_rf52840_power_meter.Prelude.{ℕ, ◌≤◌, ◌<◌, ◌≡◌, ◌↔◌, ◌⊎◌, arith, Bool, true, false}
use n_rf52840_power_meter.Button.{
  PressClassifier, init, classify, Action, ignore, join, wake, factory_reset, action_for_press,
}

-- What the dispatch thread does with a press of `d` milliseconds.
abbrev pub press : PressClassifier → Bool → ℕ → Action
press c joined d = action_for_press (classify c d) joined

-- With a short band that ends no later than the long band begins, the four actions are decided by
-- the duration and the join state: factory reset exactly from `long_min_ms` on, whatever the join
-- state; join and wake exactly for a press of 1 ms up to below `short_max_ms`, by the join state;
-- and nothing exactly for a zero duration and in the gap between the bands.
pub press_iff :
    (short_max long_min : ℕ) (joined : Bool) (d : ℕ)
    → 0 < short_max
    → short_max ≤ long_min
    → let a = press (init short_max long_min) joined d in
      ((a ≡ factory_reset) ↔ (long_min ≤ d))
      × ((a ≡ join) ↔ ((joined ≡ false) × (0 < d) × (d < short_max)))
      × ((a ≡ wake) ↔ ((joined ≡ true) × (0 < d) × (d < short_max)))
      × ((a ≡ ignore) ↔ ((d ≡ 0) ⊎ ((short_max ≤ d) × (d < long_min))))
unfolding init classify action_for_press
press_iff s l joined d p h = (
  (λ e. ground arith, λ e. ground arith),
  (λ e. ground arith, λ e. ground arith),
  (λ e. ground arith, λ e. ground arith),
  (λ e. ground arith, λ e. ground arith),
)
