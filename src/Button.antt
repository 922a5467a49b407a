-- ===== src/Button.antt =====
-- src/button_press_classifier.c and src/button_action.c: how long the button was held, and what
-- that means given the join state.
pub mod Bands
use n_rf52840_power_meter.Prelude.{ℕ, Bool, ltb, leb, ◌==◌, if◌then◌else◌}

pub data PressKind : Type 0 where
  neither short long : PressKind

pub record PressClassifier : Type 0 where
  pub short_max_ms : ℕ
  pub long_min_ms : ℕ

unfoldable pub init : ℕ → ℕ → PressClassifier
init short_max_ms long_min_ms = record { short_max_ms = short_max_ms; long_min_ms = long_min_ms }

unfoldable pub classify : PressClassifier → ℕ → PressKind
classify c duration_ms =
    if duration_ms == 0
    then neither
    else if ltb duration_ms c.short_max_ms
    then short
    else if leb c.long_min_ms duration_ms
    then long
    else neither

pub data Action : Type 0 where
  ignore join wake factory_reset : Action

-- The enumeration has no other value, so `default` and BUTTON_PRESS_NEITHER are one clause.
unfoldable pub action_for_press : PressKind → Bool → Action
action_for_press short joined = if joined then wake else join
action_for_press long joined = factory_reset
action_for_press neither joined = ignore
