-- ===== src/Calibration.antt =====
-- src/calibration.c: which values of the two runtime knobs are accepted.
-- Constants of calibration.h keep their names in lower case.
use n_rf52840_power_meter.Prelude.{ℕ, ◌≤◌, ◌≡◌, arith, Bool, true, ◌&&◌, leb}

abbrev pub imp_per_kwh_min : ℕ
imp_per_kwh_min = 100

abbrev pub imp_per_kwh_max : ℕ
imp_per_kwh_max = 10000

abbrev pub pulse_min_width_us_min : ℕ
pulse_min_width_us_min = 100

abbrev pub pulse_min_width_us_max : ℕ
pulse_min_width_us_max = 10000

unfoldable pub is_valid_imp_per_kwh : ℕ → Bool
is_valid_imp_per_kwh imp_per_kwh =
    leb imp_per_kwh_min imp_per_kwh && leb imp_per_kwh imp_per_kwh_max

unfoldable pub is_valid_pulse_min_width_us : ℕ → Bool
is_valid_pulse_min_width_us min_width_us =
    leb pulse_min_width_us_min min_width_us && leb min_width_us pulse_min_width_us_max

abbrev pub ImpInRange : ℕ → Type 0
ImpInRange n = (imp_per_kwh_min ≤ n) × (n ≤ imp_per_kwh_max)

abbrev pub WidthInRange : ℕ → Type 0
WidthInRange n = (pulse_min_width_us_min ≤ n) × (n ≤ pulse_min_width_us_max)

pub is_valid_imp_per_kwh→ImpInRange : (n : ℕ) → is_valid_imp_per_kwh n ≡ true → ImpInRange n
unfolding is_valid_imp_per_kwh
is_valid_imp_per_kwh→ImpInRange n h = ground arith

pub ImpInRange→is_valid_imp_per_kwh : (n : ℕ) → ImpInRange n → is_valid_imp_per_kwh n ≡ true
unfolding is_valid_imp_per_kwh
ImpInRange→is_valid_imp_per_kwh n h = ground arith

pub is_valid_pulse_min_width_us→WidthInRange :
    (n : ℕ) → is_valid_pulse_min_width_us n ≡ true → WidthInRange n
unfolding is_valid_pulse_min_width_us
is_valid_pulse_min_width_us→WidthInRange n h = ground arith

pub WidthInRange→is_valid_pulse_min_width_us :
    (n : ℕ) → WidthInRange n → is_valid_pulse_min_width_us n ≡ true
unfolding is_valid_pulse_min_width_us
WidthInRange→is_valid_pulse_min_width_us n h = ground arith
