-- ===== src/Main.antt =====
-- src/main.c: the constants of the program's policies.
pub mod Blink
pub mod Loop
pub mod Press
pub mod Poll
pub mod Boot
pub mod Metered
use n_rf52840_power_meter.Prelude.{ℕ, ◌*◌}

abbrev pub persist_interval_ms : ℕ
persist_interval_ms = 5 * 60 * 1000

abbrev pub persist_max_pulse_delta : ℕ
persist_max_pulse_delta = 100

abbrev pub zigbee_report_interval_ms : ℕ
zigbee_report_interval_ms = 5 * 60 * 1000

abbrev pub zigbee_report_pulse_heartbeat : ℕ
zigbee_report_pulse_heartbeat = 100

abbrev pub button_short_max_ms : ℕ
button_short_max_ms = 1000

abbrev pub button_long_min_ms : ℕ
button_long_min_ms = 3000

abbrev pub boot_erase_hold_ms : ℕ
boot_erase_hold_ms = 3000

abbrev pub boot_erase_poll_ms : ℕ
boot_erase_poll_ms = 10
