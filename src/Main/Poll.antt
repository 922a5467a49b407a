-- ===== src/Main/Poll.antt =====
-- The two poll loops of the start in src/main.c, on fuel.
use n_rf52840_power_meter.Prelude.{
  ℕ, zero, suc, ◌+◌, Bool, true, false, not, ◌&&◌, ltb, ◌==◌, if◌then◌else◌, u32,
}
use mathlib.Core.Option.{Option, some, none}
use n_rf52840_power_meter.Prelude.Int.{ℤ, pos, negsuc}
use n_rf52840_power_meter.Led.Priority.{long_press_hold, prio_long_press_hold}
use n_rf52840_power_meter.Led.Controller.{Led, led_request}
use n_rf52840_power_meter.Main.{boot_erase_poll_ms}
use n_rf52840_power_meter.Main.Press.{int32_max, is_active}

-- The loop of `boot_button_held` from its `poll`-th turn on, on fuel.
abbrev pub held_from : ℕ → ℕ → ℕ → (ℕ → ℤ) → ℕ → Option Bool
held_from zero threshold elapsed pin poll = none
held_from (suc fuel) threshold elapsed pin poll =
    let rest = held_from fuel threshold (u32 (elapsed + boot_erase_poll_ms)) pin (suc poll) in
    if ltb elapsed threshold
    then (if not (is_active (pin poll)) then some false else rest)
    else some true

-- The result, with the LED; `none` without enough fuel.
unfoldable pub boot_button_held : ℕ → ℕ → (ℕ → ℤ) → Led → Option (Bool × Led)
boot_button_held fuel threshold pin led = elim (held_from fuel threshold 0 pin 0) [
  | none ↦ none
  | some h ↦
      some
        (if h then (true, led_request long_press_hold prio_long_press_hold led) else (false, led))
]

-- `elapsed < timeout_ms` on `int`, where `elapsed` never falls below 0.
abbrev before : ℕ → ℤ → Bool
before elapsed (pos t) = ltb elapsed t
before elapsed (negsuc k) = false

-- The loop of `wait_for_host_dtr_or_timeout` from its `poll`-th turn on, with `dtr` as the last call of
-- `uart_line_ctrl_get` left it and the uptime at `now`: `line` gives what that call leaves in a turn,
-- from what was there, and a sleep takes its 100 ms. The result is the number of turns and the uptime
-- at the end; none without enough fuel, or where `elapsed`, an `int`, would overflow.
unfoldable pub wait_for_host_dtr_from : ℕ → ℤ → ℕ → ℕ → (ℕ → ℕ → ℕ) → ℕ → ℕ → Option (ℕ × ℕ)
wait_for_host_dtr_from zero timeout elapsed dtr line poll now = none
wait_for_host_dtr_from (suc fuel) timeout elapsed dtr line poll now =
    let rest =
      wait_for_host_dtr_from fuel timeout (elapsed + 100) (line poll dtr) line (suc poll)
        (now + 100) in
    if dtr == 0 && before elapsed timeout
    then (if ltb int32_max (elapsed + 100) then none else rest)
    else some (poll, now)

unfoldable pub wait_for_host_dtr_or_timeout : ℕ → ℤ → (ℕ → ℕ → ℕ) → ℕ → Option (ℕ × ℕ)
wait_for_host_dtr_or_timeout fuel timeout line now =
    wait_for_host_dtr_from fuel timeout 0 0 line 0 now
