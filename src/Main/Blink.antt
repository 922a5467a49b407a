-- ===== src/Main/Blink.antt =====
-- `blink` of src/main.c, with which `main` shows a failed LED controller for ever: what it asks of the
-- GPIO driver and of the kernel, in that order.
use n_rf52840_power_meter.Prelude.{ℕ, zero, suc, ◌+◌, ◌*◌, ◌≡◌, refl, arith, List, [], ◌∷◌, ◌++◌}

pub data BlinkCall : Type 0 where
  gpio_pin_set_dt k_sleep : ℕ → BlinkCall

unfoldable pub blink : ℕ → ℕ → ℕ → List BlinkCall
blink zero on_ms off_ms = []
blink (suc times) on_ms off_ms =
    gpio_pin_set_dt 1
    ∷ k_sleep on_ms
    ∷ gpio_pin_set_dt 0
    ∷ k_sleep off_ms
    ∷ blink times on_ms off_ms

-- The first turns of the loop of a failed LED controller.
unfoldable pub controller_failed : ℕ → List BlinkCall
controller_failed zero = []
controller_failed (suc turns) = blink 1 750 750 ++ controller_failed turns

-- The time that calls take, and the part of it with the LED at the level `on`.
abbrev pub slept_ms : List BlinkCall → ℕ
slept_ms [] = 0
slept_ms (k_sleep n ∷ cs) = n + slept_ms cs
slept_ms (gpio_pin_set_dt v ∷ cs) = slept_ms cs

abbrev pub lit_ms : ℕ → List BlinkCall → ℕ
lit_ms on [] = 0
lit_ms on (k_sleep n ∷ cs) = on * n + lit_ms on cs
lit_ms on (gpio_pin_set_dt v ∷ cs) = lit_ms v cs

-- A blink of `times` takes its periods, and lights the LED for the on-times only.
blink_lem :
    (times on_ms off_ms on : ℕ)
    → (slept_ms (blink times on_ms off_ms) ≡ times * (on_ms + off_ms))
      × (lit_ms on (blink times on_ms off_ms) ≡ times * on_ms)
unfolding blink
blink_lem zero on_ms off_ms on = (omega arith, omega arith)
blink_lem (suc times) on_ms off_ms on =
    let ih = blink_lem times on_ms off_ms 0 in (omega (arith, ih.0), omega (arith, ih.1))

-- The loop of a failed LED controller takes 1.5 s a turn, half of it lit.
pub controller_failed_lem :
    (turns on : ℕ)
    → (slept_ms (controller_failed turns) ≡ 1500 * turns)
      × (lit_ms on (controller_failed turns) ≡ 750 * turns)
unfolding controller_failed blink
controller_failed_lem zero on = (refl, refl)
controller_failed_lem (suc turns) on =
    let ih = controller_failed_lem turns 0 in (omega (arith, ih.0), omega (arith, ih.1))
