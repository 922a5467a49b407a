-- ===== src/Led/Controller/Cycle.antt =====
-- The flashes of the fatal pattern: how long they take and how much of that red is on.
use n_rf52840_power_meter.Prelude.{
  ℕ, zero, suc, ◌+◌, ◌*◌, ◌%◌, ◌≤◌, ◌<◌, ◌≡◌, refl, arith, sym, ◌∙◌, ap, ◌==◌, if◌then◌else◌, u32,
  List, [], ◌∷◌, length, All,
}
use n_rf52840_power_meter.Led.Priority.{fatal}
use n_rf52840_power_meter.Led.Controller.{
  led_red, LedCall, gpio_pin_set_dt, k_work_reschedule, set_leds_rgb, fatal_collapse_after_ms, Led,
  fatal_cycle_ms,
}
use n_rf52840_power_meter.Led.Controller.Tick.{
  tick_handler, tick_rendered, fatal_tick, fatal_pulse_tick, pulse_delay,
}
use mathlib.Core.Path.{ap₂, subst}
use n_rf52840_power_meter.Led.Controller.Fatal.{ShowsFatal}

-- The total of the delays asked of the work queue, and of those asked while red was last set on.
abbrev pub scheduled_ms : List LedCall → ℕ
scheduled_ms [] = 0
scheduled_ms (k_work_reschedule d ∷ rest) = d + scheduled_ms rest
scheduled_ms (_ ∷ rest) = scheduled_ms rest

abbrev pub red_level : List LedCall → ℕ
red_level [] = 0
red_level (gpio_pin_set_dt led_red v ∷ rest) = v
red_level (_ ∷ rest) = red_level rest

abbrev pub red_on_ms : List LedCall → ℕ
red_on_ms [] = 0
red_on_ms (k_work_reschedule d ∷ rest) = red_level rest * d + red_on_ms rest
red_on_ms (_ ∷ rest) = red_on_ms rest

abbrev pub ticks : List ℕ → Led → Led
ticks [] s = s
ticks (now ∷ nows) s = ticks nows (tick_handler now s)

-- The delays of the next `k` phases after phase `i`, and those of them with red on.
abbrev phase_sum : ℕ → ℕ → ℕ → ℕ
phase_sum n i zero = 0
phase_sum n i (suc k) =
    let j = u32 (i + 1) % u32 (2 * n) in pulse_delay n (u32 (2 * n)) j + phase_sum n j k

abbrev on_sum : ℕ → ℕ → ℕ → ℕ
on_sum n i zero = 0
on_sum n i (suc k) =
    let j = u32 (i + 1) % u32 (2 * n) in
    (if j % 2 == 0 then 1 else 0) * pulse_delay n (u32 (2 * n)) j + on_sum n j k

abbrev phase_after : ℕ → ℕ → ℕ → ℕ
phase_after n i zero = i
phase_after n i (suc k) = phase_after n (u32 (i + 1) % u32 (2 * n)) k

abbrev Early : ℕ → List ℕ → Type 0
Early start nows = All (λ now. now < start + fatal_collapse_after_ms) nows

tick-pulse :
    (now : ℕ) (s : Led)
    → s.rendered ≡ fatal
    → now < s.fatal_start_ms + fatal_collapse_after_ms
    → tick_handler now s ≡ fatal_pulse_tick s
unfolding tick_handler tick_rendered fatal_tick
tick-pulse now s e h = rw e (ground arith)

-- What `k` ticks from phase `i` have added to the calls of `s`, ending at `t`.
abbrev Adds : Led → Led → ℕ → Type 0
Adds s t k =
    (scheduled_ms t.calls
      ≡ phase_sum s.fatal_flash_count s.fatal_phase_index k + scheduled_ms s.calls)
    × (red_on_ms t.calls ≡ on_sum s.fatal_flash_count s.fatal_phase_index k + red_on_ms s.calls)
    × (t.fatal_phase_index ≡ phase_after s.fatal_flash_count s.fatal_phase_index k)

regroup : (a b c : ℕ) → a + (b + c) ≡ b + a + c
regroup a b c = omega arith

ticks-Adds :
    (nows : List ℕ) (s : Led)
    → s.rendered ≡ fatal
    → Early s.fatal_start_ms nows
    → Adds s (ticks nows s) (length nows)
unfolding fatal_pulse_tick set_leds_rgb
ticks-Adds [] s e h = (omega arith, omega arith, refl)
ticks-Adds (now ∷ nows) s e h =
    let ih = ticks-Adds nows (fatal_pulse_tick s) e h.1 in
    subst (λ u. Adds s (ticks nows u) (suc (length nows))) (sym (tick-pulse now s e h.0))
      (
        ih.0 ∙ regroup (phase_sum _ _ (length nows)) _ _,
        ih.1 ∙ regroup (on_sum _ _ (length nows)) _ _,
        ih.2,
      )

-- The sums over one cycle, for each flash count.
cycle_sums :
    (n : ℕ)
    → 1 ≤ n
    → n ≤ 5
    → (phase_sum n 0 (2 * n) ≡ 5000)
      × (on_sum n 0 (2 * n) ≡ 100 * n)
      × (phase_after n 0 (2 * n) ≡ 0)
cycle_sums zero h k = absurd (omega arith)
cycle_sums (suc zero) h k = (refl, refl, refl)
cycle_sums (suc (suc zero)) h k = (refl, refl, refl)
cycle_sums (suc (suc (suc zero))) h k = (refl, refl, refl)
cycle_sums (suc (suc (suc (suc zero)))) h k = (refl, refl, refl)
cycle_sums (suc (suc (suc (suc (suc zero))))) h k = (refl, refl, refl)
cycle_sums (suc (suc (suc (suc (suc (suc n)))))) h k = absurd (omega arith)

-- In the first ten minutes, from the first phase on, the fatal pattern with a flash count N from 1
-- to 5 takes 2 N ticks to a cycle: the delays asked of the work queue add up to five seconds, red
-- is on for N of the 100 ms pulses (so at most a tenth of the time), and the next phase is the
-- first one again.
pub fatal_cycle :
    (nows : List ℕ) (s : Led)
    → ShowsFatal s
    → s.fatal_phase_index ≡ 0
    → Early s.fatal_start_ms nows
    → length nows ≡ 2 * s.fatal_flash_count
    → let t = ticks nows s in
      (scheduled_ms t.calls ≡ fatal_cycle_ms + scheduled_ms s.calls)
      × (red_on_ms t.calls ≡ 100 * s.fatal_flash_count + red_on_ms s.calls)
      × (t.fatal_phase_index ≡ 0)
fatal_cycle nows s h z e l =
    let n = s.fatal_flash_count in
    let sums = ticks-Adds nows s h.shown e in
    let whole = cycle_sums n h.at_least h.at_most in
    (
      sums.0 ∙ ap (λ x. x + scheduled_ms s.calls) (ap₂ (phase_sum n) z l ∙ whole.0),
      sums.1 ∙ ap (λ x. x + red_on_ms s.calls) (ap₂ (on_sum n) z l ∙ whole.1),
      sums.2 ∙ ap₂ (phase_after n) z l ∙ whole.2,
    )
