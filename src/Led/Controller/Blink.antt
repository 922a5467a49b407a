-- ===== src/Led/Controller/Blink.antt =====
-- The blinks that report a failed join and a confirmed erase: how many there are and how they end.
use n_rf52840_power_meter.Prelude.{
  ℕ, suc, ◌+◌, ◌*◌, ◌/◌, ◌%◌, ◌≡◌, ◌≢◌, inl, inr, refl, arith, sym, ◌∙◌, ap, true, false, ◌==◌,
  if◌then◌else◌, Bool-cases, List, [], ◌∷◌, length,
}
use n_rf52840_power_meter.Led.Priority.{
  Pattern, none, PriorityState, same, same→eq, same_refl, join_fail, erase_confirm, prio_join_fail,
  prio_erase_confirm,
}
use n_rf52840_power_meter.Led.Priority
use n_rf52840_power_meter.Led.Controller.{
  k_work_reschedule, set_leds_rgb, Led, reselect_if_changed_locked, led_request, call,
  render_start_locked, render_pattern, set_all_leds,
}
use n_rf52840_power_meter.Led.Controller.Tick.{
  tick_handler, tick_rendered, finish, join_fail_tick, erase_confirm_tick,
}
use mathlib.Core.Path.{subst}
use n_rf52840_power_meter.Led.Controller.Cycle.{scheduled_ms, red_level, red_on_ms, ticks}

-- One tick with `k + 1` toggles left, at a half period of `half` milliseconds: red goes on if that
-- number is even, and off otherwise.
abbrev pub toggled : ℕ → ℕ → Led → Led
toggled half k s =
    call (k_work_reschedule half) (set_leds_rgb (if suc k % 2 == 0 then 1 else 0) 0 0 s)

pub join_fail-tick :
    (now k : ℕ) (s : Led)
    → s.rendered ≡ join_fail
    → s.join_fail_ticks_remaining ≡ suc k
    → tick_handler now s ≡ toggled 200 k (record s { join_fail_ticks_remaining = k })
unfolding tick_handler tick_rendered join_fail_tick
join_fail-tick now k s e r = ap (λ p. tick_rendered p now s) e ∙ ground (arith, r)

pub erase_confirm-tick :
    (now k : ℕ) (s : Led)
    → s.rendered ≡ erase_confirm
    → s.erase_confirm_ticks_remaining ≡ suc k
    → tick_handler now s ≡ toggled 150 k (record s { erase_confirm_ticks_remaining = k })
unfolding tick_handler tick_rendered erase_confirm_tick
erase_confirm-tick now k s e r = ap (λ p. tick_rendered p now s) e ∙ ground (arith, r)

-- What `k` toggles add to the calls of `s`, ending at `t`: red is on for half of them, rounded down.
abbrev Toggles : ℕ → ℕ → Led → Led → Type 0
Toggles half k s t =
    (scheduled_ms t.calls ≡ half * k + scheduled_ms s.calls)
    × (red_on_ms t.calls ≡ half * (k / 2) + red_on_ms s.calls)

half_even : (k : ℕ) → suc k % 2 == 0 ≡ true → suc k / 2 ≡ k / 2 + 1
half_even k h = ground arith

half_odd : (k : ℕ) → suc k % 2 == 0 ≡ false → suc k / 2 ≡ k / 2
half_odd k h = ground arith

-- A toggle before `k` more.
toggled-Toggles :
    (half k : ℕ) (s t : Led) → Toggles half k (toggled half k s) t → Toggles half (suc k) s t
unfolding set_leds_rgb
toggled-Toggles half k s t h = elim (Bool-cases (suc k % 2 == 0)) [
  | inl even ↦ (grind (arith, h.0), rw even at h.1 ∙ rw (half_even k even) (grind arith))
  | inr odd ↦ (grind (arith, h.0), rw odd at h.1 ∙ rw (half_odd k odd) (grind arith))
]

no-Toggles : (half : ℕ) (s : Led) → Toggles half 0 s s
no-Toggles half s = (grind arith, grind arith)

-- All toggles of the pattern done, `k` of them since `s`.
abbrev JoinFailDone : ℕ → Led → Led → Type 0
JoinFailDone k s t =
    Toggles 200 k s t
    × (t.rendered ≡ join_fail)
    × (t.join_fail_ticks_remaining ≡ 0)
    × (t.state ≡ s.state)

join_fail-ticks :
    (nows : List ℕ) (s : Led)
    → s.rendered ≡ join_fail
    → s.join_fail_ticks_remaining ≡ length nows
    → JoinFailDone (length nows) s (ticks nows s)
unfolding set_leds_rgb
join_fail-ticks [] s e r = (no-Toggles 200 s, e, r, refl)
join_fail-ticks (now ∷ nows) s e r =
    let k = length nows in
    let s' = record s { join_fail_ticks_remaining = k } in
    let u = toggled 200 k s' in
    let ih : JoinFailDone k u (ticks nows u) = join_fail-ticks nows u e refl in
    subst (λ v. JoinFailDone (suc k) s (ticks nows v)) (sym (join_fail-tick now k s e r))
      (toggled-Toggles 200 k s' (ticks nows u) ih.0, ih.1, ih.2, ih.3)

-- All toggles of the pattern done, `k` of them since `s`.
abbrev EraseConfirmDone : ℕ → Led → Led → Type 0
EraseConfirmDone k s t =
    Toggles 150 k s t
    × (t.rendered ≡ erase_confirm)
    × (t.erase_confirm_ticks_remaining ≡ 0)
    × (t.state ≡ s.state)

erase_confirm-ticks :
    (nows : List ℕ) (s : Led)
    → s.rendered ≡ erase_confirm
    → s.erase_confirm_ticks_remaining ≡ length nows
    → EraseConfirmDone (length nows) s (ticks nows s)
unfolding set_leds_rgb
erase_confirm-ticks [] s e r = (no-Toggles 150 s, e, r, refl)
erase_confirm-ticks (now ∷ nows) s e r =
    let k = length nows in
    let s' = record s { erase_confirm_ticks_remaining = k } in
    let u = toggled 150 k s' in
    let ih : EraseConfirmDone k u (ticks nows u) = erase_confirm-ticks nows u e refl in
    subst (λ v. EraseConfirmDone (suc k) s (ticks nows v)) (sym (erase_confirm-tick now k s e r))
      (toggled-Toggles 150 k s' (ticks nows u) ih.0, ih.1, ih.2, ih.3)

-- The LED after a pattern has ended: nothing rendered or selected, all three colours off, and no
-- delay asked for since `s`.
record Dark (s t : Led) : Type 0 where
  pub idle : t.rendered ≡ none
  pub free : t.state ≡ Priority.init
  pub red_off : red_level t.calls ≡ 0
  pub no_delay : scheduled_ms t.calls ≡ scheduled_ms s.calls
  pub no_red : red_on_ms t.calls ≡ red_on_ms s.calls

cancel_self :
    (st : PriorityState) (p : Pattern) → st.active ≡ p → Priority.cancel st p ≡ Priority.init
unfolding Priority.cancel Priority.init
cancel_self st p a = rw (← a, same_refl st.active) refl

reselect_idle :
    (s : Led)
    → s.rendered ≢ none
    → Dark s (reselect_if_changed_locked (record s { state = Priority.init }))
unfolding Priority.selected Priority.init reselect_if_changed_locked render_start_locked
    render_pattern set_all_leds set_leds_rgb
reselect_idle s ne = elim (Bool-cases (same none s.rendered)) [
  | inl e ↦ absurd (ne (sym (same→eq none s.rendered e)))
  | inr e ↦
      rw e
        (record { idle = refl; free = refl; red_off = refl; no_delay = refl; no_red = omega arith })
]

finish-Dark : (p : Pattern) (s : Led) → s.rendered ≢ none → s.state.active ≡ p → Dark s (finish p s)
unfolding finish
finish-Dark p s ne a =
    subst (λ st. Dark s (reselect_if_changed_locked (record s { state = st })))
      (sym (cancel_self s.state p a)) (reselect_idle s ne)

-- An initialised controller with nothing to show, whatever its other variables hold.
abbrev pub idle : Led → Led
idle s = record s { state = Priority.init; rendered = none }

join_fail-started :
    (s : Led)
    → let u = led_request join_fail prio_join_fail (idle s) in
      (u.rendered ≡ join_fail)
      × (u.state.active ≡ join_fail)
      × (u.join_fail_ticks_remaining ≡ 5)
      × (scheduled_ms u.calls ≡ 200 + scheduled_ms s.calls)
      × (red_on_ms u.calls ≡ 200 + red_on_ms s.calls)
unfolding led_request Priority.request Priority.selected Priority.init reselect_if_changed_locked
    render_start_locked render_pattern set_leds_rgb
join_fail-started s = (refl, refl, refl, refl, omega arith)

-- The tick after the last toggle ends the pattern.
join_fail-last :
    (last : ℕ) (s : Led)
    → s.rendered ≡ join_fail
    → s.state.active ≡ join_fail
    → s.join_fail_ticks_remaining ≡ 0
    → Dark s (tick_handler last s)
unfolding tick_handler tick_rendered join_fail_tick
join_fail-last last s e a z =
    subst (Dark s) (sym (ap (λ p. tick_rendered p last s) e ∙ ground (arith, z)))
      (finish-Dark join_fail s (λ n. cc (e, n)) a)

erase_confirm-started :
    (s : Led)
    → let u = led_request erase_confirm prio_erase_confirm (idle s) in
      (u.rendered ≡ erase_confirm)
      × (u.state.active ≡ erase_confirm)
      × (u.erase_confirm_ticks_remaining ≡ 7)
      × (scheduled_ms u.calls ≡ 150 + scheduled_ms s.calls)
      × (red_on_ms u.calls ≡ 150 + red_on_ms s.calls)
unfolding led_request Priority.request Priority.selected Priority.init reselect_if_changed_locked
    render_start_locked render_pattern set_leds_rgb
erase_confirm-started s = (refl, refl, refl, refl, omega arith)

-- The tick after the last toggle ends the pattern.
erase_confirm-last :
    (last : ℕ) (s : Led)
    → s.rendered ≡ erase_confirm
    → s.state.active ≡ erase_confirm
    → s.erase_confirm_ticks_remaining ≡ 0
    → Dark s (tick_handler last s)
unfolding tick_handler tick_rendered erase_confirm_tick
erase_confirm-last last s e a z =
    subst (Dark s) (sym (ap (λ p. tick_rendered p last s) e ∙ ground (arith, z)))
      (finish-Dark erase_confirm s (λ n. cc (e, n)) a)

-- What a blinking pattern has done to an idle LED: it is idle and dark again, after `blinks` blinks
-- with red on for `half` milliseconds and off for as long.
pub record Blinks (half blinks : ℕ) (s t : Led) : Type 0 where
  pub ended : t.rendered ≡ none
  pub free : t.state ≡ Priority.init
  pub dark : red_level t.calls ≡ 0
  pub red_ms : red_on_ms t.calls ≡ half * blinks + red_on_ms s.calls
  pub total_ms : scheduled_ms t.calls ≡ half * (2 * blinks) + scheduled_ms s.calls

-- A failed join shows three red blinks of 200 ms: requested on an idle LED, the pattern takes six
-- ticks, at whatever uptimes they come, and leaves the LED idle and dark.
pub join_fail-Blinks :
    (s : Led) (nows : List ℕ) (last : ℕ)
    → length nows ≡ 5
    → Blinks 200 3 s
        (tick_handler last (ticks nows (led_request join_fail prio_join_fail (idle s))))
join_fail-Blinks s nows last l =
    let u = led_request join_fail prio_join_fail (idle s) in
    let start = join_fail-started s in
    let run = join_fail-ticks nows u start.0 (start.2 ∙ sym l) in
    let d =
      join_fail-last last (ticks nows u) run.1
        (ap (λ (x : PriorityState). x.active) run.3 ∙ start.1) run.2 in
    record {
      ended = d.idle;
      free = d.free;
      dark = d.red_off;
      red_ms = omega (arith, d.no_red, run.0.1, start.4);
      total_ms = omega (arith, d.no_delay, run.0.0, start.3);
    }

-- A confirmed erase shows four red blinks of 150 ms in eight ticks, and leaves the LED idle and dark.
erase_confirm-Blinks :
    (s : Led) (nows : List ℕ) (last : ℕ)
    → length nows ≡ 7
    → Blinks 150 4 s
        (tick_handler last (ticks nows (led_request erase_confirm prio_erase_confirm (idle s))))
erase_confirm-Blinks s nows last l =
    let u = led_request erase_confirm prio_erase_confirm (idle s) in
    let start = erase_confirm-started s in
    let run = erase_confirm-ticks nows u start.0 (start.2 ∙ sym l) in
    let d =
      erase_confirm-last last (ticks nows u) run.1
        (ap (λ (x : PriorityState). x.active) run.3 ∙ start.1) run.2 in
    record {
      ended = d.idle;
      free = d.free;
      dark = d.red_off;
      red_ms = omega (arith, d.no_red, run.0.1, start.4);
      total_ms = omega (arith, d.no_delay, run.0.0, start.3);
    }
