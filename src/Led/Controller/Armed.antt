-- ===== src/Led/Controller/Armed.antt =====
-- The LED's timer is set whenever the pattern that shows needs it.
use n_rf52840_power_meter.Prelude.{
  ℕ, ◌≡◌, inl, inr, refl, arith, sym, Bool, true, false, ◌==◌, if◌then◌else◌, Bool-cases, List, [],
  ◌∷◌,
}
use mathlib.Core.Path.{subst}
use n_rf52840_power_meter.Led.Priority.{
  Pattern, none, fatal, long_press_hold, joining, join_success, join_fail, erase_confirm,
  button_ack, heartbeat, count, same,
}
use n_rf52840_power_meter.Led.Priority
use n_rf52840_power_meter.Led.Controller.{
  Led, LedCall, k_work_reschedule, k_work_cancel_delayable, set_leds_rgb, set_all_leds, call,
  render_start_locked, render_pattern, reselect_if_changed_locked, led_request, led_cancel,
  led_request_fatal,
}
use n_rf52840_power_meter.Led.Controller.Tick.{
  tick_handler, tick_rendered, finish, join_fail_tick, erase_confirm_tick, fatal_tick,
  fatal_collapsed_tick, fatal_pulse_tick,
}
use n_rf52840_power_meter.Led.Controller.Sync.{
  InSync, LedOp, request, cancel, request_fatal, tick, apply, tick_handler-InSync, apply-InSync,
}
use n_rf52840_power_meter.Led.Controller.Ends.{finish-Idle}

-- The patterns that change by themselves.
abbrev pub Ticking : Pattern → Type 0
Ticking none = ⊥
Ticking long_press_hold = ⊥
Ticking count = ⊥
Ticking _ = Unit

-- Whether the delayed work is scheduled after these calls, the latest first.
abbrev pub armed : List LedCall → Bool
armed [] = false
armed (k_work_reschedule d ∷ rest) = true
armed (k_work_cancel_delayable ∷ rest) = false
armed (_ ∷ rest) = armed rest

-- An expiry leaves the work unscheduled, as a cancel does, before the handler runs.
abbrev pub timed : LedOp → Led → Led
timed (tick now) s = tick_handler now (call k_work_cancel_delayable s)
timed op s = apply op s

abbrev pub run_timed : List LedOp → Led → Led
run_timed [] s = s
run_timed (op ∷ ops) s = run_timed ops (timed op s)

abbrev pub Armed : Led → Type 0
Armed s = Ticking s.rendered → armed s.calls ≡ true

render_start-Armed : (p : Pattern) (s : Led) → s.rendered ≡ p → Armed (render_start_locked p s)
unfolding render_start_locked render_pattern set_leds_rgb set_all_leds
render_start-Armed none s e t = absurd (subst Ticking e t)
render_start-Armed long_press_hold s e t = absurd (subst Ticking e t)
render_start-Armed count s e t = absurd (subst Ticking e t)
render_start-Armed _ s e t = refl

reselect-Armed : (s : Led) → Armed s → Armed (reselect_if_changed_locked s)
unfolding reselect_if_changed_locked
reselect-Armed s h =
    let p = Priority.selected s.state in
    elim (Bool-cases (same p s.rendered)) [
      | inl e ↦
          subst (λ x. Armed (if x then s else render_start_locked p (record s { rendered = p })))
            (sym e) h
      | inr e ↦
          subst (λ x. Armed (if x then s else render_start_locked p (record s { rendered = p })))
            (sym e) (render_start-Armed p (record s { rendered = p }) refl)
    ]

finish-Armed : (p : Pattern) (s : Led) → InSync s → s.rendered ≡ p → Armed (finish p s)
finish-Armed p s h e t = absurd (subst Ticking (finish-Idle p s h e).0 t)

join_fail_tick-Armed : (s : Led) → InSync s → s.rendered ≡ join_fail → Armed (join_fail_tick s)
unfolding join_fail_tick
join_fail_tick-Armed s h e = elim (Bool-cases (s.join_fail_ticks_remaining == 0)) [
  | inl x ↦ rw x (finish-Armed join_fail s h e)
  | inr x ↦ rw x (λ t. refl)
]

erase_confirm_tick-Armed :
    (s : Led) → InSync s → s.rendered ≡ erase_confirm → Armed (erase_confirm_tick s)
unfolding erase_confirm_tick
erase_confirm_tick-Armed s h e = elim (Bool-cases (s.erase_confirm_ticks_remaining == 0)) [
  | inl x ↦ rw x (finish-Armed erase_confirm s h e)
  | inr x ↦ rw x (λ t. refl)
]

fatal_tick-armed : (now : ℕ) (s : Led) → armed (fatal_tick now s).calls ≡ true
unfolding fatal_tick fatal_collapsed_tick fatal_pulse_tick
fatal_tick-armed now s = ground arith

tick_rendered-Armed :
    (p : Pattern) (now : ℕ) (s : Led) → InSync s → s.rendered ≡ p → Armed (tick_rendered p now s)
unfolding tick_rendered
tick_rendered-Armed button_ack now s h e = finish-Armed button_ack s h e
tick_rendered-Armed joining now s h e = λ t. refl
tick_rendered-Armed join_success now s h e = finish-Armed join_success s h e
tick_rendered-Armed join_fail now s h e = join_fail_tick-Armed s h e
tick_rendered-Armed erase_confirm now s h e = erase_confirm_tick-Armed s h e
tick_rendered-Armed heartbeat now s h e = finish-Armed heartbeat s h e
tick_rendered-Armed fatal now s h e = λ t. fatal_tick-armed now s
tick_rendered-Armed none now s h e = λ t. absurd (subst Ticking e t)
tick_rendered-Armed long_press_hold now s h e = λ t. absurd (subst Ticking e t)
tick_rendered-Armed count now s h e = λ t. absurd (subst Ticking e t)

timed-Armed : (op : LedOp) (s : Led) → InSync s → Armed s → InSync (timed op s) × Armed (timed op s)
unfolding apply led_request led_cancel led_request_fatal tick_handler
timed-Armed (request p prio) s h a = (apply-InSync (request p prio) s h, reselect-Armed _ a)
timed-Armed (cancel p) s h a = (apply-InSync (cancel p) s h, reselect-Armed _ a)
timed-Armed (request_fatal n now) s h a =
    (apply-InSync (request_fatal n now) s h, reselect-Armed _ a)
timed-Armed (tick now) s h a =
    let expired = call k_work_cancel_delayable s in
    (tick_handler-InSync now expired h, tick_rendered-Armed s.rendered now expired h refl)

run_timed-Armed : (ops : List LedOp) (s : Led) → InSync s → Armed s → Armed (run_timed ops s)
run_timed-Armed [] s h a = a
run_timed-Armed (op ∷ ops) s h a =
    let k = timed-Armed op s h a in run_timed-Armed ops (timed op s) k.0 k.1

-- No pattern sticks: from an LED that is in sync and shows nothing, as after initialisation, after
-- any sequence of requests, cancels, fatal requests and expiries, each of which leaves the timer
-- unset when its handler begins, the timer is set if what shows is a pattern that changes by itself.
pub armed-run_timed :
    (ops : List LedOp) (s : Led)
    → InSync s
    → s.rendered ≡ none
    → Ticking (run_timed ops s).rendered
    → armed (run_timed ops s).calls ≡ true
armed-run_timed ops s h e = run_timed-Armed ops s h (λ t. absurd (subst Ticking e t))
