-- ===== src/Led/Controller/Sync.antt =====
-- What the LED shows is what the arbiter selects, after any calls and ticks.
use n_rf52840_power_meter.Prelude.{
  ℕ, ◌≡◌, ◌≢◌, ◌⊎◌, inl, inr, refl, arith, sym, ◌∙◌, ap, ◌==◌, Bool-cases, List, [], ◌∷◌,
}
use n_rf52840_power_meter.Led.Priority.{
  Pattern, none, fatal, joining, join_success, join_fail, erase_confirm, button_ack, heartbeat,
  PriorityState, same, same→eq,
}
use n_rf52840_power_meter.Led.Priority
use n_rf52840_power_meter.Led.Controller.{
  Led, render_start_locked, reselect_if_changed_locked, led_request, led_cancel, led_request_fatal,
}
use n_rf52840_power_meter.Led.Controller.Tick.{
  tick_handler, tick_rendered, finish, fatal_tick, fatal_collapsed_tick, fatal_pulse_tick,
  join_fail_tick, erase_confirm_tick,
}

-- The calls and the timer expiries that reach the controller, in some order.
pub data LedOp : Type 0 where
  request : Pattern → ℕ → LedOp
  cancel : Pattern → LedOp
  request_fatal : ℕ → ℕ → LedOp
  tick : ℕ → LedOp

unfoldable pub apply : LedOp → Led → Led
apply (request p prio) s = led_request p prio s
apply (cancel p) s = led_cancel p s
apply (request_fatal n now) s = led_request_fatal n now s
apply (tick now) s = tick_handler now s

abbrev pub run : List LedOp → Led → Led
run [] s = s
run (op ∷ ops) s = run ops (apply op s)

abbrev pub InSync : Led → Type 0
InSync s = s.rendered ≡ Priority.selected s.state

-- The fields that rendering does not write.
abbrev Kept : Led → Led → Type 0
Kept s t =
    (t.state ≡ s.state)
    × (t.rendered ≡ s.rendered)
    × (t.fatal_flash_count ≡ s.fatal_flash_count)
    × (t.fatal_start_ms ≡ s.fatal_start_ms)

render_start-Kept : (p : Pattern) (s : Led) → Kept s (render_start_locked p s)
unfolding render_start_locked
render_start-Kept none s = (refl, refl, refl, refl)
render_start-Kept _ s = (refl, refl, refl, refl)

pub reselect_lem :
    (s : Led)
    → let t = reselect_if_changed_locked s in
      (t.state ≡ s.state)
      × (t.rendered ≡ s.state.active)
      × (t.fatal_flash_count ≡ s.fatal_flash_count)
unfolding reselect_if_changed_locked Priority.selected
reselect_lem s = elim (Bool-cases (same s.state.active s.rendered)) [
  | inl e ↦ rw e (refl, sym (same→eq s.state.active s.rendered e), refl)
  | inr e ↦
      let k = render_start-Kept s.state.active (record s { rendered = s.state.active }) in
      rw e (k.0, k.1, k.2)
]

pub finish_lem :
    (p : Pattern) (s : Led)
    → InSync (finish p s)
      × ((finish p s).state ≡ Priority.cancel s.state p)
      × ((finish p s).fatal_flash_count ≡ s.fatal_flash_count)
unfolding finish Priority.selected
finish_lem p s =
    let r = reselect_lem (record s { state = Priority.cancel s.state p }) in
    (r.1 ∙ ap (λ (x : PriorityState). x.active) (sym r.0), r.0, r.2)

fatal_tick-Kept : (now : ℕ) (s : Led) → Kept s (fatal_tick now s)
unfolding fatal_tick fatal_collapsed_tick fatal_pulse_tick
fatal_tick-Kept now s = ground arith

-- A tick leaves the arbiter and the rendering alone, or ends the pattern that is rendered.
abbrev TickOutcome : Pattern → Led → Led → Type 0
TickOutcome p s t = Kept s t ⊎ ((p ≢ fatal) × (t ≡ finish p s))

join_fail_tick-outcome : (s : Led) → TickOutcome join_fail s (join_fail_tick s)
unfolding join_fail_tick
join_fail_tick-outcome s = elim (Bool-cases (s.join_fail_ticks_remaining == 0)) [
  | inl e ↦ inr (λ (h : join_fail ≡ fatal). cc, rw e refl)
  | inr e ↦ inl (rw e (refl, refl, refl, refl))
]

erase_confirm_tick-outcome : (s : Led) → TickOutcome erase_confirm s (erase_confirm_tick s)
unfolding erase_confirm_tick
erase_confirm_tick-outcome s = elim (Bool-cases (s.erase_confirm_ticks_remaining == 0)) [
  | inl e ↦ inr (λ (h : erase_confirm ≡ fatal). cc, rw e refl)
  | inr e ↦ inl (rw e (refl, refl, refl, refl))
]

tick_rendered-outcome : (p : Pattern) (now : ℕ) (s : Led) → TickOutcome p s (tick_rendered p now s)
unfolding tick_rendered
tick_rendered-outcome button_ack now s = inr (λ (h : button_ack ≡ fatal). cc, refl)
tick_rendered-outcome joining now s = inl (refl, refl, refl, refl)
tick_rendered-outcome join_success now s = inr (λ (h : join_success ≡ fatal). cc, refl)
tick_rendered-outcome join_fail now s = join_fail_tick-outcome s
tick_rendered-outcome erase_confirm now s = erase_confirm_tick-outcome s
tick_rendered-outcome heartbeat now s = inr (λ (h : heartbeat ≡ fatal). cc, refl)
tick_rendered-outcome fatal now s = inl (fatal_tick-Kept now s)
tick_rendered-outcome _ now s = inl (refl, refl, refl, refl)

pub tick_handler-outcome : (now : ℕ) (s : Led) → TickOutcome s.rendered s (tick_handler now s)
unfolding tick_handler
tick_handler-outcome now s = tick_rendered-outcome s.rendered now s

pub reselect-InSync : (s : Led) → InSync (reselect_if_changed_locked s)
unfolding Priority.selected
reselect-InSync s =
    (reselect_lem s).1 ∙ ap (λ (x : PriorityState). x.active) (sym (reselect_lem s).0)

pub apply-InSync : (op : LedOp) (s : Led) → InSync s → InSync (apply op s)
unfolding apply led_request led_cancel led_request_fatal
apply-InSync (request p prio) s h = reselect-InSync _
apply-InSync (cancel p) s h = reselect-InSync _
apply-InSync (request_fatal n now) s h = reselect-InSync _
apply-InSync (tick now) s h = elim (tick_handler-outcome now s) [
  | inl k ↦ k.1 ∙ h ∙ ap Priority.selected (sym k.0)
  | inr e ↦ rw e.1 (finish_lem s.rendered s).0
]

-- A request or a cancel leaves the LED in sync, whatever it was before.
pub led_request-InSync : (p : Pattern) (prio : ℕ) (s : Led) → InSync (led_request p prio s)
unfolding led_request
led_request-InSync p prio s = reselect-InSync _

pub led_cancel-InSync : (p : Pattern) (s : Led) → InSync (led_cancel p s)
unfolding led_cancel
led_cancel-InSync p s = reselect-InSync _

pub tick_handler-InSync : (now : ℕ) (s : Led) → InSync s → InSync (tick_handler now s)
unfolding apply
tick_handler-InSync now s h = apply-InSync (tick now) s h

-- From any state in which the rendered pattern is the selected one, as after initialisation, every
-- sequence of requests, cancels, fatal requests and timer ticks leaves the LED rendering exactly
-- the pattern that the arbiter selects.
pub run-InSync : (ops : List LedOp) (s : Led) → InSync s → InSync (run ops s)
run-InSync [] s h = h
run-InSync (op ∷ ops) s h = run-InSync ops (apply op s) (apply-InSync op s h)
