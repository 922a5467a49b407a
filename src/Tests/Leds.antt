-- ===== src/Tests/Leds.antt =====
-- Runs of the LED arbiter and its renderer.
use n_rf52840_power_meter.Prelude.{
  ℕ, ◌+◌, ◌*◌, ◌<◌, ◌≡◌, inl, refl, arith, true, List, [], ◌∷◌, sym,
}
use n_rf52840_power_meter.Led.Priority.{
  Pattern, id, fatal, joining, join_fail, button_ack, heartbeat, request, selected, prio_joining,
  prio_join_fail, join_success, prio_join_success,
}
use n_rf52840_power_meter.Led.Priority
use n_rf52840_power_meter.Led.Priority.Arbiter.{Request, request_all, Strongest, Strongest-wins}
use n_rf52840_power_meter.Led.Priority.Order.{own, ask, holding, request-holding}
use mathlib.Core.Quot
use n_rf52840_power_meter.Led.Controller.{
  Led, boot, led_request, led_request_fatal, fatal_cycle_ms, reselect_if_changed_locked,
  render_start_locked, set_leds_rgb,
}
use n_rf52840_power_meter.Led.Controller.Tick.{tick_handler, tick_rendered}
use n_rf52840_power_meter.Led.Controller.Sync
use n_rf52840_power_meter.Led.Controller.Sync.{
  LedOp, run, InSync, run-InSync, apply, led_request-InSync,
}
use n_rf52840_power_meter.Led.Controller.Fatal.{ShowsFatal, fatal_persists}
use n_rf52840_power_meter.Led.Controller.Cycle.{scheduled_ms, red_on_ms, ticks, fatal_cycle}
use mathlib.Core.Path.{subst}
use n_rf52840_power_meter.Led.Controller.Ends.{Idle, Transient-ends}
use n_rf52840_power_meter.Led.Controller.Armed.{Ticking, armed, run_timed, armed-run_timed}
use n_rf52840_power_meter.Led.Controller.Blink.{idle, Blinks, join_fail-Blinks}

abbrev contested : List Request
contested = (button_ack, 7) ∷ (joining, 3) ∷ (heartbeat, 8) ∷ []

Strongest-wins_example : Strongest (request_all Priority.init contested) contested
Strongest-wins_example =
    Strongest-wins button_ack 7 ((joining, 3) ∷ (heartbeat, 8) ∷ []) (refl, (refl, (refl, tt)))

abbrev asked_twice : List Pattern
asked_twice = button_ack ∷ (joining ∷ (button_ack ∷ []))

request-holding_example :
    let s = holding (Quot.mk asked_twice) in
    (s ≡ request_all Priority.init (own asked_twice))
    × ((request s join_fail (id join_fail)).1 ≡ holding (ask join_fail (Quot.mk asked_twice)))
request-holding_example = request-holding join_fail (Quot.mk asked_twice) asked_twice refl

-- A join is asked for and fails, a fatal error comes up, and the timer expires in between.
abbrev session : List LedOp
session =
    Sync.request joining 3
    ∷ (Sync.tick 500 ∷ (Sync.cancel joining ∷ (Sync.request join_fail 5 ∷ (Sync.tick 700 ∷ []))))

run-InSync_example : InSync (run session boot)
unfolding selected
run-InSync_example = run-InSync session boot refl

fatal_persists_example : ShowsFatal (run session (led_request_fatal 4 1000 boot))
fatal_persists_example =
    fatal_persists 4 1000 boot session (inl refl)
      (omega arith, (tt, ((λ (e : joining ≡ fatal). cc), (omega arith, (tt, tt)))))

-- A fatal request with two flashes on a fresh controller.
abbrev two_flashes : Led
two_flashes = led_request_fatal 2 0 boot

two_flashes-start : two_flashes.fatal_phase_index ≡ 0
unfolding led_request_fatal request reselect_if_changed_locked selected render_start_locked
    set_leds_rgb
two_flashes-start = refl

two_flashes-early : (n : ℕ) → n < 600000 → n < two_flashes.fatal_start_ms + 600000
unfolding led_request_fatal request reselect_if_changed_locked selected render_start_locked
    set_leds_rgb
two_flashes-early n h = h

two_flashes-count : 4 ≡ 2 * two_flashes.fatal_flash_count
unfolding led_request_fatal request reselect_if_changed_locked selected render_start_locked
    set_leds_rgb
two_flashes-count = refl

fatal_cycle_example :
    let s = led_request_fatal 2 0 boot in
    let t = ticks (100 ∷ 200 ∷ 300 ∷ 400 ∷ []) s in
    (scheduled_ms t.calls ≡ fatal_cycle_ms + scheduled_ms s.calls)
    × (red_on_ms t.calls ≡ 100 * s.fatal_flash_count + red_on_ms s.calls)
    × (t.fatal_phase_index ≡ 0)
fatal_cycle_example =
    fatal_cycle (100 ∷ 200 ∷ 300 ∷ 400 ∷ []) (led_request_fatal 2 0 boot)
      (fatal_persists 2 0 boot [] (inl refl) tt) two_flashes-start
      (
        two_flashes-early 100 (omega arith),
        (
          two_flashes-early 200 (omega arith),
          (two_flashes-early 300 (omega arith), (two_flashes-early 400 (omega arith), tt)),
        ),
      )
      two_flashes-count

join_fail-Blinks_example : Blinks 200 3 boot (
    tick_handler 1200 (
      ticks (200 ∷ 400 ∷ 600 ∷ 800 ∷ 1000 ∷ []) (led_request join_fail prio_join_fail (idle boot))))
join_fail-Blinks_example = join_fail-Blinks boot (200 ∷ 400 ∷ 600 ∷ 800 ∷ 1000 ∷ []) 1200 refl

-- A join that succeeds shows for one expiry.
abbrev joined_led : Led
joined_led = led_request join_success prio_join_success boot

joined-shown : joined_led.rendered ≡ join_success
unfolding led_request Priority.request reselect_if_changed_locked render_start_locked selected
joined-shown = refl

Transient-ends_example : Idle (ticks (2000 ∷ []) joined_led)
Transient-ends_example =
    Transient-ends join_success (2000 ∷ []) joined_led tt
      (led_request-InSync join_success prio_join_success boot) joined-shown refl

boot-InSync : InSync boot
unfolding selected
boot-InSync = refl

abbrev busy : List LedOp
busy = Sync.request joining prio_joining ∷ (Sync.tick 500 ∷ (Sync.tick 1000 ∷ []))

busy-shown : (run_timed busy boot).rendered ≡ joining
unfolding apply led_request tick_handler tick_rendered reselect_if_changed_locked Priority.request
    selected render_start_locked
busy-shown = refl

armed-run_timed_example : armed (run_timed busy boot).calls ≡ true
armed-run_timed_example =
    armed-run_timed busy boot boot-InSync refl (subst Ticking (sym busy-shown) tt)
