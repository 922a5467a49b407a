-- ===== src/Main/Press/Gesture.antt =====
-- A press and its release, from the two edges to what the dispatch thread asks of ZBOSS.
use n_rf52840_power_meter.Prelude.{
  ℕ, ◌+◌, ◌≤◌, ◌<◌, ◌≡◌, ◌⊎◌, inl, inr, refl, arith, sym, ◌∙◌, ap, Bool, true, false, not,
  if◌then◌else◌, u32, ◌∷◌,
}
use mathlib.Core.Path.{subst}
use n_rf52840_power_meter.Prelude.Int.{ℤ, pos, ◌-ℤ◌}
use n_rf52840_power_meter.Config.{Config}
use n_rf52840_power_meter.Button.{
  classify, Action, ignore, join, wake, factory_reset, action_for_press,
}
use n_rf52840_power_meter.Button
use n_rf52840_power_meter.Button.Bands.{press, press_iff}
use n_rf52840_power_meter.Led.Priority.{long_press_hold, button_ack, prio_button_ack}
use n_rf52840_power_meter.Led.Controller.{led_request, led_cancel}
use n_rf52840_power_meter.Zigbee.{
  Zboss, Zb, call, schedule_app_callback, factory_reset_cb, start_steering_cb, wake_turbo_poll_cb,
}
use n_rf52840_power_meter.Zigbee.Signals.{Node, on_led, start_join, wake_for_write, is_joined}
use n_rf52840_power_meter.Zigbee.Signals
use n_rf52840_power_meter.Main.{button_short_max_ms, button_long_min_ms}
use n_rf52840_power_meter.Main.Press.{Panel, clamp_duration, user_button_isr, act, button_dispatch}

-- A press at uptime `start` that is released `d` milliseconds later, and then dispatched.
abbrev pub gesture : Zboss → Config → (Node → Node) → ℕ → ℕ → Panel → Panel
gesture z c meanwhile start d s =
    button_dispatch z c meanwhile
      (user_button_isr (pos (start + d)) (pos 0) (user_button_isr (pos start) (pos 1) s))

-- What a gesture of `d` milliseconds asks of ZBOSS, from the node `n` to the node `t`: the three
-- bands of the duration, with the short one split by the join state.
abbrev pub Asked : Config → (Node → Node) → ℕ → Node → Node → Type 0
Asked c meanwhile d n t =
    ((button_long_min_ms ≤ d) × (t.zb ≡ call (schedule_app_callback factory_reset_cb) n.zb))
    ⊎ ((0 < d)
        × (d < button_short_max_ms)
        × (n.zb.joined ≡ false)
        × (t.zb.user_join_in_flight ≡ 1)
        × (t.zb.calls
            ≡ schedule_app_callback start_steering_cb
              ∷ (meanwhile (on_led (led_request button_ack prio_button_ack) n)).zb.calls))
    ⊎ ((0 < d)
        × (d < button_short_max_ms)
        × (n.zb.joined ≡ true)
        × (t.zb ≡ (
            if c.zigbee_sleepy_ed
            then call (schedule_app_callback wake_turbo_poll_cb) n.zb
            else n.zb)))
    ⊎ (((d ≡ 0) ⊎ ((button_short_max_ms ≤ d) × (d < button_long_min_ms))) × (t.zb ≡ n.zb))

-- The clamp of the duration keeps its band.
classify-clamp :
    (start d : ℕ)
    → let c = Button.init button_short_max_ms button_long_min_ms in
      classify c (u32 (clamp_duration (pos (start + d) -ℤ pos start))) ≡ classify c d
unfolding Button.init classify ◌-ℤ◌
classify-clamp start d = ground arith

Action-cases : (a : Action) → (a ≡ ignore) ⊎ (a ≡ join) ⊎ (a ≡ wake) ⊎ (a ≡ factory_reset)
Action-cases ignore = inl refl
Action-cases join = inr (inl refl)
Action-cases wake = inr (inr (inl refl))
Action-cases factory_reset = inr (inr (inr refl))

if-not : {A : Type 0} (x : Bool) (s t : A) → (if not x then s else t) ≡ (if x then t else s)
if-not true s t = refl
if-not false s t = refl

wake_for_write-joined :
    (z : Zboss) (c : Config) (s : Zb)
    → s.joined ≡ true
    → wake_for_write z c s
      ≡ (if c.zigbee_sleepy_ed then call (schedule_app_callback wake_turbo_poll_cb) s else s)
unfolding wake_for_write
wake_for_write-joined z c s j =
    let woken = call (schedule_app_callback wake_turbo_poll_cb) s in
    ap (λ x. if not c.zigbee_sleepy_ed then s else if not x then s else woken) j
    ∙ if-not c.zigbee_sleepy_ed s woken

module _ (z : Zboss) (c : Config) (meanwhile : Node → Node) where
  act-Asked :
      (d : ℕ) (n : Node)
      → Asked c meanwhile d n (
          act z c meanwhile
            (press (Button.init button_short_max_ms button_long_min_ms) n.zb.joined d)
            n)
  unfolding act Signals.factory_reset start_join
  act-Asked d n =
      let a = press (Button.init button_short_max_ms button_long_min_ms) n.zb.joined d in
      let bands =
        press_iff button_short_max_ms button_long_min_ms n.zb.joined d (omega arith)
          (omega arith) in
      let does = λ (x : Action). act z c meanwhile x n in
      elim (Action-cases a) [
        | inl e ↦ inr (inr (inr ((bands.3).0 e, ap (λ x. (does x).zb) e)))
        | inr (inl e) ↦
            let s = (bands.1).0 e in
            inr (
              inl (
                s.1,
                s.2,
                s.0,
                ap (λ x. (does x).zb.user_join_in_flight) e,
                ap (λ x. (does x).zb.calls) e,
              ))
        | inr (inr (inl e)) ↦
            let s = (bands.2).0 e in
            inr (
              inr
                (inl (s.1, s.2, s.0, ap (λ x. (does x).zb) e ∙ wake_for_write-joined z c n.zb s.0)))
        | inr (inr (inr e)) ↦ inl ((bands.0).0 e, ap (λ x. (does x).zb) e)
      ]

  -- A release, `d` milliseconds after the start that the interrupt has noted.
  pub release-Asked :
      (start d : ℕ) (s : Panel)
      → s.press_start_ms ≡ pos start
      → s.classifier ≡ Button.init button_short_max_ms button_long_min_ms
      → let n = on_led (led_cancel long_press_hold) s.node in
        Asked c meanwhile d n
          (button_dispatch z c meanwhile (user_button_isr (pos (start + d)) (pos 0) s)).node
  unfolding button_dispatch user_button_isr is_joined
  release-Asked start d s noted cl =
      let n = on_led (led_cancel long_press_hold) s.node in
      let since : ℤ → ℕ = λ t. u32 (clamp_duration (pos (start + d) -ℤ t)) in
      let e =
        ap (λ t. classify s.classifier (since t)) noted
        ∙ ap (λ k. classify k (since (pos start))) cl
        ∙ classify-clamp start d in
      subst (λ k. Asked c meanwhile d n (act z c meanwhile (action_for_press k n.zb.joined) n))
        (sym e) (act-Asked d n)

  -- With the bands of 1 s and 3 s, a press of `d` milliseconds asks ZBOSS for exactly one thing: a
  -- factory reset from 3000 ms on; below 1000 ms, and not at 0, to join where the device is not in
  -- a network, and to open the wake window on a sleepy device where it is; nothing otherwise. The
  -- duration may be any, since its clamp to INT32_MAX stays in the long band.
  pub gesture-Asked :
      (start d : ℕ) (s : Panel)
      → s.classifier ≡ Button.init button_short_max_ms button_long_min_ms
      → let n = on_led (led_cancel long_press_hold) s.node in
        Asked c meanwhile d n (gesture z c meanwhile start d s).node
  unfolding user_button_isr
  gesture-Asked start d s cl = release-Asked start d (user_button_isr (pos start) (pos 1) s) refl cl
