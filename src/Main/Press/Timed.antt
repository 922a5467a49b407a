-- ===== src/Main/Press/Timed.antt =====
-- The button of src/main.c over time: the edges, the delayed work of the hold indicator and the uptime.
use n_rf52840_power_meter.Prelude.{
  ℕ, ◌+◌, ◌-◌, ◌≤◌, ◌<◌, ◌≡◌, ◌⊎◌, inl, inr, refl, arith, sym, ◌∙◌, ap, Bool, true, false, ◌≢◌,
  ◌&&◌, Bool-cases, List, [], ◌∷◌,
}
use mathlib.Core.Path.{subst}
use mathlib.Core.Option.{Option, some, none}
use n_rf52840_power_meter.Prelude.Int.{ℤ, pos}
use n_rf52840_power_meter.Config.{Config}
use n_rf52840_power_meter.Button
use n_rf52840_power_meter.Led.Priority.{long_press_hold}
use n_rf52840_power_meter.Led.Controller.{Led, led_cancel}
use n_rf52840_power_meter.Led.Controller.Hold.{
  Indicates, Dark, Indicates-rendered, Dark-rendered, led_request-Indicates, led_cancel-Dark,
  run-Indicates, run-Dark,
}
use n_rf52840_power_meter.Zigbee.{Zboss}
use n_rf52840_power_meter.Zigbee.Signals.{Node, on_led}
use n_rf52840_power_meter.Main.{button_short_max_ms, button_long_min_ms}
use n_rf52840_power_meter.Main.Press.{
  KernelCall, reschedule_long_press_hold_arm, cancel_long_press_hold_arm, give_button_release_sem,
  Panel, is_active, user_button_isr, long_press_hold_arm_handler, button_dispatch,
}
use n_rf52840_power_meter.Main.Press.Others.{Spares}
use n_rf52840_power_meter.Main.Press.Gesture.{Asked, release-Asked}

-- The uptime in milliseconds, when the delayed work is due, what the last edge read, whether the edge
-- before that press was a press too, and the variables.
pub record Moment : Type 0 where
  pub now : ℕ
  pub due : Option ℕ
  pub down : Bool
  pub repeated : Bool
  pub panel : Panel

-- The kernel's timer after some calls, the latest first: a reschedule counts from now.
abbrev pub rearm : ℕ → List KernelCall → Option ℕ → Option ℕ
rearm now [] due = due
rearm now (reschedule_long_press_hold_arm delay ∷ cs) due = some (now + delay)
rearm now (cancel_long_press_hold_arm ∷ cs) due = none
rearm now (give_button_release_sem ∷ cs) due = rearm now cs due

-- The work queue has a work run at most `latency` milliseconds after it is due.
abbrev pub Awaits : ℕ → Option ℕ → ℕ → Type 0
Awaits latency none now = Unit
Awaits latency (some t) now = now < t + latency

-- The moment after an edge that reads `value`, and after a change by another thread.
abbrev pub after_edge : ℤ → Moment → Moment
after_edge value m =
    let p = user_button_isr (pos m.now) value m.panel in
    record m {
      due = rearm m.now p.calls m.due;
      down = is_active value;
      repeated = is_active value && m.down;
      panel = p;
    }

abbrev pub with_node : Node → Moment → Moment
with_node n m = let p = m.panel in record m { panel = record p { node = n } }

-- A millisecond, an edge that reads `value`, the expiry of the delayed work, and whatever the other
-- threads do to the network's variables, with their calls on the LED and its timer's ticks.
pub data Passes (latency : ℕ) : Moment → Moment → Type 0 where
  wait : (m : Moment) → Awaits latency m.due m.now → Passes latency m (record m { now = m.now + 1 })
  edge : (m : Moment) (value : ℤ) → Passes latency m (after_edge value m)
  expire :
      (m : Moment) (t : ℕ)
      → m.due ≡ some t
      → t ≤ m.now
      → Passes latency m (record m { due = none; panel = long_press_hold_arm_handler m.panel })
  others :
      (m : Moment) (n : Node) → Spares m.panel.node.led n.led → Passes latency m (with_node n m)

pub data Course (latency : ℕ) (m : Moment) : Moment → Type 0 where
  here : Course latency m m
  next : {u v : Moment} → Course latency m u → Passes latency u v → Course latency m v

abbrev led_of : Moment → Led
led_of m = m.panel.node.led

-- The interrupt is armed, no edge has come, and the LED shows nothing stronger than the table's
-- weaker patterns.
pub record Quiet (m : Moment) : Type 0 where
  pub due : m.due ≡ none
  pub dark : Dark (led_of m)
  pub down : m.down ≡ false
  pub classifier : m.panel.classifier ≡ Button.init button_short_max_ms button_long_min_ms

-- A press since `start`: either the work has run, or it waits for its time and the LED is dark, unless
-- the press came on top of another.
abbrev pub Pressed : ℕ → Moment → ℕ → Type 0
Pressed latency m start =
    (m.panel.press_start_ms ≡ pos start)
    × (start ≤ m.now)
    × ((Indicates (led_of m) × (m.due ≡ none) × (start + button_long_min_ms ≤ m.now))
        ⊎ ((Dark (led_of m) ⊎ (Indicates (led_of m) × (m.repeated ≡ true)))
            × (m.due ≡ some (start + button_long_min_ms))
            × (m.now ≤ start + button_long_min_ms + latency)))

abbrev pub Tracks : ℕ → Moment → Type 0
Tracks latency m =
    (m.panel.classifier ≡ Button.init button_short_max_ms button_long_min_ms)
    × (((m.down ≡ false) × Dark (led_of m) × (m.due ≡ none))
        ⊎ ((m.down ≡ true) × ((start : ℕ) × Pressed latency m start)))

Tracks-led : (latency : ℕ) (m : Moment) → Tracks latency m → Indicates (led_of m) ⊎ Dark (led_of m)
Tracks-led latency m (cl, inl k) = inr k.1
Tracks-led latency m (cl, inr (d, (start, (noted, le, inl lit)))) = inl lit.0
Tracks-led latency m (cl, inr (d, (start, (noted, le, inr (inl dark, w, b))))) = inr dark
Tracks-led latency m (cl, inr (d, (start, (noted, le, inr (inr lit, w, b))))) = inl lit.0

-- A press now leaves the LED as it was.
pressed-led :
    (latency : ℕ) (m : Moment)
    → Tracks latency m
    → Dark (led_of m) ⊎ (Indicates (led_of m) × (m.down ≡ true))
pressed-led latency m (cl, inl k) = inl k.1
pressed-led latency m (cl, inr (d, k)) = elim (Tracks-led latency m (cl, inr (d, k))) [
  | inl lit ↦ inr (lit, d)
  | inr dark ↦ inl dark
]

edge-Tracks :
    (latency : ℕ) (m : Moment) (value : ℤ) → Tracks latency m → Tracks latency (after_edge value m)
unfolding user_button_isr
edge-Tracks latency m value k = elim (Bool-cases (is_active value)) [
  | inl e ↦ rw e (
    k.0,
    inr (refl, (m.now, (refl, omega arith, inr (pressed-led latency m k, refl, omega arith)))),
  )
  | inr e ↦ rw e (k.0, inl (refl, led_cancel-Dark (led_of m) (Tracks-led latency m k), refl))
]

some-inj : (s t : ℕ) → some s ≡ some t → s ≡ t
some-inj s t e = ap (λ o. elim o [ none ↦ 0 | some n ↦ n ]) e

wait-Tracks :
    (latency : ℕ) (m : Moment)
    → Awaits latency m.due m.now
    → Tracks latency m
    → Tracks latency (record m { now = m.now + 1 })
wait-Tracks latency m w (cl, inl k) = (cl, inl k)
wait-Tracks latency m w (cl, inr (d, (start, (noted, le, inl lit)))) =
    (cl, inr (d, (start, (noted, omega arith, inl (lit.0, lit.1, omega (arith, lit.2))))))
wait-Tracks latency m w (cl, inr (d, (start, (noted, le, inr armed)))) =
    let lt : Awaits latency (some (start + button_long_min_ms)) m.now =
      subst (λ o. Awaits latency o m.now) armed.1 w in
    (cl, inr (d, (start, (noted, omega arith, inr (armed.0, armed.1, omega (arith, lt))))))

expire-Tracks :
    (latency : ℕ) (m : Moment) (t : ℕ)
    → m.due ≡ some t
    → t ≤ m.now
    → Tracks latency m
    → Tracks latency (record m { due = none; panel = long_press_hold_arm_handler m.panel })
unfolding long_press_hold_arm_handler
expire-Tracks latency m t e le (cl, inl k) = cc (e, k.2)
expire-Tracks latency m t e le (cl, inr (d, (start, (noted, since, inl lit)))) = cc (e, lit.1)
expire-Tracks latency m t e le (cl, inr (d, (start, (noted, since, inr armed)))) =
    let same = some-inj t (start + button_long_min_ms) (sym e ∙ armed.1) in
    let lit =
      led_request-Indicates (led_of m)
        (Tracks-led latency m (cl, inr (d, (start, (noted, since, inr armed))))) in
    (cl, inr (d, (start, (noted, since, inl (lit, refl, omega (arith, same, le))))))

others-Tracks :
    (latency : ℕ) (m : Moment) (n : Node)
    → Spares (led_of m) n.led
    → Tracks latency m
    → Tracks latency (with_node n m)
others-Tracks latency m n (ops, o, e) k =
    let lit : Indicates (led_of m) → Indicates n.led =
      λ i. subst Indicates (sym e) (run-Indicates ops (led_of m) o i) in
    let dark : Dark (led_of m) → Dark n.led =
      λ i. subst Dark (sym e) (run-Dark ops (led_of m) o i) in
    (
      k.0,
      elim k.1 [
        | inl up ↦ inl (up.0, dark up.1, up.2)
        | inr (d, (start, (noted, le, inl fired))) ↦
            inr (d, (start, (noted, le, inl (lit fired.0, fired.1, fired.2))))
        | inr (d, (start, (noted, le, inr (inl off, w, b)))) ↦
            inr (d, (start, (noted, le, inr (inl (dark off), w, b))))
        | inr (d, (start, (noted, le, inr (inr on, w, b)))) ↦
            inr (d, (start, (noted, le, inr (inr (lit on.0, on.1), w, b))))
      ],
    )

Passes-Tracks :
    {latency : ℕ} {m t : Moment} → Passes latency m t → Tracks latency m → Tracks latency t
Passes-Tracks {latency} (wait m w) k = wait-Tracks latency m w k
Passes-Tracks {latency} (edge m value) k = edge-Tracks latency m value k
Passes-Tracks {latency} (expire m t e le) k = expire-Tracks latency m t e le k
Passes-Tracks {latency} (others m n o) k = others-Tracks latency m n o k

Course-Tracks : {latency : ℕ} {m t : Moment} → Quiet m → Course latency m t → Tracks latency t
Course-Tracks q here = (q.classifier, inl (q.down, q.dark, q.due))
Course-Tracks q (next c p) = Passes-Tracks p (Course-Tracks q c)

module _ (z : Zboss) (c : Config) (meanwhile : Node → Node) where
  -- What a release asks for now, how long the button has been down, and what the LED shows.
  abbrev pub Tells : ℕ → Moment → Type 0
  Tells latency m =
      let t = button_dispatch z c meanwhile (user_button_isr (pos m.now) (pos 0) m.panel) in
      (start : ℕ) × (d : ℕ) × (m.panel.press_start_ms ≡ pos start)
      × (m.now ≡ start + d)
      × Asked c meanwhile d (on_led (led_cancel long_press_hold) m.panel.node) t.node
      × (((led_of m).rendered ≡ long_press_hold) × ((button_long_min_ms ≤ d) ⊎ (m.repeated ≡ true))
          ⊎ ((led_of m).rendered ≢ long_press_hold) × (d ≤ button_long_min_ms + latency))

  shown :
      (latency start : ℕ) (m : Moment)
      → Pressed latency m start
      → (((led_of m).rendered ≡ long_press_hold)
            × ((button_long_min_ms ≤ m.now - start) ⊎ (m.repeated ≡ true))
          ⊎ ((led_of m).rendered ≢ long_press_hold)
            × (m.now - start ≤ button_long_min_ms + latency))
  shown latency start m (noted, le, inl lit) =
      inl (Indicates-rendered (led_of m) lit.0, inl (omega (arith, lit.2)))
  shown latency start m (noted, le, inr (inl dark, w, b)) =
      inr (Dark-rendered (led_of m) dark, omega (arith, b))
  shown latency start m (noted, le, inr (inr lit, w, b)) =
      inl (Indicates-rendered (led_of m) lit.0, inr lit.1)

  Tells-now :
      (latency start : ℕ) (m : Moment)
      → m.panel.classifier ≡ Button.init button_short_max_ms button_long_min_ms
      → Pressed latency m start
      → Tells latency m
  Tells-now latency start m cl k =
      let e : start + (m.now - start) ≡ m.now = omega (arith, k.1) in
      let n = on_led (led_cancel long_press_hold) m.panel.node in
      let asks : ℕ → Type 0 = λ now.
        Asked c meanwhile (m.now - start) n
          (button_dispatch z c meanwhile (user_button_isr (pos now) (pos 0) m.panel)).node in
      (
        start,
        m.now - start,
        k.0,
        sym e,
        subst asks e (release-Asked z c meanwhile start (m.now - start) m.panel k.0 cl),
        shown latency start m k,
      )

  -- The hold indicator tells what the release will do. From the arming of the interrupt on, with an
  -- LED in sync that holds nothing but the patterns weaker than the indicator, whatever edges come
  -- and whatever the other threads ask of the LED at those patterns' priorities, with a work queue
  -- that runs a work at most `latency` milliseconds after it is due: while the button is up the LED
  -- does not show the indicator. While it is down, for `d` milliseconds by now, a release asks ZBOSS
  -- for what a gesture of `d` milliseconds asks for; if the LED shows the indicator, `d` is at least
  -- 3000, so that this is the factory reset, or the press was read with no release since the one
  -- before; if it does not, `d` is at most 3000 and the latency.
  pub indicator-Tells :
      (latency : ℕ) (m0 m : Moment)
      → Quiet m0
      → Course latency m0 m
      → ((m.down ≡ true) × Tells latency m)
        ⊎ ((m.down ≡ false) × ((led_of m).rendered ≢ long_press_hold))
  indicator-Tells latency m0 m q course =
      let (cl, tracked) = Course-Tracks q course in
      elim tracked [
        | inl k ↦ inr (k.0, Dark-rendered (led_of m) k.1)
        | inr (d, (start, k)) ↦ inl (d, Tells-now latency start m cl k)
      ]
