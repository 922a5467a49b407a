-- ===== src/Zigbee/JoinLed.antt =====
-- What the network signals paint on the LED, and only for a join that the user asked for.
use n_rf52840_power_meter.Prelude.{
  ℕ, ◌≡◌, ◌≢◌, inl, inr, refl, arith, sym, ◌∙◌, ap, Bool, true, ◌||◌, leb, ◌==◌, if◌then◌else◌,
  Bool-cases, List, [], ◌∷◌, ◌++◌, All,
}
use mathlib.Core.Path.{subst}
use n_rf52840_power_meter.Config.{Config}
use n_rf52840_power_meter.Led.Priority.{
  Pattern, joining, join_success, join_fail, prio_joining, prio_join_success, prio_join_fail,
  PriorityState, same_refl,
}
use n_rf52840_power_meter.Led.Controller.{Led, led_request, led_cancel}
use n_rf52840_power_meter.Zigbee.{ZbRet, is_ok, Zboss}
use n_rf52840_power_meter.Zigbee.Attrs.{probe_kick}
use n_rf52840_power_meter.Zigbee.Signals.{
  Signal, steering, device_reboot, leave, other_signal, Node, paint_outcome, on_signal,
  signal_handler, start_join,
}
use n_rf52840_power_meter.Zigbee.Joining.{
  Event, handled, probe_kick-Quiet, apply_sleepy-Quiet, paint_outcome-silent, steered, steered_lem,
}
use n_rf52840_power_meter.Led.Priority
use n_rf52840_power_meter.Led.Controller.Sync.{reselect_lem}

-- Signals other than steering leave the LED and the flag of the user's join alone.
abbrev NoSteering : Event → Type 0
NoSteering e = e.signal ≢ steering

module _ (z : Zboss) (c : Config) where
  on_signal-other :
      (sig : Signal) (status : ZbRet) (found : Bool) (n : Node)
      → sig ≢ steering
      → ((on_signal z c sig status found n).led ≡ n.led)
        × ((on_signal z c sig status found n).zb.user_join_in_flight ≡ n.zb.user_join_in_flight)
  unfolding on_signal
  on_signal-other steering status found n ne = absurd (ne refl)
  on_signal-other device_reboot status found n ne = elim (Bool-cases (is_ok status)) [
    | inl e ↦
        let s = n.zb in
        let k = probe_kick-Quiet c (record s { joined = true }) in
        let q = apply_sleepy-Quiet z c status found (probe_kick c (record s { joined = true })) in
        rw e (refl, q.1 ∙ k.1)
    | inr e ↦ rw e (refl, (apply_sleepy-Quiet z c status found n.zb).1)
  ]
  on_signal-other leave status found n ne = (refl, refl)
  on_signal-other (other_signal k) status found n ne = (refl, refl)

  on_signal-silent :
      (sig : Signal) (status : ZbRet) (found : Bool) (n : Node)
      → n.zb.user_join_in_flight ≢ 1
      → ((on_signal z c sig status found n).led ≡ n.led)
        × ((on_signal z c sig status found n).zb.user_join_in_flight ≡ n.zb.user_join_in_flight)
  unfolding on_signal
  on_signal-silent steering status found n ne =
      let t = steered c status n in
      let s = steered_lem c status n in
      let p = paint_outcome-silent z c status t (λ e. ne (sym s.1 ∙ e)) in
      let q = apply_sleepy-Quiet z c status found (paint_outcome z c status t).zb in
      (ap (λ (m : Node). m.led) p ∙ s.4, q.1 ∙ ap (λ (m : Node). m.zb.user_join_in_flight) p ∙ s.1)
  on_signal-silent device_reboot status found n ne =
      on_signal-other device_reboot status found n (λ (e : device_reboot ≡ steering). cc)
  on_signal-silent leave status found n ne = (refl, refl)
  on_signal-silent (other_signal k) status found n ne = (refl, refl)

  -- The hand-over to the default handler and the free touch neither the LED nor the flag.
  signal_handler_lem :
      (e : Event) (n : Node)
      → let t = on_signal z c e.signal e.status e.attr_found n in
        let t' = signal_handler z c e.bufid e.signal e.status e.attr_found n in
        (t'.led ≡ t.led) × (t'.zb.user_join_in_flight ≡ t.zb.user_join_in_flight)
  unfolding signal_handler
  signal_handler_lem e n = elim (Bool-cases (e.bufid == 0)) [
    | inl z ↦ rw z (refl, refl)
    | inr z ↦ rw z (refl, refl)
  ]

  -- Without a join that the user asked for, no sequence of signals touches the LED.
  pub handled-silent :
      (es : List Event) (n : Node)
      → n.zb.user_join_in_flight ≢ 1
      → ((handled z c es n).led ≡ n.led)
        × ((handled z c es n).zb.user_join_in_flight ≡ n.zb.user_join_in_flight)
  handled-silent [] n ne = (refl, refl)
  handled-silent (e ∷ es) n ne =
      let before = handled z c es n in
      let ih = handled-silent es n ne in
      let h = signal_handler_lem e before in
      let s = on_signal-silent e.signal e.status e.attr_found before (λ x. ne (sym ih.1 ∙ x)) in
      (h.0 ∙ s.0 ∙ ih.0, h.1 ∙ s.1 ∙ ih.1)

request-idle :
    (s : PriorityState) (p : Pattern) (prio : ℕ)
    → Priority.dispatchable p ≡ true
    → s.active ≡ Priority.none
    → Priority.request s p prio ≡ (true, record { active = p; active_prio = prio })
unfolding Priority.request
request-idle s p prio d idle = elim (Bool-cases (leb (Priority.id p) 0 || leb 9 (Priority.id p))) [
  | inl g ↦ grind (arith, d, g)
  | inr g ↦ rw (g, idle) refl
]

-- What a pattern that is requested on an idle LED does, and what a cancel of the active one does.
led_request-idle :
    (p : Pattern) (prio : ℕ) (l : Led)
    → Priority.dispatchable p ≡ true
    → l.state.active ≡ Priority.none
    → ((led_request p prio l).state.active ≡ p) × ((led_request p prio l).rendered ≡ p)
unfolding led_request
led_request-idle p prio l d idle =
    let r = reselect_lem (record l { state = (Priority.request l.state p prio).1 }) in
    let q = ap (λ (x : Bool × PriorityState). x.1.active) (request-idle l.state p prio d idle) in
    (ap (λ (x : PriorityState). x.active) r.0 ∙ q, r.1 ∙ q)

led_cancel-active :
    (p : Pattern) (l : Led) → l.state.active ≡ p → (led_cancel p l).state.active ≡ Priority.none
unfolding led_cancel Priority.cancel
led_cancel-active p l a =
    let r = reselect_lem (record l { state = Priority.cancel l.state p }) in
    ap (λ (x : PriorityState). x.active) r.0 ∙ rw (a, same_refl p) refl

-- What a join that is asked for on an idle LED paints, and what its outcome paints.
abbrev outcome : ZbRet → Pattern
outcome status = if is_ok status then join_success else join_fail

start_join_lem :
    (n : Node)
    → n.led.state.active ≡ Priority.none
    → ((start_join n).led.state.active ≡ joining)
      × ((start_join n).led.rendered ≡ joining)
      × ((start_join n).zb.user_join_in_flight ≡ 1)
unfolding start_join
start_join_lem n idle =
    let r = led_request-idle joining prio_joining n.led refl idle in (r.0, r.1, refl)

module _ (z : Zboss) (c : Config) where
  paint_outcome-joining :
      (status : ZbRet) (n : Node)
      → n.zb.user_join_in_flight ≡ 1
      → n.led.state.active ≡ joining
      → let t = paint_outcome z c status n in
        (t.led.rendered ≡ outcome status) × (t.zb.user_join_in_flight ≡ 0)
  unfolding paint_outcome
  paint_outcome-joining status n flag a =
      let free = led_cancel-active joining n.led a in
      elim (Bool-cases (is_ok status)) [
        | inl e ↦
            rw (flag, e)
              (
                (led_request-idle join_success prio_join_success (led_cancel joining n.led) refl
                    free).1,
                refl,
              )
        | inr e ↦
            rw (flag, e)
              (
                (led_request-idle join_fail prio_join_fail (led_cancel joining n.led) refl free).1,
                refl,
              )
      ]

  on_signal-steering :
      (status : ZbRet) (found : Bool) (n : Node)
      → n.zb.user_join_in_flight ≡ 1
      → n.led.state.active ≡ joining
      → let t = on_signal z c steering status found n in
        (t.led.rendered ≡ outcome status) × (t.zb.user_join_in_flight ≡ 0)
  unfolding on_signal
  on_signal-steering status found n flag a =
      let t = steered c status n in
      let s = steered_lem c status n in
      let p =
        paint_outcome-joining status t (s.1 ∙ flag) (ap (λ (l : Led). l.state.active) s.4 ∙ a) in
      let q = apply_sleepy-Quiet z c status found (paint_outcome z c status t).zb in
      (p.0, q.1 ∙ p.1)

  handled-other :
      (es : List Event) (n : Node)
      → All NoSteering es
      → ((handled z c es n).led ≡ n.led)
        × ((handled z c es n).zb.user_join_in_flight ≡ n.zb.user_join_in_flight)
  handled-other [] n a = (refl, refl)
  handled-other (e ∷ es) n (a, rest) =
      let before = handled z c es n in
      let ih = handled-other es n rest in
      let h = signal_handler_lem z c e before in
      let s = on_signal-other z c e.signal e.status e.attr_found before a in
      (h.0 ∙ s.0 ∙ ih.0, h.1 ∙ s.1 ∙ ih.1)

  handled-append :
      (es fs : List Event) (n : Node) → handled z c (es ++ fs) n ≡ handled z c es (handled z c fs n)
  handled-append [] fs n = refl
  handled-append (e ∷ es) fs n =
      ap (λ m. signal_handler z c e.bufid e.signal e.status e.attr_found m) (handled-append es fs n)

  -- A join asked for on an idle LED renders the joining pattern, through every signal other than
  -- steering; the first steering signal renders join_success or join_fail by its status, and no
  -- later signal, whichever it is, renders anything over that outcome.
  pub join_outcome_painted_once :
      (before after : List Event) (e : Event) (n : Node)
      → n.led.state.active ≡ Priority.none
      → All NoSteering before
      → e.signal ≡ steering
      → let pending = handled z c before (start_join n) in
        let done = handled z c (after ++ (e ∷ before)) (start_join n) in
        (pending.led.rendered ≡ joining)
        × (done.led.rendered ≡ outcome e.status)
        × (done.zb.user_join_in_flight ≡ 0)
  join_outcome_painted_once before after e n idle quiet st =
      let j = start_join_lem n idle in
      let w = handled-other before (start_join n) quiet in
      let pending = handled z c before (start_join n) in
      let h = signal_handler_lem z c e pending in
      let p =
        subst
          (λ sig.
            ((on_signal z c sig e.status e.attr_found pending).led.rendered ≡ outcome e.status)
            × ((on_signal z c sig e.status e.attr_found pending).zb.user_join_in_flight ≡ 0))
          (sym st)
          (on_signal-steering e.status e.attr_found pending (w.1 ∙ j.2)
            (ap (λ (l : Led). l.state.active) w.0 ∙ j.0)) in
      let painted = handled z c (e ∷ before) (start_join n) in
      let flag : painted.zb.user_join_in_flight ≡ 0 = h.1 ∙ p.1 in
      let s = handled-silent z c after painted (λ x. omega (arith, flag, x)) in
      let a = handled-append after (e ∷ before) (start_join n) in
      (
        ap (λ (l : Led). l.rendered) w.0 ∙ j.1,
        ap (λ (m : Node). m.led.rendered) a ∙ ap (λ (l : Led). l.rendered) (s.0 ∙ h.0) ∙ p.0,
        ap (λ (m : Node). m.zb.user_join_in_flight) a ∙ s.1 ∙ flag,
      )
