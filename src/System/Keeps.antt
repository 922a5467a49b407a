-- ===== src/System/Keeps.antt =====
-- What the functions of the Zigbee application leave alone of the calibration, the registration and the
-- pending total, and that each leaves the LED in sync.
use n_rf52840_power_meter.Prelude.{
  ℕ, ◌≡◌, ◌≢◌, ◌⊎◌, inl, inr, refl, ◌∙◌, ap, Bool, true, false, not, ◌||◌, ◌==◌, if◌then◌else◌,
}
use n_rf52840_power_meter.Config.{Config}
use n_rf52840_power_meter.Metering.{MeteringU48, scale_to_u48}
use n_rf52840_power_meter.Button.{Action, ignore, join, wake, factory_reset}
use n_rf52840_power_meter.Led.Priority.{
  joining, join_success, join_fail, prio_joining, prio_join_success, prio_join_fail, button_ack,
  prio_button_ack, erase_confirm, prio_erase_confirm,
}
use n_rf52840_power_meter.Led.Controller.{Led, led_request, led_cancel}
use n_rf52840_power_meter.Led.Controller.Sync.{InSync, led_request-InSync}
use n_rf52840_power_meter.Zigbee.{
  ZbRet, is_ok, Zboss, Zb, call, default_signal_handler, buf_free, rx_idle_probe_kick,
  pim_set_long_poll_interval, pim_start_turbo_poll_continuous,
}
use n_rf52840_power_meter.Zigbee.Attrs.{probe_kick}
use n_rf52840_power_meter.Zigbee.Signals.{
  Signal, steering, device_reboot, leave, other_signal, Node, on_zb,
  apply_sleepy_poll_intervals_if_joined, paint_outcome, on_signal, signal_handler, wake_for_write,
  start_join,
}
use n_rf52840_power_meter.Zigbee.Signals
use n_rf52840_power_meter.Main.Press.{act}

-- The metering attribute reads what it read, or this.
abbrev pub ShowsOr : MeteringU48 → Zb → Zb → Type 0
ShowsOr u s t =
    (t.dev_ctx.metering_current_summation ≡ s.dev_ctx.metering_current_summation)
    ⊎ (t.dev_ctx.metering_current_summation ≡ u)

-- The fields that a step of the network keeps. It may put the pending total into the attribute.
pub record Kept (s t : Zb) : Type 0 where
  pub divisor : t.effective_divisor ≡ s.effective_divisor
  pub shown : t.dev_ctx.metering_divisor ≡ s.dev_ctx.metering_divisor
  pub registered : t.endpoint_registered ≡ s.endpoint_registered
  pub pending : t.pending_summation_total ≡ s.pending_summation_total
  pub summation : ShowsOr (scale_to_u48 s.pending_summation_total) s t

pub keeps :
    {s t : Zb}
    → t.effective_divisor ≡ s.effective_divisor
    → t.dev_ctx.metering_divisor ≡ s.dev_ctx.metering_divisor
    → t.endpoint_registered ≡ s.endpoint_registered
    → t.pending_summation_total ≡ s.pending_summation_total
    → ShowsOr (scale_to_u48 s.pending_summation_total) s t
    → Kept s t
keeps d o r p m = record { divisor = d; shown = o; registered = r; pending = p; summation = m }

pub Kept-refl : (s : Zb) → Kept s s
Kept-refl s = keeps refl refl refl refl (inl refl)

pub Kept-trans : {s t u : Zb} → Kept s t → Kept t u → Kept s u
Kept-trans k l = record {
  divisor = l.divisor ∙ k.divisor;
  shown = l.shown ∙ k.shown;
  registered = l.registered ∙ k.registered;
  pending = l.pending ∙ k.pending;
  summation = elim l.summation [
    | inr e ↦ inr (e ∙ ap scale_to_u48 k.pending)
    | inl e ↦ elim k.summation [ inl d ↦ inl (e ∙ d) | inr d ↦ inr (e ∙ d) ]
  ];
}

if-InSync : (l m : Led) (x : Bool) → InSync l → InSync m → InSync (if x then l else m)
if-InSync l m true p q = p
if-InSync l m false p q = q

-- A conditional keeps what both branches keep.
pub if-Kept : {s t u : Zb} (x : Bool) → Kept s t → Kept s u → Kept s (if x then t else u)
if-Kept true k l = k
if-Kept false k l = l

module _ (z : Zboss) (c : Config) where
  probe_kick-Kept : (s : Zb) → Kept s (probe_kick c s)
  probe_kick-Kept s =
      let k : Kept s (call rx_idle_probe_kick s) = keeps refl refl refl refl (inl refl) in
      if-Kept c.zigbee_rx_idle_probe k (Kept-refl s)

  apply_sleepy-Kept :
      (status : ZbRet) (found : Bool) (s : Zb)
      → Kept s (apply_sleepy_poll_intervals_if_joined z c status found s)
  unfolding apply_sleepy_poll_intervals_if_joined
  apply_sleepy-Kept status found s =
      let qs = s.dev_ctx.poll_long_poll_interval in
      let told = call (pim_set_long_poll_interval (z.quarterseconds_to_msec qs)) s in
      let t = if found then told else s in
      let k : Kept s told = keeps refl refl refl refl (inl refl) in
      let l : Kept t (call (pim_start_turbo_poll_continuous c.zigbee_join_turbo_poll_ms) t) =
        keeps refl refl refl refl (inl refl) in
      if-Kept (not c.zigbee_sleepy_ed || not (is_ok status)) (Kept-refl s)
        (Kept-trans (if-Kept found k (Kept-refl s)) l)

-- The node that a step leaves: its Zigbee state keeps the fields, and its LED is in sync.
abbrev pub Steady : Node → Node → Type 0
Steady n t = Kept n.zb t.zb × InSync t.led

pub if-Steady : (n t u : Node) (x : Bool) → Steady n t → Steady n u → Steady n (if x then t else u)
if-Steady n t u true k l = k
if-Steady n t u false k l = l

module _ (z : Zboss) (c : Config) where
  paint_outcome-Steady :
      (status : ZbRet) (n : Node) → InSync n.led → Steady n (paint_outcome z c status n)
  unfolding paint_outcome
  paint_outcome-Steady status n h =
      let ok = led_request join_success prio_join_success (led_cancel joining n.led) in
      let failed = led_request join_fail prio_join_fail (led_cancel joining n.led) in
      let sync =
        if-InSync ok failed (is_ok status)
          (led_request-InSync join_success prio_join_success (led_cancel joining n.led))
          (led_request-InSync join_fail prio_join_fail (led_cancel joining n.led)) in
      let zb = n.zb in
      let painted : Node = record {
        zb = record zb { user_join_in_flight = 0 };
        led = if is_ok status then ok else failed;
      } in
      if-Steady n painted n (n.zb.user_join_in_flight == 1)
        (keeps refl refl refl refl (inl refl), sync) (Kept-refl n.zb, h)

  on_signal-Steady :
      (sig : Signal) (status : ZbRet) (found : Bool) (n : Node)
      → InSync n.led
      → Steady n (on_signal z c sig status found n)
  unfolding on_signal
  on_signal-Steady steering status found n h =
      let s = n.zb in
      let now : Node = record n { zb = record s { joined = is_ok status } } in
      let kicked : Node = record now { zb = probe_kick c now.zb } in
      let k : Steady n kicked =
        (Kept-trans (keeps refl refl refl refl (inl refl)) (probe_kick-Kept z c now.zb), h) in
      let l : Steady n now = (keeps refl refl refl refl (inl refl), h) in
      let t : Node = if is_ok status then kicked else now in
      let m = if-Steady n kicked now (is_ok status) k l in
      let p = paint_outcome-Steady status t m.1 in
      let q = apply_sleepy-Kept z c status found (paint_outcome z c status t).zb in
      (Kept-trans m.0 (Kept-trans p.0 q), p.1)
  on_signal-Steady device_reboot status found n h =
      let s = n.zb in
      let joined = record s { joined = true } in
      let kicked : Node = record n { zb = probe_kick c joined } in
      let k : Steady n kicked =
        (Kept-trans (keeps refl refl refl refl (inl refl)) (probe_kick-Kept z c joined), h) in
      let t : Node = if is_ok status then kicked else n in
      let m = if-Steady n kicked n (is_ok status) k (Kept-refl s, h) in
      (Kept-trans m.0 (apply_sleepy-Kept z c status found t.zb), m.1)
  on_signal-Steady leave status found n h = (keeps refl refl refl refl (inl refl), h)
  on_signal-Steady (other_signal k) status found n h = (Kept-refl n.zb, h)

  pub signal_handler-Steady :
      (bufid : ℕ) (sig : Signal) (status : ZbRet) (found : Bool) (n : Node)
      → InSync n.led
      → Steady n (signal_handler z c bufid sig status found n)
  unfolding signal_handler
  signal_handler-Steady bufid sig status found n h =
      let t = on_signal z c sig status found n in
      let k = on_signal-Steady sig status found n h in
      let d : Node = on_zb (call (default_signal_handler bufid)) t in
      let f : Node = on_zb (call (buf_free bufid)) d in
      let kd : Steady n d = (Kept-trans k.0 (keeps refl refl refl refl (inl refl)), k.1) in
      let kf : Steady n f = (Kept-trans k.0 (keeps refl refl refl refl (inl refl)), k.1) in
      if-Steady n d f (bufid == 0) kd kf

  wake_for_write-Kept : (s : Zb) → Kept s (wake_for_write z c s)
  unfolding wake_for_write
  wake_for_write-Kept s =
      if-Kept (not c.zigbee_sleepy_ed) (Kept-refl s)
        (if-Kept (not s.joined) (Kept-refl s) (keeps refl refl refl refl (inl refl)))

  -- Every action of the dispatch thread but the join, whose two halves follow.
  pub act-Steady :
      (a : Action) (n : Node) → InSync n.led → a ≢ join → Steady n (act z c (λ m. m) a n)
  unfolding act Signals.factory_reset
  act-Steady ignore n h ne = (Kept-refl n.zb, h)
  act-Steady join n h ne = absurd (ne refl)
  act-Steady wake n h ne =
      (wake_for_write-Kept n.zb, led_request-InSync button_ack prio_button_ack n.led)
  act-Steady factory_reset n h ne = (
    keeps refl refl refl refl (inl refl),
    led_request-InSync erase_confirm prio_erase_confirm n.led,
  )

pub start_join-Steady : (n : Node) → Steady n (start_join n)
unfolding start_join
start_join-Steady n =
    (keeps refl refl refl refl (inl refl), led_request-InSync joining prio_joining n.led)
