-- ===== src/Zigbee/Polling.antt =====
-- The poll rate of a sleepy device, which zboss_signal_handler sets through ZBOSS's poll manager.
use n_rf52840_power_meter.Prelude.{
  ℕ, ◌≡◌, inl, inr, refl, sym, ◌∙◌, ap, Bool, true, false, ◌&&◌, ◌==◌, if◌then◌else◌, Bool-cases,
  List, [], ◌∷◌, ◌++◌,
}
use n_rf52840_power_meter.Config.{Config}
use n_rf52840_power_meter.Zigbee.{
  ZbRet, is_ok, Zboss, Zb, ZbCall, pim_set_long_poll_interval, pim_start_turbo_poll_continuous,
}
use n_rf52840_power_meter.Zigbee.Attrs.{probe_kick}
use n_rf52840_power_meter.Zigbee.Signals.{
  Signal, steering, device_reboot, leave, other_signal, Node, on_zb,
  apply_sleepy_poll_intervals_if_joined, paint_outcome, on_signal, signal_handler,
}
use n_rf52840_power_meter.Zigbee.Joining.{Event, handled, steered}

-- What is asked of the poll manager: an interval in milliseconds, or a window of fast polls.
pub data Poll : Type 0 where
  long_interval turbo_window : ℕ → Poll

abbrev pub polls : List ZbCall → List Poll
polls [] = []
polls (pim_set_long_poll_interval ms ∷ cs) = long_interval ms ∷ polls cs
polls (pim_start_turbo_poll_continuous ms ∷ cs) = turbo_window ms ∷ polls cs
polls (_ ∷ cs) = polls cs

-- The signals that put the device into a network, or find it in one after a reboot.
abbrev pub attaches : Signal → ZbRet → Bool
attaches steering status = is_ok status
attaches device_reboot status = is_ok status
attaches leave status = false
attaches (other_signal k) status = false

module _ (z : Zboss) (c : Config) where
  -- The polls that a run of signals asks for, the latest first, where the attribute reads `qs`
  -- quarters of a second: for each attachment the long interval, if the attribute's descriptor is
  -- found, and then the window after a join.
  abbrev pub expected_polls : ℕ → List Event → List Poll
  expected_polls qs [] = []
  expected_polls qs (e ∷ es) =
      if c.zigbee_sleepy_ed && attaches e.signal e.status
      then turbo_window c.zigbee_join_turbo_poll_ms
        ∷ (if e.attr_found
            then long_interval (z.quarterseconds_to_msec qs) ∷ expected_polls qs es
            else expected_polls qs es)
      else expected_polls qs es

  -- One state's polls beyond those of another, with the interval attribute left alone.
  abbrev Polled : (List Poll → List Poll) → Zb → Zb → Type 0
  Polled f s t =
      (polls t.calls ≡ f (polls s.calls))
      × (t.dev_ctx.poll_long_poll_interval ≡ s.dev_ctx.poll_long_poll_interval)

  abbrev asks : ℕ → Bool → Bool → List Poll → List Poll
  asks qs does found ps =
      if does
      then turbo_window c.zigbee_join_turbo_poll_ms
        ∷ (if found then long_interval (z.quarterseconds_to_msec qs) ∷ ps else ps)
      else ps

  apply_sleepy-Polled :
      (status : ZbRet) (found : Bool) (s : Zb)
      → Polled
          (asks s.dev_ctx.poll_long_poll_interval (c.zigbee_sleepy_ed && is_ok status) found)
          s
          (apply_sleepy_poll_intervals_if_joined z c status found s)
  unfolding apply_sleepy_poll_intervals_if_joined
  apply_sleepy-Polled status found s = elim (Bool-cases c.zigbee_sleepy_ed) [
    | inr e ↦ rw e (refl, refl)
    | inl e ↦ elim (Bool-cases (is_ok status)) [
      | inr f ↦ rw (e, f) (refl, refl)
      | inl f ↦ elim (Bool-cases found) [
        | inl g ↦ rw (e, f, g) (refl, refl)
        | inr g ↦ rw (e, f, g) (refl, refl)
      ]
    ]
  ]

  -- Nothing asked of the poll manager.
  abbrev Same : Zb → Zb → Type 0
  Same s t = Polled (λ ps. ps) s t

  probe_kick-Same : (s : Zb) → Same s (probe_kick c s)
  probe_kick-Same s = elim (Bool-cases c.zigbee_rx_idle_probe) [
    | inl e ↦ rw e (refl, refl)
    | inr e ↦ rw e (refl, refl)
  ]

  steered-Same : (status : ZbRet) (n : Node) → Same n.zb (steered c status n).zb
  steered-Same status n = elim (Bool-cases (is_ok status)) [
    | inl e ↦ let s = n.zb in rw e (probe_kick-Same (record s { joined = true }))
    | inr e ↦ rw e (refl, refl)
  ]

  paint_outcome-Same : (status : ZbRet) (n : Node) → Same n.zb (paint_outcome z c status n).zb
  unfolding paint_outcome
  paint_outcome-Same status n = elim (Bool-cases (n.zb.user_join_in_flight == 1)) [
    | inl e ↦ rw e (refl, refl)
    | inr e ↦ rw e (refl, refl)
  ]

  attached-Same :
      (status : ZbRet) (n : Node)
      → Same n.zb
          (if is_ok status then on_zb (λ s. probe_kick c (record s { joined = true })) n else n).zb
  attached-Same status n = elim (Bool-cases (is_ok status)) [
    | inl e ↦ let s = n.zb in rw e (probe_kick-Same (record s { joined = true }))
    | inr e ↦ rw e (refl, refl)
  ]

  -- The intervals are applied last.
  apply_after :
      (status : ZbRet) (found : Bool) (s t : Zb)
      → Same s t
      → Polled
          (asks s.dev_ctx.poll_long_poll_interval (c.zigbee_sleepy_ed && is_ok status) found)
          s
          (apply_sleepy_poll_intervals_if_joined z c status found t)
  apply_after status found s t m =
      let q = apply_sleepy-Polled status found t in
      let does = c.zigbee_sleepy_ed && is_ok status in
      (
        q.0
            ∙ ap (λ qs. asks qs does found (polls t.calls)) m.1
            ∙ ap (asks s.dev_ctx.poll_long_poll_interval does found) m.0,
        q.1 ∙ m.1,
      )

  and-false : (x : Bool) → (x && false) ≡ false
  and-false true = refl
  and-false false = refl

  idle-Polled :
      (qs : ℕ) (found : Bool) (s t : Zb)
      → Same s t
      → Polled (asks qs (c.zigbee_sleepy_ed && false) found) s t
  idle-Polled qs found s t m =
      (m.0 ∙ ap (λ x. asks qs x found (polls s.calls)) (sym (and-false c.zigbee_sleepy_ed)), m.1)

  on_signal-Polled :
      (sig : Signal) (status : ZbRet) (found : Bool) (n : Node)
      → Polled
          (asks n.zb.dev_ctx.poll_long_poll_interval
            (c.zigbee_sleepy_ed && attaches sig status)
            found)
          n.zb
          (on_signal z c sig status found n).zb
  unfolding on_signal
  on_signal-Polled steering status found n =
      let t = steered c status n in
      let m = steered-Same status n in
      let p = paint_outcome-Same status t in
      apply_after status found n.zb (paint_outcome z c status t).zb (p.0 ∙ m.0, p.1 ∙ m.1)
  on_signal-Polled device_reboot status found n =
      let attached : Node =
        if is_ok status then on_zb (λ s. probe_kick c (record s { joined = true })) n else n in
      apply_after status found n.zb attached.zb (attached-Same status n)
  on_signal-Polled leave status found n =
      let s = n.zb in
      idle-Polled s.dev_ctx.poll_long_poll_interval found s (record s { joined = false })
        (refl, refl)
  on_signal-Polled (other_signal k) status found n =
      idle-Polled n.zb.dev_ctx.poll_long_poll_interval found n.zb n.zb (refl, refl)

  asks-append :
      (qs : ℕ) (does found : Bool) (ps rest : List Poll)
      → asks qs does found (ps ++ rest) ≡ asks qs does found ps ++ rest
  asks-append qs true true ps rest = refl
  asks-append qs true false ps rest = refl
  asks-append qs false found ps rest = refl

  -- What a run of signals asks of the poll manager. In the sleepy build every attachment, by steering
  -- or after a reboot, sets the long interval that the attribute holds, if its descriptor is found,
  -- and then opens the window of fast polls after a join; no other signal, no failed attachment and
  -- no signal in another build asks for anything. The attribute stays as it is.
  pub handled-polls :
      (es : List Event) (n : Node)
      → let s = (handled z c es n).zb in
        let qs = n.zb.dev_ctx.poll_long_poll_interval in
        (polls s.calls ≡ expected_polls qs es ++ polls n.zb.calls)
        × (s.dev_ctx.poll_long_poll_interval ≡ qs)
  unfolding signal_handler
  handled-polls [] n = (refl, refl)
  handled-polls (e ∷ es) n =
      let before = handled z c es n in
      let qs = n.zb.dev_ctx.poll_long_poll_interval in
      let ih = handled-polls es n in
      let does = c.zigbee_sleepy_ed && attaches e.signal e.status in
      let h = on_signal-Polled e.signal e.status e.attr_found before in
      let asked =
        h.0
        ∙ ap (λ q. asks q does e.attr_found (polls before.zb.calls)) ih.1
        ∙ ap (asks qs does e.attr_found) ih.0
        ∙ asks-append qs does e.attr_found (expected_polls qs es) (polls n.zb.calls) in
      elim (Bool-cases (e.bufid == 0)) [
        | inl z ↦ rw z (asked, h.1 ∙ ih.1)
        | inr z ↦ rw z (asked, h.1 ∙ ih.1)
      ]
