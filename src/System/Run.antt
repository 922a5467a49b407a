-- ===== src/System/Run.antt =====
-- Every step of every thread keeps the system sound.
use n_rf52840_power_meter.Prelude.{
  ℕ, ◌≤◌, ◌≡◌, ◌∙◌, arith, ◌!=◌, Bool-cases, ◌≢◌, inl, inr, refl, true, false,
}
use n_rf52840_power_meter.Prelude.Int.{ℤ}
use mathlib.Core.Path.{subst}
use mathlib.Core.Option.{some, none}
use n_rf52840_power_meter.Config.{Config}
use n_rf52840_power_meter.Accumulator
use n_rf52840_power_meter.Nvs.{NvsBackend}
use n_rf52840_power_meter.Nvs.Slots.{NvsLaws, Writes}
use n_rf52840_power_meter.Zigbee.{Zboss, Stores}
use n_rf52840_power_meter.Zigbee.Signals.{
  Node, wake_turbo_poll, start_steering, factory_reset_now, start_join, signal_handler,
}
use n_rf52840_power_meter.System.{
  World, node, with_node, panel, with_panel, with_zb, Step, emit, count, publish, persist, signal,
  write_divisor, write_width, serve_summation, serve_report, serve_steering, serve_reset,
  serve_wake, report_read, report_publish, edge, hold, dispatch, acknowledge, join_after_ack,
  led_tick, Reach, here, next, pressed,
}
use n_rf52840_power_meter.System.Keeps.{
  keeps, Kept-refl, signal_handler-Steady, act-Steady, start_join-Steady,
}
use n_rf52840_power_meter.Led.Priority.{
  button_ack, prio_button_ack, long_press_hold, prio_long_press_hold,
}
use n_rf52840_power_meter.Led.Controller.{led_request}
use n_rf52840_power_meter.Led.Controller.Tick.{tick_handler}
use n_rf52840_power_meter.Led.Controller.Sync.{
  led_request-InSync, led_cancel-InSync, tick_handler-InSync,
}
use n_rf52840_power_meter.Zigbee.Publish.{
  Adc, run_publish_summation, run_publish_summation_and_report,
}
use n_rf52840_power_meter.Zigbee.Write.{attr_metering_min_pulse_width_us_id}
use n_rf52840_power_meter.Main.Press.{
  user_button_isr, long_press_hold_arm_handler, metering_report_work_handler, is_active, act,
}
use n_rf52840_power_meter.System.Published.{
  run_publish_summation-Kept, run_publish_report-Kept, report_tick_lem,
}
use n_rf52840_power_meter.System.Sound.{
  Sound, ReadLe, Pends-Calibrated, Steady-Sound, node-Sound, zb-Sound,
}
use n_rf52840_power_meter.System.Turns.{emit-Sound, count-Sound, publish-Sound, persist-Sound}
use n_rf52840_power_meter.System.Writes.{write_divisor-Sound, write_width-Sound}

module _ {Fs : Type 0} (b : NvsBackend Fs) (z : Zboss) (c : Config) where
  serve_steering-Sound : (w : World Fs) → Sound b w → Sound b (with_zb (start_steering w.loop.zb) w)
  unfolding start_steering
  serve_steering-Sound w s =
      zb-Sound b w (start_steering w.loop.zb) s (keeps refl refl refl refl (inl refl))

  serve_reset-Sound : (w : World Fs) → Sound b w → Sound b (with_zb (factory_reset_now w.loop.zb) w)
  unfolding factory_reset_now
  serve_reset-Sound w s =
      zb-Sound b w (factory_reset_now w.loop.zb) s (keeps refl refl refl refl (inl refl))

  serve_wake-Sound :
      (w : World Fs) → Sound b w → Sound b (with_zb (wake_turbo_poll z c w.loop.zb) w)
  unfolding wake_turbo_poll
  serve_wake-Sound w s =
      zb-Sound b w (wake_turbo_poll z c w.loop.zb) s (keeps refl refl refl refl (inl refl))

  report_read-Sound :
      (w : World Fs)
      → Sound b w
      → Sound b (record w { report = some (Accumulator.total_of w.loop.acc) })
  unfolding Accumulator.total_of
  report_read-Sound w s = record {
    counted = s.counted;
    total = s.total;
    register = s.register;
    seen = s.seen;
    fits = s.fits;
    settled = s.settled;
    loss = s.loss;
    fresh = s.fresh;
    published = s.published;
    pending_le = s.pending_le;
    read_le = omega arith;
    calibrated = s.calibrated;
    filtered = s.filtered;
    in_sync = s.in_sync;
  }

  -- The publish of a total that was read before, which may be older than the counted one.
  report_publish-Sound :
      (w : World Fs) (adc : Adc) (n : ℕ)
      → Sound b w
      → w.report ≡ some n
      → Sound b (record (with_node (metering_report_work_handler c adc (some n) (node w)).0 w) {
        report = none;
        stale = n != w.loop.acc.total;
      })
  report_publish-Sound w adc n s r =
      let k = report_tick_lem c adc n (node w) s.calibrated.registered s.in_sync in
      let d = s.counted in
      let le : n ≤ w.loop.acc.total = subst (λ x. ReadLe x w.loop.acc.total) r s.read_le in
      record {
        counted = record {
          policy = d.policy;
          up = d.up;
          total_fits = d.total_fits;
          restores = d.restores;
          saved_le = d.saved_le;
        };
        total = s.total;
        register = s.register;
        seen = s.seen;
        fits = s.fits;
        settled = s.settled;
        loss = s.loss;
        fresh = elim (Bool-cases (n != w.loop.acc.total)) [
          | inl e ↦ inl e
          | inr e ↦
              let same : n ≡ w.loop.acc.total = ground (arith, e) in inr (inr (k.0.pending ∙ same))
        ];
        published = s.published;
        pending_le = omega (arith, k.0.pending, le);
        read_le = tt;
        calibrated = Pends-Calibrated k.0 s.calibrated;
        filtered = s.filtered;
        in_sync = k.1;
      }

  edge-Sound :
      (w : World Fs) (now value : ℤ)
      → Sound b w
      → Sound b (with_panel (user_button_isr now value (panel w)) w)
  unfolding user_button_isr
  edge-Sound w now value s =
      let p = panel w in
      elim (Bool-cases (is_active value)) [
        | inl e ↦
            let pressed = user_button_isr now value p in
            Steady-Sound b w pressed w.acked s (rw e (Kept-refl w.loop.zb, s.in_sync))
        | inr e ↦
            let released = user_button_isr now value p in
            Steady-Sound b w released w.acked s
              (rw e (Kept-refl w.loop.zb, led_cancel-InSync long_press_hold w.led))
      ]

  hold-Sound :
      (w : World Fs) → Sound b w → Sound b (with_panel (long_press_hold_arm_handler (panel w)) w)
  unfolding long_press_hold_arm_handler
  hold-Sound w s =
      Steady-Sound b w (long_press_hold_arm_handler (panel w)) w.acked s
        (Kept-refl w.loop.zb, led_request-InSync long_press_hold prio_long_press_hold w.led)

  led_tick-Sound :
      (w : World Fs) (now : ℕ) → Sound b w → Sound b (record w { led = tick_handler now w.led })
  led_tick-Sound w now s =
      let n : Node = record { zb = w.loop.zb; led = tick_handler now w.led } in
      node-Sound b w n w.acked s (Kept-refl w.loop.zb, tick_handler-InSync now w.led s.in_sync)

  -- What the steps take from outside: a flash that keeps and accepts writes, a ZBOSS that stores
  -- what it is given, two attribute ids that differ, and a build with the pulse counter.
  pub record Outside : Type 0 where
    pub laws : NvsLaws b
    pub writes : Writes b
    pub stores : Stores z
    pub ids : z.attr_metering_divisor_id ≢ attr_metering_min_pulse_width_us_id
    pub counter : c.hw_pulse_counter ≡ true

  -- In a build with the pulse counter, with a flash that keeps and accepts writes and a ZBOSS that
  -- stores what it is given, every step of every thread keeps the system sound.
  pub Step-Sound : {w v : World Fs} → Outside → Step b z c w v → Sound b w → Sound b v
  Step-Sound o (emit w n h) s = emit-Sound b z c o.laws o.writes w n s h
  Step-Sound o (count w i t shows small) s =
      count-Sound b z c o.laws o.writes w i s o.counter t shows small
  Step-Sound o (publish w i t) s = publish-Sound b z c o.laws o.writes w i s t
  Step-Sound o (persist w i t) s = persist-Sound b z c o.laws o.writes w i s t
  Step-Sound o (signal w bufid sig status found) s =
      node-Sound b w (signal_handler z c bufid sig status found (node w)) w.acked s
        (signal_handler-Steady z c bufid sig status found (node w) s.in_sync)
  Step-Sound o (write_divisor w v f) s =
      write_divisor-Sound b z o.laws o.writes w v s o.stores o.ids f
  Step-Sound o (write_width w n) s = write_width-Sound b z o.laws o.writes w n s o.stores
  Step-Sound o (serve_summation w) s =
      zb-Sound b w (run_publish_summation z w.loop.zb) s
        (run_publish_summation-Kept z o.stores w.loop.zb)
  Step-Sound o (serve_report w slot bufid) s =
      zb-Sound b w (run_publish_summation_and_report z c slot bufid w.loop.zb) s
        (run_publish_report-Kept z o.stores c slot bufid w.loop.zb)
  Step-Sound o (serve_steering w) s = serve_steering-Sound w s
  Step-Sound o (serve_reset w) s = serve_reset-Sound w s
  Step-Sound o (serve_wake w) s = serve_wake-Sound w s
  Step-Sound o (report_read w e) s = report_read-Sound w s
  Step-Sound o (report_publish w adc n e) s = report_publish-Sound w adc n s e
  Step-Sound o (edge w now value) s = edge-Sound w now value s
  Step-Sound o (hold w) s = hold-Sound w s
  Step-Sound o (dispatch w a ne) s =
      node-Sound b w (act z c (λ n. n) (pressed w) (node w)) w.acked s
        (act-Steady z c (pressed w) (node w) s.in_sync ne)
  Step-Sound o (acknowledge w a e) s =
      let n : Node = record {
        zb = w.loop.zb;
        led = led_request button_ack prio_button_ack w.led;
      } in
      node-Sound b w n true s
        (Kept-refl w.loop.zb, led_request-InSync button_ack prio_button_ack w.led)
  Step-Sound o (join_after_ack w a) s =
      node-Sound b w (start_join (node w)) false s (start_join-Steady (node w))
  Step-Sound o (led_tick w now) s = led_tick-Sound w now s

  -- The same for every sequence of such steps.
  pub Reach-Sound : {w v : World Fs} → Outside → Sound b w → Reach b z c w v → Sound b v
  Reach-Sound o s here = s
  Reach-Sound o s (next r t) = Step-Sound o t (Reach-Sound o s r)
