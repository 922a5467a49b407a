-- ===== src/System/View.antt =====
-- The energy meter of System/Spec that a state of the threads is, and how a step moves it.
use n_rf52840_power_meter.Prelude.{
  ◌+◌, sym, ap, if◌then◌else◌, ℕ, ◌≤◌, ◌≡◌, arith, ◌!=◌, Bool-cases, inl, inr, refl, false,
}
use n_rf52840_power_meter.Prelude.Int.{ℤ}
use mathlib.Core.Path.{subst}
use mathlib.Core.Option.{some}
use n_rf52840_power_meter.Config.{Config}
use n_rf52840_power_meter.Accumulator.{PulseAccumulator}
use n_rf52840_power_meter.Nvs.{NvsBackend}
use n_rf52840_power_meter.Zigbee.{Zboss, Zb}
use n_rf52840_power_meter.System.{
  World, node, with_node, panel, with_panel, with_zb, counting, publishing, persisting,
}
use n_rf52840_power_meter.Zigbee.Publish.{Adc}
use n_rf52840_power_meter.Zigbee.Signals.{wake_turbo_poll, start_steering, factory_reset_now}
use n_rf52840_power_meter.Main.Press.{
  user_button_isr, long_press_hold_arm_handler, metering_report_work_handler, is_active,
}
use n_rf52840_power_meter.System.Keeps.{Kept, ShowsOr}
use n_rf52840_power_meter.System.Published.{report_tick_lem}
use n_rf52840_power_meter.System.Sound.{Sound, ReadLe}
use n_rf52840_power_meter.Metering.{scale_to_u48}
use n_rf52840_power_meter.Main.Loop.{Sample, persist_if_due, count_pulses, publish_if_changed}
use n_rf52840_power_meter.Main.Loop.Save.{
  persist_if_due-saved, persist_if_due-Unsaved, publish_if_changed-Apart,
}
use n_rf52840_power_meter.Main.Loop.Loss.{persist_if_due-acc}
use n_rf52840_power_meter.System.Turns.{count_pulses-Apart, publish_if_changed-Waits}
use n_rf52840_power_meter.System.Run.{Outside}
use n_rf52840_power_meter.System.Spec.{EnergyMeter, MeterStep, counts, settles, shows, rests}

-- The energy meter that a state of the threads is.
abbrev pub view : {Fs : Type 0} → World Fs → EnergyMeter
view w = record {
  emitted = w.base + w.emitted;
  counted = w.loop.acc.total;
  saved = w.loop.last_saved_total;
  shown = w.loop.zb.dev_ctx.metering_current_summation;
}

pub EnergyMeter-ext :
    (m t : EnergyMeter)
    → m.emitted ≡ t.emitted
    → m.counted ≡ t.counted
    → m.saved ≡ t.saved
    → m.shown ≡ t.shown
    → m ≡ t
EnergyMeter-ext m t e c s d = λ i. record { emitted = e i; counted = c i; saved = s i; shown = d i }

module _ {Fs : Type 0} (b : NvsBackend Fs) (z : Zboss) (c : Config) where
  -- A step that keeps the total and what is saved, and the attribute or shows a counted total.
  pub shows-Refines :
      (w v : World Fs) (n : ℕ)
      → v.base + v.emitted ≡ w.base + w.emitted
      → v.loop.acc.total ≡ w.loop.acc.total
      → v.loop.last_saved_total ≡ w.loop.last_saved_total
      → n ≤ w.loop.acc.total
      → ShowsOr (scale_to_u48 n) w.loop.zb v.loop.zb
      → MeterStep (view w) (view v)
  shows-Refines w v n emitted total saved le (inl same) =
      subst (MeterStep (view w))
        (EnergyMeter-ext (view w) (view v) (sym emitted) (sym total) (sym saved) (sym same))
        (rests (view w))
  shows-Refines w v n emitted total saved le (inr shown) =
      let u = v.loop.zb.dev_ctx.metering_current_summation in
      let m = view w in
      subst (MeterStep m)
        (EnergyMeter-ext (record m { shown = u }) (view v) (sym emitted) (sym total) (sym saved)
          refl)
        (shows m n u le shown)

  pub Kept-Refines :
      (w : World Fs) (zb : Zb)
      → Sound b w
      → Kept w.loop.zb zb
      → MeterStep (view w) (view (with_zb zb w))
  Kept-Refines w zb s k =
      shows-Refines w (with_zb zb w) w.loop.zb.pending_summation_total refl refl refl s.pending_le
        k.summation

  pub count-Refines :
      (w : World Fs) (i : Sample)
      → Outside b z c
      → let v = record w {
        loop = count_pulses b c i w.loop;
        sampled = w.emitted;
        turn = publishing;
      } in
        Sound b v → MeterStep (view w) (view v)
  count-Refines w i o sv =
      let v = record w {
        loop = count_pulses b c i w.loop;
        sampled = w.emitted;
        turn = publishing;
      } in
      let m = view w in
      let a = count_pulses-Apart b z c o.laws o.writes i w.loop o.counter in
      subst (MeterStep m)
        (EnergyMeter-ext (record m { counted = v.loop.acc.total }) (view v) refl refl (sym a.0)
          (ap (λ (x : Zb). x.dev_ctx.metering_current_summation) (sym a.2)))
        (counts m v.loop.acc.total sv.total)

  pub publish-Refines :
      (w : World Fs) (i : Sample)
      → Outside b z c
      → Sound b w
      → MeterStep (view w) (
          view (record w {
            loop = publish_if_changed b c i w.loop;
            turn = persisting;
            stale = if w.loop.acc.total != w.loop.last_published_total then false else w.stale;
          }))
  publish-Refines w i o s =
      let a = publish_if_changed-Apart b c i w.loop in
      let k = publish_if_changed-Waits b z c o.laws o.writes i w.loop s.calibrated in
      shows-Refines w
        (record w {
          loop = publish_if_changed b c i w.loop;
          turn = persisting;
          stale = if w.loop.acc.total != w.loop.last_published_total then false else w.stale;
        })
        w.loop.acc.total refl (ap (λ (x : PulseAccumulator). x.total) a.0) a.2 (omega arith)
        k.summation

  pub persist-Refines :
      (w : World Fs) (i : Sample)
      → Outside b z c
      → Sound b w
      → let v = record w {
        loop = persist_if_due b c i w.loop;
        settled = w.sampled;
        turn = counting;
      } in
        Sound b v → MeterStep (view w) (view v)
  persist-Refines w i o s sv =
      let v = record w {
        loop = persist_if_due b c i w.loop;
        settled = w.sampled;
        turn = counting;
      } in
      let m = view w in
      let saved = v.loop.last_saved_total in
      let zb = (persist_if_due-Unsaved b c i w.loop).0 in
      let acc = persist_if_due-acc b c o.laws o.writes i w.loop in
      subst (MeterStep m)
        (EnergyMeter-ext (record m { saved = saved }) (view v) refl
          (ap (λ (x : PulseAccumulator). x.total) (sym acc)) refl
          (ap (λ (x : Zb). x.dev_ctx.metering_current_summation) (sym zb)))
        (settles m saved (persist_if_due-saved b c i w.loop) (omega (arith, sv.loss, s.total)))

  pub edge-Refines :
      (w : World Fs) (now value : ℤ)
      → MeterStep (view w) (view (with_panel (user_button_isr now value (panel w)) w))
  unfolding user_button_isr
  edge-Refines w now value = elim (Bool-cases (is_active value)) [
    | inl e ↦ rw e (rests (view w))
    | inr e ↦ rw e (rests (view w))
  ]

  pub hold-Refines :
      (w : World Fs)
      → MeterStep (view w) (view (with_panel (long_press_hold_arm_handler (panel w)) w))
  unfolding long_press_hold_arm_handler
  hold-Refines w = rests (view w)

  pub serve-Refines :
      (w : World Fs)
      → MeterStep (view w) (view (with_zb (start_steering w.loop.zb) w))
        × MeterStep (view w) (view (with_zb (factory_reset_now w.loop.zb) w))
        × MeterStep (view w) (view (with_zb (wake_turbo_poll z c w.loop.zb) w))
  unfolding start_steering factory_reset_now wake_turbo_poll
  serve-Refines w = (rests (view w), rests (view w), rests (view w))

  pub report-Refines :
      (w : World Fs) (adc : Adc) (n : ℕ)
      → Sound b w
      → w.report ≡ some n
      → MeterStep
          (view w)
          (view (with_node (metering_report_work_handler c adc (some n) (node w)).0 w))
  report-Refines w adc n s r =
      let k = report_tick_lem c adc n (node w) s.calibrated.registered s.in_sync in
      let le : n ≤ w.loop.acc.total = subst (λ x. ReadLe x w.loop.acc.total) r s.read_le in
      shows-Refines w (with_node (metering_report_work_handler c adc (some n) (node w)).0 w) n refl
        refl refl le k.0.summation
