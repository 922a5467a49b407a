-- ===== src/System/Refines.antt =====
-- The threads of the firmware implement the energy meter of System/Spec.
use n_rf52840_power_meter.Prelude.{◌+◌, arith, inl, refl}
use mathlib.Core.Path.{subst}
use n_rf52840_power_meter.Config.{Config}
use n_rf52840_power_meter.Nvs.{NvsBackend}
use n_rf52840_power_meter.Zigbee.{Zboss}
use n_rf52840_power_meter.System.{
  World, node, meter, with_meter, Step, emit, count, publish, persist, signal, write_divisor,
  write_width, serve_summation, serve_report, serve_steering, serve_reset, serve_wake, report_read,
  report_publish, edge, hold, dispatch, acknowledge, join_after_ack, led_tick, Reach, here, next,
  pressed,
}
use n_rf52840_power_meter.Zigbee.Publish.{run_publish_summation, run_publish_summation_and_report}
use n_rf52840_power_meter.Zigbee.Signals.{start_join, signal_handler}
use n_rf52840_power_meter.Main.Press.{act}
use n_rf52840_power_meter.System.Keeps.{signal_handler-Steady, act-Steady, start_join-Steady}
use n_rf52840_power_meter.System.Published.{run_publish_summation-Kept, run_publish_report-Kept}
use n_rf52840_power_meter.System.Sound.{Sound}
use n_rf52840_power_meter.Zigbee.Calibrated.{write_the_divisor, write_the_width}
use n_rf52840_power_meter.Main.Loop.Save.{Restores}
use n_rf52840_power_meter.System.Writes.{divisor-Framed, width-Framed}
use n_rf52840_power_meter.System.Run.{Outside, Step-Sound, Reach-Sound}
use n_rf52840_power_meter.System.Spec.{
  MeterStep, pulses, rests, MeterRun, start, then_step, Ordered, Grows, MeterRun-Grows,
}
use n_rf52840_power_meter.System.View.{
  view, EnergyMeter-ext, shows-Refines, Kept-Refines, count-Refines, publish-Refines,
  persist-Refines, edge-Refines, hold-Refines, serve-Refines, report-Refines,
}

module _ {Fs : Type 0} (b : NvsBackend Fs) (z : Zboss) (c : Config) where
  Step-Refines :
      {w v : World Fs} → Outside b z c → Step b z c w v → Sound b w → MeterStep (view w) (view v)
  Step-Refines o (emit w n h) s =
      let m = view w in
      let v = record w { emitted = w.emitted + n } in
      subst (MeterStep m)
        (EnergyMeter-ext (record m { emitted = w.base + w.emitted + n }) (view v) (omega arith) refl
          refl refl)
        (pulses m n)
  Step-Refines o (count w i t read small) s =
      count-Refines b z c w i o (Step-Sound b z c o (count w i t read small) s)
  Step-Refines o (publish w i t) s = publish-Refines b z c w i o s
  Step-Refines o (persist w i t) s =
      persist-Refines b z c w i o s (Step-Sound b z c o (persist w i t) s)
  Step-Refines o (signal w bufid sig status found) s =
      let n = signal_handler z c bufid sig status found (node w) in
      Kept-Refines b z c w n.zb s
        (signal_handler-Steady z c bufid sig status found (node w) s.in_sync).0
  Step-Refines o (write_divisor w v f) s =
      let k = divisor-Framed b z o.laws o.writes v (meter w) o.ids f s.counted.up o.stores in
      let t = (write_the_divisor b z v (meter w)).1 in
      shows-Refines b z c w (with_meter t w) 0 refl refl refl (omega arith) (inl k.0.summation)
  Step-Refines o (write_width w n) s =
      let k = width-Framed b z o.laws o.writes n (meter w) s.counted.up o.stores s.filtered in
      let t = (write_the_width b z n (meter w)).1 in
      shows-Refines b z c w (with_meter t w) 0 refl refl refl (omega arith) (inl k.0.summation)
  Step-Refines o (serve_summation w) s =
      Kept-Refines b z c w (run_publish_summation z w.loop.zb) s
        (run_publish_summation-Kept z o.stores w.loop.zb)
  Step-Refines o (serve_report w slot bufid) s =
      Kept-Refines b z c w (run_publish_summation_and_report z c slot bufid w.loop.zb) s
        (run_publish_report-Kept z o.stores c slot bufid w.loop.zb)
  Step-Refines o (serve_steering w) s = (serve-Refines b z c w).0
  Step-Refines o (serve_reset w) s = (serve-Refines b z c w).1
  Step-Refines o (serve_wake w) s = (serve-Refines b z c w).2
  Step-Refines o (report_read w e) s = rests (view w)
  Step-Refines o (report_publish w adc n e) s = report-Refines b z c w adc n s e
  Step-Refines o (edge w now value) s = edge-Refines b z c w now value
  Step-Refines o (hold w) s = hold-Refines b z c w
  Step-Refines o (dispatch w a ne) s =
      let n = act z c (λ n. n) (pressed w) (node w) in
      Kept-Refines b z c w n.zb s (act-Steady z c (pressed w) (node w) s.in_sync ne).0
  Step-Refines o (acknowledge w a e) s = rests (view w)
  Step-Refines o (join_after_ack w a) s =
      let n = start_join (node w) in Kept-Refines b z c w n.zb s (start_join-Steady (node w)).0
  Step-Refines o (led_tick w now) s = rests (view w)

  Reach-run :
      {w v : World Fs} → Outside b z c → Sound b w → Reach b z c w v → MeterRun (view w) (view v)
  Reach-run o s here = start
  Reach-run o s (next r t) =
      then_step (Reach-run o s r) (Step-Refines o t (Reach-Sound b z c o s r))

  -- The threads together implement the energy meter of System/Spec. In a build with the pulse
  -- counter, with a flash that keeps and accepts writes and a ZBOSS that stores what it is given,
  -- every path of the threads from a sound state is a run of that specification: a step of any
  -- thread is a pulse of the hardware, a count that catches up with all of them, the end of a turn
  -- that leaves fewer than 100 pulses unsaved, the showing of a total that was counted, or nothing.
  -- So the pulses emitted, counted and saved never go down, nor past one another, whatever the
  -- network, a coordinator or the button do; and what is saved is what a boot would restore.
  pub Reach-Refines :
      (w v : World Fs)
      → Outside b z c
      → Sound b w
      → Reach b z c w v
      → MeterRun (view w) (view v)
        × Ordered (view v)
        × Grows (view w) (view v)
        × Restores b v.loop.store (view v).saved
  Reach-Refines w v o s r =
      let run = Reach-run o s r in
      let begins : Ordered (view w) = record {
        counted_le = omega (arith, s.total, s.seen);
        saved_le = s.counted.saved_le;
      } in
      let k = MeterRun-Grows run begins in
      (run, k.0, k.1, (Reach-Sound b z c o s r).counted.restores)
