-- ===== src/Main/Boot/Enter.antt =====
-- The step from the start into the sample loop, which begins with nothing lost.
use n_rf52840_power_meter.Prelude.{
  ℕ, ◌^◌, ◌<◌, ◌≡◌, inl, inr, refl, arith, sym, ◌∙◌, ap, Bool, true, not, if◌then◌else◌, Bool-cases,
  List,
}
use mathlib.Core.Path.{subst}
use n_rf52840_power_meter.Config.{Config}
use n_rf52840_power_meter.Accumulator
use n_rf52840_power_meter.Persist
use n_rf52840_power_meter.Gate
use n_rf52840_power_meter.Nvs.{NvsBackend}
use n_rf52840_power_meter.Pulse.{HwCall}
use n_rf52840_power_meter.Rc.{is_success}
use n_rf52840_power_meter.Led.Controller.{Led, led_request_fatal}
use n_rf52840_power_meter.Button.{PressClassifier}
use n_rf52840_power_meter.Zigbee.{Zboss, Zb}
use n_rf52840_power_meter.Main.Loop.{Loop}
use n_rf52840_power_meter.Main.Loop.Save.{Restores, Safe}
use n_rf52840_power_meter.Button
use n_rf52840_power_meter.Prelude.Int.{sub_ℕ}
use n_rf52840_power_meter.Zigbee.Attrs.{app_init}
use n_rf52840_power_meter.Zigbee.Publish.{publish_summation}
use n_rf52840_power_meter.Main.{
  persist_interval_ms, persist_max_pulse_delta, zigbee_report_pulse_heartbeat, button_short_max_ms,
  button_long_min_ms,
}
use n_rf52840_power_meter.Main.Boot.{
  Boot, halted, blinking, running, BootEnv, Restored, user_button_arm_irq, enter_loop,
}
use n_rf52840_power_meter.Main.Boot.Restore.{Resumed}

abbrev pub ran : {A : Type 0} → Boot A → A → A
ran (running x) y = x
ran (halted l) y = y
ran blinking y = y

module _ {Fs : Type 0} (b : NvsBackend Fs) where
  -- The locals with which a start reaches the sample loop.
  abbrev pub entered : Zboss → Config → ℕ → Zb → List HwCall → Restored Fs → Loop Fs
  entered z c start_ms zb hw r = record {
    acc = r.acc;
    policy = Persist.init persist_interval_ms persist_max_pulse_delta;
    pulse_heartbeat = Gate.init zigbee_report_pulse_heartbeat;
    last_saved_total = r.last_saved_total;
    last_saved_ms = sub_ℕ start_ms persist_interval_ms;
    last_published_total = Accumulator.total_of r.acc;
    zb = publish_summation (Accumulator.total_of r.acc) (app_init b z c r.store zb);
    store = r.store;
    hw = hw;
  }

  enter_loop_lem :
      (z : Zboss) (c : Config) (e : BootEnv) (start_ms : ℕ) (zb : Zb) (hw : List HwCall)
      (r : Restored Fs) (x : Loop Fs × PressClassifier × Led)
      → enter_loop b z c e start_ms zb hw r ≡ running x
      → x.0 ≡ entered z c start_ms zb hw r
  unfolding enter_loop
  enter_loop_lem z c e start_ms zb hw r x eq =
      elim (Bool-cases (is_success (user_button_arm_irq e))) [
        | inl ok ↦ sym (ap (λ o. (ran o x).0) (sym (when ok) ∙ eq))
        | inr bad ↦ cc (sym (when bad) ∙ eq)
      ]
    where
      when :
          {t : Bool}
          → is_success (user_button_arm_irq e) ≡ t
          → enter_loop b z c e start_ms zb hw r ≡ (
              if not t
              then halted (led_request_fatal 5 e.uptime_ms r.led)
              else running (
                entered z c start_ms zb hw r,
                Button.init button_short_max_ms button_long_min_ms,
                r.led,
              ))
      when h =
          ap
            (λ t.
              if not t
              then halted (led_request_fatal 5 e.uptime_ms r.led)
              else running (
                entered z c start_ms zb hw r,
                Button.init button_short_max_ms button_long_min_ms,
                r.led,
              ))
            h

  -- A start that reaches the sample loop finds nothing lost.
  pub enter_loop-Safe :
      (z : Zboss) (c : Config) (e : BootEnv) (start_ms : ℕ) (zb : Zb) (hw : List HwCall)
      (r : Restored Fs) (x : Loop Fs × PressClassifier × Led)
      → Resumed b r
      → r.store.initialized ≡ true
      → r.acc.total < 2 ^ 64
      → enter_loop b z c e start_ms zb hw r ≡ running x
      → Safe b x.0 × (x.0.acc ≡ r.acc)
  enter_loop-Safe z c e start_ms zb hw r x k up fits eq =
      let s : Safe b (entered z c start_ms zb hw r) = record {
        policy = refl;
        up = up;
        total_fits = fits;
        restores = subst (λ v. Restores b r.store v) (sym k.last_saved) k.restores;
        saved_le = omega (arith, k.last_saved);
        loss = omega (arith, k.last_saved);
      } in
      let q = enter_loop_lem z c e start_ms zb hw r x eq in
      (subst (Safe b) (sym q) s, ap (λ (m : Loop Fs). m.acc) q)
