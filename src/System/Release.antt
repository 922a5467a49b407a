-- ===== src/System/Release.antt =====
-- The first edge of the button after the start of src/main.c, where it is a release: the button of the
-- erase gesture is let go when the interrupt is armed already.
use n_rf52840_power_meter.Prelude.{ℕ, ◌+◌, ◌≤◌, ◌<◌, ◌≡◌, inl, inr, refl, arith, sym, ◌∙◌, ap}
use mathlib.Core.Path.{subst}
use mathlib.Core.Option.{some}
use n_rf52840_power_meter.Prelude.Int.{pos}
use n_rf52840_power_meter.Config.{Config}
use n_rf52840_power_meter.Nvs.{NvsBackend}
use n_rf52840_power_meter.Button
use n_rf52840_power_meter.Led.Controller.Fatal.{Yields}
use n_rf52840_power_meter.Zigbee.{Zboss, call, schedule_app_callback, factory_reset_cb}
use n_rf52840_power_meter.Zigbee.Signals.{Node}
use n_rf52840_power_meter.Main.{button_short_max_ms, button_long_min_ms}
use n_rf52840_power_meter.Main.Press.{user_button_isr, button_dispatch}
use n_rf52840_power_meter.Main.Press.Gesture.{release-Asked}
use n_rf52840_power_meter.Main.Boot.{Boot, running, BootEnv, Booting, boot}
use n_rf52840_power_meter.Main.Boot.Enter.{ran}
use n_rf52840_power_meter.Main.Boot.Course.{
  Started, Course, no_cdc, no_usb, no_button, no_led, no_counter, no_interrupt, all_up, regained,
  started,
}
use n_rf52840_power_meter.Main.Boot.Diagnosis.{boot-Course}
use n_rf52840_power_meter.System.{panel}
use n_rf52840_power_meter.System.Start.{begin}

module _ {Fs : Type 0} (b : NvsBackend Fs) (z : Zboss) (c : Config) (e : BootEnv)
    (s : Booting Fs) where
  Course-classifier :
      (o : Boot (Started Fs)) (x : Started Fs)
      → Course b z c e s o
      → o ≡ running x
      → x.1 ≡ Button.init button_short_max_ms button_long_min_ms
  Course-classifier _ x (no_cdc l _ _ _) eq = cc eq
  Course-classifier _ x (no_usb l _ _ _ _) eq = cc eq
  Course-classifier _ x (no_button l _ _ _) eq = cc eq
  Course-classifier _ x (no_led _ _ _) eq = cc eq
  Course-classifier _ x (no_counter l _ _ _ _ _ _) eq = cc eq
  Course-classifier _ x (no_interrupt l _ _ _ _ _ _) eq = cc eq
  Course-classifier _ x (all_up held held_led led _ _ _ _ _ _ _) eq =
      let k : started b z c e s (regained b z c e s held held_led led) ≡ x = ap (λ o. ran o x) eq in
      ap (λ (y : Started Fs). y.1) (sym k)

  -- A start that comes to the sample loop, with fuel for the polls of the hold gesture and an LED
  -- whose pattern yields to the fatal one: if the first edge of the button is a release, it is taken
  -- for one of a press that began with the uptime. A button that is let go after the first three
  -- seconds, as that of the erase gesture is once the interrupt is armed, asks for a factory reset.
  pub first_release_resets :
      (fuel : ℕ) (x : Started Fs) (meanwhile : Node → Node) (now : ℕ)
      → 300 < fuel
      → Yields s.led.state
      → boot b fuel z c e s ≡ some (running x)
      → button_long_min_ms ≤ now
      → let p = panel (begin x) in
        (button_dispatch z c meanwhile (user_button_isr (pos now) (pos 0) p)).node.zb
        ≡ call (schedule_app_callback factory_reset_cb) x.0.zb
  first_release_resets fuel x meanwhile now f y eq late =
      let k = boot-Course b z c e s y fuel f in
      let same : k.0 ≡ running x = cc (sym k.1 ∙ eq) in
      let cl = Course-classifier k.0 x k.2 same in
      let asks : ℕ → Type 0 = λ t.
        (button_dispatch z c meanwhile (user_button_isr (pos t) (pos 0) (panel (begin x)))).node.zb
        ≡ call (schedule_app_callback factory_reset_cb) x.0.zb in
      let zero_now : 0 + now ≡ now = omega arith in
      subst asks zero_now (elim (release-Asked z c meanwhile 0 now (panel (begin x)) refl cl) [
        | inl a ↦ a.1
        | inr (inl a) ↦ absurd (omega (arith, a.1, late))
        | inr (inr (inl a)) ↦ absurd (omega (arith, a.1, late))
        | inr (inr (inr a)) ↦ elim a.0 [
          | inl at ↦ absurd (omega (arith, at, late))
          | inr at ↦ absurd (omega (arith, at.1, late))
        ]
      ])
