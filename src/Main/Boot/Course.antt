-- ===== src/Main/Boot/Course.antt =====
-- The courses that a start can take.
use n_rf52840_power_meter.Prelude.{◌≡◌, ◌↔◌, ◌⊎◌, Bool, true, false, if◌then◌else◌, List}
use n_rf52840_power_meter.Config.{Config}
use n_rf52840_power_meter.Rc.{Rc, success, is_success}
use n_rf52840_power_meter.Button.{PressClassifier}
use n_rf52840_power_meter.Button
use n_rf52840_power_meter.Nvs.{NvsBackend, store_init}
use n_rf52840_power_meter.Pulse.{HwCall, hw_init}
use n_rf52840_power_meter.Led.Controller.{Led, controller_init}
use n_rf52840_power_meter.Zigbee.{Zboss}
use n_rf52840_power_meter.Main.{button_short_max_ms, button_long_min_ms}
use n_rf52840_power_meter.Main.Loop.{Loop}
use n_rf52840_power_meter.Main.Boot.{
  Boot, halted, blinking, running, BootEnv, Booting, Restored, user_button_configure,
  user_button_arm_irq, usb_enabled, restore_total,
}
use n_rf52840_power_meter.Main.Boot.Enter.{entered}
use n_rf52840_power_meter.Main.Boot.Hold.{Held}
use n_rf52840_power_meter.Main.Boot.Ready.{Flashes, Ready}

abbrev pub Started : Type 0 → Type 0
Started Fs = Loop Fs × PressClassifier × Led

module _ {Fs : Type 0} (b : NvsBackend Fs) (z : Zboss) (c : Config) (e : BootEnv)
    (s : Booting Fs) where
  -- The pulse counter's initialisation, on the store as its own initialisation leaves it.
  abbrev pub counted_by : Rc × List HwCall
  counted_by = hw_init e.nrfx b c (store_init b s.store).1 s.hw

  -- The checks, each with the code that it reads.
  abbrev pub ConsoleUp : Type 0
  ConsoleUp =
      (c.usb_device_stack ≡ false) ⊎ ((e.cdc_ready ≡ true) × (usb_enabled e.usb_enable ≡ true))

  abbrev pub ButtonUp : Bool → Type 0
  ButtonUp x = is_success (user_button_configure e) ≡ x

  abbrev pub LedUp : Bool → Type 0
  LedUp x = is_success (controller_init e.led_ready e.led_configure s.led).0 ≡ x

  abbrev pub CounterUp : Type 0
  CounterUp = (c.hw_pulse_counter ≡ false) ⊎ (is_success counted_by.0 ≡ true)

  abbrev pub InterruptUp : Bool → Type 0
  InterruptUp x = is_success (user_button_arm_irq e) ≡ x

  -- The hardware calls with which the sample loop starts.
  abbrev pub wired : List HwCall
  wired = if c.hw_pulse_counter then counted_by.1 else s.hw

  -- What is restored from the store, and the locals that the sample loop gets with it.
  abbrev pub regained : Bool → Led → Led → Restored Fs
  regained held held_led led =
      let rs = store_init b s.store in restore_total b rs.0 (held, held_led) led rs.1

  abbrev pub started : Restored Fs → Started Fs
  started r = (
    entered b z c e.uptime_ms s.zb wired r,
    Button.init button_short_max_ms button_long_min_ms,
    r.led,
  )

  -- The button is held at each poll of the erase gesture.
  abbrev pub HeldAtBoot : Type 0
  HeldAtBoot = Held 300 e.pin 0

  -- What a start comes to: the first check that fails decides, and its number is the count of flashes.
  pub data Course : Boot (Started Fs) → Type 0 where
    no_cdc :
        (l : Led)
        → c.usb_device_stack ≡ true
        → e.cdc_ready ≡ false
        → Flashes 1 l
        → Course (halted l)
    no_usb :
        (l : Led)
        → c.usb_device_stack ≡ true
        → e.cdc_ready ≡ true
        → usb_enabled e.usb_enable ≡ false
        → Flashes 2 l
        → Course (halted l)
    no_button : (l : Led) → ConsoleUp → ButtonUp false → Flashes 3 l → Course (halted l)
    no_led : ConsoleUp → ButtonUp true → LedUp false → Course blinking
    no_counter :
        (l : Led)
        → ConsoleUp
        → ButtonUp true
        → LedUp true
        → c.hw_pulse_counter ≡ true
        → is_success counted_by.0 ≡ false
        → Flashes 4 l
        → Course (halted l)
    no_interrupt :
        (l : Led)
        → ConsoleUp
        → ButtonUp true
        → LedUp true
        → CounterUp
        → InterruptUp false
        → Flashes 5 l
        → Course (halted l)
    all_up :
        (held : Bool) (held_led led : Led)
        → ConsoleUp
        → ButtonUp true
        → LedUp true
        → CounterUp
        → InterruptUp true
        → ((store_init b s.store).0 ≡ success → (held ≡ true) ↔ HeldAtBoot)
        → Ready (regained held held_led led).led
        → Course (running (started (regained held held_led led)))
