-- ===== src/Main/Boot.antt =====
-- The start of `main` in src/main.c, up to the sample loop. What the drivers answer is `BootEnv`. The
-- timer ticks of the LED between the steps are left out.
pub mod Hold
pub mod Restore
pub mod Enter
pub mod Ready
pub mod Course
pub mod Diagnosis
use n_rf52840_power_meter.Prelude.{ℕ, Bool, true, false, not, if◌then◌else◌, List}
use mathlib.Core.Option.{Option, some, none}
use n_rf52840_power_meter.Prelude.Int.{ℤ, pos, sub_ℕ}
use n_rf52840_power_meter.Config.{Config}
use n_rf52840_power_meter.Rc.{Rc, success, fail, enodev, is_success, is_ealready}
use n_rf52840_power_meter.Accumulator.{PulseAccumulator}
use n_rf52840_power_meter.Accumulator
use n_rf52840_power_meter.Persist
use n_rf52840_power_meter.Gate
use n_rf52840_power_meter.Nvs.{
  NvsBackend, Store, loaded, not_loaded, load_total, save_total, store_init,
}
use n_rf52840_power_meter.Pulse.{HwCall, Nrfx, hw_init}
use n_rf52840_power_meter.Button.{PressClassifier}
use n_rf52840_power_meter.Button
use n_rf52840_power_meter.Led.Priority.{
  long_press_hold, button_ack, erase_confirm, prio_button_ack, prio_erase_confirm,
}
use n_rf52840_power_meter.Led.Controller.{
  Pin, Led, controller_init, led_request, led_cancel, led_request_fatal,
}
use n_rf52840_power_meter.Zigbee.{Zboss, Zb}
use n_rf52840_power_meter.Zigbee.Attrs.{app_init}
use n_rf52840_power_meter.Zigbee.Publish.{publish_summation}
use n_rf52840_power_meter.Main.{
  persist_interval_ms, persist_max_pulse_delta, zigbee_report_pulse_heartbeat, button_short_max_ms,
  button_long_min_ms, boot_erase_hold_ms,
}
use n_rf52840_power_meter.Main.Poll.{boot_button_held, wait_for_host_dtr_or_timeout}
use n_rf52840_power_meter.Main.Loop.{Loop}

-- What the drivers answer during the start. `pin` gives the button's level at each poll, `dtr` the
-- line state that each call of `uart_line_ctrl_get` leaves, from what was there.
pub record BootEnv : Type 0 where
  pub cdc_ready : Bool
  pub usb_enable : Rc
  pub button_ready : Bool
  pub button_configure : Rc
  pub led_ready : Pin → Bool
  pub led_configure : Pin → Rc
  pub pin : ℕ → ℤ
  pub dtr : ℕ → ℕ → ℕ
  pub button_interrupt_configure : Rc
  pub button_add_callback : Rc
  pub nrfx : Nrfx
  pub uptime_ms : ℕ

-- A start that halts on a fatal pattern, one that blinks for a failed LED controller, and one that
-- goes on.
pub data Boot (A : Type 0) : Type 0 where
  halted : Led → Boot A
  blinking : Boot A
  running : A → Boot A

abbrev pub and_then : {A B : Type 0} → Boot A → (A → Boot B) → Boot B
and_then (halted l) f = halted l
and_then blinking f = blinking
and_then (running x) f = f x

-- The state as the start goes on.
pub record Booting (Fs : Type 0) : Type 0 where
  pub zb : Zb
  pub led : Led
  pub store : Store Fs
  pub hw : List HwCall

-- What `main` keeps once it has restored the total.
pub record Restored (Fs : Type 0) : Type 0 where
  pub led : Led
  pub store : Store Fs
  pub acc : PulseAccumulator
  pub last_saved_total : ℕ

abbrev pub user_button_configure : BootEnv → Rc
user_button_configure e = if not e.button_ready then fail enodev else e.button_configure

-- The callback's record is set up in between.
abbrev pub user_button_arm_irq : BootEnv → Rc
user_button_arm_irq e = elim e.button_interrupt_configure [
  | success ↦ e.button_add_callback
  | fail err ↦ fail err
]

-- `usb_err == 0 || usb_err == -EALREADY`.
abbrev pub usb_enabled : Rc → Bool
usb_enabled success = true
usb_enabled (fail err) = is_ealready err

module _ {Fs : Type 0} (c : Config) (e : BootEnv) where
  abbrev fatal_stop : {A : Type 0} → ℕ → Booting Fs → Boot A
  fatal_stop count s = halted (led_request_fatal count e.uptime_ms s.led)

  -- Categories 1 and 2.
  unfoldable pub start_console : Booting Fs → Boot (Booting Fs)
  start_console s =
      if not c.usb_device_stack
      then running s
      else if not e.cdc_ready
      then fatal_stop 1 s
      else if not (usb_enabled e.usb_enable)
      then fatal_stop 2 s
      else running s

  -- Category 3, then the LED controller with its own fallback, and the boot flash.
  unfoldable pub start_inputs : Booting Fs → Boot (Booting Fs)
  start_inputs s =
      if not (is_success (user_button_configure e))
      then fatal_stop 3 s
      else let (rc, led) = controller_init e.led_ready e.led_configure s.led in
        if not (is_success rc)
        then blinking
        else running (record s {
          led = if c.boot_flash then led_request button_ack prio_button_ack led else led;
        })

  -- Category 4. The store comes first, since the counter loads its threshold from it.
  unfoldable pub start_counter : NvsBackend Fs → Booting Fs → Boot (Rc × Booting Fs)
  start_counter b s =
      let (nvs_err, store) = store_init b s.store in
      if c.hw_pulse_counter
      then (let (hw_err, hw) = hw_init e.nrfx b c store s.hw in
          if not (is_success hw_err)
          then fatal_stop 4 (record s { store = store; hw = hw })
          else running (nvs_err, record s { store = store; hw = hw }))
      else running (nvs_err, record s { store = store })

-- The wait for a serial monitor, before what follows; the fuel is for its turns.
abbrev pub host_waited : {A : Type 0} → ℕ → Config → BootEnv → A → Option A
host_waited fuel c e x =
    if c.usb_device_stack
    then elim (wait_for_host_dtr_or_timeout fuel (pos 5000) e.dtr e.uptime_ms) [
      | none ↦ none
      | some _ ↦ some x
    ]
    else some x

module _ {Fs : Type 0} (b : NvsBackend Fs) where
  -- The erase that a held button asks for.
  unfoldable pub erase_if_held : Bool → Led → Store Fs → Led × Store Fs
  erase_if_held held led store =
      if held
      then (let (erase_err, store') = save_total b 0 store in
          let cancelled = led_cancel long_press_hold led in
          elim erase_err [
            | success ↦ (led_request erase_confirm prio_erase_confirm cancelled, store')
            | fail _ ↦ (cancelled, store')
          ])
      else (led, store)

  -- The load that follows; a failure leaves the accumulator of a cold boot.
  unfoldable pub load_into : Led → Store Fs → Restored Fs
  load_into led store = elim (load_total b store) [
    | loaded saved ↦ record {
      led = led;
      store = store;
      acc = Accumulator.restore saved;
      last_saved_total = saved;
    }
    | not_loaded e ↦ record {
      led = led;
      store = store;
      acc = Accumulator.init;
      last_saved_total = 0;
    }
  ]

  -- The branch on `nvs_err`; `held` is what `boot_button_held` found, with its LED.
  unfoldable pub restore_total : Rc → Bool × Led → Led → Store Fs → Restored Fs
  restore_total success held led store =
      let (led', store') = erase_if_held held.0 held.1 store in load_into led' store'
  restore_total (fail e) held led store = record {
    led = led;
    store = store;
    acc = Accumulator.init;
    last_saved_total = 0;
  }

  -- Category 5, the first publish, and the locals as the sample loop finds them. The clock was
  -- `start_ms` when `last_saved_ms` was set back by one interval.
  unfoldable pub enter_loop :
      Zboss
      → Config
      → BootEnv
      → ℕ
      → Zb
      → List HwCall
      → Restored Fs
      → Boot (Loop Fs × PressClassifier × Led)
  enter_loop z c e start_ms zb hw r =
      let classifier = Button.init button_short_max_ms button_long_min_ms in
      let up = app_init b z c r.store zb in
      if not (is_success (user_button_arm_irq e))
      then halted (led_request_fatal 5 e.uptime_ms r.led)
      else let total = Accumulator.total_of r.acc in
        running (
          record {
            acc = r.acc;
            policy = Persist.init persist_interval_ms persist_max_pulse_delta;
            pulse_heartbeat = Gate.init zigbee_report_pulse_heartbeat;
            last_saved_total = r.last_saved_total;
            last_saved_ms = sub_ℕ start_ms persist_interval_ms;
            last_published_total = total;
            zb = publish_summation total up;
            store = r.store;
            hw = hw;
          },
          classifier,
          r.led,
        )

  -- `main` from the counter's start on: the branch on `nvs_err` and the rest.
  abbrev pub after_counter :
      ℕ
      → Zboss
      → Config
      → BootEnv
      → Boot (Rc × Booting Fs)
      → Option (Boot (Loop Fs × PressClassifier × Led))
  after_counter fuel z c e (halted l) = some (halted l)
  after_counter fuel z c e blinking = some blinking
  after_counter fuel z c e (running (fail err, s)) =
      let r = restore_total (fail err) (false, s.led) s.led s.store in
      host_waited fuel c e (enter_loop z c e e.uptime_ms s.zb s.hw r)
  after_counter fuel z c e (running (success, s)) =
      elim (boot_button_held fuel boot_erase_hold_ms e.pin s.led) [
        | none ↦ none
        | some held ↦
            let r = restore_total success held s.led s.store in
            host_waited fuel c e (enter_loop z c e e.uptime_ms s.zb s.hw r)
      ]

  -- `main` up to `while (1)`; `none` where the fuel of a poll loop does not last.
  unfoldable pub boot :
      ℕ → Zboss → Config → BootEnv → Booting Fs → Option (Boot (Loop Fs × PressClassifier × Led))
  boot fuel z c e s0 =
      after_counter fuel z c e
        (and_then (start_console c e s0) (λ s. and_then (start_inputs c e s) (start_counter c e b)))
