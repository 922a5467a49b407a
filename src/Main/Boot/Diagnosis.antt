-- ===== src/Main/Boot/Diagnosis.antt =====
-- Every start takes one of the courses.
use n_rf52840_power_meter.Prelude.{
  ℕ, ◌≤◌, ◌<◌, ◌≡◌, ◌↔◌, ◌⊎◌, inl, inr, refl, arith, sym, ◌∙◌, ap, Bool, true, false, if◌then◌else◌,
  Bool-cases,
}
use mathlib.Core.Path.{subst}
use mathlib.Core.Option.{Option, some, none}
use n_rf52840_power_meter.Config.{Config}
use n_rf52840_power_meter.Rc.{Rc, success, fail, is_success}
use n_rf52840_power_meter.Nvs.{NvsBackend, store_init}
use n_rf52840_power_meter.Led.Priority.{button_ack, prio_button_ack}
use n_rf52840_power_meter.Led.Controller.{Led, controller_init, led_request, led_request_fatal}
use n_rf52840_power_meter.Led.Controller.Fatal.{Yields}
use n_rf52840_power_meter.Zigbee.{Zboss}
use n_rf52840_power_meter.Main.{boot_erase_hold_ms}
use n_rf52840_power_meter.Main.Boot.{
  Boot, halted, blinking, running, BootEnv, Booting, Restored, user_button_configure,
  user_button_arm_irq, usb_enabled, start_console, start_inputs, start_counter, restore_total,
  enter_loop, host_waited, after_counter, boot,
}
use n_rf52840_power_meter.Main.Boot.Hold.{wait_for_host_dtr_ends, lit, boot_button_held_iff}
use n_rf52840_power_meter.Main.Boot.Ready.{
  Flashes, led_request_fatal-Flashes, Ready, led_request-Ready, lit-Ready, controller_init-Ready,
  restore_total-Ready,
}
use n_rf52840_power_meter.Main.Boot.Course.{
  Started, counted_by, ConsoleUp, ButtonUp, LedUp, CounterUp, wired, regained, HeldAtBoot, Course,
  no_cdc, no_usb, no_button, no_led, no_counter, no_interrupt, all_up,
}

module _ {Fs : Type 0} (b : NvsBackend Fs) (z : Zboss) (c : Config) (e : BootEnv)
    (s : Booting Fs) where
  -- The LED of a start without a failure up to the counter.
  abbrev flashed : Led
  flashed =
      let led = (controller_init e.led_ready e.led_configure s.led).1 in
      if c.boot_flash then led_request button_ack prio_button_ack led else led

  flashed-Ready : LedUp b z c e s true → Ready flashed
  flashed-Ready ok =
      let k = controller_init-Ready e.led_ready e.led_configure s.led ok in
      let led = (controller_init e.led_ready e.led_configure s.led).1 in
      elim (Bool-cases c.boot_flash) [
        | inl x ↦ rw x (led_request-Ready button_ack prio_button_ack led (omega arith) k.1)
        | inr x ↦ rw x k
      ]

  -- A step of the start either fails, with the course that this decides, or hands on.
  abbrev Decides : {A : Type 0} → Boot A → (A → Type 0) → Type 0
  Decides {A} o Next =
      ((l : Led) × (o ≡ halted l) × Course b z c e s (halted l))
      ⊎ ((o ≡ blinking) × Course b z c e s blinking)
      ⊎ ((x : A) × (o ≡ running x) × Next x)

  module _ (yields : Yields s.led.state) where
    fatal_stop_lem : (n : ℕ) → 1 ≤ n → n ≤ 5 → Flashes n (led_request_fatal n e.uptime_ms s.led)
    fatal_stop_lem n lo hi = led_request_fatal-Flashes n e.uptime_ms s.led yields lo hi

    start_console-Decides : Decides (start_console c e s) (λ t. (t ≡ s) × (ConsoleUp b z c e s))
    unfolding start_console
    start_console-Decides = elim (Bool-cases c.usb_device_stack) [
      | inr off ↦ inr (inr (s, rw off refl, (refl, inl off)))
      | inl on ↦ elim (Bool-cases e.cdc_ready) [
        | inr x ↦ inl (
          led_request_fatal 1 e.uptime_ms s.led,
          rw (on, x) refl,
          no_cdc _ on x (fatal_stop_lem 1 (omega arith) (omega arith)),
        )
        | inl y ↦ elim (Bool-cases (usb_enabled e.usb_enable)) [
          | inr x ↦ inl (
            led_request_fatal 2 e.uptime_ms s.led,
            rw (on, y, x) refl,
            no_usb _ on y x (fatal_stop_lem 2 (omega arith) (omega arith)),
          )
          | inl x ↦ inr (inr (s, rw (on, y, x) refl, (refl, inr (y, x))))
        ]
      ]
    ]

    start_inputs-Decides :
        (ConsoleUp b z c e s)
        → Decides
            (start_inputs c e s)
            (λ t. (t ≡ record s { led = flashed }) × ButtonUp b z c e s true × LedUp b z c e s true)
    unfolding start_inputs
    start_inputs-Decides console = elim (Bool-cases (is_success (user_button_configure e))) [
      | inr x ↦ inl (
        led_request_fatal 3 e.uptime_ms s.led,
        rw x refl,
        no_button _ console x (fatal_stop_lem 3 (omega arith) (omega arith)),
      )
      | inl x ↦
          elim (Bool-cases (is_success (controller_init e.led_ready e.led_configure s.led).0)) [
            | inr y ↦ inr (inl (rw (x, y) refl, no_led console x y))
            | inl y ↦ inr (inr (record s { led = flashed }, rw (x, y) refl, (refl, x, y)))
          ]
    ]

    -- The state that the counter's start hands on.
    abbrev counted_from : Booting Fs
    counted_from = record s {
      led = flashed;
      store = (store_init b s.store).1;
      hw = wired b z c e s;
    }

    start_counter-Decides :
        (ConsoleUp b z c e s)
        → ButtonUp b z c e s true
        → LedUp b z c e s true
        → let t = record s { led = flashed } in
          Decides
            (start_counter c e b t)
            (λ r. (r ≡ ((store_init b s.store).0, counted_from)) × (CounterUp b z c e s))
    unfolding start_counter
    start_counter-Decides console button led = elim (Bool-cases c.hw_pulse_counter) [
      | inr off ↦ inr (inr (((store_init b s.store).0, counted_from), rw off refl, (refl, inl off)))
      | inl on ↦ elim (Bool-cases (is_success (counted_by b z c e s).0)) [
        | inr x ↦ inl (
          led_request_fatal 4 e.uptime_ms flashed,
          simp (on, x),
          no_counter _ console button led on x (
              led_request_fatal-Flashes 4 e.uptime_ms flashed (flashed-Ready led).1 (omega arith)
                (omega arith)),
        )
        | inl x ↦ inr (inr (((store_init b s.store).0, counted_from), simp (on, x), (refl, inr x)))
      ]
    ]

    enter_loop-Course :
        (held : Bool) (held_led led : Led)
        → ConsoleUp b z c e s
        → ButtonUp b z c e s true
        → LedUp b z c e s true
        → CounterUp b z c e s
        → ((store_init b s.store).0 ≡ success → (held ≡ true) ↔ HeldAtBoot b z c e s)
        → Ready held_led
        → Ready led
        → Course b z c e s (
            enter_loop b z c e e.uptime_ms s.zb
              (wired b z c e s)
              (regained b z c e s held held_led led))
    unfolding enter_loop
    enter_loop-Course held held_led led console button lit counter gesture h k =
        let rs = store_init b s.store in
        let r = regained b z c e s held held_led led in
        let y = restore_total-Ready b rs.0 held held_led led rs.1 h k in
        elim (Bool-cases (is_success (user_button_arm_irq e))) [
          | inr x ↦ rw x (
              no_interrupt (led_request_fatal 5 e.uptime_ms r.led) console button lit counter x
                (led_request_fatal-Flashes 5 e.uptime_ms r.led y.1 (omega arith) (omega arith)))
          | inl x ↦ rw x (all_up held held_led led console button lit counter x gesture y)
        ]

    host_waited_ends :
        {A : Type 0} (fuel : ℕ) → 300 < fuel → (x : A) → host_waited fuel c e x ≡ some x
    host_waited_ends fuel f x =
        let w =
          wait_for_host_dtr_ends fuel 5000 e.dtr e.uptime_ms (omega arith) (omega (arith, f)) in
        elim (Bool-cases c.usb_device_stack) [ inl on ↦ rw (on, w.1) refl | inr off ↦ rw off refl ]

    after_counter-Course :
        (fuel : ℕ) (rc : Rc)
        → 300 < fuel
        → (store_init b s.store).0 ≡ rc
        → ConsoleUp b z c e s
        → ButtonUp b z c e s true
        → LedUp b z c e s true
        → CounterUp b z c e s
        → (o : Boot (Started Fs)) × (after_counter b fuel z c e (running (rc, counted_from))
            ≡ some o)
          × Course b z c e s o
    after_counter-Course fuel success f eq console button led counter =
        let quiet = flashed-Ready led in
        let store = (store_init b s.store).1 in
        let goes = enter_loop b z c e e.uptime_ms s.zb (wired b z c e s) in
        let hold =
          boot_button_held_iff fuel boot_erase_hold_ms e.pin flashed (omega arith)
            (omega (arith, f)) in
        let h = hold.0 in
        let r : Rc → Restored Fs = λ rc. restore_total b rc (h, lit h flashed) flashed store in
        let k =
          enter_loop-Course h (lit h flashed) flashed console button led counter (λ _. hold.2)
            (lit-Ready h flashed quiet) quiet in
        let chosen : Option (Bool × Led) → Option (Boot (Started Fs)) = λ o. elim o [
          | none ↦ none
          | some x ↦ host_waited fuel c e (goes (restore_total b success x flashed store))
        ] in
        (
          goes (r success),
          ap chosen hold.1 ∙ host_waited_ends fuel f (goes (r success)),
          subst (λ rc. Course b z c e s (goes (r rc))) eq k,
        )
    after_counter-Course fuel (fail err) f eq console button led counter =
        let quiet = flashed-Ready led in
        let store = (store_init b s.store).1 in
        let goes = enter_loop b z c e e.uptime_ms s.zb (wired b z c e s) in
        let r : Rc → Restored Fs = λ rc. restore_total b rc (false, flashed) flashed store in
        let k =
          enter_loop-Course false flashed flashed console button led counter
            (λ ok. cc (sym eq ∙ ok)) quiet quiet in
        (
          goes (r (fail err)),
          host_waited_ends fuel f (goes (r (fail err))),
          subst (λ rc. Course b z c e s (goes (r rc))) eq k,
        )

    -- With fuel for the polls of the hold gesture, which is enough for the wait for a serial host
    -- too, and with an LED whose pattern yields to the fatal
    -- one, as at power-up, every start comes to an end, and to the one that its first failing check
    -- decides: a halt that flashes 1 to 5 times for the console, USB, the button, the pulse counter
    -- or the button's interrupt, the blinking of a failed LED controller, or the sample loop with
    -- what the store restored, which is erased first, where the store initialises, exactly if the
    -- button is held at each poll.
    pub boot-Course :
        (fuel : ℕ)
        → 300 < fuel
        → (o : Boot (Started Fs)) × (boot b fuel z c e s ≡ some o) × Course b z c e s o
    unfolding boot
    boot-Course fuel f = elim start_console-Decides [
      | inl x ↦ (halted x.0, rw x.1 refl, x.2)
      | inr (inl x) ↦ (blinking, rw x.0 refl, x.1)
      | inr (inr x) ↦
          let console = x.2.1 in
          let u = x.1 ∙ ap running x.2.0 in
          elim (start_inputs-Decides console) [
            | inl y ↦ (halted y.0, rw (u, y.1) refl, y.2)
            | inr (inl y) ↦ (blinking, rw (u, y.0) refl, y.1)
            | inr (inr y) ↦
                let v = y.1 ∙ ap running y.2.0 in
                elim (start_counter-Decides console y.2.1 y.2.2) [
                  | inl t ↦ (halted t.0, rw (u, v, t.1) refl, t.2)
                  | inr (inl t) ↦ (blinking, rw (u, v, t.0) refl, t.1)
                  | inr (inr t) ↦
                      let w = t.1 ∙ ap running t.2.0 in
                      let k =
                        after_counter-Course fuel (store_init b s.store).0 f refl console y.2.1
                          y.2.2 t.2.1 in
                      (k.0, rw (u, v, w) k.1, k.2)
                ]
          ]
    ]
