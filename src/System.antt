-- ===== src/System.antt =====
-- The threads of the firmware side by side, as the steps of one system: the sample loop and the
-- report timer of src/main.c, the button's interrupt and its dispatch thread, the ZBOSS thread of
-- src/zigbee_app.c with a coordinator's writes, and the LED's timer of src/led_controller.c. A turn
-- of the sample loop is three steps, the join that a press asks for is two, and so is a report of
-- the timer, so that the other threads come in between.
pub mod Keeps
pub mod Published
pub mod Sound
pub mod Turns
pub mod Writes
pub mod Run
pub mod Start
pub mod Shown
pub mod Life
pub mod Release
pub mod Spec
pub mod View
pub mod Refines
use n_rf52840_power_meter.Prelude.{
  ℕ, ◌+◌, ◌^◌, ◌<◌, ◌≡◌, ◌≢◌, Bool, true, false, ◌!=◌, if◌then◌else◌, u32, List,
}
use mathlib.Core.Option.{Option, some, none}
use n_rf52840_power_meter.Prelude.Int.{ℤ}
use n_rf52840_power_meter.Config.{Config}
use n_rf52840_power_meter.Accumulator
use n_rf52840_power_meter.Button.{PressClassifier, classify, Action, join, action_for_press}
use n_rf52840_power_meter.Led.Priority.{button_ack, prio_button_ack}
use n_rf52840_power_meter.Led.Controller.{Led, led_request}
use n_rf52840_power_meter.Led.Controller.Tick.{tick_handler}
use n_rf52840_power_meter.Nvs.{NvsBackend}
use n_rf52840_power_meter.Zigbee.{U24, ZbRet, Zboss, Zb}
use n_rf52840_power_meter.Zigbee.Signals.{
  Signal, Node, on_led, signal_handler, wake_turbo_poll, start_steering, factory_reset_now,
  start_join, is_joined,
}
use n_rf52840_power_meter.Zigbee.Write.{Meter}
use n_rf52840_power_meter.Zigbee.Publish.{
  Adc, run_publish_summation, run_publish_summation_and_report,
}
use n_rf52840_power_meter.Zigbee.Calibrated.{Fits, write_the_divisor, write_the_width}
use n_rf52840_power_meter.Main.Press.{
  KernelCall, Panel, user_button_isr, long_press_hold_arm_handler, act,
  metering_report_work_handler,
}
use n_rf52840_power_meter.Main.Loop.{Loop, Sample, count_pulses, publish_if_changed, persist_if_due}

-- Where the sample loop stands in its turn.
pub data Turn : Type 0 where
  counting publishing persisting : Turn

-- The whole state. `report` is the total that the handler of the report timer has read and not yet
-- published: it blocks for the battery in between. `stale` says that the total that waits for the
-- ZBOSS thread is not the latest, since such a report was overtaken. The last four fields are not
-- the program's: the total that the start restored, the pulses that the hardware has counted since,
-- those that the loop has read, and those that it had read when it last ended a turn.
pub record World (Fs : Type 0) : Type 0 where
  pub loop : Loop Fs
  pub led : Led
  pub press_start_ms : ℤ
  pub press_duration_ms : ℕ
  pub classifier : PressClassifier
  pub kernel_calls : List KernelCall
  pub acked : Bool
  pub report : Option ℕ
  pub stale : Bool
  pub turn : Turn
  pub base : ℕ
  pub emitted : ℕ
  pub sampled : ℕ
  pub settled : ℕ

module _ {Fs : Type 0} where
  abbrev pub node : World Fs → Node
  node w = record { zb = w.loop.zb; led = w.led }

  abbrev pub with_zb : Zb → World Fs → World Fs
  with_zb zb w = let l = w.loop in record w { loop = record l { zb = zb } }

  abbrev pub with_node : Node → World Fs → World Fs
  with_node n w = let l = w.loop in record w { loop = record l { zb = n.zb }; led = n.led }

  abbrev pub meter : World Fs → Meter Fs
  meter w = record { zb = w.loop.zb; store = w.loop.store; hw = w.loop.hw }

  abbrev pub with_meter : Meter Fs → World Fs → World Fs
  with_meter m w =
      let l = w.loop in record w { loop = record l { zb = m.zb; store = m.store; hw = m.hw } }

  abbrev pub panel : World Fs → Panel
  panel w = record {
    press_start_ms = w.press_start_ms;
    press_duration_ms = w.press_duration_ms;
    classifier = w.classifier;
    node = node w;
    calls = w.kernel_calls;
  }

  abbrev pub with_panel : Panel → World Fs → World Fs
  with_panel p w =
      let l = w.loop in
      record w {
        loop = record l { zb = p.node.zb };
        led = p.node.led;
        press_start_ms = p.press_start_ms;
        press_duration_ms = p.press_duration_ms;
        classifier = p.classifier;
        kernel_calls = p.calls;
      }

  -- The action that the dispatch thread takes for the last press.
  abbrev pub pressed : World Fs → Action
  pressed w =
      action_for_press (classify w.classifier (u32 w.press_duration_ms)) (is_joined w.loop.zb)

-- The pulses of a step keep the life's count below 2^64, and the loop reads the register at least once
-- in 2^32 of them. The restored total and every coordinator's Divisor fit their fields. A callback of
-- the ZBOSS thread may run at any time, also where none is scheduled. The report of the timer asks for
-- its LED pattern in the step that publishes.
pub data Step {Fs : Type 0} (b : NvsBackend Fs) (z : Zboss) (c : Config)
    : World Fs → World Fs → Type 0 where
  emit :
      (w : World Fs) (n : ℕ)
      → w.base + w.emitted + n < 2 ^ 64
      → Step b z c w (record w { emitted = w.emitted + n })
  count :
      (w : World Fs) (i : Sample)
      → w.turn ≡ counting
      → i.nrfx.captured ≡ u32 w.emitted
      → w.emitted < w.sampled + 2 ^ 32
      → Step b z c w
          (record w { loop = count_pulses b c i w.loop; sampled = w.emitted; turn = publishing })
  publish :
      (w : World Fs) (i : Sample)
      → w.turn ≡ publishing
      → Step b z c w (record w {
        loop = publish_if_changed b c i w.loop;
        turn = persisting;
        stale = if w.loop.acc.total != w.loop.last_published_total then false else w.stale;
      })
  persist :
      (w : World Fs) (i : Sample)
      → w.turn ≡ persisting
      → Step b z c w
          (record w { loop = persist_if_due b c i w.loop; settled = w.sampled; turn = counting })
  signal :
      (w : World Fs) (bufid : ℕ) (sig : Signal) (status : ZbRet) (found : Bool)
      → Step b z c w (with_node (signal_handler z c bufid sig status found (node w)) w)
  write_divisor :
      (w : World Fs) (v : U24)
      → Fits v
      → Step b z c w (with_meter (write_the_divisor b z v (meter w)).1 w)
  write_width :
      (w : World Fs) (n : ℕ) → Step b z c w (with_meter (write_the_width b z n (meter w)).1 w)
  serve_summation : (w : World Fs) → Step b z c w (with_zb (run_publish_summation z w.loop.zb) w)
  serve_report :
      (w : World Fs) (slot : Bool) (bufid : ℕ)
      → Step b z c w (with_zb (run_publish_summation_and_report z c slot bufid w.loop.zb) w)
  serve_steering : (w : World Fs) → Step b z c w (with_zb (start_steering w.loop.zb) w)
  serve_reset : (w : World Fs) → Step b z c w (with_zb (factory_reset_now w.loop.zb) w)
  serve_wake : (w : World Fs) → Step b z c w (with_zb (wake_turbo_poll z c w.loop.zb) w)
  report_read :
      (w : World Fs)
      → w.report ≡ none
      → Step b z c w (record w { report = some (Accumulator.total_of w.loop.acc) })
  report_publish :
      (w : World Fs) (adc : Adc) (n : ℕ)
      → w.report ≡ some n
      → Step b z c w
          (record (with_node (metering_report_work_handler c adc (some n) (node w)).0 w) {
            report = none;
            stale = n != w.loop.acc.total;
          })
  edge :
      (w : World Fs) (now value : ℤ)
      → Step b z c w (with_panel (user_button_isr now value (panel w)) w)
  hold : (w : World Fs) → Step b z c w (with_panel (long_press_hold_arm_handler (panel w)) w)
  dispatch :
      (w : World Fs)
      → w.acked ≡ false
      → pressed w ≢ join
      → Step b z c w (with_node (act z c (λ n. n) (pressed w) (node w)) w)
  acknowledge :
      (w : World Fs)
      → w.acked ≡ false
      → pressed w ≡ join
      → Step b z c w
          (record (with_node (on_led (led_request button_ack prio_button_ack) (node w)) w) {
            acked = true;
          })
  join_after_ack :
      (w : World Fs)
      → w.acked ≡ true
      → Step b z c w (record (with_node (start_join (node w)) w) { acked = false })
  led_tick : (w : World Fs) (now : ℕ) → Step b z c w (record w { led = tick_handler now w.led })

-- The worlds that a start can come to.
pub data Reach {Fs : Type 0} (b : NvsBackend Fs) (z : Zboss) (c : Config) (w : World Fs)
    : World Fs → Type 0 where
  here : Reach b z c w w
  next : {u v : World Fs} → Reach b z c w u → Step b z c u v → Reach b z c w v
