-- ===== src/Main/Press/Others.antt =====
-- What the dispatch thread, the ZBOSS thread and the report timer of src/main.c and src/zigbee_app.c
-- ask of the LED: nothing on the hold indicator.
use n_rf52840_power_meter.Prelude.{
  ℕ, ◌≤◌, ◌≡◌, ◌≢◌, inl, inr, refl, arith, sym, ◌∙◌, ap, Bool, ◌==◌, Bool-cases, List, [], ◌∷◌,
  ◌++◌, All,
}
use mathlib.Core.Option.{Option, some, none}
use n_rf52840_power_meter.Config.{Config}
use n_rf52840_power_meter.Button.{Action, ignore, join, wake, factory_reset}
use n_rf52840_power_meter.Led.Priority.{
  Pattern, long_press_hold, joining, join_success, join_fail, erase_confirm, button_ack, heartbeat,
  prio_joining, prio_join_success, prio_join_fail, prio_erase_confirm, prio_button_ack,
  prio_heartbeat,
}
use n_rf52840_power_meter.Led.Controller.{Led, led_request}
use n_rf52840_power_meter.Led.Controller.Sync.{LedOp, request, cancel, apply, run}
use n_rf52840_power_meter.Led.Controller.Hold.{Foreign}
use n_rf52840_power_meter.Zigbee.{ZbRet, is_ok, Zboss}
use n_rf52840_power_meter.Zigbee.Publish.{Adc}
use n_rf52840_power_meter.Zigbee.Signals.{
  Signal, steering, device_reboot, leave, other_signal, Node, on_led, start_join, paint_outcome,
  on_signal, signal_handler,
}
use n_rf52840_power_meter.Main.Press.{act, metering_report_work_handler}

-- From the LED `l` to the LED `t` there are only such calls.
abbrev pub Spares : Led → Led → Type 0
Spares l t = (ops : List LedOp) × All Foreign ops × (t ≡ run ops l)

spared : (l : Led) → Spares l l
spared l = ([], tt, refl)

run-concat : (xs ys : List LedOp) (s : Led) → run (xs ++ ys) s ≡ run ys (run xs s)
run-concat [] ys s = refl
run-concat (x ∷ xs) ys s = run-concat xs ys (apply x s)

Foreign-concat : (xs ys : List LedOp) → All Foreign xs → All Foreign ys → All Foreign (xs ++ ys)
Foreign-concat [] ys a b = b
Foreign-concat (x ∷ xs) ys a b = (a.0, Foreign-concat xs ys a.1 b)

Spares-trans : (l m t : Led) → Spares l m → Spares m t → Spares l t
Spares-trans l m t (xs, a, e) (ys, b, f) =
    (xs ++ ys, Foreign-concat xs ys a b, f ∙ ap (run ys) e ∙ sym (run-concat xs ys l))

requested :
    (p : Pattern) (prio : ℕ) (l : Led)
    → p ≢ long_press_hold
    → prio_joining ≤ prio
    → Spares l (led_request p prio l)
unfolding apply
requested p prio l ne weak = (request p prio ∷ [], ((ne, weak), tt), refl)

start_join-Spares : (n : Node) → Spares n.led (start_join n).led
unfolding start_join
start_join-Spares n =
    requested joining prio_joining n.led (λ (e : joining ≡ long_press_hold). cc) (omega arith)

-- The dispatch thread, if what happens while it sleeps spares the indicator.
pub act-Spares :
    (z : Zboss) (c : Config) (meanwhile : Node → Node) (a : Action) (n : Node)
    → ((k : Node) → Spares k.led (meanwhile k).led)
    → Spares n.led (act z c meanwhile a n).led
unfolding act
act-Spares z c meanwhile a n spares =
    let acked = on_led (led_request button_ack prio_button_ack) n in
    let ack =
      requested button_ack prio_button_ack n.led (λ (e : button_ack ≡ long_press_hold). cc)
        (omega arith) in
    elim a as (λ x. Spares n.led (act z c meanwhile x n).led) [
      | ignore ↦ spared n.led
      | join ↦
          let slept = meanwhile acked in
          Spares-trans n.led slept.led _ (Spares-trans n.led acked.led slept.led ack (spares acked))
            (start_join-Spares slept)
      | wake ↦ ack
      | factory_reset ↦
          requested erase_confirm prio_erase_confirm n.led
            (λ (e : erase_confirm ≡ long_press_hold). cc) (omega arith)
    ]

paint_outcome-Spares :
    (z : Zboss) (c : Config) (status : ZbRet) (n : Node)
    → Spares n.led (paint_outcome z c status n).led
unfolding paint_outcome apply
paint_outcome-Spares z c status n = elim (Bool-cases (n.zb.user_join_in_flight == 1)) [
  | inr e ↦ rw e (spared n.led)
  | inl e ↦ elim (Bool-cases (is_ok status)) [
    | inl ok ↦ (
      cancel joining ∷ request join_success prio_join_success ∷ [],
      (
        λ (h : joining ≡ long_press_hold). cc,
        ((λ (h : join_success ≡ long_press_hold). cc, omega arith), tt),
      ),
      rw (e, ok) refl,
    )
    | inr ko ↦ (
      cancel joining ∷ request join_fail prio_join_fail ∷ [],
      (
        λ (h : joining ≡ long_press_hold). cc,
        ((λ (h : join_fail ≡ long_press_hold). cc, omega arith), tt),
      ),
      rw (e, ko) refl,
    )
  ]
]

on_signal-Spares :
    (z : Zboss) (c : Config) (sig : Signal) (status : ZbRet) (found : Bool) (n : Node)
    → Spares n.led (on_signal z c sig status found n).led
unfolding on_signal
on_signal-Spares z c steering status found n = elim (Bool-cases (is_ok status)) [
  | inl e ↦ rw e (paint_outcome-Spares z c status _)
  | inr e ↦ rw e (paint_outcome-Spares z c status _)
]
on_signal-Spares z c device_reboot status found n = elim (Bool-cases (is_ok status)) [
  | inl e ↦ rw e (spared n.led)
  | inr e ↦ rw e (spared n.led)
]
on_signal-Spares z c leave status found n = spared n.led
on_signal-Spares z c (other_signal k) status found n = spared n.led

-- The ZBOSS thread's signals.
pub signal_handler-Spares :
    (z : Zboss) (c : Config) (bufid : ℕ) (sig : Signal) (status : ZbRet) (found : Bool) (n : Node)
    → Spares n.led (signal_handler z c bufid sig status found n).led
unfolding signal_handler
signal_handler-Spares z c bufid sig status found n = elim (Bool-cases (bufid == 0)) [
  | inl e ↦ rw e (on_signal-Spares z c sig status found n)
  | inr e ↦ rw e (on_signal-Spares z c sig status found n)
]

-- The report timer.
pub metering_report_work_handler-Spares :
    (c : Config) (a : Adc) (total : Option ℕ) (n : Node)
    → Spares n.led (metering_report_work_handler c a total n).0.led
unfolding metering_report_work_handler
metering_report_work_handler-Spares c a none n = spared n.led
metering_report_work_handler-Spares c a (some total) n = elim (Bool-cases c.report_heartbeat) [
  | inl e ↦ rw e (
      requested heartbeat prio_heartbeat n.led (λ (h : heartbeat ≡ long_press_hold). cc)
        (omega arith))
  | inr e ↦ rw e (spared n.led)
]
