-- ===== src/Main/Boot/Ready.antt =====
-- The LED during the start: it is in sync, and what it shows yields to a fatal pattern.
use n_rf52840_power_meter.Prelude.{
  ℕ, ◌≤◌, ◌<◌, ◌≡◌, ◌⊎◌, inl, inr, refl, arith, sym, ◌∙◌, ap, Bool, true, false, not, ◌||◌, ltb,
  if◌then◌else◌, Bool-cases, [], ◌∷◌,
}
use mathlib.Core.Path.{subst}
use n_rf52840_power_meter.Rc.{Errno, enodev, Rc, success, fail, is_success}
use n_rf52840_power_meter.Nvs.{
  NvsBackend, Store, loaded, not_loaded, Loaded-cases, load_total, save_total,
}
use n_rf52840_power_meter.Led.Priority.{
  Pattern, none, PriorityState, prio_fatal, same, long_press_hold, erase_confirm,
  prio_long_press_hold, prio_erase_confirm,
}
use n_rf52840_power_meter.Led.Priority
use n_rf52840_power_meter.Led.Priority.Arbiter.{request-Outcome}
use n_rf52840_power_meter.Led.Controller.{
  Pin, led_red, led_green, led_blue, Led, controller_init, configure_pins, led_request, led_cancel,
  led_request_fatal,
}
use n_rf52840_power_meter.Led.Controller.Sync.{
  InSync, reselect_lem, led_request-InSync, led_cancel-InSync,
}
use n_rf52840_power_meter.Led.Controller.Fatal.{ShowsFatal, Yields, led_request_fatal-ShowsFatal}
use n_rf52840_power_meter.Main.Boot.{Restored, erase_if_held, load_into, restore_total}
use n_rf52840_power_meter.Main.Boot.Hold.{lit}
use n_rf52840_power_meter.Main.Boot.Restore.{load_into_lem}

-- The fatal pattern shows, with this count of flashes.
abbrev pub Flashes : ℕ → Led → Type 0
Flashes n l = ShowsFatal l × (l.fatal_flash_count ≡ n)

pub led_request_fatal-Flashes :
    (n now : ℕ) (s : Led) → Yields s.state → 1 ≤ n → n ≤ 5 → Flashes n (led_request_fatal n now s)
unfolding led_request_fatal
led_request_fatal-Flashes n now s y lo hi =
    let clamped : (if ltb n 1 then 1 else if ltb 5 n then 5 else n) ≡ n = ground arith in
    (led_request_fatal-ShowsFatal n now s y, (reselect_lem _).2 ∙ clamped)

abbrev pub Ready : Led → Type 0
Ready l = InSync l × Yields l.state

request-Yields :
    (st : PriorityState) (p : Pattern) (prio : ℕ)
    → prio_fatal < prio
    → Yields st
    → Yields (Priority.request st p prio).1
request-Yields st p prio h y = elim (request-Outcome st p prio) [
  | inl o ↦ subst (λ r. Yields r.1) (sym o.1) y
  | inr (inl o) ↦ subst (λ r. Yields r.1) (sym o.2) (inr (inr h))
  | inr (inr (inl o)) ↦ subst (λ r. Yields r.1) (sym o.3) y
  | inr (inr (inr o)) ↦ subst (λ r. Yields r.1) (sym o.2) y
]

cancel-Yields : (st : PriorityState) (p : Pattern) → Yields st → Yields (Priority.cancel st p)
unfolding Priority.cancel
cancel-Yields st p y = elim (Bool-cases (same st.active p)) [
  | inl e ↦ rw e (inl refl)
  | inr e ↦ rw e y
]

led_request-Yields :
    (p : Pattern) (prio : ℕ) (s : Led)
    → prio_fatal < prio
    → Yields s.state
    → Yields (led_request p prio s).state
unfolding led_request
led_request-Yields p prio s h y =
    subst Yields (sym (reselect_lem _).0) (request-Yields s.state p prio h y)

led_cancel-Yields : (p : Pattern) (s : Led) → Yields s.state → Yields (led_cancel p s).state
unfolding led_cancel
led_cancel-Yields p s y = subst Yields (sym (reselect_lem _).0) (cancel-Yields s.state p y)

pub led_request-Ready :
    (p : Pattern) (prio : ℕ) (s : Led)
    → prio_fatal < prio
    → Yields s.state
    → Ready (led_request p prio s)
led_request-Ready p prio s h y = (led_request-InSync p prio s, led_request-Yields p prio s h y)

pub led_cancel-Ready : (p : Pattern) (s : Led) → Yields s.state → Ready (led_cancel p s)
led_cancel-Ready p s y = (led_cancel-InSync p s, led_cancel-Yields p s y)

pub lit-Ready : (h : Bool) (s : Led) → Ready s → Ready (lit h s)
lit-Ready true s r = led_request-Ready long_press_hold prio_long_press_hold s (omega arith) r.1
lit-Ready false s r = r

Rc-cases : (rc : Rc) → (rc ≡ success) ⊎ ((e : Errno) × (rc ≡ fail e))
Rc-cases success = inl refl
Rc-cases (fail e) = inr (e, refl)

-- The rest of the initialisation, after the pins.
abbrev after_pins : Rc × Led → Rc × Led
after_pins (success, s) = (success, record s { state = Priority.init; rendered = none })
after_pins (fail e, s) = (fail e, s)

after_pins-Ready : (r : Rc × Led) → is_success (after_pins r).0 ≡ true → Ready (after_pins r).1
unfolding Priority.init Priority.selected
after_pins-Ready (success, s) ok = (refl, inl refl)
after_pins-Ready (fail e, s) ok = cc ok

after_pins_lem :
    (r : Rc × Led)
    → (elim r.0 as (λ _. Rc × Led) [
      | success ↦ (success, record r.1 { state = Priority.init; rendered = none })
      | fail e ↦ (fail e, r.1)
    ])
      ≡ after_pins r
after_pins_lem (success, s) = refl
after_pins_lem (fail e, s) = refl

-- An initialisation that returns 0 leaves nothing shown.
pub controller_init-Ready :
    (ready : Pin → Bool) (configure : Pin → Rc) (s : Led)
    → is_success (controller_init ready configure s).0 ≡ true
    → Ready (controller_init ready configure s).1
unfolding controller_init
controller_init-Ready ready configure s ok =
    let P : Rc × Led → Type 0 = λ r. is_success r.0 ≡ true → Ready r.1 in
    let r = configure_pins configure (led_red ∷ (led_green ∷ (led_blue ∷ []))) s in
    let failed : P (fail enodev, s) = λ (h : false ≡ true). cc h in
    let whole : P (controller_init ready configure s) =
      elim (Bool-cases (not (ready led_red) || not (ready led_green) || not (ready led_blue))) [
        | inl e ↦ rw e failed
        | inr e ↦ rw e (subst P (sym (after_pins_lem r)) (after_pins-Ready r))
      ] in
    whole ok

module _ {Fs : Type 0} (b : NvsBackend Fs) where
  load_into-led : (led : Led) (s : Store Fs) → (load_into b led s).led ≡ led
  load_into-led led s = elim (Loaded-cases (load_total b s)) [
    | inl l ↦ ap (λ (r : Restored Fs). r.led) (load_into_lem b led s (loaded l.0) l.1)
    | inr l ↦ ap (λ (r : Restored Fs). r.led) (load_into_lem b led s (not_loaded l.0) l.1)
  ]

  erase_if_held-Ready :
      (held : Bool) (led : Led) (s : Store Fs) → Ready led → Ready (erase_if_held b held led s).0
  unfolding erase_if_held
  erase_if_held-Ready false led s r = r
  erase_if_held-Ready true led s r =
      let c = led_cancel long_press_hold led in
      let k = led_cancel-Ready long_press_hold led r.1 in
      let s' = (save_total b 0 s).1 in
      let after : Rc → Led × Store Fs = λ rc. elim rc [
        | success ↦ (led_request erase_confirm prio_erase_confirm c, s')
        | fail _ ↦ (c, s')
      ] in
      elim (Rc-cases (save_total b 0 s).0) [
        | inl e ↦
            subst (λ rc. Ready (after rc).0) (sym e)
              (led_request-Ready erase_confirm prio_erase_confirm c (omega arith) k.1)
        | inr e ↦ subst (λ rc. Ready (after rc).0) (sym e.1) k
      ]

  pub restore_total-Ready :
      (rc : Rc) (held : Bool) (held_led led : Led) (s : Store Fs)
      → Ready held_led
      → Ready led
      → Ready (restore_total b rc (held, held_led) led s).led
  unfolding restore_total
  restore_total-Ready success held held_led led s h r =
      let e = erase_if_held b held held_led s in
      subst Ready (sym (load_into-led e.0 e.1)) (erase_if_held-Ready held held_led s h)
  restore_total-Ready (fail err) held held_led led s h r = r
