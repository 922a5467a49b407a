-- ===== src/Led/Controller/Hold.antt =====
-- The hold indicator among the other patterns: how long the LED shows LONG_PRESS_HOLD.
use n_rf52840_power_meter.Prelude.{
  ℕ, ◌≤◌, ◌≡◌, ◌≢◌, ◌⊎◌, inl, inr, refl, arith, sym, ◌∙◌, ap, Bool-cases, List, [], ◌∷◌, All,
}
use mathlib.Core.Path.{subst}
use n_rf52840_power_meter.Led.Priority.{
  Pattern, none, long_press_hold, PriorityState, prio_long_press_hold, prio_joining, same, same→eq,
}
use n_rf52840_power_meter.Led.Priority
use n_rf52840_power_meter.Led.Priority.Arbiter.{request-Outcome}
use n_rf52840_power_meter.Led.Controller.{Led, led_request, led_cancel}
use n_rf52840_power_meter.Led.Controller.Tick.{tick_rendered, tick_handler}
use n_rf52840_power_meter.Led.Controller.Sync.{
  LedOp, request, cancel, request_fatal, tick, apply, run, InSync, reselect_lem, finish_lem,
  tick_handler-outcome, led_request-InSync, led_cancel-InSync, apply-InSync,
}

-- What the rest of the program asks of the LED while it runs: requests at the table's weaker
-- priorities, and cancels of other patterns.
abbrev pub Foreign : LedOp → Type 0
Foreign (request p prio) = (p ≢ long_press_hold) × (prio_joining ≤ prio)
Foreign (cancel p) = p ≢ long_press_hold
Foreign (request_fatal n now) = ⊥
Foreign (tick now) = Unit {0}

-- The arbiter holds the indicator, or something weaker or nothing.
abbrev Held : PriorityState → Type 0
Held st = (st.active ≡ long_press_hold) × (st.active_prio ≡ prio_long_press_hold)

abbrev Free : PriorityState → Type 0
Free st = (st.active ≢ long_press_hold) × ((st.active ≡ none) ⊎ (prio_joining ≤ st.active_prio))

-- The LED shows the indicator, or does not and would show it if asked.
abbrev pub Indicates : Led → Type 0
Indicates s = Held s.state × InSync s

abbrev pub Dark : Led → Type 0
Dark s = Free s.state × InSync s

pub Indicates-rendered : (s : Led) → Indicates s → s.rendered ≡ long_press_hold
unfolding Priority.selected
Indicates-rendered s h = h.1 ∙ h.0.0

pub Dark-rendered : (s : Led) → Dark s → s.rendered ≢ long_press_hold
unfolding Priority.selected
Dark-rendered s h e = h.0.0 (sym h.1 ∙ e)

cancel-Free : (st : PriorityState) (p : Pattern) → Free st → Free (Priority.cancel st p)
unfolding Priority.cancel
cancel-Free st p f = elim (Bool-cases (same st.active p)) [
  | inl e ↦ rw e (λ (h : none ≡ long_press_hold). cc, inl refl)
  | inr e ↦ rw e f
]

cancel-Held :
    (st : PriorityState) (p : Pattern) → p ≢ long_press_hold → Held st → Held (Priority.cancel st p)
unfolding Priority.cancel
cancel-Held st p ne h = elim (Bool-cases (same st.active p)) [
  | inl e ↦ absurd (ne (sym (same→eq st.active p e) ∙ h.0))
  | inr e ↦ rw e h
]

released : (st : PriorityState) → Held st ⊎ Free st → Free (Priority.cancel st long_press_hold)
unfolding Priority.cancel
released st (inl h) = rw h.0 (λ (e : none ≡ long_press_hold). cc, inl refl)
released st (inr f) = cancel-Free st long_press_hold f

request-Free :
    (st : PriorityState) (p : Pattern) (prio : ℕ)
    → p ≢ long_press_hold
    → prio_joining ≤ prio
    → Free st
    → Free (Priority.request st p prio).1
request-Free st p prio ne weak f = elim (request-Outcome st p prio) [
  | inl o ↦ rw o.1 f
  | inr (inl o) ↦ rw o.2 (ne, inr weak)
  | inr (inr (inl o)) ↦ rw o.3 f
  | inr (inr (inr o)) ↦ rw o.2 f
]

request-Held :
    (st : PriorityState) (p : Pattern) (prio : ℕ)
    → prio_joining ≤ prio
    → Held st
    → Held (Priority.request st p prio).1
request-Held st p prio weak h = elim (request-Outcome st p prio) [
  | inl o ↦ rw o.1 h
  | inr (inl o) ↦ elim o.1 [ inl e ↦ cc (h.0, e) | inr lt ↦ absurd (omega (arith, lt, h.1)) ]
  | inr (inr (inl o)) ↦ rw o.3 h
  | inr (inr (inr o)) ↦ rw o.2 h
]

-- The request of the indicator itself.
taken :
    (st : PriorityState)
    → Held st ⊎ Free st
    → Held (Priority.request st long_press_hold prio_long_press_hold).1
unfolding Priority.request
taken st (inl h) = ground (arith, h.0, h.1)
taken st (inr (ne, inl e)) = rw e (refl, refl)
taken st (inr (ne, inr weak)) = ground (arith, weak)

pub led_request-Indicates :
    (s : Led)
    → Indicates s ⊎ Dark s
    → Indicates (led_request long_press_hold prio_long_press_hold s)
unfolding led_request
led_request-Indicates s k =
    let r =
      reselect_lem
        (record s { state = (Priority.request s.state long_press_hold prio_long_press_hold).1 }) in
    (
      subst Held (sym r.0) (taken s.state (elim k [ inl h ↦ inl h.0 | inr d ↦ inr d.0 ])),
      led_request-InSync long_press_hold prio_long_press_hold s,
    )

pub led_cancel-Dark : (s : Led) → Indicates s ⊎ Dark s → Dark (led_cancel long_press_hold s)
unfolding led_cancel
led_cancel-Dark s k =
    let r = reselect_lem (record s { state = Priority.cancel s.state long_press_hold }) in
    (
      subst Free (sym r.0) (released s.state (elim k [ inl h ↦ inl h.0 | inr d ↦ inr d.0 ])),
      led_cancel-InSync long_press_hold s,
    )

apply-Free : (op : LedOp) (s : Led) → Foreign op → Dark s → Free (apply op s).state
unfolding apply led_request led_cancel
apply-Free (request p prio) s o k =
    subst Free (sym (reselect_lem (record s { state = (Priority.request s.state p prio).1 })).0)
      (request-Free s.state p prio o.0 o.1 k.0)
apply-Free (cancel p) s o k =
    subst Free (sym (reselect_lem (record s { state = Priority.cancel s.state p })).0)
      (cancel-Free s.state p k.0)
apply-Free (request_fatal n now) s o k = absurd o
apply-Free (tick now) s o k = elim (tick_handler-outcome now s) [
  | inl kept ↦ subst Free (sym kept.0) k.0
  | inr e ↦
      let ended = ap (λ (l : Led). l.state) e.1 ∙ (finish_lem s.rendered s).1 in
      subst Free (sym ended) (cancel-Free s.state s.rendered k.0)
]

tick_handler-indicating :
    (now : ℕ) (s : Led) → s.rendered ≡ long_press_hold → tick_handler now s ≡ s
unfolding tick_handler tick_rendered
tick_handler-indicating now s e = ap (λ p. tick_rendered p now s) e

apply-Held : (op : LedOp) (s : Led) → Foreign op → Indicates s → Held (apply op s).state
unfolding apply led_request led_cancel
apply-Held (request p prio) s o k =
    subst Held (sym (reselect_lem (record s { state = (Priority.request s.state p prio).1 })).0)
      (request-Held s.state p prio o.1 k.0)
apply-Held (cancel p) s o k =
    subst Held (sym (reselect_lem (record s { state = Priority.cancel s.state p })).0)
      (cancel-Held s.state p o k.0)
apply-Held (request_fatal n now) s o k = absurd o
apply-Held (tick now) s o k =
    subst (λ (l : Led). Held l.state) (sym (tick_handler-indicating now s (Indicates-rendered s k)))
      k.0

-- Nothing of the rest of the program takes the indicator off, or shows it.
pub run-Indicates :
    (ops : List LedOp) (s : Led) → All Foreign ops → Indicates s → Indicates (run ops s)
run-Indicates [] s o k = k
run-Indicates (op ∷ ops) s o k =
    run-Indicates ops (apply op s) o.1 (apply-Held op s o.0 k, apply-InSync op s k.1)

pub run-Dark : (ops : List LedOp) (s : Led) → All Foreign ops → Dark s → Dark (run ops s)
run-Dark [] s o k = k
run-Dark (op ∷ ops) s o k =
    run-Dark ops (apply op s) o.1 (apply-Free op s o.0 k, apply-InSync op s k.1)
