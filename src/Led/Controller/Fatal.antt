-- ===== src/Led/Controller/Fatal.antt =====
-- The fatal pattern: nothing preempts it, and the shape of its flashes.
use n_rf52840_power_meter.Prelude.{
  ℕ, ◌≤◌, ◌<◌, ◌≡◌, ◌≢◌, ◌⊎◌, inl, inr, refl, arith, sym, ◌∙◌, Bool-cases, List, [], ◌∷◌, All,
}
use n_rf52840_power_meter.Led.Priority.{
  Pattern, none, fatal, PriorityState, prio_fatal, same, same→eq,
}
use n_rf52840_power_meter.Led.Priority
use n_rf52840_power_meter.Led.Priority.Arbiter.{request-Outcome}
use n_rf52840_power_meter.Led.Controller.{
  Led, reselect_if_changed_locked, led_request, led_cancel, led_request_fatal,
}
use n_rf52840_power_meter.Led.Controller.Sync.{
  LedOp, request, cancel, request_fatal, tick, apply, run, reselect_lem, tick_handler-outcome,
}

-- The fatal pattern is active and shown, with a flash count in range.
pub record ShowsFatal (s : Led) : Type 0 where
  pub shown : s.rendered ≡ fatal
  pub active : s.state.active ≡ fatal
  pub strongest : s.state.active_prio ≤ prio_fatal
  pub at_least : 1 ≤ s.fatal_flash_count
  pub at_most : s.fatal_flash_count ≤ 5

-- What the rest of the program may ask for: the priorities of the table, and no cancel of FATAL.
abbrev pub Permitted : LedOp → Type 0
Permitted (request p prio) = prio_fatal ≤ prio
Permitted (cancel p) = p ≢ fatal
Permitted _ = Unit

request_keeps :
    (st : PriorityState) (p : Pattern) (prio : ℕ)
    → st.active ≡ fatal
    → st.active_prio ≤ prio_fatal
    → prio_fatal ≤ prio
    → (Priority.request st p prio).1 ≡ st
request_keeps st p prio a b h = elim (request-Outcome st p prio) [
  | inl o ↦ rw o.1 refl
  | inr (inl o) ↦ elim o.1 [ inl e ↦ cc (a, e) | inr lt ↦ absurd (omega arith) ]
  | inr (inr (inl o)) ↦ rw o.3 refl
  | inr (inr (inr o)) ↦ rw o.2 refl
]

cancel_keeps :
    (st : PriorityState) (p : Pattern) → st.active ≡ fatal → p ≢ fatal → Priority.cancel st p ≡ st
unfolding Priority.cancel
cancel_keeps st p a ne = elim (Bool-cases (same st.active p)) [
  | inl e ↦ absurd (ne (sym (same→eq st.active p e) ∙ a))
  | inr e ↦ rw e refl
]

reselect-ShowsFatal :
    (s : Led)
    → s.state.active ≡ fatal
    → s.state.active_prio ≤ prio_fatal
    → 1 ≤ s.fatal_flash_count
    → s.fatal_flash_count ≤ 5
    → ShowsFatal (reselect_if_changed_locked s)
reselect-ShowsFatal s a b c d =
    let r = reselect_lem s in
    record {
      shown = r.1 ∙ a;
      active = rw r.0 a;
      strongest = rw r.0 b;
      at_least = rw r.2 c;
      at_most = rw r.2 d;
    }

apply-ShowsFatal : (op : LedOp) (s : Led) → Permitted op → ShowsFatal s → ShowsFatal (apply op s)
unfolding apply led_request led_cancel led_request_fatal
apply-ShowsFatal (request p prio) s k h =
    reselect-ShowsFatal _ (rw (request_keeps s.state p prio h.active h.strongest k) h.active)
      (rw (request_keeps s.state p prio h.active h.strongest k) h.strongest) h.at_least h.at_most
apply-ShowsFatal (cancel p) s k h =
    reselect-ShowsFatal _ (rw (cancel_keeps s.state p h.active k) h.active)
      (rw (cancel_keeps s.state p h.active k) h.strongest) h.at_least h.at_most
apply-ShowsFatal (request_fatal n now) s k h =
    reselect-ShowsFatal _
      (rw (request_keeps s.state fatal prio_fatal h.active h.strongest (omega arith)) h.active)
      (rw (request_keeps s.state fatal prio_fatal h.active h.strongest (omega arith)) h.strongest)
      (ground arith) (ground arith)
apply-ShowsFatal (tick now) s k h = elim (tick_handler-outcome now s) [
  | inl kept ↦ record {
    shown = kept.1 ∙ h.shown;
    active = rw kept.0 h.active;
    strongest = rw kept.0 h.strongest;
    at_least = rw kept.2 h.at_least;
    at_most = rw kept.2 h.at_most;
  }
  | inr ended ↦ absurd (ended.0 h.shown)
]

run-ShowsFatal :
    (ops : List LedOp) (s : Led) → All Permitted ops → ShowsFatal s → ShowsFatal (run ops s)
run-ShowsFatal [] s k h = h
run-ShowsFatal (op ∷ ops) s k h = run-ShowsFatal ops (apply op s) k.1 (apply-ShowsFatal op s k.0 h)

-- What is active is nothing, a weaker pattern, or the fatal pattern itself.
abbrev pub Yields : PriorityState → Type 0
Yields st =
    (st.active ≡ none)
    ⊎ ((st.active ≡ fatal) × (st.active_prio ≤ prio_fatal))
    ⊎ (prio_fatal < st.active_prio)

request_takes :
    (st : PriorityState)
    → Yields st
    → let t = (Priority.request st fatal prio_fatal).1 in
      (t.active ≡ fatal) × (t.active_prio ≤ prio_fatal)
unfolding Priority.request
request_takes st (inl e) = rw e (refl, omega arith)
request_takes st (inr (inl e)) = ground arith
request_takes st (inr (inr lt)) = ground arith

pub led_request_fatal-ShowsFatal :
    (n now : ℕ) (s : Led) → Yields s.state → ShowsFatal (led_request_fatal n now s)
unfolding led_request_fatal
led_request_fatal-ShowsFatal n now s h =
    reselect-ShowsFatal _ (request_takes s.state h).0 (request_takes s.state h).1 (ground arith)
      (ground arith)

-- A fatal request takes the LED over from any weaker pattern, and no permitted call or tick takes
-- it back: it stays rendered, with a flash count from 1 to 5 whatever count was asked for.
pub fatal_persists :
    (n now : ℕ) (s : Led) (ops : List LedOp)
    → Yields s.state
    → All Permitted ops
    → ShowsFatal (run ops (led_request_fatal n now s))
fatal_persists n now s ops h k =
    run-ShowsFatal ops (led_request_fatal n now s) k (led_request_fatal-ShowsFatal n now s h)
