-- ===== src/Led/Controller/Ends.antt =====
-- The patterns that end by themselves.
use n_rf52840_power_meter.Prelude.{
  ℕ, zero, suc, ◌≡◌, refl, arith, sym, ◌∙◌, ap, true, List, [], ◌∷◌, length,
}
use mathlib.Core.Path.{subst}
use n_rf52840_power_meter.Led.Priority.{
  Pattern, none, join_success, join_fail, erase_confirm, button_ack, heartbeat, PriorityState, same,
  same_refl,
}
use n_rf52840_power_meter.Led.Priority
use n_rf52840_power_meter.Led.Controller.{Led, set_leds_rgb}
use n_rf52840_power_meter.Led.Controller.Tick.{
  tick_handler, tick_rendered, finish, join_fail_tick, erase_confirm_tick,
}
use n_rf52840_power_meter.Led.Controller.Sync.{InSync, finish_lem}
use n_rf52840_power_meter.Led.Controller.Cycle.{ticks}
use n_rf52840_power_meter.Led.Controller.Blink.{toggled, join_fail-tick, erase_confirm-tick}

-- The patterns that show for a time; the others last until they are cancelled.
abbrev pub Transient : Pattern → Type 0
Transient button_ack = Unit
Transient join_success = Unit
Transient join_fail = Unit
Transient erase_confirm = Unit
Transient heartbeat = Unit
Transient _ = ⊥

-- The expiries of the timer that a pattern has left before the one that ends it.
abbrev pub remaining : Pattern → Led → ℕ
remaining join_fail s = s.join_fail_ticks_remaining
remaining erase_confirm s = s.erase_confirm_ticks_remaining
remaining _ s = 0

-- Nothing is active and nothing shows.
abbrev pub Idle : Led → Type 0
Idle s = (s.rendered ≡ none) × (s.state ≡ record { active = none; active_prio = 0 })

pub finish-Idle : (p : Pattern) (s : Led) → InSync s → s.rendered ≡ p → Idle (finish p s)
unfolding Priority.selected Priority.cancel
finish-Idle p s h e =
    let k = finish_lem p s in
    let active : s.state.active ≡ p = sym h ∙ e in
    let hit : same s.state.active p ≡ true =
      subst (λ x. same x p ≡ true) (sym active) (same_refl p) in
    let state : (finish p s).state ≡ record { active = none; active_prio = 0 } =
      k.1 ∙ rw hit refl in
    (k.0 ∙ ap (λ (x : PriorityState). x.active) state, state)

join_fail-last :
    (now : ℕ) (s : Led)
    → s.rendered ≡ join_fail
    → s.join_fail_ticks_remaining ≡ 0
    → tick_handler now s ≡ finish join_fail s
unfolding tick_handler tick_rendered join_fail_tick
join_fail-last now s e r = ap (λ p. tick_rendered p now s) e ∙ ground (arith, r)

erase_confirm-last :
    (now : ℕ) (s : Led)
    → s.rendered ≡ erase_confirm
    → s.erase_confirm_ticks_remaining ≡ 0
    → tick_handler now s ≡ finish erase_confirm s
unfolding tick_handler tick_rendered erase_confirm_tick
erase_confirm-last now s e r = ap (λ p. tick_rendered p now s) e ∙ ground (arith, r)

join_fail_ends :
    (n : ℕ) (nows : List ℕ) (s : Led)
    → InSync s
    → s.rendered ≡ join_fail
    → s.join_fail_ticks_remaining ≡ n
    → length nows ≡ suc n
    → Idle (ticks nows s)
unfolding set_leds_rgb Priority.selected
join_fail_ends n [] s h e r l = absurd (omega arith)
join_fail_ends zero (now ∷ []) s h e r l =
    subst Idle (sym (join_fail-last now s e r)) (finish-Idle join_fail s h e)
join_fail_ends zero (now ∷ (x ∷ nows)) s h e r l = absurd (omega arith)
join_fail_ends (suc n) (now ∷ nows) s h e r l =
    let t = toggled 200 n (record s { join_fail_ticks_remaining = n }) in
    subst (λ u. Idle (ticks nows u)) (sym (join_fail-tick now n s e r))
      (join_fail_ends n nows t h e refl (omega arith))

erase_confirm_ends :
    (n : ℕ) (nows : List ℕ) (s : Led)
    → InSync s
    → s.rendered ≡ erase_confirm
    → s.erase_confirm_ticks_remaining ≡ n
    → length nows ≡ suc n
    → Idle (ticks nows s)
unfolding set_leds_rgb Priority.selected
erase_confirm_ends n [] s h e r l = absurd (omega arith)
erase_confirm_ends zero (now ∷ []) s h e r l =
    subst Idle (sym (erase_confirm-last now s e r)) (finish-Idle erase_confirm s h e)
erase_confirm_ends zero (now ∷ (x ∷ nows)) s h e r l = absurd (omega arith)
erase_confirm_ends (suc n) (now ∷ nows) s h e r l =
    let t = toggled 150 n (record s { erase_confirm_ticks_remaining = n }) in
    subst (λ u. Idle (ticks nows u)) (sym (erase_confirm-tick now n s e r))
      (erase_confirm_ends n nows t h e refl (omega arith))

-- A pattern that the next expiry ends.
abbrev OneShot : Pattern → Type 0
OneShot p = (now : ℕ) (s : Led) → s.rendered ≡ p → tick_handler now s ≡ finish p s

button_ack-OneShot : OneShot button_ack
unfolding tick_handler tick_rendered
button_ack-OneShot now s e = ap (λ p. tick_rendered p now s) e

join_success-OneShot : OneShot join_success
unfolding tick_handler tick_rendered
join_success-OneShot now s e = ap (λ p. tick_rendered p now s) e

heartbeat-OneShot : OneShot heartbeat
unfolding tick_handler tick_rendered
heartbeat-OneShot now s e = ap (λ p. tick_rendered p now s) e

OneShot-ends :
    (p : Pattern) (nows : List ℕ) (s : Led)
    → OneShot p
    → InSync s
    → s.rendered ≡ p
    → length nows ≡ 1
    → Idle (ticks nows s)
OneShot-ends p [] s o h e l = absurd (omega arith)
OneShot-ends p (now ∷ []) s o h e l = subst Idle (sym (o now s e)) (finish-Idle p s h e)
OneShot-ends p (now ∷ (x ∷ nows)) s o h e l = absurd (omega arith)

-- Every pattern that shows for a time ends: of an LED that shows what the arbiter selects, with no
-- further call, the expiries that the pattern has left and one more, at whatever uptimes, leave
-- nothing active and nothing shown.
pub Transient-ends :
    (p : Pattern) (nows : List ℕ) (s : Led)
    → Transient p
    → InSync s
    → s.rendered ≡ p
    → length nows ≡ suc (remaining p s)
    → Idle (ticks nows s)
Transient-ends button_ack nows s t h e l = OneShot-ends button_ack nows s button_ack-OneShot h e l
Transient-ends join_success nows s t h e l =
    OneShot-ends join_success nows s join_success-OneShot h e l
Transient-ends heartbeat nows s t h e l = OneShot-ends heartbeat nows s heartbeat-OneShot h e l
Transient-ends join_fail nows s t h e l =
    join_fail_ends s.join_fail_ticks_remaining nows s h e refl l
Transient-ends erase_confirm nows s t h e l =
    erase_confirm_ends s.erase_confirm_ticks_remaining nows s h e refl l
Transient-ends _ nows s t h e l = absurd t
