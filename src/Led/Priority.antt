-- ===== src/Led/Priority.antt =====
-- src/led_priority.c: the arbiter that keeps one active pattern.
pub mod Arbiter
pub mod Order
use n_rf52840_power_meter.Prelude.{
  ℕ, zero, suc, ◌≡◌, refl, arith, sym, ◌∙◌, ap, Bool, true, false, not, ◌||◌, ltb, leb, ◌==◌,
  if◌then◌else◌,
}

-- `enum led_pattern_id`; `count` is LED_PATTERN_COUNT.
pub data Pattern : Type 0 where
  none fatal long_press_hold joining join_success join_fail erase_confirm : Pattern
  button_ack heartbeat count : Pattern

-- The number of each enumerator, by which C compares them.
abbrev pub id : Pattern → ℕ
id none = 0
id fatal = 1
id long_press_hold = 2
id joining = 3
id join_success = 4
id join_fail = 5
id erase_confirm = 6
id button_ack = 7
id heartbeat = 8
id count = 9

-- `==` on patterns.
abbrev pub same : Pattern → Pattern → Bool
same p q = id p == id q

abbrev pub pattern_of : ℕ → Pattern
pattern_of zero = none
pattern_of (suc zero) = fatal
pattern_of (suc (suc zero)) = long_press_hold
pattern_of (suc (suc (suc zero))) = joining
pattern_of (suc (suc (suc (suc zero)))) = join_success
pattern_of (suc (suc (suc (suc (suc zero))))) = join_fail
pattern_of (suc (suc (suc (suc (suc (suc zero)))))) = erase_confirm
pattern_of (suc (suc (suc (suc (suc (suc (suc zero))))))) = button_ack
pattern_of (suc (suc (suc (suc (suc (suc (suc (suc zero)))))))) = heartbeat
pattern_of (suc (suc (suc (suc (suc (suc (suc (suc (suc k))))))))) = count

pattern_of-id : (p : Pattern) → pattern_of (id p) ≡ p
pattern_of-id none = refl
pattern_of-id fatal = refl
pattern_of-id _ = refl

pub id-injective : (p q : Pattern) → id p ≡ id q → p ≡ q
id-injective p q e = sym (pattern_of-id p) ∙ ap pattern_of e ∙ pattern_of-id q

pub same→eq : (p q : Pattern) → same p q ≡ true → p ≡ q
same→eq p q h = id-injective p q (ground arith)

pub same_refl : (p : Pattern) → same p p ≡ true
same_refl none = refl
same_refl _ = refl

-- `enum led_priority`: a smaller number is a stronger priority.
abbrev pub prio_fatal : ℕ
prio_fatal = 1

abbrev pub prio_long_press_hold : ℕ
prio_long_press_hold = 2

abbrev pub prio_joining : ℕ
prio_joining = 3

abbrev pub prio_join_success : ℕ
prio_join_success = 4

abbrev pub prio_join_fail : ℕ
prio_join_fail = 5

abbrev pub prio_erase_confirm : ℕ
prio_erase_confirm = 6

abbrev pub prio_button_ack : ℕ
prio_button_ack = 7

abbrev pub prio_heartbeat : ℕ
prio_heartbeat = 8

pub record PriorityState : Type 0 where
  pub active : Pattern
  pub active_prio : ℕ

unfoldable pub init : PriorityState
init = record { active = none; active_prio = 0 }

-- The guard on the pattern's number.
abbrev pub dispatchable : Pattern → Bool
dispatchable p = not (leb (id p) (id none) || leb (id count) (id p))

unfoldable pub request : PriorityState → Pattern → ℕ → Bool × PriorityState
request s pattern prio =
    if leb (id pattern) (id none) || leb (id count) (id pattern)
    then (false, s)
    else if same s.active none || ltb prio s.active_prio
    then (true, record { active = pattern; active_prio = prio })
    else if same pattern s.active
    then (true, s)
    else (false, s)

unfoldable pub cancel : PriorityState → Pattern → PriorityState
cancel s pattern = if same s.active pattern then record { active = none; active_prio = 0 } else s

unfoldable pub selected : PriorityState → Pattern
selected s = s.active
