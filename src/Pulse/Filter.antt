-- ===== src/Pulse/Filter.antt =====
-- Pulses at the two inputs of the chain, and what becomes of them. TIMER3 and PPI are not code of
-- the repository: TIMER3 is a record of the parameter `p`, with its documented behaviour in
-- `WidthTimerLaws`, and every other answer is read off the calls that configured the chain.
pub mod Elapse
pub mod Counts
pub mod Midway
pub mod Total
pub mod Init
use n_rf52840_power_meter.Prelude.{
  ℕ, zero, suc, ◌+◌, ◌≡◌, ◌%◌, ◌^◌, Bool, true, false, not, ◌&&◌, ◌||◌, leb, ltb, ◌==◌,
  if◌then◌else◌, List, [], ◌∷◌, ◌++◌,
}
use n_rf52840_power_meter.Calibration.{WidthInRange}
use n_rf52840_power_meter.Pulse.{
  counter_timer, width_timer, counter_mode, Edge, hitolo, lotohi, Event, lpcomp_up, lpcomp_down,
  width_compare, cc_channel0, TimerMode, timer_mode, Shorts, no_shorts, compare0_stop,
  extended_compare, LpcompRef, ref_supply_3_8, other_ref, lpcomp_init, bench_pulse_abs_pin,
  gpiote_in, Task, task_start, task_stop, task_clear, task_count, HwCall, timer_init, timer_enable,
  lpcomp_start, gpiote_input_configure, gpiote_event_enable, set_min_width_us,
}
use n_rf52840_power_meter.Pulse.Wiring.{triggers}

-- How TIMER3 is set up: its mode, frequency and width, CC[0], and whether COMPARE0_STOP is on.
pub record TimerSetup : Type 0 where
  pub mode : TimerMode
  pub hz : ℕ
  pub bits : ℕ
  pub cc : ℕ
  pub stops : Bool

-- TIMER3: its setup after a reset, what a task does, and one microsecond under a setup, with whether
-- EVENTS_COMPARE[0] came and the timer after it.
pub record WidthTimer (Q : Type 0) : Type 0 where
  pub reset : TimerSetup
  pub task : Task → Q → Q
  pub tick : TimerSetup → Q → Bool × Q
  pub running : Q → Bool
  pub value : Q → ℕ

-- In timer mode and at 1 MHz, a microsecond is one increment.
abbrev pub Clocked : TimerSetup → Type 0
Clocked t = (t.mode ≡ timer_mode) × (t.hz ≡ 1000000)

-- What the product specification says of a timer: START and STOP set whether it runs, CLEAR
-- zeroes it and leaves that alone, a running timer in timer mode counts modulo its width and its
-- compare event comes as it reaches CC[0], a stopped one has no event, and nothing but an event with
-- the short on stops a running one.
pub record WidthTimerLaws {Q : Type 0} (p : WidthTimer Q) : Type 0 where
  pub start_runs : (q : Q) → p.running (p.task task_start q) ≡ true
  pub stop_halts : (q : Q) → p.running (p.task task_stop q) ≡ false
  pub clear_zeroes : (q : Q) → p.value (p.task task_clear q) ≡ 0
  pub clear_keeps : (q : Q) → p.running (p.task task_clear q) ≡ p.running q
  pub tick_counts :
      (t : TimerSetup) (q : Q)
      → Clocked t
      → p.running q ≡ true
      → p.value (p.tick t q).1 ≡ (p.value q + 1) % 2 ^ t.bits
  pub tick_compares :
      (t : TimerSetup) (q : Q)
      → Clocked t
      → p.running q ≡ true
      → (p.tick t q).0 ≡ (p.value (p.tick t q).1 == t.cc)
  pub tick_idles : (t : TimerSetup) (q : Q) → p.running q ≡ false → (p.tick t q).0 ≡ false
  pub tick_stops :
      (t : TimerSetup) (q : Q)
      → p.running (p.tick t q).1 ≡ (p.running q && not ((p.tick t q).0 && t.stops))

-- TIMER2 counts once it is in counter mode and enabled.
abbrev started : List HwCall → Bool
started [] = false
started (timer_enable counter_timer ∷ cs) = true
started (_ ∷ cs) = started cs

abbrev is_counter_mode : TimerMode → Bool
is_counter_mode counter_mode = true
is_counter_mode timer_mode = false

abbrev in_counter_mode : List HwCall → Bool
in_counter_mode [] = false
in_counter_mode (timer_init counter_timer cfg ∷ cs) = is_counter_mode cfg.mode
in_counter_mode (_ ∷ cs) = in_counter_mode cs

unfoldable pub counting : List HwCall → Bool
counting cs = started cs && in_counter_mode cs

-- The width of TIMER2.
unfoldable pub counter_bits : List HwCall → ℕ
counter_bits [] = 16
counter_bits (timer_init counter_timer cfg ∷ cs) = cfg.bit_width
counter_bits (_ ∷ cs) = counter_bits cs

abbrev is_stop : Shorts → Bool
is_stop compare0_stop = true
is_stop no_shorts = false

-- The setup of TIMER3 that the calls leave, from the one after a reset.
unfoldable pub setup_of : TimerSetup → List HwCall → TimerSetup
setup_of r [] = r
setup_of r (timer_init width_timer cfg ∷ cs) = record (setup_of r cs) {
  mode = cfg.mode;
  hz = cfg.frequency;
  bits = cfg.bit_width;
}
setup_of r (extended_compare width_timer cc_channel0 w mask _ ∷ cs) = record (setup_of r cs) {
  cc = w;
  stops = is_stop mask;
}
setup_of r (_ ∷ cs) = setup_of r cs

-- The comparator publishes the crossings of 3/8 of the supply once it has that reference and has been
-- started.
abbrev comparing : List HwCall → Bool
comparing [] = false
comparing (lpcomp_start _ _ ∷ cs) = true
comparing (_ ∷ cs) = comparing cs

abbrev is_supply_3_8 : LpcompRef → Bool
is_supply_3_8 ref_supply_3_8 = true
is_supply_3_8 (other_ref k) = false

abbrev at_supply_3_8 : List HwCall → Bool
at_supply_3_8 [] = false
at_supply_3_8 (lpcomp_init cfg ∷ cs) = is_supply_3_8 cfg.reference
at_supply_3_8 (_ ∷ cs) = at_supply_3_8 cs

abbrev sensing : List HwCall → Bool
sensing cs = comparing cs && at_supply_3_8 cs

abbrev same_edge : Edge → Edge → Bool
same_edge hitolo hitolo = true
same_edge lotohi lotohi = true
same_edge _ _ = false

abbrev event_enabled : ℕ → List HwCall → Bool
event_enabled ch [] = false
event_enabled ch (gpiote_event_enable c ∷ cs) = c == ch || event_enabled ch cs
event_enabled ch (_ ∷ cs) = event_enabled ch cs

-- An edge of the bench pin is an event of every channel that is configured for it and enabled.
abbrev pin_events : (ℕ → Bool) → Edge → List HwCall → List Event
pin_events on edge [] = []
pin_events on edge (gpiote_input_configure pin pull e ch ∷ cs) =
    if pin == bench_pulse_abs_pin && same_edge e edge && on ch
    then gpiote_in ch ∷ pin_events on edge cs
    else pin_events on edge cs
pin_events on edge (_ ∷ cs) = pin_events on edge cs

-- The meter's light, which takes the comparator's input over 3/8 of the supply, or the bench pin D7
-- driven low.
pub data Input : Type 0 where
  light bench : Input

-- The beginning of a pulse, and its end.
pub data Side : Type 0 where
  begins ends : Side

abbrev pub events : Input → Side → List HwCall → List Event
events light begins cs = if sensing cs then lpcomp_up ∷ [] else []
events light ends cs = if sensing cs then lpcomp_down ∷ [] else []
events bench begins cs = pin_events (λ ch. event_enabled ch cs) hitolo cs
events bench ends cs = pin_events (λ ch. event_enabled ch cs) lotohi cs

abbrev reaction : (Event → List Task) → List Event → List Task
reaction wired [] = []
reaction wired (e ∷ es) = wired e ++ reaction wired es

-- The tasks that a side of a pulse triggers.
unfoldable pub tasks : Input → Side → List HwCall → List Task
tasks i side cs = reaction (λ e. triggers e cs) (events i side cs)

-- The tasks that the compare event of TIMER3 triggers.
unfoldable pub compared : List HwCall → List Task
compared cs = triggers (width_compare cc_channel0) cs

-- What was asked of the chain, the state of TIMER3 and the number in TIMER2.
pub record Chain (Q : Type 0) : Type 0 where
  pub calls : List HwCall
  pub width : Q
  pub count : ℕ

-- A pulse at an input, of a width and after a gap in microseconds, or a new threshold.
pub data Step : Type 0 where
  pulse : Input → ℕ → ℕ → Step
  set_threshold : ℕ → Step

module _ {Q : Type 0} (p : WidthTimer Q) where
  abbrev pub perform : Task → Chain Q → Chain Q
  perform task_count h = record h { count = if counting h.calls then h.count + 1 else h.count }
  perform t h = record h { width = p.task t h.width }

  abbrev pub perform_all : List Task → Chain Q → Chain Q
  perform_all [] h = h
  perform_all (t ∷ ts) h = perform_all ts (perform t h)

  -- One microsecond; a compare event goes to PPI.
  abbrev pub micro : Chain Q → Chain Q
  micro h =
      let (hit, q) = p.tick (setup_of p.reset h.calls) h.width in
      let next = record h { width = q } in if hit then perform_all (compared h.calls) next else next

  abbrev pub elapse : ℕ → Chain Q → Chain Q
  elapse zero h = h
  elapse (suc d) h = elapse d (micro h)

  abbrev pub step : Step → Chain Q → Chain Q
  step (pulse i gap d) h =
      let idle = elapse gap h in
      let lit = perform_all (tasks i begins idle.calls) idle in
      let over = elapse d lit in perform_all (tasks i ends over.calls) over
  step (set_threshold w) h = record h { calls = set_min_width_us w h.calls }

  -- A pulse of `age + rest` microseconds, the threshold set to `w` when it is `age` old.
  abbrev pub set_midway : Input → ℕ → ℕ → ℕ → Chain Q → Chain Q
  set_midway i age w rest h =
      let lit = elapse age (perform_all (tasks i begins h.calls) h) in
      let over = elapse rest (record lit { calls = set_min_width_us w lit.calls }) in
      perform_all (tasks i ends over.calls) over

  abbrev pub steps : List Step → Chain Q → Chain Q
  steps [] h = h
  steps (s ∷ ss) h = steps ss (step s h)

-- The pulses that are at least as long as the threshold of their time, which is `w` at first.
abbrev pub long_enough : ℕ → List Step → ℕ
long_enough w [] = 0
long_enough w (pulse i gap d ∷ ss) = (if leb w d then 1 else 0) + long_enough w ss
long_enough w (set_threshold w' ∷ ss) = long_enough w' ss

-- The threshold after a sequence of steps.
abbrev pub threshold_after : ℕ → List Step → ℕ
threshold_after w [] = w
threshold_after w (pulse i gap d ∷ ss) = threshold_after w ss
threshold_after w (set_threshold w' ∷ ss) = threshold_after w' ss

-- What a pulse adds during which the threshold changes from `w` to `w'`: one if it had come to `w`
-- before, and else one exactly if `w'` still lay ahead of it and it came to that.
abbrev pub counted_midway : ℕ → ℕ → ℕ → ℕ → ℕ
counted_midway w w' age rest =
    if leb w age then 1 else if ltb age w' && leb w' (age + rest) then 1 else 0

-- Every threshold that is set is in range, as the application's callback sees to.
abbrev pub ThresholdsInRange : List Step → Type 0
ThresholdsInRange [] = Unit {0}
ThresholdsInRange (pulse i gap d ∷ ss) = ThresholdsInRange ss
ThresholdsInRange (set_threshold w ∷ ss) = WidthInRange w × ThresholdsInRange ss
