-- ===== src/Pulse/Filter/Elapse.antt =====
-- The width timer while time passes: when it comes to the threshold, and that it stops there.
use n_rf52840_power_meter.Prelude.{
  ℕ, zero, suc, ◌+◌, ◌%◌, ◌^◌, ◌<◌, ◌≤◌, ◌≡◌, refl, sym, ◌∙◌, ap, arith, Bool, true, false, ◌&&◌,
  ◌==◌, not, leb, if◌then◌else◌, Bool-cases, ◌⊎◌, inl, inr, List, [], ◌∷◌,
}
use mathlib.Core.Path.{subst}
use n_rf52840_power_meter.Calibration.{WidthInRange}
use n_rf52840_power_meter.Pulse.{
  task_start, task_stop, task_clear, task_count, HwCall, set_min_width_us,
}
use n_rf52840_power_meter.Pulse.Filter.{
  WidthTimer, WidthTimerLaws, counting, counter_bits, TimerSetup, Clocked, setup_of, Input, light,
  bench, Side, begins, ends, tasks, compared, Chain, micro, elapse,
}

-- A chain that is wired through the width filter, with the threshold `w`.
pub record Ready (reset : TimerSetup) (cs : List HwCall) (w : ℕ) : Type 0 where
  pub on_begin : (i : Input) → tasks i begins cs ≡ task_start ∷ task_clear ∷ []
  pub on_end : (i : Input) → tasks i ends cs ≡ task_stop ∷ task_clear ∷ []
  pub on_compare : compared cs ≡ task_count ∷ []
  pub counts : counting cs ≡ true
  pub wraps : counter_bits cs ≡ 32
  pub clocked : Clocked (setup_of reset cs)
  pub bits : (setup_of reset cs).bits ≡ 16
  pub threshold : (setup_of reset cs).cc ≡ w
  pub stops : (setup_of reset cs).stops ≡ true
  pub in_range : WidthInRange w

tasks-set_min_width_us :
    (i : Input) (side : Side) (w : ℕ) (cs : List HwCall)
    → tasks i side (set_min_width_us w cs) ≡ tasks i side cs
unfolding set_min_width_us tasks
tasks-set_min_width_us light begins w cs = refl
tasks-set_min_width_us light ends w cs = refl
tasks-set_min_width_us bench begins w cs = refl
tasks-set_min_width_us bench ends w cs = refl

pub set_min_width_us-Ready :
    {reset : TimerSetup} {cs : List HwCall} {w : ℕ} (w' : ℕ)
    → Ready reset cs w
    → WidthInRange w'
    → Ready reset (set_min_width_us w' cs) w'
unfolding set_min_width_us compared counting counter_bits setup_of
set_min_width_us-Ready {cs = cs} w' r i = record {
  on_begin = λ k. tasks-set_min_width_us k begins w' cs ∙ r.on_begin k;
  on_end = λ k. tasks-set_min_width_us k ends w' cs ∙ r.on_end k;
  on_compare = r.on_compare;
  counts = r.counts;
  wraps = r.wraps;
  clocked = r.clocked;
  bits = r.bits;
  threshold = refl;
  stops = refl;
  in_range = i;
}

-- What a stretch of time leaves of the chain: its wiring, and `n` more pulses.
abbrev pub Passes : {Q : Type 0} → Chain Q → ℕ → Chain Q → Type 0
Passes h n g = (g.calls ≡ h.calls) × (g.count ≡ h.count + n)

and_true : (x : Bool) → (x && true) ≡ x
and_true true = refl
and_true false = refl

stopped :
    {runs came on x : Bool}
    → runs ≡ true
    → came ≡ x
    → on ≡ true
    → (runs && not (came && on)) ≡ not x
stopped {x = x} e f g = rw (e, f, g) (ap not (and_true x))

pub positive : {w : ℕ} → WidthInRange w → 0 < w
positive r = omega arith

room : {v w : ℕ} → WidthInRange w → v < w → v + 1 < 2 ^ 16
room r below = omega arith

above : {v w : ℕ} → (v + 1 == w) ≡ false → v < w → v + 1 < w
above b below = ground arith

missed : (v d w : ℕ) → (v + suc d < w) ⊎ (w ≤ v) → (v + 1 == w) ≡ false
missed v d w apart = elim apart [ inl short ↦ ground arith | inr past ↦ ground arith ]

still_apart : (v d w : ℕ) → (v + suc d < w) ⊎ (w ≤ v) → (v + 1 + d < w) ⊎ (w ≤ v + 1)
still_apart v d w apart = elim apart [
  | inl short ↦ inl (omega arith)
  | inr past ↦ inr (omega arith)
]

module _ {Q : Type 0} (p : WidthTimer Q) (laws : WidthTimerLaws p) where
  abbrev ticked : Chain Q → Bool × Q
  ticked h = p.tick (setup_of p.reset h.calls) h.width

  micro_quiet : (h : Chain Q) → (ticked h).0 ≡ false → micro p h ≡ record h { width = (ticked h).1 }
  micro_quiet h e = rw e refl

  micro_hit :
      (h : Chain Q)
      → compared h.calls ≡ task_count ∷ []
      → counting h.calls ≡ true
      → (ticked h).0 ≡ true
      → micro p h ≡ record h { width = (ticked h).1; count = h.count + 1 }
  micro_hit h t c e = rw e (rw t (rw c refl))

  -- A stopped timer stays so and counts nothing.
  pub elapse_idle :
      (d : ℕ) (h : Chain Q)
      → p.running h.width ≡ false
      → Passes h 0 (elapse p d h) × (p.running (elapse p d h).width ≡ false)
  elapse_idle zero h e = ((refl, ground arith), e)
  elapse_idle (suc d) h e =
      let quiet : (ticked h).0 ≡ false = laws.tick_idles (setup_of p.reset h.calls) h.width e in
      let halted = laws.tick_stops (setup_of p.reset h.calls) h.width ∙ rw e refl in
      subst (λ g. Passes h 0 (elapse p d g) × (p.running (elapse p d g).width ≡ false))
        (sym (micro_quiet h quiet)) (elapse_idle d (record h { width = (ticked h).1 }) halted)

  -- A tick of a running timer that does not wrap.
  tick_lit :
      (h : Chain Q) {w : ℕ}
      → Ready p.reset h.calls w
      → p.running h.width ≡ true
      → p.value h.width + 1 < 2 ^ 16
      → (p.value (ticked h).1 ≡ p.value h.width + 1)
        × ((ticked h).0 ≡ (p.value h.width + 1 == w))
        × (p.running (ticked h).1 ≡ not (p.value h.width + 1 == w))
  tick_lit h {w} r e below =
      let t = setup_of p.reset h.calls in
      let rolled = laws.tick_counts t h.width r.clocked e in
      let v : p.value (ticked h).1 ≡ p.value h.width + 1 =
        (subst (λ b. p.value (ticked h).1 ≡ (p.value h.width + 1) % 2 ^ b) r.bits rolled
          ∙ omega arith) in
      let hit : (ticked h).0 ≡ (p.value h.width + 1 == w) =
        laws.tick_compares t h.width r.clocked e ∙ rw (v, r.threshold) refl in
      (v, hit, laws.tick_stops t h.width ∙ stopped e hit r.stops)

  -- A pulse has lit the timer up to the value `v`: it counted one and stopped if that comes to the
  -- threshold, and runs otherwise.
  abbrev pub Lights : Chain Q → ℕ → ℕ → Chain Q → Type 0
  Lights h w v g = Passes h (if leb w v then 1 else 0) g × (p.running g.width ≡ not (leb w v))

  pub elapse_lit :
      (d : ℕ) (h : Chain Q) {w : ℕ}
      → Ready p.reset h.calls w
      → p.running h.width ≡ true
      → p.value h.width < w
      → Lights h w (p.value h.width + d) (elapse p d h)
  elapse_lit zero h r e below = ((refl, ground arith), e ∙ ground arith)
  elapse_lit (suc d) h {w} r e below =
      let q = (ticked h).1 in
      let (v, hit, runs) = tick_lit h r e (room r.in_range below) in
      elim (Bool-cases (p.value h.width + 1 == w)) [
        | inl b ↦
            let (rest, halted) =
              elapse_idle d (record h { width = q; count = h.count + 1 }) (runs ∙ rw b refl) in
            subst (λ g. Lights h w (p.value h.width + suc d) (elapse p d g))
              (sym (micro_hit h r.on_compare r.counts (hit ∙ b)))
              ((rest.0, rest.1 ∙ ground arith), halted ∙ ground arith)
        | inr b ↦
            let (rest, run) =
              elapse_lit d (record h { width = q }) r (runs ∙ rw b refl) (rw v (above b below)) in
            subst (λ g. Lights h w (p.value h.width + suc d) (elapse p d g))
              (sym (micro_quiet h (hit ∙ b)))
              ((rest.0, rest.1 ∙ rw v (ground arith)), run ∙ rw v (ground arith))
      ]

  -- Short of the threshold the timer runs on, and past it too, up to the wrap.
  pub elapse_runs :
      (d : ℕ) (h : Chain Q) {w : ℕ}
      → Ready p.reset h.calls w
      → p.running h.width ≡ true
      → p.value h.width + d < 2 ^ 16
      → (p.value h.width + d < w) ⊎ (w ≤ p.value h.width)
      → let g = elapse p d h in
        Passes h 0 g × (p.running g.width ≡ true) × (p.value g.width ≡ p.value h.width + d)
  elapse_runs zero h r e fits apart = ((refl, omega arith), e, omega arith)
  elapse_runs (suc d) h {w} r e fits apart =
      let q = (ticked h).1 in
      let miss : (p.value h.width + 1 == w) ≡ false = missed (p.value h.width) d w apart in
      let (v, hit, runs) = tick_lit h r e (omega arith) in
      let rest =
        elapse_runs d (record h { width = q }) r (runs ∙ rw miss refl) (rw v (omega arith))
          (rw v (still_apart (p.value h.width) d w apart)) in
      subst
        (λ g.
          Passes h 0 (elapse p d g)
          × (p.running (elapse p d g).width ≡ true)
          × (p.value (elapse p d g).width ≡ p.value h.width + suc d))
        (sym (micro_quiet h (hit ∙ miss))) (rest.0, rest.1, rest.2 ∙ rw v (omega arith))
