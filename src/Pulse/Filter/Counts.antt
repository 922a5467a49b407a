-- ===== src/Pulse/Filter/Counts.antt =====
-- The width filter counts a pulse exactly if it lasts.
use n_rf52840_power_meter.Prelude.{
  ℕ, ◌+◌, ◌≡◌, refl, sym, ◌∙◌, ap, arith, true, false, leb, if◌then◌else◌, List, [], ◌∷◌,
}
use mathlib.Core.Path.{subst}
use n_rf52840_power_meter.Pulse.{task_start, task_stop, task_clear}
use n_rf52840_power_meter.Pulse.Filter.Elapse.{
  Ready, set_min_width_us-Ready, Passes, Lights, elapse_idle, elapse_lit, positive,
}
use n_rf52840_power_meter.Pulse.Filter.{
  WidthTimer, WidthTimerLaws, Input, begins, ends, tasks, Chain, Step, pulse, set_threshold,
  perform_all, elapse, step, steps, long_enough, threshold_after, ThresholdsInRange,
}

module _ {Q : Type 0} (p : WidthTimer Q) (laws : WidthTimerLaws p) where
  pulse_begins :
      (i : Input) (h : Chain Q) {w : ℕ}
      → Ready p.reset h.calls w
      → perform_all p (tasks i begins h.calls) h
        ≡ record h { width = p.task task_clear (p.task task_start h.width) }
  pulse_begins i h r = rw (r.on_begin i) refl

  pulse_ends :
      (i : Input) (h : Chain Q) {w : ℕ}
      → Ready p.reset h.calls w
      → perform_all p (tasks i ends h.calls) h
        ≡ record h { width = p.task task_clear (p.task task_stop h.width) }
  pulse_ends i h r = rw (r.on_end i) refl

  -- The beginning of a pulse starts the timer from 0.
  pub begun :
      (i : Input) (h : Chain Q) {w : ℕ}
      → Ready p.reset h.calls w
      → let g = perform_all p (tasks i begins h.calls) h in
        Passes h 0 g × (p.running g.width ≡ true) × (p.value g.width ≡ 0)
  begun i h r =
      subst (λ g. Passes h 0 g × (p.running g.width ≡ true) × (p.value g.width ≡ 0))
        (sym (pulse_begins i h r))
        (
          (refl, omega arith),
          laws.clear_keeps (p.task task_start h.width) ∙ laws.start_runs h.width,
          laws.clear_zeroes (p.task task_start h.width),
        )

  pub lit_counts :
      (i : Input) (d : ℕ) (h : Chain Q) {w : ℕ}
      → Ready p.reset h.calls w
      → Lights p laws h w d (elapse p d (perform_all p (tasks i begins h.calls) h))
  lit_counts i d h {w} r =
      let g = perform_all p (tasks i begins h.calls) h in
      let (same, runs, zeroed) = begun i h r in
      let ready : Ready p.reset g.calls w = subst (λ cs. Ready p.reset cs w) (sym same.0) r in
      let (rest, run) = elapse_lit p laws d g ready runs (rw zeroed (positive r.in_range)) in
      let lasts : p.value g.width + d ≡ d = ap (λ v. v + d) zeroed ∙ omega arith in
      ((rest.0 ∙ same.0, rest.1 ∙ rw (lasts, same.1) (omega arith)), run ∙ rw lasts refl)

  pub dark_counts :
      (i : Input) (h : Chain Q) {w : ℕ}
      → Ready p.reset h.calls w
      → let g = perform_all p (tasks i ends h.calls) h in Passes h 0 g × (p.running g.width ≡ false)
  dark_counts i h r =
      subst (λ g. Passes h 0 g × (p.running g.width ≡ false)) (sym (pulse_ends i h r))
        ((refl, omega arith), laws.clear_keeps (p.task task_stop h.width) ∙ laws.stop_halts h.width)

  step_counts :
      (i : Input) (gap d : ℕ) (h : Chain Q) {w : ℕ}
      → Ready p.reset h.calls w
      → p.running h.width ≡ false
      → let g = step p (pulse i gap d) h in
        Passes h (if leb w d then 1 else 0) g × (p.running g.width ≡ false)
  step_counts i gap d h {w} r e =
      let (before, _) = elapse_idle p laws gap h e in
      let idle = elapse p gap h in
      let at_idle : Ready p.reset idle.calls w =
        subst (λ cs. Ready p.reset cs w) (sym before.0) r in
      let (during, _) = lit_counts i d idle at_idle in
      let over = elapse p d (perform_all p (tasks i begins idle.calls) idle) in
      let at_over : Ready p.reset over.calls w =
        subst (λ cs. Ready p.reset cs w) (sym during.0) at_idle in
      let (after, halted) = dark_counts i over at_over in
      ((after.0 ∙ during.0 ∙ before.0, rw (after.1, during.1, before.1) (omega arith)), halted)

  -- Over any sequence of pulses and new thresholds, TIMER2 gains the pulses that last.
  pub steps_count :
      (ss : List Step) (h : Chain Q) {w : ℕ}
      → Ready p.reset h.calls w
      → p.running h.width ≡ false
      → ThresholdsInRange ss
      → let g = steps p ss h in
        (g.count ≡ h.count + long_enough w ss)
        × Ready p.reset g.calls (threshold_after w ss)
        × (p.running g.width ≡ false)
  steps_count [] h r e fine = (omega arith, r, e)
  steps_count (pulse i gap d ∷ ss) h {w} r e fine =
      let (passed, halted) = step_counts i gap d h r e in
      let ready = subst (λ cs. Ready p.reset cs w) (sym passed.0) r in
      let (counted, ready_after, still) =
        steps_count ss (step p (pulse i gap d) h) ready halted fine in
      (counted ∙ rw passed.1 (omega arith), ready_after, still)
  steps_count (set_threshold w' ∷ ss) h r e fine =
      steps_count ss (step p (set_threshold w') h) (set_min_width_us-Ready w' r fine.0) e fine.1
