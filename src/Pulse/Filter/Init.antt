-- ===== src/Pulse/Filter/Init.antt =====
-- `hw_pulse_counter_init` brings up a chain that counts through the width filter.
use n_rf52840_power_meter.Prelude.{ℕ, ◌≡◌, refl, sym, ap, arith, [], ◌∷◌, ◌++◌}
use mathlib.Core.Path.{subst}
use n_rf52840_power_meter.Rc.{success}
use n_rf52840_power_meter.Config.{Config, InRange}
use n_rf52840_power_meter.Nvs.{NvsBackend, Store}
use n_rf52840_power_meter.Calibration.{WidthInRange}
use n_rf52840_power_meter.Pulse.{
  task_start, task_stop, task_clear, hitolo, lotohi, gpiote_in, Nrfx,
  effective_min_width_us_at_init, hw_init,
}
use n_rf52840_power_meter.Pulse.Threshold.{
  Threshold, effective_min_width-Threshold, Threshold-WidthInRange,
}
use n_rf52840_power_meter.Pulse.Wiring.{
  Distinct, chain_calls, wired_lpcomp, wired_bench, hw_init_calls,
}
use n_rf52840_power_meter.Pulse.Filter.{
  counting, counter_bits, TimerSetup, setup_of, Input, light, bench, begins, ends, events, tasks,
  compared,
}
use n_rf52840_power_meter.Pulse.Filter.Elapse.{Ready}

module _ (n : Nrfx) (w : ℕ) (d : Distinct n) where
  begin_events : events bench begins (chain_calls n w []) ≡ gpiote_in (n.gpiote_alloc hitolo).1 ∷ []
  begin_events = ground arith

  end_events : events bench ends (chain_calls n w []) ≡ gpiote_in (n.gpiote_alloc lotohi).1 ∷ []
  end_events = ground arith

  on_begin : (i : Input) → tasks i begins (chain_calls n w []) ≡ task_start ∷ task_clear ∷ []
  unfolding tasks
  on_begin light = ap (λ ts. ts ++ []) (wired_lpcomp n w d).0
  on_begin bench = rw begin_events (ap (λ ts. ts ++ []) (wired_bench n w d).0)

  on_end : (i : Input) → tasks i ends (chain_calls n w []) ≡ task_stop ∷ task_clear ∷ []
  unfolding tasks
  on_end light = ap (λ ts. ts ++ []) (wired_lpcomp n w d).1
  on_end bench = rw end_events (ap (λ ts. ts ++ []) (wired_bench n w d).1)

  chain_calls-Ready : (reset : TimerSetup) → WidthInRange w → Ready reset (chain_calls n w []) w
  unfolding counting counter_bits setup_of compared
  chain_calls-Ready reset r = record {
    on_begin = on_begin;
    on_end = on_end;
    on_compare = (wired_lpcomp n w d).2;
    counts = refl;
    wraps = refl;
    clocked = (refl, refl);
    bits = refl;
    threshold = refl;
    stops = refl;
    in_range = r;
  }

pub hw_init-Ready :
    {Fs : Type 0} (n : Nrfx) (b : NvsBackend Fs) (c : Config) (s : Store Fs) (reset : TimerSetup)
    → Distinct n
    → InRange c
    → (hw_init n b c s []).0 ≡ success
    → Ready reset (hw_init n b c s []).1 (effective_min_width_us_at_init b c s)
hw_init-Ready n b c s reset d r e =
    let w = effective_min_width_us_at_init b c s in
    subst (λ cs. Ready reset cs w) (sym (hw_init_calls n b c s [] e))
      (chain_calls-Ready n w d reset
        (Threshold-WidthInRange b c s r (effective_min_width-Threshold b c s)))
