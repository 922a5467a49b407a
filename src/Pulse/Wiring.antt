-- ===== src/Pulse/Wiring.antt =====
-- The hardware chain after a successful initialisation: which event triggers which task.
use n_rf52840_power_meter.Prelude.{
  ℕ, ◌≡◌, ◌≢◌, ◌⊎◌, arith, sym, Bool, true, false, ◌&&◌, ◌||◌, ◌==◌, if◌then◌else◌, List, [], ◌∷◌,
  ◌++◌,
}
use mathlib.Core.Path.{subst}
use mathlib.Core.Option.{some, none}
use n_rf52840_power_meter.Rc.{success}
use n_rf52840_power_meter.Config.{Config}
use n_rf52840_power_meter.Nvs.{NvsBackend, Store}
use n_rf52840_power_meter.Pulse.{
  counter_timer, width_timer, hitolo, lotohi, Event, lpcomp_up, lpcomp_down, width_compare,
  CcChannel, cc_channel0, cc_channel1, cc_channel2, cc_channel3, width_threshold_ch, counter_cfg,
  width_cfg, set_width_threshold, lpcomp_cfg, bench_pulse_abs_pin, pullup, gpiote_in, Task,
  task_start, task_stop, task_clear, task_count, ch_up, ch_down, ch_bench_h, ch_bench_l, ch_cnt,
  HwCall, timer_init, timer_clear, timer_enable, irq_connect, lpcomp_init, lpcomp_start,
  gpiote_init, gpiote_channel_alloc, gpiote_input_configure, gpiote_event_enable,
  gppi_channel_alloc, endpoints_setup, fork_endpoint_setup, channels_enable, Nrfx,
  effective_min_width_us_at_init, init_counter_timer, init_width_timer, init_lpcomp, init_gpiote,
  init_ppi, init_chain, hw_init,
}

module _ (n : Nrfx) where
  -- The channel numbers that the allocators hand out.
  abbrev pub up : ℕ
  up = (n.gppi_alloc ch_up).1

  abbrev pub down : ℕ
  down = (n.gppi_alloc ch_down).1

  abbrev pub bench_h : ℕ
  bench_h = (n.gppi_alloc ch_bench_h).1

  abbrev pub bench_l : ℕ
  bench_l = (n.gppi_alloc ch_bench_l).1

  abbrev pub cnt : ℕ
  cnt = (n.gppi_alloc ch_cnt).1

  abbrev pub hi : ℕ
  hi = (n.gpiote_alloc hitolo).1

  abbrev pub lo : ℕ
  lo = (n.gpiote_alloc lotohi).1

  -- What each phase asks of the hardware where no call in it fails, the latest first.
  abbrev pub gpiote_calls : List HwCall → List HwCall
  gpiote_calls cs =
      gpiote_event_enable lo
      ∷ gpiote_event_enable hi
      ∷ gpiote_input_configure bench_pulse_abs_pin pullup lotohi lo
      ∷ gpiote_input_configure bench_pulse_abs_pin pullup hitolo hi
      ∷ gpiote_channel_alloc lotohi
      ∷ gpiote_channel_alloc hitolo
      ∷ gpiote_init
      ∷ cs

  abbrev pub ppi_calls : ℕ → ℕ → List HwCall → List HwCall
  ppi_calls h l cs =
      channels_enable (up ∷ down ∷ bench_h ∷ bench_l ∷ cnt ∷ [])
      ∷ endpoints_setup cnt (width_compare width_threshold_ch) task_count
      ∷ fork_endpoint_setup bench_l task_clear
      ∷ endpoints_setup bench_l (gpiote_in l) task_stop
      ∷ fork_endpoint_setup bench_h task_clear
      ∷ endpoints_setup bench_h (gpiote_in h) task_start
      ∷ fork_endpoint_setup down task_clear
      ∷ endpoints_setup down lpcomp_down task_stop
      ∷ fork_endpoint_setup up task_clear
      ∷ endpoints_setup up lpcomp_up task_start
      ∷ gppi_channel_alloc ch_cnt
      ∷ gppi_channel_alloc ch_bench_l
      ∷ gppi_channel_alloc ch_bench_h
      ∷ gppi_channel_alloc ch_down
      ∷ gppi_channel_alloc ch_up
      ∷ cs

  gpiote_outcome :
      (cs : List HwCall)
      → ((init_gpiote n cs).0 ≡ none) ⊎ (init_gpiote n cs ≡ (some (hi, lo), gpiote_calls cs))
  unfolding init_gpiote
  gpiote_outcome cs = ground arith

  ppi_outcome :
      (h l : ℕ) (cs : List HwCall)
      → ((init_ppi n h l cs).0 ≡ none) ⊎ (init_ppi n h l cs ≡ (some tt, ppi_calls h l cs))
  unfolding init_ppi
  ppi_outcome h l cs = ground arith

  abbrev pub lpcomp_calls : ℕ → List HwCall → List HwCall
  lpcomp_calls w cs =
      lpcomp_init (lpcomp_cfg n)
      ∷ irq_connect
      ∷ timer_clear width_timer
      ∷ set_width_threshold w
      ∷ timer_init width_timer width_cfg
      ∷ timer_clear counter_timer
      ∷ timer_init counter_timer counter_cfg
      ∷ cs

  abbrev pub chain_calls : ℕ → List HwCall → List HwCall
  chain_calls w cs =
      lpcomp_start 0 0
      ∷ timer_enable counter_timer
      ∷ ppi_calls hi lo (gpiote_calls (lpcomp_calls w cs))

  chain_outcome :
      (w : ℕ) (cs : List HwCall)
      → ((init_chain n w cs).0 ≡ none) ⊎ (init_chain n w cs ≡ (some tt, chain_calls w cs))
  unfolding init_chain init_counter_timer init_width_timer init_lpcomp
  chain_outcome w cs = ground (
    arith,
    gpiote_outcome (lpcomp_calls w cs),
    ppi_outcome hi lo (gpiote_calls (lpcomp_calls w cs)),
  )

-- The allocators of GPIOTE and PPI channels hand out a channel once.
pub record Distinct (n : Nrfx) : Type 0 where
  pub edges : (n.gpiote_alloc hitolo).1 ≢ (n.gpiote_alloc lotohi).1
  pub up_down : up n ≢ down n
  pub up_bench_h : up n ≢ bench_h n
  pub up_bench_l : up n ≢ bench_l n
  pub up_cnt : up n ≢ cnt n
  pub down_bench_h : down n ≢ bench_h n
  pub down_bench_l : down n ≢ bench_l n
  pub down_cnt : down n ≢ cnt n
  pub bench_h_bench_l : bench_h n ≢ bench_l n
  pub bench_h_cnt : bench_h n ≢ cnt n
  pub bench_l_cnt : bench_l n ≢ cnt n

-- What a PPI configuration does: an event triggers the task and the fork tasks of every enabled
-- channel that listens to it.
abbrev pub same_channel : CcChannel → CcChannel → Bool
same_channel cc_channel0 cc_channel0 = true
same_channel cc_channel1 cc_channel1 = true
same_channel cc_channel2 cc_channel2 = true
same_channel cc_channel3 cc_channel3 = true
same_channel _ _ = false

abbrev same_event : Event → Event → Bool
same_event lpcomp_up lpcomp_up = true
same_event lpcomp_down lpcomp_down = true
same_event (width_compare a) (width_compare b) = same_channel a b
same_event (gpiote_in a) (gpiote_in b) = a == b
same_event _ _ = false

abbrev elem : ℕ → List ℕ → Bool
elem x [] = false
elem x (y ∷ ys) = x == y || elem x ys

abbrev enabled : ℕ → List HwCall → Bool
enabled ch [] = false
enabled ch (channels_enable chs ∷ cs) = elem ch chs || enabled ch cs
enabled ch (_ ∷ cs) = enabled ch cs

abbrev forks : ℕ → List HwCall → List Task
forks ch [] = []
forks ch (fork_endpoint_setup c t ∷ cs) = if c == ch then t ∷ forks ch cs else forks ch cs
forks ch (_ ∷ cs) = forks ch cs

-- `on` tells the enabled channels, `fk` the fork tasks of a channel.
abbrev triggers_in : (ℕ → Bool) → (ℕ → List Task) → Event → List HwCall → List Task
triggers_in on fk ev [] = []
triggers_in on fk ev (endpoints_setup ch e t ∷ cs) =
    if same_event e ev && on ch
    then t ∷ fk ch ++ triggers_in on fk ev cs
    else triggers_in on fk ev cs
triggers_in on fk ev (_ ∷ cs) = triggers_in on fk ev cs

abbrev pub triggers : Event → List HwCall → List Task
triggers ev cs = triggers_in (λ ch. enabled ch cs) (λ ch. forks ch cs) ev cs

pub wired_lpcomp :
    (n : Nrfx) (w : ℕ)
    → Distinct n
    → let cs = chain_calls n w [] in
      (triggers lpcomp_up cs ≡ task_start ∷ task_clear ∷ [])
      × (triggers lpcomp_down cs ≡ task_stop ∷ task_clear ∷ [])
      × (triggers (width_compare width_threshold_ch) cs ≡ task_count ∷ [])
wired_lpcomp n w d = ground arith

pub wired_bench :
    (n : Nrfx) (w : ℕ)
    → Distinct n
    → let cs = chain_calls n w [] in
      (triggers (gpiote_in (hi n)) cs ≡ task_start ∷ task_clear ∷ [])
      × (triggers (gpiote_in (lo n)) cs ≡ task_stop ∷ task_clear ∷ [])
wired_bench n w d = ground arith

-- A successful initialisation has asked for every call, in order.
pub hw_init_calls :
    {Fs : Type 0} (n : Nrfx) (b : NvsBackend Fs) (c : Config) (s : Store Fs) (cs : List HwCall)
    → (hw_init n b c s cs).0 ≡ success
    → (hw_init n b c s cs).1 ≡ chain_calls n (effective_min_width_us_at_init b c s) cs
unfolding hw_init
hw_init_calls n b c s cs e =
    ground (arith, chain_outcome n (effective_min_width_us_at_init b c s) cs)

-- After an initialisation that returned 0, with allocators that hand out each channel once, a rising
-- edge of the comparator and a falling edge of the bench pin start and clear the width timer, the
-- opposite edges stop and clear it, and its compare event, and nothing else of these, counts one
-- pulse: both pulse sources go through the width filter.
chain_wired :
    {Fs : Type 0} (n : Nrfx) (b : NvsBackend Fs) (c : Config) (s : Store Fs)
    → Distinct n
    → (hw_init n b c s []).0 ≡ success
    → let cs = (hw_init n b c s []).1 in
      (triggers lpcomp_up cs ≡ task_start ∷ task_clear ∷ [])
      × (triggers lpcomp_down cs ≡ task_stop ∷ task_clear ∷ [])
      × (triggers (gpiote_in (n.gpiote_alloc hitolo).1) cs ≡ task_start ∷ task_clear ∷ [])
      × (triggers (gpiote_in (n.gpiote_alloc lotohi).1) cs ≡ task_stop ∷ task_clear ∷ [])
      × (triggers (width_compare width_threshold_ch) cs ≡ task_count ∷ [])
chain_wired n b c s d e =
    let w = effective_min_width_us_at_init b c s in
    let a = wired_lpcomp n w d in
    let g = wired_bench n w d in
    subst
      (λ cs.
        (triggers lpcomp_up cs ≡ task_start ∷ task_clear ∷ [])
        × (triggers lpcomp_down cs ≡ task_stop ∷ task_clear ∷ [])
        × (triggers (gpiote_in (n.gpiote_alloc hitolo).1) cs ≡ task_start ∷ task_clear ∷ [])
        × (triggers (gpiote_in (n.gpiote_alloc lotohi).1) cs ≡ task_stop ∷ task_clear ∷ [])
        × (triggers (width_compare width_threshold_ch) cs ≡ task_count ∷ []))
      (sym (hw_init_calls n b c s [] e)) (a.0, a.1, g.0, g.1, a.2)
