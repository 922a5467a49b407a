-- ===== src/Pulse.antt =====
-- src/hw_pulse_counter.c: the chain LPCOMP / GPIOTE → PPI → TIMER3 → PPI → TIMER2. The peripherals and
-- nrfx are not code of the repository: `calls` lists what was asked of them, the latest first, and
-- a record `Nrfx` says what the fallible calls return.
pub mod Wiring
pub mod Threshold
pub mod Filter
use n_rf52840_power_meter.Prelude.{ℕ, ◌+◌, ◌*◌, Bool, false, ◌||◌, List, [], ◌∷◌}
use mathlib.Core.Option.{Option, some, none}
use n_rf52840_power_meter.Rc.{eio, Rc, success, fail}
use n_rf52840_power_meter.Config.{Config}
use n_rf52840_power_meter.Calibration.{is_valid_pulse_min_width_us}
use n_rf52840_power_meter.Nvs.{NvsBackend, Store, load_pulse_min_width_us, accepted_or}

-- `nrfx_err_t`.
pub data NrfxErr : Type 0 where
  nrfx_success nrfx_already : NrfxErr
  nrfx_error : ℕ → NrfxErr

-- TIMER2, the counter, and TIMER3, the width timer.
pub data Timer : Type 0 where
  counter_timer width_timer : Timer

pub data TimerMode : Type 0 where
  counter_mode timer_mode : TimerMode

-- `nrf_timer_cc_channel_t`.
pub data CcChannel : Type 0 where
  cc_channel0 cc_channel1 cc_channel2 cc_channel3 : CcChannel

abbrev pub counter_capture_ch : CcChannel
counter_capture_ch = cc_channel0

abbrev pub width_threshold_ch : CcChannel
width_threshold_ch = cc_channel0

-- The mask of timer shorts: none, and NRF_TIMER_SHORT_COMPARE0_STOP_MASK.
pub data Shorts : Type 0 where
  no_shorts compare0_stop : Shorts

-- What the program sets of `nrfx_timer_config_t`: frequency in Hz, mode and width.
pub record TimerConfig : Type 0 where
  pub frequency : ℕ
  pub mode : TimerMode
  pub bit_width : ℕ

-- `nrfx_lpcomp_config_t`, with the values that the program writes.
pub data LpcompRef : Type 0 where
  ref_supply_3_8 : LpcompRef
  other_ref : ℕ → LpcompRef

pub data LpcompDetect : Type 0 where
  detect_up : LpcompDetect
  other_detect : ℕ → LpcompDetect

pub record LpcompConfig : Type 0 where
  pub input : ℕ
  pub reference : LpcompRef
  pub detection : LpcompDetect
  pub hyst_enabled : Bool

-- `NRF_LPCOMP_INPUT_0`, the meter's light.
abbrev pub lpcomp_input_0 : ℕ
lpcomp_input_0 = 0

abbrev pub mhz_to_hz : ℕ → ℕ
mhz_to_hz n = n * 1000000

-- `NRF_GPIO_PIN_MAP(1, 12)`.
abbrev pub bench_pulse_abs_pin : ℕ
bench_pulse_abs_pin = 32 * 1 + 12

pub data Pull : Type 0 where
  no_pull pullup pulldown : Pull

-- The two edges of the bench pin, each with a GPIOTE channel.
pub data Edge : Type 0 where
  hitolo lotohi : Edge

-- The events that PPI channels listen to, and the tasks that they trigger.
pub data Event : Type 0 where
  lpcomp_up lpcomp_down : Event
  width_compare : CcChannel → Event
  gpiote_in : ℕ → Event

pub data Task : Type 0 where
  task_start task_stop task_clear task_count : Task

-- The five PPI channels by their names in the source.
pub data PpiRole : Type 0 where
  ch_up ch_down ch_bench_h ch_bench_l ch_cnt : PpiRole

pub data HwCall : Type 0 where
  timer_init : Timer → TimerConfig → HwCall
  timer_clear : Timer → HwCall
  timer_enable : Timer → HwCall
  timer_capture : Timer → CcChannel → HwCall
  extended_compare : Timer → CcChannel → ℕ → Shorts → Bool → HwCall
  irq_connect gpiote_init : HwCall
  lpcomp_init : LpcompConfig → HwCall
  lpcomp_start : ℕ → ℕ → HwCall
  gpiote_channel_alloc : Edge → HwCall
  gpiote_input_configure : ℕ → Pull → Edge → ℕ → HwCall
  gpiote_event_enable : ℕ → HwCall
  gppi_channel_alloc : PpiRole → HwCall
  endpoints_setup : ℕ → Event → Task → HwCall
  fork_endpoint_setup : ℕ → Task → HwCall
  channels_enable : List ℕ → HwCall

pub record Nrfx : Type 0 where
  pub timer_init_err : Timer → NrfxErr
  pub lpcomp_default_config : ℕ → LpcompConfig
  pub lpcomp_has_hyst : Bool
  pub lpcomp_init_err : NrfxErr
  pub gpiote_init_err : NrfxErr
  pub gpiote_alloc : Edge → NrfxErr × ℕ
  pub gpiote_configure_err : Edge → NrfxErr
  pub gppi_alloc : PpiRole → NrfxErr × ℕ
  pub captured : ℕ

-- A step of the initialisation: `none` is `return -EIO`.
abbrev pub Init : Type 0 → Type 0
Init A = List HwCall → Option A × List HwCall

infixl 5 ◌>>=◌ ◌>>◌
abbrev pub ◌>>=◌ : {A B : Type 0} → Init A → (A → Init B) → Init B
◌>>=◌ m f cs = let (r, cs') = m cs in elim r [ none ↦ (none, cs') | some a ↦ f a cs' ]

abbrev pub ◌>>◌ : {B : Type 0} → Init (Unit {0}) → Init B → Init B
m >> k = m >>= λ _. k

abbrev pub pure : {A : Type 0} → A → Init A
pure a cs = (some a, cs)

abbrev pub ask : HwCall → Init (Unit {0})
ask c cs = (some tt, c ∷ cs)

-- `err != NRFX_SUCCESS`, and the same with NRFX_ERROR_ALREADY let through.
abbrev pub check : NrfxErr → Init (Unit {0})
check nrfx_success cs = (some tt, cs)
check _ cs = (none, cs)

abbrev pub check_or_already : NrfxErr → Init (Unit {0})
check_or_already nrfx_success cs = (some tt, cs)
check_or_already nrfx_already cs = (some tt, cs)
check_or_already (nrfx_error e) cs = (none, cs)

-- The threshold from NVS if one is stored and in range, and the build's default otherwise.
unfoldable pub effective_min_width_us_at_init :
    {Fs : Type 0} → NvsBackend Fs → Config → Store Fs → ℕ
effective_min_width_us_at_init b c s =
    accepted_or is_valid_pulse_min_width_us c.pulse_min_width_us (load_pulse_min_width_us b s)

abbrev pub counter_cfg : TimerConfig
counter_cfg = record { frequency = mhz_to_hz 1; mode = counter_mode; bit_width = 32 }

abbrev pub width_cfg : TimerConfig
width_cfg = record { frequency = mhz_to_hz 1; mode = timer_mode; bit_width = 16 }

-- CC[0] of TIMER3 with its short, and no interrupt.
abbrev pub set_width_threshold : ℕ → HwCall
set_width_threshold w = extended_compare width_timer width_threshold_ch w compare0_stop false

module _ (n : Nrfx) where
  -- TIMER2: counter mode, 32 bits.
  unfoldable pub init_counter_timer : Init (Unit {0})
  init_counter_timer = do
    ask (timer_init counter_timer counter_cfg)
    check_or_already (n.timer_init_err counter_timer)
    ask (timer_clear counter_timer)

  -- TIMER3: timer mode, 1 MHz, 16 bits; CC[0] holds the threshold, with the COMPARE0_STOP short.
  unfoldable pub init_width_timer : ℕ → Init (Unit {0})
  init_width_timer effective_min_width_us = do
    ask (timer_init width_timer width_cfg)
    check_or_already (n.timer_init_err width_timer)
    ask (set_width_threshold effective_min_width_us)
    ask (timer_clear width_timer)

  -- The default configuration for AIN0 with the reference at 3/8 of the supply, the detection and,
  -- where the chip has it, the hysteresis overwritten.
  abbrev pub lpcomp_cfg : LpcompConfig
  lpcomp_cfg =
      let default = n.lpcomp_default_config lpcomp_input_0 in
      record default {
        reference = ref_supply_3_8;
        detection = detect_up;
        hyst_enabled = n.lpcomp_has_hyst || default.hyst_enabled;
      }

  unfoldable pub init_lpcomp : Init (Unit {0})
  init_lpcomp = do ask irq_connect; ask (lpcomp_init lpcomp_cfg); check n.lpcomp_init_err

  -- Both GPIOTE channels of the bench pin; the result is their numbers.
  unfoldable pub init_gpiote : Init (ℕ × ℕ)
  init_gpiote = do
    ask gpiote_init
    check_or_already n.gpiote_init_err
    ask (gpiote_channel_alloc hitolo)
    check (n.gpiote_alloc hitolo).0
    ask (gpiote_channel_alloc lotohi)
    check (n.gpiote_alloc lotohi).0
    let h = (n.gpiote_alloc hitolo).1
    let l = (n.gpiote_alloc lotohi).1
    ask (gpiote_input_configure bench_pulse_abs_pin pullup hitolo h)
    check (n.gpiote_configure_err hitolo)
    ask (gpiote_input_configure bench_pulse_abs_pin pullup lotohi l)
    check (n.gpiote_configure_err lotohi)
    ask (gpiote_event_enable h)
    ask (gpiote_event_enable l)
    pure (h, l)

  unfoldable pub alloc_ppi : PpiRole → Init ℕ
  alloc_ppi role = do
    ask (gppi_channel_alloc role)
    check (n.gppi_alloc role).0
    pure (n.gppi_alloc role).1

  -- A pulse source starts or stops TIMER3 and clears it by the fork.
  unfoldable pub wire_forked : ℕ → Event → Task → Init (Unit {0})
  wire_forked ch ev task = do
    ask (endpoints_setup ch ev task)
    ask (fork_endpoint_setup ch task_clear)

  -- The five channels, wired and enabled.
  unfoldable pub init_ppi : ℕ → ℕ → Init (Unit {0})
  unfolding alloc_ppi wire_forked
  init_ppi h l = do
    up ← alloc_ppi ch_up
    down ← alloc_ppi ch_down
    bench_h ← alloc_ppi ch_bench_h
    bench_l ← alloc_ppi ch_bench_l
    cnt ← alloc_ppi ch_cnt
    wire_forked up lpcomp_up task_start
    wire_forked down lpcomp_down task_stop
    wire_forked bench_h (gpiote_in h) task_start
    wire_forked bench_l (gpiote_in l) task_stop
    ask (endpoints_setup cnt (width_compare width_threshold_ch) task_count)
    ask (channels_enable (up ∷ down ∷ bench_h ∷ bench_l ∷ cnt ∷ []))

  -- `hw_pulse_counter_init` after the threshold has been read.
  unfoldable pub init_chain : ℕ → Init (Unit {0})
  init_chain effective_min_width_us = do
    init_counter_timer
    init_width_timer effective_min_width_us
    init_lpcomp
    channels ← init_gpiote
    init_ppi channels.0 channels.1
    ask (timer_enable counter_timer)
    ask (lpcomp_start 0 0)

  -- The load of the threshold from NVS changes nothing, so it may stand first.
  unfoldable pub hw_init :
      {Fs : Type 0} → NvsBackend Fs → Config → Store Fs → List HwCall → Rc × List HwCall
  hw_init b c s cs =
      let (r, cs') = init_chain (effective_min_width_us_at_init b c s) cs in
      elim r [ some _ ↦ (success, cs') | none ↦ (fail eio, cs') ]

-- `nrfx_timer_capture` on TIMER2.
unfoldable pub hw_read : Nrfx → List HwCall → ℕ × List HwCall
hw_read n cs = (n.captured, timer_capture counter_timer counter_capture_ch ∷ cs)

unfoldable pub set_min_width_us : ℕ → List HwCall → List HwCall
set_min_width_us min_width_us cs = set_width_threshold min_width_us ∷ cs
