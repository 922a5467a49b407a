-- ===== src/Zigbee/Probe.antt =====
-- The diagnostics of src/zigbee_app.c that `rx_idle_probe_kick` starts: what they ask of the
-- hardware and of the kernel, in that order. The log lines are left out, and with them the registers
-- that are only printed.
use n_rf52840_power_meter.Prelude.{
  ℕ, ◌≡◌, ◌≢◌, refl, ◌∙◌, arith, Bool, true, false, if◌then◌else◌, List, [], ◌∷◌, ◌++◌, All,
  All-append,
}

-- `app_timers`.
pub data AppTimer : Type 0 where
  timer0 timer1 timer2 timer3 timer4 : AppTimer

abbrev pub app_timers : List AppTimer
app_timers = timer0 ∷ timer1 ∷ timer2 ∷ timer3 ∷ timer4 ∷ []

pub data ProbeCall : Type 0 where
  zb_get_rx_on_when_idle : ProbeCall
  nrf_clock_hf_is_running : ProbeCall
  tasks_capture : AppTimer → ℕ → ProbeCall
  read_cc : AppTimer → ℕ → ProbeCall
  k_work_reschedule : ℕ → ProbeCall

abbrev pub rx_idle_probe_interval_s : ℕ
rx_idle_probe_interval_s = 60

-- One timer is caught twice, so that the difference of the two readings tells whether it runs.
abbrev pub snapshot : AppTimer → List ProbeCall
snapshot t = tasks_capture t 5 ∷ read_cc t 5 ∷ tasks_capture t 5 ∷ read_cc t 5 ∷ []

unfoldable pub log_timer_status : List AppTimer → List ProbeCall
log_timer_status [] = []
log_timer_status (t ∷ ts) = snapshot t ++ log_timer_status ts

-- `hfclk_probe` is CONFIG_APP_HW_HFCLK_PROBE.
unfoldable pub log_hfclk_status : Bool → List ProbeCall
log_hfclk_status hfclk_probe =
    if hfclk_probe then nrf_clock_hf_is_running ∷ log_timer_status app_timers else []

unfoldable pub rx_idle_probe_work_handler : Bool → List ProbeCall
rx_idle_probe_work_handler hfclk_probe =
    zb_get_rx_on_when_idle
    ∷ (log_hfclk_status hfclk_probe ++ (k_work_reschedule rx_idle_probe_interval_s ∷ []))

unfoldable pub rx_idle_probe_kick : Bool → List ProbeCall
rx_idle_probe_kick hfclk_probe =
    zb_get_rx_on_when_idle
    ∷ (log_hfclk_status hfclk_probe ++ (k_work_reschedule rx_idle_probe_interval_s ∷ []))

-- A capture goes to channel 5.
abbrev pub OnFive : ProbeCall → Type 0
OnFive (tasks_capture t ch) = ch ≡ 5
OnFive _ = Unit

log_timer_status-OnFive : (ts : List AppTimer) → All OnFive (log_timer_status ts)
unfolding log_timer_status
log_timer_status-OnFive [] = tt
log_timer_status-OnFive (t ∷ ts) = (refl, (tt, (refl, (tt, log_timer_status-OnFive ts))))

log_hfclk_status-OnFive : (hfclk_probe : Bool) → All OnFive (log_hfclk_status hfclk_probe)
unfolding log_hfclk_status
log_hfclk_status-OnFive true = (tt, log_timer_status-OnFive app_timers)
log_hfclk_status-OnFive false = tt

pub rx_idle_probe_kick-OnFive : (hfclk_probe : Bool) → All OnFive (rx_idle_probe_kick hfclk_probe)
unfolding rx_idle_probe_kick
rx_idle_probe_kick-OnFive h =
    (tt, All-append OnFive (log_hfclk_status h) _ (log_hfclk_status-OnFive h) (tt, tt))

-- The timers' compare registers: a capture writes one channel of one timer.
pub record TimerHw (R : Type 0) : Type 0 where
  pub capture : AppTimer → ℕ → R → R
  pub cc : R → AppTimer → ℕ → ℕ
  pub other_channel :
      (r : R) (t u : AppTimer) (ch k : ℕ) → ch ≢ k → cc (capture t ch r) u k ≡ cc r u k

module _ {R : Type 0} (hw : TimerHw R) where
  abbrev pub probed : List ProbeCall → R → R
  probed [] r = r
  probed (tasks_capture t ch ∷ cs) r = probed cs (hw.capture t ch r)
  probed (_ ∷ cs) r = probed cs r

  probed_keeps :
      (cs : List ProbeCall) (r : R) (u : AppTimer) (k : ℕ)
      → All OnFive cs
      → k ≢ 5
      → hw.cc (probed cs r) u k ≡ hw.cc r u k
  probed_keeps [] r u k a ne = refl
  probed_keeps (tasks_capture t ch ∷ cs) r u k a ne =
      probed_keeps cs (hw.capture t ch r) u k a.1 ne
      ∙ hw.other_channel r t u ch k (omega (arith, a.0, ne))
  probed_keeps (zb_get_rx_on_when_idle ∷ cs) r u k a ne = probed_keeps cs r u k a.1 ne
  probed_keeps (nrf_clock_hf_is_running ∷ cs) r u k a ne = probed_keeps cs r u k a.1 ne
  probed_keeps (read_cc t ch ∷ cs) r u k a ne = probed_keeps cs r u k a.1 ne
  probed_keeps (k_work_reschedule n ∷ cs) r u k a ne = probed_keeps cs r u k a.1 ne

  -- The probe leaves the channel 0 of every timer alone, with which the pulse counter counts and
  -- filters.
  pub rx_idle_probe_kick_harmless :
      (hfclk_probe : Bool) (r : R) (u : AppTimer)
      → hw.cc (probed (rx_idle_probe_kick hfclk_probe) r) u 0 ≡ hw.cc r u 0
  rx_idle_probe_kick_harmless h r u =
      probed_keeps (rx_idle_probe_kick h) r u 0 (rx_idle_probe_kick-OnFive h) (omega arith)
