-- ===== src/Gate.antt =====
-- src/report_gate.c: the gate that lets every `period`-th publish force an explicit report.
pub mod Cadence
use n_rf52840_power_meter.Prelude.{ℕ, ◌+◌, Bool, true, false, leb, ◌==◌, if◌then◌else◌, u32}

pub record ReportGate : Type 0 where
  pub period : ℕ
  pub counter : ℕ

unfoldable pub init : ℕ → ReportGate
init period = record { period = period; counter = 0 }

-- The result stands first, then the gate as `g` points to it afterwards.
unfoldable pub advance : ReportGate → Bool × ReportGate
advance g =
    if g.period == 0
    then (false, g)
    else let counter = u32 (g.counter + 1) in
      if leb g.period counter
      then (true, record g { counter = 0 })
      else (false, record g { counter = counter })
