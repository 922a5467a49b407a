-- ===== src/System/Sound.antt =====
-- What holds in every state of the system.
use n_rf52840_power_meter.Prelude.{
  arith, ℕ, ◌+◌, ◌^◌, ◌≤◌, ◌<◌, ◌≡◌, ◌⊎◌, inl, inr, sym, ◌∙◌, ap, Bool, true, u32, List,
}
use mathlib.Core.Path.{subst}
use mathlib.Core.Option.{Option, some, none}
use n_rf52840_power_meter.Calibration.{ImpInRange, WidthInRange}
use n_rf52840_power_meter.Nvs.{NvsBackend}
use n_rf52840_power_meter.Led.Controller.Sync.{InSync}
use n_rf52840_power_meter.Pulse.{HwCall}
use n_rf52840_power_meter.Pulse.Threshold.{cc0}
use n_rf52840_power_meter.Zigbee.{Zb, to_u24}
use n_rf52840_power_meter.Zigbee.Signals.{Node}
use n_rf52840_power_meter.Main.Press.{Panel}
use n_rf52840_power_meter.Main.Loop.Save.{Counted}
use n_rf52840_power_meter.System.{World, publishing, node, with_node, panel, with_panel, with_zb}
use n_rf52840_power_meter.System.Keeps.{Kept, Steady}
use n_rf52840_power_meter.System.Published.{Pends}

-- The Zigbee state: the endpoint is registered, and the Divisor attribute reads the effective divisor,
-- which is in range.
pub record Calibrated (s : Zb) : Type 0 where
  pub registered : s.endpoint_registered ≡ true
  pub in_range : ImpInRange s.effective_divisor
  pub shown : s.dev_ctx.metering_divisor ≡ to_u24 s.effective_divisor

-- The width timer's threshold is programmed, and in range.
abbrev pub Filtered : List HwCall → Type 0
Filtered hw = (w : ℕ) × (cc0 hw ≡ some w) × WidthInRange w

-- The total that waits to be written to the attribute is the one that has been counted. Between the
-- counting and the publishing of a turn it may still be the one that was published last, and it may be
-- older after a report that was overtaken.
abbrev pub Fresh : {Fs : Type 0} → World Fs → Type 0
Fresh w =
    (w.stale ≡ true)
    ⊎ ((w.turn ≡ publishing) × (w.loop.zb.pending_summation_total ≡ w.loop.last_published_total))
    ⊎ (w.loop.zb.pending_summation_total ≡ w.loop.acc.total)

-- A total that the report's handler has read is not above this one.
abbrev pub ReadLe : Option ℕ → ℕ → Type 0
ReadLe none total = Unit
ReadLe (some n) total = n ≤ total

pub ReadLe-le : (r : Option ℕ) {m n : ℕ} → m ≤ n → ReadLe r m → ReadLe r n
ReadLe-le none h k = tt
ReadLe-le (some x) h k = omega (arith, h, k)

-- Every pulse that the loop has read is in the total exactly once, a boot from the store would restore
-- all but fewer than 100 of those read by the end of the last turn, the total that waits is fresh and
-- not above the counted one, the Divisor attribute and the filter are as they should be, and the LED
-- shows what the arbiter selects.
pub record Sound {Fs : Type 0} (b : NvsBackend Fs) (w : World Fs) : Type 0 where
  pub counted : Counted b w.loop
  pub total : w.loop.acc.total ≡ w.base + w.sampled
  pub register : w.loop.acc.last_hw ≡ u32 w.sampled
  pub seen : w.sampled ≤ w.emitted
  pub fits : w.base + w.emitted < 2 ^ 64
  pub settled : w.settled ≤ w.sampled
  pub loss : w.base + w.settled < w.loop.last_saved_total + 100
  pub fresh : Fresh w
  pub published : (w.turn ≡ publishing) ⊎ (w.loop.last_published_total ≡ w.loop.acc.total)
  pub pending_le : w.loop.zb.pending_summation_total ≤ w.loop.acc.total
  pub read_le : ReadLe w.report w.loop.acc.total
  pub calibrated : Calibrated w.loop.zb
  pub filtered : Filtered w.loop.hw
  pub in_sync : InSync w.led

pub Kept-Calibrated : {s t : Zb} → Kept s t → Calibrated s → Calibrated t
Kept-Calibrated k h = record {
  registered = k.registered ∙ h.registered;
  in_range = subst ImpInRange (sym k.divisor) h.in_range;
  shown = k.shown ∙ h.shown ∙ ap to_u24 (sym k.divisor);
}

pub Pends-Calibrated : {n : ℕ} {s t : Zb} → Pends n s t → Calibrated s → Calibrated t
Pends-Calibrated k h = record {
  registered = k.registered ∙ h.registered;
  in_range = subst ImpInRange (sym k.divisor) h.in_range;
  shown = k.shown ∙ h.shown ∙ ap to_u24 (sym k.divisor);
}

-- The total stays as fresh as it was where the pending total stays, and so where it is set to the
-- counted one.
pub Kept-Fresh :
    {Fs : Type 0} (w : World Fs) (zb : Zb)
    → Fresh w
    → zb.pending_summation_total ≡ w.loop.zb.pending_summation_total
    → let l = w.loop in Fresh (record w { loop = record l { zb = zb } })
Kept-Fresh w zb f k = elim f [
  | inl x ↦ inl x
  | inr (inl t) ↦ inr (inl (t.0, k ∙ t.1))
  | inr (inr t) ↦ inr (inr (k ∙ t))
]

module _ {Fs : Type 0} (b : NvsBackend Fs) where
  -- A step that only touches the Zigbee state, the LED and the button's variables.
  pub panel-Sound :
      (w : World Fs) (p : Panel) (a : Bool)
      → Sound b w
      → Fresh (with_panel p w)
      → p.node.zb.pending_summation_total ≤ w.loop.acc.total
      → Calibrated p.node.zb
      → InSync p.node.led
      → Sound b (record (with_panel p w) { acked = a })
  panel-Sound w p a s f le c h =
      let d = s.counted in
      record {
        counted = record {
          policy = d.policy;
          up = d.up;
          total_fits = d.total_fits;
          restores = d.restores;
          saved_le = d.saved_le;
        };
        total = s.total;
        register = s.register;
        seen = s.seen;
        fits = s.fits;
        settled = s.settled;
        loss = s.loss;
        fresh = f;
        published = s.published;
        pending_le = le;
        read_le = s.read_le;
        calibrated = c;
        filtered = s.filtered;
        in_sync = h;
      }

  -- And one that leaves the network's fields alone.
  pub Steady-Sound :
      (w : World Fs) (p : Panel) (a : Bool)
      → Sound b w
      → Steady (node w) p.node
      → Sound b (record (with_panel p w) { acked = a })
  Steady-Sound w p a s k =
      panel-Sound w p a s (Kept-Fresh w p.node.zb s.fresh k.0.pending)
        (omega (arith, k.0.pending, s.pending_le)) (Kept-Calibrated k.0 s.calibrated) k.1

  pub node-Sound :
      (w : World Fs) (n : Node) (a : Bool)
      → Sound b w
      → Steady (node w) n
      → Sound b (record (with_node n w) { acked = a })
  node-Sound w n a s k = let p = panel w in Steady-Sound w (record p { node = n }) a s k

  pub zb-Sound : (w : World Fs) (zb : Zb) → Sound b w → Kept w.loop.zb zb → Sound b (with_zb zb w)
  zb-Sound w zb s k = node-Sound w (record { zb = zb; led = w.led }) w.acked s (k, s.in_sync)
