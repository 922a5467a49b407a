-- ===== src/System/Turns.antt =====
-- A turn of the sample loop as steps of the system.
use n_rf52840_power_meter.Prelude.{
  ℕ, ◌+◌, ◌-◌, ◌^◌, ◌<◌, ◌≡◌, ◌⊎◌, inl, inr, refl, arith, sym, ◌∙◌, ap, Bool, true, false, ◌!=◌,
  if◌then◌else◌, Bool-cases, u32,
}
use mathlib.Core.Path.{subst}
use n_rf52840_power_meter.Config.{Config}
use n_rf52840_power_meter.Accumulator.{PulseAccumulator}
use n_rf52840_power_meter.Accumulator
use n_rf52840_power_meter.Nvs.{NvsBackend}
use n_rf52840_power_meter.Nvs.Slots.{NvsLaws, Writes}
use n_rf52840_power_meter.Pulse.{hw_read}
use n_rf52840_power_meter.Pulse.Threshold.{cc0}
use n_rf52840_power_meter.Zigbee.{Zboss, Zb}
use n_rf52840_power_meter.Zigbee.Reports.{plain, reported, publish}
use n_rf52840_power_meter.Main.Loop.{Loop, Sample, count_pulses, publish_if_changed, persist_if_due}
use n_rf52840_power_meter.Main.Loop.Save.{
  persist_if_due-Unsaved, publish_if_changed-Apart, persist_if_due-Safe, Safe-Counted,
}
use n_rf52840_power_meter.System.{World, counting, publishing, persisting}
use n_rf52840_power_meter.Metering.{scale_to_u48}
use n_rf52840_power_meter.System.Keeps.{ShowsOr}
use n_rf52840_power_meter.System.Published.{Pends, publish-Pends}
use n_rf52840_power_meter.Zigbee.Publish.{publish_summation, publish_summation_and_report}
use n_rf52840_power_meter.Gate.{advance}
use n_rf52840_power_meter.Main.Loop.Loss.{
  count_pulses_lem, publish_if_changed-Counted, persist_if_due-acc,
}
use n_rf52840_power_meter.System.Sound.{Sound, ReadLe-le, Calibrated, Pends-Calibrated}

module _ {Fs : Type 0} (b : NvsBackend Fs) (z : Zboss) (c : Config) (laws : NvsLaws b)
    (writes : Writes b) where
  pub emit-Sound :
      (w : World Fs) (n : ℕ)
      → Sound b w
      → w.base + w.emitted + n < 2 ^ 64
      → Sound b (record w { emitted = w.emitted + n })
  emit-Sound w n s h = record {
    counted = s.counted;
    total = s.total;
    register = s.register;
    seen = omega (arith, s.seen);
    fits = omega (arith, h);
    settled = s.settled;
    loss = s.loss;
    fresh = s.fresh;
    published = s.published;
    pending_le = s.pending_le;
    read_le = s.read_le;
    calibrated = s.calibrated;
    filtered = s.filtered;
    in_sync = s.in_sync;
  }

  -- What counting leaves alone.
  pub count_pulses-Apart :
      (i : Sample) (m : Loop Fs)
      → c.hw_pulse_counter ≡ true
      → let t = count_pulses b c i m in
        (t.last_saved_total ≡ m.last_saved_total)
        × (t.last_published_total ≡ m.last_published_total)
        × (t.zb ≡ m.zb)
        × (cc0 t.hw ≡ cc0 m.hw)
  unfolding count_pulses hw_read
  count_pulses-Apart i m on = rw on (refl, refl, refl, refl)

  pub count-Sound :
      (w : World Fs) (i : Sample)
      → Sound b w
      → c.hw_pulse_counter ≡ true
      → w.turn ≡ counting
      → i.nrfx.captured ≡ u32 w.emitted
      → w.emitted < w.sampled + 2 ^ 32
      → Sound b
          (record w { loop = count_pulses b c i w.loop; sampled = w.emitted; turn = publishing })
  count-Sound w i s on t shows small =
      let p = w.emitted - w.sampled in
      let e : w.sampled + p ≡ w.emitted = omega (arith, s.seen) in
      let d = s.counted in
      let a = count_pulses-Apart i w.loop on in
      let k =
        count_pulses_lem b c laws writes i w.loop w.sampled p on (shows ∙ ap u32 (sym e)) s.counted
          s.register (omega (arith, small)) (omega (arith, e, s.total, s.fits)) in
      let pending = ap (λ (x : Zb). x.pending_summation_total) a.2 in
      let last : w.loop.last_published_total ≡ w.loop.acc.total = elim s.published [
        | inl f ↦ cc (sym t ∙ f)
        | inr f ↦ f
      ] in
      record {
        counted = k.0;
        total = omega (arith, k.1, s.total, e);
        register = k.2 ∙ ap u32 e;
        seen = omega arith;
        fits = s.fits;
        settled = omega (arith, s.settled, s.seen);
        loss = omega (arith, s.loss, a.0);
        fresh = elim s.fresh [
          | inl f ↦ inl f
          | inr (inl f) ↦ cc (sym t ∙ f.0)
          | inr (inr f) ↦ inr (inl (refl, pending ∙ f ∙ sym last ∙ sym a.1))
        ];
        published = inl refl;
        pending_le = omega (arith, pending, s.pending_le, k.1);
        read_le = ReadLe-le w.report (omega (arith, k.1)) s.read_le;
        calibrated = subst Calibrated (sym a.2) s.calibrated;
        filtered = (s.filtered.0, a.3 ∙ s.filtered.1, s.filtered.2);
        in_sync = s.in_sync;
      }

  -- What is pending after a publish that a changed total asks for.
  pub changed-Pends :
      (i : Sample) (m : Loop Fs) (force : Bool)
      → m.zb.endpoint_registered ≡ true
      → Pends m.acc.total m.zb (
          if force
          then publish_summation_and_report c i.adc m.acc.total m.zb
          else publish_summation m.acc.total m.zb)
  unfolding publish
  changed-Pends i m true e = publish-Pends c (reported i.adc m.acc.total) m.zb e
  changed-Pends i m false e = publish-Pends c (plain m.acc.total) m.zb e

  -- Whether a turn publishes, and what is waiting to be written after it.
  abbrev pub changed : Loop Fs → Bool
  changed m = m.acc.total != m.last_published_total

  pub record Waits (m t : Loop Fs) : Type 0 where
    pub hw : t.hw ≡ m.hw
    pub calibrated : Calibrated t.zb
    pub pending :
        ((changed m ≡ true) × (t.zb.pending_summation_total ≡ m.acc.total))
        ⊎ ((changed m ≡ false)
            × (t.zb.pending_summation_total ≡ m.zb.pending_summation_total)
            × (m.last_published_total ≡ m.acc.total))
    pub published : t.last_published_total ≡ m.acc.total
    pub summation : ShowsOr (scale_to_u48 m.acc.total) m.zb t.zb

  pub publish_if_changed-Waits :
      (i : Sample) (m : Loop Fs) → Calibrated m.zb → Waits m (publish_if_changed b c i m)
  unfolding publish_if_changed Accumulator.total_of
  publish_if_changed-Waits i m h = elim (Bool-cases (changed m)) [
    | inl e ↦
        let k = changed-Pends i m (advance m.pulse_heartbeat).0 h.registered in
        rw e (record {
          hw = refl;
          calibrated = Pends-Calibrated k h;
          pending = inl (e, k.pending);
          published = refl;
          summation = k.summation;
        })
    | inr e ↦
        let same : m.last_published_total ≡ m.acc.total = ground (arith, e) in
        rw e (record {
          hw = refl;
          calibrated = h;
          pending = inr (e, refl, same);
          published = same;
          summation = inl refl;
        })
  ]

  pub publish-Sound :
      (w : World Fs) (i : Sample)
      → Sound b w
      → w.turn ≡ publishing
      → Sound b (record w {
        loop = publish_if_changed b c i w.loop;
        turn = persisting;
        stale = if w.loop.acc.total != w.loop.last_published_total then false else w.stale;
      })
  publish-Sound w i s t =
      let x = publish_if_changed-Waits i w.loop s.calibrated in
      let a = publish_if_changed-Apart b c i w.loop in
      let total = ap (λ (y : PulseAccumulator). y.total) a.0 in
      let kept : Bool → Bool = λ y. if y then false else w.stale in
      record {
        counted = publish_if_changed-Counted b c laws writes i w.loop s.counted;
        total = total ∙ s.total;
        register = ap (λ (y : PulseAccumulator). y.last_hw) a.0 ∙ s.register;
        seen = s.seen;
        fits = s.fits;
        settled = s.settled;
        loss = omega (arith, s.loss, a.2);
        fresh = elim x.pending [
          | inl p ↦ inr (inr (p.1 ∙ sym total))
          | inr p ↦ elim s.fresh [
            | inl f ↦ inl (ap kept p.0 ∙ f)
            | inr (inl f) ↦ inr (inr (p.1 ∙ f.1 ∙ p.2 ∙ sym total))
            | inr (inr f) ↦ inr (inr (p.1 ∙ f ∙ sym total))
          ]
        ];
        published = inr (x.published ∙ sym total);
        pending_le = elim x.pending [
          | inl p ↦ omega (arith, p.1, total)
          | inr p ↦ omega (arith, p.1, total, s.pending_le)
        ];
        read_le = ReadLe-le w.report (omega (arith, total)) s.read_le;
        calibrated = x.calibrated;
        filtered = (s.filtered.0, ap cc0 x.hw ∙ s.filtered.1, s.filtered.2);
        in_sync = s.in_sync;
      }

  pub persist-Sound :
      (w : World Fs) (i : Sample)
      → Sound b w
      → w.turn ≡ persisting
      → Sound b
          (record w { loop = persist_if_due b c i w.loop; settled = w.sampled; turn = counting })
  persist-Sound w i s t =
      let x = persist_if_due-Safe b c laws writes i w.loop s.counted in
      let acc = persist_if_due-acc b c laws writes i w.loop in
      let total = ap (λ (y : PulseAccumulator). y.total) acc in
      let a = persist_if_due-Unsaved b c i w.loop in
      let pending = ap (λ (y : Zb). y.pending_summation_total) a.0 in
      record {
        counted = Safe-Counted b x;
        total = total ∙ s.total;
        register = ap (λ (y : PulseAccumulator). y.last_hw) acc ∙ s.register;
        seen = s.seen;
        fits = s.fits;
        settled = omega arith;
        loss = omega (arith, x.loss, total, s.total);
        fresh = elim s.fresh [
          | inl f ↦ inl f
          | inr (inl f) ↦ cc (sym t ∙ f.0)
          | inr (inr f) ↦ inr (inr (pending ∙ f ∙ sym total))
        ];
        published = elim s.published [ inl f ↦ cc (sym t ∙ f) | inr f ↦ inr (a.2 ∙ f ∙ sym total) ];
        pending_le = omega (arith, pending, total, s.pending_le);
        read_le = ReadLe-le w.report (omega (arith, total)) s.read_le;
        calibrated = subst Calibrated (sym a.0) s.calibrated;
        filtered = (s.filtered.0, ap cc0 a.1 ∙ s.filtered.1, s.filtered.2);
        in_sync = s.in_sync;
      }
