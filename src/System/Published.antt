-- ===== src/System/Published.antt =====
-- What publishing and its callbacks leave alone, and the total that they leave pending.
use n_rf52840_power_meter.Prelude.{
  ℕ, ◌≡◌, ◌⊎◌, inl, inr, refl, sym, ◌∙◌, ap, Bool, true, if_either, not, ◌==◌, if◌then◌else◌,
}
use mathlib.Core.Path.{subst}
use mathlib.Core.Option.{some}
use n_rf52840_power_meter.Config.{Config}
use n_rf52840_power_meter.Led.Priority.{heartbeat, prio_heartbeat}
use n_rf52840_power_meter.Led.Controller.{led_request}
use n_rf52840_power_meter.Led.Controller.Sync.{InSync, led_request-InSync}
use n_rf52840_power_meter.Metering.{MeteringU48, scale_to_u48}
use n_rf52840_power_meter.Zigbee.{
  Zboss, Zb, DevCtx, AttrWrite, summation, battery_voltage, battery_percentage, Stores, stored,
  call, set_attr, send_report_attr_command,
}
use n_rf52840_power_meter.Zigbee.Signals.{Node, on_led}
use n_rf52840_power_meter.Zigbee.Publish.{
  Adc, write_summation_attribute, battery_write_attributes, send_explicit_summation_report,
  run_publish_summation, run_publish_summation_and_report,
}
use n_rf52840_power_meter.Zigbee.Reports.{
  Publish, plain, reported, total_of, publish, Sampled, battery_sample_lem, sampled, taken_up,
  publish-registered,
}
use n_rf52840_power_meter.Main.Press.{metering_report_work_handler}
use n_rf52840_power_meter.System.Keeps.{keeps, Kept, Kept-refl, Kept-trans, if-Kept, if-Steady}

-- A write to another attribute keeps the Divisor, and the metering attribute or gives it this value.
abbrev Apart : MeteringU48 → AttrWrite → DevCtx → Type 0
Apart u w d =
    ((stored w d).metering_divisor ≡ d.metering_divisor)
    × (((stored w d).metering_current_summation ≡ d.metering_current_summation)
        ⊎ ((stored w d).metering_current_summation ≡ u))

module _ (z : Zboss) (stores : Stores z) where
  set_attr-Kept :
      (w : AttrWrite) (s : Zb)
      → Apart (scale_to_u48 s.pending_summation_total) w s.dev_ctx
      → Kept s (set_attr z w s)
  set_attr-Kept w s a = record {
    divisor = refl;
    shown = ap (λ (d : DevCtx). d.metering_divisor) (stores w s.dev_ctx) ∙ a.0;
    registered = refl;
    pending = refl;
    summation =
        let e = ap (λ (d : DevCtx). d.metering_current_summation) (stores w s.dev_ctx) in
        elim a.1 [ inl k ↦ inl (e ∙ k) | inr k ↦ inr (e ∙ k) ];
  }

  pub run_publish_summation-Kept : (s : Zb) → Kept s (run_publish_summation z s)
  unfolding run_publish_summation write_summation_attribute
  run_publish_summation-Kept s =
      set_attr-Kept (summation (scale_to_u48 s.pending_summation_total)) s (refl, inr refl)

  battery_write-Kept : (s : Zb) → Kept s (battery_write_attributes z s)
  unfolding battery_write_attributes
  battery_write-Kept s =
      let t = set_attr z (battery_voltage s.pending_battery_voltage) s in
      Kept-trans (set_attr-Kept (battery_voltage s.pending_battery_voltage) s (refl, inl refl))
        (set_attr-Kept (battery_percentage t.pending_battery_percentage) t (refl, inl refl))

  send_report-Kept :
      (slot : Bool) (bufid : ℕ) (s : Zb) → Kept s (send_explicit_summation_report z slot bufid s)
  unfolding send_explicit_summation_report
  send_report-Kept slot bufid s =
      let k : Kept s (call (send_report_attr_command bufid) s) =
        keeps refl refl refl refl (inl refl) in
      if-Kept (not slot) (Kept-refl s) (if-Kept (bufid == 0) (Kept-refl s) k)

  pub run_publish_report-Kept :
      (c : Config) (slot : Bool) (bufid : ℕ) (s : Zb)
      → Kept s (run_publish_summation_and_report z c slot bufid s)
  unfolding run_publish_summation_and_report write_summation_attribute
  run_publish_report-Kept c slot bufid s =
      let w = write_summation_attribute z s.pending_summation_total s in
      let t = if c.battery_reporting then battery_write_attributes z w else w in
      let k =
        set_attr-Kept (summation (scale_to_u48 s.pending_summation_total)) s (refl, inr refl) in
      Kept-trans (if-Kept c.battery_reporting (Kept-trans k (battery_write-Kept w)) k)
        (send_report-Kept slot bufid t)

-- A publish on a registered endpoint keeps the rest and leaves its total pending.
abbrev pub Pends : ℕ → Zb → Zb → Type 0
Pends n s t = Kept (record s { pending_summation_total = n }) t

sampled-Kept : (c : Config) (a : Adc) (s : Zb) → Kept s (sampled c a s)
unfolding Sampled
sampled-Kept c a s =
    let r = battery_sample_lem c a s in
    let k : Kept s (record s { pending_battery_voltage = r.0; pending_battery_percentage = r.1 }) =
      keeps refl refl refl refl (inl refl) in
    if-Kept c.battery_reporting (subst (Kept s) (sym r.2) k) (Kept-refl s)

sampled-dev_ctx : (c : Config) (a : Adc) (s : Zb) → (sampled c a s).dev_ctx ≡ s.dev_ctx
unfolding Sampled
sampled-dev_ctx c a s =
    if_either c.battery_reporting (λ (x : Zb). x.dev_ctx)
      (ap (λ (x : Zb). x.dev_ctx) (battery_sample_lem c a s).2) refl

taken_up-Pends : (c : Config) (p : Publish) (s : Zb) → Pends (total_of p) s (taken_up c p s)
taken_up-Pends c (plain n) s = keeps refl refl refl refl (inl refl)
taken_up-Pends c (reported a n) s =
    let k = sampled-Kept c a s in
    record {
      divisor = k.divisor;
      shown = k.shown;
      registered = k.registered;
      pending = refl;
      summation = inl (ap (λ (d : DevCtx). d.metering_current_summation) (sampled-dev_ctx c a s));
    }

pub publish-Pends :
    (c : Config) (p : Publish) (s : Zb)
    → s.endpoint_registered ≡ true
    → Pends (total_of p) s (publish c p s)
publish-Pends c p s e =
    subst (Pends (total_of p) s) (sym (publish-registered c p s e)) (taken_up-Pends c p s)

-- The report timer publishes the total that it is given.
pub report_tick_lem :
    (c : Config) (a : Adc) (total : ℕ) (n : Node)
    → n.zb.endpoint_registered ≡ true
    → InSync n.led
    → let t = (metering_report_work_handler c a (some total) n).0 in
      Pends total n.zb t.zb × InSync t.led
unfolding metering_report_work_handler publish
report_tick_lem c a total n e h =
    let on : Node = on_led (led_request heartbeat prio_heartbeat) n in
    let lit = if c.report_heartbeat then on else n in
    let k =
      if-Steady n on n c.report_heartbeat
        (Kept-refl n.zb, led_request-InSync heartbeat prio_heartbeat n.led) (Kept-refl n.zb, h) in
    let p = publish-Pends c (reported a total) lit.zb (k.0.registered ∙ e) in
    (
      record {
        divisor = p.divisor ∙ k.0.divisor;
        shown = p.shown ∙ k.0.shown;
        registered = p.registered ∙ k.0.registered;
        pending = p.pending;
        summation =
            let same : lit.zb.dev_ctx.metering_current_summation
                ≡ n.zb.dev_ctx.metering_current_summation =
              if_either c.report_heartbeat (λ (m : Node). m.zb.dev_ctx.metering_current_summation)
                refl refl in
            elim p.summation [ inl d ↦ inl (d ∙ same) | inr d ↦ inr d ];
      },
      k.1,
    )
