-- ===== src/Zigbee/Served.antt =====
-- What a coordinator reads once the ZBOSS thread has served a publish.
use n_rf52840_power_meter.Prelude.{
  ℕ, suc, ◌+◌, ◌≡◌, inl, inr, refl, sym, ◌∙◌, ap, Bool, true, ◌==◌, if◌then◌else◌, if_either,
  Bool-cases, List, ◌∷◌, length, min,
}
use mathlib.Core.Path.{subst}
use n_rf52840_power_meter.Config.{Config}
use n_rf52840_power_meter.Metering.{scale_to_u48, summation_u48_max}
use n_rf52840_power_meter.Metering.Wire.{value_of, value_of-scale_to_u48}
use n_rf52840_power_meter.Zigbee.{
  Zboss, DevCtx, Zb, set_attr, summation, battery_voltage, battery_percentage, Stores, stored,
}
use n_rf52840_power_meter.Zigbee.Publish.{
  Adc, battery_sample, write_summation_attribute, battery_write_attributes,
  send_explicit_summation_report, run_publish_summation, run_publish_summation_and_report,
  publish_summation_and_report,
}
use n_rf52840_power_meter.Zigbee.Reports.{
  Publish, reported, total_of, publish, published, scheduled, BatteryOf, Sampled,
  battery_sample_lem, sampled, publish-registered, publish_lem, published_lem,
}

module _ (z : Zboss) (c : Config) where
  -- The report callback with its writes carried out.
  abbrev written : Bool → ℕ → Zb → Zb
  written slot bufid s =
      let t = set_attr z (summation (scale_to_u48 s.pending_summation_total)) s in
      if c.battery_reporting then battery_write_attributes z t else t

  send_report_lem :
      (slot : Bool) (bufid : ℕ) (s : Zb)
      → (send_explicit_summation_report z slot bufid s).dev_ctx ≡ s.dev_ctx
  unfolding send_explicit_summation_report
  send_report_lem slot bufid s = elim (Bool-cases slot) [
    | inl e ↦ elim (Bool-cases (bufid == 0)) [ inl f ↦ rw (e, f) refl | inr f ↦ rw (e, f) refl ]
    | inr e ↦ rw e refl
  ]

  battery_write_lem :
      (s : Zb)
      → Stores z
      → (battery_write_attributes z s).dev_ctx
        ≡ stored
            (battery_percentage s.pending_battery_percentage)
            (stored (battery_voltage s.pending_battery_voltage) s.dev_ctx)
  unfolding battery_write_attributes
  battery_write_lem s st =
      st (battery_percentage s.pending_battery_percentage)
        (z.write_attribute (battery_voltage s.pending_battery_voltage) s.dev_ctx)
      ∙ ap (stored (battery_percentage s.pending_battery_percentage))
          (st (battery_voltage s.pending_battery_voltage) s.dev_ctx)

  run_publish_lem :
      (slot : Bool) (bufid : ℕ) (s : Zb)
      → Stores z
      → let d = stored (summation (scale_to_u48 s.pending_summation_total)) s.dev_ctx in
        let t = run_publish_summation_and_report z c slot bufid s in
        ((run_publish_summation z s).dev_ctx ≡ d)
        × (t.dev_ctx ≡ (
            if c.battery_reporting
            then stored
                (battery_percentage s.pending_battery_percentage)
                (stored (battery_voltage s.pending_battery_voltage) d)
            else d))
  unfolding run_publish_summation run_publish_summation_and_report write_summation_attribute
  run_publish_lem slot bufid s st =
      let w = summation (scale_to_u48 s.pending_summation_total) in
      let t = set_attr z w s in
      let d = stored w s.dev_ctx in
      let bytes : DevCtx → DevCtx = λ d.
        stored (battery_percentage s.pending_battery_percentage)
          (stored (battery_voltage s.pending_battery_voltage) d) in
      let after : (written slot bufid s).dev_ctx ≡ (if c.battery_reporting then bytes d else d) =
        elim (Bool-cases c.battery_reporting) [
          | inl e ↦
              ap (λ x. (if x then battery_write_attributes z t else t).dev_ctx) e
              ∙ battery_write_lem t st
              ∙ ap bytes (st w s.dev_ctx)
              ∙ sym (ap (λ x. if x then bytes d else d) e)
          | inr e ↦
              ap (λ x. (if x then battery_write_attributes z t else t).dev_ctx) e
              ∙ st w s.dev_ctx
              ∙ sym (ap (λ x. if x then bytes d else d) e)
        ] in
      (st w s.dev_ctx, send_report_lem slot bufid (written slot bufid s) ∙ after)

-- Where ZBOSS stores what it is given, after any sequence of publishes on a registered endpoint,
-- however many the ZBOSS thread has not served yet, one callback is scheduled for each, and the
-- first to run writes the latest total: the attribute reads it, up to 2^48 - 1, whether that
-- callback reports or not.
pub latest_total_published :
    (z : Zboss) (c : Config) (slot : Bool) (bufid : ℕ) (p : Publish) (ps : List Publish) (s : Zb)
    → Stores z
    → s.endpoint_registered ≡ true
    → let t = published c (p ∷ ps) s in
      let plainly = run_publish_summation z t in
      let reporting = run_publish_summation_and_report z c slot bufid t in
      let shown = min (total_of p) summation_u48_max in
      (scheduled t.calls ≡ suc (length ps) + scheduled s.calls)
      × (value_of plainly.dev_ctx.metering_current_summation ≡ shown)
      × (value_of reporting.dev_ctx.metering_current_summation ≡ shown)
latest_total_published z c slot bufid p ps s st e =
    let l = published_lem c (p ∷ ps) s e in
    let t = published c (p ∷ ps) s in
    let latest = (publish_lem c p (published c ps s) (published_lem c ps s e).0).1 in
    let shown : value_of (scale_to_u48 t.pending_summation_total)
        ≡ min (total_of p) summation_u48_max =
      ap (λ n. value_of (scale_to_u48 n)) latest ∙ (value_of-scale_to_u48 (total_of p)).0 in
    let r = run_publish_lem z c slot bufid t st in
    let read = λ (d : DevCtx). value_of d.metering_current_summation in
    (l.1, ap read r.0 ∙ shown, ap read r.1 ∙ if_either c.battery_reporting read shown shown)

-- Where ZBOSS stores what it is given, a report that the build samples the battery for, on a
-- registered endpoint: the callback leaves in the two battery attributes the encodings of the
-- reading that was taken, or the unknown value in both where it failed.
pub battery_reported :
    (z : Zboss) (c : Config) (slot : Bool) (bufid : ℕ) (a : Adc) (total : ℕ) (s : Zb)
    → Stores z
    → c.battery_reporting ≡ true
    → s.endpoint_registered ≡ true
    → let d =
        (run_publish_summation_and_report z c slot bufid
          (publish_summation_and_report c a total s)).dev_ctx in
      BatteryOf c a d.power_config_battery_voltage d.power_config_battery_percentage
unfolding Sampled publish
battery_reported z c slot bufid a total s st on e =
    let q = publish-registered c (reported a total) s e in
    let m = battery_sample_lem c a s in
    let pending : sampled c a s
        ≡ record s { pending_battery_voltage = m.0; pending_battery_percentage = m.1 } =
      ap (λ x. if x then battery_sample c a s else s) on ∙ m.2 in
    let t = publish_summation_and_report c a total s in
    let r = run_publish_lem z c slot bufid t st in
    let d = stored (summation (scale_to_u48 t.pending_summation_total)) t.dev_ctx in
    let bytes : DevCtx → DevCtx = λ d.
      stored (battery_percentage t.pending_battery_percentage)
        (stored (battery_voltage t.pending_battery_voltage) d) in
    let written = r.1 ∙ ap (λ x. if x then bytes d else d) on in
    let voltage =
      ap (λ (d : DevCtx). d.power_config_battery_voltage) written
      ∙ ap (λ (s : Zb). s.pending_battery_voltage) q
      ∙ ap (λ (s : Zb). s.pending_battery_voltage) pending in
    let percentage =
      ap (λ (d : DevCtx). d.power_config_battery_percentage) written
      ∙ ap (λ (s : Zb). s.pending_battery_percentage) q
      ∙ ap (λ (s : Zb). s.pending_battery_percentage) pending in
    let shown = (run_publish_summation_and_report z c slot bufid t).dev_ctx in
    subst (λ x. BatteryOf c a x shown.power_config_battery_percentage) (sym voltage)
      (subst (λ x. BatteryOf c a m.0 x) (sym percentage) m.3)
