-- ===== src/Zigbee/Reports.antt =====
-- What a coordinator reads after the sample loop and the report timer have published.
use n_rf52840_power_meter.Prelude.{
  ℕ, suc, ◌+◌, ◌≡◌, ◌⊎◌, inl, inr, refl, arith, ◌∙◌, ap, true, false, not, if◌then◌else◌,
  Bool-cases, List, [], ◌∷◌, length,
}
use n_rf52840_power_meter.Config.{Config}
use n_rf52840_power_meter.Battery.{zcl_unknown, percent, zcl_voltage, zcl_percentage}
use n_rf52840_power_meter.Zigbee.{
  Zb, call, ZbCall, schedule_app_callback, publish_summation_cb, publish_summation_and_report_cb,
}
use n_rf52840_power_meter.Zigbee.Publish.{
  Adc, Reading, millivolts, unread, battery_read_mv, battery_sample, publish_summation,
  publish_summation_and_report,
}

-- The two ways in which a total is published.
pub data Publish : Type 0 where
  plain : ℕ → Publish
  reported : Adc → ℕ → Publish

abbrev pub total_of : Publish → ℕ
total_of (plain n) = n
total_of (reported a n) = n

unfoldable pub publish : Config → Publish → Zb → Zb
publish c (plain n) s = publish_summation n s
publish c (reported a n) s = publish_summation_and_report c a n s

-- A sequence of publishes, the latest first.
abbrev pub published : Config → List Publish → Zb → Zb
published c [] s = s
published c (p ∷ ps) s = publish c p (published c ps s)

-- The callbacks that wait to be run.
abbrev pub scheduled : List ZbCall → ℕ
scheduled [] = 0
scheduled (schedule_app_callback k ∷ cs) = suc (scheduled cs)
scheduled (_ ∷ cs) = scheduled cs

Reading-cases : (r : Reading) → ((mv : ℕ) × (r ≡ millivolts mv)) ⊎ (r ≡ unread)
Reading-cases (millivolts mv) = inl (mv, refl)
Reading-cases unread = inr refl

-- The two bytes are the encodings of the reading, or both the unknown value where it failed.
abbrev pub BatteryOf : Config → Adc → ℕ → ℕ → Type 0
BatteryOf c a voltage percentage =
    ((mv : ℕ) × (battery_read_mv a ≡ millivolts mv)
      × (voltage ≡ zcl_voltage mv)
      × (percentage ≡ zcl_percentage (percent mv c.battery_empty_mv c.battery_full_mv)))
    ⊎ ((battery_read_mv a ≡ unread) × (voltage ≡ zcl_unknown) × (percentage ≡ zcl_unknown))

-- A sample sets the two pending bytes.
unfoldable pub Sampled : Config → Adc → Zb → Zb → Type 0
Sampled c a s t =
    (voltage percentage : ℕ) × (t
      ≡ record s { pending_battery_voltage = voltage; pending_battery_percentage = percentage })
    × BatteryOf c a voltage percentage

pub battery_sample_lem : (c : Config) (a : Adc) (s : Zb) → Sampled c a s (battery_sample c a s)
unfolding Sampled battery_sample
battery_sample_lem c a s = elim (Reading-cases (battery_read_mv a)) [
  | inl r ↦
      let percentage = zcl_percentage (percent r.0 c.battery_empty_mv c.battery_full_mv) in
      (zcl_voltage r.0, percentage, rw (r.1, battery_sample) refl, inl (r.0, r.1, refl, refl))
  | inr r ↦ (zcl_unknown, zcl_unknown, rw (r, battery_sample) refl, inr (r, refl, refl))
]

-- The sample that a report takes where the build reports the battery.
abbrev pub sampled : Config → Adc → Zb → Zb
sampled c a s = if c.battery_reporting then battery_sample c a s else s

pub sampled_lem :
    (c : Config) (a : Adc) (s : Zb)
    → ((sampled c a s).endpoint_registered ≡ s.endpoint_registered)
      × ((sampled c a s).calls ≡ s.calls)
unfolding Sampled
sampled_lem c a s = elim (Bool-cases c.battery_reporting) [
  | inl b ↦
      let q : sampled c a s ≡ battery_sample c a s =
        ap (λ x. if x then battery_sample c a s else s) b in
      let r = battery_sample_lem c a s in
      (ap (λ (t : Zb). t.endpoint_registered) (q ∙ r.2), ap (λ (t : Zb). t.calls) (q ∙ r.2))
  | inr b ↦
      let q : sampled c a s ≡ s = ap (λ x. if x then battery_sample c a s else s) b in
      (ap (λ (t : Zb). t.endpoint_registered) q, ap (λ (t : Zb). t.calls) q)
]

-- A publish that is taken up.
abbrev pub taken_up : Config → Publish → Zb → Zb
taken_up c (plain n) s =
    call (schedule_app_callback publish_summation_cb) (record s { pending_summation_total = n })
taken_up c (reported a n) s =
    let t = sampled c a s in
    call (schedule_app_callback publish_summation_and_report_cb)
      (record t { pending_summation_total = n })

module _ (c : Config) where
  pub publish-registered :
      (p : Publish) (s : Zb) → s.endpoint_registered ≡ true → publish c p s ≡ taken_up c p s
  unfolding publish publish_summation publish_summation_and_report
  publish-registered (plain n) s e = ap (λ x. if not x then s else taken_up c (plain n) s) e
  publish-registered (reported a n) s e =
      ap (λ x. if not x then s else taken_up c (reported a n) s) e

  taken_up_lem :
      (p : Publish) (s : Zb)
      → let t = taken_up c p s in
        (t.endpoint_registered ≡ s.endpoint_registered)
        × (t.pending_summation_total ≡ total_of p)
        × (scheduled t.calls ≡ suc (scheduled s.calls))
  taken_up_lem (plain n) s = (refl, refl, refl)
  taken_up_lem (reported a n) s =
      let q = sampled_lem c a s in (q.0, refl, ap (λ cs. suc (scheduled cs)) q.1)

  -- A publish on a registered endpoint, and one on an unregistered endpoint.
  pub publish_lem :
      (p : Publish) (s : Zb)
      → s.endpoint_registered ≡ true
      → let t = publish c p s in
        (t.endpoint_registered ≡ true)
        × (t.pending_summation_total ≡ total_of p)
        × (scheduled t.calls ≡ suc (scheduled s.calls))
  publish_lem p s e =
      let q = publish-registered p s e in
      let l = taken_up_lem p s in
      (
        ap (λ (t : Zb). t.endpoint_registered) q ∙ l.0 ∙ e,
        ap (λ (t : Zb). t.pending_summation_total) q ∙ l.1,
        ap (λ (t : Zb). scheduled t.calls) q ∙ l.2,
      )

  publish-unregistered : (p : Publish) (s : Zb) → s.endpoint_registered ≡ false → publish c p s ≡ s
  unfolding publish publish_summation publish_summation_and_report
  publish-unregistered (plain n) s e = ap (λ x. if not x then s else taken_up c (plain n) s) e
  publish-unregistered (reported a n) s e =
      ap (λ x. if not x then s else taken_up c (reported a n) s) e

  pub published_lem :
      (ps : List Publish) (s : Zb)
      → s.endpoint_registered ≡ true
      → let t = published c ps s in
        (t.endpoint_registered ≡ true) × (scheduled t.calls ≡ length ps + scheduled s.calls)
  published_lem [] s e = (e, omega arith)
  published_lem (p ∷ ps) s e =
      let ih = published_lem ps s e in
      let h = publish_lem p (published c ps s) ih.0 in (h.0, omega (arith, h.2, ih.1))

  -- Before the endpoint is registered no sequence of publishes changes anything.
  pub published-unregistered :
      (ps : List Publish) (s : Zb) → s.endpoint_registered ≡ false → published c ps s ≡ s
  published-unregistered [] s e = refl
  published-unregistered (p ∷ ps) s e =
      let ih = published-unregistered ps s e in
      publish-unregistered p (published c ps s) (ap (λ (t : Zb). t.endpoint_registered) ih ∙ e) ∙ ih
