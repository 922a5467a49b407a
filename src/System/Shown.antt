-- ===== src/System/Shown.antt =====
-- What the metering attribute comes to read while the threads run.
use n_rf52840_power_meter.Prelude.{
  ◌≤◌, ◌⊎◌, arith, ℕ, ◌+◌, ◌≡◌, inl, inr, ◌∙◌, ap, Bool, true, false, ◌==◌, if◌then◌else◌,
  Bool-cases,
}
use n_rf52840_power_meter.Config.{Config}
use n_rf52840_power_meter.Nvs.{NvsBackend}
use n_rf52840_power_meter.Zigbee.{
  Zboss, Zb, Stores, set_attr, summation, battery_voltage, battery_percentage,
}
use n_rf52840_power_meter.System.{World, publishing, Reach}
use n_rf52840_power_meter.Zigbee.Publish.{
  run_publish_summation, run_publish_summation_and_report, write_summation_attribute,
  battery_write_attributes, send_explicit_summation_report,
}
use n_rf52840_power_meter.System.Sound.{Sound}
use n_rf52840_power_meter.Metering.{scale_to_u48}
use n_rf52840_power_meter.System.Run.{Outside, Reach-Sound}

-- The CurrentSummationDelivered attribute reads this total.
abbrev pub Reads : ℕ → Zb → Type 0
Reads n s = s.dev_ctx.metering_current_summation ≡ scale_to_u48 n

module _ (z : Zboss) (stores : Stores z) where
  write_summation-Reads : (n : ℕ) (s : Zb) → Reads n (write_summation_attribute z n s)
  unfolding write_summation_attribute
  write_summation-Reads n s =
      ap (λ d. d.metering_current_summation) (stores (summation (scale_to_u48 n)) s.dev_ctx)

  battery_write-Reads : (n : ℕ) (s : Zb) → Reads n s → Reads n (battery_write_attributes z s)
  unfolding battery_write_attributes
  battery_write-Reads n s h =
      let t = set_attr z (battery_voltage s.pending_battery_voltage) s in
      ap (λ d. d.metering_current_summation)
        (stores (battery_percentage t.pending_battery_percentage) t.dev_ctx)
      ∙ ap (λ d. d.metering_current_summation)
          (stores (battery_voltage s.pending_battery_voltage) s.dev_ctx)
      ∙ h

  send_report-Reads :
      (n : ℕ) (slot : Bool) (bufid : ℕ) (s : Zb)
      → Reads n s
      → Reads n (send_explicit_summation_report z slot bufid s)
  unfolding send_explicit_summation_report
  send_report-Reads n false bufid s h = h
  send_report-Reads n true bufid s h = elim (Bool-cases (bufid == 0)) [
    | inl e ↦ rw e h
    | inr e ↦ rw e h
  ]

  -- Either callback of a publish writes the pending total.
  run_publish-Reads :
      (c : Config) (slot : Bool) (bufid : ℕ) (s : Zb)
      → Reads s.pending_summation_total (run_publish_summation z s)
        × Reads s.pending_summation_total (run_publish_summation_and_report z c slot bufid s)
  unfolding run_publish_summation run_publish_summation_and_report
  run_publish-Reads c slot bufid s =
      let n = s.pending_summation_total in
      let w = write_summation_attribute z n s in
      let h = write_summation-Reads n s in
      let t = if c.battery_reporting then battery_write_attributes z w else w in
      let k : Reads n t = elim (Bool-cases c.battery_reporting) [
        | inl e ↦ rw e (battery_write-Reads n w h)
        | inr e ↦ rw e h
      ] in
      (h, send_report-Reads n slot bufid t k)

-- From a sound state, in a build with the pulse counter, with a flash that keeps and accepts writes
-- and a ZBOSS that stores what it is given, in every state that the threads come to, whichever callback
-- of a publish runs next: the attribute then reads a total that is at most the restored one plus every
-- pulse that the loop has read, and exactly that, unless the loop has counted and not yet published, or
-- a report that blocked for the battery was overtaken and has put an older total back.
pub Reach-Reads :
    {Fs : Type 0} (b : NvsBackend Fs) (z : Zboss) (c : Config) (w v : World Fs) (slot : Bool)
    (bufid : ℕ)
    → Outside b z c
    → Sound b w
    → Reach b z c w v
    → let zb = v.loop.zb in
      (n : ℕ) × Reads n (run_publish_summation z zb)
      × Reads n (run_publish_summation_and_report z c slot bufid zb)
      × (n ≤ v.base + v.sampled)
      × ((n ≡ v.base + v.sampled) ⊎ (v.turn ≡ publishing) ⊎ (v.stale ≡ true))
Reach-Reads b z c w v slot bufid o s r =
    let zb = v.loop.zb in
    let k = Reach-Sound b z c o s r in
    let h = run_publish-Reads z o.stores c slot bufid zb in
    (
      zb.pending_summation_total,
      h.0,
      h.1,
      omega (arith, k.pending_le, k.total),
      elim k.fresh [
        | inl f ↦ inr (inr f)
        | inr (inl f) ↦ inr (inl f.0)
        | inr (inr f) ↦ inl (f ∙ k.total)
      ],
    )
