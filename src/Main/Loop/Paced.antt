-- ===== src/Main/Loop/Paced.antt =====
-- How often the sample loop asks for an explicit report.
use n_rf52840_power_meter.Prelude.{
  ℕ, suc, ◌+◌, ◌*◌, ◌≤◌, ◌<◌, ◌≡◌, inl, inr, refl, arith, sym, ◌∙◌, ap, Bool, true, false, ◌!=◌,
  if◌then◌else◌, Bool-cases, List, [], ◌∷◌,
}
use mathlib.Core.Path.{subst}
use n_rf52840_power_meter.Config.{Config}
use n_rf52840_power_meter.Accumulator
use n_rf52840_power_meter.Gate.{advance}
use n_rf52840_power_meter.Gate
use n_rf52840_power_meter.Gate.Cadence.{Cadence, advance-Cadence}
use n_rf52840_power_meter.Nvs.{NvsBackend}
use n_rf52840_power_meter.Zigbee.{
  Zb, ZbCall, schedule_app_callback, publish_summation_and_report_cb,
}
use n_rf52840_power_meter.Zigbee.Reports.{
  Publish, plain, reported, publish, scheduled, sampled_lem, publish-registered, publish_lem,
}
use n_rf52840_power_meter.Main.{zigbee_report_pulse_heartbeat}
use n_rf52840_power_meter.Main.Loop.{Loop, Sample, count_pulses, publish_if_changed, iterate}
use n_rf52840_power_meter.Main.Loop.Save.{persist_if_due-Unsaved}
use n_rf52840_power_meter.Main.Loop.Loss.{iterate_all}

-- The explicit reports among the callbacks that were scheduled.
abbrev pub reports : List ZbCall → ℕ
reports [] = 0
reports (schedule_app_callback publish_summation_and_report_cb ∷ cs) = suc (reports cs)
reports (_ ∷ cs) = reports cs

abbrev fired : Bool → ℕ
fired x = if x then 1 else 0

abbrev way : Bool → Sample → ℕ → Publish
way x i n = if x then reported i.adc n else plain n

way-reports :
    (c : Config) (x : Bool) (i : Sample) (n : ℕ) (s : Zb)
    → s.endpoint_registered ≡ true
    → reports (publish c (way x i n) s).calls ≡ fired x + reports s.calls
way-reports c true i n s e =
    ap (λ (t : Zb). reports t.calls) (publish-registered c (reported i.adc n) s e)
    ∙ ap (λ cs. suc (reports cs)) (sampled_lem c i.adc s).1
    ∙ omega arith
way-reports c false i n s e =
    ap (λ (t : Zb). reports t.calls) (publish-registered c (plain n) s e) ∙ omega arith

module _ {Fs : Type 0} (b : NvsBackend Fs) (c : Config) where
  -- Whether a turn finds a total that is not the one published last.
  abbrev pub changed : Sample → Loop Fs → Bool
  changed i m = Accumulator.total_of (count_pulses b c i m).acc != m.last_published_total

  -- The turns of a run that do.
  abbrev pub changes : List Sample → Loop Fs → ℕ
  changes [] m = 0
  changes (i ∷ is) m = fired (changed i m) + changes is (iterate b c i m)

  -- A loop after `n` changed totals since a state with the calls `cs`, `f` of which asked for a report.
  record Paced (cs : List ZbCall) (n f : ℕ) (m : Loop Fs) : Type 0 where
    registered : m.zb.endpoint_registered ≡ true
    cadence : Cadence zigbee_report_pulse_heartbeat n m.pulse_heartbeat f
    explicit : reports m.zb.calls ≡ f + reports cs
    every : scheduled m.zb.calls ≡ n + scheduled cs

  -- What the turn does with a changed total.
  abbrev taken : Sample → Loop Fs → Loop Fs
  taken i m =
      let total = m.acc.total in
      let r = advance m.pulse_heartbeat in
      record m {
        pulse_heartbeat = r.1;
        zb = publish c (way r.0 i total) m.zb;
        last_published_total = total;
      }

  taken-Paced :
      (cs : List ZbCall) (n f : ℕ) (i : Sample) (m : Loop Fs)
      → Paced cs n f m
      → Paced cs (suc n) (f + fired (advance m.pulse_heartbeat).0) (taken i m)
  taken-Paced cs n f i m k =
      let x = (advance m.pulse_heartbeat).0 in
      let p = way x i m.acc.total in
      let l = publish_lem c p m.zb k.registered in
      let e = way-reports c x i m.acc.total m.zb k.registered in
      record {
        registered = l.0;
        cadence =
            advance-Cadence zigbee_report_pulse_heartbeat n m.pulse_heartbeat f (omega arith)
              k.cadence;
        explicit = omega (arith, e, k.explicit);
        every = omega (arith, l.2, k.every);
      }

  publish_if_changed_lem :
      (i : Sample) (m : Loop Fs)
      → publish_if_changed b c i m
        ≡ (if m.acc.total != m.last_published_total then taken i m else m)
  unfolding publish_if_changed publish Accumulator.total_of
  publish_if_changed_lem i m = elim (Bool-cases (m.acc.total != m.last_published_total)) [
    | inr e ↦ rw e refl
    | inl e ↦ elim (Bool-cases (advance m.pulse_heartbeat).0) [
      | inl x ↦ rw (e, x) refl
      | inr x ↦ rw (e, x) refl
    ]
  ]

  Paced-same :
      (cs : List ZbCall) (n f : ℕ) (m t : Loop Fs)
      → t.zb ≡ m.zb
      → t.pulse_heartbeat ≡ m.pulse_heartbeat
      → Paced cs n f m
      → Paced cs n f t
  Paced-same cs n f m t z g k = record {
    registered = ap (λ (s : Zb). s.endpoint_registered) z ∙ k.registered;
    cadence = subst (λ x. Cadence zigbee_report_pulse_heartbeat n x f) (sym g) k.cadence;
    explicit = ap (λ (s : Zb). reports s.calls) z ∙ k.explicit;
    every = ap (λ (s : Zb). scheduled s.calls) z ∙ k.every;
  }

  -- Counting leaves the network's side alone.
  count_pulses-Quiet :
      (i : Sample) (m : Loop Fs)
      → let t = count_pulses b c i m in
        (t.zb ≡ m.zb)
        × (t.pulse_heartbeat ≡ m.pulse_heartbeat)
        × (t.last_published_total ≡ m.last_published_total)
  unfolding count_pulses
  count_pulses-Quiet i m = elim (Bool-cases c.hw_pulse_counter) [
    | inl e ↦ rw e (refl, refl, refl)
    | inr e ↦ rw e (refl, refl, refl)
  ]

  iterate-Paced :
      (cs : List ZbCall) (n f : ℕ) (i : Sample) (m : Loop Fs)
      → Paced cs n f m
      → (g : ℕ) × Paced cs (n + fired (changed i m)) g (iterate b c i m)
  unfolding iterate Accumulator.total_of
  iterate-Paced cs n f i m k =
      let q = count_pulses-Quiet i m in
      let counted = count_pulses b c i m in
      let u = persist_if_due-Unsaved b c i (publish_if_changed b c i counted) in
      let kc = Paced-same cs n f m counted q.0 q.1 k in
      let t = taken i counted in
      let x = counted.acc.total != counted.last_published_total in
      let same : changed i m ≡ x = ap (λ l. counted.acc.total != l) (sym q.2) in
      let P : Loop Fs → Type 0 = λ v. (g : ℕ) × Paced cs (n + fired (changed i m)) g v in
      let published : P (publish_if_changed b c i counted) =
        subst P (sym (publish_if_changed_lem i counted)) (elim (Bool-cases x) [
          | inl e ↦
              let count : suc n ≡ n + fired (changed i m) = omega (arith, ap fired (same ∙ e)) in
              let g = f + fired (advance counted.pulse_heartbeat).0 in
              subst (λ y. P (if y then t else counted)) (sym e)
                (g, subst (λ j. Paced cs j g t) count (taken-Paced cs n f i counted kc))
          | inr e ↦
              let count : n ≡ n + fired (changed i m) = omega (arith, ap fired (same ∙ e)) in
              subst (λ y. P (if y then t else counted)) (sym e)
                (f, subst (λ j. Paced cs j f counted) count kc)
        ]) in
      (
        published.0,
        Paced-same cs _ published.0 (publish_if_changed b c i counted) (iterate b c i m) u.0 u.3
            published.1,
      )

  iterate_all-Paced :
      (cs : List ZbCall) (n f : ℕ) (is : List Sample) (m : Loop Fs)
      → Paced cs n f m
      → (g : ℕ) × Paced cs (n + changes is m) g (iterate_all b c is m)
  iterate_all-Paced cs n f [] m k = (f, subst (λ j. Paced cs j f m) (omega arith) k)
  iterate_all-Paced cs n f (i ∷ is) m k =
      let h = iterate-Paced cs n f i m k in
      let j = fired (changed i m) in
      let r = iterate_all-Paced cs (n + j) h.0 is (iterate b c i m) h.1 in
      let t = iterate_all b c is (iterate b c i m) in
      (r.0, subst (λ x. Paced cs x r.0 t) (omega arith) r.1)

  -- With the endpoint registered and a fresh gate, as when the loop is entered, any number of turns
  -- schedules one callback for each turn that finds a changed total, and exactly one in a hundred of
  -- those asks for an explicit report.
  pub reports_paced :
      (is : List Sample) (m : Loop Fs)
      → m.zb.endpoint_registered ≡ true
      → m.pulse_heartbeat ≡ Gate.init zigbee_report_pulse_heartbeat
      → let t = iterate_all b c is m in
        (scheduled t.zb.calls ≡ changes is m + scheduled m.zb.calls)
        × ((f : ℕ) × (reports t.zb.calls ≡ f + reports m.zb.calls)
            × (f * 100 ≤ changes is m)
            × (changes is m < f * 100 + 100))
  unfolding Gate.init
  reports_paced is m e g =
      let start : Paced m.zb.calls 0 0 m = record {
        registered = e;
        cadence =
            subst (λ x. Cadence zigbee_report_pulse_heartbeat 0 x 0) (sym g)
              (record { kept = refl; below = omega arith; phase = omega arith });
        explicit = omega arith;
        every = omega arith;
      } in
      let k = iterate_all-Paced m.zb.calls 0 0 is m start in
      let r = k.1 in
      let below = r.cadence.below in
      let phase = r.cadence.phase in
      (
        omega (arith, r.every),
        (k.0, r.explicit, omega (arith, below, phase), omega (arith, below, phase)),
      )
