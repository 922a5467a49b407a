-- ===== src/Main/Loop/Loss.antt =====
-- What a loss of power costs while the sample loop runs.
use n_rf52840_power_meter.Prelude.{
  ℕ, ◌+◌, ◌^◌, ◌<◌, ◌≡◌, refl, arith, sym, ◌∙◌, ap, true, if◌then◌else◌, if_either, u32, List, [],
  ◌∷◌, sum,
}
use mathlib.Core.Path.{subst}
use n_rf52840_power_meter.Config.{Config}
use n_rf52840_power_meter.Rc.{Rc, success, fail}
use n_rf52840_power_meter.Accumulator.{PulseAccumulator}
use n_rf52840_power_meter.Accumulator
use n_rf52840_power_meter.Nvs.{NvsBackend, Store, save_total}
use n_rf52840_power_meter.Pulse.{hw_read, timer_capture, counter_timer, counter_capture_ch}
use n_rf52840_power_meter.Accumulator.Counting.{update_exact}
use n_rf52840_power_meter.Nvs.Slots.{NvsLaws, Writes}
use n_rf52840_power_meter.Main.Loop.{
  Loop, Sample, count_pulses, publish_if_changed, persist_if_due, iterate,
}
use n_rf52840_power_meter.Main.Loop.Save.{
  Restores, Safe, Counted, Safe-Counted, publish_if_changed-Apart, due, after_save,
  persist_if_due_lem, persist_if_due-Safe,
}

module _ {Fs : Type 0} (b : NvsBackend Fs) (c : Config) (laws : NvsLaws b) (writes : Writes b) where
  pub count_pulses_lem :
      (i : Sample) (m : Loop Fs) (seen p : ℕ)
      → c.hw_pulse_counter ≡ true
      → i.nrfx.captured ≡ u32 (seen + p)
      → Counted b m
      → m.acc.last_hw ≡ u32 seen
      → p < 2 ^ 32
      → m.acc.total + p < 2 ^ 64
      → let t = count_pulses b c i m in
        Counted b t × (t.acc.total ≡ m.acc.total + p) × (t.acc.last_hw ≡ u32 (seen + p))
  unfolding count_pulses hw_read
  count_pulses_lem i m seen p on shows s hw small fits =
      let u = update_exact m.acc seen p hw small in
      let acc = Accumulator.update m.acc (u32 (seen + p)) in
      let total : acc.total ≡ m.acc.total + p = omega (arith, u.0, fits) in
      let hw' = timer_capture counter_timer counter_capture_ch ∷ m.hw in
      let t = record m { acc = acc; hw = hw' } in
      let k : Counted b t = record {
        policy = s.policy;
        up = s.up;
        total_fits = omega (arith, total, fits);
        restores = s.restores;
        saved_le = omega (arith, total, s.saved_le);
      } in
      let P : Loop Fs → Type 0 =
        λ x. Counted b x × (x.acc.total ≡ m.acc.total + p) × (x.acc.last_hw ≡ u32 (seen + p)) in
      subst
        (λ x. P (
          if x
          then record m { acc = Accumulator.update m.acc i.nrfx.captured; hw = hw' }
          else record m { acc = Accumulator.update m.acc 0 }))
        (sym on)
        (subst (λ x. P (record m { acc = Accumulator.update m.acc x; hw = hw' })) (sym shows)
          (k, total, u.1))

  pub publish_if_changed-Counted :
      (i : Sample) (m : Loop Fs) → Counted b m → Counted b (publish_if_changed b c i m)
  publish_if_changed-Counted i m k =
      let a = publish_if_changed-Apart b c i m in
      let total = ap (λ (x : PulseAccumulator). x.total) a.0 in
      record {
        policy = a.1 ∙ k.policy;
        up = ap (λ (s : Store Fs). s.initialized) a.3 ∙ k.up;
        total_fits = omega (arith, total, k.total_fits);
        restores =
            subst (λ v. Restores b (publish_if_changed b c i m).store v) (sym a.2)
              (subst (λ s. Restores b s m.last_saved_total) (sym a.3) k.restores);
        saved_le = omega (arith, total, a.2, k.saved_le);
      }

  after_save-acc :
      (i : Sample) (m : Loop Fs) (r : Rc) (st : Store Fs) → (after_save b c i m (r, st)).acc ≡ m.acc
  after_save-acc i m success st = refl
  after_save-acc i m (fail e) st = refl

  pub persist_if_due-acc : (i : Sample) (m : Loop Fs) → (persist_if_due b c i m).acc ≡ m.acc
  persist_if_due-acc i m =
      let r = save_total b m.acc.total m.store in
      ap (λ (x : Loop Fs). x.acc) (persist_if_due_lem b c i m)
      ∙ if_either (due b c i m) (λ (x : Loop Fs). x.acc) (after_save-acc i m r.0 r.1) refl

  iterate-Safe :
      (i : Sample) (m : Loop Fs) (seen p : ℕ)
      → c.hw_pulse_counter ≡ true
      → i.nrfx.captured ≡ u32 (seen + p)
      → Safe b m
      → m.acc.last_hw ≡ u32 seen
      → p < 2 ^ 32
      → m.acc.total + p < 2 ^ 64
      → let t = iterate b c i m in
        Safe b t × (t.acc.total ≡ m.acc.total + p) × (t.acc.last_hw ≡ u32 (seen + p))
  unfolding iterate
  iterate-Safe i m seen p on shows s hw small fits =
      let k = count_pulses_lem i m seen p on shows (Safe-Counted b s) hw small fits in
      let counted = count_pulses b c i m in
      let published = publish_if_changed b c i counted in
      let a = (publish_if_changed-Apart b c i counted).0 in
      let acc = persist_if_due-acc i published ∙ a in
      (
        persist_if_due-Safe b c laws writes i published (publish_if_changed-Counted i counted k.0),
        ap (λ (x : PulseAccumulator). x.total) acc ∙ k.1,
        ap (λ (x : PulseAccumulator). x.last_hw) acc ∙ k.2,
      )

-- The iterations of the loop, the earliest first.
abbrev pub iterate_all : {Fs : Type 0} → NvsBackend Fs → Config → List Sample → Loop Fs → Loop Fs
iterate_all b c [] m = m
iterate_all b c (i ∷ is) m = iterate_all b c is (iterate b c i m)

-- The samples see a register that counts `pulses` from `seen` on, fewer than 2^32 between readings.
abbrev pub Observes : ℕ → List ℕ → List Sample → Type 0
Observes seen [] [] = Unit
Observes seen (p ∷ ps) (i ∷ is) =
    (i.nrfx.captured ≡ u32 (seen + p)) × (p < 2 ^ 32) × Observes (seen + p) ps is
Observes seen _ _ = ⊥

-- In a build with the pulse counter, from a loop state with fewer than 100 unsaved pulses, with
-- a flash that keeps and accepts writes, fewer than 2^32 pulses between readings and a total
-- below 2^64, any number of iterations adds exactly the pulses that the meter emitted, and
-- leaves in the store a total that a boot restores and that is fewer than 100 pulses behind,
-- whenever the power fails between iterations.
pub power_loss_bound :
    {Fs : Type 0} (b : NvsBackend Fs) (c : Config) (seen : ℕ) (pulses : List ℕ)
    (samples : List Sample) (m : Loop Fs)
    → NvsLaws b
    → Writes b
    → c.hw_pulse_counter ≡ true
    → Safe b m
    → m.acc.last_hw ≡ u32 seen
    → Observes seen pulses samples
    → m.acc.total + sum pulses < 2 ^ 64
    → let t = iterate_all b c samples m in Safe b t × (t.acc.total ≡ m.acc.total + sum pulses)
power_loss_bound b c seen [] [] m laws w on s hw o fits = (s, omega arith)
power_loss_bound b c seen (p ∷ ps) (i ∷ is) m laws w on s hw (shows, small, rest) fits =
    let h = iterate-Safe b c laws w i m seen p on shows s hw small (omega (arith, fits)) in
    let ih =
      power_loss_bound b c (seen + p) ps is (iterate b c i m) laws w on h.0 h.2 rest
        (omega (arith, h.1, fits)) in
    (ih.0, omega (arith, ih.1, h.1))
power_loss_bound b c seen [] (i ∷ is) m laws w on s hw o fits = absurd o
power_loss_bound b c seen (p ∷ ps) [] m laws w on s hw o fits = absurd o
