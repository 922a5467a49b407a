-- ===== src/System/Life/Account.antt =====
-- What the totals of a life account for.
use n_rf52840_power_meter.Prelude.{ℕ, ◌^◌, ◌<◌, ◌≡◌, ◌⊎◌, inl, inr, refl, arith, sym, ◌∙◌, ap}
use mathlib.Core.Option.{some}
use n_rf52840_power_meter.Config.{Config, InRange}
use n_rf52840_power_meter.Rc.{Rc}
use n_rf52840_power_meter.Nvs.{
  NvsBackend, Store, Loaded, loaded, not_loaded, load_total, save_total, store_init,
}
use n_rf52840_power_meter.Nvs.Slots.{load-save_total, save_total_accepted}
use n_rf52840_power_meter.Nvs.Remount.{
  off, held_by, Mounts, MountKeeps, store_init-off, load_total_held, load-remount,
}
use n_rf52840_power_meter.Zigbee.{Zboss, Zb}
use n_rf52840_power_meter.Main.Loop.Save.{Restores}
use n_rf52840_power_meter.Main.Boot.{running, BootEnv, boot}
use n_rf52840_power_meter.Main.Boot.Course.{Started, HeldAtBoot}
use n_rf52840_power_meter.System.{
  World, Step, emit, count, publish, persist, signal, write_divisor, write_width, serve_summation,
  serve_report, serve_steering, serve_reset, serve_wake, report_read, report_publish, edge, hold,
  dispatch, acknowledge, join_after_ack, led_tick, Reach, here, next,
}
use n_rf52840_power_meter.System.Run.{Outside}
use n_rf52840_power_meter.System.Start.{begin, boot-Reach-Sound}
use n_rf52840_power_meter.System.Life.{
  Ledger, erased, charge, power_up, Life, new, kept, unfinished, unfinished_erase, erases, Accounts,
}
use n_rf52840_power_meter.System.Life.Restart.{boot-Came}

module _ {Fs : Type 0} (b : NvsBackend Fs) (z : Zboss) (c : Config) where
  -- No step touches the total that the start restored.
  Step-base : {w v : World Fs} → Step b z c w v → v.base ≡ w.base
  Step-base (emit w n h) = refl
  Step-base (count w i t shows small) = refl
  Step-base (publish w i t) = refl
  Step-base (persist w i t) = refl
  Step-base (signal w bufid sig status found) = refl
  Step-base (write_divisor w v f) = refl
  Step-base (write_width w n) = refl
  Step-base (serve_summation w) = refl
  Step-base (serve_report w slot bufid) = refl
  Step-base (serve_steering w) = refl
  Step-base (serve_reset w) = refl
  Step-base (serve_wake w) = refl
  Step-base (report_read w e) = refl
  Step-base (report_publish w adc n e) = refl
  Step-base (edge w now value) = refl
  Step-base (hold w) = refl
  Step-base (dispatch w a ne) = refl
  Step-base (acknowledge w a e) = refl
  Step-base (join_after_ack w a) = refl
  Step-base (led_tick w now) = refl

  Reach-base : {w v : World Fs} → Reach b z c w v → v.base ≡ w.base
  Reach-base here = refl
  Reach-base (next r t) = Step-base t ∙ Reach-base r

  total_in : Loaded → ℕ
  total_in (loaded v) = v
  total_in (not_loaded e) = 0

  -- A store restores one total.
  Restores-unique : (s : Store Fs) (m n : ℕ) → Restores b s m → Restores b s n → m ≡ n
  unfolding total_in
  Restores-unique s m n (inl p) (inl q) = ap total_in (sym p ∙ q)
  Restores-unique s m n (inl p) (inr q) = cc (p, q.1.1)
  Restores-unique s m n (inr p) (inl q) = cc (q, p.1.1)
  Restores-unique s m n (inr p) (inr q) = p.0 ∙ sym q.0

  Restores-cong :
      (s t : Store Fs) (n : ℕ) → load_total b s ≡ load_total b t → Restores b s n → Restores b t n
  Restores-cong s t n e (inl p) = inl (sym e ∙ p)
  Restores-cong s t n e (inr p) = inr (p.0, (p.1.0, sym e ∙ p.1.1))

  module _ (o : Outside b z c) (r : InRange c) (keeps : MountKeeps b) (fuel : ℕ)
      (f : 300 < fuel) where
    -- What holds of the flash between two runs.
    abbrev Balanced : Fs → Ledger → Type 0
    Balanced fs k = (n : ℕ) × Restores b (held_by fs) n × Accounts n k × (n < 2 ^ 64)

    run-Balanced :
        (fs : Fs) (k : Ledger) (e : BootEnv) (zb : Zb) (x : Started Fs) (v : World Fs)
        → Mounts b fs
        → boot b fuel z c e (power_up zb fs) ≡ some (running x)
        → Reach b z c (begin x) v
        → Accounts x.0.acc.total k
        → x.0.acc.total < 2 ^ 64
        → Balanced v.loop.store.fs (charge v k)
    run-Balanced fs k e zb x v m eq reach a fits =
        let ok = ap (λ (r : Rc × Store Fs). r.0) (store_init-off b fs m) in
        let s =
          boot-Reach-Sound b z c e (power_up zb fs) fuel x v o r f (inl refl) ok eq fits reach in
        let base = Reach-base reach in
        let store = v.loop.store in
        let d = s.counted in
        (
          v.loop.last_saved_total,
          Restores-cong store (held_by store.fs) v.loop.last_saved_total
              (load_total_held b store d.up) d.restores,
          (omega (arith, base, s.total, d.saved_le, a.0), omega (arith, base, s.loss, a.1)),
          omega (arith, d.saved_le, d.total_fits),
        )

    kept_total :
        (fs : Fs) (e : BootEnv) (zb : Zb) (x : Started Fs) (n : ℕ)
        → Mounts b fs
        → Restores b (held_by fs) n
        → Restores b (store_init b (off fs)).1 x.0.acc.total
        → x.0.acc.total ≡ n
    kept_total fs e zb x n m p q =
        let store = (store_init b (off fs)).1 in
        let same = (load-remount b keeps (held_by fs) refl m).0 in
        Restores-unique store x.0.acc.total n q (Restores-cong (held_by fs) store n (sym same) p)

    Life-Balanced : {fs : Fs} {k : Ledger} → Life b z c fuel fs k → Balanced fs k
    Life-Balanced (new fs total h fits) = (total, h, (omega arith, omega arith), fits)
    Life-Balanced (kept fs k e zb x v l m not_held eq reach) =
        let ih = Life-Balanced l in
        elim (boot-Came b z c e zb fs fuel x o f m eq) [
          | inl p ↦ absurd (not_held p.0)
          | inr p ↦
              let t = kept_total fs e zb x ih.0 m ih.1 p.1 in
              run-Balanced fs k e zb x v m eq reach
                (omega (arith, t, ih.2.0), omega (arith, t, ih.2.1)) (omega (arith, t, ih.3))
        ]
    Life-Balanced (unfinished fs k l m) =
        let ih = Life-Balanced l in
        let store = (store_init b (off fs)).1 in
        let lem = load-remount b keeps (held_by fs) refl m in
        (
          ih.0,
          Restores-cong (held_by fs) (held_by store.fs) ih.0
              (sym lem.0 ∙ load_total_held b store lem.3) ih.1,
          ih.2,
          ih.3,
        )
    Life-Balanced (unfinished_erase fs k e zb l m held) =
        let store = (store_init b (off fs)).1 in
        let ok =
          save_total_accepted b o.writes 0 store (load-remount b keeps (held_by fs) refl m).3 in
        let store' = (save_total b 0 store).1 in
        let zero_saved = (load-save_total b o.laws store 0 (omega arith) ok.0).0 in
        (
          0,
          inl (sym (load_total_held b store' ok.1) ∙ zero_saved),
          (omega arith, omega arith),
          omega arith,
        )
    Life-Balanced (erases fs k e zb x v l m held eq reach) =
        elim (boot-Came b z c e zb fs fuel x o f m eq) [
          | inl p ↦
              run-Balanced fs erased e zb x v m eq reach (omega (arith, p.1), omega arith)
                (omega (arith, p.1))
          | inr p ↦ absurd (p.0 held)
        ]

  -- Over the whole life of a device, in a build with the pulse counter and its defaults in range,
  -- with a flash that mounts, keeps and accepts writes and keeps its entries over a mount, and a
  -- ZBOSS that stores what it is given: however often the power was lost, before a start came to the
  -- sample loop or at whatever point of whatever interleaving of the threads, the next start that comes to the sample loop has a total
  -- of 0 if the button is held at each poll, and otherwise one that counts no pulse twice, and
  -- misses, of the pulses read by the end of the last turn of each run since the total was last
  -- erased, at most 99 for each run that a loss of power has ended.
  pub Life-total :
      (fuel : ℕ) (fs : Fs) (k : Ledger) (e : BootEnv) (zb : Zb) (x : Started Fs)
      → Outside b z c
      → InRange c
      → MountKeeps b
      → 300 < fuel
      → Life b z c fuel fs k
      → Mounts b fs
      → boot b fuel z c e (power_up zb fs) ≡ some (running x)
      → let held = HeldAtBoot b z c e (power_up zb fs) in
        (held × (x.0.acc.total ≡ 0)) ⊎ ((¬ held) × Accounts x.0.acc.total k)
  Life-total fuel fs k e zb x o r keeps f l m eq =
      let n = Life-Balanced o r keeps fuel f l in
      elim (boot-Came b z c e zb fs fuel x o f m eq) [
        | inl p ↦ inl p
        | inr p ↦
            let t = kept_total o r keeps fuel f fs e zb x n.0 m n.1 p.1 in
            inr (p.0, (omega (arith, t, n.2.0), omega (arith, t, n.2.1)))
      ]
