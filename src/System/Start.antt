-- ===== src/System/Start.antt =====
-- The system from the start of `main` on.
use n_rf52840_power_meter.Prelude.{
  ℕ, ◌^◌, ◌<◌, ◌≡◌, inl, inr, refl, arith, sym, ◌∙◌, ap, Bool, true, false, if◌then◌else◌, [],
}
use mathlib.Core.Path.{subst}
use mathlib.Core.Option.{some, none}
use n_rf52840_power_meter.Config.{Config, InRange}
use n_rf52840_power_meter.Accumulator
use n_rf52840_power_meter.Nvs.{NvsBackend, Store, store_init}
use n_rf52840_power_meter.Led.Controller.{Led}
use n_rf52840_power_meter.Led.Controller.Sync.{InSync}
use n_rf52840_power_meter.Zigbee.{Zboss, Zb, to_u24, call, register_device_cb, register_device_ctx}
use n_rf52840_power_meter.Main.Loop.Save.{Restores}
use n_rf52840_power_meter.System.{World, counting, Reach}
use n_rf52840_power_meter.System.Published.{publish-Pends}
use n_rf52840_power_meter.System.Sound.{Sound, Calibrated, Pends-Calibrated, Filtered}
use n_rf52840_power_meter.Rc.{Rc, success, fail, is_success}
use n_rf52840_power_meter.Prelude.Int.{pos}
use n_rf52840_power_meter.Nvs.Slots.{store_init_iff}
use n_rf52840_power_meter.Pulse.Threshold.{hw_init-Threshold}
use n_rf52840_power_meter.Zigbee.Attrs.{app_init}
use n_rf52840_power_meter.Zigbee.Seeded.{app_init-Seeded, app_init_lem, app_clusters_attr_init_lem}
use n_rf52840_power_meter.Zigbee.Reports.{plain, publish}
use n_rf52840_power_meter.Led.Controller.Fatal.{Yields}
use n_rf52840_power_meter.Main.Boot.{Boot, running, BootEnv, Booting, boot, restore_total}
use n_rf52840_power_meter.Main.Boot.Enter.{ran}
use n_rf52840_power_meter.Main.Boot.Restore.{Resumed, restore_total_lem}
use n_rf52840_power_meter.Main.Boot.Course.{
  Started, Course, all_up, no_cdc, no_usb, no_button, no_led, no_counter, no_interrupt, wired,
  counted_by, regained, started, CounterUp,
}
use n_rf52840_power_meter.Main.Boot.Diagnosis.{boot-Course}
use n_rf52840_power_meter.System.Run.{Outside, Reach-Sound}

-- The world as the sample loop begins: no pulse since the restored total, and no press yet.
abbrev pub begin : {Fs : Type 0} → Started Fs → World Fs
begin x = record {
  loop = x.0;
  led = x.2;
  press_start_ms = pos 0;
  press_duration_ms = 0;
  classifier = x.1;
  kernel_calls = [];
  acked = false;
  report = none;
  stale = false;
  turn = counting;
  base = x.0.acc.total;
  emitted = 0;
  sampled = 0;
  settled = 0;
}

module _ {Fs : Type 0} (b : NvsBackend Fs) (z : Zboss) (c : Config) where
  app_init-Calibrated :
      (store : Store Fs) (s : Zb) → InRange c → Calibrated (app_init b z c store s)
  app_init-Calibrated store s r =
      let s0 = call register_device_ctx (call register_device_cb s) in
      let k = app_init-Seeded b z c store s r in
      let init = app_init_lem b z c store s in
      let seed = app_clusters_attr_init_lem b z c store s0 in
      record {
        registered = k.registered;
        in_range = k.imp_in_range;
        shown = ap (λ d. d.metering_divisor) init.1 ∙ seed.1 ∙ ap to_u24 (sym (init.0 ∙ seed.0));
      }

  is_success→success : (rc : Rc) → is_success rc ≡ true → rc ≡ success
  is_success→success success e = refl
  is_success→success (fail k) e = cc e

  module _ (e : BootEnv) (s : Booting Fs) where
    wired-Filtered :
        InRange c → c.hw_pulse_counter ≡ true → CounterUp b z c e s → Filtered (wired b z c e s)
    wired-Filtered r on up =
        let store = (store_init b s.store).1 in
        let ok : is_success (counted_by b z c e s).0 ≡ true = elim up [
          | inl off ↦ cc (sym on ∙ off)
          | inr u ↦ u
        ] in
        let k =
          hw_init-Threshold e.nrfx b c store s.hw r
            (is_success→success (counted_by b z c e s).0 ok) in
        subst (λ x. Filtered (if x then (counted_by b z c e s).1 else s.hw)) (sym on)
          (k.0, k.1, k.3)

    started-Sound :
        (held : Bool) (held_led led : Led)
        → Outside b z c
        → InRange c
        → (store_init b s.store).0 ≡ success
        → CounterUp b z c e s
        → InSync (regained b z c e s held held_led led).led
        → (regained b z c e s held held_led led).acc.total < 2 ^ 64
        → Sound b (begin (started b z c e s (regained b z c e s held held_led led)))
    unfolding publish Accumulator.total_of
    started-Sound held held_led led o r ok up sync fits =
        let store = (store_init b s.store).1 in
        let rg = regained b z c e s held held_led led in
        let up1 = (store_init_iff b s.store).0.0 ok in
        let lem = restore_total_lem b o.laws o.writes held held_led led store up1 in
        let k =
          subst
            (λ rc.
              let r = restore_total b rc (held, held_led) led store in
              Resumed b r × (r.store.initialized ≡ true))
            (sym ok) (lem.0, lem.1) in
        let zb = app_init b z c rg.store s.zb in
        let cal = app_init-Calibrated rg.store s.zb r in
        let p = publish-Pends c (plain rg.acc.total) zb cal.registered in
        record {
          counted = record {
            policy = refl;
            up = k.1;
            total_fits = fits;
            restores = subst (λ v. Restores b rg.store v) (sym k.0.last_saved) k.0.restores;
            saved_le = omega (arith, k.0.last_saved);
          };
          total = omega arith;
          register = k.0.counts_from;
          seen = omega arith;
          fits = omega (arith, fits);
          settled = omega arith;
          loss = omega (arith, k.0.last_saved);
          fresh = inr (inr p.pending);
          published = inr refl;
          pending_le = omega (arith, p.pending);
          read_le = tt;
          calibrated = Pends-Calibrated p cal;
          filtered = wired-Filtered r o.counter up;
          in_sync = sync;
        }

module _ {Fs : Type 0} (b : NvsBackend Fs) (z : Zboss) (c : Config) (e : BootEnv) (s : Booting Fs)
    (fuel : ℕ) where
  Course-Sound :
      (o : Boot (Started Fs)) (x : Started Fs)
      → Course b z c e s o
      → o ≡ running x
      → Outside b z c
      → InRange c
      → (store_init b s.store).0 ≡ success
      → x.0.acc.total < 2 ^ 64
      → Sound b (begin x)
  Course-Sound _ x (no_cdc l _ _ _) eq o r ok fits = cc eq
  Course-Sound _ x (no_usb l _ _ _ _) eq o r ok fits = cc eq
  Course-Sound _ x (no_button l _ _ _) eq o r ok fits = cc eq
  Course-Sound _ x (no_led _ _ _) eq o r ok fits = cc eq
  Course-Sound _ x (no_counter l _ _ _ _ _ _) eq o r ok fits = cc eq
  Course-Sound _ x (no_interrupt l _ _ _ _ _ _) eq o r ok fits = cc eq
  Course-Sound _ x (all_up held held_led led _ _ _ up _ _ ready) eq o r ok fits =
      let k : started b z c e s (regained b z c e s held held_led led) ≡ x = ap (λ o. ran o x) eq in
      let total = ap (λ (y : Started Fs). y.0.acc.total) k in
      subst (λ y. Sound b (begin y)) k
        (started-Sound b z c e s held held_led led o r ok up ready.0 (omega (arith, total, fits)))

  -- In a build with the pulse counter and its defaults in range, with a flash that keeps and accepts
  -- writes and a ZBOSS that stores what it is given: if a start with fuel for the polls of the hold
  -- gesture, an LED whose pattern yields to the fatal one and a store that initialises comes to the
  -- sample loop with a total of 64 bits, every state that the threads come to from there, in
  -- whatever order they take their steps, is sound: no pulse read is lost or counted twice, fewer
  -- than 100 of those read by the end of the last turn are unsaved, the Divisor attribute reads the
  -- effective divisor and the pulse filter is programmed, both in range, the LED shows what the
  -- arbiter selects, and the total that waits to be published is at most the counted one, and is
  -- that one but in a turn's own gap and after a report that was overtaken.
  pub boot-Reach-Sound :
      (x : Started Fs) (v : World Fs)
      → Outside b z c
      → InRange c
      → 300 < fuel
      → Yields s.led.state
      → (store_init b s.store).0 ≡ success
      → boot b fuel z c e s ≡ some (running x)
      → x.0.acc.total < 2 ^ 64
      → Reach b z c (begin x) v
      → Sound b v
  boot-Reach-Sound x v o r f y ok eq fits reach =
      let k = boot-Course b z c e s y fuel f in
      let same : k.0 ≡ running x = cc (sym k.1 ∙ eq) in
      Reach-Sound b z c o (Course-Sound k.0 x k.2 same o r ok fits) reach
