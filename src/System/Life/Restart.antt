-- ===== src/System/Life/Restart.antt =====
-- The total with which a start of src/main.c comes to the sample loop.
use n_rf52840_power_meter.Prelude.{ℕ, ◌<◌, ◌≡◌, ◌↔◌, ◌⊎◌, inl, inr, refl, sym, ◌∙◌, ap, Bool, true}
use mathlib.Core.Path.{subst}
use mathlib.Core.Option.{some}
use n_rf52840_power_meter.Config.{Config}
use n_rf52840_power_meter.Rc.{Rc, success}
use n_rf52840_power_meter.Nvs.{NvsBackend, Store, store_init}
use n_rf52840_power_meter.Nvs.Remount.{off, Mounts, store_init-off}
use n_rf52840_power_meter.Led.Controller.{Led}
use n_rf52840_power_meter.Zigbee.{Zboss, Zb}
use n_rf52840_power_meter.Main.Loop.Save.{Restores}
use n_rf52840_power_meter.Main.Boot.{Boot, running, BootEnv, boot, restore_total}
use n_rf52840_power_meter.Main.Boot.Enter.{ran}
use n_rf52840_power_meter.Main.Boot.Restore.{restore_total_lem}
use n_rf52840_power_meter.Main.Boot.Course.{
  Started, HeldAtBoot, Course, no_cdc, no_usb, no_button, no_led, no_counter, no_interrupt, all_up,
  regained, started,
}
use n_rf52840_power_meter.Main.Boot.Diagnosis.{boot-Course}
use n_rf52840_power_meter.System.Run.{Outside}
use n_rf52840_power_meter.System.Life.{power_up}

module _ {Fs : Type 0} (b : NvsBackend Fs) (z : Zboss) (c : Config) where
  module _ (e : BootEnv) (zb : Zb) (fs : Fs) where
    -- The total of a start with a store that initialises: 0 if the button was held, and what the
    -- store restores otherwise.
    abbrev pub Came : ℕ → Type 0
    Came n =
        (HeldAtBoot b z c e (power_up zb fs) × (n ≡ 0))
        ⊎ ((¬ HeldAtBoot b z c e (power_up zb fs)) × Restores b (store_init b (off fs)).1 n)

    regained-Came :
        (held : Bool) (held_led led : Led)
        → Outside b z c
        → Mounts b fs
        → ((held ≡ true) ↔ HeldAtBoot b z c e (power_up zb fs))
        → Came (regained b z c e (power_up zb fs) held held_led led).acc.total
    regained-Came held held_led led o m gesture =
        let store = (store_init b (off fs)).1 in
        let init = store_init-off b fs m in
        let up = ap (λ (r : Rc × Store Fs). r.1.initialized) init in
        let lem = restore_total_lem b o.laws o.writes held held_led led store up in
        let r = restore_total b success (held, held_led) led store in
        let came : Came r.acc.total = elim lem.2 [
          | inl x ↦ inl (gesture.0 x.0, x.1)
          | inr x ↦
              inr (
                λ h. cc (gesture.1 h, x.0),
                subst (λ s. Restores b s r.acc.total) x.1 lem.0.restores,
              )
        ] in
        subst (λ rc. Came (restore_total b rc (held, held_led) led store).acc.total)
          (sym (ap (λ (r : Rc × Store Fs). r.0) init)) came

    Course-Came :
        (o : Boot (Started Fs)) (x : Started Fs)
        → Course b z c e (power_up zb fs) o
        → o ≡ running x
        → Outside b z c
        → Mounts b fs
        → Came x.0.acc.total
    Course-Came _ x (no_cdc l _ _ _) eq o m = cc eq
    Course-Came _ x (no_usb l _ _ _ _) eq o m = cc eq
    Course-Came _ x (no_button l _ _ _) eq o m = cc eq
    Course-Came _ x (no_led _ _ _) eq o m = cc eq
    Course-Came _ x (no_counter l _ _ _ _ _ _) eq o m = cc eq
    Course-Came _ x (no_interrupt l _ _ _ _ _ _) eq o m = cc eq
    Course-Came _ x (all_up held held_led led _ _ _ _ _ gesture _) eq o m =
        let s = power_up zb fs in
        let k : started b z c e s (regained b z c e s held held_led led) ≡ x =
          ap (λ o. ran o x) eq in
        let ok = ap (λ (r : Rc × Store Fs). r.0) (store_init-off b fs m) in
        subst (λ (y : Started Fs). Came y.0.acc.total) k
          (regained-Came held held_led led o m (gesture ok))

    pub boot-Came :
        (fuel : ℕ) (x : Started Fs)
        → Outside b z c
        → 300 < fuel
        → Mounts b fs
        → boot b fuel z c e (power_up zb fs) ≡ some (running x)
        → Came x.0.acc.total
    boot-Came fuel x o f m eq =
        let k = boot-Course b z c e (power_up zb fs) (inl refl) fuel f in
        let same : k.0 ≡ running x = cc (sym k.1 ∙ eq) in Course-Came k.0 x k.2 same o m
