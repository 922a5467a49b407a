-- ===== src/Main/Boot/Restore.antt =====
-- What the start restores.
use n_rf52840_power_meter.Prelude.{◌≡◌, ◌⊎◌, inl, inr, refl, arith, sym, ◌∙◌, ap, Bool, true, false}
use mathlib.Core.Path.{subst}
use n_rf52840_power_meter.Rc.{success, fail}
use n_rf52840_power_meter.Accumulator
use n_rf52840_power_meter.Nvs.{
  NvsBackend, Store, Loaded, loaded, not_loaded, load_total, save_total, Loaded-cases,
}
use n_rf52840_power_meter.Led.Priority.{long_press_hold, erase_confirm, prio_erase_confirm}
use n_rf52840_power_meter.Led.Controller.{Led, led_request, led_cancel}
use n_rf52840_power_meter.Nvs.Slots.{NvsLaws, load-save_total, Writes, save_total_accepted}
use n_rf52840_power_meter.Main.Loop.Save.{Restores}
use n_rf52840_power_meter.Main.Boot.{Restored, erase_if_held, load_into, restore_total}

-- The total is the one that the store restores, the hardware count starts at 0, and the last saved
-- total is that total.
pub record Resumed {Fs : Type 0} (b : NvsBackend Fs) (r : Restored Fs) : Type 0 where
  pub restores : Restores b r.store r.acc.total
  pub last_saved : r.last_saved_total ≡ r.acc.total
  pub counts_from : r.acc.last_hw ≡ 0

-- What the load gives as a state of the start.
abbrev pub into : {Fs : Type 0} → Led → Store Fs → Loaded → Restored Fs
into led s (loaded v) = record {
  led = led;
  store = s;
  acc = Accumulator.restore v;
  last_saved_total = v;
}
into led s (not_loaded e) = record {
  led = led;
  store = s;
  acc = Accumulator.init;
  last_saved_total = 0;
}

module _ {Fs : Type 0} (b : NvsBackend Fs) where
  pub load_into_lem :
      (led : Led) (s : Store Fs) (l : Loaded)
      → load_total b s ≡ l
      → load_into b led s ≡ into led s l
  unfolding load_into
  load_into_lem led s l e = rw (e, load_into) (same l)
    where
      same :
          (l : Loaded)
          → elim l as (λ x. Restored Fs) [
            | loaded v ↦ record {
              led = led;
              store = s;
              acc = Accumulator.restore v;
              last_saved_total = v;
            }
            | not_loaded e ↦ record {
              led = led;
              store = s;
              acc = Accumulator.init;
              last_saved_total = 0;
            }
          ]
            ≡ into led s l
      same (loaded v) = refl
      same (not_loaded e) = refl

  load_into-Resumed :
      (led : Led) (s : Store Fs) → Resumed b (load_into b led s) × ((load_into b led s).store ≡ s)
  unfolding Accumulator.restore Accumulator.init
  load_into-Resumed led s = elim (Loaded-cases (load_total b s)) [
    | inl l ↦
        let r : Resumed b (into led s (loaded l.0)) = record {
          restores = inl l.1;
          last_saved = refl;
          counts_from = refl;
        } in
        subst (λ x. Resumed b x × (x.store ≡ s)) (sym (load_into_lem led s (loaded l.0) l.1))
          (r, refl)
    | inr l ↦
        let r : Resumed b (into led s (not_loaded l.0)) = record {
          restores = inr (refl, l);
          last_saved = refl;
          counts_from = refl;
        } in
        subst (λ x. Resumed b x × (x.store ≡ s)) (sym (load_into_lem led s (not_loaded l.0) l.1))
          (r, refl)
  ]

  module _ (laws : NvsLaws b) (writes : Writes b) where
    erase_if_held-store :
        (led : Led) (s : Store Fs)
        → s.initialized ≡ true
        → (erase_if_held b true led s).1 ≡ (save_total b 0 s).1
    unfolding erase_if_held
    erase_if_held-store led s up =
        let cancelled = led_cancel long_press_hold led in
        let s' = (save_total b 0 s).1 in
        ap
          (λ rc.
            let p : Led × Store Fs = elim rc [
              | success ↦ (led_request erase_confirm prio_erase_confirm cancelled, s')
              | fail _ ↦ (cancelled, s')
            ] in
            p.1)
          (save_total_accepted b writes 0 s up).0

    -- With an initialised store and a flash that accepts writes, a button held at boot erases the
    -- total: the accumulator starts at 0 and the store holds a 0. Without the gesture the store
    -- is left alone. Either way the total is the one that the store restores, is taken as the last
    -- saved one, and the hardware count starts at 0.
    pub restore_total_lem :
        (held : Bool) (held_led led : Led) (s : Store Fs)
        → s.initialized ≡ true
        → let r = restore_total b success (held, held_led) led s in
          Resumed b r
          × (r.store.initialized ≡ true)
          × (((held ≡ true) × (r.acc.total ≡ 0) × (load_total b r.store ≡ loaded 0))
              ⊎ ((held ≡ false) × (r.store ≡ s)))
    unfolding restore_total erase_if_held Accumulator.restore
    restore_total_lem true held_led led s up =
        let e = erase_if_held b true held_led s in
        let store = erase_if_held-store held_led s up in
        let st = save_total_accepted b writes 0 s up in
        let zero_saved : load_total b e.1 ≡ loaded 0 =
          ap (load_total b) store ∙ (load-save_total b laws s 0 (omega arith) st.0).0 in
        let l = load_into-Resumed e.0 e.1 in
        (
          l.0,
          ap (λ (s : Store Fs). s.initialized) (l.1 ∙ store) ∙ st.1,
          inl (
            refl,
            ap (λ (r : Restored Fs). r.acc.total) (load_into_lem e.0 e.1 (loaded 0) zero_saved),
            ap (load_total b) l.1 ∙ zero_saved,
          ),
        )
    restore_total_lem false held_led led s up =
        let l = load_into-Resumed held_led s in
        (l.0, ap (λ (s : Store Fs). s.initialized) l.1 ∙ up, inr (refl, l.1))
