-- ===== src/Main/Loop/Save.antt =====
-- What an iteration's save leaves in the store.
use n_rf52840_power_meter.Prelude.{
  ℕ, ◌+◌, ◌^◌, ◌≤◌, ◌<◌, ◌≡◌, ◌⊎◌, inl, inr, refl, arith, sym, ap, Bool, true, false, ◌!=◌,
  if◌then◌else◌, Bool-cases,
}
use mathlib.Core.Path.{subst}
use n_rf52840_power_meter.Prelude.Int.{◌-ℤ◌, u64_of_ℤ}
use n_rf52840_power_meter.Config.{Config}
use n_rf52840_power_meter.Rc.{Errno, Rc, success, fail}
use n_rf52840_power_meter.Accumulator
use n_rf52840_power_meter.Persist.{PersistPolicy, should_write}
use n_rf52840_power_meter.Persist
use n_rf52840_power_meter.Nvs.{NvsBackend, Store, loaded, not_loaded, load_total, save_total}
use n_rf52840_power_meter.Persist.Bound.{declined_bound}
use n_rf52840_power_meter.Nvs.Slots.{NvsLaws, Writes, load-save_total, save_total_accepted}
use n_rf52840_power_meter.Main.{persist_interval_ms, persist_max_pulse_delta}
use n_rf52840_power_meter.Main.Loop.{Loop, Sample, publish_if_changed, persist_if_due}

-- The total that a boot from the store would start from.
abbrev pub Restores : {Fs : Type 0} → NvsBackend Fs → Store Fs → ℕ → Type 0
Restores b s v =
    (load_total b s ≡ loaded v) ⊎ ((v ≡ 0) × ((e : Errno) × (load_total b s ≡ not_loaded e)))

module _ {Fs : Type 0} (b : NvsBackend Fs) (c : Config) where
  -- Everything that a publish leaves alone.
  abbrev pub Apart : Loop Fs → Loop Fs → Type 0
  Apart m t =
      (t.acc ≡ m.acc)
      × (t.policy ≡ m.policy)
      × (t.last_saved_total ≡ m.last_saved_total)
      × (t.store ≡ m.store)

  pub publish_if_changed-Apart : (i : Sample) (m : Loop Fs) → Apart m (publish_if_changed b c i m)
  unfolding publish_if_changed
  publish_if_changed-Apart i m =
      elim (Bool-cases (Accumulator.total_of m.acc != m.last_published_total)) [
        | inl e ↦ rw e (refl, refl, refl, refl)
        | inr e ↦ rw e (refl, refl, refl, refl)
      ]

  -- Whether the policy asks for a write.
  abbrev pub due : Sample → Loop Fs → Bool
  due i m =
      should_write m.policy m.acc.total m.last_saved_total (u64_of_ℤ (i.now -ℤ m.last_saved_ms))

  -- What an iteration keeps of the result of a save.
  abbrev pub after_save : Sample → Loop Fs → Rc × Store Fs → Loop Fs
  after_save i m r = elim r.0 [
    | success ↦ record m { store = r.1; last_saved_total = m.acc.total; last_saved_ms = i.now }
    | fail e ↦ record m { store = r.1 }
  ]

  pub persist_if_due_lem :
      (i : Sample) (m : Loop Fs)
      → persist_if_due b c i m
        ≡ (if due i m then after_save i m (save_total b m.acc.total m.store) else m)
  unfolding persist_if_due Accumulator.total_of
  persist_if_due_lem i m = refl

  -- What saving leaves alone.
  abbrev pub Unsaved : Loop Fs → Loop Fs → Type 0
  Unsaved m t =
      (t.zb ≡ m.zb)
      × (t.hw ≡ m.hw)
      × (t.last_published_total ≡ m.last_published_total)
      × (t.pulse_heartbeat ≡ m.pulse_heartbeat)

  after_save-Unsaved :
      (i : Sample) (m : Loop Fs) (r : Rc) (st : Store Fs) → Unsaved m (after_save i m (r, st))
  after_save-Unsaved i m success st = (refl, refl, refl, refl)
  after_save-Unsaved i m (fail e) st = (refl, refl, refl, refl)

  pub persist_if_due-Unsaved : (i : Sample) (m : Loop Fs) → Unsaved m (persist_if_due b c i m)
  persist_if_due-Unsaved i m =
      let r = save_total b m.acc.total m.store in
      let saved = after_save i m r in
      subst (Unsaved m) (sym (persist_if_due_lem i m)) (elim (Bool-cases (due i m)) [
        | inl e ↦
            subst (λ x. Unsaved m (if x then saved else m)) (sym e) (after_save-Unsaved i m r.0 r.1)
        | inr e ↦ subst (λ x. Unsaved m (if x then saved else m)) (sym e) (refl, refl, refl, refl)
      ])

  after_save-saved :
      (i : Sample) (m : Loop Fs) (r : Rc) (st : Store Fs)
      → let t = after_save i m (r, st) in
        (t.last_saved_total ≡ m.last_saved_total) ⊎ (t.last_saved_total ≡ m.acc.total)
  after_save-saved i m success st = inr refl
  after_save-saved i m (fail e) st = inl refl

  -- The last saved total stays, or is the counted one.
  pub persist_if_due-saved :
      (i : Sample) (m : Loop Fs)
      → let t = persist_if_due b c i m in
        (t.last_saved_total ≡ m.last_saved_total) ⊎ (t.last_saved_total ≡ m.acc.total)
  persist_if_due-saved i m =
      let Saved : Loop Fs → Type 0 =
        λ t. (t.last_saved_total ≡ m.last_saved_total) ⊎ (t.last_saved_total ≡ m.acc.total) in
      let r = save_total b m.acc.total m.store in
      let saved = after_save i m r in
      subst Saved (sym (persist_if_due_lem i m)) (elim (Bool-cases (due i m)) [
        | inl e ↦ subst (λ x. Saved (if x then saved else m)) (sym e) (after_save-saved i m r.0 r.1)
        | inr e ↦ subst (λ x. Saved (if x then saved else m)) (sym e) (inl refl)
      ])

-- The state of the loop after an iteration, where `total` pulses have been counted: a boot from the
-- store would restore all but fewer than 100 of them.
pub record Safe {Fs : Type 0} (b : NvsBackend Fs) (m : Loop Fs) : Type 0 where
  pub policy : m.policy ≡ Persist.init persist_interval_ms persist_max_pulse_delta
  pub up : m.store.initialized ≡ true
  pub total_fits : m.acc.total < 2 ^ 64
  pub restores : Restores b m.store m.last_saved_total
  pub saved_le : m.last_saved_total ≤ m.acc.total
  pub loss : m.acc.total < m.last_saved_total + persist_max_pulse_delta

-- What holds between the counting and the saving of an iteration.
pub record Counted {Fs : Type 0} (b : NvsBackend Fs) (m : Loop Fs) : Type 0 where
  pub policy : m.policy ≡ Persist.init persist_interval_ms persist_max_pulse_delta
  pub up : m.store.initialized ≡ true
  pub total_fits : m.acc.total < 2 ^ 64
  pub restores : Restores b m.store m.last_saved_total
  pub saved_le : m.last_saved_total ≤ m.acc.total

pub Safe-Counted : {Fs : Type 0} (b : NvsBackend Fs) {m : Loop Fs} → Safe b m → Counted b m
Safe-Counted b s = record {
  policy = s.policy;
  up = s.up;
  total_fits = s.total_fits;
  restores = s.restores;
  saved_le = s.saved_le;
}

module _ {Fs : Type 0} (b : NvsBackend Fs) (c : Config) (laws : NvsLaws b) (writes : Writes b) where
  after_save-Safe :
      (i : Sample) (m : Loop Fs)
      → Counted b m
      → Safe b (after_save b c i m (save_total b m.acc.total m.store))
  after_save-Safe i m k =
      let st = save_total_accepted b writes m.acc.total m.store k.up in
      let r = save_total b m.acc.total m.store in
      let l = load-save_total b laws m.store m.acc.total k.total_fits st.0 in
      let safe : Safe b (after_save b c i m (success, r.1)) = record {
        policy = k.policy;
        up = st.1;
        total_fits = k.total_fits;
        restores = inl l.0;
        saved_le = omega arith;
        loss = omega arith;
      } in
      subst (λ x. Safe b (after_save b c i m (x, r.1))) (sym st.0) safe

  declined-Safe : (i : Sample) (m : Loop Fs) → Counted b m → due b c i m ≡ false → Safe b m
  unfolding Persist.init
  declined-Safe i m k e =
      let bound =
        declined_bound m.policy m.acc.total m.last_saved_total (u64_of_ℤ (i.now -ℤ m.last_saved_ms))
          k.saved_le k.total_fits e in
      let limit = ap (λ (p : PersistPolicy). p.max_pulse_delta) k.policy in
      record {
        policy = k.policy;
        up = k.up;
        total_fits = k.total_fits;
        restores = k.restores;
        saved_le = k.saved_le;
        loss = elim bound [ inl eq ↦ omega (arith, eq) | inr lt ↦ omega (arith, lt.0, limit) ];
      }

  pub persist_if_due-Safe :
      (i : Sample) (m : Loop Fs) → Counted b m → Safe b (persist_if_due b c i m)
  persist_if_due-Safe i m k =
      let saved = after_save b c i m (save_total b m.acc.total m.store) in
      subst (Safe b) (sym (persist_if_due_lem b c i m)) (elim (Bool-cases (due b c i m)) [
        | inl e ↦ subst (λ x. Safe b (if x then saved else m)) (sym e) (after_save-Safe i m k)
        | inr e ↦ subst (λ x. Safe b (if x then saved else m)) (sym e) (declined-Safe i m k e)
      ])
