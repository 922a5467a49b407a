-- ===== src/Nvs/Table.antt =====
-- The store as a table of three values, which outlives a loss of power.
use n_rf52840_power_meter.Prelude.{
  ℕ, ◌^◌, ◌<◌, ◌≡◌, sym, Bool, true, false, if◌then◌else◌, List, [], ◌∷◌, All,
}
use mathlib.Core.Path.{subst}
use mathlib.Core.Option.{Option, some, none}
use n_rf52840_power_meter.Rc.{Errno, Rc, success}
use n_rf52840_power_meter.Nvs.{
  NvsBackend, Store, Loaded, loaded, not_loaded, load_total, save_total, load_imp_per_kwh,
  save_imp_per_kwh, load_pulse_min_width_us, save_pulse_min_width_us, store_init,
}
use n_rf52840_power_meter.Nvs.Remount.{off, Mounts, MountKeeps, load-remount}
use n_rf52840_power_meter.Nvs.Slots.{
  NvsLaws, load-save_total, load-save_imp_per_kwh, load-save_pulse_min_width_us, Writes,
  save_total_accepted, save_imp_per_kwh_accepted, save_pulse_min_width_us_accepted,
}

pub data Slot : Type 0 where
  accumulator_total imp_per_kwh pulse_min_width_us : Slot

abbrev pub same_slot : Slot → Slot → Bool
same_slot accumulator_total accumulator_total = true
same_slot imp_per_kwh imp_per_kwh = true
same_slot pulse_min_width_us pulse_min_width_us = true
same_slot _ _ = false

-- What a client of the store has to know: a value, or nothing, for each slot.
abbrev pub Table : Type 0
Table = Slot → Option ℕ

abbrev pub put : Slot → ℕ → Table → Table
put k v t = λ j. if same_slot k j then some v else t j

-- A value fits the type of its slot, `uint64_t` or `uint32_t`.
abbrev pub FitsSlot : Slot → ℕ → Type 0
FitsSlot accumulator_total v = v < 2 ^ 64
FitsSlot _ v = v < 2 ^ 32

-- A load shows the table's entry.
abbrev pub Shows : Option ℕ → Loaded → Type 0
Shows (some v) l = l ≡ loaded v
Shows none l = (e : Errno) × (l ≡ not_loaded e)

-- What happens to the store: a save, or a loss of power with the next initialisation.
pub data Event : Type 0 where
  saves : Slot → ℕ → Event
  power_cycle : Event

abbrev pub FitsEvent : Event → Type 0
FitsEvent (saves k v) = FitsSlot k v
FitsEvent power_cycle = Unit

abbrev pub put_all : List Event → Table → Table
put_all [] t = t
put_all (saves k v ∷ es) t = put_all es (put k v t)
put_all (power_cycle ∷ es) t = put_all es t

module _ {Fs : Type 0} (b : NvsBackend Fs) where
  abbrev pub load : Slot → Store Fs → Loaded
  load accumulator_total s = load_total b s
  load imp_per_kwh s = load_imp_per_kwh b s
  load pulse_min_width_us s = load_pulse_min_width_us b s

  abbrev pub save : Slot → ℕ → Store Fs → Rc × Store Fs
  save accumulator_total v s = save_total b v s
  save imp_per_kwh v s = save_imp_per_kwh b v s
  save pulse_min_width_us v s = save_pulse_min_width_us b v s

  -- The events of a run, the earliest first.
  abbrev pub save_all : List Event → Store Fs → Store Fs
  save_all [] s = s
  save_all (saves k v ∷ es) s = save_all es (save k v s).1
  save_all (power_cycle ∷ es) s = save_all es (store_init b (off s.fs)).1

  abbrev pub Agree : Table → Store Fs → Type 0
  Agree t s = (k : Slot) → Shows (t k) (load k s)

  module _ (laws : NvsLaws b) where
    save-Agree :
        (k : Slot) (v : ℕ) (s : Store Fs) (t : Table)
        → FitsSlot k v
        → (save k v s).0 ≡ success
        → Agree t s
        → Agree (put k v t) (save k v s).1
    save-Agree accumulator_total v s t f ok a accumulator_total =
        (load-save_total b laws s v f ok).0
    save-Agree accumulator_total v s t f ok a imp_per_kwh =
        subst (Shows (t imp_per_kwh)) (sym (load-save_total b laws s v f ok).1) (a imp_per_kwh)
    save-Agree accumulator_total v s t f ok a pulse_min_width_us =
        subst (Shows (t pulse_min_width_us)) (sym (load-save_total b laws s v f ok).2)
          (a pulse_min_width_us)
    save-Agree imp_per_kwh v s t f ok a accumulator_total =
        subst (Shows (t accumulator_total)) (sym (load-save_imp_per_kwh b laws s v f ok).1)
          (a accumulator_total)
    save-Agree imp_per_kwh v s t f ok a imp_per_kwh = (load-save_imp_per_kwh b laws s v f ok).0
    save-Agree imp_per_kwh v s t f ok a pulse_min_width_us =
        subst (Shows (t pulse_min_width_us)) (sym (load-save_imp_per_kwh b laws s v f ok).2)
          (a pulse_min_width_us)
    save-Agree pulse_min_width_us v s t f ok a accumulator_total =
        subst (Shows (t accumulator_total)) (sym (load-save_pulse_min_width_us b laws s v f ok).1)
          (a accumulator_total)
    save-Agree pulse_min_width_us v s t f ok a imp_per_kwh =
        subst (Shows (t imp_per_kwh)) (sym (load-save_pulse_min_width_us b laws s v f ok).2)
          (a imp_per_kwh)
    save-Agree pulse_min_width_us v s t f ok a pulse_min_width_us =
        (load-save_pulse_min_width_us b laws s v f ok).0

    save_accepted :
        (writes : Writes b) (k : Slot) (v : ℕ) (s : Store Fs)
        → s.initialized ≡ true
        → ((save k v s).0 ≡ success) × ((save k v s).1.initialized ≡ true)
    save_accepted writes accumulator_total v s up = save_total_accepted b writes v s up
    save_accepted writes imp_per_kwh v s up = save_imp_per_kwh_accepted b writes v s up
    save_accepted writes pulse_min_width_us v s up =
        save_pulse_min_width_us_accepted b writes v s up

    remount-Agree :
        (s : Store Fs) (t : Table)
        → MountKeeps b
        → Mounts b s.fs
        → s.initialized ≡ true
        → Agree t s
        → Agree t (store_init b (off s.fs)).1
    remount-Agree s t keeps m up a accumulator_total =
        subst (Shows (t accumulator_total)) (sym (load-remount b keeps s up m).0)
          (a accumulator_total)
    remount-Agree s t keeps m up a imp_per_kwh =
        subst (Shows (t imp_per_kwh)) (sym (load-remount b keeps s up m).1) (a imp_per_kwh)
    remount-Agree s t keeps m up a pulse_min_width_us =
        subst (Shows (t pulse_min_width_us)) (sym (load-remount b keeps s up m).2)
          (a pulse_min_width_us)

    -- With a flash that keeps and accepts writes, mounts and keeps its entries over a mount, an
    -- initialised store whose loads agree with a table of three entries goes on to do so: after any
    -- sequence of saves, in any of the slots, of values that fit them, and of losses of power, each
    -- with the next initialisation, each load gives what the table holds after the same saves.
    pub save_all-Agree :
        (es : List Event) (s : Store Fs) (t : Table)
        → Writes b
        → MountKeeps b
        → ((fs : Fs) → Mounts b fs)
        → s.initialized ≡ true
        → All FitsEvent es
        → Agree t s
        → Agree (put_all es t) (save_all es s)
    save_all-Agree [] s t w keeps m up f a = a
    save_all-Agree (saves k v ∷ es) s t w keeps m up f a =
        let ok = save_accepted w k v s up in
        save_all-Agree es (save k v s).1 (put k v t) w keeps m ok.1 f.1
          (save-Agree k v s t f.0 ok.0 a)
    save_all-Agree (power_cycle ∷ es) s t w keeps m up f a =
        save_all-Agree es (store_init b (off s.fs)).1 t w keeps m
          (load-remount b keeps s up (m s.fs)).3 f.1 (remount-Agree s t keeps (m s.fs) up a)
