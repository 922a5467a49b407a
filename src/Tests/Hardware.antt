-- ===== src/Tests/Hardware.antt =====
-- Runs of the store and of the pulse hardware's bring-up.
use n_rf52840_power_meter.Prelude.{◌≡◌, refl, arith, List, [], ◌∷◌}
use mathlib.Core.Option.{some, none}
use n_rf52840_power_meter.Rc.{enoent, success}
use n_rf52840_power_meter.Nvs.{load_total, save_total, load_imp_per_kwh, load_pulse_min_width_us}
use n_rf52840_power_meter.Nvs.Table.{
  accumulator_total, imp_per_kwh, pulse_min_width_us, Table, Event, saves, power_cycle, Agree,
  put_all, save_all, save_all-Agree,
}
use n_rf52840_power_meter.Pulse.{
  init_chain, init_counter_timer, init_width_timer, init_lpcomp, init_gpiote, init_ppi, hw_init,
}
use n_rf52840_power_meter.Pulse.Wiring.{Distinct}
use n_rf52840_power_meter.Tests.{
  flash, flash-Writes, flash-Mounts, flash-MountKeeps, flash-NvsLaws, used_store, config, nrfx,
}

saved_total : (save_total flash 6000 used_store).0 ≡ success
unfolding save_total
saved_total = refl

pub nrfx-Distinct : Distinct (nrfx 0)
nrfx-Distinct = record {
  edges = omega arith;
  up_down = omega arith;
  up_bench_h = omega arith;
  up_bench_l = omega arith;
  up_cnt = omega arith;
  down_bench_h = omega arith;
  down_bench_l = omega arith;
  down_cnt = omega arith;
  bench_h_bench_l = omega arith;
  bench_h_cnt = omega arith;
  bench_l_cnt = omega arith;
}

pub hw_init-succeeds : (hw_init (nrfx 0) flash config used_store []).0 ≡ success
unfolding hw_init init_chain init_counter_timer init_width_timer init_lpcomp init_gpiote init_ppi
hw_init-succeeds = refl

-- Nothing but the total is stored at first; the run saves it again and calibrates twice, with a loss of
-- power between.
abbrev table : Table
table k = elim k [ accumulator_total ↦ some 5000 | imp_per_kwh ↦ none | pulse_min_width_us ↦ none ]

abbrev run : List Event
run =
    saves imp_per_kwh 800
    ∷ (saves accumulator_total 5100 ∷ (power_cycle ∷ (saves imp_per_kwh 3200 ∷ [])))

table-Agree : Agree flash table used_store
unfolding load_total load_imp_per_kwh load_pulse_min_width_us
table-Agree accumulator_total = refl
table-Agree imp_per_kwh = (enoent, refl)
table-Agree pulse_min_width_us = (enoent, refl)

save_all-Agree_example : Agree flash (put_all run table) (save_all flash run used_store)
save_all-Agree_example =
    save_all-Agree flash flash-NvsLaws run used_store table flash-Writes flash-MountKeeps
      flash-Mounts refl (omega arith, (omega arith, (tt, (omega arith, tt)))) table-Agree
