-- ===== src/Accumulator/Counting.antt =====
-- The accumulator against the number of pulses that the meter really emitted.
use n_rf52840_power_meter.Prelude.{
  ℕ, ◌+◌, ◌^◌, ◌<◌, ◌≡◌, refl, arith, sym, ◌∙◌, ap, u32, u64, List, [], ◌∷◌, sum,
}
use n_rf52840_power_meter.Accumulator.{PulseAccumulator, init, update, restore, total_of}

-- What the 32-bit register shows over a sequence of readings, when `pulses` more pulses come
-- before each reading: the count so far, wrapped.
abbrev pub readings : ℕ → List ℕ → List ℕ
readings seen [] = []
readings seen (pulses ∷ rest) = u32 (seen + pulses) ∷ readings (seen + pulses) rest

-- The sample loop's use of the accumulator, with the rest of the loop left out.
abbrev pub update_all : PulseAccumulator → List ℕ → PulseAccumulator
update_all acc [] = acc
update_all acc (r ∷ rs) = update_all (update acc r) rs

-- Fewer than 2^32 pulses before each reading.
abbrev pub Sampled : List ℕ → Type 0
Sampled [] = Unit
Sampled (pulses ∷ rest) = (pulses < 2 ^ 32) × Sampled rest

-- One reading adds exactly the pulses since the last one, also across the register's wrap.
pub update_exact :
    (acc : PulseAccumulator) (seen pulses : ℕ)
    → acc.last_hw ≡ u32 seen
    → pulses < 2 ^ 32
    → ((update acc (u32 (seen + pulses))).total ≡ u64 (acc.total + pulses))
      × ((update acc (u32 (seen + pulses))).last_hw ≡ u32 (seen + pulses))
unfolding update
update_exact acc seen pulses e h = (omega arith, refl)

total-update_all :
    (acc : PulseAccumulator) (seen : ℕ) (ps : List ℕ)
    → acc.total < 2 ^ 64
    → acc.last_hw ≡ u32 seen
    → Sampled ps
    → (update_all acc (readings seen ps)).total ≡ u64 (acc.total + sum ps)
total-update_all acc seen [] b e s = omega arith
total-update_all acc seen (p ∷ ps) b e s = omega (
  arith,
  update_exact acc seen p e s.0,
  total-update_all (update acc (u32 (seen + p))) (seen + p) ps
      (omega (arith, update_exact acc seen p e s.0)) (update_exact acc seen p e s.0).1 s.1,
)

-- After a restore, with the counter register started at 0 and read at least once in 2^32 pulses,
-- the total is the saved total plus every pulse emitted since, modulo 2^64: no pulse is lost or
-- counted twice, however often the 32-bit register wraps.
pub total-restore :
    (saved : ℕ) (pulses : List ℕ)
    → saved < 2 ^ 64
    → Sampled pulses
    → total_of (update_all (restore saved) (readings 0 pulses)) ≡ u64 (saved + sum pulses)
unfolding restore total_of
total-restore saved pulses b s = total-update_all (restore saved) 0 pulses b refl s

last_hw-update_all :
    (acc : PulseAccumulator) (seen : ℕ) (ps : List ℕ)
    → acc.last_hw ≡ u32 seen
    → (update_all acc (readings seen ps)).last_hw ≡ u32 (seen + sum ps)
unfolding update
last_hw-update_all acc seen [] e = e ∙ ap u32 (omega arith)
last_hw-update_all acc seen (p ∷ ps) e =
    last_hw-update_all (update acc (u32 (seen + p))) (seen + p) ps refl ∙ ap u32 (omega arith)

fields_eq : {a a' : PulseAccumulator} → a.total ≡ a'.total → a.last_hw ≡ a'.last_hw → a ≡ a'
fields_eq {a} {a'} t h =
    let by_total : ℕ → PulseAccumulator = λ x. record { total = x; last_hw = a.last_hw } in
    let by_last : ℕ → PulseAccumulator = λ x. record { total = a'.total; last_hw = x } in
    ap by_total t ∙ ap by_last h

-- How the readings fall does not matter: from the same state, two sequences of readings of the same
-- number of pulses, with fewer than 2^32 before each reading, leave the same accumulator.
pub update_all_schedule :
    (acc : PulseAccumulator) (seen : ℕ) (ps qs : List ℕ)
    → acc.total < 2 ^ 64
    → acc.last_hw ≡ u32 seen
    → Sampled ps
    → Sampled qs
    → sum ps ≡ sum qs
    → update_all acc (readings seen ps) ≡ update_all acc (readings seen qs)
update_all_schedule acc seen ps qs b e sp sq same =
    let total = λ (n : ℕ). u64 (acc.total + n) in
    let shown = λ (n : ℕ). u32 (seen + n) in
    fields_eq
      (total-update_all acc seen ps b e sp
        ∙ ap total same
        ∙ sym (total-update_all acc seen qs b e sq))
      (last_hw-update_all acc seen ps e ∙ ap shown same ∙ sym (last_hw-update_all acc seen qs e))

-- A cold boot is a restore of 0.
pub init-eq-restore : init ≡ restore 0
unfolding init restore
init-eq-restore = refl
