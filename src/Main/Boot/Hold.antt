-- ===== src/Main/Boot/Hold.antt =====
-- The poll loops of the start: they end, and what the button loop decides.
use n_rf52840_power_meter.Prelude.{
  ℕ, zero, suc, ◌+◌, ◌*◌, ◌/◌, ◌^◌, ◌≤◌, ◌<◌, ◌≡◌, ◌≢◌, ◌⊎◌, ◌∙◌, ◌↔◌, inl, inr, refl, arith, ap,
  Bool, true, false, ◌&&◌, ltb, ◌==◌, if◌then◌else◌, Bool-cases, u32,
}
use mathlib.Core.Option.{Option, some}
use n_rf52840_power_meter.Prelude.Int.{ℤ, pos}
use n_rf52840_power_meter.Led.Priority.{long_press_hold, prio_long_press_hold}
use n_rf52840_power_meter.Led.Controller.{Led, led_request}
use n_rf52840_power_meter.Main.{boot_erase_poll_ms}
use n_rf52840_power_meter.Main.Press.{int32_max, is_active}
use n_rf52840_power_meter.Main.Poll.{
  held_from, boot_button_held, wait_for_host_dtr_from, wait_for_host_dtr_or_timeout,
}

-- The button is active at each of `n` polls from the `poll`-th on.
abbrev pub Held : ℕ → (ℕ → ℤ) → ℕ → Type 0
Held zero pin poll = Unit
Held (suc n) pin poll = (is_active (pin poll) ≡ true) × Held n pin (suc poll)

-- `n` polls are left of a threshold at a time `elapsed`.
abbrev Left : ℕ → ℕ → ℕ → Type 0
Left n threshold elapsed =
    (threshold ≤ elapsed + n * boot_erase_poll_ms)
    × (elapsed + n * boot_erase_poll_ms < threshold + boot_erase_poll_ms)

held_from_lem :
    (n fuel threshold elapsed : ℕ) (pin : ℕ → ℤ) (poll : ℕ)
    → Left n threshold elapsed
    → n < fuel
    → threshold + boot_erase_poll_ms ≤ 2 ^ 32
    → (h : Bool) × (held_from fuel threshold elapsed pin poll ≡ some h)
      × ((h ≡ true) ↔ Held n pin poll)
held_from_lem n zero threshold elapsed pin poll l f b = absurd (omega arith)
held_from_lem zero (suc fuel) threshold elapsed pin poll l f b =
    let t : ltb elapsed threshold ≡ false = ground arith in (true, rw t refl, (λ e. tt, λ e. refl))
held_from_lem (suc n) (suc fuel) threshold elapsed pin poll l f b =
    let ih =
      held_from_lem n fuel threshold (u32 (elapsed + boot_erase_poll_ms)) pin (suc poll)
        (omega arith) (omega arith) b in
    let t : ltb elapsed threshold ≡ true = ground arith in
    elim (Bool-cases (is_active (pin poll))) [
      | inl a ↦ (ih.0, rw (t, a) ih.1, (λ e. (a, ih.2.0 e), λ h. ih.2.1 h.1))
      | inr a ↦ (false, rw (t, a) refl, (λ (e : false ≡ true). cc, λ h. cc (h.0, a)))
    ]

-- The LED with the hold pattern requested where the button was held.
abbrev pub lit : Bool → Led → Led
lit h led = if h then led_request long_press_hold prio_long_press_hold led else led

lit-pair :
    (h : Bool) (led : Led)
    → let p : Bool × Led = (h, lit h led) in (if h then (true, lit true led) else (false, led)) ≡ p
lit-pair true led = refl
lit-pair false led = refl

-- With more fuel than polls fit into the threshold, the poll loop ends; it finds the button held
-- exactly if each poll up to the threshold finds it active, and only then lights the hold pattern.
pub boot_button_held_iff :
    (fuel threshold : ℕ) (pin : ℕ → ℤ) (led : Led)
    → threshold + boot_erase_poll_ms ≤ 2 ^ 32
    → (threshold + 9) / boot_erase_poll_ms < fuel
    → (h : Bool) × (boot_button_held fuel threshold pin led ≡ some (h, lit h led))
      × ((h ≡ true) ↔ Held ((threshold + 9) / boot_erase_poll_ms) pin 0)
unfolding boot_button_held
boot_button_held_iff fuel threshold pin led b f =
    let l =
      held_from_lem ((threshold + 9) / boot_erase_poll_ms) fuel threshold 0 pin 0 (omega arith) f
        b in
    (l.0, rw (l.1, boot_button_held) (ap some (lit-pair l.0 led)), l.2)

-- What the line has left in `dtr` after `n` more turns.
abbrev pub dtr_after : (ℕ → ℕ → ℕ) → ℕ → ℕ → ℕ → ℕ
dtr_after line zero poll dtr = dtr
dtr_after line (suc n) poll dtr = dtr_after line n (suc poll) (line poll dtr)

-- The wait takes `j` more turns of at most `n`: all of them, or it sees the host.
abbrev pub Waited : (ℕ → ℕ → ℕ) → ℕ → ℕ → ℕ → ℕ → Type 0
Waited line n poll dtr j = (j ≤ n) × ((j ≡ n) ⊎ (dtr_after line j poll dtr ≢ 0))

abbrev pub ended : ℕ → ℕ → Option (ℕ × ℕ)
ended turns now = some (turns, now)

ended_eq : {a a' b b' : ℕ} → a ≡ a' → b ≡ b' → ended a b ≡ ended a' b'
ended_eq {a' = a'} {b = b} e f = ap (λ x. ended x b) e ∙ ap (λ y. ended a' y) f

and_false : (x : Bool) → (x && false) ≡ false
and_false true = refl
and_false false = refl

turns_left :
    (n fuel t elapsed dtr : ℕ) (line : ℕ → ℕ → ℕ) (poll now : ℕ)
    → t ≤ elapsed + n * 100
    → elapsed + n * 100 < t + 100
    → n < fuel
    → t + 99 ≤ int32_max
    → (j : ℕ) × (wait_for_host_dtr_from fuel (pos t) elapsed dtr line poll now
        ≡ ended (poll + j) (now + 100 * j))
      × Waited line n poll dtr j
unfolding wait_for_host_dtr_from
turns_left n zero t elapsed dtr line poll now l u f b = absurd (omega arith)
turns_left zero (suc fuel) t elapsed dtr line poll now l u f b =
    let over : ltb elapsed t ≡ false = ground arith in
    (
      0,
      rw (over, and_false (dtr == 0)) (ended_eq (omega arith) (omega arith)),
      (omega arith, inl refl),
    )
turns_left (suc n) (suc fuel) t elapsed dtr line poll now l u f b =
    let ih =
      turns_left n fuel t (elapsed + 100) (line poll dtr) line (suc poll) (now + 100) (omega arith)
        (omega arith) (omega arith) b in
    let more : ltb elapsed t ≡ true = ground arith in
    let fits : ltb int32_max (elapsed + 100) ≡ false = ground arith in
    elim (Bool-cases (dtr == 0)) [
      | inl e ↦ (
        suc ih.0,
        rw (e, more, fits) (ih.1 ∙ ended_eq (omega arith) (omega arith)),
        (
          omega (arith, ih.2.0),
          elim ih.2.1 [ inl j ↦ inl (omega (arith, j)) | inr seen ↦ inr seen ],
        ),
      )
      | inr e ↦ (
        0,
        rw e (ended_eq (omega arith) (omega arith)),
        (omega arith, inr (λ z. ground (arith, z, e))),
      )
    ]

-- With more fuel than turns of 100 ms fit into the timeout, which is not negative and leaves room for
-- the last turn below INT32_MAX, the wait for the serial host ends, and `elapsed` does not overflow.
-- It takes the turns that make up the timeout, or fewer, and then the last of them has seen the host;
-- each turn sleeps for 100 ms.
pub wait_for_host_dtr_ends :
    (fuel t : ℕ) (line : ℕ → ℕ → ℕ) (now : ℕ)
    → t + 99 ≤ int32_max
    → (t + 99) / 100 < fuel
    → (j : ℕ) × (wait_for_host_dtr_or_timeout fuel (pos t) line now ≡ ended j (now + 100 * j))
      × Waited line ((t + 99) / 100) 0 0 j
unfolding wait_for_host_dtr_or_timeout
wait_for_host_dtr_ends fuel t line now b f =
    let w = turns_left ((t + 99) / 100) fuel t 0 0 line 0 now (omega arith) (omega arith) f b in
    (w.0, w.1 ∙ ended_eq (omega arith) refl, w.2)
