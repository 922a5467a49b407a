-- ===== src/Zigbee/Joining.antt =====
-- The network signals: how each one is passed on, what `joined` tracks, and when the LED is painted.
use n_rf52840_power_meter.Prelude.{
  ℕ, ◌≡◌, ◌≢◌, inl, inr, refl, arith, ◌∙◌, ap, Bool, true, false, not, ◌||◌, ◌==◌, if◌then◌else◌,
  Bool-cases, List, [], ◌∷◌, ◌++◌,
}
use mathlib.Core.Option.{Option, some, none}
use n_rf52840_power_meter.Config.{Config}
use n_rf52840_power_meter.Zigbee.{ZbRet, is_ok, Zboss, Zb, ZbCall, default_signal_handler, buf_free}
use n_rf52840_power_meter.Zigbee.Attrs.{probe_kick}
use n_rf52840_power_meter.Zigbee.Signals.{
  Signal, steering, device_reboot, leave, other_signal, Node, on_zb,
  apply_sleepy_poll_intervals_if_joined, paint_outcome, on_signal, signal_handler,
}

-- One call of the signal handler.
pub record Event : Type 0 where
  pub bufid : ℕ
  pub signal : Signal
  pub status : ZbRet
  pub attr_found : Bool

-- The buffers that were handed to the default handler, and those that were freed.
abbrev pub delegated : List ZbCall → List ℕ
delegated [] = []
delegated (default_signal_handler k ∷ cs) = k ∷ delegated cs
delegated (_ ∷ cs) = delegated cs

abbrev pub freed : List ZbCall → List ℕ
freed [] = []
freed (buf_free k ∷ cs) = k ∷ freed cs
freed (_ ∷ cs) = freed cs

abbrev pub buffers : List Event → List ℕ
buffers [] = []
buffers (e ∷ es) = e.bufid ∷ buffers es

-- Buffer 0 stands for no buffer.
abbrev pub real_buffers : List Event → List ℕ
real_buffers [] = []
real_buffers (e ∷ es) = if e.bufid == 0 then real_buffers es else e.bufid ∷ real_buffers es

-- What a signal says of the membership in the network: steering decides either way, a reboot only
-- where it succeeds, a leave always.
abbrev pub verdict : Signal → ZbRet → Option Bool
verdict steering status = some (is_ok status)
verdict device_reboot status = if is_ok status then some true else none
verdict leave status = some false
verdict (other_signal k) status = none

-- The latest verdict of a run, and what held before where there is none.
abbrev pub latest_verdict : List Event → Bool → Bool
latest_verdict [] before = before
latest_verdict (e ∷ es) before = elim (verdict e.signal e.status) [
  | some v ↦ v
  | none ↦ latest_verdict es before
]

module _ (z : Zboss) (c : Config) where
  -- The handler on a sequence of signals, the latest first.
  abbrev pub handled : List Event → Node → Node
  handled [] n = n
  handled (e ∷ es) n = signal_handler z c e.bufid e.signal e.status e.attr_found (handled es n)

-- The two states agree but for calls that neither delegate nor free.
abbrev pub Quiet : Zb → Zb → Type 0
Quiet s t =
    (t.joined ≡ s.joined)
    × (t.user_join_in_flight ≡ s.user_join_in_flight)
    × (delegated t.calls ≡ delegated s.calls)
    × (freed t.calls ≡ freed s.calls)

pub probe_kick-Quiet : (c : Config) (s : Zb) → Quiet s (probe_kick c s)
probe_kick-Quiet c s = elim (Bool-cases c.zigbee_rx_idle_probe) [
  | inl e ↦ rw e (refl, refl, refl, refl)
  | inr e ↦ rw e (refl, refl, refl, refl)
]

pub apply_sleepy-Quiet :
    (z : Zboss) (c : Config) (status : ZbRet) (found : Bool) (s : Zb)
    → Quiet s (apply_sleepy_poll_intervals_if_joined z c status found s)
unfolding apply_sleepy_poll_intervals_if_joined
apply_sleepy-Quiet z c status found s =
    elim (Bool-cases (not c.zigbee_sleepy_ed || not (is_ok status))) [
      | inl e ↦ rw e (refl, refl, refl, refl)
      | inr e ↦ elim (Bool-cases found) [
        | inl f ↦ rw (e, f) (refl, refl, refl, refl)
        | inr f ↦ rw (e, f) (refl, refl, refl, refl)
      ]
    ]

pub paint_outcome_lem :
    (z : Zboss) (c : Config) (status : ZbRet) (n : Node)
    → ((paint_outcome z c status n).zb.joined ≡ n.zb.joined)
      × ((paint_outcome z c status n).zb.calls ≡ n.zb.calls)
unfolding paint_outcome
paint_outcome_lem z c status n = elim (Bool-cases (n.zb.user_join_in_flight == 1)) [
  | inl e ↦ rw e (refl, refl)
  | inr e ↦ rw e (refl, refl)
]

pub paint_outcome-silent :
    (z : Zboss) (c : Config) (status : ZbRet) (n : Node)
    → n.zb.user_join_in_flight ≢ 1
    → paint_outcome z c status n ≡ n
unfolding paint_outcome
paint_outcome-silent z c status n ne = ground arith

-- The state before the intervals are applied.
abbrev pub steered : Config → ZbRet → Node → Node
steered c status n =
    let joined_now = on_zb (λ s. record s { joined = is_ok status }) n in
    if is_ok status then on_zb (probe_kick c) joined_now else joined_now

pub steered_lem :
    (c : Config) (status : ZbRet) (n : Node)
    → let t = steered c status n in
      (t.zb.joined ≡ is_ok status)
      × (t.zb.user_join_in_flight ≡ n.zb.user_join_in_flight)
      × (delegated t.zb.calls ≡ delegated n.zb.calls)
      × (freed t.zb.calls ≡ freed n.zb.calls)
      × (t.led ≡ n.led)
steered_lem c status n = elim (Bool-cases (is_ok status)) [
  | inl e ↦
      let s = n.zb in
      let q = probe_kick-Quiet c (record s { joined = true }) in rw e (q.0, q.1, q.2, q.3, refl)
  | inr e ↦ rw e (refl, refl, refl, refl, refl)
]

-- What a signal does to `joined` and to the two buffer lists, before it is delegated.
abbrev Heard : Option Bool → Zb → Zb → Type 0
Heard v s t =
    (t.joined ≡ elim v [ some j ↦ j | none ↦ s.joined ])
    × (delegated t.calls ≡ delegated s.calls)
    × (freed t.calls ≡ freed s.calls)

module _ (z : Zboss) (c : Config) where
  on_signal-Heard :
      (sig : Signal) (status : ZbRet) (found : Bool) (n : Node)
      → Heard (verdict sig status) n.zb (on_signal z c sig status found n).zb
  unfolding on_signal
  on_signal-Heard steering status found n =
      let t = steered c status n in
      let p = paint_outcome_lem z c status t in
      let s = steered_lem c status n in
      let q = apply_sleepy-Quiet z c status found (paint_outcome z c status t).zb in
      (q.0 ∙ p.0 ∙ s.0, q.2 ∙ ap delegated p.1 ∙ s.2, q.3 ∙ ap freed p.1 ∙ s.3)
  on_signal-Heard device_reboot status found n = elim (Bool-cases (is_ok status)) [
    | inl e ↦
        let s = n.zb in
        let k = probe_kick-Quiet c (record s { joined = true }) in
        let q = apply_sleepy-Quiet z c status found (probe_kick c (record s { joined = true })) in
        rw e (q.0 ∙ k.0, q.2 ∙ k.2, q.3 ∙ k.3)
    | inr e ↦ let q = apply_sleepy-Quiet z c status found n.zb in rw e (q.0, q.2, q.3)
  ]
  on_signal-Heard leave status found n = (refl, refl, refl)
  on_signal-Heard (other_signal k) status found n = (refl, refl, refl)

  -- Every signal is passed to the default handler, in order and exactly once, and every buffer that
  -- came with one is freed exactly once; `joined` is the latest verdict on the membership.
  pub handled_lem :
      (es : List Event) (n : Node)
      → let s = (handled z c es n).zb in
        (delegated s.calls ≡ buffers es ++ delegated n.zb.calls)
        × (freed s.calls ≡ real_buffers es ++ freed n.zb.calls)
        × (s.joined ≡ latest_verdict es n.zb.joined)
  unfolding signal_handler
  handled_lem [] n = (refl, refl, refl)
  handled_lem (e ∷ es) n =
      let before = handled z c es n in
      let ih = handled_lem es n in
      let h = on_signal-Heard e.signal e.status e.attr_found before in
      let joined =
        h.0 ∙ ap (λ j. elim (verdict e.signal e.status) [ some v ↦ v | none ↦ j ]) ih.2 in
      elim (Bool-cases (e.bufid == 0)) [
        | inl z ↦ rw z (ap (λ l. e.bufid ∷ l) (h.1 ∙ ih.0), h.2 ∙ ih.1, joined)
        | inr z ↦
            rw z (ap (λ l. e.bufid ∷ l) (h.1 ∙ ih.0), ap (λ l. e.bufid ∷ l) (h.2 ∙ ih.1), joined)
      ]
