-- ===== src/Led/Priority/Arbiter.antt =====
-- The arbiter's promise: the strongest request so far is the one that shows.
use n_rf52840_power_meter.Prelude.{
  ℕ, ◌≤◌, ◌<◌, ◌≡◌, ◌≢◌, ◌↔◌, ◌⊎◌, inl, inr, refl, arith, sym, ◌∙◌, true, false, ◌||◌, ltb, leb,
  Bool-cases, List, [], ◌∷◌, All,
}
use mathlib.Core.List.{Memᴰ}
use mathlib.Core.Path.{subst}
use n_rf52840_power_meter.Led.Priority.{
  Pattern, none, count, id, same, same→eq, same_refl, dispatchable, PriorityState, init, request,
  selected,
}

-- The four ways a request can go.
abbrev pub Outcome : PriorityState → Pattern → ℕ → Type 0
Outcome s p prio =
    ((dispatchable p ≡ false) × (request s p prio ≡ (false, s)))
    ⊎ ((dispatchable p ≡ true)
        × ((s.active ≡ none) ⊎ (prio < s.active_prio))
        × (request s p prio ≡ (true, record { active = p; active_prio = prio })))
    ⊎ ((s.active_prio ≤ prio)
        × (dispatchable p ≡ true)
        × (p ≡ s.active)
        × (request s p prio ≡ (true, s)))
    ⊎ ((s.active_prio ≤ prio) × (p ≢ s.active) × (request s p prio ≡ (false, s)))

pub request-Outcome : (s : PriorityState) (p : Pattern) (prio : ℕ) → Outcome s p prio
unfolding request
request-Outcome s p prio = elim (Bool-cases (leb (id p) (id none) || leb (id count) (id p))) [
  | inl bad ↦ inl (rw bad refl, rw bad refl)
  | inr good ↦ elim (Bool-cases (same s.active none || ltb prio s.active_prio)) [
    | inl wins ↦
        inr (inl (rw good refl, ground (arith, same→eq s.active none), rw (good, wins) refl))
    | inr loses ↦ elim (Bool-cases (same p s.active)) [
      | inl again ↦ inr (
          inr (
            inl
              (ground arith, rw good refl, same→eq p s.active again, rw (good, loses, again) refl)))
      | inr other ↦ inr (
          inr (
            inr (
              ground arith,
              λ e. absurd (ground (arith, same_refl s.active, rw e at other)),
              rw (good, loses, other) refl,
            )))
    ]
  ]
]

abbrev pub Request : Type 0
Request = Pattern × ℕ

abbrev pub request_all : PriorityState → List Request → PriorityState
request_all s [] = s
request_all s ((p, prio) ∷ rs) = request_all (request s p prio).1 rs

abbrev pub Dispatchable : List Request → Type 0
Dispatchable rs = All (λ r. dispatchable r.0 ≡ true) rs

-- The active pattern with its priority.
abbrev pub holder : PriorityState → Request
holder s = (selected s, s.active_prio)

-- The holder is one of the requests, and none of them has a stronger priority.
abbrev pub Strongest : PriorityState → List Request → Type 0
Strongest s rs = Memᴰ (holder s) rs × All (λ r. s.active_prio ≤ r.1) rs

-- One request to an arbiter that shows a pattern.
request_step :
    (s : PriorityState) (p : Pattern) (prio : ℕ)
    → s.active ≢ none
    → dispatchable p ≡ true
    → let t = (request s p prio).1 in
      (t.active ≢ none)
      × ((holder t ≡ holder s) ⊎ (holder t ≡ (p, prio)))
      × (t.active_prio ≤ s.active_prio)
      × (t.active_prio ≤ prio)
unfolding selected
request_step s p prio h d = elim (request-Outcome s p prio) [
  | inl bad ↦ cc (d, bad.0)
  | inr (inl wins) ↦ elim wins.1 [
    | inl e ↦ absurd (h e)
    | inr lt ↦ rw wins.2 (λ e. ground (arith, d, e), inr refl, omega arith, omega arith)
  ]
  | inr (inr (inl again)) ↦ rw again.3 (h, inl refl, omega arith, again.0)
  | inr (inr (inr loses)) ↦ rw loses.2 (h, inl refl, omega arith, loses.0)
]

Memᴰ-split :
    {x y a b : Request} {rs : List Request}
    → Memᴰ x (y ∷ rs)
    → (y ≡ a) ⊎ (y ≡ b)
    → Memᴰ x (a ∷ b ∷ rs)
Memᴰ-split (Memᴰ.head e) (inl f) = Memᴰ.head (e ∙ f)
Memᴰ-split (Memᴰ.head e) (inr f) = Memᴰ.tail (Memᴰ.head (e ∙ f))
Memᴰ-split (Memᴰ.tail m) _ = Memᴰ.tail (Memᴰ.tail m)

request_all-Strongest :
    (s : PriorityState) (rs : List Request)
    → s.active ≢ none
    → Dispatchable rs
    → let s' = request_all s rs in (s'.active ≢ none) × Strongest s' (holder s ∷ rs)
request_all-Strongest s [] h d = (h, (Memᴰ.head refl, (omega arith, tt)))
request_all-Strongest s ((p, prio) ∷ rs) h d =
    let step = request_step s p prio h d.0 in
    let ih = request_all-Strongest (request s p prio).1 rs step.0 d.1 in
    (
      ih.0,
      (
        Memᴰ-split ih.1.0 step.1,
        (omega (arith, ih.1.1.0, step.2), (omega (arith, ih.1.1.0, step.3), ih.1.1.1)),
      ),
    )

pub request-init :
    (p : Pattern) (prio : ℕ)
    → dispatchable p ≡ true
    → (request init p prio).1 ≡ record { active = p; active_prio = prio }
unfolding request init
request-init p prio d = ground (arith, d)

-- From an idle arbiter, after any non-empty sequence of requests for dispatchable patterns with no
-- cancel between, the active pattern and its priority are one of the requests, and no request had
-- a stronger (smaller) priority: losers are dropped, and the strongest request shows.
pub Strongest-wins :
    (p : Pattern) (prio : ℕ) (rs : List Request)
    → Dispatchable ((p, prio) ∷ rs)
    → let s = request_all init ((p, prio) ∷ rs) in Strongest s ((p, prio) ∷ rs)
unfolding selected
Strongest-wins p prio rs d =
    subst (λ t. Strongest (request_all t rs) ((p, prio) ∷ rs)) (sym (request-init p prio d.0))
      (request_all-Strongest (record { active = p; active_prio = prio }) rs
        (λ e. ground (arith, d.0, e)) d.1).1

-- A request is granted exactly if its pattern is dispatchable and is the selected one afterwards;
-- a refused request changes nothing.
request_iff :
    (s : PriorityState) (p : Pattern) (prio : ℕ)
    → let (granted, s') = request s p prio in
      ((granted ≡ true) ↔ ((dispatchable p ≡ true) × (selected s' ≡ p)))
      × ((granted ≡ true) ⊎ (s' ≡ s))
unfolding selected
request_iff s p prio = elim (request-Outcome s p prio) [
  | inl bad ↦ rw bad.1 ((λ e. cc, λ e. cc (bad.0)), inr refl)
  | inr (inl wins) ↦ rw wins.2 ((λ e. (wins.0, refl), λ e. refl), inl refl)
  | inr (inr (inl again)) ↦ rw again.3 ((λ e. (again.1, sym again.2), λ e. refl), inl refl)
  | inr (inr (inr loses)) ↦ rw loses.2 ((λ e. cc, λ e. absurd (loses.1 (sym e.1))), inr refl)
]
