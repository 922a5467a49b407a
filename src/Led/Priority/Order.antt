-- ===== src/Led/Priority/Order.antt =====
-- The arbiter as a function of the set of patterns that were asked for: order and repetition do not
-- matter, where each pattern comes with its own priority, as it does in every call of led_request.
use n_rf52840_power_meter.Prelude.{
  ◌≤◌, ◌<◌, ◌≡◌, ◌≢◌, ◌⊎◌, inl, inr, refl, arith, sym, ◌∙◌, ap, Bool, true, false, ◌||◌, Bool-cases,
  List, [], ◌∷◌,
}
use mathlib.Core.Path.{subst}
use native.Mathlib.Nat.{ℕ_set}
use mathlib.Core.Quot
use mathlib.Core.Quot.{Quot, Quot-set}
use n_rf52840_power_meter.Led.Priority.{
  Pattern, none, id, id-injective, same, same→eq, same_refl, dispatchable, PriorityState, init,
  request,
}
use n_rf52840_power_meter.Led.Priority.Arbiter.{Request, request_all, request-Outcome, request-init}

-- The requests for some patterns: `LED_PRIO_X` has the number of `LED_PATTERN_X`.
abbrev pub own : List Pattern → List Request
own [] = []
own (p ∷ ps) = (p, id p) ∷ own ps

abbrev pub asked : List Pattern → Pattern → Bool
asked [] q = false
asked (p ∷ ps) q = same p q || asked ps q

-- The same patterns are asked for, in whatever order and however often.
abbrev pub SamePatterns : List Pattern → List Pattern → Type 0
SamePatterns ps qs = (q : Pattern) → asked ps q ≡ asked qs q

abbrev pub Asked : Type 0
Asked = Quot SamePatterns

-- One more pattern, in front of the earliest.
pub ask : Pattern → Asked → Asked
ask p =
    Quot.lift Quot-set (λ ps. Quot.mk (p ∷ ps))
      (λ ps qs h. Quot.sound (λ q. ap (λ x. same p q || x) (h q)))

-- What the arbiter holds after requests for the patterns that `f` selects: the strongest of those that
-- are dispatchable, or nothing.
abbrev Holds : (Pattern → Bool) → PriorityState → Type 0
Holds f s =
    ((s ≡ init) × ((q : Pattern) → f q ≡ true → dispatchable q ≡ false))
    ⊎ ((f s.active ≡ true)
        × (dispatchable s.active ≡ true)
        × (s.active_prio ≡ id s.active)
        × ((q : Pattern) → f q ≡ true → dispatchable q ≡ true → id s.active ≤ id q))

Holds-unique : (f : Pattern → Bool) (s t : PriorityState) → Holds f s → Holds f t → s ≡ t
Holds-unique f s t (inl h) (inl k) = h.0 ∙ sym k.0
Holds-unique f s t (inl h) (inr k) = cc (h.1 t.active k.0, k.1)
Holds-unique f s t (inr h) (inl k) = cc (k.1 s.active h.0, h.1)
Holds-unique f s t (inr h) (inr k) =
    let e : id s.active ≡ id t.active = omega (arith, h.3 t.active k.0 k.1, k.3 s.active h.0 h.1) in
    let a = id-injective s.active t.active e in
    let b : s.active_prio ≡ t.active_prio = h.2 ∙ e ∙ sym k.2 in
    λ i. record { active = a i; active_prio = b i }

Holds-ext :
    (f g : Pattern → Bool) (s : PriorityState) → ((q : Pattern) → f q ≡ g q) → Holds f s → Holds g s
Holds-ext f g s e (inl h) = inl (h.0, λ q k. h.1 q (e q ∙ k))
Holds-ext f g s e (inr h) = inr (sym (e s.active) ∙ h.0, h.1, h.2, λ q k. h.3 q (e q ∙ k))

-- One more pattern among those that are selected.
abbrev also : Pattern → (Pattern → Bool) → Pattern → Bool
also p f q = same p q || f q

also-split : (p q : Pattern) (f : Pattern → Bool) → also p f q ≡ true → (p ≡ q) ⊎ (f q ≡ true)
also-split p q f h = elim (Bool-cases (same p q)) [
  | inl e ↦ inl (same→eq p q e)
  | inr e ↦ inr (sym (ap (λ x. x || f q) e) ∙ h)
]

also_self : (p : Pattern) (f : Pattern → Bool) → also p f p ≡ true
also_self p f = ap (λ x. x || f p) (same_refl p)

also-old : (p q : Pattern) (f : Pattern → Bool) → f q ≡ true → also p f q ≡ true
also-old p q f h = elim (Bool-cases (same p q)) [
  | inl e ↦ ap (λ x. x || f q) e
  | inr e ↦ ap (λ x. x || f q) e ∙ h
]

module _ (f : Pattern → Bool) (s : PriorityState) (p : Pattern) where
  refused-Holds : dispatchable p ≡ false → Holds f s → Holds (also p f) s
  refused-Holds bad (inl h) = inl (
    h.0,
    λ q k. elim (also-split p q f k) [
      | inl e ↦ subst (λ x. dispatchable x ≡ false) e bad
      | inr e ↦ h.1 q e
    ],
  )
  refused-Holds bad (inr h) = inr (
    also-old p s.active f h.0,
    h.1,
    h.2,
    λ q k d. elim (also-split p q f k) [
      | inl e ↦ cc (ap dispatchable e, bad, d)
      | inr e ↦ h.3 q e d
    ],
  )

  granted-Holds :
      dispatchable p ≡ true
      → (s.active ≡ none) ⊎ (id p < s.active_prio)
      → Holds f s
      → Holds (also p f) (record { active = p; active_prio = id p })
  granted-Holds good wins h = inr (
    also_self p f,
    good,
    refl,
    λ q k d. elim (also-split p q f k) [
      | inl e ↦ omega (arith, ap id e)
      | inr e ↦ elim h [
        | inl x ↦ cc (x.1 q e, d)
        | inr x ↦ elim wins [
          | inl idle ↦ cc (idle, x.1)
          | inr lt ↦ omega (arith, lt, x.2, x.3 q e d)
        ]
      ]
    ],
  )

  -- A request that leaves a pattern at least as strong in place.
  kept-Holds : (s.active ≢ none) → s.active_prio ≤ id p → Holds f s → Holds (also p f) s
  unfolding init
  kept-Holds busy le (inl h) = absurd (busy (ap (λ (t : PriorityState). t.active) h.0))
  kept-Holds busy le (inr h) = inr (
    also-old p s.active f h.0,
    h.1,
    h.2,
    λ q k d. elim (also-split p q f k) [
      | inl e ↦ omega (arith, ap id e, le, h.2)
      | inr e ↦ h.3 q e d
    ],
  )

  idle-request : dispatchable p ≡ true → s ≡ init → (request s p (id p)).1.active ≡ p
  idle-request good e =
      ap (λ t. (request t p (id p)).1.active) e
      ∙ ap (λ (t : PriorityState). t.active) (request-init p (id p) good)

  request-Holds : Holds f s → Holds (also p f) (request s p (id p)).1
  request-Holds h = elim (request-Outcome s p (id p)) [
    | inl bad ↦ rw bad.1 (refused-Holds bad.0 h)
    | inr (inl wins) ↦ rw wins.2 (granted-Holds wins.0 wins.1 h)
    | inr (inr (inl again)) ↦
        rw again.3 (kept-Holds (λ e. cc (ap dispatchable (again.2 ∙ e), again.1)) again.0 h)
    | inr (inr (inr loses)) ↦ elim (Bool-cases (dispatchable p)) [
      | inr bad ↦ rw loses.2 (refused-Holds bad h)
      | inl good ↦ elim h [
        | inl x ↦ absurd (
            loses.1
              (sym (idle-request good x.0) ∙ ap (λ (r : Bool × PriorityState). r.1.active) loses.2))
        | inr x ↦ rw loses.2 (kept-Holds (λ e. cc (x.1)) loses.0 (inr x))
      ]
    ]
  ]

request_all-Holds :
    (f : Pattern → Bool) (s : PriorityState) (ps : List Pattern)
    → Holds f s
    → Holds (λ q. f q || asked ps q) (request_all s (own ps))
request_all-Holds f s [] h = Holds-ext f (λ q. f q || false) s (λ q. or-false (f q)) h
  where
    or-false : (x : Bool) → x ≡ (x || false)
    or-false true = refl
    or-false false = refl
request_all-Holds f s (p ∷ ps) h =
    Holds-ext (λ q. also p f q || asked ps q) (λ q. f q || asked (p ∷ ps) q)
      (request_all (request s p (id p)).1 (own ps)) (λ q. or-swap (same p q) (f q) (asked ps q))
      (request_all-Holds (also p f) (request s p (id p)).1 ps (request-Holds f s p h))
  where
    or-swap : (x y r : Bool) → ((x || y) || r) ≡ (y || (x || r))
    or-swap true true r = refl
    or-swap true false r = refl
    or-swap false true r = refl
    or-swap false false r = refl

init-Holds : (ps : List Pattern) → Holds (asked ps) (request_all init (own ps))
init-Holds ps = request_all-Holds (λ q. false) init ps (inl (refl, λ q (e : false ≡ true). cc))

request_all-SamePatterns :
    (ps qs : List Pattern)
    → SamePatterns ps qs
    → request_all init (own ps) ≡ request_all init (own qs)
request_all-SamePatterns ps qs h =
    let s = request_all init (own qs) in
    Holds-unique (asked ps) (request_all init (own ps)) s (init-Holds ps)
      (Holds-ext (asked qs) (asked ps) s (λ q. sym (h q)) (init-Holds qs))

Pattern-set : IsSet Pattern
Pattern-set = hlevel

PriorityState-set : IsSet PriorityState
PriorityState-set = hlevel (Pattern-set, ℕ_set)

-- The arbiter after requests for a set of patterns, from an idle one on.
pub holding : Asked → PriorityState
holding = Quot.lift PriorityState-set (λ ps. request_all init (own ps)) request_all-SamePatterns

-- Where each pattern is asked for at its own priority, what the arbiter holds is a function of the set
-- of the patterns asked for since it was idle, whatever their order and however often each came: it is
-- what any list of those requests leaves, and a request takes the state for a set to the state for the
-- set with its pattern added.
pub request-holding :
    (p : Pattern) (a : Asked) (ps : List Pattern)
    → a ≡ Quot.mk ps
    → (holding a ≡ request_all init (own ps))
      × ((request (holding a) p (id p)).1 ≡ holding (ask p a))
unfolding holding ask
request-holding p a ps e = (ap holding e, request-ask a)
  where
    request-ask : (a : Asked) → (request (holding a) p (id p)).1 ≡ holding (ask p a)
    request-ask =
        Quot.ind (λ a. hlevel PriorityState-set)
          λ ps.
            Holds-unique (asked (p ∷ ps)) (request (request_all init (own ps)) p (id p)).1
              (request_all init (own (p ∷ ps)))
              (request-Holds (asked ps) (request_all init (own ps)) p (init-Holds ps))
              (init-Holds (p ∷ ps))
