-- ===== src/Alert/Edges.antt =====
-- core/alert.c: the events of a polled alert, and its hysteresis band.
use libhwsense.Prelude.{
  ℕ, zero, suc, ◌+◌, ◌≤◌, ◌≡◌, refl, ap, inl, inr, Bool, true, false, Option, none, some, List, [],
  ◌∷◌, All, Bool-cases, replicate, length, map, ◌↔◌, if◌then◌else◌, arith,
}
use libhwsense.Alert.{
  Doubles, AlertState, ok, breached, Event, no_event, breach, recovered, Alert, react, step, notify,
  check_temp_alert, poll,
}

-- the events that are not `no_event`
abbrev pub fired : List Event → List Event
fired [] = []
fired (no_event ∷ es) = fired es
fired (breach ∷ es) = breach ∷ fired es
fired (recovered ∷ es) = recovered ∷ fired es

-- The events alternate: a breach can come only in state `ok`, and leads to `breached`, a recovery only
-- in state `breached`, and leads to `ok`; the last state is `t`.
abbrev pub Alternates : AlertState → List Event → AlertState → Type 0
Alternates s [] t = s ≡ t
Alternates s (no_event ∷ es) t = Alternates s es t
Alternates ok (breach ∷ es) t = Alternates breached es t
Alternates ok (recovered ∷ es) t = ⊥
Alternates breached (breach ∷ es) t = ⊥
Alternates breached (recovered ∷ es) t = Alternates ok es t

abbrev pub breaches : List Event → ℕ
breaches [] = 0
breaches (breach ∷ es) = suc (breaches es)
breaches (no_event ∷ es) = breaches es
breaches (recovered ∷ es) = breaches es

module _ (d : Doubles) where
  open d use {Double, gt, le, sub}

  react-Alternates :
      (s : AlertState) (a : Alert Double) (v : Double) (es : List Event) (t : AlertState)
      → a.state ≡ s
      → Alternates (react d s a v).0.state es t
      → Alternates s ((react d s a v).1 ∷ es) t
  unfolding react
  react-Alternates ok a v es t e = elim (Bool-cases (gt v a.threshold)) [
    | inl b ↦ rw b (λ h. h)
    | inr b ↦ rw (b, e) (λ h. h)
  ]
  react-Alternates breached a v es t e = elim (Bool-cases (le v (sub a.threshold a.hysteresis))) [
    | inl b ↦ rw b (λ h. h)
    | inr b ↦ rw (b, e) (λ h. h)
  ]

  react_counts :
      (s : AlertState) (a : Alert Double) (v : Double)
      → (react d s a v).0.breach_count ≡ a.breach_count + breaches ((react d s a v).1 ∷ [])
  unfolding react
  react_counts ok a v = ground arith
  react_counts breached a v = ground arith

  -- Whatever the readings are, the events of a polled alert alternate between breach and recovery, from
  -- the alert's state to its last state.
  pub poll-Alternates :
      (a : Alert Double) (vs : List Double)
      → Alternates a.state (poll d a vs).1 (poll d a vs).0.state
  unfolding poll step
  poll-Alternates a [] = refl
  poll-Alternates a (v ∷ vs) =
      react-Alternates a.state (record a { last_value = v }) v _ _ refl
        (poll-Alternates (step d a v).0 vs)

  breaches-cons :
      (e : Event) (es : List Event) → breaches (e ∷ es) ≡ breaches (e ∷ []) + breaches es
  breaches-cons no_event es = omega arith
  breaches-cons breach es = omega arith
  breaches-cons recovered es = omega arith

  -- `breach_count` grows by the number of breaches that the readings fire.
  pub poll_counts :
      (a : Alert Double) (vs : List Double)
      → (poll d a vs).0.breach_count ≡ a.breach_count + breaches (poll d a vs).1
  unfolding poll step
  poll_counts a [] = omega arith
  poll_counts a (v ∷ vs) = omega (
    arith,
    poll_counts (step d a v).0 vs,
    react_counts a.state (record a { last_value = v }) v,
    breaches-cons (step d a v).1 (poll d (step d a v).0 vs).1,
  )

  -- a reading inside the band: not above the threshold, and not down by the hysteresis
  abbrev pub InBand : Alert Double → Double → Type 0
  InBand a v = (gt v a.threshold ≡ false) × (le v (sub a.threshold a.hysteresis) ≡ false)

  react-InBand :
      (s : AlertState) (a : Alert Double) (v : Double) → InBand a v → react d s a v ≡ (a, no_event)
  unfolding react
  react-InBand ok a v (above, below) = rw above
  react-InBand breached a v (above, below) = rw below

  -- Readings that stay between the recovery level and the threshold fire nothing, and change neither
  -- the state nor the count, in whatever state the alert is.
  pub poll-InBand :
      (a : Alert Double) (vs : List Double)
      → All (InBand a) vs
      → ((poll d a vs).1 ≡ replicate (length vs) no_event)
        × ((poll d a vs).0.state ≡ a.state)
        × ((poll d a vs).0.breach_count ≡ a.breach_count)
  unfolding poll step
  poll-InBand a [] h = (refl, refl, refl)
  poll-InBand a (v ∷ vs) (b, h) =
      let (es, s, n) = poll-InBand (record a { last_value = v }) vs h in
      rw (react-InBand a.state (record a { last_value = v }) v b) (ap (λ l. no_event ∷ l) es, s, n)

  steady_ok :
      (n : ℕ) (a : Alert Double) (v : Double)
      → a.state ≡ ok
      → gt v a.threshold ≡ false
      → fired (poll d a (replicate n v)).1 ≡ []
  unfolding poll step react
  steady_ok zero a v s h = refl
  steady_ok (suc n) a v s h =
      rw (s, react, h) (steady_ok n (record a { last_value = v; state = ok }) v refl h)

  steady_breached :
      (n : ℕ) (a : Alert Double) (v : Double)
      → a.state ≡ breached
      → le v (sub a.threshold a.hysteresis) ≡ false
      → fired (poll d a (replicate n v)).1 ≡ []
  unfolding poll step react
  steady_breached zero a v s h = refl
  steady_breached (suc n) a v s h =
      rw (s, react, h) (steady_breached n (record a { last_value = v; state = breached }) v refl h)

  not_both :
      (t h v : Double)
      → (le v (sub t h) ≡ true → gt v t ≡ false)
      → gt v t ≡ true
      → le v (sub t h) ≡ false
  not_both t h v law above = elim (Bool-cases (le v (sub t h))) [ inl e ↦ cc (law e) | inr e ↦ e ]

  steady_from :
      (s : AlertState) (n : ℕ) (a : Alert Double) (v : Double)
      → (le v (sub a.threshold a.hysteresis) ≡ true → gt v a.threshold ≡ false)
      → a.state ≡ s
      → length (fired (poll d a (replicate n v)).1) ≤ 1
  unfolding poll step react
  steady_from s zero a v law e = omega arith
  steady_from ok (suc n) a v law e = elim (Bool-cases (gt v a.threshold)) [
    | inl b ↦
        rw
          (
            e,
            react,
            b,
            steady_breached n
                (record a { last_value = v; state = breached; breach_count = a.breach_count + 1 }) v
                refl (not_both a.threshold a.hysteresis v law b),
          )
          (omega arith)
    | inr b ↦ rw (steady_ok (suc n) a v e b) (omega arith)
  ]
  steady_from breached (suc n) a v law e = elim (Bool-cases (le v (sub a.threshold a.hysteresis))) [
    | inl b ↦
        rw (e, react, b, steady_ok n (record a { last_value = v; state = ok }) v refl (law b))
          (omega arith)
    | inr b ↦ rw (steady_breached (suc n) a v e b) (omega arith)
  ]

  -- A steady reading fires at most one event, however often it is polled, from whatever state: given
  -- that no reading is both above the threshold and down by the hysteresis.
  pub poll_steady :
      (n : ℕ) (a : Alert Double) (v : Double)
      → (le v (sub a.threshold a.hysteresis) ≡ true → gt v a.threshold ≡ false)
      → length (fired (poll d a (replicate n v)).1) ≤ 1
  poll_steady n a v law = steady_from a.state n a v law refl

  react_edge :
      (s : AlertState) (a : Alert Double) (v : Double)
      → a.state ≡ s
      → ((react d s a v).1 ≡ no_event) ↔ ((react d s a v).0.state ≡ s)
  unfolding react
  react_edge ok a v e = elim (Bool-cases (gt v a.threshold)) [
    | inl b ↦ rw b (λ h. absurd (cc), λ h. absurd (cc))
    | inr b ↦ rw b (λ h. e, λ h. refl)
  ]
  react_edge breached a v e = elim (Bool-cases (le v (sub a.threshold a.hysteresis))) [
    | inl b ↦ rw b (λ h. absurd (cc), λ h. absurd (cc))
    | inr b ↦ rw b (λ h. e, λ h. refl)
  ]

  -- A step returns an event exactly when it changes the state of the alert.
  pub step-eq-no_event_iff :
      (a : Alert Double) (v : Double)
      → ((step d a v).1 ≡ no_event) ↔ ((step d a v).0.state ≡ a.state)
  unfolding step
  step-eq-no_event_iff a v = react_edge a.state (record a { last_value = v }) v refl

  notify_lem :
      (callback : Bool) (e : Event) (v : Double)
      → notify d callback e v ≡ (if callback then map (λ x. (x, v)) (fired (e ∷ [])) else [])
  unfolding notify
  notify_lem true no_event v = refl
  notify_lem true breach v = refl
  notify_lem true recovered v = refl
  notify_lem false no_event v = refl
  notify_lem false breach v = refl
  notify_lem false recovered v = refl

  -- The temperature check: a failed read leaves the alert as it is and fires nothing. Otherwise the
  -- event is that of one step, and the callback, if there is one, is called with the event and the
  -- reading exactly when the state changes.
  pub check_temp_alert_lem :
      (temp : Option Double) (a : Alert Double) (callback : Bool)
      → let (e, a', calls) = check_temp_alert d true temp (some a) callback in
        (temp ≡ none → (e ≡ no_event) × (a' ≡ some a) × (calls ≡ []))
        × ((v : Double)
            → temp ≡ some v
            → (e ≡ (step d a v).1)
              × (a' ≡ some (step d a v).0)
              × (calls ≡ (if callback then map (λ x. (x, v)) (fired (e ∷ [])) else [])))
  unfolding check_temp_alert
  check_temp_alert_lem none a callback = (λ h. (refl, refl, refl), λ v h. absurd (cc))
  check_temp_alert_lem (some c) a callback = (
    λ h. absurd (cc),
    λ v h. let c-eq-v : c ≡ v = cc in rw c-eq-v (refl, refl, notify_lem callback (step d a v).1 v),
  )
