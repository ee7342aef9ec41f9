-- ===== src/Alert/Tests.antt =====
-- core/alert.c on the readings of tests/test_alert.c, with tenths of a degree for the doubles, and the
-- theorems at concrete readings.
use libhwsense.Prelude.{
  ◌+◌, ◌≤◌, ◌≡◌, refl, true, false, not, Option, none, some, [], ◌∷◌, All, replicate, length, map,
  if◌then◌else◌, arith,
}
use libhwsense.Prelude.Int.{ℤ, pos, negsuc, ◌-ℤ◌, ltb_ℤ}
use libhwsense.Alert.{
  Doubles, ok, breached, no_event, breach, recovered, Alert, init, react, step, check_temp_alert,
  poll,
}
use libhwsense.Alert.Edges.{
  Alternates, breaches, fired, InBand, poll-Alternates, poll_counts, poll-InBand, poll_steady,
  check_temp_alert_lem,
}

abbrev tenths : Doubles
tenths = record {
  Double = ℤ;
  zero = pos 0;
  gt = λ a b. ltb_ℤ b a;
  le = λ a b. not (ltb_ℤ b a);
  sub = ◌-ℤ◌;
}

-- 90 degrees with a hysteresis of 5
abbrev alert : Alert ℤ
alert = record {
  threshold = pos 900;
  hysteresis = pos 50;
  last_value = pos 0;
  state = ok;
  breach_count = 0;
}

abbrev hot : Alert ℤ
hot = record {
  threshold = pos 900;
  hysteresis = pos 50;
  last_value = pos 950;
  state = breached;
  breach_count = 1;
}

init_clamps : (init tenths (pos 900) (negsuc 49)).hysteresis ≡ pos 0
unfolding init ◌-ℤ◌
init_clamps = refl

hysteresis_run :
    (poll tenths
      (init tenths (pos 900) (pos 50))
      (pos 900 ∷ pos 950 ∷ pos 960 ∷ pos 880 ∷ pos 850 ∷ [])).1
    ≡ no_event ∷ breach ∷ no_event ∷ no_event ∷ recovered ∷ []
unfolding init poll step react ◌-ℤ◌
hysteresis_run = refl

poll-Alternates_example :
    let (a, es) = poll tenths alert (pos 950 ∷ pos 850 ∷ []) in Alternates ok es a.state
poll-Alternates_example = poll-Alternates tenths alert (pos 950 ∷ pos 850 ∷ [])

poll_counts_run :
    let (a, es) = poll tenths alert (pos 950 ∷ pos 850 ∷ []) in a.breach_count ≡ 0 + breaches es
poll_counts_run = poll_counts tenths alert (pos 950 ∷ pos 850 ∷ [])

band : All (InBand tenths hot) (pos 880 ∷ pos 870 ∷ [])
unfolding ◌-ℤ◌
band = ((refl, refl), ((refl, refl), tt))

poll-InBand_run :
    ((poll tenths hot (pos 880 ∷ pos 870 ∷ [])).1 ≡ replicate 2 no_event)
    × ((poll tenths hot (pos 880 ∷ pos 870 ∷ [])).0.state ≡ breached)
    × ((poll tenths hot (pos 880 ∷ pos 870 ∷ [])).0.breach_count ≡ 1)
poll-InBand_run = poll-InBand tenths hot (pos 880 ∷ pos 870 ∷ []) band

not_both_at_950 :
    not (ltb_ℤ (pos 900 -ℤ pos 50) (pos 950)) ≡ true → ltb_ℤ (pos 900) (pos 950) ≡ false
unfolding ◌-ℤ◌
not_both_at_950 h = ground arith

poll_steady_run : length (fired (poll tenths alert (replicate 3 (pos 950))).1) ≤ 1
poll_steady_run = poll_steady tenths 3 alert (pos 950) not_both_at_950

check_temp_alert_lem_run :
    let (e, a', calls) = check_temp_alert tenths true (some (pos 950)) (some alert) true in
    (◌≡◌ {A = Option ℤ} (some (pos 950)) none → (e ≡ no_event) × (a' ≡ some alert) × (calls ≡ []))
    × ((v : ℤ)
        → some (pos 950) ≡ some v
        → (e ≡ (step tenths alert v).1)
          × (a' ≡ some (step tenths alert v).0)
          × (calls ≡ (if true then map (λ x. (x, v)) (fired (e ∷ [])) else [])))
check_temp_alert_lem_run = check_temp_alert_lem tenths (some (pos 950)) alert true
