-- ===== src/Alert.antt =====
-- core/alert.c: threshold alerts over sensor readings.
-- A double is a value of the type that `Doubles` takes, with the comparisons and the subtraction of
-- the source; the laws of IEEE arithmetic that a theorem needs are its hypotheses.
pub mod Edges
mod Tests
use libhwsense.Prelude.{ℕ, ◌+◌, Bool, true, false, Option, none, some, List, [], ◌∷◌, if◌then◌else◌}

pub record Doubles : Type 1 where
  pub Double : Type 0
  pub zero : Double
  pub gt : Double → Double → Bool
  pub le : Double → Double → Bool
  pub sub : Double → Double → Double

pub data AlertState : Type 0 where
  ok breached : AlertState

pub data Event : Type 0 where
  no_event breach recovered : Event

-- `hwsense_alert_t`
pub record Alert (D : Type 0) : Type 0 where
  pub threshold : D
  pub hysteresis : D
  pub last_value : D
  pub state : AlertState
  pub breach_count : ℕ

module _ (d : Doubles) where
  open d use {Double, zero, gt, le, sub}

  -- for a pointer that is not null; on a null pointer the function returns at once
  unfoldable pub init : Double → Double → Alert Double
  init threshold hysteresis = record {
    threshold = threshold;
    hysteresis = if gt hysteresis zero then hysteresis else zero;
    last_value = zero;
    state = ok;
    breach_count = 0;
  }

  -- what a reading does in each state
  unfoldable pub react : AlertState → Alert Double → Double → Alert Double × Event
  react ok a value =
      if gt value a.threshold
      then (record a { state = breached; breach_count = a.breach_count + 1 }, breach)
      else (a, no_event)
  react breached a value =
      if le value (sub a.threshold a.hysteresis)
      then (record a { state = ok }, recovered)
      else (a, no_event)

  unfoldable pub step : Alert Double → Double → Alert Double × Event
  step a value = react a.state (record a { last_value = value }) value

  -- `none` is the null pointer
  unfoldable pub alert_step : Option (Alert Double) → Double → Option (Alert Double) × Event
  alert_step none value = (none, no_event)
  alert_step (some a) value = let (a', e) = step a value in (some a', e)

  unfoldable pub alert_state : Option (Alert Double) → AlertState
  alert_state none = ok
  alert_state (some a) = a.state

  -- the calls of the callback: one for an event, if there is a callback
  unfoldable pub notify : Bool → Event → Double → List (Event × Double)
  notify callback no_event value = []
  notify callback e value = if callback then (e, value) ∷ [] else []

  -- The arguments say whether the context is there, what reading the package temperature gives (`none`
  -- if it fails), the alert, and whether there is a callback. The last result lists its calls.
  unfoldable pub check_temp_alert :
      Bool
      → Option Double
      → Option (Alert Double)
      → Bool
      → Event × Option (Alert Double) × List (Event × Double)
  check_temp_alert false temp a callback = (no_event, a, [])
  check_temp_alert true temp none callback = (no_event, none, [])
  check_temp_alert true none (some a) callback = (no_event, some a, [])
  check_temp_alert true (some celsius) (some a) callback =
      let (a', e) = step a celsius in (e, some a', notify callback e celsius)

  -- a caller that polls: the alert at the end, and the events in order
  unfoldable pub poll : Alert Double → List Double → Alert Double × List Event
  poll a [] = (a, [])
  poll a (v ∷ vs) = let (a', e) = step a v in let (a'', es) = poll a' vs in (a'', e ∷ es)
