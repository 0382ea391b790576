-- ===== src/Runtime/Predictions/Placement.antt =====
-- crates/tm-runtime/src/state.rs: a stake is reserved once.
use twitch_miner_rust.Base.{
  ◌≡◌, refl, sym, ◌⊎◌, inl, inr, Bool, true, false, not, ◌||◌, some, arith, Bool-cases, is_empty,
}
use twitch_miner_rust.Base.Map.{Map}
use twitch_miner_rust.Base.Map
use twitch_miner_rust.Base.Text.{Text, text_eq_refl}
use twitch_miner_rust.Domain.PredictionEvent.{PredictionDecision, PredictionEvent}
use twitch_miner_rust.Runtime.State.{RuntimeState}
use twitch_miner_rust.Runtime.Predictions.{reserve_prediction_placement}

-- The state of a prediction as far as its bet goes.
abbrev pub is_open : PredictionEvent → Bool
is_open event = not (event.bet_placed || event.bet_confirmed || not (is_empty event.result_type))

abbrev pub reserved_with : PredictionDecision → PredictionEvent → PredictionEvent
reserved_with decision event = record event { decision = decision; bet_placed = true }

abbrev pub with_prediction : Text → PredictionEvent → RuntimeState → RuntimeState
with_prediction event_id event state = record state {
  predictions = Map.insert event_id event state.predictions;
}

pub get-insert_self :
    (event_id : Text) (event : PredictionEvent) (m : Map PredictionEvent)
    → Map.get event_id (Map.insert event_id event m) ≡ some event
get-insert_self event_id event m =
    rw (Map.get-insert event_id event_id event m, text_eq_refl event_id) refl

module _ (event_id : Text) (decision : PredictionDecision) (state : RuntimeState)
    (event : PredictionEvent) (tracked : Map.get event_id state.predictions ≡ some event) where
  reserve_refused :
      is_open event ≡ false → reserve_prediction_placement event_id decision state ≡ (state, false)
  unfolding reserve_prediction_placement
  reserve_refused e = rw (tracked, reserve_prediction_placement) (ground arith)

  pub reserve_taken :
      is_open event ≡ true
      → reserve_prediction_placement event_id decision state
        ≡ (with_prediction event_id (reserved_with decision event) state, true)
  unfolding reserve_prediction_placement
  reserve_taken e = rw (tracked, reserve_prediction_placement) (ground arith)

-- For a tracked prediction a reservation succeeds exactly where it has no bet, no confirmation and
-- no result. It then stores the decision with the bet placed, and otherwise nothing changes; a
-- second reservation, of any decision, fails and changes nothing.
pub reserve_prediction_placement_once :
    (event_id : Text) (decision again : PredictionDecision) (state : RuntimeState)
    (event : PredictionEvent)
    → Map.get event_id state.predictions ≡ some event
    → let (reserved, won) = reserve_prediction_placement event_id decision state in
      (won ≡ is_open event)
      × ((won ≡ true)
            × (Map.get event_id reserved.predictions ≡ some (reserved_with decision event))
          ⊎ (won ≡ false) × (reserved ≡ state))
      × (reserve_prediction_placement event_id again reserved ≡ (reserved, false))
reserve_prediction_placement_once event_id decision again state event h =
    elim (Bool-cases (is_open event)) [
      | inl e ↦
          let stored = get-insert_self event_id (reserved_with decision event) state.predictions in
          rw (reserve_taken event_id decision state event h e) (
            sym e,
            inl (refl, stored),
            reserve_refused event_id again
                (with_prediction event_id (reserved_with decision event) state)
                (reserved_with decision event) stored refl,
          )
      | inr e ↦
          rw (reserve_refused event_id decision state event h e)
            (sym e, inr (refl, refl), reserve_refused event_id again state event h e)
    ]
