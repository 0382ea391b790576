-- ===== src/Runtime/Predictions/Reservation.antt =====
-- A reservation that is released leaves the prediction open, and one that was confirmed stays.
use twitch_miner_rust.Base.{◌≡◌, refl, ap, Bool, true, false, not, ◌||◌, some, arith, is_empty}
use twitch_miner_rust.Base.Map
use twitch_miner_rust.Base.Text.{Text}
use twitch_miner_rust.Domain.PredictionEvent.{PredictionDecision, PredictionEvent}
use twitch_miner_rust.Runtime.State.{RuntimeState}
use twitch_miner_rust.Runtime.Predictions.{
  reserve_prediction_placement, release_prediction_placement_reservation,
}
use twitch_miner_rust.Runtime.Predictions.Placement.{
  is_open, reserved_with, with_prediction, get-insert_self, reserve_taken,
}

-- Whether a reservation may be taken back: the bet is placed, not confirmed, and has no result.
abbrev pub is_reserved : PredictionEvent → Bool
is_reserved event =
    not (not event.bet_placed || event.bet_confirmed || not (is_empty event.result_type))

abbrev pub unplaced : PredictionEvent → PredictionEvent
unplaced event = record event { bet_placed = false }

module _ (id : Text) (state : RuntimeState) (event : PredictionEvent)
    (tracked : Map.get id state.predictions ≡ some event) where
  release_taken :
      is_reserved event ≡ true
      → release_prediction_placement_reservation id state
        ≡ (with_prediction id (unplaced event) state, true)
  unfolding release_prediction_placement_reservation
  release_taken e = rw (tracked, release_prediction_placement_reservation) (ground arith)

  release_refused :
      is_reserved event ≡ false → release_prediction_placement_reservation id state ≡ (state, false)
  unfolding release_prediction_placement_reservation
  release_refused e = rw (tracked, release_prediction_placement_reservation) (ground arith)

is_reserved-reserved_with :
    (decision : PredictionDecision) (event : PredictionEvent)
    → is_open event ≡ true
    → (is_reserved (reserved_with decision event) ≡ true)
      × (is_open (unplaced (reserved_with decision event)) ≡ true)
is_reserved-reserved_with decision event h = ground arith

-- A reservation of an open prediction, released because the bet was not sent, leaves the prediction
-- with the decision and no bet, so that it can be reserved again; releasing it a second time fails and
-- changes nothing.
pub release_placement-reserve_placement :
    (id : Text) (decision again : PredictionDecision) (state : RuntimeState)
    (event : PredictionEvent)
    → Map.get id state.predictions ≡ some event
    → is_open event ≡ true
    → let reserved = (reserve_prediction_placement id decision state).0 in
      let (released, won) = release_prediction_placement_reservation id reserved in
      (won ≡ true)
      × (Map.get id released.predictions ≡ some (unplaced (reserved_with decision event)))
      × ((reserve_prediction_placement id again released).1 ≡ true)
      × (release_prediction_placement_reservation id released ≡ (released, false))
release_placement-reserve_placement id decision again state event tracked open_event =
    let (may, free) = is_reserved-reserved_with decision event open_event in
    let reserved = with_prediction id (reserved_with decision event) state in
    let stored = get-insert_self id (reserved_with decision event) state.predictions in
    let released = with_prediction id (unplaced (reserved_with decision event)) reserved in
    let left = get-insert_self id (unplaced (reserved_with decision event)) reserved.predictions in
    rw
      (
        reserve_taken id decision state event tracked open_event,
        release_taken id reserved (reserved_with decision event) stored may,
      )
      (
        refl,
        left,
        ap (λ r. r.1)
            (reserve_taken id again released (unplaced (reserved_with decision event)) left free),
        release_refused id released (unplaced (reserved_with decision event)) left refl,
      )
