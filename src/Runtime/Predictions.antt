-- ===== src/Runtime/Predictions.antt =====
-- crates/tm-runtime/src/state.rs: the placement of a bet on a prediction.
-- A prediction stands in the map of the active ones under its own id.
pub mod Placement
pub mod Recording
pub mod Reservation
use twitch_miner_rust.Base.{Bool, true, false, not, ◌&&◌, ◌||◌, none, some, if◌then◌else◌, is_empty}
use twitch_miner_rust.Base.Int.{pos, ltb_ℤ, neg_i64}
use twitch_miner_rust.Base.Map.{Map}
use twitch_miner_rust.Base.Map
use twitch_miner_rust.Base.Text.{Text}
use twitch_miner_rust.Domain.Streamer.{Streamer}
use twitch_miner_rust.Domain.PredictionEvent.{PredictionDecision, PredictionEvent}
use twitch_miner_rust.Runtime.Dedupe.{remember_prediction_deduction}
use twitch_miner_rust.Runtime.Points.{apply_pubsub_gain, prediction_reason}
use twitch_miner_rust.Runtime.State.{RuntimeState, find_streamer, replace_streamer}

abbrev pub placed_with : PredictionDecision → PredictionEvent → PredictionEvent
placed_with decision event = record event {
  decision = decision;
  bet_placed = true;
  bet_confirmed = true;
}

-- The stake is deducted once: only where the marker of the event is new.
unfoldable pub deduct_once : Text → PredictionDecision → Bool → Streamer → Streamer
deduct_once event_id decision deduct_stake s =
    let (keys, fresh) = remember_prediction_deduction s.processed_point_event_keys event_id in
    let marked : Streamer = record s { processed_point_event_keys = keys } in
    if not (deduct_stake && ltb_ℤ (pos 0) decision.amount)
    then s
    else if fresh
    then (apply_pubsub_gain (neg_i64 decision.amount) prediction_reason (pos 0) marked).0
    else marked

-- `record_prediction_placed`.
unfoldable pub record_prediction_placed :
    Text → PredictionDecision → Bool → RuntimeState → RuntimeState
unfolding deduct_once
record_prediction_placed event_id decision deduct_stake state =
    elim (Map.get event_id state.predictions) [
      | none ↦ state
      | some found ↦
          let event = placed_with decision found in
          let others = Map.remove event_id state.predictions in
          elim (find_streamer event.streamer.channel_id state.streamers) [
            | none ↦ record state { predictions = Map.insert event.event_id event others }
            | some s ↦
                let s' = deduct_once event_id decision deduct_stake s in
                record state {
                  streamers = replace_streamer event.streamer.channel_id s' state.streamers;
                  predictions = Map.insert event.event_id (record event { streamer = s' }) others;
                }
          ]
    ]

-- `restore_prediction_placement`: the marker without a deduction.
unfoldable pub restore_prediction_placement :
    Text → PredictionDecision → RuntimeState → RuntimeState
restore_prediction_placement event_id decision state = elim (Map.get event_id state.predictions) [
  | none ↦ state
  | some found ↦
      let event = placed_with decision found in
      let others = Map.remove event_id state.predictions in
      elim (find_streamer event.streamer.channel_id state.streamers) [
        | none ↦ record state { predictions = Map.insert event.event_id event others }
        | some s ↦
            let s' = record s {
              processed_point_event_keys =
                  (remember_prediction_deduction s.processed_point_event_keys event_id).0;
            } in
            record state {
              streamers = replace_streamer event.streamer.channel_id s' state.streamers;
              predictions = Map.insert event.event_id (record event { streamer = s' }) others;
            }
      ]
]

-- `reserve_prediction_placement`.
unfoldable pub reserve_prediction_placement :
    Text → PredictionDecision → RuntimeState → RuntimeState × Bool
reserve_prediction_placement event_id decision state = elim (Map.get event_id state.predictions) [
  | none ↦ (state, false)
  | some event ↦
      if event.bet_placed || event.bet_confirmed || not (is_empty event.result_type)
      then (state, false)
      else (
        record state {
          predictions =
              Map.insert event_id (record event { decision = decision; bet_placed = true })
                state.predictions;
        },
        true,
      )
]

-- `release_prediction_placement_reservation`.
unfoldable pub release_prediction_placement_reservation : Text → RuntimeState → RuntimeState × Bool
release_prediction_placement_reservation event_id state =
    elim (Map.get event_id state.predictions) [
      | none ↦ (state, false)
      | some event ↦
          if not event.bet_placed || event.bet_confirmed || not (is_empty event.result_type)
          then (state, false)
          else (
            record state {
              predictions =
                  Map.insert event_id (record event { bet_placed = false }) state.predictions;
            },
            true,
          )
    ]

-- `mark_prediction_placement_unknown`.
unfoldable pub mark_prediction_placement_unknown :
    Text → PredictionDecision → RuntimeState → RuntimeState
mark_prediction_placement_unknown event_id decision state =
    elim (Map.get event_id state.predictions) [
      | none ↦ state
      | some event ↦ record state {
        predictions =
            Map.insert event_id (record event { decision = decision; bet_placed = true })
              state.predictions;
      }
    ]
