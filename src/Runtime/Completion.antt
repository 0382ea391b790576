-- ===== src/Runtime/Completion.antt =====
-- crates/tm-runtime/src/state.rs: the end of a prediction, settled, rejected or released.
pub mod Once
use twitch_miner_rust.Base.{
  Bool, true, false, not, ◌&&◌, ◌||◌, Option, none, some, List, [], ◌∷◌, ◌++◌, map, length, any,
  ◌==◌, if◌then◌else◌, is_empty, or_option,
}
use twitch_miner_rust.Base.Int.{ℤ, pos, leb_ℤ}
use twitch_miner_rust.Base.Map.{Map}
use twitch_miner_rust.Base.Map
use twitch_miner_rust.Base.Text.{Text, text_eq, str}
use twitch_miner_rust.Domain.Platform.{Platform}
use twitch_miner_rust.Domain.Streamer.{Streamer}
use twitch_miner_rust.Domain.PredictionEvent.{PredictionEvent}
use twitch_miner_rust.Domain.Prediction.Settlement.{parse_result}
use twitch_miner_rust.Runtime.Dedupe.{
  max_completed_predictions, prediction_deduction_marker, forget,
}
use twitch_miner_rust.Runtime.Settlement.{resolved_status, build_prediction_settlement_effect}
use twitch_miner_rust.Runtime.State.{RuntimeState, RuntimeEffect, find_streamer, replace_streamer}

unfoldable pub forget_marker : Text → Streamer → Streamer
forget_marker marker s = record s {
  processed_point_event_keys = forget marker s.processed_point_event_keys;
}

-- `forget_prediction_deduction_marker`.
unfoldable pub forget_prediction_deduction_marker : Text → RuntimeState → RuntimeState
unfolding forget_marker
forget_prediction_deduction_marker event_id state = record state {
  streamers = map (forget_marker (prediction_deduction_marker event_id)) state.streamers;
}

-- `event.streamer = streamer.clone()`, of the tracked streamer of the channel.
unfoldable pub refresh_streamer : List Streamer → PredictionEvent → PredictionEvent
refresh_streamer streamers event = elim (find_streamer event.streamer.channel_id streamers) [
  | none ↦ event
  | some s ↦ record event { streamer = s }
]

-- The oldest completed prediction leaves a full queue, and its marker with it.
unfoldable pub evict_completed : RuntimeState → RuntimeState
unfolding forget_prediction_deduction_marker
evict_completed state = elim state.completed_predictions [
  | [] ↦ state
  | oldest ∷ rest ↦
      forget_prediction_deduction_marker oldest.event_id
        (record state { completed_predictions = rest })
]

-- `remember_completed_prediction`.
unfoldable pub remember_completed_prediction : PredictionEvent → RuntimeState → RuntimeState
unfolding refresh_streamer evict_completed
remember_completed_prediction event state =
    let refreshed = refresh_streamer state.streamers event in
    let roomy =
      if length state.completed_predictions == max_completed_predictions
      then evict_completed state
      else state in
    record roomy { completed_predictions = roomy.completed_predictions ++ refreshed ∷ [] }

-- `stop_tracking_prediction`.
unfoldable pub stop_tracking_prediction : Text → Text → RuntimeState → RuntimeState
unfolding remember_completed_prediction
stop_tracking_prediction event_id result_type state =
    let rejected = text_eq result_type (str "REJECTED") in
    elim (Map.get event_id state.predictions) [
      | none ↦ state
      | some event ↦
          if rejected && event.bet_confirmed
          then state
          else let stopped = record state {
            predictions = Map.remove event_id state.predictions;
            pending_prediction_winners = Map.remove event_id state.pending_prediction_winners;
          } in
            if event.bet_placed || rejected
            then remember_completed_prediction (record event { result_type = result_type }) stopped
            else forget_prediction_deduction_marker event_id stopped
    ]

-- `release_claim_bonus`.
unfoldable pub release_claim_bonus : Text → Text → RuntimeState → RuntimeState
release_claim_bonus channel_id claim_id state = elim (find_streamer channel_id state.streamers) [
  | none ↦ state
  | some s ↦ record state {
    streamers =
        replace_streamer channel_id
          (record s { processed_claim_ids = forget claim_id s.processed_claim_ids })
          state.streamers;
  }
]

-- `release_prediction`.
unfoldable pub release_prediction : Text → RuntimeState → RuntimeState
unfolding forget_prediction_deduction_marker
release_prediction event_id state = forget_prediction_deduction_marker event_id (record state {
  predictions = Map.remove event_id state.predictions;
  pending_prediction_winners = Map.remove event_id state.pending_prediction_winners;
  processed_prediction_ids = forget event_id state.processed_prediction_ids;
})

-- `settle_confirmed_prediction`.
unfoldable pub settle_confirmed_prediction :
    Platform → Text → RuntimeState → RuntimeState × Option RuntimeEffect
unfolding remember_completed_prediction
settle_confirmed_prediction p event_id state = elim (Map.get event_id state.predictions) [
  | none ↦ (state, none)
  | some event ↦
      let others = Map.remove event_id state.predictions in
      let put_back = record state { predictions = Map.insert event.event_id event others } in
      if not event.bet_placed
        || leb_ℤ event.decision.amount (pos 0)
        || not (is_empty event.result_type)
      then (put_back, none)
      else let winner : Option Text =
          if text_eq event.status resolved_status
          then Map.get event_id state.pending_prediction_winners
          else none in
        elim (build_prediction_settlement_effect p event winner) [
          | none ↦ (put_back, none)
          | some (settled, effect) ↦ (
            remember_completed_prediction settled (record state {
              predictions = others;
              pending_prediction_winners = Map.remove event_id state.pending_prediction_winners;
            }),
            some effect,
          )
        ]
]

-- The write to the last completed prediction of the id: `iter_mut().rev().find(…)`.
unfoldable pub update_last :
    Text → (PredictionEvent → PredictionEvent) → List PredictionEvent → List PredictionEvent
update_last event_id f [] = []
update_last event_id f (event ∷ events) =
    let later = event ∷ update_last event_id f events in
    if any (λ e. text_eq e.event_id event_id) events
    then later
    else if text_eq event.event_id event_id
    then f event ∷ events
    else event ∷ events

unfoldable pub find_last : (PredictionEvent → Bool) → List PredictionEvent → Option PredictionEvent
find_last test [] = none
find_last test (event ∷ events) =
    or_option (find_last test events) (if test event then some event else none)

-- `refine_completed_prediction`; the result that the event would have decides whether it changes.
unfoldable pub refine_completed_prediction :
    Platform → Text → Text → ℤ → RuntimeState → RuntimeState × Bool
unfolding update_last
refine_completed_prediction p event_id result_type points_won state =
    elim (find_last (λ e. text_eq e.event_id event_id) state.completed_predictions) [
      | none ↦ (state, false)
      | some event ↦
          let changed =
            not event.bet_confirmed
            || not (text_eq event.result_type result_type)
            || not (
                text_eq event.result_string
                  (parse_result p result_type points_won event).1.result_string) in
          (
            record state {
              completed_predictions =
                  update_last event_id
                    (λ e.
                      (parse_result p result_type points_won (record e { bet_confirmed = true })).0)
                    state.completed_predictions;
            },
            changed,
          )
    ]

-- `active_prediction_channel_id`.
unfoldable pub active_prediction_channel_id : Text → RuntimeState → Option Text
active_prediction_channel_id event_id state = elim (Map.get event_id state.predictions) [
  | none ↦ none
  | some event ↦ some event.streamer.channel_id
]

-- `prediction_channel_id`.
unfoldable pub prediction_channel_id : Text → RuntimeState → Option Text
unfolding active_prediction_channel_id
prediction_channel_id event_id state =
    or_option (active_prediction_channel_id event_id state)
      (elim (find_last (λ e. text_eq e.event_id event_id) state.completed_predictions)
        as (λ _. Option Text) [ none ↦ none | some event ↦ some event.streamer.channel_id ])
