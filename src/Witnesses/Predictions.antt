-- ===== src/Witnesses/Predictions.antt =====
-- Concrete runs of the life of a prediction: created, bet on, confirmed, settled.
use twitch_miner_rust.Base.{
  ◌≡◌, refl, ◌⊎◌, true, false, some, none, [], ◌∷◌, ◌++◌, List, Option, if◌then◌else◌, ltb, arith,
}
use twitch_miner_rust.Base.Int.{pos, neg_i64, negsuc}
use twitch_miner_rust.Base.Map
use twitch_miner_rust.Base.Text.{str, text_eq, contains}
use twitch_miner_rust.Domain.Json.{Value, object, field, end, string, get_key, get_field, as_str}
use twitch_miner_rust.Domain.Streamer.{Streamer}
use twitch_miner_rust.Domain.PredictionEvent.{PredictionEvent}
use twitch_miner_rust.Domain.Events.{claim_available}
use twitch_miner_rust.Runtime.Dedupe.{
  protected_count, prediction_deduction_marker_exists, max_protected_prediction_markers,
}
use twitch_miner_rust.Runtime.State.{ConfigReload, find_streamer}
use twitch_miner_rust.Runtime.Settlement.{settled_effect}
use twitch_miner_rust.Runtime.Points.{new_balance, prediction_reason}
use twitch_miner_rust.Runtime.Completion.{refresh_streamer}
use twitch_miner_rust.Runtime.Predictions.{
  deduct_once, release_prediction_placement_reservation, reserve_prediction_placement,
  record_prediction_placed,
}
use twitch_miner_rust.Runtime.Predictions.Placement.{
  is_open, reserved_with, reserve_prediction_placement_once,
}
use twitch_miner_rust.Runtime.Predictions.Recording.{
  is_due, recorded_with, record_prediction_placed_once,
}
use twitch_miner_rust.Runtime.Predictions.Reservation.{
  unplaced, release_placement-reserve_placement,
}
use twitch_miner_rust.Runtime.Events.{account_points}
use twitch_miner_rust.Runtime.Events.Accounting.{
  account_points-deduct_once, deduct_once-account_points,
}
use twitch_miner_rust.Runtime.PredictionEvents.{
  on_event_created, on_prediction_result, result_type_of,
}
use twitch_miner_rust.Runtime.PredictionEvents.Lifecycle.{on_event_created_keeps}
use twitch_miner_rust.Runtime.PredictionEvents.Bounded.{IsBounded}
use twitch_miner_rust.Runtime.PredictionEvents.Results.{ended, is_ending, on_prediction_result_once}
use twitch_miner_rust.Runtime.Reducer.Bounded.{replay, replay-IsBounded}
use twitch_miner_rust.Runtime.Reload.{apply_config_reload}
use twitch_miner_rust.Runtime.Reload.Unsettled.{tracks}
use twitch_miner_rust.Runtime.Reload.Stakes.{Holds, apply_config_reload-Holds}
use twitch_miner_rust.Witnesses.{
  ascii_platform, channel, rich_streamer, blue_decision, event, open_prediction, placed_prediction,
  empty_state, open_state, placed_state,
}

open_active : Map.get event open_state.predictions ≡ some open_prediction
unfolding Map.get text_eq
open_active = refl

placed_active : Map.get event placed_state.predictions ≡ some placed_prediction
unfolding Map.get text_eq
placed_active = refl

alice_tracked : find_streamer channel placed_state.streamers ≡ some rich_streamer
unfolding find_streamer text_eq
alice_tracked = refl

reserve_prediction_placement_once_example :
    let (reserved, won) = reserve_prediction_placement event blue_decision open_state in
    (won ≡ is_open open_prediction)
    × ((won ≡ true)
          × (Map.get event reserved.predictions
              ≡ some (reserved_with blue_decision open_prediction))
        ⊎ (won ≡ false) × (reserved ≡ open_state))
    × (reserve_prediction_placement event blue_decision reserved ≡ (reserved, false))
reserve_prediction_placement_once_example =
    reserve_prediction_placement_once event blue_decision blue_decision open_state open_prediction
      open_active

record_prediction_placed_once_example :
    let recorded = record_prediction_placed event blue_decision true placed_state in
    let again = record_prediction_placed event blue_decision true recorded in
    (s' : Streamer) × (Map.get event recorded.predictions
      ≡ some (recorded_with event blue_decision true s' placed_prediction))
    × (find_streamer channel recorded.streamers ≡ some s')
    × (find_streamer channel again.streamers ≡ some s')
    × (s'.channel_points ≡ (
        if is_due event blue_decision true rich_streamer
        then new_balance (pos 1000) (neg_i64 (pos 50)) (pos 0)
        else pos 1000))
record_prediction_placed_once_example =
    record_prediction_placed_once event blue_decision true placed_state placed_prediction
      rich_streamer placed_active refl alice_tracked

stake_due : is_due event blue_decision true rich_streamer ≡ true
unfolding prediction_deduction_marker_exists protected_count contains
stake_due = refl

account_points-deduct_once_example :
    let s' = deduct_once event blue_decision true rich_streamer in
    let (after, counted) =
      account_points (some event) (negsuc 49) prediction_reason (pos 950) 10 (str "source:1") s' in
    (counted ≡ false) × (after.channel_points ≡ s'.channel_points) × (after.history ≡ s'.history)
account_points-deduct_once_example =
    account_points-deduct_once event prediction_reason (str "source:1") (negsuc 49) (pos 950) 10
      blue_decision true rich_streamer stake_due

new_key : contains rich_streamer.processed_point_event_keys (str "source:1") ≡ false
unfolding contains
new_key = refl

room_for_marker :
    ltb (protected_count rich_streamer.processed_point_event_keys) max_protected_prediction_markers
    ≡ true
unfolding protected_count
room_for_marker = refl

deduct_once-account_points_example :
    let (after, counted) =
      account_points
        (some event)
        (negsuc 49)
        prediction_reason
        (pos 950)
        10
        (str "source:1")
        rich_streamer in
    deduct_once event blue_decision true after ≡ after
deduct_once-account_points_example =
    deduct_once-account_points event prediction_reason (str "source:1") (negsuc 49) (pos 950) 10
      blue_decision true rich_streamer new_key room_for_marker

abbrev other_prediction : PredictionEvent
other_prediction = record open_prediction { event_id = str "e2" }

placed_keyed : Map.is_keyed placed_state.predictions ≡ true
unfolding Map.is_keyed Map.get
placed_keyed = refl

other_id : text_eq (str "e2") event ≡ false
unfolding text_eq
other_id = refl

on_event_created_keeps_example :
    Map.get event (on_event_created other_prediction placed_state).0.predictions
    ≡ some placed_prediction
on_event_created_keeps_example =
    on_event_created_keeps other_prediction placed_state event placed_prediction placed_keyed
      other_id placed_active refl

placed_state-IsBounded : IsBounded placed_state
placed_state-IsBounded = record {
  active = omega arith;
  keyed = placed_keyed;
  completed = omega arith;
}

replay-IsBounded_example :
    IsBounded (replay ascii_platform ((claim_available channel (str "claim"), 10) ∷ []) empty_state)
replay-IsBounded_example =
    replay-IsBounded ascii_platform ((claim_available channel (str "claim"), 10) ∷ []) empty_state
      refl refl

abbrev win_result : Option Value
win_result = some (object (field (str "type") (string (str "WIN")) end))

wins : is_ending (result_type_of win_result) ≡ true
unfolding result_type_of get_key get_field as_str text_eq
wins = refl

on_prediction_result_once_example :
    let (after, outcome) = on_prediction_result ascii_platform event win_result placed_state in
    let (settled, settlement) = ended ascii_platform win_result placed_prediction in
    (outcome.effects ≡ settled_effect (record settled { event_id = event }) settlement ∷ [])
    × (Map.get event after.predictions ≡ none)
    × (Map.get event after.pending_prediction_winners ≡ none)
    × ((front : List PredictionEvent) × (after.completed_predictions
          ≡ front ++ refresh_streamer placed_state.streamers settled ∷ []))
    × (settled.result_type ≡ result_type_of win_result)
    × ((on_prediction_result ascii_platform event win_result after).1.effects ≡ [])
on_prediction_result_once_example =
    on_prediction_result_once ascii_platform event win_result win_result placed_state
      placed_prediction placed_active (omega arith) wins

abbrev removing_reload : ConfigReload
removing_reload = record {
  watch_priorities = [];
  game_priority = [];
  game_exclusions = [];
  follower_mode = false;
  add = [];
  remove = channel ∷ [];
  settings = [];
}

channel_held : tracks channel placed_state.streamers ≡ true
unfolding text_eq
channel_held = refl

apply_config_reload-Holds_example :
    Holds event placed_prediction (apply_config_reload removing_reload placed_state).0
apply_config_reload-Holds_example =
    apply_config_reload-Holds removing_reload event placed_prediction placed_state refl refl
      (record { keyed = placed_keyed; active = placed_active; channel = channel_held })

open_prediction-is_open : is_open open_prediction ≡ true
open_prediction-is_open = refl

release_placement-reserve_placement_example :
    let reserved = (reserve_prediction_placement event blue_decision open_state).0 in
    let (released, won) = release_prediction_placement_reservation event reserved in
    (won ≡ true)
    × (Map.get event released.predictions
        ≡ some (unplaced (reserved_with blue_decision open_prediction)))
    × ((reserve_prediction_placement event blue_decision released).1 ≡ true)
    × (release_prediction_placement_reservation event released ≡ (released, false))
release_placement-reserve_placement_example =
    release_placement-reserve_placement event blue_decision blue_decision open_state open_prediction
      open_active open_prediction-is_open
