-- ===== src/Runtime/PredictionEvents.antt =====
-- crates/tm-runtime/src/state.rs: `apply_event_with_outcome`, the handlers of prediction events.
pub mod Lifecycle
pub mod Bounded
pub mod Results
pub mod Updates
use Prim.Native.Nat.{min, max, Ordering, compare}
use twitch_miner_rust.Base.{
  map_option, ℕ, ◌*◌, Bool, true, false, not, ◌&&◌, ◌||◌, Option, none, some, List, [], ◌∷◌, length,
  if◌then◌else◌, is_empty, is_some, is_some_and, unwrap_or, leb,
}
use twitch_miner_rust.Base.Int.{ℤ, pos, leb_ℤ}
use twitch_miner_rust.Base.Map.{Map}
use twitch_miner_rust.Base.Map
use twitch_miner_rust.Base.Sort.{then_with}
use twitch_miner_rust.Base.Text.{Text, text_eq, text_cmp, str, contains}
use twitch_miner_rust.Domain.Platform.{Platform}
use twitch_miner_rust.Domain.Json.{Value, get_key, as_str, as_i64}
use twitch_miner_rust.Domain.Settings.{StreamerSettings}
use twitch_miner_rust.Domain.Streamer.{can_earn_channel_points}
use twitch_miner_rust.Domain.PredictionEvent.{PredictionEvent, outcomes_eq}
use twitch_miner_rust.Domain.Prediction.Settlement.{parse_result, win_type, lose_type, refund_type}
use twitch_miner_rust.Domain.Events.{updated}
use twitch_miner_rust.Runtime.Dedupe.{
  max_active_predictions, max_active_predictions_per_channel, remember_prediction_id,
}
use twitch_miner_rust.Runtime.Completion.{
  remember_completed_prediction, settle_confirmed_prediction, refine_completed_prediction,
}
use twitch_miner_rust.Runtime.Settlement.{
  resolved_status, prediction_status_is_resolved, build_prediction_settlement_effect,
  settled_effect,
}
use twitch_miner_rust.Runtime.State.{
  RuntimeState, RuntimeEffect, EventApplication, unchanged, changed, changed_if,
  evaluate_prediction, find_streamer,
}

-- `max_active_prediction_count`: eight for each channel, and 256 in all. The product is of the
-- length of a vector in memory and does not saturate below the limit.
unfoldable pub max_active_prediction_count : RuntimeState → ℕ
max_active_prediction_count state =
    min (max (length state.streamers) 1 * max_active_predictions_per_channel) max_active_predictions

unfoldable pub is_evictable : PredictionEvent → Bool
is_evictable e = not e.bet_placed && not e.bet_confirmed && is_empty e.result_type

older : PredictionEvent → PredictionEvent → Ordering
older left right =
    then_with (compare left.created_at right.created_at) (text_cmp left.event_id right.event_id)

-- `min_by`: the first of the least.
unfoldable pub pick_older :
    Text × PredictionEvent → Option (Text × PredictionEvent) → Option (Text × PredictionEvent)
unfolding older
pick_older entry none = some entry
pick_older entry (some best) = elim (older entry.1 best.1) [
  | Ordering.gt ↦ some best
  | _ ↦ some entry
]

unfoldable pub oldest_evictable : Map PredictionEvent → Option (Text × PredictionEvent)
unfolding is_evictable pick_older
oldest_evictable [] = none
oldest_evictable (entry ∷ entries) =
    let rest = oldest_evictable entries in
    if is_evictable entry.1 then pick_older entry rest else rest

-- `oldest_evictable_prediction_id`.
unfoldable pub oldest_evictable_prediction_id : RuntimeState → Option Text
unfolding oldest_evictable
oldest_evictable_prediction_id state = map_option (λ e. e.0) (oldest_evictable state.predictions)

-- The settings that are current: those of the tracked channel, and else those of the transport.
current_settings : PredictionEvent → RuntimeState → StreamerSettings
current_settings event state =
    unwrap_or
      (map_option (λ s. s.settings) (find_streamer event.streamer.channel_id state.streamers))
      event.streamer.settings

-- Whether a new prediction is taken up.
unfoldable pub admits : PredictionEvent → RuntimeState → Bool
unfolding current_settings
admits event state =
    not (is_empty event.event_id)
    && text_eq event.status (str "ACTIVE")
    && (current_settings event state).make_predictions
    && is_some_and (find_streamer event.streamer.channel_id state.streamers) can_earn_channel_points
    && not (contains state.processed_prediction_ids event.event_id)

-- The end of the creation: the prediction is remembered, and tracked with the current settings.
unfoldable pub track : PredictionEvent → RuntimeState → RuntimeState × EventApplication
unfolding current_settings
track event state =
    let (ids, fresh) = remember_prediction_id state.processed_prediction_ids event.event_id in
    let tracked = record event {
      streamer = record event.streamer { settings = current_settings event state };
    } in
    if fresh
    then (
      record state {
        processed_prediction_ids = ids;
        predictions = Map.insert event.event_id tracked state.predictions;
      },
      changed (evaluate_prediction event.event_id ∷ []),
    )
    else (state, unchanged)

unfoldable pub on_event_created : PredictionEvent → RuntimeState → RuntimeState × EventApplication
unfolding admits track max_active_prediction_count oldest_evictable_prediction_id
on_event_created event state =
    if not (admits event state)
    then (state, unchanged)
    else if leb (max_active_prediction_count state) (length state.predictions)
    then elim (oldest_evictable_prediction_id state) [
      | none ↦ (
        record state {
          processed_prediction_ids =
              (remember_prediction_id state.processed_prediction_ids event.event_id).0;
        },
        unchanged,
      )
      | some evict_id ↦
          track event (record state { predictions = Map.remove evict_id state.predictions })
    ]
    else track event state

-- The winner that is kept for a bet which is not confirmed yet, and whether that is a change.
unfoldable pub note_winner : Text → PredictionEvent → Option Text → Map Text → Map Text × Bool
note_winner event_id existing winner pending =
    if existing.bet_placed && not existing.bet_confirmed && text_eq existing.status resolved_status
    then elim winner as (λ _. Map Text × Bool) [
      | none ↦ (pending, false)
      | some id ↦ (
        Map.insert event_id id pending,
        not (is_some_and (Map.get event_id pending) (λ previous. text_eq previous id)),
      )
    ]
    else if not (prediction_status_is_resolved existing.status)
    then (Map.remove event_id pending, is_some (Map.get event_id pending))
    else (pending, false)

-- The status and the outcomes of an update, and whether they are a change.
unfoldable pub merge_update : PredictionEvent → PredictionEvent → PredictionEvent × Bool
merge_update event existing = (
  record existing {
    status = event.status;
    outcomes = if is_empty event.outcomes then existing.outcomes else event.outcomes;
  },
  not (text_eq existing.status event.status)
      || (not (is_empty event.outcomes) && not (outcomes_eq existing.outcomes event.outcomes)),
)

unfoldable pub on_event_updated :
    Platform → PredictionEvent → Option Text → RuntimeState → RuntimeState × EventApplication
unfolding note_winner merge_update
on_event_updated p event winner state = elim (Map.get event.event_id state.predictions) [
  | none ↦ (state, unchanged)
  | some found ↦
      let (existing, merged) = merge_update event found in
      let (pending, noted) =
        note_winner event.event_id existing winner state.pending_prediction_winners in
      let updated = record state {
        predictions = Map.insert event.event_id existing state.predictions;
        pending_prediction_winners = pending;
      } in
      if not existing.bet_placed
        || not existing.bet_confirmed
        || leb_ℤ existing.decision.amount (pos 0)
        || not (is_empty existing.result_type)
        || not (prediction_status_is_resolved existing.status)
      then (updated, changed_if (merged || noted))
      else elim (build_prediction_settlement_effect p existing winner) [
        | none ↦ (updated, changed_if (merged || noted))
        | some (settled, effect) ↦ (
          remember_completed_prediction settled
              (record updated { predictions = Map.remove event.event_id updated.predictions }),
          changed (effect ∷ []),
        )
      ]
]

unfoldable pub on_prediction_made : Platform → Text → RuntimeState → RuntimeState × EventApplication
on_prediction_made p event_id state = elim (Map.get event_id state.predictions) [
  | none ↦ (state, unchanged)
  | some event ↦
      if event.bet_confirmed
      then (state, unchanged)
      else let confirmed = record state {
        predictions = Map.insert event_id (record event { bet_confirmed = true }) state.predictions;
      } in
        let (settled, effect) = settle_confirmed_prediction p event_id confirmed in
        if prediction_status_is_resolved event.status
        then (
          settled,
          changed (elim effect as (λ _. List RuntimeEffect) [ none ↦ [] | some e ↦ e ∷ [] ]),
        )
        else (confirmed, changed [])
]

-- The field of a result, read as a text and as a number.
unfoldable pub result_type_of : Option Value → Text
result_type_of none = []
result_type_of (some value) = elim (get_key (str "type") value) [
  | none ↦ []
  | some t ↦ unwrap_or (as_str t) []
]

unfoldable pub points_won_of : Option Value → ℤ
points_won_of none = pos 0
points_won_of (some value) = elim (get_key (str "points_won") value) [
  | none ↦ pos 0
  | some n ↦ unwrap_or (as_i64 n) (pos 0)
]

unfoldable pub on_prediction_result :
    Platform → Text → Option Value → RuntimeState → RuntimeState × EventApplication
unfolding result_type_of points_won_of
on_prediction_result p event_id result state =
    let result_type = result_type_of result in
    let points_won = points_won_of result in
    if not (
      text_eq result_type win_type
      || text_eq result_type lose_type
      || text_eq result_type refund_type)
    then (state, unchanged)
    else elim (Map.get event_id state.predictions) [
      | none ↦
          let (refined, moved) =
            refine_completed_prediction p event_id result_type points_won state in
          (refined, changed_if moved)
      | some event ↦
          let (settled, settlement) =
            parse_result p result_type points_won (record event { bet_confirmed = true }) in
          (
            remember_completed_prediction settled (record state {
              predictions = Map.remove event_id state.predictions;
              pending_prediction_winners = Map.remove event_id state.pending_prediction_winners;
            }),
            changed (settled_effect (record settled { event_id = event_id }) settlement ∷ []),
          )
    ]
