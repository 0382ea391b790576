-- ===== src/Runtime/Events.antt =====
-- crates/tm-runtime/src/state.rs: `apply_event_with_outcome`, one handler to each event.
pub mod Accounting
pub mod Repeats
use twitch_miner_rust.Base.{
  map_option, Bool, true, false, not, ◌&&◌, ◌||◌, Option, none, some, [], ◌∷◌, ◌++◌, find,
  if◌then◌else◌, is_empty, or_option, filter_option,
}
use twitch_miner_rust.Base.Int.{ℤ, pos, ltb_ℤ, eqb_ℤ, checked_abs}
use twitch_miner_rust.Base.Map
use twitch_miner_rust.Base.Text.{Text, text_eq, str, is_blank, contains, show_int}
use twitch_miner_rust.Domain.Stream.{Time, mark_watch_streak_resolved}
use twitch_miner_rust.Domain.Streamer.{Streamer, can_earn_channel_points}
use twitch_miner_rust.Domain.PredictionEvent.{PredictionEvent}
use twitch_miner_rust.Domain.Events.{PlaybackType, stream_up, viewcount, stream_down}
use twitch_miner_rust.Runtime.Dedupe.{
  prediction_deduction_marker_exists, remember_mutation_id, remember_prediction_deduction,
}
use twitch_miner_rust.Runtime.Points.{
  apply_pubsub_gain, prediction_reason, watch_reason, watch_streak_reason,
}
use twitch_miner_rust.Runtime.Presence.{apply_presence}
use twitch_miner_rust.Runtime.Completion.{find_last}
use twitch_miner_rust.Runtime.State.{
  RuntimeState, EventApplication, unchanged, changed, changed_if, claim_bonus, claim_moment,
  join_raid, find_streamer, replace_streamer,
}

-- The state with one streamer written.
abbrev pub store : Text → Streamer → RuntimeState → RuntimeState
store channel_id s state = record state {
  streamers = replace_streamer channel_id s state.streamers;
}

-- The prediction whose stake a spend of points confirms: the id of an active one of the channel with
-- that stake, or of the last completed one.
matches_active : Text → ℤ → Text × PredictionEvent → Bool
matches_active channel_id amount (event_id, e) =
    text_eq e.streamer.channel_id channel_id
    && e.bet_placed
    && is_empty e.result_type
    && eqb_ℤ e.decision.amount amount

matches_completed : Text → ℤ → PredictionEvent → Bool
matches_completed channel_id amount e =
    text_eq e.streamer.channel_id channel_id && e.bet_placed && eqb_ℤ e.decision.amount amount

unfoldable pub matched_prediction_id : Text → ℤ → Text → RuntimeState → Option Text
unfolding matches_active matches_completed
matched_prediction_id channel_id earned reason state =
    if ltb_ℤ earned (pos 0) && text_eq reason prediction_reason
    then elim (checked_abs earned) as (λ _. Option Text) [
      | none ↦ none
      | some amount ↦
          or_option
            (map_option (λ e. e.0) (find (matches_active channel_id amount) state.predictions))
            (map_option (λ e. e.event_id)
              (find_last (matches_completed channel_id amount) state.completed_predictions))
    ]
    else none

-- The key of a point event: its source, or what it says.
unfoldable pub point_event_key : ℤ → Text → ℤ → Option Text → Text
point_event_key earned reason balance source_id =
    elim (filter_option (λ source. not (is_blank source)) source_id) [
      | none ↦
          str "fingerprint:" ++ show_int earned ++ str ":" ++ show_int balance ++ str ":" ++ reason
      | some source ↦ str "source:" ++ source
    ]

-- The streamer once a point event counts.
unfoldable pub points_counted : ℤ → Text → ℤ → Time → Text → Streamer → Streamer
points_counted earned reason balance now event_key s =
    let gained = (apply_pubsub_gain earned reason balance s).0 in
    let confirmed =
      if ltb_ℤ (pos 0) earned && (text_eq reason watch_reason || text_eq reason watch_streak_reason)
      then record gained { last_server_confirmed_points_at = some now }
      else gained in
    let resolved =
      if text_eq reason watch_streak_reason
      then record confirmed {
        stream = map_option (mark_watch_streak_resolved now) confirmed.stream;
      }
      else confirmed in
    record resolved {
      processed_point_event_keys =
          (remember_mutation_id resolved.processed_point_event_keys event_key).0;
    }

-- The streamer after a point event, and whether it counts. The event that confirms a stake which the
-- placement already deducted is only remembered.
unfoldable pub account_points :
    Option Text → ℤ → Text → ℤ → Time → Text → Streamer → Streamer × Bool
unfolding points_counted
account_points matched earned reason balance now event_key s =
    if contains s.processed_point_event_keys event_key then (s, false) else elim matched [
      | none ↦ (points_counted earned reason balance now event_key s, true)
      | some event_id ↦
          if prediction_deduction_marker_exists s.processed_point_event_keys event_id
          then (
            record s {
              processed_point_event_keys =
                  (remember_mutation_id s.processed_point_event_keys event_key).0;
            },
            false,
          )
          else let (keys, fresh) =
              remember_prediction_deduction s.processed_point_event_keys event_id in
            let marked : Streamer = record s { processed_point_event_keys = keys } in
            if fresh
            then (points_counted earned reason balance now event_key marked, true)
            else (marked, false)
    ]

unfoldable pub on_points_earned :
    Text → ℤ → Text → ℤ → Option Text → Time → RuntimeState → RuntimeState × EventApplication
unfolding account_points matched_prediction_id point_event_key
on_points_earned channel_id earned reason balance source_id now state =
    elim (find_streamer channel_id state.streamers) [
      | none ↦ (state, unchanged)
      | some s ↦
          if not (can_earn_channel_points s)
          then (state, unchanged)
          else let (s', counted) =
              account_points (matched_prediction_id channel_id earned reason state) earned reason
                balance now (point_event_key earned reason balance source_id) s in
            (store channel_id s' state, changed_if counted)
    ]

unfoldable pub on_claim_available : Text → Text → RuntimeState → RuntimeState × EventApplication
on_claim_available channel_id claim_id state = elim (find_streamer channel_id state.streamers) [
  | none ↦ (state, unchanged)
  | some s ↦
      let (ids, fresh) = remember_mutation_id s.processed_claim_ids claim_id in
      if not (can_earn_channel_points s) then (state, unchanged) else (
        store channel_id (record s { processed_claim_ids = ids }) state,
        if fresh then changed (claim_bonus channel_id claim_id ∷ []) else unchanged,
      )
]

unfoldable pub on_playback :
    Text → PlaybackType → Time → RuntimeState → RuntimeState × EventApplication
on_playback channel_id stream_up now state =
    let (state', moved) = apply_presence channel_id true now state in (state', changed_if moved)
on_playback channel_id stream_down now state =
    let (state', moved) = apply_presence channel_id false now state in (state', changed_if moved)
on_playback channel_id viewcount now state = (state, unchanged)

unfoldable pub on_raid : Text → Text → Text → RuntimeState → RuntimeState × EventApplication
on_raid channel_id raid_id target_login state = elim (find_streamer channel_id state.streamers) [
  | none ↦ (state, unchanged)
  | some s ↦
      if not s.settings.follow_raid || is_empty raid_id || text_eq s.last_raid_id raid_id
      then (state, unchanged)
      else (
        store channel_id (record s { last_raid_id = raid_id }) state,
        changed (join_raid channel_id raid_id target_login ∷ []),
      )
]

unfoldable pub on_moment : Text → Text → RuntimeState → RuntimeState × EventApplication
on_moment channel_id moment_id state = elim (find_streamer channel_id state.streamers) [
  | none ↦ (state, unchanged)
  | some s ↦
      let (ids, fresh) = remember_mutation_id s.processed_moment_ids moment_id in
      if not s.settings.claim_moments then (state, unchanged) else (
        store channel_id (record s { processed_moment_ids = ids }) state,
        if fresh then changed (claim_moment channel_id moment_id ∷ []) else unchanged,
      )
]
