-- ===== src/Runtime/Reducer.antt =====
-- crates/tm-runtime/src/state.rs: `apply_event_with_outcome`, the handler of goal events, and the
-- reducer over all events.
pub mod Bounded
use twitch_miner_rust.Base.{
  not, ◌||◌, Option, none, some, List, [], ◌∷◌, if◌then◌else◌, is_some, is_some_and,
}
use twitch_miner_rust.Base.Map.{Map}
use twitch_miner_rust.Base.Map
use twitch_miner_rust.Base.Text.{Text}
use twitch_miner_rust.Domain.Platform.{Platform}
use twitch_miner_rust.Domain.Stream.{Time}
use twitch_miner_rust.Domain.Streamer.{Streamer, CommunityGoal, can_earn_channel_points, goal_eq}
use twitch_miner_rust.Domain.Events.{
  MinerEvent, points_earned, claim_available, playback, raid, moment, prediction_channel,
  prediction_user, community_goal, drop_progress, drop_ready_to_claim, CommunityGoalKind, created,
  updated, deleted, event_created, event_updated, prediction_made, prediction_result,
}
use twitch_miner_rust.Runtime.State.{
  RuntimeState, RuntimeEffect, EventApplication, unchanged, changed, changed_if,
  contribute_community_goals, find_streamer,
}
use twitch_miner_rust.Runtime.Events.{
  store, on_points_earned, on_claim_available, on_playback, on_raid, on_moment,
}
use twitch_miner_rust.Runtime.PredictionEvents.{
  on_event_created, on_event_updated, on_prediction_made, on_prediction_result,
}

unfoldable pub goal_update :
    Text → Option CommunityGoal → Streamer → RuntimeState → RuntimeState × EventApplication
goal_update channel_id none s state = (state, unchanged)
goal_update channel_id (some goal) s state =
    if is_some_and (Map.get goal.id s.community_goals) (λ known. goal_eq known goal)
    then (state, unchanged)
    else (
      store channel_id (record s { community_goals = Map.insert goal.id goal s.community_goals })
          state,
      changed (contribute_community_goals channel_id ∷ []),
    )

unfoldable pub goal_delete :
    Text → Option Text → Streamer → RuntimeState → RuntimeState × EventApplication
goal_delete channel_id none s state = (state, unchanged)
goal_delete channel_id (some goal_id) s state = (
  store channel_id (record s { community_goals = Map.remove goal_id s.community_goals }) state,
  changed_if (is_some (Map.get goal_id s.community_goals)),
)

unfoldable pub goal_change :
    CommunityGoalKind
    → Text
    → Option CommunityGoal
    → Option Text
    → Streamer
    → RuntimeState
    → RuntimeState × EventApplication
unfolding goal_update goal_delete
goal_change created channel_id goal goal_id s state = goal_update channel_id goal s state
goal_change updated channel_id goal goal_id s state = goal_update channel_id goal s state
goal_change deleted channel_id goal goal_id s state = goal_delete channel_id goal_id s state

unfoldable pub on_community_goal :
    Text
    → CommunityGoalKind
    → Option CommunityGoal
    → Option Text
    → RuntimeState
    → RuntimeState × EventApplication
unfolding goal_change
on_community_goal channel_id kind goal goal_id state =
    elim (find_streamer channel_id state.streamers) [
      | none ↦ (state, unchanged)
      | some s ↦
          if not s.settings.community_goals || not (can_earn_channel_points s)
          then (state, unchanged)
          else goal_change kind channel_id goal goal_id s state
    ]

-- `apply_event_with_outcome`. The events of Drops are the application's.
unfoldable pub apply_event_with_outcome :
    Platform → MinerEvent → Time → RuntimeState → RuntimeState × EventApplication
apply_event_with_outcome p (points_earned channel_id earned reason balance source_id) now state =
    on_points_earned channel_id earned reason balance source_id now state
apply_event_with_outcome p (claim_available channel_id claim_id) now state =
    on_claim_available channel_id claim_id state
apply_event_with_outcome p (playback channel_id kind) now state =
    on_playback channel_id kind now state
apply_event_with_outcome p (raid channel_id raid_id target_login) now state =
    on_raid channel_id raid_id target_login state
apply_event_with_outcome p (moment channel_id moment_id) now state =
    on_moment channel_id moment_id state
apply_event_with_outcome p (prediction_channel event_created event winner) now state =
    on_event_created event state
apply_event_with_outcome p (prediction_channel event_updated event winner) now state =
    on_event_updated p event winner state
apply_event_with_outcome p (prediction_user event_id prediction_made result) now state =
    on_prediction_made p event_id state
apply_event_with_outcome p (prediction_user event_id prediction_result result) now state =
    on_prediction_result p event_id result state
apply_event_with_outcome p (community_goal channel_id kind goal goal_id) now state =
    on_community_goal channel_id kind goal goal_id state
apply_event_with_outcome p (drop_progress drop_id current required) now state = (state, unchanged)
apply_event_with_outcome p (drop_ready_to_claim drop_instance_id) now state = (state, unchanged)

-- `apply_event`.
unfoldable pub apply_event :
    Platform → MinerEvent → Time → RuntimeState → RuntimeState × List RuntimeEffect
unfolding apply_event_with_outcome
apply_event p event now state =
    let (state', outcome) = apply_event_with_outcome p event now state in (state', outcome.effects)
