-- ===== src/Runtime/Reducer/Bounded.antt =====
-- crates/tm-runtime/src/state.rs: the limits on the predictions that are remembered, under every event.
use twitch_miner_rust.Base.{
  Option-cases, Bool-cases, inl, inr, not, ◌||◌, ◌≡◌, refl, Bool, true, Option, none, some, List,
  [], ◌∷◌, arith,
}
use twitch_miner_rust.Base.Int.{ℤ}
use twitch_miner_rust.Base.Map
use twitch_miner_rust.Base.Text.{Text}
use twitch_miner_rust.Domain.Platform.{Platform}
use twitch_miner_rust.Domain.Stream.{Time}
use twitch_miner_rust.Domain.Events.{
  MinerEvent, points_earned, claim_available, playback, raid, moment, prediction_channel,
  prediction_user, community_goal, drop_progress, drop_ready_to_claim, PlaybackType, stream_up,
  stream_down, viewcount, CommunityGoalKind, created, updated, deleted, event_created,
  event_updated, prediction_made, prediction_result,
}
use twitch_miner_rust.Domain.Streamer.{Streamer, CommunityGoal, can_earn_channel_points}
use twitch_miner_rust.Runtime.State.{RuntimeState, find_streamer}
use twitch_miner_rust.Runtime.Presence.{apply_presence}
use twitch_miner_rust.Runtime.Events.{
  on_points_earned, on_claim_available, on_playback, on_raid, on_moment,
}
use twitch_miner_rust.Runtime.PredictionEvents.Bounded.{
  IsBounded, on_event_created-IsBounded, on_event_updated-IsBounded, on_prediction_made-IsBounded,
  on_prediction_result-IsBounded,
}
use twitch_miner_rust.Runtime.Reducer.{
  goal_update, goal_delete, goal_change, on_community_goal, apply_event_with_outcome,
}

-- A step that leaves the predictions alone.
KeepsPredictions : RuntimeState → RuntimeState → Type 0
KeepsPredictions state after =
    (after.predictions ≡ state.predictions)
    × (after.completed_predictions ≡ state.completed_predictions)

kept-IsBounded :
    (state after : RuntimeState) → KeepsPredictions state after → IsBounded state → IsBounded after
unfolding KeepsPredictions
kept-IsBounded state after (same, completed) b = record {
  active = rw same b.active;
  keyed = rw same b.keyed;
  completed = rw completed b.completed;
}

apply_presence_keeps :
    (id : Text) (online : Bool) (now : Time) (state : RuntimeState)
    → KeepsPredictions state (apply_presence id online now state).0
unfolding KeepsPredictions apply_presence
apply_presence_keeps id online now state = ground arith

on_playback_keeps :
    (id : Text) (kind : PlaybackType) (now : Time) (state : RuntimeState)
    → KeepsPredictions state (on_playback id kind now state).0
unfolding KeepsPredictions on_playback
on_playback_keeps id stream_up now state = apply_presence_keeps id true now state
on_playback_keeps id stream_down now state = apply_presence_keeps id _ now state
on_playback_keeps id viewcount now state = (refl, refl)

goal_change_keeps :
    (kind : CommunityGoalKind) (id : Text) (goal : Option CommunityGoal) (goal_id : Option Text)
    (s : Streamer) (state : RuntimeState)
    → KeepsPredictions state (goal_change kind id goal goal_id s state).0
unfolding KeepsPredictions goal_change goal_update goal_delete
goal_change_keeps created id none goal_id s state = (refl, refl)
goal_change_keeps created id (some goal) goal_id s state = ground arith
goal_change_keeps updated id none goal_id s state = (refl, refl)
goal_change_keeps updated id (some goal) goal_id s state = ground arith
goal_change_keeps deleted id goal none s state = (refl, refl)
goal_change_keeps deleted id goal (some g) s state = (refl, refl)

-- The events that are not of predictions.
on_points_earned_keeps :
    (id : Text) (earned : ℤ) (reason : Text) (balance : ℤ) (source_id : Option Text) (now : Time)
    (state : RuntimeState)
    → KeepsPredictions state (on_points_earned id earned reason balance source_id now state).0
unfolding KeepsPredictions on_points_earned
on_points_earned_keeps id earned reason balance source_id now state = ground arith

on_claim_available_keeps :
    (id claim_id : Text) (state : RuntimeState)
    → KeepsPredictions state (on_claim_available id claim_id state).0
unfolding KeepsPredictions on_claim_available
on_claim_available_keeps id claim_id state = ground arith

on_raid_keeps :
    (id raid_id login : Text) (state : RuntimeState)
    → KeepsPredictions state (on_raid id raid_id login state).0
unfolding KeepsPredictions on_raid
on_raid_keeps id raid_id login state = ground arith

on_moment_keeps :
    (id moment_id : Text) (state : RuntimeState)
    → KeepsPredictions state (on_moment id moment_id state).0
unfolding KeepsPredictions on_moment
on_moment_keeps id moment_id state = ground arith

on_community_goal_keeps :
    (id : Text) (kind : CommunityGoalKind) (goal : Option CommunityGoal) (goal_id : Option Text)
    (state : RuntimeState)
    → KeepsPredictions state (on_community_goal id kind goal goal_id state).0
unfolding KeepsPredictions on_community_goal
on_community_goal_keeps id kind goal goal_id state =
    elim (Option-cases (find_streamer id state.streamers)) [
      | inl e ↦ rw (e, on_community_goal) (refl, refl)
      | inr (s, e) ↦
          elim (Bool-cases (not s.settings.community_goals || not (can_earn_channel_points s))) [
            | inl c ↦ rw (e, on_community_goal, c) (refl, refl)
            | inr c ↦ rw (e, on_community_goal, c) (goal_change_keeps kind id goal goal_id s state)
          ]
    ]

-- Every event keeps the limits of 256 active predictions, no two under one id, and of 256
-- completed ones, from any state within them.
pub apply_event_with_outcome-IsBounded :
    (p : Platform) (event : MinerEvent) (now : Time) (state : RuntimeState)
    → IsBounded state
    → IsBounded (apply_event_with_outcome p event now state).0
unfolding apply_event_with_outcome
apply_event_with_outcome-IsBounded p (points_earned id earned reason balance source_id) now state
      b =
    kept-IsBounded state _ (on_points_earned_keeps id earned reason balance source_id now state) b
apply_event_with_outcome-IsBounded p (claim_available id claim_id) now state b =
    kept-IsBounded state _ (on_claim_available_keeps id claim_id state) b
apply_event_with_outcome-IsBounded p (playback id kind) now state b =
    kept-IsBounded state _ (on_playback_keeps id kind now state) b
apply_event_with_outcome-IsBounded p (raid id raid_id login) now state b =
    kept-IsBounded state _ (on_raid_keeps id raid_id login state) b
apply_event_with_outcome-IsBounded p (moment id moment_id) now state b =
    kept-IsBounded state _ (on_moment_keeps id moment_id state) b
apply_event_with_outcome-IsBounded p (prediction_channel event_created event winner) now state b =
    on_event_created-IsBounded event state b
apply_event_with_outcome-IsBounded p (prediction_channel event_updated event winner) now state b =
    on_event_updated-IsBounded p event winner state b
apply_event_with_outcome-IsBounded p (prediction_user id prediction_made result) now state b =
    on_prediction_made-IsBounded p id state b
apply_event_with_outcome-IsBounded p (prediction_user id prediction_result result) now state b =
    on_prediction_result-IsBounded p id result state b
apply_event_with_outcome-IsBounded p (community_goal id kind goal goal_id) now state b =
    kept-IsBounded state _ (on_community_goal_keeps id kind goal goal_id state) b
apply_event_with_outcome-IsBounded p (drop_progress id current required) now state b = b
apply_event_with_outcome-IsBounded p (drop_ready_to_claim id) now state b = b

-- The state after a sequence of events.
unfoldable pub replay : Platform → List (MinerEvent × Time) → RuntimeState → RuntimeState
replay p [] state = state
replay p ((event, now) ∷ events) state =
    replay p events (apply_event_with_outcome p event now state).0

replay_step :
    (p : Platform) (events : List (MinerEvent × Time)) (state : RuntimeState)
    → IsBounded state
    → IsBounded (replay p events state)
unfolding replay
replay_step p [] state b = b
replay_step p ((event, now) ∷ events) state b =
    replay_step p events _ (apply_event_with_outcome-IsBounded p event now state b)

-- From a state with no predictions, after any sequence of events there are at most 256 active
-- predictions, no two under one id, and at most 256 completed ones.
pub replay-IsBounded :
    (p : Platform) (events : List (MinerEvent × Time)) (state : RuntimeState)
    → state.predictions ≡ []
    → state.completed_predictions ≡ []
    → IsBounded (replay p events state)
unfolding Map.is_keyed
replay-IsBounded p events state fresh none_completed = replay_step p events state (record {
  active = rw fresh (omega arith);
  keyed = rw fresh refl;
  completed = rw none_completed (omega arith);
})
