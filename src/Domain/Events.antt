-- ===== src/Domain/Events.antt =====
-- crates/tm-domain/src/events.rs: the events of the transports.
use twitch_miner_rust.Base.{Option}
use twitch_miner_rust.Base.Int.{ℤ}
use twitch_miner_rust.Base.Text.{Text}
use twitch_miner_rust.Domain.Json.{Value}
use twitch_miner_rust.Domain.Streamer.{CommunityGoal}
use twitch_miner_rust.Domain.PredictionEvent.{PredictionEvent}

pub data PlaybackType : Type 0 where
  stream_up viewcount stream_down : PlaybackType

pub data CommunityGoalKind : Type 0 where
  created updated deleted : CommunityGoalKind

pub data PredictionChannelKind : Type 0 where
  event_created event_updated : PredictionChannelKind

pub data PredictionUserKind : Type 0 where
  prediction_made prediction_result : PredictionUserKind

-- The arguments stand in the order of the fields of the source.
pub data MinerEvent : Type 0 where
  points_earned :
      (channel_id : Text) (earned : ℤ) (reason : Text) (balance : ℤ) (source_id : Option Text)
      → MinerEvent
  claim_available : (channel_id claim_id : Text) → MinerEvent
  playback : (channel_id : Text) (kind : PlaybackType) → MinerEvent
  raid : (channel_id raid_id target_login : Text) → MinerEvent
  moment : (channel_id moment_id : Text) → MinerEvent
  prediction_channel :
      (kind : PredictionChannelKind) (event : PredictionEvent) (winning_outcome_id : Option Text)
      → MinerEvent
  prediction_user :
      (event_id : Text) (kind : PredictionUserKind) (result : Option Value) → MinerEvent
  community_goal :
      (channel_id : Text) (kind : CommunityGoalKind) (goal : Option CommunityGoal)
      (goal_id : Option Text)
      → MinerEvent
  drop_progress : (drop_id : Text) (current_minutes required_minutes : ℤ) → MinerEvent
  drop_ready_to_claim : (drop_instance_id : Text) → MinerEvent
