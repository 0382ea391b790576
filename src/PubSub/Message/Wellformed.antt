-- ===== src/PubSub/Message/Wellformed.antt =====
-- What the parsers of PubSub messages promise of an event.
use twitch_miner_rust.Base.{
  Bool, true, false, not, ◌&&◌, ◌||◌, Option, none, some, List, [], ◌∷◌, length, is_empty, is_none,
  is_some, is_some_and, any, leb,
}
use twitch_miner_rust.Base.Int.{pos, leb_ℤ, ltb_ℤ}
use twitch_miner_rust.Base.Text.{Text, str, text_eq, is_blank}
use twitch_miner_rust.Domain.Events.{
  MinerEvent, points_earned, claim_available, playback, raid, moment, prediction_channel,
  prediction_user, community_goal, drop_progress, drop_ready_to_claim, deleted, prediction_made,
  prediction_result,
}
use twitch_miner_rust.Domain.PredictionEvent.{PredictionEvent, PredictionOutcome}
use twitch_miner_rust.Domain.Streamer.{Streamer}
use twitch_miner_rust.PubSub.Message.{is_event_created, is_valid_goal}
use twitch_miner_rust.PubSub.Protocol.{Formats, PubSubError, invalid_payload, protocol}
use twitch_miner_rust.PubSub.Payload.{and_then, or_null}
use twitch_miner_rust.Domain.Json.{Value, get_key, as_str}

-- The users and the points of every outcome are not negative.
unfoldable pub are_counted : List PredictionOutcome → Bool
are_counted [] = true
are_counted (o ∷ os) = leb_ℤ (pos 0) o.total_users && leb_ℤ (pos 0) o.total_points && are_counted os

-- A prediction just parsed: identified, counted, without a bet, and with a choice if it was created.
unfoldable pub is_fresh_prediction : Bool → PredictionEvent → Bool
unfolding are_counted
is_fresh_prediction is_created event =
    not (is_empty event.event_id)
    && not event.bet_placed
    && not event.bet_confirmed
    && are_counted event.outcomes
    && (not is_created || (leb 2 (length event.outcomes) && not (is_empty event.title)))

unfoldable pub is_tracked : List Streamer → Text → Bool
is_tracked streamers channel_id = any (λ s. text_eq s.channel_id channel_id) streamers

-- What an event of a parsed message satisfies, given the tracked streamers.
unfoldable pub is_wellformed : List Streamer → MinerEvent → Bool
unfolding is_fresh_prediction is_tracked
is_wellformed tracked (points_earned channel_id earned reason balance source_id) =
    not (is_blank channel_id) && ltb_ℤ (pos 0) earned && leb_ℤ (pos 0) balance
is_wellformed tracked (claim_available channel_id claim_id) =
    not (is_blank channel_id) && not (is_empty claim_id)
is_wellformed tracked (playback channel_id kind) = not (is_blank channel_id)
is_wellformed tracked (raid channel_id raid_id target_login) =
    not (is_blank channel_id) && not (is_empty raid_id) && not (is_empty target_login)
is_wellformed tracked (moment channel_id moment_id) =
    not (is_blank channel_id) && not (is_empty moment_id)
is_wellformed tracked (prediction_channel kind event winning_outcome_id) =
    is_tracked tracked event.streamer.channel_id
    && is_fresh_prediction (is_event_created kind) event
is_wellformed tracked (prediction_user event_id prediction_made result) =
    not (is_empty event_id) && is_none result
is_wellformed tracked (prediction_user event_id prediction_result result) =
    not (is_empty event_id) && is_some result
is_wellformed tracked (community_goal channel_id deleted goal goal_id) =
    not (is_blank channel_id) && is_none goal && is_some goal_id
is_wellformed tracked (community_goal channel_id kind goal goal_id) =
    not (is_blank channel_id) && is_some_and goal is_valid_goal
is_wellformed tracked (drop_progress drop_id current required) = not (is_empty drop_id)
is_wellformed tracked (drop_ready_to_claim drop_instance_id) = not (is_empty drop_instance_id)

-- No event is nothing wrong.
unfoldable pub is_wellformed_option : List Streamer → Option MinerEvent → Bool
unfolding is_wellformed
is_wellformed_option tracked none = true
is_wellformed_option tracked (some event) = is_wellformed tracked event

-- The errors of a message whose JSON was parsed.
unfoldable pub is_protocol_error : PubSubError → Bool
is_protocol_error (protocol message) = true
is_protocol_error _ = false

-- The text inside the envelope of a message.
unfoldable pub message_of : Value → Option Text
message_of envelope =
    and_then (get_key (str "message") (or_null (get_key (str "data") envelope))) as_str

-- Whether the text, or the text inside its envelope, is JSON that does not parse.
unfoldable pub is_unreadable : Formats → Text → Bool
unfolding message_of
is_unreadable f raw = elim (f.from_str raw) as (λ _. Bool) [
  | none ↦ true
  | some envelope ↦ is_some_and (message_of envelope) (λ message. is_none (f.from_str message))
]

-- Whether an error is one that a text can cause.
unfoldable pub is_failure_of : Formats → Text → PubSubError → Bool
unfolding is_unreadable
is_failure_of f raw invalid_payload = is_unreadable f raw
is_failure_of f raw (protocol message) = is_some (f.from_str raw)
is_failure_of f raw _ = false
