-- ===== src/PubSub/Message.antt =====
-- crates/tm-pubsub/src/parse.rs: `parse_message` and its parsers of single topics.
pub mod Wellformed
pub mod Parsed
pub mod FreshPrediction
pub mod Whole
pub mod Failures
use twitch_miner_rust.Base.{
  ℕ, Bool, true, false, not, ◌&&◌, ◌||◌, Option, none, some, List, [], ◌∷◌, ◌++◌, length,
  if◌then◌else◌, is_empty, is_none, is_some, is_some_and, filter_option, map_option, or_option,
  unwrap_or, find, ◌==◌,
}
use twitch_miner_rust.Base.Int.{ℤ, pos, leb_ℤ, ltb_ℤ}
use twitch_miner_rust.Base.Text.{Text, str, text_eq, trim, is_blank, starts_with, show_int}
use twitch_miner_rust.Domain.Events.{
  MinerEvent, points_earned, claim_available, playback, raid, moment, prediction_channel,
  prediction_user, community_goal, drop_progress, drop_ready_to_claim, PlaybackType, stream_up,
  viewcount, stream_down, CommunityGoalKind, created, updated, deleted, PredictionChannelKind,
  event_created, event_updated, PredictionUserKind, prediction_made, prediction_result,
}
use twitch_miner_rust.Domain.Json.{Value, null, string, object, field, end, get_key, as_str, as_i64}
use twitch_miner_rust.Domain.Platform.{Platform}
use twitch_miner_rust.Domain.Streamer.{Streamer, CommunityGoal}
use twitch_miner_rust.PubSub.Payload.{
  and_then, pointer, trimmed_text, nonempty, nonnegative, number_of, or_null,
  channel_id_from_payload_only, topic_channel_id, valid_reason_code, normalize_goal_value,
}
use twitch_miner_rust.PubSub.Prediction.{parse_prediction_event, winning_outcome_id}
use twitch_miner_rust.PubSub.Protocol.{
  Formats, PubSubError, invalid_payload, protocol, Result, ok, err, ◌>>=◌, ◌>>◌, refuse_if, ok_or,
  map_err,
}
use twitch_miner_rust.PubSub.Notices.{
  Parse, for_kind, parse_claim_available_event, parse_drop_event, parse_moment_event,
  parse_playback_event, parse_points_earned_event, parse_raid_event, playback_kind,
  resolved_channel_id, source_id_of, text_or_default,
}

unfoldable pub prediction_channel_kind : Text → Option PredictionChannelKind
prediction_channel_kind payload_type =
    if text_eq payload_type (str "event-created")
    then some event_created
    else if text_eq payload_type (str "event-updated")
    then some event_updated
    else none

abbrev pub is_event_created : PredictionChannelKind → Bool
is_event_created event_created = true
is_event_created event_updated = false

unfoldable pub parse_prediction_channel_event :
    Platform → Formats → Value → Text → Text → List Streamer → Parse
unfolding prediction_channel_kind parse_prediction_event winning_outcome_id
parse_prediction_channel_event p f payload payload_type channel_id tracked_streamers =
    for_kind (prediction_channel_kind payload_type) (λ kind.
      for_kind (find (λ s. text_eq s.channel_id channel_id) tracked_streamers) (λ streamer.
        ok_or
          (and_then (get_key (str "data") payload) (λ data_value. get_key (str "event") data_value))
          (protocol (str "prediction event body is missing"))
        >>= λ raw_event.
            map_err protocol (parse_prediction_event p f streamer raw_event (is_event_created kind))
            >>= λ parsed.
                ok (some (prediction_channel kind parsed (winning_outcome_id p raw_event)))))

unfoldable pub prediction_user_kind : Text → Option PredictionUserKind
prediction_user_kind payload_type =
    if text_eq payload_type (str "prediction-made")
    then some prediction_made
    else if text_eq payload_type (str "prediction-result")
    then some prediction_result
    else none

-- The result of a prediction of the viewer, made anew.
unfoldable pub result_value : Text → Option ℤ → Value
unfolding number_of
result_value result_type none = object (field (str "type") (string result_type) end)
result_value result_type (some points_won) =
    object (
      field (str "points_won") (number_of points_won) (field (str "type") (string result_type) end))

unfoldable pub parse_prediction_result : Platform → Value → Result PubSubError Value
unfolding pointer nonnegative result_value
parse_prediction_result p payload = do
  result ←
      ok_or (pointer (str "data" ∷ str "prediction" ∷ str "result" ∷ []) payload)
        (protocol (str "viewer prediction result is missing"))
  result_type ←
      ok_or
        (filter_option
          (λ value.
            text_eq value (str "WIN") || text_eq value (str "LOSE") || text_eq value (str "REFUND"))
          (map_option p.to_uppercase
            (map_option trim (and_then (get_key (str "type") result) as_str))))
        (protocol (str "viewer prediction result type is unsupported"))
  let points_won = nonnegative (get_key (str "points_won") result)
  refuse_if (text_eq result_type (str "WIN") && is_none points_won)
      (protocol (str "viewer prediction win points are missing or invalid"))
  ok (result_value result_type points_won)

unfoldable pub result_for :
    Platform → Value → PredictionUserKind → Result PubSubError (Option Value)
unfolding parse_prediction_result
result_for p payload prediction_made = ok none
result_for p payload prediction_result =
    parse_prediction_result p payload >>= λ result. ok (some result)

unfoldable pub parse_prediction_user_event : Platform → Value → Text → Parse
unfolding prediction_user_kind pointer trimmed_text result_for
parse_prediction_user_event p payload payload_type =
    for_kind (prediction_user_kind payload_type) (λ kind.
      ok_or (trimmed_text (pointer (str "data" ∷ str "prediction" ∷ str "event_id" ∷ []) payload))
        (protocol (str "viewer prediction event id is missing"))
      >>= λ event_id.
          result_for p payload kind >>= λ result. ok (some (prediction_user event_id kind result)))

unfoldable pub community_goal_kind : Text → Option CommunityGoalKind
community_goal_kind payload_type =
    if text_eq payload_type (str "community-goal-created")
    then some created
    else if text_eq payload_type (str "community-goal-updated")
    then some updated
    else if text_eq payload_type (str "community-goal-deleted")
    then some deleted
    else none

-- The test of `validate_community_goal`.
unfoldable pub is_valid_goal : CommunityGoal → Bool
is_valid_goal goal =
    not (is_blank goal.id)
    && not (is_blank goal.title)
    && not (is_blank goal.status)
    && leb_ℤ (pos 0) goal.points_contributed
    && leb_ℤ (pos 0) goal.amount_needed
    && leb_ℤ (pos 0) goal.per_stream_user_maximum_contribution

-- The goal of a message that is not a deletion.
unfoldable pub parse_goal : Formats → Option Value → Result PubSubError CommunityGoal
unfolding normalize_goal_value is_valid_goal
parse_goal f goal_value = do
  value ← ok_or goal_value (protocol (str "community goal body is missing"))
  goal ←
      ok_or (f.goal_from_value (normalize_goal_value value))
        (protocol (str "community goal body is invalid"))
  refuse_if (not (is_valid_goal goal)) (protocol (str "community goal required fields are invalid"))
  ok goal

unfoldable pub goal_event : Formats → Option Value → Text → CommunityGoalKind → Parse
unfolding trimmed_text parse_goal
goal_event f goal_value channel_id deleted =
    ok_or (trimmed_text (and_then goal_value (get_key (str "id"))))
      (protocol (str "community goal id is missing"))
    >>= λ goal_id. ok (some (community_goal channel_id deleted none (some goal_id)))
goal_event f goal_value channel_id kind = parse_goal f goal_value >>= λ goal. ok (
    some (
      community_goal channel_id kind (some goal)
        (trimmed_text (and_then goal_value (get_key (str "id"))))))

unfoldable pub parse_community_goal_event : Formats → Value → Text → Text → Parse
unfolding community_goal_kind pointer goal_event
parse_community_goal_event f payload payload_type channel_id =
    for_kind (community_goal_kind payload_type) (λ kind.
      refuse_if (is_blank channel_id) (protocol (str "community goal channel id is missing"))
      >> goal_event f (pointer (str "data" ∷ str "community_goal" ∷ []) payload) channel_id kind)

-- The parser of a message, by its type and its topic.
unfoldable pub parse_payload : Platform → Formats → Text → Value → List Streamer → Parse
unfolding text_or_default channel_id_from_payload_only topic_channel_id parse_points_earned_event
    parse_claim_available_event parse_playback_event parse_raid_event parse_moment_event
    parse_prediction_channel_event parse_prediction_user_event parse_community_goal_event
    parse_drop_event
parse_payload p f topic payload tracked_streamers =
    let payload_type = p.to_lowercase (text_or_default (get_key (str "type") payload)) in
    let payload_channel_id = channel_id_from_payload_only payload in
    let channel_id = unwrap_or (or_option payload_channel_id (topic_channel_id topic)) [] in
    if text_eq payload_type (str "points-earned")
    then (parse_points_earned_event p f payload (unwrap_or payload_channel_id []) >>= λ event.
        ok (some event))
    else if text_eq payload_type (str "claim-available")
    then parse_claim_available_event payload (unwrap_or payload_channel_id []) tracked_streamers
    else if starts_with topic (str "video-playback-by-id.")
    then parse_playback_event payload_type channel_id
    else if starts_with topic (str "raid.")
    then parse_raid_event payload channel_id
    else if starts_with topic (str "community-moments-channel-v1.")
    then parse_moment_event payload payload_type channel_id
    else if starts_with topic (str "predictions-channel-v1.")
    then parse_prediction_channel_event p f payload payload_type channel_id tracked_streamers
    else if starts_with topic (str "predictions-user-v1.")
    then parse_prediction_user_event p payload payload_type
    else if starts_with topic (str "community-points-channel-v1.")
    then parse_community_goal_event f payload payload_type channel_id
    else if starts_with topic (str "user-drop-events.")
    then ok (parse_drop_event payload payload_type)
    else ok none

unfoldable pub parse_message : Platform → Formats → Text → List Streamer → Parse
unfolding text_or_default trimmed_text parse_payload
parse_message p f raw tracked_streamers = ok_or (f.from_str raw) invalid_payload >>= λ envelope.
    if not
      (text_eq (p.to_uppercase (text_or_default (get_key (str "type") envelope))) (str "MESSAGE"))
    then ok none
    else (let body = or_null (get_key (str "data") envelope) in
        ok_or (trimmed_text (get_key (str "topic") body))
          (protocol (str "PubSub message topic is missing"))
        >>= λ topic.
            ok_or
              (filter_option (λ value. not (is_blank value))
                (and_then (get_key (str "message") body) as_str))
              (protocol (str "PubSub message body is missing"))
            >>= λ message. ok_or (f.from_str message) invalid_payload >>= λ payload.
                parse_payload p f topic payload tracked_streamers)
