-- ===== src/Witnesses/Messages.antt =====
-- Concrete topics and messages of the PubSub transport.
use twitch_miner_rust.Base.{
  ℕ, ◌≤◌, ◌≡◌, refl, true, false, if◌then◌else◌, some, none, List, [], ◌∷◌, ◌++◌, length,
}
use twitch_miner_rust.Base.Int.{pos}
use twitch_miner_rust.Base.Text.{Text, str, text_eq, trim}
use twitch_miner_rust.Domain.Events.{points_earned}
use twitch_miner_rust.Domain.Json.{Value, string, number, pos_int, object, field, end}
use twitch_miner_rust.PubSub.Message.Wellformed.{is_failure_of}
use twitch_miner_rust.PubSub.Protocol.{
  Formats, ok, err, ◌>>=◌, ◌>>◌, refuse_if, ok_or, invalid_payload, event,
}
use twitch_miner_rust.PubSub.Topics.{
  build_topics, build_topic_batches, all_topics, chunk_topics, pubsub_max_topics,
  pubsub_max_connections,
}
use twitch_miner_rust.PubSub.Topics.Chunks.{flatten, are_batches, build_topic_batches_lem}
use twitch_miner_rust.PubSub.Topics.Distinct.{is_led_by, build_topics-led}
use twitch_miner_rust.PubSub.Transport.{
  parse_transport_message, is_wellformed_transport, parse_transport_message-error,
  parse_transport_message-wellformed,
}
use twitch_miner_rust.Witnesses.{ascii_platform, rich_streamer, channel}

built_topics :
    build_topics (str " u1 ") (rich_streamer ∷ [])
    ≡ some (all_topics (str " u1 ") (rich_streamer ∷ []))
unfolding build_topics twitch_miner_rust.Base.Text.is_blank twitch_miner_rust.Base.Text.contains
    text_eq
built_topics = refl

build_topics-led_example :
    let topics = all_topics (str " u1 ") (rich_streamer ∷ []) in
    (is_led_by (str "community-points-user-v1." ++ trim (str " u1 ")) topics ≡ true)
    × (length topics ≤ pubsub_max_topics)
build_topics-led_example =
    build_topics-led (str " u1 ") (rich_streamer ∷ [])
      (all_topics (str " u1 ") (rich_streamer ∷ [])) built_topics

built_batches :
    build_topic_batches (str "u1") (rich_streamer ∷ [])
    ≡ some (chunk_topics (all_topics (str "u1") (rich_streamer ∷ [])))
unfolding build_topic_batches twitch_miner_rust.Base.Text.is_blank
    twitch_miner_rust.Base.Text.contains text_eq
built_batches = refl

build_topic_batches_lem_example :
    let batches = chunk_topics (all_topics (str "u1") (rich_streamer ∷ [])) in
    (build_topics (str "u1") (rich_streamer ∷ []) ≡ some (flatten batches))
    × (are_batches batches ≡ true)
    × (length batches ≤ pubsub_max_connections)
build_topic_batches_lem_example =
    build_topic_batches_lem (str "u1") (rich_streamer ∷ [])
      (chunk_topics (all_topics (str "u1") (rich_streamer ∷ []))) built_batches

-- A message on 10 points, and the envelope around it.
abbrev points_payload : Value
points_payload = object (
    field (str "type") (string (str "points-earned")) (
      field (str "data")
        (object (
          field (str "channel_id") (string channel) (
            field (str "point_gain")
              (object (
                field (str "total_points") (number (pos_int 10))
                  (field (str "reason_code") (string (str "watch")) end)))
              (field (str "balance") (object (field (str "balance") (number (pos_int 1010)) end))
                end))))
        end))

abbrev points_envelope : Value
points_envelope = object (
    field (str "type") (string (str "MESSAGE")) (
      field (str "data")
        (object (
          field (str "topic") (string (str "community-points-user-v1.u1"))
            (field (str "message") (string (str "inner")) end)))
        end))

-- Formats that know two texts.
abbrev two_texts : Formats
two_texts = record {
  from_str = λ raw.
      if text_eq raw (str "outer")
      then some points_envelope
      else if text_eq raw (str "inner")
      then some points_payload
      else none;
  goal_from_value = λ value. none;
  parse_rfc3339 = λ raw. none;
  unix_epoch = 0;
}

parsed_points :
    parse_transport_message ascii_platform two_texts (str "outer") (rich_streamer ∷ [])
    ≡ ok (event (points_earned channel (pos 10) (str "WATCH") (pos 1010) none))
unfolding parse_transport_message ◌>>=◌ ◌>>◌ refuse_if ok_or text_eq trim
    twitch_miner_rust.Domain.Json.get_key twitch_miner_rust.Domain.Json.as_str
    twitch_miner_rust.Base.Text.ascii_upper twitch_miner_rust.Base.Text.is_blank
    twitch_miner_rust.Base.Text.ascii_lower twitch_miner_rust.Domain.Json.as_i64
parsed_points = refl

parse_transport_message-wellformed_example :
    is_wellformed_transport
      (rich_streamer ∷ [])
      (event (points_earned channel (pos 10) (str "WATCH") (pos 1010) none))
    ≡ true
parse_transport_message-wellformed_example =
    parse_transport_message-wellformed (rich_streamer ∷ []) ascii_platform two_texts (str "outer")
      (event (points_earned channel (pos 10) (str "WATCH") (pos 1010) none)) parsed_points

parsed_nothing :
    parse_transport_message ascii_platform two_texts (str "{") (rich_streamer ∷ [])
    ≡ err invalid_payload
unfolding parse_transport_message ◌>>=◌ ok_or text_eq
parsed_nothing = refl

parse_transport_message-error_example : is_failure_of two_texts (str "{") invalid_payload ≡ true
parse_transport_message-error_example =
    parse_transport_message-error (rich_streamer ∷ []) ascii_platform two_texts (str "{")
      invalid_payload parsed_nothing
