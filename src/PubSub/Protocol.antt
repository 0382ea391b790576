-- ===== src/PubSub/Protocol.antt =====
-- crates/tm-pubsub/src/errors.rs and types.rs: the errors of the transport as values, and what the
-- parsers take from serde_json and from the crate time.
pub use twitch_miner_rust.Base.Result.{Result, ok, err, Checked, to_option}
unfoldable pub use twitch_miner_rust.Base.Result.{◌>>=◌, ◌>>◌, refuse_if, ok_or, map_err}
use twitch_miner_rust.Base.{Bool, Option}
use twitch_miner_rust.Base.Text.{Text}
use twitch_miner_rust.Domain.Events.{MinerEvent}
use twitch_miner_rust.Domain.Json.{Value}
use twitch_miner_rust.Domain.Stream.{Time}
use twitch_miner_rust.Domain.Streamer.{CommunityGoal}

-- Errors of other crates stand without their text.
pub data PubSubError : Type 0 where
  missing_user_id invalid_payload invalid_text : PubSubError
  protocol : (message : Text) → PubSubError
  web_socket event_channel_closed reconnect_requested : PubSubError
  bad_auth : (cookie_file : Text) → PubSubError
  pong_timeout connect_timeout : PubSubError

pub data IncomingTransportMessage : Type 0 where
  pong reconnect : IncomingTransportMessage
  response_ok : (nonce : Option Text) → IncomingTransportMessage
  response_error : (nonce : Option Text) (is_bad_auth : Bool) → IncomingTransportMessage
  event : MinerEvent → IncomingTransportMessage
  ignore : IncomingTransportMessage

pub record Formats : Type 0 where
  -- `serde_json::from_str::<Value>`.
  pub from_str : Text → Option Value
  -- `serde_json::from_value::<CommunityGoal>`.
  pub goal_from_value : Value → Option CommunityGoal
  -- `OffsetDateTime::parse` with `Rfc3339`.
  pub parse_rfc3339 : Text → Option Time
  -- `OffsetDateTime::UNIX_EPOCH`.
  pub unix_epoch : Time
