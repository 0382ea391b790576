-- ===== src/PubSub/Notices.antt =====
-- crates/tm-pubsub/src/parse.rs: the parsers of points, claims, playback, raids, moments and Drops.
use twitch_miner_rust.Base.{
  not, Option, none, some, List, [], ◌∷◌, ◌++◌, if◌then◌else◌, filter_option, map_option, unwrap_or,
}
use twitch_miner_rust.Base.Int.{ℤ, pos, ltb_ℤ}
use twitch_miner_rust.Base.Text.{Text, str, text_eq, trim, is_blank, show_int}
use twitch_miner_rust.Domain.Events.{
  MinerEvent, points_earned, claim_available, playback, raid, moment, drop_progress,
  drop_ready_to_claim, PlaybackType, stream_up, viewcount, stream_down,
}
use twitch_miner_rust.Domain.Json.{Value, get_key, as_str, as_i64}
use twitch_miner_rust.Domain.Platform.{Platform}
use twitch_miner_rust.Domain.Streamer.{Streamer}
use twitch_miner_rust.PubSub.Payload.{
  and_then, pointer, trimmed_text, nonnegative, or_null, valid_reason_code,
}
use twitch_miner_rust.PubSub.Protocol.{
  Formats, PubSubError, protocol, Result, ok, ◌>>=◌, ◌>>◌, refuse_if, ok_or,
}

abbrev pub Parse : Type 0
Parse = Result PubSubError (Option MinerEvent)

-- What `type` and similar texts are when they are missing.
unfoldable pub text_or_default : Option Value → Text
text_or_default o = unwrap_or (and_then o as_str) []

unfoldable pub parse_drop_event : Value → Text → Option MinerEvent
unfolding pointer trimmed_text
parse_drop_event payload payload_type =
    if text_eq payload_type (str "drop-progress")
    then and_then (trimmed_text (pointer (str "data" ∷ str "drop_id" ∷ []) payload)) (λ drop_id.
      and_then (and_then (pointer (str "data" ∷ str "current_progress_min" ∷ []) payload) as_i64)
        (λ current.
          and_then
            (and_then (pointer (str "data" ∷ str "required_progress_min" ∷ []) payload) as_i64)
            (λ required. some (drop_progress drop_id current required))))
    else if text_eq payload_type (str "drop-claim")
    then map_option drop_ready_to_claim
        (trimmed_text (pointer (str "data" ∷ str "drop_instance_id" ∷ []) payload))
    else none

-- The identity that a valid server timestamp gives an event.
unfoldable pub source_id_of : Formats → Value → ℤ → ℤ → Text → Option Text
unfolding pointer trimmed_text
source_id_of f payload earned balance reason =
    and_then (trimmed_text (pointer (str "data" ∷ str "timestamp" ∷ []) payload)) (λ timestamp.
      map_option
        (λ _.
          str "timestamp:"
          ++ timestamp
          ++ str ":"
          ++ show_int earned
          ++ str ":"
          ++ show_int balance
          ++ str ":"
          ++ reason)
        (f.parse_rfc3339 timestamp))

unfoldable pub parse_points_earned_event :
    Platform → Formats → Value → Text → Result PubSubError MinerEvent
unfolding pointer nonnegative valid_reason_code source_id_of
parse_points_earned_event p f payload channel_id = do
  refuse_if (is_blank channel_id) (protocol (str "points-earned channel id is missing"))
  point_gain ←
      ok_or (pointer (str "data" ∷ str "point_gain" ∷ []) payload)
        (protocol (str "points-earned gain is missing"))
  earned ←
      ok_or
        (filter_option (λ value. ltb_ℤ (pos 0) value)
          (and_then (get_key (str "total_points") point_gain) as_i64))
        (protocol (str "points-earned amount is missing or invalid"))
  raw_reason ←
      ok_or
        (filter_option valid_reason_code
          (map_option trim (and_then (get_key (str "reason_code") point_gain) as_str)))
        (protocol (str "points-earned reason is missing or invalid"))
  let reason = p.to_uppercase raw_reason
  balance ←
      ok_or (nonnegative (pointer (str "data" ∷ str "balance" ∷ str "balance" ∷ []) payload))
        (protocol (str "points-earned balance is missing or invalid"))
  ok (points_earned channel_id earned reason balance (source_id_of f payload earned balance reason))

-- The only tracked channel, when the message names none.
unfoldable pub resolved_channel_id : Text → List Streamer → Text
resolved_channel_id [] (s ∷ []) = s.channel_id
resolved_channel_id channel_id _ = channel_id

unfoldable pub parse_claim_available_event : Value → Text → List Streamer → Parse
unfolding pointer trimmed_text resolved_channel_id
parse_claim_available_event payload channel_id tracked_streamers = do
  claim_id ←
      ok_or (trimmed_text (pointer (str "data" ∷ str "claim" ∷ str "id" ∷ []) payload))
        (protocol (str "claim-available id is missing"))
  let resolved = resolved_channel_id channel_id tracked_streamers
  refuse_if (is_blank resolved) (protocol (str "claim-available channel id is missing"))
  ok (some (claim_available resolved claim_id))

unfoldable pub playback_kind : Text → Option PlaybackType
playback_kind payload_type =
    if text_eq payload_type (str "stream-up")
    then some stream_up
    else if text_eq payload_type (str "viewcount")
    then some viewcount
    else if text_eq payload_type (str "stream-down")
    then some stream_down
    else none

-- A parser that passes over the messages of other types.
unfoldable pub for_kind {ℓ} : {A : Type ℓ} → Option A → (A → Parse) → Parse
for_kind none parse = ok none
for_kind (some kind) parse = parse kind

unfoldable pub parse_playback_event : Text → Text → Parse
unfolding playback_kind
parse_playback_event payload_type channel_id = for_kind (playback_kind payload_type) (λ kind.
    refuse_if (is_blank channel_id) (protocol (str "playback channel id is missing"))
    >> ok (some (playback channel_id kind)))

unfoldable pub parse_raid_event : Value → Text → Parse
unfolding trimmed_text or_null
parse_raid_event payload channel_id = do
  refuse_if (is_blank channel_id) (protocol (str "raid channel id is missing"))
  let raid_value = or_null (get_key (str "raid") payload)
  raid_id ←
      ok_or (trimmed_text (get_key (str "id") raid_value)) (protocol (str "raid id is missing"))
  target_login ←
      ok_or (trimmed_text (get_key (str "target_login") raid_value))
        (protocol (str "raid target login is missing"))
  ok (some (raid channel_id raid_id target_login))

unfoldable pub parse_moment_event : Value → Text → Text → Parse
unfolding pointer trimmed_text
parse_moment_event payload payload_type channel_id =
    if not (text_eq payload_type (str "active"))
    then ok none
    else (refuse_if (is_blank channel_id) (protocol (str "moment channel id is missing"))
        >> (ok_or (trimmed_text (pointer (str "data" ∷ str "moment_id" ∷ []) payload))
              (protocol (str "moment id is missing"))
            >>= λ moment_id. ok (some (moment channel_id moment_id))))
