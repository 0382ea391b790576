-- ===== src/PubSub/Topics.antt =====
-- crates/tm-pubsub/src/topics.rs: what the miner listens to.
pub mod Distinct
pub mod Chunks
use Prim.Native.Nat.{Ordering}
use twitch_miner_rust.Base.{
  ℕ, zero, suc, ◌+◌, ◌*◌, ◌%◌, ◌/◌, ◌^◌, Bool, true, false, not, ◌&&◌, ◌||◌, Option, none, some,
  List, [], ◌∷◌, ◌++◌, map, length, if◌then◌else◌, is_empty, any, map_option, ltb, leb, ◌==◌,
}
use twitch_miner_rust.Base.Text.{
  Text, text_eq, str, trim, is_blank, contains, starts_with, text_cmp,
}
use twitch_miner_rust.Domain.Json.{Value, string, array, nil, cons, object, end, field}
use twitch_miner_rust.Domain.Streamer.{Streamer}

abbrev pub pubsub_max_topics_per_connection : ℕ
pubsub_max_topics_per_connection = 50

abbrev pub pubsub_max_connections : ℕ
pubsub_max_connections = 10

abbrev pub pubsub_max_topics : ℕ
pubsub_max_topics = pubsub_max_topics_per_connection * pubsub_max_connections

-- `take`, and `Vec::truncate`.
unfoldable pub take {ℓ} : {A : Type ℓ} → ℕ → List A → List A
take zero xs = []
take (suc n) [] = []
take (suc n) (x ∷ xs) = x ∷ take n xs

-- The closure `push_unique`.
unfoldable pub push_unique : List Text → Text → List Text
push_unique topics topic =
    if not (is_empty topic) && not (contains topics topic) then topics ++ topic ∷ [] else topics

unfoldable pub push_if : Bool → List Text → Text → List Text
unfolding push_unique
push_if b topics topic = if b then push_unique topics topic else topics

unfoldable pub push_all : List Text → List Text → List Text
unfolding push_unique
push_all topics [] = topics
push_all topics (topic ∷ rest) = push_all (push_unique topics topic) rest

-- The topics of one channel but its presence.
unfoldable pub push_channel : List Text → Streamer → List Text
unfolding push_if
push_channel topics s =
    let id = trim s.channel_id in
    let raids = push_if s.settings.follow_raid topics (str "raid." ++ id) in
    let predictions =
      push_if s.settings.make_predictions raids (str "predictions-channel-v1." ++ id) in
    let moments =
      push_if s.settings.claim_moments predictions (str "community-moments-channel-v1." ++ id) in
    push_if s.settings.community_goals moments (str "community-points-channel-v1." ++ id)

-- The loop over the streamers: those without a channel are left out.
unfoldable pub push_channels : List Text → List Streamer → List Text
unfolding push_channel
push_channels topics [] = topics
push_channels topics (s ∷ ss) =
    push_channels (if is_blank s.channel_id then topics else push_channel topics s) ss

unfoldable pub presence_topics : List Streamer → List Text
presence_topics [] = []
presence_topics (s ∷ ss) =
    let rest = presence_topics ss in
    if is_blank s.channel_id
    then rest
    else (str "video-playback-by-id." ++ trim s.channel_id) ∷ rest

-- The topics of the user.
unfoldable pub user_topics : Text → List Streamer → List Text
unfolding push_unique push_if
user_topics user_id streamers =
    let points = push_unique [] (str "community-points-user-v1." ++ trim user_id) in
    let predictions =
      push_if (any (λ s. s.settings.make_predictions) streamers) points
        (str "predictions-user-v1." ++ trim user_id) in
    push_if (any (λ s. s.settings.farm_drops || s.settings.claim_drops) streamers) predictions
      (str "user-drop-events." ++ trim user_id)

-- All topics, in the order of their priority.
unfoldable pub all_topics : Text → List Streamer → List Text
unfolding user_topics push_channels presence_topics push_all
all_topics user_id streamers =
    push_all (push_channels (user_topics user_id streamers) streamers) (presence_topics streamers)

-- `build_topics`: none stands for `PubSubError::MissingUserId`.
unfoldable pub build_topics : Text → List Streamer → Option (List Text)
unfolding all_topics take
build_topics user_id streamers =
    if is_blank user_id
    then none
    else if ltb pubsub_max_topics (length (all_topics user_id streamers))
    then some (take pubsub_max_topics (all_topics user_id streamers))
    else some (all_topics user_id streamers)

-- `slice::chunks`: a chunk that is full is closed when an element follows.
unfoldable pub chunks_from : ℕ → List Text → List Text → List (List Text)
chunks_from n current [] = current ∷ []
chunks_from n current (x ∷ xs) =
    let full = length current == n in
    let rest = chunks_from n (if full then x ∷ [] else current ++ x ∷ []) xs in
    if full then current ∷ rest else rest

unfoldable pub chunk_topics : List Text → List (List Text)
unfolding chunks_from
chunk_topics [] = []
chunk_topics (topic ∷ topics) = chunks_from pubsub_max_topics_per_connection (topic ∷ []) topics

unfoldable pub build_topic_batches : Text → List Streamer → Option (List (List Text))
unfolding build_topics chunk_topics
build_topic_batches user_id streamers = map_option chunk_topics (build_topics user_id streamers)

unfoldable pub topic_requires_auth : Text → Bool
topic_requires_auth topic =
    starts_with topic (str "community-points-user-v1.")
    || starts_with topic (str "predictions-user-v1.")
    || starts_with topic (str "user-drop-events.")

unfoldable pub pubsub_topic_class : Text → Text
pubsub_topic_class topic =
    if starts_with topic (str "community-points-user-v1.")
    then str "points-user"
    else if starts_with topic (str "predictions-user-v1.")
    then str "prediction-user"
    else if starts_with topic (str "user-drop-events.")
    then str "drops"
    else if starts_with topic (str "video-playback-by-id.")
    then str "presence"
    else if starts_with topic (str "raid.")
    then str "raid"
    else if starts_with topic (str "community-moments-channel-v1.")
    then str "moments"
    else if starts_with topic (str "predictions-channel-v1.")
    then str "prediction-channel"
    else if starts_with topic (str "community-points-channel-v1.")
    then str "community-goals"
    else str "unknown"

-- The payload of a LISTEN, its fields in the order of their keys.
unfoldable pub listen_payload_with_nonce : Text → Text → Text → Value
unfolding topic_requires_auth
listen_payload_with_nonce topic auth_token nonce =
    let topics = field (str "topics") (array (cons (string topic) nil)) end in
    object (
      field (str "data")
        (object (
          if topic_requires_auth topic
          then field (str "auth_token") (string auth_token) topics
          else topics))
        (field (str "nonce") (string nonce) (field (str "type") (string (str "LISTEN")) end)))

unfoldable pub listen_payload : Text → Text → Value
unfolding listen_payload_with_nonce
listen_payload topic auth_token = listen_payload_with_nonce topic auth_token (str "nonce")

unfoldable pub ping_payload : Value
ping_payload = object (field (str "type") (string (str "PING")) end)

-- `format!("{:016x}")` of a `u64`.
hex_digit : ℕ → ℕ
hex_digit d = if ltb d 10 then 48 + d else 87 + d

unfoldable pub hex_digits : ℕ → ℕ → Text → Text
unfolding hex_digit
hex_digits zero n acc = acc
hex_digits (suc width) n acc = hex_digits width (n / 16) (hex_digit (n % 16) ∷ acc)

-- `listen_payloads`, from the next nonce of the counter.
unfoldable pub listen_payloads : ℕ → List Text → Text → List Value
unfolding listen_payload_with_nonce hex_digits
listen_payloads counter [] auth_token = []
listen_payloads counter (topic ∷ topics) auth_token =
    listen_payload_with_nonce topic auth_token (hex_digits 16 counter [])
    ∷ listen_payloads ((counter + 1) % 2 ^ 64) topics auth_token
