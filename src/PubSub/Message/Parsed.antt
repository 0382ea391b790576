-- ===== src/PubSub/Message/Parsed.antt =====
-- The parsers of single topics yield what `is_wellformed` asks for, and only errors of a message.
use twitch_miner_rust.Base.{
  ◌≡◌, refl, arith, Bool, true, false, not, ◌&&◌, Option, none, some, List, [], ◌∷◌, if◌then◌else◌,
  is_empty, map_option,
}
use twitch_miner_rust.Base.Int.{ℤ}
use twitch_miner_rust.Base.Text.{Text, str, text_eq, is_blank}
use twitch_miner_rust.Domain.Events.{
  MinerEvent, CommunityGoalKind, created, updated, deleted, PredictionUserKind, prediction_made,
  prediction_result, prediction_user, drop_progress, drop_ready_to_claim,
}
use twitch_miner_rust.Domain.Json.{Value, as_i64}
use twitch_miner_rust.Domain.Platform.{Platform}
use twitch_miner_rust.Domain.Streamer.{Streamer}
use twitch_miner_rust.PubSub.Good.{
  is_good, good-ok, good-bind, good-ok_or, good-refuse_if, good-if, trimmed_text-some,
}
use twitch_miner_rust.PubSub.Message.{
  parse_prediction_user_event, result_for, parse_prediction_result, is_valid_goal, parse_goal,
  goal_event, parse_community_goal_event,
}
use twitch_miner_rust.PubSub.Notices.{
  Parse, for_kind, parse_claim_available_event, parse_playback_event, parse_raid_event,
  parse_moment_event, parse_drop_event,
}
use twitch_miner_rust.PubSub.Message.Wellformed.{
  is_wellformed, is_wellformed_option, is_protocol_error,
}
use twitch_miner_rust.PubSub.Payload.{trimmed_text, pointer, and_then}
use twitch_miner_rust.PubSub.Protocol.{
  Formats, PubSubError, protocol, Result, ok, ◌>>=◌, ◌>>◌, refuse_if, ok_or,
}

-- A parser's result is no event, a wellformed one, or a violation of the protocol.
unfoldable pub is_parsed : List Streamer → Parse → Bool
is_parsed tracked m = is_good is_protocol_error (is_wellformed_option tracked) m

pub parsed-for_kind {ℓ} :
    {A : Type ℓ} (tracked : List Streamer) (o : Option A) (f : A → Parse)
    → ((a : A) → o ≡ some a → is_parsed tracked (f a) ≡ true)
    → is_parsed tracked (for_kind o f) ≡ true
unfolding is_parsed is_wellformed_option for_kind is_good
parsed-for_kind tracked none f g = refl
parsed-for_kind tracked (some a) f g = g a refl

pub not-of_false : (b : Bool) → b ≡ false → not b ≡ true
not-of_false b h = ground arith

pub and-intro : (a b : Bool) → a ≡ true → b ≡ true → (a && b) ≡ true
and-intro a b g h = ground arith

pub is_full : (o : Option Value) (t : Text) → trimmed_text o ≡ some t → not (is_empty t) ≡ true
is_full o t h = not-of_false _ (trimmed_text-some o t h)

of_not-false : (b : Bool) → not b ≡ false → b ≡ true
of_not-false b h = ground arith

good-parse_prediction_result :
    (p : Platform) (payload : Value)
    → is_good is_protocol_error (λ _. true) (parse_prediction_result p payload) ≡ true
unfolding parse_prediction_result is_protocol_error
good-parse_prediction_result p payload = good-ok_or _ _ _ _ _ refl (λ result _.
    good-ok_or _ _ _ _ _ refl
      (λ result_type _. good-refuse_if _ _ _ _ _ refl (λ _. good-ok _ _ _ refl)))

good-parse_goal :
    (f : Formats) (goal_value : Option Value)
    → is_good is_protocol_error is_valid_goal (parse_goal f goal_value) ≡ true
unfolding parse_goal is_protocol_error
good-parse_goal f goal_value = good-ok_or _ _ _ _ _ refl (λ value _.
    good-ok_or _ _ _ _ _ refl
      (λ goal _. good-refuse_if _ _ _ _ _ refl (λ valid. good-ok _ _ goal (of_not-false _ valid))))

module _ (tracked : List Streamer) where
  pub parsed-event :
      (event : MinerEvent)
      → is_wellformed tracked event ≡ true
      → is_parsed tracked (ok (some event)) ≡ true
  unfolding is_parsed is_wellformed_option
  parsed-event event h = good-ok is_protocol_error (is_wellformed_option tracked) (some event) h

  pub parsed-none : is_parsed tracked (ok none) ≡ true
  unfolding is_parsed is_wellformed_option is_good
  parsed-none = refl

  pub parsed-refuse_if :
      (b : Bool) (message : Text) (k : Parse)
      → (b ≡ false → is_parsed tracked k ≡ true)
      → is_parsed tracked (refuse_if b (protocol message) >> k) ≡ true
  unfolding is_parsed is_protocol_error
  parsed-refuse_if b message k g =
      good-refuse_if is_protocol_error (is_wellformed_option tracked) b (protocol message) k refl g

  pub parsed-ok_or {ℓ} :
      {A : Type ℓ} (o : Option A) (message : Text) (f : A → Parse)
      → ((a : A) → o ≡ some a → is_parsed tracked (f a) ≡ true)
      → is_parsed tracked (ok_or o (protocol message) >>= f) ≡ true
  unfolding is_parsed is_protocol_error
  parsed-ok_or o message f g =
      good-ok_or is_protocol_error (is_wellformed_option tracked) o (protocol message) f refl g

  pub parsed-if :
      (b : Bool) (k l : Parse)
      → (b ≡ true → is_parsed tracked k ≡ true)
      → (b ≡ false → is_parsed tracked l ≡ true)
      → is_parsed tracked (if b then k else l) ≡ true
  unfolding is_parsed
  parsed-if b k l g h = good-if is_protocol_error (is_wellformed_option tracked) b k l g h

  pub parsed-bind {ℓ} :
      {A : Type ℓ} (t : A → Bool) (m : Result PubSubError A) (f : A → Parse)
      → is_good is_protocol_error t m ≡ true
      → ((a : A) → t a ≡ true → is_parsed tracked (f a) ≡ true)
      → is_parsed tracked (m >>= f) ≡ true
  unfolding is_parsed
  parsed-bind t m f g h = good-bind is_protocol_error (is_wellformed_option tracked) t m f g h

  -- The result of a prediction of the viewer is there when the message is about a result.
  good-result_for :
      (p : Platform) (payload : Value) (kind : PredictionUserKind) (event_id : Text)
      → not (is_empty event_id) ≡ true
      → is_good is_protocol_error
          (λ result. is_wellformed tracked (prediction_user event_id kind result))
          (result_for p payload kind)
        ≡ true
  unfolding result_for is_wellformed is_protocol_error
  good-result_for p payload prediction_made event_id h = good-ok _ _ none (and-intro _ _ h refl)
  good-result_for p payload prediction_result event_id h =
      good-bind _ _ (λ _. true) (parse_prediction_result p payload) _
        (good-parse_prediction_result p payload)
        (λ result _. good-ok _ _ (some result) (and-intro _ _ h refl))

  parsed-goal :
      (f : Formats) (goal_value : Option Value) (channel_id : Text) (kind : CommunityGoalKind)
      → not (is_blank channel_id) ≡ true
      → is_parsed tracked (goal_event f goal_value channel_id kind) ≡ true
  unfolding goal_event is_wellformed
  parsed-goal f goal_value channel_id deleted h =
      parsed-ok_or _ _ _
        (λ goal_id found. parsed-event _ (and-intro _ _ (and-intro _ _ h refl) refl))
  parsed-goal f goal_value channel_id created h =
      parsed-bind is_valid_goal (parse_goal f goal_value) _ (good-parse_goal f goal_value)
        (λ goal valid. parsed-event _ (and-intro _ _ h valid))
  parsed-goal f goal_value channel_id updated h =
      parsed-bind is_valid_goal (parse_goal f goal_value) _ (good-parse_goal f goal_value)
        (λ goal valid. parsed-event _ (and-intro _ _ h valid))

  pub parsed-playback :
      (payload_type channel_id : Text)
      → is_parsed tracked (parse_playback_event payload_type channel_id) ≡ true
  unfolding parse_playback_event is_wellformed
  parsed-playback payload_type channel_id =
      parsed-for_kind tracked _ _
        (λ kind _. parsed-refuse_if _ _ _ (λ visible. parsed-event _ (not-of_false _ visible)))

  pub parsed-raid :
      (payload : Value) (channel_id : Text)
      → is_parsed tracked (parse_raid_event payload channel_id) ≡ true
  unfolding parse_raid_event is_wellformed
  parsed-raid payload channel_id = parsed-refuse_if _ _ _ (λ visible.
      parsed-ok_or _ _ _ (λ raid_id found. parsed-ok_or _ _ _ (λ target_login named.
        parsed-event _ (
          and-intro _ _ (and-intro _ _ (not-of_false _ visible) (is_full _ raid_id found))
            (is_full _ target_login named)))))

  pub parsed-moment :
      (payload : Value) (payload_type channel_id : Text)
      → is_parsed tracked (parse_moment_event payload payload_type channel_id) ≡ true
  unfolding parse_moment_event is_wellformed
  parsed-moment payload payload_type channel_id =
      parsed-if (not (text_eq payload_type (str "active"))) (ok none) _ (λ _. parsed-none)
        (λ _. parsed-refuse_if _ _ _ (λ visible. parsed-ok_or _ _ _ (λ moment_id found.
          parsed-event _ (and-intro _ _ (not-of_false _ visible) (is_full _ moment_id found)))))

  pub parsed-claim_available :
      (payload : Value) (channel_id : Text) (streamers : List Streamer)
      → is_parsed tracked (parse_claim_available_event payload channel_id streamers) ≡ true
  unfolding parse_claim_available_event is_wellformed
  parsed-claim_available payload channel_id streamers = parsed-ok_or _ _ _ (λ claim_id found.
      parsed-refuse_if _ _ _ (λ visible.
        parsed-event _ (and-intro _ _ (not-of_false _ visible) (is_full _ claim_id found))))

  -- `parse_drop_event`, on what it reads.
  parsed-drop_if :
      (progress claim : Bool) (drop_id instance : Option Text) (current required : Option ℤ)
      → ((t : Text) → drop_id ≡ some t → not (is_empty t) ≡ true)
      → ((t : Text) → instance ≡ some t → not (is_empty t) ≡ true)
      → is_parsed tracked (
          ok (
            if progress
            then and_then drop_id
                (λ d. and_then current (λ c. and_then required (λ r. some (drop_progress d c r))))
            else if claim
            then map_option drop_ready_to_claim instance
            else none))
        ≡ true
  unfolding is_wellformed
  parsed-drop_if true claim none instance current required g h = parsed-none
  parsed-drop_if true claim (some d) instance none required g h = parsed-none
  parsed-drop_if true claim (some d) instance (some c) none g h = parsed-none
  parsed-drop_if true claim (some d) instance (some c) (some r) g h = parsed-event _ (g d refl)
  parsed-drop_if false true drop_id none current required g h = parsed-none
  parsed-drop_if false true drop_id (some i) current required g h = parsed-event _ (h i refl)
  parsed-drop_if false false drop_id instance current required g h = parsed-none

  pub parsed-drop :
      (payload : Value) (payload_type : Text)
      → is_parsed tracked (ok (parse_drop_event payload payload_type)) ≡ true
  unfolding parse_drop_event
  parsed-drop payload payload_type =
      parsed-drop_if (text_eq payload_type (str "drop-progress"))
        (text_eq payload_type (str "drop-claim"))
        (trimmed_text (pointer (str "data" ∷ str "drop_id" ∷ []) payload))
        (trimmed_text (pointer (str "data" ∷ str "drop_instance_id" ∷ []) payload))
        (and_then (pointer (str "data" ∷ str "current_progress_min" ∷ []) payload) as_i64)
        (and_then (pointer (str "data" ∷ str "required_progress_min" ∷ []) payload) as_i64)
        (λ t. is_full _ t) (λ t. is_full _ t)

  pub parsed-user_prediction :
      (p : Platform) (payload : Value) (payload_type : Text)
      → is_parsed tracked (parse_prediction_user_event p payload payload_type) ≡ true
  unfolding parse_prediction_user_event is_wellformed
  parsed-user_prediction p payload payload_type = parsed-for_kind tracked _ _ (λ kind _.
      parsed-ok_or _ _ _ (λ event_id found.
        parsed-bind (λ result. is_wellformed tracked (prediction_user event_id kind result)) _ _
          (good-result_for p payload kind event_id (is_full _ event_id found))
          (λ result good. parsed-event _ good)))

  pub parsed-community_goal :
      (f : Formats) (payload : Value) (payload_type channel_id : Text)
      → is_parsed tracked (parse_community_goal_event f payload payload_type channel_id) ≡ true
  unfolding parse_community_goal_event is_wellformed
  parsed-community_goal f payload payload_type channel_id = parsed-for_kind tracked _ _ (λ kind _.
      parsed-refuse_if _ _ _ (λ visible. parsed-goal f _ channel_id kind (not-of_false _ visible)))
