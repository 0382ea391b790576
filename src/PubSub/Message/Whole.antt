-- ===== src/PubSub/Message/Whole.antt =====
-- The parser of a payload on every topic.
use twitch_miner_rust.Base.{◌≡◌, refl, arith, Bool, true, ◌&&◌, some, List, [], ◌∷◌, find, any}
use twitch_miner_rust.Base.Int.{pos, ltb_ℤ}
use twitch_miner_rust.Base.Text.{Text, str, text_eq, text_eq_refl, starts_with}
use twitch_miner_rust.Domain.Json.{Value, get_key, as_i64}
use twitch_miner_rust.Domain.Platform.{Platform}
use twitch_miner_rust.Domain.Streamer.{Streamer}
use twitch_miner_rust.PubSub.Good.{
  is_good, good-ok, good-ok_or, good-refuse_if, good-map_err, filter_option-some, nonnegative-some,
}
use twitch_miner_rust.PubSub.Message.{
  is_event_created, parse_prediction_channel_event, parse_payload,
}
use twitch_miner_rust.PubSub.Notices.{parse_points_earned_event, text_or_default}
use twitch_miner_rust.PubSub.Message.FreshPrediction.{good-parse_prediction_event}
use twitch_miner_rust.PubSub.Message.Parsed.{
  is_parsed, parsed-for_kind, parsed-event, parsed-none, parsed-ok_or, parsed-bind, parsed-if,
  and-intro, not-of_false, parsed-playback, parsed-raid, parsed-moment, parsed-claim_available,
  parsed-drop, parsed-user_prediction, parsed-community_goal,
}
use twitch_miner_rust.PubSub.Message.Wellformed.{
  is_wellformed, is_protocol_error, is_tracked, is_fresh_prediction,
}
use twitch_miner_rust.PubSub.Payload.{and_then}
use twitch_miner_rust.PubSub.Protocol.{Formats, protocol}

any_of_find {ℓ} :
    {A : Type ℓ} (q r : A → Bool) (xs : List A) (x : A)
    → find q xs ≡ some x
    → r x ≡ true
    → any r xs ≡ true
any_of_find q r [] x h g = ground (arith, h)
any_of_find q r (y ∷ ys) x h g = ground (arith, h, g, any_of_find q r ys x)

find_tracked :
    (tracked : List Streamer) (id : Text) (s : Streamer)
    → find (λ s. text_eq s.channel_id id) tracked ≡ some s
    → is_tracked tracked s.channel_id ≡ true
unfolding is_tracked
find_tracked tracked id s h =
    any_of_find (λ t. text_eq t.channel_id id) (λ t. text_eq t.channel_id s.channel_id) tracked s h
      (text_eq_refl s.channel_id)

module _ (p : Platform) (f : Formats) (tracked : List Streamer) where
  parsed-prediction_channel :
      (payload : Value) (payload_type channel_id : Text)
      → is_parsed tracked
          (parse_prediction_channel_event p f payload payload_type channel_id tracked)
        ≡ true
  unfolding parse_prediction_channel_event is_protocol_error is_wellformed
  parsed-prediction_channel payload payload_type channel_id = parsed-for_kind tracked _ _ (λ kind _.
      parsed-for_kind tracked _ _ (λ streamer found. parsed-ok_or tracked _ _ _ (λ raw _.
        parsed-bind tracked
          (λ event.
            is_tracked tracked event.streamer.channel_id
            && is_fresh_prediction (is_event_created kind) event)
          _ _
          (good-map_err is_protocol_error _ protocol _ (λ e. refl)
            (good-parse_prediction_event p f tracked streamer raw (is_event_created kind)
              (find_tracked tracked channel_id streamer found)))
          (λ event good. parsed-event tracked _ good))))

  good-points :
      (payload : Value) (channel_id : Text)
      → is_good is_protocol_error
          (is_wellformed tracked)
          (parse_points_earned_event p f payload channel_id)
        ≡ true
  unfolding parse_points_earned_event is_protocol_error is_wellformed
  good-points payload channel_id = good-refuse_if _ _ _ _ _ refl (λ visible.
      good-ok_or _ _ _ _ _ refl (λ gain _. good-ok_or _ _ _ _ _ refl (λ earned earns.
        good-ok_or _ _ _ _ _ refl (λ reason _. good-ok_or _ _ _ _ _ refl (λ balance positive.
          good-ok _ _ _ (
            and-intro _ _
              (and-intro _ _ (not-of_false _ visible) (
                filter_option-some (λ value. ltb_ℤ (pos 0) value)
                  (and_then (get_key (str "total_points") gain) as_i64) earned earns))
              (nonnegative-some _ balance positive)))))))

  pub parsed-payload :
      (topic : Text) (payload : Value)
      → is_parsed tracked (parse_payload p f topic payload tracked) ≡ true
  unfolding parse_payload
  parsed-payload topic payload =
      let payload_type = p.to_lowercase (text_or_default (get_key (str "type") payload)) in
      parsed-if tracked (text_eq payload_type (str "points-earned")) _ _
        (λ _.
          parsed-bind tracked (is_wellformed tracked) _ _ (good-points payload _)
            (λ event good. parsed-event tracked _ good))
        (λ _.
          parsed-if tracked (text_eq payload_type (str "claim-available")) _ _
            (λ _. parsed-claim_available tracked payload _ tracked)
            (λ _.
              parsed-if tracked (starts_with topic (str "video-playback-by-id.")) _ _
                (λ _. parsed-playback tracked payload_type _)
                (λ _.
                  parsed-if tracked (starts_with topic (str "raid.")) _ _
                    (λ _. parsed-raid tracked payload _)
                    (λ _.
                      parsed-if tracked (starts_with topic (str "community-moments-channel-v1.")) _
                        _ (λ _. parsed-moment tracked payload payload_type _)
                        (λ _.
                          parsed-if tracked (starts_with topic (str "predictions-channel-v1.")) _ _
                            (λ _. parsed-prediction_channel payload payload_type _)
                            (λ _.
                              parsed-if tracked (starts_with topic (str "predictions-user-v1.")) _ _
                                (λ _. parsed-user_prediction tracked p payload payload_type)
                                (λ _.
                                  parsed-if tracked
                                    (starts_with topic (str "community-points-channel-v1.")) _ _
                                    (λ _. parsed-community_goal tracked f payload payload_type _)
                                    (λ _.
                                      parsed-if tracked
                                        (starts_with topic (str "user-drop-events.")) _ _
                                        (λ _. parsed-drop tracked payload payload_type)
                                        (λ _. parsed-none tracked)))))))))
