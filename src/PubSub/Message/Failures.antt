-- ===== src/PubSub/Message/Failures.antt =====
-- Which errors `parse_message` ends with.
use twitch_miner_rust.Base.{
  ◌≡◌, refl, arith, Bool, true, not, none, some, List, is_some, inl, inr, Option-cases,
}
use twitch_miner_rust.Base.Text.{Text, str, text_eq, is_blank}
use twitch_miner_rust.Domain.Json.{Value, get_key}
use twitch_miner_rust.Domain.Platform.{Platform}
use twitch_miner_rust.Domain.Streamer.{Streamer}
use twitch_miner_rust.PubSub.Good.{
  is_good, good-ok, good-ok_or, good-if, good_weaken, filter_option-same,
}
use twitch_miner_rust.PubSub.Message.{parse_message}
use twitch_miner_rust.PubSub.Message.Parsed.{is_parsed}
use twitch_miner_rust.PubSub.Message.Wellformed.{
  is_wellformed_option, is_protocol_error, is_failure_of, is_unreadable, message_of,
}
use twitch_miner_rust.PubSub.Message.Whole.{parsed-payload}
use twitch_miner_rust.PubSub.Notices.{text_or_default}
use twitch_miner_rust.PubSub.Protocol.{
  Formats, PubSubError, invalid_payload, protocol, missing_user_id, invalid_text, web_socket,
  event_channel_closed, reconnect_requested, bad_auth, pong_timeout, connect_timeout, Result, ◌>>=◌,
  ok_or,
}

-- The errors of a text.
module _ (f : Formats) (raw : Text) where
  -- A violation of the protocol is an error of a text that parses.
  pub failure_of_protocol :
      is_some (f.from_str raw) ≡ true
      → (e : PubSubError) → is_protocol_error e ≡ true
      → is_failure_of f raw e ≡ true
  unfolding is_protocol_error is_failure_of
  failure_of_protocol h (protocol message) g = h
  failure_of_protocol h missing_user_id g = g
  failure_of_protocol h invalid_payload g = ground (arith, g)
  failure_of_protocol h invalid_text g = g
  failure_of_protocol h web_socket g = g
  failure_of_protocol h event_channel_closed g = g
  failure_of_protocol h reconnect_requested g = g
  failure_of_protocol h (bad_auth cookie_file) g = g
  failure_of_protocol h pong_timeout g = g
  failure_of_protocol h connect_timeout g = g

  pub unreadable_outer : f.from_str raw ≡ none → is_unreadable f raw ≡ true
  unfolding is_unreadable
  unreadable_outer h = rw (h, is_unreadable) refl

  unreadable_inner :
      (message : Text) (envelope : Value)
      → f.from_str raw ≡ some envelope
      → message_of envelope ≡ some message
      → f.from_str message ≡ none
      → is_unreadable f raw ≡ true
  unfolding is_unreadable
  unreadable_inner message envelope h g k = rw (h, g, k, is_unreadable) refl

  pub parsed_is_some :
      (envelope : Value) → f.from_str raw ≡ some envelope → is_some (f.from_str raw) ≡ true
  parsed_is_some envelope h = rw h refl

  module _ {ℓ} {B : Type ℓ} (t : B → Bool) where
    -- JSON that does not parse is an unreadable payload.
    pub good-json :
        (text : Text) (k : Value → Result PubSubError B)
        → (f.from_str text ≡ none → is_unreadable f raw ≡ true)
        → ((v : Value) → f.from_str text ≡ some v → is_good (is_failure_of f raw) t (k v) ≡ true)
        → is_good (is_failure_of f raw) t (ok_or (f.from_str text) invalid_payload >>= k) ≡ true
    unfolding is_good ◌>>=◌ ok_or is_failure_of
    good-json text k h g = elim (Option-cases (f.from_str text)) [
      | inl e ↦ rw e (h e)
      | inr (v, e) ↦ rw e (g v e)
    ]

module _ (p : Platform) (f : Formats) (tracked : List Streamer) (raw : Text) where
  -- The result is no event, an event that `is_wellformed` accepts, or an error that the text can
  -- cause.
  pub good-parse_message :
      is_good (is_failure_of f raw) (is_wellformed_option tracked) (parse_message p f raw tracked)
      ≡ true
  unfolding parse_message is_failure_of is_wellformed_option message_of is_parsed
  good-parse_message = good-json f raw _ raw _ (unreadable_outer f raw) (λ envelope parsed.
      let readable = parsed_is_some f raw envelope parsed in
      good-if _ _
        (not (
          text_eq (p.to_uppercase (text_or_default (get_key (str "type") envelope)))
            (str "MESSAGE")))
        _ _ (λ _. good-ok _ _ _ refl)
        (λ _. good-ok_or _ _ _ _ _ readable (λ topic _.
          good-ok_or _ _ _ _ _ readable (λ message named.
            good-json f raw _ message _
              (unreadable_inner f raw message envelope parsed
                (filter_option-same (λ value. not (is_blank value)) _ message named))
              (λ payload _.
                good_weaken _ _ is_protocol_error _ (failure_of_protocol f raw readable)
                  (parsed-payload p f tracked topic payload))))))
