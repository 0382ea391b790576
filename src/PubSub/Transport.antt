-- ===== src/PubSub/Transport.antt =====
-- crates/tm-pubsub/src/parse.rs: `parse_transport_message`.
use mathlib.Core.Path.{subst}
use twitch_miner_rust.Base.{
  ◌≡◌, refl, Bool, true, ◌||◌, Option, none, some, List, [], ◌∷◌, if◌then◌else◌, is_empty, is_some,
}
use twitch_miner_rust.Base.Text.{Text, str, text_eq, trim, starts_with}
use twitch_miner_rust.Domain.Events.{MinerEvent}
use twitch_miner_rust.Domain.Json.{Value, get_key, as_str}
use twitch_miner_rust.Domain.Platform.{Platform}
use twitch_miner_rust.Domain.Streamer.{Streamer}
use twitch_miner_rust.PubSub.Good.{is_good, good-ok, good-bind, good-ok_or, good-if}
use twitch_miner_rust.PubSub.Message.{parse_message}
use twitch_miner_rust.PubSub.Notices.{text_or_default}
use twitch_miner_rust.PubSub.Message.Wellformed.{is_wellformed, is_wellformed_option, is_failure_of}
use twitch_miner_rust.PubSub.Message.Failures.{
  good-json, good-parse_message, parsed_is_some, unreadable_outer,
}
use twitch_miner_rust.PubSub.Payload.{and_then, trimmed_text}
use twitch_miner_rust.PubSub.Protocol.{
  Formats, PubSubError, protocol, invalid_payload, IncomingTransportMessage, pong, reconnect,
  response_ok, response_error, event, ignore, Result, ok, err, ◌>>=◌, ok_or,
}

-- `str::contains`.
unfoldable pub contains_text : Text → Text → Bool
contains_text [] needle = starts_with [] needle
contains_text (c ∷ s) needle = starts_with (c ∷ s) needle || contains_text s needle

abbrev pub ParseTransport : Type 0
ParseTransport = Result PubSubError IncomingTransportMessage

unfoldable pub parse_response : Value → ParseTransport
unfolding text_or_default trimmed_text contains_text
parse_response envelope =
    let error = trim (text_or_default (get_key (str "error") envelope)) in
    if is_empty error
    then (ok_or (trimmed_text (get_key (str "nonce") envelope))
          (protocol (str "PubSub response nonce is missing"))
        >>= λ nonce. ok (response_ok (some nonce)))
    else ok (
        response_error (and_then (get_key (str "nonce") envelope) as_str)
          (contains_text error (str "ERR_BADAUTH")))

unfoldable pub transport_event : Option MinerEvent → IncomingTransportMessage
transport_event none = ignore
transport_event (some e) = event e

unfoldable pub parse_transport_message : Platform → Formats → Text → List Streamer → ParseTransport
unfolding parse_response parse_message transport_event
parse_transport_message p f raw tracked_streamers =
    ok_or (f.from_str raw) invalid_payload >>= λ envelope.
    let message_type = p.to_uppercase (trim (text_or_default (get_key (str "type") envelope))) in
    if text_eq message_type (str "PONG")
    then ok pong
    else if text_eq message_type (str "RECONNECT")
    then ok reconnect
    else if text_eq message_type (str "RESPONSE")
    then parse_response envelope
    else if text_eq message_type (str "MESSAGE")
    then (parse_message p f raw tracked_streamers >>= λ e. ok (transport_event e))
    else ok ignore

-- An event is wellformed, and an accepted LISTEN is that of a nonce.
unfoldable pub is_wellformed_transport : List Streamer → IncomingTransportMessage → Bool
unfolding is_wellformed
is_wellformed_transport tracked (event e) = is_wellformed tracked e
is_wellformed_transport tracked (response_ok nonce) = is_some nonce
is_wellformed_transport tracked _ = true

module _ (tracked : List Streamer) where
  good-parse_response :
      (f : Formats) (raw : Text) (envelope : Value)
      → is_some (f.from_str raw) ≡ true
      → is_good (is_failure_of f raw) (is_wellformed_transport tracked) (parse_response envelope)
        ≡ true
  unfolding parse_response is_wellformed_transport is_failure_of
  good-parse_response f raw envelope readable =
      good-if _ _ (is_empty (trim (text_or_default (get_key (str "error") envelope)))) _ _
        (λ _. good-ok_or _ _ _ _ _ readable (λ nonce _. good-ok _ _ _ refl))
        (λ _. good-ok _ _ _ refl)

  wellformed-transport_event :
      (e : Option MinerEvent)
      → is_wellformed_option tracked e ≡ true
      → is_wellformed_transport tracked (transport_event e) ≡ true
  unfolding transport_event is_wellformed_transport is_wellformed_option
  wellformed-transport_event none h = refl
  wellformed-transport_event (some e) h = h

  good-parse_transport_message :
      (p : Platform) (f : Formats) (raw : Text)
      → is_good
          (is_failure_of f raw)
          (is_wellformed_transport tracked)
          (parse_transport_message p f raw tracked)
        ≡ true
  unfolding parse_transport_message is_wellformed_transport
  good-parse_transport_message p f raw =
      good-json f raw _ raw _ (unreadable_outer f raw) (λ envelope parsed.
        let message_type =
          p.to_uppercase (trim (text_or_default (get_key (str "type") envelope))) in
        good-if _ _ (text_eq message_type (str "PONG")) _ _ (λ _. good-ok _ _ _ refl)
          (λ _.
            good-if _ _ (text_eq message_type (str "RECONNECT")) _ _ (λ _. good-ok _ _ _ refl)
              (λ _.
                good-if _ _ (text_eq message_type (str "RESPONSE")) _ _
                  (λ _. good-parse_response f raw envelope (parsed_is_some f raw envelope parsed))
                  (λ _.
                    good-if _ _ (text_eq message_type (str "MESSAGE")) _ _
                      (λ _.
                        good-bind _ _ (is_wellformed_option tracked) _ _
                          (good-parse_message p f tracked raw)
                          (λ e good. good-ok _ _ _ (wellformed-transport_event e good)))
                      (λ _. good-ok _ _ _ refl)))))

  -- A message of the transport fails in two ways, whatever the text and the tracked streamers: as
  -- an invalid payload only where the text, or the message inside its envelope, is JSON that does
  -- not parse, and as a violation of the protocol only where the text is JSON that parses. It never
  -- fails as the connection does.
  pub parse_transport_message-error :
      (p : Platform) (f : Formats) (raw : Text) (e : PubSubError)
      → parse_transport_message p f raw tracked ≡ err e
      → is_failure_of f raw e ≡ true
  unfolding is_good
  parse_transport_message-error p f raw e h =
      subst (λ m. is_good (is_failure_of f raw) (is_wellformed_transport tracked) m ≡ true) h
        (good-parse_transport_message p f raw)

  -- A parsed message of the transport is wellformed: an accepted LISTEN has its nonce, and an event
  -- has its channel, its identifiers, a positive gain and a balance that is not negative, a valid
  -- goal, and a prediction that has no bet placed or confirmed, is of a tracked channel and, if it
  -- was created, has a title and at least two outcomes.
  pub parse_transport_message-wellformed :
      (p : Platform) (f : Formats) (raw : Text) (message : IncomingTransportMessage)
      → parse_transport_message p f raw tracked ≡ ok message
      → is_wellformed_transport tracked message ≡ true
  unfolding is_good
  parse_transport_message-wellformed p f raw message h =
      subst (λ m. is_good (is_failure_of f raw) (is_wellformed_transport tracked) m ≡ true) h
        (good-parse_transport_message p f raw)
